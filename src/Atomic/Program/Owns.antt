-- ===== src/Atomic/Program/Owns.antt =====
-- Counting what programs get and give back.
use debian_config_files.Base.{
  ℕ, ◌+◌, ◌≡◌, refl, none, some, Option, List, Bool, true, false, if◌then◌else◌, arith,
}
use debian_config_files.Modeset.Kernel.{Resource, Log, refuse, commit, CommitFlags, Setting}
use debian_config_files.Modeset.Kernel.Balance.{same, Gains}
use debian_config_files.Modeset.Setup.{Status, ok, err}
use debian_config_files.Atomic.Program.{
  on_status, Machine, Ending, returned, faulted, waiting, Program, pure, wait, and_then, ◌>>=◌,
  ◌>>◌, look, change, emit, get, give, fetch,
}

-- It does not fault, it waits for ever only if it may, and what it returns with has a property.
abbrev pub Meets {ℓ} : {A : Type ℓ} → Bool → (A → Machine → Type 0) → Ending A → Type 0
Meets w P (returned a m) = P a m
Meets w P faulted = ⊥
Meets w P waiting = w ≡ true

pub Meets-map {ℓ} :
    {A : Type ℓ} (w : Bool) {P Q : A → Machine → Type 0} (o : Ending A)
    → ((a : A) (m : Machine) → P a m → Q a m)
    → Meets w P o
    → Meets w Q o
Meets-map w (returned a m) f h = f a m h
Meets-map w faulted f h = h
Meets-map w waiting f h = h

pub Meets-and_then {ℓ κ} :
    {A : Type ℓ} {B : Type κ} (w : Bool) {P : A → Machine → Type 0} (Q : B → Machine → Type 0)
    (o : Ending A) (f : A → Program B)
    → ((a : A) (m : Machine) → P a m → Meets w Q (f a m))
    → Meets w P o
    → Meets w Q (and_then o f)
Meets-and_then w Q (returned a m) f g h = g a m h
Meets-and_then w Q faulted f g h = absurd h
Meets-and_then w Q waiting f g h = h

-- Started where the run holds `r` `n` times, and `c` times beside that, a program returns an `a`
-- with `P a`, where the run holds `r` `k a` times, and `c` times beside that.
pub record Owns {ℓ} {A : Type ℓ} (w : Bool) (r : Resource) (n : ℕ) (p : Program A) (k : A → ℕ)
    (P : A → Type 0) : Type 0 where
  pub runs :
      (m : Machine) (l : Log) (c : ℕ)
      → Gains r l m.world.log (n + c)
      → Meets w (λ a m'. Gains r l m'.world.log (k a + c) × P a) (p m)

-- Nothing is said of what is returned.
abbrev pub Any {ℓ} : {A : Type ℓ} → A → Type 0
Any a = Unit

module _ (w : Bool) (r : Resource) where
  module _ {ℓ κ} {A : Type ℓ} {B : Type κ} where
    pub Owns-bind :
        {n : ℕ} {p : Program A} {f : A → Program B} {j : A → ℕ} {P : A → Type 0} {k : B → ℕ}
        {Q : B → Type 0}
        → Owns w r n p j P
        → ((a : A) → P a → Owns w r (j a) (f a) k Q)
        → Owns w r n (p >>= f) k Q
    unfolding ◌>>=◌
    Owns-bind {n} {p} {f} {j} {P} {k} {Q} h g = record {
      runs = λ m l c q.
          Meets-and_then w _ (p m) f (λ a m' e. (g a e.1).runs m' l c e.0) (h.runs m l c q);
    }

    pub Owns-next :
        {n : ℕ} {p : Program A} {f : Program B} {j : ℕ} {P : A → Type 0} {k : B → ℕ}
        {Q : B → Type 0}
        → Owns w r n p (λ _. j) P
        → Owns w r j f k Q
        → Owns w r n (p >> f) k Q
    Owns-next h g = Owns-bind h (λ a _. g)

  module _ {ℓ} {A : Type ℓ} where
    pub Owns-pure :
        {n : ℕ} (a : A) {k : A → ℕ} {P : A → Type 0} → n ≡ k a → P a → Owns w r n (pure a) k P
    unfolding pure
    Owns-pure a e h = record { runs = λ m l c q. (omega arith, h) }

    pub Owns-if :
        {n : ℕ} {p q : Program A} {k : A → ℕ} {P : A → Type 0} (b : Bool)
        → Owns w r n p k P
        → Owns w r n q k P
        → Owns w r n (if b then p else q) k P
    Owns-if true h g = h
    Owns-if false h g = g

    -- The same with what the test says.
    pub Owns-test :
        {n : ℕ} {p q : Program A} {k : A → ℕ} {P : A → Type 0} (b : Bool)
        → (b ≡ true → Owns w r n p k P)
        → (b ≡ false → Owns w r n q k P)
        → Owns w r n (if b then p else q) k P
    Owns-test true h g = h refl
    Owns-test false h g = g refl

    pub Owns-status :
        {n : ℕ} (f : ℕ → Program A) {p : Program A} {k : A → ℕ} {P : A → Type 0} (s : Status)
        → ((e : ℕ) → s ≡ err e → Owns w r n (f e) k P)
        → (s ≡ ok → Owns w r n p k P)
        → Owns w r n (on_status s f p) k P
    Owns-status f (err e) h g = h e refl
    Owns-status f ok h g = g refl

    pub Owns-wait : (n : ℕ) (k : A → ℕ) (P : A → Type 0) → w ≡ true → Owns w r n wait k P
    unfolding wait
    Owns-wait n k P e = record { runs = λ m l c q. e }

    pub Owns-look : (n : ℕ) (f : Log → A) → Owns w r n (look f) (λ a. n) Any
    unfolding look
    Owns-look n f = record { runs = λ m l c q. (q, tt) }

    -- The two sides counted otherwise, and less said.
    pub Owns-same :
        {n n' : ℕ} {p : Program A} {k k' : A → ℕ} {P P' : A → Type 0}
        → n ≡ n'
        → ((a : A) → P a → (k a ≡ k' a) × P' a)
        → Owns w r n p k P
        → Owns w r n' p k' P'
    Owns-same {n} {n'} {p} {k} {k'} {P} {P'} e f h = record {
      runs = λ m l c q.
          Meets-map w (p m)
            (λ a m' g. (let (same_count, holds) = f a g.1 in (omega (arith, g.0), holds)))
            (h.runs m l c (omega arith));
    }

    -- What a program does not touch stays beside it.
    pub Owns-frame :
        {n : ℕ} {p : Program A} {k : A → ℕ} {P : A → Type 0} (d : ℕ)
        → Owns w r n p k P
        → Owns w r (n + d) p (λ a. k a + d) P
    Owns-frame {n} {p} {k} {P} d h = record {
      runs = λ m l c q.
          Meets-map w (p m) (λ a m' g. (omega (arith, g.0), g.1))
            (h.runs m l (d + c) (omega arith));
    }

  -- A call that gives a pointer: the two cases of what follows.
  module _ {ℓ κ} {A : Type ℓ} {B : Type κ} where
    pub Owns-fetch :
        {n : ℕ} (f : Option A → Program B) {k : B → ℕ} {P : B → Type 0} (q : A → Resource)
        (o : Option A)
        → (o ≡ none → Owns w r n (f none) k P)
        → ((a : A) → o ≡ some a → Owns w r (same r (q a) + n) (f (some a)) k P)
        → Owns w r n (fetch q o >>= f) k P
    unfolding ◌>>=◌ fetch get emit change pure
    Owns-fetch f q none h g = record { runs = λ m l c e. (h refl).runs _ l c (omega arith) }
    Owns-fetch f q (some a) h g = record { runs = λ m l c e. (g a refl).runs _ l c (omega arith) }

  pub Owns-get : (n : ℕ) (q : Resource) → Owns w r n (get q) (λ _. same r q + n) Any
  unfolding get emit change
  Owns-get n q = record { runs = λ m l c g. (omega arith, tt) }

  pub Owns-give : (n : ℕ) (q : Resource) → Owns w r (same r q + n) (give q) (λ _. n) Any
  unfolding give emit change
  Owns-give n q = record { runs = λ m l c g. (omega arith, tt) }

  pub Owns-refuse : (n : ℕ) → Owns w r n (emit refuse) (λ _. n) Any
  unfolding emit change
  Owns-refuse n = record { runs = λ m l c g. (omega arith, tt) }

  pub Owns-commit :
      (n : ℕ) (flags : CommitFlags) (settings : List Setting)
      → Owns w r n (emit (commit flags settings)) (λ _. n) Any
  unfolding emit change
  Owns-commit n flags settings = record { runs = λ m l c g. (omega arith, tt) }
