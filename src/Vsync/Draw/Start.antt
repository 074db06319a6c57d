-- ===== src/Vsync/Draw/Start.antt =====
-- The first frames of `modeset_draw` of perftools/X/drm-howto/modeset-vsync.c.
use debian_config_files.Base.{
  ℕ, ◌+◌, ◌%◌, ◌≡◌, ◌≢◌, ◌⊎◌, inl, inr, refl, sym, subst, ◌∙◌, true, none, List, [], ◌∷◌, All,
  arith, ◌==◌, Bool-cases,
}
use debian_config_files.Modeset.Draw.{Shade}
use debian_config_files.Double.Draw.{Display}
use debian_config_files.Vsync.Host.{Dev, Kernel, Host, Round}
use debian_config_files.Vsync.Draw.{start_dev, start_devs, watch, draw}
use debian_config_files.Vsync.Draw.Invariant.{
  Good, ids_of, AllDistinct, Uses, Inv, Elsewhere, Stepped, Ready, draw_dev-Stepped,
}
use debian_config_files.Vsync.Draw.Safety.{Safe, Safe-map, Kept, Kept-trans, watch-Kept}

-- The kernel's state is the same but for the devices' CRTCs.
pub record Outside (is : List (ℕ × ℕ)) (k k' : Kernel) : Type 0 where
  pub flip : (c : ℕ) → (Uses c is → ⊥) → k'.flip c ≡ k.flip c
  pub scan : (c : ℕ) → (Uses c is → ⊥) → k'.scan c ≡ k.scan c

pub Outside-cons :
    (i : ℕ × ℕ) (is : List (ℕ × ℕ)) (k k' k'' : Kernel)
    → Elsewhere i.1 k k'
    → Outside is k' k''
    → Outside (i ∷ is) k k''
Outside-cons i is k k' k'' e o = record {
  flip = λ c n. o.flip c (λ u. n (inr u)) ∙ e.flip c (λ q. n (inl (sym q)));
  scan = λ c n. o.scan c (λ u. n (inr u)) ∙ e.scan c (λ q. n (inl (sym q)));
}

pub Uses-cases : (c : ℕ) (is : List (ℕ × ℕ)) → Uses c is ⊎ (Uses c is → ⊥)
Uses-cases c [] = inr (λ u. u)
Uses-cases c (i ∷ is) = elim (Bool-cases (i.1 == c)) [
  | inl q ↦ inl (inl (ground arith))
  | inr q ↦ elim (Uses-cases c is) [
    | inl u ↦ inl (inr u)
    | inr n ↦ inr (λ u. elim u [ inl h ↦ absurd (ground arith) | inr h ↦ n h ])
  ]
]

pub own_crtc :
    (i : ℕ × ℕ) (is : List (ℕ × ℕ)) → All (λ j. (i.0 ≢ j.0) × (i.1 ≢ j.1)) is → Uses i.1 is → ⊥
own_crtc i [] a u = u
own_crtc i (j ∷ js) a (inl h) = a.0.1 (sym h)
own_crtc i (j ∷ js) a (inr u) = own_crtc i js a.1 u

Ready-Elsewhere :
    (crtc : ℕ) (k k' : Kernel) (d : Dev)
    → Elsewhere crtc k k'
    → d.dev.crtc ≢ crtc
    → Ready d k
    → Ready d k'
Ready-Elsewhere crtc k k' d e n r = record {
  saved = r.saved;
  fbs = r.fbs;
  pending = r.pending;
  flip = e.flip d.dev.crtc n ∙ r.flip;
  scan = rw (e.scan d.dev.crtc n) r.scan;
}

pub Ready-others :
    (i : ℕ × ℕ) (k k' : Kernel) (devs : List Dev)
    → Elsewhere i.1 k k'
    → All (λ j. (i.0 ≢ j.0) × (i.1 ≢ j.1)) (ids_of devs)
    → All (λ d. Ready d k) devs
    → All (λ d. Ready d k') devs
Ready-others i k k' [] e a r = tt
Ready-others i k k' (d ∷ devs) e a r =
    (Ready-Elsewhere i.1 k k' d e (λ q. a.0.1 (sym q)) r.0, Ready-others i k k' devs e a.1 r.1)

Good-Outside :
    (is : List (ℕ × ℕ)) (k k' : Kernel) (d : Dev)
    → Outside is k k'
    → (Uses d.dev.crtc is → ⊥)
    → Good k d
    → Good k' d
Good-Outside is k k' d o n g = record {
  saved = g.saved;
  fbs = g.fbs;
  phase = rw (o.flip d.dev.crtc n, o.scan d.dev.crtc n) g.phase;
}

record Started (devs : List Dev) (k : Kernel) (out : List Dev × Host) : Type 0 where
  good : All (Good out.1.kernel) out.0
  ids : ids_of out.0 ≡ ids_of devs
  outside : Outside (ids_of devs) k out.1.kernel

module _ (display : Display) where
  start_dev-Stepped :
      (d : Dev) (h : Host)
      → Ready d h.kernel
      → Stepped d h.kernel (start_dev display d h).0 (start_dev display d h).1.kernel
  unfolding start_dev
  start_dev-Stepped d h r =
      let n = h.rands in
      let shade : Shade = record {
        r = display.drm.rand n % 255;
        g = display.drm.rand (n + 1) % 255;
        b = display.drm.rand (n + 2) % 255;
        r_up = true;
        g_up = true;
        b_up = true;
        calls = n + 3;
      } in
      let s =
        draw_dev-Stepped display (record d { shade = shade }) (record h { rands = n + 3 })
          (record {
            saved = r.saved;
            fbs = r.fbs;
            pending = r.pending;
            flip = r.flip;
            scan = r.scan;
          }) in
      record {
        self = s.self;
        crtc = s.crtc;
        buf0 = s.buf0;
        buf1 = s.buf1;
        cleanup = s.cleanup;
        good = s.good;
        elsewhere = s.elsewhere;
      }

  start_devs-Started :
      (devs : List Dev) (h : Host)
      → AllDistinct (ids_of devs)
      → All (λ d. Ready d h.kernel) devs
      → Started devs h.kernel (start_devs display devs h)
  unfolding start_devs
  start_devs-Started [] h u r = record {
    good = tt;
    ids = refl;
    outside = record { flip = λ c n. refl; scan = λ c n. refl };
  }
  start_devs-Started (d ∷ devs) h u r =
      let i : ℕ × ℕ = (d.dev.self, d.dev.crtc) in
      let (d', h') = start_dev display d h in
      let s = start_dev-Stepped d h r.0 in
      let rest =
        start_devs-Started devs h' u.1
          (Ready-others i h.kernel h'.kernel devs s.elsewhere u.0 r.1) in
      record {
        good = (
          Good-Outside (ids_of devs) h'.kernel _ d' rest.outside
              (λ v. own_crtc i (ids_of devs) u.0 (subst (λ c. Uses c (ids_of devs)) s.crtc v))
              s.good,
          rest.good,
        );
        ids = rw (s.self, s.crtc, rest.ids) refl;
        outside =
            Outside-cons i (ids_of devs) h.kernel h'.kernel (start_devs display devs h').1.kernel
              s.elsewhere rest.outside;
      }

  -- All of `modeset_draw`, from devices that wait for nothing, while no flip is pending.
  pub draw-Kept :
      (start : ℕ) (rounds : List Round) (devs : List Dev) (h : Host)
      → AllDistinct (ids_of devs)
      → All (λ d. Ready d h.kernel) devs
      → ((c : ℕ) → h.kernel.flip c ≡ none)
      → Safe true (Kept devs) (draw display start rounds devs h)
  unfolding draw
  draw-Kept start rounds devs h u r quiet =
      let s = start_devs-Started devs h u r in
      let (devs', h') = start_devs display devs h in
      let i : Inv devs' h'.kernel = record {
        good = s.good;
        distinct = rw s.ids u;
        owned = λ c f e. elim (Uses-cases c (ids_of devs)) [
          | inl v ↦ rw s.ids v
          | inr n ↦ absurd (ground (arith, sym (s.outside.flip c n ∙ quiet c) ∙ e))
        ];
      } in
      Safe-map true (watch display (start + 5) rounds devs' h')
        (λ out k. Kept-trans devs (devs', h') out (record { inv = i; ids = s.ids }) k)
        (watch-Kept display (start + 5) rounds devs' h' i)
