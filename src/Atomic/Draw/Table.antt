-- ===== src/Atomic/Draw/Table.antt =====
-- What `modeset_atomic_prepare_commit` of perftools/X/drm-howto/modeset-atomic.c puts into a
-- request, as a table.
use Prim.Native.String.{String}
use debian_config_files.Base.{
  ℕ, ◌*◌, ◌%◌, ◌^◌, ◌≡◌, refl, ap, ◌∙◌, sym, Option, none, some, List, [], ◌∷◌, ◌++◌,
}
use mathlib.Core.List.{append_assoc, append-nil}
use debian_config_files.Modeset.Kernel.{Setting, Log}
use debian_config_files.Modeset.Setup.{Status, ok, err}
use debian_config_files.Atomic.Program.{Card, Machine, returned, Program, pure, ◌>>=◌, on_status}
use debian_config_files.Atomic.Objects.{DrmObject, Request, set_object_property}
use debian_config_files.Atomic.Objects.Balance.{IsLoaded}
use debian_config_files.Atomic.Objects.Set.{
  first_named, set_result, bind-returned, set_object_property-returned,
}
use debian_config_files.Atomic.Output.{Output}
use debian_config_files.Atomic.Output.Objects.{IsReady}
use debian_config_files.Atomic.Draw.{back_of, set_next, prepare_plane, prepare_commit}

-- A property by its name, of an object, and its value.
pub record Entry : Type 0 where
  pub object : DrmObject
  pub name : String
  pub value : ℕ

abbrev pub entry : DrmObject → String → ℕ → Entry
entry obj name value = record { object = obj; name = name; value = value }

-- The connector is to use the CRTC; the CRTC is to be active, with the output's mode; the plane is to
-- show the whole back buffer (in 16.16 fixed point) on the whole of the CRTC.
abbrev pub table : Output → List Entry
table out =
    entry out.conn "CRTC_ID" out.crtc.id
    ∷ entry out.crtc "MODE_ID" out.mode_blob_id
    ∷ entry out.crtc "ACTIVE" 1
    ∷ entry out.plane "FB_ID" (back_of out).fb
    ∷ entry out.plane "CRTC_ID" out.crtc.id
    ∷ entry out.plane "SRC_X" 0
    ∷ entry out.plane "SRC_Y" 0
    ∷ entry out.plane "SRC_W" ((back_of out).width * 65536 % 2 ^ 32)
    ∷ entry out.plane "SRC_H" ((back_of out).height * 65536 % 2 ^ 32)
    ∷ entry out.plane "CRTC_X" 0
    ∷ entry out.plane "CRTC_Y" 0
    ∷ entry out.plane "CRTC_W" (back_of out).width
    ∷ entry out.plane "CRTC_H" (back_of out).height
    ∷ []

-- The settings that a table stands for, if each of its names is found.
abbrev pub with_prop : Entry → Option (List Setting) → Option ℕ → Option (List Setting)
with_prop e none id = none
with_prop e (some settings) none = none
with_prop e (some settings) (some id) =
    some (record { object = e.object.id; prop = id; value = e.value } ∷ settings)

abbrev pub settings_of : List Entry → Option (List Setting)
settings_of [] = some []
settings_of (e ∷ entries) = with_prop e (settings_of entries) (first_named e.name e.object.info)

-- The request with those settings behind its own, or the error -1.
abbrev pub Commits : Option (List Setting) → Request → Status × Request → Type 0
Commits none req p = p.0 ≡ err 1
Commits (some settings) req p = p ≡ (ok, record req { settings = req.settings ++ settings })

-- One entry after others.
abbrev step_found : Entry → Request → Option ℕ → Status × Request
step_found e req none = (err 1, req)
step_found e req (some id) = (
  ok,
  record req {
    settings = req.settings ++ (record { object = e.object.id; prop = id; value = e.value } ∷ []);
  },
)

abbrev step : Entry → Status × Request → Status × Request
step e (err x, req) = (err x, req)
step e (ok, req) = step_found e req (first_named e.name e.object.info)

abbrev steps : List Entry → Status × Request → Status × Request
steps [] p = p
steps (e ∷ entries) p = steps entries (step e p)

module _ (card : Card) (adds : (log : Log) (s : Setting) → card.add_property log s ≡ ok)
    (m : Machine) where
  set_next-returned :
      (e : Entry) (p : Status × Request)
      → IsLoaded e.object
      → set_next card e.object e.name e.value p m ≡ returned (step e p) m
  unfolding set_next pure
  set_next-returned e (err x, req) h = refl
  set_next-returned e (ok, req) h =
      bind-returned (set_object_property card e.object e.name e.value req) _
        (set_object_property-returned card adds m e.object e.name e.value req h)
      ∙ finish (first_named e.name e.object.info)
    where
      finish :
          (o : Option ℕ)
          → on_status
              (set_result e.object e.value req o).0
              (λ x. pure (err 1, (set_result e.object e.value req o).1))
              (pure (set_result e.object e.value req o))
              m
            ≡ returned (step_found e req o) m
      finish none = refl
      finish (some id) = refl

  -- One line of `modeset_atomic_prepare_commit`, and what comes after it.
  next :
      (e : Entry) (p : Status × Request) (f : Status × Request → Program (Status × Request))
      → IsLoaded e.object
      → (set_next card e.object e.name e.value p >>= f) m ≡ f (step e p) m
  next e p f h = bind-returned (set_next card e.object e.name e.value p) f (set_next-returned e p h)

  prepare_commit-steps :
      (out : Output) (req : Request)
      → IsReady out
      → prepare_commit card out req m ≡ returned (steps (table out) (ok, req)) m
  unfolding prepare_commit prepare_plane
  prepare_commit-steps out req h =
      next (entry out.conn _ _) _ _ h.conn
      ∙ next (entry out.crtc _ _) _ _ h.crtc
      ∙ next (entry out.crtc _ _) _ _ h.crtc
      ∙ next (entry out.plane _ _) _ _ h.plane
      ∙ next (entry out.plane _ _) _ _ h.plane
      ∙ next (entry out.plane _ _) _ _ h.plane
      ∙ next (entry out.plane _ _) _ _ h.plane
      ∙ next (entry out.plane _ _) _ _ h.plane
      ∙ next (entry out.plane _ _) _ _ h.plane
      ∙ next (entry out.plane _ _) _ _ h.plane
      ∙ next (entry out.plane _ _) _ _ h.plane
      ∙ next (entry out.plane _ _) _ _ h.plane
      ∙ set_next-returned (entry out.plane _ _) _ h.plane

steps-err :
    (entries : List Entry) (x : ℕ) (req : Request) → steps entries (err x, req) ≡ (err x, req)
steps-err [] x req = refl
steps-err (e ∷ entries) x req = steps-err entries x req

Commits-none :
    (e : Entry) (o : Option (List Setting)) (req : Request) (p : Status × Request)
    → p ≡ (err 1, req)
    → Commits (with_prop e o none) req p
Commits-none e none req p h = ap (λ q. q.0) h
Commits-none e (some settings) req p h = ap (λ q. q.0) h

-- Settings put behind a first one.
Commits-some :
    (e : Entry) (id : ℕ) (o : Option (List Setting)) (req : Request) (p : Status × Request)
    → Commits o (step_found e req (some id)).1 p
    → Commits (with_prop e o (some id)) req p
Commits-some e id none req p h = h
Commits-some e id (some settings) req p h =
    h ∙ ap (λ l. (ok, record req { settings = l })) (append_assoc req.settings _ settings)

steps-Commits :
    (entries : List Entry) (req : Request)
    → Commits (settings_of entries) req (steps entries (ok, req))
steps-Commits [] req = ap (λ l. (ok, record req { settings = l })) (sym (append-nil req.settings))
steps-Commits (e ∷ entries) req =
    go (first_named e.name e.object.info) (λ req'. steps-Commits entries req')
  where
    go :
        (o : Option ℕ)
        → ((req' : Request) → Commits (settings_of entries) req' (steps entries (ok, req')))
        → Commits (with_prop e (settings_of entries) o) req (steps entries (step_found e req o))
    go none rest = Commits-none e (settings_of entries) req _ (steps-err entries 1 req)
    go (some id) rest = Commits-some e id (settings_of entries) req _ (rest _)

-- For an output whose objects have their properties, and while libdrm has room for settings,
-- `modeset_atomic_prepare_commit` makes no call and reads no null pointer. If the objects have a
-- property, whose number is not 0, of each name in the table of the thirteen settings, it succeeds
-- and puts those settings, each once and in that order, behind what the request held; if one of the
-- names is missing it answers -1.
pub prepare_commit-Commits :
    (card : Card) (adds : (log : Log) (s : Setting) → card.add_property log s ≡ ok) (out : Output)
    (req : Request) (m : Machine)
    → IsReady out
    → (p : Status × Request) × (prepare_commit card out req m ≡ returned p m)
      × Commits (settings_of (table out)) req p
prepare_commit-Commits card adds out req m h = (
  steps (table out) (ok, req),
  prepare_commit-steps card adds m out req h,
  steps-Commits (table out) req,
)
