-- ===== src/Atomic/Objects/Set.antt =====
-- `set_drm_object_property` of perftools/X/drm-howto/modeset-atomic.c where the properties of the
-- object are there and libdrm has room for a setting.
use Prim.Native.String.{String}
use debian_config_files.Base.{
  ℕ, ◌≡◌, ◌≢◌, refl, ap, ◌∙◌, false, Option, none, some, List, [], ◌∷◌, ◌++◌, All, ◌==◌,
  if◌then◌else◌, Bool-cases, inl, inr,
}
use debian_config_files.Modeset.Kernel.{Setting, Log}
use debian_config_files.Modeset.Setup.{Status, ok, err}
use debian_config_files.Atomic.Program.{
  PropertyInfo, Card, Machine, returned, Program, pure, ◌>>=◌, look, is_null, einval,
}
use debian_config_files.Atomic.Objects.{
  DrmObject, Request, Search, found, missing, null, same_name, find_property, add_setting,
  set_found, set_object_property,
}
use debian_config_files.Atomic.Objects.Balance.{IsLoaded}

-- The number of the first property of a name, if there is one and it is not 0.
abbrev pub first_named : String → List (Option PropertyInfo) → Option ℕ
first_named name [] = none
first_named name (none ∷ info) = none
first_named name (some i ∷ info) =
    if same_name i.name name
    then if i.prop_id == 0 then none else some i.prop_id
    else first_named name info

abbrev found_of : Search → Option ℕ
found_of (found id) = if id == 0 then none else some id
found_of missing = none
found_of null = none

-- The search comes to an end without a null pointer, with the same result.
record Ends (name : String) (info : List (Option PropertyInfo)) : Type 0 where
  found : found_of (find_property name info) ≡ first_named name info
  known : find_property name info ≢ null

find_property-Ends :
    (name : String) (info : List (Option PropertyInfo)) → All (λ i. i ≢ none) info → Ends name info
unfolding find_property
find_property-Ends name [] h = record { found = refl; known = λ e. cc }
find_property-Ends name (none ∷ info) h = absurd (h.0 refl)
find_property-Ends name (some i ∷ info) h =
    let rest = find_property-Ends name info h.1 in
    elim (Bool-cases (same_name i.name name)) [
      | inl e ↦ record {
        found = rw (e, find_property) refl;
        known = rw (e, find_property) (λ q. cc);
      }
      | inr e ↦ record {
        found = rw (e, find_property) rest.found;
        known = rw (e, find_property) rest.known;
      }
    ]

pub bind-returned {ℓ κ} :
    {A : Type ℓ} {B : Type κ} (p : Program A) (f : A → Program B) {m m' : Machine} {a : A}
    → p m ≡ returned a m'
    → (p >>= f) m ≡ f a m'
unfolding ◌>>=◌
bind-returned p f e = rw (e, ◌>>=◌) refl

-- The request after a setting of a property that was found, or not.
abbrev pub set_result : DrmObject → ℕ → Request → Option ℕ → Status × Request
set_result obj value req none = (err einval, req)
set_result obj value req (some id) = (
  ok,
  record req {
    settings = req.settings ++ (record { object = obj.id; prop = id; value = value } ∷ []);
  },
)

module _ (card : Card) (adds : (log : Log) (s : Setting) → card.add_property log s ≡ ok)
    (m : Machine) where
  add_setting-returned :
      (s : Setting) (req : Request)
      → add_setting card s req m
        ≡ returned (ok, record req { settings = req.settings ++ (s ∷ []) }) m
  unfolding add_setting ◌>>=◌ look pure
  add_setting-returned s req = rw (adds m.world.log s) refl

  set_found-returned :
      (obj : DrmObject) (value : ℕ) (req : Request) (s : Search)
      → s ≢ null
      → set_found card obj value req s m ≡ returned (set_result obj value req (found_of s)) m
  unfolding set_found pure
  set_found-returned obj value req null h = absurd (h refl)
  set_found-returned obj value req missing h = refl
  set_found-returned obj value req (found id) h = elim (Bool-cases (id == 0)) [
    | inl e ↦ rw (e, set_found) refl
    | inr e ↦ rw (e, set_found) (add_setting-returned _ req)
  ]

  pub set_object_property-returned :
      (obj : DrmObject) (name : String) (value : ℕ) (req : Request)
      → IsLoaded obj
      → set_object_property card obj name value req m
        ≡ returned (set_result obj value req (first_named name obj.info)) m
  unfolding set_object_property
  set_object_property-returned obj name value req h =
      let ends = find_property-Ends name obj.info h.info in
      let there = not_null obj.props h.props in
      rw (there, set_object_property)
        (set_found-returned obj value req (find_property name obj.info) ends.known
          ∙ ap (λ o. returned (set_result obj value req o) m) ends.found)
    where
      not_null : {A : Type 0} (o : Option A) → o ≢ none → is_null o ≡ false
      not_null none h = absurd (h refl)
      not_null (some a) h = refl
