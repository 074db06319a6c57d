-- ===== src/Atomic/Objects/Balance.antt =====
-- What the functions of perftools/X/drm-howto/modeset-atomic.c on the properties of an object hold
-- when they return.
use Prim.Native.String.{String}
use debian_config_files.Base.{
  Bool, ℕ, ◌+◌, ◌≡◌, ◌≢◌, refl, true, false, Option, none, some, List, [], ◌∷◌, arith, All, ◌==◌,
  ◌-◌, ◌%◌, ◌^◌,
}
use debian_config_files.Modeset.Kernel.{Resource, properties, array, Setting}
use debian_config_files.Modeset.Kernel.Balance.{same}
use debian_config_files.Atomic.Program.{
  PropertyInfo, Properties, ObjectType, plane_type, Plane, is_null, Card,
}
use debian_config_files.Atomic.Program.Owns.{
  Owns, Any, Owns-bind, Owns-next, Owns-pure, Owns-look, Owns-same, Owns-fetch, Owns-get, Owns-if,
  Owns-test, Owns-status, Owns-refuse, Owns-give,
}
use debian_config_files.Atomic.Objects.{
  DrmObject, Request, Search, found, missing, null, property_of, same_name, find_property,
  get_property_value, read_info, get_object_properties, free_info, drm_object_fini,
  set_object_property, add_setting, set_found,
}

-- The kernel describes each property that it lists, and lists those of each plane.
pub record Known (card : Card) : Type 0 where
  pub listed :
      (type : ObjectType) (id : ℕ) (props : Properties)
      → card.object_properties type id ≡ some props
      → All (λ p. card.get_property p.0 ≢ none) props
  pub plane :
      (id : ℕ) (p : Plane)
      → card.get_plane id ≡ some p
      → card.object_properties plane_type id ≢ none

-- The value of the first property with a name; without one it is -1.
pub data Reads (card : Card) (name : String) : Properties → ℕ → Type 0 where
  absent : Reads card name [] (2 ^ 64 - 1)
  here :
      {id value : ℕ} {props : Properties} {i : PropertyInfo}
      → card.get_property id ≡ some i
      → same_name i.name name ≡ true
      → Reads card name ((id, value) ∷ props) (value % 2 ^ 64)
  there :
      {id value v : ℕ} {props : Properties} {i : PropertyInfo}
      → card.get_property id ≡ some i
      → same_name i.name name ≡ false
      → Reads card name props v
      → Reads card name ((id, value) ∷ props) v

-- How many times the entries of an array of properties, and an object, hold `r`.
abbrev pub held_info : Resource → List (Option PropertyInfo) → ℕ
held_info r [] = 0
held_info r (none ∷ info) = held_info r info
held_info r (some i ∷ info) = same r (property_of i) + held_info r info

abbrev pub held_props : Resource → Option Properties → ℕ → ℕ → List (Option PropertyInfo) → ℕ
held_props r none id at info = 0
held_props r (some props) id at info = held_info r info + same r (array at) + same r (properties id)

abbrev pub held_object : Resource → DrmObject → ℕ
held_object r obj = held_props r obj.props obj.id obj.info_at obj.info

-- The properties of an object are there.
pub record IsLoaded (obj : DrmObject) : Type 0 where
  pub props : obj.props ≢ none
  pub info : All (λ i. i ≢ none) obj.info

pub free_info-Owns :
    (w : Bool) (r : Resource) (info : List (Option PropertyInfo)) (n : ℕ)
    → Owns w r (held_info r info + n) (free_info info) (λ _. n) Any
unfolding free_info
free_info-Owns w r [] n = Owns-pure w r _ (omega arith) tt
free_info-Owns w r (none ∷ info) n = free_info-Owns w r info n
free_info-Owns w r (some i ∷ info) n =
    Owns-same w r (omega arith) (λ _ _. (refl, tt))
      (Owns-next w r (Owns-give w r (held_info r info + n) (property_of i))
        (free_info-Owns w r info n))

pub drm_object_fini-Owns :
    (w : Bool) (r : Resource) (obj : DrmObject) (n : ℕ)
    → obj.props ≢ none
    → Owns w r (held_object r obj + n) (drm_object_fini obj) (λ _. n) Any
unfolding drm_object_fini
drm_object_fini-Owns w r obj n h = go obj.props refl
  where
    go :
        (props : Option Properties)
        → obj.props ≡ props
        → Owns w r (held_object r obj + n) (drm_object_fini obj) (λ _. n) Any
    go none e = absurd (h e)
    go (some props) e =
        rw (e, drm_object_fini)
          (Owns-next w r
            (Owns-next w r
              (Owns-same w r (omega arith) (λ _ _. (refl, tt))
                (free_info-Owns w r obj.info
                  (same r (array obj.info_at) + (same r (properties obj.id) + n))))
              (Owns-give w r _ _))
            (Owns-give w r n _))

not_null {ℓ} : {A : Type ℓ} (o : Option A) → is_null o ≡ true → ¬ (o ≢ none)
not_null none e h = h refl
not_null (some a) e h = cc

module _ (card : Card) (w : Bool) (r : Resource) where
  pub get_property_value-Owns :
      (name : String) (props : Properties) (n : ℕ)
      → All (λ p. card.get_property p.0 ≢ none) props
      → Owns w r n (get_property_value card name props) (λ _. n) (Reads card name props)
  unfolding get_property_value
  get_property_value-Owns name [] n h = Owns-pure w r _ refl absent
  get_property_value-Owns name ((id, value) ∷ props) n h =
      Owns-fetch w r _ property_of (card.get_property id) (λ e. absurd (h.0 e))
        (λ i e. Owns-next w r (Owns-give w r n (property_of i)) (
          Owns-test w r (same_name i.name name) (λ q. Owns-pure w r _ refl (here e q))
            (λ q.
              Owns-same w r refl (λ v k. (refl, there e q k))
                (get_property_value-Owns name props n h.1))))

  read_info-Owns :
      (props : Properties) (n : ℕ)
      → All (λ p. card.get_property p.0 ≢ none) props
      → Owns w r n (read_info card props) (λ info. held_info r info + n) (All (λ i. i ≢ none))
  unfolding read_info
  read_info-Owns [] n h = Owns-pure w r _ (omega arith) tt
  read_info-Owns ((id, value) ∷ props) n h =
      Owns-fetch w r _ property_of (card.get_property id) (λ e. absurd (h.0 e))
        (λ i e.
          Owns-bind w r (read_info-Owns props _ h.1)
            (λ info k. Owns-pure w r _ (omega arith) (λ q. cc, k)))

  -- What `modeset_get_object_properties` leaves: an object with its properties, or without.
  abbrev pub Loads : DrmObject → DrmObject → Type 0
  Loads obj obj' = (obj'.id ≡ obj.id) × (obj'.props ≢ none → IsLoaded obj')

  pub get_object_properties-Owns :
      (known : Known card) (type : ObjectType) (obj : DrmObject) (n : ℕ)
      → Owns w r n
          (get_object_properties card type obj)
          (λ obj'. held_object r obj' + n)
          (Loads obj)
  unfolding get_object_properties
  get_object_properties-Owns known type obj n =
      Owns-fetch w r _ (λ _. properties obj.id) (card.object_properties type obj.id)
        (λ e. Owns-pure w r _ (omega arith) (refl, λ q. absurd (q refl)))
        (λ props e. Owns-bind w r (Owns-look w r _ card.calloc) (λ at _.
          Owns-next w r (Owns-get w r _ (array at)) (
            Owns-bind w r (read_info-Owns props _ (known.listed type obj.id props e)) (λ info k.
              Owns-pure w r _ (omega arith) (refl, λ q. record { props = q; info = k })))))

  find_property-known :
      (name : String) (info : List (Option PropertyInfo))
      → All (λ i. i ≢ none) info
      → find_property name info ≢ null
  unfolding find_property
  find_property-known name [] h e = cc
  find_property-known name (none ∷ info) h e = h.0 refl
  find_property-known name (some i ∷ info) h e = ground (arith, find_property-known name info h.1)

  add_setting-Owns :
      (s : Setting) (req : Request) (n : ℕ) → Owns w r n (add_setting card s req) (λ _. n) Any
  unfolding add_setting
  add_setting-Owns s req n =
      Owns-bind w r (Owns-look w r n (λ log. card.add_property log s)) (λ status _.
        Owns-status w r _ status
          (λ e q. Owns-next w r (Owns-refuse w r n) (Owns-pure w r _ refl tt))
          (λ q. Owns-pure w r _ refl tt))

  set_found-Owns :
      (obj : DrmObject) (value : ℕ) (req : Request) (n : ℕ) (s : Search)
      → s ≢ null
      → Owns w r n (set_found card obj value req s) (λ _. n) Any
  unfolding set_found
  set_found-Owns obj value req n null h = absurd (h refl)
  set_found-Owns obj value req n missing h = Owns-pure w r _ refl tt
  set_found-Owns obj value req n (found id) h =
      Owns-if w r (id == 0) (Owns-pure w r _ refl tt) (add_setting-Owns _ req n)

  pub set_object_property-Owns :
      (obj : DrmObject) (name : String) (value : ℕ) (req : Request) (n : ℕ)
      → IsLoaded obj
      → Owns w r n (set_object_property card obj name value req) (λ _. n) Any
  unfolding set_object_property
  set_object_property-Owns obj name value req n h =
      Owns-test w r (is_null obj.props) (λ e. absurd (not_null obj.props e h.props))
        (λ e. set_found-Owns obj value req n _ (find_property-known name obj.info h.info))
