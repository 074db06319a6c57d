-- ===== src/Atomic/Objects.antt =====
-- `struct drm_object` and the functions of perftools/X/drm-howto/modeset-atomic.c that read, free
-- and set the properties of one object. What a failed call prints on stderr is left out.
pub mod Balance
pub mod Set
use Prim.Native.String.{String, compare}
use Prim.Native.Nat.{Ordering}
use debian_config_files.Base.{
  ℕ, ◌-◌, ◌%◌, ◌^◌, Bool, true, false, Option, none, some, List, [], ◌∷◌, ◌++◌, ◌==◌, if◌then◌else◌,
}
use debian_config_files.Modeset.Kernel.{Resource, property, properties, array, Setting, refuse}
use debian_config_files.Modeset.Setup.{Status, ok, err}
use debian_config_files.Atomic.Program.{
  PropertyInfo, Properties, ObjectType, is_null, on_status, Card, Program, pure, fault, ◌>>=◌, ◌>>◌,
  look, emit, get, give, fetch, einval,
}

-- `none` in `props` is a null pointer, as it is among the properties that `drmModeGetProperty` gave;
-- `info_at` is the address of that array.
pub record DrmObject : Type 0 where
  pub id : ℕ
  pub props : Option Properties
  pub info_at : ℕ
  pub info : List (Option PropertyInfo)

-- `!strcmp(a, b)`.
unfoldable pub same_name : String → String → Bool
same_name a b = elim (compare a b) [ Ordering.eq ↦ true | _ ↦ false ]

-- The resource that a property is.
abbrev pub property_of : PropertyInfo → Resource
property_of i = property i.prop_id

-- What `modeset_atomic_prepare_commit` fills in: the address of a request and what is in it.
pub record Request : Type 0 where
  pub at : ℕ
  pub settings : List Setting

-- The entries of `props_info` up to the name that is looked for.
pub data Search : Type 0 where
  found : ℕ → Search
  missing : Search
  null : Search

pub find_property : String → List (Option PropertyInfo) → Search
find_property name [] = missing
find_property name (none ∷ info) = null
find_property name (some i ∷ info) =
    let rest = find_property name info in if same_name i.name name then found i.prop_id else rest

-- `drmModeFreeProperty` of each entry, which does nothing for a null pointer.
pub free_info : List (Option PropertyInfo) → Program (Unit {0})
free_info [] = pure tt
free_info (none ∷ info) = free_info info
free_info (some i ∷ info) = give (property_of i) >> free_info info

-- `modeset_drm_object_fini`.
pub drm_object_fini : DrmObject → Program (Unit {0})
drm_object_fini obj = elim obj.props [
  | none ↦ fault
  | some props ↦ free_info obj.info >> give (array obj.info_at) >> give (properties obj.id)
]

module _ (card : Card) where
  -- The loop of `get_property_value`; -1 has 64 bits.
  pub get_property_value : String → Properties → Program ℕ
  get_property_value name [] = pure (2 ^ 64 - 1)
  get_property_value name ((id, value) ∷ props) =
      fetch property_of (card.get_property id) >>= λ answer. elim answer [
        | none ↦ fault
        | some i ↦
            give (property_of i)
            >> (if same_name i.name name
                then pure (value % 2 ^ 64)
                else get_property_value name props)
      ]

  -- The loop of `modeset_get_object_properties`.
  pub read_info : Properties → Program (List (Option PropertyInfo))
  read_info [] = pure []
  read_info ((id, value) ∷ props) = do
    i ← fetch property_of (card.get_property id)
    info ← read_info props
    pure (i ∷ info)

  pub get_object_properties : ObjectType → DrmObject → Program DrmObject
  get_object_properties type obj =
      fetch (λ _. properties obj.id) (card.object_properties type obj.id) >>= λ answer.
      elim answer [
        | none ↦ pure (record obj { props = none })
        | some props ↦ do
          at ← look card.calloc
          get (array at)
          info ← read_info props
          pure (record obj { props = some props; info_at = at; info = info })
      ]

  -- `drmModeAtomicAddProperty`.
  pub add_setting : Setting → Request → Program (Status × Request)
  add_setting s req = look (λ log. card.add_property log s) >>= λ status.
      on_status status (λ e. emit refuse >> pure (err e, req))
        (pure (ok, record req { settings = req.settings ++ (s ∷ []) }))

  -- `set_drm_object_property` after its loop; of what `drmModeAtomicAddProperty` returns, only the
  -- sign is read.
  pub set_found : DrmObject → ℕ → Request → Search → Program (Status × Request)
  set_found obj value req null = fault
  set_found obj value req missing = pure (err einval, req)
  set_found obj value req (found id) =
      if id == 0
      then pure (err einval, req)
      else add_setting (record { object = obj.id; prop = id; value = value }) req

  pub set_object_property : DrmObject → String → ℕ → Request → Program (Status × Request)
  set_object_property obj name value req =
      if is_null obj.props then fault else set_found obj value req (find_property name obj.info)
