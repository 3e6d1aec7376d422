-- ===== src/Log/Attrs.antt =====
-- What an event's attributes become in the log.
use platforma.Base.{
  ◌≡◌, refl, String, false, ◌||◌, List, [], ◌∷◌, ◌++◌, none, some, arith, str_eq, eq_iff,
  if◌then◌else◌,
}
use platforma.Base.Dict.{lookup}
use platforma.Log.{
  Value, Event, builtin_attr_keys, builtin_attrs, contains, append_unique, append_all, custom_attrs,
  to_attrs,
}

contains-append :
    (keys more : List String) (key : String)
    → contains (keys ++ more) key ≡ (contains keys key || contains more key)
unfolding contains
contains-append [] more key = refl
contains-append (k ∷ keys) more key = ground (arith, contains-append keys more key)

contains-append_unique :
    (keys : List String) (added key : String)
    → contains (append_unique keys added) key ≡ (contains keys key || str_eq added key)
unfolding append_unique contains
contains-append_unique keys added key =
    ground (arith, contains-append keys (added ∷ []) key, eq_iff added key)

pub contains-append_all :
    (keys more : List String) (key : String)
    → contains (append_all keys more) key ≡ (contains keys key || contains more key)
unfolding append_all contains
contains-append_all keys [] key = ground arith
contains-append_all keys (k ∷ more) key =
    ground (
      arith,
      contains-append_unique keys k key,
      contains-append_all (append_unique keys k) more key,
    )

lookup-custom_attrs :
    (reserved : List String) (key : String) (attrs : List (String × Value))
    → lookup key (custom_attrs reserved attrs)
      ≡ (if contains reserved key then none else lookup key attrs)
unfolding lookup custom_attrs
lookup-custom_attrs reserved key [] = ground arith
lookup-custom_attrs reserved key ((k, value) ∷ attrs) =
    ground (arith, eq_iff k key, lookup-custom_attrs reserved key attrs)

lookup_builtin :
    (key : String) (e : Event) (more : List (String × Value))
    → contains builtin_attr_keys key ≡ false
    → lookup key (builtin_attrs e ++ more) ≡ lookup key more
unfolding lookup contains
lookup_builtin key e more h = ground arith

-- For a key that is not a builtin one, what ToAttrs hands on is the event's attribute of that key,
-- or nothing if the key is among the additional reserved keys. Name, timestamp and
-- duration are always the event's own fields, whatever its attributes.
pub lookup-to_attrs :
    (additional : List String) (key : String) (e : Event)
    → (contains builtin_attr_keys key ≡ false
        → lookup key (to_attrs additional e)
          ≡ (if contains additional key then none else lookup key e.attrs))
      × (lookup "name" (to_attrs additional e) ≡ some (Value.string e.name))
      × (lookup "timestamp" (to_attrs additional e) ≡ some (Value.time e.timestamp))
      × (lookup "duration" (to_attrs additional e) ≡ some (Value.duration e.duration))
unfolding to_attrs
lookup-to_attrs additional key e = (
  λ h. ground (
    arith,
    h,
    lookup_builtin key e (custom_attrs (append_all builtin_attr_keys additional) e.attrs) h,
    lookup-custom_attrs (append_all builtin_attr_keys additional) key e.attrs,
    contains-append_all builtin_attr_keys additional key,
  ),
  unfold lookup in refl,
  unfold lookup in refl,
  unfold lookup in refl,
)
