-- ===== src/Gontext.antt =====
-- The context that the endpoints of a suite share: config/gontext/gontext.go. The lock makes each
-- method one step. A map is an association list without an order; the maps of a context are
-- reached through it alone, since what is set is a value that was made for it.
pub mod Paths
use gatus.Prelude.{
  ℕ, ◌+◌, Bool, true, false, Option, none, some, List, [], ◌∷◌, ℤ, Text, text_eq, extend,
  if◌then◌else◌, ◌==◌,
}

-- interface{}, as JSON and YAML fill it: an integer is an int64 (YAML's int), a float64 stands as
-- its 64 bits.
mutual
  pub data Value : Type 0 where
    nil : Value
    bool : Bool → Value
    int : ℤ → Value
    float : ℕ → Value
    text : Text → Value
    array : Items → Value
    object : Fields → Value

  pub data Items : Type 0 where
    end : Items
    item : Value → Items → Items

  pub data Fields : Type 0 where
    last : Fields
    field : Text → Value → Fields → Fields

-- strings.Split(path, ".").
unfoldable pub split_at_dots : Text → List Text
unfolding extend
split_at_dots [] = [] ∷ []
split_at_dots (c ∷ path) =
    let parts = split_at_dots path in if c == 46 then [] ∷ parts else extend c parts

-- m[part], and whether it exists.
unfoldable pub lookup : Text → Fields → Option Value
lookup part last = none
lookup part (field k v rest) = if text_eq k part then some v else lookup part rest

-- m[part] = value.
unfoldable pub store : Text → Value → Fields → Fields
store part value last = field part value last
store part value (field k v rest) =
    let later = store part value rest in
    if text_eq k part then field k value rest else field k v later

-- The loop of Get; `none` is ErrGontextPathNotFound.
unfoldable pub follow : List Text → Value → Option Value
follow [] current = some current
follow (part ∷ parts) (object fields) = elim (lookup part fields) [
  | none ↦ none
  | some value ↦ follow parts value
]
follow (part ∷ parts) current = none

-- Get.
unfoldable pub get : Fields → Text → Option Value
get g path = follow (split_at_dots path) (object g)

-- The map under a part, or a new one where there is none.
unfoldable pub inner : Option Value → Fields
inner (some (object fields)) = fields
inner other = last

-- The loop of Set from the part on, and its last assignment.
unfoldable pub set_along : Text → List Text → Value → Fields → Fields
set_along part [] value current = store part value current
set_along part (next ∷ rest) value current =
    store part (object (set_along next rest value (inner (lookup part current)))) current

set_parts : List Text → Value → Fields → Option Fields
set_parts [] value g = none
set_parts (part ∷ rest) value g = some (set_along part rest value g)

-- Set: the context as it is left; `none` is the error of an empty path.
unfoldable pub set : Fields → Text → Value → Option Fields
unfolding set_parts
set g path value = set_parts (split_at_dots path) value g

-- deepCopyValue.
unfoldable mutual
  pub deep_copy_value : Value → Value
  deep_copy_value nil = nil
  deep_copy_value (bool b) = bool b
  deep_copy_value (int z) = int z
  deep_copy_value (float f) = float f
  deep_copy_value (text t) = text t
  deep_copy_value (array items) = array (deep_copy_items items)
  deep_copy_value (object fields) = object (deep_copy_fields fields)

  pub deep_copy_items : Items → Items
  deep_copy_items end = end
  deep_copy_items (item v rest) = item (deep_copy_value v) (deep_copy_items rest)

  pub deep_copy_fields : Fields → Fields
  deep_copy_fields last = last
  deep_copy_fields (field k v rest) = field k (deep_copy_value v) (deep_copy_fields rest)

-- New; `none` is a nil map.
unfoldable pub new : Option Fields → Fields
new none = last
new (some initial) = deep_copy_fields initial

-- GetAll.
unfoldable pub get_all : Fields → Fields
get_all g = deep_copy_fields g
