-- ===== src/JsonPath.antt =====
-- Eval, walk and extractValue of jsonpath/jsonpath.go. A JSON document is a value of Gontext. The
-- functions of encoding/json and fmt are parameters. A panic is a value of its own; of an error
-- only that it is one is kept.
pub mod Keys
pub mod Walk
pub mod Panics
pub mod Whole
use gatus.Prelude.{
  ℕ, zero, suc, ◌+◌, ◌-◌, Bool, true, false, not, ◌&&◌, ◌||◌, Option, none, some, List, [], ◌∷◌,
  ◌++◌, ℤ, pos, negsuc, Text, codes, text_eq, has_prefix, has_suffix, contains, extend,
  replace_once, atoi, length, take, drop, get_last?, ltb, ◌==◌, if◌then◌else◌,
}
use gatus.Gontext.{
  Value, nil, bool, int, float, text, array, object, Items, end, item, Fields, last, field, lookup,
}

-- json.Unmarshal, json.Marshal on maps, and fmt.Sprintf("%v").
pub record Json : Type 0 where
  pub unmarshal : Text → Option Value
  pub marshal : Fields → Option Text
  pub sprint : Value → Text

-- A value as a text and its length; an error; a panic.
pub data Walked : Type 0 where
  found : Text → ℕ → Walked
  failed : Walked
  panics : Walked

-- What extractValue returns.
pub data Extraction : Type 0 where
  extracted : Value → Extraction
  extraction_panics : Extraction

unfoldable pub count_items : Items → ℕ
count_items end = 0
count_items (item v rest) = suc (count_items rest)

-- array[i], `nil` past its end.
unfoldable pub get_item : Items → ℕ → Value
get_item end i = nil
get_item (item v rest) zero = v
get_item (item v rest) (suc i) = get_item rest i

-- value.([]interface{}), without the test.
abbrev pub items_of : Value → Items
items_of (array items) = items
items_of _ = end

abbrev pub value_or_nil : Option Value → Value
value_or_nil none = nil
value_or_nil (some v) = v

-- One more, and one less.
unfoldable pub deeper : ℤ → ℤ
deeper (pos n) = pos (suc n)
deeper (negsuc zero) = pos 0
deeper (negsuc (suc n)) = negsuc n

unfoldable pub shallower : ℤ → ℤ
shallower (pos zero) = negsuc 0
shallower (pos (suc n)) = pos n
shallower (negsuc n) = negsuc (suc n)

abbrev pub is_zero : ℤ → Bool
is_zero (pos zero) = true
is_zero _ = false

-- bracketDepth after a byte.
unfoldable pub depth_after : ℕ → ℤ → ℤ
unfolding deeper shallower
depth_after c depth =
    if c == b'[' then deeper depth else if c == b']' then shallower depth else depth

-- The loop of walk: the parts of a path between the dots outside brackets.
unfoldable pub split_keys : ℤ → Text → List Text
unfolding depth_after extend
split_keys depth [] = [] ∷ []
split_keys depth (c ∷ path) =
    let keys = split_keys (depth_after c depth) path in
    if c == b'.' && is_zero (depth_after c depth) then [] ∷ keys else extend c keys

-- startOfBracket, and endOfBracket if the loop of extractValue finds one.
pub record Brackets : Type 0 where
  pub start_of_bracket : ℕ
  pub end_of_bracket : Option ℕ

-- The loop of extractValue from the byte `i` on.
unfoldable pub scan_brackets : ℕ → ℕ → ℕ → Text → Brackets
scan_brackets i start depth [] = record { start_of_bracket = start; end_of_bracket = none }
scan_brackets i start depth (c ∷ key) =
    let opened = scan_brackets (suc i) i (suc depth) key in
    let same = scan_brackets (suc i) start depth key in
    if c == b'['
    then opened
    else if c == b']' && depth == 1
    then record { start_of_bracket = start; end_of_bracket = some i }
    else same

-- index, as a number that is not negative.
unfoldable pub bracket_index : Text → Brackets → Option ℕ
bracket_index key b = elim b.end_of_bracket [
  | none ↦ none
  | some e ↦ elim (atoi (drop (suc b.start_of_bracket) (take e key))) [
    | none ↦ none
    | some (pos n) ↦ some n
    | some (negsuc n) ↦ none
  ]
]

-- The text behind the bracket's end.
unfoldable pub behind_bracket : Text → Brackets → Text
behind_bracket key b = elim b.end_of_bracket [ none ↦ key | some e ↦ drop (suc e) key ]

-- isNestedArray.
unfoldable pub is_nested : Text → Brackets → Bool
unfolding behind_bracket
is_nested key b = elim b.end_of_bracket [
  | none ↦ false
  | some e ↦ has_prefix (b'[' ∷ []) (drop (suc e) key)
]

abbrev pub is_indexed : Text → Bool
is_indexed key = has_suffix (codes "]") key && contains (codes "[") key

-- A key without an index.
unfoldable pub extract_plain : Text → Value → Value
extract_plain key (object fields) = value_or_nil (lookup key fields)
extract_plain key value = value

-- The array that a key's index is applied to: the value itself, or the field before the bracket,
-- for which the value must be a map; `none` is a panic.
unfoldable pub array_under : Text → Value → Option Value
array_under [] value = some value
array_under (c ∷ name) nil = some nil
array_under (c ∷ name) (object fields) = some (value_or_nil (lookup (c ∷ name) fields))
array_under (c ∷ name) value = none

-- extractValue, on fuel for its calls of itself; out of fuel it panics.
unfoldable pub extract_value : ℕ → Text → Value → Extraction
unfolding extract_plain array_under
extract_value zero key value = extraction_panics
extract_value (suc fuel) key value =
    if not (is_indexed key)
    then extracted (extract_plain key value)
    else (let b = scan_brackets 0 0 0 key in
        elim (bracket_index key b) [
          | none ↦ extracted nil
          | some i ↦ elim (array_under (take b.start_of_bracket key) value) [
            | none ↦ extraction_panics
            | some under ↦
                if not (ltb i (count_items (items_of under)))
                then extracted nil
                else elim (is_nested key b) [
                  | true ↦ extract_value fuel (behind_bracket key b) (get_item (items_of under) i)
                  | false ↦ extracted (get_item (items_of under) i)
                ]
          ]
        ])

-- A call of itself is given a shorter key.
abbrev pub extract : Text → Value → Extraction
extract key value = extract_value (suc (length key)) key value

unfoldable pub marshalled : Option Text → Walked
marshalled none = failed
marshalled (some t) = found t (length t)

-- The value at the end of a path, or in its way, with the keys that are left.
unfoldable pub leaf : Json → List Text → Value → Walked
leaf j [] (text t) = found t (length t)
leaf j (key ∷ keys) (text t) = failed
leaf j keys (array items) = found (j.sprint (array items)) (count_items items)
leaf j keys nil = failed
leaf j keys value = found (j.sprint value) (length (j.sprint value))

-- The switch of walk on the extracted value: `unchanged` is whether the path is at its end, and
-- `rest` the walk along what is left of it.
unfoldable pub after_extraction : Json → Bool → (Value → Walked) → List Text → Extraction → Walked
unfolding marshalled leaf
after_extraction j unchanged rest keys extraction_panics = panics
after_extraction j unchanged rest keys (extracted (object fields)) =
    if unchanged then marshalled (j.marshal fields) else rest (object fields)
after_extraction j unchanged rest keys (extracted other) = leaf j keys other

-- The body of walk for the keys of a path.
unfoldable pub walk_step : Json → (Text → Value → Walked) → Text → List Text → Value → Walked
unfolding after_extraction
walk_step j again path [] value = panics
walk_step j again path (key ∷ keys) value =
    let new_path = replace_once (key ++ codes ".") [] path in
    after_extraction j (text_eq path new_path) (again new_path) keys (extract key value)

-- walk, on fuel for its calls of itself; out of fuel it panics.
unfoldable pub walk : Json → ℕ → Text → Value → Walked
unfolding walk_step
walk j zero path value = panics
walk j (suc fuel) path value = walk_step j (walk j fuel) path (split_keys (pos 0) path) value

abbrev is_json_array : Text → Bool
is_json_array b = has_prefix (codes "[") b && has_suffix (codes "]") b

-- Eval.
unfoldable pub eval : Json → Text → Text → Walked
unfolding walk
eval j path b =
    if length path == 0 && not (is_json_array b)
    then found b (length b)
    else elim (j.unmarshal b) [ none ↦ failed | some v ↦ walk j (suc (length path)) path v ]
