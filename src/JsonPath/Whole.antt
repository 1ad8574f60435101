-- ===== src/JsonPath/Whole.antt =====
-- Eval of jsonpath/jsonpath.go along the empty path.
use gatus.Prelude.{
  ◌≢◌, true, Option-cases, inl, inr, Option, none, some, List, [], ◌∷◌, Text, text_eq, has_prefix,
  has_suffix, contains, extend, replace_once, arith,
}
use gatus.Gontext.{Value, nil, bool, int, float, text, array, object}
use gatus.JsonPath.{
  Json, Walked, panics, extracted, leaf, marshalled, after_extraction, extract_plain, walk,
  walk_step, split_keys, extract_value, eval,
}

leaf-ne-panics : (j : Json) (keys : List Text) (v : Value) → leaf j keys v ≢ panics
unfolding leaf
leaf-ne-panics j keys nil h = ground arith
leaf-ne-panics j keys (bool b) h = ground arith
leaf-ne-panics j keys (int n) h = ground arith
leaf-ne-panics j keys (float n) h = ground arith
leaf-ne-panics j [] (text t) h = ground arith
leaf-ne-panics j (key ∷ keys) (text t) h = ground arith
leaf-ne-panics j keys (array items) h = ground arith
leaf-ne-panics j keys (object fields) h = ground arith

marshalled-ne-panics : (o : Option Text) → marshalled o ≢ panics
unfolding marshalled
marshalled-ne-panics none h = ground arith
marshalled-ne-panics (some t) h = ground arith

-- At the end of a path.
last-ne-panics :
    (j : Json) (rest : Value → Walked) (keys : List Text) (v : Value)
    → after_extraction j true rest keys (extracted v) ≢ panics
unfolding after_extraction
last-ne-panics j rest keys nil h = leaf-ne-panics j keys nil h
last-ne-panics j rest keys (bool b) h = leaf-ne-panics j keys (bool b) h
last-ne-panics j rest keys (int n) h = leaf-ne-panics j keys (int n) h
last-ne-panics j rest keys (float n) h = leaf-ne-panics j keys (float n) h
last-ne-panics j rest keys (text t) h = leaf-ne-panics j keys (text t) h
last-ne-panics j rest keys (array items) h = leaf-ne-panics j keys (array items) h
last-ne-panics j rest keys (object fields) h = marshalled-ne-panics (j.marshal fields) h

walk-nil : (j : Json) (v : Value) → walk j 1 [] v ≢ panics
unfolding walk walk_step split_keys extend extract_value replace_once text_eq has_suffix has_prefix
    contains
walk-nil j v h = last-ne-panics j (λ x. panics) ([]) (extract_plain [] v) h

-- The whole of a body can be read without a panic.
pub eval-nil : (j : Json) (body : Text) → eval j [] body ≢ panics
unfolding eval
eval-nil j body h = elim (Option-cases (j.unmarshal body)) [
  | inl refused ↦ ground (arith, refused)
  | inr (v, there) ↦ ground (arith, there, walk-nil j v)
]
