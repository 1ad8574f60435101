-- ===== src/Tests/Caches.antt =====
-- A cache as an association list, and its laws.
use gatus.Prelude.{
  ◌-◌, ◌≡◌, refl, ap, Option, none, some, List, [], ◌∷◌, Text, text_eq, text_eq_iff, if◌then◌else◌,
  length, arith, Bool-cases, inl, inr,
}
use gatus.Endpoint.{contains_text}
use gatus.Memory.Cache.{Cache, is_some, keys_of}

module _ {V : Type 0} where
  get : List (Text × V) → Text → Option V
  get [] k = none
  get ((j, v) ∷ c) k = if text_eq j k then some v else get c k

  remove : List Text → List (Text × V) → List (Text × V)
  remove ks [] = []
  remove ks ((j, v) ∷ c) =
      let rest = remove ks c in if contains_text ks j then rest else (j, v) ∷ rest

  get-remove :
      (ks : List Text) (c : List (Text × V)) (k : Text)
      → get (remove ks c) k ≡ (if contains_text ks k then none else get c k)
  unfolding get remove
  get-remove ks [] k = ground arith
  get-remove ks ((j, v) ∷ c) k = elim (Bool-cases (text_eq j k)) [
    | inl same ↦
        let e = ap (λ (x : Text). contains_text ks x) ((text_eq_iff j k).0 same) in
        ground (arith, get-remove ks c k, same, e)
    | inr other ↦ ground (arith, get-remove ks c k, other)
  ]

  contains-keys : (c : List (Text × V)) (k : Text) → contains_text (keys_of c) k ≡ is_some (get c k)
  unfolding contains_text keys_of get
  contains-keys [] k = refl
  contains-keys ((j, v) ∷ c) k = ground (arith, contains-keys c k)

  get-put :
      (c : List (Text × V)) (k j : Text) (v : V)
      → get ((k, v) ∷ remove (k ∷ []) c) j ≡ (if text_eq k j then some v else get c j)
  unfolding get contains_text
  get-put c k j v = ground (arith, get-remove (k ∷ []) c j)

unfoldable pub list_cache : (V : Type 0) → Cache V
unfolding get remove get-put get-remove contains-keys
list_cache V = record {
  C = List (Text × V);
  new_cache = [];
  get = get;
  put = λ c k v. (k, v) ∷ remove (k ∷ []) c;
  get_all = λ c. c;
  keys = keys_of;
  delete_all = λ c ks. (remove ks c, length c - length (remove ks c));
  clear = λ c. [];
  get-new_cache = λ k. refl;
  get-put = get-put;
  get-delete_all = λ c ks k. get-remove ks c k;
  contains-keys = contains-keys;
  get-clear = λ c k. refl;
  contains-keys_of-get_all = contains-keys;
}
