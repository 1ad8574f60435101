-- ===== src/Suite/Storing.antt =====
-- What StoreResultValues reports.
use gatus.Prelude.{
  ◌≡◌, ◌≢◌, refl, sym, ap, ◌∙◌, inl, inr, Option-cases, none, List, [], ◌∷◌, ◌++◌, Text, arith, ◌↔◌,
  ◌⊎◌, codes, All,
}
use gatus.Endpoint
use gatus.Gontext.{Value, Fields, set}
use gatus.Gontext.Paths.{and_get, get-set}
use gatus.Suite.Execution.{
  Runner, Extracted, value, extraction_error, store_each, store_result_values,
}

abbrev pub IsExtracted : Extracted → Type 0
IsExtracted (value v) = Unit
IsExtracted (extraction_error e) = ⊥

set-ne-none : (g : Fields) (path : Text) (v : Value) → set g path v ≢ none
unfolding and_get
set-ne-none g path v h = ground (arith, sym (ap (λ o. and_get o path) h) ∙ get-set g path v)

not_empty : {A : Type 0} (xs : List A) (x : A) → xs ++ x ∷ [] ≢ []
not_empty [] x h = ground arith
not_empty (y ∷ xs) x h = ground arith

Extracted-cases :
    (e : Extracted) → ((v : Value) × (e ≡ value v)) ⊎ ((t : Text) × (e ≡ extraction_error t))
Extracted-cases (value v) = inl (v, refl)
Extracted-cases (extraction_error t) = inr (t, refl)

module _ {W : Type 0} (r : Runner W) (result : Endpoint.Result) where
  abbrev AllExtracted : List (Text × Text) → Type 0
  AllExtracted = All (λ m. IsExtracted (r.extract m.1 result))

  store_each-failure :
      (mappings : List (Text × Text)) (errors : List Text) (ctx : Fields)
      → ((store_each r mappings result errors ctx).failure ≡ none)
        ↔ (AllExtracted mappings × (errors ≡ []))
  unfolding store_each
  store_each-failure [] errors ctx = ground arith
  store_each-failure ((k, placeholder) ∷ rest) errors ctx =
      elim (Extracted-cases (r.extract placeholder result)) [
        | inl (v, e) ↦ elim (Option-cases (set ctx k v)) [
          | inl never ↦ absurd (set-ne-none ctx k v never)
          | inr (ctx', s) ↦ ground (arith, e, s, store_each-failure rest errors ctx')
        ]
        | inr (t, e) ↦ rw e (
            ground (
              arith,
              not_empty errors (k ++ codes ": " ++ t),
              store_each-failure rest (errors ++ (k ++ codes ": " ++ t) ∷ []) ctx,
            ))
      ]

  -- StoreResultValues reports no error exactly if the value of every placeholder was extracted: the
  -- storing itself never fails, and one failed extraction is enough for an error.
  pub store_result_values-failure_iff :
      (mappings : List (Text × Text)) (ctx : Fields)
      → ((store_result_values r mappings result ctx).failure ≡ none) ↔ AllExtracted mappings
  unfolding store_result_values
  store_result_values-failure_iff mappings ctx = ground (arith, store_each-failure mappings [] ctx)
