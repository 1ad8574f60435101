-- ===== src/JsonPath/Walk.antt =====
-- What walk finds, key by key.
use gatus.Prelude.{
  ℕ, zero, suc, ◌≤◌, ◌<◌, ◌≡◌, refl, sym, ap, ◌∙◌, subst, Bool, true, false, Option, none, some,
  List, [], ◌∷◌, ◌++◌, pos, Text, codes, length, replace_once, text_eq, text_eq_refl, arith, ◌≢◌,
}
use gatus.Gontext.{Value, nil, bool, int, float, text, array, object}
use gatus.JsonPath.{
  Json, Walked, panics, Extraction, extracted, extraction_panics, extract, split_keys,
  after_extraction, leaf, walk_step, walk,
}
use gatus.JsonPath.Keys.{
  cut, keys_behind, put_behind, split_keys-cut, path_cut, replace_key, replace_last_key,
  rest_shorter, rest_differs,
}

-- The walk by the keys of a path, each followed once.
unfoldable pub walk_keys : Json → List Text → Value → Walked
walk_keys j [] v = panics
walk_keys j (key ∷ []) v = after_extraction j true (λ u. panics) [] (extract key v)
walk_keys j (key ∷ next ∷ keys) v =
    after_extraction j false (λ u. walk_keys j (next ∷ keys) u) (next ∷ keys) (extract key v)

-- At its end a path is not walked further.
after_extraction_end :
    (j : Json) (f g : Value → Walked) (keys : List Text) (x : Extraction)
    → after_extraction j true f keys x ≡ after_extraction j true g keys x
unfolding after_extraction leaf
after_extraction_end j f g keys x = ground arith

after_extraction_ap :
    (j : Json) (f g : Value → Walked) (keys : List Text) (x : Extraction)
    → ((u : Value) → f u ≡ g u)
    → after_extraction j false f keys x ≡ after_extraction j false g keys x
unfolding after_extraction leaf
after_extraction_ap j f g keys extraction_panics h = refl
after_extraction_ap j f g keys (extracted (object fields)) h = h (object fields)
after_extraction_ap j f g keys (extracted nil) h = refl
after_extraction_ap j f g keys (extracted (bool b)) h = refl
after_extraction_ap j f g keys (extracted (int n)) h = refl
after_extraction_ap j f g keys (extracted (float n)) h = refl
after_extraction_ap j f g keys (extracted (text t)) h = refl
after_extraction_ap j f g keys (extracted (array l)) h = refl

-- walk_keys for a key with more behind it.
walk_keys_more :
    (j : Json) (key : Text) (keys : List Text) (v : Value)
    → keys ≢ []
    → walk_keys j (key ∷ keys) v
      ≡ after_extraction j false (λ u. walk_keys j keys u) keys (extract key v)
unfolding walk_keys
walk_keys_more j key [] v h = absurd (h refl)
walk_keys_more j key (next ∷ keys) v h = refl

split_keys-ne-nil : (path : Text) → split_keys (pos 0) path ≢ []
split_keys-ne-nil path h = ground (arith, split_keys-cut (pos 0) path)

-- The body of walk for a path with a known first key, if the calls of itself are right.
walk_step_cut :
    (j : Json) (again : Text → Value → Walked) (key path : Text) (behind : Option Text) (v : Value)
    → path ≡ put_behind key behind
    → ((rest : Text)
        → length rest < length path
        → (u : Value) → again rest u ≡ walk_keys j (split_keys (pos 0) rest) u)
    → walk_step j again path (key ∷ keys_behind behind) v ≡ walk_keys j (key ∷ keys_behind behind) v
unfolding walk_step walk_keys keys_behind
walk_step_cut j again key path none v e ih =
    let x = extract key v in
    let at_end =
      ap (λ (t : Text). text_eq t (replace_once (key ++ codes ".") [] t)) e
      ∙ (ap (λ (t : Text). text_eq key t) (replace_last_key key) ∙ text_eq_refl key) in
    ap (λ (b : Bool). after_extraction j b (again (replace_once (key ++ codes ".") [] path)) [] x)
      at_end
    ∙ after_extraction_end j (again (replace_once (key ++ codes ".") [] path)) (λ u. panics) [] x
walk_step_cut j again key path (some rest) v e ih =
    let x = extract key v in
    let keys = split_keys (pos 0) rest in
    let new = ap (replace_once (key ++ codes ".") []) e ∙ replace_key key rest in
    let goes_on =
      ap (λ (t : Text). text_eq t (replace_once (key ++ codes ".") [] t)) e
      ∙ (ap (λ (t : Text). text_eq (key ++ b'.' ∷ rest) t) (replace_key key rest)
          ∙ rest_differs key rest) in
    let shorter = subst (λ (t : Text). length rest < length t) (sym e) (rest_shorter key rest) in
    ap (λ (b : Bool). after_extraction j b (again (replace_once (key ++ codes ".") [] path)) keys x)
      goes_on
    ∙ (ap (λ (t : Text). after_extraction j false (again t) keys x) new
        ∙ (after_extraction_ap j (again rest) (λ u. walk_keys j keys u) keys x (ih rest shorter)
            ∙ sym (walk_keys_more j key keys v (split_keys-ne-nil rest))))

walk_at :
    (j : Json) (fuel : ℕ) (path : Text) (v : Value)
    → length path ≤ fuel
    → walk j (suc fuel) path v ≡ walk_keys j (split_keys (pos 0) path) v
unfolding walk
walk_at j zero path v h = rw (split_keys-cut (pos 0) path) (
    walk_step_cut j (walk j zero) (cut (pos 0) path).key path (cut (pos 0) path).behind v
      (path_cut (pos 0) path) (λ rest lt u. absurd (omega arith)))
walk_at j (suc fuel) path v h = rw (split_keys-cut (pos 0) path) (
    walk_step_cut j (walk j (suc fuel)) (cut (pos 0) path).key path (cut (pos 0) path).behind v
      (path_cut (pos 0) path) (λ rest lt u. walk_at j fuel rest u (omega arith)))

-- With as much fuel as the path has bytes and one more, walk ends, and it does what its name says:
-- it follows the keys between the path's dots outside brackets, each once and in order, although
-- it finds them by splitting what strings.Replace leaves of the path at every step.
pub walk-walk_keys :
    (j : Json) (path : Text) (v : Value)
    → walk j (suc (length path)) path v ≡ walk_keys j (split_keys (pos 0) path) v
walk-walk_keys j path v = walk_at j (length path) path v (omega arith)
