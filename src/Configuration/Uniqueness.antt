-- ===== src/Configuration/Uniqueness.antt =====
-- What ValidateUniqueKeys of config/config.go accepts, and what a key then finds.
use gatus.Prelude.{
  ◌≡◌, ◌↔◌, refl, sym, subst, false, Bool-cases, inl, inr, none, List, [], ◌∷◌, All, Text, text_eq,
  text_eq_iff, text_eq_refl, arith, ℕ, ◌+◌, ◌≤◌, ◌++◌, map, if◌then◌else◌,
}
use gatus.Endpoint.{contains_text, Endpoint, key, external_key}
use gatus.Key.{convert_group_and_name_to_key}
use gatus.Suite.{Suite, suite_key}
use gatus.Configuration.{
  Config, find_duplicate, all_keys, validate_unique_keys, suites_keys, keys_within,
}

-- No text of the list is there twice.
abbrev pub Distinct : List Text → Type 0
Distinct [] = Unit
Distinct (k ∷ keys) = (contains_text keys k ≡ false) × Distinct keys

-- No text of the list is in another.
abbrev Fresh : List Text → List Text → Type 0
Fresh seen keys = All (λ k. contains_text seen k ≡ false) keys

text_eq_sym : (s t : Text) → text_eq s t ≡ false → text_eq t s ≡ false
text_eq_sym s t h = elim (Bool-cases (text_eq t s)) [
  | inl e ↦ absurd (
      ground (
        arith,
        subst (λ (u : Text). text_eq u t ≡ false) (sym ((text_eq_iff t s).0 e)) h,
        text_eq_refl t,
      ))
  | inr e ↦ e
]

-- A key that is seen is no longer fresh.
Fresh-cons :
    (k : Text) (seen keys : List Text)
    → Fresh (k ∷ seen) keys
    → (contains_text keys k ≡ false) × Fresh seen keys
unfolding contains_text
Fresh-cons k seen [] h = (refl, tt)
Fresh-cons k seen (x ∷ keys) h =
    let (rest, fresh) = Fresh-cons k seen keys h.1 in
    (ground (arith, rest, text_eq_sym k x (ground arith)), (ground arith, fresh))

cons-Fresh :
    (k : Text) (seen keys : List Text)
    → contains_text keys k ≡ false
    → Fresh seen keys
    → Fresh (k ∷ seen) keys
unfolding contains_text
cons-Fresh k seen [] h f = tt
cons-Fresh k seen (x ∷ keys) h f =
    (ground (arith, f.0, text_eq_sym x k (ground arith)), cons-Fresh k seen keys (ground arith) f.1)

find_duplicate_iff :
    (seen keys : List Text) → (find_duplicate seen keys ≡ none) ↔ (Distinct keys × Fresh seen keys)
unfolding find_duplicate
find_duplicate_iff seen [] = (λ h. (tt, tt), λ h. refl)
find_duplicate_iff seen (k ∷ keys) = (
  λ h.
      let (distinct, fresh) = (find_duplicate_iff (k ∷ seen) keys).0 (ground arith) in
      let (unseen, rest) = Fresh-cons k seen keys fresh in
      ((unseen, distinct), (ground arith, rest)),
  λ h.
      (let ((unseen, distinct), (new, rest)) = h in
        ground (
          arith,
          new,
          (find_duplicate_iff (k ∷ seen) keys).1 (distinct, cons-Fresh k seen keys unseen rest),
        )),
)

nothing_seen : (keys : List Text) → Fresh [] keys
unfolding contains_text
nothing_seen [] = tt
nothing_seen (k ∷ keys) = (refl, nothing_seen keys)

-- How many elements of a list have the key `k`.
abbrev pub count_keyed {ℓ} : {A : Type ℓ} → (A → Text) → Text → List A → ℕ
count_keyed f k [] = 0
count_keyed f k (x ∷ xs) = (if text_eq (f x) k then 1 else 0) + count_keyed f k xs

-- The key of an endpoint within a suite.
abbrev pub key_within : Suite → Endpoint → Text
key_within s ep = convert_group_and_name_to_key s.group ep.name

-- How many endpoints of suites have it.
abbrev pub count_within : Text → List Suite → ℕ
count_within k [] = 0
count_within k (s ∷ suites) = count_keyed (key_within s) k s.endpoints + count_within k suites

-- How many of the endpoints, the external endpoints, the suites and the endpoints within suites have
-- the key.
abbrev pub uses_of : Config → Text → ℕ
uses_of s k =
    count_keyed key k s.endpoints
    + (count_keyed external_key k s.external_endpoints
        + (count_keyed suite_key k s.suites + count_within k s.suites))

abbrev count_text : Text → List Text → ℕ
count_text = count_keyed (λ t. t)

count-append :
    (k : Text) (xs ys : List Text) → count_text k (xs ++ ys) ≡ count_text k xs + count_text k ys
count-append k [] ys = omega arith
count-append k (x ∷ xs) ys = omega (arith, count-append k xs ys)

count-map :
    {A : Type 0} (f : A → Text) (k : Text) (xs : List A)
    → count_text k (map f xs) ≡ count_keyed f k xs
count-map f k [] = refl
count-map f k (x ∷ xs) = omega (arith, count-map f k xs)

count-keys_within :
    (k : Text) (s : Suite) (eps : List Endpoint)
    → count_text k (keys_within s eps) ≡ count_keyed (key_within s) k eps
unfolding keys_within
count-keys_within k s [] = refl
count-keys_within k s (ep ∷ eps) = omega (arith, count-keys_within k s eps)

count-suites_keys :
    (k : Text) (suites : List Suite)
    → count_text k (suites_keys suites) ≡ count_keyed suite_key k suites + count_within k suites
unfolding suites_keys
count-suites_keys k [] = omega arith
count-suites_keys k (s ∷ suites) = omega (
  arith,
  count-append k (keys_within s s.endpoints) (suites_keys suites),
  count-keys_within k s s.endpoints,
  count-suites_keys k suites,
)

count-all_keys : (s : Config) (k : Text) → count_text k (all_keys s) ≡ uses_of s k
unfolding all_keys
count-all_keys s k = omega (
  arith,
  count-append k (map key s.endpoints ++ map external_key s.external_endpoints)
      (suites_keys s.suites),
  count-append k (map key s.endpoints) (map external_key s.external_endpoints),
  count-map key k s.endpoints,
  count-map external_key k s.external_endpoints,
  count-suites_keys k s.suites,
)

-- A text that is not in a list is there no times.
count-absent : (k : Text) (keys : List Text) → contains_text keys k ≡ false → count_text k keys ≡ 0
unfolding contains_text
count-absent k [] h = refl
count-absent k (x ∷ keys) h = ground (arith, count-absent k keys)

absent-count : (k : Text) (keys : List Text) → count_text k keys ≡ 0 → contains_text keys k ≡ false
unfolding contains_text
absent-count k [] h = refl
absent-count k (x ∷ keys) h = ground (arith, absent-count k keys)

Distinct-count : (keys : List Text) → Distinct keys → (k : Text) → count_text k keys ≤ 1
Distinct-count [] d k = omega arith
Distinct-count (x ∷ keys) d k = elim (Bool-cases (text_eq x k)) [
  | inl same ↦
      let e = (text_eq_iff x k).0 same in
      ground (
        arith,
        same,
        count-absent k keys (subst (λ (t : Text). contains_text keys t ≡ false) e d.0),
      )
  | inr other ↦ ground (arith, other, Distinct-count keys d.1 k)
]

count-Distinct : (keys : List Text) → ((k : Text) → count_text k keys ≤ 1) → Distinct keys
count-Distinct [] h = tt
count-Distinct (x ∷ keys) h = (
  absent-count x keys (ground (arith, h x, text_eq_refl x)),
  count-Distinct keys (λ k. ground (arith, h k)),
)

-- The validation accepts the settings exactly if every text is the key of at most one of the
-- endpoints, the external endpoints, the suites and the endpoints within suites.
pub validate_unique_keys_iff :
    (s : Config) → (validate_unique_keys s ≡ none) ↔ ((k : Text) → uses_of s k ≤ 1)
unfolding validate_unique_keys
validate_unique_keys_iff s =
    let whole = find_duplicate_iff [] (all_keys s) in
    (
      λ h k. omega (arith, Distinct-count (all_keys s) (whole.0 h).0 k, count-all_keys s k),
      λ h. whole.1 (
        count-Distinct (all_keys s) (λ k. omega (arith, h k, count-all_keys s k)),
        nothing_seen (all_keys s),
      ),
    )
