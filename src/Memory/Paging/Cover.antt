-- ===== src/Memory/Paging/Cover.antt =====
-- What a page holds, and all pages together (storage/store/memory/util.go).
use gatus.Prelude.{
  ℕ, zero, suc, ◌-◌, ◌*◌, ◌<◌, ◌≤◌, ◌≡◌, refl, sym, ap, ◌∙◌, false, Option, none, some, List, [],
  ◌∷◌, ◌++◌, ℤ, pos, negsuc, length, take, drop, take-append-drop, half_64, mul_64, sub_64, arith,
  drop-nil, Bool-cases, inl, inr, leb, if◌then◌else◌,
}
use gatus.Memory.Paging.{get_start_and_end_index, page_slice}

mul_64_lem : (a b : ℕ) → a * b < half_64 → mul_64 (pos a) (pos b) ≡ pos (a * b)
unfolding mul_64
mul_64_lem a b h = ground arith

sub_64_lem : (a b : ℕ) → b ≤ a → a < half_64 → sub_64 (pos a) (pos b) ≡ pos (a - b)
unfolding sub_64
sub_64_lem a b h k = ground arith

pred_suc : (p : ℕ) → suc p - 1 ≡ p
pred_suc p = omega arith

mul_64_pred : (p k : ℕ) → p * k < half_64 → mul_64 (pos (suc p - 1)) (pos k) ≡ pos (p * k)
mul_64_pred p k h = ap (λ m. mul_64 (pos m) (pos k)) (pred_suc p) ∙ mul_64_lem p k h

sub_64_negative : (a b : ℕ) → a < b → b < half_64 → sub_64 (pos a) (pos b) ≡ negsuc (b - a - 1)
unfolding sub_64
sub_64_negative a b h k = ground arith

-- The product of the page before.
smaller : (p k : ℕ) → suc p * k < half_64 → p * k < half_64
smaller p k h = omega arith

abbrev end_index : ℕ → ℕ → ℤ
end_index n b = if leb b n then pos (n - b) else negsuc (b - n - 1)

sub_64_cases : (n b : ℕ) → n < half_64 → b < half_64 → sub_64 (pos n) (pos b) ≡ end_index n b
unfolding sub_64
sub_64_cases n b h k = ground arith

indices_at :
    (n p k : ℕ)
    → n < half_64
    → suc p * k < half_64
    → suc p < half_64
    → get_start_and_end_index n (pos (suc p)) (pos k) ≡ (pos (n - suc p * k), end_index n (p * k))
unfolding get_start_and_end_index
indices_at n p k hn hk hp =
    rw
      (
        mul_64_lem (suc p) k hk,
        sub_64_lem (suc p) 1 (omega arith) hp,
        sub_64_cases n (suc p * k) hn hk,
      )
      (rw (mul_64_pred p k (smaller p k hk), sub_64_cases n (p * k) hn (smaller p k hk))
        (ground arith))

-- The elements of page p + 1: `k` of them, counted back from the end of the list.
pub page_of {ℓ} : {A : Type ℓ} → ℕ → ℕ → List A → List A
page_of p k xs = drop (length xs - suc p * k) (take (length xs - p * k) xs)

past_end :
    {A : Type 0} (p k : ℕ) (xs : List A)
    → leb (p * k) (length xs) ≡ false
    → take (length xs - p * k) xs ≡ []
past_end p k xs h = ap (λ n. take n xs) (gone (p * k) (length xs) h)
  where
    gone : (a b : ℕ) → leb a b ≡ false → b - a ≡ 0
    gone a b e = ground arith

none_left : (n m : ℕ) → n ≤ m → n - m ≡ 0
none_left n m h = omega arith

page_slice_at :
    {A : Type 0} (p k : ℕ) (xs : List A)
    → length xs < half_64
    → suc p * k < half_64
    → suc p < half_64
    → page_slice xs (pos (suc p)) (pos k) ≡ some (page_of p k xs)
unfolding page_slice page_of
page_slice_at {A} p k xs hn hk hp =
    rw (indices_at (length xs) p k hn hk hp) (elim (Bool-cases (leb (p * k) (length xs))) [
      | inl within ↦ ground arith
      | inr past ↦ ground (arith, drop-nil {A = A} (length xs - suc p * k), past_end p k xs past)
    ])

module _ {ℓ} {A : Type ℓ} where
  drop-take :
      (a b : ℕ) (xs : List A) → a ≤ b → b ≤ length xs → drop a (take b xs) ++ drop b xs ≡ drop a xs
  drop-take zero b xs h k = take-append-drop b xs
  drop-take (suc a) zero xs h k = absurd (omega arith)
  drop-take (suc a) (suc b) [] h k = absurd (omega arith)
  drop-take (suc a) (suc b) (x ∷ xs) h k = drop-take a b xs (omega arith) (omega arith)

  drop_all : (n : ℕ) (xs : List A) → length xs ≤ n → drop n xs ≡ []
  drop_all zero [] h = refl
  drop_all (suc n) [] h = refl
  drop_all zero (x ∷ xs) h = absurd (omega arith)
  drop_all (suc n) (x ∷ xs) h = drop_all n xs (omega arith)

abbrev join_pages : {A : Type 0} → Option (List A) → Option (List A) → Option (List A)
join_pages none rest = none
join_pages (some page) none = none
join_pages (some page) (some rest) = some (page ++ rest)

-- The slices of the pages p, p - 1, …, 1, one after the other.
pub all_pages : {A : Type 0} → ℕ → ℕ → List A → Option (List A)
all_pages zero k xs = some []
all_pages (suc p) k xs = join_pages (page_slice xs (pos (suc p)) (pos k)) (all_pages p k xs)

-- The page p + 1 of size k, for products within an int, holds the results from k (p + 1) to k p
-- places before the newest: page 1 holds the newest, and what lies past the oldest is cut off.
pub page_slice_lem :
    {A : Type 0} (p k : ℕ) (xs : List A)
    → length xs < half_64
    → suc p * k < half_64
    → suc p < half_64
    → page_slice xs (pos (suc p)) (pos k)
      ≡ some (drop (length xs - suc p * k) (take (length xs - p * k) xs))
unfolding page_of
page_slice_lem = page_slice_at

all_pages-drop :
    {A : Type 0} (p k : ℕ) (xs : List A)
    → length xs < half_64
    → p * k < half_64
    → p < half_64
    → all_pages p k xs ≡ some (drop (length xs - p * k) xs)
unfolding all_pages page_of
all_pages-drop zero k xs hn hk hp = ap some (sym (drop_all (length xs - 0 * k) xs (omega arith)))
all_pages-drop (suc p) k xs hn hk hp = rw (page_slice_at p k xs hn hk hp) (
    rw (all_pages-drop p k xs hn (smaller p k hk) (omega arith)) (
      ap some
        (drop-take (length xs - suc p * k) (length xs - p * k) xs (omega arith) (omega arith))))

-- The pages from the last to the first, put together, are the whole list: every result is on
-- exactly one page, in order, if the pages are enough and within an int.
pub all_pages_lem :
    {A : Type 0} (p k : ℕ) (xs : List A)
    → length xs ≤ p * k
    → p * k < half_64
    → p < half_64
    → all_pages p k xs ≡ some xs
all_pages_lem p k xs enough hk hp =
    all_pages-drop p k xs (omega arith) hk hp
    ∙ ap some (ap (λ n. drop n xs) (none_left (length xs) (p * k) enough))
