-- ===== src/Prelude/Lists.antt =====
-- Lists measured and indexed by native numbers, under the library's names.
use Prim.Native.Nat.{ℕ, zero, suc, ◌+◌, ◌-◌, ◌≤◌, min}
use mathlib.Core.Path.{◌≡◌, refl, ap, ◌∙◌}
use mathlib.Core.List.{List, [], ◌∷◌, ◌++◌}
use mathlib.Core.Option.{Option, none, some}
use native.Mathlib.Omega.{arith}

module _ {ℓ} {A : Type ℓ} where
  abbrev pub length : List A → ℕ
  length [] = 0
  length (x ∷ xs) = suc (length xs)

  abbrev pub take : ℕ → List A → List A
  take zero xs = []
  take (suc n) [] = []
  take (suc n) (x ∷ xs) = x ∷ take n xs

  abbrev pub drop : ℕ → List A → List A
  drop zero xs = xs
  drop (suc n) [] = []
  drop (suc n) (x ∷ xs) = drop n xs

  abbrev pub get_elem? : List A → ℕ → Option A
  get_elem? [] i = none
  get_elem? (x ∷ xs) zero = some x
  get_elem? (x ∷ xs) (suc i) = get_elem? xs i

  abbrev pub get_last? : List A → Option A
  get_last? [] = none
  get_last? (x ∷ []) = some x
  get_last? (x ∷ (y ∷ ys)) = get_last? (y ∷ ys)

  -- A predicate at every element.
  abbrev pub All {κ} : (A → Type κ) → List A → Type κ
  All P [] = Unit
  All P (x ∷ xs) = P x × All P xs

  pub length-append : (xs ys : List A) → length (xs ++ ys) ≡ length xs + length ys
  length-append [] ys = omega arith
  length-append (x ∷ xs) ys = omega (arith, length-append xs ys)

  pub get_last?-append : (xs : List A) (x : A) → get_last? (xs ++ x ∷ []) ≡ some x
  get_last?-append [] x = refl
  get_last?-append (y ∷ []) x = refl
  get_last?-append (y ∷ (z ∷ xs)) x = get_last?-append (z ∷ xs) x

  pub length-drop : (n : ℕ) (xs : List A) → length (drop n xs) ≡ length xs - n
  length-drop zero xs = omega arith
  length-drop (suc n) [] = omega arith
  length-drop (suc n) (x ∷ xs) = omega (arith, length-drop n xs)

  pub length-take : (n : ℕ) (xs : List A) → length (take n xs) ≡ min n (length xs)
  length-take zero xs = omega arith
  length-take (suc n) [] = omega arith
  length-take (suc n) (x ∷ xs) = omega (arith, length-take n xs)

zero_plus : (n : ℕ) → n ≡ 0 + n
zero_plus n = omega arith

suc_plus : (n m : ℕ) → suc (n + m) ≡ suc n + m
suc_plus n m = omega arith

module _ {ℓ} {A : Type ℓ} where
  pub take-append-drop : (n : ℕ) (xs : List A) → take n xs ++ drop n xs ≡ xs
  take-append-drop zero xs = refl
  take-append-drop (suc n) [] = refl
  take-append-drop (suc n) (x ∷ xs) = ap (λ t. x ∷ t) (take-append-drop n xs)

  pub drop-nil : (n : ℕ) → ◌≡◌ {A = List A} (drop n []) []
  drop-nil zero = refl
  drop-nil (suc n) = refl

  pub drop-drop : (m n : ℕ) (xs : List A) → drop m (drop n xs) ≡ drop (n + m) xs
  drop-drop m zero xs = ap (λ k. drop k xs) (zero_plus m)
  drop-drop m (suc n) [] = rw (drop-nil m, drop-nil (suc n + m))
  drop-drop m (suc n) (x ∷ xs) = drop-drop m n xs ∙ ap (λ k. drop k (x ∷ xs)) (suc_plus n m)

  pub drop-append_lt :
      (n : ℕ) (xs ys : List A) → n ≤ length xs → drop n (xs ++ ys) ≡ drop n xs ++ ys
  drop-append_lt zero xs ys h = refl
  drop-append_lt (suc n) [] ys h = elim h [ ]
  drop-append_lt (suc n) (x ∷ xs) ys h = drop-append_lt n xs ys (omega arith)

-- Nothing, at every level.
pub data Absent {ℓ} : Type ℓ where

-- A relation between the elements of two lists, place by place.
abbrev pub All2 {ℓ ℓ' κ} : {A : Type ℓ} {B : Type ℓ'} → (A → B → Type κ) → List A → List B → Type κ
All2 R [] [] = Unit
All2 R (x ∷ xs) (y ∷ ys) = R x y × All2 R xs ys
All2 R [] (y ∷ ys) = Absent
All2 R (x ∷ xs) [] = Absent

pub All2-refl {ℓ κ} :
    {A : Type ℓ} (R : A → A → Type κ) → ((a : A) → R a a) → (xs : List A) → All2 R xs xs
All2-refl R r [] = tt
All2-refl R r (x ∷ xs) = (r x, All2-refl R r xs)

-- Two relations in turn.
pub All2-trans {ℓ κ} :
    {A : Type ℓ} (R S T : A → A → Type κ)
    → ((a b c : A) → R a b → S b c → T a c)
    → (xs ys zs : List A) → All2 R xs ys
    → All2 S ys zs
    → All2 T xs zs
All2-trans R S T f [] [] [] p q = tt
All2-trans R S T f (x ∷ xs) (y ∷ ys) (z ∷ zs) p q =
    (f x y z p.0 q.0, All2-trans R S T f xs ys zs p.1 q.1)
All2-trans R S T f [] (y ∷ ys) zs p q = elim p [ ]
All2-trans R S T f (x ∷ xs) [] zs p q = elim p [ ]
All2-trans R S T f [] [] (z ∷ zs) p q = elim q [ ]
All2-trans R S T f (x ∷ xs) (y ∷ ys) [] p q = elim q [ ]
