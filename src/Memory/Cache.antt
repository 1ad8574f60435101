-- ===== src/Memory/Cache.antt =====
-- The cache that the store is built on, github.com/TwiN/gocache/v2, as the store uses it: a cache
-- without a maximum size and without expiry. It is not part of the repository, so it is an
-- interface here; its laws are those of a map.
use gatus.Prelude.{
  ℕ, ◌≡◌, Bool, true, false, Option, none, some, List, [], ◌∷◌, Text, text_eq, if◌then◌else◌,
}
use gatus.Endpoint.{contains_text}

abbrev pub is_some : {V : Type 0} → Option V → Bool
is_some none = false
is_some (some v) = true

-- The keys of a map.
unfoldable pub keys_of : {V : Type 0} → List (Text × V) → List Text
keys_of [] = []
keys_of ((k, v) ∷ rest) = k ∷ keys_of rest

pub record Cache (V : Type 0) : Type 1 where
  pub C : Type 0
  -- NewCache().WithMaxSize(NoMaxSize)
  pub new_cache : C
  -- Get, GetValue
  pub get : C → Text → Option V
  -- Set
  pub put : C → Text → V → C
  -- GetAll, a map: in no particular order
  pub get_all : C → List (Text × V)
  -- GetKeysByPattern("*", 0)
  pub keys : C → List Text
  -- DeleteAll, with the number of keys that were deleted
  pub delete_all : C → List Text → C × ℕ
  -- Clear
  pub clear : C → C
  pub get-new_cache : (k : Text) → get new_cache k ≡ none
  pub get-put :
      (c : C) (k j : Text) (v : V) → get (put c k v) j ≡ (if text_eq k j then some v else get c j)
  pub get-delete_all :
      (c : C) (ks : List Text) (j : Text)
      → get (delete_all c ks).0 j ≡ (if contains_text ks j then none else get c j)
  pub contains-keys : (c : C) (k : Text) → contains_text (keys c) k ≡ is_some (get c k)
  pub get-clear : (c : C) (k : Text) → get (clear c) k ≡ none
  pub contains-keys_of-get_all :
      (c : C) (k : Text) → contains_text (keys_of (get_all c)) k ≡ is_some (get c k)
