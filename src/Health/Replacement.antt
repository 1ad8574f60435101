-- ===== src/Health/Replacement.antt =====
-- What replaceContextPlaceholders of config/endpoint/endpoint.go replaces.
use gatus.Prelude.{
  ℕ, zero, ◌+◌, ◌≡◌, ◌≢◌, ◌==◌, refl, ap, ◌∙◌, true, false, Option, none, some, [], ◌∷◌, ◌++◌, All,
  Text, codes, contains, has_prefix, length, arith,
}
use gatus.Gontext.{Value, Fields, get}
use gatus.JsonPath.{Json}
use gatus.Health.{
  is_path_byte, path_run, context_marker, match_context, Replaced, put_byte, put_value,
  replace_matches, context_failure, replace_context_placeholders,
}

abbrev pub untouched : Text → Replaced
untouched s = record { content = s; context_errors = [] }

no_match : (s : Text) → has_prefix context_marker s ≡ false → match_context s ≡ none
unfolding match_context
no_match s h = ground (arith, h)

-- One step of the replacement.
step_none :
    (j : Json) (ctx : Fields) (c : ℕ) (s : Text)
    → match_context (c ∷ s) ≡ none
    → replace_matches j ctx zero (c ∷ s) ≡ put_byte c (replace_matches j ctx zero s)
unfolding replace_matches
step_none j ctx c s h = ground (arith, h)

step_some :
    (j : Json) (ctx : Fields) (c : ℕ) (s path : Text)
    → match_context (c ∷ s) ≡ some path
    → replace_matches j ctx zero (c ∷ s)
      ≡ put_value j path (get ctx path) (replace_matches j ctx (9 + length path) s)
unfolding replace_matches
step_some j ctx c s path h = ground (arith, h)

contains_neither :
    (p : Text) (c : ℕ) (s : Text)
    → contains p (c ∷ s) ≡ false
    → (has_prefix p (c ∷ s) ≡ false) × (contains p s ≡ false)
unfolding contains
contains_neither p c s h = (ground arith, ground arith)

replace_nothing :
    (j : Json) (ctx : Fields) (s : Text)
    → contains context_marker s ≡ false
    → replace_matches j ctx zero s ≡ untouched s
unfolding replace_matches
replace_nothing j ctx [] h = refl
replace_nothing j ctx (c ∷ s) h =
    let (front, tail) = contains_neither context_marker c s h in
    step_none j ctx c s (no_match (c ∷ s) front)
    ∙ ap (λ (r : Replaced). put_byte c r) (replace_nothing j ctx s tail)

-- A text without the placeholder's beginning is unchanged, without an error.
pub replace_context_placeholders_id :
    (j : Json) (ctx : Fields) (input : Text)
    → contains context_marker input ≡ false
    → replace_context_placeholders j input ctx ≡ (input, none)
unfolding replace_context_placeholders context_failure
replace_context_placeholders_id j ctx input h =
    ap (λ (r : Replaced). (r.content, context_failure r.context_errors))
      (replace_nothing j ctx input h)

-- A text that does not go on with a byte of a path.
abbrev pub Stops : Text → Type 0
Stops [] = Unit
Stops (c ∷ s) = is_path_byte c ≡ false

path_run-append :
    (path rest : Text)
    → All (λ c. is_path_byte c ≡ true) path
    → Stops rest
    → path_run (path ++ rest) ≡ path
unfolding path_run
path_run-append [] [] p s = refl
path_run-append [] (c ∷ rest) p s = ground (arith, s)
path_run-append (c ∷ path) rest p s = rw (p.0, path_run-append path rest p.1 s) refl

skip-replace :
    (j : Json) (ctx : Fields) (gone rest : Text)
    → replace_matches j ctx (length gone) (gone ++ rest) ≡ replace_matches j ctx zero rest
unfolding replace_matches
skip-replace j ctx [] rest = refl
skip-replace j ctx (c ∷ gone) rest = skip-replace j ctx gone rest

match_found :
    (path rest : Text)
    → All (λ c. is_path_byte c ≡ true) path
    → path ≢ []
    → Stops rest
    → match_context (context_marker ++ (path ++ rest)) ≡ some path
unfolding match_context has_prefix
match_found [] rest p ne s = absurd (ne refl)
match_found (c ∷ path) rest p ne s = ground (arith, path_run-append (c ∷ path) rest p s)

nine : (path : Text) → 9 + length path ≡ length (codes "CONTEXT]." ++ path)
nine path = omega arith

-- A text without an open bracket is a prefix of what goes on with one only if it is already a prefix
-- in front of the bracket.
has_prefix-bracket :
    (p before rest : Text)
    → All (λ c. (c == b'[') ≡ false) p
    → has_prefix p (before ++ b'[' ∷ rest) ≡ has_prefix p before
unfolding has_prefix
has_prefix-bracket [] [] rest h = refl
has_prefix-bracket [] (c ∷ before) rest h = refl
has_prefix-bracket (x ∷ p) [] rest h = ground (arith, h.0)
has_prefix-bracket (x ∷ p) (c ∷ before) rest h =
    ground (arith, has_prefix-bracket p before rest h.1)

marker_tail : All (λ c. (c == b'[') ≡ false) (codes "CONTEXT].")
marker_tail = (refl, (refl, (refl, (refl, (refl, (refl, (refl, (refl, (refl, tt)))))))))

-- No placeholder begins within a text in front of a bracket that does not hold the beginning of one.
marker_not_before :
    (c : ℕ) (before rest : Text)
    → has_prefix context_marker (c ∷ before) ≡ false
    → has_prefix context_marker (c ∷ (before ++ b'[' ∷ rest)) ≡ false
unfolding has_prefix
marker_not_before c before rest h =
    ground (arith, has_prefix-bracket (codes "CONTEXT].") before rest marker_tail)

-- What is in front of a placeholder is copied.
replace_before :
    (j : Json) (ctx : Fields) (before rest : Text) (r : Replaced)
    → contains context_marker before ≡ false
    → replace_matches j ctx zero (b'[' ∷ rest) ≡ r
    → replace_matches j ctx zero (before ++ b'[' ∷ rest)
      ≡ record { content = before ++ r.content; context_errors = r.context_errors }
replace_before j ctx [] rest r h e = e
replace_before j ctx (c ∷ before) rest r h e =
    let (front, tail) = contains_neither context_marker c before h in
    step_none j ctx c (before ++ b'[' ∷ rest)
      (no_match (c ∷ (before ++ b'[' ∷ rest)) (marker_not_before c before rest front))
    ∙ ap (λ (x : Replaced). put_byte c x) (replace_before j ctx before rest r tail e)

-- A placeholder whose path the context has.
replace_at :
    (j : Json) (ctx : Fields) (path rest : Text) (v : Value)
    → All (λ c. is_path_byte c ≡ true) path
    → path ≢ []
    → Stops rest
    → get ctx path ≡ some v
    → replace_matches j ctx zero (context_marker ++ (path ++ rest))
      ≡ put_value j path (some v) (replace_matches j ctx zero rest)
replace_at j ctx path rest v p ne s there =
    step_some j ctx b'[' (codes "CONTEXT]." ++ (path ++ rest)) path (match_found path rest p ne s)
    ∙ ap
        (λ (o : Option Value).
          put_value j path o
            (replace_matches j ctx (9 + length path) (codes "CONTEXT]." ++ (path ++ rest))))
        there
    ∙ ap (λ (r : Replaced). put_value j path (some v) r)
        (ap (λ n. replace_matches j ctx n (codes "CONTEXT]." ++ (path ++ rest))) (nine path)
          ∙ skip-replace j ctx (codes "CONTEXT]." ++ path) rest)

-- The first placeholder of a text, if the context has its path, gives way to the value as it is
-- printed: what is in front of it is unchanged, and what is behind it, if it does not go on with a
-- byte of a path, is replaced as if it stood alone, with the same error.
pub replace_found :
    (j : Json) (ctx : Fields) (before path rest : Text) (v : Value)
    → contains context_marker before ≡ false
    → All (λ c. is_path_byte c ≡ true) path
    → path ≢ []
    → Stops rest
    → get ctx path ≡ some v
    → let (behind, failure) = replace_context_placeholders j rest ctx in
      replace_context_placeholders j (before ++ (context_marker ++ (path ++ rest))) ctx
      ≡ (before ++ (j.sprint v ++ behind), failure)
unfolding replace_context_placeholders put_value
replace_found j ctx before path rest v clean p ne s there =
    ap (λ (r : Replaced). (r.content, context_failure r.context_errors))
      (replace_before j ctx before (codes "CONTEXT]." ++ (path ++ rest))
        (put_value j path (some v) (replace_matches j ctx zero rest)) clean
        (replace_at j ctx path rest v p ne s there))
