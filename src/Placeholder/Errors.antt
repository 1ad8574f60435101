-- ===== src/Placeholder/Errors.antt =====
-- ResolvePlaceholder of config/endpoint/placeholder.go returns no error, and panics only where the
-- walk of the body does.
use gatus.Prelude.{
  ◌≡◌, ◌≢◌, ◌⊎◌, refl, true, Option, some, [], Text, Option-cases, inl, inr, upper, codes,
  trim_prefix, trim_space, arith,
}
use gatus.Endpoint.{Result}
use gatus.Gontext.{Fields}
use gatus.JsonPath.{Json, Walked, panics, eval}
use gatus.Placeholder.{
  FunctionType, no_function, function_len, function_has, Resolution, resolved, resolution_error,
  resolution_panics, found_under, resolve_json_path_placeholder, resolve_context_placeholder,
  resolve_body, basic_placeholder, is_body_path, resolve_from_result, resolve_placeholder,
  extract_function_wrapper, body_path,
}
use gatus.JsonPath.Whole.{eval-nil}

found_under-ne-error :
    (fn : FunctionType) (original : Text) (w : Walked) (e : Text)
    → found_under fn original w ≢ resolution_error e
unfolding found_under
found_under-ne-error no_function original w e h = ground arith
found_under-ne-error function_len original w e h = ground arith
found_under-ne-error function_has original w e h = ground arith

found_under-panics :
    (fn : FunctionType) (original : Text) (w : Walked)
    → found_under fn original w ≡ resolution_panics
    → w ≡ panics
unfolding found_under
found_under-panics no_function original w h = ground arith
found_under-panics function_len original w h = ground arith
found_under-panics function_has original w h = ground arith

-- The JSON path of a placeholder of the body.
abbrev pub path_in : Text → Text
path_in placeholder =
    trim_prefix (codes ".") (body_path (extract_function_wrapper (trim_space placeholder)).1)

-- A placeholder of the body whose JSON path makes the walk of the body panic.
abbrev pub PathPanics : Json → Text → Text → Type 0
PathPanics j body placeholder =
    (is_body_path (upper (extract_function_wrapper (trim_space placeholder)).1) ≡ true)
    × (eval j (path_in placeholder) body ≡ panics)

module _ (j : Json) (result : Result) where
  resolve_body-ne-error :
      (fn : FunctionType) (e : Text) → resolve_body j fn result ≢ resolution_error e
  unfolding resolve_body
  resolve_body-ne-error no_function e h = ground arith
  resolve_body-ne-error function_len e h = ground arith
  resolve_body-ne-error function_has e h = ground arith

  resolve_body-panics :
      (fn : FunctionType)
      → resolve_body j fn result ≡ resolution_panics
      → eval j [] result.body ≡ panics
  unfolding resolve_body
  resolve_body-panics no_function h = absurd (ground arith)
  resolve_body-panics function_len h = ground arith
  resolve_body-panics function_has h = absurd (ground arith)

  basic-ne-error :
      (name : Text) (fn : FunctionType) (e : Text)
      → basic_placeholder j name fn result ≢ some (resolution_error e)
  unfolding basic_placeholder
  basic-ne-error name fn e h = ground (arith, resolve_body-ne-error fn e)

  basic-panics :
      (name : Text) (fn : FunctionType)
      → basic_placeholder j name fn result ≡ some resolution_panics
      → eval j [] result.body ≡ panics
  unfolding basic_placeholder
  basic-panics name fn h = ground (arith, resolve_body-panics fn)

  resolve_from_result-ne-error :
      (placeholder : Text) (fn : FunctionType) (original e : Text)
      → resolve_from_result j placeholder fn original result ≢ resolution_error e
  unfolding resolve_from_result resolve_json_path_placeholder
  resolve_from_result-ne-error placeholder fn original e h = ground (
    arith,
    basic-ne-error (upper placeholder) fn e,
    found_under-ne-error fn original
        (eval j (trim_prefix (codes ".") (body_path placeholder)) result.body) e,
  )

  -- A panic comes from the walk of the body along the placeholder's path.
  resolve_from_result-panics :
      (placeholder : Text) (fn : FunctionType) (original : Text)
      → resolve_from_result j placeholder fn original result ≡ resolution_panics
      → (is_body_path (upper placeholder) ≡ true)
        × (eval j (trim_prefix (codes ".") (body_path placeholder)) result.body ≡ panics)
  unfolding resolve_from_result resolve_json_path_placeholder
  resolve_from_result-panics placeholder fn original h =
      elim (Option-cases (basic_placeholder j (upper placeholder) fn result)) [
        | inl missing ↦ ground (
          arith,
          missing,
          found_under-panics fn original
              (eval j (trim_prefix (codes ".") (body_path placeholder)) result.body),
        )
        | inr (r, there) ↦
            absurd
              (eval-nil j result.body (ground (arith, there, basic-panics (upper placeholder) fn)))
      ]

-- ResolvePlaceholder never returns an error.
pub resolve_placeholder-ne-error :
    (j : Json) (placeholder : Text) (result : Result) (context : Option Fields) (e : Text)
    → resolve_placeholder j placeholder result context ≢ resolution_error e
unfolding resolve_placeholder resolve_context_placeholder
resolve_placeholder-ne-error j placeholder result context e h =
    let original = trim_space placeholder in
    let (fn, inner) = extract_function_wrapper original in
    elim (Option-cases context) [
      | inl missing ↦
          ground (arith, missing, resolve_from_result-ne-error j result inner fn original e)
      | inr (ctx, there) ↦
          ground (arith, there, resolve_from_result-ne-error j result inner fn original e)
    ]

-- ResolvePlaceholder panics only where the walk of the body along the placeholder's path does.
pub resolve_placeholder-panics :
    (j : Json) (placeholder : Text) (result : Result) (context : Option Fields)
    → resolve_placeholder j placeholder result context ≡ resolution_panics
    → PathPanics j result.body placeholder
unfolding resolve_placeholder resolve_context_placeholder
resolve_placeholder-panics j placeholder result context h =
    let original = trim_space placeholder in
    let (fn, inner) = extract_function_wrapper original in
    elim (Option-cases context) [
      | inl missing ↦
          resolve_from_result-panics j result inner fn original (ground (arith, missing))
      | inr (ctx, there) ↦
          resolve_from_result-panics j result inner fn original (ground (arith, there))
    ]

pub resolve_placeholder-cases :
    (j : Json) (placeholder : Text) (result : Result) (context : Option Fields)
    → ((t : Text) × (resolve_placeholder j placeholder result context ≡ resolved t))
      ⊎ (resolve_placeholder j placeholder result context ≡ resolution_panics)
resolve_placeholder-cases j placeholder result context =
    settle (resolve_placeholder j placeholder result context)
      (resolve_placeholder-ne-error j placeholder result context)
  where
    settle :
        (r : Resolution)
        → ((e : Text) → r ≢ resolution_error e)
        → ((t : Text) × (r ≡ resolved t)) ⊎ (r ≡ resolution_panics)
    settle (resolved t) h = inl (t, refl)
    settle (resolution_error e) h = absurd (h e refl)
    settle resolution_panics h = inr refl
