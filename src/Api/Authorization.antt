-- ===== src/Api/Authorization.antt =====
-- Who can push a result of an external endpoint (api/external_endpoint.go).
use gatus.Prelude.{
  ◌≡◌, ◌≢◌, ◌⊎◌, refl, ap, codes, Bool, true, false, not, inl, inr, Option, none, some, List, [],
  Text, text_eq, text_eq_iff, has_prefix, length, ◌==◌, if◌then◌else◌, arith,
}
use gatus.Clock.{Duration}
use gatus.Endpoint.{Endpoint, Result, ExternalEndpoint}
use gatus.Configuration.{get_external_endpoint_by_key}
use gatus.Watchdog.Monitoring.{Site}
use gatus.Api.External.{
  Request, Insertion, Answer, bearer, token_of, is_success, answers, push_result, check_token,
  create_external_endpoint_result,
}

-- The request names an external endpoint and holds its token.
pub record IsAuthorized (endpoints : List ExternalEndpoint) (request : Request) : Type 0 where
  pub external_endpoint : ExternalEndpoint
  pub found : get_external_endpoint_by_key endpoints request.key ≡ some external_endpoint
  pub same_token : external_endpoint.token ≡ token_of request.authorization
  pub has_bearer : has_prefix bearer request.authorization ≡ true
  pub has_token : token_of request.authorization ≢ []
  pub has_success : is_success request.success ≡ true

-- An answer that refuses a request and changes nothing.
abbrev pub IsRefusal : {W : Type 0} → List ExternalEndpoint → W → Answer W → Type 0
IsRefusal endpoints w answer =
    (answer.endpoints ≡ endpoints) × (answer.world ≡ w) × (answer.status ≢ 200)

not_empty : (t : Text) → (length t == 0) ≡ false → t ≢ []
not_empty t h empty = ground (arith, ap (λ (u : Text). length u) empty)

-- A guard of the handler.
guard :
    {W : Type 0} (endpoints : List ExternalEndpoint) (w : W) (A : Type 0) (b : Bool)
    (x y : Answer W)
    → IsRefusal endpoints w x
    → (b ≡ false → A ⊎ IsRefusal endpoints w y)
    → A ⊎ IsRefusal endpoints w (if b then x else y)
guard endpoints w A true x y r h = inr r
guard endpoints w A false x y r h = h refl

module _ {W P Window : Type 0} (site : Site W P Window) (parse_duration : Text → Duration ⊎ Text)
    (insert_endpoint_result : Endpoint → Result → W → Insertion × W)
    (endpoints : List ExternalEndpoint) (request : Request) (w : W) where
  check_token-IsAuthorized :
      (o : Option ExternalEndpoint)
      → get_external_endpoint_by_key endpoints request.key ≡ o
      → has_prefix bearer request.authorization ≡ true
      → token_of request.authorization ≢ []
      → is_success request.success ≡ true
      → IsAuthorized endpoints request
        ⊎ IsRefusal endpoints w
            (check_token site parse_duration insert_endpoint_result endpoints request o w)
  unfolding check_token
  check_token-IsAuthorized none found has_bearer has_token success =
      inr (refl, refl, λ h. ground arith)
  check_token-IsAuthorized (some ee) found has_bearer has_token success =
      guard endpoints w (IsAuthorized endpoints request)
        (not (text_eq ee.token (token_of request.authorization)))
        (answers site parse_duration insert_endpoint_result endpoints request 401
          (codes "invalid token") w)
        (push_result site parse_duration insert_endpoint_result endpoints request ee w)
        (refl, refl, λ h. ground arith)
        (λ same. inl (record {
          external_endpoint = ee;
          found = found;
          same_token = (text_eq_iff ee.token (token_of request.authorization)).0 (ground arith);
          has_bearer = has_bearer;
          has_token = has_token;
          has_success = success;
        }))

  -- The handler refuses every request that is not authorized, and then changes neither an external
  -- endpoint nor anything else: nothing is stored, no alert is handled and no metric published.
  pub create-IsAuthorized :
      IsAuthorized endpoints request
      ⊎ IsRefusal endpoints w (
          create_external_endpoint_result site parse_duration insert_endpoint_result endpoints
            request w)
  unfolding create_external_endpoint_result
  create-IsAuthorized =
      guard endpoints w (IsAuthorized endpoints request) (not (is_success request.success)) _ _
        (refl, refl, λ h. ground arith)
        (λ success.
          guard endpoints w (IsAuthorized endpoints request)
            (not (has_prefix bearer request.authorization)) _ _ (refl, refl, λ h. ground arith)
            (λ there.
              guard endpoints w (IsAuthorized endpoints request)
                (length (token_of request.authorization) == 0) _ _ (refl, refl, λ h. ground arith)
                (λ nonempty.
                  check_token-IsAuthorized (get_external_endpoint_by_key endpoints request.key) refl
                    (ground arith) (not_empty (token_of request.authorization) nonempty)
                    (ground arith))))
