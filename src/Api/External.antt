-- ===== src/Api/External.antt =====
-- The push of a result of an external endpoint: CreateExternalEndpointResult of
-- api/external_endpoint.go. What the request holds is read by the HTTP library; the insertion into
-- the store and time.ParseDuration are parameters beside those of a round of the watchdog. Log lines
-- are left out.
use gatus.Prelude.{
  ℕ, Bool, false, not, ◌&&◌, ◌||◌, Option, none, some, List, [], ◌∷◌, ◌++◌, map, Text, codes,
  text_eq, has_prefix, trim_prefix, trim_space, to_lower, length, ltb, ◌==◌, if◌then◌else◌, ◌⊎◌,
  inl, inr,
}
use gatus.Clock.{Duration}
use gatus.Endpoint.{
  Endpoint, Result, empty_result, add_error, ExternalEndpoint, to_endpoint, external_key,
}
use gatus.Configuration.{get_external_endpoint_by_key}
use gatus.Watchdog.Monitoring.{Site, is_quiet, alert_external}

-- The query parameters, of which success may be missing and the others are empty where they are,
-- the Authorization header and the key of the path.
pub record Request : Type 0 where
  pub success : Option Text
  pub authorization : Text
  pub key : Text
  pub duration : Text
  pub error : Text

-- What InsertEndpointResult returns.
pub data Insertion : Type 0 where
  inserted : Insertion
  err_endpoint_not_found : Insertion
  insertion_error : Text → Insertion

-- The status of the answer with its text, the external endpoints as they are left, and the world.
pub record Answer (W : Type 0) : Type 0 where
  pub status : ℕ
  pub content : Text
  pub endpoints : List ExternalEndpoint
  pub world : W

-- The external endpoints where the one that the key finds has changed.
unfoldable pub put_external_endpoint :
    List ExternalEndpoint → Text → ExternalEndpoint → List ExternalEndpoint
put_external_endpoint [] key ee' = []
put_external_endpoint (ee ∷ endpoints) key ee' =
    let rest = put_external_endpoint endpoints key ee' in
    if text_eq (external_key ee) (map to_lower key) then ee' ∷ endpoints else ee ∷ rest

-- The token of an Authorization header.
abbrev pub bearer : Text
bearer = codes "Bearer "

abbrev pub token_of : Text → Text
token_of authorization = trim_space (trim_prefix bearer authorization)

-- Whether the success parameter is there and valid.
abbrev pub is_success : Option Text → Bool
is_success none = false
is_success (some s) = text_eq s (codes "true") || text_eq s (codes "false")

-- Whether the result is a success.
abbrev pub says_true : Option Text → Bool
says_true none = false
says_true (some s) = text_eq s (codes "true")

module _ {W P Window : Type 0} (site : Site W P Window) (parse_duration : Text → Duration ⊎ Text)
    (insert_endpoint_result : Endpoint → Result → W → Insertion × W)
    (endpoints : List ExternalEndpoint) (request : Request) where
  abbrev pub answers : ℕ → Text → W → Answer W
  answers status content w = record {
    status = status;
    content = content;
    endpoints = endpoints;
    world = w;
  }

  -- The part of the handler behind the insertion. Of the endpoint the metrics read nothing that the
  -- alerting changes.
  unfoldable pub after_insertion : ExternalEndpoint → Result → W → Answer W
  after_insertion ee result w =
      let (quiet, w1) = is_quiet site (external_key ee) w in
      let (ee', w2) = if quiet then (ee, w1) else alert_external site ee result w1 in
      let w3 = (if site.metrics then site.publish_endpoint (to_endpoint ee') result w2 else w2) in
      record {
        status = 200;
        content = [];
        endpoints = put_external_endpoint endpoints request.key ee';
        world = w3;
      }

  unfoldable pub answer_insertion : ExternalEndpoint → Result → Insertion → W → Answer W
  unfolding after_insertion
  answer_insertion ee result inserted w = after_insertion ee result w
  answer_insertion ee result err_endpoint_not_found w = answers 404 (codes "endpoint not found") w
  answer_insertion ee result (insertion_error e) w = answers 500 e w

  -- The part of the handler behind the duration.
  unfoldable pub insert_result : ExternalEndpoint → Result → W → Answer W
  unfolding answer_insertion
  insert_result ee result w =
      let noted =
        (if not result.success && ltb 0 (length request.error)
          then add_error result request.error
          else result) in
      let (insertion, w') = insert_endpoint_result (to_endpoint ee) noted w in
      answer_insertion ee noted insertion w'

  -- The part of the handler behind the authorization.
  unfoldable pub push_result : ExternalEndpoint → W → Answer W
  unfolding insert_result
  push_result ee w =
      let (t, w') = site.services.now w in
      let result = (record empty_result { timestamp = t; success = says_true request.success }) in
      if length request.duration == 0
      then insert_result ee result w'
      else elim (parse_duration request.duration) [
        | inr e ↦ answers 400 (codes "invalid duration: " ++ e) w'
        | inl d ↦ insert_result ee (record result { duration = d }) w'
      ]

  -- The part of the handler behind the header.
  unfoldable pub check_token : Option ExternalEndpoint → W → Answer W
  unfolding push_result
  check_token none w = answers 404 (codes "not found") w
  check_token (some ee) w =
      if not (text_eq ee.token (token_of request.authorization))
      then answers 401 (codes "invalid token") w
      else push_result ee w

  -- CreateExternalEndpointResult.
  unfoldable pub create_external_endpoint_result : W → Answer W
  unfolding check_token
  create_external_endpoint_result w =
      if not (is_success request.success)
      then answers 400 (codes "missing or invalid success query parameter") w
      else if not (has_prefix bearer request.authorization)
      then answers 401 (codes "invalid Authorization header") w
      else if length (token_of request.authorization) == 0
      then answers 401 (codes "bearer token must not be empty") w
      else check_token (get_external_endpoint_by_key endpoints request.key) w
