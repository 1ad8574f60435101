-- ===== src/Health.antt =====
-- The evaluation of an endpoint's health, config/endpoint/endpoint.go: its type, the replacement of
-- the context's values, and what its conditions need. Children: the call and the evaluation.
pub mod Client
pub mod Call
pub mod Evaluation
pub mod Conditions
pub mod Readiness
pub mod Accepted
pub mod Validation
pub mod External
pub mod Panics
pub mod Replacement
use gatus.Prelude.{
  ℕ, zero, suc, ◌+◌, ◌-◌, Bool, true, false, not, ◌&&◌, ◌||◌, Option, none, some, List, [], ◌∷◌,
  ◌++◌, Text, codes, has_prefix, contains, equal_fold, join, length, drop, leb, ltb, ◌==◌,
  if◌then◌else◌,
}
use gatus.Endpoint.{Endpoint, Result, add_error}
use gatus.Gontext.{Value, Fields, get}
use gatus.JsonPath.{Json}
use gatus.Placeholder.{body_placeholder}
use gatus.Condition.Evaluation.{
  has_body_placeholder, has_domain_expiration_placeholder, has_ip_placeholder,
}

-- Type.
pub data EndpointType : Type 0 where
  type_dns type_tcp type_sctp type_udp type_icmp type_starttls type_tls type_http type_grpc type_ws
        type_ssh type_unknown :
      EndpointType

unfoldable pub type_of_url : Text → EndpointType
type_of_url url =
    if has_prefix (codes "tcp://") url
    then type_tcp
    else if has_prefix (codes "sctp://") url
    then type_sctp
    else if has_prefix (codes "udp://") url
    then type_udp
    else if has_prefix (codes "icmp://") url
    then type_icmp
    else if has_prefix (codes "starttls://") url
    then type_starttls
    else if has_prefix (codes "tls://") url
    then type_tls
    else if has_prefix (codes "http://") url || has_prefix (codes "https://") url
    then type_http
    else if has_prefix (codes "grpc://") url || has_prefix (codes "grpcs://") url
    then type_grpc
    else if has_prefix (codes "ws://") url || has_prefix (codes "wss://") url
    then type_ws
    else if has_prefix (codes "ssh://") url
    then type_ssh
    else type_unknown

-- endpoint.Type.
unfoldable pub endpoint_type : Endpoint → EndpointType
unfolding type_of_url
endpoint_type e = elim e.dns_config [ some d ↦ type_dns | none ↦ type_of_url e.url ]

-- hasHeader.
unfoldable pub has_header : List (Text × Text) → Text → Bool
has_header [] name = false
has_header (h ∷ headers) name = equal_fold h.0 name || has_header headers name

abbrev pub user_agent_header : Text
user_agent_header = codes "User-Agent"

abbrev pub content_type_header : Text
content_type_header = codes "Content-Type"

-- headers[name] = value, for a name that is not there: an entry behind the others.
abbrev pub add_header : List (Text × Text) → Text → Text → List (Text × Text)
add_header headers name value = headers ++ (name, value) ∷ []

-- One of a list passes a test.
unfoldable pub some_condition : (Text → Bool) → List Text → Bool
some_condition test [] = false
some_condition test (c ∷ conditions) = test c || some_condition test conditions

unfoldable pub some_mapping : List (Text × Text) → Bool
some_mapping [] = false
some_mapping (m ∷ store) = contains body_placeholder m.1 || some_mapping store

-- needsToReadBody, needsToRetrieveDomainExpiration and needsToRetrieveIP.
unfoldable pub needs_to_read_body : Endpoint → Bool
unfolding some_condition some_mapping
needs_to_read_body e = some_condition has_body_placeholder e.conditions || some_mapping e.store

unfoldable pub needs_to_retrieve_domain_expiration : Endpoint → Bool
unfolding some_condition
needs_to_retrieve_domain_expiration e =
    some_condition has_domain_expiration_placeholder e.conditions

unfoldable pub needs_to_retrieve_ip : Endpoint → Bool
unfolding some_condition
needs_to_retrieve_ip e = some_condition has_ip_placeholder e.conditions

-- The bytes of [\w\.\-].
unfoldable pub is_path_byte : ℕ → Bool
is_path_byte c =
    (leb b'0' c && leb c b'9')
    || (leb b'A' c && leb c b'Z')
    || (leb b'a' c && leb c b'z')
    || c == b'_'
    || c == b'.'
    || c == b'-'

-- The longest front of such bytes.
unfoldable pub path_run : Text → Text
unfolding is_path_byte
path_run [] = []
path_run (c ∷ s) = let rest = path_run s in if is_path_byte c then c ∷ rest else []

abbrev pub context_marker : Text
context_marker = codes "[CONTEXT]."

-- A match of the regular expression \[CONTEXT\]\.[\w\.\-]+ at the front: its path.
unfoldable pub match_context : Text → Option Text
unfolding path_run
match_context s =
    let path = path_run (drop 10 s) in
    if has_prefix context_marker s && ltb 0 (length path) then some path else none

-- A text with its replacements, and the errors of those that fail.
pub record Replaced : Type 0 where
  pub content : Text
  pub context_errors : List Text

abbrev pub put_byte : ℕ → Replaced → Replaced
put_byte c r = record r { content = c ∷ r.content }

-- What stands in for a path, in front of what is behind it.
unfoldable pub put_value : Json → Text → Option Value → Replaced → Replaced
put_value j path (some v) r = record r { content = j.sprint v ++ r.content }
put_value j path none r = record {
  content = context_marker ++ path ++ r.content;
  context_errors = (codes "path '" ++ path ++ codes "' not found") ∷ r.context_errors;
}

-- ReplaceAllStringFunc, with `skip` bytes of the last match still to come.
unfoldable pub replace_matches : Json → Fields → ℕ → Text → Replaced
unfolding match_context put_value
replace_matches j ctx skip [] = record { content = []; context_errors = [] }
replace_matches j ctx (suc skip) (c ∷ s) = replace_matches j ctx skip s
replace_matches j ctx zero (c ∷ s) =
    let same = replace_matches j ctx zero s in
    elim (match_context (c ∷ s)) [
      | none ↦ put_byte c same
      | some path ↦ put_value j path (get ctx path) (replace_matches j ctx (9 + length path) s)
    ]

-- The error of replaceContextPlaceholders.
unfoldable pub context_failure : List Text → Option Text
context_failure [] = none
context_failure (e ∷ errors) =
    some (codes "context placeholder resolution failed: " ++ join (codes ", ") (e ∷ errors))

-- replaceContextPlaceholders: the text as far as it could be replaced, and the error.
unfoldable pub replace_context_placeholders : Json → Text → Fields → Text × Option Text
unfolding replace_matches context_failure
replace_context_placeholders j input ctx =
    let r = replace_matches j ctx zero input in (r.content, context_failure r.context_errors)

abbrev pub note_failure : Result → Option Text → Result
note_failure result none = result
note_failure result (some e) = add_error result e

-- The headers with their values replaced.
unfoldable pub replace_headers :
    Json → Fields → List (Text × Text) → Result → List (Text × Text) × Result
unfolding replace_context_placeholders
replace_headers j ctx [] result = ([], result)
replace_headers j ctx (h ∷ headers) result =
    let (value, failure) = replace_context_placeholders j h.1 ctx in
    let (rest, after) = replace_headers j ctx headers (note_failure result failure) in
    ((h.0, value) ∷ rest, after)

-- preprocessWithContext: the endpoint and the result with the errors.
unfoldable pub preprocess_with_context : Json → Endpoint → Result → Fields → Endpoint × Result
unfolding replace_context_placeholders replace_headers
preprocess_with_context j e result ctx =
    let (url, url_failure) = replace_context_placeholders j e.url ctx in
    let (body, body_failure) = replace_context_placeholders j e.body ctx in
    let (headers, after) =
      replace_headers j ctx e.headers
        (note_failure (note_failure result url_failure) body_failure) in
    (record e { url = url; body = body; headers = headers }, after)
