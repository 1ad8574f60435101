-- ===== src/Placeholder.antt =====
-- ResolvePlaceholder of config/endpoint/placeholder.go with the functions it calls. The body of a
-- result is a text; the functions of encoding/json and fmt are a parameter. An error and a panic
-- are values of their own.
pub mod Errors
use gatus.Prelude.{
  ℕ, zero, suc, ◌+◌, Bool, true, false, not, ◌&&◌, ◌||◌, Option, none, some, List, [], ◌∷◌, ◌++◌,
  pos, Text, codes, text_eq, has_prefix, has_suffix, trim_prefix, trim_suffix, trim_space, upper,
  show_ℕ, show_ℤ, show_bool, length, drop, ltb, ◌==◌, if◌then◌else◌,
}
use gatus.Clock.{milliseconds}
use gatus.Endpoint.{Result}
use gatus.Gontext.{Value, nil, bool, int, float, text, array, object, Fields, last, field, get}
use gatus.JsonPath.{Json, Walked, found, failed, panics, count_items, eval}

abbrev pub status_placeholder : Text
status_placeholder = codes "[STATUS]"

abbrev pub ip_placeholder : Text
ip_placeholder = codes "[IP]"

abbrev pub dns_rcode_placeholder : Text
dns_rcode_placeholder = codes "[DNS_RCODE]"

abbrev pub response_time_placeholder : Text
response_time_placeholder = codes "[RESPONSE_TIME]"

abbrev pub body_placeholder : Text
body_placeholder = codes "[BODY]"

abbrev pub connected_placeholder : Text
connected_placeholder = codes "[CONNECTED]"

abbrev pub certificate_expiration_placeholder : Text
certificate_expiration_placeholder = codes "[CERTIFICATE_EXPIRATION]"

abbrev pub domain_expiration_placeholder : Text
domain_expiration_placeholder = codes "[DOMAIN_EXPIRATION]"

abbrev pub context_placeholder : Text
context_placeholder = codes "[CONTEXT]"

abbrev pub length_function_prefix : Text
length_function_prefix = codes "len("

abbrev pub has_function_prefix : Text
has_function_prefix = codes "has("

abbrev pub function_suffix : Text
function_suffix = codes ")"

abbrev pub invalid_suffix : Text
invalid_suffix = codes "(INVALID)"

-- functionType.
pub data FunctionType : Type 0 where
  no_function function_len function_has : FunctionType

-- What ResolvePlaceholder returns: a text, or an error, or nothing since it panics.
pub data Resolution : Type 0 where
  resolved : Text → Resolution
  resolution_error : Text → Resolution
  resolution_panics : Resolution

-- extractFunctionWrapper.
unfoldable pub extract_function_wrapper : Text → FunctionType × Text
extract_function_wrapper placeholder =
    if has_prefix length_function_prefix placeholder && has_suffix function_suffix placeholder
    then (
      function_len,
      trim_suffix function_suffix (trim_prefix length_function_prefix placeholder),
    )
    else if has_prefix has_function_prefix placeholder && has_suffix function_suffix placeholder
    then (function_has, trim_suffix function_suffix (trim_prefix has_function_prefix placeholder))
    else (no_function, placeholder)

-- formatWithFunction.
unfoldable pub format_with_function : Text → FunctionType → Text
format_with_function value function_has = show_bool (not (text_eq value []))
format_with_function value function_len = show_ℕ (length value)
format_with_function value no_function = value

abbrev pub invalid : Text → Text
invalid original = original ++ codes " " ++ invalid_suffix

-- What the path of a JSON body comes to under a function.
unfoldable pub found_under : FunctionType → Text → Walked → Resolution
found_under fn original panics = resolution_panics
found_under function_has original (found value n) = resolved (show_bool true)
found_under function_has original failed = resolved (show_bool false)
found_under fn original failed = resolved (invalid original)
found_under function_len original (found value n) = resolved (show_ℕ n)
found_under no_function original (found value n) = resolved value

-- resolveJSONPathPlaceholder, for the path of the placeholder behind [BODY].
abbrev pub body_path : Text → Text
body_path placeholder =
    if has_prefix body_placeholder (upper placeholder)
    then drop (length body_placeholder) placeholder
    else trim_prefix body_placeholder placeholder

unfoldable pub resolve_json_path_placeholder :
    Json → Text → FunctionType → Text → Result → Resolution
unfolding found_under
resolve_json_path_placeholder j placeholder fn original result =
    found_under fn original (eval j (trim_prefix (codes ".") (body_path placeholder)) result.body)

unfoldable pub count_fields : Fields → ℕ
count_fields last = 0
count_fields (field k v rest) = suc (count_fields rest)

-- The length of a value of the context.
unfoldable pub value_length : Json → Value → ℕ
unfolding count_fields
value_length j (text t) = length t
value_length j (array items) = count_items items
value_length j (object fields) = count_fields fields
value_length j v = length (j.sprint v)

-- What a value of the context, if there is one, comes to under a function.
unfoldable pub value_under : Json → FunctionType → Text → Option Value → Text
unfolding value_length
value_under j function_has original (some v) = show_bool true
value_under j function_has original none = show_bool false
value_under j fn original none = invalid original
value_under j function_len original (some v) = show_ℕ (value_length j v)
value_under j no_function original (some v) = j.sprint v

-- resolveContextPlaceholder.
unfoldable pub resolve_context_path : Json → Text → FunctionType → Text → Fields → Text
unfolding value_under
resolve_context_path j [] function_has original ctx = show_bool false
resolve_context_path j [] fn original ctx = invalid original
resolve_context_path j (c ∷ path) fn original ctx = value_under j fn original (get ctx (c ∷ path))

unfoldable pub resolve_context_placeholder : Json → Text → FunctionType → Text → Fields → Resolution
unfolding resolve_context_path
resolve_context_placeholder j placeholder fn original ctx = resolved (
    resolve_context_path j (trim_prefix (codes ".") (trim_prefix context_placeholder placeholder))
      fn original ctx)

-- The branch of the body without a path.
unfoldable pub resolve_body : Json → FunctionType → Result → Resolution
resolve_body j function_has result = resolved (show_bool (ltb 0 (length (trim_space result.body))))
resolve_body j no_function result = resolved (trim_space result.body)
resolve_body j function_len result = elim (eval j [] result.body) [
  | found value n ↦ resolved (show_ℕ n)
  | failed ↦ resolved (show_ℕ (length (trim_space result.body)))
  | panics ↦ resolution_panics
]

-- The switch on the placeholder in upper case; `none` where no case applies.
unfoldable pub basic_placeholder : Json → Text → FunctionType → Result → Option Resolution
unfolding format_with_function resolve_body
basic_placeholder j name fn result =
    let format = λ (t : Text). some (resolved (format_with_function t fn)) in
    if text_eq name status_placeholder
    then format (show_ℤ result.http_status)
    else if text_eq name ip_placeholder
    then format result.ip
    else if text_eq name response_time_placeholder
    then format (show_ℤ (milliseconds result.duration))
    else if text_eq name dns_rcode_placeholder
    then format result.dns_rcode
    else if text_eq name connected_placeholder
    then format (show_bool result.connected)
    else if text_eq name certificate_expiration_placeholder
    then format (show_ℤ (milliseconds result.certificate_expiration))
    else if text_eq name domain_expiration_placeholder
    then format (show_ℤ (milliseconds result.domain_expiration))
    else if text_eq name body_placeholder
    then some (resolve_body j fn result)
    else none

-- What is no placeholder.
unfoldable pub unrecognized : FunctionType → Text → Text
unrecognized function_has original = show_bool false
unrecognized function_len original = invalid original
unrecognized no_function original = original

abbrev pub is_body_path : Text → Bool
is_body_path name =
    has_prefix (body_placeholder ++ codes ".") name
    || has_prefix (body_placeholder ++ codes "[") name

-- The cases behind those of the context.
unfoldable pub resolve_from_result : Json → Text → FunctionType → Text → Result → Resolution
unfolding unrecognized
resolve_from_result j placeholder fn original result =
    elim (basic_placeholder j (upper placeholder) fn result) [
      | some r ↦ r
      | none ↦
          if is_body_path (upper placeholder)
          then resolve_json_path_placeholder j placeholder fn original result
          else resolved (unrecognized fn original)
    ]

-- ResolvePlaceholder on a trimmed placeholder; a context that is nil is `none`.
unfoldable pub resolve_trimmed : Json → Text → Result → Option Fields → Resolution
unfolding resolve_from_result extract_function_wrapper
resolve_trimmed j original result context =
    let (fn, placeholder) = extract_function_wrapper original in
    elim context [
      | none ↦ resolve_from_result j placeholder fn original result
      | some ctx ↦
          if has_prefix context_placeholder (upper placeholder)
          then resolve_context_placeholder j placeholder fn original ctx
          else resolve_from_result j placeholder fn original result
    ]

-- ResolvePlaceholder.
unfoldable pub resolve_placeholder : Json → Text → Result → Option Fields → Resolution
unfolding resolve_trimmed
resolve_placeholder j placeholder result context =
    resolve_trimmed j (trim_space placeholder) result context
