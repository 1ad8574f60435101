-- ===== src/Memory/Status.antt =====
-- An endpoint's status: config/endpoint/status.go, and AddResult and the shallow copies of
-- storage/store/memory/util.go. The configured maxima are positive (storage/config.go). A nil
-- status, on which AddResult does nothing, does not occur where it is called.
pub mod History
pub mod Events
use gatus.Prelude.{
  ℕ, ◌-◌, Bool, true, false, not, ◌&&◌, ◌||◌, Option, none, some, List, [], ◌∷◌, ◌++◌, ℤ, pos, eq_ℤ,
  Text, length, drop, get_last?, ltb, if◌then◌else◌,
}
use gatus.Clock.{Time, Duration}
use gatus.Key.{convert_group_and_name_to_key}
use gatus.Endpoint.{Event, Result, new_event_from_result}
use gatus.Memory.Paging.{EndpointStatusParams, SuiteStatusParams, page_slice}
use gatus.Memory.Uptime.{Uptime, new_uptime, process_uptime_after_result}

-- Status of config/endpoint/status.go.
pub record Status : Type 0 where
  pub name : Text
  pub group : Text
  pub key : Text
  pub results : List Result
  pub results_count : ℕ
  pub events : List Event
  pub uptime : Uptime

-- NewStatus.
unfoldable pub new_status : Text → Text → Status
new_status group name = record {
  name = name;
  group = group;
  key = convert_group_and_name_to_key group name;
  results = [];
  results_count = 0;
  events = [];
  uptime = new_uptime;
}

-- xs[len(xs)-n:] where there are more than n.
unfoldable pub keep_last {ℓ} : {A : Type ℓ} → ℕ → List A → List A
keep_last n xs = if ltb n (length xs) then drop (length xs - n) xs else xs

abbrev same_outcome : Bool → Bool → Bool
same_outcome true b = b
same_outcome false b = not b

-- The part of AddResult that adds events, from the last result.
unfoldable pub add_event : Option Result → List Event → Result → ℕ → List Event
unfolding keep_last new_event_from_result
add_event none events result maximum_number_of_events = events ++ new_event_from_result result ∷ []
add_event (some last) events result maximum_number_of_events =
    if same_outcome last.success result.success
    then events
    else keep_last maximum_number_of_events (events ++ new_event_from_result result ∷ [])

-- AddResult; `now` is what time.Now returns when old hours are cleaned up.
unfoldable pub add_result : Time → Status → Result → ℕ → ℕ → Status
add_result now ss result maximum_number_of_results maximum_number_of_events = record ss {
  events = add_event (get_last? ss.results) ss.events result maximum_number_of_events;
  results = keep_last maximum_number_of_results (ss.results ++ result ∷ []);
  uptime = process_uptime_after_result now ss.uptime result;
}

all_zero : EndpointStatusParams → Bool
all_zero params =
    (eq_ℤ params.results_page (pos 0) && eq_ℤ params.results_page_size (pos 0))
    && (eq_ℤ params.events_page (pos 0) && eq_ℤ params.events_page_size (pos 0))

-- A copy with the two slices; a slice that panics panics.
with_slices : Status → Option (List Result) → Option (List Event) → Option Status
with_slices ss (some results) (some events) =
    some (record ss { results = results; events = events })
with_slices ss results events = none

-- The copy's own fields.
copy_header : Status → Option EndpointStatusParams → Status
copy_header ss params = record ss {
  results = [];
  events = [];
  uptime = new_uptime;
  results_count = elim params [
    | none ↦ 0
    | some p ↦ (if p.include_results_count then length ss.results else 0)
  ];
}

-- ShallowCopyEndpointStatus; the outer `none` is a panic, `none` parameters are nil.
unfoldable pub shallow_copy_endpoint_status : Status → Option EndpointStatusParams → Option Status
unfolding all_zero with_slices copy_header
shallow_copy_endpoint_status ss none =
    some (record (copy_header ss none) { results = ss.results; events = ss.events })
shallow_copy_endpoint_status ss (some params) =
    if all_zero params
    then some (record (copy_header ss (some params)) { results = ss.results; events = ss.events })
    else with_slices (copy_header ss (some params))
        (page_slice ss.results params.results_page params.results_page_size)
        (page_slice ss.events params.events_page params.events_page_size)
