-- ===== src/Suite/Execution.antt =====
-- Execute and StoreResultValues of config/suite/suite.go. The evaluation of an endpoint with a
-- context, the extraction of a value and the world (clock and timer) are parameters: what is shown
-- holds whatever they do. The mappings of an endpoint are visited in the order of their list,
-- which stands for any order of the map; the map of the stored values, which Execute does not use,
-- is left out.
use gatus.Prelude.{
  Bool, true, false, not, ◌&&◌, Option, none, some, List, [], ◌∷◌, ◌++◌, Text, codes, pos, ltb,
  length, if◌then◌else◌,
}
use gatus.Clock.{Time, Duration, sub}
use gatus.Endpoint
use gatus.Endpoint.{Endpoint}
use gatus.Gontext
use gatus.Gontext.{Value, Fields, new, set, get_all}
use gatus.Suite.{Suite}
use gatus.Suite.Results.{Result, add_error, calculate_success}

-- What extractValueForStorage returns.
pub data Extracted : Type 0 where
  value : Value → Extracted
  extraction_error : Text → Extracted

pub record Runner (W : Type 0) : Type 0 where
  -- time.Now
  pub now : W → Time × W
  -- whether the timer's channel has something to receive, which is then received
  pub timed_out : W → Bool × W
  -- time.Duration.String
  pub show_duration : Duration → Text
  -- EvaluateHealthWithContext
  pub evaluate : Endpoint → Fields → W → Endpoint.Result × W
  -- extractValueForStorage
  pub extract : Text → Endpoint.Result → Extracted

-- strings.Join(l, "; ").
unfoldable pub join_errors : List Text → Text
join_errors [] = []
join_errors (e ∷ []) = e
join_errors (e ∷ f ∷ rest) = e ++ codes "; " ++ join_errors (f ∷ rest)

-- The context and the error with which StoreResultValues ends, if it ends at a value.
pub record Stored : Type 0 where
  pub context : Fields
  pub failure : Option Text

-- What the loop of Execute keeps.
pub record Running (W : Type 0) : Type 0 where
  pub context : Fields
  pub result : Result
  pub suite_has_failed : Bool
  pub world : W

-- The endpoint's result with its name, its time and the error of the storing.
unfoldable pub with_failure : Option Text → Endpoint.Result → Endpoint.Result
with_failure none result = result
with_failure (some e) result = Endpoint.add_error result (codes "failed to store values: " ++ e)

-- What an endpoint's result adds to the running suite.
unfoldable pub note_result : {W : Type 0} → Running W → Endpoint.Result → Running W
note_result running ep_result =
    let result = record running.result {
      endpoint_results = running.result.endpoint_results ++ ep_result ∷ [];
    } in
    if ep_result.success
    then record running { result = result }
    else record running { result = record result { success = false }; suite_has_failed = true }

module _ {W : Type 0} (r : Runner W) where
  -- The loop of StoreResultValues, with the extraction errors so far.
  unfoldable pub store_each : List (Text × Text) → Endpoint.Result → List Text → Fields → Stored
  store_each [] result errors ctx = record {
    context = ctx;
    failure =
        if ltb 0 (length errors)
        then some (codes "failed to extract values: " ++ join_errors errors)
        else none;
  }
  store_each ((context_key, placeholder) ∷ rest) result errors ctx =
      elim (r.extract placeholder result) [
        | value v ↦ elim (set ctx context_key v) [
          | none ↦ record {
            context = ctx;
            failure = some (codes "failed to store " ++ context_key ++ codes ": empty path");
          }
          | some ctx' ↦ store_each rest result errors ctx'
        ]
        | extraction_error e ↦
            store_each rest result (errors ++ (context_key ++ codes ": " ++ e) ∷ []) ctx
      ]

  -- StoreResultValues.
  unfoldable pub store_result_values : List (Text × Text) → Endpoint.Result → Fields → Stored
  unfolding store_each
  store_result_values mappings result ctx = store_each mappings result [] ctx

  -- The check of the timeout. The break leaves the select only.
  unfoldable pub check_timeout : Duration → Result → W → Result × W
  check_timeout timeout result w =
      let (late, w') = r.timed_out w in
      (
        if late
            then record (add_error result
                (codes "suite execution timed out after " ++ r.show_duration timeout)) {
                  success = false;
                }
            else result,
        w',
      )

  -- The loop's body for an endpoint that is not skipped, up to the endpoint's result.
  unfoldable pub evaluate_endpoint : Duration → Endpoint → Running W → Running W × Endpoint.Result
  unfolding check_timeout
  evaluate_endpoint timeout ep running =
      let (result, w1) = check_timeout timeout running.result running.world in
      let (start, w2) = r.now w1 in
      let (evaluated, w3) = r.evaluate ep running.context w2 in
      let (end, w4) = r.now w3 in
      let timed = record evaluated {
        name = ep.name;
        timestamp = start;
        duration = sub end start;
      } in
      let stored = store_result_values ep.store timed running.context in
      (
        record running { context = stored.context; result = result; world = w4 },
        with_failure stored.failure timed,
      )

  -- The loop's body for an endpoint that is not skipped.
  unfoldable pub run_endpoint : Duration → Endpoint → Running W → Running W
  unfolding evaluate_endpoint note_result
  run_endpoint timeout ep running =
      let (running', ep_result) = evaluate_endpoint timeout ep running in
      note_result running' ep_result

  -- The loop of Execute.
  unfoldable pub run_endpoints : Duration → List Endpoint → Running W → Running W
  run_endpoints timeout [] running = running
  run_endpoints timeout (ep ∷ eps) running = run_endpoints timeout eps (
      if running.suite_has_failed && not ep.always_run
      then running
      else run_endpoint timeout ep running)

  -- Execute.
  unfoldable pub execute : Suite → W → Result × W
  execute s w =
      let (start, w') = r.now w in
      let running = run_endpoints s.timeout s.endpoints (record {
        context = new s.initial_context;
        result = record {
          name = s.name;
          group = s.group;
          success = true;
          timestamp = start;
          duration = pos 0;
          endpoint_results = [];
          context = Gontext.last;
          errors = [];
        };
        suite_has_failed = false;
        world = w';
      }) in
      let (end, w'') = r.now running.world in
      (
        calculate_success
            (record running.result { context = get_all running.context; duration = sub end start }),
        w'',
      )
