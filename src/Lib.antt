-- ===== src/Lib.antt =====
-- Verification of Gatus, a monitor that probes endpoints, keeps their results and sends alerts.
--
-- A watchdog takes an endpoint's result and does two things with it: it inserts it into the store,
-- and it hands it to the alerting, which counts failures and successes in a row, raises and
-- lowers the alerts' flags and calls the providers.
--
--   Prelude     shared names; lists and 64-bit integers over the native numbers; texts as lists of
--               bytes
--   Clock       instants and durations, as far as Go's time package is used
--   Key         config/key/key.go: the key of a group and a name; its injectivity and stability
--   Alert       alerting/alert/alert.go: Alert, ValidateAndSetDefaults and the accessors
--   Provider    alerting/config.go, GetAlertingProviderByAlertType; alerting/provider/provider.go,
--               the merge of the default alert
--   Settings    config/endpoint/{ui,dns,ssh}/: the settings of an endpoint and their validation
--   Endpoint    config/endpoint/: the structs of endpoints, external endpoints, results and events
--   JsonPath    jsonpath/jsonpath.go: Eval, walk and extractValue; Walk says which keys a walk
--               follows, Panics when extractValue panics
--   Placeholder config/endpoint/placeholder.go; Errors says how ResolvePlaceholder ends
--   Condition   config/endpoint/condition.go and pattern/pattern.go: isEqual and the resolved
--               parameters, Display prettify, Evaluation evaluate and Validate. Equality is about
--               isEqual, Outcome about what evaluate does to a result, Validation about Validate,
--               Grammar about conditions of the documented form
--   Health      config/endpoint/endpoint.go and config/endpoint/common.go: the types of endpoints
--               and the values of a context, Client the functions of the client package, Call the
--               call, Evaluation EvaluateHealthWithContext, Validation ValidateAndSetDefaults.
--               Conditions is about the loop over the conditions, Replacement about the values of
--               a context, Panics about panics, Readiness and Accepted about accepted endpoints,
--               External the validation of config/endpoint/external_endpoint.go
--   Maintenance config/maintenance/maintenance.go; Windows says when a window is open, Start which
--               starts are read
--   Watchdog    watchdog/alerting.go. Alerting is HandleAlerting with its two handlers: a loop over
--               the alerts is a recursion that carries the alerts behind it, since a provider is
--               given the endpoint as it stands. Counters and Flags say what one alert's turn
--               changes, Loops lifts this to the loops, Transitions and Notices state what a
--               result does, Streaks and Incidents what a list of results does, External what
--               happens to a converted external endpoint. Monitoring is one round of
--               watchdog/endpoint.go, watchdog/external_endpoint.go and watchdog/suite.go; Rounds
--               what a heartbeat's round changes, Suites which results the endpoints of a suite
--               are alerted on
--   Gontext     config/gontext/gontext.go: the values of a suite's context, New, Get, Set, GetAll;
--               Paths says what a path reads after a Set
--   Suite       config/suite/: Suite and its accessors, Results is the result of a suite, Execution
--               Execute and StoreResultValues, Order which endpoints run, Alignment at which
--               index their results stand, Storing what StoreResultValues reports,
--               Validation ValidateAndSetDefaults, Extraction extractValueForStorage
--   Configuration config/config.go: lookups by key, the single endpoint, the concurrency and
--               ValidateUniqueKeys; Uniqueness says what this accepts
--   Services    storage/config.go, config/connectivity/connectivity.go, config/web/web.go and
--               config/announcement/announcement.go but the sorting; Limits links an accepted
--               storage to the memory store
--   Memory      storage/store/memory/ and storage/store/common/paging/. Paging is
--               getStartAndEndIndex with its wrap-around, Uptime the hourly statistics, Status is
--               AddResult and the shallow copy, Hourly the loop over a range's hours, Cache the
--               interface of the cache library, Store the operations on endpoints,
--               Store/Suites those on suites, Store/Insertions what insertions leave
--   Api         api/util.go: the page parameters of a request; External is the push of a result in
--               api/external_endpoint.go, Authorization who can push one; Badges is api/badge.go but
--               the badge of uptime, Colors and Newest say what its badges show
--   Tests       the models on concrete inputs, and an association list as a cache
--
-- An int and an int64 are integers that every operation wraps to 64 bits; a uint64 is a number
-- modulo 2^64; an instant is a number of nanoseconds since Go's zero time. A pointer or a map entry
-- that may be nil is an Option, a panic is `none` or a constructor of the reply. A float64 is the
-- number that its bits make, and the divisions are parameters.
--
-- Three loops are on fuel. The one over the hours of a range has two more than the whole hours
-- between the ends, one round for each hour and one to see the end. walk has one more than the
-- bytes of its path, and extractValue one more than those of its key, since each call of itself is
-- given a shorter text.
--
-- Parameters: the clock, the environment, the providers' Send and the store of triggered alerts in
-- the alerting (of them is assumed only what a theorem names: providers that deliver, a clock that
-- shows one instant, an environment without MOCK_ALERT_PROVIDER),
-- the semaphore, the connectivity checker, the metrics and the maintenance windows in a round, the
-- evaluation of an endpoint and the extraction of a value in a suite's execution (nothing is
-- assumed of them either), the cache, with the laws of a map, and for conditions and endpoints the
-- functions of strconv, time, path/filepath, fmt and encoding/json, the zone database, and the
-- functions of the client package. An evaluation of an endpoint that panics is `none` there, while a
-- round of the watchdog and the execution of a suite are stated for evaluations that return.
-- ToLower, ToUpper and TrimSpace are those on ASCII. Not modelled: log lines, locks (every operation of the store is one step), the SQL store, network clients, the
-- providers' requests, the HTTP routing, and the web interface.
pub mod Alert
pub mod Api
pub mod Clock
pub mod Condition
pub mod Endpoint
pub mod Gontext
pub mod JsonPath
pub mod Key
pub mod Memory
pub mod Placeholder
pub mod Prelude
pub mod Provider
pub mod Suite
pub mod Tests
pub mod Watchdog
pub mod Settings
pub mod Services
pub mod Health
pub mod Maintenance
pub mod Configuration
