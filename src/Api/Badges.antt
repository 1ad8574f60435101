-- ===== src/Api/Badges.antt =====
-- The badges of health and of response time: api/badge.go. The unescaping of a path parameter is
-- the URL library's, `none` where it fails. Of a badge its label, its value, their widths and its
-- color are kept: the SVG document around them and the encoding in JSON are left out, and so is the
-- badge of uptime, whose value is a float64 that is printed.
pub mod Colors
pub mod Newest
use gatus.Prelude.{
  ℕ, ◌*◌, ◌-◌, Option, none, some, List, [], ◌∷◌, ◌++◌, ℤ, leb_ℤ, length, Text, codes, text_eq,
  show_ℤ, if◌then◌else◌,
}
use gatus.Clock.{Time, hour}
use gatus.Endpoint.{Endpoint, Result}
use gatus.Suite.Results
use gatus.Settings.{default_ui}
use gatus.Configuration.{Config, get_endpoint_by_key}
use gatus.Memory.Cache.{Cache}
use gatus.Memory.Paging.{new_endpoint_status_params, with_results}
use gatus.Memory.Status.{Status}
use gatus.Memory.Store.{
  Store, Floats, Reply, ok, err_endpoint_not_found, err_suite_not_found, err_invalid_time_range,
  panic, get_endpoint_status_by_key, get_average_response_time_by_key,
}

-- The colors from badgeColorHexAwesome to badgeColorHexVeryBad.
abbrev pub awesome : Text
awesome = codes "#40cc11"

abbrev pub passable : Text
passable = codes "#ccb311"

abbrev pub very_bad : Text
very_bad = codes "#c7130a"

abbrev pub badge_colors : List Text
badge_colors = awesome ∷ codes "#94cc11" ∷ codes "#ccd311" ∷ passable ∷ codes "#cc8111" ∷ []

abbrev pub status_up : Text
status_up = codes "up"

abbrev pub status_down : Text
status_down = codes "down"

abbrev pub status_unknown : Text
status_unknown = codes "?"

-- getBadgeColorFromHealth.
unfoldable pub get_badge_color_from_health : Text → Text
get_badge_color_from_health status =
    if text_eq status status_up
    then awesome
    else if text_eq status status_down
    then very_bad
    else passable

-- getBadgeShieldsColorFromHealth.
unfoldable pub get_badge_shields_color_from_health : Text → Text
get_badge_shields_color_from_health status =
    if text_eq status status_up
    then codes "brightgreen"
    else if text_eq status status_down
    then codes "red"
    else codes "yellow"

-- The status that both health badges show, of the results of the page of one.
unfoldable pub health_status : List Result → Text
health_status [] = status_unknown
health_status (r ∷ results) = if r.success then status_up else status_down

-- The loop of getBadgeColorFromResponseTime over the indices 0 to 4; `none` is a panic, an index
-- that is out of range.
unfoldable pub first_color : List ℤ → List Text → ℤ → Option Text
first_color thresholds [] t = some very_bad
first_color [] (c ∷ colors) t = none
first_color (th ∷ thresholds) (c ∷ colors) t =
    let rest = first_color thresholds colors t in if leb_ℤ t th then some c else rest

-- The thresholds of the endpoint that is found, which has none where a pointer is nil.
unfoldable pub thresholds_of : Option Endpoint → Option (List ℤ)
thresholds_of none = elim default_ui.badge [ none ↦ none | some response_time ↦ response_time ]
thresholds_of (some ep) = elim ep.ui_config [
  | none ↦ none
  | some ui ↦ elim ui.badge [ none ↦ none | some response_time ↦ response_time ]
]

-- getBadgeColorFromResponseTime.
unfoldable pub get_badge_color_from_response_time : ℤ → Text → Config → Option Text
unfolding thresholds_of first_color
get_badge_color_from_response_time t k cfg =
    elim (thresholds_of (get_endpoint_by_key cfg.endpoints k)) [
      | none ↦ none
      | some thresholds ↦ first_color thresholds badge_colors t
    ]

pub record Badge : Type 0 where
  pub label : Text
  pub label_width : ℕ
  pub badge_value : Text
  pub value_width : ℕ
  pub color : Text

-- generateHealthBadgeSVG, up to the document.
unfoldable pub generate_health_badge_svg : Text → Badge
unfolding get_badge_color_from_health
generate_health_badge_svg status = record {
  label = codes "health";
  label_width = 48;
  badge_value = status;
  value_width =
      if text_eq status status_up
      then 28
      else if text_eq status status_down
      then 44
      else if text_eq status status_unknown
      then 10
      else 0;
  color = get_badge_color_from_health status;
}

-- generateHealthBadgeShields: the message and the color.
unfoldable pub generate_health_badge_shields : Text → Text × Text
unfolding get_badge_shields_color_from_health
generate_health_badge_shields status = (status, get_badge_shields_color_from_health status)

unfoldable pub response_time_label_width : Text → ℕ
response_time_label_width duration =
    if text_eq duration (codes "30d")
    then 110
    else if text_eq duration (codes "7d")
    then 105
    else if text_eq duration (codes "24h")
    then 110
    else if text_eq duration (codes "1h")
    then 105
    else 0

-- generateResponseTimeBadgeSVG, up to the document.
unfoldable pub generate_response_time_badge_svg : Text → ℤ → Text → Config → Option Badge
unfolding get_badge_color_from_response_time response_time_label_width
generate_response_time_badge_svg duration average_response_time k cfg =
    elim (get_badge_color_from_response_time average_response_time k cfg) [
      | none ↦ none
      | some color ↦ some (record {
        label = codes "response time " ++ duration;
        label_width = response_time_label_width duration;
        badge_value = show_ℤ average_response_time ++ codes "ms";
        value_width = length (show_ℤ average_response_time ++ codes "ms") * 11;
        color = color;
      })
    ]

-- What a handler answers: the status codes 400, 404, 500 and 200, or a panic.
pub data Served (A : Type 0) : Type 0 where
  bad_request : Served A
  not_found : Served A
  server_error : Served A
  sent : A → Served A
  panics : Served A

-- The answer to a reply of the store.
unfoldable pub serve : {A B : Type 0} → (A → Served B) → Reply A → Served B
serve send (ok a) = send a
serve send err_endpoint_not_found = not_found
serve send err_suite_not_found = server_error
serve send err_invalid_time_range = bad_request
serve send panic = panics

-- The start of the time range, before the instant of the request.
unfoldable pub response_times_from : Text → Time → Option Time
response_times_from duration now =
    if text_eq duration (codes "30d")
    then some (now - 720 * hour)
    else if text_eq duration (codes "7d")
    then some (now - 168 * hour)
    else if text_eq duration (codes "24h")
    then some (now - 24 * hour)
    else if text_eq duration (codes "1h")
    then some (now - 2 * hour)
    else none

module _ (E : Cache Status) (S : Cache Results.Status) (query_unescape : Text → Option Text) where
  -- What both health handlers do, for the badge that they send.
  unfoldable pub serve_health : {B : Type 0} → (Text → B) → Store E.C S.C → Text → Served B
  unfolding serve health_status
  serve_health generate s parameter = elim (query_unescape parameter) [
    | none ↦ bad_request
    | some k ↦
        serve (λ (status : Status). sent (generate (health_status status.results)))
          (get_endpoint_status_by_key E S s k
            (some (with_results (ℤ.pos 1) (ℤ.pos 1) new_endpoint_status_params)))
  ]

  -- HealthBadge.
  unfoldable pub health_badge : Store E.C S.C → Text → Served Badge
  unfolding serve_health
  health_badge = serve_health generate_health_badge_svg

  -- HealthBadgeShields.
  unfoldable pub health_badge_shields : Store E.C S.C → Text → Served (Text × Text)
  unfolding serve_health
  health_badge_shields = serve_health generate_health_badge_shields

  -- ResponseTimeBadge; the clock is read once for the start and once for the end.
  unfoldable pub response_time_badge :
      Floats → Config → Time → Time → Store E.C S.C → Text → Text → Served Badge
  unfolding serve response_times_from generate_response_time_badge_svg
  response_time_badge f cfg now later s duration parameter =
      elim (response_times_from duration now) [
        | none ↦ bad_request
        | some from ↦ elim (query_unescape parameter) [
          | none ↦ bad_request
          | some k ↦
              serve
                (λ average. elim (generate_response_time_badge_svg duration average k cfg) [
                  | none ↦ panics
                  | some badge ↦ sent badge
                ])
                (get_average_response_time_by_key E S f s k from later)
        ]
      ]
