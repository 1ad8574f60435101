-- ===== src/Tests/Badges.antt =====
-- The badges of an endpoint after a failure.
use gatus.Prelude.{◌≡◌, refl, Option, some, pos, codes, arith, Text, text_eq}
use gatus.Endpoint.{key}
use gatus.Key.{convert_group_and_name_to_key}
use gatus.Configuration.{get_endpoint_by_key}
use gatus.Memory.Store.{new_store, insert_endpoint_result}
use gatus.Api.Badges.{
  sent, generate_health_badge_svg, very_bad, status_down, serve_health,
  get_badge_color_from_response_time,
}
use gatus.Api.Badges.Newest.{serve_health-insert}
use gatus.Tests.Stores.{api, E, S, noon, down}
use gatus.Tests.Configurations.{settings}

-- Nothing is escaped.
abbrev plain : Text → Option Text
plain = some

serve_health-insert_example :
    serve_health E S plain generate_health_badge_svg
      (insert_endpoint_result E S noon noon (new_store E S 100 50) api down)
      (codes "core_api")
    ≡ sent (generate_health_badge_svg status_down)
unfolding key convert_group_and_name_to_key new_store
serve_health-insert_example =
    serve_health-insert E S plain generate_health_badge_svg noon noon (new_store E S 100 50) api
      down (codes "core_api") (omega arith) (omega arith) refl

-- An endpoint that has no settings of its own gets a nil pointer followed.
colors_run : get_badge_color_from_response_time (pos 800) (codes "x") settings ≡ some very_bad
unfolding get_badge_color_from_response_time get_endpoint_by_key text_eq key
    convert_group_and_name_to_key
colors_run = refl
