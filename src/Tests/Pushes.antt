-- ===== src/Tests/Pushes.antt =====
-- A result that is pushed to an external endpoint.
use gatus.Prelude.{
  ◌⊎◌, refl, ◌≡◌, inr, some, [], ◌∷◌, Text, codes, text_eq, has_prefix, trim_prefix, trim_space,
}
use gatus.Clock.{Duration}
use gatus.Endpoint.{Endpoint, Result, external_key}
use gatus.Key.{convert_group_and_name_to_key}
use gatus.Configuration.{get_external_endpoint_by_key}
use gatus.Api.External.{Request, Insertion, inserted, create_external_endpoint_result}
use gatus.Api.Authorization.{IsAuthorized, IsRefusal, create-IsAuthorized}
use gatus.Tests.Heartbeats.{silent, backup}
use Prim.Native.Nat.{ℕ}

abbrev push : Request
push = record {
  success = some (codes "false");
  authorization = codes "Bearer guess";
  key = codes "jobs_backup";
  duration = [];
  error = codes "disk full";
}

abbrev parse_duration : Text → Duration ⊎ Text
parse_duration t = inr (codes "invalid duration")

abbrev insert : Endpoint → Result → ℕ → Insertion × ℕ
insert ep result w = (inserted, w)

create-IsAuthorized_example :
    IsAuthorized (backup ∷ []) push
    ⊎ IsRefusal
        (backup ∷ [])
        9
        (create_external_endpoint_result silent parse_duration insert (backup ∷ []) push 9)
create-IsAuthorized_example = create-IsAuthorized silent parse_duration insert (backup ∷ []) push 9

-- A wrong token is refused, the right one is accepted.
refused_runs :
    (create_external_endpoint_result silent parse_duration insert (backup ∷ []) push 9).status ≡ 401
unfolding create_external_endpoint_result text_eq has_prefix trim_space trim_prefix
    get_external_endpoint_by_key external_key convert_group_and_name_to_key
refused_runs = refl

accepted_runs :
    (create_external_endpoint_result silent parse_duration insert
      (backup ∷ [])
      (record push { authorization = codes "Bearer secret" })
      9).status
    ≡ 200
unfolding create_external_endpoint_result text_eq has_prefix trim_space trim_prefix
    get_external_endpoint_by_key external_key convert_group_and_name_to_key
accepted_runs = refl
