-- ===== src/Provider/Choice.antt =====
-- Which provider an alert's type chooses.
use gatus.Prelude.{
  ◌≡◌, refl, ap, Bool-cases, inl, inr, Option, none, List, [], ◌∷◌, Text, text_eq, text_eq_iff,
  if◌then◌else◌, arith,
}
use gatus.Endpoint.{contains_text}
use gatus.Provider.{provider_tags, fields_of, config_of, get_alerting_provider_by_alert_type}

choice_of_fields :
    {P : Type 0} (tags : List Text) (field : Text → Option P) (t : Text)
    → get_alerting_provider_by_alert_type (fields_of tags field) t
      ≡ (if contains_text tags t then field t else none)
unfolding get_alerting_provider_by_alert_type fields_of contains_text
choice_of_fields [] field t = refl
choice_of_fields (tag ∷ tags) field t = elim (Bool-cases (text_eq tag t)) [
  | inl same ↦
      let e = ap field ((text_eq_iff tag t).0 same) in
      ground (arith, same, e, choice_of_fields tags field t)
  | inr other ↦ ground (arith, other, choice_of_fields tags field t)
]

-- In the struct of all providers, the alert type that is the tag of a field chooses this field, and
-- any other type chooses no provider.
pub get_alerting_provider_lem :
    {P : Type 0} (field : Text → Option P) (t : Text)
    → get_alerting_provider_by_alert_type (config_of field) t
      ≡ (if contains_text provider_tags t then field t else none)
unfolding config_of
get_alerting_provider_lem field t = choice_of_fields provider_tags field t
