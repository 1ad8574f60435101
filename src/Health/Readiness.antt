-- ===== src/Health/Readiness.antt =====
-- What ValidateAndSetDefaults of config/endpoint/endpoint.go checks, one part at a time.
use gatus.Prelude.{
  ◌*◌, ◌≡◌, ◌≢◌, refl, Bool, true, false, ◌&&◌, Bool-cases, inl, inr, Option, none, some, List, [],
  ◌∷◌, ◌++◌, All, pos, ltb_ℤ, Text, codes, equal_fold, if◌then◌else◌, arith,
}
use gatus.Clock.{Duration, minute}
use gatus.Settings.{Dns}
use gatus.Endpoint.{Endpoint}
use gatus.Condition.{Library}
use gatus.Condition.Evaluation.{comparator_of, validate, has_domain_expiration_placeholder}
use gatus.Condition.Validation.{validate-comparator_of}
use gatus.Health.{
  EndpointType, type_unknown, endpoint_type, has_header, user_agent_header, content_type_header,
}
use gatus.Health.Validation.{
  EndpointError, err_invalid_endpoint_interval_for_domain_expiration_placeholder,
  err_invalid_condition_format, Checked, accepted, refused, check_panics, and_then, with_user_agent,
  with_content_type, check_conditions, is_unknown,
}

-- What a check ends with satisfies a predicate, if it is accepted.
abbrev pub Ensures {ℓ κ} : {A : Type ℓ} → (A → Type κ) → Checked A → Type κ
Ensures P (accepted a) = P a
Ensures P (refused e) = Unit
Ensures P check_panics = Unit

pub and_then-Ensures :
    {A B : Type 0} (Q : A → Type 0) (P : B → Type 0) (c : Checked A) (go_on : A → Checked B)
    → Ensures Q c
    → ((a : A) → Q a → Ensures P (go_on a))
    → Ensures P (and_then c go_on)
unfolding and_then
and_then-Ensures Q P (accepted a) go_on q h = h a q
and_then-Ensures Q P (refused e) go_on q h = tt
and_then-Ensures Q P check_panics go_on q h = tt

-- What every check ensures.
abbrev pub Anything : {A : Type 0} → A → Type 0
Anything a = Unit

pub anything : {A : Type 0} (c : Checked A) → Ensures Anything c
anything (accepted a) = tt
anything (refused e) = tt
anything check_panics = tt

pub refuse_if :
    {A : Type 0} (P : A → Type 0) (b : Bool) (error : EndpointError) (c : Checked A)
    → (b ≡ false → Ensures P c)
    → Ensures P (if b then refused error else c)
refuse_if P true error c h = tt
refuse_if P false error c h = h refl

has_header-append :
    (headers : List (Text × Text)) (name value other : Text)
    → has_header headers other ≡ true
    → has_header (headers ++ (name, value) ∷ []) other ≡ true
unfolding has_header
has_header-append [] name value other h = absurd (ground arith)
has_header-append (x ∷ headers) name value other h =
    ground (arith, has_header-append headers name value other)

same_name : equal_fold user_agent_header user_agent_header ≡ true
unfolding equal_fold
same_name = refl

has_header_last :
    (headers : List (Text × Text)) (name value : Text)
    → equal_fold name name ≡ true
    → has_header (headers ++ (name, value) ∷ []) name ≡ true
unfolding has_header
has_header_last [] name value h = ground (arith, h)
has_header_last (x ∷ headers) name value h = ground (arith, has_header_last headers name value h)

pub user_agent_there :
    (headers : List (Text × Text)) → has_header (with_user_agent headers) user_agent_header ≡ true
unfolding with_user_agent
user_agent_there headers = elim (Bool-cases (has_header headers user_agent_header)) [
  | inl there ↦ ground (arith, there)
  | inr missing ↦
      ground
        (arith, missing, has_header_last headers user_agent_header (codes "Gatus/1.0") same_name)
]

pub user_agent-kept :
    (graphql : Bool) (headers : List (Text × Text))
    → has_header headers user_agent_header ≡ true
    → has_header (with_content_type graphql headers) user_agent_header ≡ true
unfolding with_content_type
user_agent-kept graphql headers there = ground (
  arith,
  has_header-append headers content_type_header (codes "application/json") user_agent_header there,
)

-- Of an accepted endpoint: it has UI settings, an interval, a method and a User-Agent header, and
-- at least one condition, all of which are valid.
pub record IsSettled (e : Endpoint) : Type 0 where
  pub has_ui : e.ui_config ≢ none
  pub has_interval : e.interval ≢ pos 0
  pub has_method : e.method ≢ []
  pub has_user_agent : has_header e.headers user_agent_header ≡ true
  pub has_conditions : e.conditions ≢ []
  pub valid_conditions : All (λ c. comparator_of c ≢ none) e.conditions

-- Its type is known too, unless it has settings for SSH.
pub record IsReady (e : Endpoint) : Type 0 where
  pub settled : IsSettled e
  pub known_type : e.ssh_config ≡ none → endpoint_type e ≢ type_unknown

module _ (go : Library) (refuses : go.json.unmarshal [] ≡ none) where
  -- A condition in front of those that are checked.
  check_first :
      (c : Text) (conditions : List Text) (b : Bool) (o : Option (Option Text))
      (rest : Checked {0} Unit)
      → (o ≡ some none → comparator_of c ≢ none)
      → Ensures (λ u. All (λ d. comparator_of d ≢ none) conditions) rest
      → Ensures
          (λ u. All (λ d. comparator_of d ≢ none) (c ∷ conditions))
          (if b
            then refused err_invalid_endpoint_interval_for_domain_expiration_placeholder
            else elim o [
              | none ↦ check_panics
              | some none ↦ rest
              | some (some e) ↦ refused (err_invalid_condition_format e)
            ])
  check_first c conditions true o rest v h = tt
  check_first c conditions false none rest v h = tt
  check_first c conditions false (some (some e)) rest v h = tt
  check_first c conditions false (some none) (accepted u) v h = (v refl, h)
  check_first c conditions false (some none) (refused e) v h = tt
  check_first c conditions false (some none) check_panics v h = tt

  valid_of : (c : Text) → validate go c ≡ some none → comparator_of c ≢ none
  valid_of c h missing = ground (arith, validate-comparator_of go c refuses, missing)

  pub check_conditions-Ensures :
      (interval : Duration) (conditions : List Text)
      → Ensures
          (λ u. All (λ d. comparator_of d ≢ none) conditions)
          (check_conditions go interval conditions)
  unfolding check_conditions
  check_conditions-Ensures interval [] = tt
  check_conditions-Ensures interval (c ∷ conditions) =
      check_first c conditions
        (ltb_ℤ interval (pos (5 * minute)) && has_domain_expiration_placeholder c) (validate go c)
        (check_conditions go interval conditions) (valid_of c)
        (check_conditions-Ensures interval conditions)

pub with_dns : (e : Endpoint) (d : Dns) → IsSettled e → IsReady (record e { dns_config = some d })
unfolding endpoint_type
with_dns e d h = record {
  settled = record {
    has_ui = h.has_ui;
    has_interval = h.has_interval;
    has_method = h.has_method;
    has_user_agent = h.has_user_agent;
    has_conditions = h.has_conditions;
    valid_conditions = h.valid_conditions;
  };
  known_type = λ s k. ground arith;
}

pub known : (t : EndpointType) → is_unknown t ≡ false → t ≢ type_unknown
unfolding is_unknown
known t h k = ground arith

-- An accepted endpoint is ready, whatever its windows.
abbrev pub Ready {ℓ} : {B : Type ℓ} → Endpoint × B → Type 0
Ready (e, b) = IsReady e
