-- ===== src/Memory/Status/Events.antt =====
-- The events that a status keeps (storage/store/memory/util.go).
use gatus.Prelude.{
  ℕ, zero, suc, ◌-◌, ◌≤◌, ◌<◌, ◌≡◌, ◌≢◌, refl, sym, ap, ◌∙◌, subst, Option, none, some, List, [],
  ◌∷◌, ◌++◌, length, length-append, drop, get_last?, get_last?-append, ltb, max, Bool, Bool-cases,
  inl, inr, arith, if◌then◌else◌, true, false,
}
use gatus.Clock.{Time}
use gatus.Endpoint.{
  Result, Event, EventType, event_start, event_healthy, event_unhealthy, new_event_from_result,
}
use gatus.Memory.Status.{Status, keep_last, add_result, add_event, same_outcome}
use gatus.Memory.Status.History.{length-keep_last}

-- Neighbouring events differ in type.
abbrev pub Alternates : List Event → Type 0
Alternates [] = Unit
Alternates (e ∷ []) = Unit
Alternates (e ∷ (f ∷ es)) = (e.event_type ≢ f.event_type) × Alternates (f ∷ es)

abbrev pub health : Bool → EventType
health b = if b then event_healthy else event_unhealthy

-- The last event is the start of the monitoring, or tells the health of the last result.
abbrev pub Latest : Option Result → Option Event → Type 0
Latest none none = Unit
Latest none (some e) = e.event_type ≡ event_start
Latest (some r) none = ⊥
Latest (some r) (some e) = e.event_type ≡ health r.success

pub record Tracks (max_events : ℕ) (ss : Status) : Type 0 where
  pub alternates : Alternates ss.events
  pub latest : Latest (get_last? ss.results) (get_last? ss.events)
  pub bounded : length ss.events ≤ max 2 max_events
  pub starts_short : get_last? ss.results ≡ none → length ss.events ≤ 1

-- The type of the last of a list's events is not `t`.
abbrev NotLast : EventType → Option Event → Type 0
NotLast t none = Unit
NotLast t (some e) = e.event_type ≢ t

Alternates-append :
    (es : List Event) (f : Event)
    → Alternates es
    → NotLast f.event_type (get_last? es)
    → Alternates (es ++ f ∷ [])
Alternates-append [] f a h = tt
Alternates-append (e ∷ []) f a h = (h, tt)
Alternates-append (e ∷ (e' ∷ es)) f a h = (a.0, Alternates-append (e' ∷ es) f a.1 h)

Alternates-tail : (e : Event) (es : List Event) → Alternates (e ∷ es) → Alternates es
Alternates-tail e [] a = tt
Alternates-tail e (f ∷ es) a = a.1

Alternates-drop : (n : ℕ) (es : List Event) → Alternates es → Alternates (drop n es)
Alternates-drop zero es a = a
Alternates-drop (suc n) [] a = tt
Alternates-drop (suc n) (e ∷ es) a = Alternates-drop n es (Alternates-tail e es a)

Alternates-keep_last : (n : ℕ) (es : List Event) → Alternates es → Alternates (keep_last n es)
unfolding keep_last
Alternates-keep_last n es a = elim (Bool-cases (ltb n (length es))) [
  | inl over ↦ rw over (Alternates-drop (length es - n) es a)
  | inr fits ↦ rw fits a
]

module _ {ℓ} {A : Type ℓ} where
  get_last?-drop : (n : ℕ) (xs : List A) → n < length xs → get_last? (drop n xs) ≡ get_last? xs
  get_last?-drop zero xs h = refl
  get_last?-drop (suc n) [] h = elim h [ ]
  get_last?-drop (suc n) (x ∷ []) h = absurd (omega arith)
  get_last?-drop (suc n) (x ∷ (y ∷ xs)) h = get_last?-drop n (y ∷ xs) (omega arith)

  -- The newest element is kept.
  get_last?-keep_last :
      (n : ℕ) (xs : List A) (x : A) → 0 < n → get_last? (keep_last n (xs ++ x ∷ [])) ≡ some x
  unfolding keep_last
  get_last?-keep_last n xs x h = elim (Bool-cases (ltb n (length (xs ++ x ∷ [])))) [
    | inl over ↦ rw over (
        get_last?-drop (length (xs ++ x ∷ []) - n) (xs ++ x ∷ [])
          (omega (arith, length-append xs (x ∷ [])))
        ∙ get_last?-append xs x)
    | inr fits ↦ rw fits (get_last?-append xs x)
  ]

health_ne : (a b : Bool) → same_outcome a b ≡ false → health a ≢ health b
health_ne true true h = cc
health_ne true false h = λ e. cc
health_ne false true h = λ e. cc
health_ne false false h = cc

same_health : (a b : Bool) → same_outcome a b ≡ true → health a ≡ health b
same_health true true h = refl
same_health true false h = cc
same_health false true h = cc
same_health false false h = refl

start_ne : (b : Bool) → event_start ≢ health b
start_ne true e = cc
start_ne false e = cc

-- An event of another type than the last one can be added.
NotLast-of :
    (last : Option Result) (e : Option Event) (r : Result)
    → Latest last e
    → ((l : Result) → last ≡ some l → same_outcome l.success r.success ≡ false)
    → NotLast (health r.success) e
NotLast-of none none r l h = tt
NotLast-of none (some e) r l h = λ p. start_ne r.success (sym l ∙ p)
NotLast-of (some x) none r l h = tt
NotLast-of (some x) (some e) r l h = λ p. health_ne x.success r.success (h x refl) (sym l ∙ p)

abbrev outcome_of : Option Result → Result → Bool
outcome_of none r = false
outcome_of (some l) r = same_outcome l.success r.success

Latest-same :
    (x r : Result) (e : Option Event)
    → same_outcome x.success r.success ≡ true
    → Latest (some x) e
    → Latest (some r) e
Latest-same x r none s l = l
Latest-same x r (some e) s l = l ∙ same_health x.success r.success s

module _ (max_events : ℕ) (positive : 0 < max_events) (r : Result) where
  add_event-Alternates :
      (last : Option Result) (events : List Event)
      → Alternates events
      → Latest last (get_last? events)
      → Alternates (add_event last events r max_events)
  unfolding add_event new_event_from_result
  add_event-Alternates none events a l =
      Alternates-append events _ a (NotLast-of none (get_last? events) r l (λ x p. cc))
  add_event-Alternates (some x) events a l = elim (Bool-cases (same_outcome x.success r.success)) [
    | inl same ↦ rw same a
    | inr other ↦ rw other (
        Alternates-keep_last max_events _ (
          Alternates-append events _ a (
            NotLast-of (some x) (get_last? events) r l
              (λ y p. ap (λ (z : Option Result). outcome_of z r) (sym p) ∙ other))))
  ]

  add_event-Latest :
      (last : Option Result) (events : List Event)
      → Latest last (get_last? events)
      → Latest (some r) (get_last? (add_event last events r max_events))
  unfolding add_event new_event_from_result
  add_event-Latest none events l =
      subst (Latest (some r)) (sym (get_last?-append events (new_event_from_result r))) refl
  add_event-Latest (some x) events l = elim (Bool-cases (same_outcome x.success r.success)) [
    | inl same ↦ rw same (Latest-same x r (get_last? events) same l)
    | inr other ↦ rw other (
        subst (Latest (some r))
          (sym (get_last?-keep_last max_events events (new_event_from_result r) positive)) refl)
  ]

add_event-length :
    (last : Option Result) (events : List Event) (r : Result) (max_events : ℕ)
    → (last ≡ none → length events ≤ 1)
    → length events ≤ max 2 max_events
    → length (add_event last events r max_events) ≤ max 2 max_events
unfolding add_event
add_event-length none events r e h b =
    omega (arith, length-append events (new_event_from_result r ∷ []), h refl)
add_event-length (some x) events r e h b =
    ground (arith, length-keep_last e (events ++ new_event_from_result r ∷ []))

-- With positive maxima, AddResult keeps this: neighbouring events differ in type, the last event
-- tells the health of the last result (or, before any result, the start), and there are at most
-- as many events as configured, or two if that is more.
pub add_result-Tracks :
    (now : Time) (ss : Status) (r : Result) (max_results max_events : ℕ)
    → 0 < max_results
    → 0 < max_events
    → Tracks max_events ss
    → Tracks max_events (add_result now ss r max_results max_events)
unfolding add_result
add_result-Tracks now ss r m e hm he t = record {
  alternates = add_event-Alternates e he r (get_last? ss.results) ss.events t.alternates t.latest;
  latest =
      subst (λ x. Latest x (get_last? (add_event (get_last? ss.results) ss.events r e)))
        (sym (get_last?-keep_last m ss.results r hm))
        (add_event-Latest e he r (get_last? ss.results) ss.events t.latest);
  bounded = add_event-length (get_last? ss.results) ss.events r e t.starts_short t.bounded;
  starts_short = λ p. cc (get_last?-keep_last m ss.results r hm);
}
