-- ===== src/Tests/Contexts.antt =====
-- A context that is set and read.
use gatus.Prelude.{◌≡◌, refl, inl, inr, some, pos, codes, arith}
use gatus.Gontext.{Value, object, text, int, Fields, last, field, get, set, split_at_dots}
use gatus.Gontext.Paths.{Diverge, and_get, get-set, get-set_other}

-- {"user": {"id": 7}, "step": 1}
abbrev session : Fields
session =
    field (codes "user") (object (field (codes "id") (int (pos 7)) last))
      (field (codes "step") (int (pos 1)) last)

abbrev token : Value
token = object (field (codes "value") (text (codes "abc")) last)

-- The number under step makes room for a map.
get-set_example : and_get (set session (codes "step.token") token) (codes "step.token") ≡ some token
get-set_example = get-set session (codes "step.token") token

get-set_other_example :
    and_get (set session (codes "user.token") token) (codes "user.id")
    ≡ get session (codes "user.id")
unfolding Diverge split_at_dots
get-set_other_example =
    get-set_other session (codes "user.token") (codes "user.id") token
      (inr (refl, inl (λ e. ground arith)))
