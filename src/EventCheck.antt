-- ===== src/EventCheck.antt =====
-- `Event.__post_init__` of wbcz/models.py: what an event has to satisfy. The types of the fields are
-- fixed here, so the tests of types are left out.
pub mod Sound
mod Tests
use fbs_chz.Prelude.{
  ℕ, ◌*◌, ◌%◌, ◌^◌, ◌-◌, String, Bool, true, false, Option, none, some, ◌||◌, ◌&&◌, not, filled,
  ltb, nat_eq, if◌then◌else◌,
}
use fbs_chz.Models.{Datetime, naive, aware, Decimal, finite, not_finite, Event}
use fbs_chz.Effect.{Result, ok, err}

abbrev pub has_zone : Option Datetime → Bool
has_zone none = true
has_zone (some (naive t)) = false
has_zone (some (aware t)) = true

abbrev pub is_finite : Decimal → Bool
is_finite (finite sign digits scale) = true
is_finite not_finite = false

-- `abs(amount) > Decimal("999999999999999")`
abbrev pub is_too_large : Decimal → Bool
is_too_large (finite sign digits scale) = ltb (999999999999999 * 10 ^ scale) digits
is_too_large not_finite = false

-- `amount == amount.quantize(Decimal("0.01"))`: the digits behind the second one are zeros.
abbrev pub is_in_cents : Decimal → Bool
is_in_cents (finite sign digits scale) =
    if ltb 2 scale then nat_eq (digits % 10 ^ (scale - 2)) 0 else true
is_in_cents not_finite = false

unfoldable pub validate_event : Event → Result String (Unit {0})
validate_event e =
    if not (filled e.kiz) || not (filled e.task_number) || not (filled e.sticker)
    then err "КИЗ, № задания и стикер обязательны"
    else if not (has_zone e.occurred_at)
    then err "Дата события должна содержать часовой пояс"
    else if not (is_finite e.amount)
    then err "Стоимость должна быть конечным числом"
    else if is_too_large e.amount
    then err "Слишком большая стоимость"
    else if not (is_in_cents e.amount)
    then err "Стоимость должна содержать не более двух знаков"
    else ok tt
