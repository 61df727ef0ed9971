-- ===== src/ControlEngine.antt =====
-- wbcz/control_engine.py: the decision for one event of the marketplace, from the state of its code.
-- `ValueError` is the text that it carries.
pub mod Decisions
mod Tests
use fbs_chz.Prelude.{
  ℕ, String, Bool, true, false, Option, none, some, ◌≡◌, ◌&&◌, ◌||◌, ltb, leb, nat_eq, not, all,
  codes, len, filled, present, opt_eq, elem, ◌==◌, if◌then◌else◌,
}
use fbs_chz.Runtime.{Runtime}
use fbs_chz.Models.{
  Operation, sale, return, ready_to_withdraw, ready_to_return, already_done, manual_review, Event,
  KiState, Outcome, Decision,
}
use fbs_chz.Effect.{Result, ok, err, bind}

-- `len(value) in (10, 12)`.
abbrev pub has_inn_size : ℕ → Bool
has_inn_size n = nat_eq n 10 || nat_eq n 12

abbrev pub inn_message : String
inn_message = "ИНН владельца должен содержать 10 или 12 ASCII-цифр"

-- `value.isascii()`, and `value.isdigit()`: not empty, and every character a digit.
abbrev pub is_ascii : String → Bool
is_ascii s = all (λ c. ltb c 128) (codes s)

abbrev is_some {ℓ} : {A : Type ℓ} → Option A → Bool
is_some none = false
is_some (some a) = true

unfoldable pub has_sale_receipt_evidence : Event → Bool
has_sale_receipt_evidence event = present event.receipt_number && is_some event.occurred_at

abbrev pub outcome : Decision → String → Result String Outcome
outcome d reason = ok (record { decision = d; reason = reason; error = none })

abbrev is_return : Operation → Bool
is_return return = true
is_return sale = false

-- `event.legal_entity_sale is not False`
abbrev is_not_false : Option Bool → Bool
is_not_false (some false) = false
is_not_false _ = true

-- The branch of a code that is in circulation.
decide_in_circulation : Event → KiState → Result String Outcome
decide_in_circulation event state =
    if present state.withdraw_reason
    then outcome manual_review "UNKNOWN_CHZ_STATUS"
    else if is_return event.operation
    then outcome already_done "RETURN_ALREADY_IN_CIRCULATION"
    else if is_not_false event.legal_entity_sale
    then outcome manual_review "LEGAL_ENTITY_RULES_UNDEFINED"
    else if is_some state.product_group && not (has_sale_receipt_evidence event)
    then outcome manual_review "SALE_RECEIPT_MISSING"
    else outcome ready_to_withdraw "SALE_IN_CIRCULATION"

decide_withdrawn : Event → KiState → Result String Outcome
decide_withdrawn event state =
    if not (opt_eq state.withdraw_reason (some "DISTANCE"))
    then outcome manual_review "NON_DISTANCE_OR_UNKNOWN_WITHDRAWAL"
    else if not (is_return event.operation)
    then outcome already_done "SALE_ALREADY_WITHDRAWN_DISTANCE"
    else outcome ready_to_return "RETURN_WITHDRAWN_DISTANCE"

module _ ⦃py : Runtime⦄ where
  abbrev pub is_digits : String → Bool
  is_digits s = filled s && all py.is_digit (codes s)

  unfoldable pub validate_owner_inn : String → Result String (Unit {0})
  validate_owner_inn value =
      if not (is_ascii value) || not (is_digits value) || not (has_inn_size (len value))
      then err inn_message
      else ok tt

  -- `verified_lp and state.productGroup.casefold() != "lp"`
  abbrev pub wrong_group : Option String → Bool
  wrong_group none = false
  wrong_group (some g) = not (py.casefold g == "lp")

  -- `decide` after `validate_owner_inn`.
  unfoldable pub decide_checked : Event → KiState → String → Result String Outcome
  unfolding decide_in_circulation decide_withdrawn
  decide_checked event state own_inn =
      if wrong_group state.product_group
      then outcome manual_review "WRONG_PRODUCT_GROUP"
      else if not (present state.owner_inn)
      then outcome manual_review "OWNER_UNKNOWN"
      else if not (opt_eq state.owner_inn (some own_inn))
      then outcome manual_review "OWNER_MISMATCH"
      else if not (state.status == "IN_CIRCULATION" || state.status == "WITHDRAWN")
      then outcome manual_review "UNKNOWN_CHZ_STATUS"
      else if present state.status_ex && not (opt_eq state.status_ex (some state.status))
      then outcome manual_review "UNKNOWN_CHZ_STATUS"
      else if state.status == "IN_CIRCULATION"
      then decide_in_circulation event state
      else decide_withdrawn event state

  unfoldable pub decide : Event → KiState → String → Result String Outcome
  decide event state own_inn =
      bind (validate_owner_inn own_inn) (λ _. decide_checked event state own_inn)
