-- ===== src/ControlEngine/Tests.antt =====
-- Runs of the control engine, and its theorems at concrete events.
use fbs_chz.Prelude.{String, none, true, ◌≡◌, ◌⊎◌, ◌↔◌, refl}
use fbs_chz.Models.{ready_to_withdraw, ready_to_return, Outcome}
use fbs_chz.Effect.{ok, err}
use fbs_chz.ControlEngine.{validate_owner_inn, decide, decide_checked, has_sale_receipt_evidence}
use fbs_chz.ControlEngine.Decisions.{
  withdraw, give_back, is_calm, IsInn, IsWithdrawable, IsReturnable, decide-withdraw_iff,
  decide_return_iff, decide_total,
}
use fbs_chz.Samples.{plain, inn, sale_event, return_event, in_circulation, sold}

sale_is_withdrawn : decide sale_event in_circulation inn ≡ ok withdraw
unfolding decide decide_checked validate_owner_inn has_sale_receipt_evidence
sale_is_withdrawn = refl

return_is_given_back : decide return_event sold inn ≡ ok give_back
unfolding decide decide_checked validate_owner_inn
return_is_given_back = refl

inn_is_valid : validate_owner_inn inn ≡ ok tt
unfolding validate_owner_inn
inn_is_valid = refl

decide-withdraw_iff_example :
    (((o : Outcome) × (decide sale_event in_circulation inn ≡ ok o)
        × (o.decision ≡ ready_to_withdraw))
      ↔ IsWithdrawable sale_event in_circulation inn)
    × ((decide sale_event in_circulation inn ≡ ok withdraw)
        ↔ IsWithdrawable sale_event in_circulation inn)
decide-withdraw_iff_example = decide-withdraw_iff sale_event in_circulation inn inn_is_valid

decide_return_iff_example :
    ((o : Outcome) × (decide return_event sold inn ≡ ok o) × (o.decision ≡ ready_to_return))
    ↔ IsReturnable return_event sold inn
decide_return_iff_example = decide_return_iff return_event sold inn inn_is_valid

decide_total_example :
    ((o : Outcome) × (decide sale_event sold inn ≡ ok o)
      × (o.error ≡ none)
      × (is_calm o.decision ≡ true)
      × IsInn inn)
    ⊎ ((m : String) × (decide sale_event sold inn ≡ err m) × (¬ IsInn inn))
decide_total_example = decide_total sale_event sold inn
