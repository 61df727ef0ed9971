-- ===== src/Turnover/Reconciliation.antt =====
-- `OperationReconciliationService` of wbcz/turnover.py: whether the codes are in the state that an
-- operation must have brought them to.
use fbs_chz.Prelude.{
  String, Bool, true, false, Option, none, some, List, [], ◌∷◌, ◌&&◌, ◌==◌, not, opt_eq, all, any,
  blank, present, if◌then◌else◌,
}
use fbs_chz.Aggregation.{AggregationReconciliationState, AggregationReconciliationResult}
use fbs_chz.Aggregation
use fbs_chz.Aggregation.SideEffects.{M5AggregationObservation, reconcile_side_effect}
use fbs_chz.Turnover.Snapshots.{
  TurnoverOperationKind, withdraw, withdraw_distance, write_off, cancel_withdrawal, kind_value,
  CisSnapshot,
}
use fbs_chz.Turnover.Preconditions.{is_text, is_among}

pub data ReconciliationState : Type 0 where
  pending reconciled manual_review : ReconciliationState

-- `observed` keeps the snapshots themselves.
pub record ReconciliationResult : Type 0 where
  pub state : ReconciliationState
  pub document_status_raw : Option String
  pub reason : String
  pub observed : List CisSnapshot

-- The state and the reason of a withdrawal that a code is restored to.
abbrev pub Restore : Type 0
Restore = List (String × (Option String × Option String))

unfoldable pub expected_of : Restore → String → Option (Option String × Option String)
expected_of [] c = none
expected_of ((k, v) ∷ l) c = if k == c then some v else expected_of l c

abbrev pub as_expected : Option (Option String × Option String) → CisSnapshot → Bool
as_expected none x = false
as_expected (some (status, reason)) x = opt_eq x.status status && opt_eq x.withdraw_reason reason

abbrev pub is_withdrawn_remotely : CisSnapshot → Bool
is_withdrawn_remotely x = is_text x.status "RETIRED" && is_text x.withdraw_reason "DISTANCE"

abbrev pub is_in_circulation : CisSnapshot → Bool
is_in_circulation x = is_text x.status "INTRODUCED" && blank x.status_ex

abbrev pub is_written_off : CisSnapshot → Bool
is_written_off x = is_text x.status "WRITTEN_OFF" && blank x.status_ex

abbrev pub is_restored : Restore → CisSnapshot → Bool
is_restored m x = as_expected (expected_of m x.cis) x

-- What must hold of each code behind an operation.
unfoldable pub postcondition : TurnoverOperationKind → Restore → CisSnapshot → Bool
postcondition withdraw_distance m x = is_withdrawn_remotely x
postcondition write_off m x = is_written_off x
postcondition cancel_withdrawal m x = is_restored m x
postcondition withdraw m x = false
postcondition _ m x = is_in_circulation x

abbrev pub is_cancel : TurnoverOperationKind → Bool
is_cancel cancel_withdrawal = true
is_cancel _ = false

abbrev pub is_withdraw : TurnoverOperationKind → Bool
is_withdraw withdraw = true
is_withdraw _ = false

abbrev pub is_nil {ℓ} : {A : Type ℓ} → List A → Bool
is_nil [] = true
is_nil (x ∷ l) = false

-- `any(pre_parent_map.values())`
abbrev pub was_packed : List (String × Option String) → Bool
was_packed m = any (λ p. present p.1) m

-- The answer for what the packages show.
abbrev pub of_aggregation : AggregationReconciliationState → ReconciliationState
of_aggregation AggregationReconciliationState.reconciled = reconciled
of_aggregation AggregationReconciliationState.reconciliation_pending = pending
of_aggregation AggregationReconciliationState.manual_review = manual_review

abbrev pub aggregate_reason : AggregationReconciliationResult → String
aggregate_reason r =
    if Aggregation.is_reconciled r.state then "POSTCONDITION_CONFIRMED" else r.reason

module _ (kind : TurnoverOperationKind) (status : Option String) (l : List CisSnapshot) where
  abbrev pub answer_of : ReconciliationState → String → ReconciliationResult
  answer_of s reason = record {
    state = s;
    document_status_raw = status;
    reason = reason;
    observed = l;
  }

  abbrev pub of_effect : AggregationReconciliationResult → ReconciliationResult
  of_effect r = answer_of (of_aggregation r.state) (aggregate_reason r)

  -- Where the postcondition holds of every code.
  unfoldable pub reconcile_packages :
      List (String × Option String) → List M5AggregationObservation → ReconciliationResult
  reconcile_packages parents observations =
      if was_packed parents
      then (if is_nil observations
          then answer_of pending "AGGREGATION_RECONCILIATION_REQUIRED"
          else of_effect (reconcile_side_effect (kind_value kind) observations))
      else answer_of reconciled "POSTCONDITION_CONFIRMED"

  -- The document was not checked with success.
  unfoldable pub reconcile_unchecked : ReconciliationResult
  reconcile_unchecked =
      if is_among status ("CHECKED_NOT_OK" ∷ "PARSE_ERROR" ∷ "PROCESSING_ERROR" ∷ [])
      then answer_of manual_review "DOCUMENT_TERMINAL_FAILURE"
      else answer_of pending "DOCUMENT_NOT_CONFIRMED_SUCCESS"

  -- `reconcile`, for a kind of operation.
  unfoldable pub reconcile :
      Restore → List (String × Option String) → List M5AggregationObservation → ReconciliationResult
  reconcile restore parents observations =
      if not (is_text status "CHECKED_OK")
      then reconcile_unchecked
      else if is_withdraw kind
      then answer_of manual_review "OPERATION_NOT_EXECUTABLE"
      else if is_nil l && not (is_cancel kind)
      then answer_of pending "FRESH_CIS_POSTCONDITION_REQUIRED"
      else if is_cancel kind && is_nil restore
      then answer_of manual_review "CANCEL_RESTORE_EXPECTATION_REQUIRED"
      else if not (is_nil l) && all (postcondition kind restore) l
      then reconcile_packages parents observations
      else answer_of pending "POSTCONDITION_MISMATCH"

-- `remark_reason_readback_matches`
unfoldable pub remark_reason_readback_matches : String → Option String → Bool
remark_reason_readback_matches submitted observed =
    if opt_eq observed (some submitted)
    then true
    else submitted == "KM_SPOILED" && is_text observed "KM_SPOILED_OR_LOST"
