-- ===== src/WritePipeline/Store.antt =====
-- The other methods of `WriteOperationStore` in wbcz/write_pipeline.py: signing (in the child),
-- submission, poll results and reconciliation. A method that opens a transaction is a `transaction`;
-- one that reads first and then calls `_transition` is a read and a transaction.
pub mod Signing
unfoldable pub use Signing.*
use fbs_chz.Prelude.{
  ℕ, String, Bool, true, false, Option, none, some, List, [], ◌∷◌, ◌&&◌, ◌||◌, not, ◌==◌, opt_eq,
  present, prefix, ◌<+>◌, if◌then◌else◌,
}
use fbs_chz.Runtime.{Runtime, JsonFields, bool, num, str, end_fields, field}
use fbs_chz.Effect.{pure, raise, lift, gets, require, ◌>>=◌, ◌>>◌}
use fbs_chz.WritePipeline.Types.{
  WriteState, state_value, PollClassification, poll_value, CreateCategory, category_value,
  invalid_write_operation, duplicate_submit_blocked, integrity_error, SigningRequest,
  SigningResponse, OperationRecord, CreateResult, classify_poll_status,
}
use fbs_chz.WritePipeline.Schema.{
  Row, AuditEntry, Action, document_taken, utc_now, set_row, write_audit, transaction,
}
use fbs_chz.WritePipeline.Transition.{
  is_allowed_type, to_record, get_row, get, opt_str, opt_num, merge_fields, validate_base64_ascii,
  transition,
}
use fbs_chz.WritePipeline.States.{
  is_awaiting, is_signed, is_submitting, is_submitted, is_pollable, is_reconcilable, is_reviewable,
  is_unsent, is_replayable, is_in_flight,
}

abbrev pub target_of : CreateCategory → WriteState
target_of CreateCategory.success_with_id = WriteState.submitted
target_of CreateCategory.server_error = WriteState.manual_review
target_of CreateCategory.success_contract_unconfirmed = WriteState.manual_review
target_of _ = WriteState.failed

abbrev pub is_success : CreateCategory → Bool
is_success CreateCategory.success_with_id = true
is_success _ = false

-- The document that a result leaves in the row.
abbrev pub document_of : CreateResult → Option String
document_of result = if is_success result.category then result.document_id else none

-- The columns that the result of a submission sets.
abbrev pub finish_row : CreateResult → String → Row → Row
finish_row result now r = record r {
  state = target_of result.category;
  document_id = document_of result;
  submit_http_status = some result.http_status;
  submit_category = some result.category;
  submit_body_sha256 = some result.body_sha256;
  updated_at = now;
}

abbrev pub is_given : Option String → Bool
is_given none = false
is_given (some s) = true

module _ ⦃py : Runtime⦄ where
  -- The guards of `reserve_submit`, on the operation that it read.
  unfoldable pub submit_guards : OperationRecord → Action (Unit {0})
  submit_guards op =
      if is_signed op.state
      then require (present op.signature_base64) (invalid_write_operation "signature missing")
      else if is_in_flight op.state
      then raise (duplicate_submit_blocked "second True API create is prohibited")
      else raise
          (invalid_write_operation ("submit not allowed from state " <+> state_value op.state))

  unfoldable pub reserve_submit : String → Action OperationRecord
  reserve_submit k = do
    op ← get k
    submit_guards op
    transition k is_signed WriteState.submitting "SUBMIT_RESERVED" end_fields

  -- UPDATE write_operations SET …, document_id = ?: fails where another row has that document.
  unfoldable pub finish_update : String → CreateResult → String → Action (Unit {0})
  unfolding set_row
  finish_update k result now = do
    taken ← gets (λ w. document_taken k (document_of result) w.db.operations)
    require (not taken) (integrity_error "write_operations.document_id")
    set_row k (finish_row result now)

  -- The row's new columns and the entry of the audit.
  unfoldable pub complete_store : String → CreateResult → Action (Unit {0})
  unfolding write_audit finish_update
  complete_store k result = do
    now ← utc_now
    finish_update k result now
    write_audit k "SUBMIT_RESULT" (some WriteState.submitting) (some (target_of result.category)) (
        field "http_status" (num result.http_status) (
          field "category" (str (category_value result.category)) (
            field "body_sha256" (str result.body_sha256) (
              field "content_type" (opt_str result.content_type)
                (field "document_id_present" (bool (is_given result.document_id)) end_fields)))))

  unfoldable pub complete_body : String → CreateResult → Action (Unit {0})
  unfolding get_row complete_store
  complete_body k result = do
    row ← get_row k
    require (is_submitting row.state) (
        invalid_write_operation ("submit result not allowed from state " <+> state_value row.state))
    require (not (is_success result.category) || present result.document_id)
        (invalid_write_operation "success parser returned no document id")
    complete_store k result

  unfoldable pub complete_submit : String → CreateResult → Action OperationRecord
  complete_submit k result = do transaction (complete_body k result); get k

  unfoldable pub mark_submit_ambiguous : String → String → Action OperationRecord
  mark_submit_ambiguous k error_type =
      transition k is_submitting WriteState.manual_review "SUBMIT_TRANSPORT_AMBIGUOUS"
        (field "error_type" (str (prefix 200 error_type)) end_fields)

  unfoldable pub mark_manual_review : String → String → Action OperationRecord
  mark_manual_review k reason =
      transition k is_reviewable WriteState.manual_review "MANUAL_REVIEW_REQUIRED"
        (field "reason" (str (prefix 500 reason)) end_fields)

  unfoldable pub mark_error : String → String → Action OperationRecord
  mark_error k error_type =
      transition k is_unsent WriteState.error "PIPELINE_ERROR"
        (field "error_type" (str (prefix 200 error_type)) end_fields)

  unfoldable pub audit_note : String → String → JsonFields → Action (Unit {0})
  unfolding write_audit
  audit_note k action details = transaction (write_audit k action none none details)

  -- The state that a last poll status leads to.
  abbrev pub poll_target : PollClassification → WriteState
  poll_target PollClassification.terminal_success = WriteState.reconciliation_required
  poll_target PollClassification.terminal_failure = WriteState.failed
  poll_target _ = WriteState.manual_review

  abbrev pub is_intermediate : PollClassification → Bool
  is_intermediate PollClassification.intermediate = true
  is_intermediate _ = false

  abbrev pub poll_details :
      Option String → Option ℕ → Option String → PollClassification → JsonFields
  poll_details status http_status body_sha256 c = field "remote_status" (opt_str status) (
      field "http_status" (opt_num http_status) (
        field "body_sha256" (opt_str body_sha256)
          (field "classification" (str (poll_value c)) end_fields)))

  -- The branch of `apply_poll_status` where the document is still in work.
  unfoldable pub poll_intermediate : String → WriteState → JsonFields → Action OperationRecord
  unfolding audit_note
  poll_intermediate k state details =
      if is_submitted state
      then transition k is_submitted WriteState.processing "POLL_INTERMEDIATE" details
      else (do audit_note k "POLL_INTERMEDIATE" details; get k)

  unfoldable pub apply_poll_status :
      String
      → Option String
      → Option ℕ
      → Option String
      → Action (OperationRecord × PollClassification)
  apply_poll_status k status http_status body_sha256 = do
    op ← get k
    require (is_pollable op.state)
        (invalid_write_operation ("polling not allowed from state " <+> state_value op.state))
    let c = classify_poll_status status
    let details = poll_details status http_status body_sha256 c
    op' ←
        if is_intermediate c
        then poll_intermediate k op.state details
        else transition k is_pollable (poll_target c) "POLL_TERMINAL" details
    pure (op', c)

  unfoldable pub reconciliation_result : String → Bool → JsonFields → Action OperationRecord
  reconciliation_result k confirmed details =
      transition k is_reconcilable
        (if confirmed then WriteState.succeeded else WriteState.manual_review)
        "RECONCILIATION_RESULT"
        (merge_fields (field "confirmed" (bool confirmed) end_fields) details)

abbrev filter_audit : String → List AuditEntry → List AuditEntry
filter_audit k [] = []
filter_audit k (e ∷ l) = if e.operation_id == k then e ∷ filter_audit k l else filter_audit k l

unfoldable pub audit_entries : String → Action (List AuditEntry)
audit_entries k = gets (λ w. filter_audit k w.db.audit)
