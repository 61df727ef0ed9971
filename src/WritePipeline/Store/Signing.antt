-- ===== src/WritePipeline/Store/Signing.antt =====
-- Signing in `WriteOperationStore` of wbcz/write_pipeline.py: `signing_request`, `accept_signature`.
use fbs_chz.Prelude.{
  String, Option, none, some, ◌&&◌, ◌||◌, not, ◌==◌, opt_eq, present, ◌<+>◌, if◌then◌else◌,
}
use fbs_chz.Runtime.{Runtime, str, end_fields, field}
use fbs_chz.Effect.{pure, raise, lift, require, ◌>>=◌, ◌>>◌}
use fbs_chz.WritePipeline.Types.{
  WriteState, state_value, invalid_write_operation, SigningRequest, SigningResponse,
  OperationRecord,
}
use fbs_chz.WritePipeline.Schema.{Row, Action, utc_now, set_row, write_audit, transaction}
use fbs_chz.WritePipeline.Transition.{
  is_allowed_type, to_record, get_row, get, opt_str, validate_base64_ascii,
}
use fbs_chz.WritePipeline.States.{is_awaiting, is_replayable}

unfoldable pub signing_request : String → Action SigningRequest
signing_request k = do
  op ← get k
  require (is_awaiting op.state)
      (invalid_write_operation ("signing request unavailable from state " <+> state_value op.state))
  require (is_allowed_type op.document_type && op.pg == "lp")
      (invalid_write_operation "operation is outside signing whitelist")
  pure (record {
    operation_id = op.operation_id;
    document_type = op.document_type;
    pg = op.pg;
    expected_inn = op.expected_inn;
    document_sha256 = op.document_sha256;
    product_document_base64 = op.product_document_base64;
  })

-- `op.document_sha256 …`: the guards of `accept_signature`.
unfoldable pub signature_guards : Row → SigningResponse → String → Action (Unit {0})
signature_guards op response own_inn = do
  require (op.document_sha256 == response.document_sha256)
      (invalid_write_operation "document_sha256 mismatch")
  require (is_allowed_type op.document_type) (invalid_write_operation "unsupported document_type")
  require (op.pg == "lp") (invalid_write_operation "wrong product group")
  require (op.expected_inn == own_inn) (invalid_write_operation "expected_inn mismatch")
  require
      (not (present response.certificate_inn)
        || opt_eq response.certificate_inn (some op.expected_inn))
      (invalid_write_operation "certificate INN mismatch")

-- The columns that an accepted signature sets.
abbrev pub sign_row : SigningResponse → String → String → Row → Row
sign_row response signature now r = record r {
  signature_base64 = some signature;
  certificate_thumbprint = response.certificate_thumbprint;
  certificate_subject = response.certificate_subject;
  certificate_inn = response.certificate_inn;
  certificate_valid_from = response.certificate_valid_from;
  certificate_valid_to = response.certificate_valid_to;
  state = WriteState.signed;
  updated_at = now;
}

module _ ⦃py : Runtime⦄ where
  -- The branch of `accept_signature` for an operation that awaits no signature.
  unfoldable pub signature_replay : Row → String → Action (Unit {0})
  unfolding write_audit
  signature_replay op signature =
      if opt_eq op.signature_base64 (some signature) && is_replayable op.state
      then write_audit op.operation_id "SIGNATURE_REPLAY_IDEMPOTENT" none none
          (field "document_sha256" (str op.document_sha256) end_fields)
      else raise
          (invalid_write_operation ("signature not accepted from state " <+> state_value op.state))

  unfoldable pub signature_store : Row → SigningResponse → String → Action (Unit {0})
  unfolding write_audit set_row
  signature_store op response signature = do
    now ← utc_now
    set_row op.operation_id (sign_row response signature now)
    write_audit op.operation_id "SIGNATURE_ACCEPTED" (some WriteState.awaiting_signature)
        (some WriteState.signed)
        (field "document_sha256" (str op.document_sha256) (
          field "certificate_thumbprint" (opt_str response.certificate_thumbprint)
            (field "certificate_inn" (opt_str response.certificate_inn) end_fields)))

  -- The transaction of `accept_signature`: the record of a replay, `none` where it was stored.
  unfoldable pub signature_body : SigningResponse → String → Action (Option OperationRecord)
  unfolding get_row signature_guards
  signature_body response own_inn = do
    op ← get_row response.operation_id
    signature_guards op response own_inn
    signature ← lift (validate_base64_ascii "signature" response.signature_base64)
    if is_awaiting op.state
        then (do signature_store op response signature; pure none)
        else (do signature_replay op signature; pure (some (to_record op)))

  abbrev pub replayed_or_get : String → Option OperationRecord → Action OperationRecord
  replayed_or_get k none = get k
  replayed_or_get k (some op) = pure op

  unfoldable pub accept_signature : SigningResponse → String → Action OperationRecord
  accept_signature response own_inn = do
    done ← transaction (signature_body response own_inn)
    replayed_or_get response.operation_id done
