-- ===== src/WritePipeline/Prepare.antt =====
-- `WriteOperationStore.prepare` of wbcz/write_pipeline.py.
use fbs_chz.Prelude.{
  String, Bool, true, false, Option, none, some, [], ◌∷◌, ◌&&◌, nat_eq, ◌==◌, filled, prefix, ◌<+>◌,
}
use fbs_chz.Runtime.{Runtime, Bytes, Json, JsonFields, str, obj, end_fields, field}
use fbs_chz.Models.{Decision, decision_value}
use fbs_chz.Effect.{Result, ok, err, pure, lift, gets, require, ◌>>=◌, ◌>>◌}
use fbs_chz.WritePipeline.Types.{
  WriteState, WriteError, invalid_write_operation, replay_conflict, value_error, ExactDocument,
  OperationRecord,
}
use fbs_chz.WritePipeline.Schema.{
  Row, Action, find_fingerprint, insert, utc_now, set_row, write_audit, transaction,
}
use fbs_chz.WritePipeline.Transition.{is_allowed_type, decision_document, to_record, get}

module _ ⦃py : Runtime⦄ where
  -- The sources of the fingerprint.
  abbrev pub fingerprint_source : String → Decision → String → String → String → Json
  fingerprint_source event_id decision document_type operation_reason pg = obj (
      field "event_id" (str event_id) (
        field "decision" (str (decision_value decision)) (
          field "document_type" (str document_type)
            (field "operation_reason" (str operation_reason) (field "pg" (str pg) end_fields)))))

  unfoldable pub business_fingerprint : String → Decision → String → String → String → String
  business_fingerprint event_id decision document_type operation_reason pg = py.sha256_hex (
      py.utf8_encode (
        "wb-fbs-write:v1:"
        <+> py.dumps (fingerprint_source event_id decision document_type operation_reason pg)))

  abbrev pub expected_document : Option (String × String) → Result WriteError (String × String)
  expected_document none =
      err (invalid_write_operation "control decision is not approved for write")
  expected_document (some p) = ok p

  abbrev pub decoded_document : Option Bytes → Result WriteError Bytes
  decoded_document none = err (value_error "Invalid base64-encoded string")
  decoded_document (some b) = ok b

  abbrev pub same_bytes : Bytes → Bytes → Bool
  same_bytes [] [] = true
  same_bytes (a ∷ l) (b ∷ m) = nat_eq a b && same_bytes l m
  same_bytes _ _ = false

  -- The guards of `prepare`, before the transaction.
  unfoldable pub prepare_guards :
      Decision → String → String → String → String → ExactDocument → Action (Unit {0})
  prepare_guards decision document_type operation_reason pg expected_inn document = do
    expected ← lift (expected_document (decision_document decision))
    require (document_type == expected.0 && operation_reason == expected.1)
        (invalid_write_operation "decision/document mapping mismatch")
    require (is_allowed_type document_type) (invalid_write_operation "unsupported document_type")
    require (pg == "lp") (invalid_write_operation "wrong product group")
    require (filled expected_inn) (invalid_write_operation "expected_inn is required")
    decoded ← lift (decoded_document (py.b64decode document.product_document_base64))
    require (same_bytes decoded document.payload)
        (invalid_write_operation "bytes_for_signature != Base64Decode(product_document)")
    require (py.sha256_hex decoded == document.sha256)
        (invalid_write_operation "document hash mismatch")

  abbrev pub sha_detail : String → JsonFields
  sha_detail sha = field "document_sha256" (str sha) end_fields

  -- The branch of `prepare` where the fingerprint is known.
  unfoldable pub prepare_replay : Row → String → ExactDocument → Action OperationRecord
  unfolding write_audit
  prepare_replay existing expected_inn document = do
    require
        (existing.document_sha256 == document.sha256
          && existing.product_document_base64 == document.product_document_base64
          && existing.expected_inn == expected_inn)
        (replay_conflict "same business operation has different immutable document data")
    write_audit existing.operation_id "PREPARE_REPLAY_IDEMPOTENT" none none
        (sha_detail document.sha256)
    pure (to_record existing)

  unfoldable pub operation_id_of : String → String
  operation_id_of fingerprint = "op_" <+> prefix 32 fingerprint

  -- The row of a new operation.
  abbrev pub new_row :
      String → Decision → String → String → String → String → ExactDocument → String → Row
  new_row event_id decision document_type operation_reason pg expected_inn document prepared_at =
      let fingerprint = business_fingerprint event_id decision document_type operation_reason pg in
      record {
        operation_id = operation_id_of fingerprint;
        business_fingerprint = fingerprint;
        event_id = event_id;
        decision = decision;
        document_type = document_type;
        operation_reason = operation_reason;
        pg = pg;
        expected_inn = expected_inn;
        document_sha256 = document.sha256;
        product_document_base64 = document.product_document_base64;
        prepared_at = prepared_at;
        state = WriteState.prepared;
        signature_base64 = none;
        certificate_thumbprint = none;
        certificate_subject = none;
        certificate_inn = none;
        certificate_valid_from = none;
        certificate_valid_to = none;
        document_id = none;
        submit_http_status = none;
        submit_category = none;
        submit_body_sha256 = none;
        updated_at = prepared_at;
      }

  -- The branch of `prepare` where the fingerprint is new.
  unfoldable pub prepare_new : Row → Action (Unit {0})
  unfolding insert write_audit set_row
  prepare_new r = do
    insert r
    write_audit r.operation_id "OPERATION_PREPARED" none (some WriteState.prepared) (
        field "document_type" (str r.document_type)
          (field "pg" (str r.pg) (sha_detail r.document_sha256)))
    now ← utc_now
    set_row r.operation_id
        (λ x. record x { state = WriteState.awaiting_signature; updated_at = now })
    write_audit r.operation_id "SIGNING_REQUEST_PENDING" (some WriteState.prepared)
        (some WriteState.awaiting_signature) end_fields

  -- The transaction of `prepare`: a record where the operation is known, `none` where it is new.
  abbrev pub prepare_found : Option Row → Row → ExactDocument → Action (Option OperationRecord)
  prepare_found none r document = do prepare_new r; pure none
  prepare_found (some existing) r document = do
    op ← prepare_replay existing r.expected_inn document
    pure (some op)

  unfoldable pub prepare_body : Row → ExactDocument → Action (Option OperationRecord)
  prepare_body r document = do
    existing ← gets (λ w. find_fingerprint r.business_fingerprint w.db.operations)
    prepare_found existing r document

  abbrev pub prepared_or_get : String → Option OperationRecord → Action OperationRecord
  prepared_or_get k none = get k
  prepared_or_get k (some op) = pure op

  unfoldable pub prepare :
      String → Decision → String → String → String → String → ExactDocument → Action OperationRecord
  prepare event_id decision document_type operation_reason pg expected_inn document = do
    prepare_guards decision document_type operation_reason pg expected_inn document
    prepared_at ← utc_now
    let r =
        new_row event_id decision document_type operation_reason pg expected_inn document
          prepared_at
    done ← transaction (prepare_body r document)
    prepared_or_get r.operation_id done
