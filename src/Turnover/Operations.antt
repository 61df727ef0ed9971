-- ===== src/Turnover/Operations.antt =====
-- The registry of operations of wbcz/turnover.py, and `prepare_turnover_document`.
use fbs_chz.Effect.Checks.{check, ◌>>=◌}
use fbs_chz.Prelude.{String, Bool, true, false, Option, none, some, ◌==◌}
use fbs_chz.Runtime.{Runtime}
use fbs_chz.Effect.{Result, ok, err}
use fbs_chz.WritePipeline.Types.{WriteError, ExactDocument}
use fbs_chz.WritePipeline.Adapter.{from_json_value}
use fbs_chz.Turnover.Fields.{contract_error, manual_review, builder_error, Checked, Library}
use fbs_chz.Turnover.Parts.{Wire, fields_of}
use fbs_chz.Turnover.Snapshots.{
  TurnoverOperationKind, introduce_domestic, introduce_from_individual,
  introduce_import_pre_mandatory, introduce_eaeu, introduce_remains, introduce_contract,
  introduce_fts, withdraw, withdraw_distance, return_to_circulation, return_remote_sale, remark,
  write_off, cancel_withdrawal,
}
use fbs_chz.Turnover.Introductions.{
  LpIntroduceGoodsDocument, LkIndiCommissioningDocument, LpGoodsImportDocument, CrossborderDocument,
  LpIntroduceOstDocument, LkContractCommissioningDocument, LpFtsIntroduceDocument,
  introduce_goods_wire, individual_commissioning_wire, goods_import_wire, crossborder_wire,
  introduce_ost_wire, contract_commissioning_wire, fts_introduce_wire,
}
use fbs_chz.Turnover.Withdrawals.{
  LkReceiptDistanceDocument, LpReturnDocument, distance_wire, lp_return_wire,
}
use fbs_chz.Turnover.Others.{
  LkRemarkDocument, WriteOffDocument, LkReceiptCancelDocument, lk_remark_wire, write_off_wire,
  receipt_cancel_wire,
}

-- The document type and the postcondition of an operation in TURNOVER_OPERATION_REGISTRY; the format
-- is MANUAL and the product group `lp` for all.
unfoldable pub document_type_of : TurnoverOperationKind → String
document_type_of introduce_domestic = "LP_INTRODUCE_GOODS"
document_type_of introduce_from_individual = "LK_INDI_COMMISSIONING"
document_type_of introduce_import_pre_mandatory = "LP_GOODS_IMPORT"
document_type_of introduce_eaeu = "CROSSBORDER"
document_type_of introduce_remains = "LP_INTRODUCE_OST"
document_type_of introduce_contract = "LK_CONTRACT_COMMISSIONING"
document_type_of introduce_fts = "LP_FTS_INTRODUCE"
document_type_of withdraw = "LK_RECEIPT"
document_type_of withdraw_distance = "LK_RECEIPT"
document_type_of return_to_circulation = "LP_RETURN"
document_type_of return_remote_sale = "LP_RETURN"
document_type_of remark = "LK_REMARK"
document_type_of write_off = "WRITE_OFF"
document_type_of cancel_withdrawal = "LK_RECEIPT_CANCEL"

unfoldable pub postcondition_class : TurnoverOperationKind → String
postcondition_class withdraw = "UNKNOWN"
postcondition_class withdraw_distance = "RETIRED:DISTANCE"
postcondition_class write_off = "WRITTEN_OFF"
postcondition_class cancel_withdrawal = "RESTORE_FROM_ORIGINAL"
postcondition_class _ = "INTRODUCED"

pub data TypedDocument : Type 0 where
  goods : LpIntroduceGoodsDocument → TypedDocument
  individual_goods : LkIndiCommissioningDocument → TypedDocument
  imported : LpGoodsImportDocument → TypedDocument
  crossborder : CrossborderDocument → TypedDocument
  remains : LpIntroduceOstDocument → TypedDocument
  contracted : LkContractCommissioningDocument → TypedDocument
  fts : LpFtsIntroduceDocument → TypedDocument
  distance : LkReceiptDistanceDocument → TypedDocument
  lp_return : LpReturnDocument → TypedDocument
  remarked : LkRemarkDocument → TypedDocument
  written_off : WriteOffDocument → TypedDocument
  cancelled : LkReceiptCancelDocument → TypedDocument

-- The `document_type` of a document.
unfoldable pub type_of_document : TypedDocument → String
type_of_document (goods d) = "LP_INTRODUCE_GOODS"
type_of_document (individual_goods d) = "LK_INDI_COMMISSIONING"
type_of_document (imported d) = "LP_GOODS_IMPORT"
type_of_document (crossborder d) = "CROSSBORDER"
type_of_document (remains d) = "LP_INTRODUCE_OST"
type_of_document (contracted d) = "LK_CONTRACT_COMMISSIONING"
type_of_document (fts d) = "LP_FTS_INTRODUCE"
type_of_document (distance d) = "LK_RECEIPT"
type_of_document (lp_return d) = "LP_RETURN"
type_of_document (remarked d) = "LK_REMARK"
type_of_document (written_off d) = "WRITE_OFF"
type_of_document (cancelled d) = "LK_RECEIPT_CANCEL"

-- Whether a document is of the class that `_EXPECTED_CLASS` names, where it names one.
unfoldable pub is_expected : TurnoverOperationKind → TypedDocument → Bool
is_expected introduce_domestic (goods d) = true
is_expected introduce_from_individual (individual_goods d) = true
is_expected introduce_import_pre_mandatory (imported d) = true
is_expected introduce_eaeu (crossborder d) = true
is_expected introduce_remains (remains d) = true
is_expected introduce_contract (contracted d) = true
is_expected introduce_fts (fts d) = true
is_expected withdraw_distance (distance d) = true
is_expected return_to_circulation (lp_return d) = true
is_expected return_remote_sale (lp_return d) = true
is_expected remark (remarked d) = true
is_expected write_off (written_off d) = true
is_expected cancel_withdrawal (cancelled d) = true
is_expected _ _ = false

abbrev pub is_executable : TurnoverOperationKind → Bool
is_executable withdraw = false
is_executable _ = true

-- A remote sale is returned as one.
unfoldable pub is_remote : TurnoverOperationKind → TypedDocument → Bool
is_remote return_remote_sale (lp_return d) = d.return_type == "REMOTE_SALE_RETURN"
is_remote _ _ = true

-- The reason of business.
unfoldable pub reason_of : TypedDocument → Option String
reason_of (distance d) = some "DISTANCE"
reason_of (lp_return d) = some d.return_type
reason_of (remarked d) = some d.remarking_cause
reason_of (written_off d) = some d.dropout_reason
reason_of _ = none

pub record PreparedTurnoverDocument : Type 0 where
  pub operation_kind : TurnoverOperationKind
  pub document_type : String
  pub document_format : String
  pub pg : String
  pub exact_document : ExactDocument
  pub raw_business_reason : Option String
  pub expected_postcondition : String

abbrev pub built : Result WriteError ExactDocument → Checked ExactDocument
built (ok d) = ok d
built (err e) = err (builder_error e)

module _ ⦃py : Runtime⦄ ⦃lib : Library⦄ where
  -- `document.to_wire()`
  unfoldable pub to_wire : TypedDocument → Checked Wire
  to_wire (goods d) = introduce_goods_wire d
  to_wire (individual_goods d) = individual_commissioning_wire d
  to_wire (imported d) = goods_import_wire d
  to_wire (crossborder d) = crossborder_wire d
  to_wire (remains d) = introduce_ost_wire d
  to_wire (contracted d) = contract_commissioning_wire d
  to_wire (fts d) = fts_introduce_wire d
  to_wire (distance d) = distance_wire d
  to_wire (lp_return d) = lp_return_wire d
  to_wire (remarked d) = lk_remark_wire d
  to_wire (written_off d) = write_off_wire d
  to_wire (cancelled d) = receipt_cancel_wire d

  unfoldable pub prepare_turnover_document :
      TurnoverOperationKind → TypedDocument → Checked PreparedTurnoverDocument
  prepare_turnover_document kind d = do
    a ← check (is_executable kind) (manual_review "OPERATION_NOT_EXECUTABLE")
    b ← check (is_expected kind d) (contract_error "operation/document DTO mismatch")
    c ←
        check (is_remote kind d)
          (contract_error "RETURN_REMOTE_SALE requires return_type=REMOTE_SALE_RETURN")
    e ←
        check (type_of_document d == document_type_of kind)
          (contract_error "operation/document type registry mismatch")
    wire ← to_wire d
    exact ← built (from_json_value (fields_of wire))
    ok (record {
      operation_kind = kind;
      document_type = document_type_of kind;
      document_format = "MANUAL";
      pg = "lp";
      exact_document = exact;
      raw_business_reason = reason_of d;
      expected_postcondition = postcondition_class kind;
    })
