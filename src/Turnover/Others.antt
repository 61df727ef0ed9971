-- ===== src/Turnover/Others.antt =====
-- The documents of wbcz/turnover.py for a remark, a write-off and the cancellation of a withdrawal.
use fbs_chz.Effect.Checks.{check, ◌>>=◌, ◌>>◌}
use fbs_chz.Prelude.{
  String, Bool, Option, none, some, List, [], ◌∷◌, ◌++◌, ◌&&◌, ◌||◌, ◌==◌, not, elem, blank,
  if◌then◌else◌,
}
use fbs_chz.Runtime.{Runtime, JsonItems, end_items, item, bool, str, arr}
use fbs_chz.Effect.{ok, err}
use fbs_chz.Turnover.Fields.{
  contract_error, Checked, Library, Day, nonempty, inn_field, cis_field, tnved_field, country_field,
  fias_field, kpp_field, bounded_day, five_years_before, unique_cises,
}
use fbs_chz.Turnover.Parts.{
  Wire, items_of, wires, optional, text_field, is_none, some_given, PermitDocument, PrimaryDocument,
  permits_wire, remark_wire,
}

pub record RemarkProduct : Type 0 where
  pub new_uin : String
  pub last_uin : Option String
  pub tnved_10 : Option String
  pub primary_document : Option PrimaryDocument
  pub permit_documents : List PermitDocument

pub record LkRemarkDocument : Type 0 where
  pub participant_inn : String
  pub remarking_date : Day
  pub remarking_cause : String
  pub products : List RemarkProduct

pub record WriteOffDocument : Type 0 where
  pub participant_id : String
  pub dropout_reason : String
  pub source_doc_type : String
  pub source_doc_num : String
  pub source_doc_date : Day
  pub sntins : List String
  pub source_doc_name : Option String
  pub destination_country_code : Option String
  pub buyer_id : Option String
  pub fias_id : Option String
  pub kpp : Option String
  pub with_child : Option Bool

pub record LkReceiptCancelDocument : Type 0 where
  pub inn : String
  pub lk_receipt_id : String

abbrev pub strings : List String → JsonItems
strings [] = end_items
strings (s ∷ l) = item (str s) (strings l)

module _ ⦃py : Runtime⦄ ⦃lib : Library⦄ where
  abbrev pub new_tnved_wire : Option String → Option String → Checked Wire
  new_tnved_wire (some t) last = text_field "tnved_10" (tnved_field t "tnved_10")
  new_tnved_wire none last =
      check (not (is_none last)) (contract_error "tnved_10 is required when last_uin is absent")
      >>= λ a. ok []

  -- `RemarkProduct.to_wire`
  unfoldable pub remarked_wire : String → RemarkProduct → Checked Wire
  remarked_wire cause p = do
    new ← cis_field p.new_uin "new_uin"
    last ← optional p.last_uin (λ u. text_field "last_uin" (cis_field u "last_uin"))
    tnved ← new_tnved_wire p.tnved_10 p.last_uin
    a ←
        check (not (cause == "DESCRIPTION_ERRORS" && is_none p.last_uin))
          (contract_error "DESCRIPTION_ERRORS requires last_uin")
    primary ← optional p.primary_document (remark_wire cause)
    permits ← permits_wire p.permit_documents
    ok (("new_uin", str new) ∷ last ++ tnved ++ primary ++ permits)

  -- `LkRemarkDocument.to_wire`
  unfoldable pub lk_remark_wire : LkRemarkDocument → Checked Wire
  lk_remark_wire d = do
    cause ← nonempty d.remarking_cause "remarking_cause" 64
    a ← some_given d.products "products must be non-empty"
    participant ← inn_field d.participant_inn "participant_inn"
    date ← bounded_day d.remarking_date "remarking_date" (five_years_before lib.today) lib.today
    products ← wires (remarked_wire cause) d.products
    ok (
        ("participant_inn", str participant)
        ∷ ("remarking_date", str date)
        ∷ ("remarking_cause", str cause)
        ∷ ("products", arr (items_of products))
        ∷ [])

  abbrev pub source_name : Option String → Checked String
  source_name none = err (contract_error "sourceDocName must be a string")
  source_name (some s) = nonempty s "sourceDocName" 255

  -- The tests of the reason against the type of the source document.
  unfoldable pub check_source : String → String → Checked (Unit {0})
  check_source reason source_type =
      check (elem source_type ("DESTRUCTION_ACT" ∷ "CUSTOMS_DECLARATION" ∷ "OTHER" ∷ []))
        (contract_error "unsupported sourceDocType")
      >> check
          (not (elem reason ("EAS_TRADE" ∷ "BEYOND_EEC_EXPORT" ∷ []))
            || elem source_type ("CUSTOMS_DECLARATION" ∷ "OTHER" ∷ []))
          (contract_error "export write-off sourceDocType must be CUSTOMS_DECLARATION or OTHER")
      >> check
          (elem reason ("EAS_TRADE" ∷ "BEYOND_EEC_EXPORT" ∷ [])
            || not (source_type == "CUSTOMS_DECLARATION"))
          (contract_error "CUSTOMS_DECLARATION is only accepted for export write-off reasons")
      >> check (not (source_type == "DESTRUCTION_ACT" && not (reason == "DESTRUCTION")))
          (contract_error "DESTRUCTION_ACT requires dropoutReason=DESTRUCTION")

  abbrev pub source_name_wire : String → Option String → Checked Wire
  source_name_wire source_type name =
      if source_type == "OTHER"
      then text_field "sourceDocName" (source_name name)
      else check (blank name)
          (contract_error "sourceDocName must be absent unless sourceDocType=OTHER")
        >>= λ a. ok []

  abbrev pub trade_fields : Option String → Option String → Checked Wire
  trade_fields (some country) (some buyer) = do
    c ← country_field country "destinationCountryCode"
    b ← nonempty buyer "buyerId" 64
    ok (("destinationCountryCode", str c) ∷ ("buyerId", str b) ∷ [])
  trade_fields _ _ = err (contract_error "EAS_TRADE requires destinationCountryCode and buyerId")

  abbrev pub trade_wire : String → Option String → Option String → Checked Wire
  trade_wire reason country buyer =
      if reason == "EAS_TRADE"
      then trade_fields country buyer
      else check (is_none country && is_none buyer)
          (contract_error "destinationCountryCode/buyerId are only accepted for EAS_TRADE")
        >>= λ a. ok []

  -- `WriteOffDocument.to_wire`
  unfoldable pub write_off_wire : WriteOffDocument → Checked Wire
  write_off_wire d = do
    codes ← unique_cises d.sntins "sntins"
    reason ← nonempty d.dropout_reason "dropoutReason" 64
    source_text ← nonempty d.source_doc_type "sourceDocType" 64
    let source_type = lib.upper source_text
    a ← check_source reason source_type
    participant ← inn_field d.participant_id "participantId"
    number ← nonempty d.source_doc_num "sourceDocNum" 255
    date ←
        bounded_day d.source_doc_date "sourceDocDate" (five_years_before lib.today)
          (lib.plus_days lib.today 30)
    name ← source_name_wire source_type d.source_doc_name
    trade ← trade_wire reason d.destination_country_code d.buyer_id
    fias ← optional d.fias_id (λ x. text_field "fiasId" (fias_field x "fiasId"))
    kpp ← optional d.kpp (λ x. text_field "kpp" (kpp_field x "kpp"))
    child ← optional d.with_child (λ x. ok (("withChild", bool x) ∷ []))
    ok (
        ("participantId", str participant)
          ∷ ("dropoutReason", str reason)
          ∷ ("sourceDocType", str source_type)
          ∷ ("sourceDocNum", str number)
          ∷ ("sourceDocDate", str date)
          ∷ ("sntins", arr (strings codes))
          ∷ name
        ++ trade
        ++ fias
        ++ kpp
        ++ child)

  -- `LkReceiptCancelDocument.to_wire`
  unfoldable pub receipt_cancel_wire : LkReceiptCancelDocument → Checked Wire
  receipt_cancel_wire d = do
    inn ← inn_field d.inn "inn"
    receipt ← nonempty d.lk_receipt_id "lk_receipt_id" 512
    ok (("inn", str inn) ∷ ("lk_receipt_id", str receipt) ∷ [])
