-- ===== src/Turnover/Preconditions.antt =====
-- `OperationPreconditionService` of wbcz/turnover.py: what must hold of the codes before an operation.
use fbs_chz.Effect.Checks.{check, each, ◌>>=◌, ◌>>◌}
use fbs_chz.Prelude.{
  String, Bool, true, false, Option, none, some, List, [], ◌∷◌, ◌++◌, ◌&&◌, ◌||◌, ◌==◌, ◌<+>◌, not,
  nat_eq, elem, opt_eq, length, map,
}
use fbs_chz.Runtime.{Runtime}
use fbs_chz.Effect.{ok}
use fbs_chz.Turnover.Fields.{contract_error, manual_review, Checked, Library}
use fbs_chz.Turnover.Snapshots.{
  TurnoverOperationKind, introduce_domestic, introduce_from_individual,
  introduce_import_pre_mandatory, introduce_eaeu, introduce_remains, introduce_contract,
  introduce_fts, withdraw_distance, return_remote_sale, remark, write_off, cancel_withdrawal,
  kind_value, CisSnapshot, ProductReferenceSnapshot, PreconditionEvidence,
  validate_return_reason_matrix, Service, check_fresh, check_fresh_reference, check_owned,
  check_plain,
}

abbrev pub some_given : List CisSnapshot → String → Checked (Unit {0})
some_given l m = check (not (nat_eq (length l) 0)) (contract_error m)

-- `value == s` and `value in {…}` for a value that may be `None`.
abbrev pub is_text : Option String → String → Bool
is_text o s = opt_eq o (some s)

abbrev pub is_among : Option String → List String → Bool
is_among none l = false
is_among (some s) l = elem s l

-- `value in (None, "", …)`
abbrev pub is_blank_or : Option String → List String → Bool
is_blank_or none l = true
is_blank_or (some s) l = elem s ("" ∷ l)

abbrev pub is_true : Option Bool → Bool
is_true (some true) = true
is_true _ = false

abbrev pub is_false : Option Bool → Bool
is_false (some false) = true
is_false _ = false

abbrev pub is_given : Option String → Bool
is_given none = false
is_given (some t) = true

abbrev pub known_return_types : List String
known_return_types =
    "REMOTE_SALE_RETURN" ∷ "RETAIL_RETURN" ∷ "OWN_USE_RETURN" ∷ "STATE_CONTRACT_RETURN"
    ∷ "NOT_FOR_SALE_RETURN" ∷ []

-- `_evidence`; the time of the check is left out.
unfoldable pub evidence : TurnoverOperationKind → List CisSnapshot → PreconditionEvidence
evidence kind l = record {
  operation_kind = kind;
  checked_cises = map (λ x. x.cis) l;
  observed = l;
  source_document = none;
}

module _ ⦃py : Runtime⦄ ⦃lib : Library⦄ (s : Service) where
  abbrev pub check_reference : Bool → ProductReferenceSnapshot → Checked (Unit {0})
  check_reference require_mod x = do
    a ← check_fresh_reference s x
    b ←
        check (x.product_ready && is_given x.tnved_code)
          (manual_review "PRODUCT_NOT_READY_FOR_MARKING_TURNOVER")
    c ←
        check (not require_mod || x.participant_mod_ready)
          (manual_review "PARTICIPANT_MOD_NOT_READY")
    check (not (is_false x.rd_ready)) (manual_review "PERMIT_REFERENCE_NOT_READY")

  unfoldable pub validate_product_references :
      List ProductReferenceSnapshot → Bool → Checked (Unit {0})
  validate_product_references refs require_mod = do
    a ← check (not (nat_eq (length refs) 0)) (manual_review "FRESH_PRODUCT_REFERENCE_REQUIRED")
    each (check_reference require_mod) refs

  -- Fresh, owned and in no special state.
  unfoldable pub check_usual : CisSnapshot → Checked (Unit {0})
  check_usual x = check_fresh s x >> check_owned s x >> check_plain s x

  -- `_introduced_from_applied`
  unfoldable pub introduced_from_applied :
      TurnoverOperationKind → List CisSnapshot → String → Checked PreconditionEvidence
  introduced_from_applied kind l emission = do
    a ← some_given l "operation requires CIS snapshots"
    b ←
        each
          (λ x.
            check_usual x
            >> check (is_text x.status "APPLIED" && is_text x.emission_type emission)
                (manual_review (kind_value kind <+> "_PRECONDITION_FAILED")))
          l
    ok (evidence kind l)

  abbrev pub validate_domestic : List CisSnapshot → Checked PreconditionEvidence
  validate_domestic l = introduced_from_applied introduce_domestic l "LOCAL"

  unfoldable pub validate_individual : List CisSnapshot → Checked PreconditionEvidence
  validate_individual l = do
    a ← some_given l "individual commissioning requires CIS snapshots"
    b ←
        each
          (λ x.
            check_usual x
            >> check (is_text x.status "APPLIED" && is_true x.commission_from_individual_confirmed)
                (manual_review "INDIVIDUAL_COMMISSIONING_PRECONDITION_FAILED"))
          l
    ok (evidence introduce_from_individual l)

  abbrev pub validate_import_pre_mandatory : List CisSnapshot → Checked PreconditionEvidence
  validate_import_pre_mandatory l =
      introduced_from_applied introduce_import_pre_mandatory l "FOREIGN"

  abbrev pub validate_crossborder : List CisSnapshot → Checked PreconditionEvidence
  validate_crossborder l = introduced_from_applied introduce_eaeu l "FOREIGN"

  abbrev pub validate_remains : List CisSnapshot → Checked PreconditionEvidence
  validate_remains l = introduced_from_applied introduce_remains l "REMAINS"

  abbrev pub validate_contract : List CisSnapshot → Checked PreconditionEvidence
  validate_contract l = introduced_from_applied introduce_contract l "LOCAL"

  unfoldable pub validate_fts : List CisSnapshot → Checked PreconditionEvidence
  validate_fts l = do
    a ← some_given l "FTS introduction requires CIS snapshots"
    b ←
        each
          (λ x.
            check_fresh s x
            >> check_owned s x
            >> check (is_text x.status "APPLIED" && is_text x.emission_type "FOREIGN")
                (manual_review "FTS_INTRODUCTION_PRECONDITION_FAILED")
            >> check (is_blank_or x.status_ex ("FTS_RESPOND_NOT_OK" ∷ "FTS_CONTROL" ∷ []))
                (manual_review "FTS_INTRODUCTION_SPECIAL_STATE_INVALID"))
          l
    ok (evidence introduce_fts l)

  unfoldable pub validate_distance : List CisSnapshot → Checked PreconditionEvidence
  validate_distance l = do
    a ← some_given l "distance requires CIS snapshots"
    b ←
        each
          (λ x.
            check_usual x
            >> check (is_text x.status "INTRODUCED") (manual_review "DISTANCE_REQUIRES_INTRODUCED"))
          l
    ok (evidence withdraw_distance l)

  -- The tests of one code that is to be returned.
  unfoldable pub check_returned : String → CisSnapshot → Checked (Unit {0})
  check_returned return_type x =
      check_usual x
      >> check (is_text x.status "RETIRED") (manual_review "RETURN_REQUIRES_RETIRED")
      >> validate_return_reason_matrix x.status x.withdraw_reason return_type

  unfoldable pub validate_return :
      List CisSnapshot → String → TurnoverOperationKind → Checked PreconditionEvidence
  validate_return l return_type kind = do
    a ← some_given l "return requires CIS snapshots"
    b ←
        check (not (return_type == "VENDING_RETURN"))
          (manual_review "RETURN_TYPE_NOT_APPLICABLE_TO_LP")
    c ←
        check (elem return_type known_return_types)
          (manual_review "RETURN_TYPE_MATRIX_NOT_CONFIRMED_FOR_LP")
    d ← each (check_returned return_type) l
    ok (evidence kind l)

  abbrev pub validate_remote_sale_return : List CisSnapshot → Checked PreconditionEvidence
  validate_remote_sale_return l = validate_return l "REMOTE_SALE_RETURN" return_remote_sale

  -- The tests of a new code, and of the code that it replaces.
  unfoldable pub check_new_code : CisSnapshot → Checked (Unit {0})
  check_new_code x =
      check_fresh s x
      >> check_plain s x
      >> check (is_text x.status "APPLIED" && is_among x.emission_type ("REMARK" ∷ "REAPPLY" ∷ []))
          (manual_review "REMARK_NEW_CODE_PRECONDITION_FAILED")

  unfoldable pub check_old_code : String → CisSnapshot → Checked (Unit {0})
  check_old_code cause x =
      check_usual x
      >> check (is_among x.status ("INTRODUCED" ∷ "RETIRED" ∷ []))
          (manual_review "REMARK_OLD_CODE_STATE_INVALID")
      >> check
          (not (elem cause ("REMOTE_SALE_RETURN" ∷ "RETAIL_RETURN" ∷ []))
            || is_text x.status "RETIRED")
          (manual_review "RETURN_REMARK_OLD_CODE_REQUIRES_RETIRED")

  unfoldable pub validate_remark :
      List CisSnapshot → List CisSnapshot → String → Checked PreconditionEvidence
  validate_remark new_codes old_codes cause = do
    a ← some_given new_codes "remark requires new code snapshots"
    b ← each check_new_code new_codes
    c ← each (check_old_code cause) old_codes
    d ←
        check (not (cause == "DESCRIPTION_ERRORS" && nat_eq (length old_codes) 0))
          (manual_review "DESCRIPTION_ERRORS_REQUIRES_OLD_CODE")
    ok (evidence remark (new_codes ++ old_codes))

  unfoldable pub validate_write_off : List CisSnapshot → Checked PreconditionEvidence
  validate_write_off l = do
    a ← some_given l "write-off requires CIS snapshots"
    b ←
        each
          (λ x.
            check_fresh s x
            >> check_owned s x
            >> check
                (is_among x.status ("EMITTED" ∷ "APPLIED" ∷ "INTRODUCED" ∷ "APPLIED_NOT_PAID" ∷ []))
                (manual_review "WRITE_OFF_START_STATE_NOT_ALLOWED")
            >> check (is_blank_or x.status_ex ("IN_GRAY_ZONE" ∷ []))
                (manual_review "WRITE_OFF_SPECIAL_STATE_NOT_ALLOWED"))
          l
    ok (evidence write_off l)

  unfoldable pub validate_cancel_withdrawal :
      Option String → Option String → Bool → List CisSnapshot → Checked PreconditionEvidence
  validate_cancel_withdrawal status sender latest l = do
    a ← check (is_text status "CHECKED_OK") (manual_review "CANCEL_REQUIRES_CHECKED_OK_SOURCE")
    b ← check (is_text sender s.participant_inn) (manual_review "CANCEL_SOURCE_SENDER_MISMATCH")
    c ← check latest (manual_review "CANCEL_SOURCE_NOT_LATEST_ELIGIBLE_OPERATION")
    d ← each (check_fresh s) l
    ok (record (evidence cancel_withdrawal l) { source_document = some (status, sender) })
