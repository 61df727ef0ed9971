-- ===== src/Turnover/Snapshots.antt =====
-- The operations of wbcz/turnover.py, and the snapshots of codes that they are checked against.
use fbs_chz.Effect.Checks.{check, ◌>>=◌}
use fbs_chz.Prelude.{
  ℕ, ◌+◌, String, Bool, Option, none, some, List, [], ◌∷◌, ◌&&◌, ◌||◌, ◌==◌, not, ltb, elem, opt_eq,
  blank, filled,
}
use fbs_chz.Runtime.{Runtime}
use fbs_chz.Models.{Datetime, aware}
use fbs_chz.Effect.{ok, err}
use fbs_chz.Turnover.Fields.{
  TurnoverError, contract_error, manual_review, Checked, Library, inn_field, cis_field, tnved_field,
}

pub data TurnoverOperationKind : Type 0 where
  introduce_domestic introduce_from_individual : TurnoverOperationKind
  introduce_import_pre_mandatory introduce_eaeu introduce_remains : TurnoverOperationKind
  introduce_contract introduce_fts withdraw withdraw_distance : TurnoverOperationKind
  return_to_circulation return_remote_sale remark write_off : TurnoverOperationKind
  cancel_withdrawal : TurnoverOperationKind

abbrev pub kind_value : TurnoverOperationKind → String
kind_value introduce_domestic = "INTRODUCE_DOMESTIC"
kind_value introduce_from_individual = "INTRODUCE_FROM_INDIVIDUAL"
kind_value introduce_import_pre_mandatory = "INTRODUCE_IMPORT_PRE_MANDATORY"
kind_value introduce_eaeu = "INTRODUCE_EAEU"
kind_value introduce_remains = "INTRODUCE_REMAINS"
kind_value introduce_contract = "INTRODUCE_CONTRACT"
kind_value introduce_fts = "INTRODUCE_FTS"
kind_value withdraw = "WITHDRAW"
kind_value withdraw_distance = "WITHDRAW_DISTANCE"
kind_value return_to_circulation = "RETURN_TO_CIRCULATION"
kind_value return_remote_sale = "RETURN_REMOTE_SALE"
kind_value remark = "REMARK"
kind_value write_off = "WRITE_OFF"
kind_value cancel_withdrawal = "CANCEL_WITHDRAWAL"

pub record CisSnapshot : Type 0 where
  pub cis : String
  pub status : Option String
  pub status_ex : Option String
  pub owner_inn : Option String
  pub withdraw_reason : Option String
  pub emission_type : Option String
  pub commission_from_individual_confirmed : Option Bool
  pub fetched_at : Option Datetime
  pub parent : Option String
  pub package_type : Option String
  pub direct_children : List String

pub record ProductReferenceSnapshot : Type 0 where
  pub gtin : String
  pub tnved_code : Option String
  pub product_ready : Bool
  pub participant_mod_ready : Bool
  pub rd_ready : Option Bool
  pub fetched_at : Option Datetime

-- The status and the sender of the source document are there for a cancellation.
pub record PreconditionEvidence : Type 0 where
  pub operation_kind : TurnoverOperationKind
  pub checked_cises : List String
  pub observed : List CisSnapshot
  pub source_document : Option (Option String × Option String)

-- A cell of RETURN_REASON_MATRIX for the product group `lp` and the status RETIRED: the reason of the
-- withdrawal and the type of the return.
abbrev pub matrix_cell : String → String → Bool
matrix_cell reason return_type =
    return_type == "REMOTE_SALE_RETURN" && elem reason ("DISTANCE" ∷ "BY_SAMPLES" ∷ [])
    || return_type == "RETAIL_RETURN" && elem reason ("RETAIL" ∷ "BY_SAMPLES" ∷ "DISTANCE" ∷ [])
    || return_type == "OWN_USE_RETURN"
      && elem reason ("OWN_USE" ∷ "PRODUCTION_USE" ∷ "MEDICAL_USE" ∷ "VETERINARY_USE" ∷ [])
    || return_type == "STATE_CONTRACT_RETURN" && elem reason ("STATE_SECRET" ∷ [])
    || return_type == "NOT_FOR_SALE_RETURN"
      && elem reason ("DONATION" ∷ "OWN_USE" ∷ "PRODUCTION_USE" ∷ "STATE_CONTRACT" ∷ [])

-- `value or ""`
abbrev pub or_empty : Option String → String
or_empty none = ""
or_empty (some s) = s

-- `validate_return_reason_matrix`, for the product group `lp`.
unfoldable pub validate_return_reason_matrix :
    Option String → Option String → String → Checked (Unit {0})
validate_return_reason_matrix current_status current_withdraw_reason return_type = do
  a ←
      check (not (return_type == "VENDING_RETURN"))
        (manual_review "RETURN_TYPE_NOT_APPLICABLE_TO_LP")
  check
      (or_empty current_status == "RETIRED"
        && matrix_cell (or_empty current_withdraw_reason) return_type)
      (manual_review "RETURN_REASON_MATRIX_NO_CONFIRMED_CELL")

-- The `OperationPreconditionService`: the participant, the clock and the allowed age, in microseconds.
pub record Service : Type 0 where
  pub participant_inn : String
  pub now : ℕ
  pub max_snapshot_age : ℕ

-- `fetched > now + timedelta(minutes=1) or now - fetched > self.max_snapshot_age`
abbrev pub is_stale : Service → ℕ → Bool
is_stale s fetched = ltb (s.now + 60000000) fetched || ltb (fetched + s.max_snapshot_age) s.now

abbrev pub fetched_instant : Option Datetime → TurnoverError → Checked ℕ
fetched_instant (some (aware t)) e = ok t
fetched_instant _ e = err e

module _ ⦃py : Runtime⦄ ⦃lib : Library⦄ where
  abbrev pub valid_owner : Option String → Checked (Unit {0})
  valid_owner none = ok tt
  valid_owner (some inn) = inn_field inn "owner_inn" >>= λ a. ok tt

  -- `CisSnapshot.validated`, with the instant at which it was fetched.
  unfoldable pub validated : CisSnapshot → Checked ℕ
  validated x = do
    a ← cis_field x.cis "cis"
    b ← valid_owner x.owner_inn
    fetched_instant x.fetched_at (manual_review "FRESH_CIS_SNAPSHOT_REQUIRED")

  abbrev pub valid_tnved : Option String → Checked (Unit {0})
  valid_tnved none = ok tt
  valid_tnved (some t) = tnved_field t "tnved_code" >>= λ a. ok tt

  -- `ProductReferenceSnapshot.validated`, likewise.
  unfoldable pub validated_reference : ProductReferenceSnapshot → Checked ℕ
  validated_reference x = do
    a ← check (filled x.gtin) (contract_error "gtin required")
    b ← valid_tnved x.tnved_code
    fetched_instant x.fetched_at (manual_review "FRESH_REFERENCE_SNAPSHOT_REQUIRED")

  module _ (s : Service) where
    -- `_fresh`
    unfoldable pub check_fresh : CisSnapshot → Checked (Unit {0})
    check_fresh x = do
      fetched ← validated x
      check (not (is_stale s fetched)) (manual_review "STALE_PRECONDITION_SNAPSHOT")

    unfoldable pub check_fresh_reference : ProductReferenceSnapshot → Checked (Unit {0})
    check_fresh_reference x = do
      fetched ← validated_reference x
      check (not (is_stale s fetched)) (manual_review "STALE_PRECONDITION_SNAPSHOT")

    -- `_owned`
    unfoldable pub check_owned : CisSnapshot → Checked (Unit {0})
    check_owned x =
        check (opt_eq x.owner_inn (some s.participant_inn))
          (manual_review "CIS_NOT_OWNED_BY_PARTICIPANT")

    -- `_plain`
    unfoldable pub check_plain : CisSnapshot → Checked (Unit {0})
    check_plain x = check (blank x.status_ex) (manual_review "SPECIAL_STATE_NOT_ALLOWED")
