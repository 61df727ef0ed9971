-- ===== src/Services/Tests.antt =====
-- Runs of the services, and their theorems at these runs.
use fbs_chz.Prelude.{String, none, some, [], ◌∷◌, ◌≡◌, ◌↔◌, refl, if◌then◌else◌}
use fbs_chz.Models.{
  processing, verification_error, ready_to_withdraw, ready_to_return, error, KiState,
  DocumentReport,
}
use fbs_chz.Effect.{Result, ok, err}
use fbs_chz.ControlEngine.{validate_owner_inn, decide, decide_checked, has_sale_receipt_evidence}
use fbs_chz.ControlEngine.Decisions.{IsWithdrawable, IsReturnable}
use fbs_chz.EventStore.Tables.{DocumentRow, EventStore}
use fbs_chz.EventStore.Documents.{find_document, is_terminal, report_of}
use fbs_chz.EventStore.Keeps.{report_at}
use fbs_chz.Services.{Exception, observed, outcome_of, refresh}
use fbs_chz.Services.Refresh.{refresh-report, outcome_of_iff}
use fbs_chz.Samples.{plain, inn, sale_event, in_circulation}

abbrev pending : DocumentRow
pending = record {
  document_id = "doc-1";
  event_id = "5e1f";
  status = processing;
  error = none;
  created_at = "2024-05-01T10:00:00+00:00";
  updated_at = "2024-05-01T10:00:00+00:00";
}

abbrev store : EventStore
store = record {
  tables = record {
    imports = [];
    events = [];
    import_rows = [];
    checks = [];
    previews = [];
    documents = pending ∷ [];
    history = [];
    audit_log = [];
  };
  reads = 0;
}

-- The service does not answer.
abbrev silent : String → Result Exception DocumentReport
silent k = err (record { type_name = "TimeoutError"; text = "10 s" })

silent_is_noted :
    observed (silent "doc-1")
    ≡ record { status = verification_error; error = some "TimeoutError: 10 s" }
unfolding observed
silent_is_noted = refl

abbrev answered : Result Exception KiState
answered = ok in_circulation

pending_is_found : find_document "doc-1" store.tables.documents ≡ some pending
unfolding find_document
pending_is_found = refl

inn_is_valid : validate_owner_inn inn ≡ ok tt
unfolding validate_owner_inn
inn_is_valid = refl

sale_is_recommended : (outcome_of sale_event answered inn).decision ≡ ready_to_withdraw
unfolding outcome_of decide decide_checked validate_owner_inn has_sale_receipt_evidence
sale_is_recommended = refl

refresh-report_example :
    (r : DocumentReport) × (r
      ≡ (if is_terminal pending.status then report_of pending else observed (silent "doc-1")))
    × ((refresh silent "doc-1" store).0 ≡ ok r)
    × (report_at "doc-1" (refresh silent "doc-1" store).1.tables ≡ some r)
refresh-report_example = refresh-report silent "doc-1" store pending pending_is_found

outcome_of_iff_example :
    (((outcome_of sale_event answered inn).decision ≡ ready_to_withdraw)
      ↔ ((state : KiState) × (answered ≡ ok state) × IsWithdrawable sale_event state inn))
    × (((outcome_of sale_event answered inn).decision ≡ ready_to_return)
        ↔ ((state : KiState) × (answered ≡ ok state) × IsReturnable sale_event state inn))
    × (((outcome_of sale_event answered inn).decision ≡ error)
        ↔ ((e : Exception) × (answered ≡ err e)))
outcome_of_iff_example = outcome_of_iff sale_event answered inn inn_is_valid
