-- ===== src/Services.antt =====
-- The services over the event store: `DryRunService` of wbcz/service.py and `DocumentTracker` of
-- wbcz/status_verifier.py. The remote service is an argument: its answer, or the exception that it
-- raises, by the name of its type and its text.
use fbs_chz.Prelude.{
  String, Bool, Option, none, some, List, [], ◌∷◌, ◌==◌, prefix, ◌<+>◌, if◌then◌else◌,
}
use fbs_chz.Runtime.{Runtime}
use fbs_chz.Models.{
  Event, KiState, Outcome, Decision, error, CheckResult, verification_error, DocumentReport,
}
use fbs_chz.Effect.{Result, ok, err, pure, raise, gets, ◌>>=◌, ◌>>◌}
use fbs_chz.ControlEngine.{decide}
use fbs_chz.EventStore.Tables.{EventRow, StoreAction, key_error}
use fbs_chz.EventStore.Checks.{save_check}
use fbs_chz.EventStore.Documents.{document_report, is_terminal, update_document}
pub mod Refresh
mod Tests

pub record Exception : Type 0 where
  pub type_name : String
  pub text : String

-- `f"{type(exc).__name__}: {exc}"[:2000]`
abbrev pub described : Exception → String
described e = prefix 2000 (e.type_name <+> ": " <+> e.text)

unfoldable pub find_event : String → List EventRow → Option EventRow
find_event k [] = none
find_event k (r ∷ l) = if r.event_id == k then some r else find_event k l

abbrev pub found_event : String → Option EventRow → StoreAction Event
found_event k none = raise (key_error ("Событие не найдено: " <+> k))
found_event k (some r) = pure r.event

-- `EventStore.get_event`. The row keeps the event itself.
unfoldable pub get_event : String → StoreAction Event
get_event k = do found ← gets (λ s. find_event k s.tables.events); found_event k found

-- The report that an answer about a document comes to.
unfoldable pub observed : Result Exception DocumentReport → DocumentReport
observed (ok report) = report
observed (err e) = record { status = verification_error; error = some (described e) }

abbrev pub lookup_failed : Exception → Outcome
lookup_failed e = record {
  decision = error;
  reason = "STATE_LOOKUP_OR_NORMALIZATION_FAILED";
  error = some (described e);
}

-- The state that is stored with a check.
abbrev pub snapshot_of : Result Exception KiState → Option KiState
snapshot_of (ok state) = some state
snapshot_of (err e) = none

-- The exception that `decide` raises is a `ValueError`.
abbrev pub settled : Result String Outcome → Outcome
settled (ok outcome) = outcome
settled (err m) = lookup_failed (record { type_name = "ValueError"; text = m })

module _ ⦃py : Runtime⦄ where
  -- The outcome for the answer about the state of a code.
  unfoldable pub outcome_of : Event → Result Exception KiState → String → Outcome
  outcome_of event (ok state) own_inn = settled (decide event state own_inn)
  outcome_of event (err e) own_inn = lookup_failed e

  -- `DryRunService.check_event`; `client` answers for the text of a code.
  unfoldable pub check_event :
      (String → Result Exception KiState) → String → String → String → StoreAction CheckResult
  check_event client own_inn source k = do
    event ← get_event k
    let response = client event.kiz
    save_check k (snapshot_of response) (outcome_of event response own_inn) source

  -- `DocumentTracker.refresh`; `verifier` answers for a document.
  unfoldable pub refresh :
      (String → Result Exception DocumentReport) → String → StoreAction DocumentReport
  refresh verifier k = do
    current ← document_report k
    if is_terminal current.status then pure current else update_document k (observed (verifier k))
