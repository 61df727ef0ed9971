-- ===== src/EventStore/Calls.antt =====
-- The calls that change the store of wbcz/event_store.py, and sequences of them.
use fbs_chz.Prelude.{String, Option, List, [], ◌∷◌}
use fbs_chz.Runtime.{Runtime, JsonFields}
use fbs_chz.Models.{ParsedWorkbook, KiState, Outcome, DocumentReport}
use fbs_chz.Effect.{pure, ◌>>◌}
use fbs_chz.EventStore.Tables.{EventStore, StoreAction, atomically, append_audit}
use fbs_chz.EventStore.Import.{import_workbook}
use fbs_chz.EventStore.Checks.{save_check}
use fbs_chz.EventStore.Documents.{register_document, update_document}

pub data Call : Type 0 where
  import_call : String → String → ParsedWorkbook → Call
  check_call : String → Option KiState → Outcome → String → Call
  register_call : String → String → Call
  update_call : String → DocumentReport → Call
  audit_call : String → String → String → JsonFields → Call

module _ ⦃py : Runtime⦄ where
  -- `audit`
  unfoldable pub audit : String → String → String → JsonFields → StoreAction (Unit {0})
  audit action entity_type entity_id details =
      atomically (append_audit action entity_type entity_id details)

  unfoldable pub answer : Call → StoreAction (Unit {0})
  answer (import_call k filename parsed) = do import_workbook k filename parsed; pure tt
  answer (check_call k snapshot outcome source) = do save_check k snapshot outcome source; pure tt
  answer (register_call event_id k) = register_document event_id k
  answer (update_call k report) = do update_document k report; pure tt
  answer (audit_call action entity_type entity_id details) =
      audit action entity_type entity_id details

  unfoldable pub serve : EventStore → List Call → EventStore
  serve s [] = s
  serve s (c ∷ rest) = serve (answer c s).1 rest
