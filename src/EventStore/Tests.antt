-- ===== src/EventStore/Tests.antt =====
-- Runs of the event store on two events and a document, and its theorems at these runs.
use fbs_chz.Prelude.{ℕ, true, false, none, some, List, [], ◌∷◌, ◌≡◌, refl}
use fbs_chz.Models.{
  ready_to_withdraw, processing, succeeded, rejected, ParsedWorkbook, DocumentReport,
}
use fbs_chz.Effect.{ok, err, pure, ◌>>=◌}
use fbs_chz.EventStore.Tables.{
  EventRow, EventStore, value_error, read_clock, append_audit, change_tables, atomically,
  event_id_of, to_dict,
}
use fbs_chz.EventStore.Import.{
  find_import, existing_import, insert_source, insert_event, new_event, import_row, import_rows,
  insert_issue, insert_issues, import_new, import_body, import_workbook, set_counts,
  delete_previews,
}
use fbs_chz.EventStore.Documents.{
  find_document, document_report, repeat_status, update_body, update_document,
}
use fbs_chz.EventStore.Calls.{Call, import_call, check_call, register_call, update_call, serve}
use fbs_chz.EventStore.Keeps.{report_at, Added, Grown}
use fbs_chz.EventStore.Reports.{IsRecorded, import_workbook-new, import_workbook_twice}
use fbs_chz.EventStore.Counts.{event_count}
use fbs_chz.EventStore.Import.{fresh_report}
use fbs_chz.Prelude.{◌+◌}
use fbs_chz.EventStore.Frozen.{serve-frozen, serve-events, serve-log}
use fbs_chz.Samples.{plain, sale_event}

abbrev empty_store : EventStore
empty_store = record {
  tables = record {
    imports = [];
    events = [];
    import_rows = [];
    checks = [];
    previews = [];
    documents = [];
    history = [];
    audit_log = [];
  };
  reads = 0;
}

abbrev imported : EventRow
imported = record {
  event_id = "5e1f";
  event = sale_event;
  occurred_at = some "2024-05-01T10:00:00+00:00";
  payload_json = "{}";
  created_at = "2024-05-01T10:00:00+00:00";
}

abbrev closed : DocumentReport
closed = record { status = succeeded; error = none }

abbrev full_store : EventStore
full_store = record empty_store {
  tables = record empty_store.tables {
    events = imported ∷ [];
    documents =
        record {
          document_id = "doc-1";
          event_id = "5e1f";
          status = succeeded;
          error = none;
          created_at = "2024-05-01T10:00:00+00:00";
          updated_at = "2024-05-01T10:00:00+00:00";
        }
        ∷ [];
  };
}

-- Two rows with the same event, and a rejected row.
abbrev workbook : ParsedWorkbook
workbook = record {
  rows =
      record { row_number = 2; event = sale_event }
      ∷ record { row_number = 3; event = sale_event }
      ∷ [];
  issues = record { row_number = 4; message = "?" } ∷ [];
  ignored_rows = [];
}

abbrev calls : List Call
calls =
    import_call "f1" "may.xlsx" workbook
    ∷ check_call "5e1f" none
        (record { decision = ready_to_withdraw; reason = "SALE_IN_CIRCULATION"; error = none })
        "mock"
    ∷ register_call "5e1f" "doc-2"
    ∷ update_call "doc-1" (record { status = processing; error = none })
    ∷ update_call "doc-2" (record { status = rejected; error = some "?" })
    ∷ []

-- The second row is a duplicate of the first.
first_import :
    (import_workbook "f1" "may.xlsx" workbook empty_store).0
    ≡ ok (record {
      fingerprint = "f1";
      new_events = 1;
      duplicate_events = 1;
      rejected_rows = 1;
      repeated_file = false;
    })
unfolding import_workbook import_body existing_import find_import import_new import_rows import_row
    insert_event new_event insert_source insert_issue insert_issues set_counts delete_previews
    read_clock append_audit change_tables atomically event_id_of to_dict pure ◌>>=◌
first_import = refl

closed_document_stays :
    (update_document "doc-1" (record { status = processing; error = none }) full_store).0
    ≡ err (value_error "Нельзя изменить терминальный статус документа")
unfolding update_document update_body document_report find_document repeat_status atomically ◌>>=◌
closed_document_stays = refl

closed_report : report_at "doc-1" full_store.tables ≡ some closed
unfolding find_document
closed_report = refl

serve-frozen_example : report_at "doc-1" (serve full_store calls).tables ≡ some closed
serve-frozen_example = serve-frozen calls full_store "doc-1" closed refl closed_report

serve-events_example : Added full_store.tables.events (serve full_store calls).tables.events
serve-events_example = serve-events calls full_store

serve-log_example : Grown full_store.tables.audit_log (serve full_store calls).tables.audit_log
serve-log_example = serve-log calls full_store

-- A file that has been imported.
abbrev may_store : EventStore
may_store = (import_workbook "f1" "may.xlsx" workbook empty_store).1

nothing_imported : find_import "f1" empty_store.tables.imports ≡ none
unfolding find_import
nothing_imported = refl

import_workbook-new_example :
    (new : ℕ) × (dup : ℕ) × ((import_workbook "f1" "may.xlsx" workbook empty_store).0
      ≡ ok (fresh_report "f1" new dup 1))
    × (new + dup ≡ 2)
    × (event_count (import_workbook "f1" "may.xlsx" workbook empty_store).1
        ≡ event_count empty_store + new)
    × IsRecorded "f1" new dup 1 (import_workbook "f1" "may.xlsx" workbook empty_store).1
import_workbook-new_example =
    import_workbook-new "f1" "may.xlsx" workbook empty_store nothing_imported refl

import_workbook_twice_example :
    ((import_workbook "f1" "june.xlsx" workbook may_store).0
      ≡ ok (record {
        fingerprint = "f1";
        new_events = 0;
        duplicate_events = 2;
        rejected_rows = 1;
        repeated_file = true;
      }))
    × ((import_workbook "f1" "june.xlsx" workbook may_store).1.tables.events
        ≡ may_store.tables.events)
    × ((import_workbook "f1" "june.xlsx" workbook may_store).1.tables.imports
        ≡ may_store.tables.imports)
import_workbook_twice_example =
    import_workbook_twice "f1" "may.xlsx" "june.xlsx" workbook workbook empty_store nothing_imported
      refl
