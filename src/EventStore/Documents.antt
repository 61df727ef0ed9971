-- ===== src/EventStore/Documents.antt =====
-- The documents of wbcz/event_store.py: `register_document`, `document_report`, `update_document`.
use fbs_chz.Prelude.{
  String, Bool, true, false, Option, none, some, List, [], ◌∷◌, ◌++◌, ◌+◌, ◌&&◌, ◌==◌, opt_eq,
  filled, length, ◌<+>◌, if◌then◌else◌,
}
use fbs_chz.Runtime.{Runtime, str, end_fields, field}
use fbs_chz.Models.{DocumentStatus, accepted, succeeded, rejected, status_value, DocumentReport}
use fbs_chz.Effect.{pure, raise, gets, require, ◌>>=◌, ◌>>◌}
use fbs_chz.EventStore.Tables.{
  value_error, key_error, integrity_error, DocumentRow, StoreAction, atomically, change_tables,
  has_event, opt_text, read_clock, append_audit,
}

unfoldable pub find_document : String → List DocumentRow → Option DocumentRow
find_document k [] = none
find_document k (r ∷ l) = if r.document_id == k then some r else find_document k l

-- UPDATE documents SET status = ?, error = ?, updated_at = ? WHERE document_id = ?
abbrev pub put_status : DocumentReport → String → DocumentRow → DocumentRow
put_status report now r = record r {
  status = report.status;
  error = report.error;
  updated_at = now;
}

unfoldable pub set_status : String → DocumentReport → String → List DocumentRow → List DocumentRow
set_status k report now [] = []
set_status k report now (r ∷ l) =
    (if r.document_id == k then put_status report now r else r) ∷ set_status k report now l

abbrev pub is_terminal : DocumentStatus → Bool
is_terminal succeeded = true
is_terminal rejected = true
is_terminal _ = false

abbrev pub report_of : DocumentRow → DocumentReport
report_of r = record { status = r.status; error = r.error }

-- `==` of two reports, which a data class compares field by field.
abbrev pub same_report : DocumentReport → DocumentReport → Bool
same_report a b = status_value a.status == status_value b.status && opt_eq a.error b.error

abbrev found_document : String → Option DocumentRow → StoreAction DocumentReport
found_document k none = raise (key_error ("Документ не найден: " <+> k))
found_document k (some r) = pure (report_of r)

-- `document_report`
unfoldable pub document_report : String → StoreAction DocumentReport
document_report k = do
  found ← gets (λ s. find_document k s.tables.documents)
  found_document k found

module _ ⦃py : Runtime⦄ where
  -- A row of `document_status_history`.
  unfoldable pub add_history : String → DocumentReport → String → StoreAction (Unit {0})
  unfolding change_tables
  add_history k report now = change_tables λ t. record t {
    history =
        t.history
        ++ record {
          id = length t.history + 1;
          document_id = k;
          status = report.status;
          error = report.error;
          observed_at = now;
        }
          ∷ [];
  }

  -- A document that is not there yet. Its event has to be there (FOREIGN KEY).
  unfoldable pub register_new : String → String → String → StoreAction (Unit {0})
  unfolding change_tables add_history append_audit
  register_new event_id k now = do
    known ← gets (λ s. has_event event_id s.tables.events)
    require known (integrity_error "documents.event_id")
    change_tables λ t. record t {
      documents =
          t.documents
          ++ record {
            document_id = k;
            event_id = event_id;
            status = accepted;
            error = none;
            created_at = now;
            updated_at = now;
          }
            ∷ [];
    }
    add_history k (record { status = accepted; error = none }) now
    append_audit "DOCUMENT_REGISTERED" "document" k
        (field "event_id" (str event_id) (field "status" (str (status_value accepted)) end_fields))

  abbrev pub register_found : String → String → String → Option DocumentRow → StoreAction (Unit {0})
  register_found event_id k now none = register_new event_id k now
  register_found event_id k now (some r) =
      require (r.event_id == event_id) (value_error "document_id уже связан с другим событием")

  unfoldable pub register_body : String → String → StoreAction (Unit {0})
  unfolding read_clock
  register_body event_id k = do
    now ← read_clock
    found ← gets (λ s. find_document k s.tables.documents)
    register_found event_id k now found

  -- `register_document`
  unfoldable pub register_document : String → String → StoreAction (Unit {0})
  register_document event_id k = do
    require (filled k) (value_error "Пустой document_id")
    atomically (register_body event_id k)

  -- The records of a new status.
  unfoldable pub note_status : String → DocumentReport → String → StoreAction (Unit {0})
  unfolding add_history append_audit
  note_status k report now = do
    add_history k report now
    append_audit "DOCUMENT_STATUS_OBSERVED" "document" k (
        field "status" (str (status_value report.status))
          (field "error" (opt_text report.error) end_fields))

  -- A status that is not the last one is replaced.
  unfoldable pub store_status : String → DocumentReport → StoreAction DocumentReport
  unfolding read_clock change_tables note_status
  store_status k report = do
    now ← read_clock
    change_tables (λ t. record t { documents = set_status k report now t.documents })
    note_status k report now
    pure report

  -- A last status is kept: the same report again is no error.
  unfoldable pub repeat_status : DocumentReport → DocumentReport → StoreAction DocumentReport
  repeat_status report current = do
    require (same_report report current)
        (value_error "Нельзя изменить терминальный статус документа")
    pure current

  unfoldable pub update_body : String → DocumentReport → StoreAction DocumentReport
  unfolding document_report
  update_body k report = do
    current ← document_report k
    if is_terminal current.status then repeat_status report current else store_status k report

  -- `update_document`
  unfoldable pub update_document : String → DocumentReport → StoreAction DocumentReport
  update_document k report = atomically (update_body k report)
