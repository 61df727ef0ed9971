-- ===== src/EventStore/Import.antt =====
-- The import of a workbook: `existing_import`, `import_workbook` and `history_order_ambiguous` of
-- wbcz/event_store.py.
use fbs_chz.Prelude.{
  ℕ, String, Bool, true, false, Option, none, some, List, [], ◌∷◌, ◌++◌, ◌+◌, ◌&&◌, ◌||◌, ◌==◌,
  opt_eq, not, nat_eq, ltb, length, any, if◌then◌else◌,
}
use fbs_chz.Runtime.{Runtime, JsonFields, bool, num, str, obj, end_fields, field}
use fbs_chz.Models.{Event, ParsedRow, RowIssue, ParsedWorkbook, ImportReport}
use fbs_chz.Effect.{pure, gets, require, ◌>>=◌, ◌>>◌}
use fbs_chz.EventStore.Tables.{
  integrity_error, ImportRow, EventRow, SourceRow, PreviewRow, StoreAction, atomically,
  change_tables, has_event, read_clock, append_audit, occurred_text, to_dict, event_id_of,
}

-- PARSER_VERSION of wbcz/wb_parser.py.
abbrev pub parser_version : ℕ
parser_version = 2

unfoldable pub find_import : String → List ImportRow → Option ImportRow
find_import k [] = none
find_import k (r ∷ l) = if r.fingerprint == k then some r else find_import k l

-- The report of a file that has been imported before.
abbrev pub repeated_report : String → ImportRow → ImportReport
repeated_report k r = record {
  fingerprint = k;
  new_events = 0;
  duplicate_events = r.new_events + r.duplicate_events;
  rejected_rows = r.rejected_rows;
  repeated_file = true;
}

abbrev existing_report : String → Option ImportRow → Option ImportReport
existing_report k none = none
existing_report k (some r) = some (repeated_report k r)

-- `existing_import`
unfoldable pub existing_import : String → StoreAction (Option ImportReport)
existing_import k = gets (λ s. existing_report k (find_import k s.tables.imports))

-- DELETE FROM previews WHERE event_id IN (SELECT event_id FROM events WHERE kiz = ?)
abbrev event_has_kiz : String → String → List EventRow → Bool
event_has_kiz kiz k l = any (λ r. r.event_id == k && r.event.kiz == kiz) l

unfoldable pub delete_previews : String → List EventRow → List PreviewRow → List PreviewRow
delete_previews kiz events [] = []
delete_previews kiz events (p ∷ l) =
    let rest = delete_previews kiz events l in
    if event_has_kiz kiz p.event_id events then rest else p ∷ rest

-- INSERT INTO import_rows: the primary key is the file and the number of the row.
abbrev pub row_taken : String → ℕ → List SourceRow → Bool
row_taken k n l = any (λ r. r.fingerprint == k && nat_eq r.row_number n) l

unfoldable pub insert_source : SourceRow → StoreAction (Unit {0})
unfolding change_tables
insert_source r = do
  taken ← gets (λ s. row_taken r.fingerprint r.row_number s.tables.import_rows)
  require (not taken) (integrity_error "import_rows")
  change_tables (λ t. record t { import_rows = t.import_rows ++ r ∷ [] })

unfoldable pub set_counts : String → ℕ → ℕ → List ImportRow → List ImportRow
set_counts k new dup [] = []
set_counts k new dup (r ∷ l) =
    (if r.fingerprint == k then record r { new_events = new; duplicate_events = dup } else r)
    ∷ set_counts k new dup l

abbrev pub fresh_report : String → ℕ → ℕ → ℕ → ImportReport
fresh_report k new dup rejected = record {
  fingerprint = k;
  new_events = new;
  duplicate_events = dup;
  rejected_rows = rejected;
  repeated_file = false;
}

abbrev report_fields : ImportReport → JsonFields
report_fields r = field "fingerprint" (str r.fingerprint) (
    field "new_events" (num r.new_events) (
      field "duplicate_events" (num r.duplicate_events) (
        field "rejected_rows" (num r.rejected_rows)
          (field "repeated_file" (bool r.repeated_file) end_fields))))

abbrev pub has_items {ℓ} : {A : Type ℓ} → List A → Bool
has_items [] = false
has_items (a ∷ l) = true

-- The row of a file whose import has begun.
abbrev pub opened_import : String → String → String → ParsedWorkbook → ImportRow
opened_import k filename now parsed = record {
  fingerprint = k;
  filename = filename;
  parser_version = parser_version;
  imported_at = now;
  partial = has_items parsed.issues;
  new_events = 0;
  duplicate_events = 0;
  rejected_rows = length parsed.issues;
}

module _ ⦃py : Runtime⦄ where
  -- INSERT INTO events … ON CONFLICT(event_id) DO NOTHING; whether a row was inserted.
  unfoldable pub insert_event : Event → StoreAction Bool
  unfolding read_clock change_tables
  insert_event e = do
    now ← read_clock
    known ← gets (λ s. has_event (event_id_of e) s.tables.events)
    change_tables λ t. record t {
      events =
          if known
          then t.events
          else t.events
            ++ record {
              event_id = event_id_of e;
              event = e;
              occurred_at = occurred_text e.occurred_at;
              payload_json = py.dumps (obj (to_dict e));
              created_at = now;
            }
              ∷ [];
    }
    pure (not known)

  -- What a new event brings with it.
  unfoldable pub new_event : String → ParsedRow → StoreAction (Unit {0})
  unfolding append_audit change_tables
  new_event k item = do
    change_tables (λ t. record t { previews = delete_previews item.event.kiz t.events t.previews })
    append_audit "EVENT_IMPORTED" "event" (event_id_of item.event)
        (field "fingerprint" (str k) (field "row" (num item.row_number) end_fields))

  -- One turn of the loop over the rows; whether the event was new.
  unfoldable pub import_row : String → ParsedRow → StoreAction Bool
  unfolding insert_source
  import_row k item = do
    is_new ← insert_event item.event
    if is_new then new_event k item else pure tt
    insert_source (record {
      fingerprint = k;
      row_number = item.row_number;
      event_id = some (event_id_of item.event);
      error = none;
    })
    pure is_new

  -- The loop over the rows, with the two counters.
  unfoldable pub import_rows : String → List ParsedRow → ℕ → ℕ → StoreAction (ℕ × ℕ)
  import_rows k [] inserted duplicates = pure (inserted, duplicates)
  import_rows k (item ∷ rest) inserted duplicates = do
    is_new ← import_row k item
    import_rows k rest (if is_new then inserted + 1 else inserted)
        (if is_new then duplicates else duplicates + 1)

  -- One turn of the loop over the rejected rows.
  unfoldable pub insert_issue : String → RowIssue → StoreAction (Unit {0})
  unfolding insert_source append_audit
  insert_issue k issue = do
    insert_source (record {
      fingerprint = k;
      row_number = issue.row_number;
      event_id = none;
      error = some issue.message;
    })
    append_audit "ROW_REJECTED" "file" k
        (field "row" (num issue.row_number) (field "error" (str issue.message) end_fields))

  -- The loop over the rejected rows.
  unfoldable pub insert_issues : String → List RowIssue → StoreAction (Unit {0})
  insert_issues k [] = pure tt
  insert_issues k (issue ∷ rest) = do insert_issue k issue; insert_issues k rest

  -- The import of a file that is not there yet.
  unfoldable pub import_new : String → String → ParsedWorkbook → StoreAction ImportReport
  unfolding read_clock change_tables append_audit
  import_new k filename parsed = do
    now ← read_clock
    change_tables
        (λ t. record t { imports = t.imports ++ opened_import k filename now parsed ∷ [] })
    counts ← import_rows k parsed.rows 0 0
    insert_issues k parsed.issues
    change_tables (λ t. record t { imports = set_counts k counts.0 counts.1 t.imports })
    let report = fresh_report k counts.0 counts.1 (length parsed.issues)
    append_audit "IMPORT_COMPLETED" "file" k (report_fields report)
    pure report

  abbrev pub import_found :
      String → String → ParsedWorkbook → Option ImportReport → StoreAction ImportReport
  import_found k filename parsed none = import_new k filename parsed
  import_found k filename parsed (some existing) = do
    append_audit "IMPORT_REPEATED" "file" k end_fields
    pure existing

  unfoldable pub import_body : String → String → ParsedWorkbook → StoreAction ImportReport
  import_body k filename parsed = do
    existing ← existing_import k
    import_found k filename parsed existing

  -- `import_workbook`
  unfoldable pub import_workbook : String → String → ParsedWorkbook → StoreAction ImportReport
  import_workbook k filename parsed = atomically (import_body k filename parsed)

abbrev pub dates_of : String → List EventRow → List (Option String)
dates_of kiz [] = []
dates_of kiz (r ∷ l) = if r.event.kiz == kiz then r.occurred_at ∷ dates_of kiz l else dates_of kiz l

abbrev pub has_unknown : List (Option String) → Bool
has_unknown [] = false
has_unknown (none ∷ l) = true
has_unknown (some d ∷ l) = has_unknown l

-- `len(set(dates)) != len(dates)`
abbrev pub has_repeat : List (Option String) → Bool
has_repeat [] = false
has_repeat (d ∷ l) = any (opt_eq d) l || has_repeat l

-- `history_order_ambiguous`
unfoldable pub history_order_ambiguous : String → StoreAction Bool
history_order_ambiguous kiz = gets (λ s.
    let dates = dates_of kiz s.tables.events in
    if ltb (length dates) 2 then false else has_unknown dates || has_repeat dates)
