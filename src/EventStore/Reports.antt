-- ===== src/EventStore/Reports.antt =====
-- The report of an import of wbcz/event_store.py, the first time and again.
use fbs_chz.Prelude.{
  ℕ, ◌+◌, String, true, none, some, List, [], ◌∷◌, ◌++◌, ◌≡◌, ◌∙◌, ap, refl, arith, length, eq_iff,
}
use fbs_chz.Runtime.{Runtime, JsonFields}
use fbs_chz.Models.{ParsedWorkbook, ImportReport}
use fbs_chz.Effect.{ok, modify, gets, pure, ◌>>=◌}
use fbs_chz.Effect.Ends.{Ends, Ends-bind, Ends-pure}
use fbs_chz.EventStore.Tables.{
  ImportRow, Tables, EventStore, atomically, change_tables, read_clock, append_audit,
}
use fbs_chz.EventStore.Import.{
  import_new, import_body, existing_import, find_import, set_counts, opened_import, fresh_report,
  repeated_report, import_workbook,
}
use fbs_chz.EventStore.Counts.{
  event_count, are_free, issue_numbers, numbers_of, import_rows-Ends, insert_issues-Ends,
}

find_import-set_counts :
    (k : String) (a b : ℕ) (l : List ImportRow) (x : ImportRow)
    → x.fingerprint ≡ k
    → find_import k l ≡ none
    → find_import k (set_counts k a b (l ++ x ∷ []))
      ≡ some (record x { new_events = a; duplicate_events = b })
unfolding find_import set_counts
find_import-set_counts k a b [] x e n = ground (arith, eq_iff x.fingerprint k)
find_import-set_counts k a b (y ∷ l) x e n =
    ground (arith, find_import-set_counts k a b l x e, eq_iff x.fingerprint k)

-- What is on record for a file that has been imported.
pub record IsRecorded (k : String) (new dup rejected : ℕ) (t : EventStore) : Type 0 where
  pub row : ImportRow
  pub found : find_import k t.tables.imports ≡ some row
  pub counts :
      (row.new_events ≡ new) × (row.duplicate_events ≡ dup) × (row.rejected_rows ≡ rejected)

-- What the import of a new file leaves.
record Imported (k : String) (p : ParsedWorkbook) (s : EventStore) (r : ImportReport)
    (t : EventStore) : Type 0 where
  report : r ≡ fresh_report k r.new_events r.duplicate_events (length p.issues)
  rows : r.new_events + r.duplicate_events ≡ length p.rows
  events : event_count t ≡ event_count s + r.new_events
  recorded : IsRecorded k r.new_events r.duplicate_events (length p.issues) t

same_count : (s t : EventStore) → s.tables.events ≡ t.tables.events → event_count s ≡ event_count t
same_count s t h = ap length h

module _ ⦃py : Runtime⦄ where
  read_clock-Ends : (s : EventStore) → Ends read_clock s (λ now t. t.tables ≡ s.tables)
  unfolding read_clock
  read_clock-Ends s = record { value = py.now s.reads; returns = refl; holds = refl }

  change_tables-Ends :
      (f : Tables → Tables) (s : EventStore)
      → Ends (change_tables f) s (λ u t. t.tables ≡ f s.tables)
  unfolding change_tables modify
  change_tables-Ends f s = record { value = tt; returns = refl; holds = refl }

  append_audit-Ends :
      (a b c : String) (d : JsonFields) (s : EventStore)
      → Ends
          (append_audit a b c d)
          s
          (λ u t. (t.tables.events ≡ s.tables.events) × (t.tables.imports ≡ s.tables.imports))
  unfolding append_audit read_clock change_tables modify ◌>>=◌
  append_audit-Ends a b c d s = record { value = tt; returns = refl; holds = (refl, refl) }

  import_new-Ends :
      (k f : String) (p : ParsedWorkbook) (s : EventStore)
      → find_import k s.tables.imports ≡ none
      → are_free k (numbers_of p) s.tables.import_rows ≡ true
      → Ends (import_new k f p) s (Imported k p s)
  unfolding import_new
  import_new-Ends k f p s new free = Ends-bind _ _ s _ _ (read_clock-Ends s) λ now s1 h1.
      Ends-bind _ _ s1 _ _ (change_tables-Ends _ s1) λ _ s2 h2.
        Ends-bind _ _ s2 _ _
          (import_rows-Ends k p.rows (issue_numbers p.issues) 0 0 s2 (rw h2 (rw h1 free)))
          λ c s3 h3. Ends-bind _ _ s3 _ _ (insert_issues-Ends k p.issues s3 h3.free) λ _ s4 h4.
            Ends-bind _ _ s4 _ _ (change_tables-Ends _ s4) λ _ s5 h5.
              Ends-bind _ _ s5 _ _ (append_audit-Ends _ _ _ _ s5) λ _ s6 h6.
                Ends-pure _ s6 _ (record {
                  report = refl;
                  rows = omega (arith, h3.all_counted);
                  events =
                      rw (h6.0, h5, h4.events)
                        (omega (arith, h3.new_counted, same_count s2 s (rw h2 (rw h1 refl))));
                  recorded = record {
                    row = record (opened_import k f now p) {
                      new_events = c.0;
                      duplicate_events = c.1;
                    };
                    found =
                        rw (h6.1, h5, h4.imports, h3.imports, h2, h1)
                          (find_import-set_counts k c.0 c.1 s.tables.imports _ refl new);
                    counts = (refl, refl, refl);
                  };
                })

  -- The import of a file that is not on record, whose row numbers differ from each other, returns: its
  -- report counts every row as new or as a duplicate and every rejected row, the events grow by the
  -- new ones, and the file is on record with these counts.
  pub import_workbook-new :
      (k f : String) (p : ParsedWorkbook) (s : EventStore)
      → find_import k s.tables.imports ≡ none
      → are_free k (numbers_of p) s.tables.import_rows ≡ true
      → (new : ℕ) × (dup : ℕ) × ((import_workbook k f p s).0
          ≡ ok (fresh_report k new dup (length p.issues)))
        × (new + dup ≡ length p.rows)
        × (event_count (import_workbook k f p s).1 ≡ event_count s + new)
        × IsRecorded k new dup (length p.issues) (import_workbook k f p s).1
  unfolding import_workbook import_body existing_import atomically gets ◌>>=◌
  import_workbook-new k f p s new free =
      let e = import_new-Ends k f p s new free in
      (
        e.value.new_events,
        e.value.duplicate_events,
        rw new (rw e.returns (ap ok e.holds.report)),
        e.holds.rows,
        rw new (rw e.returns e.holds.events),
        rw new (rw e.returns e.holds.recorded),
      )

  -- The import of a file that is on record returns the report of a repeated one.
  import_workbook-again :
      (k f : String) (p : ParsedWorkbook) (s : EventStore) (row : ImportRow)
      → find_import k s.tables.imports ≡ some row
      → ((import_workbook k f p s).0 ≡ ok (repeated_report k row))
        × ((import_workbook k f p s).1.tables.events ≡ s.tables.events)
        × ((import_workbook k f p s).1.tables.imports ≡ s.tables.imports)
  unfolding import_workbook import_body existing_import atomically gets pure append_audit read_clock
      change_tables modify ◌>>=◌
  import_workbook-again k f p s row h = (rw h refl, rw h refl, rw h refl)

  -- The import of a new file, and another import of it: where the file is not on record and its row
  -- numbers differ from each other, the second import returns, reports a repeated file with no new
  -- event, with every row of the first import as a duplicate and with as many rejected rows, and leaves
  -- the events and the imports as the first one left them.
  pub import_workbook_twice :
      (k f g : String) (p q : ParsedWorkbook) (s : EventStore)
      → find_import k s.tables.imports ≡ none
      → are_free k (numbers_of p) s.tables.import_rows ≡ true
      → ((import_workbook k g q (import_workbook k f p s).1).0
          ≡ ok (record {
            fingerprint = k;
            new_events = 0;
            duplicate_events = length p.rows;
            rejected_rows = length p.issues;
            repeated_file = true;
          }))
        × ((import_workbook k g q (import_workbook k f p s).1).1.tables.events
            ≡ (import_workbook k f p s).1.tables.events)
        × ((import_workbook k g q (import_workbook k f p s).1).1.tables.imports
            ≡ (import_workbook k f p s).1.tables.imports)
  import_workbook_twice k f g p q s new free =
      let (n, d, first, total, events, rec) = import_workbook-new k f p s new free in
      let (report, same_events, same_imports) =
        import_workbook-again k g q (import_workbook k f p s).1 rec.row rec.found in
      let (n_is, d_is, rejected) = rec.counts in
      (report ∙ rw (n_is, d_is, rejected, total) refl, same_events, same_imports)
