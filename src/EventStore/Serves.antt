-- ===== src/EventStore/Serves.antt =====
-- Every call of the store of wbcz/event_store.py keeps its history.
use fbs_chz.Prelude.{ℕ, String, Option, none, some, List, [], ◌∷◌, ◌≡◌, refl, inl, inr, Bool-cases}
use fbs_chz.Runtime.{Runtime}
use fbs_chz.Models.{Event, ParsedRow, RowIssue, ParsedWorkbook, ImportReport, KiState, Outcome}
use fbs_chz.Effect.{gets, modify, pure, ◌>>=◌}
use fbs_chz.Effect.Rules.{
  Moves, Moves-pure, Moves-raise, Moves-gets, Moves-require, Moves-if, Moves-bind,
}
use fbs_chz.EventStore.Tables.{SourceRow, Tables, change_tables, has_event, read_clock, event_id_of}
use fbs_chz.EventStore.Import.{
  insert_event, new_event, insert_source, import_row, import_rows, insert_issue, insert_issues,
  import_new, import_found, import_body, existing_import, import_workbook,
}
use fbs_chz.EventStore.Checks.{check_body, save_check}
use fbs_chz.EventStore.Keeps.{
  same, StoreKeeps, Keeps-rfl, keeps_order, change_tables-Keeps, atomically-Keeps, read_clock-Keeps,
  append_audit-Keeps, no_more, one_more,
}

-- A change of the tables that leaves events, documents and log alone.
pub keeps_aside :
    (f : Tables → Tables)
    → ((t : Tables)
        → ((f t).events ≡ t.events)
          × ((f t).documents ≡ t.documents)
          × ((f t).audit_log ≡ t.audit_log))
    → Moves StoreKeeps (change_tables f)
keeps_aside f h = change_tables-Keeps f λ t.
    let (e, d, l) = h t in
    record { frozen = λ k r x g. rw d g; added = rw e no_more; logged = rw l same }

ruleset keeps_rules = (
  keeps_order, Moves-pure, Moves-raise, Moves-gets, Moves-require, Moves-if, Moves-bind,
  atomically-Keeps, read_clock-Keeps, append_audit-Keeps,
)

module _ ⦃py : Runtime⦄ where
  insert_event-Keeps : (e : Event) → Moves StoreKeeps (insert_event e)
  unfolding insert_event read_clock change_tables modify gets pure ◌>>=◌
  insert_event-Keeps e = record {
    at = λ s. elim (Bool-cases (has_event (event_id_of e) s.tables.events)) [
      | inl known ↦ rw known (record { keeps = Keeps-rfl s.tables })
      | inr new ↦ rw new (record {
        keeps = record { frozen = λ k r x h. h; added = one_more _ no_more new; logged = same };
      })
    ];
  }

  insert_source-Keeps : (r : SourceRow) → Moves StoreKeeps (insert_source r)
  unfolding insert_source
  insert_source-Keeps r = Moves-bind keeps_order _ _ (Moves-gets keeps_order _) λ b.
      Moves-bind keeps_order _ _ (Moves-require keeps_order _ _)
        λ _. keeps_aside _ λ t. (refl, refl, refl)

  new_event-Keeps : (k : String) (item : ParsedRow) → Moves StoreKeeps (new_event k item)
  unfolding new_event
  new_event-Keeps k item =
      Moves-bind keeps_order _ _ (keeps_aside _ λ t. (refl, refl, refl))
        λ _. append_audit-Keeps _ _ _ _

  import_row-Keeps : (k : String) (item : ParsedRow) → Moves StoreKeeps (import_row k item)
  unfolding import_row
  import_row-Keeps k item = Moves-bind keeps_order _ _ (insert_event-Keeps item.event) λ b.
      Moves-bind keeps_order _ _
        (Moves-if b _ _ (new_event-Keeps k item) (Moves-pure keeps_order tt))
        λ _. Moves-bind keeps_order _ _ (insert_source-Keeps _) λ _. Moves-pure keeps_order b

  import_rows-Keeps :
      (k : String) (l : List ParsedRow) (i d : ℕ) → Moves StoreKeeps (import_rows k l i d)
  unfolding import_rows
  import_rows-Keeps k [] i d = Moves-pure keeps_order (i, d)
  import_rows-Keeps k (item ∷ l) i d =
      Moves-bind keeps_order _ _ (import_row-Keeps k item) λ b. import_rows-Keeps k l _ _

  insert_issue-Keeps : (k : String) (x : RowIssue) → Moves StoreKeeps (insert_issue k x)
  unfolding insert_issue
  insert_issue-Keeps k x =
      Moves-bind keeps_order _ _ (insert_source-Keeps _) λ _. append_audit-Keeps _ _ _ _

  insert_issues-Keeps : (k : String) (l : List RowIssue) → Moves StoreKeeps (insert_issues k l)
  unfolding insert_issues
  insert_issues-Keeps k [] = Moves-pure keeps_order tt
  insert_issues-Keeps k (x ∷ l) =
      Moves-bind keeps_order _ _ (insert_issue-Keeps k x) λ _. insert_issues-Keeps k l

  import_new-Keeps : (k f : String) (p : ParsedWorkbook) → Moves StoreKeeps (import_new k f p)
  unfolding import_new
  import_new-Keeps k f p = Moves-bind keeps_order _ _ read_clock-Keeps λ now.
      Moves-bind keeps_order _ _ (keeps_aside _ λ t. (refl, refl, refl)) λ _.
        Moves-bind keeps_order _ _ (import_rows-Keeps k p.rows 0 0) λ c.
          Moves-bind keeps_order _ _ (insert_issues-Keeps k p.issues) λ _.
            Moves-bind keeps_order _ _ (keeps_aside _ λ t. (refl, refl, refl)) λ _.
              Moves-bind keeps_order _ _ (append_audit-Keeps _ _ _ _) λ _. Moves-pure keeps_order _

  import_found-Keeps :
      (k f : String) (p : ParsedWorkbook) (o : Option ImportReport)
      → Moves StoreKeeps (import_found k f p o)
  import_found-Keeps k f p none = import_new-Keeps k f p
  import_found-Keeps k f p (some r) =
      Moves-bind keeps_order _ _ (append_audit-Keeps _ _ _ _) λ _. Moves-pure keeps_order r

  pub import_workbook-Keeps :
      (k f : String) (p : ParsedWorkbook) → Moves StoreKeeps (import_workbook k f p)
  unfolding import_workbook import_body existing_import
  import_workbook-Keeps k f p =
      atomically-Keeps _
        (Moves-bind keeps_order _ _ (Moves-gets keeps_order _) λ o. import_found-Keeps k f p o)

  pub save_check-Keeps :
      (k : String) (x : Option KiState) (o : Outcome) (source : String)
      → Moves StoreKeeps (save_check k x o source)
  unfolding save_check check_body
  save_check-Keeps k x o source = atomically-Keeps _ (
      Moves-bind keeps_order _ _ read_clock-Keeps λ now.
        Moves-bind keeps_order _ _ (Moves-gets keeps_order _) λ b.
          Moves-bind keeps_order _ _ (Moves-require keeps_order _ _) λ _.
            Moves-bind keeps_order _ _ (Moves-gets keeps_order _) λ n.
              Moves-bind keeps_order _ _ (keeps_aside _ λ t. (refl, refl, refl)) λ _.
                Moves-bind keeps_order _ _ (append_audit-Keeps _ _ _ _)
                  λ _. Moves-pure keeps_order _)
