-- ===== src/EventStore/Frozen.antt =====
-- The history that the store of wbcz/event_store.py keeps under every sequence of calls: the last
-- status of a document, the events, and the log.
use fbs_chz.Prelude.{
  String, true, false, Option, none, some, List, [], ◌∷◌, ◌++◌, ◌≡◌, refl, inl, inr, arith, ◌==◌,
  eq_iff, eq_of_==, Bool-cases, Option-cases,
}
use fbs_chz.Runtime.{Runtime}
use fbs_chz.Models.{DocumentReport}
use fbs_chz.Effect.{gets, modify, pure, raise, ◌>>=◌}
use fbs_chz.Effect.Rules.{Moves, Moves-pure, Moves-gets, Moves-require, Moves-bind}
use fbs_chz.EventStore.Tables.{DocumentRow, Tables, EventStore, change_tables, read_clock}
use fbs_chz.EventStore.Documents.{
  find_document, set_status, is_terminal, report_of, document_report, add_history, register_new,
  register_found, register_body, register_document, note_status, store_status, repeat_status,
  update_body, update_document,
}
use fbs_chz.EventStore.Calls.{
  Call, import_call, check_call, register_call, update_call, audit_call, audit, answer, serve,
}
use fbs_chz.EventStore.Keeps.{
  report_at, Added, no_more, Grown, same, Keeps, StoreKeeps, Keeps-rfl, keeps_order,
  change_tables-Keeps, atomically-Keeps, read_clock-Keeps, append_audit-Keeps, find_document-append,
}
use fbs_chz.EventStore.Serves.{keeps_aside, import_workbook-Keeps, save_check-Keeps}

find_document-set_status :
    (k j : String) (report : DocumentReport) (now : String) (l : List DocumentRow)
    → (k == j) ≡ false
    → find_document j (set_status k report now l) ≡ find_document j l
unfolding find_document set_status
find_document-set_status k j report now [] n = refl
find_document-set_status k j report now (r ∷ l) n = ground (
  arith,
  find_document-set_status k j report now l n,
  eq_iff r.document_id k,
  eq_iff r.document_id j,
  eq_iff k j,
)

set_status-Keeps :
    (k : String) (report : DocumentReport) (now : String) (t : Tables) (r : DocumentRow)
    → find_document k t.documents ≡ some r
    → is_terminal r.status ≡ false
    → Keeps t (record t { documents = set_status k report now t.documents })
set_status-Keeps k report now t r found active = record {
  frozen = λ j x e h. elim (Bool-cases (k == j)) [
    | inl y ↦ absurd (ground (arith, eq_of_== k j y))
    | inr y ↦ rw (find_document-set_status k j report now t.documents y) h
  ];
  added = no_more;
  logged = same;
}

append_document-Keeps :
    (x : DocumentRow) (t : Tables) → Keeps t (record t { documents = t.documents ++ x ∷ [] })
append_document-Keeps x t = record {
  frozen = λ k r e h. elim (Option-cases (find_document k t.documents)) [
    | inl n ↦ absurd (ground arith)
    | inr (y, n) ↦ rw (find_document-append k t.documents x y n) (rw n at h)
  ];
  added = no_more;
  logged = same;
}

module _ ⦃py : Runtime⦄ where
  add_history-Keeps :
      (k : String) (r : DocumentReport) (now : String) → Moves StoreKeeps (add_history k r now)
  unfolding add_history
  add_history-Keeps k r now = keeps_aside _ λ t. (refl, refl, refl)

  register_new-Keeps : (e k now : String) → Moves StoreKeeps (register_new e k now)
  unfolding register_new
  register_new-Keeps e k now = Moves-bind keeps_order _ _ (Moves-gets keeps_order _) λ b.
      Moves-bind keeps_order _ _ (Moves-require keeps_order _ _) λ _.
        Moves-bind keeps_order _ _ (change_tables-Keeps _ (append_document-Keeps _))
          λ _. Moves-bind keeps_order _ _ (add_history-Keeps _ _ _) λ _. append_audit-Keeps _ _ _ _

  register_found-Keeps :
      (e k now : String) (o : Option DocumentRow) → Moves StoreKeeps (register_found e k now o)
  register_found-Keeps e k now none = register_new-Keeps e k now
  register_found-Keeps e k now (some r) = Moves-require keeps_order _ _

  register_document-Keeps : (e k : String) → Moves StoreKeeps (register_document e k)
  unfolding register_document register_body
  register_document-Keeps e k = Moves-bind keeps_order _ _ (Moves-require keeps_order _ _) λ _.
      atomically-Keeps _ (
        Moves-bind keeps_order _ _ read_clock-Keeps λ now.
          Moves-bind keeps_order _ _ (Moves-gets keeps_order _) λ o. register_found-Keeps e k now o)

  note_status-Keeps :
      (k : String) (r : DocumentReport) (now : String) → Moves StoreKeeps (note_status k r now)
  unfolding note_status
  note_status-Keeps k r now =
      Moves-bind keeps_order _ _ (add_history-Keeps k r now) λ _. append_audit-Keeps _ _ _ _

  store_status-Keeps :
      (k : String) (report : DocumentReport) (s : EventStore) (r : DocumentRow)
      → find_document k s.tables.documents ≡ some r
      → is_terminal r.status ≡ false
      → StoreKeeps s (store_status k report s).1
  unfolding store_status read_clock change_tables modify ◌>>=◌
  store_status-Keeps k report s r found active =
      keeps_order.trans s _ _
        (record { keeps = set_status-Keeps k report (py.now s.reads) s.tables r found active })
        ((Moves-bind keeps_order _ _ (note_status-Keeps k report (py.now s.reads))
            λ _. Moves-pure keeps_order report).at
          _)

  repeat_status-Keeps : (r c : DocumentReport) → Moves StoreKeeps (repeat_status r c)
  unfolding repeat_status
  repeat_status-Keeps r c =
      Moves-bind keeps_order _ _ (Moves-require keeps_order _ _) λ _. Moves-pure keeps_order c

  update_body-Keeps :
      (k : String) (report : DocumentReport) → Moves StoreKeeps (update_body k report)
  unfolding update_body document_report gets pure raise ◌>>=◌
  update_body-Keeps k report = record {
    at = λ s. elim (Option-cases (find_document k s.tables.documents)) [
      | inl n ↦ rw n (record { keeps = Keeps-rfl s.tables })
      | inr (r, n) ↦ rw n (elim (Bool-cases (is_terminal r.status)) [
        | inl e ↦ rw e ((repeat_status-Keeps report (report_of r)).at s)
        | inr e ↦ rw e (store_status-Keeps k report s r n e)
      ])
    ];
  }

  update_document-Keeps :
      (k : String) (report : DocumentReport) → Moves StoreKeeps (update_document k report)
  unfolding update_document
  update_document-Keeps k report = atomically-Keeps _ (update_body-Keeps k report)

  answer-Keeps : (c : Call) → Moves StoreKeeps (answer c)
  unfolding answer audit
  answer-Keeps (import_call k f p) =
      Moves-bind keeps_order _ _ (import_workbook-Keeps k f p) λ _. Moves-pure keeps_order tt
  answer-Keeps (check_call k x o source) =
      Moves-bind keeps_order _ _ (save_check-Keeps k x o source) λ _. Moves-pure keeps_order tt
  answer-Keeps (register_call e k) = register_document-Keeps e k
  answer-Keeps (update_call k r) =
      Moves-bind keeps_order _ _ (update_document-Keeps k r) λ _. Moves-pure keeps_order tt
  answer-Keeps (audit_call a b c d) = atomically-Keeps _ (append_audit-Keeps a b c d)

  serve-Keeps : (cs : List Call) (s : EventStore) → Keeps s.tables (serve s cs).tables
  unfolding serve
  serve-Keeps [] s = Keeps-rfl s.tables
  serve-Keeps (c ∷ cs) s =
      (keeps_order.trans s (answer c s).1 (serve (answer c s).1 cs) ((answer-Keeps c).at s)
        (record { keeps = serve-Keeps cs (answer c s).1 })).keeps

  -- The last status of a document is frozen: once its report is SUCCEEDED or REJECTED, no sequence of
  -- imports, checks, registrations, updates and audit entries changes the report.
  pub serve-frozen :
      (cs : List Call) (s : EventStore) (k : String) (r : DocumentReport)
      → is_terminal r.status ≡ true
      → report_at k s.tables ≡ some r
      → report_at k (serve s cs).tables ≡ some r
  serve-frozen cs s k r e h = (serve-Keeps cs s).frozen k r e h

  -- The events are only added to: after any sequence of calls the table has the events of before,
  -- unchanged and in their order, with events added at its end, each under an identifier that none of
  -- the events before it has.
  pub serve-events :
      (cs : List Call) (s : EventStore) → Added s.tables.events (serve s cs).tables.events
  serve-events cs s = (serve-Keeps cs s).added

  -- The log is append-only: after any sequence of calls it is the log of before with entries added
  -- at its end.
  pub serve-log :
      (cs : List Call) (s : EventStore) → Grown s.tables.audit_log (serve s cs).tables.audit_log
  serve-log cs s = (serve-Keeps cs s).logged
