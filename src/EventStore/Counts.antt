-- ===== src/EventStore/Counts.antt =====
-- An import returns, and its report counts what it did (wbcz/event_store.py).
use fbs_chz.Prelude.{
  ℕ, ◌+◌, String, Bool, true, false, List, [], ◌∷◌, ◌++◌, ◌≡◌, ◌∙◌, refl, inl, inr, arith, length,
  length-append, any, nat_eq, ◌==◌, not, ◌&&◌, ◌||◌, Bool-cases, if◌then◌else◌,
}
use fbs_chz.Runtime.{Runtime}
use fbs_chz.Models.{ParsedRow, RowIssue, ParsedWorkbook}
use fbs_chz.Effect.{gets, modify, require, pure, ◌>>=◌}
use fbs_chz.Effect.Ends.{Ends, Ends-bind, Ends-pure}
use fbs_chz.EventStore.Tables.{
  SourceRow, EventStore, change_tables, has_event, read_clock, append_audit, event_id_of,
}
use fbs_chz.EventStore.Import.{
  row_taken, insert_event, new_event, insert_source, import_row, import_rows, insert_issue,
  insert_issues,
}

-- How many events the tables hold.
abbrev pub event_count : EventStore → ℕ
event_count s = length s.tables.events

-- The row numbers of a workbook differ from each other and from those on record for the file.
abbrev pub are_free : String → List ℕ → List SourceRow → Bool
are_free k [] l = true
are_free k (n ∷ ns) l = not (row_taken k n l) && not (any (λ m. nat_eq n m) ns) && are_free k ns l

abbrev pub row_numbers : List ParsedRow → List ℕ → List ℕ
row_numbers [] ns = ns
row_numbers (x ∷ l) ns = x.row_number ∷ row_numbers l ns

abbrev pub issue_numbers : List RowIssue → List ℕ
issue_numbers [] = []
issue_numbers (x ∷ l) = x.row_number ∷ issue_numbers l

abbrev pub numbers_of : ParsedWorkbook → List ℕ
numbers_of p = row_numbers p.rows (issue_numbers p.issues)

row_taken-append :
    (k : String) (n : ℕ) (l : List SourceRow) (r : SourceRow)
    → row_taken k n (l ++ r ∷ [])
      ≡ (row_taken k n l || (r.fingerprint == k && nat_eq r.row_number n))
row_taken-append k n [] r = ground arith
row_taken-append k n (x ∷ l) r = ground (arith, row_taken-append k n l r)

are_free-append :
    (k : String) (ns : List ℕ) (l : List SourceRow) (r : SourceRow)
    → any (λ m. nat_eq r.row_number m) ns ≡ false
    → are_free k ns l ≡ true
    → are_free k ns (l ++ r ∷ []) ≡ true
are_free-append k [] l r n h = refl
are_free-append k (m ∷ ns) l r n h =
    ground (arith, row_taken-append k m l r, are_free-append k ns l r)

-- What one turn of the loop over the rows does, where `b` says whether the event was new.
record Turned (k : String) (n : ℕ) (s : EventStore) (b : Bool) (t : EventStore) : Type 0 where
  source : SourceRow
  numbered : source.row_number ≡ n
  sources : t.tables.import_rows ≡ s.tables.import_rows ++ source ∷ []
  counted : event_count t ≡ event_count s + (if b then 1 else 0)
  imports : t.tables.imports ≡ s.tables.imports

-- What the rest of the loop does, from counters `i` and `d`, for `n` rows.
pub record Looped (k : String) (n i d : ℕ) (ns : List ℕ) (s : EventStore) (c : ℕ × ℕ)
    (t : EventStore) : Type 0 where
  pub free : are_free k ns t.tables.import_rows ≡ true
  pub all_counted : c.0 + c.1 ≡ i + d + n
  pub new_counted : event_count t + i ≡ event_count s + c.0
  pub imports : t.tables.imports ≡ s.tables.imports

-- What the loop over the rejected rows does.
pub record Rejected (s : EventStore) (u : Unit {0}) (t : EventStore) : Type 0 where
  pub events : t.tables.events ≡ s.tables.events
  pub imports : t.tables.imports ≡ s.tables.imports

-- What one rejected row does.
record Noted (n : ℕ) (s : EventStore) (u : Unit {0}) (t : EventStore) : Type 0 where
  source : SourceRow
  numbered : source.row_number ≡ n
  sources : t.tables.import_rows ≡ s.tables.import_rows ++ source ∷ []
  events : t.tables.events ≡ s.tables.events
  imports : t.tables.imports ≡ s.tables.imports

module _ ⦃py : Runtime⦄ where
  import_row-Ends :
      (k : String) (x : ParsedRow) (s : EventStore)
      → row_taken k x.row_number s.tables.import_rows ≡ false
      → Ends (import_row k x) s (Turned k x.row_number s)
  unfolding import_row insert_event new_event insert_source read_clock append_audit change_tables
      modify require gets pure ◌>>=◌
  import_row-Ends k x s free = elim (Bool-cases (has_event (event_id_of x.event) s.tables.events)) [
    | inl known ↦ record {
      value = false;
      returns = rw known (rw free refl);
      holds = rw known (
          rw free (record {
            source = _;
            numbered = refl;
            sources = refl;
            counted = omega arith;
            imports = refl;
          }));
    }
    | inr new ↦ record {
      value = true;
      returns = rw new (rw free refl);
      holds = rw new (
          rw free (record {
            source = _;
            numbered = refl;
            sources = refl;
            counted = omega (arith, length-append s.tables.events);
            imports = refl;
          }));
    }
  ]

  pub import_rows-Ends :
      (k : String) (l : List ParsedRow) (ns : List ℕ) (i d : ℕ) (s : EventStore)
      → are_free k (row_numbers l ns) s.tables.import_rows ≡ true
      → Ends (import_rows k l i d) s (Looped k (length l) i d ns s)
  unfolding import_rows
  import_rows-Ends k [] ns i d s free =
      Ends-pure (i, d) s _
        (record {
          free = free;
          all_counted = omega arith;
          new_counted = omega arith;
          imports = refl;
        })
  import_rows-Ends k (x ∷ l) ns i d s free =
      Ends-bind _ _ s _ _ (import_row-Ends k x s (ground arith)) λ b t h. looped b t h (
        import_rows-Ends k l ns _ _ t (
          rw h.sources (
            are_free-append k (row_numbers l ns) s.tables.import_rows h.source
              (rw h.numbered (ground arith)) (ground arith))))
    where
      looped :
          (b : Bool) (t : EventStore)
          → Turned k x.row_number s b t
          → Ends
              (import_rows k l (if b then i + 1 else i) (if b then d else d + 1))
              t
              (Looped k (length l) (if b then i + 1 else i) (if b then d else d + 1) ns t)
          → Ends
              (import_rows k l (if b then i + 1 else i) (if b then d else d + 1))
              t
              (Looped k (length (x ∷ l)) i d ns s)
      looped b t h e = record {
        value = e.value;
        returns = e.returns;
        holds = record {
          free = e.holds.free;
          all_counted = ground (arith, e.holds.all_counted);
          new_counted = ground (arith, e.holds.new_counted, h.counted);
          imports = e.holds.imports ∙ h.imports;
        };
      }

  insert_issue-Ends :
      (k : String) (x : RowIssue) (s : EventStore)
      → row_taken k x.row_number s.tables.import_rows ≡ false
      → Ends (insert_issue k x) s (Noted x.row_number s)
  unfolding insert_issue insert_source read_clock append_audit change_tables modify require gets
      ◌>>=◌
  insert_issue-Ends k x s free = record {
    value = tt;
    returns = rw free refl;
    holds =
        rw free
          (record { source = _; numbered = refl; sources = refl; events = refl; imports = refl });
  }

  pub insert_issues-Ends :
      (k : String) (l : List RowIssue) (s : EventStore)
      → are_free k (issue_numbers l) s.tables.import_rows ≡ true
      → Ends (insert_issues k l) s (Rejected s)
  unfolding insert_issues
  insert_issues-Ends k [] s free = Ends-pure tt s _ (record { events = refl; imports = refl })
  insert_issues-Ends k (x ∷ l) s free =
      Ends-bind _ _ s _ _ (insert_issue-Ends k x s (ground arith)) λ u t h.
        let e = insert_issues-Ends k l t (
          rw h.sources (
            are_free-append k (issue_numbers l) s.tables.import_rows h.source
              (rw h.numbered (ground arith)) (ground arith))) in
        record {
          value = e.value;
          returns = e.returns;
          holds = record {
            events = e.holds.events ∙ h.events;
            imports = e.holds.imports ∙ h.imports;
          };
        }
