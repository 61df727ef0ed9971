-- ===== src/EventStore/Keeps.antt =====
-- What no call of the store of wbcz/event_store.py changes, as a relation on its tables, and the
-- rules for it.
use mathlib.Core.Option
use fbs_chz.Prelude.{String, true, false, Option, some, List, [], ◌∷◌, ◌++◌, ◌≡◌, arith}
use fbs_chz.Runtime.{Runtime, JsonFields}
use fbs_chz.Models.{DocumentReport}
use fbs_chz.Effect.{Result, ok, err, modify}
use fbs_chz.Effect.Rules.{Moves, IsPreorder, Moves-bind}
use fbs_chz.EventStore.Tables.{
  EventRow, LogRow, DocumentRow, Tables, EventStore, StoreAction, atomically, roll_back,
  change_tables, has_event, read_clock, append_audit,
}
use fbs_chz.EventStore.Documents.{find_document, is_terminal, report_of}

abbrev pub report_at : String → Tables → Option DocumentReport
report_at k t = Option.map report_of (find_document k t.documents)

-- The second list is the first with entries added at its end.
pub data Grown (l : List LogRow) : List LogRow → Type 0 where
  same : Grown l l
  add : {m : List LogRow} (x : LogRow) → Grown l m → Grown l (m ++ x ∷ [])

Grown-trans : {l m n : List LogRow} → Grown l m → Grown m n → Grown l n
Grown-trans g same = g
Grown-trans g (add x h) = add x (Grown-trans g h)

-- The second list is the first with events added at its end, each under an identifier that none of the
-- events before it has.
pub data Added (l : List EventRow) : List EventRow → Type 0 where
  no_more : Added l l
  one_more :
      {m : List EventRow} (x : EventRow)
      → Added l m
      → has_event x.event_id m ≡ false
      → Added l (m ++ x ∷ [])

Added-trans : {l m n : List EventRow} → Added l m → Added m n → Added l n
Added-trans g no_more = g
Added-trans g (one_more x h fresh) = one_more x (Added-trans g h) fresh

pub record Keeps (s t : Tables) : Type 0 where
  pub frozen :
      (k : String) (r : DocumentReport)
      → is_terminal r.status ≡ true
      → report_at k s ≡ some r
      → report_at k t ≡ some r
  pub added : Added s.events t.events
  pub logged : Grown s.audit_log t.audit_log

pub record StoreKeeps (s t : EventStore) : Type 0 where
  pub keeps : Keeps s.tables t.tables

pub Keeps-rfl : (s : Tables) → Keeps s s
Keeps-rfl s = record { frozen = λ k r e h. h; added = no_more; logged = same }

Keeps-trans : (s t u : Tables) → Keeps s t → Keeps t u → Keeps s u
Keeps-trans s t u f g = record {
  frozen = λ k r e h. g.frozen k r e (f.frozen k r e h);
  added = Added-trans f.added g.added;
  logged = Grown-trans f.logged g.logged;
}

pub keeps_order : IsPreorder StoreKeeps
keeps_order = record {
  rfl = λ s. record { keeps = Keeps-rfl s.tables };
  trans = λ s t u f g. record { keeps = Keeps-trans s.tables t.tables u.tables f.keeps g.keeps };
}

pub change_tables-Keeps :
    (f : Tables → Tables) → ((t : Tables) → Keeps t (f t)) → Moves StoreKeeps (change_tables f)
unfolding change_tables modify
change_tables-Keeps f h = record { at = λ s. record { keeps = h s.tables } }

roll_back-Keeps :
    {A : Type 0} (s : EventStore) (r : Result _ A × EventStore)
    → StoreKeeps s r.1
    → StoreKeeps s (roll_back s.tables r).1
roll_back-Keeps s (ok a, t) h = h
roll_back-Keeps s (err e, t) h = record { keeps = Keeps-rfl s.tables }

pub atomically-Keeps :
    {A : Type 0} (m : StoreAction A) → Moves StoreKeeps m → Moves StoreKeeps (atomically m)
unfolding atomically
atomically-Keeps m h = record { at = λ s. roll_back-Keeps s (m s) (h.at s) }

module _ ⦃py : Runtime⦄ where
  pub read_clock-Keeps : Moves StoreKeeps read_clock
  unfolding read_clock
  read_clock-Keeps = record { at = λ s. record { keeps = Keeps-rfl s.tables } }

  pub append_audit-Keeps :
      (a b c : String) (d : JsonFields) → Moves StoreKeeps (append_audit a b c d)
  unfolding append_audit
  append_audit-Keeps a b c d = Moves-bind keeps_order _ _ read_clock-Keeps λ now.
      change_tables-Keeps _
        λ t. record { frozen = λ k r e h. h; added = no_more; logged = add _ same }

-- A row at the end of the table hides none that is there.
pub find_document-append :
    (k : String) (l : List DocumentRow) (x r : DocumentRow)
    → find_document k l ≡ some r
    → find_document k (l ++ x ∷ []) ≡ some r
unfolding find_document
find_document-append k [] x r h = absurd (ground arith)
find_document-append k (y ∷ l) x r h = ground (arith, find_document-append k l x r)
