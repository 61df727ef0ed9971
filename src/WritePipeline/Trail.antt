-- ===== src/WritePipeline/Trail.antt =====
-- The audit of wbcz/write_pipeline.py tells the state of every operation.
use mathlib.Core.Option
use fbs_chz.Prelude.{
  String, false, Option, none, some, List, [], ◌∷◌, ◌++◌, ◌≡◌, ◌∙◌, refl, inl, inr, arith, eq_iff,
  ◌==◌, eq_of_==, Bool-cases, if◌then◌else◌,
}
use fbs_chz.WritePipeline.Types.{WriteState, prepared}
use fbs_chz.WritePipeline.Schema.{Row, AuditEntry, Db, find, is_taken}
use fbs_chz.WritePipeline.Steps.{Step, Steps}
use fbs_chz.WritePipeline.Ranks.{find-update_self, find-update_ne}

-- The last state that the audit names for an operation.
abbrev pub last_state : String → List AuditEntry → Option WriteState
last_state k [] = none
last_state k (e ∷ l) = elim (last_state k l) [
  | some s ↦ some s
  | none ↦ if e.operation_id == k then e.to_state else none
]

abbrev pub state_at : String → Db → Option WriteState
state_at k d = Option.map (λ (r : Row). r.state) (find k d.operations)

-- The audit and the rows agree on every operation.
pub record IsTold (d : Db) : Type 0 where
  pub told : (k : String) → last_state k d.audit ≡ state_at k d

last_state-append_note :
    (k : String) (l : List AuditEntry) (e : AuditEntry)
    → e.to_state ≡ none
    → last_state k (l ++ e ∷ []) ≡ last_state k l
last_state-append_note k [] e h = ground arith
last_state-append_note k (x ∷ l) e h = ground (arith, last_state-append_note k l e h)

last_state-append :
    (k : String) (l : List AuditEntry) (e : AuditEntry) (s : WriteState)
    → e.to_state ≡ some s
    → last_state k (l ++ e ∷ []) ≡ (if e.operation_id == k then some s else last_state k l)
last_state-append k [] e s h = ground arith
last_state-append k (x ∷ l) e s h = ground (arith, last_state-append k l e s h)

pub find-append :
    (k : String) (l : List Row) (r : Row)
    → is_taken r l ≡ false
    → find k (l ++ r ∷ []) ≡ (if r.operation_id == k then some r else find k l)
unfolding find
find-append k [] r h = refl
find-append k (x ∷ l) r h = ground (
  arith,
  find-append k l r,
  eq_iff x.operation_id k,
  eq_iff r.operation_id k,
  eq_iff x.operation_id r.operation_id,
)

Step-IsTold : {c d : Db} → Step c d → IsTold c → IsTold d
Step-IsTold {c} (Step.note e n t q) h = record {
  told = λ k. rw q (last_state-append_note k c.audit e t ∙ h.told k);
}
Step-IsTold {c} (Step.open_operation r e n m o f t q) h = record {
  told = λ k. rw q (
      rw (last_state-append k c.audit e prepared t, find-append k c.operations r n.free, o)
        (ground (arith, h.told k, n.starts)));
}
Step-IsTold {c} (Step.change r f e s i g n o x t q) h = record {
  told = λ k. rw q (
      rw (last_state-append k c.audit e (f r).state t, o)
        (elim (Bool-cases (r.operation_id == k)) [
          | inl y ↦
              rw
                (
                  y,
                  ← eq_of_== r.operation_id k y,
                  find-update_self r.operation_id f c.operations i,
                  s,
                )
                refl
          | inr y ↦ rw (y, find-update_ne r.operation_id k f c.operations i y) (h.told k)
        ]));
}

-- If the audit and the rows agree on the state of every operation, they agree after any steps.
pub Steps-IsTold : {c d : Db} → Steps c d → IsTold c → IsTold d
Steps-IsTold Steps.here h = h
Steps-IsTold (Steps.next s t) h = Step-IsTold t (Steps-IsTold s h)
