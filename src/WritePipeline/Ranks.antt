-- ===== src/WritePipeline/Ranks.antt =====
-- How far an operation of wbcz/write_pipeline.py has come, and that its row never goes back.
use mathlib.Core.Option
use fbs_chz.Prelude.{
  ℕ, ◌≤◌, ◌<◌, String, false, Option, none, some, List, [], ◌∷◌, ◌++◌, ◌≡◌, refl, inl, inr, arith,
  eq_iff, ◌==◌, eq_of_==, Bool-cases,
}
use fbs_chz.WritePipeline.Types.{WriteState}
use fbs_chz.WritePipeline.Schema.{Row, Db, World, find, update}
use fbs_chz.WritePipeline.Steps.{Edge, Step, Steps}

-- Every accepted change of state goes up.
abbrev pub rank : WriteState → ℕ
rank WriteState.prepared = 1
rank WriteState.awaiting_signature = 2
rank WriteState.signed = 3
rank WriteState.submitting = 4
rank WriteState.submitted = 5
rank WriteState.processing = 6
rank WriteState.reconciliation_required = 7
rank WriteState.succeeded = 8
rank WriteState.failed = 8
rank WriteState.manual_review = 8
rank WriteState.error = 8

abbrev pub row_rank : Option Row → ℕ
row_rank none = 0
row_rank (some r) = rank r.state

abbrev pub rank_at : String → World → ℕ
rank_at k w = row_rank (find k w.db.operations)

-- A change of a row that keeps its key.
abbrev pub KeepsKey : (Row → Row) → Type 0
KeepsKey f = (r : Row) → (f r).operation_id ≡ r.operation_id

pub find-update_self :
    (k : String) (f : Row → Row) (l : List Row)
    → KeepsKey f
    → find k (update k f l) ≡ Option.map f (find k l)
unfolding find update
find-update_self k f [] h = refl
find-update_self k f (r ∷ l) h = elim (Bool-cases (r.operation_id == k)) [
  | inl e ↦ rw e (rw (h r) (rw e refl))
  | inr e ↦ rw e (rw e (find-update_self k f l h))
]

pub find-update_ne :
    (k j : String) (f : Row → Row) (l : List Row)
    → KeepsKey f
    → (k == j) ≡ false
    → find j (update k f l) ≡ find j l
unfolding find update
find-update_ne k j f [] h n = refl
find-update_ne k j f (r ∷ l) h n = ground (
  arith,
  h r,
  find-update_ne k j f l h n,
  eq_iff r.operation_id k,
  eq_iff r.operation_id j,
  eq_iff (f r).operation_id j,
  eq_iff k j,
)

-- A change that moves the row that is found under `k` up moves no row back.
pub rank-update :
    (k j : String) (f : Row → Row) (l : List Row) (r : Row)
    → KeepsKey f
    → find k l ≡ some r
    → rank r.state ≤ rank (f r).state
    → row_rank (find j l) ≤ row_rank (find j (update k f l))
rank-update k j f l r h s up = elim (Bool-cases (k == j)) [
  | inl e ↦ rw (← eq_of_== k j e) (rw (find-update_self k f l h) (rw s up))
  | inr e ↦ rw (find-update_ne k j f l h e) (omega arith)
]

-- A row at the end of the table moves no row that is found back.
find-append :
    (j : String) (l : List Row) (r : Row) → row_rank (find j l) ≤ row_rank (find j (l ++ r ∷ []))
unfolding find
find-append j [] r = omega arith
find-append j (x ∷ l) r = ground (arith, find-append j l r)

pub Edge-rank : {a b : Row} → Edge a b → rank a.state < rank b.state
Edge-rank (Edge.sign response signature now p d e) = ground arith
Edge-rank (Edge.finish result now p d e) = ground arith
Edge-rank (Edge.move target now p e) = ground arith

Step-rank :
    {c d : Db}
    → Step c d
    → (k : String) → row_rank (find k c.operations) ≤ row_rank (find k d.operations)
Step-rank (Step.note e n t q) k = rw q (omega arith)
Step-rank {c} (Step.open_operation r e n m o f t q) k = rw q (find-append k c.operations r)
Step-rank {c} (Step.change r f e s i g n o h t q) k =
    rw q (rank-update r.operation_id k f c.operations r i s (omega (arith, Edge-rank g)))

-- No operation ever goes back: whatever steps the tables take, the rank of its state never falls.
pub Steps-rank :
    {c d : Db}
    → Steps c d
    → (k : String) → row_rank (find k c.operations) ≤ row_rank (find k d.operations)
Steps-rank Steps.here k = omega arith
Steps-rank (Steps.next s t) k = omega (arith, Steps-rank s k, Step-rank t k)
