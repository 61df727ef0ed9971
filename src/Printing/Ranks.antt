-- ===== src/Printing/Ranks.antt =====
-- How far an execution of wbcz/physical_printing.py has come in the replay store, and that its row
-- neither goes back nor changes what it is bound to.
use mathlib.Core.Option
use fbs_chz.Prelude.{
  ℕ, ◌≤◌, String, false, Option, none, some, List, [], ◌∷◌, ◌≡◌, refl, inl, inr, arith, ◌==◌,
  eq_of_==, Bool-cases, ==-eq_self,
}
use fbs_chz.Effect.Rules.{IsPreorder}
use fbs_chz.Printing.Replay.{
  ReplayState, rendered_verified, spooler_accepted, blocked, Identity, ReplayRow, PrintWorld,
  find_replay, upsert, coalesce,
}

-- 0 before the boundary, 1 behind it, 2 once the spooler has accepted the label.
abbrev pub rank : ReplayState → ℕ
rank rendered_verified = 0
rank blocked = 0
rank spooler_accepted = 2
rank _ = 1

abbrev pub row_rank : Option ReplayRow → ℕ
row_rank none = 0
row_rank (some r) = rank r.state

abbrev pub replay_rank : String → PrintWorld → ℕ
replay_rank k w = row_rank (find_replay k w.rows)

-- What the row of an execution is bound to, and since when.
abbrev pub binding : ReplayRow → Identity × String
binding r = (r.identity, r.first_seen_at)

abbrev pub binding_at : String → PrintWorld → Option (Identity × String)
binding_at k w = Option.map binding (find_replay k w.rows)

abbrev pub state_at : String → PrintWorld → Option ReplayState
state_at k w = Option.map (λ r. r.state) (find_replay k w.rows)

pub find-upsert_ne :
    (j : String) (n : ReplayRow) (l : List ReplayRow)
    → (n.execution_id == j) ≡ false
    → find_replay j (upsert n l) ≡ find_replay j l
unfolding find_replay upsert
find-upsert_ne j n [] h = rw h refl
find-upsert_ne j n (r ∷ l) h = elim (Bool-cases (r.execution_id == n.execution_id)) [
  | inl e ↦ rw e (rw (eq_of_== r.execution_id n.execution_id e, h) refl)
  | inr e ↦ rw e (elim (Bool-cases (r.execution_id == j)) [
    | inl f ↦ rw f refl
    | inr f ↦ rw f (find-upsert_ne j n l h)
  ])
]

-- The state that is found after the write is the written one.
pub find-upsert-state :
    (n : ReplayRow) (l : List ReplayRow)
    → Option.map (λ r. r.state) (find_replay n.execution_id (upsert n l)) ≡ some n.state
unfolding find_replay upsert
find-upsert-state n [] = rw (==-eq_self n.execution_id) refl
find-upsert-state n (r ∷ l) = elim (Bool-cases (r.execution_id == n.execution_id)) [
  | inl e ↦ rw e (rw e refl)
  | inr e ↦ rw e (rw e (find-upsert-state n l))
]

-- The binding that is found after the write is the one before it, where there was one.
find-upsert-binding :
    (n : ReplayRow) (l : List ReplayRow)
    → Option.map binding (find_replay n.execution_id (upsert n l))
      ≡ coalesce (Option.map binding (find_replay n.execution_id l)) (some (binding n))
unfolding find_replay upsert
find-upsert-binding n [] = rw (==-eq_self n.execution_id) refl
find-upsert-binding n (r ∷ l) = elim (Bool-cases (r.execution_id == n.execution_id)) [
  | inl e ↦ rw e (rw e refl)
  | inr e ↦ rw e (rw e (find-upsert-binding n l))
]

pub row_rank-map :
    (o : Option ReplayRow) (s : ReplayState)
    → Option.map (λ r. r.state) o ≡ some s
    → row_rank o ≡ rank s
row_rank-map none s h = absurd (ground arith)
row_rank-map (some r) s h = ground arith

coalesce_kept :
    {A : Type 0} (o p : Option A) (b q : A) → p ≡ coalesce o (some q) → o ≡ some b → p ≡ some b
coalesce_kept o p b q h g = rw h (rw g refl)

-- What an action may do to the store: it moves no execution back, and keeps every binding.
pub record Forward (v w : PrintWorld) : Type 0 where
  pub ranks : (j : String) → replay_rank j v ≤ replay_rank j w
  pub bindings :
      (j : String) (b : Identity × String) → binding_at j v ≡ some b → binding_at j w ≡ some b

pub Forward-preorder : IsPreorder Forward
Forward-preorder = record {
  rfl = λ s. record { ranks = λ j. omega arith; bindings = λ j b h. h };
  trans = λ s t u h g. record {
    ranks = λ j. omega (arith, h.ranks j, g.ranks j);
    bindings = λ j b e. g.bindings j b (h.bindings j b e);
  };
}

-- The same rows.
pub Forward-same : (v w : PrintWorld) → w.rows ≡ v.rows → Forward v w
Forward-same v w h = record { ranks = λ j. rw h (omega arith); bindings = λ j b e. rw h e }

-- A write that does not take its execution back.
pub upsert-Forward :
    (n : ReplayRow) (v w : PrintWorld)
    → w.rows ≡ upsert n v.rows
    → replay_rank n.execution_id v ≤ rank n.state
    → Forward v w
upsert-Forward n v w h up = record {
  ranks = λ j. rw h (elim (Bool-cases (n.execution_id == j)) [
    | inl e ↦
        rw
          (
            ← eq_of_== n.execution_id j e,
            row_rank-map (find_replay n.execution_id (upsert n v.rows)) n.state
                (find-upsert-state n v.rows),
          )
          up
    | inr e ↦ rw (find-upsert_ne j n v.rows e) (omega arith)
  ]);
  bindings = λ j b g. rw h (elim (Bool-cases (n.execution_id == j)) [
    | inl e ↦
        rw (← eq_of_== n.execution_id j e) (
          coalesce_kept _ _ b _ (find-upsert-binding n v.rows) (rw (eq_of_== n.execution_id j e) g))
    | inr e ↦ rw (find-upsert_ne j n v.rows e) g
  ]);
}
