-- ===== src/WritePipeline/Follows.antt =====
-- Every method of `WriteOperationStore` (wbcz/write_pipeline.py) changes the tables by steps of the
-- relation, whether it returns or raises.
use mathlib.Core.Path.{subst}
use fbs_chz.Prelude.{
  ◌+◌, String, Bool, true, Option, none, some, List, [], ◌∷◌, ◌≡◌, refl, sym, inl, inr, arith,
  length, eq_iff, ◌==◌, Bool-cases, Option-cases,
}
use fbs_chz.Runtime.{Runtime, JsonFields, obj}
use fbs_chz.Effect.{Result, ok, err, ◌>>=◌}
use fbs_chz.Effect.Rules.{
  Moves, Moves-pure, Moves-raise, Moves-lift, Moves-gets, Moves-require, Moves-if, Moves-bind,
  at_require,
}
use fbs_chz.WritePipeline.Types.{WriteState, WriteError}
use fbs_chz.WritePipeline.Schema.{
  Row, AuditEntry, World, Action, find, restore, transaction, write_audit, utc_now,
}
use fbs_chz.WritePipeline.Transition.{get_row, get, transition_body, transition}
use fbs_chz.WritePipeline.Steps.{
  allowed, Edge, move, Step, note, change, here, Follows, Follows-reflexive, Follows-preorder,
  Follows-one,
}

pub find-key : (k : String) (l : List Row) (r : Row) → find k l ≡ some r → r.operation_id ≡ k
unfolding find
find-key k [] r h = absurd (ground arith)
find-key k (x ∷ l) r h = elim (Bool-cases (x.operation_id == k)) [
  | inl e ↦ ground (arith, eq_iff x.operation_id k)
  | inr e ↦ find-key k l r (ground arith)
]

restore-Follows :
    {A : Type 0} (v : World) (p : Result WriteError A × World)
    → Follows v p.1
    → Follows v (restore v.db p).1
restore-Follows v (ok a, w) h = h
restore-Follows v (err e, w) h = record { steps = here; posts = h.posts }

pub transaction-Follows :
    {A : Type 0} (m : Action A) → Moves Follows m → Moves Follows (transaction m)
unfolding transaction
transaction-Follows m h = record { at = λ w. restore-Follows w (m w) (h.at w) }

module _ ⦃py : Runtime⦄ where
  -- The next entry of the audit.
  abbrev pub entry :
      World → String → String → Option WriteState → Option WriteState → JsonFields → AuditEntry
  entry w k action from_state to_state details = record {
    id = length w.db.audit + 1;
    operation_id = k;
    action = action;
    from_state = from_state;
    to_state = to_state;
    details_json = py.dumps (obj details);
    created_at = py.now w.reads;
  }

  pub utc_now-Follows : Moves Follows utc_now
  unfolding utc_now
  utc_now-Follows = record { at = λ w. record { steps = here; posts = refl } }

  pub get-Follows : (k : String) → Moves Follows (get k)
  unfolding get ◌>>=◌
  get-Follows k = record {
    at = λ w. elim (Option-cases (find k w.db.operations)) [
      | inl n ↦ rw n (Follows-preorder.rfl w)
      | inr (r, s) ↦ rw s (Follows-preorder.rfl w)
    ];
  }

  pub note-Follows :
      (k action : String) (from_state : Option WriteState) (details : JsonFields)
      → Moves Follows (write_audit k action from_state none details)
  unfolding write_audit ◌>>=◌
  note-Follows k action from_state details = record {
    at = λ w.
        Follows-one
          (note (entry w k action from_state none details) (record { numbered = refl }) refl refl)
          refl;
  }

  -- What follows the reading of a row may use that it was found.
  pub row-Follows :
      {A : Type 0} (k : String) (f : Row → Action A) (w : World)
      → ((r : Row)
          → find r.operation_id w.db.operations ≡ some r
          → r.operation_id ≡ k
          → Follows w (f r w).1)
      → Follows w ((get_row k >>= f) w).1
  unfolding get_row ◌>>=◌
  row-Follows k f w h = elim (Option-cases (find k w.db.operations)) [
    | inl n ↦ rw n (Follows-preorder.rfl w)
    | inr (r, s) ↦
        let key = find-key k w.db.operations r s in
        rw s (h r (subst (λ x. find x w.db.operations ≡ some r) (sym key) s) key)
  ]

  transition_body-Follows :
      (k : String) (expected : WriteState → Bool) (target : WriteState) (action : String)
      (details : JsonFields)
      → ((s : WriteState) → expected s ≡ true → allowed s target ≡ true)
      → Moves Follows (transition_body k expected target action details)
  unfolding transition_body
  transition_body-Follows k expected target action details up = record {
    at = λ w. row-Follows k _ w λ r s key.
        at_require Follows-reflexive (expected r.state) _ _ w λ e. rw (← key) (
          unfold ◌>>=◌ transition_body in
          Follows-one
            (change r (λ x. record x { state = target; updated_at = py.now w.reads })
              (entry (record w { reads = w.reads + 1 }) r.operation_id action (some r.state)
                (some target) details)
              s (λ x. refl) (move target (py.now w.reads) (up r.state e) refl)
              (record { numbered = refl }) refl refl refl refl)
            refl);
  }

  pub transition-Follows :
      (k : String) (expected : WriteState → Bool) (target : WriteState) (action : String)
      (details : JsonFields)
      → ((s : WriteState) → expected s ≡ true → allowed s target ≡ true)
      → Moves Follows (transition k expected target action details)
  unfolding transition
  transition-Follows k expected target action details up =
      Moves-bind Follows-preorder _ _
        (transaction-Follows _ (transition_body-Follows k expected target action details up))
        (λ _. get-Follows k)

  pub ruleset follows_rules = (
    Follows-preorder, Moves-pure, Moves-raise, Moves-lift, Moves-gets, Moves-require, Moves-if,
    Moves-bind, get-Follows, utc_now-Follows, note-Follows,
  )
