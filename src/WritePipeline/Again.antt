-- ===== src/WritePipeline/Again.antt =====
-- A second reservation of an operation of wbcz/write_pipeline.py, whatever happened after the first.
use fbs_chz.Prelude.{
  ◌≤◌, String, Bool, true, false, Option, some, List, ◌<+>◌, ◌≡◌, ◌⊎◌, refl, inl, inr, arith,
  Option-cases,
}
use fbs_chz.Runtime.{Runtime}
use fbs_chz.Effect.{ok, err, gets, require, pure, raise, ◌>>=◌}
use fbs_chz.WritePipeline.Types.{
  WriteState, WriteError, duplicate_submit_blocked, invalid_write_operation, state_value,
  OperationRecord,
}
use fbs_chz.WritePipeline.Schema.{Row, World, find}
use fbs_chz.WritePipeline.Transition.{get, get_row}
use fbs_chz.WritePipeline.Store.{reserve_submit, submit_guards}
use fbs_chz.WritePipeline.Pipeline.{Pipeline, Command, run}
use fbs_chz.WritePipeline.Ranks.{rank, rank_at}
use fbs_chz.WritePipeline.Trail.{state_at}
use fbs_chz.WritePipeline.AtMostOnce.{reserve_submit-rank}
use fbs_chz.WritePipeline.Runs.{run-rank}

-- The states in which an operation has ended without success.
abbrev pub has_failed : Option WriteState → Bool
has_failed (some WriteState.failed) = true
has_failed (some WriteState.manual_review) = true
has_failed (some WriteState.error) = true
has_failed _ = false

abbrev pub blocked : WriteError
blocked = duplicate_submit_blocked "second True API create is prohibited"

abbrev not_allowed : WriteState → WriteError
not_allowed s = invalid_write_operation ("submit not allowed from state " <+> state_value s)

module _ ⦃py : Runtime⦄ where
  -- A reservation that raises and changes nothing: `DuplicateSubmitBlocked`, unless the operation has
  -- ended without success.
  pub record IsRefused (k : String) (w : World) : Type 0 where
    pub raised : WriteError
    pub refused : reserve_submit k w ≡ (err raised, w)
    pub told : (raised ≡ blocked) ⊎ (has_failed (state_at k w.db) ≡ true)

  IsRefused-of_state :
      (k : String) (w : World) (r : Row) (s : WriteState)
      → find k w.db.operations ≡ some r
      → r.state ≡ s
      → 4 ≤ rank s
      → IsRefused k w
  unfolding reserve_submit submit_guards get get_row gets require pure raise ◌>>=◌
  IsRefused-of_state k w r WriteState.prepared f e h = absurd (omega (arith, h))
  IsRefused-of_state k w r WriteState.awaiting_signature f e h = absurd (omega (arith, h))
  IsRefused-of_state k w r WriteState.signed f e h = absurd (omega (arith, h))
  IsRefused-of_state k w r WriteState.failed f e h = record {
    raised = not_allowed WriteState.failed;
    refused = rw (f, e) refl;
    told = inr (rw f (rw e refl));
  }
  IsRefused-of_state k w r WriteState.manual_review f e h = record {
    raised = not_allowed WriteState.manual_review;
    refused = rw (f, e) refl;
    told = inr (rw f (rw e refl));
  }
  IsRefused-of_state k w r WriteState.error f e h = record {
    raised = not_allowed WriteState.error;
    refused = rw (f, e) refl;
    told = inr (rw f (rw e refl));
  }
  IsRefused-of_state k w r _ f e h = record {
    raised = blocked;
    refused = rw (f, e) refl;
    told = inl refl;
  }

  IsRefused-of_rank : (k : String) (w : World) → 4 ≤ rank_at k w → IsRefused k w
  IsRefused-of_rank k w h = elim (Option-cases (find k w.db.operations)) [
    | inl n ↦ absurd (ground arith)
    | inr (r, f) ↦ IsRefused-of_state k w r r.state f refl (ground arith)
  ]

  -- Once an operation has been reserved, no later reservation of it succeeds, whatever calls are made
  -- in between: it raises and changes nothing, and what it raises is `DuplicateSubmitBlocked` unless
  -- the operation has failed or has gone to manual review or to error.
  pub reserve_submit_again :
      (p : Pipeline) (cs : List Command) (k : String) (w : World) (op : OperationRecord)
      → (reserve_submit k w).0 ≡ ok op
      → IsRefused k (run p (reserve_submit k w).1 cs)
  reserve_submit_again p cs k w op h =
      let (low, high, told) = reserve_submit-rank k w op h in
      IsRefused-of_rank k _ (omega (arith, high, run-rank p cs (reserve_submit k w).1 k))
