-- ===== src/WritePipeline/Runs.antt =====
-- What every sequence of calls of the pipeline of wbcz/write_pipeline.py keeps.
use fbs_chz.Prelude.{
  ◌≤◌, String, Bool, true, false, some, List, [], ◌∷◌, ◌≡◌, ◌∙◌, refl, inl, inr, arith, ◌==◌,
  eq_of_==, Bool-cases,
}
use fbs_chz.Runtime.{Runtime}
use fbs_chz.Effect.{err, ◌>>=◌}
use fbs_chz.WritePipeline.Types.{WriteState, production_write_disabled}
use fbs_chz.WritePipeline.Schema.{Row, Db, World}
use fbs_chz.WritePipeline.Pipeline.{
  Pipeline, Command, submit_command, prepare_command, sign_command, poll_command, review_command,
  error_command, reconcile_command, note_command, submit, perform, run,
}
use fbs_chz.WritePipeline.Steps.{Edge, Step, Steps}
use fbs_chz.WritePipeline.Ranks.{rank, rank_at, Edge-rank, Steps-rank, find-update_ne}
use fbs_chz.WritePipeline.Trail.{find-append, state_at, IsTold, Steps-IsTold}
use fbs_chz.WritePipeline.Rows.{
  AllValid, Steps-AllValid, Business, business_at, Steps-business, find-free,
}
use fbs_chz.WritePipeline.Flow.{perform-Follows, run-Steps}

-- The states that nothing leaves.
abbrev pub is_final : WriteState → Bool
is_final WriteState.succeeded = true
is_final WriteState.failed = true
is_final WriteState.manual_review = true
is_final WriteState.error = true
is_final _ = false

rank-le : (s : WriteState) → rank s ≤ 8
rank-le s = ground arith

Edge-ne-final : {a b : Row} → Edge a b → is_final a.state ≡ false
Edge-ne-final {a} {b} g = ground (arith, Edge-rank g, rank-le b.state)

Step-final :
    {c d : Db} (t : Step c d) (k : String) (s : WriteState)
    → is_final s ≡ true
    → state_at k c ≡ some s
    → state_at k d ≡ some s
Step-final (Step.note e n t q) k s i h = rw q h
Step-final {c} (Step.open_operation x e n m o f t q) k s i h = rw q (
    rw (find-append k c.operations x n.free) (elim (Bool-cases (x.operation_id == k)) [
      | inl y ↦ cc (h, eq_of_== x.operation_id k y, find-free c.operations x n.free)
      | inr y ↦ rw y h
    ]))
Step-final {c} (Step.change x f e found keeps g n o y t q) k s i h =
    rw q (elim (Bool-cases (x.operation_id == k)) [
      | inl z ↦ absurd (ground (arith, Edge-ne-final g, eq_of_== x.operation_id k z))
      | inr z ↦ rw (find-update_ne x.operation_id k f c.operations keeps z) h
    ])

Steps-final :
    {c d : Db}
    → Steps c d
    → (k : String) (s : WriteState) → is_final s ≡ true
    → state_at k c ≡ some s
    → state_at k d ≡ some s
Steps-final Steps.here k s i h = h
Steps-final (Steps.next t u) k s i h = Step-final u k s i (Steps-final t k s i h)

module _ ⦃py : Runtime⦄ (p : Pipeline) where
  -- No operation goes back: whatever calls are made, the rank of its state never falls, in the order
  -- absent, prepared, awaiting signature, signed, submitting, submitted, processing, reconciliation
  -- required, and the final states.
  pub run-rank : (cs : List Command) (w : World) (k : String) → rank_at k w ≤ rank_at k (run p w cs)
  run-rank cs w k = Steps-rank (run-Steps p cs w) k

  -- An operation that has succeeded, failed, gone to manual review or to error stays in that state,
  -- whatever calls are made.
  pub run-final :
      (cs : List Command) (w : World) (k : String) (s : WriteState)
      → is_final s ≡ true
      → state_at k w.db ≡ some s
      → state_at k (run p w cs).db ≡ some s
  run-final cs w k s = Steps-final (run-Steps p cs w) k s

  -- The audit tells the truth: if the last state that it names for each operation is the state of
  -- its row, and names none where there is no row, the same holds after any calls.
  pub run-IsTold : (cs : List Command) (w : World) → IsTold w.db → IsTold (run p w cs).db
  run-IsTold cs w = Steps-IsTold (run-Steps p cs w)

  -- If every operation is valid (its document and reason are those of its decision, its product
  -- group is lp, its INN is not empty, a state past the signature has one, and one past an accepted
  -- submission has the document's number), then every operation is valid after any calls.
  pub run-AllValid : (cs : List Command) (w : World) → AllValid w.db → AllValid (run p w cs).db
  run-AllValid cs w = Steps-AllValid (run-Steps p cs w)

  -- What an operation is about (its fingerprint, event, decision, document, reason, group, INN, hash,
  -- Base64 text and time) never changes once it is in the table, whatever calls are made.
  pub run-business :
      (cs : List Command) (w : World) (k : String) (b : Business)
      → business_at k w.db ≡ some b
      → business_at k (run p w cs).db ≡ some b
  run-business cs w = Steps-business (run-Steps p cs w)

  submit-disabled :
      p.true_api_write ≡ false
      → (k : String) (w : World)
      → submit p k w ≡ (err (production_write_disabled "true_api_write=false"), w)
  unfolding submit ◌>>=◌
  submit-disabled h k w = rw h refl

  perform-disabled :
      p.true_api_write ≡ false → (c : Command) (w : World) → (perform p c w).1.posts ≡ w.posts
  unfolding perform ◌>>=◌
  perform-disabled h (submit_command k) w = rw (submit-disabled h k w) refl
  perform-disabled h (prepare_command e d t r g i x) w =
      ((perform-Follows p (prepare_command e d t r g i x) refl).at w).posts
  perform-disabled h (sign_command r) w = ((perform-Follows p (sign_command r) refl).at w).posts
  perform-disabled h (poll_command k) w = ((perform-Follows p (poll_command k) refl).at w).posts
  perform-disabled h (review_command k r) w =
      ((perform-Follows p (review_command k r) refl).at w).posts
  perform-disabled h (error_command k t) w =
      ((perform-Follows p (error_command k t) refl).at w).posts
  perform-disabled h (reconcile_command k b d) w =
      ((perform-Follows p (reconcile_command k b d) refl).at w).posts
  perform-disabled h (note_command k a d) w =
      ((perform-Follows p (note_command k a d) refl).at w).posts

  run-posts_disabled :
      p.true_api_write ≡ false → (cs : List Command) (w : World) → (run p w cs).posts ≡ w.posts
  unfolding run
  run-posts_disabled h [] w = refl
  run-posts_disabled h (c ∷ cs) w =
      run-posts_disabled h cs (perform p c w).1 ∙ perform-disabled h c w

  -- With `true_api_write` off, no sequence of calls sends a create request, and a submission raises
  -- `ProductionWriteDisabled` and changes nothing.
  pub run-disabled :
      p.true_api_write ≡ false
      → (cs : List Command) (k : String) (w : World)
      → ((run p w cs).posts ≡ w.posts)
        × (submit p k w ≡ (err (production_write_disabled "true_api_write=false"), w))
  run-disabled h cs k w = (run-posts_disabled h cs w, submit-disabled h k w)
