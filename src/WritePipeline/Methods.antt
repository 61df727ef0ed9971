-- ===== src/WritePipeline/Methods.antt =====
-- The methods of `WriteOperationStore` (wbcz/write_pipeline.py) one by one: each changes the tables
-- by steps of the relation.
use fbs_chz.Prelude.{
  ℕ, ◌+◌, String, Bool, true, Option, none, some, ◌≡◌, ◌||◌, refl, inl, inr, arith, not, present,
  eq_iff, Bool-cases,
}
use fbs_chz.Runtime.{Runtime, JsonFields}
use fbs_chz.Effect.{ok, ◌>>=◌}
use fbs_chz.Effect.Rules.{
  Moves, Moves-pure, Moves-if, Moves-require, Moves-bind, at_require, at_read, at_lift, at_then,
}
use fbs_chz.WritePipeline.Types.{
  WriteState, PollClassification, SigningResponse, CreateResult, OperationRecord,
  classify_poll_status, awaiting_signature,
}
use fbs_chz.WritePipeline.Schema.{Row, World, find, document_taken}
use fbs_chz.WritePipeline.States.{
  is_awaiting, is_signed, is_submitting, is_submitted, is_pollable, is_reconcilable, is_reviewable,
  is_unsent,
}
use fbs_chz.WritePipeline.Store.{
  signature_guards, signature_replay, signature_store, signature_body, replayed_or_get,
  accept_signature, document_of, is_success, target_of, complete_store, complete_body,
  complete_submit, sign_row, finish_row, submit_guards, reserve_submit, mark_submit_ambiguous,
  mark_manual_review, mark_error, audit_note, poll_target, poll_intermediate, apply_poll_status,
  reconciliation_result,
}
use fbs_chz.WritePipeline.Steps.{
  allowed, sign, finish, change, here, Follows, Follows-reflexive, Follows-preorder, Follows-one,
}
use fbs_chz.WritePipeline.Follows.{
  entry, transaction-Follows, row-Follows, get-Follows, note-Follows, transition-Follows,
  follows_rules,
}

module _ ⦃py : Runtime⦄ where
  signature_store-Follows :
      (w : World) (op : Row) (response : SigningResponse) (signature : String)
      → find op.operation_id w.db.operations ≡ some op
      → op.document_sha256 ≡ response.document_sha256
      → op.state ≡ awaiting_signature
      → Follows w (signature_store op response signature w).1
  unfolding signature_store ◌>>=◌
  signature_store-Follows w op response signature s d a =
      Follows-one
        (change op (sign_row response signature (py.now w.reads))
          (entry (record w { reads = w.reads + 1 }) op.operation_id "SIGNATURE_ACCEPTED"
            (some awaiting_signature) (some WriteState.signed) _)
          s (λ x. refl) (sign response signature (py.now w.reads) a d refl)
          (record { numbered = refl }) refl (rw a) refl refl)
        refl

  signature_replay-Follows :
      (op : Row) (signature : String) → Moves Follows (signature_replay op signature)
  unfolding signature_replay
  signature_replay-Follows op signature = search follows_rules depth 12

  is_awaiting-eq : (s : WriteState) → is_awaiting s ≡ true → s ≡ awaiting_signature
  is_awaiting-eq s h = ground arith

  is_submitting-eq : (s : WriteState) → is_submitting s ≡ true → s ≡ WriteState.submitting
  is_submitting-eq s h = ground arith

  signature_guards_keep :
      (op : Row) (response : SigningResponse) (own_inn : String) (w : World)
      → (signature_guards op response own_inn w).1 ≡ w
  unfolding signature_guards ◌>>=◌
  signature_guards_keep op response own_inn w = ground arith

  signature_guards_sound :
      (op : Row) (response : SigningResponse) (own_inn : String) (w : World) (u : Unit {0})
      → (signature_guards op response own_inn w).0 ≡ ok u
      → op.document_sha256 ≡ response.document_sha256
  unfolding signature_guards ◌>>=◌
  signature_guards_sound op response own_inn w u h =
      ground (arith, eq_iff op.document_sha256 response.document_sha256)

  signature_body-Follows :
      (response : SigningResponse) (own_inn : String)
      → Moves Follows (signature_body response own_inn)
  unfolding signature_body
  signature_body-Follows response own_inn = record {
    at = λ w. row-Follows response.operation_id _ w λ op s key.
        at_read Follows-reflexive _ _ w (signature_guards_keep op response own_inn w) λ u g.
          at_lift Follows-reflexive _ _ w λ signature _. elim (Bool-cases (is_awaiting op.state)) [
            | inl e ↦ rw e (
                at_then Follows-preorder _ _ w
                  (signature_store-Follows w op response signature s
                    (signature_guards_sound op response own_inn w u g) (is_awaiting-eq op.state e))
                  (λ _. Moves-pure Follows-preorder _))
            | inr e ↦ rw e (
                (Moves-bind Follows-preorder _ _ (signature_replay-Follows op signature)
                    (λ _. Moves-pure Follows-preorder _)).at
                  w)
          ];
  }

  replayed_or_get-Follows :
      (k : String) (o : Option OperationRecord) → Moves Follows (replayed_or_get k o)
  replayed_or_get-Follows k none = get-Follows k
  replayed_or_get-Follows k (some x) = Moves-pure Follows-preorder x

  pub accept_signature-Follows :
      (response : SigningResponse) (own_inn : String)
      → Moves Follows (accept_signature response own_inn)
  unfolding accept_signature
  accept_signature-Follows response own_inn =
      Moves-bind Follows-preorder _ _
        (transaction-Follows _ (signature_body-Follows response own_inn))
        (λ o. replayed_or_get-Follows _ o)

  submit_guards-Follows : (op : OperationRecord) → Moves Follows (submit_guards op)
  unfolding submit_guards
  submit_guards-Follows op = search follows_rules depth 12

  pub reserve_submit-Follows : (k : String) → Moves Follows (reserve_submit k)
  unfolding reserve_submit
  reserve_submit-Follows k = Moves-bind Follows-preorder _ _ (get-Follows k) λ op.
      Moves-bind Follows-preorder _ _ (submit_guards-Follows op)
        λ _. transition-Follows k is_signed _ _ _ (λ s e. ground arith)

  complete_store-Follows :
      (w : World) (r : Row) (result : CreateResult)
      → find r.operation_id w.db.operations ≡ some r
      → r.state ≡ WriteState.submitting
      → (not (is_success result.category) || present result.document_id) ≡ true
      → Follows w (complete_store r.operation_id result w).1
  unfolding complete_store ◌>>=◌
  complete_store-Follows w r result s a g =
      elim (Bool-cases (document_taken r.operation_id (document_of result) w.db.operations)) [
        | inl t ↦ rw t (record { steps = here; posts = refl })
        | inr t ↦ rw t (
            Follows-one
              (change r (finish_row result (py.now w.reads))
                (entry (record w { reads = w.reads + 1 }) r.operation_id "SUBMIT_RESULT"
                  (some WriteState.submitting) (some (target_of result.category)) _)
                s (λ x. refl) (finish result (py.now w.reads) a (λ y. ground arith) refl)
                (record { numbered = refl }) refl (rw a) refl refl)
              refl)
      ]

  complete_body-Follows :
      (k : String) (result : CreateResult) → Moves Follows (complete_body k result)
  unfolding complete_body
  complete_body-Follows k result = record {
    at = λ w. row-Follows k _ w λ r s key. at_require Follows-reflexive _ _ _ w λ e.
        at_require Follows-reflexive _ _ _ w
          λ g. rw (← key) (complete_store-Follows w r result s (is_submitting-eq r.state e) g);
  }

  pub complete_submit-Follows :
      (k : String) (result : CreateResult) → Moves Follows (complete_submit k result)
  unfolding complete_submit
  complete_submit-Follows k result =
      Moves-bind Follows-preorder _ _ (transaction-Follows _ (complete_body-Follows k result))
        (λ _. get-Follows k)

  pub mark_submit_ambiguous-Follows :
      (k error_type : String) → Moves Follows (mark_submit_ambiguous k error_type)
  unfolding mark_submit_ambiguous
  mark_submit_ambiguous-Follows k error_type =
      transition-Follows k is_submitting _ _ _ (λ s e. ground arith)

  pub mark_manual_review-Follows : (k reason : String) → Moves Follows (mark_manual_review k reason)
  unfolding mark_manual_review
  mark_manual_review-Follows k reason =
      transition-Follows k is_reviewable _ _ _ (λ s e. ground arith)

  pub mark_error-Follows : (k error_type : String) → Moves Follows (mark_error k error_type)
  unfolding mark_error
  mark_error-Follows k error_type = transition-Follows k is_unsent _ _ _ (λ s e. ground arith)

  pub audit_note-Follows :
      (k action : String) (details : JsonFields) → Moves Follows (audit_note k action details)
  unfolding audit_note
  audit_note-Follows k action details = transaction-Follows _ (note-Follows k action none details)

  poll_intermediate-Follows :
      (k : String) (state : WriteState) (details : JsonFields)
      → Moves Follows (poll_intermediate k state details)
  unfolding poll_intermediate
  poll_intermediate-Follows k state details =
      Moves-if _ _ _ (transition-Follows k is_submitted _ _ _ (λ s e. ground arith))
        (Moves-bind Follows-preorder _ _ (audit_note-Follows k _ details) (λ _. get-Follows k))

  poll_allowed :
      (c : PollClassification) (s : WriteState)
      → is_pollable s ≡ true
      → allowed s (poll_target c) ≡ true
  poll_allowed c s e = ground arith

  pub apply_poll_status-Follows :
      (k : String) (status : Option String) (code : Option ℕ) (sha : Option String)
      → Moves Follows (apply_poll_status k status code sha)
  unfolding apply_poll_status
  apply_poll_status-Follows k status code sha =
      Moves-bind Follows-preorder _ _ (get-Follows k) λ op.
        Moves-bind Follows-preorder _ _ (Moves-require Follows-preorder _ _) λ _.
          Moves-bind Follows-preorder _ _
            (Moves-if _ _ _ (poll_intermediate-Follows k _ _)
              (transition-Follows k is_pollable _ _ _ (poll_allowed (classify_poll_status status))))
            (λ x. Moves-pure Follows-preorder _)

  pub reconciliation_result-Follows :
      (k : String) (confirmed : Bool) (details : JsonFields)
      → Moves Follows (reconciliation_result k confirmed details)
  unfolding reconciliation_result
  reconciliation_result-Follows k confirmed details =
      transition-Follows k is_reconcilable _ _ _ (λ s e. ground arith)
