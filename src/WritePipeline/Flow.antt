-- ===== src/WritePipeline/Flow.antt =====
-- Every call of the pipeline of wbcz/write_pipeline.py changes the tables by steps of the relation.
use fbs_chz.Prelude.{
  String, Bool, true, false, Option, none, some, List, [], ◌∷◌, ◌≡◌, refl, arith, ◌==◌,
}
use fbs_chz.Runtime.{Runtime}
use fbs_chz.Models.{Decision}
use fbs_chz.Effect.{Result, ok, err, pure, ◌>>=◌}
use fbs_chz.Effect.Rules.{
  Moves, Moves-pure, Moves-raise, Moves-lift, Moves-require, Moves-if, Moves-bind, IsPreorder,
}
use fbs_chz.WritePipeline.Types.{WriteError, type_name, ExactDocument, OperationRecord}
use fbs_chz.WritePipeline.Schema.{World, Action, CreateRequest}
use fbs_chz.WritePipeline.Adapter.{Writer, Poller, post_json, get_json, create, poll}
use fbs_chz.WritePipeline.Pipeline.{
  Pipeline, attempt, handle, prepare_operation, writer_of, poller_of, document_or_error, send,
  submit, poll_failed, poll_once, Command, prepare_command, sign_command, submit_command,
  poll_command, review_command, error_command, reconcile_command, note_command, perform, run,
}
use fbs_chz.WritePipeline.Steps.{Steps, here, Steps-append, Follows, Follows-preorder}
use fbs_chz.WritePipeline.Follows.{get-Follows}
use fbs_chz.WritePipeline.Opening.{prepare-Follows}
use fbs_chz.WritePipeline.Methods.{
  accept_signature-Follows, reserve_submit-Follows, complete_submit-Follows,
  mark_submit_ambiguous-Follows, mark_manual_review-Follows, mark_error-Follows, audit_note-Follows,
  apply_poll_status-Follows, reconciliation_result-Follows,
}

-- The tables change by steps; requests may be made.
pub record Evolves (v w : World) : Type 0 where
  pub steps : Steps v.db w.db

pub Evolves-preorder : IsPreorder Evolves
Evolves-preorder = record {
  rfl = λ s. record { steps = here };
  trans = λ s t u h g. record { steps = Steps-append h.steps g.steps };
}

pub Moves-weaken : {A : Type 0} {m : Action A} → Moves Follows m → Moves Evolves m
Moves-weaken h = record { at = λ w. record { steps = (h.at w).steps } }

module _ {A B : Type 0} {R : World → World → Type 0} (p : IsPreorder R) where
  handle-Moves :
      (f : A → Action B) (g : WriteError → Action B)
      → ((a : A) → Moves R (f a))
      → ((e : WriteError) → Moves R (g e))
      → (v : World) (r : Result WriteError A × World) → R v r.1
      → R v (handle r f g).1
  handle-Moves f g kf kg v (ok a, w) h = p.trans v w (f a w).1 h ((kf a).at w)
  handle-Moves f g kf kg v (err e, w) h = p.trans v w (g e w).1 h ((kg e).at w)

  pub attempt-Moves :
      (m : Action A) (f : A → Action B) (g : WriteError → Action B)
      → Moves R m
      → ((a : A) → Moves R (f a))
      → ((e : WriteError) → Moves R (g e))
      → Moves R (attempt m f g)
  unfolding attempt
  attempt-Moves m f g km kf kg = record { at = λ w. handle-Moves f g kf kg w (m w) (km.at w) }

module _ ⦃py : Runtime⦄ where
  post_json-Evolves :
      (x : Writer) (k : String) (q : CreateRequest) → Moves Evolves (post_json x k q)
  unfolding post_json
  post_json-Evolves x k q = record { at = λ w. record { steps = here } }

  create-Evolves : (x : Writer) (k t d s : String) → Moves Evolves (create x k t d s)
  unfolding create
  create-Evolves x k t d s =
      search (Evolves-preorder, Moves-lift, Moves-require, Moves-bind, post_json-Evolves) depth 16

  get_json-Follows : (x : Poller) (url : String) → Moves Follows (get_json x url)
  unfolding get_json
  get_json-Follows x url = record { at = λ w. record { steps = here; posts = refl } }

  poll-Follows : (x : Poller) (d : String) → Moves Follows (poll x d)
  unfolding poll
  poll-Follows x d =
      search (Follows-preorder, Moves-pure, Moves-lift, Moves-bind, get_json-Follows) depth 16

  send-Evolves : (x : Writer) (k : String) (op : OperationRecord) → Moves Evolves (send x k op)
  unfolding send
  send-Evolves x k op =
      attempt-Moves Evolves-preorder _ _ _ (create-Evolves x k _ _ _)
        (λ a. Moves-weaken (complete_submit-Follows k a))
        (λ e. Moves-weaken (mark_submit_ambiguous-Follows k (type_name e)))

  pub writer_of-Follows : (o : Option Writer) → Moves Follows (writer_of o)
  writer_of-Follows none = Moves-raise Follows-preorder _
  writer_of-Follows (some x) = Moves-pure Follows-preorder x

  poller_of-Follows : (o : Option Poller) → Moves Follows (poller_of o)
  poller_of-Follows none = Moves-raise Follows-preorder _
  poller_of-Follows (some x) = Moves-pure Follows-preorder x

  pub submit-Evolves : (p : Pipeline) (k : String) → Moves Evolves (submit p k)
  unfolding submit
  submit-Evolves p k = Moves-bind Evolves-preorder _ _ (Moves-require Evolves-preorder _ _) λ _.
      Moves-bind Evolves-preorder _ _ (Moves-weaken (writer_of-Follows p.writer)) λ x.
        Moves-bind Evolves-preorder _ _ (Moves-weaken (reserve_submit-Follows k))
          λ op. send-Evolves x k op

  document_or_error-Follows : (o : Option String) → Moves Follows (document_or_error o)
  document_or_error-Follows none = Moves-raise Follows-preorder _
  document_or_error-Follows (some d) =
      Moves-if (d == "") _ _ (Moves-raise Follows-preorder _) (Moves-pure Follows-preorder d)

  poll_failed-Follows : (k : String) (e : WriteError) → Moves Follows (poll_failed k e)
  unfolding poll_failed
  poll_failed-Follows k e =
      Moves-bind Follows-preorder _ _ (audit_note-Follows k _ _)
        λ _. Moves-bind Follows-preorder _ _ (get-Follows k) λ op. Moves-pure Follows-preorder _

  poll_once-Follows : (p : Pipeline) (k : String) → Moves Follows (poll_once p k)
  unfolding poll_once
  poll_once-Follows p k = Moves-bind Follows-preorder _ _ (poller_of-Follows p.poller) λ x.
      Moves-bind Follows-preorder _ _ (get-Follows k) λ op.
        Moves-bind Follows-preorder _ _ (document_or_error-Follows op.document_id) λ d.
          attempt-Moves Follows-preorder _ _ _ (poll-Follows x d)
            (λ r. apply_poll_status-Follows k _ _ _) (λ e. poll_failed-Follows k e)

  prepare_operation-Follows :
      (p : Pipeline) (event_id : String) (decision : Decision) (t r g i : String)
      (d : ExactDocument)
      → Moves Follows (prepare_operation p event_id decision t r g i d)
  unfolding prepare_operation
  prepare_operation-Follows p event_id decision t r g i d =
      Moves-bind Follows-preorder _ _ (Moves-require Follows-preorder _ _)
        λ _. prepare-Follows event_id decision t r g i d

  abbrev pub is_submit : Command → Bool
  is_submit (submit_command k) = true
  is_submit _ = false

  discarded : {A : Type 0} {m : Action A} → Moves Follows m → Moves Follows (m >>= λ _. pure tt)
  discarded h = Moves-bind Follows-preorder _ _ h (λ _. Moves-pure Follows-preorder tt)

  -- A call other than a submission changes the tables by steps, and makes no create request.
  pub perform-Follows :
      (p : Pipeline) (c : Command) → is_submit c ≡ false → Moves Follows (perform p c)
  unfolding perform
  perform-Follows p (prepare_command e d t r g i x) n =
      discarded (prepare_operation-Follows p e d t r g i x)
  perform-Follows p (sign_command response) n =
      discarded (accept_signature-Follows response p.own_inn)
  perform-Follows p (submit_command k) n = absurd (ground arith)
  perform-Follows p (poll_command k) n = discarded (poll_once-Follows p k)
  perform-Follows p (review_command k reason) n = discarded (mark_manual_review-Follows k reason)
  perform-Follows p (error_command k t) n = discarded (mark_error-Follows k t)
  perform-Follows p (reconcile_command k b d) n = discarded (reconciliation_result-Follows k b d)
  perform-Follows p (note_command k a d) n = audit_note-Follows k a d

  discarded_evolving :
      {A : Type 0} {m : Action A} → Moves Evolves m → Moves Evolves (m >>= λ _. pure tt)
  discarded_evolving h = Moves-bind Evolves-preorder _ _ h (λ _. Moves-pure Evolves-preorder tt)

  perform-Evolves : (p : Pipeline) (c : Command) → Moves Evolves (perform p c)
  unfolding perform
  perform-Evolves p (submit_command k) = discarded_evolving (submit-Evolves p k)
  perform-Evolves p (prepare_command e d t r g i x) =
      Moves-weaken (perform-Follows p (prepare_command e d t r g i x) refl)
  perform-Evolves p (sign_command response) =
      Moves-weaken (perform-Follows p (sign_command response) refl)
  perform-Evolves p (poll_command k) = Moves-weaken (perform-Follows p (poll_command k) refl)
  perform-Evolves p (review_command k r) =
      Moves-weaken (perform-Follows p (review_command k r) refl)
  perform-Evolves p (error_command k t) = Moves-weaken (perform-Follows p (error_command k t) refl)
  perform-Evolves p (reconcile_command k b d) =
      Moves-weaken (perform-Follows p (reconcile_command k b d) refl)
  perform-Evolves p (note_command k a d) =
      Moves-weaken (perform-Follows p (note_command k a d) refl)

  -- The store implements its specification: whatever calls are made, with whatever arguments,
  -- answers of the remote service and exceptions, the two tables change only by steps of the
  -- relation `Step`.
  pub run-Steps : (p : Pipeline) (cs : List Command) (w : World) → Steps w.db (run p w cs).db
  unfolding run
  run-Steps p [] w = here
  run-Steps p (c ∷ cs) w =
      Steps-append ((perform-Evolves p c).at w).steps (run-Steps p cs (perform p c w).1)
