-- ===== src/WritePipeline/Pipeline.antt =====
-- `WritePipeline` of wbcz/write_pipeline.py: approved decision, signature, create, poll,
-- reconciliation; and sequences of its calls.
use fbs_chz.Prelude.{String, Bool, Option, none, some, List, [], ◌∷◌, nat_eq, ◌==◌, if◌then◌else◌}
use fbs_chz.Runtime.{Runtime, JsonFields, str, end_fields, field}
use fbs_chz.Models.{Decision}
use fbs_chz.Effect.{Result, ok, err, pure, raise, require, ◌>>=◌, ◌>>◌}
use fbs_chz.WritePipeline.Types.{
  PollClassification, WriteError, production_write_disabled, invalid_write_operation, type_name,
  ExactDocument, SigningResponse, OperationRecord, PollResult,
}
use fbs_chz.WritePipeline.Schema.{World, Action}
use fbs_chz.WritePipeline.Transition.{get}
use fbs_chz.WritePipeline.Prepare.{prepare}
use fbs_chz.WritePipeline.Store.{
  accept_signature, reserve_submit, complete_submit, mark_submit_ambiguous, mark_manual_review,
  mark_error, audit_note, apply_poll_status, reconciliation_result,
}
use fbs_chz.WritePipeline.Adapter.{Writer, Poller, create, poll}

pub record Pipeline : Type 0 where
  pub own_inn : String
  pub writer : Option Writer
  pub poller : Option Poller
  pub true_api_write : Bool

-- `try: … except Exception as exc: …`: the handler goes on from the state that the body left.
abbrev pub handle :
    {A B : Type 0}
    → Result WriteError A × World
    → (A → Action B)
    → (WriteError → Action B)
    → Result WriteError B × World
handle (ok a, w) f g = f a w
handle (err e, w) f g = g e w

unfoldable pub attempt :
    {A B : Type 0} → Action A → (A → Action B) → (WriteError → Action B) → Action B
attempt m f g w = handle (m w) f g

-- `op.signature_base64`, which `reserve_submit` has seen not to be empty; the assertion otherwise.
abbrev pub signature_text : Option String → String
signature_text none = ""
signature_text (some s) = s

module _ ⦃py : Runtime⦄ where
  unfoldable pub prepare_operation :
      Pipeline
      → String
      → Decision
      → String
      → String
      → String
      → String
      → ExactDocument
      → Action OperationRecord
  prepare_operation p event_id decision document_type reason pg expected_inn document = do
    require (expected_inn == p.own_inn) (invalid_write_operation "wrong expected_inn")
    prepare event_id decision document_type reason pg expected_inn document

  abbrev pub writer_of : Option Writer → Action Writer
  writer_of none = raise (invalid_write_operation "True API write adapter is not configured")
  writer_of (some x) = pure x

  abbrev pub poller_of : Option Poller → Action Poller
  poller_of none = raise (invalid_write_operation "True API polling adapter is not configured")
  poller_of (some x) = pure x

  -- The request of a reserved operation, and what becomes of its answer.
  unfoldable pub send : Writer → String → OperationRecord → Action OperationRecord
  send writer k op =
      attempt
        (create writer k op.document_type op.product_document_base64
          (signature_text op.signature_base64))
        (λ result. complete_submit k result) (λ e. mark_submit_ambiguous k (type_name e))

  unfoldable pub submit : Pipeline → String → Action OperationRecord
  submit p k = do
    require p.true_api_write (production_write_disabled "true_api_write=false")
    writer ← writer_of p.writer
    op ← reserve_submit k
    send writer k op

  abbrev pub document_or_error : Option String → Action String
  document_or_error none = raise (invalid_write_operation "document_id unavailable")
  document_or_error (some d) =
      if d == "" then raise (invalid_write_operation "document_id unavailable") else pure d

  -- A status counts only where the answer has code 200.
  abbrev polled_status : PollResult → Option String
  polled_status result = if nat_eq result.http_status 200 then result.raw_status else none

  unfoldable pub poll_failed : String → WriteError → Action (OperationRecord × PollClassification)
  poll_failed k e = do
    audit_note k "POLL_TRANSPORT_ERROR" (field "error_type" (str (type_name e)) end_fields)
    op ← get k
    pure (op, PollClassification.intermediate)

  unfoldable pub poll_once : Pipeline → String → Action (OperationRecord × PollClassification)
  poll_once p k = do
    poller ← poller_of p.poller
    op ← get k
    d ← document_or_error op.document_id
    attempt (poll poller d)
        (λ result.
          apply_poll_status k (polled_status result) (some result.http_status)
            (some result.body_sha256))
        (poll_failed k)

-- The calls that change the store: those of the pipeline, and those of the store that its users
-- make themselves.
pub data Command : Type 0 where
  prepare_command : String → Decision → String → String → String → String → ExactDocument → Command
  sign_command : SigningResponse → Command
  submit_command poll_command : String → Command
  review_command error_command : String → String → Command
  reconcile_command : String → Bool → JsonFields → Command
  note_command : String → String → JsonFields → Command

module _ ⦃py : Runtime⦄ where
  abbrev discard : {A : Type 0} → Action A → Action (Unit {0})
  discard m = do m >>= λ _. pure tt

  unfoldable pub perform : Pipeline → Command → Action (Unit {0})
  perform p (prepare_command event_id decision document_type reason pg inn document) =
      discard (prepare_operation p event_id decision document_type reason pg inn document)
  perform p (sign_command response) = discard (accept_signature response p.own_inn)
  perform p (submit_command k) = discard (submit p k)
  perform p (poll_command k) = discard (poll_once p k)
  perform p (review_command k reason) = discard (mark_manual_review k reason)
  perform p (error_command k error_type) = discard (mark_error k error_type)
  perform p (reconcile_command k confirmed details) =
      discard (reconciliation_result k confirmed details)
  perform p (note_command k action details) = audit_note k action details

  -- The calls of several processes one after another; an error ends only its own call.
  unfoldable pub run : Pipeline → World → List Command → World
  run p w [] = w
  run p w (c ∷ rest) = run p (perform p c w).1 rest
