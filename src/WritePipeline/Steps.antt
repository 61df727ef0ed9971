-- ===== src/WritePipeline/Steps.antt =====
-- What the store of wbcz/write_pipeline.py promises, as a relation on its two tables: a note in the
-- audit, a new operation, or a change of one operation along the diagram of states, each with its
-- entry in the audit.
use fbs_chz.Prelude.{
  ◌+◌, String, Bool, true, false, none, some, List, [], ◌∷◌, ◌++◌, ◌≡◌, ◌∙◌, refl, present, filled,
  length,
}
use fbs_chz.Effect.Rules.{IsPreorder, IsReflexive}
use fbs_chz.WritePipeline.Types.{
  WriteState, prepared, awaiting_signature, signed, submitting, submitted, processing,
  reconciliation_required, succeeded, failed, SigningResponse, CreateResult,
}
use fbs_chz.WritePipeline.Schema.{Row, AuditEntry, Db, World, find, update, is_taken, checks_hold}
use fbs_chz.WritePipeline.States.{is_reviewable, is_unsent, is_pollable}
use fbs_chz.WritePipeline.Transition.{decision_document}
use fbs_chz.WritePipeline.Store.{sign_row, finish_row, is_success}

-- The diagram of the states, but for a signature and the result of a submission.
abbrev pub allowed : WriteState → WriteState → Bool
allowed prepared awaiting_signature = true
allowed signed submitting = true
allowed submitted processing = true
allowed reconciliation_required succeeded = true
allowed s WriteState.manual_review = is_reviewable s
allowed s WriteState.error = is_unsent s
allowed s reconciliation_required = is_pollable s
allowed s failed = is_pollable s
allowed _ _ = false

-- How a row may change.
pub data Edge (a b : Row) : Type 0 where
  sign :
      (response : SigningResponse) (signature now : String)
      → a.state ≡ awaiting_signature
      → a.document_sha256 ≡ response.document_sha256
      → b ≡ sign_row response signature now a
      → Edge a b
  finish :
      (result : CreateResult) (now : String)
      → a.state ≡ submitting
      → (is_success result.category ≡ true → present result.document_id ≡ true)
      → b ≡ finish_row result now a
      → Edge a b
  move :
      (target : WriteState) (now : String)
      → allowed a.state target ≡ true
      → b ≡ record a { state = target; updated_at = now }
      → Edge a b

-- An entry with the next number.
pub record IsNext (l : List AuditEntry) (e : AuditEntry) : Type 0 where
  pub numbered : e.id ≡ length l + 1

-- A row as `prepare` makes it.
pub record IsNew (r : Row) (l : List Row) : Type 0 where
  pub free : is_taken r l ≡ false
  pub checked : checks_hold r ≡ true
  pub mapped : decision_document r.decision ≡ some (r.document_type, r.operation_reason)
  pub starts : r.state ≡ prepared
  pub unsigned : r.signature_base64 ≡ none
  pub unsent : r.document_id ≡ none
  pub owned : filled r.expected_inn ≡ true

pub data Step (c d : Db) : Type 0 where
  note :
      (e : AuditEntry)
      → IsNext c.audit e
      → e.to_state ≡ none
      → d ≡ record { operations = c.operations; audit = c.audit ++ e ∷ [] }
      → Step c d
  open_operation :
      (r : Row) (e : AuditEntry)
      → IsNew r c.operations
      → IsNext c.audit e
      → e.operation_id ≡ r.operation_id
      → e.from_state ≡ none
      → e.to_state ≡ some prepared
      → d ≡ record { operations = c.operations ++ r ∷ []; audit = c.audit ++ e ∷ [] }
      → Step c d
  change :
      (r : Row) (f : Row → Row) (e : AuditEntry)
      → find r.operation_id c.operations ≡ some r
      → ((x : Row) → (f x).operation_id ≡ x.operation_id)
      → Edge r (f r)
      → IsNext c.audit e
      → e.operation_id ≡ r.operation_id
      → e.from_state ≡ some r.state
      → e.to_state ≡ some (f r).state
      → d ≡ record { operations = update r.operation_id f c.operations; audit = c.audit ++ e ∷ [] }
      → Step c d

pub data Steps (c : Db) : Db → Type 0 where
  here : Steps c c
  next : {d e : Db} → Steps c d → Step d e → Steps c e

pub Steps-append : {c d e : Db} → Steps c d → Steps d e → Steps c e
Steps-append s here = s
Steps-append s (next t u) = next (Steps-append s t) u

-- The tables change by steps, and no request is made.
pub record Follows (v w : World) : Type 0 where
  pub steps : Steps v.db w.db
  pub posts : w.posts ≡ v.posts

pub Follows-reflexive : IsReflexive Follows
Follows-reflexive = record { rfl = λ s. record { steps = here; posts = refl } }

pub Follows-preorder : IsPreorder Follows
Follows-preorder = record {
  rfl = λ s. record { steps = here; posts = refl };
  trans = λ s t u h g. record { steps = Steps-append h.steps g.steps; posts = g.posts ∙ h.posts };
}

pub Follows-one : {v w : World} → Step v.db w.db → w.posts ≡ v.posts → Follows v w
Follows-one s p = record { steps = next here s; posts = p }
