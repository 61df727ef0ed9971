-- ===== src/WritePipeline/Rows.antt =====
-- What holds of every operation that the store of wbcz/write_pipeline.py keeps, and what of it never
-- changes.
use mathlib.Core.Option
use fbs_chz.Prelude.{
  String, Bool, true, false, Option, none, some, List, [], ◌∷◌, ◌≡◌, refl, inl, inr, arith, filled,
  present, eq_iff, ◌==◌, eq_of_==, Bool-cases, if◌then◌else◌,
}
use fbs_chz.Models.{Decision}
use fbs_chz.WritePipeline.Types.{WriteState}
use fbs_chz.WritePipeline.Schema.{Row, Db, find, update, is_taken}
use fbs_chz.WritePipeline.Transition.{decision_document}
use fbs_chz.WritePipeline.Store.{is_given}
use fbs_chz.WritePipeline.Steps.{Edge, Step, Steps, IsNew}
use fbs_chz.WritePipeline.Ranks.{find-update_self, find-update_ne}
use fbs_chz.WritePipeline.Trail.{find-append}

-- The states that only a signed operation reaches, and those that only an accepted document reaches.
abbrev pub needs_signature : WriteState → Bool
needs_signature WriteState.prepared = false
needs_signature WriteState.awaiting_signature = false
needs_signature WriteState.manual_review = false
needs_signature WriteState.error = false
needs_signature _ = true

abbrev pub needs_document : WriteState → Bool
needs_document WriteState.submitted = true
needs_document WriteState.processing = true
needs_document WriteState.reconciliation_required = true
needs_document WriteState.succeeded = true
needs_document _ = false

pub record IsValid (r : Row) : Type 0 where
  pub mapped : decision_document r.decision ≡ some (r.document_type, r.operation_reason)
  pub group : r.pg ≡ "lp"
  pub owned : filled r.expected_inn ≡ true
  pub has_signature : needs_signature r.state ≡ true → is_given r.signature_base64 ≡ true
  pub has_document : needs_document r.state ≡ true → present r.document_id ≡ true

-- What is found under a key, if anything, is valid.
abbrev pub FoundValid : Option Row → Type 0
FoundValid none = Unit
FoundValid (some r) = IsValid r

pub record AllValid (d : Db) : Type 0 where
  pub valid : (k : String) → FoundValid (find k d.operations)

Edge-IsValid : {a b : Row} → Edge a b → IsValid a → IsValid b
Edge-IsValid (Edge.sign response signature now p d e) v = ground arith
Edge-IsValid (Edge.finish result now p d e) v = ground arith
Edge-IsValid (Edge.move target now p e) v = ground arith

-- What is found after a change, and after a row is added.
abbrev found_after : Bool → Row → Option Row → Option Row
found_after b r o = if b then some r else o

find-change :
    (r : Row) (f : Row → Row) (l : List Row) (k : String)
    → find r.operation_id l ≡ some r
    → ((x : Row) → (f x).operation_id ≡ x.operation_id)
    → find k (update r.operation_id f l) ≡ found_after (r.operation_id == k) (f r) (find k l)
find-change r f l k s i = elim (Bool-cases (r.operation_id == k)) [
  | inl y ↦ rw (y, ← eq_of_== r.operation_id k y, find-update_self r.operation_id f l i, s) refl
  | inr y ↦ rw (y, find-update_ne r.operation_id k f l i y) refl
]

found_after-FoundValid :
    (b : Bool) (r : Row) (o : Option Row)
    → IsValid r
    → FoundValid o
    → FoundValid (found_after b r o)
found_after-FoundValid true r o v h = v
found_after-FoundValid false r o v h = h

IsValid-new : (r : Row) (l : List Row) → IsNew r l → IsValid r
IsValid-new r l n = record {
  mapped = n.mapped;
  group = ground (arith, n.checked, eq_iff r.pg "lp");
  owned = n.owned;
  has_signature = λ e. ground (arith, n.starts);
  has_document = λ e. ground (arith, n.starts);
}

Step-AllValid : {c d : Db} → Step c d → AllValid c → AllValid d
Step-AllValid (Step.note e n t q) h = record { valid = λ k. rw q (h.valid k) }
Step-AllValid {c} (Step.open_operation x e n m o f t q) h = record {
  valid = λ k. rw q (
      rw (find-append k c.operations x n.free) (
        found_after-FoundValid (x.operation_id == k) x _ (IsValid-new x c.operations n)
          (h.valid k)));
}
Step-AllValid {c} (Step.change x f e s i g n o y t q) h = record {
  valid = λ k. rw q (
      rw (find-change x f c.operations k s i) (
        found_after-FoundValid (x.operation_id == k) (f x) _
          (Edge-IsValid g (rw s at (h.valid x.operation_id))) (h.valid k)));
}

-- If every operation is valid (its document and reason are those of its decision, its product group
-- is lp, its INN is not empty, a state past the signature has one, and one past an accepted
-- submission has the document's number), then every operation is valid after any steps.
pub Steps-AllValid : {c d : Db} → Steps c d → AllValid c → AllValid d
Steps-AllValid Steps.here h = h
Steps-AllValid (Steps.next s t) h = Step-AllValid t (Steps-AllValid s h)

-- What an operation is about: all that is signed and sent.
pub record Business : Type 0 where
  pub fingerprint : String
  pub event_id : String
  pub decision : Decision
  pub document_type : String
  pub operation_reason : String
  pub pg : String
  pub expected_inn : String
  pub document_sha256 : String
  pub product_document_base64 : String
  pub prepared_at : String

abbrev pub business : Row → Business
business r = record {
  fingerprint = r.business_fingerprint;
  event_id = r.event_id;
  decision = r.decision;
  document_type = r.document_type;
  operation_reason = r.operation_reason;
  pg = r.pg;
  expected_inn = r.expected_inn;
  document_sha256 = r.document_sha256;
  product_document_base64 = r.product_document_base64;
  prepared_at = r.prepared_at;
}

abbrev pub business_at : String → Db → Option Business
business_at k d = Option.map business (find k d.operations)

-- No row is found under a key that is free.
pub find-free : (l : List Row) (r : Row) → is_taken r l ≡ false → find r.operation_id l ≡ none
unfolding find
find-free [] r h = refl
find-free (x ∷ l) r h = ground (arith, find-free l r)

Edge-business : {a b : Row} → Edge a b → business b ≡ business a
Edge-business (Edge.sign response signature now p d e) = rw e refl
Edge-business (Edge.finish result now p d e) = rw e refl
Edge-business (Edge.move target now p e) = rw e refl

Step-business :
    {c d : Db} (t : Step c d) (k : String) (b : Business)
    → business_at k c ≡ some b
    → business_at k d ≡ some b
Step-business (Step.note e n t q) k b h = rw q h
Step-business {c} (Step.open_operation x e n m o f t q) k b h = rw q (
    rw (find-append k c.operations x n.free) (elim (Bool-cases (x.operation_id == k)) [
      | inl y ↦ cc (h, eq_of_== x.operation_id k y, find-free c.operations x n.free)
      | inr y ↦ rw y h
    ]))
Step-business {c} (Step.change x f e s i g n o y t q) k b h = rw q (
    rw (find-change x f c.operations k s i) (elim (Bool-cases (x.operation_id == k)) [
      | inl z ↦ rw (z, Edge-business g) (rw (← eq_of_== x.operation_id k z, s) at h)
      | inr z ↦ rw z h
    ]))

-- What an operation is about never changes, once it is there.
pub Steps-business :
    {c d : Db}
    → Steps c d
    → (k : String) (b : Business) → business_at k c ≡ some b
    → business_at k d ≡ some b
Steps-business Steps.here k b h = h
Steps-business (Steps.next s t) k b h = Step-business t k b (Steps-business s k b h)
