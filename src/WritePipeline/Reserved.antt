-- ===== src/WritePipeline/Reserved.antt =====
-- How often the audit of wbcz/write_pipeline.py tells of the reservation of an operation for submission.
use fbs_chz.Prelude.{
  ℕ, ◌+◌, ◌≤◌, String, Bool, true, false, Option, some, List, [], ◌∷◌, ◌++◌, ◌&&◌, ◌≡◌, arith, ◌==◌,
  if◌then◌else◌,
}
use fbs_chz.WritePipeline.Types.{WriteState}
use fbs_chz.WritePipeline.Schema.{AuditEntry, Db}
use fbs_chz.WritePipeline.Steps.{Step, Steps}

abbrev pub is_to_submitting : Option WriteState → Bool
is_to_submitting (some WriteState.submitting) = true
is_to_submitting _ = false

-- The entries of an operation that name SUBMITTING as its new state.
abbrev pub reserved_of : String → List AuditEntry → ℕ
reserved_of k [] = 0
reserved_of k (e ∷ l) =
    (if e.operation_id == k && is_to_submitting e.to_state then 1 else 0) + reserved_of k l

pub reserved_of-append :
    (k : String) (l : List AuditEntry) (e : AuditEntry)
    → reserved_of k (l ++ e ∷ [])
      ≡ reserved_of k l + (if e.operation_id == k && is_to_submitting e.to_state then 1 else 0)
reserved_of-append k [] e = omega arith
reserved_of-append k (x ∷ l) e = omega (arith, reserved_of-append k l e)

Step-reserved : {c d : Db} → Step c d → (k : String) → reserved_of k c.audit ≤ reserved_of k d.audit
Step-reserved {c} (Step.note e n t q) k = rw q (rw (reserved_of-append k c.audit e) (omega arith))
Step-reserved {c} (Step.open_operation r e n m o f t q) k =
    rw q (rw (reserved_of-append k c.audit e) (omega arith))
Step-reserved {c} (Step.change r f e s i g n o h t q) k =
    rw q (rw (reserved_of-append k c.audit e) (omega arith))

-- The audit forgets no reservation.
pub Steps-reserved :
    {c d : Db} → Steps c d → (k : String) → reserved_of k c.audit ≤ reserved_of k d.audit
Steps-reserved Steps.here k = omega arith
Steps-reserved (Steps.next s t) k = omega (arith, Steps-reserved s k, Step-reserved t k)
