-- ===== src/WritePipeline/States.antt =====
-- The sets of states that the methods of `WriteOperationStore` in wbcz/write_pipeline.py test for.
use fbs_chz.Prelude.{Bool, true, false}
use fbs_chz.WritePipeline.Types.{WriteState}

abbrev pub is_awaiting : WriteState → Bool
is_awaiting WriteState.awaiting_signature = true
is_awaiting _ = false

abbrev pub is_signed : WriteState → Bool
is_signed WriteState.signed = true
is_signed _ = false

abbrev pub is_submitting : WriteState → Bool
is_submitting WriteState.submitting = true
is_submitting _ = false

abbrev pub is_submitted : WriteState → Bool
is_submitted WriteState.submitted = true
is_submitted _ = false

abbrev pub is_pollable : WriteState → Bool
is_pollable WriteState.submitted = true
is_pollable WriteState.processing = true
is_pollable _ = false

abbrev pub is_reconcilable : WriteState → Bool
is_reconcilable WriteState.reconciliation_required = true
is_reconcilable _ = false

-- The states that `mark_manual_review` and `mark_error` expect.
abbrev pub is_reviewable : WriteState → Bool
is_reviewable WriteState.awaiting_signature = true
is_reviewable WriteState.signed = true
is_reviewable WriteState.submitting = true
is_reviewable WriteState.submitted = true
is_reviewable WriteState.processing = true
is_reviewable WriteState.reconciliation_required = true
is_reviewable _ = false

abbrev pub is_unsent : WriteState → Bool
is_unsent WriteState.awaiting_signature = true
is_unsent WriteState.signed = true
is_unsent _ = false

-- The states in which the same signature is taken again.
abbrev pub is_replayable : WriteState → Bool
is_replayable WriteState.prepared = false
is_replayable WriteState.awaiting_signature = false
is_replayable WriteState.error = false
is_replayable _ = true

-- The states in which a second submission is told apart.
abbrev pub is_in_flight : WriteState → Bool
is_in_flight WriteState.submitting = true
is_in_flight WriteState.submitted = true
is_in_flight WriteState.processing = true
is_in_flight WriteState.reconciliation_required = true
is_in_flight WriteState.succeeded = true
is_in_flight _ = false
