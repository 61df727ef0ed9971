-- ===== src/Aggregation.antt =====
-- wbcz/aggregation.py: the kinds of packages and of history events, and the answers of reconciliation.
-- `Relation` has the snapshots and the checks of identifiers and kinds, `Forming` the preconditions on
-- forming a box and on taking packages apart, `Kits` those on sets, `Importer` those on an importer's
-- units, `Moving` those on adding packages and removing them.
-- `Relations` compares the packages read back with those expected after an operation on them,
-- `SideEffects` those behind an operation of turnover. `Formed`, `Separated` and
-- `Confirmed` hold proofs.
use fbs_chz.Prelude.{String, Bool, true, false, Option, none, some, List, [], ◌∷◌, any}
pub mod Relation
pub mod Forming
pub mod Kits
pub mod Importer
pub mod Moving
pub mod Formed
pub mod Separated
pub mod Relations
pub mod SideEffects
pub mod Confirmed
mod Tests

pub data PackageType : Type 0 where
  unit_package group bundle set box atk : PackageType

pub data AggregationHistorySemantic : Type 0 where
  aggregation disaggregation auto_disaggregation : AggregationHistorySemantic
  transformation unknown : AggregationHistorySemantic

pub data AggregationReconciliationState : Type 0 where
  reconciliation_pending reconciled manual_review : AggregationReconciliationState

pub record AggregationReconciliationResult : Type 0 where
  pub state : AggregationReconciliationState
  pub reason : String
  pub discovered_parent_cis : Option String

abbrev pub is_disaggregation : AggregationHistorySemantic → Bool
is_disaggregation disaggregation = true
is_disaggregation _ = false

abbrev pub is_auto_disaggregation : AggregationHistorySemantic → Bool
is_auto_disaggregation auto_disaggregation = true
is_auto_disaggregation _ = false

abbrev pub is_reconciled : AggregationReconciliationState → Bool
is_reconciled reconciled = true
is_reconciled _ = false

-- An answer, with the parent that it names.
abbrev pub confirmed : String → Option String → AggregationReconciliationResult
confirmed reason parent = record {
  state = reconciled;
  reason = reason;
  discovered_parent_cis = parent;
}

abbrev pub pending : String → Option String → AggregationReconciliationResult
pending reason parent = record {
  state = reconciliation_pending;
  reason = reason;
  discovered_parent_cis = parent;
}

abbrev pub mismatch : String → Option String → AggregationReconciliationResult
mismatch reason parent = record {
  state = manual_review;
  reason = reason;
  discovered_parent_cis = parent;
}
