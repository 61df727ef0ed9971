-- ===== src/Aggregation/Moving.antt =====
-- `validate_reaggregation_preconditions` of wbcz/aggregation.py: the conditions on adding packages to a
-- package and removing them from it.
use fbs_chz.Prelude.{
  String, Bool, true, false, Option, some, List, [], ◌∷◌, ◌&&◌, ◌||◌, ◌==◌, not, elem, opt_eq, all,
  any, blank, present, if◌then◌else◌,
}
use fbs_chz.Runtime.{Runtime}
use fbs_chz.Effect.{ok, err}
use fbs_chz.Effect.Checks.{◌>>=◌, ◌>>◌, check, each}
use fbs_chz.Aggregation.{PackageType, box}
use fbs_chz.Aggregation.Relation.{
  contract_error, manual_review, Verdict, CisAggregationSnapshot, digits_inn, validate_lp_relation,
}
use fbs_chz.Aggregation.Forming.{is_in, is_open, is_set, group_or_lp, usual_statuses, first_of}
use fbs_chz.Aggregation.Kits.{is_single, reused}

abbrev pub is_box : Option PackageType → Bool
is_box (some box) = true
is_box _ = false

-- What the caller says beside the packages themselves.
pub record Reaggregation : Type 0 where
  pub parent : CisAggregationSnapshot
  pub reaggregation_type : String
  pub nested_box_codes : List String
  pub remaining_children : List CisAggregationSnapshot
  pub leading_pg : String
  pub mixed_pg : Bool
  pub runtime_formed_status_values : List String

module _ (q : Reaggregation) where
  abbrev pub is_confirmed : CisAggregationSnapshot → Bool
  is_confirmed x =
      opt_eq x.status_raw (some "INTRODUCED") || is_in x.status_raw q.runtime_formed_status_values

  unfoldable pub check_mixed_parent : CisAggregationSnapshot → Verdict
  check_mixed_parent x =
      check (is_box x.package_type) (manual_review "MULTIPRODUCT_REAGGREGATION_REQUIRES_BOX_PARENT")
      >> check (is_in x.status_raw q.runtime_formed_status_values)
          (manual_review "MULTIPRODUCT_KITU_PARENT_STATUS_RUNTIME_CONFIRMATION_REQUIRED")
      >> check (blank x.status_ex_raw)
          (manual_review "MULTIPRODUCT_KITU_PARENT_STATUS_EX_NOT_SUPPORTED")

  unfoldable pub check_usual_parent : CisAggregationSnapshot → Verdict
  check_usual_parent x =
      check (is_in x.status_raw usual_statuses)
        (manual_review "REAGGREGATION_PARENT_STATUS_NOT_SUPPORTED")
      >> check (blank x.status_ex_raw)
          (manual_review "REAGGREGATION_PARENT_STATUS_EX_NOT_SUPPORTED")

  unfoldable pub check_mixed_child : CisAggregationSnapshot → Verdict
  check_mixed_child x =
      check (is_confirmed x) (manual_review "MULTIPRODUCT_KITU_CHILD_STATUS_NOT_CONFIRMED")
      >> check (is_open x) (manual_review "MULTIPRODUCT_KITU_CHILD_STATUS_EX_NOT_SUPPORTED")
      >> check (present x.product_group) (manual_review "KITU_CHILD_PRODUCT_GROUP_REQUIRED")

  unfoldable pub check_usual_child : CisAggregationSnapshot → Verdict
  check_usual_child x =
      check (opt_eq x.status_raw q.parent.status_raw)
        (manual_review "REAGGREGATION_STATUS_MISMATCH")
      >> check
          (blank x.status_ex_raw
            || elem x.cis q.nested_box_codes
              && opt_eq x.status_ex_raw (some "WAIT_TRANSFER_TO_OWNER"))
          (manual_review "REAGGREGATION_STATUS_EX_NOT_SUPPORTED")
      >> check (not (opt_eq q.parent.status_raw (some "APPLIED") && is_in x.emission_type reused))
          (manual_review "REAGGREGATION_APPLIED_REMARK_REAPPLY_FORBIDDEN")

  unfoldable pub check_placed : Option PackageType → Option PackageType → Option String → Verdict
  check_placed (some parent) (some kind) pg =
      validate_lp_relation parent kind (group_or_lp pg) q.mixed_pg
  check_placed _ kind pg = err (manual_review "UNKNOWN_RAW_PACKAGE_TYPE")

  -- What is asked of each child, after the codes that were seen before it.
  unfoldable pub check_moved : String → List String → CisAggregationSnapshot → Verdict
  check_moved owner seen x =
      check (not (elem x.cis seen)) (contract_error "reaggregation children must be unique")
      >> check (opt_eq x.owner_inn (some owner)) (manual_review "LEGACY_NON_OWNER_FLOW_NOT_ENABLED")
      >> (if q.mixed_pg then check_mixed_child x else check_usual_child x)
      >> check
          (not (elem x.cis q.nested_box_codes)
            || is_box x.package_type && is_box q.parent.package_type)
          (contract_error "kitu item is only valid for BOX inside BOX")
      >> check_placed q.parent.package_type x.package_type x.product_group
      >> check (not (q.reaggregation_type == "ADDING") || blank x.parent)
          (manual_review "ADDING_CHILD_ALREADY_AGGREGATED")
      >> check (not (q.reaggregation_type == "REMOVING") || opt_eq x.parent (some q.parent.cis))
          (manual_review "REMOVING_CHILD_NOT_IN_PARENT")

  unfoldable pub check_all_moved : String → List String → List CisAggregationSnapshot → Verdict
  check_all_moved owner seen [] = ok tt
  check_all_moved owner seen (x ∷ l) =
      check_moved owner seen x >> check_all_moved owner (x.cis ∷ seen) l

  unfoldable pub check_remaining : String → CisAggregationSnapshot → Verdict
  check_remaining owner x =
      check (opt_eq x.owner_inn (some owner)) (manual_review "LEGACY_NON_OWNER_FLOW_NOT_ENABLED")
      >> check (is_confirmed x)
          (manual_review "MULTIPRODUCT_KITU_REMAINING_CHILD_STATUS_NOT_CONFIRMED")
      >> check (is_open x) (manual_review "MULTIPRODUCT_KITU_REMAINING_STATUS_EX_NOT_SUPPORTED")
      >> check (present x.product_group) (manual_review "KITU_CHILD_PRODUCT_GROUP_REQUIRED")

  -- The children that stay in a box of several kinds of goods.
  unfoldable pub check_all_remaining : String → List CisAggregationSnapshot → Verdict
  check_all_remaining owner [] = ok tt
  check_all_remaining owner (x ∷ l) =
      if is_box q.parent.package_type && q.mixed_pg
      then each (check_remaining owner) (x ∷ l)
        >> check (any (λ y. opt_eq y.product_group (some q.leading_pg)) (x ∷ l))
            (manual_review "KITU_LEADING_PG_CHILD_REQUIRED_AFTER_REMOVAL")
      else ok tt

  -- `validate_reaggregation_preconditions`
  unfoldable pub validate_reaggregation :
      ⦃py : Runtime⦄ → List CisAggregationSnapshot → String → Verdict
  validate_reaggregation children inn = do
    owner ← digits_inn inn "participant_inn"
    a ←
        check (is_box q.parent.package_type || is_set q.parent.package_type)
          (manual_review "REAGGREGATION_PARENT_NOT_SUPPORTED_FOR_LP")
    b ←
        check (opt_eq q.parent.owner_inn (some owner))
          (manual_review "LEGACY_NON_OWNER_FLOW_NOT_ENABLED")
    c ←
        check (elem q.reaggregation_type ("ADDING" ∷ "REMOVING" ∷ []))
          (contract_error "reaggregation_type must be ADDING or REMOVING")
    x ← first_of children (contract_error "reaggregation children required")
    d ← (if q.mixed_pg then check_mixed_parent q.parent else check_usual_parent q.parent)
    e ← check_all_moved owner [] children
    f ←
        check (not (is_set q.parent.package_type) || all (λ y. is_single y.package_type) children)
          (contract_error "SET transformation permits only UNIT/BUNDLE")
    check_all_remaining owner q.remaining_children
