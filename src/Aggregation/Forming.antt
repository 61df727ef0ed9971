-- ===== src/Aggregation/Forming.antt =====
-- The preconditions of wbcz/aggregation.py on forming a box and on taking packages apart.
use fbs_chz.Prelude.{
  String, Bool, true, false, Option, none, some, List, [], ◌∷◌, ◌&&◌, ◌||◌, ◌==◌, not, elem, opt_eq,
  all, any, blank, if◌then◌else◌,
}
use fbs_chz.Runtime.{Runtime}
use fbs_chz.Effect.{Result, ok, err}
use fbs_chz.Effect.Checks.{◌>>=◌, ◌>>◌, check, each}
use fbs_chz.Aggregation.{PackageType, group, set, box}
use fbs_chz.Aggregation.Relation.{
  AggregationError, contract_error, manual_review, Verdict, CisAggregationSnapshot, digits_inn,
  validate_lp_relation,
}

-- `value in values`, where the value may be missing
abbrev pub is_in : Option String → List String → Bool
is_in none l = false
is_in (some t) l = elem t l

-- `child.product_group or M6_PG`
abbrev pub group_or_lp : Option String → String
group_or_lp none = "lp"
group_or_lp (some t) = if t == "" then "lp" else t

-- `status_ex_raw in (None, "", "WAIT_TRANSFER_TO_OWNER")`
abbrev pub is_open : CisAggregationSnapshot → Bool
is_open x = blank x.status_ex_raw || opt_eq x.status_ex_raw (some "WAIT_TRANSFER_TO_OWNER")

abbrev pub usual_statuses : List String
usual_statuses = "APPLIED" ∷ "INTRODUCED" ∷ []

abbrev pub is_absent : Option CisAggregationSnapshot → Bool
is_absent none = true
is_absent (some x) = false

-- The first of some children.
abbrev pub first_of :
    List CisAggregationSnapshot → AggregationError → Result AggregationError CisAggregationSnapshot
first_of [] e = err e
first_of (x ∷ l) e = ok x

-- Whether a set of the values of a field has one element, where `x` is the first of the snapshots.
abbrev pub same_status : CisAggregationSnapshot → List CisAggregationSnapshot → Bool
same_status x l = all (λ y. opt_eq y.status_raw x.status_raw) l

abbrev pub same_emission : CisAggregationSnapshot → List CisAggregationSnapshot → Bool
same_emission x l = all (λ y. opt_eq y.emission_type x.emission_type) l

module _ (mixed_pg : Bool) (formed : List String) where
  abbrev pub check_mixed : CisAggregationSnapshot → Verdict
  check_mixed x =
      check (opt_eq x.status_raw (some "INTRODUCED") || is_in x.status_raw formed)
        (manual_review "MULTIPRODUCT_KITU_CHILD_STATUS_NOT_CONFIRMED")
      >> check (is_open x) (manual_review "MULTIPRODUCT_KITU_CHILD_STATUS_EX_NOT_SUPPORTED")

  abbrev pub check_alike : CisAggregationSnapshot → List CisAggregationSnapshot → Verdict
  check_alike x l =
      check (same_status x l) (manual_review "KITU_CHILD_STATUSES_MUST_MATCH")
      >> check (is_in x.status_raw usual_statuses) (manual_review "KITU_CHILD_STATUS_NOT_SUPPORTED")
      >> check (all is_open l) (manual_review "KITU_CHILD_STATUS_EX_NOT_SUPPORTED")

  -- The two ways of testing the statuses.
  unfoldable pub check_statuses :
      Bool → CisAggregationSnapshot → List CisAggregationSnapshot → Verdict
  check_statuses true x l = each check_mixed l
  check_statuses false x l = check_alike x l

  abbrev pub check_relation : Option PackageType → Option String → Verdict
  check_relation none pg = err (manual_review "UNKNOWN_RAW_PACKAGE_TYPE")
  check_relation (some kind) pg =
      check (not (mixed_pg && blank pg)) (manual_review "KITU_CHILD_PRODUCT_GROUP_REQUIRED")
      >> validate_lp_relation box kind (group_or_lp pg) mixed_pg

  -- What is asked of each child, in the source's order.
  unfoldable pub check_child : String → CisAggregationSnapshot → Verdict
  check_child owner x =
      check (opt_eq x.owner_inn (some owner)) (manual_review "LEGACY_NON_OWNER_FLOW_NOT_ENABLED")
      >> check (blank x.parent) (manual_review "CHILD_ALREADY_AGGREGATED")
      >> check_relation x.package_type x.product_group

  -- `validate_box_preconditions`
  unfoldable pub validate_box :
      ⦃py : Runtime⦄
      → Option CisAggregationSnapshot
      → List CisAggregationSnapshot
      → String
      → String
      → Verdict
  validate_box parent children inn leading_pg = do
    owner ← digits_inn inn "participant_inn"
    a ← check (is_absent parent) (manual_review "KITU_PARENT_IDENTIFIER_ALREADY_PRESENT_IN_CRPT")
    x ← first_of children (contract_error "KITU children required")
    b ← check_statuses mixed_pg x children
    c ← each (check_child owner) children
    d ←
        check (mixed_pg || not (opt_eq x.status_raw (some "APPLIED")) || same_emission x children)
          (manual_review "KITU_APPLIED_EMISSION_MISMATCH")
    check (not mixed_pg || any (λ y. opt_eq y.product_group (some leading_pg)) children)
        (manual_review "KITU_LEADING_PG_CHILD_REQUIRED")

-- The kind of a package that is taken apart.
unfoldable pub check_apart : Option PackageType → Verdict
check_apart (some group) = err (manual_review "GROUP_PARENT_NOT_EXPOSED_FOR_LP")
check_apart (some box) = ok tt
check_apart (some set) = ok tt
check_apart _ = err (contract_error "DISAGGREGATION_DOCUMENT supports BOX/SET for lp")

abbrev pub is_set : Option PackageType → Bool
is_set (some set) = true
is_set _ = false

unfoldable pub check_package : List String → String → CisAggregationSnapshot → Verdict
check_package formed owner x =
    check_apart x.package_type
    >> check (opt_eq x.owner_inn (some owner)) (manual_review "LEGACY_NON_OWNER_FLOW_NOT_ENABLED")
    >> check (is_in x.status_raw usual_statuses || is_in x.status_raw formed)
        (manual_review "DISAGGREGATION_PARENT_STATUS_NOT_CONFIRMED")
    >> check (is_open x) (manual_review "DISAGGREGATION_STATUS_EX_NOT_SUPPORTED")
    >> check
        (not (
          is_set x.package_type
          && opt_eq x.status_raw (some "APPLIED")
          && not (blank x.status_ex_raw)))
        (manual_review "APPLIED_SET_SPECIAL_STATE_FORBIDDEN")

-- `validate_disaggregation_preconditions`
unfoldable pub validate_disaggregation :
    ⦃py : Runtime⦄ → List CisAggregationSnapshot → String → List String → Verdict
validate_disaggregation parents inn formed = do
  owner ← digits_inn inn "participant_inn"
  x ← first_of parents (contract_error "disaggregation parents required")
  each (check_package formed owner) parents
