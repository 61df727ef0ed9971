-- ===== src/Aggregation/Importer.antt =====
-- The preconditions of wbcz/aggregation.py on an importer's units (ATK).
use fbs_chz.Prelude.{
  String, Bool, true, false, Option, none, some, List, [], ◌∷◌, ◌&&◌, ◌||◌, ◌==◌, not, elem, opt_eq,
  leb, all, blank, present, prefix, len,
}
use fbs_chz.Runtime.{Runtime}
use fbs_chz.Effect.{ok, err}
use fbs_chz.Effect.Checks.{◌>>=◌, ◌>>◌, check, each}
use fbs_chz.Aggregation.{PackageType, group, set, box, atk}
use fbs_chz.Aggregation.Relation.{
  contract_error, manual_review, Verdict, CisAggregationSnapshot, digits_inn, validate_lp_relation,
}
use fbs_chz.Aggregation.Relations.{is_empty}
use fbs_chz.Aggregation.Forming.{is_in, is_set, group_or_lp, first_of}

abbrev pub text_of : Option String → String
text_of none = ""
text_of (some t) = t

-- `not value or len(value) < 4`, for a tariff code, does not hold.
abbrev pub has_prefix : Option String → Bool
has_prefix none = false
has_prefix (some t) = leb 4 (len t)

-- `a.tnved[:4] == b.tnved[:4]`
abbrev pub same_prefix : Option String → Option String → Bool
same_prefix a b = prefix 4 (text_of a) == prefix 4 (text_of b)

abbrev pub is_atk : Option PackageType → Bool
is_atk (some atk) = true
is_atk _ = false

abbrev pub is_importer : String → Verdict
is_importer role = check (role == "IMPORTER") (manual_review "ATK_IMPORTER_ROLE_REQUIRED")

abbrev pub holds_packages : Option PackageType → Bool
holds_packages (some set) = true
holds_packages (some box) = true
holds_packages (some group) = true
holds_packages _ = false

unfoldable pub check_atk_relation : Option PackageType → Option String → Verdict
check_atk_relation none pg = err (manual_review "UNKNOWN_RAW_PACKAGE_TYPE")
check_atk_relation (some kind) pg = validate_lp_relation atk kind (group_or_lp pg) false

unfoldable pub check_nested : Bool → CisAggregationSnapshot → Verdict
check_nested true x =
    check (not (is_empty x.nested_tnveds)) (manual_review "ATK_KIN_NESTED_TNVED_EVIDENCE_REQUIRED")
    >> check (all (λ t. opt_eq (some t) x.tnved) x.nested_tnveds)
        (manual_review "ATK_KIN_NESTED_TNVED_MISMATCH")
check_nested false x = ok tt

-- `_validate_atk_common_child`
unfoldable pub validate_atk_common_child : String → Bool → CisAggregationSnapshot → Verdict
validate_atk_common_child owner allow_fts_control x =
    check (opt_eq x.owner_inn (some owner)) (manual_review "ATK_OWNER_REQUIRED")
    >> check (opt_eq x.status_raw (some "APPLIED") && opt_eq x.emission_type (some "FOREIGN"))
        (manual_review "ATK_CHILD_MUST_BE_APPLIED_FOREIGN")
    >> check
        (blank x.status_ex_raw
          || opt_eq x.status_ex_raw (some "FTS_RESPOND_NOT_OK")
          || allow_fts_control && opt_eq x.status_ex_raw (some "FTS_CONTROL"))
        (manual_review "ATK_STATUS_EX_NOT_ALLOWED")
    >> check_atk_relation x.package_type x.product_group
    >> check (not (holds_packages x.package_type && is_empty x.direct_children))
        (manual_review "ATK_AGGREGATE_CHILD_MUST_BE_NONEMPTY")
    >> check (has_prefix x.tnved) (manual_review "ATK_TNVED_REQUIRED")
    >> check_nested (is_set x.package_type) x

-- Whether a set of the values of a field has one element, which is a text that is not empty.
abbrev pub same_group : CisAggregationSnapshot → List CisAggregationSnapshot → Bool
same_group x l = present x.product_group && all (λ y. opt_eq y.product_group x.product_group) l

abbrev pub same_tariff : CisAggregationSnapshot → List CisAggregationSnapshot → Bool
same_tariff x l = all (λ y. same_prefix y.tnved x.tnved) l

-- `validate_atk_preconditions`
unfoldable pub validate_atk :
    ⦃py : Runtime⦄ → String → String → List CisAggregationSnapshot → Bool → Verdict
validate_atk role inn children allow_fts_control = do
  a ← is_importer role
  owner ← digits_inn inn "participant_inn"
  x ← first_of children (contract_error "ATK children required")
  b ← check (same_group x children) (manual_review "ATK_SINGLE_PRODUCT_GROUP_REQUIRED")
  c ←
      each
        (λ y.
          validate_atk_common_child owner allow_fts_control y
          >> check (blank y.parent) (manual_review "ATK_CHILD_ALREADY_AGGREGATED"))
        children
  check (same_tariff x children) (manual_review "ATK_TNVED_FIRST4_MUST_MATCH")

-- What is asked of the unit whose content changes.
unfoldable pub check_atk_parent : String → CisAggregationSnapshot → Verdict
check_atk_parent owner x =
    check
      (is_atk x.package_type
        && opt_eq x.owner_inn (some owner)
        && opt_eq x.status_raw (some "APPLIED"))
      (manual_review "ATK_PARENT_PRECONDITION_FAILED")

unfoldable pub check_atk_child : Bool → String → String → CisAggregationSnapshot → Verdict
check_atk_child adding owner parent y =
    validate_atk_common_child owner false y
    >> check (not adding || blank y.parent) (manual_review "ATK_ADD_CHILD_ALREADY_AGGREGATED")
    >> check (adding || opt_eq y.parent (some parent))
        (manual_review "ATK_REMOVE_CHILD_NOT_IN_PARENT")

-- `validate_atk_transformation_preconditions`
unfoldable pub validate_atk_transformation :
    ⦃py : Runtime⦄
    → String
    → String
    → CisAggregationSnapshot
    → List CisAggregationSnapshot
    → String
    → Verdict
validate_atk_transformation role inn parent children transformation_type = do
  a ← is_importer role
  owner ← digits_inn inn "participant_inn"
  b ← check_atk_parent owner parent
  c ←
      check
        (opt_eq parent.emission_type (some "FOREIGN")
          && present parent.product_group
          && has_prefix parent.tnved)
        (manual_review "ATK_PARENT_FOREIGN_PG_TNVED_REQUIRED")
  d ←
      check (blank parent.status_ex_raw || opt_eq parent.status_ex_raw (some "FTS_RESPOND_NOT_OK"))
        (manual_review "ATK_PARENT_STATUS_EX_NOT_ALLOWED")
  e ←
      check (elem transformation_type ("ADDING" ∷ "REMOVING" ∷ []))
        (contract_error "transformation_type must be ADDING or REMOVING")
  x ← first_of children (contract_error "ATK transformation children required")
  f ← each (check_atk_child (transformation_type == "ADDING") owner parent.cis) children
  g ←
      check (same_group x children && same_tariff x children)
        (manual_review "ATK_SINGLE_PG_TNVED_REQUIRED")
  check (opt_eq x.product_group parent.product_group && same_prefix x.tnved parent.tnved)
      (manual_review "ATK_CHILDREN_MUST_MATCH_PARENT_PG_TNVED")

unfoldable pub check_atk_apart : String → CisAggregationSnapshot → Verdict
check_atk_apart owner x =
    check_atk_parent owner x
    >> check
        (blank x.status_ex_raw || is_in x.status_ex_raw ("FTS_RESPOND_NOT_OK" ∷ "FTS_CONTROL" ∷ []))
        (manual_review "ATK_DISAGGREGATION_STATUS_EX_NOT_ALLOWED")
    >> check (present x.product_group) (manual_review "ATK_DISAGGREGATION_PRODUCT_GROUP_REQUIRED")

-- `validate_atk_disaggregation_preconditions`
unfoldable pub validate_atk_disaggregation :
    ⦃py : Runtime⦄ → String → String → List CisAggregationSnapshot → Verdict
validate_atk_disaggregation role inn parents = do
  a ← is_importer role
  owner ← digits_inn inn "participant_inn"
  x ← first_of parents (contract_error "ATK parents required")
  b ← each (check_atk_apart owner) parents
  check (same_group x parents) (manual_review "ATK_DISAGGREGATION_SINGLE_PG_REQUIRED")
