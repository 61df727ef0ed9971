-- ===== src/Aggregation/Kits.antt =====
-- `validate_set_preconditions` of wbcz/aggregation.py: the conditions on forming a set.
use fbs_chz.Prelude.{
  ℕ, ◌+◌, String, Bool, true, false, Option, none, some, List, [], ◌∷◌, ◌&&◌, ◌||◌, not, nat_eq,
  opt_eq, all, any, map, blank, present, length, if◌then◌else◌,
}
use fbs_chz.Runtime.{Runtime}
use fbs_chz.Effect.{err}
use fbs_chz.Effect.Checks.{◌>>=◌, ◌>>◌, check, each}
use fbs_chz.Aggregation.{PackageType, unit_package, bundle}
use fbs_chz.Aggregation.Relation.{
  contract_error, manual_review, Verdict, CisAggregationSnapshot, digits_inn,
}
use fbs_chz.Aggregation.Forming.{
  is_in, is_open, is_set, usual_statuses, first_of, same_status, same_emission,
}

pub record SetCompositionRequirement : Type 0 where
  pub gtin_quantities : Option (List (String × ℕ))
  pub marked_products_quantity_in_set : Option ℕ
  pub published : Bool

abbrev pub is_single : Option PackageType → Bool
is_single (some unit_package) = true
is_single (some bundle) = true
is_single _ = false

-- What is asked of each child of a set, in the source's order.
unfoldable pub check_kit_child : String → CisAggregationSnapshot → Verdict
check_kit_child owner x =
    check (is_single x.package_type) (contract_error "KIN accepts only UNIT/BUNDLE")
    >> check (opt_eq x.product_group (some "lp"))
        (manual_review "KIN_CHILD_PRODUCT_GROUP_MUST_BE_LP")
    >> check (opt_eq x.owner_inn (some owner)) (manual_review "LEGACY_NON_OWNER_FLOW_NOT_ENABLED")
    >> check (blank x.parent) (manual_review "KIN_CHILD_ALREADY_AGGREGATED")

unfoldable pub check_kit_parent : String → CisAggregationSnapshot → Verdict
check_kit_parent owner x =
    check (is_set x.package_type) (contract_error "FORM_SET requires SET parent")
    >> check (opt_eq x.product_group (some "lp"))
        (manual_review "KIN_PARENT_PRODUCT_GROUP_MUST_BE_LP")
    >> check (opt_eq x.owner_inn (some owner)) (manual_review "LEGACY_NON_OWNER_FLOW_NOT_ENABLED")
    >> check (blank x.status_ex_raw) (manual_review "KIN_PARENT_SPECIAL_STATE_NOT_ALLOWED")

abbrev pub reused : List String
reused = "REMARK" ∷ "REAPPLY" ∷ []

-- The emissions of a set and its children: where the children are APPLIED, and where they are INTRODUCED.
unfoldable pub check_emissions :
    Bool → CisAggregationSnapshot → CisAggregationSnapshot → List CisAggregationSnapshot → Verdict
check_emissions true parent x l =
    check (same_emission x l && opt_eq parent.emission_type x.emission_type)
      (manual_review "KIN_APPLIED_EMISSION_MISMATCH")
    >> check (not (is_in parent.emission_type reused || any (λ y. is_in y.emission_type reused) l))
        (manual_review "KIN_APPLIED_REMARK_REAPPLY_FORBIDDEN")
check_emissions false parent x l =
    check (is_in parent.emission_type ("LOCAL" ∷ "REMAINS" ∷ []))
      (manual_review "KIN_INTRODUCED_PARENT_EMISSION_NOT_SUPPORTED")
    >> check
        (not (opt_eq parent.emission_type (some "REMAINS"))
          || all (λ y. opt_eq y.emission_type (some "REMAINS")) l)
        (manual_review "KIN_REMAINS_CHILD_EMISSION_MISMATCH")

-- `counts.get(gtin, 0)`
unfoldable pub count_gtin : String → List CisAggregationSnapshot → ℕ
count_gtin gtin [] = 0
count_gtin gtin (x ∷ l) =
    let rest = count_gtin gtin l in if opt_eq x.gtin (some gtin) then rest + 1 else rest

-- `counts == dict(gtin_quantities)`: a GTIN that is not there has no count, not the count 0.
unfoldable pub same_counts : List (String × ℕ) → List CisAggregationSnapshot → Bool
same_counts q l =
    all (λ p. nat_eq (count_gtin p.0 l) p.1 && not (nat_eq p.1 0)) q
    && all (λ x. is_in x.gtin (map (λ p. p.0) q)) l

unfoldable pub check_quantity : Option ℕ → List CisAggregationSnapshot → Verdict
check_quantity none l = err (manual_review "KIN_COMPOSITION_REFERENCE_REQUIRED")
check_quantity (some n) l =
    check (nat_eq (length l) n) (manual_review "KIN_MARKED_PRODUCTS_QUANTITY_MISMATCH")

unfoldable pub check_composition :
    Option (List (String × ℕ)) → Option ℕ → List CisAggregationSnapshot → Verdict
check_composition (some (p ∷ q)) n l =
    check (all (λ x. present x.gtin) l) (manual_review "KIN_GTIN_REQUIRED_BY_NKMT")
    >> check (same_counts (p ∷ q) l) (manual_review "KIN_NKMT_COMPOSITION_MISMATCH")
check_composition _ n l = check_quantity n l

-- `validate_set_preconditions`
unfoldable pub validate_set :
    ⦃py : Runtime⦄
    → CisAggregationSnapshot
    → List CisAggregationSnapshot
    → SetCompositionRequirement
    → String
    → Verdict
validate_set parent children composition inn = do
  owner ← digits_inn inn "participant_inn"
  a ← check_kit_parent owner parent
  b ← check composition.published (manual_review "SET_PRODUCT_CARD_NOT_PUBLISHED")
  x ← first_of children (contract_error "set children required")
  c ← each (check_kit_child owner) children
  d ←
      check (same_status x children && is_in x.status_raw usual_statuses)
        (manual_review "KIN_CHILD_STATUS_NOT_SUPPORTED")
  e ← check (all is_open children) (manual_review "KIN_CHILD_STATUS_EX_NOT_SUPPORTED")
  f ← check (opt_eq parent.status_raw (some "APPLIED")) (manual_review "KIN_PARENT_MUST_BE_APPLIED")
  g ← check_emissions (opt_eq x.status_raw (some "APPLIED")) parent x children
  check_composition composition.gtin_quantities composition.marked_products_quantity_in_set children
