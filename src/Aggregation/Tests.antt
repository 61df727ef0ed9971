-- ===== src/Aggregation/Tests.antt =====
-- Packages that are read back after an operation, and those that are formed and taken apart.
use fbs_chz.Prelude.{String, List, All, true, false, Option, none, some, [], ◌∷◌, ◌≡◌, refl}
use fbs_chz.Models.{aware}
use fbs_chz.Effect.{ok, err}
use fbs_chz.Effect.Checks.{each}
use fbs_chz.Samples.{plain, inn}
use fbs_chz.Aggregation.{is_reconciled, unit_package, box, set}
use fbs_chz.Aggregation.Relation.{
  contract_error, CisAggregationSnapshot, digits_inn, trimmed, validate_lp_relation, check_parent,
  may_hold,
}
use fbs_chz.Aggregation.Forming.{
  validate_box, check_statuses, check_child, validate_disaggregation, check_package, check_apart,
}
use fbs_chz.Aggregation.Kits.{
  SetCompositionRequirement, validate_set, check_kit_parent, check_kit_child, check_emissions,
  check_composition, same_counts, count_gtin,
}
use fbs_chz.Aggregation.Importer.{
  validate_atk, validate_atk_common_child, check_atk_relation, check_nested,
}
use fbs_chz.Aggregation.Moving.{
  Reaggregation, validate_reaggregation, check_usual_parent, check_all_moved, check_moved,
  check_usual_child, check_placed, check_all_remaining,
}
use fbs_chz.Aggregation.Formed.{IsPlaceable, AreAlike, validate_box_sound}
use fbs_chz.Aggregation.Separated.{IsSeparable, validate_disaggregation_sound}
use fbs_chz.Aggregation.Relations.{
  form_transport_package, Readback, reconcile_relation, reconcile_checked, parent_of,
}
use fbs_chz.Aggregation.Confirmed.{IsConfirmed, reconcile_relation-IsConfirmed}

abbrev checked : Option String
checked = some "CHECKED_OK"

abbrev formed : Readback
formed = record {
  expected_parent = some "box-1";
  expected_children = "unit-1" ∷ "unit-2" ∷ [];
  actual_children = "unit-2" ∷ "unit-1" ∷ [];
  removed_children = [];
  child_parents = some (("unit-1", some "box-1") ∷ ("unit-2", some "box-1") ∷ []);
  history = [];
  parent_status = none;
}

formed_is_confirmed :
    is_reconciled (reconcile_relation form_transport_package checked formed).state ≡ true
unfolding reconcile_relation reconcile_checked parent_of
formed_is_confirmed = refl

reconcile_relation-IsConfirmed_example :
    (checked ≡ checked) × IsConfirmed form_transport_package formed
reconcile_relation-IsConfirmed_example =
    reconcile_relation-IsConfirmed form_transport_package checked formed formed_is_confirmed

abbrev shirt : CisAggregationSnapshot
shirt = record {
  cis = "010460123456789021ABC";
  package_type = some unit_package;
  product_group = some "lp";
  status_raw = some "INTRODUCED";
  status_ex_raw = none;
  owner_inn = some inn;
  emission_type = some "LOCAL";
  parent = none;
  direct_children = [];
  gtin = some "04601234567890";
  tnved = some "6109";
  fetched_at = some (aware 1714557540000000);
  nested_tnveds = [];
}

abbrev carton : CisAggregationSnapshot
carton = record shirt {
  cis = "010460123456789021BOX";
  package_type = some box;
  direct_children = "010460123456789021ABC" ∷ [];
}

abbrev packed : List CisAggregationSnapshot
packed = shirt ∷ record shirt { cis = "010460123456789021DEF" } ∷ []

abbrev absent : Option CisAggregationSnapshot
absent = none

may_form : validate_box false [] absent packed inn "lp" ≡ ok tt
unfolding validate_box digits_inn trimmed check_statuses check_child validate_lp_relation
    check_parent may_hold each
may_form = refl

may_separate : validate_disaggregation (carton ∷ []) inn [] ≡ ok tt
unfolding validate_disaggregation digits_inn trimmed check_package check_apart each
may_separate = refl

validate_box_sound_example :
    (absent ≡ none) × All (IsPlaceable false inn) packed × AreAlike false [] packed
validate_box_sound_example = validate_box_sound false [] absent packed inn "lp" tt may_form

validate_disaggregation_sound_example : All (IsSeparable [] inn) (carton ∷ [])
validate_disaggregation_sound_example =
    validate_disaggregation_sound (carton ∷ []) inn [] tt may_separate

abbrev kit : CisAggregationSnapshot
kit = record shirt {
  cis = "010460123456789021KIT";
  package_type = some set;
  status_raw = some "APPLIED";
}

abbrev pair_of_shirts : SetCompositionRequirement
pair_of_shirts = record {
  gtin_quantities = some (("04601234567890", 2) ∷ []);
  marked_products_quantity_in_set = none;
  published = true;
}

may_form_kit : validate_set kit packed pair_of_shirts inn ≡ ok tt
unfolding validate_set digits_inn trimmed check_kit_parent check_kit_child check_emissions
    check_composition same_counts count_gtin each
may_form_kit = refl

abbrev foreign_shirt : CisAggregationSnapshot
foreign_shirt = record shirt { status_raw = some "APPLIED"; emission_type = some "FOREIGN" }

may_form_atk : validate_atk "IMPORTER" inn (foreign_shirt ∷ []) false ≡ ok tt
unfolding validate_atk digits_inn trimmed validate_atk_common_child check_atk_relation
    validate_lp_relation check_parent may_hold check_nested each
may_form_atk = refl

abbrev adding : Reaggregation
adding = record {
  parent = carton;
  reaggregation_type = "ADDING";
  nested_box_codes = [];
  remaining_children = [];
  leading_pg = "lp";
  mixed_pg = false;
  runtime_formed_status_values = [];
}

may_add : validate_reaggregation adding packed inn ≡ ok tt
unfolding validate_reaggregation digits_inn trimmed check_usual_parent check_all_moved check_moved
    check_usual_child check_placed check_all_remaining validate_lp_relation check_parent may_hold
may_add = refl

-- A package that is named twice is refused.
may_not_add_twice :
    validate_reaggregation adding (shirt ∷ shirt ∷ []) inn
    ≡ err (contract_error "reaggregation children must be unique")
unfolding validate_reaggregation digits_inn trimmed check_usual_parent check_all_moved check_moved
    check_usual_child check_placed validate_lp_relation check_parent may_hold
may_not_add_twice = refl
