-- ===== src/Aggregation/SideEffects.antt =====
-- `reconcile_m5_aggregation_side_effect` of wbcz/aggregation.py: whether an operation on a packed code
-- has had the effect on its package that it must have.
use fbs_chz.Prelude.{
  String, Bool, true, false, Option, none, some, List, [], ◌∷◌, ◌&&◌, ◌||◌, ◌==◌, not, elem, opt_eq,
  any, if◌then◌else◌,
}
use fbs_chz.Aggregation.{
  PackageType, set, box, atk, group, AggregationHistorySemantic, AggregationReconciliationResult,
  is_disaggregation, is_auto_disaggregation, confirmed, pending, mismatch,
}

pub record M5AggregationObservation : Type 0 where
  pub cis : String
  pub pre_parent : Option String
  pub pre_parent_package_type : Option PackageType
  pub post_parent : Option String
  pub target_package_type : Option PackageType
  pub relation_read_complete : Bool
  pub relation_preserved : Option Bool
  pub history_semantics : List AggregationHistorySemantic
  pub old_status_raw : Option String
  pub remark_replacement_confirmed : Bool
  pub fts_color_size_exception : Bool

abbrev pub is_set : Option PackageType → Bool
is_set (some set) = true
is_set _ = false

abbrev pub is_box : Option PackageType → Bool
is_box (some box) = true
is_box _ = false

abbrev pub is_box_or_atk : Option PackageType → Bool
is_box_or_atk (some box) = true
is_box_or_atk (some atk) = true
is_box_or_atk _ = false

abbrev pub is_set_or_group : Option PackageType → Bool
is_set_or_group (some set) = true
is_set_or_group (some group) = true
is_set_or_group _ = false

abbrev pub introductions : List String
introductions =
    "INTRODUCE_DOMESTIC" ∷ "INTRODUCE_FROM_INDIVIDUAL" ∷ "INTRODUCE_IMPORT_PRE_MANDATORY"
    ∷ "INTRODUCE_EAEU" ∷ "INTRODUCE_REMAINS" ∷ "INTRODUCE_CONTRACT" ∷ "INTRODUCE_FTS" ∷ []

-- The code has left its package, and the history tells of it.
abbrev pub has_left : M5AggregationObservation → Bool
has_left x =
    not (opt_eq x.post_parent x.pre_parent)
    && any (λ y. is_disaggregation y || is_auto_disaggregation y) x.history_semantics

abbrev pub is_some_true : Option Bool → Bool
is_some_true (some true) = true
is_some_true _ = false

-- The return of an answer, or the next turn of the loop.
abbrev pub unless :
    Bool → String → M5AggregationObservation → Option AggregationReconciliationResult
unless true reason x = none
unless false reason x = some (mismatch reason x.pre_parent)

unfoldable pub observe_separation :
    String → M5AggregationObservation → Option AggregationReconciliationResult
observe_separation kind x =
    if kind == "INTRODUCE_FTS" && x.fts_color_size_exception
    then unless (opt_eq x.post_parent x.pre_parent) "FTS_COLOR_SIZE_RELATION_UNEXPECTEDLY_CHANGED" x
    else unless (has_left x) "EXPECTED_AUTO_DISAGGREGATION_NOT_CONFIRMED" x

unfoldable pub observe_return : M5AggregationObservation → Option AggregationReconciliationResult
observe_return x =
    if is_set_or_group x.target_package_type
    then unless (is_some_true x.relation_preserved) "AGGREGATE_RETURN_RELATION_NOT_PRESERVED" x
    else unless (has_left x) "NESTED_RETURN_AUTO_DISAGGREGATION_NOT_CONFIRMED" x

unfoldable pub observe_write_off : M5AggregationObservation → Option AggregationReconciliationResult
observe_write_off x =
    if is_set x.pre_parent_package_type
    then some (mismatch "WRITE_OFF_KIN_EFFECT_NOT_DOCUMENTED" x.pre_parent)
    else unless (not (is_box_or_atk x.pre_parent_package_type) || has_left x)
        "WRITE_OFF_AUTO_DISAGGREGATION_NOT_CONFIRMED" x

unfoldable pub observe_remark : M5AggregationObservation → Option AggregationReconciliationResult
observe_remark x =
    if is_set x.pre_parent_package_type
    then (if opt_eq x.old_status_raw (some "INTRODUCED")
        then unless (x.remark_replacement_confirmed && opt_eq x.post_parent x.pre_parent)
            "KIN_INTRODUCED_REMARK_REPLACEMENT_NOT_CONFIRMED" x
        else if opt_eq x.old_status_raw (some "RETIRED")
        then unless (has_left x) "KIN_RETIRED_REMARK_DISAGGREGATION_NOT_CONFIRMED" x
        else some (mismatch "KIN_REMARK_SOURCE_STATE_UNKNOWN" x.pre_parent))
    else unless (not (is_box x.pre_parent_package_type) || has_left x)
        "KITU_REMARK_AUTO_DISAGGREGATION_NOT_CONFIRMED" x

unfoldable pub observe_packed :
    String → M5AggregationObservation → Option AggregationReconciliationResult
observe_packed kind x =
    if kind == "CANCEL_WITHDRAWAL"
    then none
    else if kind == "WITHDRAW_DISTANCE" || elem kind introductions
    then observe_separation kind x
    else if elem kind ("RETURN_TO_CIRCULATION" ∷ "RETURN_REMOTE_SALE" ∷ [])
    then observe_return x
    else if kind == "WRITE_OFF"
    then observe_write_off x
    else if kind == "REMARK"
    then observe_remark x
    else some (mismatch "M5_AGGREGATION_EFFECT_NOT_MODELLED" x.pre_parent)

abbrev pub packed : Option String → Bool
packed none = false
packed (some p) = true

-- One turn of the loop.
unfoldable pub observe : String → M5AggregationObservation → Option AggregationReconciliationResult
observe kind x =
    if not x.relation_read_complete
    then some (pending "M5_AGGREGATION_RELATION_REREAD_REQUIRED" x.pre_parent)
    else if packed x.pre_parent
    then observe_packed kind x
    else none

abbrev pub or_next :
    Option AggregationReconciliationResult
    → AggregationReconciliationResult
    → AggregationReconciliationResult
or_next none rest = rest
or_next (some r) rest = r

unfoldable pub observe_all :
    String → List M5AggregationObservation → AggregationReconciliationResult
observe_all kind [] = confirmed "M5_AGGREGATION_EFFECT_CONFIRMED" none
observe_all kind (x ∷ l) = or_next (observe kind x) (observe_all kind l)

unfoldable pub reconcile_side_effect :
    String → List M5AggregationObservation → AggregationReconciliationResult
reconcile_side_effect kind [] = pending "M5_AGGREGATION_READBACK_REQUIRED" none
reconcile_side_effect kind (x ∷ l) = observe_all kind (x ∷ l)
