-- ===== src/Aggregation/Relations.antt =====
-- `AggregationReconciliationService` of wbcz/aggregation.py. A set of codes is a list that is compared
-- in both directions; a mapping is a list of pairs, or `none` where the source allows None.
use fbs_chz.Prelude.{
  String, Bool, true, false, Option, none, some, List, [], ◌∷◌, ◌++◌, ◌&&◌, ◌||◌, ◌==◌, not, elem,
  opt_eq, any, all, if◌then◌else◌,
}
use fbs_chz.Aggregation.{
  AggregationHistorySemantic, AggregationReconciliationResult, is_disaggregation,
  is_auto_disaggregation, confirmed, pending, mismatch,
}

pub data AggregationOperationKind : Type 0 where
  form_transport_package form_multiproduct_transport_package : AggregationOperationKind
  form_set form_set_generic_compatibility : AggregationOperationKind
  transform_package_add transform_package_remove disaggregate_package : AggregationOperationKind
  form_atk transform_atk_add transform_atk_remove disaggregate_atk : AggregationOperationKind
  read_aggregate_tree read_aggregation_history : AggregationOperationKind
  reconcile_aggregation_operation auto_disaggregation_operation : AggregationOperationKind

-- `set(a) == set(b)` and `set(a) & set(b)`, where it is not empty.
abbrev pub subset : List String → List String → Bool
subset a b = all (λ x. elem x b) a

abbrev pub same_set : List String → List String → Bool
same_set a b = subset a b && subset b a

abbrev pub overlap : List String → List String → Bool
overlap a b = any (λ x. elem x b) a

abbrev pub is_empty : List String → Bool
is_empty [] = true
is_empty (x ∷ l) = false

-- `child_parents.get(c)`
abbrev pub Parents : Type 0
Parents = List (String × Option String)

unfoldable pub parent_of : Parents → String → Option String
parent_of [] c = none
parent_of ((k, p) ∷ l) c = if k == c then p else parent_of l c

-- `all(child_parents.get(c) == parent for c in codes)`, and with `!=`.
abbrev pub all_in : Parents → Option String → List String → Bool
all_in m parent codes = all (λ c. opt_eq (parent_of m c) parent) codes

abbrev pub none_in : Parents → Option String → List String → Bool
none_in m parent codes = all (λ c. not (opt_eq (parent_of m c) parent)) codes

-- `child_parents is not None and test(child_parents)`
abbrev pub given_and : Option Parents → (Parents → Bool) → Bool
given_and none test = false
given_and (some m) test = test m

abbrev pub given : Option String → Bool
given none = false
given (some s) = true

abbrev pub success : Option String → Bool
success status = opt_eq status (some "CHECKED_OK")

-- What was read back after the operation.
pub record Readback : Type 0 where
  pub expected_parent : Option String
  pub expected_children : List String
  pub actual_children : List String
  pub removed_children : List String
  pub child_parents : Option Parents
  pub history : List AggregationHistorySemantic
  pub parent_status : Option String

abbrev pub relation_mismatch : Readback → AggregationReconciliationResult
relation_mismatch x = mismatch "RELATION_STATE_MISMATCH" x.expected_parent

-- The children are the expected ones, each in the expected package.
abbrev pub is_exact : Readback → Bool
is_exact x =
    same_set x.actual_children x.expected_children
    && given_and x.child_parents (λ m. all_in m x.expected_parent x.expected_children)

abbrev pub when :
    Bool
    → AggregationReconciliationResult
    → AggregationReconciliationResult
    → AggregationReconciliationResult
when b r other = if b then r else other

-- The branch of a removal.
unfoldable pub reconcile_removal : Readback → AggregationReconciliationResult
reconcile_removal x =
    let remaining_ok =
      given_and x.child_parents (λ m. all_in m x.expected_parent x.expected_children) in
    let removed_ok =
      given_and x.child_parents (λ m. none_in m x.expected_parent x.removed_children) in
    if is_empty x.expected_children
    then when
        (is_empty x.actual_children
          && removed_ok
          && any is_auto_disaggregation x.history
          && given x.parent_status)
        (confirmed "REMOVE_ALL_AUTO_DISAGGREGATION_CONFIRMED" x.expected_parent)
        (relation_mismatch x)
    else when
        (same_set x.actual_children x.expected_children
          && not (overlap x.removed_children x.actual_children)
          && remaining_ok
          && removed_ok)
        (confirmed "REMOVE_RELATION_CONFIRMED" x.expected_parent) (relation_mismatch x)

-- The branch of a disaggregation.
unfoldable pub reconcile_disaggregation : Readback → AggregationReconciliationResult
reconcile_disaggregation x =
    when
      (is_empty x.actual_children
        && given_and x.child_parents
            (λ m. none_in m x.expected_parent (x.expected_children ++ x.removed_children))
        && any (λ y. is_disaggregation y || is_auto_disaggregation y) x.history
        && given x.parent_status)
      (confirmed "DISAGGREGATION_RELATION_HISTORY_STATE_READBACK_CONFIRMED" x.expected_parent)
      (relation_mismatch x)

unfoldable pub reconcile_checked :
    AggregationOperationKind → Readback → AggregationReconciliationResult
reconcile_checked form_transport_package x =
    when (is_exact x) (confirmed "EXACT_RELATION_CONFIRMED" x.expected_parent) (relation_mismatch x)
reconcile_checked form_multiproduct_transport_package x =
    when (is_exact x) (confirmed "EXACT_RELATION_CONFIRMED" x.expected_parent) (relation_mismatch x)
reconcile_checked form_set x =
    when (is_exact x) (confirmed "EXACT_RELATION_CONFIRMED" x.expected_parent) (relation_mismatch x)
reconcile_checked form_set_generic_compatibility x =
    when (is_exact x) (confirmed "EXACT_RELATION_CONFIRMED" x.expected_parent) (relation_mismatch x)
reconcile_checked transform_package_add x =
    when (is_exact x) (confirmed "ADD_RELATION_CONFIRMED" x.expected_parent) (relation_mismatch x)
reconcile_checked transform_package_remove x = reconcile_removal x
reconcile_checked disaggregate_package x = reconcile_disaggregation x
reconcile_checked _ x = relation_mismatch x

-- `reconcile_relation`
unfoldable pub reconcile_relation :
    AggregationOperationKind → Option String → Readback → AggregationReconciliationResult
reconcile_relation operation status x =
    if success status
    then reconcile_checked operation x
    else pending "DOCUMENT_NOT_CONFIRMED_SUCCESS" none

abbrev pub has_events : List AggregationHistorySemantic → Bool
has_events [] = false
has_events (x ∷ l) = true

-- `reconcile_auto_disaggregation`
unfoldable pub reconcile_auto_disaggregation :
    String
    → List String
    → List String
    → Parents
    → List AggregationHistorySemantic
    → AggregationReconciliationResult
reconcile_auto_disaggregation parent former actual parents history =
    if is_empty actual && none_in parents (some parent) former && any is_auto_disaggregation history
    then confirmed "AUTO_DISAGGREGATION_GRAPH_AND_HISTORY_CONFIRMED" (some parent)
    else if not (has_events history)
    then pending "AUTO_DISAGGREGATION_HISTORY_PENDING" (some parent)
    else mismatch "AUTO_DISAGGREGATION_MISMATCH" (some parent)

-- The parents that are named for some codes, each once.
unfoldable pub add_parent : Option String → List String → List String
add_parent none l = l
add_parent (some p) l = if elem p l then l else p ∷ l

unfoldable pub parents_of : Parents → List String → List String
parents_of m [] = []
parents_of m (c ∷ l) = add_parent (parent_of m c) (parents_of m l)

unfoldable pub children_of : List (String × List String) → String → List String
children_of [] p = []
children_of ((k, l) ∷ m) p = if k == p then l else children_of m p

abbrev pub reconcile_atk_parent :
    List String → Parents → List (String × List String) → String → AggregationReconciliationResult
reconcile_atk_parent submitted types children parent =
    if not (opt_eq (parent_of types parent) (some "ATK"))
    then mismatch "DISCOVERED_PARENT_NOT_ATK" none
    else if not (same_set (children_of children parent) submitted)
    then mismatch "ATK_RELATION_MISMATCH" (some parent)
    else confirmed "ATK_PARENT_DISCOVERED_AND_RELATION_CONFIRMED" (some parent)

abbrev pub with_one_parent :
    List String → (String → AggregationReconciliationResult) → AggregationReconciliationResult
with_one_parent (p ∷ []) f = f p
with_one_parent _ f = mismatch "ATK_PARENT_DISCOVERY_AMBIGUOUS" none

-- `reconcile_atk_formation`
unfoldable pub reconcile_atk_formation :
    Option String
    → List String
    → Parents
    → Parents
    → List (String × List String)
    → AggregationReconciliationResult
reconcile_atk_formation status submitted parents types children =
    if not (success status)
    then pending "DOCUMENT_NOT_CONFIRMED_SUCCESS" none
    else with_one_parent (parents_of parents submitted)
        (reconcile_atk_parent submitted types children)

-- `reconcile_atk_transformation`
unfoldable pub reconcile_atk_transformation :
    Option String
    → String
    → List String
    → List String
    → List String
    → String
    → Parents
    → AggregationReconciliationResult
reconcile_atk_transformation status parent expected actual changed kind parents =
    if not (success status)
    then pending "DOCUMENT_NOT_CONFIRMED_SUCCESS" (some parent)
    else if not (same_set actual expected)
    then mismatch "ATK_RELATION_MISMATCH" (some parent)
    else if kind == "ADDING"
    then when (all_in parents (some parent) expected)
        (confirmed "ATK_TRANSFORMATION_RELATION_CONFIRMED" (some parent))
        (mismatch "ATK_CHILD_PARENT_MISMATCH" (some parent))
    else if kind == "REMOVING"
    then when (all_in parents (some parent) expected && none_in parents (some parent) changed)
        (confirmed "ATK_TRANSFORMATION_RELATION_CONFIRMED" (some parent))
        (mismatch "ATK_CHILD_PARENT_MISMATCH" (some parent))
    else mismatch "ATK_TRANSFORMATION_TYPE_UNKNOWN" (some parent)

-- `reconcile_atk_disaggregation`
unfoldable pub reconcile_atk_disaggregation :
    Option String
    → String
    → List String
    → List String
    → Parents
    → List AggregationHistorySemantic
    → AggregationReconciliationResult
reconcile_atk_disaggregation status parent actual former parents history =
    if not (success status)
    then pending "DOCUMENT_NOT_CONFIRMED_SUCCESS" (some parent)
    else when
        (is_empty actual && none_in parents (some parent) former && any is_disaggregation history)
        (confirmed "ATK_DISAGGREGATION_RELATION_AND_HISTORY_CONFIRMED" (some parent))
        (mismatch "ATK_DISAGGREGATION_MISMATCH" (some parent))
