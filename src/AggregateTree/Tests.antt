-- ===== src/AggregateTree/Tests.antt =====
-- Runs of the aggregate tree, and its theorem at one of them.
use fbs_chz.Prelude.{
  String, true, false, Option, some, List, [], ◌∷◌, ◌==◌, ◌≡◌, ◌⊎◌, refl, if◌then◌else◌,
}
use fbs_chz.Effect.{ok}
use fbs_chz.AggregateTree.{
  AggregateTreeResult, node, no_nodes, child, note_package, walk_children, walk_node, walk,
  checked_code, build_aggregate_tree,
}
use fbs_chz.AggregateTree.Full.{IsFull, build_aggregate_tree-IsFull}
use fbs_chz.Samples.{plain}

abbrev box : String
box = "046012345678900001"

abbrev unit : String
unit = "046012345678900002"

-- A box with one unit, and the same box where the unit contains the box.
abbrev children : String → List String
children c = if c == box then unit ∷ [] else []

abbrev looping : String → List String
looping c = if c == box then unit ∷ [] else box ∷ []

abbrev kind : String → Option String
kind c = if c == box then some "BOX" else some "UNIT"

box_is_code : checked_code box "root_cis" ≡ ok box
unfolding checked_code
box_is_code = refl

box_with_unit :
    build_aggregate_tree box children kind 32
    ≡ ok (record {
      root = node box (some "BOX") (child (node unit (some "UNIT") no_nodes) no_nodes);
      complete = true;
      truncated = false;
      warnings = [];
    })
unfolding build_aggregate_tree checked_code walk walk_node walk_children note_package
box_with_unit = refl

cycle_is_found :
    build_aggregate_tree box looping kind 32
    ≡ ok (record {
      root = node box (some "BOX") (
          child
            (node unit (some "UNIT") (child (node box (some "BOX") no_nodes) no_nodes))
            no_nodes);
      complete = false;
      truncated = false;
      warnings = "CYCLE_DETECTED" ∷ [];
    })
unfolding build_aggregate_tree checked_code walk walk_node walk_children note_package
cycle_is_found = refl

build_aggregate_tree-IsFull_example :
    (t : AggregateTreeResult) × (build_aggregate_tree box children kind 32 ≡ ok t)
    × ((t.complete ≡ false)
        ⊎ (IsFull children kind box t.root × (t.warnings ≡ []) × (t.truncated ≡ false)))
build_aggregate_tree-IsFull_example =
    build_aggregate_tree-IsFull box children kind 32 box box_is_code
