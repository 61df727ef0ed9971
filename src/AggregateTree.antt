-- ===== src/AggregateTree.antt =====
-- `build_aggregate_tree` of wbcz/aggregation.py: the tree of packages under a code, read by two queries
-- that are arguments, with a limit on its depth. The depth that is left bounds the recursion, so no
-- fuel is added.
pub mod Full
mod Tests
use fbs_chz.Prelude.{
  ℕ, zero, suc, ◌+◌, String, Bool, true, false, Option, none, some, List, [], ◌∷◌, ◌++◌, ◌&&◌, ◌||◌,
  ◌==◌, not, leb, ltb, any, elem, filled, codes, len, ◌<+>◌, if◌then◌else◌,
}
use fbs_chz.Runtime.{Runtime}
use fbs_chz.Effect.{Result, ok, err, bind}

mutual
  pub data AggregateTreeNode : Type 0 where
    node : String → Option String → AggregateTreeNodes → AggregateTreeNode

  pub data AggregateTreeNodes : Type 0 where
    no_nodes : AggregateTreeNodes
    child : AggregateTreeNode → AggregateTreeNodes → AggregateTreeNodes

pub record AggregateTreeResult : Type 0 where
  pub root : AggregateTreeNode
  pub complete : Bool
  pub truncated : Bool
  pub warnings : List String

-- The variables that `walk` shares.
pub record WalkState : Type 0 where
  pub warnings : List String
  pub truncated : Bool
  pub incomplete : Bool
  pub visiting : List String
  pub seen_edges : List (String × String)

abbrev pub is_known_type : Option String → Bool
is_known_type none = false
is_known_type (some t) = elem t ("UNIT" ∷ "GROUP" ∷ "BUNDLE" ∷ "SET" ∷ "BOX" ∷ "ATK" ∷ [])

abbrev pub shown : Option String → String
shown none = "None"
shown (some t) = t

-- A warning, and the tree is not complete.
abbrev pub warn : String → WalkState → WalkState
warn w s = record s { warnings = s.warnings ++ w ∷ []; incomplete = true }

unfoldable pub note_package : Option String → WalkState → WalkState
note_package p s = if is_known_type p then s else warn ("UNKNOWN_RAW_PACKAGE_TYPE:" <+> shown p) s

abbrev discard_code : String → List String → List String
discard_code c [] = []
discard_code c (d ∷ l) = let rest = discard_code c l in if d == c then rest else d ∷ rest

abbrev pub has_edge : String → String → List (String × String) → Bool
has_edge a b l = any (λ e. e.0 == a && e.1 == b) l

-- The loop over the direct children of `cis`; `visit` is the walk one level down.
unfoldable pub walk_children :
    (String → WalkState → AggregateTreeNode × WalkState)
    → String
    → List String
    → WalkState
    → AggregateTreeNodes × WalkState
walk_children visit cis [] s = (no_nodes, s)
walk_children visit cis (c ∷ l) s =
    if has_edge cis c s.seen_edges
    then walk_children visit cis l (warn "DUPLICATE_EDGE_DROPPED" s)
    else let (n, s1) = visit c (record s { seen_edges = (cis, c) ∷ s.seen_edges }) in
      let (ns, s2) = walk_children visit cis l s1 in (child n ns, s2)

abbrev pub fresh_walk : WalkState
fresh_walk = record {
  warnings = [];
  truncated = false;
  incomplete = false;
  visiting = [];
  seen_edges = [];
}

abbrev pub tree_result : AggregateTreeNode × WalkState → AggregateTreeResult
tree_result (root, s) = record {
  root = root;
  complete = not s.incomplete && not s.truncated;
  truncated = s.truncated;
  warnings = s.warnings;
}

module _ (direct_children : String → List String) (package_type_of : String → Option String) where
  -- The part of `walk` after the check of the depth.
  unfoldable pub walk_node :
      (String → WalkState → AggregateTreeNode × WalkState)
      → String
      → WalkState
      → AggregateTreeNode × WalkState
  unfolding walk_children
  walk_node visit cis s =
      if elem cis s.visiting
      then (node cis (package_type_of cis) no_nodes, warn "CYCLE_DETECTED" s)
      else let (ns, s1) =
          walk_children visit cis (direct_children cis)
            (record s { visiting = cis ∷ s.visiting }) in
        (node cis (package_type_of cis) ns, record s1 { visiting = discard_code cis s1.visiting })

  -- `walk`, by the number of levels that are left: none where `depth > safety_max_depth`.
  unfoldable pub walk : ℕ → String → WalkState → AggregateTreeNode × WalkState
  unfolding note_package walk_node
  walk zero cis s = (
    node cis (package_type_of cis) no_nodes,
    record (warn "INTERNAL_SAFETY_LIMIT" (note_package (package_type_of cis) s)) {
      truncated = true;
    },
  )
  walk (suc n) cis s = walk_node (walk n) cis (note_package (package_type_of cis) s)

module _ ⦃py : Runtime⦄ where
  -- `_code(value, label)` for a text: `_text` with max_len 74, then its own checks.
  unfoldable pub checked_code : String → String → Result String String
  checked_code value label =
      if not (filled value) || not (py.strip value == value) || ltb 74 (len value)
      then err (label <+> " must be a non-empty trimmed string")
      else if not (leb 18 (len value) && leb (len value) 74) || any py.is_space (codes value)
      then err (label <+> " must be 18..74 non-whitespace chars")
      else ok value

  unfoldable pub build_aggregate_tree :
      String
      → (String → List String)
      → (String → Option String)
      → ℕ
      → Result String AggregateTreeResult
  build_aggregate_tree root_cis direct_children package_type_of safety_max_depth =
      bind (checked_code root_cis "root_cis") λ code.
        ok (
          tree_result (walk direct_children package_type_of (safety_max_depth + 1) code fresh_walk))
