-- ===== src/AggregateTree/Full.antt =====
-- A complete tree of `build_aggregate_tree` (wbcz/aggregation.py) is the whole relation under its root.
use fbs_chz.Prelude.{
  ℕ, zero, suc, ◌+◌, String, true, false, Option, List, [], ◌∷◌, ◌≡◌, ◌⊎◌, refl, inl, inr, arith,
  elem, ◌<+>◌, Bool-cases,
}
use fbs_chz.Runtime.{Runtime}
use fbs_chz.Effect.{ok}
use fbs_chz.AggregateTree.{
  AggregateTreeNode, AggregateTreeNodes, node, no_nodes, child, AggregateTreeResult, WalkState,
  is_known_type, warn, shown, note_package, has_edge, walk_children, walk_node, walk, fresh_walk,
  tree_result, checked_code, build_aggregate_tree,
}

module _ (direct_children : String → List String) (package_type_of : String → Option String) where
  mutual
    -- The node shows the code, its package type, which is a known one, and all its children, in the
    -- order of the query; and so on below.
    pub data IsFull : String → AggregateTreeNode → Type 0 where
      full :
          (c : String) (ns : AggregateTreeNodes)
          → is_known_type (package_type_of c) ≡ true
          → AreFull (direct_children c) ns
          → IsFull c (node c (package_type_of c) ns)

    pub data AreFull : List String → AggregateTreeNodes → Type 0 where
      none_left : AreFull [] no_nodes
      next_child :
          (c : String) (l : List String) (n : AggregateTreeNode) (ns : AggregateTreeNodes)
          → IsFull c n
          → AreFull l ns
          → AreFull (c ∷ l) (child n ns)

  -- No warning has been given.
  record IsClean (s : WalkState) : Type 0 where
    whole : s.incomplete ≡ false
    quiet : s.warnings ≡ []
    untruncated : s.truncated ≡ false

  fresh_walk-IsClean : IsClean fresh_walk
  fresh_walk-IsClean = record { whole = refl; quiet = refl; untruncated = refl }

  -- Where the flags after a walk say complete, they did before, and the node is full.
  record Walked (c : String) (s : WalkState) (r : AggregateTreeNode × WalkState) : Type 0 where
    flagged : r.1.incomplete ≡ false → s.incomplete ≡ false
    is_full : r.1.incomplete ≡ false → IsFull c r.0
    clean : r.1.incomplete ≡ false → IsClean s → IsClean r.1

  record WalkedAll (l : List String) (s : WalkState) (r : AggregateTreeNodes × WalkState)
      : Type 0 where
    flagged : r.1.incomplete ≡ false → s.incomplete ≡ false
    are_full : r.1.incomplete ≡ false → AreFull l r.0
    clean : r.1.incomplete ≡ false → IsClean s → IsClean r.1

  walk_children-WalkedAll :
      (visit : String → WalkState → AggregateTreeNode × WalkState)
      → ((c : String) (s : WalkState) → Walked c s (visit c s))
      → (cis : String) (l : List String) (s : WalkState)
      → WalkedAll l s (walk_children visit cis l s)
  unfolding walk_children
  walk_children-WalkedAll visit h cis [] s = record {
    flagged = λ e. e;
    are_full = λ e. none_left;
    clean = λ e g. g;
  }
  walk_children-WalkedAll visit h cis (c ∷ l) s = elim (Bool-cases (has_edge cis c s.seen_edges)) [
    | inl dup ↦ rw dup (
        let r = walk_children-WalkedAll visit h cis l (warn "DUPLICATE_EDGE_DROPPED" s) in
        record {
          flagged = λ e. absurd (ground (arith, r.flagged e));
          are_full = λ e. absurd (ground (arith, r.flagged e));
          clean = λ e g. absurd (ground (arith, r.flagged e));
        })
    | inr new ↦ rw new (
        let s0 = record s { seen_edges = (cis, c) ∷ s.seen_edges } in
        let v = h c s0 in
        let r = walk_children-WalkedAll visit h cis l (visit c s0).1 in
        record {
          flagged = λ e. v.flagged (r.flagged e);
          are_full = λ e. next_child c l _ _ (v.is_full (r.flagged e)) (r.are_full e);
          clean = λ e g. r.clean e (
              v.clean (r.flagged e)
                (record { whole = g.whole; quiet = g.quiet; untruncated = g.untruncated }));
        })
  ]

  walk_node-flagged :
      (visit : String → WalkState → AggregateTreeNode × WalkState)
      → ((c : String) (s : WalkState) → Walked c s (visit c s))
      → (c : String) (s : WalkState)
      → (walk_node direct_children package_type_of visit c s).1.incomplete ≡ false
      → s.incomplete ≡ false
  unfolding walk_node
  walk_node-flagged visit h c s e = elim (Bool-cases (elem c s.visiting)) [
    | inl cycle ↦ absurd (ground arith)
    | inr new ↦
        (walk_children-WalkedAll visit h c (direct_children c)
            (record s { visiting = c ∷ s.visiting })).flagged
          (rw new at e)
  ]

  walk_node-Walked :
      (visit : String → WalkState → AggregateTreeNode × WalkState)
      → ((c : String) (s : WalkState) → Walked c s (visit c s))
      → (c : String) (s : WalkState) → is_known_type (package_type_of c) ≡ true
      → Walked c s (walk_node direct_children package_type_of visit c s)
  unfolding walk_node
  walk_node-Walked visit h c s known = elim (Bool-cases (elem c s.visiting)) [
    | inl cycle ↦ rw cycle (record {
      flagged = λ e. absurd (ground arith);
      is_full = λ e. absurd (ground arith);
      clean = λ e g. absurd (ground arith);
    })
    | inr new ↦ rw new (
        let r =
          walk_children-WalkedAll visit h c (direct_children c)
            (record s { visiting = c ∷ s.visiting }) in
        record {
          flagged = λ e. r.flagged e;
          is_full = λ e. full c _ known (r.are_full e);
          clean = λ e g.
              let q =
                r.clean e
                  (record { whole = g.whole; quiet = g.quiet; untruncated = g.untruncated }) in
              record { whole = q.whole; quiet = q.quiet; untruncated = q.untruncated };
        })
  ]

  walk-Walked :
      (n : ℕ) (c : String) (s : WalkState) → Walked c s (walk direct_children package_type_of n c s)
  unfolding walk note_package
  walk-Walked zero c s = record {
    flagged = λ e. absurd (ground arith);
    is_full = λ e. absurd (ground arith);
    clean = λ e g. absurd (ground arith);
  }
  walk-Walked (suc n) c s = elim (Bool-cases (is_known_type (package_type_of c))) [
    | inl known ↦
        rw known
          (walk_node-Walked (walk direct_children package_type_of n) (walk-Walked n) c s known)
    | inr unknown ↦ rw unknown (
        let not_known =
          walk_node-flagged (walk direct_children package_type_of n) (walk-Walked n) c
            (warn ("UNKNOWN_RAW_PACKAGE_TYPE:" <+> shown (package_type_of c)) s) in
        record {
          flagged = λ e. absurd (ground (arith, not_known e));
          is_full = λ e. absurd (ground (arith, not_known e));
          clean = λ e g. absurd (ground (arith, not_known e));
        })
  ]

module _ ⦃py : Runtime⦄ where
  checked_code-eq : (v l c : String) → checked_code v l ≡ ok c → c ≡ v
  unfolding checked_code
  checked_code-eq v l c h = ground arith

  -- For a root that is a code, `build_aggregate_tree` returns, whatever the queries answer and
  -- whatever the limit: either the tree is reported as not complete, or it is the whole relation. In
  -- that case it starts at the code that was asked for, every node shows a code with its package type,
  -- which is a known one, and all its direct children in order, no warning was given, and nothing was
  -- cut off.
  pub build_aggregate_tree-IsFull :
      (root : String) (direct_children : String → List String)
      (package_type_of : String → Option String) (limit : ℕ) (code : String)
      → checked_code root "root_cis" ≡ ok code
      → (t : AggregateTreeResult) × (build_aggregate_tree root direct_children package_type_of limit
          ≡ ok t)
        × ((t.complete ≡ false)
            ⊎ (IsFull direct_children package_type_of root t.root
                × (t.warnings ≡ [])
                × (t.truncated ≡ false)))
  unfolding build_aggregate_tree
  build_aggregate_tree-IsFull root direct_children package_type_of limit code h =
      let s = walk direct_children package_type_of (limit + 1) root fresh_walk in
      let r = walk-Walked direct_children package_type_of (limit + 1) root fresh_walk in
      let start = fresh_walk-IsClean direct_children package_type_of in
      (
        tree_result s,
        rw (h, checked_code-eq root "root_cis" code h) refl,
        elim (Bool-cases s.1.incomplete) [
          | inl e ↦ inl (rw e refl)
          | inr e ↦ inr (r.is_full e, (r.clean e start).quiet, (r.clean e start).untruncated)
        ],
      )
