-- ===== src/Aggregation/Formed.antt =====
-- What the preconditions of wbcz/aggregation.py on forming a box stand for.
use fbs_chz.Prelude.{
  String, Bool, true, false, Option, none, some, List, [], ◌∷◌, ◌≡◌, ◌⊎◌, inl, inr, refl, sym, ◌∙◌,
  ◌&&◌, ◌||◌, ◌==◌, filled, codes, len, leb, nat_eq, not, opt_eq, opt_eq-eq, all, blank,
  blank-cases, and_both, not-false, All, arith, eq_iff,
}
use mathlib.Core.Path.{subst}
use fbs_chz.Runtime.{Runtime}
use fbs_chz.Effect.{ok, ok-injective}
use fbs_chz.Effect.Checks.{bind-ok, check, check-ok, each, each-All, ◌>>◌}
use fbs_chz.Aggregation.{PackageType, unit_package, group, bundle, set, box, atk}
use fbs_chz.Aggregation.Relation.{
  AggregationError, CisAggregationSnapshot, digits_inn, trimmed, may_hold, is_bundle, check_parent,
  validate_lp_relation,
}
use fbs_chz.Aggregation.Forming.{
  is_in, group_or_lp, usual_statuses, is_absent, first_of, same_status, check_mixed, check_statuses,
  check_relation, check_child, validate_box,
}

-- Held by the participant.
abbrev pub IsOwned : String → CisAggregationSnapshot → Type 0
IsOwned owner x = x.owner_inn ≡ some owner

-- A package of a kind that a box may hold; a group of other goods only in a box of several kinds of goods.
abbrev pub FitsBox : Bool → PackageType → Option String → Type 0
FitsBox mixed_pg kind pg =
    (may_hold box kind ≡ true)
    ⊎ ((kind ≡ group) × (mixed_pg ≡ true) × ((group_or_lp pg == "lp") ≡ false))

-- A package that may be put into a box: held by the participant, in no other package, of a kind that fits.
pub record IsPlaceable (mixed_pg : Bool) (owner : String) (x : CisAggregationSnapshot)
    : Type 0 where
  pub owned : IsOwned owner x
  pub free : (x.parent ≡ none) ⊎ (x.parent ≡ some "")
  pub kind : PackageType
  pub at : x.package_type ≡ some kind
  pub fits : FitsBox mixed_pg kind x.product_group

-- A status that a child of a box of several kinds of goods may have.
abbrev pub IsFormed : List String → CisAggregationSnapshot → Type 0
IsFormed formed x = (x.status_raw ≡ some "INTRODUCED") ⊎ (is_in x.status_raw formed ≡ true)

-- The children of a box of one kind of goods have one status, APPLIED or INTRODUCED.
abbrev pub HaveStatus : String → List CisAggregationSnapshot → Type 0
HaveStatus status l = All (λ y. y.status_raw ≡ some status) l

abbrev pub AreAlike : Bool → List String → List CisAggregationSnapshot → Type 0
AreAlike true formed l = All (IsFormed formed) l
AreAlike false formed l = HaveStatus "APPLIED" l ⊎ HaveStatus "INTRODUCED" l

pub either_true : (a b : Bool) → (a || b) ≡ true → (a ≡ true) ⊎ (b ≡ true)
either_true a b h = ground arith

usual_status :
    (o : Option String)
    → is_in o usual_statuses ≡ true
    → (o ≡ some "APPLIED") ⊎ (o ≡ some "INTRODUCED")
usual_status none h = absurd (ground arith)
usual_status (some t) h = ground (arith, eq_iff t "APPLIED", eq_iff t "INTRODUCED")

absent-none : (o : Option CisAggregationSnapshot) → is_absent o ≡ true → o ≡ none
absent-none none h = refl
absent-none (some x) h = absurd (ground arith)

-- All the snapshots have the status of the first.
same_status-All :
    (x : CisAggregationSnapshot) (t : String) (l : List CisAggregationSnapshot)
    → x.status_raw ≡ some t
    → same_status x l ≡ true
    → HaveStatus t l
same_status-All x t [] s h = tt
same_status-All x t (y ∷ l) s h =
    let (p, q) = and_both (opt_eq y.status_raw x.status_raw) (same_status x l) h in
    (opt_eq-eq y.status_raw x.status_raw p ∙ s, same_status-All x t l s q)

-- A guard before a value that is returned as it is.
guarded : (b : Bool) (e : AggregationError) (s t : String) → (check b e >> ok s) ≡ ok t → s ≡ t
guarded true e s t h = ok-injective s t h
guarded false e s t h = absurd (ground arith)

module _ ⦃py : Runtime⦄ where
  -- `_inn` returns the text that it was given.
  pub digits_inn-same : (inn label owner : String) → digits_inn inn label ≡ ok owner → inn ≡ owner
  unfolding digits_inn trimmed
  digits_inn-same inn label owner h =
      let (t, text, rest) = bind-ok (trimmed inn label 12) _ owner h in
      guarded (filled inn && py.strip inn == inn && leb (len inn) 12) _ inn t text
      ∙ guarded (all py.is_digit (codes t) && (nat_eq (len t) 10 || nat_eq (len t) 12)) _ t owner
          rest

box_relation :
    (mixed_pg : Bool) (kind : PackageType) (pg : String) (a : Unit {0})
    → check_parent box kind pg mixed_pg ≡ ok a
    → (may_hold box kind ≡ true) ⊎ ((kind ≡ group) × (mixed_pg ≡ true) × ((pg == "lp") ≡ false))
unfolding check_parent may_hold
box_relation mixed_pg group pg a h =
    let (p, q) = and_both mixed_pg (not (pg == "lp")) (check-ok _ _ a h) in
    inr (refl, p, not-false _ q)
box_relation mixed_pg unit_package pg a h = inl refl
box_relation mixed_pg bundle pg a h = inl refl
box_relation mixed_pg set pg a h = inl refl
box_relation mixed_pg box pg a h = inl refl
box_relation mixed_pg atk pg a h = absurd (ground arith)

check_relation-FitsBox :
    (mixed_pg : Bool) (formed : List String) (o : Option PackageType) (pg : Option String)
    (a : Unit {0})
    → check_relation mixed_pg formed o pg ≡ ok a
    → (kind : PackageType) × (o ≡ some kind) × FitsBox mixed_pg kind pg
unfolding validate_lp_relation
check_relation-FitsBox mixed_pg formed none pg a h = absurd (ground arith)
check_relation-FitsBox mixed_pg formed (some kind) pg a h =
    let (b, p, q) = bind-ok (check (not (mixed_pg && blank pg)) _) _ a h in
    let (c, r, s) =
      bind-ok (check (not (is_bundle kind && not (group_or_lp pg == "lp"))) _) _ a q in
    (kind, refl, box_relation mixed_pg kind (group_or_lp pg) a s)

check_child-IsPlaceable :
    (mixed_pg : Bool) (formed : List String) (owner : String) (x : CisAggregationSnapshot)
    (a : Unit {0})
    → check_child mixed_pg formed owner x ≡ ok a
    → IsPlaceable mixed_pg owner x
unfolding check_child
check_child-IsPlaceable mixed_pg formed owner x a h =
    let (b, before, relation) =
      bind-ok (check (opt_eq x.owner_inn (some owner)) _ >> check (blank x.parent) _) _ a h in
    let (c, owned, free) = bind-ok (check (opt_eq x.owner_inn (some owner)) _) _ b before in
    let (kind, at, fits) =
      check_relation-FitsBox mixed_pg formed x.package_type x.product_group a relation in
    record {
      owned = opt_eq-eq x.owner_inn (some owner) (check-ok _ _ c owned);
      free = blank-cases x.parent (check-ok _ _ b free);
      kind = kind;
      at = at;
      fits = fits;
    }

check_mixed-IsFormed :
    (mixed_pg : Bool) (formed : List String) (x : CisAggregationSnapshot) (a : Unit {0})
    → check_mixed mixed_pg formed x ≡ ok a
    → IsFormed formed x
check_mixed-IsFormed mixed_pg formed x a h =
    let (b, p, q) =
      bind-ok (check (opt_eq x.status_raw (some "INTRODUCED") || is_in x.status_raw formed) _) _ a
        h in
    elim (either_true (opt_eq x.status_raw (some "INTRODUCED")) (is_in x.status_raw formed)
      (check-ok _ _ b p)) [
        | inl e ↦ inl (opt_eq-eq x.status_raw (some "INTRODUCED") e)
        | inr e ↦ inr e
      ]

check_statuses-AreAlike :
    (mixed_pg : Bool) (formed : List String) (kind_mixed : Bool) (x : CisAggregationSnapshot)
    (l : List CisAggregationSnapshot) (a : Unit {0})
    → check_statuses mixed_pg formed kind_mixed x l ≡ ok a
    → AreAlike kind_mixed formed l
unfolding check_statuses
check_statuses-AreAlike mixed_pg formed true x l a h =
    each-All (IsFormed formed) (check_mixed mixed_pg formed) (check_mixed-IsFormed mixed_pg formed)
      l a h
check_statuses-AreAlike mixed_pg formed false x l a h =
    let (b, before, plain) = bind-ok (check (same_status x l) _ >> check _ _) _ a h in
    let (c, same, usual) = bind-ok (check (same_status x l) _) _ b before in
    elim (usual_status x.status_raw (check-ok (is_in x.status_raw usual_statuses) _ b usual)) [
      | inl e ↦ inl (same_status-All x "APPLIED" l e (check-ok _ _ c same))
      | inr e ↦ inr (same_status-All x "INTRODUCED" l e (check-ok _ _ c same))
    ]

module _ ⦃py : Runtime⦄ where
  -- Where the preconditions on forming a box return, the box is not known yet, every child is held by
  -- the participant, is in no other package and is of a kind that the box may hold, and the children
  -- have one status, APPLIED or INTRODUCED; in a box of several kinds of goods each of them is
  -- INTRODUCED or in a status that the caller gave.
  pub validate_box_sound :
      (mixed_pg : Bool) (formed : List String) (parent : Option CisAggregationSnapshot)
      (children : List CisAggregationSnapshot) (inn leading_pg : String) (a : Unit {0})
      → validate_box mixed_pg formed parent children inn leading_pg ≡ ok a
      → (parent ≡ none)
        × All (IsPlaceable mixed_pg inn) children
        × AreAlike mixed_pg formed children
  unfolding validate_box
  validate_box_sound mixed_pg formed parent children inn leading_pg a h =
      let (owner, same, h1) = bind-ok (digits_inn inn "participant_inn") _ a h in
      let (b, absent, h2) = bind-ok (check (is_absent parent) _) _ a h1 in
      let (x, first, h3) = bind-ok (first_of children _) _ a h2 in
      let (c, alike, h4) = bind-ok (check_statuses mixed_pg formed mixed_pg x children) _ a h3 in
      let (d, placed, h5) = bind-ok (each (check_child mixed_pg formed owner) children) _ a h4 in
      (
        absent-none parent (check-ok _ _ b absent),
        subst (λ o. All (IsPlaceable mixed_pg o) children)
            (sym (digits_inn-same inn "participant_inn" owner same))
            (each-All (IsPlaceable mixed_pg owner) (check_child mixed_pg formed owner)
              (check_child-IsPlaceable mixed_pg formed owner) children d placed),
        check_statuses-AreAlike mixed_pg formed mixed_pg x children c alike,
      )
