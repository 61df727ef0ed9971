-- ===== src/Turnover/Reconciled.antt =====
-- When an operation of wbcz/turnover.py counts as reconciled.
use fbs_chz.Prelude.{
  String, Bool, true, false, Option, some, List, [], ◌∷◌, ◌&&◌, ◌||◌, not, opt_eq-eq, all, ◌≡◌, ◌↔◌,
  sym, ap, ◌∙◌, inl, inr, refl, arith, Bool-cases,
}
use fbs_chz.Aggregation
use fbs_chz.Aggregation.{AggregationReconciliationState}
use fbs_chz.Aggregation.SideEffects.{M5AggregationObservation, reconcile_side_effect}
use fbs_chz.Turnover.Snapshots.{TurnoverOperationKind, kind_value, CisSnapshot}
use fbs_chz.Turnover.Preconditions.{is_text, is_among}
use fbs_chz.Turnover.Reconciliation.{
  ReconciliationState, reconciled, Restore, postcondition, is_nil, was_packed, reconcile,
  reconcile_packages, reconcile_unchecked, of_aggregation, is_withdraw, is_cancel,
}

abbrev pub is_done : ReconciliationState → Bool
is_done reconciled = true
is_done _ = false

-- The packages that the codes were in are as they must be, or there were none.
abbrev pub packages_fit :
    TurnoverOperationKind → List (String × Option String) → List M5AggregationObservation → Bool
packages_fit kind parents observations =
    not (was_packed parents)
    || not (is_nil observations)
      && Aggregation.is_reconciled (reconcile_side_effect (kind_value kind) observations).state

packages-done :
    (kind : TurnoverOperationKind) (status : Option String) (l : List CisSnapshot)
    (parents : List (String × Option String)) (observations : List M5AggregationObservation)
    → is_done (reconcile_packages kind status l parents observations).state
      ≡ packages_fit kind parents observations
unfolding reconcile_packages
packages-done kind status l parents observations = elim (Bool-cases (was_packed parents)) [
  | inl e ↦ rw e (elim (Bool-cases (is_nil observations)) [
    | inl f ↦ rw f refl
    | inr f ↦ rw f (effect-done (reconcile_side_effect (kind_value kind) observations).state)
  ])
  | inr e ↦ rw e refl
]
  where
    effect-done :
        (s : AggregationReconciliationState)
        → is_done (of_aggregation s) ≡ Aggregation.is_reconciled s
    effect-done AggregationReconciliationState.reconciled = refl
    effect-done AggregationReconciliationState.reconciliation_pending = refl
    effect-done AggregationReconciliationState.manual_review = refl

-- The kind is executable, and there are codes, all of them as the operation must have left them.
abbrev pub codes_fit : TurnoverOperationKind → Restore → List CisSnapshot → Bool
codes_fit kind restore l =
    not (is_withdraw kind)
    && not (is_cancel kind && is_nil restore)
    && not (is_nil l)
    && all (postcondition kind restore) l

reconcile-done :
    (kind : TurnoverOperationKind) (status : Option String) (l : List CisSnapshot)
    (restore : Restore) (parents : List (String × Option String))
    (observations : List M5AggregationObservation)
    → is_done (reconcile kind status l restore parents observations).state ≡ (
        is_text status "CHECKED_OK"
        && codes_fit kind restore l
        && packages_fit kind parents observations)
unfolding reconcile reconcile_unchecked
reconcile-done kind status l restore parents observations =
    elim (Bool-cases (is_text status "CHECKED_OK")) [
      | inr a ↦
          rw a
            (elim (Bool-cases
              (is_among status ("CHECKED_NOT_OK" ∷ "PARSE_ERROR" ∷ "PROCESSING_ERROR" ∷ []))) [
                | inl b ↦ rw b refl
                | inr b ↦ rw b refl
              ])
      | inl a ↦ rw a (elim (Bool-cases (is_withdraw kind)) [
        | inl b ↦ rw b refl
        | inr b ↦ rw b (elim (Bool-cases (is_nil l)) [
          | inl c ↦ rw c (elim (Bool-cases (is_cancel kind)) [
            | inr d ↦ rw d refl
            | inl d ↦
                rw d (elim (Bool-cases (is_nil restore)) [ inl e ↦ rw e refl | inr e ↦ rw e refl ])
          ])
          | inr c ↦ rw c (elim (Bool-cases (is_cancel kind && is_nil restore)) [
            | inl d ↦ rw d refl
            | inr d ↦ rw d (elim (Bool-cases (all (postcondition kind restore) l)) [
              | inl e ↦ rw e (packages-done kind status l parents observations)
              | inr e ↦ rw e refl
            ])
          ])
        ])
      ])
    ]

done-reconciled : (s : ReconciliationState) → is_done s ≡ true → s ≡ reconciled
done-reconciled s h = ground arith

three : (a b c : Bool) → (a && b && c) ≡ true → (a ≡ true) × (b ≡ true) × (c ≡ true)
three a b c h = ground arith

-- An operation counts as reconciled exactly where its document is CHECKED_OK, the kind is executable
-- (a cancellation knows what to restore), there are codes and all of them are in the state that the
-- kind asks for, and the packages that they were in, if any, show the effect of the operation.
pub reconcile_iff :
    (kind : TurnoverOperationKind) (status : Option String) (l : List CisSnapshot)
    (restore : Restore) (parents : List (String × Option String))
    (observations : List M5AggregationObservation)
    → ((reconcile kind status l restore parents observations).state ≡ reconciled) ↔ (
        (status ≡ some "CHECKED_OK")
        × (codes_fit kind restore l ≡ true)
        × (packages_fit kind parents observations ≡ true))
reconcile_iff kind status l restore parents observations = (
  λ h.
      let (a, b, c) =
        three _ _ _
          (sym (reconcile-done kind status l restore parents observations) ∙ ap is_done h) in
      (opt_eq-eq status (some "CHECKED_OK") a, b, c),
  λ h.
      done-reconciled _
        (reconcile-done kind status l restore parents observations ∙ rw (h.0, h.1, h.2) refl),
)
