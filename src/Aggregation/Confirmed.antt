-- ===== src/Aggregation/Confirmed.antt =====
-- What a confirmed answer of wbcz/aggregation.py stands for.
use fbs_chz.Prelude.{
  String, Bool, true, false, Option, none, some, List, [], ◌∷◌, ◌++◌, ◌&&◌, ◌||◌, not, opt_eq,
  opt_eq-eq, opt_eq_self, any, All, ◌≡◌, ◌≢◌, ◌⊎◌, inl, inr, refl, sym, ap, ◌∙◌, if◌then◌else◌,
  arith, and_both, not-false,
}
use fbs_chz.Aggregation.{
  AggregationReconciliationResult, pending, confirmed, is_reconciled, is_auto_disaggregation,
  is_disaggregation,
}
use fbs_chz.Aggregation.Relations.{
  AggregationOperationKind, form_transport_package, form_multiproduct_transport_package, form_set,
  form_set_generic_compatibility, transform_package_add, transform_package_remove,
  disaggregate_package, same_set, given, overlap, Parents, parent_of, all_in, none_in, given_and,
  is_empty, Readback, is_exact, when, relation_mismatch, reconcile_removal,
  reconcile_disaggregation, reconcile_checked, reconcile_relation,
}

-- Each of the codes is in the package, or none is.
abbrev pub AllIn : Parents → Option String → List String → Type 0
AllIn m parent codes = All (λ c. parent_of m c ≡ parent) codes

abbrev pub NoneIn : Parents → Option String → List String → Type 0
NoneIn m parent codes = All (λ c. parent_of m c ≢ parent) codes

-- The children that were read are the expected ones, and each names the expected package.
pub record IsExact (x : Readback) : Type 0 where
  pub parents : Parents
  pub read : x.child_parents ≡ some parents
  pub same : same_set x.actual_children x.expected_children ≡ true
  pub inside : AllIn parents x.expected_parent x.expected_children

-- The removed children are outside. Where some are expected to stay, they are the ones that were read,
-- they are inside, and none of the removed ones was read; where none is, none was read, and the history
-- tells of the automatic disaggregation and the status of the package was read.
pub record IsRemoved (x : Readback) : Type 0 where
  pub parents : Parents
  pub read : x.child_parents ≡ some parents
  pub outside : NoneIn parents x.expected_parent x.removed_children
  pub rest :
      ((is_empty x.expected_children ≡ true)
        × (is_empty x.actual_children ≡ true)
        × (any is_auto_disaggregation x.history ≡ true)
        × (given x.parent_status ≡ true))
      ⊎ ((is_empty x.expected_children ≡ false)
          × (same_set x.actual_children x.expected_children ≡ true)
          × (overlap x.removed_children x.actual_children ≡ false)
          × AllIn parents x.expected_parent x.expected_children)

-- The package is empty, all its former children are outside, the history tells of a disaggregation and
-- the status of the package was read.
pub record IsTakenApart (x : Readback) : Type 0 where
  pub parents : Parents
  pub read : x.child_parents ≡ some parents
  pub empty : is_empty x.actual_children ≡ true
  pub outside : NoneIn parents x.expected_parent (x.expected_children ++ x.removed_children)
  pub history : any (λ y. is_disaggregation y || is_auto_disaggregation y) x.history ≡ true
  pub status : given x.parent_status ≡ true

-- What must hold behind an operation; the others are never confirmed.
abbrev pub IsConfirmed : AggregationOperationKind → Readback → Type 0
IsConfirmed form_transport_package x = IsExact x
IsConfirmed form_multiproduct_transport_package x = IsExact x
IsConfirmed form_set x = IsExact x
IsConfirmed form_set_generic_compatibility x = IsExact x
IsConfirmed transform_package_add x = IsExact x
IsConfirmed transform_package_remove x = IsRemoved x
IsConfirmed disaggregate_package x = IsTakenApart x
IsConfirmed _ x = ⊥

when-true :
    (b : Bool) (s : String) (p : Option String) (x : Readback)
    → is_reconciled (when b (confirmed s p) (relation_mismatch x)).state ≡ true
    → b ≡ true
when-true true s p x h = refl
when-true false s p x h = absurd (ground arith)

all_in-AllIn :
    (m : Parents) (p : Option String) (l : List String) → all_in m p l ≡ true → AllIn m p l
all_in-AllIn m p [] h = tt
all_in-AllIn m p (c ∷ l) h = let (a, b) = and_both _ _ h in (opt_eq-eq _ _ a, all_in-AllIn m p l b)

not_equal : (o p : Option String) → not (opt_eq o p) ≡ true → o ≢ p
not_equal o p h e = absurd (different (sym (not-false _ h) ∙ rw e (opt_eq_self p)))
  where
    different : false ≡ true → ⊥
    different q = absurd (ground arith)

none_in-NoneIn :
    (m : Parents) (p : Option String) (l : List String) → none_in m p l ≡ true → NoneIn m p l
none_in-NoneIn m p [] h = tt
none_in-NoneIn m p (c ∷ l) h =
    let (a, b) = and_both _ _ h in (not_equal _ _ a, none_in-NoneIn m p l b)

given_and-some :
    (o : Option Parents) (f : Parents → Bool)
    → given_and o f ≡ true
    → (m : Parents) × (o ≡ some m) × (f m ≡ true)
given_and-some none f h = absurd (ground arith)
given_and-some (some m) f h = (m, refl, h)

is_exact-IsExact : (x : Readback) → is_exact x ≡ true → IsExact x
is_exact-IsExact x h =
    let (same, inside) = and_both _ _ h in
    let (m, read, fits) = given_and-some x.child_parents _ inside in
    record {
      parents = m;
      read = read;
      same = same;
      inside = all_in-AllIn m x.expected_parent x.expected_children fits;
    }

and_four :
    (a b c d : Bool) → (a && b && c && d) ≡ true → (a ≡ true) × (b ≡ true) × (c ≡ true) × (d ≡ true)
and_four a b c d h = ground arith

either_when :
    (b c d : Bool) (s t : String) (p : Option String) (x : Readback)
    → is_reconciled
        (if b
          then when c (confirmed s p) (relation_mismatch x)
          else when d (confirmed t p) (relation_mismatch x)).state
      ≡ true
    → ((b ≡ true) × (c ≡ true)) ⊎ ((b ≡ false) × (d ≡ true))
either_when true c d s t p x h = inl (refl, when-true c s p x h)
either_when false c d s t p x h = inr (refl, when-true d t p x h)

removal-IsRemoved : (x : Readback) → is_reconciled (reconcile_removal x).state ≡ true → IsRemoved x
unfolding reconcile_removal
removal-IsRemoved x h = elim (either_when _ _ _ _ _ x.expected_parent x h) [
  | inl (none_expected, all_removed) ↦
      let (empty, out, history, status) = and_four _ _ _ _ all_removed in
      let (m, read, fits) = given_and-some x.child_parents _ out in
      record {
        parents = m;
        read = read;
        outside = none_in-NoneIn m x.expected_parent x.removed_children fits;
        rest = inl (none_expected, empty, history, status);
      }
  | inr (some_expected, kept) ↦
      let (same, overlapping, inside, out) = and_four _ _ _ _ kept in
      let (m, read, fits) = given_and-some x.child_parents _ out in
      record {
        parents = m;
        read = read;
        outside = none_in-NoneIn m x.expected_parent x.removed_children fits;
        rest = inr (
          some_expected,
          same,
          not-false _ overlapping,
          all_in-AllIn m x.expected_parent x.expected_children (
              ap (λ o. given_and o (λ n. all_in n x.expected_parent x.expected_children)) (sym read)
              ∙ inside),
        );
      }
]

disaggregation-IsTakenApart :
    (x : Readback) → is_reconciled (reconcile_disaggregation x).state ≡ true → IsTakenApart x
unfolding reconcile_disaggregation
disaggregation-IsTakenApart x h =
    let (empty, out, history, status) = and_four _ _ _ _ (when-true _ _ _ x h) in
    let (m, read, fits) = given_and-some x.child_parents _ out in
    record {
      parents = m;
      read = read;
      empty = empty;
      outside = none_in-NoneIn m x.expected_parent (x.expected_children ++ x.removed_children) fits;
      history = history;
      status = status;
    }

checked-IsConfirmed :
    (operation : AggregationOperationKind) (x : Readback)
    → is_reconciled (reconcile_checked operation x).state ≡ true
    → IsConfirmed operation x
unfolding reconcile_checked
checked-IsConfirmed form_transport_package x h = is_exact-IsExact x (when-true _ _ _ x h)
checked-IsConfirmed form_multiproduct_transport_package x h =
    is_exact-IsExact x (when-true _ _ _ x h)
checked-IsConfirmed form_set x h = is_exact-IsExact x (when-true _ _ _ x h)
checked-IsConfirmed form_set_generic_compatibility x h = is_exact-IsExact x (when-true _ _ _ x h)
checked-IsConfirmed transform_package_add x h = is_exact-IsExact x (when-true _ _ _ x h)
checked-IsConfirmed transform_package_remove x h = removal-IsRemoved x h
checked-IsConfirmed disaggregate_package x h = disaggregation-IsTakenApart x h
checked-IsConfirmed _ x h = absurd (ground arith)

-- Where `reconcile_relation` confirms an operation, its document is CHECKED_OK, the parents of the
-- children were read, and: behind a formation or an addition the children are the expected ones and
-- each names the expected package; behind a removal no removed child names it, and either some are
-- expected to stay, and these are the ones that were read, name it and are none of the removed ones, or
-- none is expected to stay, none was read, the history tells of the automatic disaggregation and the
-- status of the package was read; behind a disaggregation no child is left and none names it, the
-- history tells of a disaggregation and the status of the package was read. Other operations are never
-- confirmed.
pub reconcile_relation-IsConfirmed :
    (operation : AggregationOperationKind) (status : Option String) (x : Readback)
    → is_reconciled (reconcile_relation operation status x).state ≡ true
    → (status ≡ some "CHECKED_OK") × IsConfirmed operation x
unfolding reconcile_relation
reconcile_relation-IsConfirmed operation status x h =
    let (done, fits) = if_success _ (reconcile_checked operation x) h in
    (opt_eq-eq status (some "CHECKED_OK") done, checked-IsConfirmed operation x fits)
  where
    if_success :
        (b : Bool) (r : AggregationReconciliationResult)
        → is_reconciled (if b then r else pending "DOCUMENT_NOT_CONFIRMED_SUCCESS" none).state
          ≡ true
        → (b ≡ true) × (is_reconciled r.state ≡ true)
    if_success true r h = (refl, h)
    if_success false r h = absurd (ground arith)
