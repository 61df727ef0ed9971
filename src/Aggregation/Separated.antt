-- ===== src/Aggregation/Separated.antt =====
-- What the preconditions of wbcz/aggregation.py on taking packages apart stand for.
use fbs_chz.Prelude.{
  String, true, false, Option, none, some, List, ◌≡◌, ◌⊎◌, inl, inr, refl, sym, ◌&&◌, ◌||◌, not,
  opt_eq, opt_eq-eq, blank, All, arith, eq_iff,
}
use mathlib.Core.Path.{subst}
use fbs_chz.Runtime.{Runtime}
use fbs_chz.Effect.{ok}
use fbs_chz.Effect.Checks.{bind-ok, check-ok, each-All, ◌>>◌}
use fbs_chz.Aggregation.{PackageType, unit_package, group, bundle, set, box, atk}
use fbs_chz.Aggregation.Relation.{CisAggregationSnapshot, digits_inn}
use fbs_chz.Aggregation.Forming.{
  is_in, usual_statuses, first_of, check_apart, check_package, validate_disaggregation, is_set,
}
use fbs_chz.Aggregation.Formed.{IsOwned, either_true, digits_inn-same}

-- A package that may be taken apart.
pub record IsSeparable (formed : List String) (owner : String) (x : CisAggregationSnapshot)
    : Type 0 where
  pub kind : (x.package_type ≡ some box) ⊎ (x.package_type ≡ some set)
  pub owned : IsOwned owner x
  pub status : (is_in x.status_raw usual_statuses ≡ true) ⊎ (is_in x.status_raw formed ≡ true)
  pub plain :
      (x.status_ex_raw ≡ none)
      ⊎ (x.status_ex_raw ≡ some "")
      ⊎ (x.status_ex_raw ≡ some "WAIT_TRANSFER_TO_OWNER")
  pub applied :
      (is_set x.package_type ≡ false)
      ⊎ (opt_eq x.status_raw (some "APPLIED") ≡ false)
      ⊎ (blank x.status_ex_raw ≡ true)

open-cases :
    (o : Option String)
    → (blank o || opt_eq o (some "WAIT_TRANSFER_TO_OWNER")) ≡ true
    → (o ≡ none) ⊎ (o ≡ some "") ⊎ (o ≡ some "WAIT_TRANSFER_TO_OWNER")
open-cases none h = inl refl
open-cases (some t) h = inr (ground (arith, eq_iff t "", eq_iff t "WAIT_TRANSFER_TO_OWNER"))

check_apart-cases :
    (o : Option PackageType) (a : Unit {0}) → check_apart o ≡ ok a → (o ≡ some box) ⊎ (o ≡ some set)
unfolding check_apart
check_apart-cases (some box) a h = inl refl
check_apart-cases (some set) a h = inr refl
check_apart-cases (some group) a h = absurd (ground arith)
check_apart-cases (some unit_package) a h = absurd (ground arith)
check_apart-cases (some bundle) a h = absurd (ground arith)
check_apart-cases (some atk) a h = absurd (ground arith)
check_apart-cases none a h = absurd (ground arith)

-- A set that is APPLIED is in no special state.
set_plain :
    (o : Option PackageType) (status ex : Option String)
    → not (is_set o && opt_eq status (some "APPLIED") && not (blank ex)) ≡ true
    → (is_set o ≡ false) ⊎ (opt_eq status (some "APPLIED") ≡ false) ⊎ (blank ex ≡ true)
set_plain o status ex h = ground arith

check_package-IsSeparable :
    (formed : List String) (owner : String) (x : CisAggregationSnapshot) (a : Unit {0})
    → check_package formed owner x ≡ ok a
    → IsSeparable formed owner x
unfolding check_package
check_package-IsSeparable formed owner x a h =
    let (b, h1, applied) = bind-ok (check_apart x.package_type >> _ >> _ >> _) _ a h in
    let (c, h2, plain) = bind-ok (check_apart x.package_type >> _ >> _) _ b h1 in
    let (d, h3, status) = bind-ok (check_apart x.package_type >> _) _ c h2 in
    let (e, kind, owned) = bind-ok (check_apart x.package_type) _ d h3 in
    record {
      kind = check_apart-cases x.package_type e kind;
      owned = opt_eq-eq x.owner_inn (some owner) (check-ok _ _ d owned);
      status =
          either_true (is_in x.status_raw usual_statuses) (is_in x.status_raw formed)
            (check-ok _ _ c status);
      plain = open-cases x.status_ex_raw (check-ok _ _ b plain);
      applied = set_plain x.package_type x.status_raw x.status_ex_raw (check-ok _ _ a applied);
    }

module _ ⦃py : Runtime⦄ where
  -- Where the preconditions on taking packages apart return, every package is a box or a set that the
  -- participant holds, is APPLIED, INTRODUCED or in a status that the caller gave, is in no special
  -- state but that of a transfer to its owner, and in none at all where it is a set that is APPLIED.
  pub validate_disaggregation_sound :
      (parents : List CisAggregationSnapshot) (inn : String) (formed : List String) (a : Unit {0})
      → validate_disaggregation parents inn formed ≡ ok a
      → All (IsSeparable formed inn) parents
  unfolding validate_disaggregation
  validate_disaggregation_sound parents inn formed a h =
      let (owner, same, h1) = bind-ok (digits_inn inn "participant_inn") _ a h in
      let (x, first, h2) = bind-ok (first_of parents _) _ a h1 in
      subst (λ o. All (IsSeparable formed o) parents)
        (sym (digits_inn-same inn "participant_inn" owner same))
        (each-All (IsSeparable formed owner) (check_package formed owner)
          (check_package-IsSeparable formed owner) parents a h2)
