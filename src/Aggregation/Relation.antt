-- ===== src/Aggregation/Relation.antt =====
-- The checks of identifiers and of the kinds of packages in wbcz/aggregation.py, and the snapshots that
-- the preconditions read.
use fbs_chz.Prelude.{
  ℕ, ◌+◌, String, Bool, true, false, Option, some, List, ◌&&◌, ◌||◌, ◌==◌, ◌<+>◌, not, nat_eq, leb,
  ltb, opt_eq, all, codes, len, length, filled,
}
use fbs_chz.Runtime.{Runtime}
use fbs_chz.Models.{Datetime, aware}
use fbs_chz.Effect.{Result, ok, err}
use fbs_chz.Effect.Checks.{◌>>=◌, ◌>>◌, check, each}
use fbs_chz.AggregateTree.{checked_code}
use fbs_chz.Aggregation.{PackageType, unit_package, group, bundle, set, box, atk}

-- An `AggregationContractError`, or the one of its kind that asks for a review by hand.
pub data AggregationError : Type 0 where
  contract_error manual_review : String → AggregationError

abbrev pub Verdict : Type 0
Verdict = Result AggregationError (Unit {0})

module _ ⦃py : Runtime⦄ where
  -- `_text`
  unfoldable pub trimmed : String → String → ℕ → Result AggregationError String
  trimmed value label max_len = do
    a ←
        check (filled value && py.strip value == value && leb (len value) max_len)
          (contract_error (label <+> " must be a non-empty trimmed string"))
    ok value

  -- `_inn`
  unfoldable pub digits_inn : String → String → Result AggregationError String
  digits_inn value label = do
    text ← trimmed value label 12
    a ←
        check (all py.is_digit (codes text) && (nat_eq (len text) 10 || nat_eq (len text) 12))
          (contract_error (label <+> " must be 10 or 12 digits"))
    ok text

-- A message as an error of this module.
abbrev pub raised : {A : Type 0} → Result String A → Result AggregationError A
raised (ok a) = ok a
raised (err message) = err (contract_error message)

abbrev pub is_bundle : PackageType → Bool
is_bundle bundle = true
is_bundle _ = false

abbrev pub is_group : PackageType → Bool
is_group group = true
is_group _ = false

-- LP_PARENT_CHILDREN
unfoldable pub may_hold : PackageType → PackageType → Bool
may_hold set unit_package = true
may_hold set bundle = true
may_hold box unit_package = true
may_hold box bundle = true
may_hold box set = true
may_hold box box = true
may_hold atk unit_package = true
may_hold atk bundle = true
may_hold atk set = true
may_hold atk box = true
may_hold _ _ = false

-- The tests of `validate_lp_relation` for each kind of parent.
unfoldable pub check_parent : PackageType → PackageType → String → Bool → Verdict
check_parent group child child_pg mixed_pg = err (manual_review "GROUP_PARENT_NOT_EXPOSED_FOR_LP")
check_parent set child child_pg mixed_pg =
    check (may_hold set child)
      (contract_error "SET permits only UNIT or BUNDLE direct children for lp")
check_parent box group child_pg mixed_pg =
    check (mixed_pg && not (child_pg == "lp"))
      (contract_error "GROUP child requires legitimate non-lp mixed-PG KITU")
check_parent box child child_pg mixed_pg =
    check (may_hold box child) (contract_error "incompatible BOX child")
check_parent atk group child_pg mixed_pg =
    check (not (child_pg == "lp")) (contract_error "lp GROUP must not be fabricated")
check_parent atk child child_pg mixed_pg =
    check (may_hold atk child) (contract_error "incompatible ATK child")
check_parent _ child child_pg mixed_pg = ok tt

-- `validate_lp_relation`
unfoldable pub validate_lp_relation : PackageType → PackageType → String → Bool → Verdict
validate_lp_relation parent child child_pg mixed_pg =
    check (not (is_bundle child && not (child_pg == "lp")))
      (contract_error "BUNDLE/KIK is supported only for lp")
    >> check_parent parent child child_pg mixed_pg

pub record CisAggregationSnapshot : Type 0 where
  pub cis : String
  pub package_type : Option PackageType
  pub product_group : Option String
  pub status_raw : Option String
  pub status_ex_raw : Option String
  pub owner_inn : Option String
  pub emission_type : Option String
  pub parent : Option String
  pub direct_children : List String
  pub gtin : Option String
  pub tnved : Option String
  pub fetched_at : Option Datetime
  pub nested_tnveds : List String

abbrev pub fetched : Option Datetime → Result AggregationError ℕ
fetched (some (aware t)) = ok t
fetched _ = err (manual_review "FRESH_M1_M2_SNAPSHOT_REQUIRED")

-- `AggregationPreconditionService.require_fresh`, by the clock and the allowed age in microseconds.
module _ ⦃py : Runtime⦄ (now max_age : ℕ) where
  abbrev pub require_fresh_one : CisAggregationSnapshot → Verdict
  require_fresh_one x = do
    code ← raised (checked_code x.cis "cis")
    ts ← fetched x.fetched_at
    check (not (ltb (now + 60000000) ts || ltb (ts + max_age) now))
        (manual_review "STALE_AGGREGATION_SNAPSHOT")

  unfoldable pub require_fresh : List CisAggregationSnapshot → Verdict
  require_fresh l = do
    a ← check (not (nat_eq (length l) 0)) (manual_review "FRESH_M1_M2_SNAPSHOT_REQUIRED")
    each require_fresh_one l

-- `require_owner`
unfoldable pub require_owner : String → List CisAggregationSnapshot → Verdict
require_owner inn l =
    each
      (λ x.
        check (opt_eq x.owner_inn (some inn)) (manual_review "LEGACY_NON_OWNER_FLOW_NOT_ENABLED"))
      l
