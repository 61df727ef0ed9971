-- ===== src/Turnover/Admitted.antt =====
-- What the evidence of wbcz/turnover.py stands for: the state of every code that was checked.
use fbs_chz.Effect.Checks.{bind-ok, check, check-ok, each, each-All, ◌>>◌}
use fbs_chz.Prelude.{
  ℕ, ◌≤◌, ◌+◌, String, Bool, true, false, Option, none, some, List, [], ◌∷◌, ◌≡◌, ◌⊎◌, inl, inr, ap,
  refl, ◌&&◌, ◌||◌, ◌==◌, not, nat_eq, elem, opt_eq-eq, length, All, arith, eq_iff, and_both,
  not-false, blank-cases,
}
use fbs_chz.Runtime.{Runtime}
use fbs_chz.Models.{Datetime, aware, naive}
use fbs_chz.Effect.{ok, err, ok-injective}
use fbs_chz.Turnover.Fields.{TurnoverError, Checked, Library, cis_field}
use fbs_chz.Turnover.Snapshots.{
  TurnoverOperationKind, CisSnapshot, PreconditionEvidence, validate_return_reason_matrix, Service,
  check_fresh, check_owned, check_plain, matrix_cell, or_empty, fetched_instant, validated,
  is_stale, valid_owner,
}
use fbs_chz.Turnover.Preconditions.{
  is_text, is_among, known_return_types, evidence, check_usual, check_returned, validate_return,
  check_new_code, check_old_code, validate_remark, some_given,
}

-- Fetched with a time zone, at most a minute ahead of the clock and within the allowed age.
pub record IsFresh (s : Service) (x : CisSnapshot) : Type 0 where
  pub fetched : ℕ
  pub at : x.fetched_at ≡ some (aware fetched)
  pub ahead : fetched ≤ s.now + 60000000
  pub age : s.now ≤ fetched + s.max_snapshot_age

-- In no special state.
abbrev pub IsPlain : CisSnapshot → Type 0
IsPlain x = (x.status_ex ≡ none) ⊎ (x.status_ex ≡ some "")

pub record IsUsual (s : Service) (x : CisSnapshot) : Type 0 where
  pub fresh : IsFresh s x
  pub owned : x.owner_inn ≡ some s.participant_inn
  pub plain : IsPlain x

not_stale :
    (s : Service) (t : ℕ)
    → not (is_stale s t) ≡ true
    → (t ≤ s.now + 60000000) × (s.now ≤ t + s.max_snapshot_age)
not_stale s t h = ground arith

fetched-aware :
    (o : Option Datetime) (e : TurnoverError) (t : ℕ)
    → fetched_instant o e ≡ ok t
    → o ≡ some (aware t)
fetched-aware none e t h = absurd (ground arith)
fetched-aware (some (naive x)) e t h = absurd (ground arith)
fetched-aware (some (aware x)) e t h = ap (λ r. some (aware (value r))) h
  where
    value : Checked ℕ → ℕ
    value (ok n) = n
    value (err e) = x

either_false : (a b : Bool) → not (a && b) ≡ true → (a ≡ false) ⊎ (b ≡ false)
either_false a b h = ground arith

among_two :
    (o : Option String) (a b : String)
    → is_among o (a ∷ b ∷ []) ≡ true
    → (o ≡ some a) ⊎ (o ≡ some b)
among_two none a b h = absurd (ground arith)
among_two (some t) a b h = ground (arith, eq_iff t a, eq_iff t b)

unless_retired :
    (b : Bool) (o : Option String)
    → (not b || is_text o "RETIRED") ≡ true
    → (b ≡ false) ⊎ (o ≡ some "RETIRED")
unless_retired false o h = inl refl
unless_retired true o h = inr (opt_eq-eq o (some "RETIRED") h)

module _ ⦃py : Runtime⦄ ⦃lib : Library⦄ (s : Service) where
  check_fresh-IsFresh : (x : CisSnapshot) (a : Unit {0}) → check_fresh s x ≡ ok a → IsFresh s x
  unfolding check_fresh validated
  check_fresh-IsFresh x a h =
      let (t, p, q) = bind-ok (validated x) _ a h in
      let (b, p1, p2) = bind-ok (cis_field x.cis "cis") _ t p in
      let (c, q1, q2) = bind-ok (valid_owner x.owner_inn) _ t p2 in
      let (ahead, age) = not_stale s t (check-ok _ _ a q) in
      record { fetched = t; at = fetched-aware x.fetched_at _ t q2; ahead = ahead; age = age }

  check_usual-IsUsual : (x : CisSnapshot) (a : Unit {0}) → check_usual s x ≡ ok a → IsUsual s x
  unfolding check_usual check_owned check_plain
  check_usual-IsUsual x a h =
      let (c, fresh_and_owned, plain) = bind-ok (check_fresh s x >> check_owned s x) _ a h in
      let (b, fresh, owned) = bind-ok (check_fresh s x) _ c fresh_and_owned in
      record {
        fresh = check_fresh-IsFresh x b fresh;
        owned = opt_eq-eq x.owner_inn (some s.participant_inn) (check-ok _ _ c owned);
        plain = blank-cases x.status_ex (check-ok _ _ a plain);
      }

  -- A code that may be returned: withdrawn for a reason that has a confirmed cell for this return.
  pub record IsReturnable (return_type : String) (x : CisSnapshot) : Type 0 where
    pub usual : IsUsual s x
    pub retired : x.status ≡ some "RETIRED"
    pub cell : matrix_cell (or_empty x.withdraw_reason) return_type ≡ true

  check_returned-IsReturnable :
      (return_type : String) (x : CisSnapshot) (a : Unit {0})
      → check_returned s return_type x ≡ ok a
      → IsReturnable return_type x
  unfolding check_returned validate_return_reason_matrix
  check_returned-IsReturnable return_type x a h =
      let (c, before, matrix) = bind-ok (check_usual s x >> _) _ a h in
      let (b, usual, retired) = bind-ok (check_usual s x) _ c before in
      let (d, kind, cell) = bind-ok (check (not (return_type == "VENDING_RETURN")) _) _ a matrix in
      record {
        usual = check_usual-IsUsual x b usual;
        retired = opt_eq-eq x.status (some "RETIRED") (check-ok _ _ c retired);
        cell = (and_both _ _ (check-ok _ _ a cell)).1;
      }

  -- Where `validate_return` gives its evidence, it was asked about some codes, the type of the return
  -- is known, and every code is fresh, owned by the participant, in no special state and RETIRED for
  -- a reason from which this return is confirmed. The evidence names exactly these codes.
  pub validate_return_sound :
      (l : List CisSnapshot) (return_type : String) (kind : TurnoverOperationKind)
      (e : PreconditionEvidence)
      → validate_return s l return_type kind ≡ ok e
      → (evidence kind l ≡ e)
        × (nat_eq (length l) 0 ≡ false)
        × (elem return_type known_return_types ≡ true)
        × All (IsReturnable return_type) l
  unfolding validate_return
  validate_return_sound l return_type kind e h =
      let (a, given, h1) = bind-ok (some_given l "return requires CIS snapshots") _ e h in
      let (b, vending, h2) = bind-ok (check (not (return_type == "VENDING_RETURN")) _) _ e h1 in
      let (c, known, h3) = bind-ok (check (elem return_type known_return_types) _) _ e h2 in
      let (d, codes, result) = bind-ok (each (check_returned s return_type) l) _ e h3 in
      (
        ok-injective _ _ result,
        not-false _ (check-ok _ _ a given),
        check-ok _ _ c known,
        each-All (IsReturnable return_type) (check_returned s return_type)
            (check_returned-IsReturnable return_type) l d codes,
      )

  -- A new code of a remark, and the code that it replaces.
  pub record IsNewCode (x : CisSnapshot) : Type 0 where
    pub fresh : IsFresh s x
    pub plain : IsPlain x
    pub applied : x.status ≡ some "APPLIED"
    pub emission : (x.emission_type ≡ some "REMARK") ⊎ (x.emission_type ≡ some "REAPPLY")

  pub record IsOldCode (cause : String) (x : CisSnapshot) : Type 0 where
    pub usual : IsUsual s x
    pub status : (x.status ≡ some "INTRODUCED") ⊎ (x.status ≡ some "RETIRED")
    pub retired :
        (elem cause ("REMOTE_SALE_RETURN" ∷ "RETAIL_RETURN" ∷ []) ≡ false)
        ⊎ (x.status ≡ some "RETIRED")

  check_new_code-IsNewCode :
      (x : CisSnapshot) (a : Unit {0}) → check_new_code s x ≡ ok a → IsNewCode x
  unfolding check_new_code check_plain
  check_new_code-IsNewCode x a h =
      let (c, before, last) = bind-ok (check_fresh s x >> check_plain s x) _ a h in
      let (b, fresh, plain) = bind-ok (check_fresh s x) _ c before in
      let (applied, emission) = and_both _ _ (check-ok _ _ a last) in
      record {
        fresh = check_fresh-IsFresh x b fresh;
        plain = blank-cases x.status_ex (check-ok _ _ c plain);
        applied = opt_eq-eq x.status (some "APPLIED") applied;
        emission = among_two x.emission_type "REMARK" "REAPPLY" emission;
      }

  check_old_code-IsOldCode :
      (cause : String) (x : CisSnapshot) (a : Unit {0})
      → check_old_code s cause x ≡ ok a
      → IsOldCode cause x
  unfolding check_old_code
  check_old_code-IsOldCode cause x a h =
      let (c, before, last) = bind-ok (check_usual s x >> _) _ a h in
      let (b, usual, status) = bind-ok (check_usual s x) _ c before in
      record {
        usual = check_usual-IsUsual x b usual;
        status = among_two x.status "INTRODUCED" "RETIRED" (check-ok _ _ c status);
        retired = unless_retired _ x.status (check-ok _ _ a last);
      }

  -- Where `validate_remark` gives its evidence: every new code is fresh, in no special state, APPLIED
  -- and emitted for a remark; every old code is fresh, owned, in no special state, INTRODUCED or
  -- RETIRED, and RETIRED where the cause is a return; and errors of the description have an old code.
  pub validate_remark_sound :
      (new_codes old_codes : List CisSnapshot) (cause : String) (e : PreconditionEvidence)
      → validate_remark s new_codes old_codes cause ≡ ok e
      → All IsNewCode new_codes
        × All (IsOldCode cause) old_codes
        × (((cause == "DESCRIPTION_ERRORS") ≡ false) ⊎ (nat_eq (length old_codes) 0 ≡ false))
  unfolding validate_remark
  validate_remark_sound new_codes old_codes cause e h =
      let (a, given, h1) =
        bind-ok (some_given new_codes "remark requires new code snapshots") _ e h in
      let (b, news, h2) = bind-ok (each (check_new_code s) new_codes) _ e h1 in
      let (c, olds, h3) = bind-ok (each (check_old_code s cause) old_codes) _ e h2 in
      let (d, described, result) = bind-ok (check _ _) _ e h3 in
      (
        each-All IsNewCode (check_new_code s) check_new_code-IsNewCode new_codes b news,
        each-All (IsOldCode cause) (check_old_code s cause) (check_old_code-IsOldCode cause)
            old_codes c olds,
        either_false _ _ (check-ok _ _ d described),
      )
