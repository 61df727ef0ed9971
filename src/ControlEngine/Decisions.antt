-- ===== src/ControlEngine/Decisions.antt =====
-- When the control engine (wbcz/control_engine.py) recommends an action.
use fbs_chz.Prelude.{
  String, Bool, true, false, none, some, ◌≡◌, ◌≢◌, ◌⊎◌, ◌↔◌, arith, eq_iff, present, opt_eq,
  opt_eq-eq, opt_eq_self, refl, not, ◌&&◌, inl, inr, Option-cases, Bool-cases, len,
}
use fbs_chz.Runtime.{Runtime}
use fbs_chz.Models.{
  Decision, sale, return, ready_to_withdraw, ready_to_return, no_action, error, Event, KiState,
  Outcome,
}
use fbs_chz.Effect.{ok, err, Result-cases}
use fbs_chz.ControlEngine.{
  validate_owner_inn, has_sale_receipt_evidence, decide_checked, decide, wrong_group, is_ascii,
  is_digits, has_inn_size, inn_message,
}

abbrev pub withdraw : Outcome
withdraw = record { decision = ready_to_withdraw; reason = "SALE_IN_CIRCULATION"; error = none }

abbrev pub give_back : Outcome
give_back = record {
  decision = ready_to_return;
  reason = "RETURN_WITHDRAWN_DISTANCE";
  error = none;
}

-- Neither `ERROR` nor `NO_ACTION`.
abbrev pub is_calm : Decision → Bool
is_calm error = false
is_calm no_action = false
is_calm _ = true

module _ ⦃py : Runtime⦄ where
  -- What both recommendations ask of the state of the code: the group is lp where it is given, the
  -- owner is ours, and the extended status says nothing new.
  pub record IsOurs (state : KiState) (own_inn : String) : Type 0 where
    pub group : (g : String) → state.product_group ≡ some g → py.casefold g ≡ "lp"
    pub owner : (state.owner_inn ≡ some own_inn) × (own_inn ≢ "")
    pub extended : (present state.status_ex ≡ false) ⊎ (state.status_ex ≡ some state.status)

  -- A sale that may be withdrawn.
  pub record IsWithdrawable (event : Event) (state : KiState) (own_inn : String) : Type 0 where
    pub ours : IsOurs state own_inn
    pub in_circulation : state.status ≡ "IN_CIRCULATION"
    pub no_reason : present state.withdraw_reason ≡ false
    pub is_sale : event.operation ≡ sale
    pub person : event.legal_entity_sale ≡ some false
    pub evidence : (state.product_group ≡ none) ⊎ (has_sale_receipt_evidence event ≡ true)

  -- A return of a code that was withdrawn for a distance sale.
  pub record IsReturnable (event : Event) (state : KiState) (own_inn : String) : Type 0 where
    pub ours : IsOurs state own_inn
    pub withdrawn : state.status ≡ "WITHDRAWN"
    pub distance : state.withdraw_reason ≡ some "DISTANCE"
    pub is_return : event.operation ≡ return

  -- A text of 10 or 12 ASCII digits.
  pub record IsInn (inn : String) : Type 0 where
    pub ascii : is_ascii inn ≡ true
    pub digits : is_digits inn ≡ true
    pub size : (len inn ≡ 10) ⊎ (len inn ≡ 12)

  module _ (event : Event) (state : KiState) (own_inn : String) where
    IsOurs-of_ready :
        (o : Outcome)
        → decide_checked event state own_inn ≡ ok o
        → (o.decision ≡ ready_to_withdraw) ⊎ (o.decision ≡ ready_to_return)
        → IsOurs state own_inn
    unfolding decide_checked
    IsOurs-of_ready o h r = record {
      group = λ g e. ground (arith, eq_iff (py.casefold g) "lp");
      owner = ground (arith, opt_eq-eq state.owner_inn (some own_inn), eq_iff own_inn "");
      extended = ground (arith, opt_eq-eq state.status_ex (some state.status));
    }

    IsWithdrawable-of_ready :
        (o : Outcome)
        → decide_checked event state own_inn ≡ ok o
        → o.decision ≡ ready_to_withdraw
        → IsWithdrawable event state own_inn
    unfolding decide_checked
    IsWithdrawable-of_ready o h r = record {
      ours = IsOurs-of_ready o h (ground arith);
      in_circulation = ground (arith, eq_iff state.status "IN_CIRCULATION");
      no_reason = ground arith;
      is_sale = ground arith;
      person = ground arith;
      evidence = ground arith;
    }

    IsReturnable-of_ready :
        (o : Outcome)
        → decide_checked event state own_inn ≡ ok o
        → o.decision ≡ ready_to_return
        → IsReturnable event state own_inn
    unfolding decide_checked
    IsReturnable-of_ready o h r = record {
      ours = IsOurs-of_ready o h (ground arith);
      withdrawn = ground (arith, eq_iff state.status "WITHDRAWN");
      distance = ground (arith, opt_eq-eq state.withdraw_reason (some "DISTANCE"));
      is_return = ground arith;
    }

    passes_group :
        ((g : String) → state.product_group ≡ some g → py.casefold g ≡ "lp")
        → wrong_group state.product_group ≡ false
    passes_group h = elim (Option-cases state.product_group) [
      | inl e ↦ rw e
      | inr (g, e) ↦ rw e (ground (arith, h g, eq_iff (py.casefold g) "lp"))
    ]

    -- The guards that both recommendations pass.
    passes_guards :
        IsOurs state own_inn
        → (wrong_group state.product_group ≡ false)
          × (present state.owner_inn ≡ true)
          × (opt_eq state.owner_inn (some own_inn) ≡ true)
          × ((present state.status_ex && not (opt_eq state.status_ex (some state.status))) ≡ false)
    passes_guards w = (
      passes_group w.group,
      ground (arith, eq_iff own_inn ""),
      ground (arith, eq_iff own_inn own_inn),
      ground (arith, opt_eq_self state.status_ex),
    )

    decide_checked-withdraw :
        IsWithdrawable event state own_inn → decide_checked event state own_inn ≡ ok withdraw
    unfolding decide_checked
    decide_checked-withdraw w =
        let g = passes_guards w.ours in ground (arith, eq_iff state.status "IN_CIRCULATION")

    decide_checked-give_back :
        IsReturnable event state own_inn → decide_checked event state own_inn ≡ ok give_back
    unfolding decide_checked
    decide_checked-give_back w =
        let g = passes_guards w.ours in
        ground (
          arith,
          eq_iff state.status "WITHDRAWN",
          eq_iff state.status "IN_CIRCULATION",
          eq_iff "WITHDRAWN" "IN_CIRCULATION",
          eq_iff "DISTANCE" "DISTANCE",
        )

    -- With a valid INN of ours, `decide` recommends a withdrawal exactly when the code is ours, is
    -- in circulation with no withdrawal reason, and the event is a sale to a person, with a
    -- receipt and a date where the product group is known; and exactly then it returns the one outcome
    -- with the reason SALE_IN_CIRCULATION and no error.
    pub decide-withdraw_iff :
        validate_owner_inn own_inn ≡ ok tt
        → (((o : Outcome) × (decide event state own_inn ≡ ok o) × (o.decision ≡ ready_to_withdraw))
            ↔ IsWithdrawable event state own_inn)
          × ((decide event state own_inn ≡ ok withdraw) ↔ IsWithdrawable event state own_inn)
    unfolding decide
    decide-withdraw_iff v = (
      (
        λ w. IsWithdrawable-of_ready w.0 (ground arith) w.2,
        λ w. (withdraw, rw v (decide_checked-withdraw w), refl),
      ),
      (
        λ e. IsWithdrawable-of_ready withdraw (ground arith) refl,
        λ w. rw v (decide_checked-withdraw w),
      ),
    )

    -- With a valid INN of ours, `decide` recommends a return exactly when the code is ours and
    -- withdrawn for a distance sale, and the event is a return; a receipt is not asked for.
    pub decide_return_iff :
        validate_owner_inn own_inn ≡ ok tt
        → ((o : Outcome) × (decide event state own_inn ≡ ok o) × (o.decision ≡ ready_to_return))
          ↔ IsReturnable event state own_inn
    unfolding decide
    decide_return_iff v = (
      λ w. IsReturnable-of_ready w.0 (ground arith) w.2,
      λ w. (give_back, rw v (decide_checked-give_back w), refl),
    )

    validate_cases :
        ((validate_owner_inn own_inn ≡ ok tt) × IsInn own_inn)
        ⊎ ((m : String) × (validate_owner_inn own_inn ≡ err m) × (¬ IsInn own_inn))
    unfolding validate_owner_inn
    validate_cases =
        elim (Bool-cases (is_ascii own_inn && (is_digits own_inn && has_inn_size (len own_inn)))) [
          | inl good ↦ inl (ground arith, ground arith)
          | inr bad ↦ inr (inn_message, ground arith, λ i. ground (arith, i))
        ]

    pub decide_checked-ne-err : (m : String) → decide_checked event state own_inn ≢ err m
    unfolding decide_checked
    decide_checked-ne-err m e = ground arith

    pub decide_checked_calm :
        (o : Outcome)
        → decide_checked event state own_inn ≡ ok o
        → (o.error ≡ none) × (is_calm o.decision ≡ true)
    unfolding decide_checked
    decide_checked_calm o e = ground arith

    -- `decide` raises exactly when the INN is no text of 10 or 12 ASCII digits, whatever the event
    -- and the state; otherwise it returns an outcome with no error text whose decision is neither
    -- `ERROR` nor `NO_ACTION`.
    pub decide_total :
        ((o : Outcome) × (decide event state own_inn ≡ ok o)
          × (o.error ≡ none)
          × (is_calm o.decision ≡ true)
          × IsInn own_inn)
        ⊎ ((m : String) × (decide event state own_inn ≡ err m) × (¬ IsInn own_inn))
    unfolding decide
    decide_total = elim validate_cases [
      | inl (v, i) ↦ elim (Result-cases (decide_checked event state own_inn)) [
        | inl (o, e) ↦ let (x, c) = decide_checked_calm o e in inl (o, rw v e, x, c, i)
        | inr (m, e) ↦ absurd (decide_checked-ne-err m e)
      ]
      | inr (m, v, i) ↦ inr (m, rw v, i)
    ]
