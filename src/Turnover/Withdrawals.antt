-- ===== src/Turnover/Withdrawals.antt =====
-- The documents of wbcz/turnover.py that withdraw codes by a remote sale and return them.
use fbs_chz.Effect.Checks.{check, ◌>>=◌, ◌>>◌}
use fbs_chz.Prelude.{
  ℕ, zero, suc, String, Bool, true, false, Option, none, some, List, [], ◌∷◌, ◌++◌, ◌&&◌, ◌||◌,
  ◌==◌, ◌<+>◌, not, elem, nat_eq, leb, all, any, codes, len, map, if◌then◌else◌,
}
use fbs_chz.Runtime.{Runtime, num, bool, str, arr}
use fbs_chz.Effect.{ok, err}
use fbs_chz.Turnover.Fields.{
  TurnoverError, contract_error, manual_review, Checked, Library, Day, distinct, nonempty,
  inn_field, cis_field, bounded_day, five_years_before,
}
use fbs_chz.Turnover.Parts.{
  Wire, items_of, wires, optional, is_none, some_given, PermitDocument, PrimaryDocument,
  ModLocation, permit_wire, return_wire, withdrawal_wire, mod_wire, return_primary_types,
}

-- An `int` of Python: `negsuc n` is -(n + 1).
pub data ℤ : Type 0 where
  pos negsuc : ℕ → ℤ

-- A cost in kopecks.
pub record WithdrawalProduct : Type 0 where
  pub cis : String
  pub product_cost : ℤ

pub record LkReceiptDistanceDocument : Type 0 where
  pub inn : String
  pub action_date : Day
  pub products : List WithdrawalProduct
  pub mod_location : ModLocation
  pub primary_document : Option PrimaryDocument

pub record ReturnProduct : Type 0 where
  pub ki : String
  pub paid : Option Bool
  pub primary_document : Option PrimaryDocument
  pub permit : Option PermitDocument

pub record LpReturnDocument : Type 0 where
  pub trade_participant_inn : String
  pub products_list : List ReturnProduct
  pub paid : Option Bool
  pub primary_document : Option PrimaryDocument
  pub permit : Option PermitDocument
  pub state_contract_id : Option String
  pub return_type : String

-- `item.x if item.x is not None else self.x`
abbrev pub or_root {ℓ} : {A : Type ℓ} → Option A → Option A → Option A
or_root none root = root
or_root (some a) root = some a

abbrev pub is_true_or : Bool → Option Bool → Bool
is_true_or b (some c) = if b then c else not c
is_true_or b none = false

-- The types of a primary document for each type of return.
abbrev pub primary_types_of : String → List String
primary_types_of t =
    if t == "REMOTE_SALE_RETURN" || t == "RETAIL_RETURN"
    then return_primary_types
    else if t == "NOT_FOR_SALE_RETURN"
    then "OTHER" ∷ []
    else []

abbrev pub paid_wire : Option Bool → Wire
paid_wire none = []
paid_wire (some b) = ("paid", bool b) ∷ []

-- Whether some item has its own part.
abbrev pub any_item : {A : Type 0} → (ReturnProduct → Option A) → List ReturnProduct → Bool
any_item f l = any (λ x. not (is_none (f x))) l

abbrev pub bad_cost : TurnoverError
bad_cost =
    contract_error "product_cost must be integer kopecks in official 0..99999999999999999 range"

-- The cost of a product, where it is in the range.
unfoldable pub checked_cost : ℤ → Checked ℕ
checked_cost (pos n) = do a ← check (leb n 99999999999999999) bad_cost; ok n
checked_cost (negsuc n) = err bad_cost

module _ ⦃py : Runtime⦄ ⦃lib : Library⦄ where
  unfoldable pub withdrawn_wire : WithdrawalProduct → Checked Wire
  withdrawn_wire p = do
    cost ← checked_cost p.product_cost
    cis ← cis_field p.cis "cis"
    ok (("cis", str cis) ∷ ("product_cost", num cost) ∷ [])

  -- `LkReceiptDistanceDocument.to_wire`
  unfoldable pub distance_wire : LkReceiptDistanceDocument → Checked Wire
  distance_wire d = do
    a ← some_given d.products "products must be non-empty"
    products ← wires withdrawn_wire d.products
    b ←
        check (distinct (map (λ p. p.cis) d.products))
          (contract_error "products[].cis must be unique")
    inn ← inn_field d.inn "inn"
    date ← bounded_day d.action_date "action_date" (five_years_before lib.today) lib.today
    place ← mod_wire d.mod_location
    primary ← optional d.primary_document withdrawal_wire
    ok (
        ("inn", str inn) ∷ ("action", str "DISTANCE") ∷ ("action_date", str date) ∷ place
        ++ ("products", arr (items_of products)) ∷ primary)

  -- `ReturnProduct.to_wire`
  unfoldable pub returned_wire : List String → ReturnProduct → Checked Wire
  returned_wire allowed p = do
    ki ← cis_field p.ki "ki"
    primary ← optional p.primary_document (return_wire allowed)
    permit ← optional p.permit permit_wire
    ok (("ki", str ki) ∷ paid_wire p.paid ++ primary ++ permit)

  abbrev pub nth : ℕ → List ℕ → ℕ
  nth n [] = 0
  nth zero (c ∷ l) = c
  nth (suc n) (c ∷ l) = nth n l

  -- `_validated_state_contract_id`
  unfoldable pub state_contract_field : String → Checked String
  state_contract_field value = do
    text ← nonempty value "state_contract_id" 25
    a ←
        check (nat_eq (len text) 25 && all lib.is_decimal (codes text))
          (contract_error "state_contract_id must contain exactly 25 digits")
    let c = nth 12 (codes text)
    b ←
        check (nat_eq c 49 || nat_eq c 50 || nat_eq c 51)
          (contract_error "state_contract_id 13th character must be 1, 2, or 3")
    ok text

  abbrev pub required_contract : Option String → Checked Wire
  required_contract none = err (manual_review "STATE_CONTRACT_ID_REQUIRED")
  required_contract (some s) =
      state_contract_field s >>= λ text. ok (("state_contract_id", str text) ∷ [])

  abbrev pub contract_wire : String → Option String → Checked Wire
  contract_wire t o =
      if t == "STATE_CONTRACT_RETURN"
      then required_contract o
      else check (is_none o) (
          contract_error
            "state_contract_id must be absent unless return_type=STATE_CONTRACT_RETURN")
        >>= λ a. ok []

  -- The rules on payment and primary document for one product of a return.
  unfoldable pub check_paid : LpReturnDocument → ReturnProduct → Checked (Unit {0})
  check_paid d p =
      let primary = or_root p.primary_document d.primary_document in
      let paid = or_root p.paid d.paid in
      if d.return_type == "REMOTE_SALE_RETURN"
      then check (not (is_none paid)) (manual_review "LP_RETURN_PAID_REQUIRED")
        >> check (not (is_true_or true paid && is_none primary))
            (manual_review "LP_RETURN_PRIMARY_DOCUMENT_REQUIRED")
        >> check (not (is_true_or false paid && not (is_none primary))) (
            contract_error
              "primary document must be absent when REMOTE_SALE_RETURN effective paid=false")
      else check
          (not
            (elem d.return_type ("RETAIL_RETURN" ∷ "NOT_FOR_SALE_RETURN" ∷ []) && is_none primary))
          (manual_review "LP_RETURN_PRIMARY_DOCUMENT_REQUIRED")

  -- The tests of the root against the items.
  unfoldable pub check_root : LpReturnDocument → Checked (Unit {0})
  check_root d =
      let bare = elem d.return_type ("OWN_USE_RETURN" ∷ "STATE_CONTRACT_RETURN" ∷ []) in
      check
        (not (
          bare
          && (not (is_none d.primary_document)
              || any_item (λ x. x.primary_document) d.products_list)))
        (contract_error ("primary document must be absent for " <+> d.return_type))
      >> check (not (bare && (not (is_none d.permit) || any_item (λ x. x.permit) d.products_list)))
          (contract_error ("certificate data must be absent for " <+> d.return_type))
      >> check (not (not (is_none d.permit) && any_item (λ x. x.permit) d.products_list))
          (contract_error "certificate data must be root-level or item-level, not both")

  unfoldable pub checked_return : LpReturnDocument → ReturnProduct → Checked Wire
  checked_return d p = do a ← check_paid d p; returned_wire (primary_types_of d.return_type) p

  -- The first tests: the type of the return, the products and who says that they were paid.
  unfoldable pub check_kind : LpReturnDocument → Checked (Unit {0})
  check_kind d =
      check (not (d.return_type == "VENDING_RETURN"))
        (manual_review "RETURN_TYPE_NOT_APPLICABLE_TO_LP")
      >> check
          (elem d.return_type (
            "REMOTE_SALE_RETURN" ∷ "RETAIL_RETURN" ∷ "OWN_USE_RETURN" ∷ "STATE_CONTRACT_RETURN"
            ∷ "NOT_FOR_SALE_RETURN" ∷ []))
          (manual_review "RETURN_TYPE_MATRIX_NOT_CONFIRMED_FOR_LP")
      >> some_given d.products_list "products_list must be non-empty"
      >> check
          (d.return_type == "REMOTE_SALE_RETURN"
            || is_none d.paid && not (any_item (λ x. x.paid) d.products_list))
          (contract_error "paid must be absent unless return_type=REMOTE_SALE_RETURN")

  -- `LpReturnDocument.to_wire`
  unfoldable pub lp_return_wire : LpReturnDocument → Checked Wire
  lp_return_wire d = do
    a ← check_kind d
    contract ← contract_wire d.return_type d.state_contract_id
    a ← check_root d
    primary ← optional d.primary_document (return_wire (primary_types_of d.return_type))
    products ← wires (checked_return d) d.products_list
    a ←
        check (distinct (map (λ p. p.ki) d.products_list))
          (contract_error "products_list[].ki must be unique")
    inn ← inn_field d.trade_participant_inn "trade_participant_inn"
    permit ← optional d.permit permit_wire
    ok (
        ("trade_participant_inn", str inn)
          ∷ ("return_type", str d.return_type)
          ∷ ("products_list", arr (items_of products))
          ∷ paid_wire d.paid
        ++ primary
        ++ permit
        ++ contract)
