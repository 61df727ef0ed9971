-- ===== src/Turnover/Returns.antt =====
-- The rules on payment and primary documents that a return of wbcz/turnover.py keeps to where it is
-- written out.
use fbs_chz.Effect.Checks.{bind-ok, check, check-ok, ◌>>◌}
use fbs_chz.Turnover.Rules.{wires-All}
use fbs_chz.Prelude.{
  Bool-cases, ◌||◌, String, Bool, true, false, Option, none, some, List, [], ◌∷◌, ◌≡◌, refl, ◌⊎◌,
  inl, inr, map, elem, All, not, ◌&&◌, ◌==◌, nat_eq, length, if◌then◌else◌, arith, eq_of_==,
  not-false,
}
use fbs_chz.Runtime.{Runtime}
use fbs_chz.Effect.{ok}
use fbs_chz.Turnover.Fields.{TurnoverError, Checked, Library, distinct}
use fbs_chz.Turnover.Parts.{PrimaryDocument, Wire, wires, some_given, is_none, optional}
use fbs_chz.Turnover.Withdrawals.{
  ReturnProduct, LpReturnDocument, any_item, or_root, is_true_or, check_paid, check_kind,
  check_root, checked_return, lp_return_wire, contract_wire,
}

if_cases :
    (b : Bool) (m n : Checked (Unit {0})) (a : Unit {0})
    → (if b then m else n) ≡ ok a
    → ((b ≡ true) × (m ≡ ok a)) ⊎ ((b ≡ false) × (n ≡ ok a))
if_cases true m n a h = inl (refl, h)
if_cases false m n a h = inr (refl, h)

either_false : (a b : Bool) → not (a && b) ≡ true → (a ≡ false) ⊎ (b ≡ false)
either_false a b h = ground arith

-- Three tests in a row.
three_checks :
    (b c d : Bool) (e f g : TurnoverError) (a : Unit {0})
    → (check b e >> check c f >> check d g) ≡ ok a
    → (b ≡ true) × (c ≡ true) × (d ≡ true)
three_checks b c d e f g a h =
    let (x, first, last) = bind-ok (check b e >> check c f) _ a h in
    let (y, left, right) = bind-ok (check b e) _ x first in
    (check-ok b e y left, check-ok c f x right, check-ok d g a last)

-- A remote sale that was paid has a primary document, and one that was not has none.
abbrev pub PaidOrNot : Option Bool → Option PrimaryDocument → Type 0
PaidOrNot paid primary =
    ((paid ≡ some true) × (is_none primary ≡ false))
    ⊎ ((paid ≡ some false) × (is_none primary ≡ true))

paid_cases :
    (paid : Option Bool) (primary : Option PrimaryDocument)
    → not (is_none paid) ≡ true
    → not (is_true_or true paid && is_none primary) ≡ true
    → not (is_true_or false paid && not (is_none primary)) ≡ true
    → PaidOrNot paid primary
paid_cases none primary h g k = absurd (ground arith)
paid_cases (some true) none h g k = absurd (ground arith)
paid_cases (some true) (some p) h g k = inl (refl, refl)
paid_cases (some false) none h g k = inr (refl, refl)
paid_cases (some false) (some p) h g k = absurd (ground arith)

All-of : {A : Type 0} {P : A → Type 0} → ((x : A) → P x) → (l : List A) → All P l
All-of f [] = tt
All-of f (x ∷ l) = (f x, All-of f l)

All-map : {A : Type 0} {P Q : A → Type 0} → ((x : A) → P x → Q x) → (l : List A) → All P l → All Q l
All-map f [] h = tt
All-map f (x ∷ l) h = (f x h.0, All-map f l h.1)

All-join :
    {A : Type 0} {P Q R S : A → Type 0}
    → ((x : A) → P x → Q x → R x → S x)
    → (l : List A) → All P l
    → All Q l
    → All R l
    → All S l
All-join f [] h g k = tt
All-join f (x ∷ l) h g k = (f x h.0 g.0 k.0, All-join f l h.1 g.1 k.1)

is_none-eq : {A : Type 0} (o : Option A) → is_none o ≡ true → o ≡ none
is_none-eq none h = refl
is_none-eq (some a) h = absurd (ground arith)

any_item-none :
    {A : Type 0} (f : ReturnProduct → Option A) (l : List ReturnProduct)
    → any_item f l ≡ false
    → All (λ p. f p ≡ none) l
any_item-none f [] h = tt
any_item-none f (p ∷ l) h =
    let (first, rest) = parts (is_none (f p)) (any_item f l) h in
    (is_none-eq (f p) first, any_item-none f l rest)
  where
    parts : (a b : Bool) → (not a || b) ≡ false → (a ≡ true) × (b ≡ false)
    parts a b h = ground arith

neither : (a b c : Bool) → a ≡ false → (a || b && not c) ≡ true → (b ≡ true) × (c ≡ false)
neither a b c h g = ground arith

both_absent : (a b c : Bool) → a ≡ true → not (a && (not b || c)) ≡ true → (b ≡ true) × (c ≡ false)
both_absent a b c h g = ground arith

module _ ⦃py : Runtime⦄ ⦃lib : Library⦄ where
  -- What a product's own payment and primary document, or those of the whole return, must be.
  pub record IsSettled (d : LpReturnDocument) (p : ReturnProduct) : Type 0 where
    pub remote :
        (((d.return_type == "REMOTE_SALE_RETURN") ≡ false)
          ⊎ PaidOrNot (or_root p.paid d.paid) (or_root p.primary_document d.primary_document))
    pub other :
        (elem d.return_type ("RETAIL_RETURN" ∷ "NOT_FOR_SALE_RETURN" ∷ []) ≡ false)
        ⊎ (is_none (or_root p.primary_document d.primary_document) ≡ false)

  -- Whether the goods were paid is said of a remote sale only.
  abbrev pub IsUnasked : LpReturnDocument → ReturnProduct → Type 0
  IsUnasked d p =
      ((d.return_type == "REMOTE_SALE_RETURN") ≡ true) ⊎ ((d.paid ≡ none) × (p.paid ≡ none))

  abbrev pub bare_types : List String
  bare_types = "OWN_USE_RETURN" ∷ "STATE_CONTRACT_RETURN" ∷ []

  -- Goods for own use and of a state contract come back without a primary document.
  abbrev pub IsBare : LpReturnDocument → ReturnProduct → Type 0
  IsBare d p =
      (elem d.return_type bare_types ≡ false)
      ⊎ ((d.primary_document ≡ none) × (p.primary_document ≡ none))

  -- One product of a return keeps to the rules on payment and primary documents: a remote sale says
  -- whether it was paid, and has a primary document exactly if it was; another return does not say; a
  -- return of retail or of goods not for sale has a primary document, and one of goods for own use or
  -- of a state contract has none.
  pub record IsPaidRight (d : LpReturnDocument) (p : ReturnProduct) : Type 0 where
    pub settled : IsSettled d p
    pub unasked : IsUnasked d p
    pub bare : IsBare d p

  check_paid-IsSettled :
      (d : LpReturnDocument) (p : ReturnProduct) (a : Unit {0})
      → check_paid d p ≡ ok a
      → IsSettled d p
  unfolding check_paid
  check_paid-IsSettled d p a h = elim (if_cases (d.return_type == "REMOTE_SALE_RETURN") _ _ a h) [
    | inl (e, chain) ↦
        let (given, paid, unpaid) = three_checks _ _ _ _ _ _ a chain in
        record {
          remote = inr (
              paid_cases (or_root p.paid d.paid) (or_root p.primary_document d.primary_document)
                given paid unpaid);
          other = inl (rw (eq_of_== d.return_type "REMOTE_SALE_RETURN" e) refl);
        }
    | inr (e, last) ↦ record { remote = inl e; other = either_false _ _ (check-ok _ _ a last) }
  ]

  check_kind-IsUnasked :
      (d : LpReturnDocument) (a : Unit {0})
      → check_kind d ≡ ok a
      → All (IsUnasked d) d.products_list
  unfolding check_kind
  check_kind-IsUnasked d a h =
      let (b, most, unasked) = bind-ok (_ >> some_given d.products_list _) _ a h in
      elim (Bool-cases (d.return_type == "REMOTE_SALE_RETURN")) [
        | inl e ↦ All-of (λ p. inl e) d.products_list
        | inr e ↦
            let (root, items) = neither _ _ _ e (check-ok _ _ a unasked) in
            All-map (λ p q. inr (is_none-eq d.paid root, q)) d.products_list
              (any_item-none (λ p. p.paid) d.products_list items)
      ]

  check_root-IsBare :
      (d : LpReturnDocument) (a : Unit {0}) → check_root d ≡ ok a → All (IsBare d) d.products_list
  unfolding check_root
  check_root-IsBare d a h =
      let (documents, certificates, twice) = three_checks _ _ _ _ _ _ a h in
      elim (Bool-cases (elem d.return_type bare_types)) [
        | inr e ↦ All-of (λ p. inl e) d.products_list
        | inl e ↦
            let (root, items) = both_absent _ _ _ e documents in
            All-map (λ p q. inr (is_none-eq d.primary_document root, q)) d.products_list
              (any_item-none (λ p. p.primary_document) d.products_list items)
      ]

  given_products :
      (d : LpReturnDocument) (a : Unit {0})
      → check_kind d ≡ ok a
      → nat_eq (length d.products_list) 0 ≡ false
  unfolding check_kind
  given_products d a h =
      let (b, most, paid) = bind-ok (_ >> some_given d.products_list _) _ a h in
      let (vending, known, given) = three_checks _ _ _ _ _ _ b most in not-false _ given

  -- Where a return is written out, it has products with distinct codes, and every one of them keeps to
  -- the rules on payment and primary documents: a remote sale says whether it was paid, and has a
  -- primary document exactly if it was; no other return says whether it was paid; a return of retail or
  -- of goods not for sale has a primary document, and one of goods for own use or of a state contract
  -- has none.
  pub lp_return_wire-IsPaidRight :
      (d : LpReturnDocument) (w : Wire)
      → lp_return_wire d ≡ ok w
      → (nat_eq (length d.products_list) 0 ≡ false)
        × (distinct (map (λ p. p.ki) d.products_list) ≡ true)
        × All (IsPaidRight d) d.products_list
  unfolding lp_return_wire checked_return
  lp_return_wire-IsPaidRight d w h =
      let (a1, kind, h1) = bind-ok (check_kind d) _ w h in
      let (a2, contract, h2) = bind-ok (contract_wire d.return_type d.state_contract_id) _ w h1 in
      let (a3, root, h3) = bind-ok (check_root d) _ w h2 in
      let (a4, primary, h4) = bind-ok (optional d.primary_document _) _ w h3 in
      let (ws, products, h5) = bind-ok (wires (checked_return d) d.products_list) _ w h4 in
      let (a6, unique, h6) =
        bind-ok (check (distinct (map (λ p. p.ki) d.products_list)) _) _ w h5 in
      (
        given_products d a1 kind,
        check-ok _ _ a6 unique,
        All-join (λ p q r t. record { settled = q; unasked = r; bare = t }) d.products_list
            (wires-All (IsSettled d) (checked_return d) (item_settled d) d.products_list ws
              products)
            (check_kind-IsUnasked d a1 kind) (check_root-IsBare d a3 root),
      )
    where
      item_settled :
          (d : LpReturnDocument) (p : ReturnProduct) (w : Wire)
          → checked_return d p ≡ ok w
          → IsSettled d p
      item_settled d p w h =
          let (a, q, r) = bind-ok (check_paid d p) _ w h in check_paid-IsSettled d p a q
