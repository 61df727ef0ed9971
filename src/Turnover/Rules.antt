-- ===== src/Turnover/Rules.antt =====
-- What holds of the document of a remote sale of wbcz/turnover.py where it is written out.
use fbs_chz.Effect.Checks.{bind-ok, check, check-ok}
use fbs_chz.Prelude.{
  ℕ, ◌≤◌, String, Bool, true, false, List, [], ◌∷◌, ◌≡◌, refl, leb, len, map, All, not, ◌&&◌,
  nat_eq, length, arith, not-false, codes, all,
}
use fbs_chz.Runtime.{Runtime}
use fbs_chz.Effect.{unless_ok, ok}
use fbs_chz.Turnover.Fields.{Checked, Library, distinct, nonempty, cis_field}
use fbs_chz.Turnover.Parts.{Wire, wires, some_given}
use fbs_chz.Turnover.Withdrawals.{
  WithdrawalProduct, LkReceiptDistanceDocument, ℤ, pos, negsuc, bad_cost, checked_cost,
  withdrawn_wire, distance_wire,
}

-- What holds of every item whose wire is made holds of the items of a list.
pub wires-All :
    {A : Type 0} (P : A → Type 0) (f : A → Checked Wire)
    → ((x : A) (w : Wire) → f x ≡ ok w → P x)
    → (l : List A) (ws : List Wire) → wires f l ≡ ok ws
    → All P l
unfolding wires
wires-All P f k [] ws h = tt
wires-All P f k (x ∷ l) ws h =
    let (w, p, q) = bind-ok (f x) _ ws h in
    let (rest, r, s) = bind-ok (wires f l) _ ws q in (k x w p, wires-All P f k l rest r)

leb-true : (a b : ℕ) → leb a b ≡ true → a ≤ b
leb-true a b h = ground arith

bounds_of : (n : ℕ) (rest : Bool) → (leb 18 n && leb n 74 && rest) ≡ true → (18 ≤ n) × (n ≤ 74)
bounds_of n rest h = ground arith

-- A product of a withdrawal: its cost and the length of its code.
pub record IsBounded (p : WithdrawalProduct) : Type 0 where
  pub cost : (n : ℕ) × (p.product_cost ≡ pos n) × (n ≤ 99999999999999999)
  pub shortest : 18 ≤ len p.cis
  pub longest : len p.cis ≤ 74

checked_cost-bounds :
    (c : ℤ) (m : ℕ) → checked_cost c ≡ ok m → (n : ℕ) × (c ≡ pos n) × (n ≤ 99999999999999999)
unfolding checked_cost
checked_cost-bounds (pos n) m h =
    let (a, low, rest) = bind-ok (check (leb n 99999999999999999) bad_cost) _ m h in
    (n, refl, leb-true n 99999999999999999 (check-ok _ _ a low))
checked_cost-bounds (negsuc n) m h = absurd (ground arith)

module _ ⦃py : Runtime⦄ ⦃lib : Library⦄ where
  nonempty-same : (s label : String) (n : ℕ) (t : String) → nonempty s label n ≡ ok t → s ≡ t
  unfolding nonempty
  nonempty-same s label n t h = (unless_ok _ _ s t h).1

  cis-bounds : (s label t : String) → cis_field s label ≡ ok t → (18 ≤ len s) × (len s ≤ 74)
  unfolding cis_field
  cis-bounds s label t h =
      let (text, p, q) = bind-ok (nonempty s label 74) _ t h in
      let (a, c, d) = bind-ok (check (is_cis text) _) _ t q in
      rw (nonempty-same s label 74 text p)
        (bounds_of (len text) (all (λ c. not (py.is_space c)) (codes text)) (check-ok _ _ a c))
    where
      is_cis : String → Bool
      is_cis x = leb 18 (len x) && leb (len x) 74 && all (λ c. not (py.is_space c)) (codes x)

  withdrawn-IsBounded : (p : WithdrawalProduct) (w : Wire) → withdrawn_wire p ≡ ok w → IsBounded p
  unfolding withdrawn_wire
  withdrawn-IsBounded p w h =
      let (n, cost, h1) = bind-ok (checked_cost p.product_cost) _ w h in
      let (code, coded, h2) = bind-ok (cis_field p.cis "cis") _ w h1 in
      let (low, high) = cis-bounds p.cis "cis" code coded in
      record { cost = checked_cost-bounds p.product_cost n cost; shortest = low; longest = high }

  -- Where the document of a remote sale is written out, it has products, their codes are distinct and
  -- 18 to 74 characters long, and every cost is between 0 and 99999999999999999 kopecks.
  pub distance_wire-bounds :
      (d : LkReceiptDistanceDocument) (w : Wire)
      → distance_wire d ≡ ok w
      → (nat_eq (length d.products) 0 ≡ false)
        × (distinct (map (λ p. p.cis) d.products) ≡ true)
        × All IsBounded d.products
  unfolding distance_wire
  distance_wire-bounds d w h =
      let (a, given, h1) = bind-ok (some_given d.products _) _ w h in
      let (ws, products, h2) = bind-ok (wires withdrawn_wire d.products) _ w h1 in
      let (b, unique, h3) = bind-ok (check (distinct (map (λ p. p.cis) d.products)) _) _ w h2 in
      (
        not-false _ (check-ok _ _ a given),
        check-ok _ _ b unique,
        wires-All IsBounded withdrawn_wire withdrawn-IsBounded d.products ws products,
      )
