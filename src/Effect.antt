-- ===== src/Effect.antt =====
-- Python's exceptions as values, and methods that change a state and may raise.
-- What an action wrote before it raised stays written, so the state comes back beside the error.
pub mod Rules
pub mod Checks
pub mod Mixed
pub mod Returns
pub mod Ends
use fbs_chz.Prelude.{arith, if◌then◌else◌, Bool, true, false, ◌≡◌, ap, refl, ◌⊎◌, inl, inr}

pub data Result {ℓ} (E : Type ℓ) (A : Type ℓ) : Type ℓ where
  ok : A → Result E A
  err : E → Result E A

abbrev pub Exec : Type 0 → Type 0 → Type 0 → Type 0
Exec E S A = S → Result E A × S

module _ {E S A : Type 0} where
  unfoldable pub pure : A → Exec E S A
  pure a s = (ok a, s)

  unfoldable pub raise : E → Exec E S A
  raise e s = (err e, s)

  -- A computation that may raise and changes nothing.
  unfoldable pub lift : Result E A → Exec E S A
  lift r s = (r, s)

  unfoldable pub gets : (S → A) → Exec E S A
  gets f s = (ok (f s), s)

module _ {E S : Type 0} where
  unfoldable pub modify : (S → S) → Exec E S (Unit {0})
  modify f s = (ok tt, f s)

  -- `if not test: raise e`
  unfoldable pub require : Bool → E → Exec E S (Unit {0})
  require true e s = (ok tt, s)
  require false e s = (err e, s)

module _ {E S A B : Type 0} where
  abbrev pub continue : Result E A → (A → Exec E S B) → Exec E S B
  continue (ok a) f s = f a s
  continue (err e) f s = (err e, s)

  infixl 10 ◌>>=◌ ◌>>◌
  unfoldable pub ◌>>=◌ : Exec E S A → (A → Exec E S B) → Exec E S B
  unfolding pure raise lift gets modify require
  ◌>>=◌ m f s = let (r, s') = m s in continue r f s'

  abbrev pub ◌>>◌ : Exec E S A → Exec E S B → Exec E S B
  m >> n = m >>= λ _. n

-- The same for pure code that raises: `bind` chains it.
abbrev pub bind : {E A B : Type 0} → Result E A → (A → Result E B) → Result E B
bind (ok a) f = f a
bind (err e) f = err e

pub ok-injective : {E A : Type 0} (a b : A) → Path (Result E A) (ok a) (ok b) → a ≡ b
ok-injective {E} {A} a b h = ap value h
  where
    value : Result E A → A
    value (ok x) = x
    value (err e) = a

-- `if test: raise e` and then a value.
pub unless_ok :
    {E A : Type 0} (b : Bool) (e : E) (v r : A)
    → Path (Result E A) (if b then err e else ok v) (ok r)
    → (b ≡ false) × (v ≡ r)
unless_ok false e v r h = (refl, ok-injective v r h)
unless_ok true e v r h = absurd (ground arith)

pub Result-cases {ℓ} :
    {E A : Type ℓ} (r : Result E A) → ((a : A) × (r ≡ ok a)) ⊎ ((e : E) × (r ≡ err e))
Result-cases (ok a) = inl (a, refl)
Result-cases (err e) = inr (e, refl)

-- `try: a = m … except Exception as e: g` followed by `f`: the handler goes on from the state that
-- the body left.
module _ {E S A B : Type 0} where
  abbrev pub resume : Result E A × S → (A → Exec E S B) → (E → Exec E S B) → Result E B × S
  resume (ok a, s) f g = f a s
  resume (err e, s) f g = g e s

  unfoldable pub recover : Exec E S A → (A → Exec E S B) → (E → Exec E S B) → Exec E S B
  recover m f g s = resume (m s) f g
