-- ===== src/Effect/Checks.antt =====
-- Chains of tests that may raise and change nothing: the operators, and what holds where one returns.
use fbs_chz.Prelude.{Bool, true, false, List, [], ◌∷◌, ◌≡◌, refl, All, arith}
use fbs_chz.Effect.{Result, ok, err, bind}

module _ {E A B : Type 0} where
  infixl 10 ◌>>=◌ ◌>>◌
  abbrev pub ◌>>=◌ : Result E A → (A → Result E B) → Result E B
  m >>= f = bind m f

  abbrev pub ◌>>◌ : Result E A → Result E B → Result E B
  m >> n = m >>= λ _. n

  -- A chain that returns: its first part has, and so has the rest.
  pub bind-ok :
      (m : Result E A) (f : A → Result E B) (b : B)
      → bind m f ≡ ok b
      → (a : A) × (m ≡ ok a) × (f a ≡ ok b)
  bind-ok (ok a) f b h = (a, refl, h)
  bind-ok (err e) f b h = absurd (ground arith)

module _ {E : Type 0} where
  -- `if not test: raise e`
  abbrev pub check : Bool → E → Result E (Unit {0})
  check true e = ok tt
  check false e = err e

  pub check-ok : (b : Bool) (e : E) (a : Unit {0}) → check b e ≡ ok a → b ≡ true
  check-ok true e a h = refl
  check-ok false e a h = absurd (ground arith)

module _ {E A : Type 0} where
  -- `for x in xs: f(x)`
  unfoldable pub each : (A → Result E (Unit {0})) → List A → Result E (Unit {0})
  each f [] = ok tt
  each f (x ∷ l) = f x >> each f l

  -- What holds of every item that passes a test holds of the items of a list that passes it.
  pub each-All :
      (P : A → Type 0) (f : A → Result E (Unit {0}))
      → ((x : A) (a : Unit {0}) → f x ≡ ok a → P x)
      → (l : List A) (a : Unit {0}) → each f l ≡ ok a
      → All P l
  unfolding each
  each-All P f k [] a h = tt
  each-All P f k (x ∷ l) a h =
      let (b, p, q) = bind-ok (f x) (λ y. each f l) a h in (k x b p, each-All P f k l a q)
