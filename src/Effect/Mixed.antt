-- ===== src/Effect/Mixed.antt =====
-- Rules for an action whose parts relate the states in different ways.
use fbs_chz.Effect.{Result, ok, err, Exec, ◌>>=◌, resume, recover, continue}
use fbs_chz.Prelude.{◌≡◌, refl, arith}
use fbs_chz.Effect.Rules.{Moves}

-- `P` and then `Q` make an `R`, and so does `P` alone.
pub record Composes {S : Type 0} (P Q R : S → S → Type 0) : Type 0 where
  pub alone : (s t : S) → P s t → R s t
  pub both : (s t u : S) → P s t → Q t u → R s u

module _ {E S A B : Type 0} {P Q R : S → S → Type 0} (c : Composes P Q R) where
  continue_mixed :
      (f : A → Exec E S B)
      → ((a : A) → Moves Q (f a))
      → (r : Result E A) (s t : S) → P s t
      → R s (continue r f t).1
  continue_mixed f kf (ok a) s t h = c.both s t (f a t).1 h ((kf a).at t)
  continue_mixed f kf (err e) s t h = c.alone s t h

  pub bind_mixed :
      (m : Exec E S A) (f : A → Exec E S B)
      → Moves P m
      → ((a : A) → Moves Q (f a))
      → Moves R (m >>= f)
  unfolding ◌>>=◌
  bind_mixed m f km kf = record { at = λ s. continue_mixed f kf (m s).0 s (m s).1 (km.at s) }

  resume_mixed :
      (f : A → Exec E S B) (g : E → Exec E S B)
      → ((a : A) → Moves Q (f a))
      → ((e : E) → Moves Q (g e))
      → (v : S) (r : Result E A × S) → P v r.1
      → R v (resume r f g).1
  resume_mixed f g kf kg v (ok a, s) h = c.both v s (f a s).1 h ((kf a).at s)
  resume_mixed f g kf kg v (err e, s) h = c.both v s (g e s).1 h ((kg e).at s)

  pub recover_mixed :
      (m : Exec E S A) (f : A → Exec E S B) (g : E → Exec E S B)
      → Moves P m
      → ((a : A) → Moves Q (f a))
      → ((e : E) → Moves Q (g e))
      → Moves R (recover m f g)
  unfolding recover
  recover_mixed m f g km kf kg = record { at = λ s. resume_mixed f g kf kg s (m s) (km.at s) }

-- An action of two parts returns only where the first has returned.
module _ {E S A B : Type 0} (f : A → Exec E S B) where
  continue-returned :
      (r : Result E A) (t : S) (b : B)
      → (continue r f t).0 ≡ ok b
      → (a : A) × (r ≡ ok a) × (continue r f t ≡ f a t)
  continue-returned (ok a) t b h = (a, refl, refl)
  continue-returned (err e) t b h = absurd (ground arith)

  pub bind-returned :
      (m : Exec E S A) (s : S) (b : B)
      → ((m >>= f) s).0 ≡ ok b
      → (a : A) × ((m s).0 ≡ ok a) × ((m >>= f) s ≡ f a (m s).1)
  unfolding ◌>>=◌
  bind-returned m s b h = continue-returned (m s).0 (m s).1 b h
