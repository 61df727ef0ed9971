-- ===== src/Effect/Rules.antt =====
-- Relations between the state before an action and the state after it, one rule for each way to
-- build an action. The relation is reflexive and transitive.
use fbs_chz.Prelude.{Bool, true, false, ◌≡◌, ◌∙◌, refl, if◌then◌else◌}
use fbs_chz.Effect
use fbs_chz.Effect.{
  Result, ok, err, Exec, pure, raise, lift, gets, require, ◌>>=◌, ◌>>◌, resume, recover,
}

-- `m` relates every state to the state that it leaves, whether it returns or raises.
pub record Moves {E S A : Type 0} (R : S → S → Type 0) (m : Exec E S A) : Type 0 where
  pub at : (s : S) → R s (m s).1

pub record IsPreorder {S : Type 0} (R : S → S → Type 0) : Type 0 where
  pub rfl : (s : S) → R s s
  pub trans : (s t u : S) → R s t → R t u → R s u

pub record IsReflexive {S : Type 0} (R : S → S → Type 0) : Type 0 where
  pub rfl : (s : S) → R s s

-- Nothing changes.
pub record Same {S : Type 0} (s t : S) : Type 0 where
  pub same : t ≡ s

pub Same-preorder : {S : Type 0} → IsPreorder (Same {S = S})
Same-preorder = record {
  rfl = λ s. record { same = refl };
  trans = λ s t u h g. record { same = g.same ∙ h.same };
}

module _ {E S A : Type 0} {R : S → S → Type 0} (p : IsPreorder R) where
  pub Moves-pure : (a : A) → Moves {E = E} R (pure a)
  unfolding pure
  Moves-pure a = record { at = λ s. p.rfl s }

  pub Moves-raise : (e : E) → Moves R (raise {A = A} e)
  unfolding raise
  Moves-raise e = record { at = λ s. p.rfl s }

  pub Moves-lift : (r : Result E A) → Moves R (lift r)
  unfolding lift
  Moves-lift r = record { at = λ s. p.rfl s }

  pub Moves-gets : (f : S → A) → Moves {E = E} R (gets f)
  unfolding gets
  Moves-gets f = record { at = λ s. p.rfl s }

module _ {E S : Type 0} {R : S → S → Type 0} (p : IsPreorder R) where
  pub Moves-require : (b : Bool) (e : E) → Moves R (require b e)
  unfolding require
  Moves-require true e = record { at = λ s. p.rfl s }
  Moves-require false e = record { at = λ s. p.rfl s }

module _ {E S A : Type 0} {R : S → S → Type 0} where
  pub Moves-if :
      (b : Bool) (m n : Exec E S A) → Moves R m → Moves R n → Moves R (if b then m else n)
  Moves-if true m n km kn = km
  Moves-if false m n km kn = kn

module _ {E S A B : Type 0} {R : S → S → Type 0} (p : IsPreorder R) where
  Moves-continue :
      (f : A → Exec E S B)
      → ((a : A) → Moves R (f a))
      → (r : Result E A) (s t : S) → R s t
      → R s (Effect.continue r f t).1
  Moves-continue f kf (ok a) s t h = p.trans s t (f a t).1 h ((kf a).at t)
  Moves-continue f kf (err e) s t h = h

  pub Moves-bind :
      (m : Exec E S A) (f : A → Exec E S B)
      → Moves R m
      → ((a : A) → Moves R (f a))
      → Moves R (m >>= f)
  unfolding ◌>>=◌
  Moves-bind m f km kf = record { at = λ s. Moves-continue f kf (m s).0 s (m s).1 (km.at s) }

-- The same at one state, for parts that may use what has been read and tested before them.
module _ {E S A : Type 0} {R : S → S → Type 0} (p : IsReflexive R) where
  pub at_require :
      (b : Bool) (e : E) (n : Exec E S A) (s : S)
      → (b ≡ true → R s (n s).1)
      → R s ((require b e >> n) s).1
  unfolding ◌>>=◌
  at_require true e n s h = h refl
  at_require false e n s h = p.rfl s

module _ {E S A B : Type 0} {R : S → S → Type 0} (p : IsReflexive R) where
  pub at_lift :
      (r : Result E A) (f : A → Exec E S B) (s : S)
      → ((a : A) → r ≡ ok a → R s (f a s).1)
      → R s ((lift r >>= f) s).1
  unfolding ◌>>=◌
  at_lift (ok a) f s h = h a refl
  at_lift (err e) f s h = p.rfl s

  at_continue :
      (f : A → Exec E S B) (r : Result E A) (s t : S)
      → t ≡ s
      → ((a : A) → r ≡ ok a → R s (f a s).1)
      → R s (Effect.continue r f t).1
  at_continue f (ok a) s t e h = rw e (h a refl)
  at_continue f (err x) s t e h = rw e (p.rfl s)

  -- A part that changes nothing: what follows may use that it returned.
  pub at_read :
      (m : Exec E S A) (f : A → Exec E S B) (s : S)
      → (m s).1 ≡ s
      → ((a : A) → (m s).0 ≡ ok a → R s (f a s).1)
      → R s ((m >>= f) s).1
  unfolding ◌>>=◌
  at_read m f s e h = at_continue f (m s).0 s (m s).1 e h

module _ {E S A B : Type 0} {R : S → S → Type 0} (p : IsPreorder R) where
  pub at_then :
      (m : Exec E S A) (f : A → Exec E S B) (s : S)
      → R s (m s).1
      → ((a : A) → Moves R (f a))
      → R s ((m >>= f) s).1
  unfolding ◌>>=◌
  at_then m f s h k = Moves-continue p f k (m s).0 s (m s).1 h

module _ {E S A B : Type 0} {R : S → S → Type 0} (p : IsPreorder R) where
  resume-Moves :
      (f : A → Exec E S B) (g : E → Exec E S B)
      → ((a : A) → Moves R (f a))
      → ((e : E) → Moves R (g e))
      → (v : S) (r : Result E A × S) → R v r.1
      → R v (resume r f g).1
  resume-Moves f g kf kg v (ok a, s) h = p.trans v s (f a s).1 h ((kf a).at s)
  resume-Moves f g kf kg v (err e, s) h = p.trans v s (g e s).1 h ((kg e).at s)

  pub Moves-recover :
      (m : Exec E S A) (f : A → Exec E S B) (g : E → Exec E S B)
      → Moves R m
      → ((a : A) → Moves R (f a))
      → ((e : E) → Moves R (g e))
      → Moves R (recover m f g)
  unfolding recover
  Moves-recover m f g km kf kg = record { at = λ s. resume-Moves f g kf kg s (m s) (km.at s) }
