-- ===== src/Effect/Returns.antt =====
-- What holds of the result and of the state behind it, where an action returns.
use fbs_chz.Prelude.{◌≡◌, ◌∙◌, sym, ap, arith}
use fbs_chz.Effect.{Result, ok, err, Exec, pure, raise, ◌>>=◌, resume, recover}
use fbs_chz.Effect.Mixed.{bind-returned}

pub record Returns {E S A : Type 0} (Q : A → S → Type 0) (m : Exec E S A) : Type 0 where
  pub returned : (s : S) (a : A) → (m s).0 ≡ ok a → Q a (m s).1

module _ {E S A : Type 0} {Q : A → S → Type 0} where
  pub Returns-raise : (e : E) → Returns Q (raise e)
  unfolding raise
  Returns-raise e = record { returned = λ s a h. absurd (ground arith) }

module _ {E S A B : Type 0} {Q : B → S → Type 0} where
  -- Only the last part counts.
  pub Returns-bind :
      (m : Exec E S A) (f : A → Exec E S B) → ((a : A) → Returns Q (f a)) → Returns Q (m >>= f)
  Returns-bind m f k = record {
    returned = λ s b h.
        let (a, e, t) = bind-returned f m s b h in
        rw t ((k a).returned (m s).1 b (sym (ap (λ p. p.0) t) ∙ h));
  }

  pub Returns-recover :
      (m : Exec E S A) (f : A → Exec E S B) (g : E → Exec E S B)
      → ((a : A) → Returns Q (f a))
      → ((e : E) → Returns Q (g e))
      → Returns Q (recover m f g)
  unfolding recover
  Returns-recover m f g kf kg = record { returned = λ s b h. resumed (m s) b h }
    where
      resumed : (p : Result E A × S) (b : B) → (resume p f g).0 ≡ ok b → Q b (resume p f g).1
      resumed (ok a, s) b h = (kf a).returned s b h
      resumed (err e, s) b h = (kg e).returned s b h

module _ {E S A : Type 0} {Q : A → S → Type 0} where
  -- `return m` under a `try`: the result of the body, or of a handler.
  pub Returns-rescue :
      (m : Exec E S A) (g : E → Exec E S A)
      → Returns Q m
      → ((e : E) → Returns Q (g e))
      → Returns Q (recover m pure g)
  unfolding recover pure
  Returns-rescue m g km kg = record { returned = λ s b h. rescued (m s) (km.returned s) b h }
    where
      rescued :
          (p : Result E A × S)
          → ((a : A) → p.0 ≡ ok a → Q a p.1)
          → (b : A) → (resume p pure g).0 ≡ ok b
          → Q b (resume p pure g).1
      rescued (ok a, s) k b h = k b h
      rescued (err e, s) k b h = (kg e).returned s b h
