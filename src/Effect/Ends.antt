-- ===== src/Effect/Ends.antt =====
-- Actions that return, and what holds when they do.
use fbs_chz.Prelude.{◌≡◌, refl}
use fbs_chz.Effect.{ok, Exec, pure, ◌>>=◌}

-- From `s` the action returns, with a value and a state that satisfy `Q`.
pub record Ends {E S A : Type 0} (m : Exec E S A) (s : S) (Q : A → S → Type 0) : Type 0 where
  pub value : A
  pub returns : (m s).0 ≡ ok value
  pub holds : Q value (m s).1

module _ {E S A B : Type 0} where
  pub Ends-bind :
      (m : Exec E S A) (f : A → Exec E S B) (s : S) (Q : A → S → Type 0) (R : B → S → Type 0)
      → Ends m s Q
      → ((a : A) (t : S) → Q a t → Ends (f a) t R)
      → Ends (m >>= f) s R
  unfolding ◌>>=◌
  Ends-bind m f s Q R h k =
      let g = k h.value (m s).1 h.holds in
      record { value = g.value; returns = rw h.returns g.returns; holds = rw h.returns g.holds }

module _ {E S A : Type 0} where
  pub Ends-pure : (a : A) (s : S) (Q : A → S → Type 0) → Q a s → Ends {E = E} (pure a) s Q
  unfolding pure
  Ends-pure a s Q h = record { value = a; returns = refl; holds = h }
