-- ===== src/Prelude/Text.antt =====
-- Texts by their characters: code points, `len`, and slices from the start.
use Prim.Native.Nat.{ℕ, zero, suc}
use Prim.Native.Char.{code}
use Prim.Native.String
use Prim.Native.String.{String}
use mathlib.Core.List.{List, [], ◌∷◌}
use fbs_chz.Prelude.Lists.{length}

abbrev pub codes : String → List ℕ
codes String.[] = []
codes (String.◌∷◌ c s) = code c ∷ codes s

-- `len(s)`: the number of characters.
abbrev pub len : String → ℕ
len s = length (codes s)

-- `s[:n]`.
abbrev pub prefix : ℕ → String → String
prefix zero s = ""
prefix (suc n) String.[] = ""
prefix (suc n) (String.◌∷◌ c s) = String.◌∷◌ c (prefix n s)

-- `a + b` on texts.
infixr 65 ◌<+>◌
abbrev pub ◌<+>◌ : String → String → String
a <+> b = Prim.Native.String.◌++◌ a b
