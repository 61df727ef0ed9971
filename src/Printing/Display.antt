-- ===== src/Printing/Display.antt =====
-- `derive_gs1_display_values` of wbcz/physical_printing.py, and the dicts of displayed values.
use mathlib.Core.Option
use fbs_chz.Prelude.{
  ℕ, suc, ◌+◌, String, Bool, true, false, Option, none, some, List, [], ◌∷◌, ◌++◌, ◌&&◌, ◌==◌,
  nat_eq, leb, all, length, if◌then◌else◌,
}
use fbs_chz.Runtime.{Bytes, Runtime}
use fbs_chz.Printing.Contracts.{between}
use fbs_chz.Printing.Raster.{skip, first}

-- `bytes.startswith`
unfoldable pub starts_with : Bytes → Bytes → Bool
starts_with [] b = true
starts_with (x ∷ p) [] = false
starts_with (x ∷ p) (y ∷ b) = nat_eq x y && starts_with p b

-- `bytes.find`, by the number of bytes in front.
unfoldable pub find_bytes : Bytes → Bytes → Option ℕ
find_bytes p [] = none
find_bytes p (y ∷ b) =
    let rest = find_bytes p b in if starts_with p (y ∷ b) then some 0 else Option.map suc rest

abbrev pub least : Option ℕ → Option ℕ → Option ℕ
least none b = b
least (some a) none = some a
least (some a) (some b) = some (if leb a b then a else b)

-- The bytes in front of the group separator, or of the application identifier 91.
abbrev pub or_all : Option ℕ → Bytes → ℕ
or_all none b = length b
or_all (some n) b = n

unfoldable pub serial_length : Bytes → ℕ
serial_length b = or_all (least (find_bytes (29 ∷ []) b) (find_bytes (57 ∷ 49 ∷ []) b)) b

-- `bytes.decode("ascii")`
unfoldable pub decode_ascii : ⦃py : Runtime⦄ → Bytes → Option String
decode_ascii ⦃py⦄ b = if all (λ c. leb c 127) b then py.utf8_decode b else none

abbrev pub entry : String → Option String → List (String × String)
entry key none = []
entry key (some v) = (key, v) ∷ []

abbrev pub is_gs1 : Bytes → Bool
is_gs1 b =
    starts_with (48 ∷ 49 ∷ []) b
    && leb 18 (length b)
    && all (between 48 57) (first 14 (skip 2 b))
    && starts_with (50 ∷ 49 ∷ []) (skip 16 b)

unfoldable pub derive_gs1_display_values : ⦃py : Runtime⦄ → Bytes → List (String × String)
derive_gs1_display_values b =
    if is_gs1 b
    then entry "GTIN" (decode_ascii (first 14 (skip 2 b)))
      ++ entry "HUMAN_READABLE_KI" (decode_ascii (first (18 + serial_length (skip 18 b)) b))
    else []

-- `d[key] = value`
unfoldable pub assigned : String → String → List (String × String) → List (String × String)
assigned k v [] = (k, v) ∷ []
assigned k v ((j, x) ∷ d) = if j == k then (j, v) ∷ d else (j, x) ∷ assigned k v d

-- `{**d, **e}`
unfoldable pub merged : List (String × String) → List (String × String) → List (String × String)
merged d [] = d
merged d ((k, v) ∷ e) = merged (assigned k v d) e
