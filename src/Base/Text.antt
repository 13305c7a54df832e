-- ===== src/Base/Text.antt =====
-- Texts that the program lowers and compares: by their code points. Lowering is that of ASCII, which
-- the names that are compared with (model types, dtypes, quantizations) consist of.
use Prim.Native.Nat.{ℕ, ◌+◌}
use Prim.Native.Char.{code}
use Prim.Native.String.{String}
use mathlib.Core.Path.{◌≡◌, refl}
use mathlib.Core.Bool.{Bool, true, false, ◌&&◌}
use native.Mathlib.Omega.{arith}
use mathlib.Core.List.{List, [], ◌∷◌, map}
use jaull.Base.Tests.{leb, ◌==◌, if◌then◌else◌}

abbrev pub codes : String → List ℕ
codes String.[] = []
codes (String.◌∷◌ c s) = code c ∷ codes s

abbrev pub lower_code : ℕ → ℕ
lower_code c = if leb b'A' c && leb c b'Z' then c + 32 else c

abbrev pub same_codes : List ℕ → List ℕ → Bool
same_codes [] [] = true
same_codes (a ∷ xs) (b ∷ ys) = (a == b) && same_codes xs ys
same_codes _ _ = false

-- `text.lower() == name`
unfoldable pub lowers_to : String → String → Bool
lowers_to name text = same_codes (map lower_code (codes text)) (codes name)

pub same_codes-eq : (a b : List ℕ) → same_codes a b ≡ true → a ≡ b
same_codes-eq [] [] h = refl
same_codes-eq [] (y ∷ b) h = cc
same_codes-eq (x ∷ a) [] h = cc
same_codes-eq (x ∷ a) (y ∷ b) h = ground (arith, same_codes-eq a b)

pub same_codes_refl : (a : List ℕ) → same_codes a a ≡ true
same_codes_refl [] = refl
same_codes_refl (x ∷ a) = ground (arith, same_codes_refl a)
