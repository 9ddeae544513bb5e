-- ===== src/Base/Text.antt =====
-- A Go string is the list of its bytes. `codes` gives the bytes of an ASCII literal.
use Prim.Native.Nat.{ℕ}
use Prim.Native.Char.{code}
use Prim.Native.String.{String}
use mathlib.Core.Path.{◌≡◌, refl}
use mathlib.Core.Logic.{◌↔◌}
use mathlib.Core.Bool.{Bool, true, false, ◌&&◌}
use mathlib.Core.List.{List, [], ◌∷◌}
use native.Mathlib.Omega.{arith}
use zanzo.Base.Tests.{eqb, Comparable}

abbrev pub Str : Type 0
Str = List ℕ

abbrev pub codes : String → Str
codes String.[] = []
codes (String.◌∷◌ c s) = code c ∷ codes s

unfoldable pub eq_str : Str → Str → Bool
eq_str [] [] = true
eq_str (a ∷ s) (b ∷ t) = eqb a b && eq_str s t
eq_str _ _ = false

pub eq_str_iff : (s t : Str) → (eq_str s t ≡ true) ↔ (s ≡ t)
unfolding eq_str
eq_str_iff [] [] = (λ _. refl, λ _. refl)
eq_str_iff [] (b ∷ t) = ground arith
eq_str_iff (a ∷ s) [] = ground arith
eq_str_iff (a ∷ s) (b ∷ t) = ground (arith, eq_str_iff s t)

instance abbrev pub str_eq : Comparable Str
str_eq = record { equals = eq_str; equals_iff = eq_str_iff }
