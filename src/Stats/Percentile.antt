-- ===== src/Stats/Percentile.antt =====
-- cmd/zanzo/main.go: pct. The index is int(q * float64(n - 1)), in the arithmetic of float64: a
-- constant q below 1 is a 53-bit mantissa over 2 ^ 53, the integer n - 1 is exact below 2 ^ 53, and
-- the product is rounded to 53 bits, to the nearest, ties to even. An index out of range is `none`.
pub mod Bounds
pub mod Ranks
pub mod Values
use zanzo.Base.{
  ℕ, zero, suc, ◌+◌, ◌-◌, ◌*◌, ◌/◌, ◌%◌, ◌^◌, ◌&&◌, ◌||◌, Option, some, List, [], ◌∷◌, eqb, ltb,
  if◌then◌else◌, length, get_elem?,
}
use zanzo.Stats.Sort.{Duration}

-- the number of units nearest to q units and a rest r
unfoldable pub nearest : ℕ → ℕ → ℕ → ℕ
nearest unit q r = if ltb unit (2 * r) || (eqb (2 * r) unit && eqb (q % 2) 1) then q + 1 else q

-- the multiple of the unit that is nearest to m
unfoldable pub round_at : ℕ → ℕ → ℕ
round_at unit m = nearest unit (m / unit) (m % unit) * unit

-- the unit is doubled until 53 bits hold the number of units
unfoldable pub round_from : ℕ → ℕ → ℕ → ℕ
round_from zero unit m = round_at unit m
round_from (suc doublings) unit m =
    let wider = round_from doublings (2 * unit) m in
    if ltb m (2 ^ 53 * unit) then round_at unit m else wider

-- The product of two mantissas has at most 106 bits, so 53 doublings are enough.
unfoldable pub round_product : ℕ → ℕ
round_product m = round_from 53 1 m

unfoldable pub position : ℕ → ℕ → ℕ
position mantissa k = round_product (mantissa * k) / 2 ^ 53

-- The float64 nearest to 0.50, to 0.95 and to 0.99.
abbrev pub q50 : ℕ
q50 = 4503599627370496

abbrev pub q95 : ℕ
q95 = 8556839292003942

abbrev pub q99 : ℕ
q99 = 8917127262193582

-- func pct(sorted []time.Duration, q float64)
unfoldable pub pct : List Duration → ℕ → Option Duration
pct [] mantissa = some 0
pct (x ∷ xs) mantissa = get_elem? (x ∷ xs) (position mantissa (length (x ∷ xs) - 1))
