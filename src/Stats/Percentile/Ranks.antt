-- ===== src/Stats/Percentile/Ranks.antt =====
-- Which element of an ascending slice pct takes: the one at its percentage of the last index.
use zanzo.Base.{◌/◌, ℕ, zero, suc, ◌+◌, ◌*◌, ◌^◌, ◌≤◌, ◌<◌, refl, ltb, arith, Bool-cases, inl, inr}
use zanzo.Stats.Percentile.{nearest, round_at, round_from, round_product, position, q50, q95, q99}
use zanzo.Stats.Percentile.Bounds.{parts, IsFine, round_at-one, round_product-close}

-- The index is at most the percentage of the last index k, and less than it by at most one.
abbrev pub IsRank : ℕ → ℕ → ℕ → Type 0
IsRank percent k i = (100 * i ≤ percent * k) × (percent * k ≤ 100 * i + 100)

round_at-far : (unit m : ℕ) → 0 < unit → 2 * m ≤ 2 * round_at unit m + unit
unfolding round_at nearest
round_at-far unit m pos = let (e, l) = parts unit m pos in grind arith

round_at-keeps : (unit m : ℕ) → 0 < unit → IsFine unit m → 2 ^ 53 * m ≤ 2 ^ 53 * round_at unit m + m
round_at-keeps unit m pos (inl e) = rw e (omega (arith, round_at-one m))
round_at-keeps unit m pos (inr le) = omega (arith, round_at-far unit m pos)

round_from-keeps :
    (n unit m : ℕ) → 0 < unit → IsFine unit m → 2 ^ 53 * m ≤ 2 ^ 53 * round_from n unit m + m
unfolding round_from
round_from-keeps zero unit m pos fine = round_at-keeps unit m pos fine
round_from-keeps (suc n) unit m pos fine = elim (Bool-cases (ltb m (2 ^ 53 * unit))) [
  | inl e ↦ rw e (round_at-keeps unit m pos fine)
  | inr e ↦ rw e (round_from-keeps n (2 * unit) m (omega arith) (inr (ground arith)))
]

-- A product loses at most one part in 2 ^ 53.
round_product-keeps : (m : ℕ) → 2 ^ 53 * m ≤ 2 ^ 53 * round_product m + m
unfolding round_product
round_product-keeps m = round_from-keeps 53 1 m (omega arith) (inl refl)

-- The index of a product m that is, but for the rounding of q, n hundredths.
rank-of :
    (m n k : ℕ)
    → 100 * m ≤ 2 ^ 53 * n
    → 2 ^ 53 * n ≤ 100 * m + 40 * k
    → n ≤ 99 * k
    → k < 2 ^ 40
    → (100 * (round_product m / 2 ^ 53) ≤ n) × (n ≤ 100 * (round_product m / 2 ^ 53) + 100)
rank-of m n k above below whole small =
    let (e, l) = parts (2 ^ 53) (round_product m) (omega arith) in
    let up = round_product-close m in let down = round_product-keeps m in (omega arith, omega arith)

pub q50-IsRank : (k : ℕ) → k < 2 ^ 40 → IsRank 50 k (position q50 k)
unfolding position
q50-IsRank k small = rank-of (q50 * k) (50 * k) k (omega arith) (omega arith) (omega arith) small

pub q95-IsRank : (k : ℕ) → k < 2 ^ 40 → IsRank 95 k (position q95 k)
unfolding position
q95-IsRank k small = rank-of (q95 * k) (95 * k) k (omega arith) (omega arith) (omega arith) small

pub q99-IsRank : (k : ℕ) → k < 2 ^ 40 → IsRank 99 k (position q99 k)
unfolding position
q99-IsRank k small = rank-of (q99 * k) (99 * k) k (omega arith) (omega arith) (omega arith) small
