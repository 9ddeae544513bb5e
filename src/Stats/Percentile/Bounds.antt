-- ===== src/Stats/Percentile/Bounds.antt =====
-- Where the index of pct falls.
use native.Mathlib.Decide.{dec_lt}
use native.Mathlib.Nat.{mul-div_cancel, mul-mod_left}
use zanzo.Base.{
  ℕ, zero, suc, ◌+◌, ◌*◌, ◌/◌, ◌%◌, ◌^◌, ◌≤◌, ◌<◌, ◌≡◌, refl, ltb, arith, Bool-cases, inl, inr, ◌⊎◌,
}
use zanzo.Stats.Percentile.{nearest, round_at, round_from, round_product, position}

-- The remainder is less than the unit.
pub parts : (unit m : ℕ) → 0 < unit → (m / unit * unit + m % unit ≡ m) × (m % unit < unit)
parts unit m pos = grind arith

-- rounding moves a number by at most half a unit
round_at-near : (unit m : ℕ) → 0 < unit → 2 * round_at unit m ≤ 2 * m + unit
unfolding round_at nearest
round_at-near unit m pos = let (e, l) = parts unit m pos in grind arith

scale : (a b unit : ℕ) → a ≤ b → a * unit ≤ b * unit
scale a b unit le = grind arith

rest_le : (q q' r r' unit : ℕ) → q ≡ q' → q * unit + r ≤ q' * unit + r' → r ≤ r'
rest_le q q' r r' unit same le = let le' = rw same at le in omega arith

nearest-rest : (unit q q' r r' : ℕ) → q ≡ q' → r ≤ r' → nearest unit q r ≤ nearest unit q' r'
unfolding nearest
nearest-rest unit q q' r r' same le = ground arith

nearest_mono :
    (unit q r q' r' : ℕ)
    → q * unit + r ≤ q' * unit + r'
    → r < unit
    → r' < unit
    → nearest unit q r ≤ nearest unit q' r'
unfolding nearest
nearest_mono unit q r q' r' le l l' = elim (dec_lt q q') [
  | yes more ↦ ground arith
  | no most ↦ elim (dec_lt q' q) [
    | yes less ↦ absurd (omega (arith, scale (q' + 1) q unit (omega arith)))
    | no least ↦ nearest-rest unit q q' r r' (omega arith) (rest_le q q' r r' unit (omega arith) le)
  ]
]

round_at_mono : (unit m n : ℕ) → 0 < unit → m ≤ n → round_at unit m ≤ round_at unit n
unfolding round_at
round_at_mono unit m n pos le =
    let (e, l) = parts unit m pos in
    let (e', l') = parts unit n pos in
    scale (nearest unit (m / unit) (m % unit)) (nearest unit (n / unit) (n % unit)) unit
      (nearest_mono unit (m / unit) (m % unit) (n / unit) (n % unit) (omega arith) l l')

round_at-multiple : (unit q : ℕ) → 0 < unit → round_at unit (q * unit) ≡ q * unit
unfolding round_at nearest
round_at-multiple unit q pos = rw (mul-div_cancel q pos, mul-mod_left q unit) (ground arith)

pub round_at-one : (m : ℕ) → round_at 1 m ≡ m
unfolding round_at nearest
round_at-one m = ground arith

-- Rounding with a unit that is not too small for m gives no more than 53 bits of units.
round_at-le : (unit m : ℕ) → 0 < unit → m ≤ 2 ^ 53 * unit → round_at unit m ≤ 2 ^ 53 * unit
round_at-le unit m pos le =
    rw (round_at-multiple unit (2 ^ 53) pos) at (round_at_mono unit m (2 ^ 53 * unit) pos le)

round_at-ge : (unit m : ℕ) → 0 < unit → 2 ^ 52 * unit ≤ m → 2 ^ 52 * unit ≤ round_at unit m
round_at-ge unit m pos le =
    rw (round_at-multiple unit (2 ^ 52) pos) at (round_at_mono unit (2 ^ 52 * unit) m pos le)

round_from-ge : (n unit m : ℕ) → 0 < unit → 2 ^ 52 * unit ≤ m → 2 ^ 52 * unit ≤ round_from n unit m
unfolding round_from
round_from-ge zero unit m pos le = round_at-ge unit m pos le
round_from-ge (suc n) unit m pos le = elim (Bool-cases (ltb m (2 ^ 53 * unit))) [
  | inl e ↦ rw e (round_at-ge unit m pos le)
  | inr e ↦ rw e (ground (arith, round_from-ge n (2 * unit) m (omega arith) (ground arith)))
]

round_from_mono : (n unit a b : ℕ) → 0 < unit → a ≤ b → round_from n unit a ≤ round_from n unit b
unfolding round_from
round_from_mono zero unit a b pos le = round_at_mono unit a b pos le
round_from_mono (suc n) unit a b pos le = elim (Bool-cases (ltb b (2 ^ 53 * unit))) [
  | inl e ↦ ground (arith, round_at_mono unit a b pos le)
  | inr e ↦ elim (Bool-cases (ltb a (2 ^ 53 * unit))) [
    | inl e' ↦
        rw (e, e')
          (ground (
            arith,
            round_at-le unit a pos (ground arith),
            round_from-ge n (2 * unit) b (omega arith) (ground arith),
          ))
    | inr e' ↦ rw (e, e') (round_from_mono n (2 * unit) a b (omega arith) le)
  ]
]

-- The unit is 1, which rounds nothing, or at most the last of 53 bits.
abbrev pub IsFine : ℕ → ℕ → Type 0
IsFine unit m = (unit ≡ 1) ⊎ (2 ^ 52 * unit ≤ m)

round_at-close : (unit m : ℕ) → 0 < unit → IsFine unit m → 2 ^ 53 * round_at unit m ≤ 2 ^ 53 * m + m
round_at-close unit m pos (inl e) = rw e (omega (arith, round_at-one m))
round_at-close unit m pos (inr le) = omega (arith, round_at-near unit m pos)

round_from-close :
    (n unit m : ℕ) → 0 < unit → IsFine unit m → 2 ^ 53 * round_from n unit m ≤ 2 ^ 53 * m + m
unfolding round_from
round_from-close zero unit m pos fine = round_at-close unit m pos fine
round_from-close (suc n) unit m pos fine = elim (Bool-cases (ltb m (2 ^ 53 * unit))) [
  | inl e ↦ rw e (round_at-close unit m pos fine)
  | inr e ↦ rw e (round_from-close n (2 * unit) m (omega arith) (inr (ground arith)))
]

-- A product is rounded by at most one part in 2 ^ 53.
pub round_product-close : (m : ℕ) → 2 ^ 53 * round_product m ≤ 2 ^ 53 * m + m
unfolding round_product
round_product-close m = round_from-close 53 1 m (omega arith) (inl refl)

below_one : (q k : ℕ) → q < 2 ^ 53 → q * k + k ≤ 2 ^ 53 * k
below_one q k less = grind (arith, scale (q + 1) (2 ^ 53) k (omega arith))

-- For a q below 1, the index that pct computes in float64 is at most the last one, however the
-- product is rounded up.
pub position-le : (q k : ℕ) → q < 2 ^ 53 → position q k ≤ k
unfolding position
position-le q k less = omega (arith, round_product-close (q * k), below_one q k less)

pub position_mono : (q q' k : ℕ) → q ≤ q' → position q k ≤ position q' k
unfolding position round_product
position_mono q q' k le =
    omega (arith, round_from_mono 53 1 (q * k) (q' * k) (omega arith) (scale q q' k le))
