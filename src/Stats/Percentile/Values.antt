-- ===== src/Stats/Percentile/Values.antt =====
-- What pct and the last element are, on an ascending slice that is not empty.
use zanzo.Base.{
  ℕ, zero, suc, ◌-◌, ◌^◌, ◌≤◌, ◌<◌, ◌≡◌, refl, subst, Option, some, List, [], ◌∷◌, arith, length,
  get_elem?, All,
}
use zanzo.Stats.Sort.{Duration}
use zanzo.Stats.Sort.Ordered.{IsAscending}
use zanzo.Stats.Percentile.{position, pct, q50, q95, q99}
use zanzo.Stats.Percentile.Ranks.{IsRank, q50-IsRank, q95-IsRank, q99-IsRank}
use zanzo.Stats.Percentile.Bounds.{position-le, position_mono}

get_in : (xs : List Duration) (i : ℕ) → i < length xs → (d : Duration) × (get_elem? xs i ≡ some d)
get_in [] i less = absurd (omega arith)
get_in (x ∷ xs) zero less = (x, refl)
get_in (x ∷ xs) (suc i) less = get_in xs i (omega arith)

some_inj : (a b : ℕ) → ◌≡◌ {A = Option ℕ} (some a) (some b) → a ≡ b
some_inj a b h = ground arith

All-get : (P : ℕ → Type 0) (xs : List ℕ) (i d : ℕ) → All P xs → get_elem? xs i ≡ some d → P d
All-get P [] i d h e = absurd (cc)
All-get P (x ∷ xs) zero d h e = subst P (some_inj x d e) h.0
All-get P (x ∷ xs) (suc i) d h e = All-get P xs i d h.1 e

get_mono :
    (xs : List Duration) (i j a b : ℕ)
    → IsAscending xs
    → i ≤ j
    → get_elem? xs i ≡ some a
    → get_elem? xs j ≡ some b
    → a ≤ b
get_mono [] i j a b h le ea eb = absurd (cc)
get_mono (x ∷ xs) zero zero a b h le ea eb = omega (arith, some_inj x a ea, some_inj x b eb)
get_mono (x ∷ xs) zero (suc j) a b h le ea eb =
    omega (arith, some_inj x a ea, All-get (λ y. x ≤ y) xs j b h.0 eb)
get_mono (x ∷ xs) (suc i) zero a b h le ea eb = absurd (omega arith)
get_mono (x ∷ xs) (suc i) (suc j) a b h le ea eb = get_mono xs i j a b h.1 (omega arith) ea eb

-- the last element is the greatest
last-All :
    (x : Duration) (xs : List Duration) (top : Duration)
    → IsAscending (x ∷ xs)
    → get_elem? (x ∷ xs) (length xs) ≡ some top
    → All (λ d. d ≤ top) (x ∷ xs)
last-All x [] top h e = (omega (arith, some_inj x top e), tt)
last-All x (y ∷ xs) top h e =
    (All-get (λ z. x ≤ z) (y ∷ xs) (length xs) top h.0 e, last-All y xs top h.1 e)

-- The duration stands at the percentage of the last index.
abbrev pub IsAt : ℕ → List Duration → Duration → Type 0
IsAt percent xs d = (i : ℕ) × IsRank percent (length xs - 1) i × (get_elem? xs i ≡ some d)

-- Four elements, in order, and the last is the greatest.
pub record Values (xs : List Duration) : Type 0 where
  pub p50 : Duration
  pub p95 : Duration
  pub p99 : Duration
  pub highest : Duration
  pub at_p50 : pct xs q50 ≡ some p50
  pub at_p95 : pct xs q95 ≡ some p95
  pub at_p99 : pct xs q99 ≡ some p99
  pub at_last : get_elem? xs (length xs - 1) ≡ some highest
  pub rank_50 : IsAt 50 xs p50
  pub rank_95 : IsAt 95 xs p95
  pub rank_99 : IsAt 99 xs p99
  pub in_order : (p50 ≤ p95) × (p95 ≤ p99) × (p99 ≤ highest)
  pub greatest : All (λ d. d ≤ highest) xs

pub Values-of :
    (xs : List Duration) → IsAscending xs → 0 < length xs → length xs ≤ 2 ^ 40 → Values xs
unfolding pct
Values-of [] h pos few = absurd (omega arith)
Values-of (x ∷ xs) h pos few =
    let k = length (x ∷ xs) - 1 in
    let same : k ≡ length xs = omega arith in
    let i95 : position q95 k ≤ k = position-le q95 k (omega arith) in
    let i99 : position q99 k ≤ k = position-le q99 k (omega arith) in
    let first : position q50 k ≤ position q95 k = position_mono q50 q95 k (omega arith) in
    let second : position q95 k ≤ position q99 k = position_mono q95 q99 k (omega arith) in
    let (a, ea) = get_in (x ∷ xs) (position q50 k) (omega arith) in
    let (b, eb) = get_in (x ∷ xs) (position q95 k) (omega arith) in
    let (c, ec) = get_in (x ∷ xs) (position q99 k) (omega arith) in
    let (d, ed) = get_in (x ∷ xs) k (omega arith) in
    record {
      p50 = a;
      p95 = b;
      p99 = c;
      highest = d;
      at_p50 = ea;
      at_p95 = eb;
      at_p99 = ec;
      at_last = ed;
      rank_50 = (position q50 k, q50-IsRank k (omega arith), ea);
      rank_95 = (position q95 k, q95-IsRank k (omega arith), eb);
      rank_99 = (position q99 k, q99-IsRank k (omega arith), ec);
      in_order = (
        get_mono (x ∷ xs) (position q50 k) (position q95 k) a b h first ea eb,
        get_mono (x ∷ xs) (position q95 k) (position q99 k) b c h second eb ec,
        get_mono (x ∷ xs) (position q99 k) k c d h i99 ec ed,
      );
      greatest = last-All x xs d h (subst (λ i. get_elem? (x ∷ xs) i ≡ some d) same ed);
    }
