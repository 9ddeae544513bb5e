-- ===== src/Stats/Sort.antt =====
-- cmd/zanzo/main.go: sortDurations, in place on a slice. An index out of range is `none`, where the
-- program panics.
pub mod Ordered
pub mod Rearranged
use zanzo.Base.{
  ℕ, zero, suc, ◌-◌, ◌+◌, Option, none, some, List, ltb, if◌then◌else◌, length, get_elem?, set,
}

-- A time.Duration. The caller passes time.Since of a start, which the monotonic clock keeps at 0 or
-- more.
abbrev pub Duration : Type 0
Duration = ℕ

-- xs[j], xs[j-1] = xs[j-1], xs[j], at j = k + 1, where xs[j] is a and xs[j-1] is b
unfoldable pub swap : List Duration → ℕ → Duration → Duration → List Duration
swap xs k a b = set (set xs (suc k) b) k a

-- for j := i; j > 0 && xs[j] < xs[j-1]; j--
unfoldable pub sink : ℕ → List Duration → Option (List Duration)
sink zero xs = some xs
sink (suc k) xs = elim (get_elem? xs (suc k)) [
  | none ↦ none
  | some a ↦ elim (get_elem? xs k) [
    | none ↦ none
    | some b ↦ let rest = sink k (swap xs k a b) in if ltb a b then rest else some xs
  ]
]

-- for ; i < len(xs); i++, with the number of rounds that are left
unfoldable pub sort_from : ℕ → ℕ → List Duration → Option (List Duration)
sort_from zero i xs = some xs
sort_from (suc rounds) i xs = elim (sink i xs) [
  | none ↦ none
  | some ys ↦ sort_from rounds (i + 1) ys
]

-- func sortDurations(xs []time.Duration)
unfoldable pub sort_durations : List Duration → Option (List Duration)
sort_durations xs = sort_from (length xs - 1) 1 xs
