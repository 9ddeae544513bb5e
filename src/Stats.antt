-- ===== src/Stats.antt =====
-- cmd/zanzo/main.go: the latency statistics. The mutex makes observe and handler one atomic step
-- each; an index out of range, where the program panics, is `none`.
pub mod Sort
pub mod Percentile
pub mod Report
use zanzo.Base.{
  ℕ, ◌+◌, ◌-◌, Option, none, some, List, [], ◌∷◌, ◌++◌, Str, str_eq, nat_eq, Map, get, put, length,
  get_elem?,
}
use zanzo.Stats.Sort.{Duration, sort_durations}
use zanzo.Stats.Percentile.{q50, q95, q99, pct}

-- type stats
pub record Stats : Type 0 where
  pub samples : Map Str (List Duration)
  pub statuses : Map Str (Map ℕ ℕ)

-- func newStats()
abbrev pub new_stats : Stats
new_stats = record { samples = []; statuses = [] }

-- s.samples[route]: nil if the route is missing
unfoldable pub taken : Map Str (List Duration) → Str → List Duration
taken m route = elim (get m route) [ none ↦ [] | some xs ↦ xs ]

-- s.statuses[route]: nil, which reads as an empty map, if the route is missing
unfoldable pub counts : Map Str (Map ℕ ℕ) → Str → Map ℕ ℕ
counts m route = elim (get m route) [ none ↦ [] | some c ↦ c ]

-- m[status]: 0 if the status is missing
unfoldable pub count : Map ℕ ℕ → ℕ → ℕ
count m status = elim (get m status) [ none ↦ 0 | some n ↦ n ]

-- if s.statuses[route] == nil { s.statuses[route] = map[int]int{} }
unfoldable pub with_route : Map Str (Map ℕ ℕ) → Str → Map Str (Map ℕ ℕ)
with_route m route = elim (get m route) [ none ↦ put m route [] | some c ↦ m ]

-- s.statuses[route][status]++
unfoldable pub bump : Map Str (Map ℕ ℕ) → Str → ℕ → Map Str (Map ℕ ℕ)
bump m route status = let c = counts m route in put m route (put c status (count c status + 1))

-- func (s *stats) observe
unfoldable pub observe : Stats → Str → ℕ → Duration → Stats
observe s route status d = record {
  samples = put s.samples route (taken s.samples route ++ (d ∷ []));
  statuses = bump (with_route s.statuses route) route status;
}

-- What one line of the report prints.
pub record Line : Type 0 where
  pub route : Str
  pub samples : ℕ
  pub p50 : Duration
  pub p95 : Duration
  pub p99 : Duration
  pub highest : Duration
  pub statuses : Map ℕ ℕ

infixl 5 ◌>>=◌
abbrev pub ◌>>=◌ : {A B : Type 0} → Option A → (A → Option B) → Option B
none >>= next = none
some a >>= next = next a

-- the body of the handler's loop
unfoldable pub line_of : Map Str (Map ℕ ℕ) → Str → List Duration → Option Line
line_of statuses route xs = do
  sorted ← sort_durations xs
  p50 ← pct sorted q50
  p95 ← pct sorted q95
  p99 ← pct sorted q99
  highest ← get_elem? sorted (length sorted - 1)
  some (record {
    route = route;
    samples = length sorted;
    p50 = p50;
    p95 = p95;
    p99 = p99;
    highest = highest;
    statuses = counts statuses route;
  })

-- for route, xs := range s.samples
unfoldable pub lines_of : Map Str (Map ℕ ℕ) → Map Str (List Duration) → Option (List Line)
lines_of statuses [] = some []
lines_of statuses ((route, xs) ∷ rest) = do
  line ← line_of statuses route xs
  lines ← lines_of statuses rest
  some (line ∷ lines)

-- func (s *stats) handler: the lines that it prints
unfoldable pub handler : Stats → Option (List Line)
handler s = lines_of s.statuses s.samples
