-- ===== src/Stats/Report.antt =====
-- What the report of the statistics says of the requests that were observed.
pub mod Tallies
use mathlib.Core.List.{Perm}
use mathlib.Core.List.Perm
use zanzo.Base.{
  ℕ, zero, suc, ◌+◌, ◌-◌, ◌^◌, ◌≤◌, ◌<◌, ◌≡◌, ◌≢◌, refl, sym, ◌∙◌, ap, subst, Bool, true, false,
  ◌||◌, Option, none, some, List, [], ◌∷◌, ◌++◌, arith, Str, str_eq, nat_eq, eq_str, Map, get, put,
  IsKeyed, IsKeyed-entries, length, get_elem?, any, All, Option-cases, inl, inr,
}
use zanzo.Stats.{
  Stats, new_stats, taken, counts, count, observe, Line, line_of, lines_of, handler, ◌>>=◌,
}
use zanzo.Stats.Sort.{Duration, sort_durations}
use zanzo.Stats.Sort.Ordered.{IsAscending, sort_durations-Sorts}
use zanzo.Stats.Sort.Rearranged.{IsCapped, perm-length, perm-IsCapped}
use zanzo.Stats.Percentile.{q50, q95, q99, pct}
use zanzo.Stats.Percentile.Values.{IsAt, Values, Values-of}
use zanzo.Stats.Report.Tallies.{
  Call, observe_all, durations, tally, observe_all-Tallies, observe_all-IsKeyed,
  observe_all-nonempty,
}

-- A line gives the number of the calls on its route; of the ascending rearrangement of their
-- durations, the elements at 50, 95 and 99 percent of the last index and the last one; and the number
-- of calls with each status.
pub record Describes (cs : List Call) (line : Line) : Type 0 where
  pub all_counted : line.samples ≡ length (durations line.route cs)
  pub not_empty : 0 < line.samples
  pub sorted : List Duration
  pub ascending : IsAscending sorted
  pub rearranged : Perm sorted (durations line.route cs)
  pub at_p50 : IsAt 50 sorted line.p50
  pub at_p95 : IsAt 95 sorted line.p95
  pub at_p99 : IsAt 99 sorted line.p99
  pub at_highest : get_elem? sorted (length sorted - 1) ≡ some line.highest
  pub in_order : (line.p50 ≤ line.p95) × (line.p95 ≤ line.p99) × (line.p99 ≤ line.highest)
  pub greatest : IsCapped line.highest (durations line.route cs)
  pub each_status : (status : ℕ) → count line.statuses status ≡ tally line.route status cs

-- the line of one route
line_of-Describes :
    (cs : List Call) (statuses : Map Str (Map ℕ ℕ)) (route : Str) (xs : List Duration)
    → xs ≡ durations route cs
    → 0 < length xs
    → length xs ≤ 2 ^ 40
    → ((status : ℕ) → count (counts statuses route) status ≡ tally route status cs)
    → (line : Line) × (line_of statuses route xs ≡ some line)
      × (line.route ≡ route)
      × Describes cs line
unfolding line_of
line_of-Describes cs statuses route xs same pos few each =
    let (sorted, e, ascending, perm) = sort_durations-Sorts xs in
    let size = perm-length sorted xs perm in
    let v = Values-of sorted ascending (omega arith) (omega (arith, size, few)) in
    (
      record {
        route = route;
        samples = length sorted;
        p50 = v.p50;
        p95 = v.p95;
        p99 = v.p99;
        highest = v.highest;
        statuses = counts statuses route;
      },
      rw (e, v.at_p50, v.at_p95, v.at_p99, v.at_last) refl,
      refl,
      record {
        all_counted = size ∙ ap length same;
        not_empty = omega arith;
        sorted = sorted;
        ascending = ascending;
        rearranged = subst (Perm sorted) same perm;
        at_p50 = v.rank_50;
        at_p95 = v.rank_95;
        at_p99 = v.rank_99;
        at_highest = v.at_last;
        in_order = v.in_order;
        greatest =
            subst (IsCapped v.highest) same (perm-IsCapped v.highest sorted xs perm v.greatest);
        each_status = each;
      },
    )

-- the test for a line of a route, and for an entry
abbrev pub has_line : Str → List Line → Bool
has_line route = any (λ l. eq_str l.route route)

abbrev has_entry : Str → Map Str (List Duration) → Bool
has_entry route = any (λ e. eq_str e.0 route)

-- What an entry of the samples holds.
abbrev Holds : List Call → Str × List Duration → Type 0
Holds cs (route, xs) = (xs ≡ durations route cs) × (0 < length xs) × (length xs ≤ 2 ^ 40)

lines_of-Describes :
    (cs : List Call) (statuses : Map Str (Map ℕ ℕ)) (m : Map Str (List Duration))
    → ((route : Str) (status : ℕ) → count (counts statuses route) status ≡ tally route status cs)
    → All (Holds cs) m
    → (lines : List Line) × (lines_of statuses m ≡ some lines)
      × All (Describes cs) lines
      × ((route : Str) → has_line route lines ≡ has_entry route m)
unfolding lines_of any
lines_of-Describes cs statuses [] each h = ([], refl, tt, λ route. refl)
lines_of-Describes cs statuses ((route, xs) ∷ m) each h =
    let (line, e, named, described) =
      line_of-Describes cs statuses route xs h.0.0 h.0.1 h.0.2 (each route) in
    let (lines, es, rest, have) = lines_of-Describes cs statuses m each h.1 in
    (line ∷ lines, rw (e, es) refl, (described, rest), λ r. rw (named, have r) refl)

durations-length : (route : Str) (cs : List Call) → length (durations route cs) ≤ length cs
unfolding durations
durations-length route [] = omega arith
durations-length route (c ∷ cs) = ground (arith, durations-length route cs)

taken-some :
    (m : Map Str (List Duration)) (k : Str) (v : List Duration) → get m k ≡ some v → taken m k ≡ v
unfolding taken
taken-some m k v h = rw (taken, h) refl

entries-Holds :
    (cs : List Call) (m rest : Map Str (List Duration))
    → length cs < 2 ^ 40
    → ((route : Str) → taken m route ≡ durations route cs)
    → All (λ x. get m x.0 ≡ some x.1) rest
    → All (λ x. 0 < length x.1) rest
    → All (Holds cs) rest
entries-Holds cs m [] few same found full = tt
entries-Holds cs m ((route, xs) ∷ rest) few same found full =
    let e : xs ≡ durations route cs = sym (taken-some m route xs found.0) ∙ same route in
    let le = durations-length route cs in
    (
      (e, full.0, omega (arith, le, few, ap length e)),
      entries-Holds cs m rest few same found.1 full.1,
    )

missing-entry : (m : Map Str (List Duration)) (k : Str) → has_entry k m ≡ false → taken m k ≡ []
unfolding taken get any
missing-entry [] k h = refl
missing-entry ((j, w) ∷ m) k h = ground (arith, missing-entry m k)

-- After fewer than 2 ^ 40 calls of observe on fresh statistics, the handler panics on no index. Each
-- line that it prints gives the number of the calls on its route; of their durations in ascending
-- order, the ones at p50, p95 and p99, each with an index that is at most the percentage of the last
-- index and less than it by one at most, and the highest; and for each status the number of calls on
-- the route that ended with it; and a route with no line had no call.
pub handler-Describes :
    (cs : List Call)
    → length cs < 2 ^ 40
    → (lines : List Line) × (handler (observe_all cs new_stats) ≡ some lines)
      × All (Describes cs) lines
      × ((route : Str) → has_line route lines ≡ false → durations route cs ≡ [])
unfolding handler
handler-Describes cs few =
    let s = observe_all cs new_stats in
    let tallies = observe_all-Tallies cs in
    let found = IsKeyed-entries s.samples (observe_all-IsKeyed cs new_stats tt) in
    let full = observe_all-nonempty cs new_stats tt in
    let held = entries-Holds cs s.samples s.samples few (λ route. (tallies route).0) found full in
    let (lines, e, described, have) =
      lines_of-Describes cs s.statuses s.samples (λ route. (tallies route).1) held in
    (
      lines,
      e,
      described,
      λ route none_of.
          sym (tallies route).0 ∙ missing-entry s.samples route (sym (have route) ∙ none_of),
    )
