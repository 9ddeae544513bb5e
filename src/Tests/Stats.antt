-- ===== src/Tests/Stats.antt =====
-- The statistics on a few requests.
use mathlib.Core.List.{Perm}
use zanzo.Base.{
  ℕ, ◌≤◌, ◌≡◌, refl, false, Option, some, List, [], ◌∷◌, All, Str, codes, get, put, eq_str, str_eq,
  nat_eq, arith,
}
use zanzo.Stats.{
  Line, new_stats, observe, handler, lines_of, line_of, taken, counts, count, with_route, bump,
}
use zanzo.Stats.Sort.{Duration, sort_durations, sort_from, sink, swap}
use zanzo.Stats.Sort.Ordered.{IsAscending, sort_durations-Sorts}
use zanzo.Stats.Percentile.{pct, position, round_product, round_from, round_at, nearest, q95, q99}
use zanzo.Stats.Percentile.Bounds.{position-le}
use zanzo.Stats.Report.{Describes, has_line, handler-Describes}
use zanzo.Stats.Report.Tallies.{Call, observe_all, durations}

abbrev call : Str → ℕ → Duration → Call
call route status elapsed = record { route = route; status = status; elapsed = elapsed }

abbrev check_route : Str
check_route = codes "/v1/check"

abbrev write_route : Str
write_route = codes "/v1/write"

abbrev calls : List Call
calls =
    call check_route 200 30
    ∷ call write_route 200 90
    ∷ call check_route 422 10
    ∷ call check_route 200 20
    ∷ []

abbrev line : Str → ℕ → List Duration → List (ℕ × ℕ) → Option (List Line)
line route n (a ∷ b ∷ c ∷ d ∷ rest) statuses = some (
    record {
      route = route;
      samples = n;
      p50 = a;
      p95 = b;
      p99 = c;
      highest = d;
      statuses = statuses;
    }
    ∷ [])
line route n _ statuses = some []

report_of_three :
    handler (
      observe_all
        (call check_route 200 30 ∷ call check_route 422 10 ∷ call check_route 200 20 ∷ [])
        new_stats)
    ≡ line check_route 3 (20 ∷ 20 ∷ 20 ∷ 30 ∷ []) ((200, 2) ∷ (422, 1) ∷ [])
unfolding handler lines_of line_of taken counts count with_route bump observe sort_durations
    sort_from sink swap pct position round_product round_from round_at nearest get put eq_str
report_of_three = refl

-- int(0.95 * 20) is 19, though 0.95 as a float64 is below 0.95
rounds_up : position q95 20 ≡ 19
unfolding position round_product round_from round_at nearest
rounds_up = refl

sort_durations-Sorts_example :
    (ys : List Duration) × (sort_durations (30 ∷ 10 ∷ 20 ∷ []) ≡ some ys)
    × IsAscending ys
    × Perm ys (30 ∷ 10 ∷ 20 ∷ [])
sort_durations-Sorts_example = sort_durations-Sorts (30 ∷ 10 ∷ 20 ∷ [])

position-le_example : position q99 1000 ≤ 1000
position-le_example = position-le q99 1000 (omega arith)

handler-Describes_example :
    (lines : List Line) × (handler (observe_all calls new_stats) ≡ some lines)
    × All (Describes calls) lines
    × ((route : Str) → has_line route lines ≡ false → durations route calls ≡ [])
handler-Describes_example = handler-Describes calls (omega arith)
