-- ===== src/Stats/Report/Tallies.antt =====
-- What a sequence of calls of observe leaves in the statistics.
use zanzo.Base.{
  ℕ, ◌+◌, ◌≡◌, refl, sym, ◌∙◌, ap, ◌&&◌, none, List, [], ◌∷◌, ◌++◌, append_assoc, append-nil, arith,
  Str, str_eq, nat_eq, eq_str, eq_str_iff, eqb, eqb_iff, if◌then◌else◌, Map, get, put, get-put,
  IsKeyed, put-IsKeyed, All, ◌<◌, length-append, length, Option-cases, inl, inr,
}
use zanzo.Stats.{Stats, new_stats, taken, counts, count, with_route, bump, observe}
use zanzo.Stats.Sort.{Duration}

-- One call of observe.
pub record Call : Type 0 where
  pub route : Str
  pub status : ℕ
  pub elapsed : Duration

abbrev pub observe_all : List Call → Stats → Stats
observe_all [] s = s
observe_all (c ∷ cs) s = observe_all cs (observe s c.route c.status c.elapsed)

-- the durations of the calls on a route, in their order
unfoldable pub durations : Str → List Call → List Duration
durations route [] = []
durations route (c ∷ cs) =
    let rest = durations route cs in if eq_str c.route route then c.elapsed ∷ rest else rest

-- how many calls on a route ended with a status
unfoldable pub tally : Str → ℕ → List Call → ℕ
tally route status [] = 0
tally route status (c ∷ cs) =
    let rest = tally route status cs in
    if eq_str c.route route && eqb c.status status then rest + 1 else rest

taken-put :
    (m : Map Str (List Duration)) (k j : Str) (v : List Duration)
    → taken (put m k v) j ≡ (if eq_str k j then v else taken m j)
unfolding taken
taken-put m k j v = ground (arith, get-put m k j v, eq_str k j)

counts-put :
    (m : Map Str (Map ℕ ℕ)) (k j : Str) (v : Map ℕ ℕ)
    → counts (put m k v) j ≡ (if eq_str k j then v else counts m j)
unfolding counts
counts-put m k j v = ground (arith, get-put m k j v, eq_str k j)

count-put : (m : Map ℕ ℕ) (k j v : ℕ) → count (put m k v) j ≡ (if eqb k j then v else count m j)
unfolding count
count-put m k j v = ground (arith, get-put m k j v, eqb k j)

taken-observe :
    (s : Stats) (c : Call) (route : Str)
    → taken (observe s c.route c.status c.elapsed).samples route
      ≡ taken s.samples route ++ durations route (c ∷ [])
unfolding observe durations
taken-observe s c route = ground (
  arith,
  taken-put s.samples c.route route (taken s.samples c.route ++ (c.elapsed ∷ [])),
  eq_str_iff c.route route,
  append-nil (taken s.samples route),
)

counts-missing : (m : Map Str (Map ℕ ℕ)) (k : Str) → get m k ≡ none → counts m k ≡ []
unfolding counts
counts-missing m k h = rw (counts, h) refl

counts-with_route :
    (s : Stats) (at route : Str) → counts (with_route s.statuses at) route ≡ counts s.statuses route
unfolding with_route
counts-with_route s at route = elim (Option-cases (get s.statuses at)) [
  | inl e ↦
      rw (with_route, e)
        (ground (
          arith,
          counts-put s.statuses at route [],
          counts-missing s.statuses at e,
          eq_str_iff at route,
        ))
  | inr (c, e) ↦ rw (with_route, e) refl
]

count-observe :
    (s : Stats) (c : Call) (route : Str) (status : ℕ)
    → count (counts (observe s c.route c.status c.elapsed).statuses route) status
      ≡ count (counts s.statuses route) status + tally route status (c ∷ [])
unfolding observe bump tally
count-observe s c route status =
    let m = with_route s.statuses c.route in
    let old = counts m c.route in
    ground (
      arith,
      counts-put m c.route route (put old c.status (count old c.status + 1)),
      count-put old c.status status (count old c.status + 1),
      counts-with_route s c.route route,
      counts-with_route s c.route c.route,
      eq_str_iff c.route route,
      eqb_iff c.status status,
    )

durations-cons :
    (route : Str) (c : Call) (cs : List Call)
    → durations route (c ∷ []) ++ durations route cs ≡ durations route (c ∷ cs)
unfolding durations
durations-cons route c cs = ground arith

taken-observe_all :
    (cs : List Call) (s : Stats) (route : Str)
    → taken (observe_all cs s).samples route ≡ taken s.samples route ++ durations route cs
unfolding durations
taken-observe_all [] s route = sym (append-nil (taken s.samples route))
taken-observe_all (c ∷ cs) s route =
    let s' = observe s c.route c.status c.elapsed in
    taken-observe_all cs s' route
    ∙ ap (λ xs. xs ++ durations route cs) (taken-observe s c route)
    ∙ append_assoc (taken s.samples route) (durations route (c ∷ [])) (durations route cs)
    ∙ ap (λ xs. taken s.samples route ++ xs) (durations-cons route c cs)

tally-cons :
    (route : Str) (status : ℕ) (c : Call) (cs : List Call)
    → tally route status (c ∷ []) + tally route status cs ≡ tally route status (c ∷ cs)
unfolding tally
tally-cons route status c cs = ground arith

count-observe_all :
    (cs : List Call) (s : Stats) (route : Str) (status : ℕ)
    → count (counts (observe_all cs s).statuses route) status
      ≡ count (counts s.statuses route) status + tally route status cs
unfolding tally
count-observe_all [] s route status = omega arith
count-observe_all (c ∷ cs) s route status = omega (
  arith,
  count-observe_all cs (observe s c.route c.status c.elapsed) route status,
  count-observe s c route status,
  tally-cons route status c cs,
)

none_taken : (route : Str) → taken [] route ≡ []
unfolding taken get
none_taken route = refl

none_counted : (route : Str) (status : ℕ) → count (counts [] route) status ≡ 0
unfolding count counts get
none_counted route status = refl

-- After any calls, the samples of a route are the durations of its calls in their order, and each
-- status of the route is counted once for each call that ended with it.
pub observe_all-Tallies :
    (cs : List Call) (route : Str)
    → let s = observe_all cs new_stats in
      (taken s.samples route ≡ durations route cs)
      × ((status : ℕ) → count (counts s.statuses route) status ≡ tally route status cs)
observe_all-Tallies cs route = (
  taken-observe_all cs new_stats route ∙ ap (λ xs. xs ++ durations route cs) (none_taken route),
  λ status. omega (arith, count-observe_all cs new_stats route status, none_counted route status),
)

observe-IsKeyed :
    (s : Stats) (c : Call)
    → IsKeyed s.samples
    → IsKeyed (observe s c.route c.status c.elapsed).samples
unfolding observe
observe-IsKeyed s c h =
    put-IsKeyed s.samples c.route (taken s.samples c.route ++ (c.elapsed ∷ [])) h

-- the map of samples has each route once
pub observe_all-IsKeyed :
    (cs : List Call) (s : Stats) → IsKeyed s.samples → IsKeyed (observe_all cs s).samples
observe_all-IsKeyed [] s h = h
observe_all-IsKeyed (c ∷ cs) s h =
    observe_all-IsKeyed cs (observe s c.route c.status c.elapsed) (observe-IsKeyed s c h)

append-nonempty : (xs : List Duration) (d : Duration) → 0 < length (xs ++ (d ∷ []))
append-nonempty xs d = omega (arith, length-append xs (d ∷ []))

put-All :
    (m : Map Str (List Duration)) (k : Str) (v : List Duration)
    → 0 < length v
    → All (λ x. 0 < length x.1) m
    → All (λ x. 0 < length x.1) (put m k v)
unfolding put
put-All [] k v pos h = (pos, tt)
put-All ((j, w) ∷ m) k v pos h = ground (arith, put-All m k v pos h.1)

observe-nonempty :
    (s : Stats) (c : Call)
    → All (λ x. 0 < length x.1) s.samples
    → All (λ x. 0 < length x.1) (observe s c.route c.status c.elapsed).samples
unfolding observe
observe-nonempty s c h =
    put-All s.samples c.route (taken s.samples c.route ++ (c.elapsed ∷ []))
      (append-nonempty (taken s.samples c.route) c.elapsed) h

-- no route has an empty slice of samples
pub observe_all-nonempty :
    (cs : List Call) (s : Stats)
    → All (λ x. 0 < length x.1) s.samples
    → All (λ x. 0 < length x.1) (observe_all cs s).samples
observe_all-nonempty [] s h = h
observe_all-nonempty (c ∷ cs) s h =
    observe_all-nonempty cs (observe s c.route c.status c.elapsed) (observe-nonempty s c h)
