-- ===== src/Check/Request.antt =====
-- internal/check/check.go: the exported Check, which pins a revision and starts the recursion.
use zanzo.Base.{ℕ, ◌+◌, Bool, false, Option, ltb, eqb, if◌then◌else◌, ok, err, [], ◌>>=◌}
use zanzo.Errors.{Outcome}
use zanzo.Storage.Types.{Revision}
use zanzo.Check.Cache.{Cache}
use zanzo.Check.Types.{
  Engine, Request, CheckResult, Evaluation, Context, Consistency, at_least_as_fresh, depth_limit,
}
use zanzo.Check.Engine.{check}

-- switch req.Consistency
unfoldable pub choose_revision : Consistency → Revision → Revision → Revision
choose_revision at_least_as_fresh token head = if ltb head token then token else head
choose_revision _ token head = head

-- The revision that the request is pinned to.
unfoldable pub pin : Engine → Request → Outcome Revision
unfolding choose_revision
pin e req =
    if eqb req.revision 0
    then (do head ← e.store.head; ok (choose_revision req.consistency req.token.revision head))
    else ok req.revision

abbrev pub no_result : CheckResult
no_result = record {
  allowed = false;
  expansions = 0;
  memo_hits = 0;
  cache_hits = 0;
  max_depth = 0;
  revision = 0;
}

abbrev pub new_evaluation : Option Cache → Evaluation
new_evaluation cache = record {
  memo = [];
  visiting = [];
  result = no_result;
  cache = cache;
  polls = 0;
}

-- Twice more than the depths that check allows: see `check-ne-out_of_fuel`.
abbrev pub enough_fuel : Engine → ℕ
enough_fuel e = depth_limit e + 2

abbrev pub finish : Revision → Outcome Bool → Evaluation → Outcome CheckResult
finish rev (err error) ev = err error
finish rev (ok allowed) ev = ok (record ev.result { allowed = allowed; revision = rev })

unfoldable pub run_check :
    Engine → Context → Option Cache → Request → Outcome CheckResult × Option Cache
run_check e ctx cache req =
    let (allowed, ev) =
      check e ctx req (enough_fuel e) req.object req.relation 0 (new_evaluation cache) in
    (finish req.revision allowed ev, ev.cache)

unfoldable pub check_pinned :
    Engine
    → Context
    → Option Cache
    → Request
    → Outcome Revision
    → Outcome CheckResult × Option Cache
unfolding run_check
check_pinned e ctx cache req (err error) = (err error, cache)
check_pinned e ctx cache req (ok rev) = run_check e ctx cache (record req { revision = rev })

-- func (e *Engine) Check: the result, and the cache as the check leaves it.
unfoldable pub check_request :
    Engine → Context → Option Cache → Request → Outcome CheckResult × Option Cache
unfolding check_pinned
check_request e ctx cache req = check_pinned e ctx cache req (pin e req)
