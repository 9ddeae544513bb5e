-- ===== src/Tests/Service.antt =====
-- A run of the service.
use zanzo.Base.{◌≤◌, [], arith}
use zanzo.Base.{eq_str, any, get, put, delete, filter}
use zanzo.Check.Monad
use zanzo.Check.Monad.{deferred}
use zanzo.Check.Engine.{
  check, check_body, poll, note_depth, after_memo, after_cache, on_miss, expand, enter, remember,
  share, cached, is_visiting, eval, eval_any, eval_all, any_subject, any_edge,
}
use zanzo.Check.Types.{eq_memo_key}
use zanzo.Check.Cache.{eq_key, cache_get, cache_set}
use zanzo.Check.Request.{check_pinned, run_check}
use zanzo.Schema.Types.{lookup}
use zanzo.Storage.Memory.{
  key, read, add_tuples, add_tuple, is_duplicate, rows_at, offsets, remove_tuples, append_row,
  append_offset, remove_tuple, mark_offsets, mark_row, is_live_for, is_visible,
}
use zanzo.Storage.Types.{object_string, subject_string, eq_subject, eq_object, is_userset}
use zanzo.Storage.Memory.{write}
use zanzo.Check.Types.{depth_limit}
use zanzo.Check.Request.{pin, check_request}
use zanzo.Check.Grants.Request.{ResultBacked}
use zanzo.Service.{Service, Reach, started, then, writes, checks}
use zanzo.Service.NewEnemy.{fresh, no_new_enemy}
use zanzo.Tests.Storage.{second_add, second_remove, after, user_u-IsSubject}
use zanzo.Tests.Data.{doc_x, view, first_write, sample, sample_schema, engine_on, ask}
use zanzo.Tests.Check.{quiet, empty_cache, cache_after, sample-pin, after-pin}

-- A write, a check that is cached, and a second write.
abbrev served : Service
served = record {
  memory = after;
  cache = cache_after (engine_on sample) empty_cache (ask doc_x view);
}

served_reached : Reach sample_schema 0 (fresh empty_cache) served
unfolding check_request pin check_pinned run_check check check_body poll note_depth after_memo
    after_cache on_miss expand enter remember share cached is_visiting eval eval_any eval_all
    any_subject any_edge eq_memo_key eq_key cache_get cache_set lookup depth_limit Monad.◌>>=◌
    deferred delete read is_visible filter write add_tuples add_tuple is_duplicate any rows_at
    offsets get put remove_tuples remove_tuple mark_offsets mark_row is_live_for eq_subject
    eq_object eq_str append_row append_offset key object_string subject_string is_userset
served_reached =
    then
      (then (then started (writes first_write [] (omega arith)))
        (checks quiet (ask doc_x view) 1 user_u-IsSubject sample-pin (omega arith)))
      (writes second_add second_remove (omega arith))

after_head : 2 ≤ after.head
unfolding check_request pin check_pinned run_check check check_body poll note_depth after_memo
    after_cache on_miss expand enter remember share cached is_visiting eval eval_any eval_all
    any_subject any_edge eq_memo_key eq_key cache_get cache_set lookup depth_limit Monad.◌>>=◌
    deferred delete read is_visible filter write add_tuples add_tuple is_duplicate any rows_at
    offsets get put remove_tuples remove_tuple mark_offsets mark_row is_live_for eq_subject
    eq_object eq_str append_row append_offset key object_string subject_string is_userset
after_head = omega arith

no_new_enemy_example :
    ResultBacked
      (engine_on after)
      (ask doc_x view)
      (check_request (engine_on after) quiet served.cache (ask doc_x view)).0
no_new_enemy_example =
    no_new_enemy sample_schema 0 served quiet (ask doc_x view) 2 served_reached user_u-IsSubject
      after-pin after_head
