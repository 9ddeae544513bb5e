-- ===== src/Tests/Api.antt =====
-- Requests to the handlers, and tokens.
use zanzo.Base.{◌<◌, ◌^◌, ◌≡◌, refl, true, none, some, [], ◌∷◌, Str, codes}
use zanzo.Base.{eq_str, any, get, put, delete, filter}
use zanzo.Check.Monad
use zanzo.Check.Monad.{deferred}
use zanzo.Check.Engine.{
  check, check_body, poll, note_depth, after_memo, after_cache, on_miss, expand, enter, remember,
  share, cached, is_visiting, eval, eval_any, eval_all, any_subject, any_edge,
}
use zanzo.Check.Types.{eq_memo_key}
use zanzo.Check.Cache.{eq_key, cache_get, cache_set}
use zanzo.Check.Request.{check_pinned, run_check}
use zanzo.Schema.Types.{lookup}
use zanzo.Storage.Memory.{
  key, read, add_tuples, add_tuple, is_duplicate, rows_at, offsets, remove_tuples, append_row,
  append_offset, remove_tuple, mark_offsets, mark_row, is_live_for, is_visible,
}
use zanzo.Storage.Types.{object_string, subject_string, eq_subject, eq_object, is_userset}
use zanzo.Storage.Memory.{write}
use zanzo.Check.Types.{depth_limit}
use zanzo.Check.Request.{pin, check_request}
use zanzo.Storage.Parse.{parse_object, parse_subject, index}
use zanzo.Api.Handlers.{check_call, consistency_of}
use zanzo.Api.Token.{digits, parse_digits}
use zanzo.Storage.Memory.Written.{IsStored}
use zanzo.Check.Body.Caches.{IsCorrect-new}
use zanzo.Check.Grants.Request.{IsBacked}
use zanzo.Api.Token.{parse_token, format_token, parse_token-format_token}
use zanzo.Api.Handlers.{CheckCall, CheckResponse, checked, handle_check, WriteCall, handle_write}
use zanzo.Api.Allows.{IsGrounded, handle_check-IsGrounded}
use zanzo.Api.Writes.{Applies, Refuses, handle_write-Applies}
use zanzo.Tests.Storage.{sample-IsStored, sample_room}
use zanzo.Tests.Check.{quiet, empty_cache}
use zanzo.Tests.Data.{sample, engine_on}

rejected_tokens :
    (parse_token (codes "zk-") ≡ none)
    × (parse_token (codes "zk-1x") ≡ none)
    × (parse_token (codes "zk-18446744073709551616") ≡ none)
    × (parse_token (codes "zk-18446744073709551615") ≡ some 18446744073709551615)
unfolding parse_token eq_str parse_digits
rejected_tokens = (refl, refl, refl, refl)

parse_token-format_token_example :
    (42 < 2 ^ 64 → parse_token (format_token 42) ≡ some 42)
    × ((s : Str) → parse_token s ≡ some 42 → 42 < 2 ^ 64)
parse_token-format_token_example = parse_token-format_token 42

abbrev view_call : CheckCall
view_call = record {
  object = codes "document:x";
  relation = codes "view";
  subject = codes "user:u";
  consistency = codes "full";
  token = [];
}

abbrev view_response : CheckResponse
view_response = record {
  allowed = true;
  token = codes "zk-1";
  expansions = 5;
  cache_hits = 0;
  memo_hits = 0;
  max_depth = 3;
}

view_handled :
    (handle_check (engine_on sample) quiet empty_cache (some view_call)).0 ≡ checked view_response
unfolding check_request pin check_pinned run_check check check_body poll note_depth after_memo
    after_cache on_miss expand enter remember share cached is_visiting eval eval_any eval_all
    any_subject any_edge eq_memo_key eq_key cache_get cache_set lookup depth_limit Monad.◌>>=◌
    deferred delete read is_visible filter write add_tuples add_tuple is_duplicate any rows_at
    offsets get put remove_tuples remove_tuple mark_offsets mark_row is_live_for eq_subject
    eq_object eq_str append_row append_offset key object_string subject_string is_userset
    handle_check check_call parse_object parse_subject index consistency_of format_token digits
view_handled = refl

handle_check-IsGrounded_example : IsGrounded (engine_on sample) view_call view_response
handle_check-IsGrounded_example =
    handle_check-IsGrounded (engine_on sample) quiet empty_cache view_call view_response
      (IsCorrect-new (IsBacked (engine_on sample))) view_handled refl

abbrev remove_call : WriteCall
remove_call = record {
  add = [];
  remove =
      record { object = codes "group:a"; relation = codes "member"; subject = codes "user:u" } ∷ [];
}

handle_write-Applies_example :
    Applies sample (some remove_call) (handle_write sample (some remove_call))
    × Refuses sample (handle_write sample (some remove_call))
    × IsStored (handle_write sample (some remove_call)).1
handle_write-Applies_example =
    handle_write-Applies sample (some remove_call) sample-IsStored sample_room
