-- ===== src/Tests/Check.antt =====
-- Checks on concrete stores.
use zanzo.Base.{◌+◌, ◌≡◌, refl, Bool, true, false, Option, none, some, [], ◌∷◌, ok, err}
use zanzo.Base.{eq_str, any, get, put, delete, filter}
use zanzo.Check.Monad
use zanzo.Check.Monad.{deferred}
use zanzo.Check.Reference.{meaning, meaning_any, meaning_all, some_subject, some_edge}
use zanzo.Errors.{depth_exceeded}
use zanzo.Check.Engine.{
  check, check_body, poll, note_depth, after_memo, after_cache, on_miss, expand, enter, remember,
  share, cached, is_visiting, eval, eval_any, eval_all, any_subject, any_edge,
}
use zanzo.Check.Types.{eq_memo_key}
use zanzo.Check.Cache.{eq_key, cache_get, cache_set}
use zanzo.Check.Request.{check_pinned, run_check}
use zanzo.Schema.Types.{lookup}
use zanzo.Storage.Memory.{
  key, read, add_tuples, add_tuple, is_duplicate, rows_at, offsets, remove_tuples, append_row,
  append_offset, remove_tuple, mark_offsets, mark_row, is_live_for, is_visible,
}
use zanzo.Storage.Types.{object_string, subject_string, eq_subject, eq_object, is_userset}
use zanzo.Storage.Memory.{Memory, new_memory, write}
use zanzo.Storage.Store.{memory_store}
use zanzo.Check.Cache.{Cache, revision_keyed}
use zanzo.Check.Types.{Engine, Request, Context, CheckResult, depth_limit, at_least_as_fresh}
use zanzo.Check.Request.{pin, check_request}
use zanzo.Check.Reference.{reference}
use zanzo.Check.Body.Caches.{IsCorrect, IsCorrect-new}
use zanzo.Check.Agreement.Request.{Decided, IsAnswer, check_request-agrees}
use zanzo.Check.Grants.Request.{
  IsBacked, ResultBacked, check_request-IsBacked, check_request-userset_denied,
}
use zanzo.Check.Failure.{Cause, check_request-fails_with}
use zanzo.Tests.Storage.{after, user_u-IsSubject, members_a-IsSubject}
use zanzo.Tests.Data.{
  user_u, group_a, group_b, doc_x, plain, member, members, editor, view, banned, tuple, sample,
  sample_schema, engine_on, ask,
}

abbrev pub quiet : Context
quiet i = none

abbrev pub empty_cache : Option Cache
empty_cache = some (revision_keyed [])

abbrev allowed_of : Engine → Option Cache → Request → Option Bool
allowed_of e cache req = elim (check_request e quiet cache req).0 [
  | ok res ↦ some res.allowed
  | err x ↦ none
]

abbrev pub cache_after : Engine → Option Cache → Request → Option Cache
cache_after e cache req = (check_request e quiet cache req).1

-- user:u may view the document, and may no more once it has left the group.
follows_writes :
    (allowed_of (engine_on sample) empty_cache (ask doc_x view) ≡ some true)
    × (allowed_of
          (engine_on after)
          (cache_after (engine_on sample) empty_cache (ask doc_x view))
          (ask doc_x view)
        ≡ some false)
unfolding check_request pin check_pinned run_check check check_body poll note_depth after_memo
    after_cache on_miss expand enter remember share cached is_visiting eval eval_any eval_all
    any_subject any_edge eq_memo_key eq_key cache_get cache_set lookup depth_limit Monad.◌>>=◌
    deferred delete read is_visible filter write add_tuples add_tuple is_duplicate any rows_at
    offsets get put remove_tuples remove_tuple mark_offsets mark_row is_live_for eq_subject
    eq_object eq_str append_row append_offset key object_string subject_string is_userset
follows_writes = (refl, refl)

-- group:a holds group:b#member and user:u, group:b holds group:a#member; user:u edits the document,
-- from which group:b is banned.
abbrev pub looped : Memory
looped =
    write
      (tuple group_a member (members group_b)
        ∷ tuple group_a member (plain user_u)
        ∷ tuple group_b member (members group_a)
        ∷ tuple doc_x editor (plain user_u)
        ∷ tuple doc_x banned (members group_b)
        ∷ [])
      [] new_memory

-- On a cycle, an answer depends on what was asked before: the check of group:a leaves in the cache
-- that user:u is no member of group:b, which it is; so the next check lets a banned user in.
cycle_is_cached :
    let e = engine_on looped in
    let warm = cache_after e empty_cache (ask group_a member) in
    (allowed_of e empty_cache (ask group_b member) ≡ some true)
    × (allowed_of e warm (ask group_b member) ≡ some false)
    × (allowed_of e empty_cache (ask doc_x view) ≡ some false)
    × (allowed_of e warm (ask doc_x view) ≡ some true)
unfolding check_request pin check_pinned run_check check check_body poll note_depth after_memo
    after_cache on_miss expand enter remember share cached is_visiting eval eval_any eval_all
    any_subject any_edge eq_memo_key eq_key cache_get cache_set lookup depth_limit Monad.◌>>=◌
    deferred delete read is_visible filter write add_tuples add_tuple is_duplicate any rows_at
    offsets get put remove_tuples remove_tuple mark_offsets mark_row is_live_for eq_subject
    eq_object eq_str append_row append_offset key object_string subject_string is_userset
cycle_is_cached = (refl, refl, refl, refl)

-- A token that is ahead of the store pins a revision that does not exist yet, and the answer stays
-- in the cache for the write that creates it.
future_is_cached :
    let early = record (ask doc_x view) {
      consistency = at_least_as_fresh;
      token = record { revision = 1 };
    } in
    (allowed_of (engine_on sample) empty_cache (ask doc_x view) ≡ some true)
    × (allowed_of
          (engine_on sample)
          (cache_after (engine_on new_memory) empty_cache early)
          (ask doc_x view)
        ≡ some false)
unfolding check_request pin check_pinned run_check check check_body poll note_depth after_memo
    after_cache on_miss expand enter remember share cached is_visiting eval eval_any eval_all
    any_subject any_edge eq_memo_key eq_key cache_get cache_set lookup depth_limit Monad.◌>>=◌
    deferred delete read is_visible filter write add_tuples add_tuple is_duplicate any rows_at
    offsets get put remove_tuples remove_tuple mark_offsets mark_row is_live_for eq_subject
    eq_object eq_str append_row append_offset key object_string subject_string is_userset
future_is_cached = (refl, refl)

pub sample-pin : pin (engine_on sample) (ask doc_x view) ≡ ok 1
unfolding check_request pin check_pinned run_check check check_body poll note_depth after_memo
    after_cache on_miss expand enter remember share cached is_visiting eval eval_any eval_all
    any_subject any_edge eq_memo_key eq_key cache_get cache_set lookup depth_limit Monad.◌>>=◌
    deferred delete read is_visible filter write add_tuples add_tuple is_duplicate any rows_at
    offsets get put remove_tuples remove_tuple mark_offsets mark_row is_live_for eq_subject
    eq_object eq_str append_row append_offset key object_string subject_string is_userset
sample-pin = refl

pub after-pin : pin (engine_on after) (ask doc_x view) ≡ ok 2
unfolding check_request pin check_pinned run_check check check_body poll note_depth after_memo
    after_cache on_miss expand enter remember share cached is_visiting eval eval_any eval_all
    any_subject any_edge eq_memo_key eq_key cache_get cache_set lookup depth_limit Monad.◌>>=◌
    deferred delete read is_visible filter write add_tuples add_tuple is_duplicate any rows_at
    offsets get put remove_tuples remove_tuple mark_offsets mark_row is_live_for eq_subject
    eq_object eq_str append_row append_offset key object_string subject_string is_userset
after-pin = refl

pub plain_answer :
    reference sample_schema
      ((memory_store sample).read 1)
      (plain user_u)
      (depth_limit (engine_on sample) + 1)
      doc_x
      view
    ≡ ok true
unfolding check_request pin check_pinned run_check check check_body poll note_depth after_memo
    after_cache on_miss expand enter remember share cached is_visiting eval eval_any eval_all
    any_subject any_edge eq_memo_key eq_key cache_get cache_set lookup depth_limit Monad.◌>>=◌
    deferred delete read is_visible filter write add_tuples add_tuple is_duplicate any rows_at
    offsets get put remove_tuples remove_tuple mark_offsets mark_row is_live_for eq_subject
    eq_object eq_str append_row append_offset key object_string subject_string is_userset reference
    meaning meaning_any meaning_all some_subject some_edge
plain_answer = refl

check_request-agrees_example :
    let (r, c) = check_request (engine_on sample) quiet empty_cache (ask doc_x view) in
    Decided r true 1 × IsCorrect (IsAnswer (engine_on sample)) c
check_request-agrees_example =
    check_request-agrees (engine_on sample) quiet empty_cache (ask doc_x view) 1 true sample-pin
      user_u-IsSubject (λ i. refl) (IsCorrect-new (IsAnswer (engine_on sample))) plain_answer

check_request-IsBacked_example :
    ResultBacked
      (engine_on sample)
      (ask doc_x view)
      (check_request (engine_on sample) quiet empty_cache (ask doc_x view)).0
    × IsCorrect
        (IsBacked (engine_on sample))
        (check_request (engine_on sample) quiet empty_cache (ask doc_x view)).1
check_request-IsBacked_example =
    check_request-IsBacked (engine_on sample) quiet empty_cache (ask doc_x view) user_u-IsSubject
      (IsCorrect-new (IsBacked (engine_on sample)))

-- A check for the editors' own userset.
abbrev ask_userset : Request
ask_userset = record (ask doc_x editor) { subject = members group_a }

abbrev userset_result : CheckResult
userset_result = record {
  allowed = false;
  expansions = 2;
  memo_hits = 0;
  cache_hits = 0;
  max_depth = 1;
  revision = 1;
}

userset_run : (check_request (engine_on sample) quiet empty_cache ask_userset).0 ≡ ok userset_result
unfolding check_request pin check_pinned run_check check check_body poll note_depth after_memo
    after_cache on_miss expand enter remember share cached is_visiting eval eval_any eval_all
    any_subject any_edge eq_memo_key eq_key cache_get cache_set lookup depth_limit Monad.◌>>=◌
    deferred delete read is_visible filter write add_tuples add_tuple is_duplicate any rows_at
    offsets get put remove_tuples remove_tuple mark_offsets mark_row is_live_for eq_subject
    eq_object eq_str append_row append_offset key object_string subject_string is_userset
userset_run = refl

members-IsUserset : is_userset (members group_a) ≡ true
unfolding is_userset eq_str
members-IsUserset = refl

check_request-userset_denied_example : userset_result.allowed ≡ false
check_request-userset_denied_example =
    check_request-userset_denied (engine_on sample) quiet empty_cache ask_userset userset_result
      members_a-IsSubject members-IsUserset (IsCorrect-new (IsBacked (engine_on sample)))
      userset_run

-- One step of depth is too few for view, edit, editor.
abbrev pub shallow : Engine
shallow = record (engine_on sample) { max_depth = 1 }

shallow_run :
    (check_request shallow quiet empty_cache (ask doc_x view)).0 ≡ err (depth_exceeded doc_x editor)
unfolding check_request pin check_pinned run_check check check_body poll note_depth after_memo
    after_cache on_miss expand enter remember share cached is_visiting eval eval_any eval_all
    any_subject any_edge eq_memo_key eq_key cache_get cache_set lookup depth_limit Monad.◌>>=◌
    deferred delete read is_visible filter write add_tuples add_tuple is_duplicate any rows_at
    offsets get put remove_tuples remove_tuple mark_offsets mark_row is_live_for eq_subject
    eq_object eq_str append_row append_offset key object_string subject_string is_userset
shallow_run = refl

check_request-fails_with_example : Cause shallow quiet (depth_exceeded doc_x editor)
check_request-fails_with_example =
    check_request-fails_with shallow quiet empty_cache (ask doc_x view)
      (depth_exceeded doc_x editor) shallow_run
