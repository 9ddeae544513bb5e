-- ===== src/Tests/List.antt =====
-- ListObjects on concrete stores.
use zanzo.Base.{◌+◌, All, str_eq, ◌≡◌, refl, true, some, [], ◌∷◌, ok, ℕ, codes, Map, List, Str}
use zanzo.Base.{eq_str, any, get, put, delete, filter}
use zanzo.Check.Monad
use zanzo.Check.Monad.{deferred}
use zanzo.Check.Engine.{
  check, check_body, poll, note_depth, after_memo, after_cache, on_miss, expand, enter, remember,
  share, cached, is_visiting, eval, eval_any, eval_all, any_subject, any_edge,
}
use zanzo.Check.Types.{eq_memo_key, CheckResult}
use zanzo.Check.Cache.{eq_key, cache_get, cache_set}
use zanzo.Check.Request.{check_pinned, run_check}
use zanzo.Schema.Types.{lookup}
use zanzo.Storage.Memory.{
  key, read, add_tuples, add_tuple, is_duplicate, rows_at, offsets, remove_tuples, append_row,
  append_offset, remove_tuple, mark_offsets, mark_row, is_live_for, is_visible,
}
use zanzo.Storage.Types.{object_string, subject_string, eq_subject, eq_object, is_userset, Object}
use zanzo.Storage.Memory.{new_memory, write}
use zanzo.Storage.Store.{memory_store}
use zanzo.Check.Types.{Engine, Context, depth_limit}
use zanzo.Check.Request.{pin, check_request}
use zanzo.Storage.Memory.{read_by_subject, is_skipped}
use zanzo.Schema.Types.{Relation, Schema, tuple_to_userset, computed_userset}
use zanzo.Schema.Reverse.{
  contributors, walk_names, expand_names, expand_all_names, walks_into, walks_of_definitions,
  walks_of_relations, walks_of, walks_of_all,
}
use zanzo.Schema.Reverse.Enough.{contributors-finds}
use zanzo.Check.ListObjects.{
  ListRequest, Search, list_revision, list_objects, candidates, eq_reached, reach, visit_parents,
  visit_walks, visit_tuple, visit_tuples, visit_item, visit_level, visit_levels, less_str,
  less_object, insert, sort, keep, verify,
}
use zanzo.Check.ListObjects.Backed.{IsListing, list_objects-IsListing}
use zanzo.Check.Body.Caches.{IsCorrect, IsCorrect-new}
use zanzo.Check.Grants.Request.{IsBacked}
use zanzo.Schema.Reverse.Closed.{IsClosed, contributors-IsClosed}
use zanzo.Check.Grants.{Reaches}
use zanzo.Check.Grants.Origins.{Origin, Reaches-Origin}
use zanzo.Schema.Reverse.{is_found}
use zanzo.Check.Grants.Request.{check_request-IsBacked}
use zanzo.Check.ListObjects.Exact.{ListsGranted, found_by, list_objects-IsExact}
use zanzo.Check.Agreement.Request.{IsAnswer}
use zanzo.Check.Reference.{reference}
use zanzo.Check.ListObjects.Page.{IsOrdered, list_objects-IsOrdered}
use zanzo.Tests.Storage.{user_u-IsSubject}
use zanzo.Tests.Check.{plain_answer, quiet, empty_cache}
use zanzo.Tests.Data.{
  user_u, group_a, member, editor, doc_x, plain, viewer, view, tuple, sample, engine_on, ask,
  define, stored, permission, parent, sample_schema, document,
}

abbrev all_quiet : ℕ → Context
all_quiet n = quiet

-- the documents that user:u may view
abbrev ask_list : ListRequest
ask_list = record {
  subject = plain user_u;
  permission = view;
  object_type = codes "document";
  revision = 0;
  limit = 10;
}

lists_document :
    (list_objects (engine_on sample) quiet all_quiet empty_cache ask_list).0
    ≡ ok (record { objects = doc_x ∷ []; candidates = 1; revision = 1 })
unfolding check_request pin check_pinned run_check check check_body poll note_depth after_memo
    after_cache on_miss expand enter remember share cached is_visiting eval eval_any eval_all
    any_subject any_edge eq_memo_key eq_key cache_get cache_set lookup depth_limit Monad.◌>>=◌
    deferred delete read is_visible filter write add_tuples add_tuple is_duplicate any rows_at
    offsets get put remove_tuples remove_tuple mark_offsets mark_row is_live_for eq_subject
    eq_object eq_str append_row append_offset key object_string subject_string is_userset
    list_objects candidates contributors walk_names expand_names expand_all_names walks_into
    walks_of_definitions walks_of_relations walks_of walks_of_all eq_reached reach visit_parents
    visit_walks visit_tuple visit_tuples visit_item visit_level visit_levels less_str less_object
    insert sort keep verify read_by_subject is_skipped
lists_document = refl

abbrev folder_f : Object
folder_f = record { type = codes "folder"; id = codes "f" }

-- A document is viewed through the `view` of its folder, and a folder's viewers may view it.
abbrev nested_schema : Schema
nested_schema = record {
  definitions =
      define (codes "user") []
      ∷ define (codes "folder")
          ((viewer, stored viewer) ∷ (view, permission view (computed_userset viewer)) ∷ [])
      ∷ define (codes "document")
          ((parent, stored parent) ∷ (view, permission view (tuple_to_userset parent view)) ∷ [])
      ∷ [];
}

abbrev nested : Engine
nested = record {
  schema = nested_schema;
  store = memory_store (
      write (tuple folder_f viewer (plain user_u) ∷ tuple doc_x parent (plain folder_f) ∷ []) []
        new_memory);
  max_depth = 0;
}

-- The walk asks WalksInto for the relation of the tuple alone, and not for the permissions that it
-- contributes to: it misses a document that Check allows.
inherited_is_missed :
    ((check_request nested quiet empty_cache (ask doc_x view)).0
      ≡ ok (record {
        allowed = true;
        expansions = 3;
        memo_hits = 0;
        cache_hits = 0;
        max_depth = 2;
        revision = 1;
      }))
    × ((list_objects nested quiet all_quiet empty_cache ask_list).0
        ≡ ok (record { objects = []; candidates = 0; revision = 1 }))
unfolding check_request pin check_pinned run_check check check_body poll note_depth after_memo
    after_cache on_miss expand enter remember share cached is_visiting eval eval_any eval_all
    any_subject any_edge eq_memo_key eq_key cache_get cache_set lookup depth_limit Monad.◌>>=◌
    deferred delete read is_visible filter write add_tuples add_tuple is_duplicate any rows_at
    offsets get put remove_tuples remove_tuple mark_offsets mark_row is_live_for eq_subject
    eq_object eq_str append_row append_offset key object_string subject_string is_userset
    list_objects candidates contributors walk_names expand_names expand_all_names walks_into
    walks_of_definitions walks_of_relations walks_of walks_of_all eq_reached reach visit_parents
    visit_walks visit_tuple visit_tuples visit_item visit_level visit_levels less_str less_object
    insert sort keep verify read_by_subject is_skipped
inherited_is_missed = (refl, refl)

list_objects-IsListing_example :
    IsListing
      (engine_on sample)
      ask_list
      (list_objects (engine_on sample) quiet all_quiet empty_cache ask_list).0
    × IsCorrect
        (IsBacked (engine_on sample))
        (list_objects (engine_on sample) quiet all_quiet empty_cache ask_list).1
list_objects-IsListing_example =
    list_objects-IsListing (engine_on sample) quiet all_quiet empty_cache ask_list user_u-IsSubject
      (IsCorrect-new (IsBacked (engine_on sample)))

-- Two relations that refer to each other.
abbrev mutual_relations : Map Str Relation
mutual_relations =
    (view, permission view (computed_userset viewer))
    ∷ (viewer, permission viewer (computed_userset view))
    ∷ []

contributors_terminate : (out : List Str) × (walk_names 4 mutual_relations view [] ≡ some out)
contributors_terminate = contributors-finds mutual_relations view

document_defined : get sample_schema.definitions (codes "document") ≡ some document
unfolding get eq_str
document_defined = refl

contributors-IsClosed_example :
    (is_found view (contributors sample_schema (codes "document") view) ≡ true)
    × ((r : Str)
        → is_found r (contributors sample_schema (codes "document") view) ≡ true
        → IsClosed document.relations (contributors sample_schema (codes "document") view) r)
contributors-IsClosed_example =
    contributors-IsClosed sample_schema (codes "document") view document document_defined

abbrev view_result : CheckResult
view_result = record {
  allowed = true;
  expansions = 5;
  memo_hits = 0;
  cache_hits = 0;
  max_depth = 3;
  revision = 1;
}

view_run : (check_request (engine_on sample) quiet empty_cache (ask doc_x view)).0 ≡ ok view_result
unfolding check_request pin check_pinned run_check check check_body poll note_depth after_memo
    after_cache on_miss expand enter remember share cached is_visiting eval eval_any eval_all
    any_subject any_edge eq_memo_key eq_key cache_get cache_set lookup depth_limit Monad.◌>>=◌
    deferred delete read is_visible filter write add_tuples add_tuple is_duplicate any rows_at
    offsets get put remove_tuples remove_tuple mark_offsets mark_row is_live_for eq_subject
    eq_object eq_str append_row append_offset key object_string subject_string is_userset
view_run = refl

sample-Reaches : Reaches sample_schema ((memory_store sample).read 1) (plain user_u) doc_x view
sample-Reaches =
    (check_request-IsBacked (engine_on sample) quiet empty_cache (ask doc_x view) user_u-IsSubject
        (IsCorrect-new (IsBacked (engine_on sample)))).0
      view_result view_run refl

Reaches-Origin_example :
    Origin sample_schema
      ((memory_store sample).read 1)
      (plain user_u)
      (contributors sample_schema (codes "document") view)
      doc_x
Reaches-Origin_example =
    Reaches-Origin sample_schema ((memory_store sample).read 1) (plain user_u) doc_x view
      sample-Reaches

list_objects-IsOrdered_example :
    IsOrdered (list_objects (engine_on sample) quiet all_quiet empty_cache ask_list).0
list_objects-IsOrdered_example =
    list_objects-IsOrdered (engine_on sample) quiet all_quiet empty_cache ask_list

-- the walk for user:u, as it ends
abbrev sample_search : Search
sample_search = record {
  out = (doc_x, tt) ∷ [];
  seen =
      (record { object = group_a; relation = member }, true)
      ∷ (record { object = doc_x; relation = editor }, true)
      ∷ [];
  next = [];
  polls = 3;
}

sample_found :
    (list_revision (engine_on sample) ask_list ≡ ok 1)
    × (candidates (engine_on sample) quiet (record ask_list { revision = 1 }) ≡ ok sample_search)
unfolding read is_visible filter write add_tuples add_tuple is_duplicate any rows_at offsets get put
    remove_tuples remove_tuple mark_offsets mark_row is_live_for eq_subject eq_object eq_str
    append_row append_offset key object_string subject_string is_userset candidates contributors
    walk_names expand_names expand_all_names walks_into walks_of_definitions walks_of_relations
    walks_of walks_of_all eq_reached reach visit_parents visit_walks visit_tuple visit_tuples
    visit_item visit_level visit_levels read_by_subject is_skipped depth_limit lookup
sample_found = (refl, refl)

all_told :
    All
      (λ o.
        reference sample_schema
          ((memory_store sample).read 1)
          (plain user_u)
          (depth_limit (engine_on sample) + 1)
          o
          view
        ≡ ok true)
      (found_by sample_search)
all_told = (plain_answer, tt)

list_objects-IsExact_example :
    let (r, c) = list_objects (engine_on sample) quiet all_quiet empty_cache ask_list in
    ListsGranted ask_list 1 (λ o. true) (found_by sample_search) r
    × IsCorrect (IsAnswer (engine_on sample)) c
list_objects-IsExact_example =
    list_objects-IsExact (engine_on sample) quiet all_quiet empty_cache ask_list 1 sample_search
      (λ o. true) (λ h. absurd (cc h)) (λ h. absurd (cc h)) sample_found.0 sample_found.1
      user_u-IsSubject (λ i. refl) (λ i j. refl) (IsCorrect-new (IsAnswer (engine_on sample)))
      all_told
