-- ===== src/Tests/Expand.antt =====
-- Expand on concrete stores.
use zanzo.Base.{
  ◌≡◌, refl, [], ◌∷◌, ok, err, codes, Str, List, true, false, All, subst, ok_inj, none, ◌+◌,
}
use zanzo.Base.{eq_str, any, get, put, filter}
use zanzo.Errors.{depth_exceeded}
use zanzo.Schema.Types.{lookup}
use zanzo.Storage.Memory.{
  key, read, add_tuples, add_tuple, is_duplicate, rows_at, offsets, remove_tuples, append_row,
  append_offset, remove_tuple, mark_offsets, mark_row, is_live_for, is_visible,
}
use zanzo.Storage.Types.{object_string, subject_string, eq_subject, eq_object, is_userset}
use zanzo.Storage.Memory.{write}
use zanzo.Check.Types.{depth_limit}
use zanzo.Check.Failure.{Cause}
use zanzo.Check.Expand
use zanzo.Check.Expand.{
  ExpandRequest, ExpandResult, Tree, Trees, node, tree, no_trees, expand_request, expand_at,
  expand_rewrite, expand_children, expand_subjects, expand_edges,
}
use zanzo.Check.Expand.Fails.{expand_request-fails_with}
use zanzo.Check.Expand.Plain.{NamesPlain, IsPlainSchema}
use zanzo.Check.Expand.Admits.{admits, IsReadable}
use zanzo.Check.Expand.Agrees.{expand_request-admits}
use zanzo.Storage.Types.{hash}
use zanzo.Storage.Parse.{index}
use zanzo.Storage.Memory.Held.{read-All}
use zanzo.Tests.Postgres.{doc_x-IsObject}
use zanzo.Tests.Storage.{user_u-IsSubject, members_a-IsSubject}
use zanzo.Tests.Data.{
  sample, sample_schema, user_u, plain, group_b, doc_x, member, editor, view, edit, owner, parent,
  banned, engine_on,
}
use zanzo.Tests.Check.{plain_answer, quiet, looped, shallow}

abbrev expand_view : ExpandRequest
expand_view = record { object = doc_x; relation = view; revision = 0 }

shallow_expand : expand_request shallow quiet expand_view ≡ err (depth_exceeded doc_x editor)
unfolding expand_request expand_at expand_rewrite expand_children expand_subjects expand_edges
    Expand.poll Expand.◌>>=◌ lookup depth_limit read is_visible filter write add_tuples add_tuple
    is_duplicate any rows_at offsets get put remove_tuples remove_tuple mark_offsets mark_row
    is_live_for eq_subject eq_object eq_str append_row append_offset key object_string
    subject_string is_userset
shallow_expand = refl

-- A cycle ends in a leaf.
looped_expand :
    expand_request
      (engine_on looped)
      quiet
      (record { object = group_b; relation = member; revision = 0 })
    ≡ ok (record {
      tree = node (codes "leaf") (codes "group:b") member (codes "group:a#member" ∷ []) (
          tree
            (node
              (codes "leaf")
              (codes "group:a")
              member
              (codes "group:b#member" ∷ codes "user:u" ∷ [])
              (tree (node (codes "leaf") (codes "group:b") member [] no_trees) no_trees))
            no_trees);
      revision = 1;
    })
unfolding expand_request expand_at expand_rewrite expand_children expand_subjects expand_edges
    Expand.poll Expand.◌>>=◌ lookup depth_limit read is_visible filter write add_tuples add_tuple
    is_duplicate any rows_at offsets get put remove_tuples remove_tuple mark_offsets mark_row
    is_live_for eq_subject eq_object eq_str append_row append_offset key object_string
    subject_string is_userset
looped_expand = refl

expand_request-fails_with_example : Cause shallow quiet (depth_exceeded doc_x editor)
expand_request-fails_with_example =
    expand_request-fails_with shallow quiet expand_view (depth_exceeded doc_x editor) shallow_expand

abbrev doc_leaf : Str → List Str → Trees → Tree
doc_leaf = node (codes "leaf") (codes "document:x")

-- what the union under the exclusion draws
abbrev sample_union : Tree
sample_union = node (codes "union") (codes "document:x") view [] (
    tree
      (node (codes "union") (codes "document:x") edit [] (
        tree
          (doc_leaf editor (codes "group:a#member" ∷ []) (
            tree (node (codes "leaf") (codes "group:a") member (codes "user:u" ∷ []) no_trees)
              no_trees))
          (tree (doc_leaf owner [] no_trees) no_trees)))
      (tree (node (codes "tupleset") (codes "document:x") parent [] no_trees) no_trees))

abbrev sample_tree : ExpandResult
sample_tree = record {
  tree =
      node (codes "exclusion") (codes "document:x") view []
        (tree sample_union (tree (doc_leaf banned [] no_trees) no_trees));
  revision = 1;
}

sample_drawn : expand_request (engine_on sample) quiet expand_view ≡ ok sample_tree
unfolding expand_request expand_at expand_rewrite expand_children expand_subjects expand_edges
    Expand.poll Expand.◌>>=◌ lookup depth_limit read is_visible filter write add_tuples add_tuple
    is_duplicate any rows_at offsets get put remove_tuples remove_tuple mark_offsets mark_row
    is_live_for eq_subject eq_object eq_str append_row append_offset key object_string
    subject_string is_userset
sample_drawn = refl

sample_schema-IsPlain : IsPlainSchema sample_schema
unfolding NamesPlain index
sample_schema-IsPlain = (
  tt,
  (
    (tt, tt),
    (
      (tt, tt),
      ((tt, (tt, (tt, (tt, ((refl, (refl, tt)), (((refl, (refl, tt)), refl), tt)))))), tt),
    ),
  ),
)

sample-IsReadable : All (λ r. IsReadable r.tuple) sample.rows
unfolding write add_tuples add_tuple is_duplicate any rows_at offsets get put remove_tuples
    remove_tuple mark_offsets mark_row is_live_for eq_subject eq_object eq_str append_row
    append_offset key object_string subject_string index
sample-IsReadable = ((members_a-IsSubject, refl), ((user_u-IsSubject, refl), tt))

view_plain : index view hash ≡ none
unfolding index
view_plain = refl

user_plain : is_userset (plain user_u) ≡ false
unfolding is_userset eq_str
user_plain = refl

expand_request-admits_example : admits (subject_string (plain user_u)) sample_tree.tree ≡ true
expand_request-admits_example =
    expand_request-admits (engine_on sample) quiet expand_view sample_tree (plain user_u) true
      user_plain user_u-IsSubject (record { object = doc_x-IsObject; relation_free = view_plain })
      (λ o r ts e.
        subst (All IsReadable) (ok_inj e) (read-All IsReadable sample 1 o r sample-IsReadable))
      sample_schema-IsPlain sample_drawn (depth_limit (engine_on sample) + 1, plain_answer)
