-- ===== src/Storage/Postgres/Table.antt =====
-- internal/storage/postgres.go: what the SQL statements of the store do to the tables that its schema
-- declares. A row of `tuples` is a Row: six text columns, created_rev and deleted_rev, which is 0 by
-- default.
use zanzo.Base.{
  Bool, ◌&&◌, ◌||◌, Option, none, some, List, [], ◌∷◌, ◌++◌, map, eqb, leb, ltb, if◌then◌else◌, Str,
  eq_str, filter, any,
}
use zanzo.Storage.Types.{Object, Subject, Tuple, Revision, eq_object, eq_subject}
use zanzo.Storage.Memory.{Row}

-- The tables `revisions`, of which only the ids matter, and `tuples`.
pub record Tables : Type 0 where
  pub revisions : List Revision
  pub tuples : List Row

-- the six text columns are the same
unfoldable pub same_columns : Tuple → Tuple → Bool
same_columns a b =
    eq_object a.object b.object && eq_str a.relation b.relation && eq_subject a.subject b.subject

-- WHERE deleted_rev = 0 AND ... : the condition of the UPDATE, and of the partial unique index
unfoldable pub is_live_row : Tuple → Row → Bool
is_live_row t r = eqb r.deleted 0 && same_columns r.tuple t

-- UPDATE tuples SET deleted_rev = $1 WHERE ...
unfoldable pub update_deleted : Revision → Tuple → List Row → List Row
update_deleted rev t rows =
    map (λ (r : Row). if is_live_row t r then record r { deleted = rev } else r) rows

-- INSERT INTO tuples ... ON CONFLICT DO NOTHING, against idx_tuple_live_unique
unfoldable pub insert_tuple : Revision → Tuple → List Row → List Row
insert_tuple rev t rows =
    if any (is_live_row t) rows
    then rows
    else rows ++ (record { tuple = t; created = rev; deleted = 0 } ∷ [])

-- SELECT max(id) FROM revisions: NULL if there is none
unfoldable pub max_id : List Revision → Option Revision
max_id [] = none
max_id (a ∷ ids) = elim (max_id ids) [ none ↦ some a | some b ↦ if ltb a b then some b else some a ]

-- created_rev <= $4 AND (deleted_rev = 0 OR deleted_rev > $4)
unfoldable pub is_current : Revision → Row → Bool
is_current rev r = leb r.created rev && (eqb r.deleted 0 || ltb rev r.deleted)

unfoldable pub where_object : Revision → Object → Str → Row → Bool
where_object rev o relation r =
    eq_object r.tuple.object o && eq_str r.tuple.relation relation && is_current rev r

unfoldable pub where_subject : Revision → Subject → Str → Row → Bool
where_subject rev s relation r =
    eq_subject r.tuple.subject s
    && (eq_str relation [] || eq_str r.tuple.relation relation)
    && is_current rev r

-- Three text columns of one row of an answer.
pub record Columns : Type 0 where
  pub first : Str
  pub second : Str
  pub third : Str

-- SELECT subject_type, subject_id, subject_relation
unfoldable pub select_subjects : Revision → Object → Str → List Row → List Columns
select_subjects rev o relation rows =
    map
      (λ (r : Row). record {
        first = r.tuple.subject.object.type;
        second = r.tuple.subject.object.id;
        third = r.tuple.subject.relation;
      })
      (filter (where_object rev o relation) rows)

-- SELECT object_type, object_id, relation
unfoldable pub select_objects : Revision → Subject → Str → List Row → List Columns
select_objects rev s relation rows =
    map
      (λ (r : Row). record {
        first = r.tuple.object.type;
        second = r.tuple.object.id;
        third = r.tuple.relation;
      })
      (filter (where_subject rev s relation) rows)
