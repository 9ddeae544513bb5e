-- ===== src/Storage/Postgres/Reads.antt =====
-- What the reading methods of the Postgres store return.
use mathlib.Core.List.{Perm}
use mathlib.Core.List.Perm
use zanzo.Base.{
  ◌≡◌, refl, sym, ◌∙◌, ap, subst, none, some, List, [], ◌∷◌, map, arith, Str, eq_str_iff, ok, err,
  ok_inj, filter, Result-cases, inl, inr, Option-cases, ◌≢◌,
}
use zanzo.Errors.{Error, Outcome}
use zanzo.Storage.Types.{Object, Subject, Tuple, Revision, eq_object_iff, eq_subject_iff}
use zanzo.Storage.Memory.{Row}
use zanzo.Storage.Postgres.Table.{
  Columns, where_object, where_subject, select_subjects, select_objects,
}
use zanzo.Storage.Postgres.Sql.{
  Database, View, IsDatabase, Cursor, Query, Delivers, Answers, selected, by_object, by_subject,
}
use zanzo.Storage.Postgres.{
  scan_all, unless_failed, collect, of_subject, of_object, read, read_by_subject,
}

-- The tuples of the rows that a reading method asks for.
abbrev pub table_read : Revision → Object → Str → List Row → List Tuple
table_read rev o relation rows =
    map (λ (r : Row). r.tuple) (filter (where_object rev o relation) rows)

abbrev pub table_by_subject : Revision → Subject → Str → List Row → List Tuple
table_by_subject rev s relation rows =
    map (λ (r : Row). r.tuple) (filter (where_subject rev s relation) rows)

module _ {World : Type 0} (db : Database World) where
  failed_read :
      (e : Error) (r : Outcome (List Tuple)) (out : List Tuple)
      → unless_failed db (some e) r ≢ ok out
  failed_read e (ok ts) out h = cc h
  failed_read e (err x) out h = cc h

  read-columns :
      (rev : Revision) (o : Object) (relation : Str) (rows : List Row)
      → map (of_subject db o relation) (select_subjects rev o relation rows)
        ≡ table_read rev o relation rows
  unfolding select_subjects filter where_object
  read-columns rev o relation [] = refl
  read-columns rev o relation (r ∷ rs) = ground (
    arith,
    read-columns rev o relation rs,
    eq_object_iff r.tuple.object o,
    eq_str_iff r.tuple.relation relation,
  )

  by_subject-columns :
      (rev : Revision) (s : Subject) (relation : Str) (rows : List Row)
      → map (of_object db s) (select_objects rev s relation rows)
        ≡ table_by_subject rev s relation rows
  unfolding select_objects filter where_subject
  by_subject-columns rev s relation [] = refl
  by_subject-columns rev s relation (r ∷ rs) =
      ground (arith, by_subject-columns rev s relation rs, eq_subject_iff r.tuple.subject s)

  scan_all-Delivers :
      (f : Columns → Tuple) (fs : List (Outcome Columns)) (ds : List Columns) (out : List Tuple)
      → Delivers fs ds
      → scan_all db f fs ≡ ok out
      → out ≡ map f ds
  unfolding scan_all
  scan_all-Delivers f [] [] out h e = sym (ok_inj e)
  scan_all-Delivers f [] (d ∷ ds) out h e = absurd h
  scan_all-Delivers f (ok c ∷ fs) [] out h e = absurd h
  scan_all-Delivers f (ok c ∷ fs) (d ∷ ds) out h e = elim (Result-cases (scan_all db f fs)) [
    | inl (rest, q) ↦
        sym (ok_inj (rw q at e))
        ∙ ap (λ ts. f c ∷ ts) (scan_all-Delivers f fs ds rest h.1 q)
        ∙ ap (λ x. f x ∷ map f ds) h.0
    | inr (x, q) ↦ absurd (cc (rw q at e))
  ]
  scan_all-Delivers f (err x ∷ fs) ds out h e = absurd (cc)

  collect-Answers :
      (f : Columns → Tuple) (q : Query) (v : View) (r : Outcome Cursor) (out : List Tuple)
      → Answers q v r
      → collect db f r ≡ ok out
      → Perm out (map f (selected q v.committed.tuples))
  collect-Answers f q v (err e) out h k = absurd (cc)
  collect-Answers f q v (ok c) out h k = elim (Option-cases c.failure) [
    | inl whole ↦
        let (ds, perm, delivered) = h whole in
        let got : scan_all db f c.scanned ≡ ok out = rw whole at k in
        subst (λ xs. Perm xs (map f (selected q v.committed.tuples)))
          (sym (scan_all-Delivers f c.scanned ds out delivered got)) (Perm.map f perm)
    | inr (e, broken) ↦ absurd (failed_read e (scan_all db f c.scanned) out (rw broken at k))
  ]

  -- no call on the rows failed
  abbrev pub IsScanned : List (Outcome Columns) → Type 0
  IsScanned [] = Unit
  IsScanned (ok c ∷ fs) = IsScanned fs
  IsScanned (err e ∷ fs) = ⊥

  scan_all-IsScanned :
      (f : Columns → Tuple) (fs : List (Outcome Columns))
      → IsScanned fs
      → (out : List Tuple) × (scan_all db f fs ≡ ok out)
  unfolding scan_all
  scan_all-IsScanned f [] h = ([], refl)
  scan_all-IsScanned f (ok c ∷ fs) h =
      let (out, e) = scan_all-IsScanned f fs h in (f c ∷ out, rw e refl)
  scan_all-IsScanned f (err e ∷ fs) h = absurd h

  -- The query was answered, and no row was lost.
  abbrev pub IsWhole : Outcome Cursor → Type 0
  IsWhole (err e) = ⊥
  IsWhole (ok c) = (c.failure ≡ none) × IsScanned c.scanned

  collect-IsWhole :
      (f : Columns → Tuple) (r : Outcome Cursor)
      → IsWhole r
      → (out : List Tuple) × (collect db f r ≡ ok out)
  collect-IsWhole f (err e) h = absurd h
  collect-IsWhole f (ok c) h =
      let (out, e) = scan_all-IsScanned f c.scanned h.1 in (out, rw (h.0, e) refl)

-- What a reading method returned for a query: tuples only if they are all that the table holds for
-- it, in some order, and an error only if the database failed.
abbrev pub Reads :
    {World : Type 0} → Database World → Outcome Cursor → List Tuple → Outcome (List Tuple) → Type 0
Reads db c table r =
    ((out : List Tuple) → r ≡ ok out → Perm out table)
    × (IsWhole db c → (out : List Tuple) × (r ≡ ok out))

-- Over a database that behaves as documented, Read and ReadBySubject return all the tuples whose
-- columns match and that are current at the revision, in some order, or an error; never a part of
-- them; and an error only if the query, or a call on its rows, failed.
pub read-Reads :
    {World : Type 0} (db : Database World) (view : World → View)
    → IsDatabase db view
    → (w : World) (rev : Revision)
    → let rows = (view w).committed.tuples in
      ((o : Object) (relation : Str)
        → Reads db
            (db.query (by_object rev o relation) w)
            (table_read rev o relation rows)
            (read db rev o relation w))
      × ((s : Subject) (relation : Str)
          → Reads db
              (db.query (by_subject rev s relation) w)
              (table_by_subject rev s relation rows)
              (read_by_subject db rev s relation w))
unfolding read read_by_subject
read-Reads db view laws w rev =
    let rows = (view w).committed.tuples in
    (
      λ o relation.
          let q = by_object rev o relation in
          (
            λ out e. subst (Perm out) (read-columns db rev o relation rows) (
                collect-Answers db (of_subject db o relation) q (view w) (db.query q w) out
                  (laws.answers q w) e),
            collect-IsWhole db (of_subject db o relation) (db.query q w),
          ),
      λ s relation.
          let q = by_subject rev s relation in
          (
            λ out e. subst (Perm out) (by_subject-columns db rev s relation rows) (
                collect-Answers db (of_object db s) q (view w) (db.query q w) out (laws.answers q w)
                  e),
            collect-IsWhole db (of_object db s) (db.query q w),
          ),
    )
