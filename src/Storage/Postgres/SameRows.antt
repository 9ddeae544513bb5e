-- ===== src/Storage/Postgres/SameRows.antt =====
-- On tuples of places, the SQL statements of the Postgres store do to the rows what the in-process
-- store does, which compares keys where they compare columns.
use zanzo.Base.{
  ◌≡◌, refl, ◌∙◌, ap, List, [], ◌∷◌, ◌++◌, arith, Str, filter, any, All, Bool-cases, inl, inr,
}
use zanzo.Storage.Types.{Object, Subject, Tuple, Revision}
use zanzo.Storage.Parse.RoundTrip.{IsSubject}
use zanzo.Storage.Memory.{Row, key, is_live_for, is_visible, is_skipped, mark_row}
use zanzo.Storage.Memory.Table.{
  tuple_key, has_key, new_row, scan_remove, scan_add, scan_removes, scan_adds, scan_read,
  scan_by_subject,
}
use zanzo.Storage.Memory.Index.{scan_write}
use zanzo.Storage.Places.{IsPlace, IsPlain, same_key, same_subject}
use zanzo.Storage.Postgres.Table.{
  same_columns, is_live_row, update_deleted, insert_tuple, is_current, where_object, where_subject,
}
use zanzo.Storage.Postgres.Reads.{table_read, table_by_subject}
use zanzo.Storage.Postgres.Steps.{update_all, insert_all}

abbrev pub ArePlain : List Row → Type 0
ArePlain = All (λ (r : Row). IsPlain r.tuple)

update-same :
    (rev : Revision) (t : Tuple) (rows : List Row)
    → IsPlain t
    → ArePlain rows
    → update_deleted rev t rows ≡ scan_remove rev t rows
unfolding update_deleted is_live_row same_columns mark_row is_live_for
update-same rev t [] ht h = refl
update-same rev t (r ∷ rs) ht h = ground (
  arith,
  update-same rev t rs ht h.1,
  same_key r.tuple.object t.object r.tuple.relation t.relation h.0.place ht.place,
)

conflict-same :
    (t : Tuple) (rows : List Row)
    → IsPlain t
    → ArePlain rows
    → any (is_live_row t) rows ≡ any (is_live_for t.subject) (filter (has_key (tuple_key t)) rows)
unfolding any filter is_live_row same_columns is_live_for
conflict-same t [] ht h = refl
conflict-same t (r ∷ rs) ht h = ground (
  arith,
  conflict-same t rs ht h.1,
  same_key r.tuple.object t.object r.tuple.relation t.relation h.0.place ht.place,
)

insert-same :
    (rev : Revision) (t : Tuple) (rows : List Row)
    → IsPlain t
    → ArePlain rows
    → insert_tuple rev t rows ≡ scan_add rev t rows
unfolding insert_tuple
insert-same rev t rows ht h = rw (conflict-same t rows ht h) refl

remove-ArePlain :
    (rev : Revision) (t : Tuple) (rows : List Row)
    → ArePlain rows
    → ArePlain (scan_remove rev t rows)
unfolding mark_row
remove-ArePlain rev t [] h = tt
remove-ArePlain rev t (r ∷ rs) h = (ground (arith), remove-ArePlain rev t rs h.1)

append-ArePlain :
    (rev : Revision) (t : Tuple) (rows : List Row)
    → IsPlain t
    → ArePlain rows
    → ArePlain (rows ++ new_row rev t ∷ [])
append-ArePlain rev t [] ht h = (ht, tt)
append-ArePlain rev t (r ∷ rs) ht h = (h.0, append-ArePlain rev t rs ht h.1)

add-ArePlain :
    (rev : Revision) (t : Tuple) (rows : List Row)
    → IsPlain t
    → ArePlain rows
    → ArePlain (scan_add rev t rows)
add-ArePlain rev t rows ht h =
    elim (Bool-cases (any (is_live_for t.subject) (filter (has_key (tuple_key t)) rows))) [
      | inl e ↦ rw e h
      | inr e ↦ rw e (append-ArePlain rev t rows ht h)
    ]

updates-same :
    (rev : Revision) (ts : List Tuple) (rows : List Row)
    → All IsPlain ts
    → ArePlain rows
    → (update_all rev ts rows ≡ scan_removes rev ts rows) × ArePlain (scan_removes rev ts rows)
updates-same rev [] rows hts h = (refl, h)
updates-same rev (t ∷ ts) rows hts h =
    let (e, kept) =
      updates-same rev ts (scan_remove rev t rows) hts.1 (remove-ArePlain rev t rows h) in
    (ap (update_all rev ts) (update-same rev t rows hts.0 h) ∙ e, kept)

inserts-same :
    (rev : Revision) (ts : List Tuple) (rows : List Row)
    → All IsPlain ts
    → ArePlain rows
    → (insert_all rev ts rows ≡ scan_adds rev ts rows) × ArePlain (scan_adds rev ts rows)
inserts-same rev [] rows hts h = (refl, h)
inserts-same rev (t ∷ ts) rows hts h =
    let (e, kept) =
      inserts-same rev ts (scan_add rev t rows) hts.1 (add-ArePlain rev t rows hts.0 h) in
    (ap (insert_all rev ts) (insert-same rev t rows hts.0 h) ∙ e, kept)

-- The statements of a write and the scanned table do the same to rows of plain tuples.
pub write-same :
    (rev : Revision) (add remove : List Tuple) (rows : List Row)
    → All IsPlain add
    → All IsPlain remove
    → ArePlain rows
    → (insert_all rev add (update_all rev remove rows) ≡ scan_write add remove rev rows)
      × ArePlain (scan_write add remove rev rows)
write-same rev add remove rows ha hr h =
    let (e, kept) = updates-same rev remove rows hr h in
    let (e', kept') = inserts-same rev add (scan_removes rev remove rows) ha kept in
    (ap (insert_all rev add) e ∙ e', kept')

pub read-same :
    (rev : Revision) (o : Object) (relation : Str) (rows : List Row)
    → IsPlace o relation
    → ArePlain rows
    → table_read rev o relation rows ≡ scan_read rev (key o relation) rows
unfolding filter where_object is_current is_visible
read-same rev o relation [] hp h = refl
read-same rev o relation (r ∷ rs) hp h = ground (
  arith,
  read-same rev o relation rs hp h.1,
  same_key r.tuple.object o r.tuple.relation relation h.0.place hp,
)

pub by_subject-same :
    (rev : Revision) (s : Subject) (relation : Str) (rows : List Row)
    → IsSubject s
    → ArePlain rows
    → table_by_subject rev s relation rows ≡ scan_by_subject rev s relation rows
unfolding filter where_subject is_current is_visible is_skipped
by_subject-same rev s relation [] hs h = refl
by_subject-same rev s relation (r ∷ rs) hs h =
    ground (
      arith,
      by_subject-same rev s relation rs hs h.1,
      same_subject r.tuple.subject s h.0.subject hs,
    )
