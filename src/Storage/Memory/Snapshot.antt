-- ===== src/Storage/Memory/Snapshot.antt =====
-- Reads at a revision that is already current are not changed by later writes.
use zanzo.Base.{
  ◌+◌, ◌^◌, ◌≤◌, ◌<◌, ◌≡◌, refl, ◌∙◌, Bool, ◌&&◌, not, List, [], ◌∷◌, ◌++◌, map, arith, filter, any,
  Str, eq_str, Bool-cases, inl, inr,
}
use zanzo.Storage.Types.{Object, Subject, Tuple, Revision, subject_string}
use zanzo.Storage.Memory.{
  Row, Memory, key, is_live_for, is_visible, is_skipped, mark_row, next_revision, write, read,
  read_by_subject,
}
use zanzo.Storage.Memory.Table.{
  tuple_key, has_key, new_row, scan_remove, scan_add, scan_removes, scan_adds, scan_read,
  scan_by_subject,
}
use zanzo.Storage.Memory.Index.{IsIndexed, scan_write, write-refines, reads-refine}

-- The tuples of the rows that are visible and whose tuple passes `p`.
abbrev pub view : Revision → (Tuple → Bool) → List Row → List Tuple
view rev p rows = map (λ (r : Row). r.tuple) (filter (λ r. p r.tuple && is_visible rev r) rows)

scan_read-view :
    (rev : Revision) (k : Str) (rows : List Row)
    → scan_read rev k rows ≡ view rev (λ t. eq_str (tuple_key t) k) rows
unfolding filter
scan_read-view rev k [] = refl
scan_read-view rev k (r ∷ rs) = ground (arith, scan_read-view rev k rs)

-- the tuples that ReadBySubject is asked for
abbrev selects : Subject → Str → Tuple → Bool
selects s relation t =
    eq_str (subject_string t.subject) (subject_string s)
    && not (not (eq_str relation []) && not (eq_str t.relation relation))

scan_by_subject-view :
    (rev : Revision) (s : Subject) (relation : Str) (rows : List Row)
    → scan_by_subject rev s relation rows ≡ view rev (selects s relation) rows
unfolding filter is_skipped
scan_by_subject-view rev s relation [] = refl
scan_by_subject-view rev s relation (r ∷ rs) =
    ground (arith, scan_by_subject-view rev s relation rs)

module _ (rev new : Revision) (p : Tuple → Bool) (older : rev < new) where
  visible-mark : (s : Subject) (r : Row) → is_visible rev (mark_row new s r) ≡ is_visible rev r
  unfolding is_visible mark_row is_live_for
  visible-mark s r = ground arith

  tuple-mark : (s : Subject) (r : Row) → (mark_row new s r).tuple ≡ r.tuple
  unfolding mark_row
  tuple-mark s r = ground arith

  view-remove :
      (t : Tuple) (rows : List Row) → view rev p (scan_remove new t rows) ≡ view rev p rows
  unfolding filter
  view-remove t [] = refl
  view-remove t (r ∷ rs) =
      ground (arith, view-remove t rs, visible-mark t.subject r, tuple-mark t.subject r)

  view-append :
      (t : Tuple) (rows : List Row) → view rev p (rows ++ new_row new t ∷ []) ≡ view rev p rows
  unfolding filter is_visible
  view-append t [] = ground arith
  view-append t (r ∷ rs) = ground (arith, view-append t rs)

  view-add : (t : Tuple) (rows : List Row) → view rev p (scan_add new t rows) ≡ view rev p rows
  view-add t rows =
      elim (Bool-cases (any (is_live_for t.subject) (filter (has_key (tuple_key t)) rows))) [
        | inl e ↦ rw e
        | inr e ↦ rw e (view-append t rows)
      ]

  view-adds :
      (ts : List Tuple) (rows : List Row) → view rev p (scan_adds new ts rows) ≡ view rev p rows
  view-adds [] rows = refl
  view-adds (t ∷ ts) rows = view-adds ts (scan_add new t rows) ∙ view-add t rows

  view-removes :
      (ts : List Tuple) (rows : List Row) → view rev p (scan_removes new ts rows) ≡ view rev p rows
  view-removes [] rows = refl
  view-removes (t ∷ ts) rows = view-removes ts (scan_remove new t rows) ∙ view-remove t rows

  pub view-write :
      (add remove : List Tuple) (rows : List Row)
      → view rev p (scan_write add remove new rows) ≡ view rev p rows
  view-write add remove rows =
      view-adds add (scan_removes new remove rows) ∙ view-removes remove rows

next_revision-lt :
    (rev : Revision) (m : Memory) → rev ≤ m.head → m.head + 1 < 2 ^ 64 → rev < next_revision m.head
next_revision-lt rev m h k = omega arith

-- On a store with exact indexes, below the last revision of a uint64: whatever a Write adds and
-- removes, Read and ReadBySubject at a revision up to the old head return what they returned before.
pub write-keeps_snapshots :
    (add remove : List Tuple) (m : Memory)
    → IsIndexed m
    → m.head + 1 < 2 ^ 64
    → (rev : Revision) → rev ≤ m.head
    → ((o : Object) (relation : Str)
        → read (write add remove m) rev o relation ≡ read m rev o relation)
      × ((s : Subject) (relation : Str)
          → read_by_subject (write add remove m) rev s relation ≡ read_by_subject m rev s relation)
write-keeps_snapshots add remove m h k rev old =
    let (exact, rows) = write-refines add remove m h in
    let after = reads-refine (write add remove m) exact in
    let before = reads-refine m h in
    let new = next_revision m.head in
    let older = next_revision-lt rev m old k in
    (
      λ o relation.
          rw
            (
              after.0,
              before.0,
              rows,
              scan_read-view rev (key o relation) m.rows,
              scan_read-view rev (key o relation) (scan_write add remove new m.rows),
            )
            (view-write rev new (λ t. eq_str (tuple_key t) (key o relation)) older add remove
              m.rows),
      λ s relation.
          rw
            (
              after.1,
              before.1,
              rows,
              scan_by_subject-view rev s relation m.rows,
              scan_by_subject-view rev s relation (scan_write add remove new m.rows),
            )
            (view-write rev new (selects s relation) older add remove m.rows),
    )
