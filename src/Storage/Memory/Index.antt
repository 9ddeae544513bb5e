-- ===== src/Storage/Memory/Index.antt =====
-- The indexes list exactly the rows of their key, so the indexed store implements the scanned table.
use native.Mathlib.Nat.{zero-add}
use zanzo.Base.{
  ℕ, ◌≡◌, refl, sym, ◌∙◌, ap, Bool, List, [], ◌∷◌, ◌++◌, append-nil, arith, if◌then◌else◌, filter,
  any, Str, eq_str, eq_str_iff, Map, get, get-put, str_eq, Bool-cases, inl, inr,
}
use zanzo.Storage.Types.{Object, Subject, Tuple, Revision, subject_string}
use zanzo.Storage.Memory.{
  Row, Memory, new_memory, key, offsets, is_live_for, mark_row, remove_tuple, remove_tuples,
  append_offset, is_duplicate, append_row, add_tuple, add_tuples, next_revision, write, read,
  read_by_subject,
}
use zanzo.Storage.Memory.Offsets.{
  positions, rows_at-positions, mark_offsets-positions, positions-append, positions-map,
}
use zanzo.Storage.Memory.Table.{
  tuple_key, has_key, has_subject, scan_remove, scan_add, scan_removes, scan_adds, scan_read,
  scan_by_subject,
}

pub record IsIndexed (m : Memory) : Type 0 where
  pub forward : (k : Str) → offsets m.index k ≡ positions (has_key k) 0 m.rows
  pub backward : (k : Str) → offsets m.reverse k ≡ positions (has_subject k) 0 m.rows

pub IsIndexed-new : IsIndexed new_memory
unfolding offsets get positions
IsIndexed-new = record { forward = λ k. refl; backward = λ k. refl }

offsets-append :
    (m : Map Str (List ℕ)) (k j : Str) (n : ℕ)
    → offsets (append_offset m k n) j ≡ offsets m j ++ (if eq_str k j then n ∷ [] else [])
unfolding offsets append_offset
offsets-append m k j n =
    ground (arith, get-put m k j (offsets m k ++ n ∷ []), eq_str_iff k j, append-nil (offsets m j))

tuple-mark : (rev : Revision) (s : Subject) (r : Row) → (mark_row rev s r).tuple ≡ r.tuple
unfolding mark_row
tuple-mark rev s r = ground arith

rows-remove :
    (rev : Revision) (t : Tuple) (m : Memory)
    → IsIndexed m
    → (remove_tuple rev t m).rows ≡ scan_remove rev t m.rows
unfolding remove_tuple
rows-remove rev t m h =
    rw h.forward (mark_offsets-positions rev t.subject (has_key (tuple_key t)) m.rows)

-- Marking a row leaves the keys that it is filed under.
scanned :
    (rev : Revision) (t : Tuple) (p : Tuple → Bool) (rows : List Row)
    → positions (λ r. p r.tuple) 0 (scan_remove rev t rows) ≡ positions (λ r. p r.tuple) 0 rows
scanned rev t p rows =
    positions-map (λ r. p r.tuple) _ 0 rows (λ r. ground (arith, tuple-mark rev t.subject r))

remove-IsIndexed :
    (rev : Revision) (t : Tuple) (m : Memory) → IsIndexed m → IsIndexed (remove_tuple rev t m)
remove-IsIndexed rev t m h = record {
  forward = λ k. rw rows-remove (
      unfold remove_tuple in
      h.forward k ∙ sym (scanned rev t (λ u. eq_str (tuple_key u) k) m.rows));
  backward = λ k. rw rows-remove (
      unfold remove_tuple in
      h.backward k ∙ sym (scanned rev t (λ u. eq_str (subject_string u.subject) k) m.rows));
}

append-IsIndexed :
    (rev : Revision) (t : Tuple) (m : Memory) → IsIndexed m → IsIndexed (append_row rev t m)
unfolding append_row
append-IsIndexed rev t m h = record {
  forward = λ k. rw (offsets-append, h.forward, positions-append, zero-add);
  backward = λ k. rw (offsets-append, h.backward, positions-append, zero-add);
}

duplicate-scan :
    (t : Tuple) (m : Memory)
    → IsIndexed m
    → is_duplicate t m ≡ any (is_live_for t.subject) (filter (has_key (tuple_key t)) m.rows)
unfolding is_duplicate
duplicate-scan t m h = rw (h.forward, rows_at-positions)

-- One added tuple: the index stays exact, and the rows are those of the scanned table.
add-refines :
    (rev : Revision) (t : Tuple) (m : Memory)
    → IsIndexed m
    → IsIndexed (add_tuple rev t m) × ((add_tuple rev t m).rows ≡ scan_add rev t m.rows)
unfolding add_tuple append_row
add-refines rev t m h =
    let scan = duplicate-scan t m h in
    elim (Bool-cases (is_duplicate t m)) [
      | inl e ↦ rw (e, sym scan ∙ e) (h, refl)
      | inr e ↦ rw (e, sym scan ∙ e) (append-IsIndexed rev t m h, refl)
    ]

adds-refine :
    (rev : Revision) (ts : List Tuple) (m : Memory)
    → IsIndexed m
    → IsIndexed (add_tuples rev ts m) × ((add_tuples rev ts m).rows ≡ scan_adds rev ts m.rows)
unfolding add_tuples
adds-refine rev [] m h = (h, refl)
adds-refine rev (t ∷ ts) m h =
    let (one, rows) = add-refines rev t m h in
    let (rest, all) = adds-refine rev ts (add_tuple rev t m) one in
    (rest, all ∙ ap (scan_adds rev ts) rows)

removes-refine :
    (rev : Revision) (ts : List Tuple) (m : Memory)
    → IsIndexed m
    → IsIndexed (remove_tuples rev ts m)
      × ((remove_tuples rev ts m).rows ≡ scan_removes rev ts m.rows)
unfolding remove_tuples
removes-refine rev [] m h = (h, refl)
removes-refine rev (t ∷ ts) m h =
    let (rest, all) = removes-refine rev ts (remove_tuple rev t m) (remove-IsIndexed rev t m h) in
    (rest, all ∙ ap (scan_removes rev ts) (rows-remove rev t m h))

abbrev pub scan_write : List Tuple → List Tuple → Revision → List Row → List Row
scan_write add remove rev rows = scan_adds rev add (scan_removes rev remove rows)

-- On a store with exact indexes, Write does to the rows what the scanned table does at the next
-- revision, and leaves the indexes exact.
pub write-refines :
    (add remove : List Tuple) (m : Memory)
    → IsIndexed m
    → IsIndexed (write add remove m)
      × ((write add remove m).rows ≡ scan_write add remove (next_revision m.head) m.rows)
unfolding write
write-refines add remove m h =
    let rev = next_revision m.head in
    let moved : Memory = record m { head = rev } in
    let same : IsIndexed moved = record { forward = h.forward; backward = h.backward } in
    let (removed, rows) = removes-refine rev remove moved same in
    let (added, all) = adds-refine rev add (remove_tuples rev remove moved) removed in
    (added, all ∙ ap (scan_adds rev add) rows)

-- On a store with exact indexes, Read and ReadBySubject return what a scan of all rows returns.
pub reads-refine :
    (m : Memory)
    → IsIndexed m
    → ((rev : Revision) (o : Object) (relation : Str)
        → read m rev o relation ≡ scan_read rev (key o relation) m.rows)
      × ((rev : Revision) (s : Subject) (relation : Str)
          → read_by_subject m rev s relation ≡ scan_by_subject rev s relation m.rows)
unfolding read read_by_subject
reads-refine m h = (
  λ rev o relation. rw (h.forward, rows_at-positions),
  λ rev s relation. rw (h.backward, rows_at-positions),
)
