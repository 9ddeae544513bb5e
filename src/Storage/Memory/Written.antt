-- ===== src/Storage/Memory/Written.antt =====
-- What Write makes of the relation that a store holds, and the invariant that it keeps.
use mathlib.Core.Path.{◌≡⟨◌⟩◌, ◌∎}
use zanzo.Base.{
  ◌+◌, ◌^◌, ◌≤◌, ◌<◌, ◌≡◌, refl, sym, ◌∙◌, ap, ◌&&◌, ◌||◌, not, List, [], ◌∷◌, arith, Str,
}
use zanzo.Storage.Types.{Object, Subject, Tuple, Revision}
use zanzo.Storage.Memory.{
  Memory, new_memory, key, remove_tuple, remove_tuples, add_tuple, append_row, add_tuples,
  is_duplicate, next_revision, write,
}
use zanzo.Storage.Memory.Table.{scan_removes}
use zanzo.Storage.Memory.Index.{IsIndexed, IsIndexed-new, scan_write, write-refines, reads-refine}
use zanzo.Storage.Memory.Live.{
  IsDated, IsDated-mono, live, among, live-adds, live-removes, related, related-live,
  removes-IsDated, adds-IsDated,
}

-- The invariant of the store: exact indexes, and no row of the future.
pub record IsStored (m : Memory) : Type 0 where
  pub indexed : IsIndexed m
  pub dated : IsDated m.head m.rows

pub IsStored-new : IsStored new_memory
IsStored-new = record { indexed = IsIndexed-new; dated = tt }

head-adds : (rev : Revision) (ts : List Tuple) (m : Memory) → (add_tuples rev ts m).head ≡ m.head
unfolding add_tuples add_tuple append_row
head-adds rev [] m = refl
head-adds rev (t ∷ ts) m = ground (arith, head-adds rev ts (add_tuple rev t m), is_duplicate t m)

head-removes :
    (rev : Revision) (ts : List Tuple) (m : Memory) → (remove_tuples rev ts m).head ≡ m.head
unfolding remove_tuples remove_tuple
head-removes rev [] m = refl
head-removes rev (t ∷ ts) m = head-removes rev ts (remove_tuple rev t m)

pub head-write :
    (add remove : List Tuple) (m : Memory) → (write add remove m).head ≡ next_revision m.head
unfolding write
head-write add remove m =
    let rev = next_revision m.head in
    let moved : Memory = record m { head = rev } in
    head-adds rev add (remove_tuples rev remove moved) ∙ head-removes rev remove moved

-- A Write below the last revision of a uint64 moves the head to the next revision, keeps the
-- indexes exact and dates no row after the head.
pub write-IsStored :
    (add remove : List Tuple) (m : Memory)
    → IsStored m
    → m.head + 1 < 2 ^ 64
    → IsStored (write add remove m) × ((write add remove m).head ≡ m.head + 1)
write-IsStored add remove m h room =
    let (exact, rows) = write-refines add remove m h.indexed in
    let moves = head-write add remove m in
    let new = next_revision m.head in
    let later : m.head ≤ new = omega arith in
    let kept = IsDated-mono m.head new m.rows later h.dated in
    let removed = removes-IsDated new remove m.rows kept in
    let added = adds-IsDated new add (scan_removes new remove m.rows) removed in
    (record { indexed = exact; dated = rw (moves, rows) added }, omega (arith, moves))

related-stored :
    (m : Memory) (o : Object) (relation : Str) (s : Subject)
    → IsStored m
    → related m m.head o relation s ≡ live (key o relation) s m.rows
unfolding related
related-stored m o relation s h =
    rw ((reads-refine m h.indexed).0 m.head o relation)
      (related-live m.head (key o relation) s m.rows h.dated)

-- At the revision that a Write creates, a subject is related exactly if the write adds it, or if
-- it was related before and the write does not remove it. Additions win over removals.
pub related-write_keyed :
    (add remove : List Tuple) (m : Memory)
    → IsStored m
    → m.head + 1 < 2 ^ 64
    → (o : Object) (relation : Str) (s : Subject)
    → let after = write add remove m in
      related after after.head o relation s ≡ (
        (related m m.head o relation s && not (among remove (key o relation) s))
        || among add (key o relation) s)
related-write_keyed add remove m h room o relation s =
    let after = write add remove m in
    let new = next_revision m.head in
    let k = key o relation in
    let stored = (write-IsStored add remove m h room).0 in
    let pos : 0 < new = omega arith in
    related after after.head o relation s
    ≡⟨ related-stored after o relation s stored ⟩ live k s after.rows
    ≡⟨ ap (live k s) (write-refines add remove m h.indexed).1 ⟩
      live k s (scan_write add remove new m.rows)
    ≡⟨ live-adds new k s add (scan_removes new remove m.rows) ⟩
      (live k s (scan_removes new remove m.rows) || among add k s)
    ≡⟨ ap (λ b. b || among add k s) (live-removes new k s remove m.rows pos) ⟩
      ((live k s m.rows && not (among remove k s)) || among add k s)
    ≡⟨ ap (λ b. (b && not (among remove k s)) || among add k s)
        (sym (related-stored m o relation s h)) ⟩
      ((related m m.head o relation s && not (among remove k s)) || among add k s) ∎

-- A retried write cannot change the answer: written twice in a row, the same additions and removals
-- leave every subject related, or not, as after the first time.
pub related-write_twice :
    (add remove : List Tuple) (m : Memory)
    → IsStored m
    → m.head + 2 < 2 ^ 64
    → (o : Object) (relation : Str) (s : Subject)
    → let once = write add remove m in
      let twice = write add remove once in
      related twice twice.head o relation s ≡ related once once.head o relation s
related-write_twice add remove m h room o relation s =
    let once = write add remove m in
    let (stored, moved) = write-IsStored add remove m h (omega arith) in
    ground (
      arith,
      related-write_keyed add remove once stored (omega (arith, moved)) o relation s,
      related-write_keyed add remove m h (omega arith) o relation s,
    )
