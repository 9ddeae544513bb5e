-- ===== src/Storage/Memory/Live.antt =====
-- What a store relates at its head, as a set, and what a write makes of it.
use zanzo.Base.{
  ◌≤◌, ◌<◌, ◌≡◌, refl, Bool, true, false, ◌&&◌, ◌||◌, not, List, [], ◌∷◌, ◌++◌, arith, filter, any,
  eqb, Str, eq_str, eq_str_iff, Bool-cases, and_split, inl, inr, All,
}
use zanzo.Storage.Types.{Object, Subject, Tuple, Revision, eq_subject, eq_subject_iff}
use zanzo.Storage.Memory.{Row, Memory, is_live_for, is_visible, mark_row, read}
use zanzo.Storage.Memory.Table.{
  tuple_key, has_key, new_row, scan_remove, scan_add, scan_removes, scan_adds, scan_read,
}

-- The tuple stands for this subject under this key.
abbrev pub names : Str → Subject → Tuple → Bool
names k s t = eq_str (tuple_key t) k && eq_subject t.subject s

-- No row is of a later revision than the head.
abbrev pub IsDated : Revision → List Row → Type 0
IsDated head = All (λ r. (r.created ≤ head) × (r.deleted ≤ head))

-- a live row for the subject under the key
unfoldable pub live : Str → Subject → List Row → Bool
live k s [] = false
live k s (r ∷ rs) = (names k s r.tuple && eqb r.deleted 0) || live k s rs

pub IsDated-mono : (a b : Revision) (rows : List Row) → a ≤ b → IsDated a rows → IsDated b rows
IsDated-mono a b [] le h = tt
IsDated-mono a b (r ∷ rs) le h = ((omega arith, omega arith), IsDated-mono a b rs le h.1)

module _ (new : Revision) where
  remove-IsDated :
      (t : Tuple) (rows : List Row) → IsDated new rows → IsDated new (scan_remove new t rows)
  unfolding mark_row
  remove-IsDated t [] h = tt
  remove-IsDated t (r ∷ rs) h = (ground arith, remove-IsDated t rs h.1)

  append-IsDated :
      (t : Tuple) (rows : List Row) → IsDated new rows → IsDated new (rows ++ new_row new t ∷ [])
  append-IsDated t [] h = ((omega arith, omega arith), tt)
  append-IsDated t (r ∷ rs) h = (h.0, append-IsDated t rs h.1)

  add-IsDated : (t : Tuple) (rows : List Row) → IsDated new rows → IsDated new (scan_add new t rows)
  add-IsDated t rows h =
      elim (Bool-cases (any (is_live_for t.subject) (filter (has_key (tuple_key t)) rows))) [
        | inl e ↦ rw e h
        | inr e ↦ rw e (append-IsDated t rows h)
      ]

  live-remove :
      (k : Str) (s : Subject) (t : Tuple) (rows : List Row)
      → 0 < new
      → live k s (scan_remove new t rows) ≡ (live k s rows && not (names k s t))
  unfolding live mark_row is_live_for
  live-remove k s t [] pos = refl
  live-remove k s t (r ∷ rs) pos = ground (
    arith,
    live-remove k s t rs pos,
    eq_str_iff (tuple_key r.tuple) (tuple_key t),
    eq_str_iff (tuple_key r.tuple) k,
    eq_str_iff (tuple_key t) k,
    eq_subject_iff r.tuple.subject t.subject,
    eq_subject_iff r.tuple.subject s,
    eq_subject_iff t.subject s,
  )

  live-append :
      (k : Str) (s : Subject) (t : Tuple) (rows : List Row)
      → live k s (rows ++ new_row new t ∷ []) ≡ (live k s rows || names k s t)
  unfolding live
  live-append k s t [] = ground (arith, names k s t)
  live-append k s t (r ∷ rs) = ground (arith, live-append k s t rs)

-- the test for a duplicate is `live` at the tuple itself
duplicate-live :
    (t : Tuple) (rows : List Row)
    → any (is_live_for t.subject) (filter (has_key (tuple_key t)) rows)
      ≡ live (tuple_key t) t.subject rows
unfolding any filter live is_live_for
duplicate-live t [] = refl
duplicate-live t (r ∷ rs) = ground (arith, duplicate-live t rs)

live-named :
    (k : Str) (s : Subject) (t : Tuple) (rows : List Row)
    → names k s t ≡ true
    → live (tuple_key t) t.subject rows ≡ live k s rows
live-named k s t rows h =
    let (a, b) = and_split (eq_str (tuple_key t) k) (eq_subject t.subject s) h in
    rw ((eq_str_iff (tuple_key t) k).0 a, (eq_subject_iff t.subject s).0 b)

live-add :
    (new : Revision) (k : Str) (s : Subject) (t : Tuple) (rows : List Row)
    → live k s (scan_add new t rows) ≡ (live k s rows || names k s t)
live-add new k s t rows =
    let dup = duplicate-live t rows in
    elim (Bool-cases (live (tuple_key t) t.subject rows)) [
      | inl e ↦ rw (dup, e) (ground (arith, live-named k s t rows, names k s t, live k s rows))
      | inr e ↦ rw (dup, e) (live-append new k s t rows)
    ]

-- the tuple is among these
abbrev pub among : List Tuple → Str → Subject → Bool
among ts k s = any (names k s) ts

pub live-adds :
    (new : Revision) (k : Str) (s : Subject) (ts : List Tuple) (rows : List Row)
    → live k s (scan_adds new ts rows) ≡ (live k s rows || among ts k s)
unfolding any
live-adds new k s [] rows = ground (arith, live k s rows)
live-adds new k s (t ∷ ts) rows = ground (
  arith,
  live-adds new k s ts (scan_add new t rows),
  live-add new k s t rows,
  among ts k s,
  live k s rows,
)

pub live-removes :
    (new : Revision) (k : Str) (s : Subject) (ts : List Tuple) (rows : List Row)
    → 0 < new
    → live k s (scan_removes new ts rows) ≡ (live k s rows && not (among ts k s))
unfolding any
live-removes new k s [] rows pos = ground (arith, live k s rows)
live-removes new k s (t ∷ ts) rows pos = ground (
  arith,
  live-removes new k s ts (scan_remove new t rows) pos,
  live-remove new k s t rows pos,
  among ts k s,
  live k s rows,
  names k s t,
)

unfoldable pub related : Memory → Revision → Object → Str → Subject → Bool
related m rev o relation s = any (λ t. eq_subject t.subject s) (read m rev o relation)

pub related-live :
    (head : Revision) (k : Str) (s : Subject) (rows : List Row)
    → IsDated head rows
    → any (λ t. eq_subject t.subject s) (scan_read head k rows) ≡ live k s rows
unfolding any filter live is_visible
related-live head k s [] h = refl
related-live head k s (r ∷ rs) h = ground (arith, related-live head k s rs h.1, h.0)

pub removes-IsDated :
    (new : Revision) (ts : List Tuple) (rows : List Row)
    → IsDated new rows
    → IsDated new (scan_removes new ts rows)
removes-IsDated new [] rows h = h
removes-IsDated new (t ∷ ts) rows h =
    removes-IsDated new ts (scan_remove new t rows) (remove-IsDated new t rows h)

pub adds-IsDated :
    (new : Revision) (ts : List Tuple) (rows : List Row)
    → IsDated new rows
    → IsDated new (scan_adds new ts rows)
adds-IsDated new [] rows h = h
adds-IsDated new (t ∷ ts) rows h =
    adds-IsDated new ts (scan_add new t rows) (add-IsDated new t rows h)
