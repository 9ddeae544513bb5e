-- ===== src/Storage/Postgres/Late.antt =====
-- Two writes of the Postgres store in different sessions: ids are given out before the commits, which
-- may come in the other order.
use zanzo.Base.{
  ◌≤◌, ◌≢◌, ap, subst, ◌≡◌, Bool, ◌||◌, true, false, All, Bool-cases, inl, inr, List, [], ◌∷◌, ◌++◌,
  arith, filter, any,
}
use zanzo.Storage.Types.{Tuple, Revision}
use zanzo.Storage.Memory.{Row}
use zanzo.Storage.Postgres.Table.{
  Tables, max_id, same_columns, insert_tuple, update_deleted, is_live_row, where_object, is_current,
}
use zanzo.Storage.Postgres.Steps.{applied, update_all, insert_all}
use zanzo.Storage.Postgres.Unique.{same_columns-eq}
use zanzo.Storage.Postgres.Reads.{table_read}
use zanzo.Storage.Postgres.InStep.{top}

top-late : (ids : List Revision) (rev : Revision) → rev ≤ top ids → top (rev ∷ ids) ≡ top ids
unfolding max_id
top-late ids rev old = ground arith

-- The tuple is one of these.
abbrev pub holds : Tuple → List Tuple → Bool
holds t ts = any (λ u. same_columns u t) ts

-- No row is of a later revision than this one.
abbrev pub Precede : Revision → List Row → Type 0
Precede at = All (λ r. r.created ≤ at)

update-Precede :
    (at rev : Revision) (t : Tuple) (rows : List Row)
    → Precede at rows
    → Precede at (update_deleted rev t rows)
unfolding update_deleted
update-Precede at rev t [] h = tt
update-Precede at rev t (r ∷ rs) h = (ground arith, update-Precede at rev t rs h.1)

append-Precede :
    (at : Revision) (rows : List Row) (r : Row)
    → r.created ≤ at
    → Precede at rows
    → Precede at (rows ++ r ∷ [])
append-Precede at [] r le h = (le, tt)
append-Precede at (x ∷ rows) r le h = (h.0, append-Precede at rows r le h.1)

insert-Precede :
    (at rev : Revision) (t : Tuple) (rows : List Row)
    → rev ≤ at
    → Precede at rows
    → Precede at (insert_tuple rev t rows)
unfolding insert_tuple
insert-Precede at rev t rows old h = elim (Bool-cases (any (is_live_row t) rows)) [
  | inl e ↦ rw (insert_tuple, e) h
  | inr e ↦ rw (insert_tuple, e) (append-Precede at rows _ old h)
]

update_all-Precede :
    (at rev : Revision) (ts : List Tuple) (rows : List Row)
    → Precede at rows
    → Precede at (update_all rev ts rows)
update_all-Precede at rev [] rows h = h
update_all-Precede at rev (t ∷ ts) rows h =
    update_all-Precede at rev ts (update_deleted rev t rows) (update-Precede at rev t rows h)

insert_all-Precede :
    (at rev : Revision) (ts : List Tuple) (rows : List Row)
    → rev ≤ at
    → Precede at rows
    → Precede at (insert_all rev ts rows)
insert_all-Precede at rev [] rows old h = h
insert_all-Precede at rev (t ∷ ts) rows old h =
    insert_all-Precede at rev ts (insert_tuple rev t rows) old (insert-Precede at rev t rows old h)

-- a live row of the tuple
abbrev is_live : Tuple → List Row → Bool
is_live t rows = any (is_live_row t) rows

live-append :
    (rev : Revision) (t u : Tuple) (rows : List Row)
    → is_live t (rows ++ record { tuple = u; created = rev; deleted = 0 } ∷ [])
      ≡ (is_live t rows || same_columns u t)
unfolding any is_live_row
live-append rev t u [] = ground arith
live-append rev t u (r ∷ rows) = ground (arith, live-append rev t u rows)

live-insert :
    (rev : Revision) (t u : Tuple) (rows : List Row)
    → (is_live t rows || same_columns u t) ≡ true
    → is_live t (insert_tuple rev u rows) ≡ true
unfolding insert_tuple
live-insert rev t u rows h = elim (Bool-cases (is_live u rows)) [
  | inr free ↦ rw (insert_tuple, free, live-append rev t u rows) h
  | inl conflict ↦
      rw (insert_tuple, conflict)
        (elim (Bool-cases (same_columns u t)) [
          | inr other ↦ ground arith
          | inl same ↦ subst (λ x. is_live x rows ≡ true) (same_columns-eq u t same) conflict
        ])
]

or-cases : (a b c : Bool) → (a || (b || c)) ≡ true → ((a || b) || c) ≡ true
or-cases a b c h = ground arith

live-insert_all :
    (rev : Revision) (t : Tuple) (ts : List Tuple) (rows : List Row)
    → (is_live t rows || holds t ts) ≡ true
    → is_live t (insert_all rev ts rows) ≡ true
unfolding any
live-insert_all rev t [] rows h = ground arith
live-insert_all rev t (u ∷ ts) rows h = elim (Bool-cases (is_live t rows || same_columns u t)) [
  | inl e ↦
      live-insert_all rev t ts (insert_tuple rev u rows)
        (let live = live-insert rev t u rows e in ground arith)
  | inr e ↦ live-insert_all rev t ts (insert_tuple rev u rows) (ground arith)
]

-- A live row that is not of a later revision is read.
live-read :
    (at : Revision) (t : Tuple) (rows : List Row)
    → Precede at rows
    → is_live t rows ≡ true
    → holds t (table_read at t.object t.relation rows) ≡ true
unfolding any filter is_live_row where_object is_current same_columns
live-read at t [] h live = absurd (cc live)
live-read at t (r ∷ rows) h live = ground (arith, live-read at t rows h.1, h.0)

-- Take tables with no row of a revision after the head, and what the statements of a Write of the
-- Postgres store, of any additions and removals, make of them under an id that is not above the
-- greatest committed one. The head is the same; and any tuple that is added, and that was not read at
-- the head before, is read at the head after: the write takes effect in the past, and what is read
-- there is no longer the same.
pub late_commit-moves_snapshot :
    (add remove : List Tuple) (rev : Revision) (before : Tables) (t : Tuple)
    → rev ≤ top before.revisions
    → Precede (top before.revisions) before.tuples
    → holds t add ≡ true
    → holds t (table_read (top before.revisions) t.object t.relation before.tuples) ≡ false
    → let after = applied rev add remove before in
      let at = top before.revisions in
      (top after.revisions ≡ at)
      × (holds t (table_read at t.object t.relation after.tuples) ≡ true)
      × (table_read at t.object t.relation after.tuples
          ≢ table_read at t.object t.relation before.tuples)
late_commit-moves_snapshot add remove rev before t old precede added unread =
    let at = top before.revisions in
    let after = applied rev add remove before in
    let removed = update_all rev remove before.tuples in
    let live : is_live t after.tuples ≡ true =
      live-insert_all rev t add removed (ground (arith, added)) in
    let seen =
      live-read at t after.tuples
        (insert_all-Precede at rev add removed old
          (update_all-Precede at rev remove before.tuples precede))
        live in
    (top-late before.revisions rev old, seen, λ same. let was = ap (holds t) same in cc)
