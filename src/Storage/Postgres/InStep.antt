-- ===== src/Storage/Postgres/InStep.antt =====
-- The Postgres store and the in-process store, run on the same writes.
use mathlib.Core.List.{Perm}
use zanzo.Base.{
  ◌+◌, ◌^◌, ◌<◌, ◌≡◌, refl, sym, ◌∙◌, ap, subst, Option, none, some, List, [], ◌∷◌, arith, Str, ok,
  err, ok_inj, All,
}
use zanzo.Errors.{Outcome}
use zanzo.Storage.Types.{Object, Subject, Tuple, Revision}
use zanzo.Storage.Parse.RoundTrip.{IsSubject}
use zanzo.Storage.Memory.{Memory, new_memory, key, next_revision}
use zanzo.Storage.Memory
use zanzo.Storage.Memory.Index.{IsIndexed, IsIndexed-new, write-refines, reads-refine, scan_write}
use zanzo.Storage.Memory.Written.{head-write}
use zanzo.Storage.Postgres.Table.{Tables, max_id}
use zanzo.Storage.Postgres.Sql.{Database, View, IsDatabase, Counts}
use zanzo.Storage.Postgres.{write, head, valid_or_zero, read, read_by_subject}
use zanzo.Storage.Postgres.Steps.{update_all, insert_all}
use zanzo.Storage.Postgres.Atomic.{Landed, write-Settled}
use zanzo.Storage.Postgres.Reads.{table_read, table_by_subject, read-Reads}
use zanzo.Storage.Places.{IsPlace, IsPlain}
use zanzo.Storage.Postgres.SameRows.{ArePlain, write-same, read-same, by_subject-same}

abbrev or_zero : Option Revision → Revision
or_zero none = 0
or_zero (some rev) = rev

-- what Head makes of the ids
abbrev pub top : List Revision → Revision
top ids = or_zero (max_id ids)

-- The tables and the in-process store hold the same rows, of tuples that name places, and the head of
-- the store is the last id that was given out. No transaction is open, and the indexes are exact.
pub record IsInStep (v : View) (m : Memory) : Type 0 where
  pub same_rows : v.committed.tuples ≡ m.rows
  pub same_id : v.last_id ≡ m.head
  pub same_head : top v.committed.revisions ≡ m.head
  pub closed : v.pending ≡ none
  pub plain : ArePlain m.rows
  pub indexed : IsIndexed m

pub IsInStep-new :
    IsInStep
      (record { committed = record { revisions = []; tuples = [] }; pending = none; last_id = 0 })
      new_memory
unfolding max_id
IsInStep-new = record {
  same_rows = refl;
  same_id = refl;
  same_head = refl;
  closed = refl;
  plain = tt;
  indexed = IsIndexed-new;
}

top-cons : (ids : List Revision) (rev : Revision) → top ids < rev → top (rev ∷ ids) ≡ rev
unfolding max_id
top-cons ids rev less = ground arith

module _ (add remove : List Tuple) (v v' : View) (m : Memory) where
  Landed-IsInStep :
      (rev : Revision)
      → IsInStep v m
      → All IsPlain add
      → All IsPlain remove
      → m.head + 1 < 2 ^ 64
      → v'.pending ≡ none
      → Landed add remove v (ok rev) v'
      → let m' = Memory.write add remove m in (rev ≡ m'.head) × IsInStep v' m'
  Landed-IsInStep rev h ha hr room closed (new, tables, id) =
      let m' = Memory.write add remove m in
      let (exact, rows) = write-refines add remove m h.indexed in
      let moved : rev ≡ next_revision m.head = omega (arith, h.same_id) in
      let (same, kept) = write-same rev add remove m.rows ha hr h.plain in
      let at_head : rev ≡ m'.head = moved ∙ sym (head-write add remove m) in
      let same_tuples : v'.committed.tuples ≡ m'.rows =
        ap (λ t. t.tuples) tables
        ∙ ap (λ r. insert_all rev add (update_all rev remove r)) h.same_rows
        ∙ same
        ∙ ap (λ n. scan_write add remove n m.rows) moved
        ∙ sym rows in
      let newest : top (rev ∷ v.committed.revisions) ≡ rev =
        top-cons v.committed.revisions rev (omega (arith, h.same_head, h.same_id)) in
      (
        at_head,
        record {
          same_rows = same_tuples;
          same_id = id ∙ at_head;
          same_head = ap (λ (t : Tables). top t.revisions) tables ∙ newest ∙ at_head;
          closed = closed;
          plain = subst ArePlain (ap (λ n. scan_write add remove n m.rows) moved ∙ sym rows) kept;
          indexed = exact;
        },
      )

-- Over a database that behaves as documented and that is in step with an in-process store, below the
-- last revision of a uint64: if Write of both gets the same tuples, whose objects have a text, whose
-- relations hold no `#` and whose subjects have a text, and Write of the Postgres store returns a
-- revision, then the in-process store is at that revision, and the two are in step again.
pub write-IsInStep :
    {World : Type 0} (db : Database World) (view : World → View)
    → IsDatabase db view
    → (add remove : List Tuple) (w : World) (m : Memory) → IsInStep (view w) m
    → All IsPlain add
    → All IsPlain remove
    → m.head + 1 < 2 ^ 64
    → (rev : Revision) → (write db add remove w).0 ≡ ok rev
    → let m' = Memory.write add remove m in
      (rev ≡ m'.head) × IsInStep (view (write db add remove w).1) m'
write-IsInStep db view laws add remove w m h ha hr room rev e =
    let v' = view (write db add remove w).1 in
    let (closed, landed) = write-Settled db view laws add remove w h.closed in
    Landed-IsInStep add remove (view w) v' m rev h ha hr room closed
      (subst (λ r. Landed add remove (view w) r v') e landed)

counted :
    (v : View) (m : Memory) (r : Outcome (Option Revision)) (rev : Revision)
    → IsInStep v m
    → Counts v r
    → {World : Type 0} (db : Database World) → valid_or_zero db r ≡ ok rev
    → rev ≡ m.head
counted v m (err e) rev h c db k = absurd (cc)
counted v m (ok none) rev h c db k = sym (ok_inj k) ∙ ap or_zero c ∙ h.same_head
counted v m (ok (some n)) rev h c db k = sym (ok_inj k) ∙ ap or_zero c ∙ h.same_head

-- Over a database that behaves as documented and that is in step with an in-process store, what Head
-- of the Postgres store returns is the head of the in-process store. What Read returns for an object
-- that has a text and a relation with no `#`, and ReadBySubject for a subject that has a text, is at
-- every revision what the in-process store returns, in some order.
pub reads-agree :
    {World : Type 0} (db : Database World) (view : World → View)
    → IsDatabase db view
    → (w : World) (m : Memory) → IsInStep (view w) m
    → ((rev : Revision) → head db w ≡ ok rev → rev ≡ m.head)
      × ((rev : Revision) (o : Object) (relation : Str) (out : List Tuple)
          → IsPlace o relation
          → read db rev o relation w ≡ ok out
          → Perm out (Memory.read m rev o relation))
      × ((rev : Revision) (s : Subject) (relation : Str) (out : List Tuple)
          → IsSubject s
          → read_by_subject db rev s relation w ≡ ok out
          → Perm out (Memory.read_by_subject m rev s relation))
unfolding head
reads-agree db view laws w m h =
    let rows = (view w).committed.tuples in
    let memory = reads-refine m h.indexed in
    (
      λ rev e. counted (view w) m (db.select_max w) rev h (laws.counts w) db e,
      λ rev o relation out place e.
          subst (Perm out)
            (ap (table_read rev o relation) h.same_rows
              ∙ read-same rev o relation m.rows place h.plain
              ∙ sym (memory.0 rev o relation))
            (((read-Reads db view laws w rev).0 o relation).0 out e),
      λ rev s relation out text e.
          subst (Perm out)
            (ap (table_by_subject rev s relation) h.same_rows
              ∙ by_subject-same rev s relation m.rows text h.plain
              ∙ sym (memory.1 rev s relation))
            (((read-Reads db view laws w rev).1 s relation).0 out e),
    )
