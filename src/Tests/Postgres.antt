-- ===== src/Tests/Postgres.antt =====
-- A database in memory whose calls fail as a list of faults says, and the Postgres store over it.
use mathlib.Core.List.{Perm}
use mathlib.Core.List.Perm
use zanzo.Base.{suc, ◌≡◌, refl, Option, none, some, List, [], ◌∷◌, map, arith, ok, err, codes, inl}
use zanzo.Base.{Str, any}
use zanzo.Storage.Parse.{index}
use zanzo.Storage.Parse.RoundTrip.{IsObject, IsSubject, parse_object-eq-ok_iff}
use zanzo.Storage.Memory
use zanzo.Storage.Memory.{new_memory}
use zanzo.Storage.Types.{Object, Subject, hash, eq_object, eq_subject}
use zanzo.Storage.Postgres.Table.{same_columns, insert_tuple}
use zanzo.Storage.Postgres.Sql.{by_object, by_subject}
use zanzo.Storage.Postgres.{
  add_failed, write, migrate, transaction, remove_all, add_all, head, read, read_by_subject,
}
use zanzo.Storage.Postgres.Steps.{applied}
use zanzo.Storage.Postgres.Atomic.{Settled, write-Settled}
use zanzo.Storage.Postgres.Reads.{Reads, table_read, table_by_subject, read-Reads}
use zanzo.Storage.Places.{IsPlace, IsPlain}
use zanzo.Storage.Postgres.InStep.{top, IsInStep, IsInStep-new, write-IsInStep, reads-agree}
use zanzo.Storage.Postgres.Unique.{live_rows, HasUnique, write-HasUnique}
use zanzo.Base.{filter, eq_str, true, ◌≢◌}
use zanzo.Storage.Postgres.Late.{holds, late_commit-moves_snapshot}
use zanzo.Tests.Data.{user_u, group_a, doc_x, plain, member, members, editor, tuple}
use zanzo.Tests.Storage.{doc_x-text, members_a-IsSubject}
use zanzo.Errors.{Error, Outcome, store_failure}
use zanzo.Storage.Types.{Tuple, Revision}
use zanzo.Storage.Postgres.Table.{Tables, Columns, max_id}
use zanzo.Storage.Postgres.Sql.{
  Database, View, IsDatabase, Delivers, executed, selected, Begun, Allocated, Executed, Committed,
}

-- the world: what can be seen, and for each call to come whether it fails
record Box : Type 0 where
  seen : View
  faults : List (Option Error)

abbrev fault : Box → Option Error
fault b = elim b.faults [ [] ↦ none | f ∷ fs ↦ f ]

abbrev later : Box → List (Option Error)
later b = elim b.faults [ [] ↦ [] | f ∷ fs ↦ fs ]

abbrev set_view : View → Box → Box
set_view v b = record { seen = v; faults = later b }

abbrev unless : {A : Type 0} → Box → A → View → Outcome A × Box
unless b a v = elim (fault b) [ none ↦ (ok a, set_view v b) | some e ↦ (err e, set_view b.seen b) ]

abbrev no_tx : Error
no_tx = store_failure (codes "no transaction")

abbrev in_tx : {A : Type 0} → Box → (Tables → Outcome A × Box) → Outcome A × Box
in_tx b f = elim b.seen.pending [ none ↦ (err no_tx, b) | some t ↦ f t ]

abbrev box : Database Box
box = record {
  exec_schema = λ b. unless b tt b.seen;
  begin_tx = λ b. unless b tt (record b.seen { pending = some b.seen.committed });
  insert_revision = λ b. in_tx b λ t.
      let rev = suc b.seen.last_id in
      unless b rev (record b.seen {
        pending = some (record t { revisions = rev ∷ t.revisions });
        last_id = rev;
      });
  exec = λ st b. in_tx b λ t.
      unless b tt (record b.seen { pending = some (record t { tuples = executed st t.tuples }) });
  commit = λ b. in_tx b λ t. unless b tt (record b.seen { committed = t; pending = none });
  rollback = λ b. record { seen = record b.seen { pending = none }; faults = b.faults };
  select_max = λ b. ok (max_id b.seen.committed.revisions);
  query =
      λ q b. ok (record { scanned = map ok (selected q b.seen.committed.tuples); failure = none });
}

Delivers-all : (ds : List Columns) → Delivers (map ok ds) ds
Delivers-all [] = tt
Delivers-all (d ∷ ds) = (refl, Delivers-all ds)

unless-at :
    {A : Type 0} (P : Outcome A → View → Type 0) (seen : View) (fs : List (Option Error)) (a : A)
    (v : View)
    → P (ok a) v
    → ((e : Error) → P (err e) seen)
    → let b : Box = record { seen = seen; faults = fs } in P (unless b a v).0 (unless b a v).1.seen
unless-at P seen [] a v good bad = good
unless-at P seen (none ∷ fs) a v good bad = good
unless-at P seen (some e ∷ fs) a v good bad = bad e

unless-either :
    {A : Type 0} (P : Outcome A → View → Type 0) (b : Box) (a : A) (v : View)
    → P (ok a) v
    → ((e : Error) → P (err e) b.seen)
    → P (unless b a v).0 (unless b a v).1.seen
unless-either P b a v good bad = unless-at P b.seen b.faults a v good bad

in_tx-either :
    {A : Type 0} (P : Outcome A → View → Type 0) (b : Box) (t : Tables)
    (f : Tables → Outcome A × Box)
    → b.seen.pending ≡ some t
    → P (f t).0 (f t).1.seen
    → P (in_tx b f).0 (in_tx b f).1.seen
in_tx-either P b t f h p = rw (in_tx, h) p

box-IsDatabase : IsDatabase box (λ b. b.seen)
box-IsDatabase = record {
  migrates =
      λ b. unless-either (λ (r : Outcome (Unit {0})) v. v ≡ b.seen) b tt b.seen refl (λ e. refl);
  begins = λ b idle. unless-either (Begun b.seen) b tt _ refl (λ e. refl);
  allocates = λ b t h. in_tx-either (Allocated b.seen t) b t _ h (
      unless-either (Allocated b.seen t) b (suc b.seen.last_id) _ (refl, refl)
        (λ e. (refl, omega arith)));
  executes = λ st b t h.
      in_tx-either (Executed st b.seen t) b t _ h
        (unless-either (Executed st b.seen t) b tt _ refl (λ e. (refl, omega arith)));
  commits = λ b t h.
      in_tx-either (Committed b.seen t) b t _ h
        (unless-either (Committed b.seen t) b tt _ refl (λ e. (inl refl, refl)));
  rolls_back = λ b. refl;
  counts = λ b. refl;
  answers = λ q b whole. (selected q b.seen.committed.tuples, Perm.rfl, Delivers-all _);
}

abbrev empty_view : View
empty_view = record {
  committed = record { revisions = []; tuples = [] };
  pending = none;
  last_id = 0;
}

-- a world with no faults, and one whose fourth call fails
abbrev calm : Box
calm = record { seen = empty_view; faults = [] }

abbrev stormy : Box
stormy = record { seen = empty_view; faults = none ∷ none ∷ none ∷ some no_tx ∷ [] }

abbrev granted : Tuple
granted = tuple doc_x editor (members group_a)

abbrev also_granted : Tuple
also_granted = tuple group_a member (plain user_u)

-- the second INSERT fails: the error names its tuple, the id is used up, and no row is there
write_fails :
    let (r, w) = write box (granted ∷ also_granted ∷ []) [] stormy in
    (r ≡ err (add_failed also_granted no_tx)) × (w.seen ≡ record empty_view { last_id = 1 })
unfolding write transaction remove_all add_all insert_tuple any
write_fails = (refl, refl)

write_lands : (write box (granted ∷ []) [] calm).0 ≡ ok 1
unfolding write transaction remove_all add_all insert_tuple any
write_lands = refl

write-Settled_example :
    let (r, w) = write box (granted ∷ also_granted ∷ []) [] stormy in
    Settled (granted ∷ also_granted ∷ []) [] empty_view r w.seen
write-Settled_example =
    write-Settled box (λ b. b.seen) box-IsDatabase (granted ∷ also_granted ∷ []) [] stormy refl

abbrev one_grant : Box
one_grant = (write box (granted ∷ []) [] calm).1

read-Reads_example :
    let rows = one_grant.seen.committed.tuples in
    ((o : Object) (relation : Str)
      → Reads box
          (box.query (by_object 1 o relation) one_grant)
          (table_read 1 o relation rows)
          (read box 1 o relation one_grant))
    × ((s : Subject) (relation : Str)
        → Reads box
            (box.query (by_subject 1 s relation) one_grant)
            (table_by_subject 1 s relation rows)
            (read_by_subject box 1 s relation one_grant))
read-Reads_example = read-Reads box (λ b. b.seen) box-IsDatabase one_grant 1

editor_plain : index editor hash ≡ none
unfolding index
editor_plain = refl

pub doc_x-IsObject : IsObject doc_x
doc_x-IsObject = ((parse_object-eq-ok_iff (codes "document:x") doc_x).0 doc_x-text).1

doc_x-IsPlace : IsPlace doc_x editor
doc_x-IsPlace = record { object = doc_x-IsObject; relation_free = editor_plain }

granted-IsPlain : IsPlain granted
granted-IsPlain = record { place = doc_x-IsPlace; subject = members_a-IsSubject }

write-IsInStep_example :
    let m = Memory.write (granted ∷ []) [] new_memory in (1 ≡ m.head) × IsInStep one_grant.seen m
write-IsInStep_example =
    write-IsInStep box (λ b. b.seen) box-IsDatabase (granted ∷ []) [] calm new_memory IsInStep-new
      (granted-IsPlain, tt) tt (omega arith) 1 write_lands

reads-agree_example :
    let m = Memory.write (granted ∷ []) [] new_memory in
    ((rev : Revision) → head box one_grant ≡ ok rev → rev ≡ m.head)
    × ((rev : Revision) (o : Object) (relation : Str) (out : List Tuple)
        → IsPlace o relation
        → read box rev o relation one_grant ≡ ok out
        → Perm out (Memory.read m rev o relation))
    × ((rev : Revision) (s : Subject) (relation : Str) (out : List Tuple)
        → IsSubject s
        → read_by_subject box rev s relation one_grant ≡ ok out
        → Perm out (Memory.read_by_subject m rev s relation))
reads-agree_example =
    reads-agree box (λ b. b.seen) box-IsDatabase one_grant
      (Memory.write (granted ∷ []) [] new_memory) write-IsInStep_example.1

-- id 2 was committed before id 1
abbrev second_first : Tables
second_first = record { revisions = 2 ∷ []; tuples = [] }

late_commit-moves_snapshot_example :
    let after = applied 1 (also_granted ∷ granted ∷ []) (also_granted ∷ []) second_first in
    let at = top second_first.revisions in
    (top after.revisions ≡ at)
    × (holds granted (table_read at doc_x editor after.tuples) ≡ true)
    × (table_read at doc_x editor after.tuples ≢ table_read at doc_x editor second_first.tuples)
unfolding max_id any same_columns filter eq_object eq_str eq_subject
late_commit-moves_snapshot_example =
    late_commit-moves_snapshot (also_granted ∷ granted ∷ []) (also_granted ∷ []) 1 second_first
      granted (omega arith) tt refl refl

empty-HasUnique : HasUnique empty_view
unfolding live_rows filter
empty-HasUnique t = omega arith

-- the same tuple twice in one write
write-HasUnique_example :
    HasUnique (write box (granted ∷ granted ∷ []) [] calm).1.seen
    × HasUnique (migrate box calm).1.seen
write-HasUnique_example =
    write-HasUnique box (λ b. b.seen) box-IsDatabase (granted ∷ granted ∷ []) [] calm refl
      empty-HasUnique
