-- ===== src/Tests/Storage.antt =====
-- Reads, writes and parses on concrete stores and texts.
use zanzo.Base.{
  ℕ, ◌+◌, ◌^◌, ◌≤◌, ◌<◌, ◌≡◌, refl, true, ◌&&◌, ◌||◌, not, List, [], ◌∷◌, ◌++◌, arith, Str, codes,
  ok, err, ◌↔◌, eq_str, any, get, put, filter,
}
use zanzo.Storage.Types.{
  Object, Subject, Tuple, hash, object_string, subject_string, eq_subject, eq_object, is_userset,
}
use zanzo.Storage.Parse.{index, parse_object, parse_subject, not_type_id, empty_userset_relation}
use zanzo.Storage.Parse.RoundTrip.{
  IsObject, IsSubject, parse_object-eq-ok_iff, parse_subject-eq-ok_iff,
}
use zanzo.Storage.Memory.{
  Memory, new_memory, key, next_revision, write, read, read_by_subject, add_tuples, add_tuple,
  is_duplicate, rows_at, offsets, remove_tuples, append_row, append_offset, remove_tuple,
  mark_offsets, mark_row, is_live_for, is_visible, is_skipped,
}
use zanzo.Storage.Memory.Table.{scan_read, scan_by_subject}
use zanzo.Storage.Memory.Index.{IsIndexed, scan_write, write-refines, reads-refine}
use zanzo.Storage.Memory.Live.{related}
use zanzo.Storage.Memory.Snapshot.{write-keeps_snapshots}
use zanzo.Storage.Memory.Written.{IsStored, IsStored-new, write-IsStored, related-write_twice}
use zanzo.Storage.Memory.Keys.{write_leaks}
use zanzo.Storage.Memory.Listed.{listed, related-write}
use zanzo.Storage.Places.{IsPlace, IsPlain}
use zanzo.Base.{All}
use zanzo.Tests.Data.{
  user_u, group_a, doc_x, plain, member, members, viewer, banned, tuple, first_write, sample,
}

-- user:u leaves the group, and is banned.
abbrev pub second_add : List Tuple
second_add = tuple doc_x banned (plain user_u) ∷ []

abbrev pub second_remove : List Tuple
second_remove = tuple group_a member (plain user_u) ∷ []

abbrev pub after : Memory
after = write second_add second_remove sample

reads_at_each_revision :
    (read after 1 group_a member ≡ tuple group_a member (plain user_u) ∷ [])
    × (read after 2 group_a member ≡ [])
    × (read_by_subject after 2 (plain user_u) [] ≡ second_add)
unfolding read read_by_subject is_visible is_skipped filter write add_tuples add_tuple is_duplicate
    any rows_at offsets get put remove_tuples remove_tuple mark_offsets mark_row is_live_for
    eq_subject eq_object eq_str append_row append_offset key object_string subject_string is_userset
reads_at_each_revision = (refl, refl, refl)

-- A second write of a live tuple adds no row, and moves the head.
written_twice :
    ((write first_write [] sample).rows ≡ sample.rows) × ((write first_write [] sample).head ≡ 2)
unfolding write add_tuples add_tuple is_duplicate any rows_at offsets get put remove_tuples
    remove_tuple mark_offsets mark_row is_live_for eq_subject eq_object eq_str append_row
    append_offset key object_string subject_string is_userset
written_twice = (refl, refl)

rejected_texts :
    (parse_object (codes "user:") ≡ err (not_type_id (codes "user:")))
    × (parse_object (codes ":u") ≡ err (not_type_id (codes ":u")))
    × (parse_object (codes "user") ≡ err (not_type_id (codes "user")))
    × (parse_subject (codes "group:a#") ≡ err (empty_userset_relation (codes "group:a#")))
unfolding parse_object parse_subject index eq_str
rejected_texts = (refl, refl, refl, refl)

user_u-text : parse_subject (codes "user:u") ≡ ok (plain user_u)
unfolding parse_subject index parse_object
user_u-text = refl

group_a-text : parse_object (codes "group:a") ≡ ok group_a
unfolding parse_object index
group_a-text = refl

pub doc_x-text : parse_object (codes "document:x") ≡ ok doc_x
unfolding parse_object index
doc_x-text = refl

parse_object-eq-ok_iff_example :
    (parse_object (codes "group:a") ≡ ok group_a)
    ↔ ((codes "group:a" ≡ object_string group_a) × IsObject group_a)
parse_object-eq-ok_iff_example = parse_object-eq-ok_iff (codes "group:a") group_a

parse_subject-eq-ok_iff_example :
    (parse_subject (codes "group:a#member") ≡ ok (members group_a))
    ↔ ((codes "group:a#member" ≡ subject_string (members group_a)) × IsSubject (members group_a))
parse_subject-eq-ok_iff_example = parse_subject-eq-ok_iff (codes "group:a#member") (members group_a)

pub user_u-IsSubject : IsSubject (plain user_u)
user_u-IsSubject = ((parse_subject-eq-ok_iff (codes "user:u") (plain user_u)).0 user_u-text).1

pub members_a-IsSubject : IsSubject (members group_a)
unfolding parse_subject index eq_str parse_object
members_a-IsSubject =
    ((parse_subject-eq-ok_iff (codes "group:a#member") (members group_a)).0 refl).1

pub sample-IsStored : IsStored sample
sample-IsStored = (write-IsStored first_write [] new_memory IsStored-new (omega arith)).0

pub sample_room : sample.head + 1 < 2 ^ 64
unfolding write add_tuples add_tuple is_duplicate any rows_at offsets get remove_tuples append_row
    append_offset put eq_str key object_string
sample_room = omega arith

sample_old : 1 ≤ sample.head
unfolding write add_tuples add_tuple is_duplicate any rows_at offsets get remove_tuples append_row
    append_offset put eq_str key object_string
sample_old = omega arith

write-keeps_snapshots_example :
    ((o : Object) (relation : Str) → read after 1 o relation ≡ read sample 1 o relation)
    × ((s : Subject) (relation : Str)
        → read_by_subject after 1 s relation ≡ read_by_subject sample 1 s relation)
write-keeps_snapshots_example =
    write-keeps_snapshots second_add second_remove sample sample-IsStored.indexed sample_room 1
      sample_old

write-IsStored_example : IsStored after × (after.head ≡ sample.head + 1)
write-IsStored_example = write-IsStored second_add second_remove sample sample-IsStored sample_room

write-refines_example :
    IsIndexed after
    × (after.rows ≡ scan_write second_add second_remove (next_revision sample.head) sample.rows)
write-refines_example = write-refines second_add second_remove sample sample-IsStored.indexed

reads-refine_example :
    ((rev : ℕ) (o : Object) (relation : Str)
      → read sample rev o relation ≡ scan_read rev (key o relation) sample.rows)
    × ((rev : ℕ) (s : Subject) (relation : Str)
        → read_by_subject sample rev s relation ≡ scan_by_subject rev s relation sample.rows)
reads-refine_example = reads-refine sample sample-IsStored.indexed

group_a-IsPlace : IsPlace group_a member
unfolding index
group_a-IsPlace = record {
  object = ((parse_object-eq-ok_iff (codes "group:a") group_a).0 group_a-text).1;
  relation_free = refl;
}

doc_x-IsPlace : IsPlace doc_x banned
unfolding index
doc_x-IsPlace = record {
  object = ((parse_object-eq-ok_iff (codes "document:x") doc_x).0 doc_x-text).1;
  relation_free = refl;
}

second-ArePlain : All IsPlain second_add × All IsPlain second_remove
second-ArePlain = (
  (record { place = doc_x-IsPlace; subject = user_u-IsSubject }, tt),
  (record { place = group_a-IsPlace; subject = user_u-IsSubject }, tt),
)

related-write_example : related after after.head group_a member (plain user_u) ≡ (
    (related sample sample.head group_a member (plain user_u)
      && not (listed second_remove group_a member (plain user_u)))
    || listed second_add group_a member (plain user_u))
related-write_example =
    related-write second_add second_remove sample sample-IsStored sample_room second-ArePlain.0
      second-ArePlain.1 group_a member (plain user_u) group_a-IsPlace

-- The tuple of document:x and the relation viewer#viewer gives document:x#viewer a viewer.
write_leaks_example :
    let leaked = write (tuple doc_x (viewer ++ hash ∷ viewer) (plain user_u) ∷ []) [] sample in
    related leaked leaked.head
      (record { type = codes "document"; id = codes "x" ++ hash ∷ viewer })
      viewer
      (plain user_u)
    ≡ true
write_leaks_example =
    write_leaks sample (codes "document") (codes "x") viewer viewer (plain user_u) sample-IsStored
      sample_room

sample_twice_room : sample.head + 2 < 2 ^ 64
unfolding write add_tuples add_tuple is_duplicate any rows_at offsets get remove_tuples append_row
    append_offset put eq_str key object_string
sample_twice_room = omega arith

related-write_twice_example :
    let twice = write second_add second_remove after in
    related twice twice.head group_a member (plain user_u)
    ≡ related after after.head group_a member (plain user_u)
related-write_twice_example =
    related-write_twice second_add second_remove sample sample-IsStored sample_twice_room group_a
      member (plain user_u)
