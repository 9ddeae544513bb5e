-- ===== src/Storage/Parse.antt =====
-- internal/storage/storage.go: ParseObject and ParseSubject. The round trip is in the child module.
pub mod Index
pub mod RoundTrip
use mathlib.Core.Option
use zanzo.Base.{
  ℕ, zero, suc, ◌+◌, ◌||◌, Option, none, some, [], ◌∷◌, eqb, if◌then◌else◌, Str, Result, ok, err,
  length, take, drop, ◌>>=◌, eq_str,
}
use zanzo.Storage.Types.{Object, Subject, colon, hash}

pub data ParseError : Type 0 where
  -- "storage: %q has an empty userset relation"
  empty_userset_relation : Str → ParseError
  -- "storage: %q is not type:id"
  not_type_id : Str → ParseError

-- strings.Index for a pattern of one byte
unfoldable pub index : Str → ℕ → Option ℕ
index [] c = none
index (a ∷ s) c = let rest = Option.map suc (index s c) in if eqb a c then some zero else rest

-- i <= 0 || i == len(s)-1 holds of every i that Index returns for an s with no `:`
parse_object_at : Str → Option ℕ → Result ParseError Object
parse_object_at s none = err (not_type_id s)
parse_object_at s (some i) =
    if eqb i 0 || eqb (i + 1) (length s)
    then err (not_type_id s)
    else ok (record { type = take i s; id = drop (suc i) s })

unfoldable pub parse_object : Str → Result ParseError Object
unfolding parse_object_at
parse_object s = parse_object_at s (index s colon)

with_relation : Str → Result ParseError Object → Result ParseError Subject
with_relation relation r = do obj ← r; ok (record { object = obj; relation = relation })

parse_subject_at : Str → Option ℕ → Result ParseError Subject
unfolding with_relation
parse_subject_at s none = with_relation [] (parse_object s)
parse_subject_at s (some i) =
    if eq_str (drop (suc i) s) []
    then err (empty_userset_relation s)
    else with_relation (drop (suc i) s) (parse_object (take i s))

unfoldable pub parse_subject : Str → Result ParseError Subject
unfolding parse_subject_at
parse_subject s = parse_subject_at s (index s hash)
