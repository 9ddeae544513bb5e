-- ===== src/Storage/Memory.antt =====
-- internal/storage/storage.go: the in-process store. The mutex makes each method one atomic step,
-- so a method is a function of the whole state. `ctx` is not read by any of them.
pub mod Held
pub mod Listed
pub mod Index
pub mod Keys
pub mod Live
pub mod Written
pub mod Snapshot
pub mod Offsets
pub mod Table
use zanzo.Base.{
  ℕ, ◌+◌, ◌%◌, ◌^◌, Bool, ◌&&◌, ◌||◌, not, Option, none, some, List, [], ◌∷◌, ◌++◌, map, eqb, leb,
  ltb, if◌then◌else◌, Str, eq_str, Map, get, put, length, get_elem?, set, filter, any, str_eq,
}
use zanzo.Storage.Types.{
  Object, Subject, Tuple, Revision, hash, object_string, subject_string, eq_subject,
}

-- `deleted` is 0 while the row is live.
pub record Row : Type 0 where
  pub tuple : Tuple
  pub created : Revision
  pub deleted : Revision

-- `index` maps the key of an object and a relation to the offsets of its rows, `reverse` the text
-- of a subject.
pub record Memory : Type 0 where
  pub head : Revision
  pub rows : List Row
  pub index : Map Str (List ℕ)
  pub reverse : Map Str (List ℕ)

abbrev pub new_memory : Memory
new_memory = record { head = 0; rows = []; index = []; reverse = [] }

-- func key(o Object, relation string)
unfoldable pub key : Object → Str → Str
key o relation = object_string o ++ (hash ∷ relation)

-- m.index[k]: nil if the key is missing
unfoldable pub offsets : Map Str (List ℕ) → Str → List ℕ
offsets m k = elim (get m k) [ none ↦ [] | some is ↦ is ]

-- the rows that a loop `for _, i := range is { r := m.rows[i] … }` sees
unfoldable pub rows_at : List Row → List ℕ → List Row
rows_at rows [] = []
rows_at rows (i ∷ is) =
    let rest = rows_at rows is in elim (get_elem? rows i) [ none ↦ rest | some r ↦ r ∷ rest ]

-- r.deleted == 0 && r.tuple.Subject == t.Subject
unfoldable pub is_live_for : Subject → Row → Bool
is_live_for s r = eqb r.deleted 0 && eq_subject r.tuple.subject s

-- r.created <= rev && (r.deleted == 0 || r.deleted > rev)
unfoldable pub is_visible : Revision → Row → Bool
is_visible rev r = leb r.created rev && (eqb r.deleted 0 || ltb rev r.deleted)

-- the body of the loop over the offsets of a removed tuple
unfoldable pub mark_row : Revision → Subject → Row → Row
mark_row rev s r = if is_live_for s r then record r { deleted = rev } else r

unfoldable pub mark_offsets : Revision → Subject → List ℕ → List Row → List Row
mark_offsets rev s [] rows = rows
mark_offsets rev s (i ∷ is) rows =
    mark_offsets rev s is
      (elim (get_elem? rows i) [ none ↦ rows | some r ↦ set rows i (mark_row rev s r) ])

unfoldable pub remove_tuple : Revision → Tuple → Memory → Memory
remove_tuple rev t m = record m {
  rows = mark_offsets rev t.subject (offsets m.index (key t.object t.relation)) m.rows;
}

unfoldable pub remove_tuples : Revision → List Tuple → Memory → Memory
remove_tuples rev [] m = m
remove_tuples rev (t ∷ ts) m = remove_tuples rev ts (remove_tuple rev t m)

-- m.index[k] = append(m.index[k], n)
unfoldable pub append_offset : Map Str (List ℕ) → Str → ℕ → Map Str (List ℕ)
append_offset m k n = put m k (offsets m k ++ (n ∷ []))

unfoldable pub is_duplicate : Tuple → Memory → Bool
is_duplicate t m =
    any (is_live_for t.subject) (rows_at m.rows (offsets m.index (key t.object t.relation)))

unfoldable pub append_row : Revision → Tuple → Memory → Memory
append_row rev t m = record m {
  rows = m.rows ++ (record { tuple = t; created = rev; deleted = 0 } ∷ []);
  index = append_offset m.index (key t.object t.relation) (length m.rows);
  reverse = append_offset m.reverse (subject_string t.subject) (length m.rows);
}

unfoldable pub add_tuple : Revision → Tuple → Memory → Memory
add_tuple rev t m = if is_duplicate t m then m else append_row rev t m

unfoldable pub add_tuples : Revision → List Tuple → Memory → Memory
add_tuples rev [] m = m
add_tuples rev (t ∷ ts) m = add_tuples rev ts (add_tuple rev t m)

-- m.head++ on a uint64
abbrev pub next_revision : Revision → Revision
next_revision h = (h + 1) % 2 ^ 64

-- func (m *Memory) Write: the new store; the revision that it returns is the new head.
unfoldable pub write : List Tuple → List Tuple → Memory → Memory
write add remove m =
    let rev = next_revision m.head in
    add_tuples rev add (remove_tuples rev remove (record m { head = rev }))

-- func (m *Memory) Read
unfoldable pub read : Memory → Revision → Object → Str → List Tuple
read m rev o relation =
    map (λ (r : Row). r.tuple)
      (filter (is_visible rev) (rows_at m.rows (offsets m.index (key o relation))))

-- relation != "" && r.tuple.Relation != relation: the rows that the reverse loop skips
unfoldable pub is_skipped : Str → Row → Bool
is_skipped relation r = not (eq_str relation []) && not (eq_str r.tuple.relation relation)

-- func (m *Memory) ReadBySubject
unfoldable pub read_by_subject : Memory → Revision → Subject → Str → List Tuple
read_by_subject m rev s relation =
    map (λ (r : Row). r.tuple)
      (filter (λ r. not (is_skipped relation r) && is_visible rev r)
        (rows_at m.rows (offsets m.reverse (subject_string s))))
