-- ===== src/Storage/Postgres/Unique.antt =====
-- At most one live row for a relationship, which idx_tuple_live_unique is for.
use zanzo.Base.{
  ℕ, suc, ◌+◌, ◌≤◌, ◌≡◌, refl, sym, subst, true, false, none, List, [], ◌∷◌, ◌++◌, arith, filter,
  any, length, Bool-cases, inl, inr, Result, ok, err, if◌then◌else◌,
}
use zanzo.Storage.Types.{Tuple, Revision, eq_object_iff, eq_subject_iff}
use zanzo.Base.{eq_str_iff}
use zanzo.Storage.Memory.{Row}
use zanzo.Storage.Postgres.Table.{Tables, same_columns, is_live_row, update_deleted, insert_tuple}
use zanzo.Storage.Postgres.Sql.{Database, View, IsDatabase}
use zanzo.Storage.Postgres.{
  WriteError, bare, allocate_failed, remove_failed, add_failed, write, migrate,
}
use zanzo.Storage.Postgres.Steps.{update_all, insert_all, applied}
use zanzo.Storage.Postgres.Atomic.{Landed, write-Settled}

-- the live rows of a relationship
unfoldable pub live_rows : Tuple → List Row → ℕ
live_rows t rows = length (filter (is_live_row t) rows)

abbrev pub IsUnique : List Row → Type 0
IsUnique rows = (t : Tuple) → live_rows t rows ≤ 1

update-fewer :
    (rev : Revision) (t u : Tuple) (rows : List Row)
    → live_rows u (update_deleted rev t rows) ≤ live_rows u rows
unfolding live_rows update_deleted filter is_live_row
update-fewer rev t u [] = omega arith
update-fewer rev t u (r ∷ rs) = ground (arith, update-fewer rev t u rs)

live_rows-append :
    (u : Tuple) (rows : List Row) (r : Row)
    → live_rows u (rows ++ r ∷ []) ≡ live_rows u rows + live_rows u (r ∷ [])
unfolding live_rows filter
live_rows-append u [] r = omega arith
live_rows-append u (x ∷ rows) r = ground (arith, live_rows-append u rows r)

none_live : (t : Tuple) (rows : List Row) → any (is_live_row t) rows ≡ false → live_rows t rows ≡ 0
unfolding live_rows filter any
none_live t [] h = refl
none_live t (r ∷ rs) h = ground (arith, none_live t rs)

new_row :
    (rev : Revision) (t u : Tuple)
    → live_rows u (record { tuple = t; created = rev; deleted = 0 } ∷ [])
      ≡ (if same_columns t u then 1 else 0)
unfolding live_rows filter is_live_row
new_row rev t u = ground arith

pub same_columns-eq : (t u : Tuple) → same_columns t u ≡ true → t ≡ u
unfolding same_columns
same_columns-eq t u h = ground (
  arith,
  eq_object_iff t.object u.object,
  eq_str_iff t.relation u.relation,
  eq_subject_iff t.subject u.subject,
)

insert-IsUnique :
    (rev : Revision) (t : Tuple) (rows : List Row)
    → IsUnique rows
    → IsUnique (insert_tuple rev t rows)
unfolding insert_tuple
insert-IsUnique rev t rows h u = elim (Bool-cases (any (is_live_row t) rows)) [
  | inl conflict ↦ rw (insert_tuple, conflict) (h u)
  | inr free ↦
      rw (insert_tuple, free, live_rows-append, new_row)
        (ground (arith, h u, same_columns-eq t u, none_live t rows free))
]

update_all-IsUnique :
    (rev : Revision) (ts : List Tuple) (rows : List Row)
    → IsUnique rows
    → IsUnique (update_all rev ts rows)
update_all-IsUnique rev [] rows h = h
update_all-IsUnique rev (t ∷ ts) rows h =
    update_all-IsUnique rev ts (update_deleted rev t rows)
      λ u. let fewer = update-fewer rev t u rows in let one = h u in omega (arith, fewer, one)

insert_all-IsUnique :
    (rev : Revision) (ts : List Tuple) (rows : List Row)
    → IsUnique rows
    → IsUnique (insert_all rev ts rows)
insert_all-IsUnique rev [] rows h = h
insert_all-IsUnique rev (t ∷ ts) rows h =
    insert_all-IsUnique rev ts (insert_tuple rev t rows) (insert-IsUnique rev t rows h)

abbrev pub HasUnique : View → Type 0
HasUnique v = IsUnique v.committed.tuples

module _ (add remove : List Tuple) (v v' : View) (h : HasUnique v) where
  from_before : v'.committed ≡ v.committed → HasUnique v'
  from_before same = subst (λ (t : Tables). IsUnique t.tuples) (sym same) h

  from_applied : (rev : Revision) → v'.committed ≡ applied rev add remove v.committed → HasUnique v'
  from_applied rev same =
      subst (λ (t : Tables). IsUnique t.tuples) (sym same)
        (insert_all-IsUnique rev add (update_all rev remove v.committed.tuples)
          (update_all-IsUnique rev remove v.committed.tuples h))

  Landed-HasUnique : (r : Result WriteError Revision) → Landed add remove v r v' → HasUnique v'
  Landed-HasUnique (ok rev) (new, same, id) = from_applied rev same
  Landed-HasUnique (err (bare e)) (id, inl same) = from_before same
  Landed-HasUnique (err (bare e)) (id, inr same) = from_applied (suc v.last_id) same
  Landed-HasUnique (err (allocate_failed e)) (id, same) = from_before same
  Landed-HasUnique (err (remove_failed t e)) (id, same) = from_before same
  Landed-HasUnique (err (add_failed t e)) (id, same) = from_before same

-- Over a database that behaves as documented, with no transaction open: if the tables hold at most one
-- live row for each relationship, they do so after Write, whatever it adds and removes, and after
-- Migrate, whether these fail or not.
pub write-HasUnique :
    {World : Type 0} (db : Database World) (view : World → View)
    → IsDatabase db view
    → (add remove : List Tuple) (w : World) → (view w).pending ≡ none
    → HasUnique (view w)
    → HasUnique (view (write db add remove w).1) × HasUnique (view (migrate db w).1)
unfolding migrate
write-HasUnique db view laws add remove w idle h = (
  Landed-HasUnique add remove (view w) (view (write db add remove w).1) h (write db add remove w).0
      (write-Settled db view laws add remove w idle).1,
  subst HasUnique (sym (laws.migrates w)) h,
)
