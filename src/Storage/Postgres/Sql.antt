-- ===== src/Storage/Postgres/Sql.antt =====
-- internal/storage/postgres.go: what the store uses of database/sql, as an interface, and what it
-- relies on. One session is described: between the calls that are modelled no other session commits.
use mathlib.Core.List.{Perm}
use zanzo.Base.{ℕ, suc, ◌≤◌, ◌≡◌, ◌⊎◌, Option, none, some, List, [], ◌∷◌, Str, ok, err}
use zanzo.Errors.{Error, Outcome}
use zanzo.Storage.Types.{Object, Subject, Tuple, Revision}
use zanzo.Storage.Memory.{Row}
use zanzo.Storage.Postgres.Table.{
  Tables, Columns, update_deleted, insert_tuple, max_id, select_subjects, select_objects,
}

-- The statements of a write, with their arguments.
pub data Statement : Type 0 where
  mark_deleted : Revision → Tuple → Statement
  add_row : Revision → Tuple → Statement

pub data Query : Type 0 where
  by_object : Revision → Object → Str → Query
  by_subject : Revision → Subject → Str → Query

-- *sql.Rows: what Scan gives for each row that Next delivers, and what Err gives at the end.
pub record Cursor : Type 0 where
  pub scanned : List (Outcome Columns)
  pub failure : Option Error

-- *sql.DB with at most one open *sql.Tx. A method changes the state of the world also when it fails.
pub record Database (World : Type 0) : Type 0 where
  pub exec_schema : World → Outcome (Unit {0}) × World
  pub begin_tx : World → Outcome (Unit {0}) × World
  pub insert_revision : World → Outcome Revision × World
  pub exec : Statement → World → Outcome (Unit {0}) × World
  pub commit : World → Outcome (Unit {0}) × World
  pub rollback : World → World
  pub select_max : World → Outcome (Option Revision)
  pub query : Query → World → Outcome Cursor

-- What other sessions see, what the open transaction has made of it, and the last id that the
-- sequence of `revisions` gave out, which a rollback does not take back.
pub record View : Type 0 where
  pub committed : Tables
  pub pending : Option Tables
  pub last_id : ℕ

abbrev pub executed : Statement → List Row → List Row
executed (mark_deleted rev t) rows = update_deleted rev t rows
executed (add_row rev t) rows = insert_tuple rev t rows

abbrev pub selected : Query → List Row → List Columns
selected (by_object rev o relation) rows = select_subjects rev o relation rows
selected (by_subject rev s relation) rows = select_objects rev s relation rows

-- A call that failed: other sessions see what they saw.
abbrev pub Failed : View → View → Type 0
Failed v v' = (v'.committed ≡ v.committed) × (v.last_id ≤ v'.last_id)

abbrev pub Begun : View → Outcome (Unit {0}) → View → Type 0
Begun v (ok u) v' = v' ≡ record v { pending = some v.committed }
Begun v (err e) v' = v' ≡ v

-- the next id of the sequence, and its row in the transaction
abbrev pub Allocated : View → Tables → Outcome Revision → View → Type 0
Allocated v t (ok rev) v' =
    (rev ≡ suc v.last_id)
    × (v' ≡ record v { pending = some (record t { revisions = rev ∷ t.revisions }); last_id = rev })
Allocated v t (err e) v' = Failed v v'

abbrev pub Executed : Statement → View → Tables → Outcome (Unit {0}) → View → Type 0
Executed st v t (ok u) v' =
    v' ≡ record v { pending = some (record t { tuples = executed st t.tuples }) }
Executed st v t (err e) v' = Failed v v'

-- After an error of Commit, the transaction took effect or it did not.
abbrev pub Committed : View → Tables → Outcome (Unit {0}) → View → Type 0
Committed v t (ok u) v' = v' ≡ record v { committed = t; pending = none }
Committed v t (err e) v' =
    ((v'.committed ≡ v.committed) ⊎ (v'.committed ≡ t)) × (v'.last_id ≡ v.last_id)

-- The rows come in any order. A Scan that succeeds gives the row that was delivered.
abbrev pub Delivers : List (Outcome Columns) → List Columns → Type 0
Delivers [] [] = Unit
Delivers (ok c ∷ fs) (d ∷ ds) = (c ≡ d) × Delivers fs ds
Delivers (err e ∷ fs) (d ∷ ds) = Delivers fs ds
Delivers _ _ = ⊥

-- Every row is delivered, unless Err tells that the iteration broke off.
abbrev pub Answers : Query → View → Outcome Cursor → Type 0
Answers q v (err e) = Unit
Answers q v (ok c) =
    c.failure ≡ none
    → (ds : List Columns) × Perm ds (selected q v.committed.tuples) × Delivers c.scanned ds

abbrev pub Counts : View → Outcome (Option Revision) → Type 0
Counts v (err e) = Unit
Counts v (ok n) = n ≡ max_id v.committed.revisions

-- The documented behaviour of the database, through what can be seen of the world.
pub record IsDatabase {World : Type 0} (db : Database World) (view : World → View) : Type 0 where
  -- CREATE ... IF NOT EXISTS, where the tables are there
  pub migrates : (w : World) → view (db.exec_schema w).1 ≡ view w
  pub begins :
      (w : World)
      → (view w).pending ≡ none
      → Begun (view w) (db.begin_tx w).0 (view (db.begin_tx w).1)
  pub allocates :
      (w : World) (t : Tables)
      → (view w).pending ≡ some t
      → Allocated (view w) t (db.insert_revision w).0 (view (db.insert_revision w).1)
  pub executes :
      (st : Statement) (w : World) (t : Tables)
      → (view w).pending ≡ some t
      → Executed st (view w) t (db.exec st w).0 (view (db.exec st w).1)
  pub commits :
      (w : World) (t : Tables)
      → (view w).pending ≡ some t
      → Committed (view w) t (db.commit w).0 (view (db.commit w).1)
  pub rolls_back : (w : World) → view (db.rollback w) ≡ record (view w) { pending = none }
  pub counts : (w : World) → Counts (view w) (db.select_max w)
  pub answers : (q : Query) (w : World) → Answers q (view w) (db.query q w)
