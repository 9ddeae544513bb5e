-- ===== src/Storage/Postgres.antt =====
-- internal/storage/postgres.go: the methods of the Postgres store, over the database that it is given.
pub mod Table
pub mod Sql
pub mod Steps
pub mod Atomic
pub mod Reads
pub mod SameRows
pub mod InStep
pub mod Late
pub mod Unique
use zanzo.Base.{Option, none, some, List, [], ◌∷◌, Str, Result, ok, err}
use zanzo.Errors.{Error, Outcome}
use zanzo.Storage.Types.{Object, Subject, Tuple, Revision}
use zanzo.Storage.Postgres.Table.{Columns}
use zanzo.Storage.Postgres.Sql.{Database, Cursor, mark_deleted, add_row, by_object, by_subject}

-- What Write returns: an error of the database, or one that is wrapped with the step that failed.
pub data WriteError : Type 0 where
  bare : Error → WriteError
  allocate_failed : Error → WriteError
  remove_failed add_failed : Tuple → Error → WriteError

module _ {World : Type 0} (db : Database World) where
  abbrev pub Call : Type 0 → Type 0
  Call A = World → Result WriteError A × World

  abbrev pub pure : {A : Type 0} → A → Call A
  pure a w = (ok a, w)

  abbrev pub proceed :
      {A B : Type 0} → (A → Call B) → Result WriteError A × World → Result WriteError B × World
  proceed next (ok a, w) = next a w
  proceed next (err e, w) = (err e, w)

  abbrev pub wrapped :
      {A : Type 0} → (Error → WriteError) → Outcome A × World → Result WriteError A × World
  wrapped f (ok a, w) = (ok a, w)
  wrapped f (err e, w) = (err (f e), w)

  -- for _, t := range remove
  unfoldable pub remove_all : Revision → List Tuple → Call (Unit {0})
  remove_all rev [] w = (ok tt, w)
  remove_all rev (t ∷ ts) w =
      proceed (λ u. remove_all rev ts) (wrapped (remove_failed t) (db.exec (mark_deleted rev t) w))

  -- for _, t := range add
  unfoldable pub add_all : Revision → List Tuple → Call (Unit {0})
  add_all rev [] w = (ok tt, w)
  add_all rev (t ∷ ts) w =
      proceed (λ u. add_all rev ts) (wrapped (add_failed t) (db.exec (add_row rev t) w))

  abbrev pub commit_write : Revision → Call Revision
  commit_write rev w = proceed (λ u. pure rev) (wrapped bare (db.commit w))

  -- from the INSERT of a revision to the return
  unfoldable pub transaction : List Tuple → List Tuple → Call Revision
  transaction add remove w =
      proceed
        (λ rev w1.
          proceed (λ u w2. proceed (λ u. commit_write rev) (add_all rev add w2))
            (remove_all rev remove w1))
        (wrapped allocate_failed (db.insert_revision w))

  -- defer func() { _ = tx.Rollback() }()
  abbrev pub rolled_back : {A : Type 0} → Result WriteError A × World → Result WriteError A × World
  rolled_back (r, w) = (r, db.rollback w)

  -- func (p *Postgres) Write
  unfoldable pub write : List Tuple → List Tuple → Call Revision
  write add remove w =
      proceed (λ u w1. rolled_back (transaction add remove w1)) (wrapped bare (db.begin_tx w))

  -- func (p *Postgres) Migrate
  unfoldable pub migrate : World → Outcome (Unit {0}) × World
  migrate w = db.exec_schema w

  -- func (p *Postgres) Head: 0 for NULL
  abbrev pub valid_or_zero : Outcome (Option Revision) → Outcome Revision
  valid_or_zero (err e) = err e
  valid_or_zero (ok none) = ok 0
  valid_or_zero (ok (some rev)) = ok rev

  unfoldable pub head : World → Outcome Revision
  head w = valid_or_zero (db.select_max w)

  -- for rows.Next() { rows.Scan(...) ... }
  unfoldable pub scan_all : (Columns → Tuple) → List (Outcome Columns) → Outcome (List Tuple)
  scan_all f [] = ok []
  scan_all f (err e ∷ rest) = err e
  scan_all f (ok c ∷ rest) = elim (scan_all f rest) [ ok out ↦ ok (f c ∷ out) | err e ↦ err e ]

  -- return out, rows.Err()
  abbrev pub unless_failed : Option Error → Outcome (List Tuple) → Outcome (List Tuple)
  unless_failed none r = r
  unless_failed (some e) (ok out) = err e
  unless_failed (some e) (err e') = err e'

  abbrev pub collect : (Columns → Tuple) → Outcome Cursor → Outcome (List Tuple)
  collect f (err e) = err e
  collect f (ok c) = unless_failed c.failure (scan_all f c.scanned)

  abbrev pub of_subject : Object → Str → Columns → Tuple
  of_subject o relation c = record {
    object = o;
    relation = relation;
    subject = record { object = record { type = c.first; id = c.second }; relation = c.third };
  }

  abbrev pub of_object : Subject → Columns → Tuple
  of_object s c = record {
    object = record { type = c.first; id = c.second };
    relation = c.third;
    subject = s;
  }

  -- func (p *Postgres) Read
  unfoldable pub read : Revision → Object → Str → World → Outcome (List Tuple)
  read rev o relation w = collect (of_subject o relation) (db.query (by_object rev o relation) w)

  -- func (p *Postgres) ReadBySubject
  unfoldable pub read_by_subject : Revision → Subject → Str → World → Outcome (List Tuple)
  read_by_subject rev s relation w = collect (of_object s) (db.query (by_subject rev s relation) w)
