-- ===== src/Storage/Postgres/Steps.antt =====
-- The parts of a write of the Postgres store, inside its transaction.
use zanzo.Base.{◌≡◌, ap, subst, some, List, [], ◌∷◌, Result, ok, err}
use zanzo.Errors.{Error, Outcome}
use zanzo.Storage.Types.{Tuple, Revision}
use zanzo.Storage.Memory.{Row}
use zanzo.Storage.Postgres.Table.{Tables, update_deleted, insert_tuple}
use zanzo.Storage.Postgres.Sql.{
  Database, View, IsDatabase, Statement, mark_deleted, add_row, Executed, Failed, executed,
}
use zanzo.Storage.Postgres.{
  WriteError, bare, remove_failed, add_failed, Call, proceed, wrapped, remove_all, add_all,
}

abbrev pub update_all : Revision → List Tuple → List Row → List Row
update_all rev [] rows = rows
update_all rev (t ∷ ts) rows = update_all rev ts (update_deleted rev t rows)

abbrev pub insert_all : Revision → List Tuple → List Row → List Row
insert_all rev [] rows = rows
insert_all rev (t ∷ ts) rows = insert_all rev ts (insert_tuple rev t rows)

-- The tables after the removals, then the additions, at one revision.
abbrev pub applied : Revision → List Tuple → List Tuple → Tables → Tables
applied rev add remove t = record {
  revisions = rev ∷ t.revisions;
  tuples = insert_all rev add (update_all rev remove t.tuples);
}

-- The error names the step that failed, before Commit was called.
abbrev pub IsWrapped : WriteError → Type 0
IsWrapped (bare e) = ⊥
IsWrapped _ = Unit

-- A part of the transaction: its effect on the tables, or an error, which other sessions do not see.
abbrev pub During : {A : Type 0} → View → Tables → Result WriteError A → View → Type 0
During v t (ok a) v' = v' ≡ record v { pending = some t }
During v t (err e) v' = Failed v v' × IsWrapped e

module _ {World : Type 0} (db : Database World) (view : World → View)
    (laws : IsDatabase db view) where
  exec-During :
      (f : Error → WriteError) (st : Statement) (v : View) (t : Tables)
      → ((e : Error) → IsWrapped (f e))
      → (r : Outcome (Unit {0})) (w' : World) → Executed st v t r (view w')
      → During v
          (record t { tuples = executed st t.tuples })
          (wrapped db f (r, w')).0
          (view (wrapped db f (r, w')).1)
  exec-During f st v t known (ok u) w' h = h
  exec-During f st v t known (err e) w' h = (h, known e)

  -- the state of the world in the middle of a transaction
  abbrev pub IsAt : View → Tables → World → Type 0
  IsAt v t w = view w ≡ record v { pending = some t }

  proceed-During :
      {A B : Type 0} (next : A → Call db B) (v : View) (t t' : Tables) (r : Result WriteError A)
      (w : World)
      → During v t r (view w)
      → ((a : A) (w' : World) → IsAt v t w' → During v t' (next a w').0 (view (next a w').1))
      → During v t' (proceed db next (r, w)).0 (view (proceed db next (r, w)).1)
  proceed-During next v t t' (ok a) w h go = go a w h
  proceed-During next v t t' (err e) w h go = h

  step-During :
      (f : Error → WriteError) (st : Statement) (v : View) (t : Tables) (w : World)
      → ((e : Error) → IsWrapped (f e))
      → IsAt v t w
      → let r = wrapped db f (db.exec st w) in
        During v (record t { tuples = executed st t.tuples }) r.0 (view r.1)
  step-During f st v t w known at_t = exec-During f st v t known (db.exec st w).0 (db.exec st w).1 (
      subst (λ x. Executed st x t (db.exec st w).0 (view (db.exec st w).1)) at_t
        (laws.executes st w t (ap (λ x. x.pending) at_t)))

  pub remove_all-During :
      (rev : Revision) (ts : List Tuple) (v : View) (t : Tables) (w : World)
      → IsAt v t w
      → let r = remove_all db rev ts w in
        During v (record t { tuples = update_all rev ts t.tuples }) r.0 (view r.1)
  unfolding remove_all
  remove_all-During rev [] v t w at_t = at_t
  remove_all-During rev (x ∷ ts) v t w at_t =
      let t1 : Tables = record t { tuples = update_deleted rev x t.tuples } in
      let m = wrapped db (remove_failed x) (db.exec (mark_deleted rev x) w) in
      proceed-During (λ u. remove_all db rev ts) v t1
        (record t1 { tuples = update_all rev ts t1.tuples }) m.0 m.1
        (step-During (remove_failed x) (mark_deleted rev x) v t w (λ e. tt) at_t)
        (λ u w' at_1. remove_all-During rev ts v t1 w' at_1)

  pub add_all-During :
      (rev : Revision) (ts : List Tuple) (v : View) (t : Tables) (w : World)
      → IsAt v t w
      → let r = add_all db rev ts w in
        During v (record t { tuples = insert_all rev ts t.tuples }) r.0 (view r.1)
  unfolding add_all
  add_all-During rev [] v t w at_t = at_t
  add_all-During rev (x ∷ ts) v t w at_t =
      let t1 : Tables = record t { tuples = insert_tuple rev x t.tuples } in
      let m = wrapped db (add_failed x) (db.exec (add_row rev x) w) in
      proceed-During (λ u. add_all db rev ts) v t1
        (record t1 { tuples = insert_all rev ts t1.tuples }) m.0 m.1
        (step-During (add_failed x) (add_row rev x) v t w (λ e. tt) at_t)
        (λ u w' at_1. add_all-During rev ts v t1 w' at_1)
