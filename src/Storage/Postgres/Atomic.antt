-- ===== src/Storage/Postgres/Atomic.antt =====
-- Write of the Postgres store lands as a whole or not at all, and leaves no transaction open.
use zanzo.Base.{
  suc, ◌≤◌, ◌≡◌, ◌⊎◌, inl, refl, sym, ap, subst, none, some, List, ◌∷◌, arith, Result, ok, err,
}
use zanzo.Errors.{Outcome}
use zanzo.Storage.Types.{Tuple, Revision}
use zanzo.Storage.Postgres.Table.{Tables}
use zanzo.Storage.Postgres.Sql.{Database, View, IsDatabase, Begun, Allocated, Committed, Failed}
use zanzo.Storage.Postgres.{
  WriteError, bare, allocate_failed, remove_failed, add_failed, Call, proceed, wrapped, remove_all,
  add_all, commit_write, transaction, rolled_back, pure, write,
}
use zanzo.Storage.Postgres.Steps.{
  update_all, applied, IsWrapped, During, IsAt, remove_all-During, add_all-During,
}

-- What Write has done when it returns, as other sessions see it. An error that is wrapped left the
-- tables alone; a bare one, of Begin or of Commit, left them alone or with all of the write.
abbrev pub Landed : List Tuple → List Tuple → View → Result WriteError Revision → View → Type 0
Landed add remove v (ok rev) v' =
    (rev ≡ suc v.last_id) × (v'.committed ≡ applied rev add remove v.committed) × (v'.last_id ≡ rev)
Landed add remove v (err (bare e)) v' =
    (v.last_id ≤ v'.last_id)
    × ((v'.committed ≡ v.committed)
        ⊎ (v'.committed ≡ applied (suc v.last_id) add remove v.committed))
Landed add remove v (err e) v' = (v.last_id ≤ v'.last_id) × (v'.committed ≡ v.committed)

module _ (add remove : List Tuple) (v v' : View) where
  Landed-Failed : (e : WriteError) → IsWrapped e → Failed v v' → Landed add remove v (err e) v'
  Landed-Failed (bare e) known h = absurd known
  Landed-Failed (allocate_failed e) known h = (h.1, h.0)
  Landed-Failed (remove_failed t e) known h = (h.1, h.0)
  Landed-Failed (add_failed t e) known h = (h.1, h.0)

-- a closed transaction
abbrev pub Settled : List Tuple → List Tuple → View → Result WriteError Revision → View → Type 0
Settled add remove v r v' = (v'.pending ≡ none) × Landed add remove v r v'

module _ {World : Type 0} (db : Database World) (view : World → View) (laws : IsDatabase db view)
    (add remove : List Tuple) (v : View) where
  -- the view after an id was given out
  abbrev numbered : Revision → View
  numbered rev = record v { last_id = rev }

  proceed-Landed :
      {A : Type 0} (next : A → Call db Revision) (rev : Revision) (t : Tables)
      (r : Result WriteError A) (w : World)
      → rev ≡ suc v.last_id
      → During (numbered rev) t r (view w)
      → ((a : A) (w' : World)
          → IsAt db view laws (numbered rev) t w'
          → Landed add remove v (next a w').0 (view (next a w').1))
      → let m = proceed db next (r, w) in Landed add remove v m.0 (view m.1)
  proceed-Landed next rev t (ok a) w new h go = go a w h
  proceed-Landed next rev t (err e) w new h go =
      Landed-Failed add remove v (view w) e h.1 (h.0.0, omega (arith, h.0.1))

  outcome-Landed :
      (rev : Revision) (r : Outcome (Unit {0})) (w' : World)
      → rev ≡ suc v.last_id
      → Committed
          (record (numbered rev) { pending = some (applied rev add remove v.committed) })
          (applied rev add remove v.committed)
          r
          (view w')
      → let m = proceed db (λ u. pure db rev) (wrapped db bare (r, w')) in
        Landed add remove v m.0 (view m.1)
  outcome-Landed rev (ok u) w' new h = (new, ap (λ x. x.committed) h, ap (λ x. x.last_id) h)
  outcome-Landed rev (err e) w' new h = (
    omega (arith, h.1),
    subst
        (λ n.
          (((view w').committed ≡ v.committed)
            ⊎ ((view w').committed ≡ applied n add remove v.committed)))
        new h.0,
  )

  commit-Landed :
      (rev : Revision) (w : World)
      → rev ≡ suc v.last_id
      → IsAt db view laws (numbered rev) (applied rev add remove v.committed) w
      → let m = commit_write db rev w in Landed add remove v m.0 (view m.1)
  commit-Landed rev w new at_end =
      let t = applied rev add remove v.committed in
      outcome-Landed rev (db.commit w).0 (db.commit w).1 new (
        subst (λ x. Committed x t (db.commit w).0 (view (db.commit w).1)) at_end
          (laws.commits w t (ap (λ x. x.pending) at_end)))

  body-Landed :
      (rev : Revision) (w : World)
      → rev ≡ suc v.last_id
      → IsAt db view laws
          (numbered rev)
          (record v.committed { revisions = rev ∷ v.committed.revisions })
          w
      → let m =
          proceed db
            (λ u w2. proceed db (λ u. commit_write db rev) (add_all db rev add w2))
            (remove_all db rev remove w) in
        Landed add remove v m.0 (view m.1)
  body-Landed rev w new at_start =
      let t : Tables = record v.committed { revisions = rev ∷ v.committed.revisions } in
      let t1 : Tables = record t { tuples = update_all rev remove t.tuples } in
      let removed = remove_all db rev remove w in
      proceed-Landed (λ u w2. proceed db (λ u. commit_write db rev) (add_all db rev add w2)) rev t1
        removed.0 removed.1 new
        (remove_all-During db view laws rev remove (numbered rev) t w at_start)
        (λ u w2 at_mid.
          let added = add_all db rev add w2 in
          proceed-Landed (λ u. commit_write db rev) rev (applied rev add remove v.committed) added.0
            added.1 new (add_all-During db view laws rev add (numbered rev) t1 w2 at_mid)
            (λ u w3 at_end. commit-Landed rev w3 new at_end))

  Allocated-Landed :
      (r : Outcome Revision) (w : World)
      → Allocated (record v { pending = some v.committed }) v.committed r (view w)
      → let m =
          proceed db
            (λ rev w1.
              proceed db
                (λ u w2. proceed db (λ u. commit_write db rev) (add_all db rev add w2))
                (remove_all db rev remove w1))
            (wrapped db allocate_failed (r, w)) in
        Landed add remove v m.0 (view m.1)
  Allocated-Landed (ok rev) w h = body-Landed rev w h.0 h.1
  Allocated-Landed (err e) w h = (h.1, h.0)

  transaction-Landed :
      (w : World)
      → view w ≡ record v { pending = some v.committed }
      → let m = transaction db add remove w in Landed add remove v m.0 (view m.1)
  unfolding transaction
  transaction-Landed w began = Allocated-Landed (db.insert_revision w).0 (db.insert_revision w).1 (
      subst (λ x. Allocated x v.committed (db.insert_revision w).0 (view (db.insert_revision w).1))
        began (laws.allocates w v.committed (ap (λ x. x.pending) began)))

  Landed-closed :
      (r : Result WriteError Revision) (a : View)
      → Landed add remove v r a
      → Landed add remove v r (record a { pending = none })
  Landed-closed (ok rev) a h = h
  Landed-closed (err (bare e)) a h = h
  Landed-closed (err (allocate_failed e)) a h = h
  Landed-closed (err (remove_failed t e)) a h = h
  Landed-closed (err (add_failed t e)) a h = h

  Begun-Settled :
      (r : Outcome (Unit {0})) (w : World)
      → v.pending ≡ none
      → Begun v r (view w)
      → let m =
          proceed db
            (λ u w1. rolled_back db (transaction db add remove w1))
            (wrapped db bare (r, w)) in
        Settled add remove v m.0 (view m.1)
  Begun-Settled (ok u) w idle h =
      let m = transaction db add remove w in
      subst (λ x. Settled add remove v m.0 x) (sym (laws.rolls_back m.1))
        (refl, Landed-closed m.0 (view m.1) (transaction-Landed w h))
  Begun-Settled (err e) w idle h =
      subst (λ x. Settled add remove v (err (bare e)) x) (sym h) (idle, (omega arith, inl refl))

-- Over a database that behaves as documented, with no transaction open and no other session in
-- between, Write returns with no transaction open. If it returns a revision, that is the next id of
-- the sequence, and the tables hold the removals and the additions, all at that revision. If it
-- returns an error that names the step, the tables are as before; after any other error they are as
-- before or hold the whole write. The sequence never moves back.
pub write-Settled :
    {World : Type 0} (db : Database World) (view : World → View)
    → IsDatabase db view
    → (add remove : List Tuple) (w : World) → (view w).pending ≡ none
    → let (r, w') = write db add remove w in Settled add remove (view w) r (view w')
unfolding write
write-Settled db view laws add remove w idle =
    Begun-Settled db view laws add remove (view w) (db.begin_tx w).0 (db.begin_tx w).1 idle
      (laws.begins w idle)
