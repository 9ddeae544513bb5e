-- ===== src/Service/NewEnemy.antt =====
-- No new enemy: in any order of writes and checks, an allow is backed by the tuples of the revision
-- that it was answered at, also where it comes from the cache.
use mathlib.Core.Path.{fun_ext}
use zanzo.Base.{
  [], ℕ, ◌+◌, ◌^◌, ◌≤◌, ◌<◌, ◌≡◌, sym, ap, subst, Bool, Option, some, arith, List, Str, ok, ok_inj,
  ◌∙◌,
}
use zanzo.Storage.Types.{Object, Subject, Tuple, Revision}
use zanzo.Storage.Memory.{Memory, new_memory, write}
use zanzo.Storage.Memory.Snapshot.{write-keeps_snapshots}
use zanzo.Storage.Memory.Written.{IsStored, IsStored-new, write-IsStored}
use zanzo.Storage.Store.{memory_store}
use zanzo.Storage.Parse.RoundTrip.{IsSubject}
use zanzo.Schema.Types.{Schema}
use zanzo.Check.Cache.{Cache, revision_keyed}
use zanzo.Check.Types.{Request, Context}
use zanzo.Check.Request.{pin, check_request}
use zanzo.Check.Body.Caches.{Property, IsCorrect, IsCorrect-laws, IsCorrect-imp, IsCorrect-new}
use zanzo.Check.Grants.{Reaches}
use zanzo.Check.Grants.Request.{IsBacked, BackedLaws, ResultBacked, check_pinned-IsBacked}
use zanzo.Service.{Service, engine, Step, writes, checks, Reach, started, then}

module _ (schema : Schema) (max_depth : ℕ) where
  -- The entry is of a revision that exists, and backed if it allows.
  abbrev pub IsPast : Memory → Property
  IsPast m s rev o r b = (rev ≤ m.head) × IsBacked (engine schema max_depth m) s rev o r b

  pub record IsSafe (s : Service) : Type 0 where
    pub stored : IsStored s.memory
    pub cached : IsCorrect (IsPast s.memory) s.cache

  same_reader :
      (add remove : List Tuple) (m : Memory)
      → IsStored m
      → m.head + 1 < 2 ^ 64
      → (rev : Revision) → rev ≤ m.head
      → (memory_store (write add remove m)).read rev ≡ (memory_store m).read rev
  same_reader add remove m h room rev old =
      fun_ext
        λ o. fun_ext λ r. ap ok ((write-keeps_snapshots add remove m h.indexed room rev old).0 o r)

  writes-IsPast :
      (add remove : List Tuple) (m : Memory)
      → IsStored m
      → m.head + 1 < 2 ^ 64
      → (s : Subject) (rev : Revision) (o : Object) (r : Str) (b : Bool) → IsPast m s rev o r b
      → IsPast (write add remove m) s rev o r b
  writes-IsPast add remove m h room s rev o r b (old, backed) =
      let moved = (write-IsStored add remove m h room).1 in
      (
        omega (arith, moved),
        λ allowed.
            subst (λ f. Reaches schema f s o r) (sym (same_reader add remove m h room rev old))
              (backed allowed),
      )

  past-laws :
      (m : Memory) (ctx : Context) (req : Request)
      → IsSubject req.subject
      → req.revision ≤ m.head
      → BackedLaws (engine schema max_depth m) ctx req (IsCorrect (IsPast m))
  past-laws m ctx req hs old =
      let laws = IsCorrect-laws (IsPast m) (engine schema max_depth m) ctx req hs in
      record {
        hit = λ c o r b g h. (laws.hit c o r b g h).1;
        set = λ c o r b g p. laws.set c o r b g (old, p);
      }

  check-backed :
      (s : Service) (ctx : Context) (req : Request) (rev : Revision)
      → IsSafe s
      → IsSubject req.subject
      → pin (engine schema max_depth s.memory) req ≡ ok rev
      → rev ≤ s.memory.head
      → ResultBacked
          (engine schema max_depth s.memory)
          req
          (check_request (engine schema max_depth s.memory) ctx s.cache req).0
        × IsCorrect
            (IsPast s.memory)
            (check_request (engine schema max_depth s.memory) ctx s.cache req).1
  check-backed s ctx req rev safe hs pinned old =
      check_pinned-IsBacked (engine schema max_depth s.memory) ctx s.cache req
        (IsCorrect (IsPast s.memory))
        (λ rev' p.
          past-laws s.memory ctx (record req { revision = rev' }) hs
            (subst (λ v. v ≤ s.memory.head) (ok_inj (sym pinned ∙ p)) old))
        safe.cached

  Step-IsSafe : {s t : Service} → Step schema max_depth s t → IsSafe s → IsSafe t
  Step-IsSafe {s} (writes add remove room) safe = record {
    stored = (write-IsStored add remove s.memory safe.stored room).0;
    cached = IsCorrect-imp (writes-IsPast add remove s.memory safe.stored room) s.cache safe.cached;
  }
  Step-IsSafe {s} (checks ctx req rev hs pinned old) safe = record {
    stored = safe.stored;
    cached = (check-backed s ctx req rev safe hs pinned old).1;
  }

  pub Reach-IsSafe : {s t : Service} → IsSafe s → Reach schema max_depth s t → IsSafe t
  Reach-IsSafe safe started = safe
  Reach-IsSafe safe (then r st) = Step-IsSafe st (Reach-IsSafe safe r)

abbrev pub fresh : Option Cache → Service
fresh cache = record { memory = new_memory; cache = cache }

-- From an empty store with an empty cache, after any writes and any checks of subjects that have a
-- text at revisions that exist: a check at a revision that exists, if it allows, is backed by a
-- finite chain of tuples that the store holds now at the revision of the result, whatever was
-- cached before. So a tuple that was removed by that revision backs nothing.
pub no_new_enemy :
    (schema : Schema) (max_depth : ℕ) (s : Service) (ctx : Context) (req : Request) (rev : Revision)
    → Reach schema max_depth (fresh (some (revision_keyed []))) s
    → IsSubject req.subject
    → pin (engine schema max_depth s.memory) req ≡ ok rev
    → rev ≤ s.memory.head
    → ResultBacked
        (engine schema max_depth s.memory)
        req
        (check_request (engine schema max_depth s.memory) ctx s.cache req).0
no_new_enemy schema max_depth s ctx req rev reach hs pinned old =
    (check-backed schema max_depth s ctx req rev (Reach-IsSafe schema max_depth start reach) hs
      pinned old).0
  where
    start : IsSafe schema max_depth (fresh (some (revision_keyed [])))
    start = record {
      stored = IsStored-new;
      cached = IsCorrect-new (IsPast schema max_depth new_memory);
    }
