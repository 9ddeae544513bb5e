-- ===== src/Service.antt =====
-- The running service: one in-process store and one shared cache, changed by writes and checks in
-- any order (cmd/zanzo/main.go wires them, internal/api/api.go calls them).
pub mod NewEnemy
use zanzo.Base.{ℕ, ◌+◌, ◌^◌, ◌≤◌, ◌<◌, ◌≡◌, Option, List, Str, ok}
use zanzo.Storage.Types.{Tuple, Revision}
use zanzo.Storage.Memory.{Memory, write}
use zanzo.Storage.Store.{memory_store}
use zanzo.Storage.Parse.RoundTrip.{IsSubject}
use zanzo.Schema.Types.{Schema}
use zanzo.Check.Cache.{Cache}
use zanzo.Check.Types.{Engine, Request, Context}
use zanzo.Check.Request.{pin, check_request}

pub record Service : Type 0 where
  pub memory : Memory
  pub cache : Option Cache

module _ (schema : Schema) (max_depth : ℕ) where
  abbrev pub engine : Memory → Engine
  engine m = record { schema = schema; store = memory_store m; max_depth = max_depth }

  -- A write of any tuples, below the last revision of a uint64; a check of any request whose subject
  -- has a text, under any context, pinned to a revision that exists.
  pub data Step (s : Service) : Service → Type 0 where
    writes :
        (add remove : List Tuple)
        → s.memory.head + 1 < 2 ^ 64
        → Step s (record s { memory = write add remove s.memory })
    checks :
        (ctx : Context) (req : Request) (rev : Revision)
        → IsSubject req.subject
        → pin (engine s.memory) req ≡ ok rev
        → rev ≤ s.memory.head
        → Step s (record s { cache = (check_request (engine s.memory) ctx s.cache req).1 })

  pub data Reach (s : Service) : Service → Type 0 where
    started : Reach s s
    then : {t u : Service} → Reach s t → Step t u → Reach s u
