-- ===== src/Tests/Server.antt =====
-- The process: what it starts with, a few requests, and the statuses of its refusals.
use zanzo.Base.{
  ◌≡◌, ◌≢◌, ◌⊎◌, if◌then◌else◌, refl, false, none, some, List, [], ◌∷◌, Str, codes, ok, err, eq_str,
  str_eq, nat_eq,
}
use zanzo.Errors.{store_failure}
use zanzo.Schema.Types.{Relation, Rewrite, lookup}
use zanzo.Schema.Parser.{SyntaxError}
use zanzo.Schema.Validate.{parse}
use zanzo.Schema.Validate.Closed.{Refers, Resolves}
use zanzo.Storage.Memory.{new_memory}
use zanzo.Check.Cache.{new_revision_keyed}
use zanzo.Stats.{new_stats}
use zanzo.Api.Statuses.Reasons.{IsContext}
use zanzo.Api.Statuses.{ExplainsChecks, ExplainsExpansions, ExplainsWrites, handlers-Explained}
use zanzo.Api.Server.{
  Process, Incoming, Decoders, plain_error, serve, dispatch, route, route_of, when, is_get,
}
use zanzo.Cmd.{
  World, Options, Setup, Loaded, in_memory, configure, parse_schema_failed, configure-Loads,
}
use zanzo.Tests.Data.{sample, sample_schema}
use zanzo.Tests.Check.{quiet, empty_cache}

abbrev nothing_decodes : Decoders
nothing_decodes = record {
  check = λ s. none;
  write = λ s. none;
  list = λ s. none;
  expand = λ s. none;
}

abbrev incoming : Str → Str → Incoming
incoming method path = record {
  method = method;
  path = path;
  body = [];
  ctx = quiet;
  contexts = λ n. quiet;
  elapsed = 7;
}

abbrev fresh_process : Process
fresh_process = record { memory = new_memory; cache = empty_cache; stats = new_stats }

abbrev requests : List Incoming
requests =
    incoming (codes "POST") (codes "/v1/check")
    ∷ incoming (codes "GET") (codes "/healthz")
    ∷ incoming (codes "GET") (codes "/v1/check")
    ∷ []

-- a GET of a POST route is refused by the mux, and the health route takes a HEAD
wrong_method :
    ((serve sample_schema 32 nothing_decodes
        (incoming (codes "GET") (codes "/v1/check"))
        fresh_process).0
      ≡ plain_error 405)
    × ((serve sample_schema 32 nothing_decodes
          (incoming (codes "GET") (codes "/nowhere"))
          fresh_process).0
        ≡ plain_error 404)
unfolding serve dispatch route route_of when is_get eq_str
wrong_method = (refl, refl)

quiet-IsContext : IsContext quiet
quiet-IsContext i x h = absurd (cc)

handlers-Explained_example :
    ExplainsChecks sample_schema 32 sample quiet
    × ExplainsExpansions sample_schema 32 sample quiet
    × ExplainsWrites sample_schema 32 sample quiet
handlers-Explained_example = handlers-Explained sample_schema 32 sample quiet quiet-IsContext

-- one file, and no database
abbrev disk : World (Unit {0})
disk = record {
  read_file = λ path.
      if eq_str path (codes "s.zanzo")
      then ok (codes "definition user {}")
      else err (store_failure []);
  open_db = λ dsn. err (store_failure []);
  migrate = λ db. ok tt;
}

abbrev flags : Options
flags = record { dsn = []; schema_path = codes "s.zanzo"; no_cache = false }

configure-Loads_example :
    ((setup : Setup (Unit {0}))
      → configure disk flags ≡ ok setup
      → Loaded disk flags setup.schema
        × ((type r : Str) (rel : Relation) (rw : Rewrite)
            → lookup setup.schema type r ≡ ok rel
            → rel.rewrite ≡ some rw
            → Refers (Resolves setup.schema type) rw)
        × (setup.stats ≡ new_stats)
        × ((setup.cache ≡ none) ⊎ (setup.cache ≡ some new_revision_keyed))
        × (flags.dsn ≡ [] → setup.store ≡ in_memory new_memory))
    × ((src : Str) (e : SyntaxError)
        → flags.schema_path ≢ []
        → disk.read_file flags.schema_path ≡ ok src
        → parse src ≡ err e
        → configure disk flags ≡ err (parse_schema_failed e))
configure-Loads_example = configure-Loads disk flags
