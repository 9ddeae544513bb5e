-- ===== src/Cmd.antt =====
-- cmd/zanzo/main.go: what main sets up before it listens, or why it stops. The environment, the file
-- system and the driver are parameters.
use zanzo.Base.{
  ◌≡◌, ◌≢◌, refl, sym, ◌∙◌, ap, Bool, true, false, Option, none, some, [], ◌∷◌, Str, codes, eq_str,
  if◌then◌else◌, Result, ok, err, ok_inj, ◌>>=◌, >>=-eq-ok, inl, inr, ◌⊎◌, subst,
}
use zanzo.Errors.{Error, Outcome}
use zanzo.Storage.Memory.{Memory, new_memory}
use zanzo.Schema.Types.{Schema, Relation, Rewrite, lookup}
use zanzo.Schema.Parser.{SyntaxError}
use zanzo.Schema.Validate.{parse}
use zanzo.Schema.Validate.Closed.{Refers, Resolves, parse-Resolves}
use zanzo.Check.Cache.{Cache, new_revision_keyed}
use zanzo.Stats.{Stats, new_stats}

-- the flags
pub record Options : Type 0 where
  pub dsn : Str
  pub schema_path : Str
  pub no_cache : Bool

-- Why log.Fatal is called.
pub data Fatal : Type 0 where
  schema_required : Fatal
  read_schema_failed : Error → Fatal
  parse_schema_failed : SyntaxError → Fatal
  open_postgres_failed : Error → Fatal
  migrate_failed : Error → Fatal

-- The store that was chosen, with the database of the Postgres store.
pub data Chosen (Db : Type 0) : Type 0 where
  in_memory : Memory → Chosen Db
  in_postgres : Db → Chosen Db

-- What main serves with.
pub record Setup (Db : Type 0) : Type 0 where
  pub schema : Schema
  pub store : Chosen Db
  pub cache : Option Cache
  pub stats : Stats

-- os.ReadFile, sql.Open with the limits of the pool, and the migration
pub record World (Db : Type 0) : Type 0 where
  pub read_file : Str → Outcome Str
  pub open_db : Str → Outcome Db
  pub migrate : Db → Outcome (Unit {0})

abbrev or_fatal : {E A : Type 0} → (E → Fatal) → Result E A → Result Fatal A
or_fatal f (ok a) = ok a
or_fatal f (err e) = err (f e)

-- func storeName(dsn string)
unfoldable pub store_name : Str → Str
store_name dsn = if eq_str dsn [] then codes "memory" else codes "postgres"

module _ {Db : Type 0} (world : World Db) where
  -- if *schemaPath == "" { ... } up to the parsed schema
  unfoldable pub load_schema : Str → Result Fatal Schema
  load_schema path = do
    given ← (if eq_str path [] then err schema_required else ok tt)
    src ← or_fatal read_schema_failed (world.read_file path)
    or_fatal parse_schema_failed (parse src)

  -- if *dsn == "" { ... } else { ... }
  unfoldable pub open_store : Str → Result Fatal (Chosen Db)
  open_store dsn = if eq_str dsn [] then ok (in_memory new_memory) else (do
    db ← or_fatal open_postgres_failed (world.open_db dsn)
    migrated ← or_fatal migrate_failed (world.migrate db)
    ok (in_postgres db))

  -- if !*noCache { engine.Cache = check.NewRevisionKeyed() }
  unfoldable pub choose_cache : Bool → Option Cache
  choose_cache no_cache = if no_cache then none else some new_revision_keyed

  abbrev with_schema : Options → Schema → Result Fatal (Setup Db)
  with_schema options schema = do
    store ← open_store options.dsn
    ok (record {
      schema = schema;
      store = store;
      cache = choose_cache options.no_cache;
      stats = new_stats;
    })

  -- func main(), up to the server
  unfoldable pub configure : Options → Result Fatal (Setup Db)
  configure options = do schema ← load_schema options.schema_path; with_schema options schema

-- How the schema was loaded.
pub record Loaded {Db : Type 0} (world : World Db) (options : Options) (schema : Schema)
    : Type 0 where
  pub source : Str
  pub named : options.schema_path ≢ []
  pub was_read : world.read_file options.schema_path ≡ ok source
  pub was_parsed : parse source ≡ ok schema

or_fatal-ok :
    {E A : Type 0} (f : E → Fatal) (r : Result E A) (a : A) → or_fatal f r ≡ ok a → r ≡ ok a
or_fatal-ok f (ok b) a h = ap ok (ok_inj h)
or_fatal-ok f (err e) a h = absurd (cc)

not_empty : (s : Str) → s ≢ [] → eq_str s [] ≡ false
unfolding eq_str
not_empty [] h = absurd (h refl)
not_empty (a ∷ s) h = refl

module _ {Db : Type 0} (world : World Db) (options : Options) where
  path_given :
      (path : Str) (u : Unit {0})
      → ◌≡◌ {A = Result Fatal (Unit {0})}
          (if eq_str path [] then err schema_required else ok tt)
          (ok u)
      → path ≢ []
  unfolding eq_str
  path_given [] u h = absurd (cc)
  path_given (a ∷ path) u h = λ e. cc e

  load_schema-Loaded :
      (schema : Schema)
      → load_schema world options.schema_path ≡ ok schema
      → Loaded world options schema
  unfolding load_schema
  load_schema-Loaded schema h =
      let path = options.schema_path in
      let (u, given, h1) = >>=-eq-ok (if eq_str path [] then err schema_required else ok tt) _ h in
      let (src, was_read, h2) =
        >>=-eq-ok (or_fatal read_schema_failed (world.read_file path)) _ h1 in
      record {
        source = src;
        named = path_given path u given;
        was_read = or_fatal-ok read_schema_failed (world.read_file path) src was_read;
        was_parsed = or_fatal-ok parse_schema_failed (parse src) schema h2;
      }

  load_schema-fails :
      (src : Str) (e : SyntaxError)
      → options.schema_path ≢ []
      → world.read_file options.schema_path ≡ ok src
      → parse src ≡ err e
      → load_schema world options.schema_path ≡ err (parse_schema_failed e)
  unfolding load_schema
  load_schema-fails src e named was_read failed =
      rw (not_empty options.schema_path named, was_read, failed) refl

module _ {Db : Type 0} (world : World Db) where
  cache-choice :
      (no_cache : Bool) (cache : Option Cache)
      → cache ≡ choose_cache world no_cache
      → (cache ≡ none) ⊎ (cache ≡ some new_revision_keyed)
  unfolding choose_cache
  cache-choice true cache e = inl e
  cache-choice false cache e = inr e

  fresh_store :
      (dsn : Str) (store : Chosen Db)
      → dsn ≡ []
      → open_store world dsn ≡ ok store
      → store ≡ in_memory new_memory
  unfolding open_store eq_str
  fresh_store dsn store no_dsn h = sym (ok_inj (rw no_dsn at h))

-- The process serves only with the schema of its file, in which every reference of a permission to its
-- own type resolves, and if that does not parse it stops with the error of the parser. What it serves
-- with is fresh: no statistics, no cache or an empty revision-keyed one, and with no DSN an empty
-- in-process store.
pub configure-Loads :
    {Db : Type 0} (world : World Db) (options : Options)
    → ((setup : Setup Db)
        → configure world options ≡ ok setup
        → Loaded world options setup.schema
          × ((type r : Str) (rel : Relation) (rw : Rewrite)
              → lookup setup.schema type r ≡ ok rel
              → rel.rewrite ≡ some rw
              → Refers (Resolves setup.schema type) rw)
          × (setup.stats ≡ new_stats)
          × ((setup.cache ≡ none) ⊎ (setup.cache ≡ some new_revision_keyed))
          × (options.dsn ≡ [] → setup.store ≡ in_memory new_memory))
      × ((src : Str) (e : SyntaxError)
          → options.schema_path ≢ []
          → world.read_file options.schema_path ≡ ok src
          → parse src ≡ err e
          → configure world options ≡ err (parse_schema_failed e))
unfolding configure
configure-Loads {Db} world options = (
  λ setup h.
      let (schema, loaded, h1) = >>=-eq-ok (load_schema world options.schema_path) _ h in
      let (store, opened, h2) = >>=-eq-ok (open_store world options.dsn) _ h1 in
      let made = ok_inj h2 in
      let l =
        subst (Loaded world options) (ap (λ (s : Setup Db). s.schema) made)
          (load_schema-Loaded world options schema loaded) in
      (
        l,
        λ type r rel w found given.
            parse-Resolves l.source setup.schema type r rel w l.was_parsed found given,
        sym (ap (λ (s : Setup Db). s.stats) made),
        cache-choice world options.no_cache setup.cache (sym (ap (λ (s : Setup Db). s.cache) made)),
        λ no_dsn.
            sym (ap (λ (s : Setup Db). s.store) made)
            ∙ fresh_store world options.dsn store no_dsn opened,
      ),
  λ src e named was_read failed.
      ap (λ (r : Result Fatal Schema). r >>= λ schema. with_schema world options schema)
        (load_schema-fails world options src e named was_read failed),
)
