-- ===== src/Lib.antt =====
-- zanzo, a relationship-based access control service in Go: a schema of object types, relations
-- and permissions, a versioned store of relation tuples, and an engine that decides whether a
-- subject has a permission on an object at one revision of the store.
--
-- The parts and their files:
--   Base: names shared by all files. Go strings are lists of bytes (Base.Text), Go maps are
--     association lists (Base.Maps), errors are the values of a result type (Base.Results, Errors).
--   Storage: internal/storage/storage.go. Storage.Types has Object, Subject and Tuple; Storage.Parse
--     has ParseObject and ParseSubject; Storage.Memory has the in-process store, whose Write, Read,
--     ReadBySubject and Head are `write`, `read`, `read_by_subject` and the field `head`. Each
--     method holds the mutex from start to end, so it is a function of the whole state.
--     Storage.Memory.Table is the table with no index that the store stands for. Storage.Store is
--     the interface through which the engine reads, Storage.Places the objects, relations and subjects
--     that their texts tell apart.
--   Schema: internal/schema/schema.go, the rewrites and Lookup (Schema.Types), and
--     internal/schema/parse.go: lex (Schema.Lexer), the parser as a state and error monad over the
--     tokens that are left (Schema.Parser), validate and Parse (Schema.Validate). Schema.Parser.Good
--     has the rules for parsers that leave the end of input in place, Schema.Parser.Grammar the grammar
--     of expressions. Schema.Reverse is
--     internal/schema/reverse.go, Contributors and WalksInto.
--   Check: internal/check/check.go and cache.go. Check.Engine has `check` and `eval` in a state and
--     error monad (Check.Monad) over the memo, the visiting marks, the counters and the shared
--     cache; Check.Request has the exported Check, as `check_request`, with the choice of the
--     revision. Check.Reference is the plain recursion that it is compared with, Check.Grants the
--     evidence that a subject reaches a relation through stored tuples. Check.Body has what holds
--     of one call of check for any invariant of its calls, and Check.Agreement, Check.Grants and
--     Check.Failure use it three times.
--     Check.ListObjects is internal/check/listobjects.go: `candidates` walks the reverse index level by
--     level, as the queue of the source does, and `verify` checks each candidate.
--     Check.Expand is internal/check/expand.go; Check.Expand.Admits has the reading of its tree as a set
--     of subjects.
--     Storage.Postgres is internal/storage/postgres.go over a database that is a parameter:
--     Storage.Postgres.Table has what its SQL statements do to the tables, Storage.Postgres.Sql the
--     calls of database/sql with their documented behaviour as laws, and Tests.Postgres a database that
--     meets the laws, with calls that fail.
--   Stats: the statistics of cmd/zanzo/main.go. Stats.Sort has sortDurations on a slice, Stats.Percentile
--     has pct with the rounding of float64, and Stats has observe and handler.
--   Service: the store and the cache of one process (cmd/zanzo/main.go wires them), as a step
--     relation of writes and checks in any order.
--   Api: internal/api/api.go. Api.Token has formatToken and parseToken, Api.Handlers the handlers of
--     check, write and list-objects, and Api.Expand that of expand, from the decoded body to the
--     response; Api.Server has the routes, statusWriter, instrument and the health handler, as one
--     function `serve` of a request and the state of the process. Api.Bodies says of which tuples, or
--     of which call, a body has the texts; Api.Fresh, Api.Statuses and Api.Server.Report have what
--     holds of the handlers together.
--   Cmd: cmd/zanzo/main.go up to the server, as `configure`, with files and the driver as parameters.
--   Tests: a schema, concrete stores, runs and instances of the results.
--
-- Bounds: a revision is a uint64, and `next_revision` wraps; results on writes ask that the head is
-- below the last revision. Offsets are ℕ. `check` recurs on fuel; `check_request` gives it two more
-- than the depth limit, and each call adds one to the depth, which is tested against the limit, so
-- the fuel is never used up; Expand does the same. The parser's loops recur on `parse_fuel`, three
-- for each token and six, and lex on the length of the source and one; Contributors recurs on the
-- number of declared relations and two. All are shown to be enough. The walk of ListObjects recurs
-- on the levels up to the depth limit, as the source has them. A context is the sequence of what its
-- calls of Err return.
--
-- Percentiles: the index of pct is computed as float64 has it, with 53 bits and ties to even; n - 1 is
-- exact in a float64 below 2 ^ 53. A product of two 53-bit numbers has at most 106 bits, so the 53
-- doublings of `round_product` are enough. Results on the report ask for fewer than 2 ^ 40 samples.
--
-- Not modelled: the decoding of JSON, which is a parameter of `serve`; logging; a database before its
-- first Migrate; the parsing of flags, listening, signals and the shutdown. The handlers are modelled
-- on the in-process store, whose methods do not fail. Other sessions of the database are described by
-- Storage.Postgres.Late alone.
--
-- Two notions recur. A subject has a text (IsSubject) if ParseSubject returns it for some text. A
-- store is well-formed (IsStored) if its indexes are exact and no row is dated after the head.
pub mod Base
pub mod Errors
pub mod Storage
pub mod Schema
pub mod Check
pub mod Service
pub mod Api
pub mod Stats
pub mod Cmd
pub mod Tests
