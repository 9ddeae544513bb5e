-- ===== src/Api/Server.antt =====
-- internal/api/api.go: the routes, the instrumentation and the health handler, and the process that
-- cmd/zanzo/main.go builds of them: one store, one cache, one record of statistics.
pub mod Report
use zanzo.Base.{
  ℕ, Bool, true, false, ◌&&◌, ◌||◌, Option, none, some, List, [], ◌∷◌, Str, codes, eq_str,
  if◌then◌else◌, Result, ok, err,
}
use zanzo.Errors.{Outcome}
use zanzo.Storage.Types.{Revision}
use zanzo.Storage.Memory.{Memory, new_memory}
use zanzo.Storage.Store.{Store, memory_store}
use zanzo.Schema.Types.{Schema}
use zanzo.Check.Cache.{Cache}
use zanzo.Check.Types.{Context}
use zanzo.Stats.{Stats, Line, new_stats, observe, handler}
use zanzo.Stats.Sort.{Duration}
use zanzo.Service.{engine}
use zanzo.Api.Handlers.{
  Refusal, refuse, Response, failed, CheckCall, WriteCall, ListCall, handle_check, handle_write,
  handle_list_objects,
}
use zanzo.Api.Expand.{ExpandCall, ExpandResponse, handle_expand}

-- What is written as JSON.
pub data Reply : Type 0 where
  answered : Response → Reply
  expanded : ExpandResponse → Reply
  healthy : Reply

-- the status that each handler passes to writeJSON
unfoldable pub status_of : Reply → ℕ
status_of (answered (failed r)) = r.status
status_of (answered _) = 200
status_of (expanded _) = 200
status_of healthy = 200

-- An http.ResponseWriter: the status line once it is sent, and what was encoded after it. A second
-- WriteHeader is ignored.
pub record Writer : Type 0 where
  pub sent : Option ℕ
  pub encoded : Option Reply

unfoldable pub send_header : ℕ → Writer → Writer
send_header code w = elim w.sent [ none ↦ record w { sent = some code } | some c ↦ w ]

-- type statusWriter
pub record StatusWriter : Type 0 where
  pub writer : Writer
  pub status : ℕ

-- func (w *statusWriter) WriteHeader
unfoldable pub write_header : ℕ → StatusWriter → StatusWriter
write_header code w = record { writer = send_header code w.writer; status = code }

-- func writeJSON
unfoldable pub write_json : ℕ → Reply → StatusWriter → StatusWriter
write_json status v w =
    let w' = write_header status w in record w' { writer = record w'.writer { encoded = some v } }

-- func (s *Server) handleHealth
unfoldable pub handle_health : Store → Reply
handle_health store = elim store.head [
  | err x ↦ answered (failed (refuse 503 (codes "store unreachable")))
  | ok rev ↦ healthy
]

-- The state of the process.
pub record Process : Type 0 where
  pub memory : Memory
  pub cache : Option Cache
  pub stats : Stats

-- A request: json.Decoder on its body is a parameter, as are the context and how long it takes.
pub record Incoming : Type 0 where
  pub method : Str
  pub path : Str
  pub body : Str
  pub ctx : Context
  pub contexts : ℕ → Context
  pub elapsed : Duration

-- json.NewDecoder(r.Body).Decode(&req), for each type of request: none for an error
pub record Decoders : Type 0 where
  pub check : Str → Option CheckCall
  pub write : Str → Option WriteCall
  pub list : Str → Option ListCall
  pub expand : Str → Option ExpandCall

pub data Endpoint : Type 0 where
  check_endpoint write_endpoint list_endpoint expand_endpoint health_endpoint : Endpoint

-- the route that each endpoint is instrumented as
unfoldable pub route_of : Endpoint → Str
route_of check_endpoint = codes "/v1/check"
route_of write_endpoint = codes "/v1/write"
route_of list_endpoint = codes "/v1/list-objects"
route_of expand_endpoint = codes "/v1/expand"
route_of health_endpoint = codes "/healthz"

-- The pattern of the mux that a request matches. GET takes HEAD as well.
pub data Match : Type 0 where
  endpoint : Endpoint → Match
  statistics : Match
  method_not_allowed not_found : Match

unfoldable pub is_get : Str → Bool
is_get method = eq_str method (codes "GET") || eq_str method (codes "HEAD")

unfoldable pub when : Bool → Match → Match
when allowed m = if allowed then m else method_not_allowed

-- func (s *Server) Routes, and GET /stats of main
unfoldable pub route : Str → Str → Match
route method path =
    let post = eq_str method (codes "POST") in
    if eq_str path (route_of check_endpoint)
    then when post (endpoint check_endpoint)
    else if eq_str path (route_of write_endpoint)
    then when post (endpoint write_endpoint)
    else if eq_str path (route_of list_endpoint)
    then when post (endpoint list_endpoint)
    else if eq_str path (route_of expand_endpoint)
    then when post (endpoint expand_endpoint)
    else if eq_str path (route_of health_endpoint)
    then when (is_get method) (endpoint health_endpoint)
    else if eq_str path (codes "/stats")
    then when (is_get method) statistics
    else not_found

-- What a client receives.
pub data Received : Type 0 where
  response : Writer → Received
  report : Option (List Line) → Received
  plain_error : ℕ → Received

module _ (schema : Schema) (max_depth : ℕ) (decode : Decoders) where
  -- the handler of an endpoint: the reply that it writes, and the store and the cache after it
  unfoldable pub handle : Endpoint → Incoming → Process → Reply × Process
  handle check_endpoint r p =
      let (reply, cache) =
        handle_check (engine schema max_depth p.memory) r.ctx p.cache (decode.check r.body) in
      (answered reply, record p { cache = cache })
  handle write_endpoint r p =
      let (reply, memory) = handle_write p.memory (decode.write r.body) in
      (answered reply, record p { memory = memory })
  handle list_endpoint r p =
      let (reply, cache) =
        handle_list_objects (engine schema max_depth p.memory) r.ctx r.contexts p.cache
          (decode.list r.body) in
      (answered reply, record p { cache = cache })
  handle expand_endpoint r p =
      elim (handle_expand (engine schema max_depth p.memory) r.ctx (decode.expand r.body)) [
        | ok tree ↦ (expanded tree, p)
        | err refusal ↦ (answered (failed refusal), p)
      ]
  handle health_endpoint r p = (handle_health (memory_store p.memory), p)

  -- func (s *Server) instrument: Observe is the statistics'
  unfoldable pub instrument : Endpoint → Incoming → Writer → Process → Writer × Process
  instrument e r w p =
      let (reply, p') = handle e r p in
      let sw = write_json (status_of reply) reply (record { writer = w; status = 200 }) in
      (sw.writer, record p' { stats = observe p'.stats (route_of e) sw.status r.elapsed })

  abbrev fresh : Writer
  fresh = record { sent = none; encoded = none }

  unfoldable pub dispatch : Match → Incoming → Process → Received × Process
  dispatch (endpoint e) r p = let (w, p') = instrument e r fresh p in (response w, p')
  dispatch statistics r p = (report (handler p.stats), p)
  dispatch method_not_allowed r p = (plain_error 405, p)
  dispatch not_found r p = (plain_error 404, p)

  -- one request, as the mux serves it
  unfoldable pub serve : Incoming → Process → Received × Process
  serve r p = dispatch (route r.method r.path) r p
