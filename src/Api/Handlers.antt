-- ===== src/Api/Handlers.antt =====
-- internal/api/api.go: the handlers of check, write and list-objects, from the decoded body on. A
-- body that is not valid JSON is `none`. Logging is left out.
use zanzo.Base.{
  ℕ, Bool, true, false, ◌&&◌, ◌||◌, Option, none, some, List, [], ◌∷◌, map, ltb, eqb, if◌then◌else◌,
  Str, codes, eq_str, Result, ok, err, ◌>>=◌,
}
use zanzo.Errors.{Error, Outcome, canceled, deadline_exceeded, depth_exceeded}
use zanzo.Storage.Types.{Tuple, object_string}
use zanzo.Storage.Parse.{ParseError, parse_object, parse_subject}
use zanzo.Storage.Memory.{Memory, write}
use zanzo.Check.Cache.{Cache}
use zanzo.Check.Types.{
  Engine, Request, CheckResult, Context, Consistency, minimize_latency, at_least_as_fresh,
  full_consistency, Token,
}
use zanzo.Check.Request.{check_request}
use zanzo.Check.ListObjects.{ListRequest, ListResult, list_objects}
use zanzo.Api.Token.{format_token, parse_token}

-- The text of an error response: a literal, or err.Error() of a parse error.
pub data Message : Type 0 where
  says : Str → Message
  parse_failed : ParseError → Message

pub record CheckResponse : Type 0 where
  pub allowed : Bool
  pub token : Str
  pub expansions : ℕ
  pub cache_hits : ℕ
  pub memo_hits : ℕ
  pub max_depth : ℕ

pub record ListResponse : Type 0 where
  pub objects : List Str
  pub token : Str
  pub candidates : ℕ

-- What writeError is given.
pub record Refusal : Type 0 where
  pub status : ℕ
  pub message : Message

-- What is written as JSON; all but `failed` with status 200.
pub data Response : Type 0 where
  failed : Refusal → Response
  checked : CheckResponse → Response
  written : Str → Response
  listed : ListResponse → Response

abbrev pub status_client_closed : ℕ
status_client_closed = 499

abbrev pub refuse : ℕ → Str → Refusal
refuse status message = record { status = status; message = says message }

abbrev bad_request : Message → Refusal
bad_request m = record { status = 400; message = m }

pub record CheckCall : Type 0 where
  pub object : Str
  pub relation : Str
  pub subject : Str
  pub consistency : Str
  pub token : Str

abbrev pub decoded : {A : Type 0} → Option A → Result Refusal A
decoded none = err (bad_request (says (codes "request body is not valid JSON")))
decoded (some a) = ok a

abbrev pub parsed : {A : Type 0} → Result ParseError A → Result Refusal A
parsed (ok a) = ok a
parsed (err x) = err (bad_request (parse_failed x))

abbrev pub required : Str → Str → Result Refusal (Unit {0})
required s message = if eq_str s [] then err (bad_request (says message)) else ok tt

abbrev pub token_of : Str → Result Refusal Token
token_of s =
    if eq_str s []
    then err (bad_request (says (codes "at_least_as_fresh requires a token")))
    else elim (parse_token s) [
      | none ↦ err (bad_request (says (codes "token is not valid")))
      | some rev ↦ ok (record { revision = rev })
    ]

abbrev pub no_token : Token
no_token = record { revision = 0 }

-- switch req.Consistency
unfoldable pub consistency_of : CheckCall → Result Refusal (Consistency × Token)
consistency_of call =
    if eq_str call.consistency [] || eq_str call.consistency (codes "minimize_latency")
    then ok (minimize_latency, no_token)
    else if eq_str call.consistency (codes "full")
    then ok (full_consistency, no_token)
    else if eq_str call.consistency (codes "at_least_as_fresh")
    then (do token ← token_of call.token; ok (at_least_as_fresh, token))
    else err (
        bad_request
          (says (codes "consistency must be minimize_latency, at_least_as_fresh or full")))

-- handleCheck up to the call of Check
unfoldable pub check_call : Option CheckCall → Result Refusal Request
check_call body = do
  call ← decoded body
  object ← parsed (parse_object call.object)
  subject ← parsed (parse_subject call.subject)
  given ← required call.relation (codes "relation is required")
  mode ← consistency_of call
  ok (record {
    object = object;
    relation = call.relation;
    subject = subject;
    revision = 0;
    consistency = mode.0;
    token = mode.1;
  })

-- switch { case errors.Is(err, …) … }
abbrev pub check_failed : Error → Refusal
check_failed canceled = refuse status_client_closed (codes "client closed request")
check_failed deadline_exceeded = refuse status_client_closed (codes "client closed request")
check_failed (depth_exceeded o r) = refuse 422 (codes "check exceeded maximum depth")
check_failed _ = refuse 500 (codes "check failed")

abbrev pub check_response : Outcome CheckResult → Response
check_response (err x) = failed (check_failed x)
check_response (ok res) = checked (record {
  allowed = res.allowed;
  token = format_token res.revision;
  expansions = res.expansions;
  cache_hits = res.cache_hits;
  memo_hits = res.memo_hits;
  max_depth = res.max_depth;
})

abbrev pub answer_check :
    Engine → Context → Option Cache → Result Refusal Request → Response × Option Cache
answer_check e ctx cache (err r) = (failed r, cache)
answer_check e ctx cache (ok req) =
    let (r, cache') = check_request e ctx cache req in (check_response r, cache')

-- func (s *Server) handleCheck
unfoldable pub handle_check :
    Engine → Context → Option Cache → Option CheckCall → Response × Option Cache
handle_check e ctx cache body = answer_check e ctx cache (check_call body)

pub record Relationship : Type 0 where
  pub object : Str
  pub relation : Str
  pub subject : Str

pub record WriteCall : Type 0 where
  pub add : List Relationship
  pub remove : List Relationship

-- func toTuples(rs []relationship)
unfoldable pub to_tuples : List Relationship → Result Refusal (List Tuple)
to_tuples [] = ok []
to_tuples (r ∷ rs) = do
  object ← parsed (parse_object r.object)
  subject ← parsed (parse_subject r.subject)
  given ← required r.relation (codes "relation is required on every relationship")
  rest ← to_tuples rs
  ok (record { object = object; relation = r.relation; subject = subject } ∷ rest)

abbrev pub is_empty : {A : Type 0} → List A → Bool
is_empty [] = true
is_empty (a ∷ rest) = false

-- handleWrite up to the call of Write: what to add, and what to remove
unfoldable pub write_call : Option WriteCall → Result Refusal (List Tuple × List Tuple)
write_call body = do
  call ← decoded body
  asked ←
      (if is_empty call.add && is_empty call.remove
        then err (bad_request (says (codes "write requires at least one of add or remove")))
        else ok tt)
  add ← to_tuples call.add
  remove ← to_tuples call.remove
  ok (add, remove)

abbrev pub answer_write : Memory → Result Refusal (List Tuple × List Tuple) → Response × Memory
answer_write m (err r) = (failed r, m)
answer_write m (ok (add, remove)) =
    let m' = write add remove m in (written (format_token m'.head), m')

-- func (s *Server) handleWrite on the in-process store, whose Write does not fail
unfoldable pub handle_write : Memory → Option WriteCall → Response × Memory
handle_write m body = answer_write m (write_call body)

pub record ListCall : Type 0 where
  pub subject : Str
  pub permission : Str
  pub object_type : Str
  pub limit : ℕ

-- if req.Limit <= 0 || req.Limit > 1000 { req.Limit = 1000 }
abbrev pub capped : ℕ → ℕ
capped n = if eqb n 0 || ltb 1000 n then 1000 else n

unfoldable pub list_call : Option ListCall → Result Refusal ListRequest
list_call body = do
  call ← decoded body
  subject ← parsed (parse_subject call.subject)
  given ←
      (if eq_str call.permission [] || eq_str call.object_type []
        then err (bad_request (says (codes "permission and object_type are required")))
        else ok tt)
  ok (record {
    subject = subject;
    permission = call.permission;
    object_type = call.object_type;
    revision = 0;
    limit = capped call.limit;
  })

abbrev pub list_failed : Error → Refusal
list_failed canceled = refuse status_client_closed (codes "client closed request")
list_failed deadline_exceeded = refuse status_client_closed (codes "client closed request")
list_failed _ = refuse 500 (codes "list failed")

abbrev pub list_response : Outcome ListResult → Response
list_response (err x) = failed (list_failed x)
list_response (ok res) = listed (record {
  objects = map object_string res.objects;
  token = format_token res.revision;
  candidates = res.candidates;
})

abbrev pub answer_list :
    Engine
    → Context
    → (ℕ → Context)
    → Option Cache
    → Result Refusal ListRequest
    → Response × Option Cache
answer_list e ctx contexts cache (err r) = (failed r, cache)
answer_list e ctx contexts cache (ok req) =
    let (r, cache') = list_objects e ctx contexts cache req in (list_response r, cache')

-- func (s *Server) handleListObjects
unfoldable pub handle_list_objects :
    Engine → Context → (ℕ → Context) → Option Cache → Option ListCall → Response × Option Cache
handle_list_objects e ctx contexts cache body = answer_list e ctx contexts cache (list_call body)
