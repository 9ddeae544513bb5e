-- ===== src/Api/Expand.antt =====
-- internal/api/api.go: the handler of expand, from the decoded body on.
use zanzo.Base.{Option, Str, codes, Result, ok, err, ◌>>=◌}
use zanzo.Errors.{Error, Outcome, canceled, deadline_exceeded, depth_exceeded}
use zanzo.Storage.Parse.{parse_object}
use zanzo.Check.Types.{Engine, Context}
use zanzo.Check.Expand.{Tree, ExpandRequest, ExpandResult, expand_request}
use zanzo.Api.Token.{format_token}
use zanzo.Api.Handlers.{Refusal, refuse, status_client_closed, decoded, parsed, required}

pub record ExpandCall : Type 0 where
  pub object : Str
  pub relation : Str

pub record ExpandResponse : Type 0 where
  pub tree : Tree
  pub token : Str

unfoldable pub expand_call : Option ExpandCall → Result Refusal ExpandRequest
expand_call body = do
  call ← decoded body
  object ← parsed (parse_object call.object)
  given ← required call.relation (codes "relation is required")
  ok (record { object = object; relation = call.relation; revision = 0 })

abbrev pub expand_failed : Error → Refusal
expand_failed canceled = refuse status_client_closed (codes "client closed request")
expand_failed deadline_exceeded = refuse status_client_closed (codes "client closed request")
expand_failed (depth_exceeded o r) = refuse 422 (codes "expand exceeded maximum depth")
expand_failed _ = refuse 500 (codes "expand failed")

abbrev pub expand_response : Outcome ExpandResult → Result Refusal ExpandResponse
expand_response (err x) = err (expand_failed x)
expand_response (ok res) = ok (record { tree = res.tree; token = format_token res.revision })

-- func (s *Server) handleExpand
unfoldable pub handle_expand : Engine → Context → Option ExpandCall → Result Refusal ExpandResponse
handle_expand e ctx body = do req ← expand_call body; expand_response (expand_request e ctx req)
