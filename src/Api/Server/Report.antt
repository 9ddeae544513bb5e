-- ===== src/Api/Server/Report.antt =====
-- The statistics count what clients were sent.
use zanzo.Base.{ℕ, none, some, List, [], ◌∷◌, ◌++◌}
use zanzo.Schema.Types.{Schema}
use zanzo.Stats.{Stats}
use zanzo.Stats.Report.Tallies.{Call}
use zanzo.Api.Server.{
  Process, Incoming, Decoders, route, Received, response, report, plain_error, serve,
}

-- The call of observe that a request stands for, if its client was sent a response of an endpoint.
abbrev pub call_of : Incoming → Received → List Call
call_of r (response w) = elim w.sent [
  | none ↦ []
  | some code ↦ record { route = r.path; status = code; elapsed = r.elapsed } ∷ []
]
call_of r (report lines) = []
call_of r (plain_error code) = []

abbrev pub calls_of : List (Incoming × Received) → List Call
calls_of [] = []
calls_of ((r, x) ∷ xs) = call_of r x ++ calls_of xs

module _ (schema : Schema) (max_depth : ℕ) (decode : Decoders) where
  -- requests, one after the other
  abbrev pub serve_all : List Incoming → Process → List (Incoming × Received) × Process
  serve_all [] p = ([], p)
  serve_all (r ∷ rs) p =
      let (x, p1) = serve schema max_depth decode r p in
      let (xs, p2) = serve_all rs p1 in ((r, x) ∷ xs, p2)
