-- ===== src/Api/Allows.antt =====
-- What an allowing response of the check handler stands on.
use zanzo.Base.{
  ◌≡◌, refl, sym, ◌∙◌, ap, subst, true, Option, some, Result, ok, err, ok_inj, arith, >>=-eq-ok,
  codes,
}
use zanzo.Errors.{Outcome}
use zanzo.Storage.Types.{Object, Subject, Revision}
use zanzo.Storage.Parse.{ParseError, parse_object, parse_subject}
use zanzo.Storage.Parse.RoundTrip.{parse_subject-eq-ok_iff}
use zanzo.Check.Cache.{Cache}
use zanzo.Check.Types.{Engine, Request, CheckResult, Context}
use zanzo.Check.Request.{check_request}
use zanzo.Check.Body.Caches.{IsCorrect}
use zanzo.Check.Grants.{Reaches}
use zanzo.Check.Grants.Request.{IsBacked, check_request-IsBacked}
use zanzo.Api.Token.{format_token}
use zanzo.Api.Handlers.{
  Refusal, checked, CheckResponse, CheckCall, parsed, required, consistency_of, check_call,
  check_response, answer_check, handle_check,
}

-- The texts of the request name an object and a subject, and the subject reaches the relation of
-- the object through tuples stored at the revision that the token names.
abbrev pub IsGrounded : Engine → CheckCall → CheckResponse → Type 0
IsGrounded e call r =
    (o : Object) × (s : Subject) × (rev : Revision) × (parse_object call.object ≡ ok o)
    × (parse_subject call.subject ≡ ok s)
    × (r.token ≡ format_token rev)
    × Reaches e.schema (e.store.read rev) s o call.relation

parsed-ok : {A : Type 0} (p : Result ParseError A) (a : A) → parsed p ≡ ok a → p ≡ ok a
parsed-ok (ok b) a h = ap ok (ok_inj h)
parsed-ok (err x) a h = absurd (cc)

-- What a call asks of the engine.
call-parts :
    (call : CheckCall) (req : Request)
    → check_call (some call) ≡ ok req
    → (parse_object call.object ≡ ok req.object)
      × (parse_subject call.subject ≡ ok req.subject)
      × (req.relation ≡ call.relation)
unfolding check_call
call-parts call req h =
    let (o, po, h1) = >>=-eq-ok (parsed (parse_object call.object)) _ h in
    let (s, ps, h2) = >>=-eq-ok (parsed (parse_subject call.subject)) _ h1 in
    let (u, pu, h3) = >>=-eq-ok (required call.relation (codes "relation is required")) _ h2 in
    let (mode, pm, h4) = >>=-eq-ok (consistency_of call) _ h3 in
    let made = ok_inj h4 in
    (
      parsed-ok (parse_object call.object) o po ∙ ap (λ (r : Request). ok r.object) made,
      parsed-ok (parse_subject call.subject) s ps ∙ ap (λ (r : Request). ok r.subject) made,
      sym (ap (λ (r : Request). r.relation) made),
    )

checked_inj : {a b : CheckResponse} → checked a ≡ checked b → a ≡ b
checked_inj h = ground arith

response-checked :
    (r : Outcome CheckResult) (resp : CheckResponse)
    → check_response r ≡ checked resp
    → (res : CheckResult) × (r ≡ ok res)
      × (resp.allowed ≡ res.allowed)
      × (resp.token ≡ format_token res.revision)
response-checked (err x) resp h = absurd (cc)
response-checked (ok res) resp h =
    (res, refl, sym (ap (λ x. x.allowed) (checked_inj h)), sym (ap (λ x. x.token) (checked_inj h)))

module _ (e : Engine) (ctx : Context) (cache : Option Cache) (g : IsCorrect (IsBacked e) cache)
    (call : CheckCall) (resp : CheckResponse) where
  answer-IsGrounded :
      (r : Result Refusal Request)
      → check_call (some call) ≡ r
      → (answer_check e ctx cache r).0 ≡ checked resp
      → resp.allowed ≡ true
      → IsGrounded e call resp
  answer-IsGrounded (err x) p h allowed = absurd (cc)
  answer-IsGrounded (ok req) p h allowed =
      let (po, ps, pr) = call-parts call req p in
      let hs = ((parse_subject-eq-ok_iff call.subject req.subject).0 ps).1 in
      let (res, pres, pa, pt) = response-checked (check_request e ctx cache req).0 resp h in
      let reached = (check_request-IsBacked e ctx cache req hs g).0 res pres (sym pa ∙ allowed) in
      (
        req.object,
        req.subject,
        res.revision,
        po,
        ps,
        pt,
        subst (λ q. Reaches e.schema (e.store.read res.revision) req.subject req.object q) pr
            reached,
      )

-- The handler of checks, with no cache or a revision-keyed one whose allowing entries are backed: if
-- its response allows, the object and the subject of the request parse, and the subject reaches the
-- relation through tuples stored at the revision that the response's token names.
pub handle_check-IsGrounded :
    (e : Engine) (ctx : Context) (cache : Option Cache) (call : CheckCall) (resp : CheckResponse)
    → IsCorrect (IsBacked e) cache
    → (handle_check e ctx cache (some call)).0 ≡ checked resp
    → resp.allowed ≡ true
    → IsGrounded e call resp
unfolding handle_check
handle_check-IsGrounded e ctx cache call resp g h allowed =
    answer-IsGrounded e ctx cache g call resp (check_call (some call)) refl h allowed
