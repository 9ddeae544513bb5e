-- ===== src/Api/Statuses.antt =====
-- Why a handler answers with the status that it answers with, over the in-process store.
pub mod Malformed
pub mod Reasons
use zanzo.Base.{
  ℕ, ◌≡◌, ◌⊎◌, inl, inr, refl, sym, ◌∙◌, ap, subst, Option, none, some, arith, Str, Result, ok, err,
  ok_inj, Option-cases, get, str_eq, Result-cases, ◌>>=◌, List,
}
use zanzo.Errors.{
  Error, Outcome, canceled, deadline_exceeded, depth_exceeded, unknown_type, no_relation,
}
use zanzo.Storage.Types.{Object, Tuple}
use zanzo.Storage.Memory.{Memory}
use zanzo.Schema.Types.{Schema, lookup, lookup_definition, lookup_relation}
use zanzo.Check.Cache.{Cache}
use zanzo.Check.Types.{Request, CheckResult, Context}
use zanzo.Check.Request.{check_request}
use zanzo.Check.Failure.{
  Cause, from_context, from_head, from_read, from_schema, too_deep, check_request-fails_with,
}
use zanzo.Check.Expand.{ExpandRequest, ExpandResult, expand_request}
use zanzo.Check.Expand.Fails.{expand_request-fails_with}
use zanzo.Api.Handlers.{
  Refusal, Response, failed, checked, CheckCall, check_call, check_failed, check_response,
  answer_check, handle_check, WriteCall, write_call, answer_write, handle_write,
}
use zanzo.Api.Expand.{
  ExpandCall, ExpandResponse, expand_call, expand_failed, expand_response, handle_expand,
}
use zanzo.Api.Statuses.Malformed.{BadStatus, check_call-IsBad, expand_call-IsBad, write_call-IsBad}
use zanzo.Api.Bodies.{IsWrite, write_call-IsWrite, IsWrite-write_call}
use zanzo.Api.Bodies.Calls.{
  IsCheck, IsExpand, check_call-IsCheck, IsCheck-check_call, expand_call-IsExpand,
  IsExpand-expand_call,
}
use zanzo.Service.{engine}
use zanzo.Api.Statuses.Reasons.{
  IsContext, Explains, bad_body, Cause-Explains, check-Sorts, expand-Sorts,
}

failed_inj : {a b : Refusal} → failed a ≡ failed b → a ≡ b
failed_inj h = ground arith

refused_inj : {A : Type 0} {a b : Refusal} → ◌≡◌ {A = Result Refusal A} (err a) (err b) → a ≡ b
refused_inj h = ground arith

module _ (schema : Schema) (max_depth : ℕ) (m : Memory) (ctx : Context) where
  -- How a check of the body failed in the engine.
  abbrev pub CheckFailure : Option Cache → Option CheckCall → Error → Type 0
  CheckFailure cache body x =
      (req : Request) × (check_call body ≡ ok req)
      × ((check_request (engine schema max_depth m) ctx cache req).0 ≡ err x)

  abbrev pub ExpandFailure : Option ExpandCall → Error → Type 0
  ExpandFailure body x =
      (req : ExpandRequest) × (expand_call body ≡ ok req)
      × (expand_request (engine schema max_depth m) ctx req ≡ err x)

module _ (schema : Schema) (max_depth : ℕ) (m : Memory) (ctx : Context) (hc : IsContext ctx) where
  answer_check-Explained :
      (cache : Option Cache) (body : Option CheckCall) (r : Refusal)
      (asked : Result Refusal Request)
      → check_call body ≡ asked
      → (answer_check (engine schema max_depth m) ctx cache asked).0 ≡ failed r
      → Explains schema ctx (IsCheck body) (CheckFailure schema max_depth m ctx cache body) r
  answer_check-Explained cache body r (err q) e h =
      let same : q ≡ r = failed_inj h in
      let malformed : check_call body ≡ err r = e ∙ ap err same in
      bad_body (subst BadStatus malformed (check_call-IsBad body).bad)
        λ call. let (req, asked) = IsCheck-check_call body call in cc
  answer_check-Explained cache body r (ok req) e h =
      let engine_m = engine schema max_depth m in
      elim (Result-cases (check_request engine_m ctx cache req).0) [
        | inl (res, k) ↦ absurd (cc)
        | inr (x, k) ↦
            let said : check_failed x ≡ r = failed_inj (rw k at h) in
            subst
              (Explains schema ctx (IsCheck body) (CheckFailure schema max_depth m ctx cache body))
              said
              (Cause-Explains schema ctx max_depth m _
                (CheckFailure schema max_depth m ctx cache body) check_failed
                (check-Sorts schema ctx) x hc (req, e, k)
                (check_request-fails_with engine_m ctx cache req x k))
      ]

  expansion-Explained :
      (body : Option ExpandCall) (r : Refusal) (asked : Result Refusal ExpandRequest)
      → expand_call body ≡ asked
      → (asked >>= λ req. expand_response (expand_request (engine schema max_depth m) ctx req))
        ≡ err r
      → Explains schema ctx (IsExpand body) (ExpandFailure schema max_depth m ctx body) r
  expansion-Explained body r (err q) e h =
      let malformed : expand_call body ≡ err r = e ∙ ap err (refused_inj h) in
      bad_body (subst BadStatus malformed (expand_call-IsBad body).bad)
        λ call. let (req, asked) = IsExpand-expand_call body call in cc
  expansion-Explained body r (ok req) e h =
      let engine_m = engine schema max_depth m in
      elim (Result-cases (expand_request engine_m ctx req)) [
        | inl (res, k) ↦ absurd (cc)
        | inr (x, k) ↦
            let said : expand_failed x ≡ r = refused_inj (rw k at h) in
            subst (Explains schema ctx (IsExpand body) (ExpandFailure schema max_depth m ctx body))
              said
              (Cause-Explains schema ctx max_depth m _ (ExpandFailure schema max_depth m ctx body)
                expand_failed (expand-Sorts schema ctx) x hc (req, e, k)
                (expand_request-fails_with engine_m ctx req x k))
      ]

  answer_write-Explained :
      (body : Option WriteCall) (r : Refusal) (asked : Result Refusal (List Tuple × List Tuple))
      → write_call body ≡ asked
      → (answer_write m asked).0 ≡ failed r
      → (r.status ≡ 400) × ((add remove : List Tuple) → ¬ IsWrite body add remove)
  answer_write-Explained body r (err q) e h =
      let malformed : write_call body ≡ err r = e ∙ ap err (failed_inj h) in
      (
        subst BadStatus malformed (write_call-IsBad body).bad,
        λ add remove call. let asked = IsWrite-write_call body add remove call in cc,
      )
  answer_write-Explained body r (ok parts) e h = absurd (cc)

  -- A body that is no call is refused with 400.
  answer_check-Refused :
      (cache : Option Cache) (body : Option CheckCall) (asked : Result Refusal Request)
      → check_call body ≡ asked
      → ¬ IsCheck body
      → (r : Refusal) × ((answer_check (engine schema max_depth m) ctx cache asked).0 ≡ failed r)
        × (r.status ≡ 400)
  answer_check-Refused cache body (err r) e h =
      (r, refl, subst BadStatus e (check_call-IsBad body).bad)
  answer_check-Refused cache body (ok req) e h = absurd (h (check_call-IsCheck body req e))

  expansion-Refused :
      (body : Option ExpandCall) (asked : Result Refusal ExpandRequest)
      → expand_call body ≡ asked
      → ¬ IsExpand body
      → (r : Refusal) × ((asked >>= λ req.
            expand_response (expand_request (engine schema max_depth m) ctx req))
          ≡ err r)
        × (r.status ≡ 400)
  expansion-Refused body (err r) e h = (r, refl, subst BadStatus e (expand_call-IsBad body).bad)
  expansion-Refused body (ok req) e h = absurd (h (expand_call-IsExpand body req e))

  answer_write-Refused :
      (body : Option WriteCall) (asked : Result Refusal (List Tuple × List Tuple))
      → write_call body ≡ asked
      → ((add remove : List Tuple) → ¬ IsWrite body add remove)
      → (r : Refusal) × ((answer_write m asked).0 ≡ failed r) × (r.status ≡ 400)
  answer_write-Refused body (err r) e h = (r, refl, subst BadStatus e (write_call-IsBad body).bad)
  answer_write-Refused body (ok (add, remove)) e h =
      absurd (h add remove (write_call-IsWrite body add remove e))

module _ (schema : Schema) (max_depth : ℕ) (m : Memory) (ctx : Context) where
  -- Each refusal of a check has a reason, and a body that is no check is refused with 400.
  abbrev pub ExplainsChecks : Type 0
  ExplainsChecks =
      (cache : Option Cache) (body : Option CheckCall)
      → let r = (handle_check (engine schema max_depth m) ctx cache body).0 in
        ((q : Refusal)
          → r ≡ failed q
          → Explains schema ctx (IsCheck body) (CheckFailure schema max_depth m ctx cache body) q)
        × (¬ IsCheck body → (q : Refusal) × (r ≡ failed q) × (q.status ≡ 400))

  abbrev pub ExplainsExpansions : Type 0
  ExplainsExpansions =
      (body : Option ExpandCall)
      → let r = handle_expand (engine schema max_depth m) ctx body in
        ((q : Refusal)
          → r ≡ err q
          → Explains schema ctx (IsExpand body) (ExpandFailure schema max_depth m ctx body) q)
        × (¬ IsExpand body → (q : Refusal) × (r ≡ err q) × (q.status ≡ 400))

  abbrev pub ExplainsWrites : Type 0
  ExplainsWrites =
      (body : Option WriteCall)
      → let r = (handle_write m body).0 in
        ((q : Refusal)
          → r ≡ failed q
          → (q.status ≡ 400) × ((add remove : List Tuple) → ¬ IsWrite body add remove))
        × (((add remove : List Tuple) → ¬ IsWrite body add remove)
            → (q : Refusal) × (r ≡ failed q) × (q.status ≡ 400))

-- Over the in-process store, with a context whose errors are a cancellation or a deadline, a handler
-- that refuses does so for the reason that its status names. Check and Expand: 400, a field of the body
-- is missing or has no such text as it has to have; 499, the context ended; 422, the engine reached the
-- depth limit; 500, a Lookup failed. Write: 400, the body asks for nothing, or a field is missing or has
-- no such text. And each handler refuses every such body with 400.
pub handlers-Explained :
    (schema : Schema) (max_depth : ℕ) (m : Memory) (ctx : Context)
    → IsContext ctx
    → ExplainsChecks schema max_depth m ctx
      × ExplainsExpansions schema max_depth m ctx
      × ExplainsWrites schema max_depth m ctx
unfolding handle_check handle_expand handle_write
handlers-Explained schema max_depth m ctx hc = (
  λ cache body. (
    λ r h. answer_check-Explained schema max_depth m ctx hc cache body r (check_call body) refl h,
    answer_check-Refused schema max_depth m ctx hc cache body (check_call body) refl,
  ),
  λ body. (
    λ r h. expansion-Explained schema max_depth m ctx hc body r (expand_call body) refl h,
    expansion-Refused schema max_depth m ctx hc body (expand_call body) refl,
  ),
  λ body. (
    λ r h. answer_write-Explained schema max_depth m ctx hc body r (write_call body) refl h,
    answer_write-Refused schema max_depth m ctx hc body (write_call body) refl,
  ),
)
