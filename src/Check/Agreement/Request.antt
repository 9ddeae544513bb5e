-- ===== src/Check/Agreement/Request.antt =====
-- The exported Check agrees with the reference, and leaves a correct cache correct.
use zanzo.Base.{ℕ, ◌+◌, ◌≡◌, refl, ap, Bool, false, Option, none, arith, ok}
use zanzo.Errors.{Outcome}
use zanzo.Storage.Types.{Revision}
use zanzo.Storage.Parse.RoundTrip.{IsSubject}
use zanzo.Check.Cache.{Cache}
use zanzo.Check.Types.{Engine, Request, CheckResult, Context, depth_limit}
use zanzo.Check.Engine.{check}
use zanzo.Check.Request.{
  pin, new_evaluation, enough_fuel, finish, run_check, check_pinned, check_request,
}
use zanzo.Check.Reference.{reference, Decides}
use zanzo.Check.Body.State.{start-IsConsistent}
use zanzo.Check.Body.Caches.{Property, IsCorrect, IsCorrect-laws}
use zanzo.Check.Agreement.Depth.{Answers, check-Gives}

-- What a caller of Check learns: the decision and the revision that it was made at.
abbrev pub Decided : Outcome CheckResult → Bool → Revision → Type 0
Decided r b rev = (res : CheckResult) × (r ≡ ok res) × (res.allowed ≡ b) × (res.revision ≡ rev)

-- The entry is the answer of the plain recursion at its revision.
abbrev pub IsAnswer : Engine → Property
IsAnswer e s rev o r b = Decides e.schema (e.store.read rev) s o r b

run_check-agrees :
    (e : Engine) (ctx : Context) (req : Request) (cache : Option Cache) (b : Bool)
    → IsSubject req.subject
    → ((i : ℕ) → ctx i ≡ none)
    → IsCorrect (IsAnswer e) cache
    → reference e.schema
        (e.store.read req.revision)
        req.subject
        (depth_limit e + 1)
        req.object
        req.relation
      ≡ ok b
    → Decided (run_check e ctx cache req).0 b req.revision
      × IsCorrect (IsAnswer e) (run_check e ctx cache req).1
unfolding run_check
run_check-agrees e ctx req cache b hs quiet g h =
    let start = new_evaluation cache in
    let done = (check e ctx req (enough_fuel e) req.object req.relation 0 start).1 in
    let laws = IsCorrect-laws (IsAnswer e) e ctx req hs in
    let (p, i) =
      (check-Gives e ctx req (IsCorrect (IsAnswer e)) laws quiet (depth_limit e + 1) (enough_fuel e)
          0 (λ o r. false) (omega arith) (omega arith) (λ o r v. absurd (cc)) req.object
          req.relation b h).at
        start (start-IsConsistent e ctx req (Answers e ctx req) (IsCorrect (IsAnswer e)) cache g) in
    ((_, ap (λ x. finish req.revision x done) p, refl, refl), i.cache)

-- Check, with no cache or with a revision-keyed one that holds answers, for a subject that has a
-- text and a context that is never cancelled: where the plain recursion has an answer within the
-- depth limit at the pinned revision, Check returns that answer and that revision, whatever cycles
-- the data has elsewhere, and the cache it leaves holds answers.
pub check_request-agrees :
    (e : Engine) (ctx : Context) (cache : Option Cache) (req : Request) (rev : Revision) (b : Bool)
    → pin e req ≡ ok rev
    → IsSubject req.subject
    → ((i : ℕ) → ctx i ≡ none)
    → IsCorrect (IsAnswer e) cache
    → reference e.schema (e.store.read rev) req.subject (depth_limit e + 1) req.object req.relation
      ≡ ok b
    → let (r, c) = check_request e ctx cache req in Decided r b rev × IsCorrect (IsAnswer e) c
unfolding check_request
check_request-agrees e ctx cache req rev b pinned hs quiet g h =
    let at : Request = record req { revision = rev } in
    rw (pinned, check_pinned) (run_check-agrees e ctx at cache b hs quiet g h)
