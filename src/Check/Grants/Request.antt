-- ===== src/Check/Grants/Request.antt =====
-- The exported Check allows nothing that no chain of stored tuples backs.
use zanzo.Base.{
  ◌≡◌, ◌∙◌, ap, subst, Bool, true, false, Option, Str, ok, err, ok_inj, Result-cases, Bool-cases,
  inl, inr,
}
use zanzo.Errors.{Outcome}
use zanzo.Storage.Types.{Object, Subject, Revision, is_userset}
use zanzo.Storage.Parse.RoundTrip.{IsSubject}
use zanzo.Schema.Types.{Schema, Rewrite, Rewrites}
use zanzo.Check.Cache.{Cache}
use zanzo.Check.Types.{Engine, Request, Evaluation, Context, CheckResult}
use zanzo.Check.Engine.{check}
use zanzo.Check.Request.{
  pin, finish, run_check, check_pinned, check_request, enough_fuel, new_evaluation,
}
use zanzo.Check.Body.State.{CacheLaws, start-IsConsistent}
use zanzo.Check.Body.Caches.{Property, IsCorrect, IsCorrect-laws}
use zanzo.Check.Reference.{Reader}
use zanzo.Check.Grants.{
  Reaches, by_rewrite, Grants, direct, by_userset, by_computed, by_edge, by_union, by_intersection,
  by_base, Some, this_one, a_later, both,
}
use zanzo.Check.Grants.Sound.{check-Sound}

-- An allowing entry is backed at its revision.
abbrev pub IsBacked : Engine → Property
IsBacked e s rev o r b = b ≡ true → Reaches e.schema (e.store.read rev) s o r

-- An allowing result is backed at the revision that it carries.
abbrev pub ResultBacked : Engine → Request → Outcome CheckResult → Type 0
ResultBacked e req r =
    (res : CheckResult)
    → r ≡ ok res
    → res.allowed ≡ true
    → Reaches e.schema (e.store.read res.revision) req.subject req.object req.relation

finish-backed :
    (e : Engine) (req : Request) (x : Outcome Bool) (ev : Evaluation)
    → (x ≡ ok true
        → Reaches e.schema (e.store.read req.revision) req.subject req.object req.relation)
    → ResultBacked e req (finish req.revision x ev)
finish-backed e req (err y) ev h res p q = absurd (cc)
finish-backed e req (ok b) ev h res p q =
    let a : b ≡ true = ap (λ s. s.allowed) (ok_inj p) ∙ q in
    let rev : req.revision ≡ res.revision = ap (λ s. s.revision) (ok_inj p) in
    subst (λ v. Reaches e.schema (e.store.read v) req.subject req.object req.relation) rev
      (h (ap ok a))

-- What the requests of an engine ask of a cache: an allowing hit is backed, and a backed answer may
-- be taken in.
abbrev pub BackedLaws : Engine → Context → Request → (Option Cache → Type 0) → Type 0
BackedLaws e ctx req = CacheLaws e ctx req (IsBacked e req.subject req.revision)

run_check-IsBacked :
    (e : Engine) (ctx : Context) (cache : Option Cache) (req : Request)
    (Good : Option Cache → Type 0)
    → BackedLaws e ctx req Good
    → Good cache
    → ResultBacked e req (run_check e ctx cache req).0 × Good (run_check e ctx cache req).1
unfolding run_check
run_check-IsBacked e ctx cache req Good laws g =
    let start = new_evaluation cache in
    let done = (check e ctx req (enough_fuel e) req.object req.relation 0 start) in
    let (p, i) =
      (check-Sound e ctx req Good laws (enough_fuel e) 0 (λ o r. false) req.object req.relation).at
        start (start-IsConsistent e ctx req (IsBacked e req.subject req.revision) Good cache g) in
    (finish-backed e req done.0 done.1 p, i.cache)

pub check_pinned-IsBacked :
    (e : Engine) (ctx : Context) (cache : Option Cache) (req : Request)
    (Good : Option Cache → Type 0)
    → ((rev : Revision)
        → pin e req ≡ ok rev
        → BackedLaws e ctx (record req { revision = rev }) Good)
    → Good cache
    → ResultBacked e req (check_request e ctx cache req).0 × Good (check_request e ctx cache req).1
unfolding check_request
check_pinned-IsBacked e ctx cache req Good laws g = elim (Result-cases (pin e req)) [
  | inl (rev, p) ↦
      rw (p, check_pinned)
        (run_check-IsBacked e ctx cache (record req { revision = rev }) Good (laws rev p) g)
  | inr (x, p) ↦ rw (p, check_pinned) ((λ res q a. absurd (cc)), g)
]

-- Check, with no cache or a revision-keyed one whose allowing entries are backed, for a subject
-- that has a text, whatever the schema, the data, the cycles and the context: if it allows, a
-- finite chain of tuples stored at the result's revision leads from the object to the subject (of
-- an exclusion, its base does); and the allowing entries of the cache it leaves are backed, also
-- where it fails.
pub check_request-IsBacked :
    (e : Engine) (ctx : Context) (cache : Option Cache) (req : Request)
    → IsSubject req.subject
    → IsCorrect (IsBacked e) cache
    → ResultBacked e req (check_request e ctx cache req).0
      × IsCorrect (IsBacked e) (check_request e ctx cache req).1
check_request-IsBacked e ctx cache req hs g =
    check_pinned-IsBacked e ctx cache req (IsCorrect (IsBacked e))
      (λ rev p. IsCorrect-laws (IsBacked e) e ctx (record req { revision = rev }) hs) g

module _ (schema : Schema) (read : Reader) (subject : Subject)
    (userset : is_userset subject ≡ true) where
  mutual
    not-Reaches : {o : Object} {r : Str} → Reaches schema read subject o r → ⊥
    not-Reaches (by_rewrite rel found g) = not-Grants g

    not-Grants : {o : Object} {r : Str} {w : Rewrite} → Grants schema read subject o r w → ⊥
    not-Grants (direct ts t h i plain same) = cc (ap is_userset same)
    not-Grants (by_userset ts t h i u g) = not-Reaches g
    not-Grants (by_computed q g) = not-Reaches g
    not-Grants (by_edge tupleset computed ts t h i g) = not-Reaches g
    not-Grants (by_union cs g) = not-Some g
    not-Grants (by_intersection c cs (both _ _ g gs)) = not-Grants g
    not-Grants (by_base base subtract g) = not-Grants g

    not-Some : {o : Object} {r : Str} {cs : Rewrites} → Some schema read subject o r cs → ⊥
    not-Some (this_one c cs g) = not-Grants g
    not-Some (a_later c cs g) = not-Some g

-- A check for a userset subject, such as group:eng#member, never allows: the tuples that name it
-- are expanded, never compared with it. So it is denied even where a tuple grants it the relation.
pub check_request-userset_denied :
    (e : Engine) (ctx : Context) (cache : Option Cache) (req : Request) (res : CheckResult)
    → IsSubject req.subject
    → is_userset req.subject ≡ true
    → IsCorrect (IsBacked e) cache
    → (check_request e ctx cache req).0 ≡ ok res
    → res.allowed ≡ false
check_request-userset_denied e ctx cache req res hs userset g h = elim (Bool-cases res.allowed) [
  | inl allowed ↦ absurd (
      not-Reaches e.schema (e.store.read res.revision) req.subject userset
        ((check_request-IsBacked e ctx cache req hs g).0 res h allowed))
  | inr denied ↦ denied
]
