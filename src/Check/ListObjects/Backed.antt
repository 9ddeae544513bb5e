-- ===== src/Check/ListObjects/Backed.antt =====
-- What ListObjects lists: no object without a chain of stored tuples, and no more than the limit.
use zanzo.Base.{
  ℕ, suc, ◌+◌, ◌≤◌, ◌<◌, ◌≡◌, refl, sym, ap, subst, Bool, true, false, ◌||◌, Option, List, [], ◌∷◌,
  ◌++◌, map, arith, eq_str, ok, err, ok_inj, length, length-append, All, Bool-cases, Option-cases,
  inl, inr,
}
use zanzo.Errors.{Outcome}
use zanzo.Storage.Types.{Object, Revision}
use zanzo.Storage.Parse.RoundTrip.{IsSubject}
use zanzo.Check.Cache.{Cache}
use zanzo.Check.Types.{Engine, Request, CheckResult, Evaluation, Context}
use zanzo.Check.Request.{pin, finish, run_check, check_pinned, check_request}
use zanzo.Check.Body.Caches.{IsCorrect}
use zanzo.Check.Grants.{Reaches}
use zanzo.Check.Grants.Request.{IsBacked, check_request-IsBacked}
use zanzo.Check.ListObjects.{
  ListRequest, ListResult, Search, candidates, sort, verify_request, Verified, is_full, keep,
  verify, list_result, verify_found, list_pinned, list_revision, list_objects,
}

finish-revision :
    (rev : Revision) (x : Outcome Bool) (ev : Evaluation) (res : CheckResult)
    → finish rev x ev ≡ ok res
    → res.revision ≡ rev
finish-revision rev (err y) ev res h = absurd (cc)
finish-revision rev (ok b) ev res h = sym (ap (λ s. s.revision) (ok_inj h))

-- A check at a pinned revision answers at it.
check_request-revision :
    (e : Engine) (ctx : Context) (cache : Option Cache) (req : Request) (rev : Revision)
    (res : CheckResult)
    → pin e req ≡ ok rev
    → (check_request e ctx cache req).0 ≡ ok res
    → res.revision ≡ rev
unfolding check_request run_check
check_request-revision e ctx cache req rev res p h =
    finish-revision rev _ _ res (rw (p, check_pinned) at h)

module _ (e : Engine) (req : ListRequest) where
  -- The object is reached through tuples of the request's revision.
  abbrev IsListable : Object → Type 0
  IsListable o = Reaches e.schema (e.store.read req.revision) req.subject o req.permission

  -- Objects that are reached, no more than the limit, if there is one.
  abbrev IsPage : List Object → Type 0
  IsPage os = All IsListable os × (0 < req.limit → length os ≤ req.limit)

  -- A page that has room.
  abbrev IsOpen : List Object → Type 0
  IsOpen os = All IsListable os × (0 < req.limit → length os < req.limit)

  abbrev Delivers : Verified → Type 0
  Delivers (err x, cache) = IsCorrect (IsBacked e) cache
  Delivers (ok os, cache) = IsPage os × IsCorrect (IsBacked e) cache

  All-append :
      (os : List Object) (o : Object)
      → All IsListable os
      → IsListable o
      → All IsListable (os ++ o ∷ [])
  All-append [] o h k = (k, tt)
  All-append (p ∷ os) o h k = (h.0, All-append os o h.1 k)

  grown : (os : List Object) (o : Object) → length (os ++ o ∷ []) ≡ length os + 1
  grown os o = length-append os (o ∷ [])

  not-full : (os : List Object) → is_full req os ≡ false → 0 < req.limit → length os < req.limit
  not-full os h pos = ground arith

  module _ (rest : List Object → Option Cache → Verified) where
    keep-Delivers :
        (o : Object) (found : List Object) (r : Outcome CheckResult) (cache : Option Cache)
        → ((os : List Object) (c : Option Cache)
            → IsOpen os
            → IsCorrect (IsBacked e) c
            → Delivers (rest os c))
        → IsOpen found
        → ((res : CheckResult) → r ≡ ok res → res.allowed ≡ true → IsListable o)
        → IsCorrect (IsBacked e) cache
        → Delivers (keep req rest o found r cache)
    unfolding keep
    keep-Delivers o found (err x) cache hr h b g = g
    keep-Delivers o found (ok res) cache hr h b g = elim (Bool-cases res.allowed) [
      | inr denied ↦ rw (keep, denied) (hr found cache h g)
      | inl allowed ↦
          let all = All-append found o h.0 (b res refl allowed) in
          let more = grown found o in
          elim (Bool-cases (is_full req (found ++ o ∷ []))) [
            | inl full ↦
                rw (keep, allowed, full)
                  ((all, λ pos. let room = h.1 pos in omega (arith, more, room)), g)
            | inr room ↦
                rw (keep, allowed, room)
                  (hr (found ++ o ∷ []) cache (all, not-full (found ++ o ∷ []) room) g)
          ]
    ]

  opened : (os : List Object) → IsOpen os → IsPage os
  opened os h = (h.0, λ pos. let room = h.1 pos in omega (arith, room))

module _ (e : Engine) (ctx : Context) (contexts : ℕ → Context) (req : ListRequest) where
  verify-Delivers :
      (os : List Object) (polls : ℕ) (found : List Object) (cache : Option Cache)
      → IsSubject req.subject
      → ((o : Object) → pin e (verify_request req o) ≡ ok req.revision)
      → IsOpen e req found
      → IsCorrect (IsBacked e) cache
      → Delivers e req (verify e ctx contexts req os polls found cache)
  unfolding verify
  verify-Delivers [] polls found cache hs pinned h g = (opened e req found h, g)
  verify-Delivers (o ∷ os) polls found cache hs pinned h g = elim (Option-cases (ctx polls)) [
    | inr (x, stopped) ↦ rw (verify, stopped) g
    | inl going ↦
        let at = verify_request req o in
        let (b, g') = check_request-IsBacked e (contexts polls) cache at hs g in
        rw (verify, going)
          (keep-Delivers e req (verify e ctx contexts req os (suc polls)) o found
            (check_request e (contexts polls) cache at).0
            (check_request e (contexts polls) cache at).1
            (λ os' c h' k. verify-Delivers os (suc polls) os' c hs pinned h' k) h
            (λ res p allowed.
              subst (λ rev. Reaches e.schema (e.store.read rev) req.subject o req.permission)
                (check_request-revision e (contexts polls) cache at req.revision res (pinned o) p)
                (b res p allowed))
            g')
  ]

-- The result is a page at the result's revision.
abbrev pub IsListing : Engine → ListRequest → Outcome ListResult → Type 0
IsListing e req r =
    (res : ListResult) → r ≡ ok res → IsPage e (record req { revision = res.revision }) res.objects

pub pinned-verify :
    (e : Engine) (req : ListRequest) (rev : Revision) (o : Object)
    → list_revision e req ≡ ok rev
    → pin e (verify_request (record req { revision = rev }) o) ≡ ok rev
unfolding pin
pinned-verify e req rev o h = ground (arith, e.store.head)

module _ (e : Engine) (req : ListRequest) where
  abbrev Lists : Outcome ListResult × Option Cache → Type 0
  Lists (r, cache) = IsListing e req r × IsCorrect (IsBacked e) cache

  result-Lists :
      (n : ℕ) (rev : Revision) (v : Verified)
      → Delivers e (record req { revision = rev }) v
      → Lists (list_result n rev v)
  result-Lists n rev (err x, cache) h = (λ res p. absurd (cc), h)
  result-Lists n rev (ok found, cache) h = (
    λ res p.
        subst (λ (r : ListResult). IsPage e (record req { revision = r.revision }) r.objects)
          (ok_inj p) h.0,
    h.1,
  )

  module _ (ctx : Context) (contexts : ℕ → Context) (cache : Option Cache)
      (hs : IsSubject req.subject) (g : IsCorrect (IsBacked e) cache) where
    found-Lists :
        (rev : Revision) (r : Outcome Search)
        → list_revision e req ≡ ok rev
        → Lists (verify_found e ctx contexts (record req { revision = rev }) cache r)
    found-Lists rev (err x) p = (λ res q. absurd (cc), g)
    found-Lists rev (ok s) p =
        let at : ListRequest = record req { revision = rev } in
        let ordered = sort (map (λ entry. entry.0) s.out) in
        result-Lists (length ordered) rev (verify e ctx contexts at ordered s.polls [] cache) (
          verify-Delivers e ctx contexts at ordered s.polls [] cache hs
            (λ o. pinned-verify e req rev o p) (tt, λ pos. omega (arith, pos)) g)

    pinned-Lists :
        (r : Outcome Revision)
        → list_revision e req ≡ r
        → Lists (list_pinned e ctx contexts req cache r)
    pinned-Lists (err x) p = (λ res q. absurd (cc), g)
    pinned-Lists (ok rev) p = found-Lists rev (candidates e ctx (record req { revision = rev })) p

-- ListObjects, for a subject that has a text, with no cache or a revision-keyed one whose allowing
-- entries are backed: every object that it lists is reached from the subject through tuples stored
-- at the result's revision (of an exclusion, its base is), it lists no more than a limit above 0,
-- and the allowing entries of the cache it leaves are backed, also where it fails.
pub list_objects-IsListing :
    (e : Engine) (ctx : Context) (contexts : ℕ → Context) (cache : Option Cache) (req : ListRequest)
    → IsSubject req.subject
    → IsCorrect (IsBacked e) cache
    → IsListing e req (list_objects e ctx contexts cache req).0
      × IsCorrect (IsBacked e) (list_objects e ctx contexts cache req).1
unfolding list_objects
list_objects-IsListing e ctx contexts cache req hs g =
    elim (Bool-cases (eq_str req.object_type [] || eq_str req.permission [])) [
      | inl missing ↦ rw (list_objects, missing) ((λ res q. absurd (cc)), g)
      | inr given ↦
          rw (list_objects, given)
            (pinned-Lists e req ctx contexts cache hs g (list_revision e req) refl)
    ]
