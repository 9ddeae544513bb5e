-- ===== src/Check/ListObjects/Exact.antt =====
-- Which candidates ListObjects lists: the first ones that the plain recursion grants.
use mathlib.Core.List.{Perm}
use zanzo.Check.ListObjects.Order.{
  AreOrdered, IsSorted-AreOrdered, sort-IsSorted, sort-perm, sort-All,
}
use zanzo.Base.{
  ℕ, zero, suc, ◌+◌, ◌≤◌, ◌<◌, ◌≡◌, ◌≢◌, refl, sym, ap, subst, ◌∙◌, Bool, true, false, ◌||◌, Option,
  none, List, [], ◌∷◌, ◌++◌, append-nil, append_assoc, map, arith, eqb, eq_str, eq_str_iff, ok, err,
  ok_inj, length, length-append, take, take-length_append, filter, All, Bool-cases, inl, inr,
  if◌then◌else◌,
}
use zanzo.Errors.{Outcome}
use zanzo.Storage.Types.{Object, Revision}
use zanzo.Storage.Parse.RoundTrip.{IsSubject}
use zanzo.Check.Cache.{Cache}
use zanzo.Check.Types.{Engine, CheckResult, Context, depth_limit}
use zanzo.Check.Request.{pin, check_request}
use zanzo.Check.Reference.{reference}
use zanzo.Check.Body.Caches.{IsCorrect}
use zanzo.Check.Agreement.Request.{IsAnswer, Decided, check_request-agrees}
use zanzo.Check.ListObjects.Backed.{pinned-verify}
use zanzo.Check.ListObjects.{
  ListRequest, ListResult, Search, candidates, sort, verify_request, Verified, is_full, keep,
  verify, list_result, verify_found, list_pinned, list_revision, list_objects,
}

-- What a limit leaves of a list; 0 is no limit.
unfoldable pub page : ℕ → List Object → List Object
page limit os = if eqb limit 0 then os else take limit os

take-all : (n : ℕ) (os : List Object) → length os ≤ n → take n os ≡ os
take-all zero [] h = refl
take-all (suc n) [] h = refl
take-all zero (o ∷ os) h = absurd (omega arith)
take-all (suc n) (o ∷ os) h = ap (λ l. o ∷ l) (take-all n os (omega arith))

module _ (e : Engine) (ctx : Context) (contexts : ℕ → Context) (req : ListRequest)
    (f : Object → Bool) (hs : IsSubject req.subject)
    (pinned : (o : Object) → pin e (verify_request req o) ≡ ok req.revision)
    (quiet : (i : ℕ) → ctx i ≡ none) (quiet_checks : (i j : ℕ) → contexts i j ≡ none) where
  -- The plain recursion has the answer `f o` within the depth limit.
  abbrev IsTold : Object → Type 0
  IsTold o =
      reference e.schema (e.store.read req.revision) req.subject (depth_limit e + 1) o
        req.permission
      ≡ ok (f o)

  abbrev Answers : List Object → Verified → Type 0
  Answers os (r, cache) = (r ≡ ok os) × IsCorrect (IsAnswer e) cache

  page-room : (os : List Object) → (0 < req.limit → length os < req.limit) → page req.limit os ≡ os
  unfolding page
  page-room os room = elim (Bool-cases (eqb req.limit 0)) [
    | inl e ↦ rw (page, e) refl
    | inr e ↦ rw (page, e) (take-all req.limit os (ground arith))
  ]

  page-full :
      (os more : List Object)
      → is_full req os ≡ true
      → (0 < req.limit → length os ≤ req.limit)
      → page req.limit (os ++ more) ≡ os
  unfolding page
  page-full os more full room =
      let exact : req.limit ≡ length os = ground arith in
      let given : eqb req.limit 0 ≡ false = ground arith in
      rw (given, exact) (take-length_append os more)

  keep-Answers :
      (rest : List Object → Option Cache → Verified) (o : Object) (os found : List Object)
      (r : Outcome CheckResult) (cache : Option Cache)
      → ((now : List Object) (c : Option Cache)
          → (0 < req.limit → length now < req.limit)
          → IsCorrect (IsAnswer e) c
          → Answers (page req.limit (now ++ filter f os)) (rest now c))
      → (0 < req.limit → length found < req.limit)
      → Decided r (f o) req.revision
      → IsCorrect (IsAnswer e) cache
      → Answers (page req.limit (found ++ filter f (o ∷ os))) (keep req rest o found r cache)
  unfolding keep filter
  keep-Answers rest o os found r cache k room (res, p, q, _) g = elim (Bool-cases (f o)) [
    | inr denied ↦ rw (p, keep, q, denied) (k found cache room g)
    | inl allowed ↦
        let snoc = append_assoc found (o ∷ []) (filter f os) in
        let more : length (found ++ o ∷ []) ≡ length found + 1 = length-append found (o ∷ []) in
        elim (Bool-cases (is_full req (found ++ o ∷ []))) [
          | inl full ↦
              rw (p, keep, q, allowed, full)
                (
                  ap ok (
                      sym (
                        ap (page req.limit) (sym snoc)
                        ∙ page-full (found ++ o ∷ []) (filter f os) full
                            (λ pos. let free = room pos in omega (arith, more, free)))),
                  g,
                )
          | inr free ↦
              rw (p, keep, q, allowed, free)
                (subst (λ l. Answers (page req.limit l) (rest (found ++ o ∷ []) cache)) snoc
                  (k (found ++ o ∷ []) cache (λ pos. ground arith) g))
        ]
  ]

  verify-Answers :
      (os : List Object) (polls : ℕ) (found : List Object) (cache : Option Cache)
      → (0 < req.limit → length found < req.limit)
      → All IsTold os
      → IsCorrect (IsAnswer e) cache
      → Answers
          (page req.limit (found ++ filter f os))
          (verify e ctx contexts req os polls found cache)
  unfolding verify filter
  verify-Answers [] polls found cache room told g =
      (ap ok (sym (ap (page req.limit) (append-nil found) ∙ page-room found room)), g)
  verify-Answers (o ∷ os) polls found cache room told g =
      let ask = verify_request req o in
      let (decided, g') =
        check_request-agrees e (contexts polls) cache ask req.revision (f o) (pinned o) hs
          (quiet_checks polls) g told.0 in
      rw (verify, quiet polls)
        (keep-Answers (verify e ctx contexts req os (suc polls)) o os found
          (check_request e (contexts polls) cache ask).0
          (check_request e (contexts polls) cache ask).1
          (λ now c free k. verify-Answers os (suc polls) now c free told.1 k) room decided g')

-- The candidates that the walk found.
abbrev pub found_by : Search → List Object
found_by s = map (λ entry. entry.0) s.out

list_result-kept :
    (e : Engine) (n : ℕ) (rev : Revision) (os : List Object) (v : Verified)
    → v.0 ≡ ok os
    → IsCorrect (IsAnswer e) v.1
    → let (r, c) = list_result n rev v in
      (r ≡ ok (record { objects = os; candidates = n; revision = rev })) × IsCorrect (IsAnswer e) c
list_result-kept e n rev os (err x, cache) p g = absurd (cc)
list_result-kept e n rev os (ok found, cache) p g =
    (ap (λ l. ok (record { objects = l; candidates = n; revision = rev })) (ok_inj p), g)

-- The result lists the granted candidates: a page of some order of what the walk found, by types and
-- then ids, with the number of all of them.
abbrev pub ListsGranted :
    ListRequest → Revision → (Object → Bool) → List Object → Outcome ListResult → Type 0
ListsGranted req rev f found r =
    (os : List Object) × Perm os found
    × AreOrdered os
    × (r
        ≡ ok (record {
          objects = page req.limit (filter f os);
          candidates = length os;
          revision = rev;
        }))

-- For a subject that has a text, contexts that are never cancelled, and no cache or a revision-keyed
-- one that holds answers: where the plain recursion has an answer for each candidate within the depth
-- limit, ListObjects of a given type and permission puts the candidates of its walk in the order of
-- their types and ids, byte by byte, and returns those that the plain recursion grants, cut at a limit
-- above 0, with the number of all candidates and the revision that it is pinned to; and the cache it
-- leaves holds answers.
pub list_objects-IsExact :
    (e : Engine) (ctx : Context) (contexts : ℕ → Context) (cache : Option Cache) (req : ListRequest)
    (rev : Revision) (s : Search) (f : Object → Bool)
    → req.object_type ≢ []
    → req.permission ≢ []
    → list_revision e req ≡ ok rev
    → candidates e ctx (record req { revision = rev }) ≡ ok s
    → IsSubject req.subject
    → ((i : ℕ) → ctx i ≡ none)
    → ((i j : ℕ) → contexts i j ≡ none)
    → IsCorrect (IsAnswer e) cache
    → All
        (λ o.
          reference e.schema (e.store.read rev) req.subject (depth_limit e + 1) o req.permission
          ≡ ok (f o))
        (found_by s)
    → let (r, c) = list_objects e ctx contexts cache req in
      ListsGranted req rev f (found_by s) r × IsCorrect (IsAnswer e) c
unfolding list_objects
list_objects-IsExact e ctx contexts cache req rev s f typed named pinned found hs quiet quiet_checks
      g told =
    let at : ListRequest = record req { revision = rev } in
    let os = sort (found_by s) in
    let given : (eq_str req.object_type [] || eq_str req.permission []) ≡ false =
      ground (arith, eq_str_iff req.object_type [], eq_str_iff req.permission []) in
    let (p, k) =
      verify-Answers e ctx contexts at f hs (λ o. pinned-verify e req rev o pinned) quiet
        quiet_checks os s.polls [] cache (λ pos. pos) (sort-All _ (found_by s) told) g in
    let (listed, kept) =
      list_result-kept e (length os) rev (page req.limit (filter f os))
        (verify e ctx contexts at os s.polls [] cache) p k in
    rw (given, pinned, list_pinned, found, verify_found)
      (
        (os, sort-perm (found_by s), IsSorted-AreOrdered os (sort-IsSorted (found_by s)), listed),
        kept,
      )
