-- ===== src/Check/ListObjects/Page.antt =====
-- The page that ListObjects lists is a part of its sorted candidates.
use zanzo.Base.{
  ℕ, suc, ◌≤◌, ◌≡◌, refl, sym, ◌∙◌, ◌||◌, Option, List, [], ◌∷◌, ◌++◌, append_assoc, append-nil,
  map, arith, length, eq_str, ok, err, Bool-cases, Option-cases, inl, inr,
}
use zanzo.Errors.{Outcome}
use zanzo.Storage.Types.{Object, Revision}
use zanzo.Check.Cache.{Cache}
use zanzo.Check.Types.{Engine, CheckResult, Context}
use zanzo.Check.Request.{check_request}
use zanzo.Check.ListObjects.{
  ListRequest, ListResult, Search, candidates, sort, verify_request, Verified, is_full, keep,
  verify, list_result, verify_found, list_pinned, list_revision, list_objects,
}
use zanzo.Check.ListObjects.Order.{Follow, IsSorted, AreOrdered, IsSorted-AreOrdered, sort-IsSorted}

-- Some of these objects, in their order.
data Part : List Object → List Object → Type 0 where
  nothing : (os : List Object) → Part [] os
  takes : (o : Object) (ps os : List Object) → Part ps os → Part (o ∷ ps) (o ∷ os)
  skips : (o : Object) (ps os : List Object) → Part ps os → Part ps (o ∷ os)

Part-length : (ps os : List Object) → Part ps os → length ps ≤ length os
Part-length _ _ (nothing os) = omega arith
Part-length _ _ (takes o ps os h) = omega (arith, Part-length ps os h)
Part-length _ _ (skips o ps os h) = omega (arith, Part-length ps os h)

Follow-Part : (p : Object) (ps os : List Object) → Part ps os → Follow p os → Follow p ps
Follow-Part p _ _ (nothing os) h = tt
Follow-Part p _ _ (takes o ps os k) h = (h.0, Follow-Part p ps os k h.1)
Follow-Part p _ _ (skips o ps os k) h = Follow-Part p ps os k h.1

IsSorted-Part : (ps os : List Object) → Part ps os → IsSorted os → IsSorted ps
IsSorted-Part _ _ (nothing os) h = tt
IsSorted-Part _ _ (takes o ps os k) h = (Follow-Part o ps os k h.0, IsSorted-Part ps os k h.1)
IsSorted-Part _ _ (skips o ps os k) h = IsSorted-Part ps os k h.1

-- What is listed is what was found, and a part of the rest.
abbrev Lists : List Object → List Object → Outcome (List Object) → Type 0
Lists found os (err x) = Unit
Lists found os (ok out) = (ps : List Object) × (out ≡ found ++ ps) × Part ps os

skip-Lists :
    (found : List Object) (o : Object) (os : List Object) (r : Outcome (List Object))
    → Lists found os r
    → Lists found (o ∷ os) r
skip-Lists found o os (err x) h = tt
skip-Lists found o os (ok out) (ps, e, k) = (ps, e, skips o ps os k)

take-Lists :
    (found : List Object) (o : Object) (os : List Object) (r : Outcome (List Object))
    → Lists (found ++ o ∷ []) os r
    → Lists found (o ∷ os) r
take-Lists found o os (err x) h = tt
take-Lists found o os (ok out) (ps, e, k) =
    (o ∷ ps, e ∙ append_assoc found (o ∷ []) ps, takes o ps os k)

keep-Lists :
    (req : ListRequest) (rest : List Object → Option Cache → Verified) (o : Object)
    (os found : List Object) (r : Outcome CheckResult) (cache : Option Cache)
    → ((found' : List Object) (c : Option Cache) → Lists found' os (rest found' c).0)
    → Lists found (o ∷ os) (keep req rest o found r cache).0
unfolding keep
keep-Lists req rest o os found (err x) cache h = tt
keep-Lists req rest o os found (ok res) cache h = elim (Bool-cases res.allowed) [
  | inr denied ↦ rw (keep, denied) (skip-Lists found o os (rest found cache).0 (h found cache))
  | inl allowed ↦ elim (Bool-cases (is_full req (found ++ o ∷ []))) [
    | inl full ↦ rw (keep, allowed, full) (o ∷ [], refl, takes o [] os (nothing os))
    | inr room ↦
        rw (keep, allowed, room)
          (take-Lists found o os (rest (found ++ o ∷ []) cache).0 (h (found ++ o ∷ []) cache))
  ]
]

module _ (e : Engine) (ctx : Context) (contexts : ℕ → Context) (req : ListRequest) where
  verify-Lists :
      (os : List Object) (polls : ℕ) (found : List Object) (cache : Option Cache)
      → Lists found os (verify e ctx contexts req os polls found cache).0
  unfolding verify
  verify-Lists [] polls found cache = ([], sym (append-nil found), nothing [])
  verify-Lists (o ∷ os) polls found cache = elim (Option-cases (ctx polls)) [
    | inr (x, stopped) ↦ rw (verify, stopped) tt
    | inl going ↦
        let run = check_request e (contexts polls) cache (verify_request req o) in
        rw (verify, going)
          (keep-Lists req (verify e ctx contexts req os (suc polls)) o os found run.0 run.1
            (λ found' c. verify-Lists os (suc polls) found' c))
  ]

-- In order, and no more than the candidates.
abbrev pub IsOrdered : Outcome ListResult → Type 0
IsOrdered (err x) = Unit
IsOrdered (ok res) = AreOrdered res.objects × (length res.objects ≤ res.candidates)

result-IsOrdered :
    (os : List Object) (rev : Revision) (v : Verified)
    → Lists [] (sort os) v.0
    → IsOrdered (list_result (length (sort os)) rev v).0
result-IsOrdered os rev (err x, cache) h = tt
result-IsOrdered os rev (ok out, cache) (ps, e, k) = rw e (
  IsSorted-AreOrdered ps (IsSorted-Part ps (sort os) k (sort-IsSorted os)),
  Part-length ps (sort os) k,
)

module _ (e : Engine) (ctx : Context) (contexts : ℕ → Context) (cache : Option Cache) where
  found-IsOrdered :
      (req : ListRequest) (r : Outcome Search)
      → IsOrdered (verify_found e ctx contexts req cache r).0
  found-IsOrdered req (err x) = tt
  found-IsOrdered req (ok s) =
      let os = map (λ entry. entry.0) s.out in
      result-IsOrdered os req.revision (verify e ctx contexts req (sort os) s.polls [] cache)
        (verify-Lists e ctx contexts req (sort os) s.polls [] cache)

  pinned-IsOrdered :
      (req : ListRequest) (r : Outcome Revision)
      → IsOrdered (list_pinned e ctx contexts req cache r).0
  pinned-IsOrdered req (err x) = tt
  pinned-IsOrdered req (ok rev) =
      let at : ListRequest = record req { revision = rev } in
      found-IsOrdered at (candidates e ctx at)

-- Whatever the engine, the contexts and the cache: the objects that ListObjects lists stand in the
-- order of their types and then their ids, byte by byte, and are no more than the candidates that it
-- reports.
pub list_objects-IsOrdered :
    (e : Engine) (ctx : Context) (contexts : ℕ → Context) (cache : Option Cache) (req : ListRequest)
    → IsOrdered (list_objects e ctx contexts cache req).0
unfolding list_objects
list_objects-IsOrdered e ctx contexts cache req =
    elim (Bool-cases (eq_str req.object_type [] || eq_str req.permission [])) [
      | inl missing ↦ rw (list_objects, missing) tt
      | inr given ↦
          rw (list_objects, given) (pinned-IsOrdered e ctx contexts cache req (list_revision e req))
    ]
