-- ===== src/Check/ListObjects.antt =====
-- internal/check/listobjects.go: ListObjects. The frontier is a queue, so the items of one depth
-- come before those of the next: the walk goes level by level, and drops the level past the limit.
pub mod Backed
pub mod Order
pub mod Page
pub mod Exact
use zanzo.Base.{
  ℕ, zero, suc, ◌+◌, Bool, true, false, ◌&&◌, ◌||◌, not, ◌≡◌, ◌↔◌, Option, none, some, List, [],
  ◌∷◌, ◌++◌, map, arith, eqb, ltb, leb, if◌then◌else◌, Str, eq_str, eq_str_iff, Comparable, Result,
  ok, err, ◌>>=◌, Map, get, put, str_eq, length, any,
}
use zanzo.Errors.{Error, Outcome, arguments_required}
use zanzo.Storage.Types.{Object, Subject, Tuple, Revision, eq_object, eq_object_iff, object_eq}
use zanzo.Schema.Types.{Schema}
use zanzo.Schema.Reverse.{Walk, contributors, walks_into, is_found}
use zanzo.Check.Cache.{Cache}
use zanzo.Check.Types.{Engine, Request, CheckResult, Context, minimize_latency, depth_limit}
use zanzo.Check.Request.{check_request}

-- A negative `Limit` acts as 0.
pub record ListRequest : Type 0 where
  pub subject : Subject
  pub permission : Str
  pub object_type : Str
  pub revision : Revision
  pub limit : ℕ

pub record ListResult : Type 0 where
  pub objects : List Object
  pub candidates : ℕ
  pub revision : Revision

pub record Reached : Type 0 where
  pub object : Object
  pub relation : Str

unfoldable pub eq_reached : Reached → Reached → Bool
eq_reached a b = eq_object a.object b.object && eq_str a.relation b.relation

pub eq_reached_iff : (a b : Reached) → (eq_reached a b ≡ true) ↔ (a ≡ b)
unfolding eq_reached
eq_reached_iff a b =
    ground (arith, eq_object_iff a.object b.object, eq_str_iff a.relation b.relation)

instance abbrev pub reached_eq : Comparable Reached
reached_eq = record { equals = eq_reached; equals_iff = eq_reached_iff }

-- `next` holds the items of the next depth; `polls` counts the calls of ctx.Err().
pub record Search : Type 0 where
  pub out : Map Object (Unit {0})
  pub seen : Map Reached Bool
  pub next : List Subject
  pub polls : ℕ

abbrev pub new_search : Search
new_search = record { out = []; seen = []; next = []; polls = 0 }

abbrev plain_subject : Object → Subject
plain_subject o = record { object = o; relation = [] }

module _ (e : Engine) (ctx : Context) (req : ListRequest) (contributing : List Str) where
  abbrev is_seen : Reached → Search → Bool
  is_seen node s = elim (get s.seen node) [ none ↦ false | some b ↦ b ]

  -- seen[node] = true, a candidate if it contributes, and an item of the next depth
  unfoldable pub reach : Reached → Search → Search
  reach node s = record s {
    seen = put s.seen node true;
    out =
        if eq_str node.object.type req.object_type && is_found node.relation contributing
        then put s.out node.object tt
        else s.out;
    next = s.next ++ record { object = node.object; relation = node.relation } ∷ [];
  }

  unfoldable pub visit_parents : Walk → List Tuple → Search → Search
  visit_parents w [] s = s
  visit_parents w (pt ∷ pts) s =
      let child : Reached = record { object = pt.object; relation = w.permission } in
      visit_parents w pts
        (if not (eq_str pt.object.type w.object_type) || is_seen child s then s else reach child s)

  unfoldable pub visit_walks : Object → List Walk → Search → Outcome Search
  visit_walks o [] s = ok s
  visit_walks o (w ∷ ws) s = do
    parents ← e.store.read_by_subject req.revision (plain_subject o) w.tupleset
    visit_walks o ws (visit_parents w parents s)

  -- the body of the loop over the tuples of an item
  unfoldable pub visit_tuple : Tuple → Search → Outcome Search
  visit_tuple t s =
      let node : Reached = record { object = t.object; relation = t.relation } in
      if is_seen node s
      then ok s
      else visit_walks t.object (walks_into e.schema t.relation) (reach node s)

  unfoldable pub visit_tuples : List Tuple → Search → Outcome Search
  visit_tuples [] s = ok s
  visit_tuples (t ∷ ts) s = do s' ← visit_tuple t s; visit_tuples ts s'

  -- one item of the frontier
  unfoldable pub visit_item : Subject → Search → Outcome Search
  visit_item subject s = elim (ctx s.polls) [
    | some error ↦ err error
    | none ↦ do
      tuples ← e.store.read_by_subject req.revision subject []
      visit_tuples tuples (record s { polls = suc s.polls })
  ]

  unfoldable pub visit_level : List Subject → Search → Outcome Search
  visit_level [] s = ok s
  visit_level (x ∷ xs) s = do s' ← visit_item x s; visit_level xs s'

  -- the levels that are left
  unfoldable pub visit_levels : ℕ → List Subject → Search → Outcome Search
  visit_levels zero frontier s = ok s
  visit_levels (suc n) frontier s = do
    s' ← visit_level frontier (record s { next = [] })
    visit_levels n s'.next s'

-- func (e *Engine) candidates
unfoldable pub candidates : Engine → Context → ListRequest → Outcome Search
candidates e ctx req =
    visit_levels e ctx req (contributors e.schema req.object_type req.permission)
      (depth_limit e + 1) (req.subject ∷ []) new_search

-- Go's `<` on strings
unfoldable pub less_str : Str → Str → Bool
less_str s [] = false
less_str [] (b ∷ t) = true
less_str (a ∷ s) (b ∷ t) = let rest = less_str s t in if eqb a b then rest else ltb a b

unfoldable pub less_object : Object → Object → Bool
less_object a b = if not (eq_str a.type b.type) then less_str a.type b.type else less_str a.id b.id

-- sort.Slice on distinct objects, which have one order
unfoldable pub insert : Object → List Object → List Object
insert o [] = o ∷ []
insert o (p ∷ ps) = let rest = insert o ps in if less_object p o then p ∷ rest else o ∷ p ∷ ps

unfoldable pub sort : List Object → List Object
sort [] = []
sort (o ∷ os) = insert o (sort os)

abbrev pub Verified : Type 0
Verified = Outcome (List Object) × Option Cache

module _ (req : ListRequest) where
  abbrev pub verify_request : Object → Request
  verify_request o = record {
    object = o;
    relation = req.permission;
    subject = req.subject;
    revision = req.revision;
    consistency = minimize_latency;
    token = record { revision = 0 };
  }

  -- req.Limit > 0 && len(out.Objects) >= req.Limit
  abbrev pub is_full : List Object → Bool
  is_full found = ltb 0 req.limit && leb req.limit (length found)

  -- what follows the check of `o`, with `rest` for the next turn of the loop
  unfoldable pub keep :
      (List Object → Option Cache → Verified)
      → Object
      → List Object
      → Outcome CheckResult
      → Option Cache
      → Verified
  keep rest o found (err x) cache = (err x, cache)
  keep rest o found (ok res) cache = elim res.allowed [
    | false ↦ rest found cache
    | true ↦ elim (is_full (found ++ o ∷ [])) [
      | true ↦ (ok (found ++ o ∷ []), cache)
      | false ↦ rest (found ++ o ∷ []) cache
    ]
  ]

module _ (e : Engine) (ctx : Context) (contexts : ℕ → Context) (req : ListRequest) where
  -- the loop over the candidates; `polls` counts the calls of ctx.Err() in ListObjects, and the check of
  -- a candidate has its own sequence of them
  unfoldable pub verify : List Object → ℕ → List Object → Option Cache → Verified
  verify [] polls found cache = (ok found, cache)
  verify (o ∷ os) polls found cache = elim (ctx polls) [
    | some error ↦ (err error, cache)
    | none ↦
        let (r, cache') = check_request e (contexts polls) cache (verify_request req o) in
        keep req (verify os (suc polls)) o found r cache'
  ]

abbrev pub list_result : ℕ → Revision → Verified → Outcome ListResult × Option Cache
list_result n rev (err x, cache) = (err x, cache)
list_result n rev (ok found, cache) =
    (ok (record { objects = found; candidates = n; revision = rev }), cache)

abbrev pub verify_found :
    Engine
    → Context
    → (ℕ → Context)
    → ListRequest
    → Option Cache
    → Outcome Search
    → Outcome ListResult × Option Cache
verify_found e ctx contexts req cache (err x) = (err x, cache)
verify_found e ctx contexts req cache (ok s) =
    let ordered = sort (map (λ entry. entry.0) s.out) in
    list_result (length ordered) req.revision (verify e ctx contexts req ordered s.polls [] cache)

abbrev pub list_pinned :
    Engine
    → Context
    → (ℕ → Context)
    → ListRequest
    → Option Cache
    → Outcome Revision
    → Outcome ListResult × Option Cache
list_pinned e ctx contexts req cache (err x) = (err x, cache)
list_pinned e ctx contexts req cache (ok rev) =
    let at : ListRequest = record req { revision = rev } in
    verify_found e ctx contexts at cache (candidates e ctx at)

abbrev pub list_revision : Engine → ListRequest → Outcome Revision
list_revision e req = if eqb req.revision 0 then e.store.head else ok req.revision

-- func (e *Engine) ListObjects: the result, and the cache as it leaves it
unfoldable pub list_objects :
    Engine
    → Context
    → (ℕ → Context)
    → Option Cache
    → ListRequest
    → Outcome ListResult × Option Cache
list_objects e ctx contexts cache req =
    if eq_str req.object_type [] || eq_str req.permission []
    then (err arguments_required, cache)
    else list_pinned e ctx contexts req cache (list_revision e req)
