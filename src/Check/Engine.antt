-- ===== src/Check/Engine.antt =====
-- internal/check/check.go: Check, check and eval. `check` recurs on fuel; a call that runs out of it
-- says so, which the proofs show never to happen in `check_request`.
use zanzo.Base.{
  ℕ, zero, suc, ◌+◌, Bool, true, false, not, Option, none, some, List, [], ◌∷◌, ltb, if◌then◌else◌,
  Str, ok, err, get, put, delete,
}
use zanzo.Errors.{depth_exceeded, out_of_fuel}
use zanzo.Storage.Types.{Object, Subject, Tuple, is_userset, eq_subject, subject_string}
use zanzo.Schema.Types.{
  Rewrite, Rewrites, Relation, this, computed_userset, tuple_to_userset, union, intersection,
  exclusion, no_children, child, lookup,
}
use zanzo.Check.Cache.{Key, cache_get, cache_set}
use zanzo.Check.Types.{
  Engine, Request, CheckResult, MemoKey, memo_key_eq, Evaluation, Context, depth_limit,
}
use zanzo.Check.Monad.{M, pure, raise, lift, gets, modify, ◌>>=◌, ◌>>◌, deferred}

-- rw := rel.Rewrite; if rw == nil { rw = schema.This{} }
abbrev pub rewrite_of : Relation → Rewrite
rewrite_of rel = elim rel.rewrite [ none ↦ this | some rw ↦ rw ]

abbrev pub update_result : (CheckResult → CheckResult) → M (Unit {0})
update_result f = modify (λ ev. record ev { result = f ev.result })

-- the caller of a recursive method: check at the next depth
abbrev pub Recur : Type 0
Recur = Object → Str → M Bool

module _ (subject : Subject) (recur : Recur) where
  -- the loop over the tuples of This
  unfoldable pub any_subject : List Tuple → M Bool
  any_subject [] = pure false
  any_subject (t ∷ ts) =
      let rest = any_subject ts in
      if not (is_userset t.subject)
      then (if eq_subject t.subject subject then pure true else rest)
      else (do
        granted ← recur t.subject.object t.subject.relation
        if granted then pure true else rest)

-- the loop over the tuples of TupleToUserset
unfoldable pub any_edge : Recur → Str → List Tuple → M Bool
any_edge recur computed [] = pure false
any_edge recur computed (t ∷ ts) = do
  granted ← recur t.subject.object computed
  if granted then pure true else any_edge recur computed ts

module _ (e : Engine) (ctx : Context) (req : Request) where
  abbrev read_tuples : Object → Str → M (List Tuple)
  read_tuples object relation = lift (e.store.read req.revision object relation)

  unfoldable mutual
    -- func (ev *evaluation) eval
    pub eval : Recur → Object → Rewrite → Str → M Bool
    eval recur object this relation = do
      tuples ← read_tuples object relation
      any_subject req.subject recur tuples
    eval recur object (computed_userset r) relation = recur object r
    eval recur object (tuple_to_userset tupleset computed) relation = do
      tuples ← read_tuples object tupleset
      any_edge recur computed tuples
    eval recur object (union children) relation = eval_any recur object children relation
    eval recur object (intersection no_children) relation = pure false
    eval recur object (intersection (child c cs)) relation =
        eval_all recur object (child c cs) relation
    eval recur object (exclusion base subtract) relation = do
      based ← eval recur object base relation
      if not based then pure false else do sub ← eval recur object subtract relation; pure (not sub)

    -- the loop over the children of Union
    pub eval_any : Recur → Object → Rewrites → Str → M Bool
    eval_any recur object no_children relation = pure false
    eval_any recur object (child c cs) relation = do
      granted ← eval recur object c relation
      if granted then pure true else eval_any recur object cs relation

    -- the loop over the children of Intersection
    pub eval_all : Recur → Object → Rewrites → Str → M Bool
    eval_all recur object no_children relation = pure true
    eval_all recur object (child c cs) relation = do
      granted ← eval recur object c relation
      if not granted then pure false else eval_all recur object cs relation

  abbrev pub memo_key : Object → Str → MemoKey
  memo_key object relation = record {
    object = object;
    relation = relation;
    subject = subject_string req.subject;
  }

  abbrev pub cache_key : Object → Str → Key
  cache_key object relation = record {
    object = object;
    relation = relation;
    subject = subject_string req.subject;
    revision = req.revision;
  }

  -- if err := ctx.Err(); err != nil { return false, err }
  unfoldable pub poll : M (Unit {0})
  poll ev = (
    elim (ctx ev.polls) [ none ↦ ok tt | some error ↦ err error ],
    record ev { polls = suc ev.polls },
  )

  unfoldable pub note_depth : ℕ → M (Unit {0})
  note_depth depth =
      update_result (λ r. if ltb r.max_depth depth then record r { max_depth = depth } else r)

  unfoldable pub remember : Object → Str → Bool → M (Unit {0})
  remember object relation allowed =
      modify (λ ev. record ev { memo = put ev.memo (memo_key object relation) allowed })

  -- if ev.engine.Cache != nil { ev.engine.Cache.Set(ck, allowed) }
  unfoldable pub share : Object → Str → Bool → M (Unit {0})
  share object relation allowed = modify (λ ev. record ev {
    cache = elim ev.cache [
      | none ↦ none
      | some c ↦ some (cache_set c (cache_key object relation) allowed)
    ];
  })

  unfoldable pub cached : Object → Str → Evaluation → Option Bool
  cached object relation ev = elim ev.cache [
    | none ↦ none
    | some c ↦ cache_get c (cache_key object relation)
  ]

  -- ev.visiting[k]
  unfoldable pub is_visiting : Object → Str → Evaluation → Bool
  is_visiting object relation ev = elim (get ev.visiting (memo_key object relation)) [
    | none ↦ false
    | some b ↦ b
  ]

  unfoldable pub enter : Object → Str → M (Unit {0})
  enter object relation =
      modify (λ ev. record ev { visiting = put ev.visiting (memo_key object relation) true })

  abbrev pub leave : Object → Str → Evaluation → Evaluation
  leave object relation ev = record ev { visiting = delete ev.visiting (memo_key object relation) }

  abbrev count_memo_hit : M (Unit {0})
  count_memo_hit = update_result (λ r. record r { memo_hits = r.memo_hits + 1 })

  abbrev count_cache_hit : M (Unit {0})
  count_cache_hit = update_result (λ r. record r { cache_hits = r.cache_hits + 1 })

  abbrev count_expansion : M (Unit {0})
  count_expansion = update_result (λ r. record r { expansions = r.expansions + 1 })

  -- from the `visiting` mark on: the part whose way out deletes the mark
  unfoldable pub expand : Recur → Object → Str → M Bool
  expand recur object relation = do
    count_expansion
    rel ← lift (lookup e.schema object.type relation)
    allowed ← eval recur object (rewrite_of rel) relation
    remember object relation allowed
    share object relation allowed
    pure allowed

  unfoldable pub on_miss : Recur → Object → Str → Bool → M Bool
  on_miss recur object relation true = pure false
  on_miss recur object relation false = do
    enter object relation
    deferred (leave object relation) (expand recur object relation)

  unfoldable pub after_cache : Recur → Object → Str → Option Bool → M Bool
  after_cache recur object relation (some got) = do
    count_cache_hit
    remember object relation got
    pure got
  after_cache recur object relation none = do
    visiting ← gets (is_visiting object relation)
    on_miss recur object relation visiting

  unfoldable pub after_memo : Recur → Object → Str → Option Bool → M Bool
  after_memo recur object relation (some got) = do count_memo_hit; pure got
  after_memo recur object relation none = do
    shared ← gets (cached object relation)
    after_cache recur object relation shared

  -- the body of check, with `recur` for its calls at the next depth
  unfoldable pub check_body : Recur → Object → Str → ℕ → M Bool
  check_body recur object relation depth = do
    poll
    if ltb (depth_limit e) depth then raise (depth_exceeded object relation) else do
      note_depth depth
      known ← gets (λ ev. get ev.memo (memo_key object relation))
      after_memo recur object relation known

  -- func (ev *evaluation) check
  unfoldable pub check : ℕ → Object → Str → ℕ → M Bool
  check zero object relation depth = raise out_of_fuel
  check (suc fuel) object relation depth =
      check_body (λ o r. check fuel o r (suc depth)) object relation depth
