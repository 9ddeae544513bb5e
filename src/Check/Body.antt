-- ===== src/Check/Body.antt =====
-- One call of check, for any property of its outcome: what has to hold of the memo, the cache, the
-- cycle guard, the depth limit, the context and the evaluation of the rewrite.
pub mod State
pub mod Caches
use zanzo.Base.{
  ℕ, suc, ◌+◌, ◌≤◌, ◌<◌, ◌≡◌, refl, Bool, true, false, Option, none, some, arith, Str, ok, err, get,
  if◌then◌else◌, ltb, sym,
}
use zanzo.Errors.{Error, Outcome, depth_exceeded}
use zanzo.Storage.Types.{Object}
use zanzo.Schema.Types.{Relation, lookup}
use zanzo.Check.Cache.{Cache}
use zanzo.Check.Types.{Engine, Request, Evaluation, Context, CheckResult, depth_limit}
use zanzo.Check.Monad.{
  M, pure, raise, gets, lift, ◌>>=◌, ◌>>◌, deferred, Triple, Triple-lift, Triple-pure, Triple-bind,
  Triple-modify, Triple-if,
}
use zanzo.Check.Engine.{
  Recur, update_result, remember, share, memo_key, poll, note_depth, is_visiting, cached, enter,
  leave, expand, on_miss, after_cache, after_memo, check_body, rewrite_of, eval,
}
use zanzo.Check.Body.State.{
  Triple-gets, CacheLaws, Marks, mark, IsConsistent, entered, poll-Triple, result-keeps,
  remember-Triple, share-Triple, memo-hit, cache-hit, enter-IsConsistent, leave-IsConsistent,
}

module _ (e : Engine) (ctx : Context) (req : Request) (P : Object → Str → Bool → Type 0)
    (Good : Option Cache → Type 0) (laws : CacheLaws e ctx req P Good) where
  abbrev pub State : Marks → Evaluation → Type 0
  State V = IsConsistent e ctx req P Good V

  -- count, note: updates of the result inside a chain
  counted :
      {A : Type 0} {Q : Outcome A → Type 0} (V : Marks) (f : CheckResult → CheckResult) (k : M A)
      → Triple (State V) Q k
      → Triple (State V) Q (update_result f >> k)
  counted V f k h =
      Triple-bind (λ r. r ≡ ok tt) (update_result f) (λ _. k)
        (Triple-modify _ refl (result-keeps e ctx req P laws V f)) (λ a p. h) (λ x p. absurd (cc))

  module _ (recur : Recur) (o : Object) (r : Str) (Q : Outcome Bool → Type 0) where
    -- past the poll, which only the context can fail
    after_poll :
        (V : Marks) (k : M Bool)
        → ((i : ℕ) (x : Error) → ctx i ≡ some x → Q (err x))
        → Triple (State V) Q k
        → Triple (State V) Q (poll e ctx req >> k)
    after_poll V k stopped h =
        Triple-bind Polled _ _ (poll-Triple e ctx req P laws V tt stopped) (λ _ _. h) (λ x p. p)
      where
        Polled : Outcome (Unit {0}) → Type 0
        Polled (ok _) = Unit
        Polled (err x) = Q (err x)

    -- A call past the depth limit evaluates nothing.
    pub body-deep :
        (V : Marks) (depth : ℕ)
        → ltb (depth_limit e) depth ≡ true
        → Q (err (depth_exceeded o r))
        → ((i : ℕ) (x : Error) → ctx i ≡ some x → Q (err x))
        → Triple (State V) Q (check_body e ctx req recur o r depth)
    unfolding check_body
    body-deep V depth deep q stopped = rw deep (after_poll V _ stopped (Triple-lift _ q))

    -- the steps that record an answer
    recorded :
        (V : Marks) (b : Bool)
        → P o r b
        → Q (ok b)
        → Triple (State V) Q (remember e ctx req o r b >> (share e ctx req o r b >> pure b))
    recorded V b p q =
        Triple-bind (λ x. x ≡ ok tt) (remember e ctx req o r b) _
          (remember-Triple e ctx req P laws V o r b p refl)
          (λ _ _.
            Triple-bind (λ x. x ≡ ok tt) (share e ctx req o r b) _
              (share-Triple e ctx req P laws V o r b p refl) (λ _ _. Triple-pure b q)
              (λ x h. absurd (cc)))
          (λ x h. absurd (cc))

    -- What has to hold of the evaluation of the rewrite, with an outcome in `R`.
    pub record Evaluates (V : Marks) (R : Outcome Bool → Type 0) : Type 0 where
      pub unknown : (x : Error) → lookup e.schema o.type r ≡ err x → Q (err x)
      pub evaluated :
          (rel : Relation)
          → lookup e.schema o.type r ≡ ok rel
          → Triple (State V) R (eval e ctx req recur o (rewrite_of rel) r)
      pub answered : (b : Bool) → R (ok b) → P o r b × Q (ok b)
      pub failed : (x : Error) → R (err x) → Q (err x)

    expand-Triple :
        (V : Marks) (R : Outcome Bool → Type 0)
        → Evaluates V R
        → Triple (State V) Q (expand e ctx req recur o r)
    unfolding expand
    expand-Triple V R h = counted V _ _ (
        Triple-bind (λ x. x ≡ lookup e.schema o.type r) _ _ (Triple-lift _ refl)
          (λ rel found.
            Triple-bind R _ _ (h.evaluated rel (sym found))
              (λ b p. let (w, q) = h.answered b p in recorded V b w q) h.failed)
          (λ x missing. h.unknown x (sym missing)))

    module _ (V : Marks) (R : Outcome Bool → Type 0) (cycle : V o r ≡ true → Q (ok false))
        (fresh : V o r ≡ false → Evaluates (mark e ctx req V o r) R) where
      on_miss-Triple :
          (visiting : Bool)
          → visiting ≡ V o r
          → Triple (State V) Q (on_miss e ctx req recur o r visiting)
      unfolding on_miss enter deferred ◌>>=◌
      on_miss-Triple true h = Triple-pure false (cycle (sym h))
      on_miss-Triple false h = record {
        at = λ ev i.
            let (p, j) =
              (expand-Triple (mark e ctx req V o r) R (fresh (sym h))).at
                (entered e ctx req P o r ev) (enter-IsConsistent e ctx req P o r V ev i) in
            (p, leave-IsConsistent e ctx req P o r V _ (sym h) j);
      }

      module _ (known : (got : Bool) → P o r got → Q (ok got)) where
        after_cache-Triple :
            (shared : Option Bool)
            → ((got : Bool) → shared ≡ some got → P o r got)
            → Triple (State V) Q (after_cache e ctx req recur o r shared)
        unfolding after_cache
        after_cache-Triple (some got) h = counted V _ _ (
            Triple-bind (λ x. x ≡ ok tt) (remember e ctx req o r got) _
              (remember-Triple e ctx req P laws V o r got (h got refl) refl)
              (λ _ _. Triple-pure got (known got (h got refl))) (λ x p. absurd (cc)))
        after_cache-Triple none h =
            Triple-gets (λ v. v ≡ V o r) _ _ (λ ev i. i.marks o r) on_miss-Triple

        after_memo-Triple :
            (found : Option Bool)
            → ((got : Bool) → found ≡ some got → P o r got)
            → Triple (State V) Q (after_memo e ctx req recur o r found)
        unfolding after_memo
        after_memo-Triple (some got) h = counted V _ _ (Triple-pure got (known got (h got refl)))
        after_memo-Triple none h =
            Triple-gets (λ shared. (got : Bool) → shared ≡ some got → P o r got) _ _
              (cache-hit e ctx req P laws V o r) after_cache-Triple

        pub body-Triple :
            (depth : ℕ)
            → (ltb (depth_limit e) depth ≡ true → Q (err (depth_exceeded o r)))
            → ((i : ℕ) (x : Error) → ctx i ≡ some x → Q (err x))
            → Triple (State V) Q (check_body e ctx req recur o r depth)
        unfolding check_body note_depth
        body-Triple depth deep stopped = after_poll V _ stopped (
            Triple-if _ _ _ (λ h. Triple-lift _ (deep h))
              (λ _. counted V _ _ (
                Triple-gets (λ found. (got : Bool) → found ≡ some got → P o r got) _ _
                  (memo-hit e ctx req P laws V o r) after_memo-Triple)))
