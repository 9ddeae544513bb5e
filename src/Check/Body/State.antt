-- ===== src/Check/Body/State.antt =====
-- The invariant of the working state, for a property `P` of answers: the memo and the cache hold
-- answers with the property, and the subproblems that are being computed are known.
use mathlib.Core.Option.{some-injective}
use zanzo.Base.{
  Map, ℕ, ◌≡◌, refl, sym, ◌∙◌, ap, Bool, true, false, not, ◌||◌, ◌&&◌, Option, none, some, arith,
  Str, ok, err, get, put, get-put, get-delete, Bool-cases, inl, inr,
}
use zanzo.Errors.{Error, Outcome}
use zanzo.Storage.Types.{Object}
use zanzo.Check.Cache.{Cache, cache_get, cache_set}
use zanzo.Check.Types.{
  Engine, Request, Evaluation, Context, CheckResult, MemoKey, memo_key_eq, eq_memo_key,
  eq_memo_key_iff,
}
use zanzo.Check.Request.{new_evaluation}
use zanzo.Check.Monad.{M, gets, ◌>>=◌, Triple}
use zanzo.Check.Engine.{memo_key, cache_key, poll, remember, share, cached, is_visiting, leave}

module _ {I : Evaluation → Type 0} where
  -- A value read off the state, with what the invariant says of it.
  pub Triple-gets :
      {A B : Type 0} {Q : Outcome B → Type 0} (P : A → Type 0) (f : Evaluation → A) (k : A → M B)
      → ((ev : Evaluation) → I ev → P (f ev))
      → ((a : A) → P a → Triple I Q (k a))
      → Triple I Q (gets f >>= k)
  unfolding ◌>>=◌
  Triple-gets P f k hf hk = record { at = λ ev i. (hk (f ev) (hf ev i)).at ev i }

polled :
    (Q : Outcome (Unit {0}) → Type 0) (o : Option Error)
    → Q (ok tt)
    → ((x : Error) → o ≡ some x → Q (err x))
    → Q (elim o [ none ↦ ok tt | some error ↦ err error ])
polled Q none good bad = good
polled Q (some x) good bad = bad x refl

abbrev pub Marks : Type 0
Marks = Object → Str → Bool

module _ (e : Engine) (ctx : Context) (req : Request) where
  abbrev pub mark : Marks → Object → Str → Marks
  mark V o r o' r' = eq_memo_key (memo_key e ctx req o r) (memo_key e ctx req o' r') || V o' r'

  pub same_place :
      (o : Object) (r : Str) (o' : Object) (r' : Str)
      → eq_memo_key (memo_key e ctx req o r) (memo_key e ctx req o' r') ≡ true
      → (o ≡ o') × (r ≡ r')
  same_place o r o' r' h =
      let p = (eq_memo_key_iff (memo_key e ctx req o r) (memo_key e ctx req o' r')).0 h in
      (ap (λ k. k.object) p, ap (λ k. k.relation) p)

module _ (e : Engine) (ctx : Context) (req : Request) (P : Object → Str → Bool → Type 0) where
  -- What the checks of this request need of the cache: what it returns is an answer, and it may
  -- take in answers.
  pub record CacheLaws (Good : Option Cache → Type 0) : Type 0 where
    pub hit :
        (c : Cache) (o : Object) (r : Str) (b : Bool)
        → Good (some c)
        → cache_get c (cache_key e ctx req o r) ≡ some b
        → P o r b
    pub set :
        (c : Cache) (o : Object) (r : Str) (b : Bool)
        → Good (some c)
        → P o r b
        → Good (some (cache_set c (cache_key e ctx req o r) b))

  pub record IsConsistent (Good : Option Cache → Type 0) (V : Marks) (ev : Evaluation)
      : Type 0 where
    pub marks : (o : Object) (r : Str) → is_visiting e ctx req o r ev ≡ V o r
    pub memo :
        (o : Object) (r : Str) (b : Bool) → get ev.memo (memo_key e ctx req o r) ≡ some b → P o r b
    pub cache : Good ev.cache

  -- A check starts with nothing known and nothing marked.
  pub start-IsConsistent :
      (Good : Option Cache → Type 0) (cache : Option Cache)
      → Good cache
      → IsConsistent Good (λ o r. false) (new_evaluation cache)
  unfolding is_visiting get
  start-IsConsistent Good cache g = record {
    marks = λ o r. refl;
    memo = λ o r b h. absurd (cc);
    cache = g;
  }

  memo-put :
      (m : Map MemoKey Bool) (o : Object) (r : Str) (b : Bool)
      → P o r b
      → ((o' : Object) (r' : Str) (b' : Bool)
          → get m (memo_key e ctx req o' r') ≡ some b'
          → P o' r' b')
      → (o' : Object) (r' : Str) (b' : Bool)
      → get (put m (memo_key e ctx req o r) b) (memo_key e ctx req o' r') ≡ some b'
      → P o' r' b'
  memo-put m o r b d old o' r' b' h =
      let k = memo_key e ctx req o r in
      let j = memo_key e ctx req o' r' in
      let h' = sym (get-put m k j b) ∙ h in
      elim (Bool-cases (eq_memo_key k j)) [
        | inl q ↦
            let (x, y) = same_place e ctx req o r o' r' q in
            let z : b ≡ b' = some-injective b b' (rw q at h') in rw (← x, ← y, ← z) d
        | inr q ↦ old o' r' b' (rw q at h')
      ]

  module _ {Good : Option Cache → Type 0} (laws : CacheLaws Good) (V : Marks) where
    abbrev I : Evaluation → Type 0
    I = IsConsistent Good V

    share-keeps :
        (c : Option Cache) (o : Object) (r : Str) (b : Bool)
        → P o r b
        → Good c
        → Good (elim c [ none ↦ none | some c' ↦ some (cache_set c' (cache_key e ctx req o r) b) ])
    share-keeps none o r b d g = g
    share-keeps (some c) o r b d g = laws.set c o r b g d

    pub poll-Triple :
        {Q : Outcome (Unit {0}) → Type 0}
        → Q (ok tt)
        → ((i : ℕ) (x : Error) → ctx i ≡ some x → Q (err x))
        → Triple I Q (poll e ctx req)
    unfolding poll is_visiting
    poll-Triple {Q} good bad = record {
      at = λ ev i. (
        polled Q (ctx ev.polls) good (bad ev.polls),
        record { marks = i.marks; memo = i.memo; cache = i.cache },
      );
    }

    pub result-keeps :
        (f : CheckResult → CheckResult) (ev : Evaluation)
        → I ev
        → I (record ev { result = f ev.result })
    unfolding is_visiting
    result-keeps f ev i = record { marks = i.marks; memo = i.memo; cache = i.cache }

    pub remember-Triple :
        {Q : Outcome (Unit {0}) → Type 0} (o : Object) (r : Str) (b : Bool)
        → P o r b
        → Q (ok tt)
        → Triple I Q (remember e ctx req o r b)
    unfolding remember is_visiting
    remember-Triple o r b d q = record {
      at = λ ev i.
          (q, record { marks = i.marks; memo = memo-put ev.memo o r b d i.memo; cache = i.cache });
    }

    pub share-Triple :
        {Q : Outcome (Unit {0}) → Type 0} (o : Object) (r : Str) (b : Bool)
        → P o r b
        → Q (ok tt)
        → Triple I Q (share e ctx req o r b)
    unfolding share is_visiting
    share-Triple o r b d q = record {
      at = λ ev i. (
        q,
        record { marks = i.marks; memo = i.memo; cache = share-keeps ev.cache o r b d i.cache },
      );
    }

    -- what the memo holds for a subproblem
    pub memo-hit :
        (o : Object) (r : Str) (ev : Evaluation)
        → I ev
        → (b : Bool) → get ev.memo (memo_key e ctx req o r) ≡ some b
        → P o r b
    memo-hit o r ev i b h = i.memo o r b h

    cached-hit :
        (c : Option Cache) (o : Object) (r : Str) (b : Bool)
        → Good c
        → elim c [ none ↦ none | some c' ↦ cache_get c' (cache_key e ctx req o r) ] ≡ some b
        → P o r b
    cached-hit none o r b g h = absurd (cc)
    cached-hit (some c) o r b g h = laws.hit c o r b g h

    pub cache-hit :
        (o : Object) (r : Str) (ev : Evaluation)
        → I ev
        → (b : Bool) → cached e ctx req o r ev ≡ some b
        → P o r b
    unfolding cached
    cache-hit o r ev i b h = cached-hit ev.cache o r b i.cache h

  module _ (o : Object) (r : Str) where
    abbrev pub entered : Evaluation → Evaluation
    entered ev = record ev { visiting = put ev.visiting (memo_key e ctx req o r) true }

    abbrev here : Object → Str → Bool
    here o' r' = eq_memo_key (memo_key e ctx req o r) (memo_key e ctx req o' r')

    is_visiting-enter :
        (ev : Evaluation) (o' : Object) (r' : Str)
        → is_visiting e ctx req o' r' (entered ev) ≡ (here o' r' || is_visiting e ctx req o' r' ev)
    unfolding is_visiting
    is_visiting-enter ev o' r' =
        ground (arith, get-put ev.visiting (memo_key e ctx req o r) (memo_key e ctx req o' r') true)

    is_visiting-leave :
        (ev : Evaluation) (o' : Object) (r' : Str)
        → is_visiting e ctx req o' r' (leave e ctx req o r ev)
          ≡ (not (here o' r') && is_visiting e ctx req o' r' ev)
    unfolding is_visiting
    is_visiting-leave ev o' r' =
        ground (arith, get-delete ev.visiting (memo_key e ctx req o r) (memo_key e ctx req o' r'))

    unmark :
        (V : Marks)
        → V o r ≡ false
        → (o' : Object) (r' : Str) → (not (here o' r') && mark e ctx req V o r o' r') ≡ V o' r'
    unmark V free o' r' = elim (Bool-cases (here o' r')) [
      | inl q ↦ let (x, y) = same_place e ctx req o r o' r' q in rw (q, ← x, ← y) (sym free)
      | inr q ↦ rw q refl
    ]

    module _ {Good : Option Cache → Type 0} (V : Marks) where
      pub enter-IsConsistent :
          (ev : Evaluation)
          → IsConsistent Good V ev
          → IsConsistent Good (mark e ctx req V o r) (entered ev)
      enter-IsConsistent ev i = record {
        marks = λ o' r'. is_visiting-enter ev o' r' ∙ ap (λ b. here o' r' || b) (i.marks o' r');
        memo = i.memo;
        cache = i.cache;
      }

      pub leave-IsConsistent :
          (ev : Evaluation)
          → V o r ≡ false
          → IsConsistent Good (mark e ctx req V o r) ev
          → IsConsistent Good V (leave e ctx req o r ev)
      leave-IsConsistent ev free i = record {
        marks = λ o' r'.
            is_visiting-leave ev o' r'
            ∙ ap (λ b. not (here o' r') && b) (i.marks o' r')
            ∙ unmark V free o' r';
        memo = i.memo;
        cache = i.cache;
      }
