-- ===== src/Check/Agreement/Eval.antt =====
-- One call of eval: where the recursive calls agree with the reference, eval does.
use zanzo.Base
use zanzo.Base.{
  ℕ, ◌≡◌, refl, Bool, true, false, not, List, [], ◌∷◌, arith, Str, Result, ok, err, ok_inj, sym,
  subst, >>=-eq-ok, if◌then◌else◌, Bool-cases, inl, inr, ◌≢◌,
}
use zanzo.Errors.{Outcome}
use zanzo.Storage.Types.{Object, Subject, Tuple, is_userset, eq_subject}
use zanzo.Schema.Types.{
  Rewrite, Rewrites, this, computed_userset, tuple_to_userset, union, intersection, exclusion,
  no_children, child,
}
use zanzo.Check.Types.{Engine, Request, Evaluation, Context}
use zanzo.Check.Monad.{M, pure, lift, ◌>>=◌, Triple, Triple-lift, Triple-pure, Triple-bind}
use zanzo.Check.Engine.{Recur, any_subject, any_edge, eval, eval_any, eval_all}
use zanzo.Check.Reference.{Answer, some_subject, some_edge, meaning, meaning_any, meaning_all}

-- Started where `I` holds, `m` returns `a` and keeps `I`.
abbrev pub Gives : {A : Type 0} → (Evaluation → Type 0) → M A → A → Type 0
Gives {A} I m a = Triple I (λ (r : Outcome A). r ≡ ok a) m

-- The recursive calls agree with the answers.
abbrev pub Follows : (Evaluation → Type 0) → Recur → Answer → Type 0
Follows I recur answer =
    (o : Object) (r : Str) (b : Bool) → answer o r ≡ ok b → Gives I (recur o r) b

module _ {I : Evaluation → Type 0} where
  pub Gives-pure : {A : Type 0} (a : A) → Gives I (pure a) a
  Gives-pure a = Triple-pure a refl

  Gives-done : {a b : Bool} → ◌≡◌ {A = Outcome Bool} (ok a) (ok b) → Gives I (pure a) b
  Gives-done {a} h = Triple-pure a h

  pub Gives-lift : {A : Type 0} {r : Outcome A} {a : A} → r ≡ ok a → Gives I (lift r) a
  Gives-lift {r} h = Triple-lift r h

  pub Gives-bind :
      {A B : Type 0} {m : M A} (f : A → M B) {a : A} {b : B}
      → Gives I m a
      → Gives I (f a) b
      → Gives I (m >>= f) b
  Gives-bind {A} {B} {m} f {a} {b} h k =
      Triple-bind (λ r. r ≡ ok a) m f h (λ c p. subst (λ x. Gives I (f x) b) (sym (ok_inj p)) k)
        (λ e p. cc)

  -- a step of a loop that stops at the first grant
  Gives-or :
      (m rest : M Bool) (x y : Outcome Bool) {b : Bool}
      → ((a : Bool) → x ≡ ok a → Gives I m a)
      → (y ≡ ok b → Gives I rest b)
      → Base.◌>>=◌ x (λ g. if g then ok true else y) ≡ ok b
      → Gives I (m >>= λ g. if g then pure true else rest) b
  Gives-or m rest (ok true) y hm hr h = Gives-bind _ (hm true refl) (Gives-done h)
  Gives-or m rest (ok false) y hm hr h = Gives-bind _ (hm false refl) (hr h)
  Gives-or m rest (err e) y hm hr h = absurd (cc)

  -- a step that stops at the first denial
  Gives-and :
      (m rest : M Bool) (x y : Outcome Bool) {b : Bool}
      → ((a : Bool) → x ≡ ok a → Gives I m a)
      → (y ≡ ok b → Gives I rest b)
      → Base.◌>>=◌ x (λ g. if not g then ok false else y) ≡ ok b
      → Gives I (m >>= λ g. if not g then pure false else rest) b
  Gives-and m rest (ok true) y hm hr h = Gives-bind _ (hm true refl) (hr h)
  Gives-and m rest (ok false) y hm hr h = Gives-bind _ (hm false refl) (Gives-done h)
  Gives-and m rest (err e) y hm hr h = absurd (cc)

  Gives-if :
      (c : Bool) (m n : M Bool) (x y : Outcome Bool) {b : Bool}
      → (x ≡ ok b → Gives I m b)
      → (y ≡ ok b → Gives I n b)
      → (if c then x else y) ≡ ok b
      → Gives I (if c then m else n) b
  Gives-if true m n x y hm hn h = hm h
  Gives-if false m n x y hm hn h = hn h

  module _ (recur : Recur) (answer : Answer) (follows : Follows I recur answer) where
    any_subject-Gives :
        (s : Subject) (ts : List Tuple) (b : Bool)
        → some_subject s answer ts ≡ ok b
        → Gives I (any_subject s recur ts) b
    unfolding any_subject some_subject
    any_subject-Gives s [] b h = Gives-done h
    any_subject-Gives s (t ∷ ts) b h =
        let rest = any_subject-Gives s ts b in
        Gives-if (not (is_userset t.subject)) _ _ _ _
          (Gives-if (eq_subject t.subject s) _ _ _ _ Gives-done rest)
          (Gives-or _ _ _ _ (follows t.subject.object t.subject.relation) rest) h

    any_edge-Gives :
        (computed : Str) (ts : List Tuple) (b : Bool)
        → some_edge answer computed ts ≡ ok b
        → Gives I (any_edge recur computed ts) b
    unfolding any_edge some_edge
    any_edge-Gives computed [] b h = Gives-done h
    any_edge-Gives computed (t ∷ ts) b h =
        Gives-or _ _ _ _ (follows t.subject.object computed) (any_edge-Gives computed ts b) h

    module _ (e : Engine) (ctx : Context) (req : Request) where
      mutual
        unfolding eval meaning

        eval-Gives :
            (o : Object) (w : Rewrite) (r : Str) (b : Bool)
            → meaning e.schema (e.store.read req.revision) req.subject answer o w r ≡ ok b
            → Gives I (eval e ctx req recur o w r) b
        eval-Gives o this r b h =
            let (ts, p, q) = >>=-eq-ok (e.store.read req.revision o r) _ h in
            Gives-bind _ (Gives-lift p) (any_subject-Gives req.subject ts b q)
        eval-Gives o (computed_userset q) r b h = follows o q b h
        eval-Gives o (tuple_to_userset tupleset computed) r b h =
            let (ts, p, q) = >>=-eq-ok (e.store.read req.revision o tupleset) _ h in
            Gives-bind _ (Gives-lift p) (any_edge-Gives computed ts b q)
        eval-Gives o (union cs) r b h = any-Gives o cs r b h
        eval-Gives o (intersection no_children) r b h = Gives-done h
        eval-Gives o (intersection (child c cs)) r b h = all-Gives o (child c cs) r b h
        eval-Gives o (exclusion base subtract) r b h =
            Gives-and _ _ _ _ (eval-Gives o base r)
              (λ q.
                let (a, p, k) = >>=-eq-ok _ _ q in
                Gives-bind _ (eval-Gives o subtract r a p) (Gives-done k))
              h

        any-Gives :
            (o : Object) (cs : Rewrites) (r : Str) (b : Bool)
            → meaning_any e.schema (e.store.read req.revision) req.subject answer o cs r ≡ ok b
            → Gives I (eval_any e ctx req recur o cs r) b
        any-Gives o no_children r b h = Gives-done h
        any-Gives o (child c cs) r b h = Gives-or _ _ _ _ (eval-Gives o c r) (any-Gives o cs r b) h

        all-Gives :
            (o : Object) (cs : Rewrites) (r : Str) (b : Bool)
            → meaning_all e.schema (e.store.read req.revision) req.subject answer o cs r ≡ ok b
            → Gives I (eval_all e ctx req recur o cs r) b
        all-Gives o no_children r b h = Gives-done h
        all-Gives o (child c cs) r b h = Gives-and _ _ _ _ (eval-Gives o c r) (all-Gives o cs r b) h

      pub eval_agrees :
          (o : Object) (w : Rewrite) (r : Str) (b : Bool)
          → meaning e.schema (e.store.read req.revision) req.subject answer o w r ≡ ok b
          → Gives I (eval e ctx req recur o w r) b
      eval_agrees = eval-Gives
