-- ===== src/Check/Failure.antt =====
-- Why a check fails: each error has a cause outside the recursion, or is the depth limit.
use zanzo.Base.{
  ℕ, zero, suc, ◌+◌, ◌≤◌, ◌≡◌, refl, ◌∙◌, ap, Bool, true, false, not, List, [], ◌∷◌, Option, some,
  arith, Str, ok, err, ltb, if◌then◌else◌, subst, Bool-cases, inl, inr, Result-cases,
}
use zanzo.Errors.{Error, Outcome, depth_exceeded}
use zanzo.Storage.Types.{Object, Subject, Tuple, Revision}
use zanzo.Schema.Types.{
  Rewrite, Rewrites, this, computed_userset, tuple_to_userset, union, intersection, exclusion,
  no_children, child, lookup,
}
use zanzo.Check.Cache.{Cache}
use zanzo.Check.Types.{Engine, Request, Evaluation, Context, depth_limit}
use zanzo.Check.Monad.{M, lift, ◌>>=◌, Triple, Triple-lift, Triple-pure, Triple-bind, Triple-if}
use zanzo.Check.Engine.{Recur, any_subject, any_edge, eval, eval_any, eval_all, check, rewrite_of}
use zanzo.Check.Request.{
  pin, finish, run_check, check_pinned, check_request, enough_fuel, new_evaluation,
}
use zanzo.Check.Body.{State, body-Triple, body-deep}
use zanzo.Check.Body.State.{CacheLaws, Marks, mark, start-IsConsistent}

-- Where an error of a check comes from.
pub data Cause (e : Engine) (ctx : Context) (x : Error) : Type 0 where
  from_context : (i : ℕ) → ctx i ≡ some x → Cause e ctx x
  from_head : e.store.head ≡ err x → Cause e ctx x
  from_read : (rev : Revision) (o : Object) (r : Str) → e.store.read rev o r ≡ err x → Cause e ctx x
  from_schema : (type r : Str) → lookup e.schema type r ≡ err x → Cause e ctx x
  too_deep : (o : Object) (r : Str) → x ≡ depth_exceeded o r → Cause e ctx x

module _ (e : Engine) (ctx : Context) where
  abbrev pub Caused : {A : Type 0} → Outcome A → Type 0
  Caused (ok _) = Unit
  Caused (err x) = Cause e ctx x

  module _ (I : Evaluation → Type 0) where
    abbrev Fails : {A : Type 0} → M A → Type 0
    Fails {A} m = Triple I (Caused {A = A}) m

    Fails-bind :
        {A B : Type 0} (m : M A) (f : A → M B) → Fails m → ((a : A) → Fails (f a)) → Fails (m >>= f)
    Fails-bind m f h k = Triple-bind Caused m f h (λ a _. k a) (λ x p. p)

    Fails-if : {A : Type 0} (b : Bool) (m n : M A) → Fails m → Fails n → Fails (if b then m else n)
    Fails-if b m n h k = Triple-if b m n (λ _. h) (λ _. k)

    Fails-read : (rev : Revision) (o : Object) (r : Str) → Fails (lift (e.store.read rev o r))
    Fails-read rev o r = Triple-lift _ (caused (e.store.read rev o r) refl)
      where
        caused : (x : Outcome (List Tuple)) → e.store.read rev o r ≡ x → Caused x
        caused (ok ts) h = tt
        caused (err x) h = from_read rev o r h

    module _ (recur : Recur) (h : (o : Object) (r : Str) → Fails (recur o r)) where
      any_subject-Fails : (s : Subject) (ts : List Tuple) → Fails (any_subject s recur ts)
      unfolding any_subject
      any_subject-Fails s [] = Triple-pure false tt
      any_subject-Fails s (t ∷ ts) =
          let rest = any_subject-Fails s ts in
          Fails-if _ _ _ (Fails-if _ _ _ (Triple-pure true tt) rest) (
            Fails-bind _ _ (h t.subject.object t.subject.relation)
              (λ g. Fails-if g _ _ (Triple-pure true tt) rest))

      any_edge-Fails : (computed : Str) (ts : List Tuple) → Fails (any_edge recur computed ts)
      unfolding any_edge
      any_edge-Fails computed [] = Triple-pure false tt
      any_edge-Fails computed (t ∷ ts) =
          Fails-bind _ _ (h t.subject.object computed)
            (λ g. Fails-if g _ _ (Triple-pure true tt) (any_edge-Fails computed ts))

      module _ (req : Request) where
        mutual
          unfolding eval

          eval-Fails : (o : Object) (w : Rewrite) (r : Str) → Fails (eval e ctx req recur o w r)
          eval-Fails o this r =
              Fails-bind _ _ (Fails-read req.revision o r) (any_subject-Fails req.subject)
          eval-Fails o (computed_userset q) r = h o q
          eval-Fails o (tuple_to_userset tupleset computed) r =
              Fails-bind _ _ (Fails-read req.revision o tupleset) (any_edge-Fails computed)
          eval-Fails o (union cs) r = eval_any-Fails o cs r
          eval-Fails o (intersection no_children) r = Triple-pure false tt
          eval-Fails o (intersection (child c cs)) r = eval_all-Fails o (child c cs) r
          eval-Fails o (exclusion base subtract) r = Fails-bind _ _ (eval-Fails o base r) (λ g.
              Fails-if _ _ _ (Triple-pure false tt)
                (Fails-bind _ _ (eval-Fails o subtract r) (λ sub. Triple-pure (not sub) tt)))

          eval_any-Fails :
              (o : Object) (cs : Rewrites) (r : Str) → Fails (eval_any e ctx req recur o cs r)
          eval_any-Fails o no_children r = Triple-pure false tt
          eval_any-Fails o (child c cs) r =
              Fails-bind _ _ (eval-Fails o c r)
                (λ g. Fails-if g _ _ (Triple-pure true tt) (eval_any-Fails o cs r))

          eval_all-Fails :
              (o : Object) (cs : Rewrites) (r : Str) → Fails (eval_all e ctx req recur o cs r)
          eval_all-Fails o no_children r = Triple-pure true tt
          eval_all-Fails o (child c cs) r =
              Fails-bind _ _ (eval-Fails o c r)
                (λ g. Fails-if _ _ _ (Triple-pure false tt) (eval_all-Fails o cs r))

  module _ (req : Request) where
    abbrev Anything : Object → Str → Bool → Type 0
    Anything o r b = Unit

    no_laws : CacheLaws e ctx req Anything (λ c. Unit)
    no_laws = record { hit = λ c o r b g h. tt; set = λ c o r b g p. tt }

    abbrev Any : Marks → Evaluation → Type 0
    Any = State e ctx req Anything (λ c. Unit) no_laws

    -- The fuel left reaches past the deepest call.
    check-Fails :
        (fuel depth : ℕ) (V : Marks)
        → depth_limit e + 2 ≤ depth + fuel
        → depth ≤ depth_limit e + 1
        → (o : Object) (r : Str) → Fails (Any V) (check e ctx req fuel o r depth)
    unfolding check
    check-Fails zero depth V enough shallow o r = absurd (omega arith)
    check-Fails (suc fuel) depth V enough shallow o r =
        let recur = λ (o' : Object) (r' : Str). check e ctx req fuel o' r' (suc depth) in
        elim (Bool-cases (ltb (depth_limit e) depth)) [
          | inl deep ↦
              body-deep e ctx req Anything (λ c. Unit) no_laws recur o r Caused V depth deep
                (too_deep o r refl) (λ i x. from_context i)
          | inr fits ↦
              body-Triple e ctx req Anything (λ c. Unit) no_laws recur o r Caused V Caused (λ _. tt)
                (λ _. record {
                  unknown = λ x missing. from_schema o.type r missing;
                  evaluated = λ rel found.
                      eval-Fails (Any (mark e ctx req V o r)) recur
                        (check-Fails fuel (suc depth) (mark e ctx req V o r) (omega arith)
                          (ground arith))
                        req o (rewrite_of rel) r;
                  answered = λ b p. (tt, tt);
                  failed = λ x p. p;
                })
                (λ got p. tt) depth (λ _. too_deep o r refl) (λ i x. from_context i)
        ]

    run_check-Fails : (cache : Option Cache) → Caused (run_check e ctx cache req).0
    unfolding run_check
    run_check-Fails cache =
        let start = new_evaluation cache in
        let run = check e ctx req (enough_fuel e) req.object req.relation 0 start in
        finished run.0
          ((check-Fails (enough_fuel e) 0 (λ o r. false) (omega arith) (omega arith) req.object
              req.relation).at
            start (start-IsConsistent e ctx req Anything (λ c. Unit) cache tt)).0
      where
        finished :
            (x : Outcome Bool)
            → Caused x
            → Caused (
                finish req.revision x
                  (check e ctx req
                    (enough_fuel e)
                    req.object
                    req.relation
                    0
                    (new_evaluation cache)).1)
        finished (ok b) p = tt
        finished (err x) p = p

    pin-Fails : (x : Error) → pin e req ≡ err x → e.store.head ≡ err x
    unfolding pin
    pin-Fails x h = ground (arith, e.store.head)

pub caused :
    (e : Engine) (ctx : Context) {A : Type 0} (r : Outcome A) (x : Error)
    → Caused e ctx r
    → r ≡ err x
    → Cause e ctx x
caused e ctx (ok a) x c h = absurd (cc)
caused e ctx (err y) x c h = let same : y ≡ x = ground arith in subst (Cause e ctx) same c

-- Whatever the schema, the data and the cache, a check that fails does so with an error of the
-- context, of the store's Head or Read, or of the schema's Lookup, or with a subproblem past the
-- depth limit. So the fuel that the model hands out never runs out, and every check returns.
pub check_request-fails_with :
    (e : Engine) (ctx : Context) (cache : Option Cache) (req : Request) (x : Error)
    → (check_request e ctx cache req).0 ≡ err x
    → Cause e ctx x
unfolding check_request
check_request-fails_with e ctx cache req x h = elim (Result-cases (pin e req)) [
  | inl (rev, p) ↦
      caused e ctx _ x (run_check-Fails e ctx (record req { revision = rev }) cache)
        (rw (p, check_pinned) at h)
  | inr (y, p) ↦
      let same : y ≡ x = ground arith in from_head (pin-Fails e ctx req x (p ∙ ap err same))
]
