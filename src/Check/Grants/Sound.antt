-- ===== src/Check/Grants/Sound.antt =====
-- An allowing check is backed by stored tuples.
use zanzo.Base.{
  ℕ, zero, suc, ◌≡◌, refl, sym, ap, Bool, true, false, not, List, [], ◌∷◌, Option, arith, Str, ok,
  ok_inj, if◌then◌else◌,
}
use zanzo.Errors.{Outcome}
use zanzo.Storage.Types.{Object, Tuple, is_userset, eq_subject, eq_subject_iff}
use zanzo.Schema.Types.{
  Rewrite, Rewrites, Relation, this, computed_userset, tuple_to_userset, union, intersection,
  exclusion, no_children, child, lookup,
}
use zanzo.Check.Cache.{Cache}
use zanzo.Check.Types.{Engine, Request, Evaluation, Context}
use zanzo.Check.Monad.{
  M, pure, lift, ◌>>=◌, Triple, Triple-lift, Triple-pure, Triple-bind, Triple-if, Triple-imp,
}
use zanzo.Check.Engine.{Recur, any_subject, any_edge, eval, eval_any, eval_all, check, rewrite_of}
use zanzo.Check.Body.{State, body-Triple}
use zanzo.Check.Body.State.{CacheLaws, Marks, mark}
use zanzo.Check.Grants.{
  In, here, there, Reaches, by_rewrite, Grants, direct, by_userset, by_computed, by_edge, by_union,
  by_intersection, by_base, Some, this_one, a_later, Every, done, both,
}

-- An outcome that allows has the reason `G`.
abbrev Because : Type 0 → Outcome Bool → Type 0
Because G x = x ≡ ok true → G

module _ (I : Evaluation → Type 0) where
  abbrev Sound : Type 0 → M Bool → Type 0
  Sound G m = Triple I (Because G) m

  Sound-false : {G : Type 0} → Sound G (pure false)
  Sound-false = Triple-pure false (λ h. absurd (cc))

  Sound-or :
      {F G : Type 0} (m rest : M Bool)
      → Sound F m
      → (F → G)
      → Sound G rest
      → Sound G (m >>= λ g. if g then pure true else rest)
  Sound-or {F} {G} m rest hm f hr =
      Triple-bind (Because F) m _ hm
        (λ g p. Triple-if g _ _ (λ t. Triple-pure true (λ _. f (p (ap ok t)))) (λ _. hr))
        (λ x p h. absurd (cc))

  Sound-and :
      {F G H : Type 0} (m rest : M Bool)
      → Sound F m
      → Sound G rest
      → (F → G → H)
      → Sound H (m >>= λ g. if not g then pure false else rest)
  Sound-and {F} {G} {H} m rest hm hr f =
      Triple-bind (Because F) m _ hm
        (λ g p.
          Triple-if (not g) _ _ (λ _. Sound-false)
            (λ t. Triple-imp rest hr (λ x q h. f (p (ap ok (ground arith))) (q h))))
        (λ x p h. absurd (cc))

module _ (e : Engine) (ctx : Context) (req : Request) where
  abbrev Reached : Object → Str → Type 0
  Reached = Reaches e.schema (e.store.read req.revision) req.subject

  abbrev Granted : Object → Str → Rewrite → Type 0
  Granted = Grants e.schema (e.store.read req.revision) req.subject

  module _ (I : Evaluation → Type 0) (recur : Recur)
      (hr : (o : Object) (r : Str) → Sound I (Reached o r) (recur o r)) where
    any_subject-Sound :
        (o : Object) (r : Str) (all ts : List Tuple)
        → e.store.read req.revision o r ≡ ok all
        → ((t : Tuple) → In t ts → In t all)
        → Sound I (Granted o r this) (any_subject req.subject recur ts)
    unfolding any_subject
    any_subject-Sound o r all [] h sub = Sound-false I
    any_subject-Sound o r all (t ∷ ts) h sub =
        let rest = any_subject-Sound o r all ts h (λ u i. sub u (there i)) in
        Triple-if (not (is_userset t.subject)) _ _
          (λ plain.
            Triple-if (eq_subject t.subject req.subject) _ _
              (λ same. Triple-pure true (λ _.
                direct all t h (sub t here) (ground arith)
                  ((eq_subject_iff t.subject req.subject).0 same)))
              (λ _. rest))
          (λ userset.
            Sound-or I _ _ (hr t.subject.object t.subject.relation)
              (by_userset all t h (sub t here) (ground arith)) rest)

    any_edge-Sound :
        (o : Object) (r tupleset computed : Str) (all ts : List Tuple)
        → e.store.read req.revision o tupleset ≡ ok all
        → ((t : Tuple) → In t ts → In t all)
        → Sound I (Granted o r (tuple_to_userset tupleset computed)) (any_edge recur computed ts)
    unfolding any_edge
    any_edge-Sound o r tupleset computed all [] h sub = Sound-false I
    any_edge-Sound o r tupleset computed all (t ∷ ts) h sub =
        Sound-or I _ _ (hr t.subject.object computed)
          (by_edge tupleset computed all t h (sub t here))
          (any_edge-Sound o r tupleset computed all ts h (λ u i. sub u (there i)))

    reading :
        {G : Type 0} (o : Object) (r : Str) (k : List Tuple → M Bool)
        → ((ts : List Tuple) → e.store.read req.revision o r ≡ ok ts → Sound I G (k ts))
        → Sound I G (lift (e.store.read req.revision o r) >>= k)
    reading o r k h =
        Triple-bind (λ x. x ≡ e.store.read req.revision o r) _ k (Triple-lift _ refl)
          (λ ts p. h ts (sym p)) (λ x p q. absurd (cc))

    mutual
      unfolding eval

      eval-Sound :
          (o : Object) (w : Rewrite) (r : Str)
          → Sound I (Granted o r w) (eval e ctx req recur o w r)
      eval-Sound o this r = reading o r _ (λ ts h. any_subject-Sound o r ts ts h (λ t i. i))
      eval-Sound o (computed_userset q) r = Triple-imp _ (hr o q) (λ x p h. by_computed q (p h))
      eval-Sound o (tuple_to_userset tupleset computed) r =
          reading o tupleset _ (λ ts h. any_edge-Sound o r tupleset computed ts ts h (λ t i. i))
      eval-Sound o (union cs) r = Triple-imp _ (eval_any-Sound o cs r) (λ x p h. by_union cs (p h))
      eval-Sound o (intersection no_children) r = Sound-false I
      eval-Sound o (intersection (child c cs)) r =
          Triple-imp _ (eval_all-Sound o (child c cs) r) (λ x p h. by_intersection c cs (p h))
      eval-Sound o (exclusion base subtract) r =
          Sound-and I {G = Unit} _ _ (eval-Sound o base r)
            (Triple-bind (Because Unit) _ _ (Triple-imp _ (eval-Sound o subtract r) (λ x p h. tt))
              (λ g p. Triple-pure (not g) (λ h. tt)) (λ x p h. tt))
            (λ g u. by_base base subtract g)

      eval_any-Sound :
          (o : Object) (cs : Rewrites) (r : Str)
          → Sound I
              (Some e.schema (e.store.read req.revision) req.subject o r cs)
              (eval_any e ctx req recur o cs r)
      eval_any-Sound o no_children r = Sound-false I
      eval_any-Sound o (child c cs) r =
          Sound-or I _ _ (eval-Sound o c r) (this_one c cs)
            (Triple-imp _ (eval_any-Sound o cs r) (λ x p h. a_later c cs (p h)))

      eval_all-Sound :
          (o : Object) (cs : Rewrites) (r : Str)
          → Sound I
              (Every e.schema (e.store.read req.revision) req.subject o r cs)
              (eval_all e ctx req recur o cs r)
      eval_all-Sound o no_children r = Triple-pure true (λ h. done)
      eval_all-Sound o (child c cs) r =
          Sound-and I _ _ (eval-Sound o c r) (eval_all-Sound o cs r) (both c cs)

  -- An allowing answer is backed.
  abbrev Backed : Object → Str → Bool → Type 0
  Backed o r b = b ≡ true → Reached o r

  module _ (Good : Option Cache → Type 0) (laws : CacheLaws e ctx req Backed Good) where
    pub check-Sound :
        (fuel depth : ℕ) (V : Marks) (o : Object) (r : Str)
        → Sound (State e ctx req Backed Good laws V) (Reached o r) (check e ctx req fuel o r depth)
    unfolding check
    check-Sound zero depth V o r = Triple-lift _ (λ h. absurd (cc))
    check-Sound (suc fuel) depth V o r =
        let recur = λ (o' : Object) (r' : Str). check e ctx req fuel o' r' (suc depth) in
        body-Triple e ctx req Backed Good laws recur o r (Because (Reached o r)) V
          (λ x.
            x ≡ ok true
            → (rel : Relation) × (lookup e.schema o.type r ≡ ok rel) × Granted o r (rewrite_of rel))
          (λ v h. absurd (cc))
          (λ v. record {
            unknown = λ x missing h. absurd (cc);
            evaluated = λ rel found.
                Triple-imp _
                  (eval-Sound (State e ctx req Backed Good laws (mark e ctx req V o r)) recur
                    (check-Sound fuel (suc depth) (mark e ctx req V o r)) o (rewrite_of rel) r)
                  (λ x p h. (rel, found, p h));
            answered = λ b p.
                let backed =
                  λ (h : b ≡ true). let (rel, found, g) = p (ap ok h) in by_rewrite rel found g in
                (backed, λ h. backed (ok_inj h));
            failed = λ x p h. absurd (cc);
          })
          (λ got p h. p (ok_inj h)) depth (λ deep h. absurd (cc)) (λ i x p h. absurd (cc))
