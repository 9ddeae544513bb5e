-- ===== src/Check/Expand/Fails.antt =====
-- Why Expand fails: as a check, with an error that comes from outside, or past the depth limit. So
-- it returns on every schema and store, on cycles too.
use zanzo.Base.{
  ℕ, zero, suc, ◌+◌, ◌≤◌, ◌≡◌, refl, Bool, true, false, Option, none, some, List, [], ◌∷◌, arith,
  ltb, eqb, if◌then◌else◌, Str, ok, err, Bool-cases, inl, inr,
}
use zanzo.Errors.{Error, Outcome, depth_exceeded}
use zanzo.Storage.Types.{Object, Tuple, Revision}
use zanzo.Schema.Types.{
  Rewrite, Rewrites, this, computed_userset, tuple_to_userset, union, intersection, exclusion,
  no_children, child, Relation, lookup,
}
use zanzo.Check.Types.{Engine, Context, depth_limit}
use zanzo.Check.Engine.{rewrite_of}
use zanzo.Check.Failure.{
  Cause, Caused, from_context, from_head, from_read, from_schema, too_deep, caused,
}
use zanzo.Check.Expand.{
  Tree, Expanding, pure, lift, follow, ◌>>=◌, Call, expand_subjects, expand_edges, expand_rewrite,
  expand_children, poll, expand_at, ExpandRequest, expand_result, expand_pinned, expand_request,
}

module _ (e : Engine) (ctx : Context) where
  record Fails {A : Type 0} (p : Expanding A) : Type 0 where
    at : (n : ℕ) → Caused e ctx (p n).0

  Fails-pure : {A : Type 0} (a : A) → Fails (pure a)
  Fails-pure a = record { at = λ n. tt }

  Fails-lift : {A : Type 0} (r : Outcome A) → Caused e ctx r → Fails (lift r)
  Fails-lift r h = record { at = λ n. h }

  follow-Caused :
      {A B : Type 0} (f : A → Expanding B) (r : Outcome A) (n : ℕ)
      → Caused e ctx r
      → ((a : A) → Fails (f a))
      → Caused e ctx (follow f r n).0
  follow-Caused f (ok a) n h hf = (hf a).at n
  follow-Caused f (err x) n h hf = h

  Fails-bind :
      {A B : Type 0} (p : Expanding A) (f : A → Expanding B)
      → Fails p
      → ((a : A) → Fails (f a))
      → Fails (p >>= f)
  unfolding ◌>>=◌
  Fails-bind p f hp hf = record { at = λ n. follow-Caused f (p n).0 (p n).1 (hp.at n) hf }

  Fails-if :
      {A : Type 0} (b : Bool) (p q : Expanding A) → Fails p → Fails q → Fails (if b then p else q)
  Fails-if true p q hp hq = hp
  Fails-if false p q hp hq = hq

  read-Caused :
      (rev : Revision) (o : Object) (r : Str) (x : Outcome (List Tuple))
      → e.store.read rev o r ≡ x
      → Caused e ctx x
  read-Caused rev o r (ok ts) h = tt
  read-Caused rev o r (err x) h = from_read rev o r h

  lookup-Caused :
      (type r : Str) (x : Outcome Relation) → lookup e.schema type r ≡ x → Caused e ctx x
  lookup-Caused type r (ok rel) h = tt
  lookup-Caused type r (err x) h = from_schema type r h

  Fails-read : (rev : Revision) (o : Object) (r : Str) → Fails (lift (e.store.read rev o r))
  Fails-read rev o r =
      Fails-lift (e.store.read rev o r) (read-Caused rev o r (e.store.read rev o r) refl)

  Fails-poll : (rev : Revision) → Fails (poll e ctx rev)
  unfolding poll
  Fails-poll rev = record { at = λ n. polled n (ctx n) refl }
    where
      polled :
          (n : ℕ) (x : Option Error)
          → ctx n ≡ x
          → Caused e ctx
              (elim x as (λ _. Outcome (Unit {0})) [ none ↦ ok tt | some error ↦ err error ])
      polled n none h = tt
      polled n (some error) h = from_context n h

  module _ (call : Call) (h : (o : Object) (r : Str) → Fails (call o r)) where
    subjects-Fails : (ts : List Tuple) → Fails (expand_subjects call ts)
    unfolding expand_subjects
    subjects-Fails [] = Fails-pure _
    subjects-Fails (t ∷ ts) =
        let rest = subjects-Fails ts in
        Fails-if _ _ _
          (Fails-bind _ _ (h t.subject.object t.subject.relation)
            λ below. Fails-bind _ _ rest λ found. Fails-pure _)
          (Fails-bind _ _ rest λ found. Fails-pure _)

    edges-Fails : (computed : Str) (ts : List Tuple) → Fails (expand_edges call computed ts)
    unfolding expand_edges
    edges-Fails computed [] = Fails-pure _
    edges-Fails computed (t ∷ ts) =
        Fails-bind _ _ (h t.subject.object computed)
          λ below. Fails-bind _ _ (edges-Fails computed ts) λ rest. Fails-pure _

    module _ (rev : Revision) (o : Object) (r : Str) where
      mutual
        unfolding expand_rewrite

        rewrite-Fails : (w : Rewrite) → Fails (expand_rewrite e ctx rev call o r w)
        rewrite-Fails this =
            Fails-bind _ _ (Fails-read rev o r)
              λ ts. Fails-bind _ _ (subjects-Fails ts) λ found. Fails-pure _
        rewrite-Fails (computed_userset q) = h o q
        rewrite-Fails (tuple_to_userset tupleset computed) =
            Fails-bind _ _ (Fails-read rev o tupleset)
              λ ts. Fails-bind _ _ (edges-Fails computed ts) λ found. Fails-pure _
        rewrite-Fails (union cs) = Fails-bind _ _ (children-Fails cs) λ found. Fails-pure _
        rewrite-Fails (intersection cs) = Fails-bind _ _ (children-Fails cs) λ found. Fails-pure _
        rewrite-Fails (exclusion base subtract) =
            Fails-bind _ _ (rewrite-Fails base)
              λ kept. Fails-bind _ _ (rewrite-Fails subtract) λ removed. Fails-pure _

        children-Fails : (cs : Rewrites) → Fails (expand_children e ctx rev call o r cs)
        children-Fails no_children = Fails-pure _
        children-Fails (child c cs) =
            Fails-bind _ _ (rewrite-Fails c)
              λ one. Fails-bind _ _ (children-Fails cs) λ rest. Fails-pure _

  -- The fuel left reaches past the deepest call.
  expand_at-Fails :
      (rev : Revision) (fuel : ℕ) (visited : List Str) (o : Object) (r : Str) (depth : ℕ)
      → depth_limit e + 2 ≤ depth + fuel
      → depth ≤ depth_limit e + 1
      → Fails (expand_at e ctx rev fuel visited o r depth)
  unfolding expand_at
  expand_at-Fails rev zero visited o r depth enough shallow = absurd (omega arith)
  expand_at-Fails rev (suc fuel) visited o r depth enough shallow =
      Fails-bind _ _ (Fails-poll rev) λ _. elim (Bool-cases (ltb (depth_limit e) depth)) [
        | inl deep ↦ rw deep (Fails-lift (err (depth_exceeded o r)) (too_deep o r refl))
        | inr fits ↦ rw fits (
            Fails-if _ _ _ (Fails-pure _) (
              Fails-bind _ _
                (Fails-lift (lookup e.schema o.type r)
                  (lookup-Caused o.type r (lookup e.schema o.type r) refl))
                λ rel.
                  rewrite-Fails _
                    (λ o' r'.
                      expand_at-Fails rev fuel _ o' r' (suc depth) (omega arith) (ground arith))
                    rev o r (rewrite_of rel)))
      ]

  result-Caused :
      (rev : Revision) (r : Outcome Tree) → Caused e ctx r → Caused e ctx (expand_result rev r)
  result-Caused rev (ok t) h = tt
  result-Caused rev (err x) h = h

  pinned-Caused :
      (req : ExpandRequest) (r : Outcome Revision)
      → Caused e ctx r
      → Caused e ctx (expand_pinned e ctx req r)
  pinned-Caused req (err x) h = h
  pinned-Caused req (ok rev) h =
      result-Caused rev (expand_at e ctx rev (depth_limit e + 2) [] req.object req.relation 0 0).0 (
        (expand_at-Fails rev (depth_limit e + 2) [] req.object req.relation 0 (omega arith)
            (omega arith)).at
          0)

  head-Caused : (x : Outcome Revision) → e.store.head ≡ x → Caused e ctx x
  head-Caused (ok rev) h = tt
  head-Caused (err x) h = from_head h

  revision-Caused : (rev : Revision) → Caused e ctx (if eqb rev 0 then e.store.head else ok rev)
  revision-Caused rev = elim (Bool-cases (eqb rev 0)) [
    | inl latest ↦ rw latest (head-Caused e.store.head refl)
    | inr pinned ↦ rw pinned tt
  ]

-- Whatever the schema and the data, cycles included, an Expand that fails does so with an error of
-- the context, of the store's Head or Read, or of Lookup, or past the depth limit. So the fuel never
-- runs out, and Expand returns.
pub expand_request-fails_with :
    (e : Engine) (ctx : Context) (req : ExpandRequest) (x : Error)
    → expand_request e ctx req ≡ err x
    → Cause e ctx x
unfolding expand_request
expand_request-fails_with e ctx req x h =
    caused e ctx _ x (pinned-Caused e ctx req _ (revision-Caused e ctx req.revision)) h
