-- ===== src/Check/Expand.antt =====
-- internal/check/expand.go: Expand. Each call takes its mark off `visited` when it returns, so the
-- marks of the calls above it are an argument; the calls of ctx.Err() are counted.
pub mod Fails
pub mod Admits
pub mod Plain
mod Call
pub mod Agrees
use zanzo.Base.{
  ℕ, zero, suc, ◌+◌, Bool, true, false, Option, none, some, List, [], ◌∷◌, ◌++◌, ltb, eqb,
  if◌then◌else◌, Str, codes, eq_str, Result, ok, err, any,
}
use zanzo.Errors.{Error, Outcome, depth_exceeded, out_of_fuel}
use zanzo.Storage.Types.{Object, Tuple, Revision, is_userset, object_string, subject_string, hash}
use zanzo.Schema.Types.{
  Rewrite, Rewrites, this, computed_userset, tuple_to_userset, union, intersection, exclusion,
  no_children, child, lookup,
}
use zanzo.Check.Types.{Engine, Context, depth_limit}
use zanzo.Check.Engine.{rewrite_of}

mutual
  -- TreeNode: its type, object, relation, subjects and children
  pub data Tree : Type 0 where
    node : Str → Str → Str → List Str → Trees → Tree

  pub data Trees : Type 0 where
    no_trees : Trees
    tree : Tree → Trees → Trees

abbrev pub Expanding : Type 0 → Type 0
Expanding A = ℕ → Outcome A × ℕ

abbrev pub pure : {A : Type 0} → A → Expanding A
pure a n = (ok a, n)

abbrev pub raise : {A : Type 0} → Error → Expanding A
raise x n = (err x, n)

abbrev pub lift : {A : Type 0} → Outcome A → Expanding A
lift r n = (r, n)

abbrev pub follow : {A B : Type 0} → (A → Expanding B) → Outcome A → ℕ → Outcome B × ℕ
follow f (ok a) n = f a n
follow f (err x) n = (err x, n)

infixl 5 ◌>>=◌ ◌>>◌
unfoldable pub ◌>>=◌ : {A B : Type 0} → Expanding A → (A → Expanding B) → Expanding B
◌>>=◌ m f n = let (r, n') = m n in follow f r n'

abbrev pub ◌>>◌ : {A B : Type 0} → Expanding A → Expanding B → Expanding B
m >> k = m >>= λ _. k

-- the call of expand for another object and relation, at the next depth
abbrev pub Call : Type 0
Call = Object → Str → Expanding Tree

-- the loop over the tuples of This: the subjects and the children
unfoldable pub expand_subjects : Call → List Tuple → Expanding (List Str × Trees)
expand_subjects call [] = pure ([], no_trees)
expand_subjects call (t ∷ ts) =
    let rest = expand_subjects call ts in
    if is_userset t.subject
    then (do
      below ← call t.subject.object t.subject.relation
      found ← rest
      pure (subject_string t.subject ∷ found.0, tree below found.1))
    else (do found ← rest; pure (subject_string t.subject ∷ found.0, found.1))

-- the loop over the tuples of TupleToUserset
unfoldable pub expand_edges : Call → Str → List Tuple → Expanding Trees
expand_edges call computed [] = pure no_trees
expand_edges call computed (t ∷ ts) = do
  below ← call t.subject.object computed
  rest ← expand_edges call computed ts
  pure (tree below rest)

module _ (e : Engine) (ctx : Context) (rev : Revision) where
  unfoldable mutual
    -- func (e *Engine) expandRewrite
    pub expand_rewrite : Call → Object → Str → Rewrite → Expanding Tree
    expand_rewrite call object relation this = do
      tuples ← lift (e.store.read rev object relation)
      found ← expand_subjects call tuples
      pure (node (codes "leaf") (object_string object) relation found.0 found.1)
    expand_rewrite call object relation (computed_userset r) = call object r
    expand_rewrite call object relation (tuple_to_userset tupleset computed) = do
      tuples ← lift (e.store.read rev object tupleset)
      children ← expand_edges call computed tuples
      pure (node (codes "tupleset") (object_string object) tupleset [] children)
    expand_rewrite call object relation (union cs) = do
      children ← expand_children call object relation cs
      pure (node (codes "union") (object_string object) relation [] children)
    expand_rewrite call object relation (intersection cs) = do
      children ← expand_children call object relation cs
      pure (node (codes "intersection") (object_string object) relation [] children)
    expand_rewrite call object relation (exclusion base subtract) = do
      kept ← expand_rewrite call object relation base
      removed ← expand_rewrite call object relation subtract
      pure (
          node (codes "exclusion") (object_string object) relation []
            (tree kept (tree removed no_trees)))

    -- the loop over the children
    pub expand_children : Call → Object → Str → Rewrites → Expanding Trees
    expand_children call object relation no_children = pure no_trees
    expand_children call object relation (child c cs) = do
      first ← expand_rewrite call object relation c
      rest ← expand_children call object relation cs
      pure (tree first rest)

  -- if err := ctx.Err(); err != nil { return nil, err }
  unfoldable pub poll : Expanding (Unit {0})
  poll n = (elim (ctx n) [ none ↦ ok tt | some error ↦ err error ], suc n)

  abbrev pub visit_key : Object → Str → Str
  visit_key object relation = object_string object ++ hash ∷ relation

  -- func (e *Engine) expand, on fuel
  unfoldable pub expand_at : ℕ → List Str → Object → Str → ℕ → Expanding Tree
  expand_at zero visited object relation depth = raise out_of_fuel
  expand_at (suc n) visited object relation depth = do
    poll
    if ltb (depth_limit e) depth
        then raise (depth_exceeded object relation)
        else if any (eq_str (visit_key object relation)) visited
        then pure (node (codes "leaf") (object_string object) relation [] no_trees)
        else (do
          rel ← lift (lookup e.schema object.type relation)
          expand_rewrite (λ o r. expand_at n (visit_key object relation ∷ visited) o r (suc depth))
              object relation (rewrite_of rel))

pub record ExpandRequest : Type 0 where
  pub object : Object
  pub relation : Str
  pub revision : Revision

pub record ExpandResult : Type 0 where
  pub tree : Tree
  pub revision : Revision

abbrev pub expand_result : Revision → Outcome Tree → Outcome ExpandResult
expand_result rev (err x) = err x
expand_result rev (ok t) = ok (record { tree = t; revision = rev })

abbrev pub expand_pinned :
    Engine → Context → ExpandRequest → Outcome Revision → Outcome ExpandResult
expand_pinned e ctx req (err x) = err x
expand_pinned e ctx req (ok rev) =
    expand_result rev (expand_at e ctx rev (depth_limit e + 2) [] req.object req.relation 0 0).0

-- func (e *Engine) Expand
unfoldable pub expand_request : Engine → Context → ExpandRequest → Outcome ExpandResult
expand_request e ctx req =
    expand_pinned e ctx req (if eqb req.revision 0 then e.store.head else ok req.revision)
