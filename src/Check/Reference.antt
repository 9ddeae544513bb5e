-- ===== src/Check/Reference.antt =====
-- What a check is to compute: the plain recursion over the schema and the stored tuples, with no
-- memo, no cache, no cycle guard, no counters and no context. The first argument bounds the depth.
pub mod Growth
use zanzo.Base.{
  ℕ, zero, suc, ◌+◌, ◌≡◌, refl, Bool, true, false, not, Option, none, some, List, [], ◌∷◌,
  if◌then◌else◌, Str, Result, ok, err, ◌>>=◌,
}
use zanzo.Errors.{Error, Outcome, depth_exceeded}
use zanzo.Storage.Types.{Object, Subject, Tuple, Revision, is_userset, eq_subject}
use zanzo.Schema.Types.{
  Schema, Rewrite, Rewrites, this, computed_userset, tuple_to_userset, union, intersection,
  exclusion, no_children, child, lookup,
}
use zanzo.Check.Engine.{rewrite_of}

abbrev pub Answer : Type 0
Answer = Object → Str → Outcome Bool

-- the store's Read at the pinned revision
abbrev pub Reader : Type 0
Reader = Object → Str → Outcome (List Tuple)

unfoldable pub some_subject : Subject → Answer → List Tuple → Outcome Bool
some_subject subject answer [] = ok false
some_subject subject answer (t ∷ ts) =
    let rest = some_subject subject answer ts in
    if not (is_userset t.subject)
    then (if eq_subject t.subject subject then ok true else rest)
    else (do
      granted ← answer t.subject.object t.subject.relation
      if granted then ok true else rest)

unfoldable pub some_edge : Answer → Str → List Tuple → Outcome Bool
some_edge answer computed [] = ok false
some_edge answer computed (t ∷ ts) = do
  granted ← answer t.subject.object computed
  if granted then ok true else some_edge answer computed ts

module _ (schema : Schema) (read : Reader) (subject : Subject) where
  unfoldable mutual
    pub meaning : Answer → Object → Rewrite → Str → Outcome Bool
    meaning answer object this relation = do
      tuples ← read object relation
      some_subject subject answer tuples
    meaning answer object (computed_userset r) relation = answer object r
    meaning answer object (tuple_to_userset tupleset computed) relation = do
      tuples ← read object tupleset
      some_edge answer computed tuples
    meaning answer object (union cs) relation = meaning_any answer object cs relation
    meaning answer object (intersection no_children) relation = ok false
    meaning answer object (intersection (child c cs)) relation =
        meaning_all answer object (child c cs) relation
    meaning answer object (exclusion base subtract) relation = do
      based ← meaning answer object base relation
      if not based then ok false else do sub ← meaning answer object subtract relation; ok (not sub)

    pub meaning_any : Answer → Object → Rewrites → Str → Outcome Bool
    meaning_any answer object no_children relation = ok false
    meaning_any answer object (child c cs) relation = do
      granted ← meaning answer object c relation
      if granted then ok true else meaning_any answer object cs relation

    pub meaning_all : Answer → Object → Rewrites → Str → Outcome Bool
    meaning_all answer object no_children relation = ok true
    meaning_all answer object (child c cs) relation = do
      granted ← meaning answer object c relation
      if not granted then ok false else meaning_all answer object cs relation

  unfoldable pub reference : ℕ → Object → Str → Outcome Bool
  reference zero object relation = err (depth_exceeded object relation)
  reference (suc n) object relation = do
    rel ← lookup schema object.type relation
    meaning (reference n) object (rewrite_of rel) relation

  -- An answer that fits in some depth.
  abbrev pub Decides : Object → Str → Bool → Type 0
  Decides object relation b = (n : ℕ) × (reference n object relation ≡ ok b)
