-- ===== src/Check/Grants.antt =====
-- What can make a check allow: a finite chain of stored tuples that ends in the subject.
pub mod Sound
pub mod Request
pub mod Origins
use zanzo.Base.{◌≡◌, Bool, true, false, List, ◌∷◌, none, some, Str, ok}
use zanzo.Errors.{Outcome}
use zanzo.Storage.Types.{Object, Subject, Tuple, is_userset}
use zanzo.Schema.Types.{
  Schema, Rewrite, Rewrites, Relation, this, computed_userset, tuple_to_userset, union,
  intersection, exclusion, no_children, child, lookup,
}
use zanzo.Check.Engine.{rewrite_of}
use zanzo.Check.Reference.{Reader}

pub data In (t : Tuple) : List Tuple → Type 0 where
  here : {ts : List Tuple} → In t (t ∷ ts)
  there : {u : Tuple} {ts : List Tuple} → In t ts → In t (u ∷ ts)

module _ (schema : Schema) (read : Reader) (subject : Subject) where
  mutual
    -- The subject reaches the relation of the object. An exclusion asks for its base alone.
    pub data Reaches : Object → Str → Type 0 where
      by_rewrite :
          {o : Object} {r : Str} (rel : Relation)
          → lookup schema o.type r ≡ ok rel
          → Grants o r (rewrite_of rel)
          → Reaches o r

    pub data Grants : Object → Str → Rewrite → Type 0 where
      direct :
          {o : Object} {r : Str} (ts : List Tuple) (t : Tuple)
          → read o r ≡ ok ts
          → In t ts
          → is_userset t.subject ≡ false
          → t.subject ≡ subject
          → Grants o r this
      by_userset :
          {o : Object} {r : Str} (ts : List Tuple) (t : Tuple)
          → read o r ≡ ok ts
          → In t ts
          → is_userset t.subject ≡ true
          → Reaches t.subject.object t.subject.relation
          → Grants o r this
      by_computed : {o : Object} {r : Str} (q : Str) → Reaches o q → Grants o r (computed_userset q)
      by_edge :
          {o : Object} {r : Str} (tupleset computed : Str) (ts : List Tuple) (t : Tuple)
          → read o tupleset ≡ ok ts
          → In t ts
          → Reaches t.subject.object computed
          → Grants o r (tuple_to_userset tupleset computed)
      by_union : {o : Object} {r : Str} (cs : Rewrites) → Some o r cs → Grants o r (union cs)
      by_intersection :
          {o : Object} {r : Str} (c : Rewrite) (cs : Rewrites)
          → Every o r (child c cs)
          → Grants o r (intersection (child c cs))
      by_base :
          {o : Object} {r : Str} (base subtract : Rewrite)
          → Grants o r base
          → Grants o r (exclusion base subtract)

    pub data Some : Object → Str → Rewrites → Type 0 where
      this_one :
          {o : Object} {r : Str} (c : Rewrite) (cs : Rewrites)
          → Grants o r c
          → Some o r (child c cs)
      a_later :
          {o : Object} {r : Str} (c : Rewrite) (cs : Rewrites) → Some o r cs → Some o r (child c cs)

    pub data Every : Object → Str → Rewrites → Type 0 where
      done : {o : Object} {r : Str} → Every o r no_children
      both :
          {o : Object} {r : Str} (c : Rewrite) (cs : Rewrites)
          → Grants o r c
          → Every o r cs
          → Every o r (child c cs)
