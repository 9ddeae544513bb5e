-- ===== src/Schema/Types.antt =====
-- internal/schema/schema.go: rewrites, relations, definitions, and Lookup.
use zanzo.Base.{none, some, Option, Str, Map, get, str_eq, ok, err}
use zanzo.Errors.{Outcome, unknown_type, no_relation}

-- The interface Rewrite has one constructor for each type that implements it. `Rewrites` is a
-- slice of rewrites.
mutual
  pub data Rewrite : Type 0 where
    this : Rewrite
    computed_userset : Str → Rewrite
    tuple_to_userset : Str → Str → Rewrite
    union intersection : Rewrites → Rewrite
    exclusion : Rewrite → Rewrite → Rewrite

  pub data Rewrites : Type 0 where
    no_children : Rewrites
    child : Rewrite → Rewrites → Rewrites

-- `rewrite` is nil for a relation that only holds stored tuples.
pub record Relation : Type 0 where
  pub name : Str
  pub rewrite : Option Rewrite

pub record Definition : Type 0 where
  pub name : Str
  pub relations : Map Str Relation

pub record Schema : Type 0 where
  pub definitions : Map Str Definition

unfoldable pub lookup_relation : Str → Str → Option Relation → Outcome Relation
lookup_relation type relation none = err (no_relation type relation)
lookup_relation type relation (some rel) = ok rel

unfoldable pub lookup_definition : Str → Str → Option Definition → Outcome Relation
unfolding lookup_relation
lookup_definition type relation none = err (unknown_type type)
lookup_definition type relation (some def) =
    lookup_relation type relation (get def.relations relation)

-- func (s *Schema) Lookup
unfoldable pub lookup : Schema → Str → Str → Outcome Relation
unfolding lookup_definition
lookup s type relation = lookup_definition type relation (get s.definitions type)
