-- ===== src/Schema/Reverse.antt =====
-- internal/schema/reverse.go: Contributors and WalksInto.
pub mod Enough
pub mod Closed
pub mod Walks
use zanzo.Base.{
  ℕ, zero, suc, ◌+◌, Bool, Option, none, some, List, [], ◌∷◌, ◌++◌, eq_str, if◌then◌else◌, Str, Map,
  get, str_eq, any, length,
}
use zanzo.Schema.Types.{
  Rewrite, Rewrites, this, computed_userset, tuple_to_userset, union, intersection, exclusion,
  no_children, child, Relation, Definition, Schema,
}

-- The names found so far, in order. `seen` holds the same names. Nothing if the fuel ran out.
abbrev pub Found : Type 0
Found = Option (List Str)

abbrev pub then_found : Found → (List Str → Found) → Found
then_found none f = none
then_found (some out) f = f out

module _ (walk : Str → List Str → Found) where
  unfoldable mutual
    -- expand, with `walk` for the calls of walk
    pub expand_names : Rewrite → List Str → Found
    expand_names this out = some out
    expand_names (computed_userset r) out = walk r out
    expand_names (tuple_to_userset tupleset computed) out = some out
    expand_names (union cs) out = expand_all_names cs out
    expand_names (intersection cs) out = expand_all_names cs out
    expand_names (exclusion base subtract) out = expand_names base out

    pub expand_all_names : Rewrites → List Str → Found
    expand_all_names no_children out = some out
    expand_all_names (child c cs) out = then_found (expand_names c out) (expand_all_names cs)

abbrev pub is_found : Str → List Str → Bool
is_found name out = any (eq_str name) out

abbrev pub rewrite_at : Map Str Relation → Str → Option Rewrite
rewrite_at rels name = elim (get rels name) [ none ↦ none | some rel ↦ rel.rewrite ]

unfoldable pub walk_names : ℕ → Map Str Relation → Str → List Str → Found
walk_names zero rels name out = none
walk_names (suc n) rels name out = elim (is_found name out) [
  | Bool.true ↦ some out
  | Bool.false ↦ elim (rewrite_at rels name) [
    | none ↦ some (out ++ name ∷ [])
    | some rw ↦ expand_names (walk_names n rels) rw (out ++ name ∷ [])
  ]
]

abbrev found_or_none : Found → List Str
found_or_none none = []
found_or_none (some out) = out

-- func (s *Schema) Contributors: one call of walk for each declared relation at most, and one more
unfoldable pub contributors : Schema → Str → Str → List Str
contributors s type permission = elim (get s.definitions type) [
  | none ↦ []
  | some def ↦ found_or_none (walk_names (length def.relations + 2) def.relations permission [])
]

pub record Walk : Type 0 where
  pub object_type : Str
  pub permission : Str
  pub tupleset : Str
  pub computed : Str

module _ (type name far : Str) where
  unfoldable mutual
    -- the expand of WalksInto
    pub walks_of : Rewrite → List Walk
    walks_of this = []
    walks_of (computed_userset r) = []
    walks_of (tuple_to_userset tupleset computed) =
        if eq_str computed far
        then record {
          object_type = type;
          permission = name;
          tupleset = tupleset;
          computed = computed;
        }
          ∷ []
        else []
    walks_of (union cs) = walks_of_all cs
    walks_of (intersection cs) = walks_of_all cs
    walks_of (exclusion base subtract) = walks_of base

    pub walks_of_all : Rewrites → List Walk
    walks_of_all no_children = []
    walks_of_all (child c cs) = walks_of c ++ walks_of_all cs

unfoldable pub walks_of_relations : Str → Str → Map Str Relation → List Walk
walks_of_relations type far [] = []
walks_of_relations type far ((name, rel) ∷ rels) =
    elim rel.rewrite [ none ↦ [] | some rw ↦ walks_of type name far rw ]
    ++ walks_of_relations type far rels

unfoldable pub walks_of_definitions : Str → Map Str Definition → List Walk
walks_of_definitions far [] = []
walks_of_definitions far ((type, def) ∷ defs) =
    walks_of_relations type far def.relations ++ walks_of_definitions far defs

-- func (s *Schema) WalksInto, for one order of the maps
unfoldable pub walks_into : Schema → Str → List Walk
walks_into s far = walks_of_definitions far s.definitions
