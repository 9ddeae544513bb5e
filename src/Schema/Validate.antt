-- ===== src/Schema/Validate.antt =====
-- internal/schema/parse.go: validate, and the exported Parse.
pub mod Closed
pub mod Total
use zanzo.Base.{
  ℕ, suc, Option, none, some, List, [], ◌∷◌, Str, Result, ok, err, get, str_eq, ◌>>=◌, Map, length,
}
use zanzo.Schema.Types.{
  Rewrite, Rewrites, this, computed_userset, tuple_to_userset, union, intersection, exclusion,
  no_children, child, Relation, Definition, Schema,
}
use zanzo.Schema.Lexer.{Token, lex}
use zanzo.Schema.Parser.{
  SyntaxError, undefined_reference, undefined_walk, Parsed, parse_definitions, parse_fuel,
}

abbrev pub Checked : Type 0
Checked = Result SyntaxError (Unit {0})

infixl 5 ◌>>◌
abbrev pub ◌>>◌ : {A : Type 0} → Checked → Result SyntaxError A → Result SyntaxError A
r >> k = r >>= λ _. k

-- `if _, ok := def.Relations[r]; !ok { return e }`
abbrev pub require : Option Relation → SyntaxError → Checked
require (some rel) e = ok tt
require none e = err e

module _ (def : Definition) (name : Str) where
  unfoldable mutual
    -- func validateRewrite(def *Definition, relName string, rw Rewrite)
    pub validate_rewrite : Rewrite → Checked
    validate_rewrite this = ok tt
    validate_rewrite (computed_userset r) =
        require (get def.relations r) (undefined_reference def.name name r)
    validate_rewrite (tuple_to_userset tupleset computed) =
        require (get def.relations tupleset) (undefined_walk def.name name tupleset)
    validate_rewrite (union cs) = validate_all cs
    validate_rewrite (intersection cs) = validate_all cs
    validate_rewrite (exclusion base subtract) = do validate_rewrite base; validate_rewrite subtract

    -- the loops over children
    pub validate_all : Rewrites → Checked
    validate_all no_children = ok tt
    validate_all (child c cs) = do validate_rewrite c; validate_all cs

abbrev pub validate_relation : Definition → Relation → Checked
validate_relation def rel = elim rel.rewrite [
  | none ↦ ok tt
  | some rw ↦ validate_rewrite def rel.name rw
]

unfoldable pub validate_relations : Definition → Map Str Relation → Checked
validate_relations def [] = ok tt
validate_relations def ((name, rel) ∷ rels) = do
  validate_relation def rel
  validate_relations def rels

unfoldable pub validate_definitions : Map Str Definition → Checked
validate_definitions [] = ok tt
validate_definitions ((name, def) ∷ defs) = do
  validate_relations def def.relations
  validate_definitions defs

-- func validate(s *Schema), for one order of the maps
abbrev pub validate : Schema → Checked
validate s = validate_definitions s.definitions

abbrev pub new_schema : Schema
new_schema = record { definitions = [] }

-- the end of parseSchema
abbrev pub finish : Parsed Schema → Result SyntaxError Schema
finish (err e) = err e
finish (ok (s, ts)) = do validate s; ok s

-- func Parse(src string)
unfoldable pub parse : Str → Result SyntaxError Schema
parse src = let ts = lex src in finish (parse_definitions (parse_fuel ts) new_schema ts)
