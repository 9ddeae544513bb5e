-- ===== src/Schema/Validate/Total.antt =====
-- Parse returns on every source.
use zanzo.Base.{
  ℕ, ◌≡◌, subst, Option, none, some, [], ◌∷◌, arith, Str, Result, ok, err, Map, get, str_eq, length,
}
use zanzo.Schema.Types.{
  Rewrite, Rewrites, this, computed_userset, tuple_to_userset, union, intersection, exclusion,
  no_children, child, Relation, Definition, Schema,
}
use zanzo.Schema.Lexer.{lex}
use zanzo.Schema.Lexer.Ended.{lex-IsEnded}
use zanzo.Schema.Parser.{SyntaxError, Parsed, parse_definitions, parse_fuel}
use zanzo.Schema.Parser.Good.{IsReported, Leaves}
use zanzo.Schema.Parser.Definitions.{Within-parse_definitions}
use zanzo.Schema.Validate.{
  Checked, ◌>>◌, require, validate_rewrite, validate_all, validate_relation, validate_relations,
  validate_definitions, new_schema, finish, parse,
}

abbrev Reports : {A : Type 0} → Result SyntaxError A → Type 0
Reports (ok a) = Unit
Reports (err e) = IsReported e

Reports-require : (o : Option Relation) (e : SyntaxError) → IsReported e → Reports (require o e)
Reports-require none e h = h
Reports-require (some rel) e h = tt

Reports-then :
    {A : Type 0} (r : Checked) (k : Result SyntaxError A) → Reports r → Reports k → Reports (r >> k)
Reports-then (ok u) k h g = g
Reports-then (err e) k h g = h

module _ (def : Definition) (name : Str) where
  mutual
    unfolding validate_rewrite

    Reports-rewrite : (rw : Rewrite) → Reports (validate_rewrite def name rw)
    Reports-rewrite this = tt
    Reports-rewrite (computed_userset r) = Reports-require (get def.relations r) _ tt
    Reports-rewrite (tuple_to_userset tupleset computed) =
        Reports-require (get def.relations tupleset) _ tt
    Reports-rewrite (union cs) = Reports-all cs
    Reports-rewrite (intersection cs) = Reports-all cs
    Reports-rewrite (exclusion base subtract) =
        Reports-then (validate_rewrite def name base) _ (Reports-rewrite base)
          (Reports-rewrite subtract)

    Reports-all : (cs : Rewrites) → Reports (validate_all def name cs)
    Reports-all no_children = tt
    Reports-all (child c cs) =
        Reports-then (validate_rewrite def name c) _ (Reports-rewrite c) (Reports-all cs)

Reports-relations :
    (def : Definition) (rels : Map Str Relation) → Reports (validate_relations def rels)
unfolding validate_relations
Reports-relations def [] = tt
Reports-relations def ((name, rel) ∷ rels) =
    Reports-then (validate_relation def rel) _ (one rel.rewrite) (Reports-relations def rels)
  where
    one :
        (rw : Option Rewrite)
        → Reports
            (elim rw as (λ _. Checked) [ none ↦ ok tt | some w ↦ validate_rewrite def rel.name w ])
    one none = tt
    one (some w) = Reports-rewrite def rel.name w

Reports-definitions : (defs : Map Str Definition) → Reports (validate_definitions defs)
unfolding validate_definitions
Reports-definitions [] = tt
Reports-definitions ((name, def) ∷ defs) =
    Reports-then (validate_relations def def.relations) _ (Reports-relations def def.relations)
      (Reports-definitions defs)

Reports-finish : (k : ℕ) (r : Parsed Schema) → Leaves k r → Reports (finish r)
Reports-finish k (err e) h = h
Reports-finish k (ok (s, ts)) h =
    Reports-then (validate_definitions s.definitions) (ok s) (Reports-definitions s.definitions) tt

err_inj : {A : Type 0} {x y : SyntaxError} → ◌≡◌ {A = Result SyntaxError A} (err x) (err y) → x ≡ y
err_inj h = ground arith

reported :
    {A : Type 0} (r : Result SyntaxError A) (e : SyntaxError) → Reports r → r ≡ err e → IsReported e
reported (ok a) e h p = absurd (cc)
reported (err x) e h p = subst IsReported (err_inj p) h

-- On every source text, Parse returns a schema or one of its error messages: it never indexes past
-- the tokens, and the fuel of the model is enough.
pub parse-IsReported : (src : Str) (e : SyntaxError) → parse src ≡ err e → IsReported e
unfolding parse
parse-IsReported src e h =
    let ts = lex src in
    let run =
      (Within-parse_definitions (parse_fuel ts) (length ts) new_schema (omega arith)).at ts
        (lex-IsEnded src) (omega arith) in
    reported _ e (Reports-finish (length ts) (parse_definitions (parse_fuel ts) new_schema ts) run)
      h
