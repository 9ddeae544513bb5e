-- ===== src/Schema/Validate/Closed.antt =====
-- In a schema that Parse accepts, every reference resolves.
use zanzo.Base.{
  ◌≡◌, refl, ap, Option, none, some, [], ◌∷◌, Str, Result, ok, err, ok_inj, Map, get, str_eq, All,
  ◌==◌, Bool-cases, Option-cases, ◌∙◌, inl, inr,
}
use mathlib.Core.Option.{some-injective}
use zanzo.Schema.Types.{
  Rewrite, Rewrites, this, computed_userset, tuple_to_userset, union, intersection, exclusion,
  no_children, child, Relation, Definition, Schema, lookup, lookup_relation,
}
use zanzo.Schema.Parser.{SyntaxError, Parsed, parse_definitions, parse_fuel}
use zanzo.Schema.Lexer.{lex}
use zanzo.Schema.Validate.{
  Checked, ◌>>◌, require, validate_rewrite, validate_all, validate_relation, validate_relations,
  validate_definitions, validate, new_schema, finish, parse,
}

module _ (Known : Str → Type 0) where
  unfoldable mutual
    -- Every relation of the same object that the rewrite names is known.
    pub Refers : Rewrite → Type 0
    Refers this = Unit
    Refers (computed_userset r) = Known r
    Refers (tuple_to_userset tupleset computed) = Known tupleset
    Refers (union cs) = RefersAll cs
    Refers (intersection cs) = RefersAll cs
    Refers (exclusion base subtract) = Refers base × Refers subtract

    pub RefersAll : Rewrites → Type 0
    RefersAll no_children = Unit
    RefersAll (child c cs) = Refers c × RefersAll cs

module _ {K L : Str → Type 0} (f : (r : Str) → K r → L r) where
  mutual
    unfolding Refers

    Refers-imp : (rw : Rewrite) → Refers K rw → Refers L rw
    Refers-imp this h = tt
    Refers-imp (computed_userset r) h = f r h
    Refers-imp (tuple_to_userset tupleset computed) h = f tupleset h
    Refers-imp (union cs) h = RefersAll-imp cs h
    Refers-imp (intersection cs) h = RefersAll-imp cs h
    Refers-imp (exclusion base subtract) h = (Refers-imp base h.0, Refers-imp subtract h.1)

    RefersAll-imp : (cs : Rewrites) → RefersAll K cs → RefersAll L cs
    RefersAll-imp no_children h = tt
    RefersAll-imp (child c cs) h = (Refers-imp c h.0, RefersAll-imp cs h.1)

abbrev IsDeclared : Definition → Str → Type 0
IsDeclared def r = (rel : Relation) × (get def.relations r ≡ some rel)

require-ok :
    (o : Option Relation) (e : SyntaxError)
    → require o e ≡ ok tt
    → (rel : Relation) × (o ≡ some rel)
require-ok (some rel) e h = (rel, refl)
require-ok none e h = absurd (cc)

then-ok :
    {A : Type 0} (r : Checked) (k : Result SyntaxError A) (a : A)
    → (r >> k) ≡ ok a
    → (r ≡ ok tt) × (k ≡ ok a)
then-ok (ok tt) k a h = (refl, h)
then-ok (err e) k a h = absurd (cc)

module _ (def : Definition) (name : Str) where
  mutual
    unfolding validate_rewrite Refers

    rewrite-ok : (rw : Rewrite) → validate_rewrite def name rw ≡ ok tt → Refers (IsDeclared def) rw
    rewrite-ok this h = tt
    rewrite-ok (computed_userset r) h = require-ok (get def.relations r) _ h
    rewrite-ok (tuple_to_userset tupleset computed) h = require-ok (get def.relations tupleset) _ h
    rewrite-ok (union cs) h = all-ok cs h
    rewrite-ok (intersection cs) h = all-ok cs h
    rewrite-ok (exclusion base subtract) h =
        let (a, b) = then-ok (validate_rewrite def name base) _ tt h in
        (rewrite-ok base a, rewrite-ok subtract b)

    all-ok : (cs : Rewrites) → validate_all def name cs ≡ ok tt → RefersAll (IsDeclared def) cs
    all-ok no_children h = tt
    all-ok (child c cs) h =
        let (a, b) = then-ok (validate_rewrite def name c) _ tt h in (rewrite-ok c a, all-ok cs b)

abbrev RelationRefers : Definition → Relation → Type 0
RelationRefers def rel = (rw : Rewrite) → rel.rewrite ≡ some rw → Refers (IsDeclared def) rw

relation-ok :
    (def : Definition) (rel : Relation) → validate_relation def rel ≡ ok tt → RelationRefers def rel
relation-ok def rel h w p = rewrite-ok def rel.name w (rw p at h)

relations-ok :
    (def : Definition) (rels : Map Str Relation)
    → validate_relations def rels ≡ ok tt
    → All (λ entry. RelationRefers def entry.1) rels
unfolding validate_relations
relations-ok def [] h = tt
relations-ok def ((name, rel) ∷ rels) h =
    let (a, b) = then-ok (validate_relation def rel) _ tt h in
    (relation-ok def rel a, relations-ok def rels b)

abbrev DefinitionRefers : Definition → Type 0
DefinitionRefers def = All (λ entry. RelationRefers def entry.1) def.relations

definitions-ok :
    (defs : Map Str Definition)
    → validate_definitions defs ≡ ok tt
    → All (λ entry. DefinitionRefers entry.1) defs
unfolding validate_definitions
definitions-ok [] h = tt
definitions-ok ((name, def) ∷ defs) h =
    let (a, b) = then-ok (validate_relations def def.relations) _ tt h in
    (relations-ok def def.relations a, definitions-ok defs b)

All-get :
    {V : Type 0} (P : V → Type 0) (m : Map Str V) (k : Str) (v : V)
    → All (λ entry. P entry.1) m
    → get m k ≡ some v
    → P v
unfolding get
All-get P [] k v h p = absurd (cc)
All-get P ((j, w) ∷ m) k v h p = elim (Bool-cases (j == k)) [
  | inl same ↦ let e : w ≡ v = some-injective w v (rw same at p) in rw (← e) h.0
  | inr other ↦ All-get P m k v h.1 (rw other at p)
]

pub lookup-ok :
    (s : Schema) (type r : Str) (rel : Relation)
    → lookup s type r ≡ ok rel
    → (def : Definition) × (get s.definitions type ≡ some def) × (get def.relations r ≡ some rel)
unfolding lookup
lookup-ok s type r rel h = elim (Option-cases (get s.definitions type)) [
  | inl missing ↦ absurd (cc (rw missing at h))
  | inr (def, defined) ↦ (def, defined, found-ok def (rw defined at h))
]
  where
    found-ok :
        (def : Definition)
        → lookup_relation type r (get def.relations r) ≡ ok rel
        → get def.relations r ≡ some rel
    found-ok def g = elim (Option-cases (get def.relations r)) [
      | inl missing ↦ absurd (cc (rw missing at g))
      | inr (x, given) ↦ given ∙ ap some (ok_inj (rw given at g))
    ]

-- The relation can be looked up on objects of the type.
abbrev pub Resolves : Schema → Str → Str → Type 0
Resolves s type r = (rel : Relation) × (lookup s type r ≡ ok rel)

-- In a schema that Parse returns, each relation of the same object that a permission names, as an
-- operand or as the edge of a walk, can be looked up on the permission's type.
pub parse-Resolves :
    (src : Str) (s : Schema) (type r : Str) (rel : Relation) (rw : Rewrite)
    → parse src ≡ ok s
    → lookup s type r ≡ ok rel
    → rel.rewrite ≡ some rw
    → Refers (Resolves s type) rw
unfolding parse lookup
parse-Resolves src s type r rel w parsed found given =
    let (def, defined, declared) = lookup-ok s type r rel found in
    let closed =
      definitions-ok s.definitions
        (finished (parse_definitions (parse_fuel (lex src)) new_schema (lex src)) parsed) in
    let refers =
      All-get (RelationRefers def) def.relations r rel
        (All-get DefinitionRefers s.definitions type def closed defined) declared w given in
    Refers-imp (λ q k. (k.0, rw (defined, k.1) refl)) w refers
  where
    finished : (p : Parsed Schema) → finish p ≡ ok s → validate s ≡ ok tt
    finished (err e) h = absurd (cc)
    finished (ok (t, ts)) h = let (a, b) = then-ok (validate t) (ok t) s h in rw (← (ok_inj b)) a
