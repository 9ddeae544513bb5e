-- ===== src/Schema/Parser/Grammar.antt =====
-- The grammar of permission expressions.
pub mod Sound
use zanzo.Base.{
  ◌++◌, ℕ, zero, suc, ◌≡◌, refl, ap, ◌∙◌, subst, Bool, true, false, List, [], ◌∷◌, Str, codes,
  eq_str, eq_str_iff, ok, err, ok_inj, inl, inr, ◌⊎◌, if◌then◌else◌,
}
use zanzo.Schema.Types.{
  Rewrite, Rewrites, no_children, child, this, union, intersection, exclusion, computed_userset,
  tuple_to_userset,
}
use zanzo.Schema.Lexer.{Token}
use zanzo.Schema.Parser.{
  Parsed, Parser, pure, follow, ◌>>=◌, peek, next, is_name, expect, expect_ident, join_union,
  join_intersection, parse_expr, expr_loop, parse_intersection, intersection_loop, parse_primary,
}

-- The operands of a chain, in their order: a node of the same operator has several, and anything else
-- is one.
abbrev pub operands : Rewrites → List Rewrite
operands no_children = []
operands (child c cs) = c ∷ operands cs

abbrev pub node_of : List Rewrite → Rewrites
node_of [] = no_children
node_of (r ∷ rs) = child r (node_of rs)

abbrev pub summands : Rewrite → List Rewrite
summands (union cs) = operands cs
summands r = r ∷ []

abbrev pub factors : Rewrite → List Rewrite
factors (intersection cs) = operands cs
factors r = r ∷ []

-- `Expr ts us rw`: the tokens ts are those of an expression that stands for rw, and then us. `+` and
-- `-` bind loosest and associate to the left, `&` binds tighter; `+` adds a last operand to the
-- summands of its left side, `&` to its factors.
mutual
  pub data Expr : List Token → List Token → Rewrite → Type 0 where
    operand : {ts us : List Token} {r : Rewrite} → Inter ts us r → Expr ts us r
    plus :
        {ts us vs : List Token} {l r : Rewrite} (t : Token)
        → Expr ts (t ∷ us) l
        → t.text ≡ codes "+"
        → Inter us vs r
        → Expr ts vs (union (node_of (summands l ++ r ∷ [])))
    minus :
        {ts us vs : List Token} {l r : Rewrite} (t : Token)
        → Expr ts (t ∷ us) l
        → t.text ≡ codes "-"
        → Inter us vs r
        → Expr ts vs (exclusion l r)

  pub data Inter : List Token → List Token → Rewrite → Type 0 where
    factor : {ts us : List Token} {r : Rewrite} → Primary ts us r → Inter ts us r
    both :
        {ts us vs : List Token} {l r : Rewrite} (t : Token)
        → Inter ts (t ∷ us) l
        → t.text ≡ codes "&"
        → Primary us vs r
        → Inter ts vs (intersection (node_of (factors l ++ r ∷ [])))

  pub data Primary : List Token → List Token → Rewrite → Type 0 where
    group :
        {ts us : List Token} {r : Rewrite} (t u : Token)
        → t.text ≡ codes "("
        → Expr ts (u ∷ us) r
        → u.text ≡ codes ")"
        → Primary (t ∷ ts) us r
    walk :
        {us : List Token} (name arrow far : Token)
        → is_name name ≡ true
        → arrow.text ≡ codes "->"
        → is_name far ≡ true
        → Primary (name ∷ arrow ∷ far ∷ us) us (tuple_to_userset name.text far.text)
    named :
        {us : List Token} (name : Token)
        → is_name name ≡ true
        → Primary (name ∷ us) us (computed_userset name.text)
