-- ===== src/Schema/Parser/Grammar/Sound.antt =====
-- The parser keeps to the grammar of permission expressions.
use zanzo.Base.{
  ℕ, zero, suc, ◌≡◌, refl, sym, ap, ◌∙◌, ◌++◌, subst, Bool, true, false, List, [], ◌∷◌, Str, codes,
  eq_str, eq_str_iff, ok, err, ok_inj, inl, inr, ◌⊎◌, if◌then◌else◌,
}
use zanzo.Schema.Types.{
  Rewrite, Rewrites, no_children, child, this, union, intersection, exclusion, computed_userset,
  tuple_to_userset,
}
use zanzo.Schema.Lexer.{Token}
use zanzo.Schema.Parser.{
  Parsed, Parser, pure, follow, ◌>>=◌, peek, next, is_name, expect, expect_ident, join_union,
  add_child, join_intersection, parse_expr, expr_loop, parse_intersection, intersection_loop,
  parse_primary,
}
use zanzo.Schema.Parser.Grammar.{
  operands, node_of, summands, factors, Expr, operand, plus, minus, Inter, factor, both, Primary,
  group, walk, named,
}

bind-ok :
    {A B : Type 0} (p : Parser A) (f : A → Parser B) (ts us : List Token) (b : B)
    → (p >>= f) ts ≡ ok (b, us)
    → (a : A) × (mid : List Token) × (p ts ≡ ok (a, mid)) × (f a mid ≡ ok (b, us))
unfolding ◌>>=◌
bind-ok {A = A} {B = B} p f ts us b h = go (p ts) refl h
  where
    go :
        (r : Parsed A)
        → p ts ≡ r
        → follow f r ≡ ok (b, us)
        → (a : A) × (mid : List Token) × (p ts ≡ ok (a, mid)) × (f a mid ≡ ok (b, us))
    go (ok (a, mid)) e k = (a, mid, e, k)
    go (err x) e k = absurd (cc)

-- what follows a look at the next token
peek-ok :
    {B : Type 0} (f : Token → Parser B) (ts us : List Token) (b : B)
    → (peek >>= f) ts ≡ ok (b, us)
    → (t : Token) × (rest : List Token) × (ts ≡ t ∷ rest) × (f t (t ∷ rest) ≡ ok (b, us))
unfolding ◌>>=◌ peek
peek-ok f [] us b h = absurd (cc)
peek-ok f (t ∷ rest) us b h = (t, rest, refl, h)

next-ok :
    {B : Type 0} (p : Parser B) (t : Token) (ts us : List Token) (b : B)
    → (next >>= λ _. p) (t ∷ ts) ≡ ok (b, us)
    → p ts ≡ ok (b, us)
unfolding ◌>>=◌ next
next-ok p t ts us b h = h

test-ok :
    {A : Type 0} (c : Bool) (p q : Parser A) (ts us : List Token) (a : A)
    → (if c then p else q) ts ≡ ok (a, us)
    → ((c ≡ true) × (p ts ≡ ok (a, us))) ⊎ ((c ≡ false) × (q ts ≡ ok (a, us)))
test-ok true p q ts us a h = inl (refl, h)
test-ok false p q ts us a h = inr (refl, h)

stepped : (u t : Token) (ts us : List Token) → next (u ∷ ts) ≡ ok (t, us) → (u ≡ t) × (ts ≡ us)
unfolding next
stepped u t ts us h = (ap (λ p. p.0) (ok_inj h), ap (λ p. p.1) (ok_inj h))

expect-ok :
    (s : Str) (ts us : List Token) (t : Token)
    → expect s ts ≡ ok (t, us)
    → (ts ≡ t ∷ us) × (t.text ≡ s)
unfolding expect
expect-ok s ts us t h =
    let (u, rest, e, k) = peek-ok _ ts us t h in
    elim (test-ok (eq_str u.text s) next _ (u ∷ rest) us t k) [
      | inr (no_match, failed) ↦ absurd (cc failed)
      | inl (match, k') ↦
          let (x, y) = stepped u t rest us k' in
          (rw (← x, ← y) e, rw (← x) ((eq_str_iff u.text s).0 match))
    ]

expect_ident-ok :
    (ts us : List Token) (t : Token)
    → expect_ident ts ≡ ok (t, us)
    → (ts ≡ t ∷ us) × (is_name t ≡ true)
unfolding expect_ident
expect_ident-ok ts us t h =
    let (u, rest, e, k) = peek-ok _ ts us t h in
    elim (test-ok (is_name u) next _ (u ∷ rest) us t k) [
      | inr (no_match, failed) ↦ absurd (cc failed)
      | inl (match, k') ↦ let (x, y) = stepped u t rest us k' in (rw (← x, ← y) e, rw (← x) match)
    ]

stays : (a b : Rewrite) (ts us : List Token) → pure a ts ≡ ok (b, us) → (a ≡ b) × (ts ≡ us)
stays a b ts us h = (ap (λ p. p.0) (ok_inj h), ap (λ p. p.1) (ok_inj h))

moved :
    (P : List Token → Rewrite → Type 0) (ts us : List Token) (a b : Rewrite)
    → P ts a
    → ts ≡ us
    → a ≡ b
    → P us b
moved P ts us a b h p q = subst (λ l. P l b) p (subst (P ts) q h)

add_child-node_of : (cs : Rewrites) (r : Rewrite) → add_child cs r ≡ node_of (operands cs ++ r ∷ [])
add_child-node_of no_children r = refl
add_child-node_of (child c cs) r = ap (child c) (add_child-node_of cs r)

join_union-node : (l r : Rewrite) → join_union l r ≡ union (node_of (summands l ++ r ∷ []))
join_union-node (union cs) r = ap union (add_child-node_of cs r)
join_union-node this r = refl
join_union-node (computed_userset q) r = refl
join_union-node (tuple_to_userset t q) r = refl
join_union-node (intersection cs) r = refl
join_union-node (exclusion a b) r = refl

join_intersection-node :
    (l r : Rewrite) → join_intersection l r ≡ intersection (node_of (factors l ++ r ∷ []))
join_intersection-node (intersection cs) r = ap intersection (add_child-node_of cs r)
join_intersection-node this r = refl
join_intersection-node (computed_userset q) r = refl
join_intersection-node (tuple_to_userset t q) r = refl
join_intersection-node (union cs) r = refl
join_intersection-node (exclusion a b) r = refl

mutual
  unfolding parse_expr expr_loop parse_intersection intersection_loop parse_primary

  Expr-of_run :
      (n : ℕ) (ts us : List Token) (r : Rewrite) → parse_expr n ts ≡ ok (r, us) → Expr ts us r
  Expr-of_run zero ts us r h = absurd (cc h)
  Expr-of_run (suc n) ts us r h =
      let (left, mid, p, q) = bind-ok (parse_intersection n) (expr_loop n) ts us r h in
      Expr-of_loop n ts mid us left r (operand (Inter-of_run n ts mid left p)) q

  Expr-of_loop :
      (n : ℕ) (ts mid us : List Token) (left r : Rewrite)
      → Expr ts mid left
      → expr_loop n left mid ≡ ok (r, us)
      → Expr ts us r
  Expr-of_loop zero ts mid us left r g h = absurd (cc h)
  Expr-of_loop (suc n) ts mid us left r g h =
      let (t, rest, e, k) = peek-ok _ mid us r h in
      elim (test-ok (eq_str t.text (codes "+")) _ _ (t ∷ rest) us r k) [
        | inl (is_plus, k') ↦
            let (right, after, p, q) =
              bind-ok (parse_intersection n) _ rest us r (next-ok _ t rest us r k') in
            Expr-of_loop n ts after us (join_union left right) r
              (subst (Expr ts after) (sym (join_union-node left right)) (
                plus t (rw e at g) ((eq_str_iff t.text (codes "+")).0 is_plus)
                  (Inter-of_run n rest after right p)))
              q
        | inr (_, other) ↦ elim (test-ok (eq_str t.text (codes "-")) _ _ (t ∷ rest) us r other) [
          | inl (is_minus, k') ↦
              let (right, after, p, q) =
                bind-ok (parse_intersection n) _ rest us r (next-ok _ t rest us r k') in
              Expr-of_loop n ts after us (exclusion left right) r
                (minus t (rw e at g) ((eq_str_iff t.text (codes "-")).0 is_minus)
                  (Inter-of_run n rest after right p))
                q
          | inr (_, done) ↦
              let (x, y) = stays left r (t ∷ rest) us done in
              moved (Expr ts) mid us left r g (e ∙ y) x
        ]
      ]

  Inter-of_run :
      (n : ℕ) (ts us : List Token) (r : Rewrite)
      → parse_intersection n ts ≡ ok (r, us)
      → Inter ts us r
  Inter-of_run zero ts us r h = absurd (cc h)
  Inter-of_run (suc n) ts us r h =
      let (left, mid, p, q) = bind-ok (parse_primary n) (intersection_loop n) ts us r h in
      Inter-of_loop n ts mid us left r (factor (Primary-of_run n ts mid left p)) q

  Inter-of_loop :
      (n : ℕ) (ts mid us : List Token) (left r : Rewrite)
      → Inter ts mid left
      → intersection_loop n left mid ≡ ok (r, us)
      → Inter ts us r
  Inter-of_loop zero ts mid us left r g h = absurd (cc h)
  Inter-of_loop (suc n) ts mid us left r g h =
      let (t, rest, e, k) = peek-ok _ mid us r h in
      elim (test-ok (eq_str t.text (codes "&")) _ _ (t ∷ rest) us r k) [
        | inl (is_and, k') ↦
            let (right, after, p, q) =
              bind-ok (parse_primary n) _ rest us r (next-ok _ t rest us r k') in
            Inter-of_loop n ts after us (join_intersection left right) r
              (subst (Inter ts after) (sym (join_intersection-node left right)) (
                both t (rw e at g) ((eq_str_iff t.text (codes "&")).0 is_and)
                  (Primary-of_run n rest after right p)))
              q
        | inr (_, done) ↦
            let (x, y) = stays left r (t ∷ rest) us done in
            moved (Inter ts) mid us left r g (e ∙ y) x
      ]

  Primary-of_run :
      (n : ℕ) (ts us : List Token) (r : Rewrite) → parse_primary n ts ≡ ok (r, us) → Primary ts us r
  Primary-of_run zero ts us r h = absurd (cc h)
  Primary-of_run (suc n) ts us r h =
      let (t, rest, e, k) = peek-ok _ ts us r h in
      elim (test-ok (eq_str t.text (codes "(")) _ _ (t ∷ rest) us r k) [
        | inl (opens, k') ↦
            let (body, mid, p, q) = bind-ok (parse_expr n) _ rest us r (next-ok _ t rest us r k') in
            let (u, after, p', q') = bind-ok (expect (codes ")")) _ mid us r q in
            let (closes, text) = expect-ok (codes ")") mid after u p' in
            let (x, y) = stays body r after us q' in
            rw e (
              moved (Primary (t ∷ rest)) after us body r
                (group t u ((eq_str_iff t.text (codes "(")).0 opens)
                  (rw closes at (Expr-of_run n rest mid body p)) text)
                y x)
        | inr (_, other) ↦
            let (name, mid, p, q) = bind-ok expect_ident _ (t ∷ rest) us r other in
            let (starts, is) = expect_ident-ok (t ∷ rest) mid name p in
            let (u, after, e', k') = peek-ok _ mid us r q in
            elim (test-ok (eq_str u.text (codes "->")) _ _ (u ∷ after) us r k') [
              | inl (arrow, k'') ↦
                  let (far, end, p', q') =
                    bind-ok expect_ident _ after us r (next-ok _ u after us r k'') in
                  let (ends, is_far) = expect_ident-ok after end far p' in
                  let (x, y) = stays (tuple_to_userset name.text far.text) r end us q' in
                  rw (e ∙ starts ∙ ap (λ l. name ∷ l) (e' ∙ ap (λ l. u ∷ l) ends)) (
                    moved (Primary (name ∷ u ∷ far ∷ end)) end us _ r
                      (walk name u far is ((eq_str_iff u.text (codes "->")).0 arrow) is_far) y x)
              | inr (_, done) ↦
                  let (x, y) = stays (computed_userset name.text) r (u ∷ after) us done in
                  rw (e ∙ starts)
                    (moved (Primary (name ∷ mid)) mid us _ r (named name is) (e' ∙ y) x)
            ]
      ]

-- What parseExpr accepts is an expression of the grammar, and it returns what the expression stands
-- for: + and - bind loosest and associate to the left, & binds tighter, and a chain of one operator is
-- one node with all its operands in their order.
pub parse_expr-Expr :
    (n : ℕ) (ts us : List Token) (rw : Rewrite) → parse_expr n ts ≡ ok (rw, us) → Expr ts us rw
parse_expr-Expr n ts us r h = Expr-of_run n ts us r h
