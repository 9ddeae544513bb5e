-- ===== src/Schema/Parser/Definitions.antt =====
-- The parsers of members, definitions and schemas: no step past the tokens, and enough fuel.
use zanzo.Base.{ℕ, zero, suc, ◌+◌, ◌*◌, ◌-◌, ◌≤◌, Option, none, some, [], arith, codes, str_eq}
use zanzo.Schema.Types.{Definition, Schema}
use zanzo.Schema.Lexer.{Token}
use zanzo.Schema.Parser.{
  Parser, parse_new_name, parse_member, parse_members, parse_definition, parse_definitions,
}
use zanzo.Schema.Parser.Good.{
  Within, At-any, At-if, At-bind, step, Within-zero, Within-pure, Within-raise, Within-if,
  Within-bind, Within-peek, eof-text, Within-expect, Within-expect_ident,
}
use zanzo.Schema.Parser.Total.{resume, out_of, stop, Within-parse_type_list, Within-parse_expr}

if_known :
    {A B : Type 0} (k j : ℕ) (o : Option B) (p : Parser A) (q : B → Parser A)
    → Within k j p
    → ((b : B) → Within k j (q b))
    → Within k j (elim o [ none ↦ p | some b ↦ q b ])
if_known k j none p q hp hq = hp
if_known k j (some b) p q hp hq = hq b

Within-parse_new_name : (k : ℕ) (def : Definition) → Within k (k - 1) (parse_new_name def)
unfolding parse_new_name
Within-parse_new_name k def = Within-bind k (k - 1) (k - 1) _ _ (Within-expect_ident k) λ name.
    if_known (k - 1) (k - 1) _ _ _ (Within-pure (k - 1) name)
      (λ old. Within-raise (k - 1) (k - 1) _ tt)

Within-parse_member :
    (n k : ℕ) (def : Definition) → 3 * k + 3 ≤ n → Within k (k - 1) (parse_member n def)
unfolding parse_member
Within-parse_member n k def h =
    let i = k - 1 in
    let j = (k - 1) - 1 in
    Within-bind k i i _ _ (Within-expect_ident k) λ kw.
      Within-if i i _ _ _
        (Within-bind i j i _ _ (Within-parse_new_name i def) λ name. Within-peek j i _ λ t.
          At-bind j j i t _ _
            (At-if j j t _ _ _ (eof-text b':' [] t)
              (step j (j - 1) j t _ (omega arith) (
                resume (j - 1) ((j - 1) - 1) j _ (omega arith)
                  (Within-parse_type_list n (j - 1) (omega arith))))
              (At-any j j t _ (Within-pure j tt)))
            λ _. stop j i _ (omega arith))
        (Within-if i i _ _ _
          (Within-bind i j i _ _ (Within-parse_new_name i def) λ name.
            Within-bind j (j - 1) i _ _ (Within-expect j b'=' []) λ _.
              Within-bind (j - 1) ((j - 1) - 1) i _ _ (Within-parse_expr n (j - 1) (omega arith))
                λ rw. stop ((j - 1) - 1) i _ (omega arith))
          (Within-raise i i _ tt))

Within-parse_members :
    (n k : ℕ) (name : Token) (def : Definition)
    → 3 * k + 4 ≤ n
    → Within k k (parse_members n name def)
unfolding parse_members
Within-parse_members zero k name def h = absurd (omega arith)
Within-parse_members (suc n) zero name def h = Within-zero _ _
Within-parse_members (suc n) (suc k) name def h = Within-peek (suc k) (suc k) _ λ t.
    At-any (suc k) (suc k) t _ (
      Within-if (suc k) (suc k) _ _ _ (Within-pure (suc k) def) (
        Within-if (suc k) (suc k) _ _ _ (Within-raise (suc k) (suc k) _ tt) (
          Within-bind (suc k) k (suc k) _ _
            (out_of k _ (Within-parse_member n (suc k) def (omega arith)))
            λ def'.
              resume k k (suc k) _ (omega arith)
                (Within-parse_members n k name def' (omega arith)))))

Within-parse_definition :
    (n k : ℕ) (s : Schema) → 3 * k + 4 ≤ n → Within k (k - 1) (parse_definition n s)
unfolding parse_definition
Within-parse_definition n k s h =
    let i = k - 1 in
    let j = i - 1 in
    let l = j - 1 in
    Within-bind k i i _ _ (Within-expect k b'd' (codes "efinition")) λ _.
      Within-bind i j i _ _ (Within-expect_ident i) λ name.
        if_known j i _ _ _
          (Within-bind j l i _ _ (Within-expect j b'{' []) λ _.
            Within-bind l l i _ _ (Within-parse_members n l name _ (omega arith)) λ def.
              Within-bind l (l - 1) i _ _ (Within-expect l b'}' [])
                λ _. stop (l - 1) i _ (omega arith))
          (λ old. Within-raise j i _ tt)

pub Within-parse_definitions :
    (n k : ℕ) (s : Schema) → 3 * k + 5 ≤ n → Within k k (parse_definitions n s)
unfolding parse_definitions
Within-parse_definitions zero k s h = absurd (omega arith)
Within-parse_definitions (suc n) zero s h = Within-zero _ _
Within-parse_definitions (suc n) (suc k) s h = Within-peek (suc k) (suc k) _ λ t.
    At-any (suc k) (suc k) t _ (
      Within-if (suc k) (suc k) _ _ _ (Within-pure (suc k) s) (
        Within-bind (suc k) k (suc k) _ _
          (out_of k _ (Within-parse_definition n (suc k) s (omega arith)))
          λ more.
            resume k k (suc k) _ (omega arith) (Within-parse_definitions n k more (omega arith))))
