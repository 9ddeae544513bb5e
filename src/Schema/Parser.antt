-- ===== src/Schema/Parser.antt =====
-- internal/schema/parse.go: the parser. Its state is the part of the tokens from p.pos on. Indexing
-- past the tokens panics in Go, and is the error `index_out_of_range` here; a loop or a recursion
-- out of fuel is `out_of_fuel`, which Go has not.
pub mod Good
pub mod Total
pub mod Definitions
pub mod Grammar
use zanzo.Base.{
  ℕ, zero, suc, ◌+◌, ◌*◌, ◌≡◌, Bool, Option, none, some, List, [], ◌∷◌, eq_str, if◌then◌else◌, Str,
  codes, Result, ok, err, get, put, str_eq, length,
}
use zanzo.Schema.Types.{
  Rewrite, Rewrites, this, computed_userset, tuple_to_userset, union, intersection, exclusion,
  no_children, child, Relation, Definition, Schema,
}
use zanzo.Schema.Lexer.{Token, TokenKind, eof, ident, punct, lex}

pub data SyntaxError : Type 0 where
  -- "line %d: expected %q, got %q"
  expected : ℕ → Str → Str → SyntaxError
  -- "line %d: expected a name, got %q"
  expected_name : ℕ → Str → SyntaxError
  -- "line %d: definition %q declared twice"
  definition_declared_twice : ℕ → Str → SyntaxError
  -- "line %d: definition %q is never closed"
  never_closed : ℕ → Str → SyntaxError
  -- "line %d: %s declares %q twice"
  declared_twice : ℕ → Str → Str → SyntaxError
  -- "line %d: expected `relation` or `permission`, got %q"
  expected_member : ℕ → Str → SyntaxError
  -- "schema: %s.%s references undefined relation %q"
  undefined_reference : Str → Str → Str → SyntaxError
  -- "schema: %s.%s walks undefined relation %q"
  undefined_walk : Str → Str → Str → SyntaxError
  index_out_of_range out_of_fuel : SyntaxError

abbrev pub Parsed : Type 0 → Type 0
Parsed A = Result SyntaxError (A × List Token)

abbrev pub Parser : Type 0 → Type 0
Parser A = List Token → Parsed A

abbrev pub pure : {A : Type 0} → A → Parser A
pure a ts = ok (a, ts)

abbrev pub raise : {A : Type 0} → SyntaxError → Parser A
raise e ts = err e

abbrev pub follow : {A B : Type 0} → (A → Parser B) → Parsed A → Parsed B
follow f (ok (a, ts)) = f a ts
follow f (err e) = err e

infixl 5 ◌>>=◌ ◌>>◌
unfoldable pub ◌>>=◌ : {A B : Type 0} → Parser A → (A → Parser B) → Parser B
◌>>=◌ p f ts = follow f (p ts)

abbrev pub ◌>>◌ : {A B : Type 0} → Parser A → Parser B → Parser B
p >> q = p >>= λ _. q

-- func (p *parser) peek()
unfoldable pub peek : Parser Token
peek [] = err index_out_of_range
peek (t ∷ ts) = ok (t, t ∷ ts)

-- func (p *parser) next()
unfoldable pub next : Parser Token
next [] = err index_out_of_range
next (t ∷ ts) = ok (t, ts)

abbrev pub is_eof : Token → Bool
is_eof t = elim t.kind [ eof ↦ Bool.true | ident ↦ Bool.false | punct ↦ Bool.false ]

abbrev pub is_name : Token → Bool
is_name t = elim t.kind [ eof ↦ Bool.false | ident ↦ Bool.true | punct ↦ Bool.false ]

-- func display(t token)
abbrev pub display : Token → Str
display t = if is_eof t then codes "end of input" else t.text

-- func (p *parser) expect(text string)
unfoldable pub expect : Str → Parser Token
expect text = do
  t ← peek
  if eq_str t.text text then next else raise (expected t.line text (display t))

-- func (p *parser) expectIdent()
unfoldable pub expect_ident : Parser Token
expect_ident = do t ← peek; if is_name t then next else raise (expected_name t.line (display t))

-- func (p *parser) parseTypeList(): the loop
unfoldable pub parse_type_list : ℕ → Parser (Unit {0})
parse_type_list zero = raise out_of_fuel
parse_type_list (suc n) = do
  expect_ident
  t ← peek
  if eq_str t.text (codes "#") then (next >> expect_ident) else pure t
  u ← peek
  if eq_str u.text (codes "|") then (next >> parse_type_list n) else pure tt

-- append(children, right)
abbrev pub add_child : Rewrites → Rewrite → Rewrites
add_child no_children r = child r no_children
add_child (child c cs) r = child c (add_child cs r)

abbrev pair : Rewrite → Rewrite → Rewrites
pair a b = child a (child b no_children)

-- left + right: a union on the left takes the right side in
abbrev pub join_union : Rewrite → Rewrite → Rewrite
join_union (union cs) right = union (add_child cs right)
join_union left right = union (pair left right)

-- left & right
abbrev pub join_intersection : Rewrite → Rewrite → Rewrite
join_intersection (intersection cs) right = intersection (add_child cs right)
join_intersection left right = intersection (pair left right)

unfoldable mutual
  -- func (p *parser) parseExpr()
  pub parse_expr : ℕ → Parser Rewrite
  parse_expr zero = raise out_of_fuel
  parse_expr (suc n) = do left ← parse_intersection n; expr_loop n left

  pub expr_loop : ℕ → Rewrite → Parser Rewrite
  expr_loop zero left = raise out_of_fuel
  expr_loop (suc n) left = do
    t ← peek
    if eq_str t.text (codes "+")
        then (do next; right ← parse_intersection n; expr_loop n (join_union left right))
        else if eq_str t.text (codes "-")
        then (do next; right ← parse_intersection n; expr_loop n (exclusion left right))
        else pure left

  -- func (p *parser) parseIntersection()
  pub parse_intersection : ℕ → Parser Rewrite
  parse_intersection zero = raise out_of_fuel
  parse_intersection (suc n) = do left ← parse_primary n; intersection_loop n left

  pub intersection_loop : ℕ → Rewrite → Parser Rewrite
  intersection_loop zero left = raise out_of_fuel
  intersection_loop (suc n) left = do
    t ← peek
    if eq_str t.text (codes "&")
        then (do next; right ← parse_primary n; intersection_loop n (join_intersection left right))
        else pure left

  -- func (p *parser) parsePrimary()
  pub parse_primary : ℕ → Parser Rewrite
  parse_primary zero = raise out_of_fuel
  parse_primary (suc n) = do
    t ← peek
    if eq_str t.text (codes "(")
        then (do next; inner ← parse_expr n; expect (codes ")"); pure inner)
        else (do
          name ← expect_ident
          u ← peek
          if eq_str u.text (codes "->")
              then (do
                next
                computed ← expect_ident
                pure (tuple_to_userset name.text computed.text))
              else pure (computed_userset name.text))

abbrev declare : Definition → Str → Option Rewrite → Definition
declare def name rw = record def {
  relations = put def.relations name (record { name = name; rewrite = rw });
}

-- the first use of a name: `_, dup := …; dup`
unfoldable pub parse_new_name : Definition → Parser Token
parse_new_name def = do
  name ← expect_ident
  elim (get def.relations name.text) [
    | none ↦ pure name
    | some old ↦ raise (declared_twice name.line def.name name.text)
  ]

-- func (p *parser) parseMember(def *Definition): the definition as it leaves it
unfoldable pub parse_member : ℕ → Definition → Parser Definition
parse_member n def = do
  kw ← expect_ident
  if eq_str kw.text (codes "relation")
      then (do
        name ← parse_new_name def
        t ← peek
        if eq_str t.text (codes ":") then (next >> parse_type_list n) else pure tt
        pure (declare def name.text none))
      else if eq_str kw.text (codes "permission")
      then (do
        name ← parse_new_name def
        expect (codes "=")
        rw ← parse_expr n
        pure (declare def name.text (some rw)))
      else raise (expected_member kw.line kw.text)

-- the loop over the members of a definition
unfoldable pub parse_members : ℕ → Token → Definition → Parser Definition
parse_members zero name def = raise out_of_fuel
parse_members (suc n) name def = do
  t ← peek
  if eq_str t.text (codes "}")
      then pure def
      else if is_eof t
      then raise (never_closed name.line name.text)
      else (do more ← parse_member n def; parse_members n name more)

-- one turn of the loop over the definitions
unfoldable pub parse_definition : ℕ → Schema → Parser Schema
parse_definition n s = do
  expect (codes "definition")
  name ← expect_ident
  elim (get s.definitions name.text) [
    | some old ↦ raise (definition_declared_twice name.line name.text)
    | none ↦ do
      expect (codes "{")
      def ← parse_members n name (record { name = name.text; relations = [] })
      expect (codes "}")
      pure (record { definitions = put s.definitions def.name def })
  ]

-- the loop of parseSchema
unfoldable pub parse_definitions : ℕ → Schema → Parser Schema
parse_definitions zero s = raise out_of_fuel
parse_definitions (suc n) s = do
  t ← peek
  if is_eof t then pure s else (do more ← parse_definition n s; parse_definitions n more)

-- Each of the three functions of an expression may be entered once for each token, and once more.
abbrev pub parse_fuel : List Token → ℕ
parse_fuel ts = 3 * length ts + 6
