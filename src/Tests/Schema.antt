-- ===== src/Tests/Schema.antt =====
-- Schema texts and what Parse makes of them.
use zanzo.Base.{◌≡◌, refl, some, [], Str, codes, ok, err, get}
use zanzo.Schema.Types.{Relation, lookup, exclusion, union, child, computed_userset, no_children}
use zanzo.Schema.Lexer.{lex}
use zanzo.Schema.Parser.{expected, undefined_reference, never_closed, parse_expr}
use zanzo.Schema.Parser.Good.{IsReported}
use zanzo.Schema.Validate.{parse}
use zanzo.Schema.Validate.Total.{parse-IsReported}
use zanzo.Schema.Validate.Closed.{Refers, Resolves, parse-Resolves}
use zanzo.Schema.Parser
use zanzo.Schema.Lexer.{
  lex_loop, turn, is_space, is_letter, is_digit, is_ident_rune, rune_text, skip_line, take_name,
  drop_name, follows,
}
use zanzo.Base.{any, put, eq_str}
use zanzo.Schema.Parser.{
  parse_definitions, parse_definition, parse_members, parse_member, parse_new_name, parse_type_list,
  expr_loop, parse_intersection, intersection_loop, parse_primary, expect, expect_ident, peek, next,
}
use zanzo.Schema.Validate.{validate_definitions, validate_relations, validate_rewrite, validate_all}
use zanzo.Schema.Parser.Grammar.{Expr}
use zanzo.Schema.Parser.Grammar.Sound.{parse_expr-Expr}
use zanzo.Tests.Data.{sample_schema, view, view_rewrite}

-- testdata/document.zanzo
abbrev sample_text : Str
sample_text =
    codes
      "definition user {}\n\ndefinition group {\n  relation member: user | group#member\n}\n\ndefinition folder {\n  relation viewer: user | group#member\n}\n\ndefinition document {\n  relation parent: folder\n  relation owner: user\n  relation editor: user | group#member\n  relation banned: user\n\n  permission edit = editor + owner\n  permission view = (edit + parent->viewer) - banned\n}\n"

sample_text-parses : parse sample_text ≡ ok sample_schema
unfolding parse lex lex_loop turn is_space is_letter is_digit is_ident_rune rune_text skip_line
    take_name drop_name follows any parse_definitions parse_definition parse_members parse_member
    parse_new_name parse_type_list parse_expr expr_loop parse_intersection intersection_loop
    parse_primary expect expect_ident peek next Parser.◌>>=◌ get put eq_str validate_definitions
    validate_relations validate_rewrite validate_all
sample_text-parses = refl

-- `+` and `-` associate to the left, `&` binds tighter.
operators :
    parse_expr 30 (lex (codes "a + b + d - c // and no more"))
    ≡ ok (
      exclusion
          (union (
            child (computed_userset (codes "a")) (
              child
                (computed_userset (codes "b"))
                (child (computed_userset (codes "d")) no_children))))
          (computed_userset (codes "c")),
      lex [],
    )
unfolding lex lex_loop turn is_space is_letter is_digit is_ident_rune rune_text skip_line take_name
    drop_name follows any parse_definitions parse_definition parse_members parse_member
    parse_new_name parse_type_list parse_expr expr_loop parse_intersection intersection_loop
    parse_primary expect expect_ident peek next Parser.◌>>=◌ get put eq_str validate_definitions
    validate_relations validate_rewrite validate_all
operators = refl

abbrev dangling : Str
dangling = codes "definition document {\n  permission view = owner\n}"

dangling_run : parse dangling ≡ err (undefined_reference (codes "document") view (codes "owner"))
unfolding parse lex lex_loop turn is_space is_letter is_digit is_ident_rune rune_text skip_line
    take_name drop_name follows any parse_definitions parse_definition parse_members parse_member
    parse_new_name parse_type_list parse_expr expr_loop parse_intersection intersection_loop
    parse_primary expect expect_ident peek next Parser.◌>>=◌ get put eq_str validate_definitions
    validate_relations validate_rewrite validate_all
dangling_run = refl

parse-IsReported_example : IsReported (undefined_reference (codes "document") view (codes "owner"))
parse-IsReported_example =
    parse-IsReported dangling (undefined_reference (codes "document") view (codes "owner"))
      dangling_run

abbrev view_relation : Relation
view_relation = record { name = view; rewrite = some view_rewrite }

view_found : lookup sample_schema (codes "document") view ≡ ok view_relation
unfolding lookup get eq_str
view_found = refl

parse-Resolves_example : Refers (Resolves sample_schema (codes "document")) view_rewrite
parse-Resolves_example =
    parse-Resolves sample_text sample_schema (codes "document") view view_relation view_rewrite
      sample_text-parses view_found refl

parse_expr-Expr_example : Expr (lex (codes "a + b + d - c // and no more")) (lex []) (
    exclusion
      (union (
        child (computed_userset (codes "a")) (
          child (computed_userset (codes "b")) (child (computed_userset (codes "d")) no_children))))
      (computed_userset (codes "c")))
parse_expr-Expr_example =
    parse_expr-Expr 30 (lex (codes "a + b + d - c // and no more")) (lex [])
      (exclusion
        (union (
          child (computed_userset (codes "a")) (
            child (computed_userset (codes "b"))
              (child (computed_userset (codes "d")) no_children))))
        (computed_userset (codes "c")))
      operators
