-- ===== src/Schema/Parser/Total.antt =====
-- No parser steps past the tokens, and the fuel of Parse is enough.
use zanzo.Base.{ℕ, zero, suc, ◌+◌, ◌*◌, ◌-◌, ◌≤◌, [], ◌∷◌, arith, str_eq}
use zanzo.Schema.Types.{Rewrite, exclusion}
use zanzo.Schema.Parser.{
  Parser, pure, ◌>>=◌, expect_ident, parse_type_list, join_union, join_intersection, parse_expr,
  expr_loop, parse_intersection, intersection_loop, parse_primary,
}
use zanzo.Schema.Parser.Good.{
  Within, At-any, At-if, At-bind, step, Within-zero, Within-pure, Within-mono, Within-bind,
  Within-peek, eof-text, Within-expect, Within-expect_ident,
}

-- A value that costs no token.
pub stop : {A : Type 0} (k j : ℕ) (a : A) → k ≤ j → Within k j (pure a)
stop k j a h = Within-mono k k j (pure a) h (Within-pure k a)

-- A loop that is entered with some tokens less, and gives none back.
pub resume : {A : Type 0} (k i j : ℕ) (p : Parser A) → i ≤ j → Within k i p → Within k j p
resume k i j p = Within-mono k i j p

-- The two ways to write one token less.
pub into : {A : Type 0} (k : ℕ) (p : Parser A) → Within (suc k) k p → Within (suc k) (suc k - 1) p
into k p = resume (suc k) k (suc k - 1) p (omega arith)

pub out_of : {A : Type 0} (k : ℕ) (p : Parser A) → Within (suc k) (suc k - 1) p → Within (suc k) k p
out_of k p = resume (suc k) (suc k - 1) k p (omega arith)

-- An operand, and the rest of its loop.
operand :
    {A B : Type 0} (k : ℕ) (p : Parser A) (f : A → Parser B)
    → Within k (k - 1) p
    → ((a : A) → Within (k - 1) (k - 1) (f a))
    → Within k (suc k) (p >>= f)
operand k p f hp hf =
    Within-bind k (k - 1) (suc k) p f hp
      λ a. resume (k - 1) (k - 1) (suc k) (f a) (omega arith) (hf a)

pub Within-parse_type_list : (n k : ℕ) → k + 1 ≤ n → Within k (k - 1) (parse_type_list n)
unfolding parse_type_list
Within-parse_type_list zero k h = absurd (omega arith)
Within-parse_type_list (suc n) zero h = Within-zero _ _
Within-parse_type_list (suc n) (suc k) h = into k _ (
    Within-bind (suc k) k k _ _ (out_of k _ (Within-expect_ident (suc k))) λ name.
      Within-peek k k _ λ t.
        At-bind k k k t _ _
          (At-if k k t _ _ _ (eof-text b'#' [] t)
            (step k (k - 1) k t _ (omega arith)
              (resume (k - 1) ((k - 1) - 1) k _ (omega arith) (Within-expect_ident (k - 1))))
            (At-any k k t _ (Within-pure k t)))
          λ r. Within-peek k k _ λ u.
            At-if k k u _ _ _ (eof-text b'|' [] u)
              (step k (k - 1) k u _ (omega arith) (
                resume (k - 1) ((k - 1) - 1) k _ (omega arith)
                  (Within-parse_type_list n (k - 1) (omega arith))))
              (At-any k k u _ (Within-pure k tt)))

mutual
  unfolding parse_expr expr_loop parse_intersection intersection_loop parse_primary

  pub Within-parse_expr : (n k : ℕ) → 3 * k + 3 ≤ n → Within k (k - 1) (parse_expr n)
  Within-parse_expr zero k h = absurd (omega arith)
  Within-parse_expr (suc n) zero h = Within-zero _ _
  Within-parse_expr (suc n) (suc k) h = into k _ (
      Within-bind (suc k) k k (parse_intersection n) (expr_loop n)
        (out_of k _ (Within-parse_intersection n (suc k) (omega arith)))
        (λ left. Within-expr_loop n k left (omega arith)))

  Within-expr_loop : (n k : ℕ) (left : Rewrite) → 3 * k + 3 ≤ n → Within k k (expr_loop n left)
  Within-expr_loop zero k left h = absurd (omega arith)
  Within-expr_loop (suc n) zero left h = Within-zero _ _
  Within-expr_loop (suc n) (suc k) left h = Within-peek (suc k) (suc k) _ λ t.
      At-if (suc k) (suc k) t _ _ _ (eof-text b'+' [] t)
        (step (suc k) k (suc k) t _ (omega arith) (
          operand k (parse_intersection n) _ (Within-parse_intersection n k (omega arith))
            λ right. Within-expr_loop n (k - 1) (join_union left right) (omega arith)))
        (At-if (suc k) (suc k) t _ _ _ (eof-text b'-' [] t)
          (step (suc k) k (suc k) t _ (omega arith) (
            operand k (parse_intersection n) _ (Within-parse_intersection n k (omega arith))
              λ right. Within-expr_loop n (k - 1) (exclusion left right) (omega arith)))
          (At-any (suc k) (suc k) t _ (Within-pure (suc k) left)))

  Within-parse_intersection : (n k : ℕ) → 3 * k + 2 ≤ n → Within k (k - 1) (parse_intersection n)
  Within-parse_intersection zero k h = absurd (omega arith)
  Within-parse_intersection (suc n) zero h = Within-zero _ _
  Within-parse_intersection (suc n) (suc k) h = into k _ (
      Within-bind (suc k) k k (parse_primary n) (intersection_loop n)
        (out_of k _ (Within-parse_primary n (suc k) (omega arith)))
        (λ left. Within-intersection_loop n k left (omega arith)))

  Within-intersection_loop :
      (n k : ℕ) (left : Rewrite) → 3 * k + 2 ≤ n → Within k k (intersection_loop n left)
  Within-intersection_loop zero k left h = absurd (omega arith)
  Within-intersection_loop (suc n) zero left h = Within-zero _ _
  Within-intersection_loop (suc n) (suc k) left h = Within-peek (suc k) (suc k) _ λ t.
      At-if (suc k) (suc k) t _ _ _ (eof-text b'&' [] t)
        (step (suc k) k (suc k) t _ (omega arith) (
          operand k (parse_primary n) _ (Within-parse_primary n k (omega arith)) λ right.
            Within-intersection_loop n (k - 1) (join_intersection left right) (omega arith)))
        (At-any (suc k) (suc k) t _ (Within-pure (suc k) left))

  Within-parse_primary : (n k : ℕ) → 3 * k + 1 ≤ n → Within k (k - 1) (parse_primary n)
  Within-parse_primary zero k h = absurd (omega arith)
  Within-parse_primary (suc n) zero h = Within-zero _ _
  Within-parse_primary (suc n) (suc k) h = into k _ (
      Within-peek (suc k) k _ λ t.
        At-if (suc k) k t _ _ _ (eof-text b'(' [] t)
          (step (suc k) k k t _ (omega arith) (
            Within-bind k (k - 1) k (parse_expr n) _ (Within-parse_expr n k (omega arith)) λ inner.
              Within-bind (k - 1) ((k - 1) - 1) k _ _ (Within-expect (k - 1) b')' [])
                λ closing. stop ((k - 1) - 1) k inner (omega arith)))
          (At-any (suc k) k t _ (
            Within-bind (suc k) k k expect_ident _ (out_of k _ (Within-expect_ident (suc k)))
              λ name. Within-peek k k _ λ u.
                At-if k k u _ _ _ (eof-text b'-' (b'>' ∷ []) u)
                  (step k (k - 1) k u _ (omega arith) (
                    Within-bind (k - 1) ((k - 1) - 1) k expect_ident _ (Within-expect_ident (k - 1))
                      λ computed. stop ((k - 1) - 1) k _ (omega arith)))
                  (At-any k k u _ (Within-pure k _)))))
