-- ===== src/Schema/Lexer/Ended.antt =====
-- The tokens of every source end with the one end-of-input token: the loop is given enough fuel.
use zanzo.Base.{
  ℕ, zero, suc, ◌+◌, ◌≤◌, ◌<◌, ◌≡◌, ◌≢◌, refl, Bool, true, false, ◌&&◌, List, [], ◌∷◌, ◌++◌, arith,
  Str, length, drop, and_split,
}
use zanzo.Schema.Lexer.{Token, eof, ident, punct, skip_line, drop_name, turn, lex_loop, lex}

abbrev pub IsEof : Token → Type 0
IsEof t = (t.kind ≡ eof) × (t.text ≡ [])

-- Nonempty; the last token is the end of input, with no text, and no other is.
pub data IsEnded : List Token → Type 0 where
  last : (t : Token) → IsEof t → IsEnded (t ∷ [])
  more : (t : Token) (ts : List Token) → t.kind ≢ eof → IsEnded ts → IsEnded (t ∷ ts)

skip_line-length : (s : Str) → length (skip_line s) ≤ length s
unfolding skip_line
skip_line-length [] = omega arith
skip_line-length (c ∷ s) = ground (arith, skip_line-length s)

drop_name-length : (s : Str) → length (drop_name s) ≤ length s
unfolding drop_name
drop_name-length [] = omega arith
drop_name-length (c ∷ s) = ground (arith, drop_name-length s)

drop-length : (s : Str) → length (drop 1 s) ≤ length s
drop-length [] = omega arith
drop-length (c ∷ s) = omega arith

turn-shortens : (line c : ℕ) (s : Str) → length (turn line c s).rest ≤ length s
unfolding turn skip_line drop_name
turn-shortens line c s = ground (arith, skip_line-length s, drop_name-length s, drop-length s)

-- a token that is not the end of input
unfoldable is_plain : Token → Bool
is_plain t = elim t.kind [ eof ↦ false | ident ↦ true | punct ↦ true ]

unfoldable all_plain : List Token → Bool
all_plain [] = true
all_plain (t ∷ ts) = is_plain t && all_plain ts

turn-plain : (line c : ℕ) (s : Str) → all_plain (turn line c s).emitted ≡ true
unfolding turn all_plain is_plain
turn-plain line c s = ground arith

plain-kind : (t : Token) → is_plain t ≡ true → t.kind ≢ eof
unfolding is_plain
plain-kind t h = ground arith

IsEnded-append : (xs ts : List Token) → all_plain xs ≡ true → IsEnded ts → IsEnded (xs ++ ts)
unfolding all_plain
IsEnded-append [] ts p h = h
IsEnded-append (x ∷ xs) ts p h =
    let (a, b) = and_split (is_plain x) (all_plain xs) p in
    more x (xs ++ ts) (plain-kind x a) (IsEnded-append xs ts b h)

lex_loop-IsEnded : (n line : ℕ) (s : Str) → length s < n → IsEnded (lex_loop n line s)
unfolding lex_loop
lex_loop-IsEnded zero line s h = absurd (omega arith)
lex_loop-IsEnded (suc n) line [] h = last _ (refl, refl)
lex_loop-IsEnded (suc n) line (c ∷ s) h =
    let t = turn line c s in
    let shorter = turn-shortens line c s in
    IsEnded-append t.emitted (lex_loop n t.line t.rest) (turn-plain line c s)
      (lex_loop-IsEnded n t.line t.rest (omega arith))

pub lex-IsEnded : (src : Str) → IsEnded (lex src)
unfolding lex
lex-IsEnded src = lex_loop-IsEnded (length src + 1) 1 src (omega arith)
