-- ===== src/Schema/Lexer.antt =====
-- internal/schema/parse.go: lex. The loop over the bytes recurs on fuel; without fuel it gives no
-- tokens at all, not even the last one.
pub mod Ended
use zanzo.Base.{
  ℕ, zero, suc, ◌+◌, Bool, true, false, ◌&&◌, ◌||◌, not, List, [], ◌∷◌, ◌++◌, arith, eqb, leb, ltb,
  if◌then◌else◌, Str, codes, any, length, drop, ◌/◌, ◌%◌,
}

pub data TokenKind : Type 0 where
  eof ident punct : TokenKind

pub record Token : Type 0 where
  pub kind : TokenKind
  pub text : Str
  pub line : ℕ

abbrev within : ℕ → ℕ → ℕ → Bool
within low high c = leb low c && leb c high

-- unicode.IsSpace of a rune below 256, which is what a byte converts to
unfoldable pub is_space : ℕ → Bool
is_space c = within 9 13 c || eqb c 32 || eqb c 133 || eqb c 160

-- unicode.IsLetter of a rune below 256
unfoldable pub is_letter : ℕ → Bool
is_letter c =
    within b'A' b'Z' c
    || within b'a' b'z' c
    || eqb c 170
    || eqb c 181
    || eqb c 186
    || within 192 214 c
    || within 216 246 c
    || within 248 255 c

unfoldable pub is_digit : ℕ → Bool
is_digit c = within b'0' b'9' c

-- func isIdentRune(r rune)
unfoldable pub is_ident_rune : ℕ → Bool
is_ident_rune c = eqb c b'_' || is_letter c || is_digit c

abbrev punctuation : Str
punctuation = codes "{}:|=+&-()#"

-- string(c) of a byte c: the UTF-8 text of the rune
unfoldable pub rune_text : ℕ → Str
rune_text c = if ltb c 128 then c ∷ [] else (192 + c / 64) ∷ (128 + c % 64) ∷ []

-- the loop that skips a comment
unfoldable pub skip_line : Str → Str
skip_line [] = []
skip_line (c ∷ s) = let rest = skip_line s in if eqb c b'\n' then c ∷ s else rest

-- the loop that ends a name: src[i:j] and src[j:]
unfoldable pub take_name : Str → Str
take_name [] = []
take_name (c ∷ s) = let rest = take_name s in if is_ident_rune c then c ∷ rest else []

unfoldable pub drop_name : Str → Str
drop_name [] = []
drop_name (c ∷ s) = let rest = drop_name s in if is_ident_rune c then rest else c ∷ s

-- i+1 < len(src) && src[i+1] == c
unfoldable pub follows : Str → ℕ → Bool
follows [] c = false
follows (a ∷ s) c = eqb a c

-- What one turn of the loop does.
pub record Turn : Type 0 where
  pub emitted : List Token
  pub line : ℕ
  pub rest : Str

abbrev skipped : ℕ → Str → Turn
skipped line rest = record { emitted = []; line = line; rest = rest }

abbrev pub emits : TokenKind → Str → ℕ → Str → Turn
emits kind text line rest = record {
  emitted = record { kind = kind; text = text; line = line } ∷ [];
  line = line;
  rest = rest;
}

-- the switch on c = src[i], where `s` is src[i+1:]
unfoldable pub turn : ℕ → ℕ → Str → Turn
turn line c s =
    if eqb c b'\n'
    then skipped (line + 1) s
    else if is_space c
    then skipped line s
    else if eqb c b'/' && follows s b'/'
    then skipped line (skip_line (c ∷ s))
    else if eqb c b'-' && follows s b'>'
    then emits punct (codes "->") line (drop 1 s)
    else if any (eqb c) punctuation
    then emits punct (rune_text c) line s
    else if is_ident_rune c
    then emits ident (take_name (c ∷ s)) line (drop_name (c ∷ s))
    else emits punct (rune_text c) line s

unfoldable pub lex_loop : ℕ → ℕ → Str → List Token
lex_loop zero line s = []
lex_loop (suc n) line [] = record { kind = eof; text = []; line = line } ∷ []
lex_loop (suc n) line (c ∷ s) = let t = turn line c s in t.emitted ++ lex_loop n t.line t.rest

-- func lex(src string) []token
unfoldable pub lex : Str → List Token
lex src = lex_loop (length src + 1) 1 src
