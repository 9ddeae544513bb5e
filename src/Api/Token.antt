-- ===== src/Api/Token.antt =====
-- internal/api/api.go: formatToken and parseToken, with what they use of strconv.
use zanzo.Base.{
  ℕ, zero, suc, ◌+◌, ◌-◌, ◌*◌, ◌/◌, ◌%◌, ◌^◌, ◌≤◌, ◌<◌, ◌≡◌, refl, false, ◌&&◌, ◌||◌, not, Option,
  none, some, [], ◌∷◌, ◌++◌, arith, ltb, leb, if◌then◌else◌, Str, codes, eq_str, length,
  length-append, take, drop, Bool-cases, inl, inr,
}
use zanzo.Storage.Types.{Revision}

-- strconv.FormatUint(n, 10), whose text has 20 digits at most
unfoldable pub digits : ℕ → ℕ → Str
digits zero n = []
digits (suc k) n =
    let rest = digits k (n / 10) in if ltb n 10 then (48 + n) ∷ [] else rest ++ (48 + n % 10) ∷ []

abbrev token_prefix : Str
token_prefix = codes "zk-"

-- func formatToken(rev storage.Revision)
unfoldable pub format_token : Revision → Str
format_token rev = token_prefix ++ digits 20 rev

-- strconv.ParseUint(s, 10, 64), from a value on
unfoldable pub parse_digits : ℕ → Str → Option ℕ
parse_digits acc [] = some acc
parse_digits acc (c ∷ s) =
    let rest = parse_digits (acc * 10 + (c - 48)) s in
    if leb 48 c && leb c 57 && ltb (acc * 10 + (c - 48)) (2 ^ 64) then rest else none

abbrev parse_uint : Str → Option ℕ
parse_uint s = if eq_str s [] then none else parse_digits 0 s

-- func parseToken(s string)
unfoldable pub parse_token : Str → Option Revision
parse_token s =
    if ltb (length s) 4 || not (eq_str (take 3 s) token_prefix) then none else parse_uint (drop 3 s)

parse_digits-append :
    (acc c n : ℕ) (s : Str)
    → parse_digits acc s ≡ some n
    → parse_digits acc (s ++ c ∷ []) ≡ parse_digits n (c ∷ [])
unfolding parse_digits
parse_digits-append acc c n [] h = ground arith
parse_digits-append acc c n (a ∷ s) h =
    ground (arith, parse_digits-append (acc * 10 + (a - 48)) c n s)

-- 10 to the power of the number of digits
abbrev limit : ℕ → ℕ
limit zero = 1
limit (suc k) = 10 * limit k

parse_digits-digits : (k n : ℕ) → n < limit k → n < 2 ^ 64 → parse_digits 0 (digits k n) ≡ some n
unfolding digits parse_digits
parse_digits-digits zero n h w = ground arith
parse_digits-digits (suc k) n h w = elim (Bool-cases (ltb n 10)) [
  | inl small ↦ ground arith
  | inr big ↦
      let most = parse_digits-digits k (n / 10) (omega arith) (omega arith) in
      let step = parse_digits-append 0 (48 + n % 10) (n / 10) (digits k (n / 10)) most in
      ground (arith, step)
]

digits-given : (k n : ℕ) → 1 ≤ length (digits (suc k) n)
unfolding digits
digits-given k n = ground (arith, length-append (digits k (n / 10)) ((48 + n % 10) ∷ []))

nonempty : (s : Str) → 1 ≤ length s → eq_str s [] ≡ false
unfolding eq_str
nonempty [] h = absurd (omega arith)
nonempty (c ∷ s) h = refl

parsed-bound : (acc n : ℕ) (s : Str) → acc < 2 ^ 64 → parse_digits acc s ≡ some n → n < 2 ^ 64
unfolding parse_digits
parsed-bound acc n [] h p = ground arith
parsed-bound acc n (c ∷ s) h p = ground (arith, parsed-bound (acc * 10 + (c - 48)) n s)

-- A revision of a uint64 is what its token parses to; and every token that parses is of a uint64.
pub parse_token-format_token :
    (rev : Revision)
    → (rev < 2 ^ 64 → parse_token (format_token rev) ≡ some rev)
      × ((s : Str) → parse_token s ≡ some rev → rev < 2 ^ 64)
unfolding parse_token format_token eq_str parse_digits
parse_token-format_token rev = (
  λ w.
      let given = digits-given 19 rev in
      let some_digit = nonempty (digits 20 rev) given in
      let long : ltb (length (format_token rev)) 4 ≡ false = ground (arith, given) in
      rw (long, some_digit) (parse_digits-digits 20 rev (omega arith) w),
  λ s p. ground (arith, parsed-bound 0 rev (drop 3 s)),
)
