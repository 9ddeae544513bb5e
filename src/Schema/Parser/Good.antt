-- ===== src/Schema/Parser/Good.antt =====
-- What a parser does to its tokens: rules for parsers that leave the end of input in place, and
-- fail with nothing but an error that Parse reports.
use zanzo.Base.{
  ℕ, ◌-◌, ◌≤◌, ◌≡◌, refl, Bool, true, false, List, [], ◌∷◌, arith, length, if◌then◌else◌, Str, ok,
  err, eq_str,
}
use zanzo.Schema.Lexer.{Token}
use zanzo.Schema.Lexer.Ended.{IsEof, IsEnded, last, more}
use zanzo.Schema.Parser.{
  SyntaxError, index_out_of_range, out_of_fuel, Parsed, Parser, pure, raise, follow, ◌>>=◌, peek,
  next, is_name, expect, expect_ident,
}

-- No panic, and no lack of fuel.
abbrev pub IsReported : SyntaxError → Type 0
IsReported index_out_of_range = ⊥
IsReported out_of_fuel = ⊥
IsReported _ = Unit

-- A value, with at most k tokens left that end as they should, or an error that Parse reports.
abbrev pub Leaves : {A : Type 0} → ℕ → Parsed A → Type 0
Leaves k (ok (a, ts)) = IsEnded ts × (length ts ≤ k)
Leaves k (err e) = IsReported e

-- From at most k tokens to at most j.
pub record Within {A : Type 0} (k j : ℕ) (p : Parser A) : Type 0 where
  pub at : (ts : List Token) → IsEnded ts → length ts ≤ k → Leaves j (p ts)

ended-pos : (ts : List Token) → IsEnded ts → 1 ≤ length ts
ended-pos _ (last t h) = omega arith
ended-pos _ (more t ts n h) = omega arith

-- the tokens after one that is not the end of input
rest-IsEnded : (t : Token) (ts : List Token) → IsEnded (t ∷ ts) → (IsEof t → ⊥) → IsEnded ts
rest-IsEnded t _ (last _ h) goes_on = absurd (goes_on h)
rest-IsEnded t ts (more _ _ n h) goes_on = h

module _ {A : Type 0} where
  pub Within-zero : (j : ℕ) (p : Parser A) → Within 0 j p
  Within-zero j p = record {
    at = λ ts h le. let pos = ended-pos ts h in absurd (omega (arith, pos, le));
  }

  pub Within-pure : (k : ℕ) (a : A) → Within k k (pure a)
  Within-pure k a = record { at = λ ts h le. (h, le) }

  pub Within-raise : (k j : ℕ) (e : SyntaxError) → IsReported e → Within k j (raise {A = A} e)
  Within-raise k j e h = record { at = λ ts _ le. h }

  leaves-mono : (i j : ℕ) (r : Parsed A) → i ≤ j → Leaves i r → Leaves j r
  leaves-mono i j (ok (a, ts)) le h = (h.0, omega (arith, le, h.1))
  leaves-mono i j (err e) le h = h

  pub Within-mono : (k i j : ℕ) (p : Parser A) → i ≤ j → Within k i p → Within k j p
  Within-mono k i j p le h = record { at = λ ts e l. leaves-mono i j (p ts) le (h.at ts e l) }

  pub Within-if :
      (k j : ℕ) (b : Bool) (p q : Parser A)
      → Within k j p
      → Within k j q
      → Within k j (if b then p else q)
  Within-if k j true p q hp hq = hp
  Within-if k j false p q hp hq = hq

module _ {A B : Type 0} (k i j : ℕ) where
  follows :
      (f : A → Parser B) (r : Parsed A)
      → Leaves i r
      → ((a : A) → Within i j (f a))
      → Leaves j (follow f r)
  follows f (ok (a, ts)) h hf = (hf a).at ts h.0 h.1
  follows f (err e) h hf = h

  pub Within-bind :
      (p : Parser A) (f : A → Parser B)
      → Within k i p
      → ((a : A) → Within i j (f a))
      → Within k j (p >>= f)
  unfolding ◌>>=◌
  Within-bind p f hp hf = record { at = λ ts e le. follows f (p ts) (hp.at ts e le) hf }

-- The same, where the next token is t.
pub record At {A : Type 0} (k j : ℕ) (t : Token) (p : Parser A) : Type 0 where
  pub at : (ts : List Token) → IsEnded (t ∷ ts) → length (t ∷ ts) ≤ k → Leaves j (p (t ∷ ts))

pub At-next : (k : ℕ) (t : Token) → (IsEof t → ⊥) → At k (k - 1) t next
unfolding next
At-next k t goes_on = record { at = λ ts e le. (rest-IsEnded t ts e goes_on, omega (arith, le)) }

module _ {A : Type 0} (k j : ℕ) where
  pub At-any : (t : Token) (p : Parser A) → Within k j p → At k j t p
  At-any t p h = record { at = λ ts. h.at (t ∷ ts) }

  -- A test that the end of input fails.
  pub At-if :
      (t : Token) (b : Bool) (p q : Parser A)
      → (IsEof t → b ≡ false)
      → ((IsEof t → ⊥) → At k j t p)
      → At k j t q
      → At k j t (if b then p else q)
  At-if t true p q eofs hp hq = hp (λ f. cc (eofs f))
  At-if t false p q eofs hp hq = hq

  pub Within-peek :
      (f : Token → Parser A) → ((t : Token) → At k j t (f t)) → Within k j (peek >>= f)
  unfolding ◌>>=◌ peek
  Within-peek f h = record { at = go }
    where
      go : (ts : List Token) → IsEnded ts → length ts ≤ k → Leaves j (follow f (peek ts))
      go _ (last t e) le = (h t).at [] (last t e) le
      go _ (more t ts n e) le = (h t).at ts (more t ts n e) le

pub At-bind :
    {A B : Type 0} (k i j : ℕ) (t : Token) (p : Parser A) (f : A → Parser B)
    → At k i t p
    → ((a : A) → Within i j (f a))
    → At k j t (p >>= f)
unfolding ◌>>=◌
At-bind k i j t p f hp hf = record {
  at = λ ts e le. follows k i j f (p (t ∷ ts)) (hp.at ts e le) hf;
}

-- `next`, and then `p`
pub step :
    {B : Type 0} (k i j : ℕ) (t : Token) (p : Parser B)
    → k - 1 ≤ i
    → Within i j p
    → (IsEof t → ⊥)
    → At k j t (next >>= λ _. p)
step k i j t p le h goes_on =
    let less : Within (k - 1) j p = record { at = λ ts e l. h.at ts e (omega (arith, le, l)) } in
    At-bind k (k - 1) j t next (λ _. p) (At-next k t goes_on) (λ _. less)

pub eof-text : (c : ℕ) (s : Str) (t : Token) → IsEof t → eq_str t.text (c ∷ s) ≡ false
unfolding eq_str
eof-text c s t h = rw h.1 refl

eof-name : (t : Token) → IsEof t → is_name t ≡ false
eof-name t h = rw h.0 refl

pub Within-expect : (k c : ℕ) (s : Str) → Within k (k - 1) (expect (c ∷ s))
unfolding expect
Within-expect k c s = Within-peek k (k - 1) _ λ t.
    At-if k (k - 1) t _ _ _ (eof-text c s t) (At-next k t)
      (At-any k (k - 1) t _ (Within-raise k (k - 1) _ tt))

pub Within-expect_ident : (k : ℕ) → Within k (k - 1) expect_ident
unfolding expect_ident
Within-expect_ident k = Within-peek k (k - 1) _ λ t.
    At-if k (k - 1) t _ _ _ (eof-name t) (At-next k t)
      (At-any k (k - 1) t _ (Within-raise k (k - 1) _ tt))
