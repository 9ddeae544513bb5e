-- ===== src/Check/Monad.antt =====
-- A method of `evaluation`: it changes the working state, and returns a value or an error. What was
-- changed before an error stays changed.
use zanzo.Base.{◌≡◌, refl, Bool, true, false, ok, err, if◌then◌else◌}
use zanzo.Errors.{Error, Outcome}
use zanzo.Check.Types.{Evaluation}

abbrev pub M : Type 0 → Type 0
M A = Evaluation → Outcome A × Evaluation

abbrev pub pure : {A : Type 0} → A → M A
pure a ev = (ok a, ev)

abbrev pub raise : {A : Type 0} → Error → M A
raise e ev = (err e, ev)

abbrev pub lift : {A : Type 0} → Outcome A → M A
lift r ev = (r, ev)

abbrev pub gets : {A : Type 0} → (Evaluation → A) → M A
gets f ev = (ok (f ev), ev)

abbrev pub modify : (Evaluation → Evaluation) → M (Unit {0})
modify f ev = (ok tt, f ev)

abbrev pub follow : {A B : Type 0} → (A → M B) → Outcome A → Evaluation → Outcome B × Evaluation
follow f (ok a) ev = f a ev
follow f (err e) ev = (err e, ev)

infixl 5 ◌>>=◌ ◌>>◌
unfoldable pub ◌>>=◌ : {A B : Type 0} → M A → (A → M B) → M B
◌>>=◌ m f ev = let (r, ev') = m ev in follow f r ev'

abbrev pub ◌>>◌ : {B : Type 0} → M (Unit {0}) → M B → M B
m >> k = m >>= λ _. k

-- defer f(): run on every way out
unfoldable pub deferred : {A : Type 0} → (Evaluation → Evaluation) → M A → M A
deferred f m ev = let (r, ev') = m ev in (r, f ev')

-- Started where `I` holds, `m` ends where `I` holds, with an outcome that meets `Q`.
pub record Triple {A : Type 0} (I : Evaluation → Type 0) (Q : Outcome A → Type 0) (m : M A)
    : Type 0 where
  pub at : (ev : Evaluation) → I ev → Q (m ev).0 × I (m ev).1

module _ {I : Evaluation → Type 0} where
  module _ {A : Type 0} {Q : Outcome A → Type 0} where
    pub Triple-lift : (r : Outcome A) → Q r → Triple I Q (lift r)
    Triple-lift r h = record { at = λ ev i. (h, i) }

    pub Triple-pure : (a : A) → Q (ok a) → Triple I Q (pure a)
    Triple-pure a h = record { at = λ ev i. (h, i) }

    pub Triple-if :
        (b : Bool) (m n : M A)
        → (b ≡ true → Triple I Q m)
        → (b ≡ false → Triple I Q n)
        → Triple I Q (if b then m else n)
    Triple-if true m n hm hn = hm refl
    Triple-if false m n hm hn = hn refl

    pub Triple-imp :
        {P : Outcome A → Type 0} (m : M A)
        → Triple I P m
        → ((r : Outcome A) → P r → Q r)
        → Triple I Q m
    Triple-imp m h imp = record { at = λ ev i. let (p, j) = h.at ev i in (imp _ p, j) }

  module _ {A B : Type 0} (P : Outcome A → Type 0) {Q : Outcome B → Type 0} where
    follows :
        (f : A → M B) (r : Outcome A) (ev : Evaluation)
        → P r
        → I ev
        → ((a : A) → P (ok a) → Triple I Q (f a))
        → ((e : Error) → P (err e) → Q (err e))
        → Q (follow f r ev).0 × I (follow f r ev).1
    follows f (ok a) ev p i good bad = (good a p).at ev i
    follows f (err e) ev p i good bad = (bad e p, i)

    pub Triple-bind :
        (m : M A) (f : A → M B)
        → Triple I P m
        → ((a : A) → P (ok a) → Triple I Q (f a))
        → ((e : Error) → P (err e) → Q (err e))
        → Triple I Q (m >>= f)
    unfolding ◌>>=◌
    Triple-bind m f h good bad = record {
      at = λ ev i. let (p, j) = h.at ev i in follows f (m ev).0 (m ev).1 p j good bad;
    }

  pub Triple-modify :
      {Q : Outcome (Unit {0}) → Type 0} (f : Evaluation → Evaluation)
      → Q (ok tt)
      → ((ev : Evaluation) → I ev → I (f ev))
      → Triple I Q (modify f)
  Triple-modify f q keeps = record { at = λ ev i. (q, keeps ev i) }
