-- ===== src/Stats/Sort/Rearranged.antt =====
-- What a rearrangement keeps: the length, and a bound on the elements.
use mathlib.Core.Logic.{∥∥₁_elim}
use mathlib.Core.List.{Perm, Permᴰ}
use native.Mathlib.Nat.{ℕ_set}
use native.Mathlib.Bridge.{le_prop}
use zanzo.Base.{suc, ◌≤◌, ◌≡◌, refl, ◌∙◌, ap, subst, List, [], ◌∷◌, length, All}
use zanzo.Stats.Sort.{Duration}

Permᴰ-length : {a b : List Duration} → Permᴰ a b → length a ≡ length b
Permᴰ-length Permᴰ.nil = refl
Permᴰ-length (Permᴰ.cons e p) = ap suc (Permᴰ-length p)
Permᴰ-length (Permᴰ.swap e e') = refl
Permᴰ-length (Permᴰ.trans p q) = Permᴰ-length p ∙ Permᴰ-length q

pub perm-length : (a b : List Duration) → Perm a b → length a ≡ length b
perm-length a b p = ∥∥₁_elim p (ℕ_set _ _) Permᴰ-length

abbrev pub IsCapped : Duration → List Duration → Type 0
IsCapped top = All (λ d. d ≤ top)

IsCapped-prop : (top : Duration) (xs : List Duration) → IsProp (IsCapped top xs)
IsCapped-prop top [] = hlevel
IsCapped-prop top (x ∷ xs) = hlevel (le_prop, IsCapped-prop top xs)

Permᴰ-IsCapped :
    (top : Duration) {a b : List Duration} → Permᴰ a b → IsCapped top a → IsCapped top b
Permᴰ-IsCapped top Permᴰ.nil h = h
Permᴰ-IsCapped top (Permᴰ.cons e p) h = (subst (λ x. x ≤ top) e h.0, Permᴰ-IsCapped top p h.1)
Permᴰ-IsCapped top (Permᴰ.swap e e') h =
    (subst (λ x. x ≤ top) e' h.1.0, (subst (λ x. x ≤ top) e h.0, h.1.1))
Permᴰ-IsCapped top (Permᴰ.trans p q) h = Permᴰ-IsCapped top q (Permᴰ-IsCapped top p h)

pub perm-IsCapped :
    (top : Duration) (a b : List Duration) → Perm a b → IsCapped top a → IsCapped top b
perm-IsCapped top a b p h = ∥∥₁_elim p (IsCapped-prop top b) (λ q. Permᴰ-IsCapped top q h)
