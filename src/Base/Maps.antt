-- ===== src/Base/Maps.antt =====
-- A Go map as an association list in which each key stands once. The order of the entries stands
-- for the order in which the runtime iterates.
use mathlib.Core.Path.{◌≡◌, refl, subst}
use mathlib.Core.Option.{Option, none, some}
use mathlib.Core.List.{List, [], ◌∷◌}
use native.Mathlib.Omega.{arith}
use zanzo.Base.Tests.{Comparable, ◌==◌, if◌then◌else◌, Bool-cases, ==_refl}
use zanzo.Base.Lists.{All}
use mathlib.Core.Logic.{inl, inr}

abbrev pub Map {ℓ} : Type ℓ → Type ℓ → Type ℓ
Map K V = List (K × V)

module _ {ℓ} {K V : Type ℓ} ⦃e : Comparable K⦄ where
  -- v, ok := m[k]
  unfoldable pub get : Map K V → K → Option V
  get [] k = none
  get ((j, v) ∷ m) k = if j == k then some v else get m k

  -- m[k] = v
  unfoldable pub put : Map K V → K → V → Map K V
  put [] k v = (k, v) ∷ []
  put ((j, w) ∷ m) k v = if j == k then (k, v) ∷ m else (j, w) ∷ put m k v

  -- delete(m, k)
  unfoldable pub delete : Map K V → K → Map K V
  delete [] k = []
  delete ((j, w) ∷ m) k = let rest = delete m k in if j == k then rest else (j, w) ∷ rest

  pub get-put :
      (m : Map K V) (k j : K) (v : V) → get (put m k v) j ≡ (if k == j then some v else get m j)
  unfolding get put
  get-put [] k j v = refl
  get-put ((i, w) ∷ m) k j v =
      ground (arith, get-put m k j v, e.equals_iff k j, e.equals_iff i k, e.equals_iff i j)

  pub get-delete : (m : Map K V) (k j : K) → get (delete m k) j ≡ (if k == j then none else get m j)
  unfolding get delete
  get-delete [] k j = ground arith
  get-delete ((i, w) ∷ m) k j =
      ground (arith, get-delete m k j, e.equals_iff k j, e.equals_iff i k, e.equals_iff i j)

  -- no key stands twice
  abbrev pub IsKeyed : Map K V → Type ℓ
  IsKeyed [] = Unit
  IsKeyed ((k, v) ∷ m) = (get m k ≡ none) × IsKeyed m

  pub put-IsKeyed : (m : Map K V) (k : K) (v : V) → IsKeyed m → IsKeyed (put m k v)
  unfolding get put
  put-IsKeyed [] k v h = (refl, tt)
  put-IsKeyed ((j, w) ∷ m) k v h = elim (Bool-cases (j == k)) [
    | inl same ↦ rw same (ground (arith, e.equals_iff j k), h.1)
    | inr new ↦
        rw new (
          ground (arith, get-put m k j v, e.equals_iff j k, e.equals_iff k j),
          put-IsKeyed m k v h.1,
        )
  ]

  later :
      (k : K) (v : V) (m rest : Map K V)
      → get m k ≡ none
      → All (λ x. get m x.0 ≡ some x.1) rest
      → All (λ x. get ((k, v) ∷ m) x.0 ≡ some x.1) rest
  unfolding get
  later k v m [] missing h = tt
  later k v m ((j, w) ∷ rest) missing h =
      (ground (arith, e.equals_iff k j), later k v m rest missing h.1)

  -- what a loop over the entries sees
  pub IsKeyed-entries : (m : Map K V) → IsKeyed m → All (λ x. get m x.0 ≡ some x.1) m
  unfolding get
  IsKeyed-entries [] h = tt
  IsKeyed-entries ((k, v) ∷ m) h = (rw (==_refl k) refl, later k v m m h.0 (IsKeyed-entries m h.1))

  pub get-All {κ} :
      (P : V → Type κ) (m : Map K V) (k : K) (v : V) → All (λ x. P x.1) m → get m k ≡ some v → P v
  unfolding get
  get-All P [] k v h e = absurd (cc)
  get-All P ((j, w) ∷ m) k v h e = elim (Bool-cases (j == k)) [
    | inl same ↦ let q : w ≡ v = cc (rw same at e) in subst P q h.0
    | inr new ↦ get-All P m k v h.1 (rw new at e)
  ]

pub ruleset map_laws = (get-put, get-delete)
