-- ===== src/Storage/Parse/Index.antt =====
-- What `strings.Index` of one byte finds: the first place where the byte stands.
use zanzo.Base.{
  ℕ, zero, suc, ◌+◌, ◌≡◌, refl, none, some, [], ◌∷◌, ◌++◌, arith, Str, take, drop, length,
}
use zanzo.Storage.Parse.{index}

pub index-append_self :
    (s t : Str) (c : ℕ) → index s c ≡ none → index (s ++ c ∷ t) c ≡ some (length s)
unfolding index
index-append_self [] t c h = ground arith
index-append_self (a ∷ s) t c h = ground (arith, index-append_self s t c)

pub index-append_none :
    (s t : Str) (c : ℕ) → index s c ≡ none → index t c ≡ none → index (s ++ t) c ≡ none
unfolding index
index-append_none [] t c h k = k
index-append_none (a ∷ s) t c h k = ground (arith, index-append_none s t c)

-- The three parts of a text at the place found.
pub index-split :
    (s : Str) (c i : ℕ)
    → index s c ≡ some i
    → (s ≡ take i s ++ c ∷ drop (suc i) s)
      × (index (take i s) c ≡ none)
      × (length s ≡ i + 1 + length (drop (suc i) s))
      × (length (take i s) ≡ i)
unfolding index
index-split [] c i h = ground arith
index-split (a ∷ s) c zero h = ground (arith, index s c)
index-split (a ∷ s) c (suc i) h = ground (arith, index-split s c i)

-- A byte that stands nowhere in a text stands in no part of it.
pub index-none_append :
    (s t : Str) (c : ℕ) → index (s ++ t) c ≡ none → (index s c ≡ none) × (index t c ≡ none)
unfolding index
index-none_append [] t c h = (refl, h)
index-none_append (a ∷ s) t c h = ground (arith, index-none_append s t c)
