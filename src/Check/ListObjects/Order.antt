-- ===== src/Check/ListObjects/Order.antt =====
-- The order of what ListObjects lists.
use mathlib.Core.List.{Perm}
use mathlib.Core.List.Perm
use zanzo.Base.{
  ℕ, ◌<◌, ◌≢◌, ◌⊎◌, sym, subst, eqb, eq_str, ◌≡◌, refl, true, false, List, [], ◌∷◌, arith, Str,
  eq_str_iff, All, Bool-cases, inl, inr,
}
use zanzo.Storage.Types.{Object}
use zanzo.Check.ListObjects.{less_str, less_object, insert, sort}

less_str-asym : (s t : Str) → less_str s t ≡ true → less_str t s ≡ false
unfolding less_str
less_str-asym [] [] h = absurd (cc h)
less_str-asym [] (b ∷ t) h = refl
less_str-asym (a ∷ s) [] h = absurd (cc h)
less_str-asym (a ∷ s) (b ∷ t) h = ground (arith, less_str-asym s t)

less_str-antisym : (s t : Str) → less_str s t ≡ false → less_str t s ≡ false → s ≡ t
unfolding less_str
less_str-antisym [] [] h k = refl
less_str-antisym [] (b ∷ t) h k = absurd (cc h)
less_str-antisym (a ∷ s) [] h k = absurd (cc k)
less_str-antisym (a ∷ s) (b ∷ t) h k = ground (arith, less_str-antisym s t)

less_str_trans : (s t u : Str) → less_str s t ≡ false → less_str t u ≡ false → less_str s u ≡ false
unfolding less_str
less_str_trans s t [] h k = ground arith
less_str_trans [] [] (c ∷ u) h k = absurd (cc k)
less_str_trans [] (b ∷ t) (c ∷ u) h k = absurd (cc h)
less_str_trans (a ∷ s) [] (c ∷ u) h k = absurd (cc k)
less_str_trans (a ∷ s) (b ∷ t) (c ∷ u) h k = ground (arith, less_str_trans s t u)

less_object-asym : (a b : Object) → less_object a b ≡ true → less_object b a ≡ false
unfolding less_object
less_object-asym a b h = ground (
  arith,
  eq_str_iff a.type b.type,
  eq_str_iff b.type a.type,
  less_str-asym a.type b.type,
  less_str-asym a.id b.id,
)

less_object_trans :
    (a b c : Object) → less_object a b ≡ false → less_object b c ≡ false → less_object a c ≡ false
unfolding less_object
less_object_trans a b c h k = ground (
  arith,
  eq_str_iff a.type b.type,
  eq_str_iff b.type c.type,
  eq_str_iff a.type c.type,
  less_str_trans a.type b.type c.type,
  less_str_trans a.id b.id c.id,
  less_str-antisym a.type b.type,
  less_str-antisym b.type c.type,
)

-- No object comes before o.
abbrev pub Follow : Object → List Object → Type 0
Follow o os = All (λ p. less_object p o ≡ false) os

-- Each object is in the order of those behind it.
abbrev pub IsSorted : List Object → Type 0
IsSorted [] = Unit
IsSorted (o ∷ os) = Follow o os × IsSorted os

Follow-mono :
    (o p : Object) (os : List Object) → less_object p o ≡ false → Follow p os → Follow o os
Follow-mono o p [] h k = tt
Follow-mono o p (q ∷ os) h k = (less_object_trans q p o k.0 h, Follow-mono o p os h k.1)

insert-Follow :
    (o p : Object) (os : List Object)
    → less_object o p ≡ false
    → Follow p os
    → Follow p (insert o os)
unfolding insert
insert-Follow o p [] h k = (h, tt)
insert-Follow o p (q ∷ os) h k = elim (Bool-cases (less_object q o)) [
  | inl before ↦ rw (insert, before) (k.0, insert-Follow o p os h k.1)
  | inr here ↦ rw (insert, here) (h, k)
]

insert-IsSorted : (o : Object) (os : List Object) → IsSorted os → IsSorted (insert o os)
unfolding insert
insert-IsSorted o [] h = (tt, tt)
insert-IsSorted o (p ∷ os) h = elim (Bool-cases (less_object p o)) [
  | inl before ↦
      rw (insert, before)
        (insert-Follow o p os (less_object-asym p o before) h.0, insert-IsSorted o os h.1)
  | inr here ↦ rw (insert, here) ((here, Follow-mono o p os here h.0), h)
]

pub sort-IsSorted : (os : List Object) → IsSorted (sort os)
unfolding sort
sort-IsSorted [] = tt
sort-IsSorted (o ∷ os) = insert-IsSorted o (sort os) (sort-IsSorted os)

-- The first text is the second or comes before it, byte by byte.
pub data AtMost : Str → Str → Type 0 where
  ended : (t : Str) → AtMost [] t
  lower : (a b : ℕ) (s t : Str) → a < b → AtMost (a ∷ s) (b ∷ t)
  equal : (a : ℕ) (s t : Str) → AtMost s t → AtMost (a ∷ s) (a ∷ t)

-- In the order of the types, and of the ids where the types are the same.
abbrev pub InOrder : Object → Object → Type 0
InOrder a b = ((a.type ≢ b.type) × AtMost a.type b.type) ⊎ ((a.type ≡ b.type) × AtMost a.id b.id)

-- Each object is in order with all that follow it.
abbrev pub AreOrdered : List Object → Type 0
AreOrdered [] = Unit
AreOrdered (o ∷ os) = All (InOrder o) os × AreOrdered os

less_str-AtMost : (s t : Str) → less_str t s ≡ false → AtMost s t
unfolding less_str
less_str-AtMost [] t h = ended t
less_str-AtMost (a ∷ s) [] h = absurd (cc h)
less_str-AtMost (a ∷ s) (b ∷ t) h = elim (Bool-cases (eqb b a)) [
  | inl e ↦
      let same : a ≡ b = ground arith in
      subst (λ c. AtMost (a ∷ s) (c ∷ t)) same (equal a s t (less_str-AtMost s t (rw e at h)))
  | inr e ↦ lower a b s t (ground arith)
]

less_object-InOrder : (a b : Object) → less_object b a ≡ false → InOrder a b
unfolding less_object
less_object-InOrder a b h = elim (Bool-cases (eq_str b.type a.type)) [
  | inl e ↦ inr (sym ((eq_str_iff b.type a.type).0 e), less_str-AtMost a.id b.id (rw e at h))
  | inr e ↦ inl (
    λ same. absurd (ground (arith, eq_str_iff b.type a.type)),
    less_str-AtMost a.type b.type (rw e at h),
  )
]

Follow-InOrder : (o : Object) (os : List Object) → Follow o os → All (InOrder o) os
Follow-InOrder o [] h = tt
Follow-InOrder o (p ∷ os) h = (less_object-InOrder o p h.0, Follow-InOrder o os h.1)

pub IsSorted-AreOrdered : (os : List Object) → IsSorted os → AreOrdered os
IsSorted-AreOrdered [] h = tt
IsSorted-AreOrdered (o ∷ os) h = (Follow-InOrder o os h.0, IsSorted-AreOrdered os h.1)

insert-perm : (o : Object) (os : List Object) → Perm (insert o os) (o ∷ os)
unfolding insert
insert-perm o [] = Perm.rfl
insert-perm o (p ∷ os) = elim (Bool-cases (less_object p o)) [
  | inl e ↦ rw (insert, e) (Perm.trans (Perm.cons p (insert-perm o os)) (Perm.swap o p os))
  | inr e ↦ rw (insert, e) Perm.rfl
]

pub sort-perm : (os : List Object) → Perm (sort os) os
unfolding sort
sort-perm [] = Perm.rfl
sort-perm (o ∷ os) = Perm.trans (insert-perm o (sort os)) (Perm.cons o (sort-perm os))

insert-All :
    (P : Object → Type 0) (o : Object) (os : List Object) → P o → All P os → All P (insert o os)
unfolding insert
insert-All P o [] h hs = (h, tt)
insert-All P o (p ∷ os) h hs = elim (Bool-cases (less_object p o)) [
  | inl e ↦ rw (insert, e) (hs.0, insert-All P o os h hs.1)
  | inr e ↦ rw (insert, e) (h, hs)
]

pub sort-All : (P : Object → Type 0) (os : List Object) → All P os → All P (sort os)
unfolding sort
sort-All P [] h = tt
sort-All P (o ∷ os) h = insert-All P o (sort os) h.0 (sort-All P os h.1)
