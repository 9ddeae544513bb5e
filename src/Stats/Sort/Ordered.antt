-- ===== src/Stats/Sort/Ordered.antt =====
-- sortDurations is free of panics, and sorts. In the middle of a run the slice is a reversed prefix
-- and a suffix, and the position between them is the index.
use mathlib.Core.List.{Perm, perm_middle}
use mathlib.Core.List.Perm
use zanzo.Base.{
  ℕ, suc, ◌+◌, ◌≤◌, ◌≡◌, refl, ◌∙◌, ap, some, List, [], ◌∷◌, ◌++◌, ltb, arith, if◌then◌else◌,
  length, get_elem?, set, All, subst, append-nil, Bool-cases, inl, inr,
}
use zanzo.Stats.Sort.{Duration, swap, sink, sort_from, sort_durations}

-- Each element is at most all that follow it.
abbrev pub IsAscending : List Duration → Type 0
IsAscending [] = Unit
IsAscending (x ∷ xs) = All (λ y. x ≤ y) xs × IsAscending xs

abbrev IsDescending : List Duration → Type 0
IsDescending [] = Unit
IsDescending (x ∷ xs) = All (λ y. y ≤ x) xs × IsDescending xs

-- the prefix, reversed, before the suffix
back : List Duration → List Duration → List Duration
back [] s = s
back (x ∷ p) s = back p (x ∷ s)

shift : (n k : ℕ) → suc n + k ≡ n + suc k
shift n k = omega arith

get-back : (p s : List Duration) (k : ℕ) → get_elem? (back p s) (length p + k) ≡ get_elem? s k
unfolding back
get-back [] s k = ap (get_elem? s) (omega arith)
get-back (x ∷ p) s k =
    ap (get_elem? (back p (x ∷ s))) (shift (length p) k) ∙ get-back p (x ∷ s) (suc k)

set-back :
    (p s : List Duration) (k : ℕ) (v : Duration)
    → set (back p s) (length p + k) v ≡ back p (set s k v)
unfolding back
set-back [] s k v = ap (λ i. set s i v) (omega arith)
set-back (x ∷ p) s k v =
    ap (λ i. set (back p (x ∷ s)) i v) (shift (length p) k) ∙ set-back p (x ∷ s) (suc k) v

length-back : (p s : List Duration) → length (back p s) ≡ length p + length s
unfolding back
length-back [] s = omega arith
length-back (x ∷ p) s = omega (arith, length-back p (x ∷ s))

-- a new element of a descending list
insert : Duration → List Duration → List Duration
insert x [] = x ∷ []
insert x (y ∷ p) = let rest = insert x p in if ltb x y then y ∷ rest else x ∷ y ∷ p

-- the same from the bottom up
insert_all : List Duration → List Duration → List Duration
insert_all [] p = p
insert_all (x ∷ s) p = insert_all s (insert x p)

length-insert : (x : Duration) (p : List Duration) → length (insert x p) ≡ suc (length p)
unfolding insert
length-insert x [] = refl
length-insert x (y ∷ p) = ground (arith, length-insert x p)

at_end : (p s : List Duration) (x : Duration) → get_elem? (back p (x ∷ s)) (length p) ≡ some x
at_end p s x = ap (get_elem? (back p (x ∷ s))) (omega arith) ∙ get-back p (x ∷ s) 0

swap-back :
    (p s : List Duration) (x y : Duration)
    → swap (back p (y ∷ x ∷ s)) (length p) x y ≡ back p (x ∷ y ∷ s)
unfolding swap
swap-back p s x y =
    let one : set (back p (y ∷ x ∷ s)) (suc (length p)) y ≡ back p (y ∷ y ∷ s) =
      ap (λ i. set (back p (y ∷ x ∷ s)) i y) (omega arith) ∙ set-back p (y ∷ x ∷ s) 1 y in
    let two : set (back p (y ∷ y ∷ s)) (length p) x ≡ back p (x ∷ y ∷ s) =
      ap (λ i. set (back p (y ∷ y ∷ s)) i x) (omega arith) ∙ set-back p (y ∷ y ∷ s) 0 x in
    ap (λ xs. set xs (length p) x) one ∙ two

-- The inner loop inserts the element at the index into the prefix before it.
sink-back :
    (p s : List Duration) (x : Duration)
    → sink (length p) (back p (x ∷ s)) ≡ some (back (insert x p) s)
unfolding sink insert back
sink-back [] s x = refl
sink-back (y ∷ p) s x =
    let here : get_elem? (back p (y ∷ x ∷ s)) (suc (length p)) ≡ some x =
      ap (get_elem? (back p (y ∷ x ∷ s))) (omega arith) ∙ get-back p (y ∷ x ∷ s) 1 in
    elim (Bool-cases (ltb x y)) [
      | inl e ↦ rw (sink, here, at_end p (x ∷ s) y, swap-back p s x y, e) (sink-back p (y ∷ s) x)
      | inr e ↦ rw (sink, here, at_end p (x ∷ s) y, e) refl
    ]

sort_from-back :
    (p s : List Duration)
    → sort_from (length s) (length p) (back p s) ≡ some (back (insert_all s p) [])
unfolding sort_from insert_all
sort_from-back p [] = refl
sort_from-back p (x ∷ s) =
    rw (sort_from, sink-back p s x)
      (ap (λ i. sort_from (length s) i (back (insert x p) s)) (omega (arith, length-insert x p))
        ∙ sort_from-back (insert x p) s)

sort_durations-insert_all :
    (xs : List Duration) → sort_durations xs ≡ some (back (insert_all xs []) [])
unfolding sort_durations insert_all insert sort_from back
sort_durations-insert_all [] = refl
sort_durations-insert_all (x ∷ xs) =
    ap (λ n. sort_from n 1 (x ∷ xs)) (omega arith) ∙ sort_from-back (x ∷ []) xs

back-perm : (p s : List Duration) → Perm (back p s) (p ++ s)
unfolding back
back-perm [] s = Perm.rfl
back-perm (x ∷ p) s = Perm.trans (back-perm p (x ∷ s)) (perm_middle p s)

insert-perm : (x : Duration) (p : List Duration) → Perm (insert x p) (x ∷ p)
unfolding insert
insert-perm x [] = Perm.rfl
insert-perm x (y ∷ p) = elim (Bool-cases (ltb x y)) [
  | inl e ↦ rw e (Perm.trans (Perm.cons y (insert-perm x p)) (Perm.swap x y p))
  | inr e ↦ rw e Perm.rfl
]

insert_all-perm : (s p : List Duration) → Perm (insert_all s p) (s ++ p)
unfolding insert_all
insert_all-perm [] p = Perm.rfl
insert_all-perm (x ∷ s) p =
    Perm.trans (insert_all-perm s (insert x p))
      (Perm.trans (Perm.append_left s (insert-perm x p)) (perm_middle s p))

All-mono : {P Q : ℕ → Type 0} (xs : List ℕ) → ((x : ℕ) → P x → Q x) → All P xs → All Q xs
All-mono [] f h = tt
All-mono (x ∷ xs) f h = (f x h.0, All-mono xs f h.1)

All-both : (P Q : ℕ → Type 0) (xs : List ℕ) → All P xs → All Q xs → All (λ x. P x × Q x) xs
All-both P Q [] hp hq = tt
All-both P Q (x ∷ xs) hp hq = ((hp.0, hq.0), All-both P Q xs hp.1 hq.1)

All-nil : (p : List ℕ) → All (λ (y : ℕ). All (λ (z : ℕ). y ≤ z) []) p
All-nil [] = tt
All-nil (x ∷ p) = (tt, All-nil p)

insert-below :
    (x b : Duration) (p : List Duration)
    → x ≤ b
    → All (λ y. y ≤ b) p
    → All (λ y. y ≤ b) (insert x p)
unfolding insert
insert-below x b [] le h = (le, tt)
insert-below x b (y ∷ p) le h = ground (arith, insert-below x b p le h.1)

insert-IsDescending :
    (x : Duration) (p : List Duration) → IsDescending p → IsDescending (insert x p)
unfolding insert
insert-IsDescending x [] h = (tt, tt)
insert-IsDescending x (y ∷ p) h = elim (Bool-cases (ltb x y)) [
  | inl e ↦ rw e (insert-below x y p (ground arith) h.0, insert-IsDescending x p h.1)
  | inr e ↦ rw e ((ground arith, All-mono p (λ z le. ground arith) h.0), h)
]

insert_all-IsDescending : (s p : List Duration) → IsDescending p → IsDescending (insert_all s p)
unfolding insert_all
insert_all-IsDescending [] p h = h
insert_all-IsDescending (x ∷ s) p h =
    insert_all-IsDescending s (insert x p) (insert-IsDescending x p h)

back-IsAscending :
    (p s : List Duration)
    → IsDescending p
    → IsAscending s
    → All (λ y. All (λ z. y ≤ z) s) p
    → IsAscending (back p s)
unfolding back
back-IsAscending [] s hp hs h = hs
back-IsAscending (x ∷ p) s hp hs h =
    back-IsAscending p (x ∷ s) hp.1 (h.0, hs)
      (All-both (λ y. y ≤ x) (λ y. All (λ z. y ≤ z) s) p hp.0 h.1)

-- sortDurations reads and writes no index out of range, and turns the slice into an ascending
-- rearrangement of its elements.
pub sort_durations-Sorts :
    (xs : List Duration)
    → (ys : List Duration) × (sort_durations xs ≡ some ys) × IsAscending ys × Perm ys xs
sort_durations-Sorts xs =
    let p = insert_all xs [] in
    (
      back p [],
      sort_durations-insert_all xs,
      back-IsAscending p [] (insert_all-IsDescending xs [] tt) tt (All-nil p),
      subst (λ zs. Perm (back p []) zs) (append-nil xs)
          (Perm.trans (subst (λ zs. Perm (back p []) zs) (append-nil p) (back-perm p []))
            (insert_all-perm xs [])),
    )
