-- ===== src/Storage/Memory/Offsets.antt =====
-- The loops over row offsets, when the offsets are those of the rows that pass a test.
use zanzo.Base.{
  ℕ, suc, ◌+◌, ◌≡◌, refl, ap, Bool, some, List, [], ◌∷◌, ◌++◌, map, append_assoc, arith,
  if◌then◌else◌, length, get_elem?, set, length-append, filter,
}
use zanzo.Storage.Types.{Subject, Revision}
use zanzo.Storage.Memory.{Row, rows_at, mark_offsets, mark_row}

-- The offsets, counted from `i`, of the rows that pass.
unfoldable pub positions : (Row → Bool) → ℕ → List Row → List ℕ
positions p i [] = []
positions p i (r ∷ rs) = let rest = positions p (suc i) rs in if p r then i ∷ rest else rest

get_elem?-length : (pre rs : List Row) (r : Row) → get_elem? (pre ++ r ∷ rs) (length pre) ≡ some r
get_elem?-length [] rs r = refl
get_elem?-length (q ∷ pre) rs r = get_elem?-length pre rs r

set-length : (pre rs : List Row) (r q : Row) → set (pre ++ r ∷ rs) (length pre) q ≡ pre ++ q ∷ rs
set-length [] rs r q = refl
set-length (x ∷ pre) rs r q = ap (λ l. x ∷ l) (set-length pre rs r q)

snoc : (pre rs : List Row) (r : Row) → (pre ++ r ∷ []) ++ rs ≡ pre ++ r ∷ rs
snoc pre rs r = append_assoc pre (r ∷ []) rs

length-snoc : (pre : List Row) (r : Row) → length (pre ++ r ∷ []) ≡ suc (length pre)
length-snoc pre r = omega (arith, length-append pre (r ∷ []))

rows_at-after :
    (p : Row → Bool) (pre rs : List Row)
    → rows_at (pre ++ rs) (positions p (length pre) rs) ≡ filter p rs
unfolding rows_at positions filter
rows_at-after p pre [] = refl
rows_at-after p pre (r ∷ rs) =
    let ih = rows_at-after p (pre ++ r ∷ []) rs in
    let ih' : rows_at (pre ++ r ∷ rs) (positions p (suc (length pre)) rs) ≡ filter p rs =
      rw (snoc, length-snoc) at ih in
    ground (arith, ih', get_elem?-length pre rs r)

-- Reading at the offsets is filtering the whole table.
pub rows_at-positions :
    (p : Row → Bool) (rows : List Row) → rows_at rows (positions p 0 rows) ≡ filter p rows
rows_at-positions p rows = rows_at-after p [] rows

reassociate :
    (rev : Revision) (s : Subject) (p : Row → Bool) (pre rs out : List Row) (q : Row)
    → mark_offsets rev s (positions p (length (pre ++ q ∷ [])) rs) ((pre ++ q ∷ []) ++ rs)
      ≡ (pre ++ q ∷ []) ++ out
    → mark_offsets rev s (positions p (suc (length pre)) rs) (pre ++ q ∷ rs) ≡ pre ++ q ∷ out
reassociate rev s p pre rs out q h = rw (snoc, snoc, length-snoc) at h

mark-after :
    (rev : Revision) (s : Subject) (p : Row → Bool) (pre rs : List Row)
    → mark_offsets rev s (positions p (length pre) rs) (pre ++ rs)
      ≡ pre ++ map (λ r. if p r then mark_row rev s r else r) rs
unfolding mark_offsets positions
mark-after rev s p pre [] = refl
mark-after rev s p pre (r ∷ rs) =
    let out = map (λ q. if p q then mark_row rev s q else q) rs in
    let step =
      λ (q : Row). reassociate rev s p pre rs out q (mark-after rev s p (pre ++ q ∷ []) rs) in
    ground (
      arith,
      get_elem?-length pre rs r,
      set-length pre rs r (mark_row rev s r),
      step (mark_row rev s r),
      step r,
    )

-- Marking at the offsets is a map over the whole table.
pub mark_offsets-positions :
    (rev : Revision) (s : Subject) (p : Row → Bool) (rows : List Row)
    → mark_offsets rev s (positions p 0 rows) rows
      ≡ map (λ r. if p r then mark_row rev s r else r) rows
mark_offsets-positions rev s p rows = mark-after rev s p [] rows

pub positions-append :
    (p : Row → Bool) (i : ℕ) (rs : List Row) (r : Row)
    → positions p i (rs ++ r ∷ []) ≡ positions p i rs ++ (if p r then (i + length rs) ∷ [] else [])
unfolding positions
positions-append p i [] r = rw (let e : i + 0 ≡ i = omega arith in e)
positions-append p i (q ∷ rs) r =
    let e : i + suc (length rs) ≡ suc i + length rs = omega arith in
    rw (e, positions-append p (suc i) rs r) (ground (arith, p q))

pub positions-map :
    (p : Row → Bool) (f : Row → Row) (i : ℕ) (rs : List Row)
    → ((r : Row) → p (f r) ≡ p r)
    → positions p i (map f rs) ≡ positions p i rs
unfolding positions
positions-map p f i [] h = refl
positions-map p f i (r ∷ rs) h = ground (arith, h r, positions-map p f (suc i) rs h)
