-- ===== src/Storage/Memory/Held.antt =====
-- What holds of every row of the in-process store holds of what Read returns.
use zanzo.Base.{
  ℕ, zero, suc, ◌≡◌, Bool, some, List, [], ◌∷◌, All, map, filter, get_elem?, Bool-cases,
  Option-cases, inl, inr, subst, Str,
}
use zanzo.Storage.Types.{Object, Tuple, Revision}
use zanzo.Storage.Memory.{Memory, Row, read, rows_at, offsets, key, is_visible}

module _ (P : Tuple → Type 0) where
  abbrev Rows : List Row → Type 0
  Rows = All (λ r. P r.tuple)

  get_elem?-Rows :
      (rows : List Row) (i : ℕ) (r : Row) → Rows rows → get_elem? rows i ≡ some r → P r.tuple
  unfolding get_elem?
  get_elem?-Rows [] i r h e = absurd (cc)
  get_elem?-Rows (x ∷ rows) zero r h e = let q : x ≡ r = cc in subst (λ y. P y.tuple) q h.0
  get_elem?-Rows (x ∷ rows) (suc i) r h e = get_elem?-Rows rows i r h.1 e

  rows_at-Rows : (rows : List Row) (is : List ℕ) → Rows rows → Rows (rows_at rows is)
  unfolding rows_at
  rows_at-Rows rows [] h = tt
  rows_at-Rows rows (i ∷ is) h = elim (Option-cases (get_elem? rows i)) [
    | inl e ↦ rw (rows_at, e) (rows_at-Rows rows is h)
    | inr (r, e) ↦ rw (rows_at, e) (get_elem?-Rows rows i r h e, rows_at-Rows rows is h)
  ]

  visible-All :
      (p : Row → Bool) (rows : List Row)
      → Rows rows
      → All P (map (λ (r : Row). r.tuple) (filter p rows))
  unfolding filter
  visible-All p [] h = tt
  visible-All p (r ∷ rows) h = elim (Bool-cases (p r)) [
    | inl e ↦ rw (filter, e) (h.0, visible-All p rows h.1)
    | inr e ↦ rw (filter, e) (visible-All p rows h.1)
  ]

  pub read-All :
      (m : Memory) (rev : Revision) (o : Object) (relation : Str)
      → Rows m.rows
      → All P (read m rev o relation)
  unfolding read
  read-All m rev o relation h =
      visible-All (is_visible rev) (rows_at m.rows (offsets m.index (key o relation)))
        (rows_at-Rows m.rows (offsets m.index (key o relation)) h)
