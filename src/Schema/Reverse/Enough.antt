-- ===== src/Schema/Reverse/Enough.antt =====
-- The fuel of Contributors is enough: each call of walk that goes on marks a declared relation that
-- was not marked before.
use zanzo.Base.{
  ℕ, zero, suc, ◌+◌, ◌≤◌, ◌≡◌, refl, false, ◌||◌, some, List, [], ◌∷◌, ◌++◌, arith, eq_str_iff, Str,
  Map, get, str_eq, any, length, if◌then◌else◌, Bool-cases, Option-cases, inl, inr,
}
use zanzo.Schema.Types.{
  Rewrite, Rewrites, this, computed_userset, tuple_to_userset, union, intersection, exclusion,
  no_children, child, Relation,
}
use zanzo.Schema.Reverse.{Found, expand_names, expand_all_names, is_found, rewrite_at, walk_names}

-- the declared relations that are not found yet
unfoldable left : Map Str Relation → List Str → ℕ
left [] out = 0
left ((name, rel) ∷ rels) out = (if is_found name out then 0 else 1) + left rels out

left-length : (rels : Map Str Relation) (out : List Str) → left rels out ≤ length rels
unfolding left
left-length [] out = omega arith
left-length ((name, rel) ∷ rels) out = ground (arith, left-length rels out)

pub is_found-append :
    (name : Str) (out more : List Str)
    → is_found name (out ++ more) ≡ (is_found name out || is_found name more)
unfolding any
is_found-append name [] more = refl
is_found-append name (x ∷ out) more = ground (arith, is_found-append name out more)

left-append :
    (rels : Map Str Relation) (out more : List Str) → left rels (out ++ more) ≤ left rels out
unfolding left
left-append [] out more = omega arith
left-append ((name, rel) ∷ rels) out more =
    ground (arith, left-append rels out more, is_found-append name out more)

left-mark :
    (rels : Map Str Relation) (name : Str) (rel : Relation) (out : List Str)
    → get rels name ≡ some rel
    → is_found name out ≡ false
    → left rels (out ++ name ∷ []) + 1 ≤ left rels out
unfolding left get any
left-mark [] name rel out h k = absurd (cc)
left-mark ((j, r) ∷ rels) name rel out h k = ground (
  arith,
  left-mark rels name rel out,
  left-append rels out (name ∷ []),
  is_found-append j out (name ∷ []),
  eq_str_iff j name,
  eq_str_iff name j,
)

-- A result, which leaves no more relations to be found.
abbrev Finds : Map Str Relation → List Str → Found → Type 0
Finds rels out r = (out' : List Str) × (r ≡ some out') × (left rels out' ≤ left rels out)

module _ (rels : Map Str Relation) (bound : ℕ) (walk : Str → List Str → Found) where
  abbrev Walks : Type 0
  Walks = (name : Str) (out : List Str) → left rels out ≤ bound → Finds rels out (walk name out)

  module _ (w : Walks) where
    mutual
      unfolding expand_names

      expand-Finds :
          (rw : Rewrite) (out : List Str)
          → left rels out ≤ bound
          → Finds rels out (expand_names walk rw out)
      expand-Finds this out h = (out, refl, omega arith)
      expand-Finds (computed_userset r) out h = w r out h
      expand-Finds (tuple_to_userset tupleset computed) out h = (out, refl, omega arith)
      expand-Finds (union cs) out h = expand_all-Finds cs out h
      expand-Finds (intersection cs) out h = expand_all-Finds cs out h
      expand-Finds (exclusion base subtract) out h = expand-Finds base out h

      expand_all-Finds :
          (cs : Rewrites) (out : List Str)
          → left rels out ≤ bound
          → Finds rels out (expand_all_names walk cs out)
      expand_all-Finds no_children out h = (out, refl, omega arith)
      expand_all-Finds (child c cs) out h =
          let (mid, p, le) = expand-Finds c out h in
          let (end, q, le') = expand_all-Finds cs mid (omega (arith, le, h)) in
          (end, rw p q, omega (arith, le, le'))

rewrite_at-declared :
    (rels : Map Str Relation) (name : Str) (rw : Rewrite)
    → rewrite_at rels name ≡ some rw
    → (rel : Relation) × (get rels name ≡ some rel)
rewrite_at-declared rels name w h = elim (Option-cases (get rels name)) [
  | inl missing ↦ absurd (cc (rw (rewrite_at, missing) at h))
  | inr given ↦ given
]

walk_names-Finds :
    (n : ℕ) (rels : Map Str Relation) (name : Str) (out : List Str)
    → left rels out + 1 ≤ n
    → Finds rels out (walk_names n rels name out)
unfolding walk_names
walk_names-Finds zero rels name out h = absurd (omega arith)
walk_names-Finds (suc n) rels name out h = elim (Bool-cases (is_found name out)) [
  | inl old ↦ rw (walk_names, old) (out, refl, omega arith)
  | inr new ↦ elim (Option-cases (rewrite_at rels name)) [
    | inl plain ↦
        rw (walk_names, new, plain) (out ++ name ∷ [], refl, left-append rels out (name ∷ []))
    | inr (w, given) ↦
        let (rel, declared) = rewrite_at-declared rels name w given in
        let less = left-mark rels name rel out declared new in
        let (end, p, le) =
          expand-Finds rels (left rels (out ++ name ∷ [])) (walk_names n rels)
            (λ r o k. walk_names-Finds n rels r o (omega (arith, k, less, h))) w (out ++ name ∷ [])
            (omega arith) in
        rw (walk_names, new, given) (end, p, omega (arith, le, less))
  ]
]

-- Contributors returns: the walk over any declared relations, however they refer to each other,
-- has enough fuel.
pub contributors-finds :
    (rels : Map Str Relation) (permission : Str)
    → (out : List Str) × (walk_names (length rels + 2) rels permission [] ≡ some out)
contributors-finds rels permission =
    let (out, p, _) =
      walk_names-Finds (length rels + 2) rels permission [] (omega (arith, left-length rels [])) in
    (out, p)
