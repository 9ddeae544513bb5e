-- ===== src/Schema/Reverse/Closed.antt =====
-- What Contributors returns is closed: it holds every relation of the same object that one of its
-- relations names where it can grant.
use zanzo.Base.{
  ℕ, zero, suc, ◌+◌, ◌≡◌, refl, sym, ◌∙◌, subst, true, false, none, some, List, [], ◌∷◌, ◌++◌,
  arith, eq_str_iff, Str, Map, get, str_eq, any, length, ◌⊎◌, inl, inr, Bool-cases, Option-cases,
}
use mathlib.Core.Option.{some-injective}
use zanzo.Schema.Types.{
  Rewrite, Rewrites, this, computed_userset, tuple_to_userset, union, intersection, exclusion,
  no_children, child, Relation, Definition, Schema,
}
use zanzo.Schema.Reverse.{
  Found, then_found, expand_names, expand_all_names, is_found, rewrite_at, walk_names, contributors,
}
use zanzo.Schema.Reverse.Enough.{is_found-append, contributors-finds}

then_found-some :
    (r : Found) (f : List Str → Found) (more : List Str)
    → then_found r f ≡ some more
    → (mid : List Str) × (r ≡ some mid) × (f mid ≡ some more)
then_found-some none f more h = absurd (cc)
then_found-some (some mid) f more h = (mid, refl, h)

abbrev pub Within : List Str → List Str → Type 0
Within out more = (x : Str) → is_found x out ≡ true → is_found x more ≡ true

module _ (out : List Str) where
  unfoldable mutual
    -- The relations of the same object that the rewrite names where it can grant.
    pub Names : Rewrite → Type 0
    Names this = Unit
    Names (computed_userset r) = is_found r out ≡ true
    Names (tuple_to_userset tupleset computed) = Unit
    Names (union cs) = NamesAll cs
    Names (intersection cs) = NamesAll cs
    Names (exclusion base subtract) = Names base

    pub NamesAll : Rewrites → Type 0
    NamesAll no_children = Unit
    NamesAll (child c cs) = Names c × NamesAll cs

module _ (out more : List Str) (sub : Within out more) where
  mutual
    unfolding Names

    Names-mono : (rw : Rewrite) → Names out rw → Names more rw
    Names-mono this h = tt
    Names-mono (computed_userset r) h = sub r h
    Names-mono (tuple_to_userset tupleset computed) h = tt
    Names-mono (union cs) h = NamesAll-mono cs h
    Names-mono (intersection cs) h = NamesAll-mono cs h
    Names-mono (exclusion base subtract) h = Names-mono base h

    NamesAll-mono : (cs : Rewrites) → NamesAll out cs → NamesAll more cs
    NamesAll-mono no_children h = tt
    NamesAll-mono (child c cs) h = (Names-mono c h.0, NamesAll-mono cs h.1)

module _ (rels : Map Str Relation) where
  -- What the relation names is among these.
  abbrev pub IsClosed : List Str → Str → Type 0
  IsClosed out x = (rw : Rewrite) → rewrite_at rels x ≡ some rw → Names out rw

  -- From `out`, to names that hold it, where each new one is closed.
  record Extends (out more : List Str) : Type 0 where
    within : Within out more
    closed : (x : Str) → is_found x more ≡ true → (is_found x out ≡ true) ⊎ IsClosed more x

  Extends-same : (out : List Str) → Extends out out
  Extends-same out = record { within = λ x h. h; closed = λ x h. inl h }

  same : (out more : List Str) → some out ≡ some more → Extends out more
  same out more p = subst (Extends out) (some-injective out more p) (Extends-same out)

  Extends-trans : (a b c : List Str) → Extends a b → Extends b c → Extends a c
  Extends-trans a b c h k = record {
    within = λ x p. k.within x (h.within x p);
    closed = λ x p. elim (k.closed x p) [
      | inr new ↦ inr new
      | inl old ↦ elim (h.closed x old) [
        | inl older ↦ inl older
        | inr q ↦ inr (λ w e. Names-mono b c k.within w (q w e))
      ]
    ];
  }

  marked :
      (name x : Str) (out : List Str)
      → is_found x (out ++ name ∷ []) ≡ true
      → is_found x out ≡ false
      → x ≡ name
  unfolding any
  marked name x out h k = ground (arith, is_found-append x out (name ∷ []), eq_str_iff x name)

  kept :
      (name x : Str) (out : List Str) → is_found x out ≡ true → is_found x (out ++ name ∷ []) ≡ true
  kept name x out h = is_found-append x out (name ∷ []) ∙ rw h refl

  has_mark : (name : Str) (out : List Str) → is_found name (out ++ name ∷ []) ≡ true
  unfolding any
  has_mark name out = ground (arith, is_found-append name out (name ∷ []), eq_str_iff name name)

  mark-Extends :
      (name : Str) (out more : List Str)
      → Extends (out ++ name ∷ []) more
      → IsClosed more name
      → Extends out more × (is_found name more ≡ true)
  mark-Extends name out more e closes = (
    record {
      within = λ x p. e.within x (kept name x out p);
      closed = λ x p. elim (Bool-cases (is_found x out)) [
        | inl old ↦ inl old
        | inr new ↦ elim (e.closed x p) [
          | inr c ↦ inr c
          | inl q ↦ inr (subst (IsClosed more) (sym (marked name x out q new)) closes)
        ]
      ];
    },
    e.within name (has_mark name out),
  )

  module _ (walk : Str → List Str → Found) where
    -- A walk from a name extends what was found, and finds the name.
    abbrev Extending : Type 0
    Extending =
        (r : Str) (out more : List Str)
        → walk r out ≡ some more
        → Extends out more × (is_found r more ≡ true)

    module _ (h : Extending) where
      mutual
        unfolding expand_names Names

        expand-Extends :
            (rw : Rewrite) (out more : List Str)
            → expand_names walk rw out ≡ some more
            → Extends out more × Names more rw
        expand-Extends this out more p = (same out more p, tt)
        expand-Extends (computed_userset r) out more p = h r out more p
        expand-Extends (tuple_to_userset tupleset computed) out more p = (same out more p, tt)
        expand-Extends (union cs) out more p = expand_all-Extends cs out more p
        expand-Extends (intersection cs) out more p = expand_all-Extends cs out more p
        expand-Extends (exclusion base subtract) out more p = expand-Extends base out more p

        expand_all-Extends :
            (cs : Rewrites) (out more : List Str)
            → expand_all_names walk cs out ≡ some more
            → Extends out more × NamesAll more cs
        expand_all-Extends no_children out more p = (same out more p, tt)
        expand_all-Extends (child c cs) out more p =
            let (mid, first, second) =
              then_found-some (expand_names walk c out) (expand_all_names walk cs) more p in
            let (e, n) = expand-Extends c out mid first in
            let (e', n') = expand_all-Extends cs mid more second in
            (Extends-trans out mid more e e', (Names-mono mid more e'.within c n, n'))

  walk_names-Extends :
      (n : ℕ) (name : Str) (out more : List Str)
      → walk_names n rels name out ≡ some more
      → Extends out more × (is_found name more ≡ true)
  unfolding walk_names
  walk_names-Extends zero name out more p = absurd (cc)
  walk_names-Extends (suc n) name out more p = elim (Bool-cases (is_found name out)) [
    | inl old ↦
        let e : out ≡ more = some-injective out more (rw (walk_names, old) at p) in
        (subst (Extends out) e (Extends-same out), subst (λ o. is_found name o ≡ true) e old)
    | inr new ↦ elim (Option-cases (rewrite_at rels name)) [
      | inl plain ↦
          let p' : some (out ++ name ∷ []) ≡ some more = rw (walk_names, new, plain) at p in
          mark-Extends name out more (same (out ++ name ∷ []) more p')
            (λ w e. absurd (cc (sym plain ∙ e)))
      | inr (w, given) ↦
          let p' : expand_names (walk_names n rels) w (out ++ name ∷ []) ≡ some more =
            rw (walk_names, new, given) at p in
          let (e, names) =
            expand-Extends (walk_names n rels) (λ r o m q. walk_names-Extends n r o m q) w
              (out ++ name ∷ []) more p' in
          mark-Extends name out more e
            (λ v q. subst (Names more) (some-injective w v (sym given ∙ q)) names)
    ]
  ]

-- For a declared type: Contributors holds the permission, and with each of its relations every
-- relation of the same object that this one names where it can grant. (So its walk ends, however
-- the relations refer to each other: without a result it holds nothing.)
pub contributors-IsClosed :
    (s : Schema) (type permission : Str) (def : Definition)
    → get s.definitions type ≡ some def
    → (is_found permission (contributors s type permission) ≡ true)
      × ((r : Str)
          → is_found r (contributors s type permission) ≡ true
          → IsClosed def.relations (contributors s type permission) r)
unfolding contributors any
contributors-IsClosed s type permission def defined =
    let (out, found) = contributors-finds def.relations permission in
    let (e, has) =
      walk_names-Extends def.relations (length def.relations + 2) permission [] out found in
    rw (contributors, defined, found)
      (has, λ r p. elim (e.closed r p) [ inl none_yet ↦ absurd (cc none_yet) | inr c ↦ c ])
