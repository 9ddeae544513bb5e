-- ===== src/Schema/Reverse/Walks.antt =====
-- WalksInto holds every edge of every relation.
use zanzo.Base.{
  ◌≡◌, none, some, List, [], ◌∷◌, ◌++◌, Str, Map, get, str_eq, ◌==◌, ==_iff, Bool-cases, inl, inr,
}
use mathlib.Core.Option.{some-injective}
use zanzo.Schema.Types.{Relation, Definition, Schema}
use zanzo.Schema.Reverse.{Walk, walks_of, walks_of_relations, walks_of_definitions, walks_into}

pub data Has (w : Walk) : List Walk → Type 0 where
  first : {ws : List Walk} → Has w (w ∷ ws)
  later : {v : Walk} {ws : List Walk} → Has w ws → Has w (v ∷ ws)

pub Has-left : {w : Walk} (ws vs : List Walk) → Has w ws → Has w (ws ++ vs)
Has-left _ vs first = first
Has-left (v ∷ ws) vs (later h) = later (Has-left ws vs h)

pub Has-right : {w : Walk} (ws vs : List Walk) → Has w vs → Has w (ws ++ vs)
Has-right [] vs h = h
Has-right (v ∷ ws) vs h = later (Has-right ws vs h)

-- the walks of a relation's rewrite, if it has one
abbrev pub walks_at : Str → Str → Str → Relation → List Walk
walks_at type name far rel = elim rel.rewrite [ none ↦ [] | some rw ↦ walks_of type name far rw ]

module _ (w : Walk) (far : Str) where
  in_relations :
      (type name : Str) (rels : Map Str Relation) (rel : Relation)
      → get rels name ≡ some rel
      → Has w (walks_at type name far rel)
      → Has w (walks_of_relations type far rels)
  unfolding walks_of_relations get
  in_relations type name [] rel h k = absurd (cc)
  in_relations type name ((j, r) ∷ rels) rel h k = elim (Bool-cases (j == name)) [
    | inl same ↦
        let names : j ≡ name = (==_iff j name).0 same in
        let e : r ≡ rel = some-injective r rel (rw same at h) in
        Has-left (walks_at type j far r) _ (rw (names, e) k)
    | inr other ↦
        Has-right (walks_at type j far r) _ (in_relations type name rels rel (rw other at h) k)
  ]

  in_definitions :
      (type name : Str) (defs : Map Str Definition) (def : Definition) (rel : Relation)
      → get defs type ≡ some def
      → get def.relations name ≡ some rel
      → Has w (walks_at type name far rel)
      → Has w (walks_of_definitions far defs)
  unfolding walks_of_definitions get
  in_definitions type name [] def rel g h k = absurd (cc)
  in_definitions type name ((j, d) ∷ defs) def rel g h k = elim (Bool-cases (j == type)) [
    | inl same ↦
        let types : j ≡ type = (==_iff j type).0 same in
        let e : d ≡ def = some-injective d def (rw same at g) in
        Has-left (walks_of_relations j far d.relations) _
          (rw (types, e) (in_relations type name def.relations rel h k))
    | inr other ↦
        Has-right (walks_of_relations j far d.relations) _
          (in_definitions type name defs def rel (rw other at g) h k)
  ]

  pub walks_into-Has :
      (s : Schema) (type name : Str) (def : Definition) (rel : Relation)
      → get s.definitions type ≡ some def
      → get def.relations name ≡ some rel
      → Has w (walks_at type name far rel)
      → Has w (walks_into s far)
  unfolding walks_into
  walks_into-Has s type name def rel g h k = in_definitions type name s.definitions def rel g h k
