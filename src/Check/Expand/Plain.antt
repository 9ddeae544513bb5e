-- ===== src/Check/Expand/Plain.antt =====
-- Schemas whose rewrites name relations without a `#`, as a schema text does.
use zanzo.Base.{
  ◌≡◌, none, All, Str, ok, ok_inj, get, get-All, str_eq, subst, Option-cases, inl, inr,
}
use zanzo.Storage.Types.{hash}
use zanzo.Storage.Parse.{index}
use zanzo.Schema.Types.{
  Schema, Relation, Definition, Rewrite, Rewrites, this, computed_userset, tuple_to_userset, union,
  intersection, exclusion, no_children, child, lookup, lookup_definition, lookup_relation,
}
use zanzo.Check.Engine.{rewrite_of}

unfoldable mutual
  -- The relations that a rewrite names hold no `#`.
  pub NamesPlain : Rewrite → Type 0
  NamesPlain this = Unit
  NamesPlain (computed_userset r) = index r hash ≡ none
  NamesPlain (tuple_to_userset tupleset computed) = index computed hash ≡ none
  NamesPlain (union cs) = AllPlain cs
  NamesPlain (intersection cs) = AllPlain cs
  NamesPlain (exclusion base subtract) = NamesPlain base × NamesPlain subtract

  pub AllPlain : Rewrites → Type 0
  AllPlain no_children = Unit
  AllPlain (child c cs) = NamesPlain c × AllPlain cs

abbrev pub IsPlainRelation : Relation → Type 0
IsPlainRelation rel = NamesPlain (rewrite_of rel)

abbrev pub IsPlainSchema : Schema → Type 0
IsPlainSchema schema =
    All (λ (d : Str × Definition). All (λ (r : Str × Relation). IsPlainRelation r.1) d.1.relations)
      schema.definitions

pub lookup-NamesPlain :
    (schema : Schema) (type r : Str) (rel : Relation)
    → IsPlainSchema schema
    → lookup schema type r ≡ ok rel
    → NamesPlain (rewrite_of rel)
unfolding lookup lookup_definition lookup_relation
lookup-NamesPlain schema type r rel plain h = elim (Option-cases (get schema.definitions type)) [
  | inl missing ↦ absurd (cc (rw missing at h))
  | inr (d, found) ↦ elim (Option-cases (get d.relations r)) [
    | inl missing ↦ absurd (cc (rw (found, missing) at h))
    | inr (rel', there) ↦ subst IsPlainRelation (ok_inj (rw (found, there) at h)) (
        get-All IsPlainRelation d.relations r rel'
          (get-All (λ def. All (λ (y : Str × Relation). IsPlainRelation y.1) def.relations)
            schema.definitions type d plain found)
          there)
  ]
]
