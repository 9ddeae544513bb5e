-- ===== src/Check/Grants/Origins.antt =====
-- Where a grant comes from: Contributors and WalksInto, on which ListObjects rests, miss no relation
-- and no edge of the object itself.
use zanzo.Base.{
  ◌≡◌, refl, sym, ◌∙◌, true, Option, none, some, List, [], Str, get, str_eq, eq_str_iff, ok,
}
use mathlib.Core.Option.{some-injective}
use zanzo.Storage.Types.{Object, Subject, Tuple}
use zanzo.Schema.Types.{
  Schema, Rewrite, Rewrites, Relation, Definition, this, tuple_to_userset, lookup,
}
use zanzo.Schema.Reverse.{
  Walk, walks_of, walks_of_all, walks_into, contributors, is_found, rewrite_at,
}
use zanzo.Schema.Reverse.Closed.{Names, NamesAll, IsClosed, contributors-IsClosed}
use zanzo.Schema.Reverse.Walks.{Has, first, Has-left, Has-right, walks_into-Has}
use zanzo.Schema.Validate.Closed.{lookup-ok}
use zanzo.Check.Engine.{rewrite_of}
use zanzo.Check.Reference.{Reader}
use zanzo.Check.Grants.{
  In, Reaches, by_rewrite, Grants, direct, by_userset, by_computed, by_edge, by_union,
  by_intersection, by_base, Some, this_one, a_later, both,
}

module _ (schema : Schema) (read : Reader) (subject : Subject) where
  -- A tuple of the object under one of these relations; or a walk that WalksInto lists under one of
  -- them, along a tuple whose far side the subject reaches.
  pub data Origin (found : List Str) (o : Object) : Type 0 where
    by_tuple :
        (r : Str) (ts : List Tuple) (t : Tuple)
        → is_found r found ≡ true
        → read o r ≡ ok ts
        → In t ts
        → Origin found o
    by_walk :
        (w : Walk) (ts : List Tuple) (t : Tuple)
        → is_found w.permission found ≡ true
        → w.object_type ≡ o.type
        → Has w (walks_into schema w.computed)
        → read o w.tupleset ≡ ok ts
        → In t ts
        → Reaches schema read subject t.subject.object w.computed
        → Origin found o

  abbrev Listed : Str → Str → Rewrite → Type 0
  Listed type r rw =
      (x : Walk) → Has x (walks_of type r x.computed rw) → Has x (walks_into schema x.computed)

  abbrev AllListed : Str → Str → Rewrites → Type 0
  AllListed type r cs =
      (x : Walk) → Has x (walks_of_all type r x.computed cs) → Has x (walks_into schema x.computed)

  of_walk :
      (type r tupleset computed : Str)
      → Listed type r (tuple_to_userset tupleset computed)
      → Has
          (record { object_type = type; permission = r; tupleset = tupleset; computed = computed })
          (walks_into schema computed)
  unfolding walks_of
  of_walk type r tupleset computed h =
      h (record { object_type = type; permission = r; tupleset = tupleset; computed = computed })
        (rw ((eq_str_iff computed computed).1 refl) first)

  rewrite_of-Names :
      (found : List Str) (x : Option Rewrite)
      → ((w : Rewrite) → x ≡ some w → Names found w)
      → Names found (elim x [ none ↦ this | some rw ↦ rw ])
  unfolding Names
  rewrite_of-Names found none h = tt
  rewrite_of-Names found (some w) h = h w refl

  rewrite_of-Listed :
      (type r : Str) (x : Option Rewrite)
      → ((y : Walk)
          → Has y
              (elim x as (λ _. List Walk) [ none ↦ [] | some rw ↦ walks_of type r y.computed rw ])
          → Has y (walks_into schema y.computed))
      → Listed type r (elim x [ none ↦ this | some rw ↦ rw ])
  unfolding walks_of
  rewrite_of-Listed type r none h = h
  rewrite_of-Listed type r (some w) h = h

  module _ (type : Str) (found : List Str) (def : Definition)
      (defined : get schema.definitions type ≡ some def)
      (closed : (r : Str) → is_found r found ≡ true → IsClosed def.relations found r) where
    -- What is known of a relation among `found`.
    known :
        (r : Str) (rel : Relation)
        → is_found r found ≡ true
        → lookup schema type r ≡ ok rel
        → Names found (rewrite_of rel) × Listed type r (rewrite_of rel)
    known r rel h looked =
        let (def', defined', declared) = lookup-ok schema type r rel looked in
        let same : def' ≡ def = some-injective def' def (sym defined' ∙ defined) in
        let declared' : get def.relations r ≡ some rel = rw (← same) declared in
        (
          rewrite_of-Names found rel.rewrite (λ w p. closed r h w (rw (rewrite_at, declared') p)),
          rewrite_of-Listed type r rel.rewrite
              (λ y k. walks_into-Has y y.computed schema type r def rel defined declared' k),
        )

    mutual
      unfolding Names walks_of

      Reaches-Origin_at :
          {o : Object} {r : Str}
          → o.type ≡ type
          → is_found r found ≡ true
          → Reaches schema read subject o r
          → Origin found o
      Reaches-Origin_at {o} {r} same h (by_rewrite rel looked g) =
          let (names, listed) = known r rel h (rw same at looked) in
          Grants-Origin same h names listed g

      Grants-Origin :
          {o : Object} {r : Str} {w : Rewrite}
          → o.type ≡ type
          → is_found r found ≡ true
          → Names found w
          → Listed type r w
          → Grants schema read subject o r w
          → Origin found o
      Grants-Origin {o} {r} same h n l (direct ts t p i plain e) = by_tuple r ts t h p i
      Grants-Origin {o} {r} same h n l (by_userset ts t p i u g) = by_tuple r ts t h p i
      Grants-Origin same h n l (by_computed q g) = Reaches-Origin_at same n g
      Grants-Origin {o} {r} same h n l (by_edge tupleset computed ts t p i g) =
          by_walk
            (record {
              object_type = type;
              permission = r;
              tupleset = tupleset;
              computed = computed;
            })
            ts t h (sym same) (of_walk type r tupleset computed l) p i g
      Grants-Origin same h n l (by_union cs g) = Some-Origin same h n l g
      Grants-Origin same h n l (by_intersection c cs (both _ _ g gs)) =
          Grants-Origin same h n.0 (λ x k. l x (Has-left _ _ k)) g
      Grants-Origin same h n l (by_base base subtract g) = Grants-Origin same h n l g

      Some-Origin :
          {o : Object} {r : Str} {cs : Rewrites}
          → o.type ≡ type
          → is_found r found ≡ true
          → NamesAll found cs
          → AllListed type r cs
          → Some schema read subject o r cs
          → Origin found o
      Some-Origin same h n l (this_one c cs g) =
          Grants-Origin same h n.0 (λ x k. l x (Has-left _ _ k)) g
      Some-Origin same h n l (a_later c cs g) =
          Some-Origin same h n.1 (λ x k. l x (Has-right _ _ k)) g

-- Whatever subject reaches a permission of an object: there is a tuple of the object under one of
-- the relations that Contributors returns for the permission, or a walk that WalksInto returns,
-- declared under one of them, along a tuple of the object to an object whose far relation the
-- subject reaches.
pub Reaches-Origin :
    (schema : Schema) (read : Reader) (subject : Subject) (o : Object) (permission : Str)
    → Reaches schema read subject o permission
    → Origin schema read subject (contributors schema o.type permission) o
Reaches-Origin schema read subject o permission g =
    let (def, defined) = defined_at g in
    let (has, closed) = contributors-IsClosed schema o.type permission def defined in
    Reaches-Origin_at schema read subject o.type (contributors schema o.type permission) def defined
      closed refl has g
  where
    defined_at :
        Reaches schema read subject o permission
        → (def : Definition) × (get schema.definitions o.type ≡ some def)
    defined_at (by_rewrite rel looked _) =
        let (def, defined, _) = lookup-ok schema o.type permission rel looked in (def, defined)
