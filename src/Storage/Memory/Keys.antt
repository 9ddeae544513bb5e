-- ===== src/Storage/Memory/Keys.antt =====
-- When the key of an object and a relation tells them apart, and when it does not.
use zanzo.Base.{
  ◌+◌, ◌^◌, ◌<◌, ◌≡◌, refl, sym, ◌∙◌, ap, Bool, true, ◌≢◌, ok_inj, none, [], ◌∷◌, ◌++◌,
  append_assoc, arith, Str, ◌||◌, any, ==_refl, str_eq,
}
use zanzo.Storage.Types.{Object, Subject, Tuple, hash, object_string, subject_eq}
use zanzo.Storage.Parse.{index, parse_object}
use zanzo.Storage.Parse.Index.{index-none_append}
use zanzo.Storage.Parse.RoundTrip.{IsObject, parse_object-eq-ok_iff}
use zanzo.Storage.Memory.{Memory, key, write}
use zanzo.Storage.Memory.Live.{related, among}
use zanzo.Storage.Memory.Written.{IsStored, related-write_keyed}

hash_found : (u v t : Str) → index t hash ≡ none → t ≢ u ++ hash ∷ v
unfolding index
hash_found u v t h e = cc ((index-none_append u (hash ∷ v) hash (rw e at h)).1)

-- The last `#` of a text splits it in one way.
last_hash :
    (s t u v : Str)
    → index t hash ≡ none
    → index v hash ≡ none
    → s ++ hash ∷ t ≡ u ++ hash ∷ v
    → (s ≡ u) × (t ≡ v)
last_hash [] t [] v h k e = ground arith
last_hash [] t (b ∷ u) v h k e = absurd (hash_found u v t h (ground arith))
last_hash (a ∷ s) t [] v h k e = absurd (hash_found s t v k (ground arith))
last_hash (a ∷ s) t (b ∷ u) v h k e = ground (arith, last_hash s t u v h k)

-- For objects that have a text and relations with no `#`, the key determines both.
pub key-injective :
    (a b : Object) (r q : Str)
    → IsObject a
    → IsObject b
    → index r hash ≡ none
    → index q hash ≡ none
    → key a r ≡ key b q
    → (a ≡ b) × (r ≡ q)
unfolding key
key-injective a b r q ha hb hr hq e =
    let (texts, relations) = last_hash (object_string a) r (object_string b) q hr hq e in
    let parsed_a = (parse_object-eq-ok_iff (object_string a) a).1 (refl, ha) in
    let parsed_b = (parse_object-eq-ok_iff (object_string b) b).1 (refl, hb) in
    (ok_inj (sym parsed_a ∙ ap parse_object texts ∙ parsed_b), relations)

-- A relation that holds a `#` is filed under the key of another object.
key_collides :
    (type id x r : Str)
    → key (record { type = type; id = id }) (x ++ hash ∷ r)
      ≡ key (record { type = type; id = id ++ hash ∷ x }) r
unfolding key object_string
key_collides type id x r = simp append_assoc

or_true : (a b : Bool) → b ≡ true → (a || b) ≡ true
or_true a b h = ground arith

-- Writing one tuple whose relation holds a `#` relates its subject to another object: to
-- `type:id#x` under `r`, though the tuple names `type:id` and the relation `x#r`.
pub write_leaks :
    (m : Memory) (type id x r : Str) (s : Subject)
    → IsStored m
    → m.head + 1 < 2 ^ 64
    → let t : Tuple = record {
      object = record { type = type; id = id };
      relation = x ++ hash ∷ r;
      subject = s;
    } in
      let after = write (t ∷ []) [] m in
      related after after.head (record { type = type; id = id ++ hash ∷ x }) r s ≡ true
unfolding any
write_leaks m type id x r s h room =
    let t : Tuple = record {
      object = record { type = type; id = id };
      relation = x ++ hash ∷ r;
      subject = s;
    } in
    let target : Object = record { type = type; id = id ++ hash ∷ x } in
    let named : among (t ∷ []) (key target r) s ≡ true =
      rw (key_collides type id x r, ==_refl (key target r), ==_refl s) refl in
    related-write_keyed (t ∷ []) [] m h room target r s ∙ or_true _ _ named
