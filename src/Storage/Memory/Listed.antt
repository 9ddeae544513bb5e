-- ===== src/Storage/Memory/Listed.antt =====
-- What a write makes of the relation that the store holds, place by place.
use zanzo.Base.{
  ◌+◌, ◌^◌, ◌<◌, ◌≡◌, refl, ◌∙◌, ap, Bool, ◌&&◌, ◌||◌, not, List, [], ◌∷◌, Str, eq_str, any, All,
}
use zanzo.Storage.Types.{Object, Subject, Tuple, eq_object, eq_subject}
use zanzo.Storage.Memory.{Memory, key, write}
use zanzo.Storage.Memory.Live.{related, among}
use zanzo.Storage.Memory.Written.{IsStored, related-write_keyed}
use zanzo.Storage.Places.{IsPlace, IsPlain, same_key}

-- One of the tuples relates the subject to the object, under the relation.
unfoldable pub listed : List Tuple → Object → Str → Subject → Bool
listed ts o relation s =
    any (λ t. (eq_object t.object o && eq_str t.relation relation) && eq_subject t.subject s) ts

among-listed :
    (ts : List Tuple) (o : Object) (relation : Str) (s : Subject)
    → All IsPlain ts
    → IsPlace o relation
    → among ts (key o relation) s ≡ listed ts o relation s
unfolding listed any
among-listed [] o relation s hs h = refl
among-listed (t ∷ ts) o relation s hs h =
    rw (same_key t.object o t.relation relation hs.0.place h, among-listed ts o relation s hs.1 h)
      refl

-- On a well-formed store below the last revision of a uint64, for a relation with no # of an object
-- that has a text, and a write of such tuples, whose subjects have texts: at the new head a subject is
-- related exactly if the write adds it, or if it was related and is not removed.
pub related-write :
    (add remove : List Tuple) (m : Memory)
    → IsStored m
    → m.head + 1 < 2 ^ 64
    → All IsPlain add
    → All IsPlain remove
    → (o : Object) (relation : Str) (s : Subject) → IsPlace o relation
    → let after = write add remove m in
      related after after.head o relation s ≡ (
        (related m m.head o relation s && not (listed remove o relation s))
        || listed add o relation s)
related-write add remove m h room adds removes o relation s place =
    related-write_keyed add remove m h room o relation s
    ∙ ap (λ b. (related m m.head o relation s && not b) || among add (key o relation) s)
        (among-listed remove o relation s removes place)
    ∙ ap (λ b. (related m m.head o relation s && not (listed remove o relation s)) || b)
        (among-listed add o relation s adds place)
