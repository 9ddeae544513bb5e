-- ===== src/Storage/Places.antt =====
-- Objects and relations that the text forms tell apart: what the keys of the in-process store, the
-- marks of Expand and the columns of the Postgres store agree on.
use zanzo.Base.{◌≡◌, ◌&&◌, arith, Str, eq_str, eq_str_iff, Bool-cases, inl, inr}
use zanzo.Storage.Types.{
  Object, Subject, Tuple, hash, subject_string, eq_object, eq_object_iff, eq_subject,
  eq_subject_iff,
}
use zanzo.Storage.Parse.{index}
use zanzo.Base.{none}
use zanzo.Storage.Parse.RoundTrip.{IsObject, IsSubject, subject_string-injective}
use zanzo.Storage.Memory.{key}
use zanzo.Storage.Memory.Keys.{key-injective}

-- The object has a text and the relation holds no `#`, as do the tuples of a valid schema.
pub record IsPlace (o : Object) (relation : Str) : Type 0 where
  pub object : IsObject o
  pub relation_free : index relation hash ≡ none

pub record IsPlain (t : Tuple) : Type 0 where
  pub place : IsPlace t.object t.relation
  pub subject : IsSubject t.subject

-- On places, the key tells apart what the columns tell apart.
pub same_key :
    (a b : Object) (r q : Str)
    → IsPlace a r
    → IsPlace b q
    → eq_str (key a r) (key b q) ≡ (eq_object a b && eq_str r q)
same_key a b r q ha hb = elim (Bool-cases (eq_str (key a r) (key b q))) [
  | inl e ↦
      let (objects, relations) =
        key-injective a b r q ha.object hb.object ha.relation_free hb.relation_free
          ((eq_str_iff _ _).0 e) in
      ground (arith, eq_object_iff a b, eq_str_iff r q)
  | inr e ↦ ground (arith, eq_object_iff a b, eq_str_iff r q, eq_str_iff (key a r) (key b q))
]

pub same_subject :
    (a b : Subject)
    → IsSubject a
    → IsSubject b
    → eq_str (subject_string a) (subject_string b) ≡ eq_subject a b
same_subject a b ha hb = ground (
  arith,
  eq_str_iff (subject_string a) (subject_string b),
  eq_subject_iff a b,
  subject_string-injective a b ha hb,
)
