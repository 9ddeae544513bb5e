-- ===== src/Storage/Parse/RoundTrip.antt =====
-- What ParseObject and ParseSubject accept is exactly what the String methods write.
use zanzo.Base.{
  ℕ, suc, ◌+◌, ◌≡◌, ◌≢◌, ◌↔◌, refl, ap, none, some, [], ◌∷◌, ◌++◌, arith, Str, take, drop, length,
  inl, inr, Option-cases, ok, err, ok_inj, Result, sym, ◌∙◌, eq_str, eq_str_iff, length-append,
  take-length_append,
}
use zanzo.Storage.Types.{Object, Subject, object_string, subject_string, colon, hash}
use zanzo.Storage.Parse.{
  index, parse_object, parse_object_at, parse_subject, parse_subject_at, with_relation, ParseError,
}
use zanzo.Storage.Parse.Index.{index-append_self, index-append_none, index-split, index-none_append}

-- The objects that have a text: a type with no `:`, and an id.
pub record IsObject (o : Object) : Type 0 where
  pub type_given : o.type ≢ []
  pub type_plain : index o.type colon ≡ none
  pub id_given : o.id ≢ []

-- The subjects that have a text: `#` stands in neither part of the object.
pub record IsSubject (s : Subject) : Type 0 where
  pub object : IsObject s.object
  pub type_plain : index s.object.type hash ≡ none
  pub id_plain : index s.object.id hash ≡ none

length_pos : (s : Str) → s ≢ [] → (n : ℕ) × (length s ≡ suc n)
length_pos [] h = absurd (h refl)
length_pos (a ∷ s) h = (length s, refl)

length-nil : (s : Str) → length s ≡ 0 → s ≡ []
length-nil [] h = refl
length-nil (a ∷ s) h = absurd (omega arith)

drop-suc-length : (s t : Str) (c : ℕ) → drop (suc (length s)) (s ++ c ∷ t) ≡ t
drop-suc-length [] t c = refl
drop-suc-length (a ∷ s) t c = drop-suc-length s t c

parse_object-string : (o : Object) → IsObject o → parse_object (object_string o) ≡ ok o
unfolding parse_object object_string
parse_object-string o h = ground (
  arith,
  index-append_self o.type o.id colon h.type_plain,
  take-length_append o.type (colon ∷ o.id),
  drop-suc-length o.type o.id colon,
  length-append o.type (colon ∷ o.id),
  length_pos o.type h.type_given,
  length_pos o.id h.id_given,
)

ne-nil_of_length : {s : Str} (n : ℕ) → length s ≡ suc n → s ≢ []
ne-nil_of_length n e p = let q = ap length p in absurd (omega arith)

object_at-split :
    (s : Str) (i : ℕ) (o : Object)
    → index s colon ≡ some i
    → parse_object_at s (some i) ≡ ok o
    → (s ≡ object_string o) × IsObject o
unfolding parse_object object_string
object_at-split s i o e h =
    let (whole, plain, total, at) = index-split s colon i e in
    let t : o.type ≡ take i s = ground arith in
    let d : o.id ≡ drop (suc i) s = ground arith in
    let p : (i ≢ 0) × (i + 1 ≢ length s) = ground arith in
    (
      rw (t, d) whole,
      record {
        type_given = λ q. p.0 (omega (arith, at, ap length t, ap length q));
        type_plain = rw t plain;
        id_given = λ q. p.1 (omega (arith, total, ap length d, ap length q));
      },
    )

object-split : (s : Str) (o : Object) → parse_object s ≡ ok o → (s ≡ object_string o) × IsObject o
unfolding parse_object
object-split s o h = elim (Option-cases (index s colon)) [
  | inl e ↦ ground arith
  | inr (i, e) ↦ object_at-split s i o e (rw e at h)
]

-- ParseObject accepts exactly the text of an object whose type is not empty and holds no `:`, and
-- whose id is not empty; it returns that object.
pub parse_object-eq-ok_iff :
    (s : Str) (o : Object) → (parse_object s ≡ ok o) ↔ ((s ≡ object_string o) × IsObject o)
parse_object-eq-ok_iff s o = (object-split s o, λ h. rw h.0 (parse_object-string o h.1))

index-object_string :
    (o : Object)
    → index o.type hash ≡ none
    → index o.id hash ≡ none
    → index (object_string o) hash ≡ none
unfolding object_string index
index-object_string o h k = index-append_none o.type (colon ∷ o.id) hash h (ground arith)

subject_string-plain :
    (o : Object) → subject_string (record { object = o; relation = [] }) ≡ object_string o
unfolding subject_string eq_str
subject_string-plain o = refl

subject_string-userset :
    (o : Object) (c : ℕ) (r : Str)
    → subject_string (record { object = o; relation = c ∷ r }) ≡ object_string o ++ hash ∷ c ∷ r
unfolding subject_string eq_str
subject_string-userset o c r = refl

parse_string :
    (o : Object) (r : Str)
    → IsSubject (record { object = o; relation = r })
    → parse_subject (subject_string (record { object = o; relation = r }))
      ≡ ok (record { object = o; relation = r })
unfolding parse_subject eq_str subject_string
parse_string o [] h = rw (
  subject_string-plain,
  index-object_string o h.type_plain h.id_plain,
  parse_object-string o h.object,
)
parse_string o (c ∷ r) h = rw (
  subject_string-userset,
  index-append_self (object_string o) (c ∷ r) hash (index-object_string o h.type_plain h.id_plain),
  parse_subject_at,
  drop-suc-length (object_string o) (c ∷ r) hash,
  take-length_append (object_string o) (hash ∷ c ∷ r),
  parse_object-string o h.object,
)

hash_free :
    (s : Str) (o : Object)
    → s ≡ object_string o
    → index s hash ≡ none
    → (index o.type hash ≡ none) × (index o.id hash ≡ none)
unfolding object_string
hash_free s o p e =
    let both = index-none_append o.type (colon ∷ o.id) hash (rw p at e) in
    (both.0, (index-none_append (colon ∷ []) o.id hash both.1).1)

with_relation-eq-ok :
    (r : Str) (p : Result ParseError Object) (sub : Subject)
    → with_relation r p ≡ ok sub
    → (p ≡ ok sub.object) × (sub.relation ≡ r)
unfolding with_relation
with_relation-eq-ok r (ok o) sub h = ground arith
with_relation-eq-ok r (err e) sub h = ground arith

subject_string-cases :
    (sub : Subject)
    → ((sub.relation ≡ []) → subject_string sub ≡ object_string sub.object)
      × ((sub.relation ≢ []) → subject_string sub ≡ object_string sub.object ++ hash ∷ sub.relation)
unfolding subject_string
subject_string-cases sub = ground (arith, eq_str_iff sub.relation [])

plain-split :
    (s : Str) (sub : Subject)
    → index s hash ≡ none
    → parse_subject_at s none ≡ ok sub
    → (s ≡ subject_string sub) × IsSubject sub
unfolding parse_subject_at
plain-split s sub e h =
    let (parsed, plain) = with_relation-eq-ok [] (parse_object s) sub h in
    let (text, good) = object-split s sub.object parsed in
    let (t, i) = hash_free s sub.object text e in
    (
      text ∙ sym ((subject_string-cases sub).0 plain),
      record { object = good; type_plain = t; id_plain = i },
    )

userset-split :
    (s : Str) (i : ℕ) (sub : Subject)
    → index s hash ≡ some i
    → parse_subject_at s (some i) ≡ ok sub
    → (s ≡ subject_string sub) × IsSubject sub
unfolding parse_subject_at
userset-split s i sub e h =
    let given : drop (suc i) s ≢ [] = ground (arith, eq_str_iff (drop (suc i) s) []) in
    let made : with_relation (drop (suc i) s) (parse_object (take i s)) ≡ ok sub = ground arith in
    let (parsed, relation) =
      with_relation-eq-ok (drop (suc i) s) (parse_object (take i s)) sub made in
    let (text, good) = object-split (take i s) sub.object parsed in
    let (whole, free, _, _) = index-split s hash i e in
    let (t, d) = hash_free (take i s) sub.object text free in
    (
      whole
          ∙ ap (λ x. x ++ hash ∷ drop (suc i) s) text
          ∙ ap (λ r. object_string sub.object ++ hash ∷ r) (sym relation)
          ∙ sym ((subject_string-cases sub).1 (λ z. given (sym relation ∙ z))),
      record { object = good; type_plain = t; id_plain = d },
    )

subject-split :
    (s : Str) (sub : Subject) → parse_subject s ≡ ok sub → (s ≡ subject_string sub) × IsSubject sub
unfolding parse_subject
subject-split s sub h = elim (Option-cases (index s hash)) [
  | inl e ↦ plain-split s sub e (rw e at h)
  | inr (i, e) ↦ userset-split s i sub e (rw e at h)
]

-- ParseSubject accepts exactly the text of a subject whose object has a text with no `#`; it
-- returns that subject. A text that ends in `#` is the text of no subject.
pub parse_subject-eq-ok_iff :
    (s : Str) (sub : Subject)
    → (parse_subject s ≡ ok sub) ↔ ((s ≡ subject_string sub) × IsSubject sub)
parse_subject-eq-ok_iff s sub =
    (subject-split s sub, λ h. rw h.0 (parse_string sub.object sub.relation h.1))

-- On subjects that have a text, String is injective.
pub subject_string-injective :
    (a b : Subject) → IsSubject a → IsSubject b → subject_string a ≡ subject_string b → a ≡ b
subject_string-injective a b ha hb e = ok_inj (
    sym (parse_string a.object a.relation ha)
    ∙ ap parse_subject e
    ∙ parse_string b.object b.relation hb)
