-- ===== src/Storage/Types.antt =====
-- internal/storage/storage.go, the data: objects, subjects, tuples, their text and Go's `==` on them.
use zanzo.Base.{
  ℕ, ◌≡◌, ◌↔◌, Bool, true, ◌&&◌, not, [], ◌∷◌, ◌++◌, arith, if◌then◌else◌, Str, eq_str, eq_str_iff,
  Comparable,
}

pub record Object : Type 0 where
  pub type : Str
  pub id : Str

-- A concrete object if `relation` is empty, a userset otherwise.
pub record Subject : Type 0 where
  pub object : Object
  pub relation : Str

pub record Tuple : Type 0 where
  pub object : Object
  pub relation : Str
  pub subject : Subject

-- uint64; a store counts up from 0, one for each write.
abbrev pub Revision : Type 0
Revision = ℕ

abbrev pub colon : ℕ
colon = b':'

abbrev pub hash : ℕ
hash = b'#'

-- func (o Object) String()
unfoldable pub object_string : Object → Str
object_string o = o.type ++ (colon ∷ o.id)

-- func (s Subject) IsUserset()
unfoldable pub is_userset : Subject → Bool
is_userset s = not (eq_str s.relation [])

-- func (s Subject) String()
unfoldable pub subject_string : Subject → Str
unfolding is_userset
subject_string s =
    if is_userset s then object_string s.object ++ (hash ∷ s.relation) else object_string s.object

unfoldable pub eq_object : Object → Object → Bool
eq_object a b = eq_str a.type b.type && eq_str a.id b.id

unfoldable pub eq_subject : Subject → Subject → Bool
eq_subject a b = eq_object a.object b.object && eq_str a.relation b.relation

pub eq_object_iff : (a b : Object) → (eq_object a b ≡ true) ↔ (a ≡ b)
unfolding eq_object
eq_object_iff a b = ground (arith, eq_str_iff a.type b.type, eq_str_iff a.id b.id)

pub eq_subject_iff : (a b : Subject) → (eq_subject a b ≡ true) ↔ (a ≡ b)
unfolding eq_subject
eq_subject_iff a b =
    ground (arith, eq_object_iff a.object b.object, eq_str_iff a.relation b.relation)

instance abbrev pub object_eq : Comparable Object
object_eq = record { equals = eq_object; equals_iff = eq_object_iff }

instance abbrev pub subject_eq : Comparable Subject
subject_eq = record { equals = eq_subject; equals_iff = eq_subject_iff }
