-- ===== src/Api/Bodies.antt =====
-- Which bodies of internal/api/api.go stand for a call, and for which tuples: the texts of the fields,
-- apart from the order in which the handlers look at them.
pub mod Calls
use zanzo.Base.{
  ℕ, ◌≡◌, ◌≢◌, ◌⊎◌, inl, inr, refl, sym, subst, ◌∙◌, ap, Bool, true, false, ◌&&◌, ◌||◌, Option,
  none, some, List, [], ◌∷◌, arith, Str, codes, eq_str, eq_str_iff, any, All, ok, err, Result,
  ok_inj, >>=-eq-ok, if◌then◌else◌, Bool-cases,
}
use zanzo.Storage.Types.{
  hash, Object, Subject, Tuple, Revision, object_string, subject_string, eq_object, eq_object_iff,
  eq_subject, eq_subject_iff,
}
use zanzo.Storage.Parse.{ParseError, parse_object, parse_subject}
use zanzo.Storage.Parse.{index}
use zanzo.Storage.Parse.RoundTrip.{
  IsObject, IsSubject, parse_object-eq-ok_iff, parse_subject-eq-ok_iff, subject_string-injective,
}
use zanzo.Storage.Memory.Listed.{listed}
use zanzo.Storage.Places.{IsPlace, IsPlain, same_subject}
use zanzo.Api.Handlers.{
  Refusal, decoded, parsed, required, Relationship, to_tuples, WriteCall, write_call, is_empty,
}

-- The texts are those of the tuple.
pub record Names (r : Relationship) (t : Tuple) : Type 0 where
  pub object_text : r.object ≡ object_string t.object
  pub object : IsObject t.object
  pub relation_text : r.relation ≡ t.relation
  pub relation_given : r.relation ≢ []
  pub subject_text : r.subject ≡ subject_string t.subject
  pub subject : IsSubject t.subject

-- One for one.
abbrev pub AllName : List Relationship → List Tuple → Type 0
AllName [] [] = Unit
AllName (r ∷ rs) (t ∷ ts) = Names r t × AllName rs ts
AllName _ _ = ⊥

-- The body asks for something, and stands for these additions and removals.
pub record Writes (call : WriteCall) (add remove : List Tuple) : Type 0 where
  pub asks : (call.add ≢ []) ⊎ (call.remove ≢ [])
  pub adds : AllName call.add add
  pub removes : AllName call.remove remove

pub parsed-ok : {A : Type 0} (r : Result ParseError A) (a : A) → parsed r ≡ ok a → r ≡ ok a
parsed-ok (ok b) a h = ap ok (ok_inj h)
parsed-ok (err x) a h = absurd (cc)

pub required-given : (s message : Str) → required s message ≡ ok tt → s ≢ []
unfolding eq_str
required-given [] message h = absurd (cc h)
required-given (c ∷ s) message h = λ e. cc e

pub given-required : (s message : Str) → s ≢ [] → required s message ≡ ok tt
unfolding eq_str
given-required [] message h = absurd (h refl)
given-required (c ∷ s) message h = refl

pub to_tuples-AllName :
    (rs : List Relationship) (ts : List Tuple) → to_tuples rs ≡ ok ts → AllName rs ts
unfolding to_tuples
to_tuples-AllName [] [] h = tt
to_tuples-AllName [] (t ∷ ts) h = absurd (cc (ok_inj h))
to_tuples-AllName (r ∷ rs) ts h =
    let (o, p, h1) = >>=-eq-ok (parsed (parse_object r.object)) _ h in
    let (s, q, h2) = >>=-eq-ok (parsed (parse_subject r.subject)) _ h1 in
    let (u, g, h3) =
      >>=-eq-ok (required r.relation (codes "relation is required on every relationship")) _ h2 in
    let (rest, k, h4) = >>=-eq-ok (to_tuples rs) _ h3 in
    let (object_text, object) = (parse_object-eq-ok_iff r.object o).0 (parsed-ok _ o p) in
    let (subject_text, subject) = (parse_subject-eq-ok_iff r.subject s).0 (parsed-ok _ s q) in
    subst (AllName (r ∷ rs)) (ok_inj h4) (
      record {
        object_text = object_text;
        object = object;
        relation_text = refl;
        relation_given = required-given r.relation _ g;
        subject_text = subject_text;
        subject = subject;
      },
      to_tuples-AllName rs rest k,
    )

pub AllName-to_tuples :
    (rs : List Relationship) (ts : List Tuple) → AllName rs ts → to_tuples rs ≡ ok ts
unfolding to_tuples
AllName-to_tuples [] [] h = refl
AllName-to_tuples [] (t ∷ ts) h = absurd h
AllName-to_tuples (r ∷ rs) [] h = absurd h
AllName-to_tuples (r ∷ rs) (t ∷ ts) (n, h) =
    rw
      (
        (parse_object-eq-ok_iff r.object t.object).1 (n.object_text, n.object),
        (parse_subject-eq-ok_iff r.subject t.subject).1 (n.subject_text, n.subject),
        given-required r.relation (codes "relation is required on every relationship")
            n.relation_given,
        AllName-to_tuples rs ts h,
        n.relation_text,
      )
      refl

-- What a body of write has to be, and for which tuples it stands.
abbrev pub IsWrite : Option WriteCall → List Tuple → List Tuple → Type 0
IsWrite none add remove = ⊥
IsWrite (some call) add remove = Writes call add remove

asks-something :
    (a b : List Relationship) (refusal : Refusal)
    → ◌≡◌ {A = Result Refusal (Unit {0})}
        (if is_empty a && is_empty b then err refusal else ok tt)
        (ok tt)
    → (a ≢ []) ⊎ (b ≢ [])
asks-something [] [] refusal h = absurd (cc h)
asks-something [] (r ∷ b) refusal h = inr (λ e. cc e)
asks-something (r ∷ a) b refusal h = inl (λ e. cc e)

something-asks :
    (a b : List Relationship) (refusal : Refusal)
    → (a ≢ []) ⊎ (b ≢ [])
    → ◌≡◌ {A = Result Refusal (Unit {0})}
        (if is_empty a && is_empty b then err refusal else ok tt)
        (ok tt)
something-asks [] [] refusal (inl h) = absurd (h refl)
something-asks [] [] refusal (inr h) = absurd (h refl)
something-asks [] (r ∷ b) refusal h = refl
something-asks (r ∷ a) b refusal h = refl

pub write_call-IsWrite :
    (body : Option WriteCall) (add remove : List Tuple)
    → write_call body ≡ ok (add, remove)
    → IsWrite body add remove
unfolding write_call
write_call-IsWrite none add remove h = absurd (cc h)
write_call-IsWrite (some call) add remove h =
    let (u, p, h1) =
      >>=-eq-ok (if is_empty call.add && is_empty call.remove then err _ else ok tt) _ h in
    let (add', q, h2) = >>=-eq-ok (to_tuples call.add) _ h1 in
    let (remove', k, h3) = >>=-eq-ok (to_tuples call.remove) _ h2 in
    let same = ok_inj h3 in
    record {
      asks = asks-something call.add call.remove _ p;
      adds = subst (AllName call.add) (ap (λ x. x.0) same) (to_tuples-AllName call.add add' q);
      removes =
          subst (AllName call.remove) (ap (λ x. x.1) same)
            (to_tuples-AllName call.remove remove' k);
    }

pub IsWrite-write_call :
    (body : Option WriteCall) (add remove : List Tuple)
    → IsWrite body add remove
    → write_call body ≡ ok (add, remove)
unfolding write_call
IsWrite-write_call none add remove h = absurd h
IsWrite-write_call (some call) add remove h =
    rw
      (
        something-asks call.add call.remove _ h.asks,
        AllName-to_tuples call.add add h.adds,
        AllName-to_tuples call.remove remove h.removes,
      )
      refl

-- One of the entries has the texts of the object, the relation and the subject.
unfoldable pub asked : List Relationship → Object → Str → Subject → Bool
asked rs o relation s =
    any
      (λ r.
        (eq_str r.object (object_string o) && eq_str r.relation relation)
        && eq_str r.subject (subject_string s))
      rs

same_object :
    (a b : Object)
    → IsObject a
    → IsObject b
    → eq_str (object_string a) (object_string b) ≡ eq_object a b
same_object a b ha hb =
    let parsed_a = (parse_object-eq-ok_iff (object_string a) a).1 (refl, ha) in
    let parsed_b = (parse_object-eq-ok_iff (object_string b) b).1 (refl, hb) in
    elim (Bool-cases (eq_str (object_string a) (object_string b))) [
      | inl e ↦
          let q : a ≡ b =
            ok_inj (sym parsed_a ∙ ap parse_object ((eq_str_iff _ _).0 e) ∙ parsed_b) in
          ground (arith, eq_object_iff a b)
      | inr e ↦ ground (arith, eq_object_iff a b, eq_str_iff (object_string a) (object_string b))
    ]

pub asked-listed :
    (rs : List Relationship) (ts : List Tuple) (o : Object) (relation : Str) (s : Subject)
    → AllName rs ts
    → IsObject o
    → IsSubject s
    → listed ts o relation s ≡ asked rs o relation s
unfolding asked listed any
asked-listed [] [] o relation s h ho hs = refl
asked-listed [] (t ∷ ts) o relation s h ho hs = absurd h
asked-listed (r ∷ rs) [] o relation s h ho hs = absurd h
asked-listed (r ∷ rs) (t ∷ ts) o relation s (n, h) ho hs =
    rw
      (
        n.object_text,
        n.subject_text,
        n.relation_text,
        same_object t.object o n.object ho,
        same_subject t.subject s n.subject hs,
        asked-listed rs ts o relation s h ho hs,
      )
      refl

-- The relations hold no `#`.
abbrev pub HavePlainRelations : List Relationship → Type 0
HavePlainRelations = All (λ r. index r.relation hash ≡ none)

pub AllName-IsPlain :
    (rs : List Relationship) (ts : List Tuple)
    → AllName rs ts
    → HavePlainRelations rs
    → All IsPlain ts
AllName-IsPlain [] [] h p = tt
AllName-IsPlain [] (t ∷ ts) h p = absurd h
AllName-IsPlain (r ∷ rs) [] h p = absurd h
AllName-IsPlain (r ∷ rs) (t ∷ ts) (n, h) p = (
  record {
    place = record { object = n.object; relation_free = rw n.relation_text at p.0 };
    subject = n.subject;
  },
  AllName-IsPlain rs ts h p.1,
)
