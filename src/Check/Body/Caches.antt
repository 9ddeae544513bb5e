-- ===== src/Check/Body/Caches.antt =====
-- The revision-keyed cache, and no cache, meet what a check needs of a cache.
use zanzo.Base.{
  [], ◌≡◌, sym, ◌∙◌, ap, Bool, true, Option, none, some, Str, Map, get, put, get-put, Bool-cases,
  inl, inr,
}
use mathlib.Core.Option.{some-injective}
use zanzo.Storage.Types.{Object, Subject, Revision, subject_string}
use zanzo.Storage.Parse.RoundTrip.{IsSubject, subject_string-injective}
use zanzo.Check.Cache.{
  Cache, Key, key_eq, eq_key, eq_key_iff, revision_keyed, naive, cache_get, cache_set,
}
use zanzo.Check.Types.{Engine, Request, Context}
use zanzo.Check.Body.State.{CacheLaws}

abbrev pub entry_key : Object → Str → Subject → Revision → Key
entry_key o r s rev = record {
  object = o;
  relation = r;
  subject = subject_string s;
  revision = rev;
}

-- What is said of an answer: of the subject, the revision, the object, the relation and the answer.
abbrev pub Property : Type 1
Property = Subject → Revision → Object → Str → Bool → Type 0

-- Every entry for a subject that has a text has the property at the entry's revision.
abbrev pub Entries : Property → Map Key Bool → Type 0
Entries A entries =
    (s : Subject)
    → IsSubject s
    → (rev : Revision) (o : Object) (r : Str) (b : Bool)
    → get entries (entry_key o r s rev) ≡ some b
    → A s rev o r b

-- No cache, or a revision-keyed one whose entries have the property.
abbrev pub IsCorrect : Property → Option Cache → Type 0
IsCorrect A none = Unit
IsCorrect A (some (revision_keyed entries)) = Entries A entries
IsCorrect A (some (naive entries)) = ⊥

same_entry :
    (o : Object) (r : Str) (s : Subject) (rev : Revision) (o' : Object) (r' : Str) (s' : Subject)
    (rev' : Revision)
    → IsSubject s
    → IsSubject s'
    → eq_key (entry_key o r s rev) (entry_key o' r' s' rev') ≡ true
    → (o ≡ o') × (r ≡ r') × (s ≡ s') × (rev ≡ rev')
same_entry o r s rev o' r' s' rev' hs hs' h =
    let p = (eq_key_iff (entry_key o r s rev) (entry_key o' r' s' rev')).0 h in
    (
      ap (λ k. k.object) p,
      ap (λ k. k.relation) p,
      subject_string-injective s s' hs hs' (ap (λ k. k.subject) p),
      ap (λ k. k.revision) p,
    )

module _ (A : Property) where
  Entries-put :
      (entries : Map Key Bool) (o : Object) (r : Str) (s : Subject) (rev : Revision) (b : Bool)
      → IsSubject s
      → Entries A entries
      → A s rev o r b
      → Entries A (put entries (entry_key o r s rev) b)
  Entries-put entries o r s rev b hs old d s' hs' rev' o' r' b' h =
      let k = entry_key o r s rev in
      let j = entry_key o' r' s' rev' in
      let h' = sym (get-put entries k j b) ∙ h in
      elim (Bool-cases (eq_key k j)) [
        | inl q ↦
            let (w, x, y, z) = same_entry o r s rev o' r' s' rev' hs hs' q in
            let v : b ≡ b' = some-injective b b' (rw q at h') in rw (← w, ← x, ← y, ← z, ← v) d
        | inr q ↦ old s' hs' rev' o' r' b' (rw q at h')
      ]

pub IsCorrect-laws :
    (A : Property) (e : Engine) (ctx : Context) (req : Request)
    → IsSubject req.subject
    → CacheLaws e ctx req (A req.subject req.revision) (IsCorrect A)
unfolding cache_get cache_set
IsCorrect-laws A e ctx req hs = record {
  hit = λ c o r b. hit c o r b;
  set = λ c o r b. keep c o r b;
}
  where
    hit :
        (c : Cache) (o : Object) (r : Str) (b : Bool)
        → IsCorrect A (some c)
        → cache_get c (entry_key o r req.subject req.revision) ≡ some b
        → A req.subject req.revision o r b
    hit (revision_keyed entries) o r b g h = g req.subject hs req.revision o r b h
    hit (naive entries) o r b g h = absurd g

    keep :
        (c : Cache) (o : Object) (r : Str) (b : Bool)
        → IsCorrect A (some c)
        → A req.subject req.revision o r b
        → IsCorrect A (some (cache_set c (entry_key o r req.subject req.revision) b))
    keep (revision_keyed entries) o r b g d =
        Entries-put A entries o r req.subject req.revision b hs g d
    keep (naive entries) o r b g d = absurd g

pub IsCorrect-imp :
    {A B : Property}
    → ((s : Subject) (rev : Revision) (o : Object) (r : Str) (b : Bool)
        → A s rev o r b
        → B s rev o r b)
    → (cache : Option Cache) → IsCorrect A cache
    → IsCorrect B cache
IsCorrect-imp imp none h = h
IsCorrect-imp imp (some (revision_keyed entries)) h =
    λ s hs rev o r b e. imp s rev o r b (h s hs rev o r b e)
IsCorrect-imp imp (some (naive entries)) h = h

-- A new cache has no entry to answer for.
pub IsCorrect-new : (A : Property) → IsCorrect A (some (revision_keyed []))
unfolding get
IsCorrect-new A s hs rev o r b h = absurd (cc)
