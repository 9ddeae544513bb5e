-- ===== src/Check/Expand/Admits.antt =====
-- What a tree of Expand says of a subject, and that one call of expandRewrite says what the reference
-- does, where the recursive calls do.
use zanzo.Base
use zanzo.Base.{
  ℕ, ◌≡◌, ◌≢◌, refl, sym, ◌∙◌, ap, subst, Bool, true, false, not, ◌&&◌, ◌||◌, Option, none, some,
  List, [], ◌∷◌, arith, Str, codes, eq_str, Result, ok, err, ok_inj, any, All, if◌then◌else◌,
  >>=-eq-ok, Bool-cases, Result-cases, inl, inr,
}
use zanzo.Errors.{Outcome}
use zanzo.Storage.Types.{
  Object, Subject, Tuple, hash, is_userset, subject_string, eq_subject, eq_subject_iff,
}
use zanzo.Storage.Parse.{index}
use zanzo.Storage.Parse.RoundTrip.{IsSubject}
use zanzo.Storage.Places.{IsPlace, same_subject}
use zanzo.Check.Reference.{Answer, some_subject}
use zanzo.Check.Expand
use zanzo.Check.Expand.{
  Tree, Trees, node, no_trees, tree, Expanding, follow, Call, pure, lift, expand_subjects,
  expand_edges, expand_rewrite, expand_children,
}

unfoldable mutual
  -- The reading of a tree: a leaf holds its subjects and what its children hold, the other kinds are
  -- what they are named for.
  pub admits : Str → Tree → Bool
  admits s (node kind object relation subjects children) =
      if eq_str kind (codes "intersection")
      then admits_all s children
      else if eq_str kind (codes "exclusion")
      then admits_first s children
      else any (eq_str s) subjects || admits_any s children

  pub admits_any : Str → Trees → Bool
  admits_any s no_trees = false
  admits_any s (tree t ts) = admits s t || admits_any s ts

  pub admits_every : Str → Trees → Bool
  admits_every s no_trees = true
  admits_every s (tree t ts) = admits s t && admits_every s ts

  -- of no children, nothing
  pub admits_all : Str → Trees → Bool
  admits_all s no_trees = false
  admits_all s (tree t ts) = admits s t && admits_every s ts

  -- the first child and none of the others
  pub admits_first : Str → Trees → Bool
  admits_first s no_trees = false
  admits_first s (tree t ts) = admits s t && not (admits_any s ts)

-- If it returns a value, the value is so.
pub record Draws {A : Type 0} (m : Expanding A) (P : A → Type 0) : Type 0 where
  pub drawn : (n : ℕ) (a : A) → (m n).0 ≡ ok a → P a

pub Draws-pure : {A : Type 0} (P : A → Type 0) (a : A) → P a → Draws (pure a) P
Draws-pure P a p = record { drawn = λ n b h. subst P (ok_inj h) p }

follow-Draws :
    {A B : Type 0} (P : B → Type 0) (f : A → Expanding B) (r : Outcome A) (n : ℕ) (b : B)
    → ((a : A) → r ≡ ok a → Draws (f a) P)
    → (follow f r n).0 ≡ ok b
    → P b
follow-Draws P f (ok a) n b k h = (k a refl).drawn n b h
follow-Draws P f (err x) n b k h = absurd (cc)

pub Draws-bind :
    {A B : Type 0} (P : A → Type 0) (Q : B → Type 0) (m : Expanding A) (f : A → Expanding B)
    → Draws m P
    → ((a : A) → P a → Draws (f a) Q)
    → Draws (Expand.◌>>=◌ m f) Q
unfolding Expand.◌>>=◌
Draws-bind P Q m f hm hf = record {
  drawn = λ n b h. follow-Draws Q f (m n).0 (m n).1 b (λ a e. hf a (hm.drawn n a e)) h;
}

pub Draws-weaken :
    {A : Type 0} (P Q : A → Type 0) (m : Expanding A)
    → ((a : A) → P a → Q a)
    → Draws m P
    → Draws m Q
Draws-weaken P Q m k h = record { drawn = λ n a e. k a (h.drawn n a e) }

pub Draws-any : {A : Type 0} (m : Expanding A) → Draws m (λ a. Unit {0})
Draws-any m = record { drawn = λ n a h. tt }

pub Draws-lift : {A : Type 0} (r : Outcome A) (a : A) → r ≡ ok a → Draws (lift r) (λ b. a ≡ b)
Draws-lift r a e = record { drawn = λ n b h. ok_inj (sym e ∙ h) }

-- A tuple whose subject has a text, and whose relation holds no `#`.
abbrev pub IsReadable : Tuple → Type 0
IsReadable t = IsSubject t.subject × (index t.subject.relation hash ≡ none)

-- The calls below draw, for a place, what the reference answers.
abbrev pub Follows : Str → Call → Answer → Type 0
Follows text call answer =
    (o : Object) (r : Str) (b : Bool)
    → IsPlace o r
    → answer o r ≡ ok b
    → Draws (call o r) (λ t. admits text t ≡ b)

or_middle : (a b c : Bool) → b ≡ true → (a || (b || c)) ≡ true
or_middle a b c h = ground arith

module _ (s : Subject) (call : Call) (answer : Answer) (concrete : is_userset s ≡ false)
    (hs : IsSubject s) (follows : Follows (subject_string s) call answer) where
  abbrev text : Str
  text = subject_string s

  -- the subjects and the children of a leaf admit
  abbrev pub Found : Bool → List Str × Trees → Type 0
  Found b found = (any (eq_str text) found.0 || admits_any text found.1) ≡ b

  not_self :
      (t : Tuple)
      → IsSubject t.subject
      → is_userset t.subject ≡ true
      → eq_str text (subject_string t.subject) ≡ false
  unfolding is_userset
  not_self t ht userset = ground (arith, same_subject s t.subject hs ht, eq_subject_iff s t.subject)

  self :
      (t : Tuple)
      → IsSubject t.subject
      → eq_str text (subject_string t.subject) ≡ eq_subject t.subject s
  self t ht = ground (
    arith,
    same_subject s t.subject hs ht,
    eq_subject_iff s t.subject,
    eq_subject_iff t.subject s,
  )

  subject-Found :
      (t : Tuple) (rest : Expanding (List Str × Trees)) (y : Outcome Bool) (b : Bool)
      → IsSubject t.subject
      → (y ≡ ok b → Draws rest (Found b))
      → (if eq_subject t.subject s then ok true else y) ≡ ok b
      → Draws
          (Expand.◌>>=◌ rest λ found. pure (subject_string t.subject ∷ found.0, found.1))
          (Found b)
  unfolding any
  subject-Found t rest y b ht k h = elim (Bool-cases (eq_subject t.subject s)) [
    | inl e ↦
        Draws-bind _ _ _ _ (Draws-any rest)
          λ found u. Draws-pure (Found b) _ (rw (self t ht, e) (ok_inj (rw e at h)))
    | inr e ↦
        Draws-bind _ _ _ _ (k (rw e at h)) λ found p. Draws-pure (Found b) _ (rw (self t ht, e) p)
  ]

  userset-Found :
      (t : Tuple) (rest : Expanding (List Str × Trees)) (y : Outcome Bool) (b : Bool)
      → IsReadable t
      → is_userset t.subject ≡ true
      → (y ≡ ok b → Draws rest (Found b))
      → Base.◌>>=◌ (answer t.subject.object t.subject.relation) (λ g. if g then ok true else y)
        ≡ ok b
      → Draws
          (Expand.◌>>=◌ (call t.subject.object t.subject.relation) λ below.
            Expand.◌>>=◌ rest
              λ found. pure (subject_string t.subject ∷ found.0, tree below found.1))
          (Found b)
  unfolding any admits_any
  userset-Found t rest y b ht userset k h =
      let place : IsPlace t.subject.object t.subject.relation = record {
        object = ht.0.object;
        relation_free = ht.1;
      } in
      elim (Result-cases (answer t.subject.object t.subject.relation)) [
        | inl (true, e) ↦
            Draws-bind _ _ _ _ (follows t.subject.object t.subject.relation true place e) λ below p.
              Draws-bind _ _ _ _ (Draws-any rest)
                λ found u. Draws-pure (Found b) _ (or_middle _ _ _ p ∙ ok_inj (rw e at h))
        | inl (false, e) ↦
            Draws-bind _ _ _ _ (follows t.subject.object t.subject.relation false place e)
              λ below p.
                Draws-bind _ _ _ _ (k (rw e at h))
                  λ found q. Draws-pure (Found b) _ (rw (not_self t ht.0 userset, p) q)
        | inr (x, e) ↦ absurd (cc (rw e at h))
      ]

  -- the loop over the tuples of This
  pub expand_subjects-Draws :
      (ts : List Tuple) (b : Bool)
      → All IsReadable ts
      → some_subject s answer ts ≡ ok b
      → Draws (expand_subjects call ts) (Found b)
  unfolding expand_subjects some_subject any admits_any
  expand_subjects-Draws [] b readable h = Draws-pure (Found b) _ (ok_inj h)
  expand_subjects-Draws (t ∷ ts) b readable h = elim (Bool-cases (is_userset t.subject)) [
    | inl e ↦
        rw (expand_subjects, e)
          (userset-Found t (expand_subjects call ts) (some_subject s answer ts) b readable.0 e
            (expand_subjects-Draws ts b readable.1) (rw e at h))
    | inr e ↦
        rw (expand_subjects, e)
          (subject-Found t (expand_subjects call ts) (some_subject s answer ts) b readable.0.0
            (expand_subjects-Draws ts b readable.1) (rw e at h))
  ]

  -- a step of a loop that draws one more tree, where the reference stops at the first grant
  pub or-Draws :
      (first : Expanding Tree) (rest : Expanding Trees) (x y : Outcome Bool) (b : Bool)
      → ((a : Bool) → x ≡ ok a → Draws first (λ t. admits text t ≡ a))
      → (y ≡ ok b → Draws rest (λ ts. admits_any text ts ≡ b))
      → Base.◌>>=◌ x (λ g. if g then ok true else y) ≡ ok b
      → Draws
          (Expand.◌>>=◌ first λ t. Expand.◌>>=◌ rest λ ts. pure (tree t ts))
          (λ ts. admits_any text ts ≡ b)
  unfolding admits_any
  or-Draws first rest (ok true) y b hf hr h =
      Draws-bind _ _ _ _ (hf true refl)
        λ t p. Draws-bind _ _ _ _ (Draws-any rest) λ ts u. Draws-pure _ _ (rw p (ok_inj h))
  or-Draws first rest (ok false) y b hf hr h =
      Draws-bind _ _ _ _ (hf false refl)
        λ t p. Draws-bind _ _ _ _ (hr h) λ ts q. Draws-pure _ _ (rw p q)
  or-Draws first rest (err e) y b hf hr h = absurd (cc)

  -- All of the trees admit it, also where there is to be one at least.
  abbrev pub AllAdmit : Bool → Trees → Type 0
  AllAdmit b ts = (admits_every text ts ≡ b) × (admits_all text ts ≡ b)

  pub and-Draws :
      (first : Expanding Tree) (rest : Expanding Trees) (x y : Outcome Bool) (b : Bool)
      → ((a : Bool) → x ≡ ok a → Draws first (λ t. admits text t ≡ a))
      → (y ≡ ok b → Draws rest (λ ts. admits_every text ts ≡ b))
      → Base.◌>>=◌ x (λ g. if not g then ok false else y) ≡ ok b
      → Draws (Expand.◌>>=◌ first λ t. Expand.◌>>=◌ rest λ ts. pure (tree t ts)) (AllAdmit b)
  unfolding admits_every admits_all
  and-Draws first rest (ok true) y b hf hr h =
      Draws-bind _ _ _ _ (hf true refl)
        λ t p. Draws-bind _ _ _ _ (hr h) λ ts q. Draws-pure (AllAdmit b) _ (rw p q, rw p q)
  and-Draws first rest (ok false) y b hf hr h = Draws-bind _ _ _ _ (hf false refl) λ t p.
      Draws-bind _ _ _ _ (Draws-any rest)
        λ ts u. Draws-pure (AllAdmit b) _ (rw p (ok_inj h), rw p (ok_inj h))
  and-Draws first rest (err e) y b hf hr h = absurd (cc)
