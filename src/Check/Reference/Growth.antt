-- ===== src/Check/Reference/Growth.antt =====
-- More depth never changes an answer of the reference.
use native.Mathlib.Nat.{zero-add}
use zanzo.Base.{
  ℕ, zero, suc, ◌+◌, ◌≡◌, sym, ◌∙◌, Bool, true, false, List, [], ◌∷◌, arith, Str, ok, ok_inj,
  >>=-extends,
}
use zanzo.Storage.Types.{Object, Subject, Tuple}
use zanzo.Schema.Types.{
  Schema, Rewrite, Rewrites, this, computed_userset, tuple_to_userset, union, intersection,
  exclusion, no_children, child,
}
use zanzo.Check.Engine.{rewrite_of}
use zanzo.Check.Reference.{
  Reader, Answer, some_subject, some_edge, meaning, meaning_any, meaning_all, reference, Decides,
}

abbrev pub Extends : Answer → Answer → Type 0
Extends answer more = (o : Object) (r : Str) (b : Bool) → answer o r ≡ ok b → more o r ≡ ok b

module _ (answer more : Answer) (grows : Extends answer more) where
  some_subject-extends :
      (s : Subject) (ts : List Tuple) (b : Bool)
      → some_subject s answer ts ≡ ok b
      → some_subject s more ts ≡ ok b
  unfolding some_subject
  some_subject-extends s [] b h = h
  some_subject-extends s (t ∷ ts) b h = ground (
    arith,
    some_subject-extends s ts b,
    grows t.subject.object t.subject.relation true,
    grows t.subject.object t.subject.relation false,
    answer t.subject.object t.subject.relation,
  )

  some_edge-extends :
      (computed : Str) (ts : List Tuple) (b : Bool)
      → some_edge answer computed ts ≡ ok b
      → some_edge more computed ts ≡ ok b
  unfolding some_edge
  some_edge-extends computed [] b h = h
  some_edge-extends computed (t ∷ ts) b h = ground (
    arith,
    some_edge-extends computed ts b,
    grows t.subject.object computed true,
    grows t.subject.object computed false,
    answer t.subject.object computed,
  )

module _ (schema : Schema) (read : Reader) (subject : Subject) (answer more : Answer)
    (grows : Extends answer more) where
  mutual
    unfolding meaning

    meaning-extends :
        (o : Object) (w : Rewrite) (r : Str) (b : Bool)
        → meaning schema read subject answer o w r ≡ ok b
        → meaning schema read subject more o w r ≡ ok b
    meaning-extends o this r b h =
        >>=-extends _ _ _ _ (λ a e. e) (λ ts. some_subject-extends answer more grows subject ts b) h
    meaning-extends o (computed_userset q) r b h = grows o q b h
    meaning-extends o (tuple_to_userset ts cu) r b h =
        >>=-extends _ _ _ _ (λ a e. e) (λ ts. some_edge-extends answer more grows cu ts b) h
    meaning-extends o (union cs) r b h = any-extends o cs r b h
    meaning-extends o (intersection no_children) r b h = h
    meaning-extends o (intersection (child c cs)) r b h = all-extends o (child c cs) r b h
    meaning-extends o (exclusion base subtract) r b h = ground (
      arith,
      meaning-extends o base r true,
      meaning-extends o base r false,
      meaning-extends o subtract r true,
      meaning-extends o subtract r false,
    )

    any-extends :
        (o : Object) (cs : Rewrites) (r : Str) (b : Bool)
        → meaning_any schema read subject answer o cs r ≡ ok b
        → meaning_any schema read subject more o cs r ≡ ok b
    any-extends o no_children r b h = h
    any-extends o (child c cs) r b h =
        ground
          (arith, meaning-extends o c r true, meaning-extends o c r false, any-extends o cs r b)

    all-extends :
        (o : Object) (cs : Rewrites) (r : Str) (b : Bool)
        → meaning_all schema read subject answer o cs r ≡ ok b
        → meaning_all schema read subject more o cs r ≡ ok b
    all-extends o no_children r b h = h
    all-extends o (child c cs) r b h =
        ground
          (arith, meaning-extends o c r true, meaning-extends o c r false, all-extends o cs r b)

module _ (schema : Schema) (read : Reader) (subject : Subject) where
  abbrev refers : ℕ → Answer
  refers n = reference schema read subject n

  pub reference-suc : (n : ℕ) → Extends (refers n) (refers (suc n))
  unfolding reference
  reference-suc zero o r b h = ground arith
  reference-suc (suc n) o r b h =
      >>=-extends _ _ _ _ (λ a e. e)
        (λ rel.
          meaning-extends schema read subject (refers n) (refers (suc n)) (reference-suc n) o
            (rewrite_of rel) r b)
        h

  reference-add : (k n : ℕ) → Extends (refers n) (refers (k + n))
  reference-add zero n o r b h = rw zero-add h
  reference-add (suc k) n o r b h =
      let e : suc k + n ≡ suc (k + n) = omega arith in
      rw e (reference-suc (k + n) o r b (reference-add k n o r b h))

  -- Two answers, at whatever depths, agree.
  pub Decides-unique :
      (o : Object) (r : Str) {a b : Bool}
      → Decides schema read subject o r a
      → Decides schema read subject o r b
      → a ≡ b
  Decides-unique o r {a} {b} (n, h) (m, k) =
      let e : m + n ≡ n + m = omega arith in
      let at_a = reference-add m n o r a h in
      let at_b = reference-add n m o r b k in ok_inj (sym (rw e at at_a) ∙ at_b)
