-- ===== src/Check/Expand/Call.antt =====
-- One call of expandRewrite draws what the reference answers, where the recursive calls do.
use zanzo.Base.{
  ◌≡◌, subst, Bool, true, false, none, List, [], ◌∷◌, arith, Str, eq_str, ok, ok_inj, any, All,
  >>=-eq-ok, Result-cases, inl, inr,
}
use zanzo.Storage.Types.{Object, Subject, Tuple, Revision, hash, is_userset, subject_string}
use zanzo.Storage.Parse.{index}
use zanzo.Storage.Parse.RoundTrip.{IsObject, IsSubject}
use zanzo.Schema.Types.{
  Rewrite, Rewrites, this, computed_userset, tuple_to_userset, union, intersection, exclusion,
  no_children, child,
}
use zanzo.Check.Types.{Engine, Context}
use zanzo.Check.Reference.{Answer, some_edge, meaning, meaning_any, meaning_all}
use zanzo.Check.Expand.{Tree, Call, expand_subjects, expand_edges, expand_rewrite, expand_children}
use zanzo.Check.Expand.Plain.{NamesPlain, AllPlain}
use zanzo.Check.Expand.Admits.{
  admits, admits_any, admits_every, admits_all, admits_first, Draws, Draws-pure, Draws-bind,
  Draws-any, Draws-weaken, Draws-lift, IsReadable, Follows, Found, expand_subjects-Draws, or-Draws,
  and-Draws,
}

module _ (e : Engine) (ctx : Context) (rev : Revision) (s : Subject) (call : Call) (answer : Answer)
    (concrete : is_userset s ≡ false) (hs : IsSubject s)
    (readable : (o : Object) (r : Str) (ts : List Tuple)
      → e.store.read rev o r ≡ ok ts
      → All IsReadable ts)
    (follows : Follows (subject_string s) call answer) where
  abbrev Says : Bool → Tree → Type 0
  Says b t = admits (subject_string s) t ≡ b

  edges-Draws :
      (computed : Str) (ts : List Tuple) (b : Bool)
      → index computed hash ≡ none
      → All IsReadable ts
      → some_edge answer computed ts ≡ ok b
      → Draws (expand_edges call computed ts) (λ kids. admits_any (subject_string s) kids ≡ b)
  unfolding expand_edges some_edge admits_any
  edges-Draws computed [] b hc ok_ts h = Draws-pure _ _ (ok_inj h)
  edges-Draws computed (t ∷ ts) b hc ok_ts h =
      or-Draws s call answer concrete hs follows (call t.subject.object computed)
        (expand_edges call computed ts) (answer t.subject.object computed)
        (some_edge answer computed ts) b
        (λ a.
          follows t.subject.object computed a
            (record { object = ok_ts.0.0.object; relation_free = hc }))
        (edges-Draws computed ts b hc ok_ts.1) h

  mutual
    unfolding NamesPlain expand_rewrite expand_children meaning meaning_any meaning_all admits
        admits_any admits_every admits_all admits_first eq_str any

    pub rewrite-Draws :
        (o : Object) (w : Rewrite) (r : Str) (b : Bool)
        → IsObject o
        → NamesPlain w
        → meaning e.schema (e.store.read rev) s answer o w r ≡ ok b
        → Draws (expand_rewrite e ctx rev call o r w) (Says b)
    rewrite-Draws o this r b ho hw h =
        let (ts, p, q) = >>=-eq-ok (e.store.read rev o r) _ h in
        Draws-bind _ _ _ _ (Draws-lift (e.store.read rev o r) ts p) λ ts' same.
          Draws-bind _ _ _ _
            (subst
              (λ us. Draws (expand_subjects call us) (Found s call answer concrete hs follows b))
              same
              (expand_subjects-Draws s call answer concrete hs follows ts b (readable o r ts p) q))
            λ found k. Draws-pure _ _ k
    rewrite-Draws o (computed_userset q) r b ho hw h =
        follows o q b (record { object = ho; relation_free = hw }) h
    rewrite-Draws o (tuple_to_userset tupleset computed) r b ho hw h =
        let (ts, p, q) = >>=-eq-ok (e.store.read rev o tupleset) _ h in
        Draws-bind _ _ _ _ (Draws-lift (e.store.read rev o tupleset) ts p) λ ts' same.
          Draws-bind _ _ _ _
            (subst
              (λ us.
                Draws (expand_edges call computed us)
                  (λ kids. admits_any (subject_string s) kids ≡ b))
              same (edges-Draws computed ts b hw (readable o tupleset ts p) q))
            λ kids k. Draws-pure _ _ k
    rewrite-Draws o (union cs) r b ho hw h =
        Draws-bind _ _ _ _ (any-Draws o cs r b ho hw h) λ kids k. Draws-pure _ _ k
    rewrite-Draws o (intersection no_children) r b ho hw h =
        Draws-bind _ _ _ _
          (Draws-pure (λ kids. admits_all (subject_string s) kids ≡ b) _ (ok_inj h))
          λ kids k. Draws-pure _ _ k
    rewrite-Draws o (intersection (child c cs)) r b ho hw h =
        Draws-bind _ _ _ _
          (and-Draws s call answer concrete hs follows _ _ _ _ b
            (λ a. rewrite-Draws o c r a ho hw.0) (every-Draws o cs r b ho hw.1) h)
          λ kids k. Draws-pure (Says b) _ k.1
    rewrite-Draws o (exclusion base subtract) r b ho hw h =
        elim (Result-cases (meaning e.schema (e.store.read rev) s answer o base r)) [
          | inl (true, k) ↦
              let (sub, p, q) =
                >>=-eq-ok (meaning e.schema (e.store.read rev) s answer o subtract r) _
                  (rw k at h) in
              Draws-bind _ _ _ _ (rewrite-Draws o base r true ho hw.0 k) λ kept yes.
                Draws-bind _ _ _ _ (rewrite-Draws o subtract r sub ho hw.1 p)
                  λ removed no. Draws-pure (Says b) _ (ground (arith, ok_inj q))
          | inl (false, k) ↦ Draws-bind _ _ _ _ (rewrite-Draws o base r false ho hw.0 k) λ kept yes.
              Draws-bind _ _ _ _ (Draws-any _)
                λ removed u. Draws-pure (Says b) _ (ground (arith, ok_inj (rw k at h)))
          | inr (x, k) ↦ absurd (cc (rw k at h))
        ]

    any-Draws :
        (o : Object) (cs : Rewrites) (r : Str) (b : Bool)
        → IsObject o
        → AllPlain cs
        → meaning_any e.schema (e.store.read rev) s answer o cs r ≡ ok b
        → Draws
            (expand_children e ctx rev call o r cs)
            (λ kids. admits_any (subject_string s) kids ≡ b)
    any-Draws o no_children r b ho hw h = Draws-pure _ _ (ok_inj h)
    any-Draws o (child c cs) r b ho hw h =
        or-Draws s call answer concrete hs follows _ _ _ _ b (λ a. rewrite-Draws o c r a ho hw.0)
          (any-Draws o cs r b ho hw.1) h

    every-Draws :
        (o : Object) (cs : Rewrites) (r : Str) (b : Bool)
        → IsObject o
        → AllPlain cs
        → meaning_all e.schema (e.store.read rev) s answer o cs r ≡ ok b
        → Draws
            (expand_children e ctx rev call o r cs)
            (λ kids. admits_every (subject_string s) kids ≡ b)
    every-Draws o no_children r b ho hw h = Draws-pure _ _ (ok_inj h)
    every-Draws o (child c cs) r b ho hw h =
        Draws-weaken _ _ _ (λ ts k. k.0)
          (and-Draws s call answer concrete hs follows _ _ _ _ b
            (λ a. rewrite-Draws o c r a ho hw.0) (every-Draws o cs r b ho hw.1) h)
