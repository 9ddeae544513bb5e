-- ===== src/Check/Expand/Agrees.antt =====
-- Depth by depth, the tree of Expand admits the subjects that the reference grants.
use zanzo.Base.{
  ℕ, zero, suc, ◌+◌, ◌≡◌, ◌≢◌, refl, ◌∙◌, ap, subst, Bool, true, false, List, [], ◌∷◌, Str, eq_str,
  eq_str_iff, ok, err, ok_inj, any, All, if◌then◌else◌, ltb, >>=-eq-ok, Bool-cases, Result-cases,
  inl, inr,
}
use zanzo.Errors.{Error, depth_exceeded, Outcome}
use zanzo.Storage.Types.{Object, Subject, Tuple, Revision, is_userset, subject_string}
use zanzo.Storage.Parse.RoundTrip.{IsSubject}
use zanzo.Storage.Memory.Keys.{key-injective}
use zanzo.Storage.Memory.{key}
use zanzo.Storage.Places.{IsPlace}
use zanzo.Schema.Types.{Relation, lookup}
use zanzo.Check.Engine.{rewrite_of}
use zanzo.Check.Types.{Engine, Context, depth_limit}
use zanzo.Check.Reference.{Answer, meaning, reference, Decides}
use zanzo.Check.Reference.Growth.{Decides-unique, reference-suc}
use zanzo.Check.Expand
use zanzo.Check.Expand.{
  Tree, Trees, node, no_trees, tree, Expanding, Call, pure, lift, expand_subjects, expand_edges,
  expand_rewrite, expand_children, expand_at, visit_key, ExpandRequest, ExpandResult,
  expand_request, expand_result, expand_pinned,
}
use zanzo.Check.Expand.Plain.{NamesPlain, IsPlainSchema, lookup-NamesPlain}
use zanzo.Check.Expand.Call.{rewrite-Draws}
use zanzo.Check.Expand.Admits.{
  admits, Draws, Draws-bind, Draws-any, Draws-lift, IsReadable, Follows,
}

module _ (e : Engine) (ctx : Context) (rev : Revision) (s : Subject)
    (concrete : is_userset s ≡ false) (hs : IsSubject s)
    (readable : (o : Object) (r : Str) (ts : List Tuple)
      → e.store.read rev o r ≡ ok ts
      → All IsReadable ts)
    (plain : (type r : Str) (rel : Relation)
      → lookup e.schema type r ≡ ok rel
      → NamesPlain (rewrite_of rel)) where
  abbrev refers : ℕ → Answer
  refers n = reference e.schema (e.store.read rev) s n

  abbrev Says : Bool → Tree → Type 0
  Says b t = admits (subject_string s) t ≡ b

  -- No marked place has an answer in depth `n`.
  abbrev Blocked : ℕ → List Str → Type 0
  Blocked n V =
      (o : Object) (r : Str)
      → IsPlace o r
      → any (eq_str (visit_key e ctx rev o r)) V ≡ true
      → (b : Bool) → refers n o r ≢ ok b

  Blocked-down : (n : ℕ) (V : List Str) → Blocked (suc n) V → Blocked n V
  Blocked-down n V h o r p v b k =
      h o r p v b (reference-suc e.schema (e.store.read rev) s n o r b k)

  Blocked-mark :
      (n : ℕ) (V : List Str) (o : Object) (r : Str) (x : Error)
      → IsPlace o r
      → Blocked n V
      → refers n o r ≡ err x
      → Blocked n (visit_key e ctx rev o r ∷ V)
  unfolding any key
  Blocked-mark n V o r x hp h fails o' r' p m b k =
      elim (Bool-cases (eq_str (visit_key e ctx rev o' r') (visit_key e ctx rev o r))) [
        | inl q ↦
            let (y, z) =
              key-injective o' o r' r p.object hp.object p.relation_free hp.relation_free
                ((eq_str_iff _ _).0 q) in
            absurd (cc)
        | inr q ↦ h o' r' p (rw q at m) b k
      ]

  Draws-raise : {A : Type 0} (P : A → Type 0) (x : Error) → Draws (Expand.raise x) P
  Draws-raise P x = record { drawn = λ n a h. absurd (cc) }

  Draws-if :
      {A : Type 0} (P : A → Type 0) (c : Bool) (m k : Expanding A)
      → (c ≡ true → Draws m P)
      → (c ≡ false → Draws k P)
      → Draws (if c then m else k) P
  Draws-if P true m k hm hk = hm refl
  Draws-if P false m k hm hk = hk refl

  expand_at-Draws :
      (n fuel depth : ℕ) (V : List Str)
      → Blocked n V
      → (o : Object) (r : Str) (b : Bool) → IsPlace o r
      → refers n o r ≡ ok b
      → Draws (expand_at e ctx rev fuel V o r depth) (Says b)
  unfolding expand_at reference
  expand_at-Draws zero fuel depth V blocked o r b hp h = absurd (cc)
  expand_at-Draws (suc n) zero depth V blocked o r b hp h = Draws-raise _ _
  expand_at-Draws (suc n) (suc fuel) depth V blocked o r b hp h =
      elim (Result-cases (refers n o r)) [
        | inl (a, k) ↦
            let same : a ≡ b = Decides-unique e.schema (e.store.read rev) s o r (n, k) (suc n, h) in
            subst (λ c. Draws (expand_at e ctx rev (suc fuel) V o r depth) (Says c)) same
              (expand_at-Draws n (suc fuel) depth V (Blocked-down n V blocked) o r a hp k)
        | inr (x, k) ↦
            let (rel, found, met) = >>=-eq-ok (lookup e.schema o.type r) _ h in
            let marks = visit_key e ctx rev o r ∷ V in
            let below : Follows (subject_string s)
                (λ o' r'. expand_at e ctx rev fuel marks o' r' (suc depth)) (refers n) =
              λ o' r' c p.
                expand_at-Draws n fuel (suc depth) marks
                  (Blocked-mark n V o r x hp (Blocked-down n V blocked) k) o' r' c p in
            Draws-bind _ _ _ _ (Draws-any _) λ _ _.
              Draws-if (Says b) (ltb (depth_limit e) depth) (Expand.raise (depth_exceeded o r)) _
                (λ deep. Draws-raise (Says b) (depth_exceeded o r))
                λ near.
                  Draws-if (Says b) (any (eq_str (visit_key e ctx rev o r)) V) _ _
                    (λ v. absurd (blocked o r hp v b h))
                    λ fresh.
                      Draws-bind _ _ _ _ (Draws-lift (lookup e.schema o.type r) rel found)
                        λ rel' same.
                          rewrite-Draws e ctx rev s _ (refers n) concrete hs readable below o
                            (rewrite_of rel') r b hp.object
                            (plain o.type r rel' (found ∙ ap ok same))
                            (subst
                              (λ y.
                                meaning e.schema (e.store.read rev) s (refers n) o (rewrite_of y) r
                                ≡ ok b)
                              same met)
      ]

expand_result-eq-ok :
    (rev : Revision) (x : Outcome Tree) (res : ExpandResult)
    → expand_result rev x ≡ ok res
    → (rev ≡ res.revision) × (x ≡ ok res.tree)
expand_result-eq-ok rev (err x) res h = absurd (cc)
expand_result-eq-ok rev (ok t) res h =
    (ap (λ r. r.revision) (ok_inj h), ap (λ r. ok r.tree) (ok_inj h))

expand_pinned-eq-ok :
    (e : Engine) (ctx : Context) (req : ExpandRequest) (r : Outcome Revision) (res : ExpandResult)
    → expand_pinned e ctx req r ≡ ok res
    → (expand_at e ctx res.revision (depth_limit e + 2) [] req.object req.relation 0 0).0
      ≡ ok res.tree
expand_pinned-eq-ok e ctx req (err x) res h = absurd (cc)
expand_pinned-eq-ok e ctx req (ok rev) res h =
    let (same, drawn) =
      expand_result-eq-ok rev
        (expand_at e ctx rev (depth_limit e + 2) [] req.object req.relation 0 0).0 res h in
    subst
      (λ v. (expand_at e ctx v (depth_limit e + 2) [] req.object req.relation 0 0).0 ≡ ok res.tree)
      same drawn

-- Where Expand returns a tree and the plain recursion has an answer at the revision of the tree, for
-- a subject that has a text and no relation, the tree admits the subject exactly if the answer is
-- true; if the objects and subjects that are asked for or stored have texts, and the relations that
-- are asked for, stored with a subject or named by a rewrite hold no #.
pub expand_request-admits :
    (e : Engine) (ctx : Context) (req : ExpandRequest) (res : ExpandResult) (s : Subject) (b : Bool)
    → is_userset s ≡ false
    → IsSubject s
    → IsPlace req.object req.relation
    → ((o : Object) (r : Str) (ts : List Tuple)
        → e.store.read res.revision o r ≡ ok ts
        → All IsReadable ts)
    → IsPlainSchema e.schema
    → expand_request e ctx req ≡ ok res
    → Decides e.schema (e.store.read res.revision) s req.object req.relation b
    → admits (subject_string s) res.tree ≡ b
unfolding expand_request any
expand_request-admits e ctx req res s b concrete hs hp readable plain h (n, decided) =
    (expand_at-Draws e ctx res.revision s concrete hs readable
        (λ type r rel. lookup-NamesPlain e.schema type r rel plain) n (depth_limit e + 2) 0 []
        (λ o r p v. absurd (cc)) req.object req.relation b hp decided).drawn
      0 res.tree (expand_pinned-eq-ok e ctx req _ res h)
