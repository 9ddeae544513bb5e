-- ===== src/Api/Fresh/Related.antt =====
-- What a check at the head of a write answers, on a relation that is only stored.
use zanzo.Base.{
  ℕ, suc, ◌+◌, ◌^◌, ◌≤◌, ◌<◌, ◌≡◌, refl, ◌∙◌, ap, false, ◌&&◌, ◌||◌, not, Option, none, List, [],
  ◌∷◌, arith, Str, ok, any, All,
}
use zanzo.Storage.Types.{Object, Subject, Tuple, Revision, is_userset, eq_subject}
use zanzo.Storage.Parse.RoundTrip.{IsSubject}
use zanzo.Storage.Memory.{Memory, write, read}
use zanzo.Storage.Memory.Live.{related}
use zanzo.Storage.Memory.Written.{IsStored}
use zanzo.Storage.Memory.Listed.{listed, related-write}
use zanzo.Storage.Places.{IsPlace, IsPlain}
use zanzo.Schema.Types.{Schema, Relation, lookup, this}
use zanzo.Check.Cache.{Cache}
use zanzo.Check.Types.{
  Engine, Request, Context, Consistency, minimize_latency, at_least_as_fresh, full_consistency,
  depth_limit,
}
use zanzo.Check.Engine.{rewrite_of}
use zanzo.Check.Request.{pin, check_request, choose_revision}
use zanzo.Check.Reference.{Answer, some_subject, meaning, reference}
use zanzo.Check.Body.Caches.{IsCorrect}
use zanzo.Check.Agreement.Request.{Decided, IsAnswer, check_request-agrees}
use zanzo.Service.{engine}

-- The relation is declared with no rewrite: its tuples alone decide.
abbrev pub IsDirect : Schema → Object → Str → Type 0
IsDirect schema o relation =
    (rel : Relation) × (lookup schema o.type relation ≡ ok rel) × (rewrite_of rel ≡ this)

-- No tuple names a userset.
abbrev pub AreConcrete : List Tuple → Type 0
AreConcrete = All (λ (t : Tuple). is_userset t.subject ≡ false)

some_subject-any :
    (s : Subject) (answer : Answer) (ts : List Tuple)
    → AreConcrete ts
    → some_subject s answer ts ≡ ok (any (λ t. eq_subject t.subject s) ts)
unfolding some_subject any
some_subject-any s answer [] h = refl
some_subject-any s answer (t ∷ ts) h = rw h.0 (ground (arith, some_subject-any s answer ts h.1))

choose-head :
    (c : Consistency) (token head : Revision) → token ≤ head → choose_revision c token head ≡ head
unfolding choose_revision
choose-head minimize_latency token head old = refl
choose-head at_least_as_fresh token head old = ground arith
choose-head full_consistency token head old = refl

depth_suc : (e : Engine) → depth_limit e + 1 ≡ suc (depth_limit e)
depth_suc e = omega arith

module _ (schema : Schema) (max_depth : ℕ) where
  reference-related :
      (m : Memory) (n : ℕ) (rev : Revision) (o : Object) (relation : Str) (s : Subject)
      → IsDirect schema o relation
      → AreConcrete (read m rev o relation)
      → reference schema ((engine schema max_depth m).store.read rev) s (suc n) o relation
        ≡ ok (related m rev o relation s)
  unfolding reference meaning related
  reference-related m n rev o relation s (rel, found, direct) h =
      rw (found, direct) (some_subject-any s _ (read m rev o relation) h)

  pin-head :
      (m : Memory) (req : Request)
      → req.revision ≡ 0
      → req.token.revision ≤ m.head
      → pin (engine schema max_depth m) req ≡ ok m.head
  unfolding pin
  pin-head m req unset old =
      rw unset (ap ok (choose-head req.consistency req.token.revision m.head old))

  -- A check at the head that a write made, of a relation that is only stored and names no userset for
  -- the object there.
  pub check-related :
      (add remove : List Tuple) (m : Memory)
      → IsStored m
      → m.head + 1 < 2 ^ 64
      → (ctx : Context) (cache : Option Cache) (req : Request)
      → let m' = write add remove m in
        let e = engine schema max_depth m' in
        IsDirect schema req.object req.relation
        → AreConcrete (read m' m'.head req.object req.relation)
        → req.revision ≡ 0
        → req.token.revision ≤ m'.head
        → IsSubject req.subject
        → IsPlace req.object req.relation
        → All IsPlain add
        → All IsPlain remove
        → ((i : ℕ) → ctx i ≡ none)
        → IsCorrect (IsAnswer e) cache
        → Decided
            (check_request e ctx cache req).0
            ((related m m.head req.object req.relation req.subject
                && not (listed remove req.object req.relation req.subject))
              || listed add req.object req.relation req.subject)
            m'.head
  check-related add remove m h room ctx cache req direct concrete unset old hs place adds removes
        quiet g =
      let m' = write add remove m in
      let e = engine schema max_depth m' in
      let answer =
        ap (λ n. reference schema (e.store.read m'.head) req.subject n req.object req.relation)
          (depth_suc e)
        ∙ reference-related m' (depth_limit e) m'.head req.object req.relation req.subject direct
            concrete
        ∙ ap ok (
            related-write add remove m h room adds removes req.object req.relation req.subject
              place) in
      (check_request-agrees e ctx cache req m'.head _ (pin-head m' req unset old) hs quiet g
        answer).0
