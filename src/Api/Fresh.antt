-- ===== src/Api/Fresh.antt =====
-- What a check that carries the token of a write answers, on a relation that is only stored.
pub mod Related
use zanzo.Base.{
  ℕ, suc, ◌+◌, ◌^◌, ◌≤◌, ◌<◌, ◌≡◌, ◌≢◌, refl, sym, ◌∙◌, ap, subst, Bool, false, ◌&&◌, ◌||◌, not,
  Option, none, some, List, [], ◌∷◌, arith, Str, codes, eq_str, ok, any, All,
}
use zanzo.Errors.{Outcome}
use zanzo.Storage.Types.{Object, Subject, Tuple, Revision, is_userset, eq_subject}
use zanzo.Storage.Parse.{parse_object, parse_subject}
use zanzo.Storage.Parse.RoundTrip.{IsSubject, parse_object-eq-ok_iff, parse_subject-eq-ok_iff}
use zanzo.Storage.Memory.{Memory, write, read}
use zanzo.Storage.Memory.Live.{related}
use zanzo.Storage.Memory.Written.{IsStored}
use zanzo.Storage.Memory.Listed.{listed, related-write}
use zanzo.Storage.Places.{IsPlace, IsPlain}
use zanzo.Storage.Parse.{index}
use zanzo.Storage.Types.{hash}
use zanzo.Api.Bodies.{Writes, asked, asked-listed, HavePlainRelations, AllName-IsPlain}
use zanzo.Schema.Types.{Schema, Relation, lookup, this}
use zanzo.Check.Cache.{Cache}
use zanzo.Check.Types.{
  Engine, Request, CheckResult, Context, Consistency, minimize_latency, at_least_as_fresh,
  full_consistency, depth_limit,
}
use zanzo.Check.Engine.{rewrite_of}
use zanzo.Check.Request.{pin, check_request, choose_revision}
use zanzo.Check.Reference.{Answer, some_subject, meaning, reference}
use zanzo.Check.Body.Caches.{IsCorrect}
use zanzo.Check.Agreement.Request.{Decided, IsAnswer, check_request-agrees}
use zanzo.Api.Token.{parse_token, format_token}
use zanzo.Api.Writes.{handle_write-Applies}
use zanzo.Api.Handlers.{
  CheckCall, CheckResponse, checked, check_call, consistency_of, token_of, handle_check, required,
  WriteCall, written, handle_write, check_response,
}
use zanzo.Service.{engine}
use zanzo.Api.Fresh.Related.{IsDirect, AreConcrete, check-related}
use zanzo.Api.Bodies.{given-required}
use zanzo.Api.Bodies.Calls.{token-token_of}

consistency_of-ok :
    (call : CheckCall) (rev : Revision)
    → call.consistency ≡ codes "at_least_as_fresh"
    → parse_token call.token ≡ some rev
    → consistency_of call ≡ ok (at_least_as_fresh, record { revision = rev })
unfolding consistency_of eq_str
consistency_of-ok call rev mode token = rw (mode, token-token_of call.token rev token) refl

-- What handleCheck takes from texts that parse.
check_call-ok :
    (call : CheckCall) (o : Object) (s : Subject) (rev : Revision)
    → parse_object call.object ≡ ok o
    → parse_subject call.subject ≡ ok s
    → call.relation ≢ []
    → call.consistency ≡ codes "at_least_as_fresh"
    → parse_token call.token ≡ some rev
    → check_call (some call)
      ≡ ok (record {
        object = o;
        relation = call.relation;
        subject = s;
        revision = 0;
        consistency = at_least_as_fresh;
        token = record { revision = rev };
      })
unfolding check_call
check_call-ok call o s rev po ps given mode token =
    rw
      (
        po,
        ps,
        given-required call.relation (codes "relation is required") given,
        consistency_of-ok call rev mode token,
      )
      refl

-- The texts of a check with a token: an object, a subject, a relation, and the mode that asks for the
-- revision of the token or a later one.
pub record Asks (call : CheckCall) (token : Str) (o : Object) (s : Subject) : Type 0 where
  pub object : parse_object call.object ≡ ok o
  pub subject : parse_subject call.subject ≡ ok s
  pub relation : call.relation ≢ []
  pub mode : call.consistency ≡ codes "at_least_as_fresh"
  pub token_of_write : call.token ≡ token

response-Decided :
    (r : Outcome CheckResult) (b : Bool) (rev : Revision)
    → Decided r b rev
    → (resp : CheckResponse) × (check_response r ≡ checked resp)
      × (resp.allowed ≡ b)
      × (resp.token ≡ format_token rev)
response-Decided r b rev (res, e, allowed, at_rev) = (
  record {
    allowed = res.allowed;
    token = format_token res.revision;
    expansions = res.expansions;
    cache_hits = res.cache_hits;
    memo_hits = res.memo_hits;
    max_depth = res.max_depth;
  },
  ap check_response e,
  allowed,
  ap format_token at_rev,
)

module _ (schema : Schema) (max_depth : ℕ) (m : Memory) (body : WriteCall) (ctx : Context)
    (cache : Option Cache) (call : CheckCall) (o : Object) (s : Subject) where
  -- what the handler answers on the store that the write made
  abbrev pub AnswersFresh : Memory → Type 0
  AnswersFresh m' =
      (resp : CheckResponse) × ((handle_check (engine schema max_depth m') ctx cache (some call)).0
        ≡ checked resp)
      × (resp.token ≡ format_token m'.head)
      × (resp.allowed ≡ (
          (related m m.head o call.relation s && not (asked body.remove o call.relation s))
          || asked body.add o call.relation s))

  written-AnswersFresh :
      (add remove : List Tuple)
      → Writes body add remove
      → HavePlainRelations body.add
      → HavePlainRelations body.remove
      → index call.relation hash ≡ none
      → let m' = write add remove m in
        IsStored m
        → m.head + 1 < 2 ^ 64
        → (token : Str) → parse_token token ≡ some m'.head
        → Asks call token o s
        → IsDirect schema o call.relation
        → AreConcrete (read m' m'.head o call.relation)
        → ((i : ℕ) → ctx i ≡ none)
        → IsCorrect (IsAnswer (engine schema max_depth m')) cache
        → AnswersFresh m'
  unfolding handle_check
  written-AnswersFresh add remove w plain_adds plain_removes free h room token head asks direct
        concrete quiet g =
      let m' = write add remove m in
      let e = engine schema max_depth m' in
      let req : Request = record {
        object = o;
        relation = call.relation;
        subject = s;
        revision = 0;
        consistency = at_least_as_fresh;
        token = record { revision = m'.head };
      } in
      let asked_for =
        check_call-ok call o s m'.head asks.object asks.subject asks.relation asks.mode
          (ap parse_token asks.token_of_write ∙ head) in
      let hs = ((parse_subject-eq-ok_iff call.subject s).0 asks.subject).1 in
      let place : IsPlace o call.relation = record {
        object = ((parse_object-eq-ok_iff call.object o).0 asks.object).1;
        relation_free = free;
      } in
      let decided =
        check-related schema max_depth add remove m h room ctx cache req direct concrete refl
          (omega arith) hs place (AllName-IsPlain body.add add w.adds plain_adds)
          (AllName-IsPlain body.remove remove w.removes plain_removes) quiet g in
      let (resp, e1, allowed, at_rev) =
        response-Decided (check_request e ctx cache req).0 _ m'.head decided in
      (
        resp,
        rw asked_for e1,
        at_rev,
        allowed
            ∙ ap
                (λ b. (related m m.head o call.relation s && not b) || listed add o call.relation s)
                (asked-listed body.remove remove o call.relation s w.removes place.object hs)
            ∙ ap
                (λ b.
                  (related m m.head o call.relation s && not (asked body.remove o call.relation s))
                  || b)
                (asked-listed body.add add o call.relation s w.adds place.object hs),
      )

-- What the body of a write that was accepted is, and what a check is told after it.
abbrev pub IsRead :
    Schema
    → ℕ
    → Memory
    → Option WriteCall
    → Context
    → Option Cache
    → CheckCall
    → Object
    → Subject
    → Memory
    → Type 0
IsRead schema max_depth m none ctx cache call o s m' = ⊥
IsRead schema max_depth m (some body) ctx cache call o s m' =
    AnswersFresh schema max_depth m body ctx cache call o s m'

-- The relations of the entries hold no `#`.
abbrev pub IsPlainBody : Option WriteCall → Type 0
IsPlainBody none = Unit
IsPlainBody (some body) = HavePlainRelations body.add × HavePlainRelations body.remove

-- Read your writes. On a well-formed in-process store below the last revision of a uint64, with a
-- context that is never cancelled, and no cache or a revision-keyed one that holds answers: after the
-- write handler returned a token, for a body whose relations hold no #, a check that carries it, of a
-- relation with no # and no rewrite whose tuples of the object name no userset, is answered with the
-- token of the revision of the write, and allowed exactly if one of the additions of the body has the
-- texts of the object, the relation and the subject, or the subject was related and none of its
-- removals has.
pub handle_check-handle_write :
    (schema : Schema) (max_depth : ℕ) (m : Memory) (body : Option WriteCall) (token : Str)
    → IsStored m
    → m.head + 1 < 2 ^ 64
    → IsPlainBody body
    → (handle_write m body).0 ≡ written token
    → (ctx : Context) (cache : Option Cache) (call : CheckCall) (o : Object) (s : Subject)
    → Asks call token o s
    → index call.relation hash ≡ none
    → let m' = (handle_write m body).1 in
      IsDirect schema o call.relation
      → AreConcrete (read m' m'.head o call.relation)
      → ((i : ℕ) → ctx i ≡ none)
      → IsCorrect (IsAnswer (engine schema max_depth m')) cache
      → IsRead schema max_depth m body ctx cache call o s m'
handle_check-handle_write schema max_depth m none token h room plain done ctx cache call o s asks
      free direct concrete quiet g =
    let (add, remove, called, made, moved, head) =
      (handle_write-Applies m none h room).0 token done in
    absurd called
handle_check-handle_write schema max_depth m (some body) token h room plain done ctx cache call o s
      asks free direct concrete quiet g =
    let (add, remove, called, made, moved, head) =
      (handle_write-Applies m (some body) h room).0 token done in
    let build =
      written-AnswersFresh schema max_depth m body ctx cache call o s add remove called plain.0
        plain.1 free h room token (head ∙ ap (λ m'. some m'.head) made) asks direct in
    subst
      (λ m'.
        (AreConcrete (read m' m'.head o call.relation)
          → ((i : ℕ) → ctx i ≡ none)
          → IsCorrect (IsAnswer (engine schema max_depth m')) cache
          → AnswersFresh schema max_depth m body ctx cache call o s m'))
      (sym made) build concrete quiet g
