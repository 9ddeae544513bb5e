-- ===== src/Api/Bodies/Calls.antt =====
-- Which bodies of internal/api/api.go are calls of check and of expand.
use zanzo.Base.{
  ◌∙◌, ◌≡◌, ◌≢◌, ◌⊎◌, inl, inr, refl, ap, Bool, true, false, ◌||◌, Option, none, some, [], ◌∷◌, Str,
  codes, eq_str, eq_str_iff, ok, Result, ok_inj, >>=-eq-ok, if◌then◌else◌, Option-cases,
}
use zanzo.Storage.Types.{Object, Subject, Revision, object_string, subject_string}
use zanzo.Storage.Parse.{parse_object, parse_subject}
use zanzo.Storage.Parse.RoundTrip.{
  IsObject, IsSubject, parse_object-eq-ok_iff, parse_subject-eq-ok_iff,
}
use zanzo.Check.Types.{
  Request, Consistency, Token, minimize_latency, full_consistency, at_least_as_fresh,
}
use zanzo.Check.Expand.{ExpandRequest}
use zanzo.Api.Token.{parse_token}
use zanzo.Api.Handlers.{
  Refusal, parsed, required, token_of, no_token, CheckCall, consistency_of, check_call,
}
use zanzo.Api.Expand.{ExpandCall, expand_call}
use zanzo.Api.Bodies.{parsed-ok, required-given, given-required}

-- The mode is left out, or one of three, of which the last comes with a token that parses.
abbrev pub IsMode : Str → Str → Type 0
IsMode mode token =
    (mode ≡ [])
    ⊎ ((mode ≡ codes "minimize_latency")
        ⊎ ((mode ≡ codes "full")
            ⊎ ((mode ≡ codes "at_least_as_fresh")
                × (rev : Revision) × (parse_token token ≡ some rev))))

-- The texts are those of an object and a relation.
pub record Places (object relation : Str) : Type 0 where
  pub place : Object
  pub object_text : object ≡ object_string place
  pub object_good : IsObject place
  pub relation_given : relation ≢ []

pub record Checks (call : CheckCall) : Type 0 where
  pub at : Places call.object call.relation
  pub who : Subject
  pub subject_text : call.subject ≡ subject_string who
  pub subject_good : IsSubject who
  pub mode : IsMode call.consistency call.token

abbrev pub IsCheck : Option CheckCall → Type 0
IsCheck none = ⊥
IsCheck (some call) = Checks call

abbrev pub IsExpand : Option ExpandCall → Type 0
IsExpand none = ⊥
IsExpand (some call) = Places call.object call.relation

token_of-eq-ok : (s : Str) (t : Token) → token_of s ≡ ok t → parse_token s ≡ some t.revision
unfolding eq_str
token_of-eq-ok [] t h = absurd (cc h)
token_of-eq-ok (a ∷ s) t h = elim (Option-cases (parse_token (a ∷ s))) [
  | inl e ↦ absurd (cc (rw e at h))
  | inr (rev, e) ↦ e ∙ ap (λ u. some u.revision) (ok_inj (rw e at h))
]

no_text : (rev : Revision) → parse_token [] ≢ some rev
unfolding parse_token
no_text rev h = cc h

pub token-token_of :
    (s : Str) (rev : Revision)
    → parse_token s ≡ some rev
    → token_of s ≡ ok (record { revision = rev })
unfolding eq_str
token-token_of [] rev h = absurd (no_text rev h)
token-token_of (a ∷ s) rev h = rw h refl

if-ok :
    {A : Type 0} (b : Bool) (m n : Result Refusal A) (a : A)
    → (if b then m else n) ≡ ok a
    → ((b ≡ true) × (m ≡ ok a)) ⊎ ((b ≡ false) × (n ≡ ok a))
if-ok true m n a h = inl (refl, h)
if-ok false m n a h = inr (refl, h)

or-cases : (a b : Bool) → (a || b) ≡ true → (a ≡ true) ⊎ (b ≡ true)
or-cases true b h = inl refl
or-cases false b h = inr h

consistency_of-IsMode :
    (call : CheckCall) (mode : Consistency × Token)
    → consistency_of call ≡ ok mode
    → IsMode call.consistency call.token
unfolding consistency_of
consistency_of-IsMode call mode h =
    let c = call.consistency in
    elim (if-ok (eq_str c [] || eq_str c (codes "minimize_latency")) _ _ mode h) [
      | inl (e, k) ↦ elim (or-cases (eq_str c []) (eq_str c (codes "minimize_latency")) e) [
        | inl q ↦ inl ((eq_str_iff c []).0 q)
        | inr q ↦ inr (inl ((eq_str_iff c (codes "minimize_latency")).0 q))
      ]
      | inr (_, h1) ↦ elim (if-ok (eq_str c (codes "full")) _ _ mode h1) [
        | inl (e, k) ↦ inr (inr (inl ((eq_str_iff c (codes "full")).0 e)))
        | inr (_, h2) ↦ elim (if-ok (eq_str c (codes "at_least_as_fresh")) _ _ mode h2) [
          | inl (e, k) ↦
              let (t, p, q) = >>=-eq-ok (token_of call.token) _ k in
              inr (
                inr (
                  inr (
                    (eq_str_iff c (codes "at_least_as_fresh")).0 e,
                    t.revision,
                    token_of-eq-ok call.token t p,
                  )))
          | inr (_, h3) ↦ absurd (cc h3)
        ]
      ]
    ]

IsMode-consistency_of :
    (call : CheckCall)
    → IsMode call.consistency call.token
    → (mode : Consistency × Token) × (consistency_of call ≡ ok mode)
unfolding consistency_of eq_str
IsMode-consistency_of call (inl e) = ((minimize_latency, no_token), rw e refl)
IsMode-consistency_of call (inr (inl e)) = ((minimize_latency, no_token), rw e refl)
IsMode-consistency_of call (inr (inr (inl e))) = ((full_consistency, no_token), rw e refl)
IsMode-consistency_of call (inr (inr (inr (e, rev, p)))) =
    ((at_least_as_fresh, record { revision = rev }), rw (e, token-token_of call.token rev p) refl)

pub check_call-IsCheck :
    (body : Option CheckCall) (req : Request) → check_call body ≡ ok req → IsCheck body
unfolding check_call
check_call-IsCheck none req h = absurd (cc h)
check_call-IsCheck (some call) req h =
    let (o, p, h1) = >>=-eq-ok (parsed (parse_object call.object)) _ h in
    let (s, q, h2) = >>=-eq-ok (parsed (parse_subject call.subject)) _ h1 in
    let (u, g, h3) = >>=-eq-ok (required call.relation (codes "relation is required")) _ h2 in
    let (mode, k, h4) = >>=-eq-ok (consistency_of call) _ h3 in
    let (object_text, object) = (parse_object-eq-ok_iff call.object o).0 (parsed-ok _ o p) in
    let (subject_text, subject) = (parse_subject-eq-ok_iff call.subject s).0 (parsed-ok _ s q) in
    record {
      at = record {
        place = o;
        object_text = object_text;
        object_good = object;
        relation_given = required-given call.relation _ g;
      };
      who = s;
      subject_text = subject_text;
      subject_good = subject;
      mode = consistency_of-IsMode call mode k;
    }

pub IsCheck-check_call :
    (body : Option CheckCall) → IsCheck body → (req : Request) × (check_call body ≡ ok req)
unfolding check_call
IsCheck-check_call none h = absurd h
IsCheck-check_call (some call) h =
    let (mode, k) = IsMode-consistency_of call h.mode in
    (
      record {
        object = h.at.place;
        relation = call.relation;
        subject = h.who;
        revision = 0;
        consistency = mode.0;
        token = mode.1;
      },
      rw
          (
            (parse_object-eq-ok_iff call.object h.at.place).1 (h.at.object_text, h.at.object_good),
            (parse_subject-eq-ok_iff call.subject h.who).1 (h.subject_text, h.subject_good),
            given-required call.relation (codes "relation is required") h.at.relation_given,
            k,
          )
          refl,
    )

pub expand_call-IsExpand :
    (body : Option ExpandCall) (req : ExpandRequest) → expand_call body ≡ ok req → IsExpand body
unfolding expand_call
expand_call-IsExpand none req h = absurd (cc h)
expand_call-IsExpand (some call) req h =
    let (o, p, h1) = >>=-eq-ok (parsed (parse_object call.object)) _ h in
    let (u, g, h2) = >>=-eq-ok (required call.relation (codes "relation is required")) _ h1 in
    let (object_text, object) = (parse_object-eq-ok_iff call.object o).0 (parsed-ok _ o p) in
    record {
      place = o;
      object_text = object_text;
      object_good = object;
      relation_given = required-given call.relation _ g;
    }

pub IsExpand-expand_call :
    (body : Option ExpandCall) → IsExpand body → (req : ExpandRequest) × (expand_call body ≡ ok req)
unfolding expand_call
IsExpand-expand_call none h = absurd h
IsExpand-expand_call (some call) h = (
  record { object = h.place; relation = call.relation; revision = 0 },
  rw
      (
        (parse_object-eq-ok_iff call.object h.place).1 (h.object_text, h.object_good),
        given-required call.relation (codes "relation is required") h.relation_given,
      )
      refl,
)
