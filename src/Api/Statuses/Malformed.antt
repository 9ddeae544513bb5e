-- ===== src/Api/Statuses/Malformed.antt =====
-- The refusals of a body, before a handler calls the engine or the store, are all bad requests.
use zanzo.Base.{
  ◌≡◌, refl, Bool, true, false, ◌||◌, Option, none, some, List, [], ◌∷◌, Str, codes, eq_str, Result,
  ok, err, ◌>>=◌, if◌then◌else◌, Option-cases, inl, inr,
}
use zanzo.Storage.Parse.{ParseError, parse_object, parse_subject}
use zanzo.Check.Types.{minimize_latency, at_least_as_fresh, full_consistency}
use zanzo.Api.Token.{parse_token}
use zanzo.Api.Handlers.{
  Refusal, decoded, parsed, required, token_of, CheckCall, consistency_of, check_call, no_token,
  Relationship, to_tuples, WriteCall, write_call,
}
use zanzo.Api.Expand.{ExpandCall, expand_call}

abbrev pub BadStatus : {A : Type 0} → Result Refusal A → Type 0
BadStatus (ok a) = Unit
BadStatus (err r) = r.status ≡ 400

-- If it is a refusal, its status is 400.
pub record IsBad {A : Type 0} (r : Result Refusal A) : Type 0 where
  pub bad : BadStatus r

ok-IsBad : {A : Type 0} (a : A) → IsBad (ok a)
ok-IsBad a = record { bad = tt }

err-IsBad : {A : Type 0} (r : Refusal) → r.status ≡ 400 → IsBad {A = A} (err r)
err-IsBad r h = record { bad = h }

module _ {A B : Type 0} where
  >>=-IsBad :
      (m : Result Refusal A) (f : A → Result Refusal B)
      → IsBad m
      → ((a : A) → IsBad (f a))
      → IsBad (m >>= f)
  >>=-IsBad (ok a) f h k = k a
  >>=-IsBad (err r) f h k = record { bad = h.bad }

if-IsBad :
    {A : Type 0} (b : Bool) (m n : Result Refusal A)
    → IsBad m
    → IsBad n
    → IsBad (if b then m else n)
if-IsBad true m n hm hn = hm
if-IsBad false m n hm hn = hn

decoded-IsBad : {A : Type 0} (body : Option A) → IsBad (decoded body)
decoded-IsBad none = err-IsBad _ refl
decoded-IsBad (some a) = ok-IsBad a

parsed-IsBad : {A : Type 0} (r : Result ParseError A) → IsBad (parsed r)
parsed-IsBad (ok a) = ok-IsBad a
parsed-IsBad (err x) = err-IsBad _ refl

required-IsBad : (s message : Str) → IsBad (required s message)
required-IsBad s message = if-IsBad (eq_str s []) _ _ (err-IsBad _ refl) (ok-IsBad tt)

token_of-IsBad : (s : Str) → IsBad (token_of s)
token_of-IsBad s =
    if-IsBad (eq_str s []) _ _ (err-IsBad _ refl) (elim (Option-cases (parse_token s)) [
      | inl e ↦ rw e (err-IsBad _ refl)
      | inr (rev, e) ↦ rw e (ok-IsBad _)
    ])

consistency_of-IsBad : (call : CheckCall) → IsBad (consistency_of call)
unfolding consistency_of
consistency_of-IsBad call =
    let c = call.consistency in
    if-IsBad (eq_str c [] || eq_str c (codes "minimize_latency")) _ _
      (ok-IsBad (minimize_latency, no_token))
      (if-IsBad (eq_str c (codes "full")) _ _ (ok-IsBad (full_consistency, no_token)) (
        if-IsBad (eq_str c (codes "at_least_as_fresh")) _ _
          (>>=-IsBad (token_of call.token) _ (token_of-IsBad call.token)
            λ token. ok-IsBad (at_least_as_fresh, token))
          (err-IsBad _ refl)))

pub check_call-IsBad : (body : Option CheckCall) → IsBad (check_call body)
unfolding check_call
check_call-IsBad body = >>=-IsBad _ _ (decoded-IsBad body) λ call.
    >>=-IsBad _ _ (parsed-IsBad (parse_object call.object)) λ object.
      >>=-IsBad _ _ (parsed-IsBad (parse_subject call.subject)) λ subject.
        >>=-IsBad _ _ (required-IsBad call.relation _)
          λ given. >>=-IsBad _ _ (consistency_of-IsBad call) λ mode. ok-IsBad _

pub expand_call-IsBad : (body : Option ExpandCall) → IsBad (expand_call body)
unfolding expand_call
expand_call-IsBad body = >>=-IsBad _ _ (decoded-IsBad body) λ call.
    >>=-IsBad _ _ (parsed-IsBad (parse_object call.object))
      λ object. >>=-IsBad _ _ (required-IsBad call.relation _) λ given. ok-IsBad _

to_tuples-IsBad : (rs : List Relationship) → IsBad (to_tuples rs)
unfolding to_tuples
to_tuples-IsBad [] = ok-IsBad []
to_tuples-IsBad (r ∷ rs) = >>=-IsBad _ _ (parsed-IsBad (parse_object r.object)) λ object.
    >>=-IsBad _ _ (parsed-IsBad (parse_subject r.subject)) λ subject.
      >>=-IsBad _ _ (required-IsBad r.relation _)
        λ given. >>=-IsBad _ _ (to_tuples-IsBad rs) λ rest. ok-IsBad _

pub write_call-IsBad : (body : Option WriteCall) → IsBad (write_call body)
unfolding write_call
write_call-IsBad body = >>=-IsBad _ _ (decoded-IsBad body) λ call.
    >>=-IsBad _ _ (if-IsBad _ _ _ (err-IsBad _ refl) (ok-IsBad tt)) λ asked.
      >>=-IsBad _ _ (to_tuples-IsBad call.add)
        λ add. >>=-IsBad _ _ (to_tuples-IsBad call.remove) λ remove. ok-IsBad _
