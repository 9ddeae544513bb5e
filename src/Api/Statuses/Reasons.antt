-- ===== src/Api/Statuses/Reasons.antt =====
-- The status of a refusal names its reason, for the errors of the engine.
use zanzo.Base.{
  ℕ, ◌≡◌, ◌⊎◌, inl, inr, refl, sym, ◌∙◌, ap, subst, some, arith, Str, Result, err, Option-cases,
  get, str_eq,
}
use zanzo.Errors.{Error, canceled, deadline_exceeded, depth_exceeded, unknown_type, no_relation}
use zanzo.Storage.Types.{Object}
use zanzo.Storage.Memory.{Memory}
use zanzo.Schema.Types.{Schema, lookup, lookup_definition, lookup_relation}
use zanzo.Check.Types.{Context}
use zanzo.Check.Failure.{Cause, from_context, from_head, from_read, from_schema, too_deep}
use zanzo.Api.Handlers.{Refusal, check_failed}
use zanzo.Api.Expand.{expand_failed}
use zanzo.Service.{engine}

err_inj : {A : Type 0} {x y : Error} → ◌≡◌ {A = Result Error A} (err x) (err y) → x ≡ y
err_inj h = ground arith

-- ctx.Err returns one of two errors.
abbrev pub IsContext : Context → Type 0
IsContext ctx = (i : ℕ) (x : Error) → ctx i ≡ some x → (x ≡ canceled) ⊎ (x ≡ deadline_exceeded)

module _ (schema : Schema) (ctx : Context) where
  -- What each status of a refusal means, given whether the body is a call and how the engine failed.
  pub data Explains (is_call : Type 0) (failure : Error → Type 0) (r : Refusal) : Type 0 where
    bad_body : r.status ≡ 400 → ¬ is_call → Explains is_call failure r
    closed :
        r.status ≡ 499
        → (i : ℕ) (x : Error) → ctx i ≡ some x
        → failure x
        → Explains is_call failure r
    deep :
        r.status ≡ 422
        → (o : Object) (relation : Str) → failure (depth_exceeded o relation)
        → Explains is_call failure r
    unknown :
        r.status ≡ 500
        → (type relation : Str) (x : Error) → lookup schema type relation ≡ err x
        → failure x
        → Explains is_call failure r

  -- the error of a Lookup is one of two
  lookup-unknown :
      (type relation : Str) (x : Error)
      → lookup schema type relation ≡ err x
      → (x ≡ unknown_type type) ⊎ (x ≡ no_relation type relation)
  unfolding lookup lookup_definition lookup_relation
  lookup-unknown type relation x h = elim (Option-cases (get schema.definitions type)) [
    | inl e ↦ inl (sym (err_inj (rw e at h)))
    | inr (def, e) ↦ elim (Option-cases (get def.relations relation)) [
      | inl e' ↦ inr (sym (err_inj (rw (e, e') at h)))
      | inr (rel, e') ↦ absurd (cc (rw (e, e') at h))
    ]
  ]

  -- The switch on the error of the engine: the errors of a context, the depth limit, and the others.
  pub record Sorts (refusal : Error → Refusal) : Type 0 where
    pub of_canceled : (refusal canceled).status ≡ 499
    pub of_deadline : (refusal deadline_exceeded).status ≡ 499
    pub of_depth :
        (o : Object) (relation : Str) → (refusal (depth_exceeded o relation)).status ≡ 422
    pub of_type : (type : Str) → (refusal (unknown_type type)).status ≡ 500
    pub of_relation : (type relation : Str) → (refusal (no_relation type relation)).status ≡ 500

  module _ (max_depth : ℕ) (m : Memory) (is_call : Type 0) (failure : Error → Type 0)
      (refusal : Error → Refusal) (sorts : Sorts refusal) where
    status_at : (x y : Error) (n : ℕ) → x ≡ y → (refusal y).status ≡ n → (refusal x).status ≡ n
    status_at x y n e h = ap (λ z. (refusal z).status) e ∙ h

    pub Cause-Explains :
        (x : Error)
        → IsContext ctx
        → failure x
        → Cause (engine schema max_depth m) ctx x
        → Explains is_call failure (refusal x)
    Cause-Explains x hc f (from_context i h) = elim (hc i x h) [
      | inl e ↦ closed (status_at x canceled 499 e sorts.of_canceled) i x h f
      | inr e ↦ closed (status_at x deadline_exceeded 499 e sorts.of_deadline) i x h f
    ]
    Cause-Explains x hc f (from_head h) = absurd (cc)
    Cause-Explains x hc f (from_read rev o r h) = absurd (cc)
    Cause-Explains x hc f (from_schema type r h) = elim (lookup-unknown type r x h) [
      | inl e ↦ unknown (status_at x (unknown_type type) 500 e (sorts.of_type type)) type r x h f
      | inr e ↦
          unknown (status_at x (no_relation type r) 500 e (sorts.of_relation type r)) type r x h f
    ]
    Cause-Explains x hc f (too_deep o r h) =
        deep (status_at x (depth_exceeded o r) 422 h (sorts.of_depth o r)) o r (subst failure h f)

  pub check-Sorts : Sorts check_failed
  check-Sorts = record {
    of_canceled = refl;
    of_deadline = refl;
    of_depth = λ o r. refl;
    of_type = λ t. refl;
    of_relation = λ t r. refl;
  }

  pub expand-Sorts : Sorts expand_failed
  expand-Sorts = record {
    of_canceled = refl;
    of_deadline = refl;
    of_depth = λ o r. refl;
    of_type = λ t. refl;
    of_relation = λ t r. refl;
  }
