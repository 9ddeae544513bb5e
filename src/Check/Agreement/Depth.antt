-- ===== src/Check/Agreement/Depth.antt =====
-- The induction over the depth that is left: where the reference has an answer, so has check.
use zanzo.Base.{
  ℕ, zero, suc, ◌+◌, ◌≤◌, ◌≡◌, ◌≢◌, sym, ◌∙◌, ap, Bool, true, Option, none, arith, Str, ok, err,
  Bool-cases, Result-cases, inl, inr, >>=-eq-ok, ok_inj, subst,
}
use zanzo.Errors.{Error}
use zanzo.Storage.Types.{Object}
use zanzo.Schema.Types.{lookup}
use zanzo.Check.Cache.{Cache}
use zanzo.Check.Types.{Engine, Request, Evaluation, Context, depth_limit, eq_memo_key}
use zanzo.Check.Engine.{Recur, memo_key, check, rewrite_of}
use zanzo.Check.Body.{State, Evaluates, body-Triple}
use zanzo.Check.Body.State.{CacheLaws, Marks, mark, same_place}
use zanzo.Check.Reference.{Answer, Decides, reference, meaning}
use zanzo.Check.Reference.Growth.{Decides-unique, reference-suc}
use zanzo.Check.Agreement.Eval.{Gives, Follows, eval_agrees}

module _ (e : Engine) (ctx : Context) (req : Request) where
  abbrev refers : ℕ → Answer
  refers n = reference e.schema (e.store.read req.revision) req.subject n

  abbrev pub Answers : Object → Str → Bool → Type 0
  Answers = Decides e.schema (e.store.read req.revision) req.subject

  unique : (o : Object) (r : Str) {a b : Bool} → Answers o r a → Answers o r b → a ≡ b
  unique = Decides-unique e.schema (e.store.read req.revision) req.subject

  -- No marked subproblem has an answer in depth `n`.
  abbrev Blocked : ℕ → Marks → Type 0
  Blocked n V = (o : Object) (r : Str) → V o r ≡ true → (b : Bool) → refers n o r ≢ ok b

  Blocked-down : (n : ℕ) (V : Marks) → Blocked (suc n) V → Blocked n V
  Blocked-down n V h o r v b k =
      h o r v b (reference-suc e.schema (e.store.read req.revision) req.subject n o r b k)

  Blocked-mark :
      (n : ℕ) (V : Marks) (o : Object) (r : Str) (x : Error)
      → Blocked n V
      → refers n o r ≡ err x
      → Blocked n (mark e ctx req V o r)
  Blocked-mark n V o r x h fails o' r' m b k =
      elim (Bool-cases (eq_memo_key (memo_key e ctx req o r) (memo_key e ctx req o' r'))) [
        | inl q ↦ let (y, z) = same_place e ctx req o r o' r' q in cc
        | inr q ↦ h o' r' (rw q at m) b k
      ]

  module _ (Good : Option Cache → Type 0) (laws : CacheLaws e ctx req Answers Good)
      (quiet : (i : ℕ) → ctx i ≡ none) where
    abbrev Consistent : Marks → Evaluation → Type 0
    Consistent = State e ctx req Answers Good laws

    Evaluates-reference :
        (recur : Recur) (n : ℕ) (o : Object) (r : Str) (b : Bool) (V : Marks)
        → refers (suc n) o r ≡ ok b
        → Follows (Consistent V) recur (refers n)
        → Evaluates e ctx req Answers Good laws recur o r (λ x. x ≡ ok b) V (λ x. x ≡ ok b)
    unfolding reference
    Evaluates-reference recur n o r b V decided follows =
        let (rel, found, met) = >>=-eq-ok (lookup e.schema o.type r) _ decided in
        record {
          unknown = λ x missing. absurd (cc);
          evaluated = λ rel' found'.
              let same : rel ≡ rel' = ok_inj (sym found ∙ found') in
              eval_agrees recur (refers n) follows e ctx req o (rewrite_of rel') r b (
                subst
                  (λ y.
                    meaning e.schema (e.store.read req.revision) req.subject (refers n) o
                      (rewrite_of y) r
                    ≡ ok b)
                  same met);
          answered = λ a h. (subst (Answers o r) (sym (ok_inj h)) (suc n, decided), h);
          failed = λ x h. absurd (cc);
        }

    pub check-Gives :
        (n fuel depth : ℕ) (V : Marks)
        → n ≤ fuel
        → depth + n ≤ depth_limit e + 1
        → Blocked n V
        → (o : Object) (r : Str) (b : Bool) → refers n o r ≡ ok b
        → Gives (Consistent V) (check e ctx req fuel o r depth) b
    unfolding reference check
    check-Gives zero fuel depth V enough fits blocked o r b h = absurd (cc)
    check-Gives (suc n) zero depth V enough fits blocked o r b h = absurd (omega arith)
    check-Gives (suc n) (suc fuel) depth V enough fits blocked o r b h =
        elim (Result-cases (refers n o r)) [
          | inl (a, k) ↦
              let same : a ≡ b = unique o r (n, k) (suc n, h) in
              subst (Gives (Consistent V) (check e ctx req (suc fuel) o r depth)) same (
                check-Gives n (suc fuel) depth V (omega arith) (omega arith)
                  (Blocked-down n V blocked) o r a k)
          | inr (x, k) ↦
              let recur = λ (o' : Object) (r' : Str). check e ctx req fuel o' r' (suc depth) in
              body-Triple e ctx req Answers Good laws recur o r (λ y. y ≡ ok b) V (λ y. y ≡ ok b)
                (λ v. absurd (blocked o r v b h))
                (λ _. Evaluates-reference recur n o r b (mark e ctx req V o r) h (
                  check-Gives n fuel (suc depth) (mark e ctx req V o r) (omega arith) (omega arith)
                    (Blocked-mark n V o r x (Blocked-down n V blocked) k)))
                (λ got d. ap ok (unique o r d (suc n, h))) depth (λ deep. absurd (ground arith))
                (λ i y p. absurd (cc (quiet i)))
        ]
