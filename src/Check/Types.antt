-- ===== src/Check/Types.antt =====
-- internal/check/check.go, the data: engines, requests, results and one check's working state.
use zanzo.Base.{
  ℕ, Bool, ◌&&◌, ◌≡◌, ◌↔◌, Option, Map, Str, eq_str, eq_str_iff, Comparable, arith, eqb,
  if◌then◌else◌,
}
use zanzo.Errors.{Error}
use zanzo.Storage.Types.{Object, Subject, Revision, eq_object, eq_object_iff}
use zanzo.Storage.Store.{Store}
use zanzo.Schema.Types.{Schema}
use zanzo.Check.Cache.{Cache}

abbrev pub default_max_depth : ℕ
default_max_depth = 32

-- The fields that a check reads. The shared cache, which it changes, is passed beside it. An int
-- `MaxDepth` below 0 acts as 0.
pub record Engine : Type 0 where
  pub schema : Schema
  pub store : Store
  pub max_depth : ℕ

-- if maxDepth <= 0 { maxDepth = DefaultMaxDepth }
unfoldable pub depth_limit : Engine → ℕ
depth_limit e = if eqb e.max_depth 0 then default_max_depth else e.max_depth

pub data Consistency : Type 0 where
  minimize_latency at_least_as_fresh full_consistency : Consistency

pub record Token : Type 0 where
  pub revision : Revision

pub record Request : Type 0 where
  pub object : Object
  pub relation : Str
  pub subject : Subject
  pub revision : Revision
  pub consistency : Consistency
  pub token : Token

pub record CheckResult : Type 0 where
  pub allowed : Bool
  pub expansions : ℕ
  pub memo_hits : ℕ
  pub cache_hits : ℕ
  pub max_depth : ℕ
  pub revision : Revision

pub record MemoKey : Type 0 where
  pub object : Object
  pub relation : Str
  pub subject : Str

unfoldable pub eq_memo_key : MemoKey → MemoKey → Bool
eq_memo_key a b =
    eq_object a.object b.object && eq_str a.relation b.relation && eq_str a.subject b.subject

pub eq_memo_key_iff : (a b : MemoKey) → (eq_memo_key a b ≡ Bool.true) ↔ (a ≡ b)
unfolding eq_memo_key
eq_memo_key_iff a b = ground (
  arith,
  eq_object_iff a.object b.object,
  eq_str_iff a.relation b.relation,
  eq_str_iff a.subject b.subject,
)

instance abbrev pub memo_key_eq : Comparable MemoKey
memo_key_eq = record { equals = eq_memo_key; equals_iff = eq_memo_key_iff }

-- `polls` counts the calls of ctx.Err(); `cache` is the engine's cache.
pub record Evaluation : Type 0 where
  pub memo : Map MemoKey Bool
  pub visiting : Map MemoKey Bool
  pub result : CheckResult
  pub cache : Option Cache
  pub polls : ℕ

-- What the n-th call of ctx.Err() returns.
abbrev pub Context : Type 0
Context = ℕ → Option Error
