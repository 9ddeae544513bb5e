-- ===== src/Check/Cache.antt =====
-- internal/check/cache.go: the cache of decided subproblems, keyed by revision, and the one that
-- drops the revision. The mutex makes each method one atomic step.
use zanzo.Base.{
  [], ℕ, Bool, true, ◌&&◌, ◌≡◌, ◌↔◌, Option, Map, get, put, Str, eq_str, eq_str_iff, Comparable,
  arith, eqb, length,
}
use zanzo.Storage.Types.{Object, Revision, eq_object, eq_object_iff}

pub record Key : Type 0 where
  pub object : Object
  pub relation : Str
  pub subject : Str
  pub revision : Revision

unfoldable pub eq_key : Key → Key → Bool
eq_key a b =
    eq_object a.object b.object
    && eq_str a.relation b.relation
    && eq_str a.subject b.subject
    && eqb a.revision b.revision

pub eq_key_iff : (a b : Key) → (eq_key a b ≡ true) ↔ (a ≡ b)
unfolding eq_key
eq_key_iff a b = ground (
  arith,
  eq_object_iff a.object b.object,
  eq_str_iff a.relation b.relation,
  eq_str_iff a.subject b.subject,
)

instance abbrev pub key_eq : Comparable Key
key_eq = record { equals = eq_key; equals_iff = eq_key_iff }

-- The interface Cache, with one constructor for each type that implements it.
pub data Cache : Type 0 where
  revision_keyed : Map Key Bool → Cache
  naive : Map Key Bool → Cache

abbrev pub new_revision_keyed : Cache
new_revision_keyed = revision_keyed []

abbrev pub new_naive_cache : Cache
new_naive_cache = naive []

abbrev pub strip : Key → Key
strip k = record k { revision = 0 }

-- func (c *NaiveCache) Get and Set
abbrev pub naive_get : Map Key Bool → Key → Option Bool
naive_get entries k = get entries (strip k)

abbrev pub naive_set : Map Key Bool → Key → Bool → Map Key Bool
naive_set entries k allowed = put entries (strip k) allowed

unfoldable pub cache_get : Cache → Key → Option Bool
cache_get (revision_keyed entries) k = get entries k
cache_get (naive entries) k = naive_get entries k

unfoldable pub cache_set : Cache → Key → Bool → Cache
cache_set (revision_keyed entries) k allowed = revision_keyed (put entries k allowed)
cache_set (naive entries) k allowed = naive (naive_set entries k allowed)

unfoldable pub cache_len : Cache → ℕ
cache_len (revision_keyed entries) = length entries
cache_len (naive entries) = length entries
