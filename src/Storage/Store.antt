-- ===== src/Storage/Store.antt =====
-- internal/storage/storage.go: the interface Store, as its readers see it, and the in-process store
-- as an implementation.
use zanzo.Base.{List, Str, ok}
use zanzo.Errors.{Outcome}
use zanzo.Storage.Types.{Object, Subject, Tuple, Revision}
use zanzo.Storage.Memory.{Memory, read, read_by_subject}

-- The reading methods, at one state of the store.
pub record Store : Type 0 where
  pub head : Outcome Revision
  pub read : Revision → Object → Str → Outcome (List Tuple)
  pub read_by_subject : Revision → Subject → Str → Outcome (List Tuple)

abbrev pub memory_store : Memory → Store
memory_store m = record {
  head = ok m.head;
  read = λ rev o relation. ok (read m rev o relation);
  read_by_subject = λ rev s relation. ok (read_by_subject m rev s relation);
}
