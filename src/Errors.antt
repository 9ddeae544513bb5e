-- ===== src/Errors.antt =====
-- Go's `error` values that cross package boundaries, each with the data its message is built from.
use zanzo.Base.{Str, Result}
use zanzo.Storage.Types.{Object}

pub data Error : Type 0 where
  -- context.Canceled, context.DeadlineExceeded
  canceled deadline_exceeded : Error
  -- check.ErrDepthExceeded, wrapped with the place
  depth_exceeded : Object → Str → Error
  -- "schema: unknown object type %q"
  unknown_type : Str → Error
  -- "schema: %s has no relation %q"
  no_relation : Str → Str → Error
  -- what a store returns
  store_failure : Str → Error
  -- "listobjects: object type and permission are required"
  arguments_required : Error
  -- a model's loop ran out of fuel; the program has no such error
  out_of_fuel : Error

abbrev pub Outcome : Type 0 → Type 0
Outcome A = Result Error A
