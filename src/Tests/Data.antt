-- ===== src/Tests/Data.antt =====
-- The schema of testdata/document.zanzo, and a small store for it.
use zanzo.Base.{none, some, List, [], ◌∷◌, Str, codes}
use zanzo.Storage.Types.{Object, Subject, Tuple}
use zanzo.Storage.Memory.{Memory, new_memory, write}
use zanzo.Storage.Store.{memory_store}
use zanzo.Schema.Types.{
  Rewrite, no_children, child, computed_userset, tuple_to_userset, union, exclusion, Relation,
  Definition, Schema,
}
use zanzo.Check.Types.{Request, Engine, minimize_latency}

abbrev pub user_u : Object
user_u = record { type = codes "user"; id = codes "u" }

abbrev pub group_a : Object
group_a = record { type = codes "group"; id = codes "a" }

abbrev pub group_b : Object
group_b = record { type = codes "group"; id = codes "b" }

abbrev pub doc_x : Object
doc_x = record { type = codes "document"; id = codes "x" }

abbrev pub plain : Object → Subject
plain o = record { object = o; relation = [] }

abbrev pub member : Str
member = codes "member"

abbrev pub viewer : Str
viewer = codes "viewer"

abbrev pub parent : Str
parent = codes "parent"

abbrev pub owner : Str
owner = codes "owner"

abbrev pub editor : Str
editor = codes "editor"

abbrev pub edit : Str
edit = codes "edit"

abbrev pub banned : Str
banned = codes "banned"

abbrev pub view : Str
view = codes "view"

abbrev pub members : Object → Subject
members o = record { object = o; relation = member }

abbrev pub tuple : Object → Str → Subject → Tuple
tuple o r s = record { object = o; relation = r; subject = s }

abbrev pub stored : Str → Relation
stored name = record { name = name; rewrite = none }

abbrev pub permission : Str → Rewrite → Relation
permission name rw = record { name = name; rewrite = some rw }

-- permission edit = editor + owner
abbrev edit_rewrite : Rewrite
edit_rewrite = union (child (computed_userset editor) (child (computed_userset owner) no_children))

-- permission view = (edit + parent->viewer) - banned
abbrev pub view_rewrite : Rewrite
view_rewrite =
    exclusion
      (union (child (computed_userset edit) (child (tuple_to_userset parent viewer) no_children)))
      (computed_userset banned)

abbrev pub define : Str → List (Str × Relation) → Str × Definition
define name relations = (name, record { name = name; relations = relations })

abbrev pub document : Definition
document = record {
  name = codes "document";
  relations =
      (parent, stored parent)
      ∷ (owner, stored owner)
      ∷ (editor, stored editor)
      ∷ (banned, stored banned)
      ∷ (edit, permission edit edit_rewrite)
      ∷ (view, permission view view_rewrite)
      ∷ [];
}

abbrev pub sample_schema : Schema
sample_schema = record {
  definitions =
      define (codes "user") []
      ∷ define (codes "group") ((member, stored member) ∷ [])
      ∷ define (codes "folder") ((viewer, stored viewer) ∷ [])
      ∷ (codes "document", document)
      ∷ [];
}

abbrev pub engine_on : Memory → Engine
engine_on m = record { schema = sample_schema; store = memory_store m; max_depth = 0 }

-- Check(object#relation for user:u) at head
abbrev pub ask : Object → Str → Request
ask o r = record {
  object = o;
  relation = r;
  subject = plain user_u;
  revision = 0;
  consistency = minimize_latency;
  token = record { revision = 0 };
}

-- document:x is edited by the members of group:a, of which user:u is one.
abbrev pub first_write : List Tuple
first_write = tuple doc_x editor (members group_a) ∷ tuple group_a member (plain user_u) ∷ []

abbrev pub sample : Memory
sample = write first_write [] new_memory
