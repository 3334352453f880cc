-- ===== src/Graph/Triple.antt =====
-- pkg/graph/triple.go: triples and their fields.
use levelgraph.Prelude.{Bool, true, false, ◌&&◌, none, some, []}
use levelgraph.Prelude.Bytes.{Bytes, Slice, slice_bytes, bytes_eq}

pub record Triple : Type 0 where
  pub subject : Slice
  pub predicate : Slice
  pub object : Slice

-- The strings that name fields; `other` is any string but the three.
pub data Field : Type 0 where
  subject predicate object : Field
  other : Bytes → Field

unfoldable pub field_eq : Field → Field → Bool
field_eq subject subject = true
field_eq predicate predicate = true
field_eq object object = true
field_eq (other a) (other b) = bytes_eq a b
field_eq _ _ = false

unfoldable pub get : Triple → Field → Slice
get t subject = t.subject
get t predicate = t.predicate
get t object = t.object
get t (other _) = none

unfoldable pub set : Triple → Field → Slice → Triple
set t subject v = record t { subject = v }
set t predicate v = record t { predicate = v }
set t object v = record t { object = v }
set t (other _) v = t

-- `Equal`, on a pointer that may be nil.
unfoldable pub equal : Triple → Triple → Bool
equal t u =
    bytes_eq (slice_bytes t.subject) (slice_bytes u.subject)
    && (bytes_eq (slice_bytes t.predicate) (slice_bytes u.predicate)
        && bytes_eq (slice_bytes t.object) (slice_bytes u.object))

-- A triple with all its fields: what the database holds.
pub record Spo : Type 0 where
  pub s : Bytes
  pub p : Bytes
  pub o : Bytes

abbrev pub triple : Spo → Triple
triple x = record { subject = some x.s; predicate = some x.p; object = some x.o }

abbrev pub at : Spo → Field → Bytes
at x subject = x.s
at x predicate = x.p
at x object = x.o
at x (other _) = []
