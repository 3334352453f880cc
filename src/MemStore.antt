-- ===== src/MemStore.antt =====
-- memstore/memstore.go: the in-memory store.
pub mod Sort
pub mod Laws
pub mod Cursor
use levelgraph.Prelude.{
  ℕ, ◌≡◌, refl, Bool, true, false, not, ◌&&◌, ◌||◌, Option, none, some, List, [], ◌∷◌, map,
  if◌then◌else◌,
}
use levelgraph.Prelude.Bytes.{Bytes, Slice, slice_bytes, bytes_lt}
use levelgraph.Prelude.Assoc.{Assoc, lookup, insert, erase}
use levelgraph.Store.{Op, Batch}

pub record MemStore : Type 0 where
  pub entries : Assoc Bytes
  pub closed : Bool

abbrev pub new : MemStore
new = record { entries = []; closed = false }

-- `ErrClosed` is `none`, `ErrNotFound` is `some none`.
unfoldable pub get : Bytes → MemStore → Option (Option Bytes)
get k m = if m.closed then none else some (lookup k m.entries)

unfoldable pub put : Bytes → Bytes → MemStore → Option MemStore
put k v m = if m.closed then none else some (record m { entries = insert k v m.entries })

unfoldable pub delete : Bytes → MemStore → Option MemStore
delete k m = if m.closed then none else some (record m { entries = erase k m.entries })

-- `batchReplay`
unfoldable pub replay_op : Assoc Bytes → Op → Assoc Bytes
replay_op entries (Op.put k v) = insert k v entries
replay_op entries (Op.del k) = erase k entries

unfoldable pub replay : Assoc Bytes → Batch → Assoc Bytes
replay entries [] = entries
replay entries (op ∷ batch) = replay (replay_op entries op) batch

unfoldable pub write : Batch → MemStore → Option MemStore
write batch m = if m.closed then none else some (record m { entries = replay m.entries batch })

-- `util.Range`: a limit that is nil does not bound.
pub record Range : Type 0 where
  pub start : Bytes
  pub limit : Option Bytes

abbrev below : Bytes → Option Bytes → Bool
below k none = true
below k (some limit) = bytes_lt k limit

unfoldable pub in_slice : Option Range → Bytes → Bool
in_slice none k = true
in_slice (some r) k = not (bytes_lt k r.start) && below k r.limit

-- The loop of `NewIterator` over the map, in whatever order; the keys are sorted behind it.
unfoldable pub keys_in : Option Range → Assoc Bytes → List Bytes
keys_in r [] = []
keys_in r ((k, v) ∷ entries) =
    let rest = keys_in r entries in if in_slice r k then k ∷ rest else rest

-- `sort.Strings`; the keys are distinct, so the result does not depend on how it sorts.
unfoldable pub sort_in : Bytes → List Bytes → List Bytes
sort_in k [] = k ∷ []
sort_in k (j ∷ l) = if bytes_lt j k then j ∷ sort_in k l else k ∷ j ∷ l

unfoldable pub sort_strings : List Bytes → List Bytes
sort_strings [] = []
sort_strings (k ∷ l) = sort_in k (sort_strings l)

-- The snapshot that an iterator walks over.
unfoldable pub new_iterator : Option Range → MemStore → Option (List (Bytes × Bytes))
new_iterator r m =
    if m.closed
    then none
    else some
        (map (λ k. (k, slice_bytes (lookup k m.entries))) (sort_strings (keys_in r m.entries)))

unfoldable pub close : MemStore → MemStore
close m = record { entries = []; closed = true }
