-- ===== src/Store.antt =====
-- `KVStore` of levelgraph.go, the interface of the key-value store under the database, with what
-- the database relies on: LevelDB is such a store, and memstore another.
pub mod Sweep
use levelgraph.Prelude.{◌≡◌, ◌↔◌, true, Option, none, some, List, [], ◌∷◌, if◌then◌else◌, Mem, All}
use levelgraph.Prelude.Bytes.{Bytes, bytes_eq, bytes_lt}
use levelgraph.Index.Range.{in_range}

-- The records of a `leveldb.Batch`.
pub data Op : Type 0 where
  put : Bytes → Bytes → Op
  del : Bytes → Op

abbrev pub Batch : Type 0
Batch = List Op

-- What a store holds under each key.
abbrev pub Contents : Type 0
Contents = Bytes → Option Bytes

-- The contents after one record, and after a batch.
unfoldable pub apply_op : Contents → Op → Contents
apply_op f (put j v) k = if bytes_eq j k then some v else f k
apply_op f (del j) k = if bytes_eq j k then none else f k

unfoldable pub apply_batch : Contents → Batch → Contents
apply_batch f [] = f
apply_batch f (op ∷ batch) = apply_batch (apply_op f op) batch

-- The keys ascend, and so are distinct.
abbrev pub IsAscending : List (Bytes × Bytes) → Type 0
IsAscending [] = Unit
IsAscending ((k, v) ∷ items) = All (λ e. bytes_lt k e.0 ≡ true) items × IsAscending items

-- `none` is an error; the state is then taken to be what it was, as for the in-memory store, and
-- for LevelDB, whose batches are atomic. `get` returns `some none` for `ErrNotFound`. `iterate
-- start limit` is all that an iterator over the range visits, from `First` by `Next`; by `Last`
-- and `Prev` it is visited in the opposite order.
pub record KvStore : Type 1 where
  pub State : Type 0
  pub get : Bytes → State → Option (Option Bytes)
  pub put : Bytes → Bytes → State → Option State
  pub delete : Bytes → State → Option State
  pub write : Batch → State → Option State
  pub iterate : Bytes → Bytes → State → Option (List (Bytes × Bytes))
  pub close : State → State
  pub IsValid : State → Type 0
  pub contents : State → Contents
  pub get_law : (k : Bytes) (st : State) {r : Option Bytes} → get k st ≡ some r → r ≡ contents st k
  pub put_law :
      (k v : Bytes) (st st' : State)
      → IsValid st
      → put k v st ≡ some st'
      → IsValid st' × ((j : Bytes) → contents st' j ≡ apply_op (contents st) (Op.put k v) j)
  pub delete_law :
      (k : Bytes) (st st' : State)
      → IsValid st
      → delete k st ≡ some st'
      → IsValid st' × ((j : Bytes) → contents st' j ≡ apply_op (contents st) (Op.del k) j)
  pub write_law :
      (b : Batch) (st st' : State)
      → IsValid st
      → write b st ≡ some st'
      → IsValid st' × ((j : Bytes) → contents st' j ≡ apply_batch (contents st) b j)
  pub iterate_law :
      (start limit : Bytes) (st : State) (items : List (Bytes × Bytes))
      → IsValid st
      → iterate start limit st ≡ some items
      → IsAscending items
        × ((k v : Bytes)
            → Mem (k, v) items ↔ ((contents st k ≡ some v) × (in_range start limit k ≡ true)))
