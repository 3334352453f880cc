-- ===== src/Db/Write.antt =====
-- levelgraph.go, `Put`, `Del` and `Close`, for a database with no embedder.
use levelgraph.Prelude.{
  ℕ, suc, ◌%◌, ◌^◌, Bool, true, not, Option, none, some, List, [], ◌∷◌, ◌++◌, map, if◌then◌else◌,
}
use levelgraph.Prelude.Bytes.{Bytes, codes}
use levelgraph.Graph.Triple.{Triple}
use levelgraph.Graph.Codec.{marshal}
use levelgraph.Index.Key.{gen_keys}
use levelgraph.Store.{Op, Batch, KvStore}
use levelgraph.Journal.Entry.{marshal_entry, gen_journal_key}
use levelgraph.Db.State.{
  Db, Options, Result, ok, err, err_closed, cancelled, err_invalid_triple, store_error,
  validate_triple,
}

pub record BatchOp : Type 0 where
  pub kind : Bytes
  pub key : Bytes
  pub value : Bytes

unfoldable pub generate_batch_ops : Triple → Bytes → List BatchOp
generate_batch_ops t action =
    map (λ k. record { kind = action; key = k; value = marshal t }) (gen_keys t)

abbrev pub put_all : List BatchOp → Batch
put_all = map (λ op. Op.put op.key op.value)

abbrev pub del_all : List BatchOp → Batch
del_all = map (λ op. Op.del op.key)

-- The two operations, as the journal names them.
pub data Action : Type 0 where
  put del : Action

abbrev pub action_code : Action → Bytes
action_code put = codes "put"
action_code del = codes "del"

-- The records that one triple adds to the batch for the indexes.
unfoldable pub index_ops : Action → Triple → Batch
index_ops put t = put_all (generate_batch_ops t (codes "put"))
index_ops del t = del_all (generate_batch_ops t (codes "del"))

-- `recordJournalEntry` with the journal on. `now n` is the time when the counter becomes `n`.
unfoldable pub journal_op : (ℕ → ℕ) → ℕ → Action → Triple → Op
journal_op now counter action t = Op.put (gen_journal_key (now counter) counter) (
    marshal_entry
      (record { operation = action_code action; entry_triple = t; timestamp = now counter }))

-- The counter after one more `atomic.AddUint64`.
abbrev pub next_counter : ℕ → ℕ
next_counter n = suc n % 2 ^ 64

-- What one triple adds to the batch, and the counter after it.
unfoldable pub triple_ops : Options → (ℕ → ℕ) → Action → ℕ → Triple → Batch × ℕ
triple_ops o now action n t =
    if o.journal_enabled
    then (index_ops action t ++ journal_op now (next_counter n) action t ∷ [], next_counter n)
    else (index_ops action t, n)

abbrev pub prepend : Batch → Result Batch × ℕ → Result Batch × ℕ
prepend ops (ok batch, n) = (ok (ops ++ batch), n)
prepend ops (err e, n) = (err e, n)

-- The loop of `Put` and of `Del` over the triples. The counter has moved even where it stops.
unfoldable pub batch_loop : Options → (ℕ → ℕ) → Action → ℕ → List (Option Triple) → Result Batch × ℕ
batch_loop o now action n [] = (ok [], n)
batch_loop o now action n (none ∷ ts) = (err err_invalid_triple, n)
batch_loop o now action n (some t ∷ ts) =
    let (ops, n') = triple_ops o now action n t in
    let rest = prepend ops (batch_loop o now action n' ts) in
    if validate_triple (some t) then rest else (err err_invalid_triple, n)

module _ (S : KvStore) where
  -- What follows the checks: the batch is written if the loop gave one.
  unfoldable pub write_batch : Db S.State → Result Batch × ℕ → Db S.State × Result (Unit {0})
  write_batch db (err e, n) = (record db { journal_counter = n }, err e)
  write_batch db (ok batch, n) = elim (S.write batch db.store) [
    | none ↦ (record db { journal_counter = n }, err store_error)
    | some st ↦ (record db { store = st; journal_counter = n }, ok tt)
  ]

  -- `Put` and `Del`: `done` is whether the context is done when it is looked at.
  unfoldable pub update :
      Action → Bool → (ℕ → ℕ) → List (Option Triple) → Db S.State → Db S.State × Result (Unit {0})
  update action done now ts db =
      if db.closed
      then (db, err err_closed)
      else if done
      then (db, err cancelled)
      else write_batch db (batch_loop db.options now action db.journal_counter ts)

  unfoldable pub put_triples :
      Bool → (ℕ → ℕ) → List (Option Triple) → Db S.State → Db S.State × Result (Unit {0})
  unfolding update
  put_triples = update put

  unfoldable pub del_triples :
      Bool → (ℕ → ℕ) → List (Option Triple) → Db S.State → Db S.State × Result (Unit {0})
  unfolding update
  del_triples = update del

  unfoldable pub close : Db S.State → Db S.State
  close db = if db.closed then db else record db { store = S.close db.store; closed = true }

  unfoldable pub is_open : Db S.State → Bool
  is_open db = not db.closed
