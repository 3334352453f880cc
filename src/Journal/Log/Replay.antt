-- ===== src/Journal/Log/Replay.antt =====
-- journal.go, `ReplayJournal`: the entries of one database put to work on another.
use levelgraph.Prelude.{ℕ, suc, Bool, Option, none, some, [], ◌∷◌, if◌then◌else◌}
use levelgraph.Prelude.Bytes.{codes, bytes_eq}
use levelgraph.Journal.Entry.{JournalEntry}
use levelgraph.Journal.Log.{entry_of_value, journal_end, start_after, refusal}
use levelgraph.Store.{KvStore}
use levelgraph.Db.State.{Db, Error, Result, ok, err, cancelled, store_error}
use levelgraph.Db.Read.{Items}
use levelgraph.Db.Write.{update, put, del}

module _ (T : KvStore) where
  unfoldable pub replay_entry :
      Bool → (ℕ → ℕ) → JournalEntry → Db T.State → Db T.State × Result (Unit {0})
  replay_entry done now e target =
      if bytes_eq e.operation (codes "put")
      then update T put done now (some e.entry_triple ∷ []) target
      else if bytes_eq e.operation (codes "del")
      then update T del done now (some e.entry_triple ∷ []) target
      else (target, ok tt)

  -- The loop; `done i` is whether the context is done when it is looked at for the `i`-th time,
  -- once by the loop and once by `Put` or `Del` for each entry.
  unfoldable pub replay_loop :
      (ℕ → Bool) → ℕ → (ℕ → ℕ) → Items → ℕ → Db T.State → Db T.State × ℕ × Option Error
  replay_loop done i now [] count target = (target, count, none)
  replay_loop done i now ((k, value) ∷ items) count target = elim (entry_of_value value) [
    | err x ↦ (target, count, if done i then some cancelled else some x)
    | ok e ↦
        let (target', r) = replay_entry (done (suc i)) now e target in
        let rest = replay_loop done (suc (suc i)) now items (suc count) target' in
        if done i
        then (target, count, some cancelled)
        else elim r [ err x ↦ (target', count, some x) | ok u ↦ rest ]
  ]

  -- The target is another database than the source.
  unfoldable pub replay_journal :
      (S : KvStore)
      → (ℕ → Bool)
      → (ℕ → ℕ)
      → Option ℕ
      → Db S.State
      → Db T.State
      → Db T.State × ℕ × Option Error
  replay_journal S done now after db target = elim (refusal (done 0) db) [
    | some e ↦ (target, 0, some e)
    | none ↦ elim (S.iterate (start_after after) journal_end db.store) [
      | none ↦ (target, 0, some store_error)
      | some items ↦ replay_loop done 1 now items 0 target
    ]
  ]
