-- ===== src/Journal/Log.antt =====
-- journal.go: reading, counting, trimming, exporting and replaying the journal. A time is `none`
-- for the zero time where the code asks `IsZero`.
pub mod Trim
pub mod Replay
use levelgraph.Prelude.{
  ℕ, zero, suc, Bool, true, false, Option, none, some, List, [], ◌∷◌, ◌++◌, if◌then◌else◌, length,
  ltb,
}
use levelgraph.Prelude.Bytes.{Bytes, codes, bytes_eq}
use levelgraph.Graph.Varint.{Read}
use levelgraph.Journal.Entry.{JournalEntry, journal_prefix, put_uint64, unmarshal_entry}
use levelgraph.Store.{Op, Batch, KvStore}
use levelgraph.Store.Sweep.{delete_each}
use levelgraph.Db.State.{
  Db, Error, Result, ok, err, ◌>>=◌, err_closed, cancelled, store_error, parse_error,
}
use levelgraph.Db.Read.{Items}
use levelgraph.Db.Write.{update, put, del}

abbrev pub eight_ff : Bytes
eight_ff = 255 ∷ 255 ∷ 255 ∷ 255 ∷ 255 ∷ 255 ∷ 255 ∷ 255 ∷ []

-- The upper bound of all journal keys, and of those before a time.
abbrev pub journal_end : Bytes
journal_end = journal_prefix ++ (eight_ff ++ eight_ff)

abbrev pub time_key : ℕ → Bytes
time_key nsec = journal_prefix ++ put_uint64 nsec

abbrev pub end_before : Option ℕ → Bytes
end_before none = journal_end
end_before (some nsec) = time_key nsec

abbrev pub start_after : Option ℕ → Bytes
start_after none = journal_prefix
start_after (some nsec) = time_key nsec

-- `Entry`, of a value.
abbrev pub entry_of_value : Bytes → Result JournalEntry
entry_of_value value = elim (unmarshal_entry value) [
  | Read.ok e ↦ ok e
  | Read.err x ↦ err (parse_error x)
]

unfoldable pub read_entries : Items → Result (List JournalEntry)
read_entries [] = ok []
read_entries ((k, value) ∷ items) = do
  e ← entry_of_value value
  rest ← read_entries items
  ok (e ∷ rest)

-- The batch that `TrimAndExport` writes to the target.
unfoldable pub export_each : Items → Batch
export_each [] = []
export_each ((k, value) ∷ items) = Op.put k value ∷ export_each items

-- The checks that every operation starts with.
abbrev pub refusal : {State : Type 0} → Bool → Db State → Option Error
refusal done db = if db.closed then some err_closed else if done then some cancelled else none

module _ (S : KvStore) where
  unfoldable pub get_journal_iterator : Bool → Option ℕ → Db S.State → Result Items
  get_journal_iterator done before db = elim (refusal done db) [
    | some e ↦ err e
    | none ↦ elim (S.iterate journal_prefix (end_before before) db.store) [
      | none ↦ err store_error
      | some items ↦ ok items
    ]
  ]

  unfoldable pub get_journal_entries : Bool → Option ℕ → Db S.State → Result (List JournalEntry)
  get_journal_entries done before db = do
    items ← get_journal_iterator done before db
    read_entries items

  unfoldable pub journal_count : Bool → Option ℕ → Db S.State → Result ℕ
  journal_count done before db = do items ← get_journal_iterator done before db; ok (length items)

  -- The end of `Trim`: nothing is written where nothing was visited.
  abbrev pub trim_visited : Db S.State → Option Items → Db S.State × Result ℕ
  trim_visited db none = (db, err store_error)
  trim_visited db (some []) = (db, ok 0)
  trim_visited db (some (item ∷ items)) = elim (S.write (delete_each (item ∷ items)) db.store) [
    | none ↦ (db, err store_error)
    | some st ↦ (record db { store = st }, ok (length (item ∷ items)))
  ]

  unfoldable pub trim : Bool → ℕ → Db S.State → Db S.State × Result ℕ
  trim done before db = elim (refusal done db) [
    | some e ↦ (db, err e)
    | none ↦
        if db.options.journal_enabled
        then trim_visited db (S.iterate journal_prefix (time_key before) db.store)
        else (db, ok 0)
  ]

module _ (S T : KvStore) where
  -- The end of `TrimAndExport`, to a target other than the database: the target is written first.
  abbrev pub export_visited :
      Db S.State → Db T.State → Option Items → Db S.State × Db T.State × Result ℕ
  export_visited db target none = (db, target, err store_error)
  export_visited db target (some []) = (db, target, ok 0)
  export_visited db target (some (item ∷ items)) =
      elim (T.write (export_each (item ∷ items)) target.store) [
        | none ↦ (db, target, err store_error)
        | some exported ↦ elim (S.write (delete_each (item ∷ items)) db.store) [
          | none ↦ (db, record target { store = exported }, err store_error)
          | some st ↦ (
            record db { store = st },
            record target { store = exported },
            ok (length (item ∷ items)),
          )
        ]
      ]

  unfoldable pub trim_and_export :
      Bool → ℕ → Db S.State → Db T.State → Db S.State × Db T.State × Result ℕ
  trim_and_export done before db target = elim (refusal done db) [
    | some e ↦ (db, target, err e)
    | none ↦
        if db.options.journal_enabled
        then export_visited db target (S.iterate journal_prefix (time_key before) db.store)
        else (db, target, ok 0)
  ]
