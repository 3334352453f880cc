-- ===== src/Tests/Queries.antt =====
-- Queries of a database that holds two triples.
use levelgraph.Prelude.Bytes.{Bytes, bytes_eq, bytes_lt}
use levelgraph.Prelude.Assoc.{lookup, insert}
use levelgraph.Graph.Codec.{marshal, write_slice}
use levelgraph.Graph.Varint.{put_uvarint, put_uvarint_loop}
use levelgraph.Index.Escape.{escape, escape_count, escape_loop}
use levelgraph.Index.Name.{spo, find_index}
use levelgraph.Journal.Entry.{gen_journal_key, put_uint64, marshal_entry}
use levelgraph.Db.Write.{
  update, write_batch, batch_loop, triple_ops, index_ops, generate_batch_ops, journal_op,
}
use levelgraph.Prelude.{◌≡◌, refl, ◌↔◌, true, false, none, some, List, [], ◌∷◌, arith, Mem}
use levelgraph.Prelude.Int.{pos, pos_part}
use levelgraph.Graph.Triple.{get as triple_get}
use levelgraph.Graph.Triple.{Triple, Spo, triple}
use levelgraph.Graph.Pattern.{concrete_fields, get_concrete_value}
use levelgraph.Index.Key.{
  gen_key, gen_keys, key_loop, has_all_fields, concrete_count, gen_key_from_pattern,
  gen_key_with_upper_bound,
}
use levelgraph.Index.Query.{query_index}
use levelgraph.MemStore.{
  write, replay, replay_op, new_iterator, in_slice, keys_in, sort_in, sort_strings,
}
use levelgraph.MemStore.Laws.{mem_store, iterate}
use levelgraph.Db.State.{ok, validate_triple}
use levelgraph.Db.Read.{Items, effective_limit, get, get_unlocked}
use levelgraph.Db.Window.{
  get_unlocked_window, limited, parse_all, wanted, skip, visited, query_limit,
}
use levelgraph.Db.Query.{get_exact}
use levelgraph.Db.Entries.{selected}
use levelgraph.Db.Values.{accepts}
use levelgraph.Db.Refine.{holds}
use levelgraph.Tests.Data.{bob, bobby, exactly_bob}
use levelgraph.Tests.Stores.{filled, filled_refines, filled_open}

abbrev entry : Spo → Bytes × Bytes
entry x = (gen_key spo (triple x), marshal (triple x))

abbrev read_items : Items
read_items = entry bob ∷ entry bobby ∷ []

-- The range of a query for the triple (alice, knows, bob) holds (alice, knows, bobby) too.
range_read :
    iterate
      (gen_key_from_pattern (query_index exactly_bob) exactly_bob)
      (gen_key_with_upper_bound (query_index exactly_bob) exactly_bob)
      filled.store
    ≡ some read_items
unfolding update write_batch batch_loop triple_ops index_ops generate_batch_ops journal_op gen_keys
    gen_key key_loop triple_get escape escape_count escape_loop has_all_fields marshal write_slice
    put_uvarint put_uvarint_loop gen_journal_key put_uint64 marshal_entry validate_triple write
    replay replay_op insert bytes_eq lookup new_iterator in_slice keys_in sort_in sort_strings
    bytes_lt find_index concrete_fields gen_key_from_pattern gen_key_with_upper_bound concrete_count
    get_concrete_value
range_read = refl

get_unlocked_window_example :
    get_unlocked mem_store filled exactly_bob
    ≡ some (
        parse_all (
          limited
            (query_limit mem_store filled exactly_bob read_items)
            (skip none 0 (wanted none (visited mem_store filled exactly_bob read_items)))))
get_unlocked_window_example = get_unlocked_window mem_store filled exactly_bob read_items range_read

limit_zero : pos_part (effective_limit (pos 0) filled.options.default_limit) ≡ 0
unfolding update write_batch
limit_zero = ground arith

get_exact_example :
    (ts : List Triple) × (get mem_store false filled exactly_bob ≡ some (ok ts))
    × ((t : Triple)
        → Mem t ts ↔ (
            (x : Spo) × (t ≡ triple x)
            × (holds mem_store filled x ≡ true)
            × (selected exactly_bob x ≡ true)
            × (accepts none t ≡ true)))
get_exact_example =
    get_exact mem_store filled exactly_bob read_items filled_refines.0 range_read filled_open refl
      limit_zero
