-- ===== src/Tests/Values.antt =====
-- Triples, journal entries, and binding.
use levelgraph.Prelude.{◌≡◌, refl, true, none, some, [], ◌∷◌, ◌++◌, arith}
use levelgraph.Prelude.Bytes.{codes, bytes_eq}
use levelgraph.Prelude.Assoc.{lookup, insert}
use levelgraph.Graph.Triple.{triple}
use levelgraph.Graph.Varint.{ok, put_uvarint, put_uvarint_loop}
use levelgraph.Graph.Codec.{marshal, unmarshal, unmarshal-marshal, write_slice}
use levelgraph.Graph.Solution.{Solution, Extends, Extends-refl, bind_in_place, bytes_of}
use levelgraph.Graph.Pattern.{
  bind_triple, bind_triple_fast, bind_field_fast, matches, update_with_solution,
}
use levelgraph.Graph.Pattern.Bind.{
  Satisfies, bind_triple_fast_sound, bind_triple_fast_complete, matches-update,
}
use levelgraph.Graph.Pattern.Clone.{contents_of, bind_triple_fast-bind_triple}
use levelgraph.Journal.Entry.{
  JournalEntry, marshal_entry, unmarshal_entry, read_back, unmarshal_entry-marshal,
}
use levelgraph.Tests.Data.{bob, friends, bound_bob}

marshal-bob :
    marshal (triple bob) ≡ (5 ∷ codes "alice") ++ ((5 ∷ codes "knows") ++ (3 ∷ codes "bob"))
unfolding marshal write_slice put_uvarint put_uvarint_loop
marshal-bob = refl

unmarshal-marshal_example : unmarshal (marshal (triple bob) ++ (7 ∷ [])) ≡ ok (triple bob)
unmarshal-marshal_example = unmarshal-marshal (triple bob) (7 ∷ []) (omega arith)

abbrev put_bob : JournalEntry
put_bob = record { operation = codes "put"; entry_triple = triple bob; timestamp = 1700000000 }

unmarshal_entry-marshal_example : unmarshal_entry (marshal_entry put_bob) ≡ ok (read_back put_bob)
unmarshal_entry-marshal_example = unmarshal_entry-marshal put_bob (omega arith) (omega arith)

bind_bob : bind_triple_fast friends (some []) (triple bob) ≡ some bound_bob
unfolding bind_triple_fast bind_field_fast bind_in_place lookup insert bytes_eq
    levelgraph.Graph.Solution.shallow_clone
bind_bob = refl

bind_triple_fast_sound_example : Extends [] bound_bob × Satisfies friends (triple bob) bound_bob
bind_triple_fast_sound_example = bind_triple_fast_sound friends (triple bob) [] bound_bob bind_bob

bind_triple_fast_complete_example :
    (s : Solution) × (bind_triple_fast friends (some bound_bob) (triple bob) ≡ some s)
    × Extends s bound_bob
bind_triple_fast_complete_example =
    bind_triple_fast_complete friends (triple bob) bound_bob bound_bob (Extends-refl bound_bob)
      (bind_triple_fast_sound friends (triple bob) [] bound_bob bind_bob).1

matches-update_example : matches (update_with_solution friends bound_bob) (triple bob) ≡ true
matches-update_example =
    matches-update friends (triple bob) bound_bob bound_bob (Extends-refl bound_bob)
      (bind_triple_fast_sound friends (triple bob) [] bound_bob bind_bob).1

bind_triple_fast-bind_triple_example :
    contents_of (bind_triple_fast friends none (triple bob))
    ≡ contents_of (bind_triple friends none (triple bob))
bind_triple_fast-bind_triple_example =
    bind_triple_fast-bind_triple friends none (triple bob)
      (record { subject = tt; predicate = tt; object = tt })
