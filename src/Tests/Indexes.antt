-- ===== src/Tests/Indexes.antt =====
-- The identifiers of vectors, the flat index and the cursor of the in-memory store.
use levelgraph.Prelude.{
  ℕ, ◌≤◌, ◌<◌, ◌≡◌, refl, false, some, List, [], ◌∷◌, ◌++◌, arith, length, map,
}
use levelgraph.Prelude.Int.{pos}
use levelgraph.Prelude.Bytes.{Bytes, codes, bytes_lt}
use mathlib.Core.List.{reverse, Permᴰ as Perm}
use mathlib.Core.List.Permᴰ as Shuffle
use levelgraph.Store.{IsAscending}
use levelgraph.MemStore.Cursor.{fresh, first, last, next, prev, seek}
use levelgraph.MemStore.Cursor.Walk.{walk, walk_lem, seek_lem, drop_below}
use levelgraph.Vector.Bits.{bytes_to_vector, vector_to_bytes, bytes_to_vector-vector_to_bytes}
use levelgraph.Vector.Interface.{ok}
use levelgraph.Vector.Id.{
  make_id, append_parts, append_varint, append_varint_loop, parse_id, id_type_triple,
}
use levelgraph.Vector.Id.Parse.{parse_id-make_id}
use levelgraph.Vector.Flat.{Entry, FlatIndex, match_of, search}
use levelgraph.Vector.Flat.Heap.{entry_of, IsNearestFirst, IsBefore}
use levelgraph.Vector.Flat.Search.{search_nearest}
use levelgraph.Tests.Ordered.{sorted_heap}
use levelgraph.Tests.Floats.{numbers, numbers_ordered, sorted_list, no_vectors}

abbrev parts3 : List Bytes
parts3 = codes "a:b" ∷ [] ∷ codes "c" ∷ []

parse_id-make_id_example : parse_id (make_id id_type_triple parts3) ≡ some (id_type_triple, parts3)
unfolding make_id append_parts append_varint append_varint_loop
parse_id-make_id_example =
    parse_id-make_id id_type_triple parts3 (refl, (refl, (refl, (refl, (refl, (refl, tt))))))
      (omega arith) (omega arith)

bytes_to_vector-vector_to_bytes_example :
    bytes_to_vector (vector_to_bytes (1065353216 ∷ 7 ∷ [])) ≡ some (1065353216 ∷ 7 ∷ [])
bytes_to_vector-vector_to_bytes_example =
    bytes_to_vector-vector_to_bytes (1065353216 ∷ 7 ∷ []) (omega arith)

abbrev items2 : List (Bytes × Bytes)
items2 = (codes "a", codes "1") ∷ (codes "b", codes "2") ∷ []

walk_lem_example :
    (walk next (length items2) (first (fresh items2)) ≡ some items2)
    × (walk next (length items2) (next (fresh items2)) ≡ some items2)
    × (walk prev (length items2) (last (fresh items2)) ≡ some (reverse items2))
walk_lem_example = walk_lem items2

items2-IsAscending : IsAscending items2
unfolding bytes_lt
items2-IsAscending = ((refl, tt), (tt, tt))

seek_lem_example :
    walk next
      (length items2)
      (seek (codes "aa") (record { items = items2; at = pos 1; failed = false }))
    ≡ some (drop_below (codes "aa") items2)
seek_lem_example = seek_lem items2 (codes "aa") (pos 1) items2-IsAscending

abbrev two_vectors : FlatIndex numbers
two_vectors = record no_vectors { vectors = (codes "x", 5 ∷ []) ∷ (codes "y", 9 ∷ []) ∷ [] }

search_nearest_example :
    (near far : List (Entry ℕ)) × (search numbers sorted_list two_vectors.vectors
        (8 ∷ [])
        (pos 1)
        two_vectors
      ≡ some (ok (map (match_of numbers) near)))
    × Perm
        (near ++ far)
        (map (entry_of numbers (two_vectors.distance (8 ∷ []))) two_vectors.vectors)
    × IsNearestFirst numbers near
    × IsBefore numbers near far
    × (length near ≤ 1)
    × (length near < 1 → far ≡ [])
search_nearest_example =
    search_nearest numbers numbers_ordered sorted_heap two_vectors two_vectors.vectors (8 ∷ [])
      (pos 1) (omega arith) refl (Shuffle.refl two_vectors.vectors) (tt, (tt, tt))
