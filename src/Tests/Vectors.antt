-- ===== src/Tests/Vectors.antt =====
-- The database with a flat index over the in-memory store.
use levelgraph.Prelude.{
  ℕ, suc, subst, ap, ◌++◌, ◌≡◌, ◌≢◌, refl, false, none, some, List, [], ◌∷◌, arith, take, length,
  All, Option,
}
use levelgraph.Prelude.Int.{pos}
use levelgraph.Prelude.Bytes.{Bytes, codes, bytes_eq, bytes_lt}
use levelgraph.Prelude.Assoc.{lookup, insert}
use levelgraph.Graph.Triple.{triple}
use levelgraph.MemStore.{new_iterator, in_slice, keys_in, sort_in, sort_strings}
use levelgraph.MemStore.{put as put_entry}
use levelgraph.MemStore.Laws.{mem_store, iterate}
use levelgraph.Db.Write.{put, update}
use levelgraph.Vector.Id.{id_type_object}
use levelgraph.Vectors.{
  VectorDb, Update, persist, ok, err, store_error, set_vector, make_vector_key, vector_prefix,
}
use levelgraph.Vectors.Search.{
  VectorMatch, search_vectors, search_similar, search_similar_lem, twice, parse_matches, of_type,
}
use levelgraph.Vectors.Load.{vector_limit, load_vectors}
use levelgraph.Vectors.Load.Restore.{load_vectors-restores}
use levelgraph.Vectors.Embed.{EmbedBatch, do_auto_embed_triples}
use levelgraph.Vectors.Embed.All.{IsEmbedder, Covers, do_auto_embed_lem}
use levelgraph.Vector.Bits.{AreBits, vector_to_bytes}
use levelgraph.Vector.Id.{
  parse_id, find_colon, parse_rest, parse_length_prefixed, parse_loop, read_varint,
  read_varint_loop,
}
use levelgraph.Vector.Distance.{normalize_score, euclidean, euclidean_loop}
use levelgraph.Vector.Flat.{FlatIndex, add, search, visit_loop, drain, less}
use levelgraph.Tests.Floats.{numbers}
use levelgraph.Vectors.Mirror.{Mirrors, IsMirrored, Keeps}
use levelgraph.Vectors.History.{Step, Reaches, with_db, Reaches-IsMirrored}
use levelgraph.Vectors.Embed.{put_and_embed}
use levelgraph.Db.State as State
use levelgraph.Db.Turns.{triples}
use levelgraph.Tests.Data.{bob, fresh}
use levelgraph.Tests.Stores.{fresh-IsSound, clock, both, both-IsStorable}
use levelgraph.Tests.Floats.{flat, no_vectors}

abbrev empty : VectorDb mem_store flat
empty = record { db = fresh; index = some no_vectors }

empty-IsMirrored : IsMirrored mem_store flat empty
unfolding lookup
empty-IsMirrored = record {
  valid = fresh-IsSound.valid;
  indexed = fresh-IsSound.indexed;
  same = λ id. refl;
  bits = λ id v e. cc;
  sized = λ id v e. cc;
}

abbrev with_vector : VectorDb mem_store flat
with_vector = (set_vector mem_store flat false (codes "x") (5 ∷ []) empty).0

set_ok : (set_vector mem_store flat false (codes "x") (5 ∷ []) empty).1 ≡ ok tt
unfolding set_vector persist add put_entry
set_ok = refl

set_no_error : (set_vector mem_store flat false (codes "x") (5 ∷ []) empty).1 ≢ err store_error
set_no_error h = let e = set_ok in cc

one_step : Reaches mem_store flat empty with_vector
one_step =
    Reaches.then _ _ _ (Reaches.here _)
      (Step.set false (codes "x") (5 ∷ []) empty (omega arith) set_no_error)

-- `Put` of a database with no embedder.
put_plain :
    (d : VectorDb mem_store flat)
    → put_and_embed mem_store flat none (λ l. l) 2 false clock (λ n. false) (triples both) d
      ≡ some (
        with_db mem_store flat put false clock both d,
        (update mem_store put false clock (triples both) d.db).1,
      )
unfolding put_and_embed
put_plain d = go (update mem_store put false clock (triples both) d.db).1
  where
    written : VectorDb mem_store flat
    written = with_db mem_store flat put false clock both d

    go :
        (res : State.Result (Unit {0}))
        → elim res as (λ x. Option (VectorDb mem_store flat × State.Result (Unit {0}))) [
          | State.Result.err e ↦ some (written, State.Result.err e)
          | State.Result.ok w ↦ some (written, State.Result.ok tt)
        ]
          ≡ some (written, res)
    go (State.Result.err e) = refl
    go (State.Result.ok w) = refl

reached : Reaches mem_store flat empty (with_db mem_store flat put false clock both with_vector)
reached = Reaches.then _ _ _ one_step (
    Step.put_triples none (λ l. l) 2 false clock (λ n. false) both with_vector _ _ both-IsStorable
      (λ e h. cc) (λ ys y h. h) (λ e ix u h. cc) (put_plain with_vector))

Reaches-IsMirrored_example :
    IsMirrored mem_store flat (with_db mem_store flat put false clock both with_vector)
Reaches-IsMirrored_example = Reaches-IsMirrored mem_store flat _ _ reached empty-IsMirrored

abbrev loaded_index : FlatIndex numbers
loaded_index = record no_vectors { vectors = (codes "x", 5 ∷ []) ∷ [] }

-- The database of a process that has just opened the store: its index is empty.
abbrev reopened : VectorDb mem_store flat
reopened = record with_vector { index = some no_vectors }

with_vector-Mirrors : Mirrors mem_store flat reopened.db.store loaded_index
unfolding set_vector persist add put_entry insert
with_vector-Mirrors = Reaches-IsMirrored mem_store flat _ _ one_step empty-IsMirrored

abbrev vector_items : List (Bytes × Bytes)
vector_items = (make_vector_key (codes "x"), vector_to_bytes (5 ∷ [])) ∷ []

read_items : iterate vector_prefix vector_limit reopened.db.store ≡ some vector_items
unfolding set_vector persist add put_entry insert new_iterator in_slice keys_in sort_in sort_strings
    lookup bytes_eq bytes_lt make_vector_key vector_to_bytes
read_items = refl

no_vectors_empty : (j : Bytes) → lookup j no_vectors.vectors ≡ none
unfolding lookup
no_vectors_empty j = refl

load_vectors-restores_example :
    (ix' : FlatIndex numbers) × (load_vectors mem_store flat false (λ n. false) reopened
      ≡ (record reopened { index = some ix' }, ok tt))
    × Mirrors mem_store flat reopened.db.store ix'
    × ((j : Bytes) → lookup j ix'.vectors ≡ lookup j loaded_index.vectors)
unfolding set_vector persist add put_entry
load_vectors-restores_example =
    load_vectors-restores mem_store flat reopened loaded_index no_vectors vector_items
      with_vector-Mirrors refl refl refl no_vectors_empty read_items

abbrev five_each : List Bytes → List (List ℕ)
five_each [] = []
five_each (t ∷ texts) = (5 ∷ []) ∷ five_each texts

abbrev embed_fives : EmbedBatch
embed_fives texts = some (five_each texts)

fives :
    (texts : List Bytes) → (length (five_each texts) ≡ length texts) × All AreBits (five_each texts)
fives [] = (refl, tt)
fives (t ∷ texts) = let (size, bits) = fives texts in (ap suc size, (omega arith, bits))

embed_fives-IsEmbedder : IsEmbedder embed_fives
embed_fives-IsEmbedder texts embeddings h =
    subst (λ l. (length l ≡ length texts) × All AreBits l) (same h) (fives texts)
  where
    same : some (five_each texts) ≡ some embeddings → five_each texts ≡ embeddings
    same e = cc

do_auto_embed_lem_example :
    (r : Update mem_store flat) × (do_auto_embed_triples mem_store flat embed_fives
        (λ xs. xs)
        8
        (λ n. false)
        (triple bob ∷ [])
        empty
        no_vectors
      ≡ some r)
    × (r.1 ≢ err store_error → Keeps mem_store flat empty r)
    × (r.1 ≡ ok tt → Covers mem_store flat 8 (triple bob ∷ []) no_vectors r.0)
do_auto_embed_lem_example =
    do_auto_embed_lem mem_store flat embed_fives (λ xs. xs) 8 (λ n. false) (triple bob ∷ []) empty
      no_vectors embed_fives-IsEmbedder (λ xs x h. h) refl empty-IsMirrored

-- "object:", the length of the part, and the part.
abbrev object_id : Bytes → Bytes
object_id x = codes "object:" ++ length x ∷ x

abbrev subject_id : Bytes → Bytes
subject_id x = codes "subject:" ++ length x ∷ x

abbrev with_two : VectorDb mem_store flat
with_two = record empty {
  index = some (record no_vectors {
    vectors = (subject_id (codes "x"), 8 ∷ []) ∷ (object_id (codes "y"), 9 ∷ []) ∷ [];
  });
}

abbrev two_results : List VectorMatch
two_results =
    record {
      id = subject_id (codes "x");
      score = 1;
      distance = 0;
      id_type = codes "subject";
      parts = codes "x" ∷ [];
    }
    ∷ record {
      id = object_id (codes "y");
      score = 1;
      distance = 0;
      id_type = codes "object";
      parts = codes "y" ∷ [];
    }
    ∷ []

search_two :
    search_vectors mem_store flat false (8 ∷ []) (twice (pos 1)) with_two ≡ some (ok two_results)
unfolding search_vectors search visit_loop drain normalize_score euclidean euclidean_loop
    parse_matches parse_id find_colon parse_rest parse_length_prefixed parse_loop read_varint
    read_varint_loop twice less
search_two = refl

search_similar_lem_example :
    search_similar mem_store flat id_type_object false (8 ∷ []) (pos 1) with_two
    ≡ some (ok (take 1 (of_type id_type_object two_results)))
search_similar_lem_example =
    search_similar_lem mem_store flat id_type_object false (8 ∷ []) 1 with_two two_results
      (omega arith) search_two
