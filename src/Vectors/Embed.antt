-- ===== src/Vectors/Embed.antt =====
-- vectors.go, `doAutoEmbedTriples`, and levelgraph.go, `Put` with an embedder that is not
-- asynchronous.
pub mod Laws
pub mod All
use levelgraph.Prelude.{
  ℕ, suc, ◌/◌, ◌%◌, Bool, true, false, not, ◌&&◌, ◌||◌, Option, none, some, List, [], ◌∷◌, ◌++◌,
  map, if◌then◌else◌, length, ◌==◌,
}
use levelgraph.Prelude.Bytes.{Bytes, slice_bytes, bytes_eq}
use levelgraph.Graph.Triple.{Triple}
use levelgraph.Store.{KvStore}
use levelgraph.Db.State.{Db}
use levelgraph.Db.State as State
use levelgraph.Db.Write.{update, put}
use levelgraph.Vector.Interface.{VectorIndex, Outcome}
use levelgraph.Vector.Id.{make_id, id_type_subject, id_type_predicate, id_type_object}
use levelgraph.Vectors.{Result, ok, err, cancelled, embed_error, VectorDb, Update, persist}

-- `AutoEmbedTargets`, a set of bits: 2 for subjects, 4 for predicates, 8 for objects.
abbrev pub auto_embed_subjects : ℕ → Bool
auto_embed_subjects targets = targets / 2 % 2 == 1

abbrev pub auto_embed_predicates : ℕ → Bool
auto_embed_predicates targets = targets / 4 % 2 == 1

abbrev pub auto_embed_objects : ℕ → Bool
auto_embed_objects targets = targets / 8 % 2 == 1

abbrev pub is_in : Bytes → List Bytes → Bool
is_in x [] = false
is_in x (y ∷ ys) = bytes_eq y x || is_in x ys

-- The keys of one of the three maps, which are its values too, after the loop over the triples.
unfoldable pub collect : (Triple → Bytes) → List Triple → List Bytes → List Bytes
collect part [] seen = seen
collect part (t ∷ ts) seen = collect part ts (if is_in (part t) seen then seen else part t ∷ seen)

-- The map is empty where its bit is not set.
abbrev pub collected : Bool → (Triple → Bytes) → List Triple → List Bytes
collected target part ts = if target then collect part ts [] else []

abbrev pub subject_of : Triple → Bytes
subject_of t = slice_bytes t.subject

abbrev pub predicate_of : Triple → Bytes
predicate_of t = slice_bytes t.predicate

abbrev pub object_of : Triple → Bytes
object_of t = slice_bytes t.object

-- `Embedder.EmbedBatch`; `none` is an error.
abbrev pub EmbedBatch : Type 0
EmbedBatch = List Bytes → Option (List (List ℕ))

module _ (S : KvStore) (I : VectorIndex ℕ) where
  abbrev pub has_vector : Outcome (List ℕ) → Bool
  has_vector (Outcome.ok v) = true
  has_vector (Outcome.err e) = false

  -- The texts without a vector, with their identifiers.
  unfoldable pub missing : I.State → Bytes → List Bytes → List (Bytes × Bytes)
  missing ix id_type [] = []
  missing ix id_type (x ∷ xs) =
      let id = make_id id_type (x ∷ []) in
      let rest = missing ix id_type xs in if has_vector (I.get id ix) then rest else (x, id) ∷ rest

  -- `visit` is the order in which Go visits a map.
  unfoldable pub to_embed :
      (List Bytes → List Bytes) → ℕ → List Triple → I.State → List (Bytes × Bytes)
  to_embed visit targets ts ix =
      missing ix id_type_subject (visit (collected (auto_embed_subjects targets) subject_of ts))
      ++ (missing ix id_type_predicate
            (visit (collected (auto_embed_predicates targets) predicate_of ts))
          ++ missing ix id_type_object
              (visit (collected (auto_embed_objects targets) object_of ts)))

  -- The loop that stores the vectors; `none` is a panic, at an embedding that the embedder did not
  -- return.
  unfoldable pub embed_loop :
      (ℕ → Bool) → ℕ → List Bytes → List (List ℕ) → VectorDb S I → I.State → Option (Update S I)
  embed_loop done n [] embeddings d ix = some (record d { index = some ix }, ok tt)
  embed_loop done n (id ∷ ids) embeddings d ix =
      if done n then some (record d { index = some ix }, err cancelled) else elim embeddings [
        | [] ↦ none
        | v ∷ rest ↦ elim (persist S I id v d ix).1 [
          | err e ↦ some ((persist S I id v d ix).0, err e)
          | ok stored ↦ elim (persist S I id v d ix).0.index [
            | none ↦ none
            | some ix' ↦ embed_loop done (suc n) ids rest (persist S I id v d ix).0 ix'
          ]
        ]
      ]

  unfoldable pub do_auto_embed_triples :
      EmbedBatch
      → (List Bytes → List Bytes)
      → ℕ
      → (ℕ → Bool)
      → List Triple
      → VectorDb S I
      → I.State
      → Option (Update S I)
  do_auto_embed_triples embed_batch visit targets done ts d ix =
      let items = to_embed visit targets ts ix in
      if length items == 0 then some (d, ok tt) else elim (embed_batch (map (λ x. x.0) items)) [
        | none ↦ some (d, err embed_error)
        | some embeddings ↦ embed_loop done 0 (map (λ x. x.1) items) embeddings d ix
      ]

  abbrev pub present_triples : List (Option Triple) → List Triple
  present_triples [] = []
  present_triples (none ∷ ts) = present_triples ts
  present_triples (some t ∷ ts) = t ∷ present_triples ts

  -- What follows the write in `Put`: an error of the embedding is logged only.
  abbrev pub embed_after :
      Option EmbedBatch
      → (List Bytes → List Bytes)
      → ℕ
      → (ℕ → Bool)
      → List (Option Triple)
      → VectorDb S I
      → Option (VectorDb S I)
  embed_after none visit targets later ts d = some d
  embed_after (some embed_batch) visit targets later ts d =
      if targets == 0 then some d else elim d.index [
        | none ↦ some d
        | some ix ↦
            elim (do_auto_embed_triples embed_batch visit targets later (present_triples ts) d ix) [
              | none ↦ none
              | some (d', r) ↦ some d'
            ]
      ]

  unfoldable pub put_and_embed :
      Option EmbedBatch
      → (List Bytes → List Bytes)
      → ℕ
      → Bool
      → (ℕ → ℕ)
      → (ℕ → Bool)
      → List (Option Triple)
      → VectorDb S I
      → Option (VectorDb S I × State.Result (Unit {0}))
  put_and_embed embedder visit targets done now later ts d =
      let d0 : VectorDb S I = record d { db = (update S put done now ts d.db).0 } in
      elim (update S put done now ts d.db).1 [
        | State.Result.err e ↦ some (d0, State.Result.err e)
        | State.Result.ok written ↦ elim (embed_after embedder visit targets later ts d0) [
          | none ↦ none
          | some d' ↦ some (d', State.Result.ok tt)
        ]
      ]
