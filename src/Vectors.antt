-- ===== src/Vectors.antt =====
-- vectors.go: the vectors of a database, in its index and under keys of its store. A float32 is its
-- 32 bits.
pub mod Search
pub mod Load
pub mod Embed
pub mod Mirror
pub mod History
pub mod Filter
use levelgraph.Prelude.{
  ℕ, Bool, true, false, Option, none, some, List, [], ◌∷◌, ◌++◌, if◌then◌else◌,
}
use levelgraph.Prelude.Int.{ℤ, pos}
use levelgraph.Prelude.Bytes.{Bytes, codes, slice_bytes}
use levelgraph.Graph.Triple.{Triple}
use levelgraph.Store.{KvStore}
use levelgraph.Db.State.{Db}
use levelgraph.Vector.Interface.{VectorIndex, VectorError, Outcome}
use levelgraph.Vector.Bits.{vector_to_bytes}
use levelgraph.Vector.Id.{make_id, id_type_subject, id_type_object, id_type_triple}

pub data Error : Type 0 where
  closed vectors_disabled embedder_required cancelled store_error dimension_error embed_error :
      Error
  index_error : VectorError → Error

pub data Result {ℓ} (A : Type ℓ) : Type ℓ where
  ok : A → Result A
  err : Error → Result A

abbrev pub vector_prefix : Bytes
vector_prefix = codes "vector::"

unfoldable pub make_vector_key : Bytes → Bytes
make_vector_key id = vector_prefix ++ id

module _ (S : KvStore) (I : VectorIndex ℕ) where
  -- A database with `options.VectorIndex`, which may be nil.
  pub record VectorDb : Type 0 where
    pub db : Db S.State
    pub index : Option I.State

  abbrev pub Update : Type 0
  Update = VectorDb × Result (Unit {0})

  abbrev pub with_both : VectorDb → S.State → I.State → VectorDb
  with_both d st ix = record { db = record d.db { store = st }; index = some ix }

  -- What the operations check first: the error, or the index.
  abbrev pub checked : Bool → VectorDb → Result I.State
  checked done d = if d.db.closed then err closed else elim d.index [
    | none ↦ err vectors_disabled
    | some ix ↦ if done then err cancelled else ok ix
  ]

  -- `VectorIndex.Add`, then `store.Put`, and `VectorIndex.Delete` where that fails: in
  -- `SetVector`, and for each text in `doAutoEmbedTriples`.
  unfoldable pub persist : Bytes → List ℕ → VectorDb → I.State → Update
  persist id v d ix = elim (I.add id v ix).1 [
    | Outcome.err e ↦ (with_both d d.db.store (I.add id v ix).0, err (index_error e))
    | Outcome.ok done ↦ elim (S.put (make_vector_key id) (vector_to_bytes v) d.db.store) [
      | none ↦ (with_both d d.db.store (I.delete id (I.add id v ix).0).0, err store_error)
      | some st ↦ (with_both d st (I.add id v ix).0, ok tt)
    ]
  ]

  unfoldable pub set_vector : Bool → Bytes → List ℕ → VectorDb → Update
  set_vector done id v d = elim (checked done d) [ err e ↦ (d, err e) | ok ix ↦ persist id v d ix ]

  -- `DeleteVector` behind the checks.
  unfoldable pub remove : Bytes → VectorDb → I.State → Update
  remove id d ix = elim (I.delete id ix).1 [
    | Outcome.err e ↦ (with_both d d.db.store (I.delete id ix).0, err (index_error e))
    | Outcome.ok done ↦ elim (S.delete (make_vector_key id) d.db.store) [
      | none ↦ (with_both d d.db.store (I.delete id ix).0, err store_error)
      | some st ↦ (with_both d st (I.delete id ix).0, ok tt)
    ]
  ]

  unfoldable pub delete_vector : Bool → Bytes → VectorDb → Update
  delete_vector done id d = elim (checked done d) [ err e ↦ (d, err e) | ok ix ↦ remove id d ix ]

  abbrev got : Outcome (List ℕ) → Result (List ℕ)
  got (Outcome.ok v) = ok v
  got (Outcome.err e) = err (index_error e)

  unfoldable pub get_vector : Bool → Bytes → VectorDb → Result (List ℕ)
  get_vector done id d = elim (checked done d) [ err e ↦ err e | ok ix ↦ got (I.get id ix) ]

  unfoldable pub vector_count : VectorDb → ℕ
  vector_count d = elim d.index [ none ↦ 0 | some ix ↦ I.len ix ]

  unfoldable pub vector_dimensions : VectorDb → ℤ
  vector_dimensions d = elim d.index [ none ↦ pos 0 | some ix ↦ I.dimensions ix ]

  unfoldable pub vectors_enabled : VectorDb → Bool
  vectors_enabled d = elim d.index [ none ↦ false | some ix ↦ true ]

  unfoldable pub set_subject_vector : Bool → Bytes → List ℕ → VectorDb → Update
  unfolding set_vector
  set_subject_vector done s v d = set_vector done (make_id id_type_subject (s ∷ [])) v d

  unfoldable pub set_object_vector : Bool → Bytes → List ℕ → VectorDb → Update
  unfolding set_vector
  set_object_vector done o v d = set_vector done (make_id id_type_object (o ∷ [])) v d

  unfoldable pub set_triple_vector : Bool → Triple → List ℕ → VectorDb → Update
  unfolding set_vector
  set_triple_vector done t v d =
      set_vector done
        (make_id id_type_triple
          (slice_bytes t.subject ∷ slice_bytes t.predicate ∷ slice_bytes t.object ∷ []))
        v d
