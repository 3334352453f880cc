-- ===== src/Vectors/Load.antt =====
-- vectors.go, `LoadVectors`: the index from the vectors that the store holds.
pub mod Restore
use levelgraph.Prelude.{
  ℕ, suc, Bool, true, false, not, none, some, List, [], ◌∷◌, ◌++◌, if◌then◌else◌, length, drop,
}
use levelgraph.Prelude.Bytes.{Bytes, codes}
use levelgraph.Store.{KvStore}
use levelgraph.Db.Read.{Items}
use levelgraph.Vector.Interface.{VectorIndex, Outcome, has_dimensions}
use levelgraph.Vector.Bits.{bytes_to_vector}
use levelgraph.Vectors.{
  Result, ok, err, cancelled, store_error, dimension_error, index_error, vector_prefix, VectorDb,
  Update, checked, with_both,
}

-- The end of the range: the last byte of the prefix is one more.
abbrev pub vector_limit : Bytes
vector_limit = codes "vector:;"

module _ (S : KvStore) (I : VectorIndex ℕ) where
  -- The loop over the items: `done n` is whether the context is done in round `n`.
  unfoldable pub load_loop : (ℕ → Bool) → ℕ → Items → I.State → I.State × Result (Unit {0})
  load_loop done n [] ix = (ix, ok tt)
  load_loop done n ((key, value) ∷ items) ix =
      let id = drop (length vector_prefix) key in
      if done n then (ix, err cancelled) else elim (bytes_to_vector value) [
        | none ↦ load_loop done (suc n) items ix
        | some v ↦
            if not (has_dimensions (I.dimensions ix) v)
            then (ix, err dimension_error)
            else elim (I.add id v ix).1 [
              | Outcome.err e ↦ ((I.add id v ix).0, err (index_error e))
              | Outcome.ok added ↦ load_loop done (suc n) items (I.add id v ix).0
            ]
      ]

  -- An iterator that carries an error visits nothing and reports it at the end.
  unfoldable pub load_vectors : Bool → (ℕ → Bool) → VectorDb S I → Update S I
  load_vectors done later d = elim (checked S I done d) [
    | err e ↦ (d, err e)
    | ok ix ↦ elim (S.iterate vector_prefix vector_limit d.db.store) [
      | none ↦ (d, err store_error)
      | some items ↦ let (ix', r) = load_loop later 0 items ix in (record d { index = some ix' }, r)
    ]
  ]
