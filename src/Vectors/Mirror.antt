-- ===== src/Vectors/Mirror.antt =====
-- vectors.go: the index mirrors the vectors that the store holds.
use levelgraph.Prelude.{
  ◌⊎◌, inl, inr, ℕ, ◌<◌, fun_ext, subst, ◌≢◌, ◌≡◌, refl, sym, ap, ◌∙◌, true, Option, none, some,
  List, arith, if◌then◌else◌, length, Bool-cases, inl, inr, Option-cases,
}
use levelgraph.Prelude.Bytes.{Bytes, bytes_eq, starts_with}
use levelgraph.Graph.Triple.{Spo}
use levelgraph.Index.Name.{spo, sop, pos, pso, ops, osp, unknown}
use levelgraph.Store.{KvStore, apply_op}
use levelgraph.Db.Indexed.{
  IsIndexed, IsIndexed-at_key, contains, contains-at_key, IsForeign, at_key,
}
use levelgraph.Vector.Interface.{VectorIndex, Outcome-cases, has_dimensions}
use levelgraph.Vector.Bits.{AreBits, vector_to_bytes}
use levelgraph.Vectors.{
  Result, Error, ok, err, store_error, make_vector_key, VectorDb, Update, persist, remove,
  with_both, index_error,
}

-- Keys of vectors lie in no index.
pub make_vector_key-IsForeign : (id : Bytes) → IsForeign (make_vector_key id)
unfolding make_vector_key starts_with
make_vector_key-IsForeign id spo h = refl
make_vector_key-IsForeign id sop h = refl
make_vector_key-IsForeign id pos h = refl
make_vector_key-IsForeign id pso h = refl
make_vector_key-IsForeign id ops h = refl
make_vector_key-IsForeign id osp h = refl
make_vector_key-IsForeign id (unknown u) h = absurd h

pub make_vector_key_eq :
    (i j : Bytes) → bytes_eq (make_vector_key i) (make_vector_key j) ≡ bytes_eq i j
unfolding make_vector_key bytes_eq
make_vector_key_eq i j = refl

-- What the store holds for a vector that the index has or has not.
abbrev pub stored : Option (List ℕ) → Option Bytes
stored none = none
stored (some v) = some (vector_to_bytes v)

pub Result-cases {ℓ} :
    {A : Type ℓ} (r : Result A) → ((a : A) × (r ≡ ok a)) ⊎ ((e : Error) × (r ≡ err e))
Result-cases (ok a) = inl (a, refl)
Result-cases (err e) = inr (e, refl)

module _ (S : KvStore) (I : VectorIndex ℕ) where
  -- The store is in order and holds the indexes of a set of triples, and the vectors of the index,
  -- which have its dimensions and consist of float32, each under its key, and no others.
  pub record Mirrors (st : S.State) (ix : I.State) : Type 0 where
    pub valid : S.IsValid st
    pub indexed : IsIndexed (S.contents st)
    pub same : (id : Bytes) → S.contents st (make_vector_key id) ≡ stored (I.vectors ix id)
    pub bits : (id : Bytes) (v : List ℕ) → I.vectors ix id ≡ some v → AreBits v
    pub sized :
        (id : Bytes) (v : List ℕ)
        → I.vectors ix id ≡ some v
        → (0 < length v) × (has_dimensions (I.dimensions ix) v ≡ true)

  -- The same of a database, with or without an index.
  abbrev pub IsMirrored : VectorDb S I → Type 0
  IsMirrored d = elim d.index [
    | none ↦ S.IsValid d.db.store × IsIndexed (S.contents d.db.store)
    | some ix ↦ Mirrors d.db.store ix
  ]

  abbrev pub KeepsTriples : VectorDb S I → VectorDb S I → Type 0
  KeepsTriples d d' =
      (y : Spo) → contains (S.contents d'.db.store) y ≡ contains (S.contents d.db.store) y

  -- What an operation on vectors leaves as it is.
  abbrev pub Keeps : VectorDb S I → Update S I → Type 0
  Keeps d r = IsMirrored r.0 × KeepsTriples d r.0

module _ (S : KvStore) (I : VectorIndex ℕ) (st st' : S.State) (ix ix' : I.State) (id : Bytes)
    (w : Option (List ℕ)) where
  -- One vector is changed, in both.
  Mirrors-change :
      Mirrors S I st ix
      → S.IsValid st'
      → ((k : Bytes) → S.contents st' k ≡ at_key (S.contents st) (make_vector_key id) (stored w) k)
      → I.dimensions ix' ≡ I.dimensions ix
      → ((j : Bytes) → I.vectors ix' j ≡ (if bytes_eq id j then w else I.vectors ix j))
      → ((v : List ℕ)
          → w ≡ some v
          → AreBits v × (0 < length v) × (has_dimensions (I.dimensions ix) v ≡ true))
      → Mirrors S I st' ix' × ((y : Spo) → contains (S.contents st') y ≡ contains (S.contents st) y)
  Mirrors-change m valid now dims then_vectors good =
      let foreign = make_vector_key-IsForeign id in
      let c = S.contents st in
      let all = fun_ext now in
      let found : (j : Bytes) (v : List ℕ)
          → I.vectors ix' j ≡ some v
          → AreBits v × (0 < length v) × (has_dimensions (I.dimensions ix) v ≡ true) =
        λ j v e. elim (Bool-cases (bytes_eq id j)) [
          | inl q ↦ good v (rw q at (sym (then_vectors j) ∙ e))
          | inr q ↦
              let old = rw q at (sym (then_vectors j) ∙ e) in
              let (some_values, dims_match) = m.sized j v old in
              (m.bits j v old, some_values, dims_match)
        ] in
      (
        record {
          valid = valid;
          indexed = subst IsIndexed (sym all) (IsIndexed-at_key c _ _ foreign m.indexed);
          same = λ j.
              let here = now (make_vector_key j) in
              let key = make_vector_key_eq id j in
              elim (Bool-cases (bytes_eq id j)) [
                | inl q ↦ here ∙ rw (key, then_vectors j, q) refl
                | inr q ↦ here ∙ rw (key, then_vectors j, q) (m.same j)
              ];
          bits = λ j v e. (found j v e).0;
          sized = λ j v e.
              let (_, some_values, dims_match) = found j v e in (some_values, rw dims dims_match);
        },
        λ y. ap (λ k. contains k y) all ∙ contains-at_key c _ _ foreign y,
      )

module _ (S : KvStore) (I : VectorIndex ℕ) where
  pub persist-Keeps :
      (id : Bytes) (v : List ℕ) (d : VectorDb S I) (ix : I.State)
      → Mirrors S I d.db.store ix
      → AreBits v
      → (persist S I id v d ix).1 ≢ err store_error
      → Keeps S I d (persist S I id v d ix)
  unfolding persist apply_op
  persist-Keeps id v d ix m b h = elim (Outcome-cases (I.add id v ix).1) [
    | inr (e, q) ↦
        let whole : persist S I id v d ix ≡ (with_both S I d d.db.store ix, err (index_error e)) =
          rw (persist, q, I.add_error id v ix e q) refl in
        subst (Keeps S I d) (sym whole) (m, λ y. refl)
    | inl (done, q) ↦
        elim (Option-cases (S.put (make_vector_key id) (vector_to_bytes v) d.db.store)) [
          | inl failed ↦
              let outcome : (persist S I id v d ix).1 ≡ err store_error =
                rw (persist, q, failed) refl in
              absurd (h outcome)
          | inr (st, wrote) ↦
              let (some_values, dims_match, dims, now_vectors) = I.add_law id v ix q in
              let (valid, now) = S.put_law _ _ d.db.store st m.valid wrote in
              let whole : persist S I id v d ix ≡ (with_both S I d st (I.add id v ix).0, ok tt) =
                rw (persist, q, wrote) refl in
              subst (Keeps S I d) (sym whole) (
                Mirrors-change S I d.db.store st ix (I.add id v ix).0 id (some v) m valid
                  (λ k. now k) dims now_vectors
                  (λ u e.
                    let same : v ≡ u = ground arith in rw (← same) (b, some_values, dims_match)))
        ]
  ]

  pub remove-Keeps :
      (id : Bytes) (d : VectorDb S I) (ix : I.State)
      → Mirrors S I d.db.store ix
      → (remove S I id d ix).1 ≢ err store_error
      → Keeps S I d (remove S I id d ix)
  unfolding remove apply_op
  remove-Keeps id d ix m h = elim (Outcome-cases (I.delete id ix).1) [
    | inr (e, q) ↦
        let whole : remove S I id d ix ≡ (with_both S I d d.db.store ix, err (index_error e)) =
          rw (remove, q, I.delete_error id ix e q) refl in
        subst (Keeps S I d) (sym whole) (m, λ y. refl)
    | inl (done, q) ↦ elim (Option-cases (S.delete (make_vector_key id) d.db.store)) [
      | inl failed ↦
          let outcome : (remove S I id d ix).1 ≡ err store_error = rw (remove, q, failed) refl in
          absurd (h outcome)
      | inr (st, wrote) ↦
          let (dims, now_vectors) = I.delete_law id ix q in
          let (valid, now) = S.delete_law _ d.db.store st m.valid wrote in
          let whole : remove S I id d ix ≡ (with_both S I d st (I.delete id ix).0, ok tt) =
            rw (remove, q, wrote) refl in
          subst (Keeps S I d) (sym whole) (
            Mirrors-change S I d.db.store st ix (I.delete id ix).0 id none m valid (λ k. now k) dims
              now_vectors (λ u e. cc))
    ]
  ]
