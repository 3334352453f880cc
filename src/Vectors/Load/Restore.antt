-- ===== src/Vectors/Load/Restore.antt =====
-- vectors.go: `LoadVectors` restores the index that `SetVector` and `DeleteVector` have left.
use levelgraph.Prelude.{
  ℕ, suc, ◌≡◌, refl, sym, ap, ◌∙◌, true, false, Option, none, some, List, [], ◌∷◌, ◌++◌, arith,
  if◌then◌else◌, length, drop, All, Mem, Bool-cases, inl, inr, Option-cases, drop-append,
}
use mathlib.Core.Bool.{false≢true}
use levelgraph.Prelude.Bytes.{Bytes, codes, bytes_eq, bytes_eq-true, bytes_lt}
use levelgraph.Index.Range.{in_range}
use levelgraph.Store.{KvStore}
use levelgraph.Store.Sweep.{visited, visited-mem}
use levelgraph.Db.Read.{Items}
use levelgraph.Vector.Interface.{VectorIndex, Outcome, has_dimensions}
use levelgraph.Vector.Bits.{vector_to_bytes, bytes_to_vector, bytes_to_vector-vector_to_bytes}
use levelgraph.Vectors.{ok, vector_prefix, make_vector_key, VectorDb, checked}
use levelgraph.Vectors.Mirror.{Mirrors, stored, make_vector_key_eq}
use levelgraph.Vectors.Load.{vector_limit, load_loop, load_vectors}

-- A key between a prefix and the prefix with its last byte increased begins with the prefix.
in_range_next :
    (p k : Bytes) (c : ℕ)
    → in_range (p ++ c ∷ []) (p ++ suc c ∷ []) k ≡ true
    → (r : Bytes) × (k ≡ p ++ c ∷ r)
unfolding bytes_lt
in_range_next [] [] c h = cc
in_range_next [] (y ∷ k) c h = (k, ground arith)
in_range_next (x ∷ p) [] c h = cc
in_range_next (x ∷ p) (y ∷ k) c h =
    let (r, e) = in_range_next p k c (ground arith) in (r, ground arith)

in_range-make_vector_key :
    (id : Bytes) → in_range vector_prefix vector_limit (make_vector_key id) ≡ true
unfolding make_vector_key bytes_lt
in_range-make_vector_key id = refl

drop-make_vector_key : (id : Bytes) → drop (length vector_prefix) (make_vector_key id) ≡ id
unfolding make_vector_key
drop-make_vector_key id = drop-append vector_prefix id

All-of : {A : Type 0} (P : A → Type 0) (xs : List A) → ((x : A) → Mem x xs → P x) → All P xs
All-of P [] f = tt
All-of P (x ∷ xs) f = (f x (inl refl), All-of P xs (λ y m. f y (inr m)))

module _ (S : KvStore) (I : VectorIndex ℕ) (st : S.State) (ix : I.State)
    (m : Mirrors S I st ix) where
  -- An item that stands for a vector.
  record IsVector (item : Bytes × Bytes) : Type 0 where
    id : Bytes
    v : List ℕ
    key : item.0 ≡ make_vector_key id
    value : item.1 ≡ vector_to_bytes v
    held : I.vectors ix id ≡ some v

  stored_inv :
      (o : Option (List ℕ)) (b : Bytes)
      → stored o ≡ some b
      → (v : List ℕ) × (o ≡ some v) × (b ≡ vector_to_bytes v)
  stored_inv none b h = cc
  stored_inv (some v) b h = (v, refl, ground arith)

  item-IsVector :
      (k b : Bytes)
      → S.contents st k ≡ some b
      → in_range vector_prefix vector_limit k ≡ true
      → IsVector (k, b)
  unfolding make_vector_key
  item-IsVector k b e h =
      let (r, q) = in_range_next (codes "vector:") k 58 h in
      let (v, held, value) =
        stored_inv (I.vectors ix r) b (sym (m.same r) ∙ ap (S.contents st) (sym q) ∙ e) in
      record { id = r; v = v; key = q; value = value; held = held }

  load_loop_lem :
      (n : ℕ) (items : Items) (ix0 : I.State)
      → All IsVector items
      → I.dimensions ix0 ≡ I.dimensions ix
      → (ix' : I.State) × (load_loop S I (λ n. false) n items ix0 ≡ (ix', ok tt))
        × (I.dimensions ix' ≡ I.dimensions ix)
        × ((j : Bytes)
            → I.vectors ix' j
              ≡ (if visited (make_vector_key j) items then I.vectors ix j else I.vectors ix0 j))
  unfolding load_loop
  load_loop_lem n [] ix0 h d = (ix0, refl, d, λ j. refl)
  load_loop_lem n ((k, b) ∷ items) ix0 (x, h) d =
      let (positive, dims) = m.sized x.id x.v x.held in
      let read : bytes_to_vector b ≡ some x.v =
        ap bytes_to_vector x.value ∙ bytes_to_vector-vector_to_bytes x.v (m.bits x.id x.v x.held) in
      let id : drop (length vector_prefix) k ≡ x.id =
        ap (drop (length vector_prefix)) x.key ∙ drop-make_vector_key x.id in
      let i = drop (length vector_prefix) k in
      let dims0 : has_dimensions (I.dimensions ix0) x.v ≡ true = rw d dims in
      let added : (I.add i x.v ix0).1 ≡ Outcome.ok tt = I.add_total i x.v ix0 positive dims0 in
      let (_, _, same, vectors) = I.add_law i x.v ix0 added in
      let (ix', loaded, dims', now) =
        load_loop_lem (suc n) items (I.add i x.v ix0).0 h (same ∙ d) in
      let whole : load_loop S I (λ n. false) n ((k, b) ∷ items) ix0 ≡ (ix', ok tt) =
        rw (load_loop, read, dims0, added) loaded in
      let keys : (j : Bytes) → bytes_eq k (make_vector_key j) ≡ bytes_eq i j = λ j.
        ap (λ l. bytes_eq l (make_vector_key j)) x.key
        ∙ make_vector_key_eq x.id j
        ∙ ap (λ l. bytes_eq l j) (sym id) in
      (
        ix',
        whole,
        dims',
        λ j. elim (Bool-cases (bytes_eq i j)) [
          | inr e ↦ now j ∙ rw (keys j, vectors j, e) refl
          | inl e ↦
              let this : I.vectors ix j ≡ some x.v =
                ap (I.vectors ix) (sym (sym id ∙ bytes_eq-true i j e)) ∙ x.held in
              let at : I.vectors ix' j
                  ≡ (if visited (make_vector_key j) items then I.vectors ix j else some x.v) =
                now j ∙ rw (vectors j, e) refl in
              at
              ∙ rw (keys j, e, this)
                  (elim (Bool-cases (visited (make_vector_key j) items)) [
                    | inl q ↦ rw q refl
                    | inr q ↦ rw q refl
                  ])
        ],
      )

-- `LoadVectors` without a cancellation, over an open database whose store can be iterated, makes of
-- an empty index of the same dimensions one that holds just the vectors of the index that the store
-- mirrors: it returns no error, and the store mirrors the new index.
pub load_vectors-restores :
    (S : KvStore) (I : VectorIndex ℕ) (d : VectorDb S I) (ix empty : I.State) (items : Items)
    → Mirrors S I d.db.store ix
    → d.db.closed ≡ false
    → d.index ≡ some empty
    → I.dimensions empty ≡ I.dimensions ix
    → ((j : Bytes) → I.vectors empty j ≡ none)
    → S.iterate vector_prefix vector_limit d.db.store ≡ some items
    → (ix' : I.State) × (load_vectors S I false (λ n. false) d
        ≡ (record d { index = some ix' }, ok tt))
      × Mirrors S I d.db.store ix'
      × ((j : Bytes) → I.vectors ix' j ≡ I.vectors ix j)
unfolding load_vectors
load_vectors-restores S I d ix empty items m opened this dims none_held read =
    let st = d.db.store in
    let passed : checked S I false d ≡ ok empty = rw (opened, this) refl in
    let (_, law) = S.iterate_law vector_prefix vector_limit st items m.valid read in
    let all : All (IsVector S I st ix m) items = All-of (IsVector S I st ix m) items (λ x mem.
      let (there, within) = (law x.0 x.1).0 mem in
      item-IsVector S I st ix m x.0 x.1 there within) in
    let (ix', loaded, dims', now) = load_loop_lem S I st ix m 0 items empty all dims in
    let same : (j : Bytes) → I.vectors ix' j ≡ I.vectors ix j = λ j.
      now j ∙ elim (Bool-cases (visited (make_vector_key j) items)) [
        | inl q ↦ rw q refl
        | inr q ↦ elim (Option-cases (I.vectors ix j)) [
          | inl absent ↦ rw q (none_held j ∙ sym absent)
          | inr (v, held) ↦
              let there : S.contents st (make_vector_key j) ≡ some (vector_to_bytes v) =
                m.same j ∙ ap stored held in
              let mem = (law (make_vector_key j) _).1 (there, in_range-make_vector_key j) in
              absurd (false≢true (sym q ∙ visited-mem (make_vector_key j) _ items mem))
        ]
      ] in
    (
      ix',
      rw (load_vectors, passed, read, loaded) refl,
      record {
        valid = m.valid;
        indexed = m.indexed;
        same = λ j. m.same j ∙ ap stored (sym (same j));
        bits = λ j v e. m.bits j v (sym (same j) ∙ e);
        sized = λ j v e. rw dims' (m.sized j v (sym (same j) ∙ e));
      },
      same,
    )
