-- ===== src/Vectors/History.antt =====
-- Histories of updates: through `Put`, `Del`, `SetVector` and `DeleteVector` the index mirrors the
-- store.
use levelgraph.Prelude.{
  ℕ, ◌≡◌, refl, sym, ap, ◌∙◌, ◌≢◌, inl, inr, Bool, Bool-cases, Option-cases, ◌==◌, Option, none,
  some, List, arith, All, subst,
}
use levelgraph.Prelude.Bytes.{Bytes, starts_with}
use levelgraph.Graph.Triple.{Spo, Triple}
use levelgraph.Store.{KvStore}
use levelgraph.Db.State as State
use levelgraph.Db.Write.{Action, put, del, update}
use levelgraph.Db.Indexed.{IsStorable}
use levelgraph.Db.Turns.{IsOther, triples}
use levelgraph.Db.Refine.{update_others}
use levelgraph.Vectors.Embed.{
  EmbedBatch, do_auto_embed_triples, present_triples, embed_after, put_and_embed,
}
use levelgraph.Vectors.Embed.All.{IsEmbedder, IsVisit, do_auto_embed_lem}
use levelgraph.Vector.Interface.{VectorIndex}
use levelgraph.Vector.Bits.{AreBits}
use levelgraph.Vectors.{
  ok, err, store_error, make_vector_key, VectorDb, checked, persist, set_vector, Update, remove,
  delete_vector,
}
use levelgraph.Vectors.Mirror.{
  Mirrors, IsMirrored, Keeps, Result-cases, persist-Keeps, remove-Keeps, make_vector_key-IsForeign,
}

make_vector_key-IsOther : (id : Bytes) → IsOther (make_vector_key id)
unfolding make_vector_key starts_with
make_vector_key-IsOther id = record { foreign = make_vector_key-IsForeign id; no_journal = refl }

module _ (S : KvStore) (I : VectorIndex ℕ) where
  pub checked_index :
      (done : Bool) (d : VectorDb S I) (ix : I.State)
      → checked S I done d ≡ ok ix
      → d.index ≡ some ix
  checked_index done d ix h = ground arith

  set_vector-Keeps :
      (done : Bool) (id : Bytes) (v : List ℕ) (d : VectorDb S I)
      → IsMirrored S I d
      → AreBits v
      → (set_vector S I done id v d).1 ≢ err store_error
      → Keeps S I d (set_vector S I done id v d)
  unfolding set_vector
  set_vector-Keeps done id v d m b h = elim (Result-cases (checked S I done d)) [
    | inr (e, q) ↦
        let whole : set_vector S I done id v d ≡ (d, err e) = rw (set_vector, q) refl in
        subst (Keeps S I d) (sym whole) (m, λ y. refl)
    | inl (ix, q) ↦
        let whole : set_vector S I done id v d ≡ persist S I id v d ix = rw (set_vector, q) refl in
        let mirrors : Mirrors S I d.db.store ix = rw (checked_index done d ix q) at m in
        subst (Keeps S I d) (sym whole)
          (persist-Keeps S I id v d ix mirrors b (λ e. h (ap (λ r. r.1) whole ∙ e)))
  ]

  delete_vector-Keeps :
      (done : Bool) (id : Bytes) (d : VectorDb S I)
      → IsMirrored S I d
      → (delete_vector S I done id d).1 ≢ err store_error
      → Keeps S I d (delete_vector S I done id d)
  unfolding delete_vector
  delete_vector-Keeps done id d m h = elim (Result-cases (checked S I done d)) [
    | inr (e, q) ↦
        let whole : delete_vector S I done id d ≡ (d, err e) = rw (delete_vector, q) refl in
        subst (Keeps S I d) (sym whole) (m, λ y. refl)
    | inl (ix, q) ↦
        let whole : delete_vector S I done id d ≡ remove S I id d ix = rw (delete_vector, q) refl in
        let mirrors : Mirrors S I d.db.store ix = rw (checked_index done d ix q) at m in
        subst (Keeps S I d) (sym whole)
          (remove-Keeps S I id d ix mirrors (λ e. h (ap (λ r. r.1) whole ∙ e)))
  ]

  abbrev pub with_db :
      (a : Action) (done : Bool) (now : ℕ → ℕ) (xs : List Spo) → VectorDb S I → VectorDb S I
  with_db a done now xs d = record d { db = (update S a done now (triples xs) d.db).0 }

  -- No vector of the automatic embedding meets an error of the store.
  abbrev NoStoreError :
      Option EmbedBatch
      → (List Bytes → List Bytes)
      → ℕ
      → Bool
      → (ℕ → ℕ)
      → (ℕ → Bool)
      → List Spo
      → VectorDb S I
      → Type 0
  NoStoreError embedder visit targets done now later xs d =
      (e : EmbedBatch) (ix : I.State) (u : Update S I)
      → embedder ≡ some e
      → d.index ≡ some ix
      → do_auto_embed_triples S I e visit targets later (present_triples S I (triples xs))
          (with_db put done now xs d) ix
        ≡ some u
      → u.1 ≢ err store_error

  -- One call, with whatever result but an error of the store for a vector.
  pub data Step : VectorDb S I → VectorDb S I → Type 0 where
    set :
        (done : Bool) (id : Bytes) (v : List ℕ) (d : VectorDb S I)
        → AreBits v
        → (set_vector S I done id v d).1 ≢ err store_error
        → Step d (set_vector S I done id v d).0
    unset :
        (done : Bool) (id : Bytes) (d : VectorDb S I)
        → (delete_vector S I done id d).1 ≢ err store_error
        → Step d (delete_vector S I done id d).0
    -- `Del`
    del_triples :
        (done : Bool) (now : ℕ → ℕ) (xs : List Spo) (d : VectorDb S I)
        → All IsStorable xs
        → Step d (with_db del done now xs d)
    -- `Put`, with the automatic embedding, if there is an embedder.
    put_triples :
        (embedder : Option EmbedBatch) (visit : List Bytes → List Bytes) (targets : ℕ) (done : Bool)
        (now : ℕ → ℕ) (later : ℕ → Bool) (xs : List Spo) (d d' : VectorDb S I)
        (r : State.Result (Unit {0}))
        → All IsStorable xs
        → ((e : EmbedBatch) → embedder ≡ some e → IsEmbedder e)
        → IsVisit visit
        → NoStoreError embedder visit targets done now later xs d
        → put_and_embed S I embedder visit targets done now later (triples xs) d ≡ some (d', r)
        → Step d d'

  pub data Reaches : VectorDb S I → VectorDb S I → Type 0 where
    here : (d : VectorDb S I) → Reaches d d
    then : (d e f : VectorDb S I) → Reaches d e → Step e f → Reaches d f

  write-IsMirrored :
      (a : Action) (done : Bool) (now : ℕ → ℕ) (xs : List Spo) (d : VectorDb S I)
      → All IsStorable xs
      → IsMirrored S I d
      → IsMirrored S I (with_db a done now xs d)
  write-IsMirrored a done now xs d h = go d.index
    where
      go :
          (o : Option I.State)
          → IsMirrored S I (record d { index = o })
          → IsMirrored S I (record (with_db a done now xs d) { index = o })
      go none (valid, indexed) =
          let (sound, _) =
            update_others S a done now xs d.db _ _ h (record { valid = valid; indexed = indexed })
              refl in
          (sound.valid, sound.indexed)
      go (some ix) m =
          let (sound, others) =
            update_others S a done now xs d.db _ _ h
              (record { valid = m.valid; indexed = m.indexed }) refl in
          record {
            valid = sound.valid;
            indexed = sound.indexed;
            same = λ id. others (make_vector_key id) (make_vector_key-IsOther id) ∙ m.same id;
            bits = m.bits;
            sized = m.sized;
          }

  embed_after-IsMirrored :
      (embedder : Option EmbedBatch) (visit : List Bytes → List Bytes) (targets : ℕ)
      (later : ℕ → Bool) (ts : List (Option Triple)) (d d' : VectorDb S I)
      → ((e : EmbedBatch) → embedder ≡ some e → IsEmbedder e)
      → IsVisit visit
      → ((e : EmbedBatch) (ix : I.State) (u : Update S I)
          → embedder ≡ some e
          → d.index ≡ some ix
          → do_auto_embed_triples S I e visit targets later (present_triples S I ts) d ix ≡ some u
          → u.1 ≢ err store_error)
      → embed_after S I embedder visit targets later ts d ≡ some d'
      → IsMirrored S I d
      → IsMirrored S I d'
  embed_after-IsMirrored none visit targets later ts d d' es vs good q m =
      let same : d ≡ d' = ground arith in subst (IsMirrored S I) same m
  embed_after-IsMirrored (some e) visit targets later ts d d' es vs good q m =
      elim (Bool-cases (targets == 0)) [
        | inl z ↦
            let q' : some d ≡ some d' = rw z at q in
            let same : d ≡ d' = ground arith in subst (IsMirrored S I) same m
        | inr z ↦ elim (Option-cases d.index) [
          | inl n ↦
              let q' : some d ≡ some d' = rw (z, n) at q in
              let same : d ≡ d' = ground arith in subst (IsMirrored S I) same m
          | inr (ix, n) ↦
              let mirrors : Mirrors S I d.db.store ix = rw n at m in
              let (u, looped, keeps, covers) =
                do_auto_embed_lem S I e visit targets later (present_triples S I ts) d ix
                  (es e refl) vs n mirrors in
              let q' : some u.0 ≡ some d' = rw (z, n, looped) at q in
              let same : u.0 ≡ d' = ground arith in
              subst (IsMirrored S I) same (keeps (good e ix u refl n looped)).0
        ]
      ]

  put-IsMirrored :
      (embedder : Option EmbedBatch) (visit : List Bytes → List Bytes) (targets : ℕ) (done : Bool)
      (now : ℕ → ℕ) (later : ℕ → Bool) (xs : List Spo) (d d' : VectorDb S I)
      (r : State.Result (Unit {0}))
      → All IsStorable xs
      → ((e : EmbedBatch) → embedder ≡ some e → IsEmbedder e)
      → IsVisit visit
      → NoStoreError embedder visit targets done now later xs d
      → put_and_embed S I embedder visit targets done now later (triples xs) d ≡ some (d', r)
      → IsMirrored S I d
      → IsMirrored S I d'
  unfolding put_and_embed
  put-IsMirrored embedder visit targets done now later xs d d' r h es vs good q m =
      go (update S put done now (triples xs) d.db).1
        (embed_after S I embedder visit targets later (triples xs) written) refl q
    where
      written : VectorDb S I
      written = with_db put done now xs d

      go :
          (res : State.Result (Unit {0})) (o : Option (VectorDb S I))
          → embed_after S I embedder visit targets later (triples xs) written ≡ o
          → elim res as (λ x. Option (VectorDb S I × State.Result (Unit {0}))) [
            | State.Result.err e ↦ some (written, State.Result.err e)
            | State.Result.ok w ↦ elim o [ none ↦ none | some d1 ↦ some (d1, State.Result.ok tt) ]
          ]
            ≡ some (d', r)
          → IsMirrored S I d'
      go (State.Result.err e) o p q' =
          let same : written ≡ d' = ground arith in
          subst (IsMirrored S I) same (write-IsMirrored put done now xs d h m)
      go (State.Result.ok w) none p q' = cc
      go (State.Result.ok w) (some d1) p q' =
          let same : d1 ≡ d' = ground arith in
          subst (IsMirrored S I) same (
            embed_after-IsMirrored embedder visit targets later (triples xs) written d1 es vs good p
              (write-IsMirrored put done now xs d h m))

  step-IsMirrored : {d e : VectorDb S I} → Step d e → IsMirrored S I d → IsMirrored S I e
  step-IsMirrored (Step.set done id v d b h) m = (set_vector-Keeps done id v d m b h).0
  step-IsMirrored (Step.unset done id d h) m = (delete_vector-Keeps done id d m h).0
  step-IsMirrored (Step.del_triples done now xs d h) m = write-IsMirrored del done now xs d h m
  step-IsMirrored (Step.put_triples e visit targets done now later xs d d' r h es vs good q) m =
      put-IsMirrored e visit targets done now later xs d d' r h es vs good q m

  -- Whatever calls of `Put`, with or without the automatic embedding, which is not asynchronous,
  -- and `Del` with storable triples, and of `SetVector` with float32s and `DeleteVector` are made,
  -- in whatever order and with whatever results but a panic or an error of the store for a vector:
  -- from a database whose index, if it has one, holds the vectors of its store, whose store is in
  -- order and holds the six indexes of a set of triples, a database is reached of which the same
  -- is true, if an operation of the store that fails changes nothing, the embedder returns a
  -- vector of float32s for each text, and the visit of a map leaves out nothing.
  pub Reaches-IsMirrored : (d e : VectorDb S I) → Reaches d e → IsMirrored S I d → IsMirrored S I e
  Reaches-IsMirrored d e (Reaches.here _) m = m
  Reaches-IsMirrored d e (Reaches.then _ f _ r s) m = step-IsMirrored s (Reaches-IsMirrored d f r m)
