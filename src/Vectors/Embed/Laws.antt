-- ===== src/Vectors/Embed/Laws.antt =====
-- vectors.go: what the loops of `doAutoEmbedTriples` do to the index.
use levelgraph.Prelude.{
  ℕ, suc, ◌≤◌, ◌≡◌, refl, sym, ap, ◌∙◌, ◌≢◌, ◌⊎◌, inl, inr, Bool, true, false, ◌||◌, none, some,
  List, [], ◌∷◌, ◌++◌, map, arith, if◌then◌else◌, length, All, Mem, Bool-cases, Option-cases,
}
use levelgraph.Prelude.Bytes.{Bytes, bytes_eq, bytes_eq-true, bytes_eq_refl}
use levelgraph.Graph.Triple.{Triple}
use levelgraph.Store.{KvStore}
use levelgraph.Vector.Interface.{VectorIndex, Outcome}
use levelgraph.Vector.Id.{make_id}
use levelgraph.Vector.Bits.{AreBits}
use levelgraph.Vectors.{ok, err, store_error, cancelled, VectorDb, Update, persist}
use levelgraph.Vectors.Mirror.{Mirrors, IsMirrored, Keeps, Result-cases, persist-Keeps}
use levelgraph.Vectors.Embed.{is_in, collect, has_vector, missing, embed_loop}

pub is_in-append :
    (x : Bytes) (xs ys : List Bytes) → is_in x (xs ++ ys) ≡ (is_in x xs || is_in x ys)
is_in-append x [] ys = refl
is_in-append x (y ∷ xs) ys = ground (arith, is_in-append x xs ys)

collect-seen :
    (part : Triple → Bytes) (ts : List Triple) (x : Bytes) (seen : List Bytes)
    → is_in x seen ≡ true
    → is_in x (collect part ts seen) ≡ true
unfolding collect
collect-seen part [] x seen h = h
collect-seen part (t ∷ ts) x seen h =
    let seen' = if is_in (part t) seen then seen else part t ∷ seen in
    let h' : is_in x seen' ≡ true = ground arith in collect-seen part ts x seen' h'

-- The map holds the part of every triple.
pub is_in-collect :
    (part : Triple → Bytes) (ts : List Triple) (t : Triple) (seen : List Bytes)
    → Mem t ts
    → is_in (part t) (collect part ts seen) ≡ true
unfolding collect
is_in-collect part [] t seen m = absurd m
is_in-collect part (u ∷ ts) t seen (inl e) =
    let seen' = if is_in (part u) seen then seen else part u ∷ seen in
    let here : is_in (part u) seen' ≡ true = ground (arith, bytes_eq_refl (part u)) in
    rw e (collect-seen part ts (part u) seen' here)
is_in-collect part (u ∷ ts) t seen (inr m) =
    is_in-collect part ts t (if is_in (part u) seen then seen else part u ∷ seen) m

abbrev pub ids_of : List (Bytes × Bytes) → List Bytes
ids_of = map (λ x. x.1)

module _ (S : KvStore) (I : VectorIndex ℕ) where
  abbrev pub HasVector : I.State → Bytes → Type 0
  HasVector ix id = (v : List ℕ) × (I.vectors ix id ≡ some v)

  get-cases :
      (id : Bytes) (ix : I.State)
      → ((has_vector S I (I.get id ix) ≡ true) × HasVector ix id)
        ⊎ ((has_vector S I (I.get id ix) ≡ false) × (I.vectors ix id ≡ none))
  get-cases id ix = elim (Option-cases (I.vectors ix id)) [
    | inl q ↦ inr (rw (I.get_law id ix, q) refl, q)
    | inr (v, q) ↦ inl (rw (I.get_law id ix, q) refl, (v, q))
  ]

  -- A text whose identifier is not among the missing ones has a vector.
  pub missing_lem :
      (ix : I.State) (id_type : Bytes) (xs : List Bytes) (x : Bytes)
      → is_in x xs ≡ true
      → HasVector ix (make_id id_type (x ∷ []))
        ⊎ (is_in (make_id id_type (x ∷ [])) (ids_of (missing S I ix id_type xs)) ≡ true)
  unfolding missing
  missing_lem ix id_type [] x h = cc
  missing_lem ix id_type (y ∷ xs) x h = elim (Bool-cases (bytes_eq y x)) [
    | inl e ↦
        let same : y ≡ x = bytes_eq-true y x e in
        let id = make_id id_type (y ∷ []) in
        rw (← same) (elim (get-cases id ix) [
          | inl (q, there) ↦ inl there
          | inr (q, absent) ↦ inr (rw (q, bytes_eq_refl id) refl)
        ])
    | inr e ↦ elim (missing_lem ix id_type xs x (rw e at h)) [
      | inl there ↦ inl there
      | inr later ↦ elim (get-cases (make_id id_type (y ∷ [])) ix) [
        | inl (q, there) ↦ inr (rw (q, later) refl)
        | inr (q, absent) ↦ inr (rw q (ground (arith, later)))
      ]
    ]
  ]

  -- What is missing has no vector.
  pub missing-none :
      (ix : I.State) (id_type : Bytes) (xs : List Bytes) (j : Bytes)
      → is_in j (ids_of (missing S I ix id_type xs)) ≡ true
      → I.vectors ix j ≡ none
  unfolding missing
  missing-none ix id_type [] j h = cc
  missing-none ix id_type (y ∷ xs) j h = elim (get-cases (make_id id_type (y ∷ [])) ix) [
    | inl (q, there) ↦ missing-none ix id_type xs j (rw q at h)
    | inr (q, absent) ↦ elim (Bool-cases (bytes_eq (make_id id_type (y ∷ [])) j)) [
      | inl same ↦ ap (I.vectors ix) (sym (bytes_eq-true _ j same)) ∙ absent
      | inr other ↦ missing-none ix id_type xs j (rw (q, other) at h)
    ]
  ]

  -- Every identifier has got a vector, and for the others nothing has changed.
  pub record Embeds (ids : List Bytes) (ix : I.State) (d : VectorDb S I) : Type 0 where
    pub index : I.State
    pub at : d.index ≡ some index
    pub others : (j : Bytes) → is_in j ids ≡ false → I.vectors index j ≡ I.vectors ix j
    pub has : (j : Bytes) → is_in j ids ≡ true → HasVector index j

  persist_ok :
      (id : Bytes) (v : List ℕ) (d : VectorDb S I) (ix : I.State)
      → (persist S I id v d ix).1 ≡ ok tt
      → ((persist S I id v d ix).0.index ≡ some (I.add id v ix).0)
        × ((I.add id v ix).1 ≡ Outcome.ok tt)
  unfolding persist
  persist_ok id v d ix h = (ground arith, ground arith)

  pub embed_loop_lem :
      (done : ℕ → Bool) (n : ℕ) (ids : List Bytes) (embeddings : List (List ℕ)) (d : VectorDb S I)
      (ix : I.State)
      → Mirrors S I d.db.store ix
      → All AreBits embeddings
      → length ids ≤ length embeddings
      → (r : Update S I) × (embed_loop S I done n ids embeddings d ix ≡ some r)
        × (r.1 ≢ err store_error → Keeps S I d r)
        × (r.1 ≡ ok tt → Embeds ids ix r.0)
  unfolding embed_loop
  embed_loop_lem done n [] embeddings d ix m b le = (
    (record d { index = some ix }, ok tt),
    refl,
    λ h. (m, λ y. refl),
    λ h. record { index = ix; at = refl; others = λ j e. refl; has = λ j e. cc },
  )
  embed_loop_lem done n (id ∷ ids) [] d ix m b le = absurd (omega arith)
  embed_loop_lem done n (id ∷ ids) (v ∷ rest) d ix m (bv, b) le = elim (Bool-cases (done n)) [
    | inl e ↦
        ((record d { index = some ix }, err cancelled), rw e refl, λ h. (m, λ y. refl), λ h. cc)
    | inr e ↦ elim (Result-cases (persist S I id v d ix).1) [
      | inr (x, q) ↦ (
        ((persist S I id v d ix).0, err x),
        rw (embed_loop, e, q) refl,
        λ h. persist-Keeps S I id v d ix m bv (λ f. h (sym q ∙ f)),
        λ h. cc,
      )
      | inl (u, q) ↦
          let d' = (persist S I id v d ix).0 in
          let ix' = (I.add id v ix).0 in
          let (at, added) = persist_ok id v d ix q in
          let (_, _, _, vectors) = I.add_law id v ix added in
          let no_error : (persist S I id v d ix).1 ≢ err store_error = λ f. cc in
          let (kept, triples) = persist-Keeps S I id v d ix m bv no_error in
          let m' : Mirrors S I d'.db.store ix' = rw (IsMirrored, at) at kept in
          let (r, loaded, keeps, embeds) =
            embed_loop_lem done (suc n) ids rest d' ix' m' b (omega arith) in
          (
            r,
            rw (embed_loop, e, q, at) loaded,
            λ h. let (kept', triples') = keeps h in (kept', λ y. triples' y ∙ triples y),
            λ h.
                let found = embeds h in
                record {
                  index = found.index;
                  at = found.at;
                  others = λ j o.
                      let other : bytes_eq id j ≡ false = ground arith in
                      found.others j (ground arith) ∙ vectors j ∙ rw other refl;
                  has = λ j i. elim (Bool-cases (is_in j ids)) [
                    | inl later ↦ found.has j later
                    | inr later ↦
                        let this : bytes_eq id j ≡ true = ground arith in
                        (v, found.others j later ∙ vectors j ∙ rw this refl)
                  ];
                },
          )
    ]
  ]
