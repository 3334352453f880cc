-- ===== src/Vectors/Search.antt =====
-- vectors.go: the searches.
use levelgraph.Prelude.{
  ℕ, suc, ◌+◌, ◌-◌, ◌*◌, ◌%◌, ◌^◌, ◌<◌, ◌≡◌, refl, ap, Bool-cases, inl, inr, zero, Bool, true,
  false, ◌&&◌, Option, none, some, List, [], ◌∷◌, arith, take, if◌then◌else◌, ltb, leb,
}
use levelgraph.Prelude.Int.{ℤ, pos, negsuc}
use levelgraph.Prelude.Bytes.{Bytes, bytes_eq}
use levelgraph.Store.{KvStore}
use levelgraph.Vector.Interface.{VectorIndex, Outcome, Match}
use levelgraph.Vector.Id.{parse_id, id_type_subject, id_type_object}
use levelgraph.Vectors.{
  Result, ok, err, closed, vectors_disabled, embedder_required, cancelled, embed_error, index_error,
  VectorDb, Update, checked, set_vector,
}

pub record VectorMatch : Type 0 where
  pub id : Bytes
  pub score : ℕ
  pub distance : ℕ
  pub id_type : Bytes
  pub parts : List Bytes

-- The loop over the matches; `none` is a panic of `ParseID`.
unfoldable pub parse_matches : List (Match ℕ) → Option (List VectorMatch)
parse_matches [] = some []
parse_matches (m ∷ matches) = elim (parse_id m.id) [
  | none ↦ none
  | some (id_type, parts) ↦ elim (parse_matches matches) [
    | none ↦ none
    | some results ↦ some (
        record {
          id = m.id;
          score = m.score;
          distance = m.distance;
          id_type = id_type;
          parts = parts;
        }
        ∷ results)
  ]
]

-- `2 * k` of an int.
unfoldable pub twice : ℤ → ℤ
twice (pos n) = let m = 2 * n % 2 ^ 64 in if ltb m (2 ^ 63) then pos m else negsuc (2 ^ 64 - m - 1)
twice (negsuc n) =
    let m = 2 * suc n % 2 ^ 64 in
    if ltb 0 m && leb m (2 ^ 63) then negsuc (m - 1) else pos ((2 ^ 64 - m) % 2 ^ 64)

-- The loop of `SearchSimilarObjects` and `SearchSimilarSubjects`, with `n` results found.
unfoldable pub filter_loop : Bytes → ℕ → ℕ → List VectorMatch → List VectorMatch
filter_loop wanted k n [] = []
filter_loop wanted k n (r ∷ results) =
    let more = filter_loop wanted k (suc n) results in
    let rest = filter_loop wanted k n results in
    if bytes_eq r.id_type wanted then if leb k (suc n) then r ∷ [] else r ∷ more else rest

module _ (S : KvStore) (I : VectorIndex ℕ) where
  -- `none` is a panic.
  unfoldable pub search_vectors :
      Bool → List ℕ → ℤ → VectorDb S I → Option (Result (List VectorMatch))
  search_vectors done query k d = elim (checked S I done d) [
    | err e ↦ some (err e)
    | ok ix ↦ elim (I.search query k ix) [
      | none ↦ none
      | some (Outcome.err e) ↦ some (err (index_error e))
      | some (Outcome.ok matches) ↦ elim (parse_matches matches) [
        | none ↦ none
        | some results ↦ some (ok results)
      ]
    ]
  ]

  abbrev filtered :
      Bytes → ℤ → Option (Result (List VectorMatch)) → Option (Result (List VectorMatch))
  filtered wanted (pos n) (some (ok results)) = some (ok (filter_loop wanted n 0 results))
  filtered wanted (negsuc n) (some (ok results)) = none
  filtered wanted k other = other

  -- Both searches, for the type of identifiers that they keep. `make` panics where k is negative,
  -- and 2 * k is not. (That it panics where the memory does not hold a capacity of k is left out.)
  unfoldable pub search_similar :
      Bytes → Bool → List ℕ → ℤ → VectorDb S I → Option (Result (List VectorMatch))
  search_similar wanted done query k d = filtered wanted k (search_vectors done query (twice k) d)

  unfoldable pub search_similar_objects :
      Bool → List ℕ → ℤ → VectorDb S I → Option (Result (List VectorMatch))
  unfolding search_similar
  search_similar_objects = search_similar id_type_object

  unfoldable pub search_similar_subjects :
      Bool → List ℕ → ℤ → VectorDb S I → Option (Result (List VectorMatch))
  unfolding search_similar
  search_similar_subjects = search_similar id_type_subject

  -- `Embedder.Embed`; `none` is an error.
  abbrev pub Embed : Type 0
  Embed = Bytes → Option (List ℕ)

  -- `later` is whether the context is done when `SearchVectors` looks at it.
  unfoldable pub search_vectors_by_text :
      Option Embed → Bool → Bool → Bytes → ℤ → VectorDb S I → Option (Result (List VectorMatch))
  search_vectors_by_text embedder done later text k d =
      if d.db.closed then some (err closed) else elim d.index [
        | none ↦ some (err vectors_disabled)
        | some ix ↦ elim embedder [
          | none ↦ some (err embedder_required)
          | some embed ↦ if done then some (err cancelled) else elim (embed text) [
            | none ↦ some (err embed_error)
            | some query ↦ search_vectors later query k d
          ]
        ]
      ]

  unfoldable pub embed_and_set_vector :
      Option Embed → Bool → Bool → Bytes → Bytes → VectorDb S I → Update S I
  embed_and_set_vector embedder done later id text d =
      if d.db.closed then (d, err closed) else elim d.index [
        | none ↦ (d, err vectors_disabled)
        | some ix ↦ elim embedder [
          | none ↦ (d, err embedder_required)
          | some embed ↦ if done then (d, err cancelled) else elim (embed text) [
            | none ↦ (d, err embed_error)
            | some v ↦ set_vector S I later id v d
          ]
        ]
      ]

-- The results of a type of identifiers.
unfoldable pub of_type : Bytes → List VectorMatch → List VectorMatch
of_type wanted [] = []
of_type wanted (r ∷ results) =
    let rest = of_type wanted results in if bytes_eq r.id_type wanted then r ∷ rest else rest

filter_loop_lem :
    (wanted : Bytes) (k n : ℕ) (results : List VectorMatch)
    → filter_loop wanted (suc (n + k)) n results ≡ take (suc k) (of_type wanted results)
unfolding filter_loop of_type
filter_loop_lem wanted k n [] = refl
filter_loop_lem wanted zero n (r ∷ results) =
    let last : leb (suc (n + 0)) (suc n) ≡ true = ground arith in
    let rest = filter_loop_lem wanted zero n results in
    rw last
      (elim (Bool-cases (bytes_eq r.id_type wanted)) [ inl e ↦ rw e refl | inr e ↦ rw e rest ])
filter_loop_lem wanted (suc k) n (r ∷ results) =
    let more : leb (suc (n + suc k)) (suc n) ≡ false = ground arith in
    let shift : n + suc k ≡ suc n + k = omega arith in
    let rest = filter_loop_lem wanted (suc k) n results in
    let next = rw (← shift) at (filter_loop_lem wanted k (suc n) results) in
    rw more (elim (Bool-cases (bytes_eq r.id_type wanted)) [
      | inl e ↦ rw e (ap (λ l. r ∷ l) next)
      | inr e ↦ rw e rest
    ])

module _ (S : KvStore) (I : VectorIndex ℕ) where
  -- For a positive k, `SearchSimilarObjects` and `SearchSimilarSubjects` return the first k
  -- results of their type among those of `SearchVectors` for 2 * k, in the same order.
  pub search_similar_lem :
      (wanted : Bytes) (done : Bool) (query : List ℕ) (k : ℕ) (d : VectorDb S I)
      (results : List VectorMatch)
      → 0 < k
      → search_vectors S I done query (twice (pos k)) d ≡ some (ok results)
      → search_similar S I wanted done query (pos k) d ≡ some (ok (take k (of_type wanted results)))
  unfolding search_similar
  search_similar_lem wanted done query (suc k) d results h e =
      let start : 0 + k ≡ k = omega arith in
      let found = rw start at (filter_loop_lem wanted k 0 results) in
      rw e (ap (λ l. some (ok l)) found)
  search_similar_lem wanted done query zero d results h e = absurd (omega arith)
