-- ===== src/Vectors/Filter.antt =====
-- search.go, `applyVectorFilter` and `GetVectorScore`: solutions ranked by the vectors of the
-- values of a variable. A score is the 32 bits of a float32.
pub mod Rank
use levelgraph.Prelude.{
  ℕ, zero, suc, ◌+◌, ◌-◌, ◌*◌, ◌%◌, ◌^◌, ◌≡◌, Bool, true, false, not, ◌&&◌, ◌||◌, Option, none,
  some, List, [], ◌∷◌, ◌++◌, if◌then◌else◌, ltb, leb, ◌==◌, length, take, map, All,
}
use levelgraph.Prelude.Int.{ℤ, pos, negsuc, pos_part}
use levelgraph.Prelude.Bytes.{Bytes, codes, slice_bytes, bytes_eq}
use levelgraph.Prelude.Assoc.{Assoc, lookup, insert}
use mathlib.Core.List.{Permᴰ as Perm}
use levelgraph.Graph.Solution.{Solution, clone}
use levelgraph.Store.{KvStore}
use levelgraph.Container.{SliceSort}
use levelgraph.Vector.Float.{Float}
use levelgraph.Vector.Distance.{normalize_score, cosine}
use levelgraph.Vector.Interface.{VectorIndex, Outcome, Match}
use levelgraph.Vector.Bits.{vector_to_bytes, bytes_to_vector}
use levelgraph.Vector.Id.{make_id, parse_id, id_type_object}
use levelgraph.Vectors.{Result, ok, err, embedder_required, embed_error}

pub record VectorFilter : Type 0 where
  pub variable : Bytes
  pub query : Option (List ℕ)
  pub query_text : Bytes
  pub top_k : ℤ
  pub min_score : ℕ
  pub id_type : Bytes

-- `scoredSolution`
pub record Scored : Type 0 where
  pub solution : Solution
  pub score : ℕ

abbrev pub score_key : Bytes
score_key = codes "__vector_score__"

abbrev pub first_or : ℕ → Option (List ℕ) → ℕ
first_or zero_score none = zero_score
first_or zero_score (some []) = zero_score
first_or zero_score (some (x ∷ v)) = x

-- The result for a solution: a copy with the score's bytes under a name of its own.
unfoldable pub marked : Scored → Solution
marked x = insert score_key (some (vector_to_bytes (x.score ∷ []))) (clone x.solution)

unfoldable pub optimization_threshold : ℕ
optimization_threshold = 500

-- The int with these 64 bits.
abbrev pub int_of_bits : ℕ → ℤ
int_of_bits n = let m = n % 2 ^ 64 in if ltb m (2 ^ 63) then pos m else negsuc (2 ^ 64 - m - 1)

-- How many matches the index is asked for.
abbrev pub search_k : ℕ → ℤ
search_k top_k =
    let k = int_of_bits (top_k * 5) in
    if ltb (pos_part k) optimization_threshold then pos optimization_threshold else k

-- `uniqueValues`, after the loop over the solutions.
unfoldable pub unique_values : Bytes → List Solution → Assoc (List Solution) → Assoc (List Solution)
unique_values x [] values = values
unique_values x (s ∷ ss) values = unique_values x ss (elim (lookup x s) [
  | none ↦ values
  | some value ↦ elim (lookup (slice_bytes value) values) [
    | none ↦ insert (slice_bytes value) (s ∷ []) values
    | some others ↦ insert (slice_bytes value) (others ++ s ∷ []) values
  ]
])

abbrev pub scored_all : ℕ → List Solution → List Scored
scored_all score [] = []
scored_all score (s ∷ ss) = record { solution = s; score = score } ∷ scored_all score ss

-- What the loop over the index's matches ends with: solutions enough, or the cache alone.
pub data Lookup : Type 0 where
  enough : List Scored → Lookup
  too_few : Assoc ℕ → Lookup

abbrev pub id_type_or_object : Bytes → Bytes
id_type_or_object id_type = if bytes_eq id_type [] then id_type_object else id_type

module _ (F : Float ℕ) where
  -- `a >= b`
  abbrev pub at_least : ℕ → ℕ → Bool
  at_least a b = F.lt b a || F.same a b

  abbrev pub score_in : Option (Option Bytes) → ℕ
  score_in none = F.zero
  score_in (some bytes) = first_or F.zero (bytes_to_vector (slice_bytes bytes))

  unfoldable pub get_vector_score : Solution → ℕ
  get_vector_score s = score_in (lookup score_key s)

  -- `none` is a panic of `ParseID`.
  unfoldable pub match_loop :
      VectorFilter
      → Assoc (List Solution)
      → List (Match ℕ)
      → ℕ
      → Assoc ℕ
      → List Scored
      → Option Lookup
  match_loop vf values [] count cache scored = some (too_few cache)
  match_loop vf values (m ∷ matches) count cache scored = elim (parse_id m.id) [
    | none ↦ none
    | some (id_type, []) ↦ match_loop vf values matches count cache scored
    | some (id_type, part ∷ parts) ↦ elim (lookup part values) [
      | none ↦ match_loop vf values matches count cache scored
      | some ss ↦ elim (leb (pos_part vf.top_k) (suc count) && at_least m.score vf.min_score) [
        | true ↦ some (enough (scored ++ scored_all m.score ss))
        | false ↦
            match_loop vf values matches (suc count) (insert m.id m.score cache)
              (scored ++ scored_all m.score ss)
      ]
    ]
  ]

  -- The comparison that `sort.Slice` is given.
  abbrev pub is_better : Scored → Scored → Bool
  is_better x y = F.lt y.score x.score

  -- No score is above one that stands before it.
  abbrev pub IsBestFirst : List Scored → Type 0
  IsBestFirst [] = Unit
  IsBestFirst (x ∷ xs) = All (λ y. F.lt x.score y.score ≡ false) xs × IsBestFirst xs

  unfoldable pub at_least_min : ℕ → List Scored → List Scored
  at_least_min min [] = []
  at_least_min min (x ∷ xs) =
      let rest = at_least_min min xs in if at_least x.score min then x ∷ rest else rest

  abbrev pub eligible : ℕ → List Scored → List Scored
  eligible min xs = if F.lt F.zero min then at_least_min min xs else xs

  abbrev pub top : ℕ → List Scored → List Scored
  top k xs = if ltb 0 k && ltb k (length xs) then take k xs else xs

  module _ (I : VectorIndex ℕ) where
    unfoldable pub fresh_score : List ℕ → Bytes → I.State → ℕ
    fresh_score query id ix = elim (I.get id ix) [
      | Outcome.err e ↦ F.zero
      | Outcome.ok v ↦ normalize_score F (cosine F query v)
    ]

    -- The loop over all solutions, with the scores cached.
    unfoldable pub score_loop :
        Bytes → Bytes → List ℕ → I.State → Assoc ℕ → List Solution → List Scored
    score_loop x id_type query ix cache [] = []
    score_loop x id_type query ix cache (s ∷ ss) = elim (lookup x s) [
      | none ↦ score_loop x id_type query ix cache ss
      | some value ↦ elim (lookup (make_id id_type (slice_bytes value ∷ [])) cache) [
        | some score ↦
            record { solution = s; score = score } ∷ score_loop x id_type query ix cache ss
        | none ↦
            let id = make_id id_type (slice_bytes value ∷ []) in
            let score = fresh_score query id ix in
            record { solution = s; score = score }
            ∷ score_loop x id_type query ix (insert id score cache) ss
      ]
    ]

    -- The lookup in the index, where it is tried.
    unfoldable pub try_index : VectorFilter → List ℕ → I.State → List Solution → Option Lookup
    try_index vf query ix solutions =
        let values = unique_values vf.variable solutions [] in
        if ltb 0 (pos_part vf.top_k)
          && (ltb optimization_threshold (length solutions)
              && ltb optimization_threshold (length values))
        then elim (I.search query (search_k (pos_part vf.top_k)) ix) [
          | none ↦ none
          | some (Outcome.err e) ↦ some (too_few [])
          | some (Outcome.ok matches) ↦ match_loop vf values matches 0 [] []
        ]
        else some (too_few [])

  module _ (sorter : SliceSort Scored) where
    -- From `finalize` on.
    unfoldable pub finalize : VectorFilter → List Scored → List Solution
    finalize vf scored =
        map marked (top (pos_part vf.top_k) (sorter.sort is_better (eligible vf.min_score scored)))

    module _ (I : VectorIndex ℕ) where
      -- From the query vector on.
      unfoldable pub rank : VectorFilter → List ℕ → I.State → List Solution → Option (List Solution)
      rank vf query ix solutions = elim (try_index I vf query ix solutions) [
        | none ↦ none
        | some (enough scored) ↦ some (finalize vf scored)
        | some (too_few cache) ↦ some (
            finalize vf
              (score_loop I vf.variable (id_type_or_object vf.id_type) query ix cache solutions))
      ]

      abbrev pub ranked : Option (List Solution) → Option (Result (List Solution))
      ranked none = none
      ranked (some ss) = some (ok ss)

      -- With the filter's own query, or with none.
      abbrev pub apply_query :
          Option (Bytes → Option (List ℕ))
          → VectorFilter
          → I.State
          → List Solution
          → Option (List ℕ)
          → Option (Result (List Solution))
      apply_query embedder vf ix ss (some query) = ranked (rank vf query ix ss)
      apply_query embedder vf ix ss none =
          if bytes_eq vf.query_text [] then some (ok ss) else elim embedder [
            | none ↦ some (err embedder_required)
            | some embed ↦ elim (embed vf.query_text) [
              | none ↦ some (err embed_error)
              | some query ↦ ranked (rank vf query ix ss)
            ]
          ]

      -- `embed` is `Embedder.Embed`, `ix` the index of the options. `none` is a panic.
      unfoldable pub apply_vector_filter :
          Option (Bytes → Option (List ℕ))
          → VectorFilter
          → I.State
          → List Solution
          → Option (Result (List Solution))
      apply_vector_filter embedder vf ix [] = some (ok [])
      apply_vector_filter embedder vf ix (s ∷ ss) = apply_query embedder vf ix (s ∷ ss) vf.query
