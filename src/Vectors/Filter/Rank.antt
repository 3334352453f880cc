-- ===== src/Vectors/Filter/Rank.antt =====
-- search.go: what `applyVectorFilter` ranks, where it scores every solution.
use levelgraph.Prelude.{
  ℕ, ◌^◌, ◌<◌, ◌≡◌, ap, ◌∙◌, ◌⊎◌, false, none, some, List, [], ◌∷◌, ◌++◌, length, All,
}
use levelgraph.Prelude.Bytes.{Bytes, slice_bytes, bytes_eq_refl}
use levelgraph.Prelude.Assoc.{Assoc, lookup, lookup-insert}
use mathlib.Core.List.{Permᴰ as Perm}
use levelgraph.Graph.Solution.{Solution, clone}
use levelgraph.Vector.Bits.{vector_to_bytes, bytes_to_vector-vector_to_bytes}
use levelgraph.Vector.Float.{Float}
use levelgraph.Vector.Interface.{VectorIndex}
use levelgraph.Vector.Id.{make_id}
use levelgraph.Vectors.Filter.{
  Scored, marked, top, fresh_score, score_key, score_in, first_or, get_vector_score,
}

abbrev no_scores : Assoc ℕ
no_scores = []

module _ (F : Float ℕ) (I : VectorIndex ℕ) where
  -- The solutions that bind the variable, each with the score of its own value.
  unfoldable pub scores : Bytes → Bytes → List ℕ → I.State → List Solution → List Scored
  scores x id_type query ix [] = []
  scores x id_type query ix (s ∷ ss) = elim (lookup x s) [
    | none ↦ scores x id_type query ix ss
    | some value ↦
        record {
          solution = s;
          score = fresh_score F I query (make_id id_type (slice_bytes value ∷ [])) ix;
        }
        ∷ scores x id_type query ix ss
  ]

module _ (F : Float ℕ) where
  -- No score of `xs` is below one of `ys`.
  abbrev pub IsBetter : List Scored → List Scored → Type 0
  IsBetter xs ys = All (λ x. All (λ y. F.lt x.score y.score ≡ false) ys) xs

  nothing-IsBetter : (xs : List Scored) → IsBetter xs []
  nothing-IsBetter [] = tt
  nothing-IsBetter (x ∷ xs) = (tt, nothing-IsBetter xs)

  -- What the first k of a list are, and what they leave.
  record Cut (k : ℕ) (xs : List Scored) : Type 0 where
    best : List Scored
    rest : List Scored
    taken : top F k xs ≡ best
    whole : best ++ rest ≡ xs
    full : (rest ≡ []) ⊎ ((0 < k) × (length best ≡ k))

-- `GetVectorScore` reads the score out of a result.
get_vector_score-marked :
    (F : Float ℕ) (x : Scored) → x.score < 2 ^ 32 → get_vector_score F (marked x) ≡ x.score
unfolding get_vector_score marked
get_vector_score-marked F x h =
    let bits = vector_to_bytes (x.score ∷ []) in
    let found = lookup-insert score_key score_key (some bits) (clone x.solution) in
    let read = bytes_to_vector-vector_to_bytes (x.score ∷ []) (h, tt) in
    let there = rw (bytes_eq_refl score_key) at found in
    ap (score_in F) there ∙ ap (first_or F.zero) read
