-- ===== src/Tests/Filters.antt =====
-- Solutions ranked by their vectors.
use levelgraph.Prelude.{some, List, [], ◌∷◌}
use levelgraph.Prelude.Int.{pos}
use levelgraph.Prelude.Bytes.{codes}
use mathlib.Core.List.{Permᴰ as Perm}
use levelgraph.Graph.Solution.{Solution}
use levelgraph.Vector.Id.{id_type_object}
use levelgraph.Vectors.Filter.{VectorFilter, Scored}
use levelgraph.Vectors.Filter.Rank.{scores}
use levelgraph.Tests.Floats.{numbers, flat, no_vectors}

abbrev two_solutions : List Solution
two_solutions =
    ((codes "x", some (codes "tea")) ∷ []) ∷ ((codes "y", some (codes "milk")) ∷ []) ∷ []

abbrev near_five : VectorFilter
near_five = record {
  variable = codes "x";
  query = some (5 ∷ []);
  query_text = [];
  top_k = pos 1;
  min_score = 0;
  id_type = [];
}

abbrev two_scores : List Scored
two_scores = scores numbers flat (codes "x") id_type_object (5 ∷ []) no_vectors two_solutions
