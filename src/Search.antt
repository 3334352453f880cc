-- ===== src/Search.antt =====
-- search.go, `Search`: the join of several patterns, one after the other, and what is done to its
-- solutions. `applyVectorFilter` is a parameter.
pub mod Loop
pub mod Join
pub mod Iterator
use levelgraph.Prelude.{
  ℕ, zero, suc, Bool, true, false, Option, none, some, List, [], ◌∷◌, ◌++◌, if◌then◌else◌, ltb, leb,
  length, take, drop,
}
use levelgraph.Prelude.Int.{ℤ, pos, pos_part}
use levelgraph.Prelude.Bytes.{Bytes, codes}
use levelgraph.Prelude.Assoc.{lookup, insert}
use levelgraph.Graph.Triple.{Triple, subject, predicate, object, Field}
use levelgraph.Graph.Solution.{Solution, Variable, clone}
use levelgraph.Graph.Pattern.{
  Pattern, update_with_solution, bind_triple_fast, get_variable, get_concrete_value,
}
use levelgraph.Store.{KvStore}
use levelgraph.Db.State.{Db, Result, ok, err, ◌>>=◌, err_closed, cancelled}
use levelgraph.Db.Read.{get_unlocked, effective_limit}
use levelgraph.Db.Values.{accepts}

-- `vector_filter` is `applyVectorFilter` where the options ask for it and the database has an
-- index.
pub record SearchOptions : Type 0 where
  pub limit : ℤ
  pub offset : ℤ
  pub filter : Option (Solution → Bool)
  pub materialized : Option Pattern
  pub initial_solution : Option Solution
  pub vector_filter : Option (List Solution → Result (List Solution))

-- What a nil pointer to the options stands for.
abbrev pub no_options : SearchOptions
no_options = record {
  limit = pos 0;
  offset = pos 0;
  filter = none;
  materialized = none;
  initial_solution = none;
  vector_filter = none;
}

abbrev pub options_or : Option SearchOptions → SearchOptions
options_or none = no_options
options_or (some o) = o

abbrev pub start_solution : Option Solution → Solution
start_solution none = []
start_solution (some s) = clone s

-- The innermost loop: the solutions that one solution grows into over the triples it met.
unfoldable pub bind_triples : Pattern → Solution → List Triple → List Solution
bind_triples p s [] = []
bind_triples p s (t ∷ ts) =
    let rest = bind_triples p s ts in
    elim (bind_triple_fast p (some s) t) [
      | none ↦ rest
      | some s' ↦ if accepts p.filter t then s' ∷ rest else rest
    ]

unfoldable pub keep : Option (Solution → Bool) → List Solution → List Solution
keep none ss = ss
keep (some f) [] = []
keep (some f) (s ∷ ss) = let rest = keep (some f) ss in if f s then s ∷ rest else rest

abbrev pub filter_vectors :
    Option (List Solution → Result (List Solution)) → List Solution → Result (List Solution)
filter_vectors none ss = ok ss
filter_vectors (some f) ss = f ss

unfoldable pub skip_offset : ℕ → List Solution → List Solution
skip_offset offset ss =
    if ltb 0 offset then if leb (length ss) offset then [] else drop offset ss else ss

unfoldable pub cut_limit : ℕ → List Solution → List Solution
cut_limit limit ss = if ltb 0 limit then if ltb limit (length ss) then take limit ss else ss else ss

abbrev pub field_name : Field → Bytes
field_name subject = codes "subject"
field_name predicate = codes "predicate"
field_name object = codes "object"
field_name (Field.other name) = name

abbrev put_value : Field → Option (Option Bytes) → Solution → Solution
put_value f none out = out
put_value f (some val) out = insert (field_name f) val out

-- One field of a materialised solution: the variable's value, if it is bound, or the concrete
-- value.
unfoldable pub materialize_field : Pattern → Solution → Field → Solution → Solution
materialize_field p s f out = elim (get_variable p f) [
  | some x ↦ put_value f (lookup x.name s) out
  | none ↦ elim (get_concrete_value p f) [
    | none ↦ out
    | some val ↦ insert (field_name f) (some val) out
  ]
]

unfoldable pub materialize : Pattern → Solution → Solution
materialize p s =
    materialize_field p s object
      (materialize_field p s predicate (materialize_field p s subject []))

unfoldable pub materialize_solutions : Pattern → List Solution → List Solution
materialize_solutions p [] = []
materialize_solutions p (s ∷ ss) = materialize p s ∷ materialize_solutions p ss

abbrev pub materialize_if : Option Pattern → List Solution → List Solution
materialize_if none ss = ss
materialize_if (some p) ss = materialize_solutions p ss

-- What follows the join.
unfoldable pub finish : ℤ → SearchOptions → List Solution → Result (List Solution)
finish default_limit o ss = do
  ranked ← filter_vectors o.vector_filter (keep o.filter ss)
  ok (
      materialize_if o.materialized (
        cut_limit (pos_part (effective_limit o.limit default_limit))
          (skip_offset (pos_part o.offset) ranked)))

module _ (S : KvStore) where
  -- One pattern, over the solutions so far: each asks for the triples of the pattern with its
  -- values.
  unfoldable pub join_pattern :
      Db S.State → Pattern → List Solution → Option (Result (List Solution))
  join_pattern db p [] = some (ok [])
  join_pattern db p (s ∷ ss) =
      let rest = join_pattern db p ss in
      elim (get_unlocked S db (update_with_solution p s)) [
        | none ↦ none
        | some (err e) ↦ some (err e)
        | some (ok ts) ↦ elim rest [
          | none ↦ none
          | some r ↦ some (do more ← r; ok (bind_triples p s ts ++ more))
        ]
      ]

  -- The loop over the patterns; `done i` is whether the context is done at the `i`-th of them.
  unfoldable pub join_loop :
      Db S.State → (ℕ → Bool) → ℕ → List Pattern → List Solution → Option (Result (List Solution))
  join_loop db done i [] ss = some (ok ss)
  join_loop db done i (p ∷ ps) ss =
      if done i then some (err cancelled) else elim (join_pattern db p ss) [
        | none ↦ none
        | some (err e) ↦ some (err e)
        | some (ok []) ↦ some (ok [])
        | some (ok (s' ∷ ss')) ↦ join_loop db done (suc i) ps (s' ∷ ss')
      ]

  unfoldable pub search :
      (ℕ → Bool)
      → Db S.State
      → List Pattern
      → Option SearchOptions
      → Option (Result (List Solution))
  search done db [] opts = if db.closed then some (err err_closed) else some (ok [])
  search done db (p ∷ ps) opts =
      let o = options_or opts in
      if db.closed
      then some (err err_closed)
      else elim (join_loop db done 0 (p ∷ ps) (start_solution o.initial_solution ∷ [])) [
        | none ↦ none
        | some r ↦ some (do ss ← r; finish db.options.default_limit o ss)
      ]
