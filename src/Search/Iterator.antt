-- ===== src/Search/Iterator.antt =====
-- search.go, `SearchIterator` and `SolutionIterator`: the join one solution at a time. The arrays
-- `iters` and `solutions` are a stack: the levels whose iterator is not nil are always the first
-- ones, and only their entries of `solutions` are read.
pub mod Levels
pub mod Solve
pub mod Window
pub mod Rounds
pub mod Walk
use levelgraph.Prelude.{
  ℕ, suc, zero, Bool, true, false, not, ◌&&◌, ◌||◌, Option, none, some, List, [], ◌∷◌,
  if◌then◌else◌, ltb, leb,
}
use levelgraph.Prelude.Int.{pos_part}
use levelgraph.Graph.Triple.{Triple}
use levelgraph.Graph.Solution.{Solution}
use levelgraph.Graph.Pattern.{Pattern, present, update_with_solution, bind_triple_fast, made_map}
use levelgraph.Store.{KvStore}
use levelgraph.Db.State.{Db, Error, Result, ok, err, err_closed, cancelled}
use levelgraph.Db.Read.{
  TripleIterator, next, current_triple, effective_limit, get_iterator_unlocked,
}
use levelgraph.Db.Values.{accepts}
use levelgraph.Search.{SearchOptions, options_or, start_solution, materialize}

-- An active level: its pattern, its iterator, and the solution before the pattern.
pub record Level : Type 0 where
  pub pattern : Pattern
  pub iter : TripleIterator
  pub solution : Solution

-- The active levels, the deepest first, and the patterns of the levels below it.
pub record SolutionIterator : Type 0 where
  pub active : List Level
  pub ahead : List Pattern
  pub start : Option Solution
  pub opts : SearchOptions
  pub current : Option Solution
  pub failed : Option Error
  pub count : ℕ
  pub skipped : ℕ
  pub closed : Bool

unfoldable pub search_iterator : List Pattern → Option SearchOptions → SolutionIterator
search_iterator patterns opts = record {
  active = [];
  ahead = patterns;
  start = some (start_solution (options_or opts).initial_solution);
  opts = options_or opts;
  current = none;
  failed = none;
  count = 0;
  skipped = 0;
  closed = false;
}

-- An iterator of the store that carries an error visits nothing; nobody asks it for the error.
abbrev pub visits_nothing : Pattern → TripleIterator
visits_nothing p = record {
  pending = [];
  filter = p.filter;
  offset = p.offset;
  limit = p.limit;
  count = 0;
  skipped = 0;
  here = [];
}

abbrev pub all_patterns : List Level → List Pattern → List Pattern
all_patterns [] ahead = ahead
all_patterns (l ∷ levels) ahead = all_patterns levels (l.pattern ∷ ahead)

-- What a round of the loop over the levels comes to.
pub data Round : Type 0 where
  on : List Level → List Pattern → Round
  full : Solution → List Level → List Pattern → Round
  broken : Error → List Level → List Pattern → Round

-- What `advance` returns, with the levels that it leaves: nil is `over`, or `failed` with `err`
-- set.
pub data Advance : Type 0 where
  over : List Pattern → Advance
  found : Solution → List Level → List Pattern → Advance
  failed : Error → List Level → List Pattern → Advance

-- `Close`: the iterators are released.
abbrev pub close_iterator : SolutionIterator → SolutionIterator
close_iterator si =
    if si.closed
    then si
    else record si { active = []; ahead = all_patterns si.active si.ahead; closed = true }

abbrev pub passes_filter : Option (Solution → Bool) → Solution → Bool
passes_filter none s = true
passes_filter (some f) s = f s

-- `materialize`, where the options ask for it.
abbrev pub delivered : Option Pattern → Solution → Solution
delivered none s = s
delivered (some p) s = materialize p s

module _ (S : KvStore) where
  unfoldable pub get_iterator : Db S.State → Pattern → Result TripleIterator
  get_iterator db p =
      if db.closed
      then err err_closed
      else elim (get_iterator_unlocked S db p) [ none ↦ ok (visits_nothing p) | some ti ↦ ok ti ]

  -- A triple that can be bound: a full solution, or the next level.
  unfoldable pub descend : Db S.State → Solution → List Level → List Pattern → Round
  descend db s levels [] = full s levels []
  descend db s levels (q ∷ ahead) = elim (get_iterator db (update_with_solution q s)) [
    | err e ↦ broken e levels (q ∷ ahead)
    | ok it ↦ on (record { pattern = q; iter = it; solution = s } ∷ levels) ahead
  ]

  -- The triple at which the deepest iterator stands.
  unfoldable pub try_triple : Db S.State → Level → List Level → List Pattern → Triple → Round
  try_triple db l levels ahead t = elim (bind_triple_fast l.pattern (some l.solution) t) [
    | none ↦ on (l ∷ levels) ahead
    | some s ↦
        if not (accepts l.pattern.filter t)
        then on (l ∷ levels) ahead
        else descend db s (l ∷ levels) ahead
  ]

  unfoldable pub round : Db S.State → Level → List Level → List Pattern → Round
  round db l levels ahead = elim (next l.iter) [
    | none ↦ on levels (l.pattern ∷ ahead)
    | some it ↦ elim (current_triple it) [
      | err e ↦ broken e (record l { iter = it } ∷ levels) ahead
      | ok t ↦ try_triple db (record l { iter = it }) levels ahead t
    ]
  ]

  -- `for level >= 0`; `none` is the fuel's end.
  unfoldable pub level_loop : ℕ → Db S.State → List Level → List Pattern → Option Advance
  level_loop fuel db [] ahead = some (over ahead)
  level_loop zero db (l ∷ levels) ahead = none
  level_loop (suc fuel) db (l ∷ levels) ahead = elim (round db l levels ahead) [
    | on levels' ahead' ↦ level_loop fuel db levels' ahead'
    | full s levels' ahead' ↦ some (found s levels' ahead')
    | broken e levels' ahead' ↦ some (failed e levels' ahead')
  ]

  abbrev pub resumed : SolutionIterator → Advance → SolutionIterator × Option Solution
  resumed si (over ahead) = (record si { active = []; ahead = ahead }, none)
  resumed si (found s levels ahead) = (record si { active = levels; ahead = ahead }, some s)
  resumed si (failed e levels ahead) =
      (record si { active = levels; ahead = ahead; failed = some e }, none)

  -- The loop, from the levels given.
  unfoldable pub run_levels :
      ℕ
      → Db S.State
      → List Level
      → List Pattern
      → SolutionIterator
      → Option (SolutionIterator × Option Solution)
  run_levels fuel db levels ahead si = elim (level_loop fuel db levels ahead) [
    | none ↦ none
    | some a ↦ some (resumed si a)
  ]

  -- With no level active: the first pattern, or with no patterns the initial solution, once.
  unfoldable pub start_levels :
      ℕ
      → Db S.State
      → List Pattern
      → Option Solution
      → SolutionIterator
      → Option (SolutionIterator × Option Solution)
  start_levels fuel db [] none si = some (si, none)
  start_levels fuel db [] (some s) si = some (record si { start = none }, some s)
  start_levels fuel db (p ∷ ps) start si =
      elim (get_iterator db (update_with_solution p (made_map start))) [
        | err e ↦ some (record si { failed = some e }, none)
        | ok it ↦
            run_levels fuel db (record { pattern = p; iter = it; solution = made_map start } ∷ [])
              ps si
      ]

  abbrev pub advance_from :
      ℕ → Db S.State → List Level → SolutionIterator → Option (SolutionIterator × Option Solution)
  advance_from fuel db [] si = start_levels fuel db si.ahead si.start si
  advance_from fuel db (l ∷ levels) si = run_levels fuel db (l ∷ levels) si.ahead si

  -- The iterator after the call, and the solution or nil.
  unfoldable pub advance :
      ℕ → Db S.State → SolutionIterator → Option (SolutionIterator × Option Solution)
  advance fuel db si = advance_from fuel db si.active si

  -- The loop of `Next`, whose round `i` looks at the context.
  unfoldable pub solution_loop :
      ℕ → (ℕ → Bool) → ℕ → Db S.State → SolutionIterator → Option (SolutionIterator × Bool)
  solution_loop zero done i db si = none
  solution_loop (suc fuel) done i db si =
      if done i
      then some (record si { failed = some cancelled }, false)
      else elim (advance fuel db si) [
        | none ↦ none
        | some (si', none) ↦ some (close_iterator si', false)
        | some (si', some s) ↦ elim (passes_filter si'.opts.filter s) [
          | false ↦ solution_loop fuel done (suc i) db si'
          | true ↦ elim (ltb si'.skipped (pos_part si'.opts.offset)) [
            | true ↦ solution_loop fuel done (suc i) db (record si' { skipped = suc si'.skipped })
            | false ↦ some (
              record si' {
                current = some (delivered si'.opts.materialized s);
                count = suc si'.count;
              },
              true,
            )
          ]
        ]
      ]

  unfoldable pub next_solution :
      ℕ → (ℕ → Bool) → Db S.State → SolutionIterator → Option (SolutionIterator × Bool)
  next_solution fuel done db si =
      if si.closed || present si.failed
      then some (si, false)
      else if ltb 0 (pos_part si.opts.limit) && leb (pos_part si.opts.limit) si.count
      then some (si, false)
      else solution_loop fuel done 0 db si

  -- `for it.Next() { ... it.Solution() ... }`: the solutions, and the iterator behind the loop.
  unfoldable pub all_solutions :
      ℕ → Db S.State → SolutionIterator → Option (List Solution × SolutionIterator)
  all_solutions zero db si = none
  all_solutions (suc fuel) db si = elim (next_solution fuel (λ i. false) db si) [
    | none ↦ none
    | some (si', false) ↦ some ([], si')
    | some (si', true) ↦ elim (all_solutions fuel db si') [
      | none ↦ none
      | some (ss, last) ↦ some (made_map si'.current ∷ ss, last)
    ]
  ]
