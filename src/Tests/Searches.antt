-- ===== src/Tests/Searches.antt =====
-- Searches of the database that holds two triples.
use levelgraph.Prelude.{
  ℕ, ◌≤◌, Option, none, ◌≡◌, refl, false, some, List, [], ◌∷◌, arith, Mem, All,
}
use levelgraph.Graph.Solution.{Solution, Extends}
use levelgraph.MemStore.{write}
use levelgraph.MemStore.Laws.{mem_store, iterate_total}
use levelgraph.Db.State.{ok}
use levelgraph.Db.Write.{update, write_batch}
use levelgraph.Search.{SearchOptions, search, no_options, start_solution}
use levelgraph.Search.Iterator.{SolutionIterator, search_iterator, all_solutions}
use levelgraph.Search.Iterator.Walk.{search_iterator_lem}
use levelgraph.Search.Join.{search_exact, Found, IsUncut}
use levelgraph.Tests.Data.{friends, exactly_bob}
use levelgraph.Tests.Stores.{filled, filled_refines, filled_open}

filled_store_open : filled.store.closed ≡ false
unfolding update write_batch write
filled_store_open = ground arith

no_default_limit : All (IsUncut filled) (friends ∷ exactly_bob ∷ [])
unfolding update write_batch
no_default_limit = ground arith

search_exact_example :
    (found : List Solution) × (search mem_store
        (λ i. false)
        filled
        (friends ∷ exactly_bob ∷ [])
        (some (record no_options { initial_solution = some [] }))
      ≡ some (ok found))
    × ((s' : Solution)
        → Mem s' found
        → Extends (start_solution (some [])) s'
          × All (Found mem_store filled s') (friends ∷ exactly_bob ∷ []))
    × ((u : Solution)
        → Extends (start_solution (some [])) u
        → All (Found mem_store filled u) (friends ∷ exactly_bob ∷ [])
        → (s' : Solution) × Mem s' found × Extends s' u)
search_exact_example =
    search_exact mem_store filled filled_refines.0 filled_open
      (iterate_total filled.store filled_store_open) (λ i. false) friends (exactly_bob ∷ [])
      (some []) (λ i. refl) no_default_limit no_default_limit.0.1

abbrev both_patterns : Option SearchOptions
both_patterns = some (record no_options { initial_solution = some [] })

search_iterator_lem_example :
    (fuel : ℕ) × (last : SolutionIterator) × (last.failed ≡ none)
    × ((n : ℕ)
        → fuel ≤ n
        → all_solutions mem_store n filled
            (search_iterator (friends ∷ exactly_bob ∷ []) both_patterns)
          ≡ some (search_exact_example.0, last))
search_iterator_lem_example =
    search_iterator_lem mem_store filled (λ i. false) friends (exactly_bob ∷ []) both_patterns
      search_exact_example.0 search_exact_example.1 refl no_default_limit.0.1
