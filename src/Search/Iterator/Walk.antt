-- ===== src/Search/Iterator/Walk.antt =====
-- search.go: `SolutionIterator` returns the solutions of `Search`.
use levelgraph.Prelude.{
  ℕ, zero, suc, ◌+◌, ◌≤◌, ◌≡◌, refl, sym, ap, ◌∙◌, Bool, true, false, Option, none, some, List, [],
  ◌∷◌, ◌++◌, ltb, arith, Bool-cases, Option-cases, inl, inr, subst,
}
use levelgraph.Prelude.Int.{pos_part}
use levelgraph.Graph.Solution.{Solution}
use levelgraph.Graph.Pattern.{Pattern, made_map, update_with_solution}
use levelgraph.Store.{KvStore}
use levelgraph.Db.State.{Db, ok}
use levelgraph.Db.Read.{TripleIterator, effective_limit}
use levelgraph.Search.{SearchOptions, options_or, start_solution, search, join_loop, finish}
use levelgraph.Search.Iterator.{
  Level, SolutionIterator, search_iterator, get_iterator, level_loop, run_levels, start_levels,
  advance, solution_loop, all_solutions, passes_filter, delivered, close_iterator,
}
use levelgraph.Search.Iterator.Levels.{Stream, level-Stream, get_iterator-Yields, Result-split}
use levelgraph.Search.Iterator.Solve.{join_loop-SolveList}
use levelgraph.Search.Iterator.Window.{
  at_limit, window, window_lem, window_rejected, window_skipped, window_returned,
}
use levelgraph.Search.Iterator.Rounds.{
  at_levels, collect, Ends, advance-over, advance-found, deliver-Ends, loop-found, loop-over,
  next-loop, all_solutions-collect,
}

module _ (S : KvStore) (db : Db S.State) where
  -- A round that returns nothing.
  later-Ends :
      (n i : ℕ) (si si' : SolutionIterator) (out : List Solution)
      → ((m : ℕ)
          → n ≤ m
          → solution_loop S (suc m) (λ i. false) i db si
            ≡ solution_loop S m (λ i. false) (suc i) db si')
      → Ends S db si' (suc i) out
      → Ends S db si i out
  later-Ends n i si si' out e w = record {
    fuel = suc (n + w.fuel);
    last = w.last;
    no_error = w.no_error;
    walk = go;
  }
    where
      go :
          (b m : ℕ)
          → suc (n + w.fuel) ≤ b
          → suc (n + w.fuel) ≤ m
          → collect S db b (solution_loop S m (λ i. false) i db si) ≡ some (out, w.last)
      go b zero hb hm = absurd (omega arith)
      go b (suc m) hb hm =
          ap (collect S db b) (e m (omega arith)) ∙ w.walk b m (omega arith) (omega arith)

  -- A round that returns a solution.
  return-Ends :
      (n i : ℕ) (si si' : SolutionIterator) (s : Solution) (ss : List Solution)
      → ((m : ℕ) → n ≤ m → solution_loop S (suc m) (λ i. false) i db si ≡ some (si', true))
      → si'.current ≡ some s
      → si'.closed ≡ false
      → si'.failed ≡ none
      → (at_limit si'.opts si'.count ≡ false
          → Ends S db si' 0 (window si'.opts si'.count si'.skipped ss))
      → Ends S db si i (s ∷ window si'.opts si'.count si'.skipped ss)
  return-Ends n i si si' s ss e here opened fine rest =
      let (n', last, ended, walk) = deliver-Ends S db si' ss opened fine rest in
      record { fuel = suc (n + n'); last = last; no_error = ended; walk = go n' last walk }
    where
      go :
          (n' : ℕ) (last : SolutionIterator)
          → ((a : ℕ)
              → n' ≤ a
              → collect S db a (some (si', true))
                ≡ some (made_map si'.current ∷ window si'.opts si'.count si'.skipped ss, last))
          → (b m : ℕ) → suc (n + n') ≤ b
          → suc (n + n') ≤ m
          → collect S db b (solution_loop S m (λ i. false) i db si)
            ≡ some (s ∷ window si'.opts si'.count si'.skipped ss, last)
      go n' last walk b zero hb hm = absurd (omega arith)
      go n' last walk b (suc m) hb hm =
          ap (collect S db b) (e m (omega arith))
          ∙ walk b (omega arith)
          ∙ ap (λ c. some (made_map c ∷ window si'.opts si'.count si'.skipped ss, last)) here

  close_no_error :
      (si : SolutionIterator) (a : List Pattern)
      → si.closed ≡ false
      → si.failed ≡ none
      → (close_iterator (at_levels si [] a)).failed ≡ none
  close_no_error si a opened fine = ground arith

  -- The rounds of `Next` over levels that yield `out`.
  Stream-Ends :
      (i : ℕ) (si : SolutionIterator) (l : Level) (levels : List Level) (ahead : List Pattern)
      (out : List Solution)
      → Stream S db (l ∷ levels) ahead out
      → si.closed ≡ false
      → si.failed ≡ none
      → at_limit si.opts si.count ≡ false
      → Ends S db (at_levels si (l ∷ levels) ahead) i (window si.opts si.count si.skipped out)
  unfolding window
  Stream-Ends i si l levels ahead out (Stream.end _ _ a o (n, f) q) opened fine room =
      let done = at_levels si [] a in
      record {
        fuel = suc n;
        last = close_iterator done;
        no_error = close_no_error si a opened fine;
        walk = go;
      }
    where
      go :
          (b m : ℕ)
          → suc n ≤ b
          → suc n ≤ m
          → collect S db b (solution_loop S m (λ i. false) i db (at_levels si (l ∷ levels) ahead))
            ≡ some (window si.opts si.count si.skipped out, close_iterator (at_levels si [] a))
      go b zero hb hm = absurd (omega arith)
      go b (suc m) hb hm =
          ap (collect S db b)
            (loop-over S db m i _ _ (advance-over S db m si l levels ahead a (f m (omega arith))))
          ∙ ap
              (λ w. some (window si.opts si.count si.skipped w, close_iterator (at_levels si [] a)))
              (sym q)
  Stream-Ends i si l levels ahead out (Stream.cons _ _ s k ls a ss o (n, f) r q) opened fine room =
      let now = at_levels si (l ∷ levels) ahead in
      let si' = at_levels si (k ∷ ls) a in
      let o = si.opts in
      let adv : (m : ℕ) → n ≤ m → advance S m db now ≡ some (si', some s) =
        λ m h. advance-found S db m si l levels (k ∷ ls) ahead a s (f m h) in
      subst (λ w. Ends S db now i (window o si.count si.skipped w)) (sym q)
        (elim (Bool-cases (passes_filter o.filter s)) [
          | inr e ↦
              subst (Ends S db now i) (sym (window_rejected o si.count si.skipped s ss room e)) (
                later-Ends n i now si' _ (λ m h. (loop-found S db m i now si' s (adv m h)).0 e)
                  (Stream-Ends (suc i) si k ls a ss r opened fine room))
          | inl e ↦ elim (Bool-cases (ltb si.skipped (pos_part o.offset))) [
            | inl t ↦
                subst (Ends S db now i) (sym (window_skipped o si.count si.skipped s ss room e t)) (
                  later-Ends n i now (record si' { skipped = suc si.skipped }) _
                    (λ m h. (loop-found S db m i now si' s (adv m h)).1 e t)
                    (Stream-Ends (suc i) (record si { skipped = suc si.skipped }) k ls a ss r opened
                      fine room))
            | inr t ↦
                let si'' = record si {
                  current = some (delivered o.materialized s);
                  count = suc si.count;
                } in
                subst (Ends S db now i) (sym (window_returned o si.count si.skipped s ss room e t))
                  (return-Ends n i now (at_levels si'' (k ∷ ls) a) (delivered o.materialized s) ss
                    (λ m h. (loop-found S db m i now si' s (adv m h)).2 e t) refl opened fine
                    (λ more. Stream-Ends 0 si'' k ls a ss r opened fine more))
          ]
        ])

  -- What a call of `Search` that succeeds has gone through.
  search_parts :
      (done : ℕ → Bool) (p : Pattern) (ps : List Pattern) (opts : Option SearchOptions)
      (all : List Solution)
      → search S done db (p ∷ ps) opts ≡ some (ok all)
      → (db.closed ≡ false)
        × (ss : List Solution) × (join_loop S db done 0
              (p ∷ ps)
              (start_solution (options_or opts).initial_solution ∷ [])
            ≡ some (ok ss))
        × (finish db.options.default_limit (options_or opts) ss ≡ ok all)
  unfolding search
  search_parts done p ps opts all h = elim (Bool-cases db.closed) [
    | inl e ↦ absurd (ground arith)
    | inr e ↦
        elim (Option-cases (
          join_loop S db done 0 (p ∷ ps)
            (start_solution (options_or opts).initial_solution ∷ []))) [
              | inl q ↦ absurd (ground arith)
              | inr (r, q) ↦ elim (Result-split r) [
                | inr (x, w) ↦ absurd (ground arith)
                | inl (ss, w) ↦ (e, ss, q ∙ ap some w, ground arith)
              ]
            ]
  ]

  finish-window :
      (o : SearchOptions) (ss all : List Solution)
      → finish db.options.default_limit o ss ≡ ok all
      → o.vector_filter ≡ none
      → pos_part (effective_limit o.limit db.options.default_limit) ≡ pos_part o.limit
      → window o 0 0 ss ≡ all
  unfolding finish
  finish-window o ss all h no_vectors no_default = window_lem o ss ∙ ground arith

  -- The first call of `Next` opens the first pattern's iterator.
  first_levels :
      (m i : ℕ) (p : Pattern) (ps : List Pattern) (opts : Option SearchOptions)
      (it : TripleIterator)
      → get_iterator S db
          (update_with_solution p (start_solution (options_or opts).initial_solution))
        ≡ ok it
      → solution_loop S m (λ i. false) i db (search_iterator (p ∷ ps) opts)
        ≡ solution_loop S m
            (λ i. false)
            i
            db
            (at_levels
              (search_iterator (p ∷ ps) opts)
              (record {
                pattern = p;
                iter = it;
                solution = start_solution (options_or opts).initial_solution;
              }
                ∷ [])
              ps)
  unfolding solution_loop search_iterator advance start_levels run_levels
  first_levels zero i p ps opts it e = refl
  first_levels (suc m) i p ps opts it e = rw (solution_loop, e) refl

  no_levels : (ahead : List Pattern) → Stream S db [] ahead []
  unfolding level_loop
  no_levels ahead = Stream.end [] ahead ahead [] (0, λ m h. refl) refl

  -- If `Search` over at least one pattern, with options that have no vector filter and a limit that
  -- the default limit does not replace, returns solutions, then with fuel enough the loop over the
  -- iterator of `SearchIterator` with the same patterns and options, under a context that is never
  -- done, returns these solutions in the same order, and ends without an error.
  pub search_iterator_lem :
      (done : ℕ → Bool) (p : Pattern) (ps : List Pattern) (opts : Option SearchOptions)
      (all : List Solution)
      → search S done db (p ∷ ps) opts ≡ some (ok all)
      → (options_or opts).vector_filter ≡ none
      → pos_part (effective_limit (options_or opts).limit db.options.default_limit)
        ≡ pos_part (options_or opts).limit
      → (fuel : ℕ) × (last : SolutionIterator) × (last.failed ≡ none)
        × ((n : ℕ)
            → fuel ≤ n
            → all_solutions S n db (search_iterator (p ∷ ps) opts) ≡ some (all, last))
  unfolding search_iterator
  search_iterator_lem done p ps opts all h no_vectors no_default =
      let o = options_or opts in
      let start = start_solution o.initial_solution in
      let si = search_iterator (p ∷ ps) opts in
      let (opened, ss, joined, finished) = search_parts done p ps opts all h in
      let (a, b, q, (ts, read, sol), none_left) =
        join_loop-SolveList S db done 0 (p ∷ ps) (start ∷ []) ss joined in
      let (it, g, y) = get_iterator-Yields S db (update_with_solution p start) ts opened read in
      let same : a ++ [] ≡ ss = sym (q ∙ ap (λ l. a ++ l) none_left) in
      let l : Level = record { pattern = p; iter = it; solution = start } in
      let stream : Stream S db (l ∷ []) ps ss =
        subst (Stream S db (l ∷ []) ps) same
          (level-Stream S db opened ps p it start [] ts a [] y sol (no_levels (p ∷ ps))) in
      let room : at_limit o 0 ≡ false = ground arith in
      let w = Stream-Ends 0 si l [] ps ss stream refl refl room in
      (
        suc w.fuel,
        w.last,
        w.no_error,
        walk ss (finish-window o ss all finished no_vectors no_default) room g w,
      )
    where
      walk :
          (ss : List Solution) {it : TripleIterator}
          → window (options_or opts) 0 0 ss ≡ all
          → at_limit (options_or opts) 0 ≡ false
          → get_iterator S db
              (update_with_solution p (start_solution (options_or opts).initial_solution))
            ≡ ok it
          → (w : Ends S db
              (at_levels
                (search_iterator (p ∷ ps) opts)
                (record {
                  pattern = p;
                  iter = it;
                  solution = start_solution (options_or opts).initial_solution;
                }
                  ∷ [])
                ps)
              0
              (window (options_or opts) 0 0 ss))
          → (n : ℕ) → suc w.fuel ≤ n
          → all_solutions S n db (search_iterator (p ∷ ps) opts) ≡ some (all, w.last)
      walk ss e room g w zero h' = absurd (omega arith)
      walk ss e room g w (suc n) h' =
          let si = search_iterator (p ∷ ps) opts in
          all_solutions-collect S db n si
          ∙ ap (collect S db n)
              (next-loop S db n si refl refl room ∙ first_levels n 0 p ps opts _ g)
          ∙ w.walk n n (omega arith) (omega arith)
          ∙ ap (λ k. some (k, w.last)) e
