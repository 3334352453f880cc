-- ===== src/Search/Iterator/Rounds.antt =====
-- search.go, `Next`: its rounds, and the loop over the solutions around it.
use levelgraph.Prelude.{
  ℕ, zero, suc, ◌≤◌, ◌≡◌, refl, sym, ap, ◌∙◌, Bool, true, false, Option, none, some, List, [], ◌∷◌,
  ltb, arith, Bool-cases, inl, inr,
}
use levelgraph.Prelude.Int.{pos_part}
use levelgraph.Graph.Solution.{Solution}
use levelgraph.Graph.Pattern.{Pattern, made_map}
use levelgraph.Store.{KvStore}
use levelgraph.Db.State.{Db}
use levelgraph.Search.{SearchOptions}
use levelgraph.Search.Iterator.{
  Level, SolutionIterator, over, found, level_loop, run_levels, advance, solution_loop,
  next_solution, all_solutions, passes_filter, delivered, close_iterator,
}
use levelgraph.Search.Iterator.Window.{at_limit, window}

abbrev pub at_levels : SolutionIterator → List Level → List Pattern → SolutionIterator
at_levels si levels ahead = record si { active = levels; ahead = ahead }

module _ (S : KvStore) (db : Db S.State) where
  -- What follows a call of `Next` in the loop over the solutions.
  abbrev pub collect :
      ℕ → Option (SolutionIterator × Bool) → Option (List Solution × SolutionIterator)
  collect fuel none = none
  collect fuel (some (si, false)) = some ([], si)
  collect fuel (some (si, true)) = elim (all_solutions S fuel db si) [
    | none ↦ none
    | some (ss, last) ↦ some (made_map si.current ∷ ss, last)
  ]

  -- With fuel enough, these solutions and no error.
  pub record Ends (si : SolutionIterator) (i : ℕ) (out : List Solution) : Type 0 where
    pub fuel : ℕ
    pub last : SolutionIterator
    pub no_error : last.failed ≡ none
    pub walk :
        (a m : ℕ)
        → fuel ≤ a
        → fuel ≤ m
        → collect a (solution_loop S m (λ i. false) i db si) ≡ some (out, last)

  pub advance-over :
      (m : ℕ) (si : SolutionIterator) (l : Level) (levels : List Level) (ahead a : List Pattern)
      → level_loop S m db (l ∷ levels) ahead ≡ some (over a)
      → advance S m db (at_levels si (l ∷ levels) ahead) ≡ some (at_levels si [] a, none)
  unfolding advance run_levels
  advance-over m si l levels ahead a e = rw (run_levels, e) refl

  pub advance-found :
      (m : ℕ) (si : SolutionIterator) (l : Level) (levels levels' : List Level)
      (ahead a : List Pattern) (s : Solution)
      → level_loop S m db (l ∷ levels) ahead ≡ some (found s levels' a)
      → advance S m db (at_levels si (l ∷ levels) ahead) ≡ some (at_levels si levels' a, some s)
  unfolding advance run_levels
  advance-found m si l levels levels' ahead a s e = rw (run_levels, e) refl

  next-limit :
      (m : ℕ) (si : SolutionIterator)
      → si.closed ≡ false
      → si.failed ≡ none
      → at_limit si.opts si.count ≡ true
      → next_solution S m (λ i. false) db si ≡ some (si, false)
  unfolding next_solution
  next-limit m si opened fine e = simp (opened, fine, e)

  pub next-loop :
      (m : ℕ) (si : SolutionIterator)
      → si.closed ≡ false
      → si.failed ≡ none
      → at_limit si.opts si.count ≡ false
      → next_solution S m (λ i. false) db si ≡ solution_loop S m (λ i. false) 0 db si
  unfolding next_solution
  next-loop m si opened fine e = simp (opened, fine, e)

  pub all_solutions-collect :
      (a : ℕ) (si : SolutionIterator)
      → all_solutions S (suc a) db si ≡ collect a (next_solution S a (λ i. false) db si)
  unfolding all_solutions
  all_solutions-collect a si = go (next_solution S a (λ i. false) db si)
    where
      go :
          (r : Option (SolutionIterator × Bool))
          → (elim r [
            | none ↦ none
            | some (si', false) ↦ some ([], si')
            | some (si', true) ↦ elim (all_solutions S a db si') [
              | none ↦ none
              | some (ss, last) ↦ some (made_map si'.current ∷ ss, last)
            ]
          ])
            ≡ collect a r
      go none = refl
      go (some (si', false)) = refl
      go (some (si', true)) = refl

  window-full :
      (o : SearchOptions) (count skipped : ℕ) (ss : List Solution)
      → at_limit o count ≡ true
      → window o count skipped ss ≡ []
  unfolding window
  window-full o count skipped [] e = refl
  window-full o count skipped (s ∷ ss) e = rw (window, e) refl

  -- `Next` returns a solution, and the loop goes on.
  pub deliver-Ends :
      (si : SolutionIterator) (ss : List Solution)
      → si.closed ≡ false
      → si.failed ≡ none
      → (at_limit si.opts si.count ≡ false → Ends si 0 (window si.opts si.count si.skipped ss))
      → (n : ℕ) × (last : SolutionIterator) × (last.failed ≡ none)
        × ((a : ℕ)
            → n ≤ a
            → collect a (some (si, true))
              ≡ some (made_map si.current ∷ window si.opts si.count si.skipped ss, last))
  deliver-Ends si ss opened fine rest = elim (Bool-cases (at_limit si.opts si.count)) [
    | inl e ↦ (1, si, fine, full e)
    | inr e ↦ let w = rest e in (suc w.fuel, w.last, w.no_error, more e w)
  ]
    where
      out : List Solution
      out = window si.opts si.count si.skipped ss

      front :
          (a : ℕ) (us : List Solution) (last : SolutionIterator)
          → all_solutions S a db si ≡ some (us, last)
          → collect a (some (si, true)) ≡ some (made_map si.current ∷ us, last)
      front a us last e = rw (collect, e) refl

      full :
          at_limit si.opts si.count ≡ true
          → (a : ℕ) → 1 ≤ a
          → collect a (some (si, true)) ≡ some (made_map si.current ∷ out, si)
      full e zero h = absurd (omega arith)
      full e (suc a) h = front (suc a) out si (
          all_solutions-collect a si
          ∙ ap (collect a) (next-limit a si opened fine e)
          ∙ ap (λ l. some (l, si)) (sym (window-full si.opts si.count si.skipped ss e)))

      more :
          at_limit si.opts si.count ≡ false
          → (w : Ends si 0 out) → (a : ℕ) → suc w.fuel ≤ a
          → collect a (some (si, true)) ≡ some (made_map si.current ∷ out, w.last)
      more e w zero h = absurd (omega arith)
      more e w (suc a) h = front (suc a) out w.last (
          all_solutions-collect a si
          ∙ ap (collect a) (next-loop a si opened fine e)
          ∙ w.walk a a (omega arith) (omega arith))

  -- A round of the loop in `Next`.
  pub loop-found :
      (m i : ℕ) (si si' : SolutionIterator) (s : Solution)
      → advance S m db si ≡ some (si', some s)
      → (passes_filter si'.opts.filter s ≡ false
          → solution_loop S (suc m) (λ i. false) i db si
            ≡ solution_loop S m (λ i. false) (suc i) db si')
        × (passes_filter si'.opts.filter s ≡ true
            → ltb si'.skipped (pos_part si'.opts.offset) ≡ true
            → solution_loop S (suc m) (λ i. false) i db si
              ≡ solution_loop S m
                  (λ i. false)
                  (suc i)
                  db
                  (record si' { skipped = suc si'.skipped }))
        × (passes_filter si'.opts.filter s ≡ true
            → ltb si'.skipped (pos_part si'.opts.offset) ≡ false
            → solution_loop S (suc m) (λ i. false) i db si
              ≡ some (
                record si' {
                  current = some (delivered si'.opts.materialized s);
                  count = suc si'.count;
                },
                true,
              ))
  unfolding solution_loop
  loop-found m i si si' s e = (
    λ f. rw (solution_loop, e) (simp f),
    λ f k. rw (solution_loop, e) (simp (f, k)),
    λ f k. rw (solution_loop, e) (simp (f, k)),
  )

  pub loop-over :
      (m i : ℕ) (si si' : SolutionIterator)
      → advance S m db si ≡ some (si', none)
      → solution_loop S (suc m) (λ i. false) i db si ≡ some (close_iterator si', false)
  unfolding solution_loop
  loop-over m i si si' e = rw (solution_loop, e) refl
