-- ===== src/Search/Iterator/Solve.antt =====
-- search.go: what the loops of `Search` compute is what each solution grows into on its own.
use levelgraph.Prelude.{
  ℕ, suc, ◌≡◌, refl, sym, ap, ◌∙◌, Bool, some, List, [], ◌∷◌, ◌++◌, append_assoc, arith,
  Option-cases, inl, inr, subst,
}
use levelgraph.Graph.Solution.{Solution}
use levelgraph.Graph.Pattern.{Pattern, update_with_solution}
use levelgraph.Store.{KvStore}
use levelgraph.Db.State.{Db, ok}
use levelgraph.Db.Read.{get_unlocked}
use levelgraph.Search.{bind_triples, join_pattern, join_loop}
use levelgraph.Search.Iterator.Levels.{SolveList, Solves, Result-split}

SolveList-append :
    (P : Solution → List Solution → Type 0) (xs ys out : List Solution)
    → SolveList P (xs ++ ys) out
    → (a b : List Solution) × (out ≡ a ++ b) × SolveList P xs a × SolveList P ys b
SolveList-append P [] ys out h = ([], out, refl, refl, h)
SolveList-append P (x ∷ xs) ys out (a, b, e, now, h) =
    let (c, d, f, hx, hy) = SolveList-append P xs ys b h in
    (a ++ c, d, e ∙ ap (λ l. a ++ l) f ∙ sym (append_assoc a c d), (a, c, refl, now, hx), hy)

SolveList-self : (ss : List Solution) → SolveList (λ s out. out ≡ s ∷ []) ss ss
SolveList-self [] = refl
SolveList-self (s ∷ ss) = (s ∷ [], ss, refl, refl, SolveList-self ss)

module _ (S : KvStore) (db : Db S.State) where
  join_pattern-SolveList :
      (p : Pattern) (ps : List Pattern) (ss next out : List Solution)
      → join_pattern S db p ss ≡ some (ok next)
      → SolveList (Solves S db ps) next out
      → SolveList (Solves S db (p ∷ ps)) ss out
  unfolding join_pattern
  join_pattern-SolveList p ps [] next out h sol = let e : next ≡ [] = ground arith in rw e at sol
  join_pattern-SolveList p ps (s ∷ ss) next out h sol =
      elim (Option-cases (get_unlocked S db (update_with_solution p s))) [
        | inl q ↦ absurd (ground arith)
        | inr (r, q) ↦ elim (Result-split r) [
          | inr (e, w) ↦ absurd (ground arith)
          | inl (ts, w) ↦ elim (Option-cases (join_pattern S db p ss)) [
            | inl z ↦ absurd (ground arith)
            | inr (rest, z) ↦ elim (Result-split rest) [
              | inr (e, x) ↦ absurd (ground arith)
              | inl (more, x) ↦
                  let e : next ≡ bind_triples p s ts ++ more = ground arith in
                  let (a, b, f, here, later) =
                    SolveList-append (Solves S db ps) (bind_triples p s ts) more out
                      (subst (λ l. SolveList (Solves S db ps) l out) e sol) in
                  (
                    a,
                    b,
                    f,
                    (ts, q ∙ ap some w, here),
                    join_pattern-SolveList p ps ss more b (z ∙ ap some x) later,
                  )
            ]
          ]
        ]
      ]

  -- The solutions of `Search` are those that each solution so far grows into, in order.
  pub join_loop-SolveList :
      (done : ℕ → Bool) (i : ℕ) (ps : List Pattern) (ss out : List Solution)
      → join_loop S db done i ps ss ≡ some (ok out)
      → SolveList (Solves S db ps) ss out
  unfolding join_loop
  join_loop-SolveList done i [] ss out h =
      let e : ss ≡ out = ground arith in subst (SolveList (Solves S db []) ss) e (SolveList-self ss)
  join_loop-SolveList done i (p ∷ ps) ss out h = elim (Option-cases (join_pattern S db p ss)) [
    | inl q ↦ absurd (ground arith)
    | inr (r, q) ↦ elim (Result-split r) [
      | inr (e, w) ↦ absurd (ground arith)
      | inl (next, w) ↦
          join_pattern-SolveList p ps ss next out (q ∙ ap some w)
            (behind next (q ∙ ap some w) (λ ss' e. join_loop-SolveList done (suc i) ps ss' out e))
    ]
  ]
    where
      behind :
          (next : List Solution)
          → join_pattern S db p ss ≡ some (ok next)
          → ((ss' : List Solution)
              → join_loop S db done (suc i) ps ss' ≡ some (ok out)
              → SolveList (Solves S db ps) ss' out)
          → SolveList (Solves S db ps) next out
      behind [] e later = let none_left : out ≡ [] = ground arith in none_left
      behind (s' ∷ ss') e later = later (s' ∷ ss') (ground arith)
