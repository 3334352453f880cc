-- ===== src/Search/Iterator/Levels.antt =====
-- search.go, `advance`: the loop over the levels yields the solutions of the join one by one.
use levelgraph.Prelude.{
  ℕ, ◌≤◌, suc, zero, ◌≡◌, refl, sym, ap, ◌∙◌, false, Option, none, some, List, [], ◌∷◌, ◌++◌,
  append_assoc, arith, Bool-cases, Option-cases, inl, inr, length, ◌⊎◌, subst,
}
use levelgraph.Graph.Triple.{Triple}
use levelgraph.Graph.Solution.{Solution}
use levelgraph.Graph.Pattern.{Pattern, update_with_solution, bind_triple_fast}
use levelgraph.Store.{KvStore}
use levelgraph.Db.State.{Db, Error, Result, ok, err}
use levelgraph.Db.Read.{
  TripleIterator, next, current_triple, get_loop, get_unlocked, get_iterator_unlocked,
}
use levelgraph.Db.Values.{accepts}
use levelgraph.Search.{bind_triples}
use levelgraph.Search.Iterator.{
  Level, on, full, Advance, over, found, get_iterator, descend, try_triple, round, level_loop,
}

-- An iterator that still visits these triples, and then ends without an error.
abbrev pub Yields : TripleIterator → List Triple → Type 0
Yields ti ts = (n : ℕ) × (get_loop n ti ≡ some (ok ts))

pub Result-split :
    {A : Type 0} (r : Result A) → ((a : A) × (r ≡ ok a)) ⊎ ((e : Error) × (r ≡ err e))
Result-split (ok a) = inl (a, refl)
Result-split (err e) = inr (e, refl)

Yields-nil : (ti : TripleIterator) → Yields ti [] → next ti ≡ none
unfolding get_loop
Yields-nil ti (zero, h) = cc
Yields-nil ti (suc n, h) = ground arith

Yields-cons :
    (ti : TripleIterator) (t : Triple) (ts : List Triple)
    → Yields ti (t ∷ ts)
    → (ti' : TripleIterator) × (next ti ≡ some ti') × (current_triple ti' ≡ ok t) × Yields ti' ts
unfolding get_loop
Yields-cons ti t ts (zero, h) = cc
Yields-cons ti t ts (suc n, h) = elim (Option-cases (next ti)) [
  | inl q ↦ absurd (ground arith)
  | inr (ti', q) ↦ elim (Result-split (current_triple ti')) [
    | inr (e, r) ↦ absurd (ground arith)
    | inl (u, r) ↦ elim (Option-cases (get_loop n ti')) [
      | inl z ↦ absurd (ground arith)
      | inr (rest, z) ↦ elim (Result-split rest) [
        | inr (e, w) ↦ absurd (ground arith)
        | inl (us, w) ↦
            (ti', q, r ∙ ap ok (ground arith), (n, z ∙ ap some (w ∙ ap ok (ground arith))))
      ]
    ]
  ]
]

-- What a join by these patterns makes of a solution, none of whose reads fails.
abbrev pub SolveList : (Solution → List Solution → Type 0) → List Solution → List Solution → Type 0
SolveList P [] out = out ≡ []
SolveList P (s ∷ ss) out = (a b : List Solution) × (out ≡ a ++ b) × P s a × SolveList P ss b

-- A result with fuel enough.
abbrev pub Eventually : {A : Type 0} → (ℕ → Option A) → A → Type 0
Eventually f r = (n : ℕ) × ((m : ℕ) → n ≤ m → f m ≡ some r)

module _ (S : KvStore) (db : Db S.State) where
  abbrev pub Solves : List Pattern → Solution → List Solution → Type 0
  Solves [] s out = out ≡ s ∷ []
  Solves (p ∷ ps) s out =
      (ts : List Triple) × (get_unlocked S db (update_with_solution p s) ≡ some (ok ts))
      × SolveList (Solves ps) (bind_triples p s ts) out

  -- From these levels on, calls of `advance` return these solutions, and then nil.
  pub data Stream : List Level → List Pattern → List Solution → Type 0 where
    end :
        (levels : List Level) (ahead ahead' : List Pattern) (out : List Solution)
        → Eventually (λ n. level_loop S n db levels ahead) (over ahead')
        → out ≡ []
        → Stream levels ahead out
    cons :
        (levels : List Level) (ahead : List Pattern) (s : Solution) (l : Level)
        (levels' : List Level) (ahead' : List Pattern) (ss out : List Solution)
        → Eventually (λ n. level_loop S n db levels ahead) (found s (l ∷ levels') ahead')
        → Stream (l ∷ levels') ahead' ss
        → out ≡ s ∷ ss
        → Stream levels ahead out

  -- A round that goes on costs one more.
  round-on :
      (l : Level) (levels levels' : List Level) (ahead ahead' : List Pattern) (r : Advance)
      → round S db l levels ahead ≡ on levels' ahead'
      → Eventually (λ n. level_loop S n db levels' ahead') r
      → Eventually (λ n. level_loop S n db (l ∷ levels) ahead) r
  unfolding level_loop
  round-on l levels levels' ahead ahead' r e (n, f) = (suc n, go)
    where
      go : (m : ℕ) → suc n ≤ m → level_loop S m db (l ∷ levels) ahead ≡ some r
      go zero h = absurd (omega arith)
      go (suc m) h = rw (level_loop, e) (f m (omega arith))

  round-full :
      (l : Level) (levels levels' : List Level) (ahead ahead' : List Pattern) (s : Solution)
      → round S db l levels ahead ≡ full s levels' ahead'
      → Eventually (λ n. level_loop S n db (l ∷ levels) ahead) (found s levels' ahead')
  unfolding level_loop
  round-full l levels levels' ahead ahead' s e = (1, go)
    where
      go : (m : ℕ) → 1 ≤ m → level_loop S m db (l ∷ levels) ahead ≡ some (found s levels' ahead')
      go zero h = absurd (omega arith)
      go (suc m) h = rw (level_loop, e) refl

  Stream-round :
      (l : Level) (levels levels' : List Level) (ahead ahead' : List Pattern) (out : List Solution)
      → round S db l levels ahead ≡ on levels' ahead'
      → Stream levels' ahead' out
      → Stream (l ∷ levels) ahead out
  Stream-round l levels levels' ahead ahead' out e (Stream.end _ _ a o h q) =
      Stream.end (l ∷ levels) ahead a o (round-on l levels levels' ahead ahead' _ e h) q
  Stream-round l levels levels' ahead ahead' out e (Stream.cons _ _ s k ls a ss o h r q) =
      Stream.cons (l ∷ levels) ahead s k ls a ss o (round-on l levels levels' ahead ahead' _ e h) r
        q

  -- The calls of `GetIterator` for a read that succeeds.
  pub get_iterator-Yields :
      (p : Pattern) (ts : List Triple)
      → db.closed ≡ false
      → get_unlocked S db p ≡ some (ok ts)
      → (it : TripleIterator) × (get_iterator S db p ≡ ok it) × Yields it ts
  unfolding get_iterator get_unlocked
  get_iterator-Yields p ts opened h = elim (Option-cases (get_iterator_unlocked S db p)) [
    | inl q ↦ absurd (ground arith)
    | inr (it, q) ↦ (
      it,
      rw (get_iterator, q, opened) refl,
      (suc (length it.pending), rw (get_unlocked, q) at h),
    )
  ]

  -- One triple of a level: it is passed over, or a solution made of it goes on behind it.
  triple-Stream :
      (ahead : List Pattern) (p : Pattern) (it it' : TripleIterator) (s : Solution)
      (levels : List Level) (t : Triple) (ts : List Triple) (out out' : List Solution)
      → next it ≡ some it'
      → current_triple it' ≡ ok t
      → SolveList (Solves ahead) (bind_triples p s (t ∷ ts)) out
      → ((rest : List Solution)
          → SolveList (Solves ahead) (bind_triples p s ts) rest
          → Stream (record { pattern = p; iter = it'; solution = s } ∷ levels) ahead (rest ++ out'))
      → ((s' : Solution) (here later : List Solution)
          → Solves ahead s' here
          → round S db (record { pattern = p; iter = it; solution = s }) levels ahead
            ≡ descend S db s' (record { pattern = p; iter = it'; solution = s } ∷ levels) ahead
          → Stream (record { pattern = p; iter = it'; solution = s } ∷ levels) ahead later
          → Stream (record { pattern = p; iter = it; solution = s } ∷ levels) ahead (here ++ later))
      → Stream (record { pattern = p; iter = it; solution = s } ∷ levels) ahead (out ++ out')
  unfolding bind_triples round try_triple
  triple-Stream ahead p it it' s levels t ts out out' n c sol again enter =
      let l : Level = record { pattern = p; iter = it; solution = s } in
      let l' : Level = record { pattern = p; iter = it'; solution = s } in
      elim (Option-cases (bind_triple_fast p (some s) t)) [
        | inl b ↦
            let e : round S db l levels ahead ≡ on (l' ∷ levels) ahead =
              rw (round, n, c, try_triple, b) refl in
            Stream-round l levels (l' ∷ levels) ahead ahead (out ++ out') e
              (again out (rw (bind_triples, b) at sol))
        | inr (s', b) ↦ elim (Bool-cases (accepts p.filter t)) [
          | inr a ↦
              let e : round S db l levels ahead ≡ on (l' ∷ levels) ahead =
                rw (round, n, c, try_triple, b, a) refl in
              Stream-round l levels (l' ∷ levels) ahead ahead (out ++ out') e
                (again out (rw (bind_triples, b, a) at sol))
          | inl a ↦
              let e : round S db l levels ahead ≡ descend S db s' (l' ∷ levels) ahead =
                rw (round, n, c, try_triple, b, a) refl in
              let (here, later, q, now, rest) = rw (bind_triples, b, a) at sol in
              subst (Stream (l ∷ levels) ahead)
                (sym (ap (λ o. o ++ out') q ∙ append_assoc here later out'))
                (enter s' here (later ++ out') now e (again later rest))
        ]
      ]

  module _ (opened : db.closed ≡ false) where
    -- A level whose iterator yields `ts`, in front of levels that yield `out'`.
    pub level-Stream :
        (ahead : List Pattern) (p : Pattern) (it : TripleIterator) (s : Solution)
        (levels : List Level) (ts : List Triple) (out out' : List Solution)
        → Yields it ts
        → SolveList (Solves ahead) (bind_triples p s ts) out
        → Stream levels (p ∷ ahead) out'
        → Stream (record { pattern = p; iter = it; solution = s } ∷ levels) ahead (out ++ out')
    unfolding bind_triples round descend level_loop
    level-Stream ahead p it s levels [] out out' y sol rest =
        let l : Level = record { pattern = p; iter = it; solution = s } in
        let e : round S db l levels ahead ≡ on levels (p ∷ ahead) =
          rw (round, Yields-nil it y) refl in
        Stream-round l levels levels ahead (p ∷ ahead) (out ++ out') e
          (subst (Stream levels (p ∷ ahead)) (ap (λ o. o ++ out') (sym sol)) rest)
    level-Stream [] p it s levels (t ∷ ts) out out' y sol rest =
        let (it', n, c, y') = Yields-cons it t ts y in
        let l' : Level = record { pattern = p; iter = it'; solution = s } in
        triple-Stream [] p it it' s levels t ts out out' n c sol
          (λ o q. level-Stream [] p it' s levels ts o out' y' q rest)
          (λ s' here later now e behind.
            Stream.cons _ [] s' l' levels [] later (here ++ later)
              (round-full _ levels _ [] [] s' e) behind (ap (λ o. o ++ later) now))
    level-Stream (q ∷ ahead) p it s levels (t ∷ ts) out out' y sol rest =
        let (it', n, c, y') = Yields-cons it t ts y in
        let l : Level = record { pattern = p; iter = it; solution = s } in
        let l' : Level = record { pattern = p; iter = it'; solution = s } in
        triple-Stream (q ∷ ahead) p it it' s levels t ts out out' n c sol
          (λ o z. level-Stream (q ∷ ahead) p it' s levels ts o out' y' z rest)
          (λ s' here later now e behind.
            let (us, read, below) = now in
            let (deep, g, yd) = get_iterator-Yields (update_with_solution q s') us opened read in
            let d : round S db l levels (q ∷ ahead)
                ≡ on (record { pattern = q; iter = deep; solution = s' } ∷ l' ∷ levels) ahead =
              e ∙ rw (descend, g) refl in
            Stream-round l levels (record { pattern = q; iter = deep; solution = s' } ∷ l' ∷ levels)
              (q ∷ ahead) ahead (here ++ later) d
              (level-Stream ahead q deep s' (l' ∷ levels) us here later yd below behind))
