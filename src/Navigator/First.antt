-- ===== src/Navigator/First.antt =====
-- navigator.go: `First` and `Exists`, which ask for one solution, against `Solutions`.
use levelgraph.Prelude.{
  if◌then◌else◌, ℕ, zero, suc, ◌≡◌, refl, sym, ◌∙◌, ap, Bool, true, false, Option, none, some, List,
  [], ◌∷◌, arith,
}
use levelgraph.Prelude.Int.{ℤ, pos, pos_part}
use levelgraph.Graph.Solution.{Solution}
use levelgraph.Graph.Pattern.{Pattern, present}
use levelgraph.Store.{KvStore}
use levelgraph.Db.State.{Db, Result, ok, err, ◌>>=◌, err_closed}
use levelgraph.Db.Read.{effective_limit}
use levelgraph.Search.{
  SearchOptions, no_options, start_solution, search, join_loop, finish, keep, skip_offset,
  cut_limit,
}
use levelgraph.Navigator.{Heap, Navigator, read_pattern, pattern_at}
use levelgraph.Navigator.Query.{mapped, first_of, solutions, first, exists, read_conditions}

abbrev pub is_some : List Solution → Bool
is_some [] = false
is_some (s ∷ ss) = true

-- A limit leaves the first solution.
first_of-cut_limit : (n : ℕ) (ss : List Solution) → first_of (cut_limit n ss) ≡ first_of ss
unfolding cut_limit
first_of-cut_limit zero ss = refl
first_of-cut_limit (suc n) [] = ground arith
first_of-cut_limit (suc n) (s ∷ ss) = ground arith

abbrev limited : Option Solution → ℤ → SearchOptions
limited start n = record no_options { initial_solution = start; limit = n }

first_of-finish :
    (default n : ℤ) (start : Option Solution) (r : Result (List Solution))
    → mapped first_of (some (r >>= finish default (limited start n))) ≡ mapped first_of (some r)
unfolding finish keep skip_offset
first_of-finish default n start (err e) = refl
first_of-finish default n start (ok ss) =
    ap (λ s. some (ok s)) (first_of-cut_limit (pos_part (effective_limit n default)) ss)

mapped-present :
    (r : Option (Result (List Solution))) → mapped present (mapped first_of r) ≡ mapped is_some r
mapped-present none = refl
mapped-present (some (err e)) = refl
mapped-present (some (ok [])) = refl
mapped-present (some (ok (s ∷ ss))) = refl

module _ (S : KvStore) (done : ℕ → Bool) (db : Db S.State) where
  -- Whatever the limit, a search has the same first solution, or fails in the same way.
  search_first :
      (p : Pattern) (ps : List Pattern) (start : Option Solution) (n m : ℤ)
      → mapped first_of (search S done db (p ∷ ps) (some (limited start n)))
        ≡ mapped first_of (search S done db (p ∷ ps) (some (limited start m)))
  unfolding search
  search_first p ps start n m =
      go db.closed (join_loop S db done 0 (p ∷ ps) (start_solution start ∷ []))
    where
      default : ℤ
      default = db.options.default_limit

      outcome : ℤ → Bool → Option (Result (List Solution)) → Option (Result (List Solution))
      outcome k closed joined =
          if closed
          then some (err err_closed)
          else elim joined [ none ↦ none | some r ↦ some (r >>= finish default (limited start k)) ]

      go :
          (closed : Bool) (joined : Option (Result (List Solution)))
          → mapped first_of (outcome n closed joined) ≡ mapped first_of (outcome m closed joined)
      go true joined = refl
      go false none = refl
      go false (some r) =
          first_of-finish default n start r ∙ sym (first_of-finish default m start r)

  -- `First` returns the first solution of `Solutions`, or none where there is none, and `Exists`
  -- whether there is one; both fail where `Solutions` does, with the same error.
  pub first-solutions :
      (h : Heap) (nav : Navigator)
      → (first S done db h nav ≡ mapped first_of (solutions S done db h nav))
        × (exists S done db h nav ≡ mapped is_some (solutions S done db h nav))
  unfolding first solutions exists read_conditions
  first-solutions h nav =
      let e = go nav.conditions refl in
      (e, ap (mapped present) e ∙ mapped-present (solutions S done db h nav))
    where
      go :
          (cs : List ℕ)
          → nav.conditions ≡ cs
          → first S done db h nav ≡ mapped first_of (solutions S done db h nav)
      go [] q = rw q refl
      go (c ∷ cs) q = rw q (
          search_first (read_pattern h (pattern_at h c)) (read_conditions h cs)
            (some nav.initial_solution) (pos 1) (pos 0))
