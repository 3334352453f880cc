-- ===== src/Navigator/Reach.antt =====
-- navigator.go: `Values` after a chain of `ArchOut` and `ArchIn` from a vertex, against paths in
-- the graph.
use levelgraph.Prelude.{
  ℕ, suc, ◌≡◌, ◌≢◌, ◌↔◌, refl, sym, ◌∙◌, ap, Bool, false, some, List, [], ◌∷◌, All, arith, subst,
  inl, inr,
}
use levelgraph.Prelude.Int.{pos, pos_part}
use levelgraph.Prelude.Bytes.{Bytes, Slice}
use levelgraph.Graph.Solution.{v, Extends-refl}
use levelgraph.Graph.Pattern.{Pattern, PatternValue, exact, binding, variable_name}
use levelgraph.Graph.Pattern.Bind.{Agrees}
use levelgraph.Store.{KvStore}
use levelgraph.Db.State.{Db, ok}
use levelgraph.Db.Read.{Items, effective_limit}
use levelgraph.Db.Refine.{IsSound}
use levelgraph.Search.Join.{IsUncut}
use levelgraph.Navigator.{
  Heap, Navigator, Any, Element, nav_from, normalize_pattern_value, read_value, any_of, name_at,
}
use levelgraph.Navigator.Query.{values, read_conditions}
use levelgraph.Navigator.Collect.{IsDistinct}
use levelgraph.Navigator.Exact.{HasValue, IsAnswer, Occurs, values_exact}
use levelgraph.Navigator.Steps.{
  Step, out, into, IsLabelled, step_pattern, variable_at, follow, path_patterns, path_end,
  path-IsBuilt,
}
use levelgraph.Navigator.Grow.{IsBuilt}
use levelgraph.Navigator.Paths.{
  Reaches, path_sound, path_complete, nil-cons, bytes-binding, Extends-nil,
}

module _ (S : KvStore) (db : Db S.State) where
  module _ (var_name : ℕ → Bytes) where
    path_end-variable :
        (pv : PatternValue) (n : ℕ) (st : Step) (steps : List Step)
        → (k : ℕ) × (path_end var_name pv n (st ∷ steps) ≡ variable_at var_name k)
    path_end-variable pv n st [] = (n, refl)
    path_end-variable pv n st (st' ∷ steps) =
        path_end-variable (variable_at var_name n) (suc n) st' steps

    -- The chain ends at a variable of one of its conditions.
    end-variable :
        (nm : Bytes) (st : Step) (steps : List Step) (pv : PatternValue) (n : ℕ)
        → path_end var_name pv n (st ∷ steps) ≡ binding (v nm)
        → Occurs nm (path_patterns var_name pv n (st ∷ steps))
    end-variable nm (out p) [] pv n e = inl (inr (inr e))
    end-variable nm (into p) [] pv n e = inl (inl e)
    end-variable nm st (st' ∷ steps) pv n e =
        inr (end-variable nm st' steps (variable_at var_name n) (suc n) e)

    path-IsUncut :
        (steps : List Step) (pv : PatternValue) (n : ℕ)
        → pos_part (effective_limit (pos 0) db.options.default_limit) ≡ 0
        → All (IsUncut db) (path_patterns var_name pv n steps)
    path-IsUncut [] pv n h = tt
    path-IsUncut (out p ∷ steps) pv n h = ((refl, h), path-IsUncut steps _ (suc n) h)
    path-IsUncut (into p ∷ steps) pv n h = ((refl, h), path-IsUncut steps _ (suc n) h)

    module _ (injective : (i j : ℕ) → var_name i ≡ var_name j → i ≡ j) where
      -- The answers of the path's conditions are the ends of the paths.
      IsAnswer-Reaches :
          (steps : List Step) (start nm b : Bytes)
          → path_end var_name (exact (some start)) 0 steps ≡ binding (v nm)
          → IsAnswer S db (path_patterns var_name (exact (some start)) 0 steps) [] nm b
            ↔ Reaches S db steps start b
      IsAnswer-Reaches steps start nm b e = (
        (λ (u, ext, fs, h).
            let (b', agrees, r) =
              path_sound S db var_name steps (exact (some start)) 0 u start tt refl fs in
            let at_end = subst (λ pv. Agrees pv (some b') u) e agrees in
            let same : b' ≡ b = ground (arith, h, at_end) in
            subst (λ c. Reaches S db steps start c) same r),
        λ r.
            let (u, later, found) =
              path_complete S db var_name injective steps (exact (some start)) 0 start b r in
            let (fs, agrees) = found u (Extends-refl u) refl in
            (u, Extends-nil u, fs, subst (λ pv. Agrees pv (some b) u) e agrees),
      )

  module _ (sound : IsSound S db) (is_open : db.closed ≡ false)
      (total : (low limit : Bytes) → (items : Items) × (S.iterate low limit db.store ≡ some items))
      (done : ℕ → Bool) (live : (i : ℕ) → done i ≡ false)
      (no_limit : pos_part (effective_limit (pos 0) db.options.default_limit) ≡ 0) where
    -- The values of a navigator that has been built with these conditions.
    built_exact :
        (h : Heap) (nav : Navigator) (p : Pattern) (ps : List Pattern) (nm : Bytes) (m : ℕ)
        → IsBuilt (h, nav) (p ∷ ps) (binding (v nm)) m
        → Occurs nm (p ∷ ps)
        → All (IsUncut db) (p ∷ ps)
        → (found : List Slice) × (values S done db h nav ≡ some (ok found))
          × IsDistinct found
          × ((b : Bytes) → HasValue b found ↔ IsAnswer S db (p ∷ ps) [] nm b)
    unfolding read_conditions normalize_pattern_value variable_name
    built_exact h nav p ps nm m built occurs uncut = go nav.conditions nav.last_element refl refl
      where
        go :
            (cs : List ℕ) (el : Element)
            → nav.conditions ≡ cs
            → nav.last_element ≡ el
            → (found : List Slice) × (values S done db h nav ≡ some (ok found))
              × IsDistinct found
              × ((b : Bytes) → HasValue b found ↔ IsAnswer S db (p ∷ ps) [] nm b)
        go [] el qc qe =
            let none_left : [] ≡ p ∷ ps = ap (read_conditions h) (sym qc) ∙ built.patterns_are in
            absurd (nil-cons p ps none_left)
        go (c ∷ cs) (Element.bytes d) qc qe = absurd (
            bytes-binding h d nm (
              ap (λ el. read_value h (normalize_pattern_value (any_of el))) (sym qe)
              ∙ built.element_is))
        go (c ∷ cs) (Element.variable x) qc qe =
            let patterns : read_conditions h (c ∷ cs) ≡ p ∷ ps =
              ap (read_conditions h) (sym qc) ∙ built.patterns_are in
            let named : binding (v (name_at h x)) ≡ binding (v nm) =
              ap (λ el. read_value h (normalize_pattern_value (any_of el))) (sym qe)
              ∙ built.element_is in
            let name : name_at h x ≡ nm = ap variable_name named in
            let (found, e, distinct, answers) =
              values_exact S db sound is_open total done h nav c cs x live qc qe
                (subst (All (IsUncut db)) (sym patterns) uncut) no_limit
                (subst (λ k. Occurs k (read_conditions h (c ∷ cs))) (sym name)
                  (subst (Occurs nm) (sym patterns) occurs)) in
            (
              found,
              e,
              distinct,
              λ b.
                  subst (λ k. HasValue b found ↔ IsAnswer S db (p ∷ ps) [] k b) name
                    (subst (λ i. HasValue b found ↔ IsAnswer S db (p ∷ ps) i (name_at h x) b)
                      built.nothing_bound
                      (subst
                        (λ qs.
                          HasValue b found ↔ IsAnswer S db qs nav.initial_solution (name_at h x) b)
                        patterns (answers b))),
            )

    module _ (var_name : ℕ → Bytes) (injective : (i j : ℕ) → var_name i ≡ var_name j → i ≡ j) where
      -- From a vertex that is not empty, along a chain of `ArchOut` and `ArchIn` with predicates
      -- that are not empty, `Values` returns exactly the vertices at the ends of the graph's paths
      -- along the chain, each once: on an open, sound database with no default limit whose store
      -- iterates over every range, with a context that is never done, and where the names of the
      -- variables differ.
      pub path_exact :
          (h : Heap) (start : Bytes) (st : Step) (steps : List Step)
          → start ≢ []
          → All IsLabelled (st ∷ steps)
          → let s = follow var_name (st ∷ steps) (nav_from var_name (Any.bytes (some start)) h) in
            (found : List Slice) × (values S done db s.0 s.1 ≡ some (ok found))
            × IsDistinct found
            × ((b : Bytes) → HasValue b found ↔ Reaches S db (st ∷ steps) start b)
      path_exact h start st steps some_start labelled =
          let (m, built) = path-IsBuilt var_name start h (st ∷ steps) some_start labelled in
          let (k, e) = path_end-variable var_name (exact (some start)) 0 st steps in
          let nm = var_name k in
          let ps = path_patterns var_name (exact (some start)) 0 (st ∷ steps) in
          let s = follow var_name (st ∷ steps) (nav_from var_name (Any.bytes (some start)) h) in
          let (found, q, distinct, answers) =
            built_exact s.0 s.1 (step_pattern st (exact (some start)) (variable_at var_name 0))
              (path_patterns var_name (variable_at var_name 0) 1 steps) nm m
              (subst (λ pv. IsBuilt s ps pv m) e built)
              (end-variable var_name nm st steps (exact (some start)) 0 e)
              (path-IsUncut var_name (st ∷ steps) (exact (some start)) 0 no_limit) in
          (
            found,
            q,
            distinct,
            λ b.
                let (to, from) = IsAnswer-Reaches var_name injective (st ∷ steps) start nm b e in
                let (back, forth) = answers b in (λ x. to (back x), λ r. forth (from r)),
          )
