-- ===== src/Search/Join.antt =====
-- search.go: what the join of patterns finds.
use levelgraph.Prelude.{
  ℕ, suc, ◌≡◌, refl, sym, ◌∙◌, inl, inr, Bool, true, false, Option, some, List, [], ◌∷◌, ◌++◌, Mem,
  All, subst,
}
use levelgraph.Prelude.Int.{ℤ, pos_part}
use levelgraph.Prelude.Bytes.{Bytes}
use levelgraph.Graph.Triple.{Triple, Spo, triple}
use levelgraph.Graph.Solution.{Solution, Extends, Extends-refl, Extends-trans}
use levelgraph.Graph.Pattern.{Pattern, update_with_solution}
use levelgraph.Graph.Pattern.Bind.{
  Satisfies, Agrees-Extends, bind_triple_fast_sound, bind_triple_fast_complete, matches-update,
}
use levelgraph.Index.Query.{matches-selects}
use levelgraph.Store.{KvStore}
use levelgraph.Db.State.{Db, ok}
use levelgraph.Db.Read.{Items, get_unlocked, effective_limit}
use levelgraph.Db.Refine.{IsSound, holds}
use levelgraph.Db.Query.{get_exact, get_open}
use levelgraph.Db.Values.{accepts}
use levelgraph.Search.Loop.{
  mem-append_cases, mem-append_first, mem-append_second, bind_triples_sound, bind_triples_complete,
}
use levelgraph.Search.{
  no_options, start_solution, bind_triples, join_pattern, join_loop, search, finish, keep,
  skip_offset, cut_limit,
}

Satisfies-Extends :
    (p : Pattern) (t : Triple) (s u : Solution) → Extends s u → Satisfies p t s → Satisfies p t u
Satisfies-Extends p t s u e (a, b, c) = (
  Agrees-Extends p.subject t.subject s u e a,
  Agrees-Extends p.predicate t.predicate s u e b,
  Agrees-Extends p.object t.object s u e c,
)

-- The database holds a triple, accepted by the pattern's filter, that is the pattern's instance.
abbrev pub Found : (S : KvStore) → Db S.State → Solution → Pattern → Type 0
Found S db s p =
    (x : Spo) × (holds S db x ≡ true)
    × (accepts p.filter (triple x) ≡ true)
    × Satisfies p (triple x) s

-- Neither the pattern nor the options cut the pattern's triples short.
abbrev pub IsUncut : {State : Type 0} → Db State → Pattern → Type 0
IsUncut db p =
    (pos_part p.offset ≡ 0) × (pos_part (effective_limit p.limit db.options.default_limit) ≡ 0)

module _ (S : KvStore) (db : Db S.State) (sound : IsSound S db) (is_open : db.closed ≡ false)
    (total : (start limit : Bytes)
      → (items : Items) × (S.iterate start limit db.store ≡ some items)) where
  -- What one solution reads: only triples held and accepted, and each instance under an extension.
  narrowed_query :
      (p : Pattern) (s : Solution)
      → IsUncut db p
      → (ts : List Triple) × (get_unlocked S db (update_with_solution p s) ≡ some (ok ts))
        × ((t : Triple) → Mem t ts → (x : Spo) × (t ≡ triple x) × (holds S db x ≡ true))
        × ((u : Solution) (x : Spo)
            → Extends s u
            → holds S db x ≡ true
            → accepts p.filter (triple x) ≡ true
            → Satisfies p (triple x) u
            → Mem (triple x) ts)
  unfolding update_with_solution
  narrowed_query p s (no_offset, no_limit) =
      let q = update_with_solution p s in
      let (items, read) = total _ _ in
      let (ts, e, exact) = get_exact S db q items sound read is_open no_offset no_limit in
      (
        ts,
        sym (get_open S db q items is_open) ∙ e,
        λ t m. let (x, same, h, _, _) = (exact t).0 m in (x, same, h),
        λ u x ext h a sat.
            (exact (triple x)).1
              (x, refl, h, matches-selects q x (matches-update p (triple x) s u ext sat), a),
      )

  -- One pattern joined to the solutions so far.
  join_pattern_exact :
      (p : Pattern) (ss : List Solution)
      → IsUncut db p
      → (found : List Solution) × (join_pattern S db p ss ≡ some (ok found))
        × ((s' : Solution)
            → Mem s' found
            → (s : Solution) × Mem s ss × Extends s s' × Found S db s' p)
        × ((s u : Solution)
            → Mem s ss
            → Extends s u
            → Found S db u p
            → (s' : Solution) × Mem s' found × Extends s' u)
  unfolding join_pattern
  join_pattern_exact p [] h = ([], refl, λ s' m. absurd m, λ s u m e f. absurd m)
  join_pattern_exact p (s ∷ ss) h =
      let (ts, e, only, every) = narrowed_query p s h in
      let (more, f, sound_more, complete_more) = join_pattern_exact p ss h in
      let here = bind_triples p s ts in
      (
        here ++ more,
        rw (e, f, join_pattern) refl,
        (λ s' m. elim (mem-append_cases s' here more m) [
          | inl n ↦
              let (t, at, a, b) = bind_triples_sound p s s' ts n in
              let (x, same, held) = only t at in
              let (ext, sat) = bind_triple_fast_sound p t s s' b in
              (
                s,
                inl refl,
                ext,
                (
                  x,
                  held,
                  subst (λ l. accepts p.filter l ≡ true) same a,
                  subst (λ l. Satisfies p l s') same sat,
                ),
              )
          | inr n ↦ let (s0, at, ext, found) = sound_more s' n in (s0, inr at, ext, found)
        ]),
        (λ s0 u m ext (x, held, a, sat). elim m [
          | inl q ↦
              let ext' = subst (λ l. Extends l u) q ext in
              let (s', b, least) = bind_triple_fast_complete p (triple x) s u ext' sat in
              (
                s',
                mem-append_first s' here more
                    (bind_triples_complete p s s' (triple x) ts (every u x ext' held a sat) a b),
                least,
              )
          | inr n ↦
              let (s', at, least) = complete_more s0 u n ext (x, held, a, sat) in
              (s', mem-append_second s' here more at, least)
        ]),
      )

  Found-Extends : (p : Pattern) (s u : Solution) → Extends s u → Found S db s p → Found S db u p
  Found-Extends p s u e (x, h, a, sat) = (x, h, a, Satisfies-Extends p (triple x) s u e sat)

  -- All patterns joined, when the context is never done.
  join_loop_exact :
      (done : ℕ → Bool)
      → ((i : ℕ) → done i ≡ false)
      → (i : ℕ) (ps : List Pattern) (ss : List Solution) → All (IsUncut db) ps
      → (found : List Solution) × (join_loop S db done i ps ss ≡ some (ok found))
        × ((s' : Solution)
            → Mem s' found
            → (s : Solution) × Mem s ss × Extends s s' × All (Found S db s') ps)
        × ((s u : Solution)
            → Mem s ss
            → Extends s u
            → All (Found S db u) ps
            → (s' : Solution) × Mem s' found × Extends s' u)
  unfolding join_loop
  join_loop_exact done live i [] ss h =
      (ss, refl, λ s' m. (s', m, Extends-refl s', tt), λ s u m e f. (s, m, e))
  join_loop_exact done live i (p ∷ ps) ss (h, hs) =
      let (next, e, sound_p, complete_p) = join_pattern_exact p ss h in
      go next e sound_p complete_p (join_loop_exact done live (suc i) ps next hs)
    where
      go :
          (next : List Solution)
          → join_pattern S db p ss ≡ some (ok next)
          → ((s' : Solution)
              → Mem s' next
              → (s : Solution) × Mem s ss × Extends s s' × Found S db s' p)
          → ((s u : Solution)
              → Mem s ss
              → Extends s u
              → Found S db u p
              → (s' : Solution) × Mem s' next × Extends s' u)
          → (found : List Solution) × (join_loop S db done (suc i) ps next ≡ some (ok found))
            × ((s' : Solution)
                → Mem s' found
                → (s : Solution) × Mem s next × Extends s s' × All (Found S db s') ps)
            × ((s u : Solution)
                → Mem s next
                → Extends s u
                → All (Found S db u) ps
                → (s' : Solution) × Mem s' found × Extends s' u)
          → (found : List Solution) × (join_loop S db done i (p ∷ ps) ss ≡ some (ok found))
            × ((s' : Solution)
                → Mem s' found
                → (s : Solution) × Mem s ss × Extends s s' × All (Found S db s') (p ∷ ps))
            × ((s u : Solution)
                → Mem s ss
                → Extends s u
                → All (Found S db u) (p ∷ ps)
                → (s' : Solution) × Mem s' found × Extends s' u)
      go [] e sound_p complete_p rest = (
        [],
        rw (live i, e, join_loop) refl,
        λ s' m. absurd m,
        λ s u m ext (f, fs). let (s', n, _) = complete_p s u m ext f in absurd n,
      )
      go (s1 ∷ next) e sound_p complete_p (found, e', sound_r, complete_r) = (
        found,
        rw (live i, e, join_loop) e',
        (λ s' m.
            let (mid, n, ext', fs) = sound_r s' m in
            let (s, n', ext, f) = sound_p mid n in
            (s, n', Extends-trans s mid s' ext ext', (Found-Extends p mid s' ext' f, fs))),
        (λ s u m ext (f, fs).
            let (mid, n, ext') = complete_p s u m ext f in complete_r mid u n ext' fs),
      )

  -- `Search` with no filter, limit, offset or materialisation returns solutions only, each of which
  -- extends the initial one and makes every pattern a triple held; and whatever extension of the
  -- initial solution does that, some returned solution binds no more than it.
  pub search_exact :
      (done : ℕ → Bool) (p : Pattern) (ps : List Pattern) (initial : Option Solution)
      → ((i : ℕ) → done i ≡ false)
      → All (IsUncut db) (p ∷ ps)
      → pos_part (effective_limit (ℤ.pos 0) db.options.default_limit) ≡ 0
      → (found : List Solution) × (search S done db
            (p ∷ ps)
            (some (record no_options { initial_solution = initial }))
          ≡ some (ok found))
        × ((s' : Solution)
            → Mem s' found
            → Extends (start_solution initial) s' × All (Found S db s') (p ∷ ps))
        × ((u : Solution)
            → Extends (start_solution initial) u
            → All (Found S db u) (p ∷ ps)
            → (s' : Solution) × Mem s' found × Extends s' u)
  unfolding search finish keep skip_offset cut_limit
  search_exact done p ps initial live uncut no_limit =
      let start = start_solution initial in
      let (found, e, only, every) = join_loop_exact done live 0 (p ∷ ps) (start ∷ []) uncut in
      (
        found,
        rw (e, no_limit, is_open) refl,
        (λ s' m.
            let (s, n, ext, fs) = only s' m in
            elim n [
              | inl q ↦ (subst (λ l. Extends l s') q ext, fs)
              | inr none_left ↦ absurd none_left
            ]),
        λ u ext fs. every start u (inl refl) ext fs,
      )
