-- ===== src/Navigator/Exact.antt =====
-- navigator.go: what `Values` finds.
use levelgraph.Prelude.{
  ℕ, ◌≡◌, ◌↔◌, refl, sym, ◌∙◌, ap, Bool, false, some, List, [], ◌∷◌, Mem, All, inl, inr, ◌⊎◌, arith,
  Option-cases, subst,
}
use levelgraph.Prelude.Int.{ℤ, pos_part}
use levelgraph.Prelude.Bytes.{Bytes, Slice, slice_bytes}
use levelgraph.Prelude.Assoc.{lookup}
use levelgraph.Graph.Triple.{Triple, triple}
use levelgraph.Graph.Solution.{Solution, v, bytes_of, Extends, lookup-clone, clone}
use levelgraph.Graph.Pattern.{Pattern, PatternValue, binding}
use levelgraph.Graph.Pattern.Bind.{Agrees, Satisfies}
use levelgraph.Store.{KvStore}
use levelgraph.Db.State.{Db, ok}
use levelgraph.Db.Read.{Items, effective_limit}
use levelgraph.Db.Refine.{IsSound}
use levelgraph.Search.Join.{Found, IsUncut, search_exact}
use levelgraph.Navigator.{Heap, Navigator, variable, name_at, pattern_at, read_pattern}
use levelgraph.Navigator.Query.{collect, read_conditions, values, solutions}
use levelgraph.Navigator.Collect.{IsDistinct, collect_sound, collect_complete, collect-IsDistinct}

-- A condition binds the variable of this name.
abbrev pub Binds : Bytes → Pattern → Type 0
Binds x p = (p.subject ≡ binding (v x)) ⊎ (p.predicate ≡ binding (v x)) ⊎ (p.object ≡ binding (v x))

abbrev pub Occurs : Bytes → List Pattern → Type 0
Occurs x [] = ⊥
Occurs x (p ∷ ps) = Binds x p ⊎ Occurs x ps

abbrev pub HasValue : Bytes → List Slice → Type 0
HasValue b vs = (w : Slice) × Mem w vs × (slice_bytes w ≡ b)

Agrees-binding :
    (x : Bytes) (pv : PatternValue) (value : Slice) (s : Solution)
    → Agrees pv value s
    → pv ≡ binding (v x)
    → (b : Bytes) × (bytes_of (lookup x s) ≡ some b)
Agrees-binding x pv value s a q = (slice_bytes value, subst (λ pv'. Agrees pv' value s) q a)

Satisfies-Binds :
    (x : Bytes) (p : Pattern) (t : Triple) (s : Solution)
    → Satisfies p t s
    → Binds x p
    → (b : Bytes) × (bytes_of (lookup x s) ≡ some b)
Satisfies-Binds x p t s (a, b, c) binds = elim binds [
  | inl q ↦ Agrees-binding x p.subject t.subject s a q
  | inr (inl q) ↦ Agrees-binding x p.predicate t.predicate s b q
  | inr (inr q) ↦ Agrees-binding x p.object t.object s c q
]

lookup-bytes_of :
    (x b : Bytes) (s : Solution)
    → bytes_of (lookup x s) ≡ some b
    → (w : Slice) × (lookup x s ≡ some w) × (slice_bytes w ≡ b)
lookup-bytes_of x b s h = elim (Option-cases (lookup x s)) [
  | inl e ↦ cc
  | inr (w, e) ↦ (w, e, ground (arith, h, e))
]

module _ (S : KvStore) (db : Db S.State) where
  -- A solution of the query that gives the variable these bytes.
  abbrev pub IsAnswer : List Pattern → Solution → Bytes → Bytes → Type 0
  IsAnswer ps initial x b =
      (u : Solution) × Extends initial u × All (Found S db u) ps × (bytes_of (lookup x u) ≡ some b)

  Occurs-bound :
      (x : Bytes) (ps : List Pattern) (s : Solution)
      → Occurs x ps
      → All (Found S db s) ps
      → (b : Bytes) × (bytes_of (lookup x s) ≡ some b)
  Occurs-bound x [] s m fs = absurd m
  Occurs-bound x (p ∷ ps) s (inl binds) ((t, held, accepted, sat), fs) =
      Satisfies-Binds x p (triple t) s sat binds
  Occurs-bound x (p ∷ ps) s (inr more) (f, fs) = Occurs-bound x ps s more fs

  -- The values collected from what a query found.
  collect_exact :
      (x : Bytes) (ps : List Pattern) (initial : Solution) (ss : List Solution)
      → Occurs x ps
      → ((s' : Solution) → Mem s' ss → Extends (clone initial) s' × All (Found S db s') ps)
      → ((u : Solution)
          → Extends (clone initial) u
          → All (Found S db u) ps
          → (s' : Solution) × Mem s' ss × Extends s' u)
      → (b : Bytes) → HasValue b (collect x ss []) ↔ IsAnswer ps initial x b
  unfolding lookup
  collect_exact x ps initial ss occurs only every b = (forward, backward)
    where
      forward : HasValue b (collect x ss []) → IsAnswer ps initial x b
      forward (w, m, q) =
          let (s, n, e) = collect_sound x ss [] w m in
          let (ext, fs) = only s n in
          (s, (λ k b' h. ext k b' (lookup-clone k initial ∙ h)), fs, ap bytes_of e ∙ ap some q)

      pick :
          (s' : Solution)
          → Mem s' ss
          → bytes_of (lookup x s') ≡ some b
          → HasValue b (collect x ss [])
      pick s' n bound =
          let (w, e, q) = lookup-bytes_of x b s' bound in
          elim (collect_complete x ss [] s' w n e) [
            | inl (t, none_seen) ↦ cc
            | inr (w', n', q') ↦ (w', n', q' ∙ q)
          ]

      backward : IsAnswer ps initial x b → HasValue b (collect x ss [])
      backward (u, ext, fs, e) =
          let (s', n, ext') = every u (λ k b' h. ext k b' (sym (lookup-clone k initial) ∙ h)) fs in
          let (b', e') = Occurs-bound x ps s' occurs (only s' n).1 in
          pick s' n (e' ∙ sym (ext' x b' e') ∙ e)

  module _ (sound : IsSound S db) (is_open : db.closed ≡ false)
      (total : (start limit : Bytes)
        → (items : Items) × (S.iterate start limit db.store ≡ some items)) where
    -- On an open, sound database whose store iterates over every range, with a context that is
    -- never done and no limit or offset in the conditions or by default, `Values` at a variable of
    -- some condition returns, each once, exactly the bytes that the variable has in the extensions
    -- of the initial solution that make every condition a triple held and accepted.
    pub values_exact :
        (done : ℕ → Bool) (h : Heap) (nav : Navigator) (c : ℕ) (cs : List ℕ) (x : ℕ)
        → ((i : ℕ) → done i ≡ false)
        → nav.conditions ≡ c ∷ cs
        → nav.last_element ≡ variable x
        → All (IsUncut db) (read_conditions h (c ∷ cs))
        → pos_part (effective_limit (ℤ.pos 0) db.options.default_limit) ≡ 0
        → Occurs (name_at h x) (read_conditions h (c ∷ cs))
        → (found : List Slice) × (values S done db h nav ≡ some (ok found))
          × IsDistinct found
          × ((b : Bytes)
              → HasValue b found
                ↔ IsAnswer (read_conditions h (c ∷ cs)) nav.initial_solution (name_at h x) b)
    unfolding values solutions read_conditions
    values_exact done h nav c cs x live some_condition at_variable uncut no_limit occurs =
        let (ss, e, only, every) =
          search_exact S db sound is_open total done (read_pattern h (pattern_at h c))
            (read_conditions h cs) (some nav.initial_solution) live uncut no_limit in
        (
          collect (name_at h x) ss [],
          rw (some_condition, at_variable, e) refl,
          (collect-IsDistinct (name_at h x) ss []).1,
          collect_exact (name_at h x) (read_conditions h (c ∷ cs)) nav.initial_solution ss occurs
              only every,
        )
