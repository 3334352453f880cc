-- ===== src/Navigator/Paths.antt =====
-- navigator.go: paths in the graph, and the solutions of the conditions of a chain.
use levelgraph.Prelude.{
  ℕ, suc, ◌<◌, ◌≡◌, ◌≢◌, refl, sym, ◌∙◌, ap, true, none, some, List, [], ◌∷◌, All, arith, subst,
}
use levelgraph.Prelude.Bytes.{Bytes, Slice, bytes_eq_iff, bytes_eq_refl}
use levelgraph.Prelude.Assoc.{lookup, insert, lookup-insert}
use levelgraph.Graph.Triple.{Spo}
use levelgraph.Graph.Solution.{Solution, v, bytes_of, Extends, Extends-trans}
use levelgraph.Graph.Pattern.{Pattern, PatternValue, wildcard, exact, binding}
use levelgraph.Graph.Pattern.Bind.{Agrees}
use levelgraph.Store.{KvStore}
use levelgraph.Db.State.{Db}
use levelgraph.Db.Refine.{holds}
use levelgraph.Search.Join.{Found}
use levelgraph.Navigator.{Heap, Any, normalize_pattern_value, read_value}
use levelgraph.Navigator.Steps.{Step, out, into, variable_at, path_patterns, path_end}

abbrev pub spo : Bytes → Bytes → Bytes → Spo
spo s p o = record { s = s; p = p; o = o }

-- Not a wildcard: it agrees with one value.
abbrev IsPinned : PatternValue → Type 0
IsPinned wildcard = ⊥
IsPinned _ = Unit

pub Agrees-unique :
    (pv : PatternValue) (a b : Bytes) (s : Solution)
    → IsPinned pv
    → Agrees pv (some a) s
    → Agrees pv (some b) s
    → a ≡ b
Agrees-unique wildcard a b s i h k = absurd i
Agrees-unique (exact d) a b s i h k = sym h ∙ k
Agrees-unique (binding x) a b s i h k = ground (arith, h, k)

pub Extends-nil : (u : Solution) → Extends [] u
unfolding lookup
Extends-nil u k b h = cc

pub nil-cons : (p : Pattern) (ps : List Pattern) → [] ≢ p ∷ ps
nil-cons p ps q = cc

pub bytes-binding :
    (h : Heap) (d : Slice) (nm : Bytes)
    → read_value h (normalize_pattern_value (Any.bytes d)) ≢ binding (v nm)
unfolding normalize_pattern_value
bytes-binding h d nm q = ground arith

module _ (S : KvStore) (db : Db S.State) where
  -- A path of the graph along the steps: `ArchOut` goes from subject to object, `ArchIn` back.
  abbrev pub Reaches : List Step → Bytes → Bytes → Type 0
  Reaches [] a b = a ≡ b
  Reaches (out p ∷ steps) a b = (m : Bytes) × (holds S db (spo a p m) ≡ true) × Reaches steps m b
  Reaches (into p ∷ steps) a b = (m : Bytes) × (holds S db (spo m p a) ≡ true) × Reaches steps m b

  held-edge :
      (t : Spo) (a p m : Bytes)
      → a ≡ t.s
      → p ≡ t.p
      → m ≡ t.o
      → holds S db t ≡ true
      → holds S db (spo a p m) ≡ true
  held-edge t a p m qa qp qm h = rw (qa, qp, qm) h

  module _ (var_name : ℕ → Bytes) where
    pub path_sound :
        (steps : List Step) (pv : PatternValue) (n : ℕ) (s : Solution) (a : Bytes)
        → IsPinned pv
        → Agrees pv (some a) s
        → All (Found S db s) (path_patterns var_name pv n steps)
        → (b : Bytes) × Agrees (path_end var_name pv n steps) (some b) s × Reaches steps a b
    path_sound [] pv n s a i h fs = (a, h, refl)
    path_sound (out p ∷ steps) pv n s a i h ((t, held, accepted, (hs, hp, ho)), fs) =
        let (b, e, r) = path_sound steps (variable_at var_name n) (suc n) s t.o tt ho fs in
        (b, e, (t.o, held-edge t a p t.o (Agrees-unique pv a t.s s i h hs) hp refl held, r))
    path_sound (into p ∷ steps) pv n s a i h ((t, held, accepted, (hs, hp, ho)), fs) =
        let (b, e, r) = path_sound steps (variable_at var_name n) (suc n) s t.s tt hs fs in
        (b, e, (t.s, held-edge t t.s p a refl hp (Agrees-unique pv a t.o s i h ho) held, r))

    module _ (injective : (i j : ℕ) → var_name i ≡ var_name j → i ≡ j) where
      -- The solution of a path binds none of the earlier variables.
      abbrev IsLater : ℕ → Solution → Type 0
      IsLater n u = (i : ℕ) → i < n → lookup (var_name i) u ≡ none

      IsLater-insert :
          (n : ℕ) (m : Bytes) (u : Solution)
          → IsLater (suc n) u
          → IsLater n (insert (var_name n) (some m) u)
            × Extends u (insert (var_name n) (some m) u)
            × (bytes_of (lookup (var_name n) (insert (var_name n) (some m) u)) ≡ some m)
      IsLater-insert n m u later = (
        (λ i h.
            let differs : var_name n ≢ var_name i =
              λ q. let none_left : ⊥ = omega (arith, injective n i q) in none_left in
            ground (
              arith,
              differs,
              lookup-insert (var_name n) (var_name i) (some m) u,
              bytes_eq_iff (var_name n) (var_name i),
              later i (omega (arith, h)),
            )),
        (λ k b h.
            let unbound : lookup (var_name n) u ≡ none = later n (omega arith) in
            let same : var_name n ≡ k → lookup k u ≡ none =
              λ q. ap (λ j. lookup j u) (sym q) ∙ unbound in
            ground
              (arith, same, lookup-insert (var_name n) k (some m) u, bytes_eq_iff (var_name n) k)),
        ground
            (arith, lookup-insert (var_name n) (var_name n) (some m) u, bytes_eq_refl (var_name n)),
      )

      pub path_complete :
          (steps : List Step) (pv : PatternValue) (n : ℕ) (a b : Bytes)
          → Reaches steps a b
          → (u : Solution) × IsLater n u
            × ((u' : Solution)
                → Extends u u'
                → Agrees pv (some a) u'
                → All (Found S db u') (path_patterns var_name pv n steps)
                  × Agrees (path_end var_name pv n steps) (some b) u')
      unfolding lookup
      path_complete [] pv n a b q =
          ([], λ i h. refl, λ u' ext h. (tt, subst (λ c. Agrees pv (some c) u') q h))
      path_complete (out p ∷ steps) pv n a b (m, held, r) =
          let (u, later, found) = path_complete steps (variable_at var_name n) (suc n) m b r in
          let (later', ext', bound) = IsLater-insert n m u later in
          (
            insert (var_name n) (some m) u,
            later',
            λ u' ext h.
                let at_m = ext (var_name n) m bound in
                let (fs, e) = found u' (Extends-trans u _ u' ext' ext) at_m in
                (((spo a p m, held, refl, (h, refl, at_m)), fs), e),
          )
      path_complete (into p ∷ steps) pv n a b (m, held, r) =
          let (u, later, found) = path_complete steps (variable_at var_name n) (suc n) m b r in
          let (later', ext', bound) = IsLater-insert n m u later in
          (
            insert (var_name n) (some m) u,
            later',
            λ u' ext h.
                let at_m = ext (var_name n) m bound in
                let (fs, e) = found u' (Extends-trans u _ u' ext' ext) at_m in
                (((spo m p a, held, refl, (at_m, refl, h)), fs), e),
          )
