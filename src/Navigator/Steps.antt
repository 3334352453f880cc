-- ===== src/Navigator/Steps.antt =====
-- navigator.go: the conditions that a chain of `ArchOut` and `ArchIn` builds.
use levelgraph.Prelude.{
  ℕ, suc, ◌≡◌, ◌≢◌, refl, false, none, some, List, [], ◌∷◌, ◌++◌, length, length-append,
  append_assoc, append-nil, All, arith, subst,
}
use levelgraph.Prelude.Int.{pos}
use levelgraph.Prelude.Bytes.{Bytes, bytes_eq_iff}
use levelgraph.Graph.Solution.{v}
use levelgraph.Graph.Pattern.{Pattern, PatternValue, exact, binding}
use levelgraph.Navigator.{
  ValueRef, PatternRef, Heap, Navigator, Any, any_of, name_at, read_pattern,
  normalize_pattern_value, new_pattern, next_var, arch_out, arch_in, nav_from, go, variable, string,
}
use levelgraph.Navigator.Query.{read_conditions}
use levelgraph.Navigator.Grow.{
  at_or-last, ValueIn, PatternIn, grown, ref_of, grown-IsBuilt, value_grown, IsBuilt,
}

-- One call of `ArchOut` or `ArchIn`, with its predicate.
pub data Step : Type 0 where
  out into : Bytes → Step

abbrev pub IsLabelled : Step → Type 0
IsLabelled (out p) = p ≢ []
IsLabelled (into p) = p ≢ []

abbrev pub edge : PatternValue → Bytes → PatternValue → Pattern
edge s p o = record {
  subject = s;
  predicate = exact (some p);
  object = o;
  filter = none;
  limit = pos 0;
  offset = pos 0;
  reverse = false;
}

abbrev pub step_pattern : Step → PatternValue → PatternValue → Pattern
step_pattern (out p) here there = edge here p there
step_pattern (into p) here there = edge there p here

normalize-label :
    (p : Bytes) → p ≢ [] → normalize_pattern_value (string p) ≡ ValueRef.exact (some p)
unfolding normalize_pattern_value
normalize-label p h = ground (arith, bytes_eq_iff p [])

module _ (var_name : ℕ → Bytes) where
  abbrev pub variable_at : ℕ → PatternValue
  variable_at n = binding (v (var_name n))

  abbrev pub take_step : Step → Heap × Navigator → Heap × Navigator
  take_step (out p) = arch_out var_name (string p)
  take_step (into p) = arch_in var_name (string p)

  -- The chain of calls.
  abbrev pub follow : List Step → Heap × Navigator → Heap × Navigator
  follow [] s = s
  follow (st ∷ steps) s = follow steps (take_step st s)

  abbrev pub path_patterns : PatternValue → ℕ → List Step → List Pattern
  path_patterns pv n [] = []
  path_patterns pv n (st ∷ steps) =
      step_pattern st pv (variable_at n) ∷ path_patterns (variable_at n) (suc n) steps

  abbrev pub path_end : PatternValue → ℕ → List Step → PatternValue
  path_end pv n [] = pv
  path_end pv n (st ∷ steps) = path_end (variable_at n) (suc n) steps

  take_step-IsBuilt :
      (st : Step) (s : Heap × Navigator) (ps : List Pattern) (pv : PatternValue) (n : ℕ)
      → IsLabelled st
      → IsBuilt s ps pv n
      → IsBuilt
          (take_step st s)
          (ps ++ step_pattern st pv (variable_at n) ∷ [])
          (variable_at n)
          (suc n)
  unfolding arch_out arch_in next_var new_pattern normalize_pattern_value
  take_step-IsBuilt st (h, nav) ps pv n labelled b = go st labelled
    where
      name : Bytes
      name = var_name nav.var_counter

      here : PatternRef → Heap × Navigator
      here new = (
        grown h name new,
        record nav {
          conditions = nav.conditions ++ length h.patterns ∷ [];
          last_element = variable (length h.names);
          var_counter = suc nav.var_counter;
        },
      )

      label_in : (g : Heap) (p : Bytes) → p ≢ [] → ValueIn g (normalize_pattern_value (string p))
      label_in g p l = rw (normalize-label p l) tt

      variable_in :
          (new : PatternRef) → ValueIn (grown h name new) (ValueRef.binding (length h.names))
      variable_in new = omega (arith, length-append h.names (name ∷ []))

      at_name : (new : PatternRef) → name_at (grown h name new) (length h.names) ≡ name
      at_name new = at_or-last [] name h.names

      stepped :
          (new : PatternRef) (f : PatternValue → Pattern)
          → PatternIn (grown h name new) new
          → read_pattern (grown h name new) new ≡ f (binding (v name))
          → IsBuilt (here new) (ps ++ f (variable_at n) ∷ []) (variable_at n) (suc n)
      stepped new f i e =
          subst (λ m. IsBuilt (here new) (ps ++ f (variable_at m) ∷ []) (variable_at m) (suc n))
            b.counter_is
            (subst (λ q. IsBuilt (here new) (ps ++ q ∷ []) (binding (v name)) (suc n)) e
              (grown-IsBuilt h nav ps pv n name new b i))

      go :
          (st : Step)
          → IsLabelled st
          → IsBuilt
              (take_step st (h, nav))
              (ps ++ step_pattern st pv (variable_at n) ∷ [])
              (variable_at n)
              (suc n)
      go (out p) l =
          let new =
            new_pattern (any_of nav.last_element) (string p) (Any.variable (length h.names)) in
          let (i, e) = value_grown h name new (ref_of nav.last_element) b.element_in in
          stepped new (λ x. edge pv p x) (i, label_in (grown h name new) p l, variable_in new)
            (rw (e, b.element_is, normalize-label p l, at_name new) refl)
      go (into p) l =
          let new =
            new_pattern (Any.variable (length h.names)) (string p) (any_of nav.last_element) in
          let (i, e) = value_grown h name new (ref_of nav.last_element) b.element_in in
          stepped new (λ x. edge x p pv) (variable_in new, label_in (grown h name new) p l, i)
            (rw (e, b.element_is, normalize-label p l, at_name new) refl)

  follow-IsBuilt :
      (steps : List Step) (s : Heap × Navigator) (ps : List Pattern) (pv : PatternValue) (n : ℕ)
      → All IsLabelled steps
      → IsBuilt s ps pv n
      → (m : ℕ) × IsBuilt (follow steps s) (ps ++ path_patterns pv n steps) (path_end pv n steps) m
  follow-IsBuilt [] s ps pv n l b = (n, rw (append-nil ps) b)
  follow-IsBuilt (st ∷ steps) s ps pv n (l, ls) b =
      let first = step_pattern st pv (variable_at n) ∷ [] in
      let (m, built) =
        follow-IsBuilt steps (take_step st s) (ps ++ first) (variable_at n) (suc n) ls
          (take_step-IsBuilt st s ps pv n l b) in
      (
        m,
        subst (λ qs. IsBuilt (follow (st ∷ steps) s) qs (path_end pv n (st ∷ steps)) m)
            (append_assoc ps first (path_patterns (variable_at n) (suc n) steps)) built,
      )

  -- From a vertex, the chain leaves the conditions of its path.
  pub path-IsBuilt :
      (start : Bytes) (h : Heap) (steps : List Step)
      → start ≢ []
      → All IsLabelled steps
      → (m : ℕ) × IsBuilt
          (follow steps (nav_from var_name (Any.bytes (some start)) h))
          (path_patterns (exact (some start)) 0 steps)
          (path_end (exact (some start)) 0 steps)
          m
  unfolding nav_from go read_conditions normalize_pattern_value
  path-IsBuilt start h steps some_start l =
      follow-IsBuilt steps (nav_from var_name (Any.bytes (some start)) h) [] (exact (some start)) 0
        l
        (record {
          conditions_in = tt;
          patterns_are = refl;
          element_in = rw (vertex) tt;
          element_is = rw vertex refl;
          counter_is = refl;
          nothing_bound = refl;
        })
    where
      vertex : normalize_pattern_value (Any.bytes (some start)) ≡ ValueRef.exact (some start)
      vertex =
          elim start
              as (λ s.
                s ≢ [] → normalize_pattern_value (Any.bytes (some s)) ≡ ValueRef.exact (some s)) [
                  | [] ↦ λ q. absurd (q refl)
                  | b ∷ bs ↦ λ q. ground arith
                ]
            some_start
