-- ===== src/Navigator/Grow.antt =====
-- navigator.go: a new variable and a new condition leave what the earlier ones read.
use levelgraph.Prelude.{
  ℕ, zero, suc, ◌<◌, ◌≡◌, refl, ◌∙◌, ap, List, [], ◌∷◌, ◌++◌, length, length-append, All,
  All-append, arith,
}
use levelgraph.Prelude.Bytes.{Bytes}
use levelgraph.Graph.Solution.{v}
use levelgraph.Graph.Pattern.{Pattern, PatternValue, binding}
use levelgraph.Navigator.{
  ValueRef, PatternRef, Heap, Navigator, Element, any_of, at_or, pattern_at, read_value,
  read_pattern, normalize_pattern_value, variable,
}
use levelgraph.Navigator.Query.{read_conditions}

module _ {A : Type 0} where
  at_or-first :
      (absent : A) (n : ℕ) (xs ys : List A)
      → n < length xs
      → at_or absent n (xs ++ ys) ≡ at_or absent n xs
  unfolding at_or
  at_or-first absent n [] ys h = let none_left : ⊥ = omega arith in absurd none_left
  at_or-first absent zero (x ∷ xs) ys h = refl
  at_or-first absent (suc n) (x ∷ xs) ys h = at_or-first absent n xs ys (omega arith)

  pub at_or-last : (absent x : A) (xs : List A) → at_or absent (length xs) (xs ++ x ∷ []) ≡ x
  unfolding at_or
  at_or-last absent x [] = refl
  at_or-last absent x (y ∷ xs) = at_or-last absent x xs

-- A pointer is that of something allocated.
abbrev pub ValueIn : Heap → ValueRef → Type 0
ValueIn h (ValueRef.binding x) = x < length h.names
ValueIn h _ = Unit

abbrev pub PatternIn : Heap → PatternRef → Type 0
PatternIn h p = ValueIn h p.subject × ValueIn h p.predicate × ValueIn h p.object

abbrev pub IsIn : Heap → ℕ → Type 0
IsIn h c = (c < length h.patterns) × PatternIn h (pattern_at h c)

abbrev pub grown : Heap → Bytes → PatternRef → Heap
grown h name p = record { names = h.names ++ name ∷ []; patterns = h.patterns ++ p ∷ [] }

module _ (h : Heap) (name : Bytes) (new : PatternRef) where
  pub value_grown :
      (r : ValueRef)
      → ValueIn h r
      → ValueIn (grown h name new) r × (read_value (grown h name new) r ≡ read_value h r)
  value_grown ValueRef.wildcard i = (tt, refl)
  value_grown (ValueRef.exact d) i = (tt, refl)
  value_grown (ValueRef.binding x) i = (
    omega (arith, length-append h.names (name ∷ [])),
    ap (λ n. binding (v n)) (at_or-first [] x h.names (name ∷ []) i),
  )

  pattern_grown :
      (p : PatternRef)
      → PatternIn h p
      → PatternIn (grown h name new) p × (read_pattern (grown h name new) p ≡ read_pattern h p)
  pattern_grown p (a, b, c) =
      let (a', ea) = value_grown p.subject a in
      let (b', eb) = value_grown p.predicate b in
      let (c', ec) = value_grown p.object c in ((a', b', c'), rw (ea, eb, ec) refl)

  condition_grown :
      (c : ℕ)
      → IsIn h c
      → IsIn (grown h name new) c
        × (read_pattern (grown h name new) (pattern_at (grown h name new) c)
            ≡ read_pattern h (pattern_at h c))
  condition_grown c (i, p) =
      let e : pattern_at (grown h name new) c ≡ pattern_at h c =
        at_or-first _ c h.patterns (new ∷ []) i in
      let (p', q) = pattern_grown (pattern_at h c) p in
      ((omega (arith, length-append h.patterns (new ∷ [])), rw e p'), rw e q)

  conditions_grown :
      (cs : List ℕ)
      → All (IsIn h) cs
      → All (IsIn (grown h name new)) cs
        × (read_conditions (grown h name new) cs ≡ read_conditions h cs)
  unfolding read_conditions
  conditions_grown [] i = (tt, refl)
  conditions_grown (c ∷ cs) (i, is) =
      let (i', e) = condition_grown c i in
      let (is', es) = conditions_grown cs is in ((i', is'), rw (e, es) refl)

  condition_new : PatternIn (grown h name new) new → IsIn (grown h name new) (length h.patterns)
  condition_new i =
      let e : pattern_at (grown h name new) (length h.patterns) ≡ new =
        at_or-last _ new h.patterns in
      (omega (arith, length-append h.patterns (new ∷ [])), rw e i)

read_conditions-append :
    (h : Heap) (cs : List ℕ) (c : ℕ)
    → read_conditions h (cs ++ c ∷ [])
      ≡ read_conditions h cs ++ read_pattern h (pattern_at h c) ∷ []
unfolding read_conditions
read_conditions-append h [] c = refl
read_conditions-append h (d ∷ cs) c =
    ap (λ l. read_pattern h (pattern_at h d) ∷ l) (read_conditions-append h cs c)

abbrev pub ref_of : Element → ValueRef
ref_of e = normalize_pattern_value (any_of e)

-- A navigator whose conditions read as these patterns, and which stands at this value.
pub record IsBuilt (s : Heap × Navigator) (ps : List Pattern) (pv : PatternValue) (n : ℕ)
    : Type 0 where
  pub conditions_in : All (IsIn s.0) s.1.conditions
  pub patterns_are : read_conditions s.0 s.1.conditions ≡ ps
  pub element_in : ValueIn s.0 (ref_of s.1.last_element)
  pub element_is : read_value s.0 (ref_of s.1.last_element) ≡ pv
  pub counter_is : s.1.var_counter ≡ n
  pub nothing_bound : s.1.initial_solution ≡ []

pub grown-IsBuilt :
    (h : Heap) (nav : Navigator) (ps : List Pattern) (pv : PatternValue) (n : ℕ) (name : Bytes)
    (new : PatternRef)
    → IsBuilt (h, nav) ps pv n
    → PatternIn (grown h name new) new
    → IsBuilt
        (
          grown h name new,
          record nav {
            conditions = nav.conditions ++ length h.patterns ∷ [];
            last_element = variable (length h.names);
            var_counter = suc nav.var_counter;
          },
        )
        (ps ++ read_pattern (grown h name new) new ∷ [])
        (binding (v name))
        (suc n)
unfolding normalize_pattern_value
grown-IsBuilt h nav ps pv n name new b i =
    let h' = grown h name new in
    let (cs, e) = conditions_grown h name new nav.conditions b.conditions_in in
    let last : pattern_at h' (length h.patterns) ≡ new = at_or-last _ new h.patterns in
    record {
      conditions_in =
          All-append (IsIn h') nav.conditions (length h.patterns ∷ []) cs
            (condition_new h name new i, tt);
      patterns_are =
          read_conditions-append h' nav.conditions (length h.patterns)
          ∙ rw (e, last, b.patterns_are) refl;
      element_in = omega (arith, length-append h.names (name ∷ []));
      element_is = ap (λ x. binding (v x)) (at_or-last [] name h.names);
      counter_is = ap suc b.counter_is;
      nothing_bound = b.nothing_bound;
    }
