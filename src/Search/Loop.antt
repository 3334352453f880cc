-- ===== src/Search/Loop.antt =====
-- search.go: the innermost loop of the join.
use levelgraph.Prelude.{
  ◌≡◌, refl, sym, ap, ◌∙◌, ◌⊎◌, inl, inr, Bool, true, false, Option, none, some, List, [], ◌∷◌,
  ◌++◌, if◌then◌else◌, Mem, subst,
}
use levelgraph.Graph.Triple.{Triple}
use levelgraph.Graph.Solution.{Solution}
use levelgraph.Graph.Pattern.{Pattern, bind_triple_fast}
use levelgraph.Db.Values.{accepts}
use levelgraph.Search.{bind_triples}

pub mem-append_cases :
    {A : Type 0} (a : A) (xs ys : List A) → Mem a (xs ++ ys) → Mem a xs ⊎ Mem a ys
mem-append_cases a [] ys h = inr h
mem-append_cases a (x ∷ xs) ys (inl e) = inl (inl e)
mem-append_cases a (x ∷ xs) ys (inr h) = elim (mem-append_cases a xs ys h) [
  | inl m ↦ inl (inr m)
  | inr m ↦ inr m
]

pub mem-append_first : {A : Type 0} (a : A) (xs ys : List A) → Mem a xs → Mem a (xs ++ ys)
mem-append_first a [] ys h = absurd h
mem-append_first a (x ∷ xs) ys (inl e) = inl e
mem-append_first a (x ∷ xs) ys (inr h) = inr (mem-append_first a xs ys h)

pub mem-append_second : {A : Type 0} (a : A) (xs ys : List A) → Mem a ys → Mem a (xs ++ ys)
mem-append_second a [] ys h = h
mem-append_second a (x ∷ xs) ys h = inr (mem-append_second a xs ys h)

-- Where a solution of the innermost loop comes from, and that none is lost there.
pub bind_triples_sound :
    (p : Pattern) (s s' : Solution) (ts : List Triple)
    → Mem s' (bind_triples p s ts)
    → (t : Triple) × Mem t ts
      × (accepts p.filter t ≡ true)
      × (bind_triple_fast p (some s) t ≡ some s')
unfolding bind_triples
bind_triples_sound p s s' [] h = absurd h
bind_triples_sound p s s' (t ∷ ts) h =
    go (λ m. let (t', n, a, e) = bind_triples_sound p s s' ts m in (t', inr n, a, e))
      (bind_triple_fast p (some s) t) refl (accepts p.filter t) refl h
  where
    go :
        (later : Mem s' (bind_triples p s ts)
          → (t' : Triple) × Mem t' (t ∷ ts)
            × (accepts p.filter t' ≡ true)
            × (bind_triple_fast p (some s) t' ≡ some s'))
        (o : Option Solution)
        → bind_triple_fast p (some s) t ≡ o
        → (b : Bool) → accepts p.filter t ≡ b
        → Mem s' (elim o [
          | none ↦ bind_triples p s ts
          | some u ↦ if b then u ∷ bind_triples p s ts else bind_triples p s ts
        ])
        → (t' : Triple) × Mem t' (t ∷ ts)
          × (accepts p.filter t' ≡ true)
          × (bind_triple_fast p (some s) t' ≡ some s')
    go later none e b a m = later m
    go later (some u) e false a m = later m
    go later (some u) e true a (inl q) = (t, inl refl, a, e ∙ ap some (sym q))
    go later (some u) e true a (inr m) = later m

pub bind_triples_complete :
    (p : Pattern) (s s' : Solution) (t : Triple) (ts : List Triple)
    → Mem t ts
    → accepts p.filter t ≡ true
    → bind_triple_fast p (some s) t ≡ some s'
    → Mem s' (bind_triples p s ts)
unfolding bind_triples
bind_triples_complete p s s' t [] m a e = absurd m
bind_triples_complete p s s' t (t' ∷ ts) (inl q) a e =
    rw
      (
        subst (λ l. bind_triple_fast p (some s) l ≡ some s') q e,
        subst (λ l. accepts p.filter l ≡ true) q a,
        bind_triples,
      )
      (inl refl)
bind_triples_complete p s s' t (t' ∷ ts) (inr m) a e =
    go (bind_triple_fast p (some s) t') (accepts p.filter t')
      (bind_triples_complete p s s' t ts m a e)
  where
    go :
        (o : Option Solution) (b : Bool)
        → Mem s' (bind_triples p s ts)
        → Mem s' (elim o [
          | none ↦ bind_triples p s ts
          | some u ↦ if b then u ∷ bind_triples p s ts else bind_triples p s ts
        ])
    go none b n = n
    go (some u) false n = n
    go (some u) true n = inr n
