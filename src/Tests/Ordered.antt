-- ===== src/Tests/Ordered.antt =====
-- A heap and a sort for the tests: a list in order, whatever the comparison.
use levelgraph.Prelude.{
  ◌≡◌, refl, inl, inr, Bool, false, Option, none, some, List, [], ◌∷◌, if◌then◌else◌, All,
  Bool-cases, subst, fun_ext,
}
use mathlib.Core.Bool.{false≢true}
use mathlib.Core.Path.{sym, ◌∙◌}
use mathlib.Core.List.{Permᴰ as Perm}
use mathlib.Core.List.Permᴰ as Shuffle
use levelgraph.Container.{
  HeapInterface, Implements, IsWeakOrder, IsSorted, ContainerHeap, SliceSort,
}

module _ {E : Type 0} where
  abbrev pub place : (E → E → Bool) → E → List E → List E
  place lt e [] = e ∷ []
  place lt e (x ∷ h) = let rest = place lt e h in if lt x e then x ∷ rest else e ∷ x ∷ h

  pub place-perm : (lt : E → E → Bool) (e : E) (h : List E) → Perm (place lt e h) (e ∷ h)
  place-perm lt e [] = Shuffle.refl (e ∷ [])
  place-perm lt e (x ∷ h) = elim (Bool-cases (lt x e)) [
    | inr q ↦ rw q (Shuffle.refl (e ∷ x ∷ h))
    | inl q ↦ rw q (Perm.trans (Perm.cons refl (place-perm lt e h)) (Perm.swap refl refl))
  ]

  abbrev pub in_order : (E → E → Bool) → List E → List E
  in_order lt [] = []
  in_order lt (x ∷ xs) = place lt x (in_order lt xs)

  pub in_order-perm : (lt : E → E → Bool) (xs : List E) → Perm (in_order lt xs) xs
  in_order-perm lt [] = Perm.nil
  in_order-perm lt (x ∷ xs) =
      Perm.trans (place-perm lt x (in_order lt xs)) (Perm.cons refl (in_order-perm lt xs))

  All-shuffle : (P : E → Type 0) {xs ys : List E} → Perm xs ys → All P xs → All P ys
  All-shuffle P Perm.nil h = tt
  All-shuffle P (Perm.cons e p) (h, hs) = (subst P e h, All-shuffle P p hs)
  All-shuffle P (Perm.swap e f) (h, (k, hs)) = (subst P f k, (subst P e h, hs))
  All-shuffle P (Perm.trans p q) h = All-shuffle P q (All-shuffle P p h)

  module _ (lt : E → E → Bool) (P : E → Type 0) (order : IsWeakOrder lt P) where
    place_behind :
        (a e : E) (h : List E)
        → lt e a ≡ false
        → All (λ y. lt y a ≡ false) h
        → All (λ y. lt y a ≡ false) (place lt e h)
    place_behind a e [] q hs = (q, tt)
    place_behind a e (x ∷ h) q (r, hs) = elim (Bool-cases (lt x e)) [
      | inl t ↦ rw t (r, place_behind a e h q hs)
      | inr t ↦ rw t (q, (r, hs))
    ]

    all_behind :
        (a x : E) (h : List E)
        → P a
        → P x
        → All P h
        → lt x a ≡ false
        → All (λ y. lt y x ≡ false) h
        → All (λ y. lt y a ≡ false) h
    all_behind a x [] pa px ph q hs = tt
    all_behind a x (y ∷ h) pa px (py, ph) q (r, hs) = (
      elim (Bool-cases (lt y a)) [
        | inr t ↦ t
        | inl t ↦ elim (order.between y a x py pa px t) [
          | inl u ↦ absurd (false≢true (sym r ∙ u))
          | inr u ↦ absurd (false≢true (sym q ∙ u))
        ]
      ],
      all_behind a x h pa px ph q hs,
    )

    pub place-IsSorted :
        (e : E) (h : List E) → P e → All P h → IsSorted lt h → IsSorted lt (place lt e h)
    place-IsSorted e [] pe ph s = (tt, tt)
    place-IsSorted e (x ∷ h) pe (px, ph) (first, s) = elim (Bool-cases (lt x e)) [
      | inl t ↦ rw t (place_behind x e h (order.asym x e px pe t) first, place-IsSorted e h pe ph s)
      | inr t ↦ rw t ((t, all_behind e x h pe px ph t first), (first, s))
    ]

    pub in_order-IsSorted : (xs : List E) → All P xs → IsSorted lt (in_order lt xs)
    in_order-IsSorted [] h = tt
    in_order-IsSorted (x ∷ xs) (p, h) =
        place-IsSorted x (in_order lt xs) p (All-shuffle P (Shuffle.symm (in_order-perm lt xs)) h)
          (in_order-IsSorted xs h)

  -- The comparison that an interface makes.
  abbrev pub asked : HeapInterface E → E → E → Bool
  asked m x y = m.less (x ∷ y ∷ []) 0 1

  pub asked-before :
      (m : HeapInterface E) (before : E → E → Bool) → Implements m before → asked m ≡ before
  asked-before m before i = fun_ext λ x. fun_ext λ y. i.less_law (x ∷ y ∷ []) 0 1 x y refl refl

  abbrev pub first_and_rest : List E → Option (E × List E)
  first_and_rest [] = none
  first_and_rest (x ∷ h) = some (x, h)

  abbrev pub sorted_heap : ContainerHeap E
  sorted_heap = record {
    push = λ m. place (asked m);
    pop = λ m. first_and_rest;
    IsHeap = λ m. IsSorted (asked m);
    nil_law = λ m. tt;
    push_law = λ m before P i o e h (pe, ph) s. (
      place-IsSorted (asked m) P (subst (λ b. IsWeakOrder b P) (sym (asked-before m before i)) o) e
          h pe ph s,
      place-perm (asked m) e h,
    );
    pop_law = λ m before P i o x h n s. (h, refl, s.1, Shuffle.refl h);
    top_law = λ m before P i o x h n s.
        subst (λ b. All (λ y. b y x ≡ false) h) (asked-before m before i) s.0;
  }

  abbrev pub insertion : SliceSort E
  insertion = record { sort = in_order; same_law = in_order-perm; order_law = in_order-IsSorted }
