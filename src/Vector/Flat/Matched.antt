-- ===== src/Vector/Flat/Matched.antt =====
-- vector/flat.go: `matchHeap` is a heap whose first element has the greatest distance.
use levelgraph.Prelude.{◌≡◌, refl, Bool, some, List, [], ◌∷◌, ◌++◌, inl, inr}
use levelgraph.Container.{Implements, IsWeakOrder, ContainerHeap}
use levelgraph.Vector.Float.{Float, IsOrdered}
use levelgraph.Vector.Flat.{Entry, MatchHeap, match_heap, less, swap, push, pop}

module _ {W : Type 0} (F : Float W) where
  -- The first of two entries is the farther one.
  abbrev pub is_farther : Entry W → Entry W → Bool
  is_farther x y = F.lt y.distance x.distance

  pop-append : (e : Entry W) (h : List (Entry W)) → pop F (h ++ e ∷ []) ≡ some (e, h)
  unfolding pop
  pop-append e [] = refl
  pop-append e (x ∷ []) = refl
  pop-append e (x ∷ y ∷ h) = rw (pop-append e (y ∷ h)) refl

  pub match_heap-Implements : Implements (match_heap F) is_farther
  unfolding less swap push
  match_heap-Implements = record {
    less_law = λ h i j x y a b. rw (a, b) refl;
    swap_law = λ h i j x y a b. rw (a, b) refl;
    push_law = λ e h. refl;
    pop_law = pop-append;
  }

  module _ (ordered : IsOrdered F) where
    pub is_farther-IsWeakOrder : IsWeakOrder is_farther (λ x. ordered.IsNumber x.distance)
    is_farther-IsWeakOrder = record {
      asym = λ x y n m h. ordered.asym y.distance x.distance h;
      between = λ x y z n m l h. elim (ordered.between y.distance x.distance z.distance l h) [
        | inl e ↦ inr e
        | inr e ↦ inl e
      ];
    }

  module _ {ordered : IsOrdered F} (container : ContainerHeap (Entry W)) where
    -- container/heap over `matchHeap`.
    abbrev pub matched : MatchHeap F ordered
    matched =
        let m = match_heap F in
        let P = λ (x : Entry W). ordered.IsNumber x.distance in
        let i = match_heap-Implements in
        let o = is_farther-IsWeakOrder ordered in
        record {
          push = container.push m;
          pop = container.pop m;
          IsHeap = container.IsHeap m;
          nil_law = container.nil_law m;
          push_law = container.push_law m is_farther P i o;
          pop_law = container.pop_law m is_farther P i o;
          top_law = container.top_law m is_farther P i o;
        }
