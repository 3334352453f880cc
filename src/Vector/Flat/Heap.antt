-- ===== src/Vector/Flat/Heap.antt =====
-- vector/flat.go: what the heap of `Search` keeps of the entries that the loop has seen.
use levelgraph.Prelude.{
  ℕ, suc, ◌≤◌, ◌<◌, ◌≡◌, refl, sym, ap, ◌∙◌, inl, inr, true, false, List, [], ◌∷◌, ◌++◌, arith,
  length, All, Bool-cases, subst, All-map,
}
use mathlib.Core.Bool.{false≢true}
use mathlib.Core.List.{Permᴰ as Perm}
use mathlib.Core.List.Permᴰ as Shuffle
use levelgraph.Prelude.Bytes.{Bytes}
use levelgraph.Vector.Float.{Float, IsOrdered}
use levelgraph.Vector.Distance.{Vec}
use levelgraph.Vector.Flat.{Entry, MatchHeap}

module _ {A : Type 0} where
  pub All-perm : (P : A → Type 0) {xs ys : List A} → Perm xs ys → All P xs → All P ys
  All-perm P Perm.nil h = tt
  All-perm P (Perm.cons e p) (h, hs) = (subst P e h, All-perm P p hs)
  All-perm P (Perm.swap e f) (h, (k, hs)) = (subst P f k, (subst P e h, hs))
  All-perm P (Perm.trans p q) h = All-perm P q (All-perm P p h)

  pub length-perm : {xs ys : List A} → Perm xs ys → length xs ≡ length ys
  length-perm Perm.nil = refl
  length-perm (Perm.cons e p) = ap suc (length-perm p)
  length-perm (Perm.swap e f) = refl
  length-perm (Perm.trans p q) = length-perm p ∙ length-perm q

module _ {W : Type 0} (F : Float W) where
  -- `y` is not nearer than `x`.
  abbrev pub IsBehind : Entry W → Entry W → Type 0
  IsBehind x y = F.lt y.distance x.distance ≡ false

  abbrev pub IsBefore : List (Entry W) → List (Entry W) → Type 0
  IsBefore near far = All (λ x. All (IsBehind x) far) near

  -- The distances ascend.
  abbrev pub IsNearestFirst : List (Entry W) → Type 0
  IsNearestFirst [] = Unit
  IsNearestFirst (x ∷ xs) = All (IsBehind x) xs × IsNearestFirst xs

  -- The vectors with their distances.
  abbrev pub entry_of : (Vec F → W) → Bytes × Vec F → Entry W
  entry_of dist (id, v) = record { id = id; distance = dist v }

module _ {W : Type 0} (F : Float W) {ordered : IsOrdered F} (heap : MatchHeap F ordered)
    (k : ℕ) where
  abbrev pub HasNumber : Entry W → Type 0
  HasNumber x = ordered.IsNumber x.distance

  -- What the loop keeps: of the entries that it has seen, the heap has the nearest.
  pub record Keeps (seen h : List (Entry W)) : Type 0 where
    pub far : List (Entry W)
    pub same : Perm (h ++ far) seen
    pub ordered_heap : heap.IsHeap h
    pub small : length h ≤ k
    pub full : length h < k → far ≡ []
    pub apart : IsBefore F h far

  nearer :
      (e x y : Entry W)
      → HasNumber x
      → F.lt e.distance x.distance ≡ true
      → IsBehind F x y
      → IsBehind F e y
  nearer e x y number lt behind = elim (Bool-cases (F.lt y.distance e.distance)) [
    | inr h ↦ h
    | inl h ↦ elim (ordered.between y.distance e.distance x.distance number h) [
      | inl q ↦ absurd (false≢true (sym behind ∙ q))
      | inr q ↦ absurd (false≢true (sym (ordered.asym e.distance x.distance lt) ∙ q))
    ]
  ]

  not_nearer : (e x a : Entry W) → HasNumber x → IsBehind F x e → IsBehind F a x → IsBehind F a e
  not_nearer e x a number behind top = elim (Bool-cases (F.lt e.distance a.distance)) [
    | inr h ↦ h
    | inl h ↦ elim (ordered.between e.distance a.distance x.distance number h) [
      | inl q ↦ absurd (false≢true (sym behind ∙ q))
      | inr q ↦ absurd (false≢true (sym top ∙ q))
    ]
  ]

  pub IsBefore-nothing : (h far : List (Entry W)) → far ≡ [] → IsBefore F h far
  IsBefore-nothing h far e = subst (IsBefore F h) (sym e) (go h)
    where
      go : (h' : List (Entry W)) → IsBefore F h' []
      go [] = tt
      go (x ∷ h') = (tt, go h')

  -- A round that pushes.
  pub Keeps-push :
      (e : Entry W) (seen h : List (Entry W))
      → HasNumber e
      → All HasNumber h
      → length h < k
      → Keeps seen h
      → Keeps (e ∷ seen) (heap.push e h)
  Keeps-push e seen h n ns room s =
      let (ordered_heap, p) = heap.push_law e h (n, ns) s.ordered_heap in
      let size = length-perm p in
      record {
        far = s.far;
        same = Perm.trans (Shuffle.append_right s.far p) (Perm.cons refl s.same);
        ordered_heap = ordered_heap;
        small = omega arith;
        full = λ lt. s.full room;
        apart = IsBefore-nothing (heap.push e h) s.far (s.full room);
      }

  -- A round that replaces the farthest entry.
  pub Keeps-replace :
      (e x : Entry W) (seen h r : List (Entry W))
      → HasNumber e
      → All HasNumber (x ∷ h)
      → F.lt e.distance x.distance ≡ true
      → heap.IsHeap r
      → Perm r h
      → k ≤ length (x ∷ h)
      → Keeps seen (x ∷ h)
      → Keeps (e ∷ seen) (heap.push e r)
  Keeps-replace e x seen h r n (nx, nh) lt heap_r p whole s =
      let (ordered_heap, q) =
        heap.push_law e r (n, All-perm HasNumber (Shuffle.symm p) nh) heap_r in
      let size = length-perm q in
      let size' = length-perm p in
      let (apart_x, apart_h) = s.apart in
      let top = heap.top_law x h (nx, nh) s.ordered_heap in
      record {
        far = x ∷ s.far;
        same = Perm.trans (Shuffle.append_right (x ∷ s.far) q) (
            Perm.cons refl (
              Perm.trans (Shuffle.middle x r s.far)
                (Perm.trans (Perm.cons refl (Shuffle.append_right s.far p)) s.same)));
        ordered_heap = ordered_heap;
        small = omega (arith, s.small);
        full = λ room. absurd (omega arith);
        apart =
            All-perm (λ a. All (IsBehind F a) (x ∷ s.far)) (Shuffle.symm q)
              (
                (
                  ordered.asym e.distance x.distance lt,
                  All-map _ _ (λ y. nearer e x y nx lt) s.far apart_x,
                ),
                All-perm (λ a. All (IsBehind F a) (x ∷ s.far)) (Shuffle.symm p)
                    (both h top apart_h),
              );
      }
    where
      both :
          (h' : List (Entry W))
          → All (λ y. F.lt x.distance y.distance ≡ false) h'
          → IsBefore F h' s.far
          → IsBefore F h' (x ∷ s.far)
      both [] top apart = tt
      both (a ∷ h') (t, top) (b, apart) = ((t, b), both h' top apart)

  -- A round that passes an entry over.
  pub Keeps-pass :
      (e x : Entry W) (seen h : List (Entry W))
      → All HasNumber (x ∷ h)
      → F.lt e.distance x.distance ≡ false
      → k ≤ length (x ∷ h)
      → Keeps seen (x ∷ h)
      → Keeps (e ∷ seen) (x ∷ h)
  Keeps-pass e x seen h (nx, nh) ge whole s =
      let top = heap.top_law x h (nx, nh) s.ordered_heap in
      record {
        far = e ∷ s.far;
        same = Perm.trans (Shuffle.middle e (x ∷ h) s.far) (Perm.cons refl s.same);
        ordered_heap = s.ordered_heap;
        small = s.small;
        full = λ room. absurd (omega arith);
        apart = ((ge, s.apart.0), both h top s.apart.1);
      }
    where
      both :
          (h' : List (Entry W))
          → All (λ y. F.lt x.distance y.distance ≡ false) h'
          → IsBefore F h' s.far
          → IsBefore F h' (e ∷ s.far)
      both [] top apart = tt
      both (a ∷ h') (t, top) (b, apart) = ((not_nearer e x a nx ge t, b), both h' top apart)
