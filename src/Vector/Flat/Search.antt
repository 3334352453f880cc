-- ===== src/Vector/Flat/Search.antt =====
-- vector/flat.go: `Search` finds the k nearest vectors.
use levelgraph.Prelude.{
  ℕ, zero, suc, ◌≤◌, ◌<◌, ◌≡◌, refl, inl, inr, true, false, some, List, [], ◌∷◌, ◌++◌, arith, ltb,
  ◌==◌, length, All, map, Bool-cases, subst, All-append_left, append-nil,
}
use mathlib.Core.List.{Permᴰ as Perm}
use mathlib.Core.List.Permᴰ as Shuffle
use levelgraph.Prelude.Int.{ℤ, pos_part}
use levelgraph.Prelude.Bytes.{Bytes}
use levelgraph.Vector.Float.{Float, IsOrdered}
use levelgraph.Vector.Distance.{Vec}
use levelgraph.Vector.Interface.{ok, has_dimensions}
use levelgraph.Vector.Flat.{
  Entry, MatchHeap, FlatIndex, match_of, replace_top, visit_loop, drain, search,
}
use levelgraph.Container.{ContainerHeap}
use levelgraph.Vector.Flat.Matched.{matched}
use levelgraph.Vector.Flat.Heap.{
  All-perm, length-perm, IsBehind, IsBefore, IsNearestFirst, entry_of, HasNumber, Keeps, Keeps-push,
  Keeps-replace, Keeps-pass, IsBefore-nothing,
}

module _ {W : Type 0} (F : Float W) {ordered : IsOrdered F} (heap : MatchHeap F ordered)
    (k : ℕ) where
  -- The entries of the vectors visited, the last one first, in front of those seen before.
  seen_after : (Vec F → W) → List (Bytes × Vec F) → List (Entry W) → List (Entry W)
  seen_after dist [] seen = seen
  seen_after dist (item ∷ vectors) seen = seen_after dist vectors (entry_of F dist item ∷ seen)

  seen_after-perm :
      (dist : Vec F → W) (vectors : List (Bytes × Vec F)) (seen : List (Entry W))
      → Perm (seen_after dist vectors seen) (map (entry_of F dist) vectors ++ seen)
  unfolding seen_after
  seen_after-perm dist [] seen = Shuffle.refl seen
  seen_after-perm dist (item ∷ vectors) seen =
      Perm.trans (seen_after-perm dist vectors (entry_of F dist item ∷ seen))
        (Shuffle.middle (entry_of F dist item) (map (entry_of F dist) vectors) seen)

  held_numbers :
      (seen h : List (Entry W))
      → Keeps F heap k seen h
      → All (HasNumber F heap k) seen
      → All (HasNumber F heap k) h
  held_numbers seen h s n =
      All-append_left (HasNumber F heap k) h s.far
        (All-perm (HasNumber F heap k) (Shuffle.symm s.same) n)

  visit_loop-Keeps :
      (dist : Vec F → W) (vectors : List (Bytes × Vec F)) (seen h : List (Entry W))
      → 0 < k
      → All (HasNumber F heap k) (map (entry_of F dist) vectors)
      → All (HasNumber F heap k) seen
      → Keeps F heap k seen h
      → (h' : List (Entry W)) × (visit_loop F heap dist k vectors h ≡ some h')
        × Keeps F heap k (seen_after dist vectors seen) h'
        × All (HasNumber F heap k) (seen_after dist vectors seen)
  unfolding visit_loop seen_after
  visit_loop-Keeps dist [] seen h positive n ns s = (h, refl, s, ns)
  visit_loop-Keeps dist ((id, v) ∷ vectors) seen h positive (n, more) ns s =
      let e = entry_of F dist (id, v) in
      let nh = held_numbers seen h s ns in
      elim (Bool-cases (ltb (length h) k)) [
        | inl room ↦
            let (h', q, keeps, known) =
              visit_loop-Keeps dist vectors (e ∷ seen) (heap.push e h) positive more (n, ns)
                (Keeps-push F heap k e seen h n nh (ground arith) s) in
            (h', rw room q, keeps, known)
        | inr full ↦
            let (h1, q1, s1) = replaced h nh (ground arith) s in
            let (h', q, keeps, known) =
              visit_loop-Keeps dist vectors (e ∷ seen) h1 positive more (n, ns) s1 in
            (h', rw (full, q1) q, keeps, known)
      ]
    where
      replaced :
          (h' : List (Entry W))
          → All (HasNumber F heap k) h'
          → k ≤ length h'
          → Keeps F heap k seen h'
          → (h1 : List (Entry W)) × (replace_top F heap (entry_of F dist (id, v)) h' ≡ some h1)
            × Keeps F heap k (entry_of F dist (id, v) ∷ seen) h1
      replaced [] nh whole s' = absurd (omega arith)
      replaced (x ∷ t) nh whole s' =
          let e = entry_of F dist (id, v) in
          elim (Bool-cases (F.lt e.distance x.distance)) [
            | inl lt ↦
                let (r, q, heap_r, p) = heap.pop_law x t nh s'.ordered_heap in
                (
                  heap.push e r,
                  rw (lt, q) refl,
                  Keeps-replace F heap k e x seen t r n nh lt heap_r p whole s',
                )
            | inr ge ↦ (x ∷ t, rw ge refl, Keeps-pass F heap k e x seen t nh ge whole s')
          ]

  drain_lem :
      (n : ℕ) (h kept : List (Entry W))
      → n ≡ length h
      → heap.IsHeap h
      → All (HasNumber F heap k) h
      → IsNearestFirst F kept
      → IsBefore F h kept
      → (near : List (Entry W)) × (drain F heap n h (map (match_of F) kept)
          ≡ some (map (match_of F) near))
        × IsNearestFirst F near
        × Perm near (h ++ kept)
  unfolding drain
  drain_lem zero [] kept e heap_h numbers first before = (kept, refl, first, Shuffle.refl kept)
  drain_lem zero (x ∷ h) kept e heap_h numbers first before = absurd (omega arith)
  drain_lem (suc n) [] kept e heap_h numbers first before = absurd (omega arith)
  drain_lem (suc n) (x ∷ h) kept e heap_h (nx, nh) first (bx, bh) =
      let (r, q, heap_r, p) = heap.pop_law x h (nx, nh) heap_h in
      let top = heap.top_law x h (nx, nh) heap_h in
      let size = length-perm p in
      let (near, f, sorted, same) =
        drain_lem n r (x ∷ kept) (omega arith) heap_r
          (All-perm (HasNumber F heap k) (Shuffle.symm p) nh) (bx, first)
          (All-perm (λ a. All (IsBehind F a) (x ∷ kept)) (Shuffle.symm p) (both h top bh)) in
      (
        near,
        rw (drain, q) f,
        sorted,
        Perm.trans same
            (Perm.trans (Shuffle.middle x r kept) (Perm.cons refl (Shuffle.append_right kept p))),
      )
    where
      both :
          (h' : List (Entry W))
          → All (λ y. F.lt x.distance y.distance ≡ false) h'
          → IsBefore F h' kept
          → IsBefore F h' (x ∷ kept)
      both [] top before = tt
      both (a ∷ h') (t, top) (b, before) = ((t, b), both h' top before)

module _ {W : Type 0} (F : Float W) (ordered : IsOrdered F)
    (container : ContainerHeap (Entry W)) where
  -- The heap of `Search`: container/heap over `matchHeap`.
  abbrev pub heap_of_search : MatchHeap F ordered
  heap_of_search = matched F container

  -- `Search` with container/heap over `matchHeap`, for a positive k and a query of the index's
  -- dimensions, in whatever order the map is visited and where no distance is NaN, returns the
  -- nearest vectors: these and the others are all the vectors with their distances, the nearest
  -- come first, no other is nearer than one of them, and there are k of them unless they are all.
  pub search_nearest :
      (f : FlatIndex F) (order : List (Bytes × Vec F)) (query : Vec F) (k : ℤ)
      → 0 < pos_part k
      → has_dimensions f.dimensions query ≡ true
      → Perm order f.vectors
      → All (λ x. ordered.IsNumber x.distance) (map (entry_of F (f.distance query)) order)
      → (near far : List (Entry W)) × (search F heap_of_search order query k f
          ≡ some (ok (map (match_of F) near)))
        × Perm (near ++ far) (map (entry_of F (f.distance query)) f.vectors)
        × IsNearestFirst F near
        × IsBefore F near far
        × (length near ≤ pos_part k)
        × (length near < pos_part k → far ≡ [])
  unfolding search
  search_nearest f order query k positive dims perm numbers =
      let dist = f.distance query in
      let n = pos_part k in
      let no_zero : pos_part k == 0 ≡ false = ground arith in
      let (h, visited, s, known) =
        visit_loop-Keeps F heap_of_search n dist order [] [] positive numbers tt (record {
          far = [];
          same = Perm.nil;
          ordered_heap = heap_of_search.nil_law;
          small = omega arith;
          full = λ lt. refl;
          apart = tt;
        }) in
      let nh =
        held_numbers F heap_of_search n (seen_after F heap_of_search n dist order []) h s known in
      let (near, drained, first, same) =
        drain_lem F heap_of_search n (length h) h [] refl s.ordered_heap nh tt
          (IsBefore-nothing F heap_of_search n h [] refl) in
      let same' : Perm near h = subst (Perm near) (append-nil h) same in
      let entries : Perm (map (entry_of F dist) order) (map (entry_of F dist) f.vectors) =
        Shuffle.map (entry_of F dist) perm in
      let all : Perm (near ++ s.far) (map (entry_of F dist) f.vectors) =
        Perm.trans (Shuffle.append_right s.far same') (
          Perm.trans s.same (
            Perm.trans
              (subst (Perm (seen_after F heap_of_search n dist order []))
                (append-nil (map (entry_of F dist) order))
                (seen_after-perm F heap_of_search n dist order []))
              entries)) in
      let apart = All-perm (λ a. All (IsBehind F a) s.far) (Shuffle.symm same') s.apart in
      let size = length-perm same' in
      elim (Bool-cases (length f.vectors == 0)) [
        | inr some_vectors ↦ (
          near,
          s.far,
          rw (no_zero, dims, some_vectors, visited, drained) refl,
          all,
          first,
          apart,
          omega (arith, s.small),
          λ lt. s.full (omega arith),
        )
        | inl no_vectors ↦ (
          [],
          [],
          rw (no_zero, dims, no_vectors) refl,
          nothing f.vectors (ground arith),
          tt,
          tt,
          omega arith,
          λ lt. refl,
        )
      ]
    where
      nothing :
          (vectors : List (Bytes × Vec F))
          → length vectors ≡ 0
          → Perm [] (map (entry_of F (f.distance query)) vectors)
      nothing [] e = Perm.nil
      nothing (x ∷ vectors) e = absurd (omega arith)
