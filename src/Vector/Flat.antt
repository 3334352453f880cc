-- ===== src/Vector/Flat.antt =====
-- vector/flat.go: the index that compares the query with every vector, and its heap. Go visits a
-- map in any order.
pub mod Heap
pub mod Matched
pub mod Search
pub mod Laws
use levelgraph.Prelude.{
  ℕ, zero, suc, ◌≡◌, Bool, true, false, not, ◌&&◌, Option, none, some, List, [], ◌∷◌, ◌++◌,
  if◌then◌else◌, ltb, leb, ◌==◌, length, All, map,
}
use levelgraph.Prelude.Int.{ℤ, pos, negsuc, pos_part}
use levelgraph.Prelude.Bytes.{Bytes}
use levelgraph.Prelude.Assoc.{Assoc, lookup, insert, erase}
use mathlib.Core.List.{Permᴰ as Perm}
use levelgraph.Vector.Interface.{
  VectorError, Outcome, ok, err, dimension_mismatch, not_found, empty_vector, invalid_k, Match,
  has_dimensions,
}
use levelgraph.Container.{HeapInterface, at, set_at}
use levelgraph.Vector.Float.{Float, IsOrdered}
use levelgraph.Vector.Distance.{Vec, normalize_score}

-- `matchEntry`
pub record Entry (W : Type 0) : Type 0 where
  pub id : Bytes
  pub distance : W

module _ {W : Type 0} (F : Float W) where
  -- `matchHeap`: its methods, for indices of elements.
  abbrev farther : Option (Entry W) → Option (Entry W) → Bool
  farther (some x) (some y) = F.lt y.distance x.distance
  farther _ _ = false

  unfoldable pub less : List (Entry W) → ℕ → ℕ → Bool
  less h i j = farther (at h i) (at h j)

  abbrev exchanged : List (Entry W) → ℕ → ℕ → Option (Entry W) → Option (Entry W) → List (Entry W)
  exchanged h i j (some x) (some y) = set_at (set_at h i y) j x
  exchanged h i j _ _ = h

  unfoldable pub swap : List (Entry W) → ℕ → ℕ → List (Entry W)
  swap h i j = exchanged h i j (at h i) (at h j)

  unfoldable pub push : Entry W → List (Entry W) → List (Entry W)
  push e h = h ++ e ∷ []

  abbrev with_first :
      Entry W → Option (Entry W × List (Entry W)) → Option (Entry W × List (Entry W))
  with_first x none = none
  with_first x (some (y, h)) = some (y, x ∷ h)

  -- The last element, and the others.
  unfoldable pub pop : List (Entry W) → Option (Entry W × List (Entry W))
  pop [] = none
  pop (x ∷ []) = some (x, [])
  pop (x ∷ y ∷ h) = with_first x (pop (y ∷ h))

  abbrev pub match_heap : HeapInterface (Entry W)
  match_heap = record { less = less; swap = swap; push = push; pop = pop }

  -- What `Search` relies on of container/heap over a `matchHeap`; Vector/Flat/Matched fills it.
  pub record MatchHeap (ordered : IsOrdered F) : Type 1 where
    pub push : Entry W → List (Entry W) → List (Entry W)
    pub pop : List (Entry W) → Option (Entry W × List (Entry W))
    pub IsHeap : List (Entry W) → Type 0
    pub nil_law : IsHeap []
    pub push_law :
        (e : Entry W) (h : List (Entry W))
        → All (λ x. ordered.IsNumber x.distance) (e ∷ h)
        → IsHeap h
        → IsHeap (push e h) × Perm (push e h) (e ∷ h)
    pub pop_law :
        (x : Entry W) (h : List (Entry W))
        → All (λ y. ordered.IsNumber y.distance) (x ∷ h)
        → IsHeap (x ∷ h)
        → (r : List (Entry W)) × (pop (x ∷ h) ≡ some (x, r)) × IsHeap r × Perm r h
    pub top_law :
        (x : Entry W) (h : List (Entry W))
        → All (λ y. ordered.IsNumber y.distance) (x ∷ h)
        → IsHeap (x ∷ h)
        → All (λ y. F.lt x.distance y.distance ≡ false) h

  pub record FlatIndex : Type 0 where
    pub dimensions : ℤ
    pub distance : Vec F → Vec F → W
    pub vectors : Assoc (Vec F)

  abbrev pub new_flat_index : ℤ → (Vec F → Vec F → W) → FlatIndex
  new_flat_index dimensions distance = record {
    dimensions = dimensions;
    distance = distance;
    vectors = [];
  }

  unfoldable pub add : Bytes → Vec F → FlatIndex → FlatIndex × Outcome (Unit {0})
  add id v f =
      if length v == 0
      then (f, err empty_vector)
      else if has_dimensions f.dimensions v
      then (record f { vectors = insert id v f.vectors }, ok tt)
      else (f, err dimension_mismatch)

  unfoldable pub delete : Bytes → FlatIndex → FlatIndex × Outcome (Unit {0})
  delete id f = elim (lookup id f.vectors) [
    | none ↦ (f, err not_found)
    | some v ↦ (record f { vectors = erase id f.vectors }, ok tt)
  ]

  unfoldable pub get : Bytes → FlatIndex → Outcome (Vec F)
  get id f = elim (lookup id f.vectors) [ none ↦ err not_found | some v ↦ ok v ]

  unfoldable pub len : FlatIndex → ℕ
  len f = length f.vectors

  abbrev pub match_of : Entry W → Match W
  match_of e = record { id = e.id; score = normalize_score F e.distance; distance = e.distance }

  module _ {ordered : IsOrdered F} (heap : MatchHeap ordered) where
    -- What one round does to a full heap.
    abbrev pub replace_top : Entry W → List (Entry W) → Option (List (Entry W))
    replace_top e [] = none
    replace_top e (x ∷ h) =
        if F.lt e.distance x.distance
        then elim (heap.pop (x ∷ h)) [ none ↦ none | some (y, r) ↦ some (heap.push e r) ]
        else some (x ∷ h)

    -- The loop over the vectors, in the order in which the map is visited; `none` is a panic of the
    -- heap.
    unfoldable pub visit_loop :
        (Vec F → W) → ℕ → List (Bytes × Vec F) → List (Entry W) → Option (List (Entry W))
    visit_loop dist k [] h = some h
    visit_loop dist k ((id, v) ∷ vectors) h =
        let e : Entry W = record { id = id; distance = dist v } in
        let pushed = visit_loop dist k vectors (heap.push e h) in
        if ltb (length h) k
        then pushed
        else elim (replace_top e h) [ none ↦ none | some h' ↦ visit_loop dist k vectors h' ]

    -- The results are filled from the last to the first.
    unfoldable pub drain : ℕ → List (Entry W) → List (Match W) → Option (List (Match W))
    drain zero h results = some results
    drain (suc n) h results = elim (heap.pop h) [
      | none ↦ none
      | some (x, r) ↦ drain n r (match_of x ∷ results)
    ]

    -- `order` is the order of the visit. `none` is a panic.
    unfoldable pub search :
        List (Bytes × Vec F) → Vec F → ℤ → FlatIndex → Option (Outcome (List (Match W)))
    search order query k f =
        if pos_part k == 0
        then some (err invalid_k)
        else if not (has_dimensions f.dimensions query)
        then some (err dimension_mismatch)
        else if length f.vectors == 0
        then some (ok [])
        else elim (visit_loop (f.distance query) (pos_part k) order []) [
          | none ↦ none
          | some h ↦ elim (drain (length h) h []) [ none ↦ none | some rs ↦ some (ok rs) ]
        ]
