-- ===== src/Container.antt =====
-- container/heap and sort.Slice of Go's library, by what they document: each asks the program's own
-- comparison, which is to be an order of the elements concerned.
use levelgraph.Prelude.{
  ℕ, zero, suc, ◌≡◌, ◌⊎◌, Bool, true, false, Option, none, some, List, [], ◌∷◌, ◌++◌, All,
}
use mathlib.Core.List.{Permᴰ as Perm}

module _ {E : Type 0} where
  abbrev pub at : List E → ℕ → Option E
  at [] n = none
  at (x ∷ xs) zero = some x
  at (x ∷ xs) (suc n) = at xs n

  abbrev pub set_at : List E → ℕ → E → List E
  set_at [] n e = []
  set_at (x ∷ xs) zero e = e ∷ xs
  set_at (x ∷ xs) (suc n) e = x ∷ set_at xs n e

  -- A strict weak order of the elements with a property.
  pub record IsWeakOrder (before : E → E → Bool) (P : E → Type 0) : Type 0 where
    pub asym : (x y : E) → P x → P y → before x y ≡ true → before y x ≡ false
    pub between :
        (x y z : E)
        → P x
        → P y
        → P z
        → before x y ≡ true
        → (before x z ≡ true) ⊎ (before z y ≡ true)

  -- No element comes before one that stands in front of it.
  abbrev pub IsSorted : (E → E → Bool) → List E → Type 0
  IsSorted before [] = Unit
  IsSorted before (x ∷ xs) = All (λ y. before y x ≡ false) xs × IsSorted before xs

-- `heap.Interface`: `Less`, `Swap`, `Push` and `Pop` of a type whose `Len` is the length of a list.
pub record HeapInterface (E : Type 0) : Type 0 where
  pub less : List E → ℕ → ℕ → Bool
  pub swap : List E → ℕ → ℕ → List E
  pub push : E → List E → List E
  pub pop : List E → Option (E × List E)

-- What the methods are to do: compare, exchange, add as the last, and take away the last.
pub record Implements {E : Type 0} (m : HeapInterface E) (before : E → E → Bool) : Type 0 where
  pub less_law :
      (h : List E) (i j : ℕ) (x y : E)
      → at h i ≡ some x
      → at h j ≡ some y
      → m.less h i j ≡ before x y
  pub swap_law :
      (h : List E) (i j : ℕ) (x y : E)
      → at h i ≡ some x
      → at h j ≡ some y
      → m.swap h i j ≡ set_at (set_at h i y) j x
  pub push_law : (e : E) (h : List E) → m.push e h ≡ h ++ e ∷ []
  pub pop_law : (e : E) (h : List E) → m.pop (h ++ e ∷ []) ≡ some (e, h)

-- `heap.Push` and `heap.Pop`: no element comes before the one at index 0, which `Pop` takes away.
pub record ContainerHeap (E : Type 0) : Type 1 where
  pub push : HeapInterface E → E → List E → List E
  pub pop : HeapInterface E → List E → Option (E × List E)
  pub IsHeap : HeapInterface E → List E → Type 0
  pub nil_law : (m : HeapInterface E) → IsHeap m []
  pub push_law :
      (m : HeapInterface E) (before : E → E → Bool) (P : E → Type 0)
      → Implements m before
      → IsWeakOrder before P
      → (e : E) (h : List E) → All P (e ∷ h)
      → IsHeap m h
      → IsHeap m (push m e h) × Perm (push m e h) (e ∷ h)
  pub pop_law :
      (m : HeapInterface E) (before : E → E → Bool) (P : E → Type 0)
      → Implements m before
      → IsWeakOrder before P
      → (x : E) (h : List E) → All P (x ∷ h)
      → IsHeap m (x ∷ h)
      → (r : List E) × (pop m (x ∷ h) ≡ some (x, r)) × IsHeap m r × Perm r h
  pub top_law :
      (m : HeapInterface E) (before : E → E → Bool) (P : E → Type 0)
      → Implements m before
      → IsWeakOrder before P
      → (x : E) (h : List E) → All P (x ∷ h)
      → IsHeap m (x ∷ h)
      → All (λ y. before y x ≡ false) h

-- `sort.Slice`, with the comparison of two elements for that of two indices.
pub record SliceSort (E : Type 0) : Type 1 where
  pub sort : (E → E → Bool) → List E → List E
  pub same_law : (before : E → E → Bool) (xs : List E) → Perm (sort before xs) xs
  pub order_law :
      (before : E → E → Bool) (P : E → Type 0)
      → IsWeakOrder before P
      → (xs : List E) → All P xs
      → IsSorted before (sort before xs)
