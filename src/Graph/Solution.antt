-- ===== src/Graph/Solution.antt =====
-- pkg/graph/variable.go: variables, and solutions, the maps from their names to values.
use levelgraph.Prelude.{
  ◌≡◌, refl, ap, Bool, true, false, ◌&&◌, Option, none, some, [], ◌∷◌, arith, ◌==◌, if◌then◌else◌,
  length, Option-cases, inl, inr,
}
use levelgraph.Prelude.Bytes.{Bytes, Slice, slice_bytes, bytes_eq, bytes_eq_iff, bytes_eq_refl}
use levelgraph.Prelude.Assoc.{Assoc, lookup, insert, lookup-insert}

pub record Variable : Type 0 where
  pub name : Bytes

abbrev pub v : Bytes → Variable
v name = record { name = name }

-- A map that is not nil. Where the map may be nil the model has an `Option Solution`.
abbrev pub Solution : Type 0
Solution = Assoc Slice

-- `Bind`, which returns nil on a conflict.
unfoldable pub bind : Variable → Solution → Slice → Option Solution
bind x s value = elim (lookup x.name s) [
  | some existing ↦ if bytes_eq (slice_bytes existing) (slice_bytes value) then some s else none
  | none ↦ some (insert x.name value s)
]

-- `BindInPlace`: the map after the call, and the result.
unfoldable pub bind_in_place : Variable → Solution → Slice → Solution × Bool
bind_in_place x s value = elim (lookup x.name s) [
  | some existing ↦ (s, bytes_eq (slice_bytes existing) (slice_bytes value))
  | none ↦ (insert x.name value s, true)
]

unfoldable pub is_bound : Variable → Solution → Bool
is_bound x s = elim (lookup x.name s) [ some _ ↦ true | none ↦ false ]

unfoldable pub is_bindable : Variable → Solution → Slice → Bool
is_bindable x s value = elim (lookup x.name s) [
  | none ↦ true
  | some existing ↦ bytes_eq (slice_bytes existing) (slice_bytes value)
]

unfoldable pub get_value : Variable → Solution → Slice
get_value x s = elim (lookup x.name s) [ some value ↦ value | none ↦ none ]

-- `append([]byte(nil), v...)`: a copy of an empty slice is nil.
abbrev pub append_clone : Slice → Slice
append_clone none = none
append_clone (some []) = none
append_clone (some (b ∷ bs)) = some (b ∷ bs)

-- `Clone`: a new map, whose values are copies.
unfoldable pub clone : Solution → Solution
clone [] = []
clone ((k, value) ∷ s) = (k, append_clone value) ∷ clone s

-- `ShallowClone`: a new map with the same values.
unfoldable pub shallow_clone : Solution → Solution
shallow_clone [] = []
shallow_clone ((k, value) ∷ s) = (k, value) ∷ shallow_clone s

-- A key that `other` lacks reads as nil there.
unfoldable pub equal_loop : Solution → Solution → Bool
equal_loop [] other = true
equal_loop ((k, value) ∷ s) other =
    bytes_eq (slice_bytes value) (slice_bytes (get_value (v k) other)) && equal_loop s other

unfoldable pub equal : Solution → Solution → Bool
equal s other = if length s == length other then equal_loop s other else false

pub shallow_clone_lem : (s : Solution) → shallow_clone s ≡ s
unfolding shallow_clone
shallow_clone_lem [] = refl
shallow_clone_lem (e ∷ s) = ap (λ l. e ∷ l) (shallow_clone_lem s)

-- What is bound to a name, byte for byte: nil and empty are one value.
abbrev pub bytes_of : Option Slice → Option Bytes
bytes_of none = none
bytes_of (some value) = some (slice_bytes value)

pub lookup-clone :
    (k : Bytes) (s : Solution) → bytes_of (lookup k (clone s)) ≡ bytes_of (lookup k s)
unfolding lookup clone
lookup-clone k [] = refl
lookup-clone k ((j, none) ∷ s) = ground (arith, lookup-clone k s)
lookup-clone k ((j, some []) ∷ s) = ground (arith, lookup-clone k s)
lookup-clone k ((j, some (b ∷ bs)) ∷ s) = ground (arith, lookup-clone k s)

-- `s` extends to `t`: what `s` binds, `t` binds to the same bytes.
abbrev pub Extends : Solution → Solution → Type 0
Extends s t = (k b : Bytes) → bytes_of (lookup k s) ≡ some b → bytes_of (lookup k t) ≡ some b

pub Extends-refl : (s : Solution) → Extends s s
Extends-refl s k b h = h

pub Extends-trans : (s t u : Solution) → Extends s t → Extends t u → Extends s u
Extends-trans s t u p q k b h = q k b (p k b h)

-- `Bind` is `BindInPlace`, with nil for a failure.
pub bind-bind_in_place :
    (x : Variable) (s : Solution) (value : Slice)
    → bind x s value
      ≡ (if (bind_in_place x s value).1 then some (bind_in_place x s value).0 else none)
unfolding bind bind_in_place
bind-bind_in_place x s value = ground arith

module _ (x : Variable) (s t : Solution) (value : Slice) (bound : bind x s value ≡ some t) where
  -- What was bound stays bound.
  pub bind-Extends : Extends s t
  unfolding bind
  bind-Extends k b h = ground (arith, lookup-insert x.name k value s, bytes_eq_iff x.name k)

  -- The variable is bound to the bytes of the value.
  pub lookup-bind : bytes_of (lookup x.name t) ≡ some (slice_bytes value)
  unfolding bind get_value
  lookup-bind = ground (
    arith,
    lookup-insert x.name x.name value s,
    bytes_eq_refl x.name,
    bytes_eq_iff (slice_bytes (get_value x s)) (slice_bytes value),
  )

  -- Nothing more is bound than any solution has that extends the old one and has this binding.
  pub bind_least :
      (u : Solution)
      → Extends s u
      → bytes_of (lookup x.name u) ≡ some (slice_bytes value)
      → Extends t u
  unfolding bind
  bind_least u e h k b p =
      ground (arith, lookup-insert x.name k value s, bytes_eq_iff x.name k, e k b)

-- A binding that some extension has can be made.
pub bind_total :
    (x : Variable) (s u : Solution) (value : Slice)
    → Extends s u
    → bytes_of (lookup x.name u) ≡ some (slice_bytes value)
    → (t : Solution) × (bind x s value ≡ some t)
unfolding bind
bind_total x s u value ext h = elim (Option-cases (lookup x.name s)) [
  | inl e ↦ (insert x.name value s, ground arith)
  | inr (w, e) ↦ (
    s,
    ground (arith, ext x.name (slice_bytes w), bytes_eq_iff (slice_bytes w) (slice_bytes value)),
  )
]
