-- ===== src/Navigator/Collect.antt =====
-- navigator.go: the loop of `Values`.
use levelgraph.Prelude.{
  All-map, ◌≡◌, ◌≢◌, refl, sym, ◌∙◌, ap, Bool, true, none, some, List, [], ◌∷◌, Mem, All, inl, inr,
  ◌⊎◌, arith, Option-cases, Bool-cases,
}
use levelgraph.Prelude.Bytes.{Bytes, Slice, slice_bytes, bytes_eq, bytes_eq_iff}
use levelgraph.Prelude.Assoc.{Assoc, lookup, insert, lookup-insert}
use levelgraph.Graph.Solution.{Solution, v}
use levelgraph.Navigator.Query.{collect}

-- No two of the slices have the same bytes.
abbrev pub IsDistinct : List Slice → Type 0
IsDistinct [] = Unit
IsDistinct (v ∷ vs) = All (λ w. slice_bytes w ≢ slice_bytes v) vs × IsDistinct vs

abbrev IsNew : Assoc Bool → Slice → Type 0
IsNew seen w = lookup (slice_bytes w) seen ≡ none

collect-nil : (x : Bytes) (seen : Assoc Bool) → collect x [] seen ≡ []
unfolding collect
collect-nil x seen = refl

-- One round of the loop: nothing new, or the first value.
collect-cases :
    (x : Bytes) (s : Solution) (ss : List Solution) (seen : Assoc Bool)
    → ((collect x (s ∷ ss) seen ≡ collect x ss seen)
        × ((val : Slice)
            → lookup x s ≡ some val
            → (b : Bool) × (lookup (slice_bytes val) seen ≡ some b)))
      ⊎ ((v : Slice) × (lookup x s ≡ some v)
          × IsNew seen v
          × (collect x (s ∷ ss) seen ≡ v ∷ collect x ss (insert (slice_bytes v) true seen)))
unfolding collect
collect-cases x s ss seen = elim (Option-cases (lookup x s)) [
  | inl e ↦ inl (rw (e, collect) refl, λ val h. cc)
  | inr (v, e) ↦ elim (Option-cases (lookup (slice_bytes v) seen)) [
    | inr (b, e1) ↦ inl (rw (e, e1, collect) refl, λ val h. (b, ground (arith, e, h, e1)))
    | inl e1 ↦ inr (v, e, e1, rw (e, e1, collect) refl)
  ]
]

pub collect_sound :
    (x : Bytes) (ss : List Solution) (seen : Assoc Bool) (w : Slice)
    → Mem w (collect x ss seen)
    → (s : Solution) × Mem s ss × (lookup x s ≡ some w)
collect_sound x [] seen w m = absurd (rw (collect-nil x seen) at m)
collect_sound x (s ∷ ss) seen w m = elim (collect-cases x s ss seen) [
  | inl (same, old) ↦ let (s', n, e) = collect_sound x ss seen w (rw same at m) in (s', inr n, e)
  | inr (v, e, new, more) ↦ elim (rw more at m) [
    | inl q ↦ (s, inl refl, e ∙ ap some (sym q))
    | inr m' ↦
        let (s', n, e') = collect_sound x ss (insert (slice_bytes v) true seen) w m' in
        (s', inr n, e')
  ]
]

pub collect_complete :
    (x : Bytes) (ss : List Solution) (seen : Assoc Bool) (s : Solution) (val : Slice)
    → Mem s ss
    → lookup x s ≡ some val
    → ((b : Bool) × (lookup (slice_bytes val) seen ≡ some b))
      ⊎ ((w : Slice) × Mem w (collect x ss seen) × (slice_bytes w ≡ slice_bytes val))
collect_complete x [] seen s val m h = absurd m
collect_complete x (s0 ∷ ss) seen s val m h = elim (collect-cases x s0 ss seen) [
  | inl (same, old) ↦ elim m [
    | inl q ↦ inl (old val (ap (lookup x) (sym q) ∙ h))
    | inr m' ↦ rw same (collect_complete x ss seen s val m' h)
  ]
  | inr (v, e, new, more) ↦ elim m [
    | inl q ↦
        let q' : some val ≡ some v = sym h ∙ ap (lookup x) q ∙ e in
        inr (v, rw more (inl refl), ground arith)
    | inr m' ↦ elim (collect_complete x ss (insert (slice_bytes v) true seen) s val m' h) [
      | inr (w, n, q) ↦ inr (w, rw more (inr n), q)
      | inl (b, q) ↦ elim (Bool-cases (bytes_eq (slice_bytes v) (slice_bytes val))) [
        | inl t ↦
            inr (
              v,
              rw more (inl refl),
              ground (arith, bytes_eq_iff (slice_bytes v) (slice_bytes val)),
            )
        | inr f ↦
            inl (b, ground (arith, q, lookup-insert (slice_bytes v) (slice_bytes val) true seen))
      ]
    ]
  ]
]

IsNew-insert :
    (v : Bytes) (seen : Assoc Bool) (w : Slice)
    → IsNew (insert v true seen) w
    → IsNew seen w × (slice_bytes w ≢ v)
IsNew-insert v seen w h = (
  ground (arith, lookup-insert v (slice_bytes w) true seen),
  λ q. ground (arith, lookup-insert v (slice_bytes w) true seen, bytes_eq_iff v (slice_bytes w)),
)

pub collect-IsDistinct :
    (x : Bytes) (ss : List Solution) (seen : Assoc Bool)
    → All (IsNew seen) (collect x ss seen) × IsDistinct (collect x ss seen)
collect-IsDistinct x [] seen = rw (collect-nil x seen) (tt, tt)
collect-IsDistinct x (s ∷ ss) seen = elim (collect-cases x s ss seen) [
  | inl (same, old) ↦ rw same (collect-IsDistinct x ss seen)
  | inr (v, e, new, more) ↦
      let seen' = insert (slice_bytes v) true seen in
      let found = collect x ss seen' in
      let (news, distinct) = collect-IsDistinct x ss seen' in
      rw more (
        (
          new,
          All-map (IsNew seen') (IsNew seen) (λ w h. (IsNew-insert (slice_bytes v) seen w h).0)
              found news,
        ),
        (
          All-map (IsNew seen') (λ w. slice_bytes w ≢ slice_bytes v)
              (λ w h. (IsNew-insert (slice_bytes v) seen w h).1) found news,
          distinct,
        ),
      )
]
