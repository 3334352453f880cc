-- ===== src/MemStore/Sort.antt =====
-- What sorting keys keeps, and what it gives.
use levelgraph.Prelude.{◌≡◌, ◌⊎◌, inl, inr, ◌↔◌, true, List, [], ◌∷◌, Mem, All, Bool-cases}
use levelgraph.Prelude.Bytes.{Bytes, bytes_lt, bytes_lt_trans, bytes_lt_total}
use levelgraph.MemStore.{sort_in, sort_strings}

-- No key stands twice.
abbrev pub Distinct : List Bytes → Type 0
Distinct [] = Unit
Distinct (k ∷ l) = (¬ Mem k l) × Distinct l

abbrev pub Ascending : List Bytes → Type 0
Ascending [] = Unit
Ascending (k ∷ l) = All (λ j. bytes_lt k j ≡ true) l × Ascending l

pub mem-sort_in : (k j : Bytes) (l : List Bytes) → Mem j (sort_in k l) ↔ ((j ≡ k) ⊎ Mem j l)
unfolding sort_in
mem-sort_in k j [] = (λ h. h, λ h. h)
mem-sort_in k j (i ∷ l) = elim (Bool-cases (bytes_lt i k)) [
  | inl e ↦ rw e (
    (λ h. elim h [
      | inl q ↦ inr (inl q)
      | inr m ↦ elim ((mem-sort_in k j l).0 m) [ inl q ↦ inl q | inr m' ↦ inr (inr m') ]
    ]),
    (λ h. elim h [
      | inl q ↦ inr ((mem-sort_in k j l).1 (inl q))
      | inr m ↦ elim m [ inl q ↦ inl q | inr m' ↦ inr ((mem-sort_in k j l).1 (inr m')) ]
    ]),
  )
  | inr e ↦ rw e ((λ h. h), (λ h. h))
]

pub mem-sort_strings : (j : Bytes) (l : List Bytes) → Mem j (sort_strings l) ↔ Mem j l
unfolding sort_strings
mem-sort_strings j [] = (λ h. h, λ h. h)
mem-sort_strings j (k ∷ l) = (
  (λ h. elim ((mem-sort_in k j (sort_strings l)).0 h) [
    | inl q ↦ inl q
    | inr m ↦ inr ((mem-sort_strings j l).0 m)
  ]),
  (λ h.
      (mem-sort_in k j (sort_strings l)).1
        (elim h [ inl q ↦ inl q | inr m ↦ inr ((mem-sort_strings j l).1 m) ])),
)

All-weaken :
    (i k : Bytes) (l : List Bytes)
    → bytes_lt i k ≡ true
    → All (λ j. bytes_lt k j ≡ true) l
    → All (λ j. bytes_lt i j ≡ true) l
All-weaken i k [] e h = tt
All-weaken i k (j ∷ l) e h = (bytes_lt_trans i k j e h.0, All-weaken i k l e h.1)

All-sort_in :
    (i k : Bytes) (l : List Bytes)
    → bytes_lt i k ≡ true
    → All (λ j. bytes_lt i j ≡ true) l
    → All (λ j. bytes_lt i j ≡ true) (sort_in k l)
unfolding sort_in
All-sort_in i k [] e h = (e, tt)
All-sort_in i k (j ∷ l) e h = elim (Bool-cases (bytes_lt j k)) [
  | inl q ↦ rw q (h.0, All-sort_in i k l e h.1)
  | inr q ↦ rw q (e, h)
]

-- A key that is not there yet is put at its place.
pub sort_in-Ascending :
    (k : Bytes) (l : List Bytes) → ¬ Mem k l → Ascending l → Ascending (sort_in k l)
unfolding sort_in
sort_in-Ascending k [] n h = (tt, tt)
sort_in-Ascending k (j ∷ l) n h = elim (Bool-cases (bytes_lt j k)) [
  | inl q ↦ rw q (All-sort_in j k l q h.0, sort_in-Ascending k l (λ m. n (inr m)) h.1)
  | inr q ↦ elim (Bool-cases (bytes_lt k j)) [
    | inl r ↦ rw q ((r, All-weaken k j l r h.0), h)
    | inr r ↦ absurd (n (inl (bytes_lt_total k j r q)))
  ]
]

pub sort_strings-Ascending : (l : List Bytes) → Distinct l → Ascending (sort_strings l)
unfolding sort_strings
sort_strings-Ascending [] h = tt
sort_strings-Ascending (k ∷ l) h =
    sort_in-Ascending k (sort_strings l) (λ m. h.0 ((mem-sort_strings k l).0 m))
      (sort_strings-Ascending l h.1)
