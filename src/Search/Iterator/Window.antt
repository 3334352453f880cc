-- ===== src/Search/Iterator/Window.antt =====
-- search.go: the filter, the offset, the limit and the pattern to materialise, applied one solution
-- at a time as `SolutionIterator` does, and to the whole list as `Search` does.
use levelgraph.Prelude.{
  ℕ, zero, suc, ◌-◌, ◌≤◌, ◌≡◌, refl, sym, ap, ◌∙◌, Bool, true, false, ◌&&◌, Option, none, some,
  List, [], ◌∷◌, if◌then◌else◌, ltb, leb, length, take, drop, arith, Bool-cases, inl, inr,
}
use levelgraph.Prelude.Int.{pos_part}
use levelgraph.Graph.Solution.{Solution}
use levelgraph.Graph.Pattern.{Pattern}
use levelgraph.Search.{
  SearchOptions, keep, skip_offset, cut_limit, materialize_solutions, materialize_if,
}
use levelgraph.Search.Iterator.{passes_filter, delivered}

abbrev pub at_limit : SearchOptions → ℕ → Bool
at_limit o count = ltb 0 (pos_part o.limit) && leb (pos_part o.limit) count

-- What is still returned of these solutions.
unfoldable pub window : SearchOptions → ℕ → ℕ → List Solution → List Solution
window o count skipped [] = []
window o count skipped (s ∷ ss) = elim (at_limit o count) [
  | true ↦ []
  | false ↦ elim (passes_filter o.filter s) [
    | false ↦ window o count skipped ss
    | true ↦ elim (ltb skipped (pos_part o.offset)) [
      | true ↦ window o count (suc skipped) ss
      | false ↦ delivered o.materialized s ∷ window o (suc count) skipped ss
    ]
  ]
]

clip : ℕ → ℕ → List Solution → List Solution
clip limit count ss = if ltb 0 limit then take (limit - count) ss else ss

abbrev empty : List Solution
empty = []

drop-nil : (n : ℕ) → drop n empty ≡ []
drop-nil zero = refl
drop-nil (suc n) = refl

take_nil : (n : ℕ) → take n empty ≡ []
take_nil zero = refl
take_nil (suc n) = refl

drop_all : (n : ℕ) (ss : List Solution) → length ss ≤ n → drop n ss ≡ []
drop_all n [] h = drop-nil n
drop_all zero (s ∷ ss) h = absurd (omega arith)
drop_all (suc n) (s ∷ ss) h = drop_all n ss (omega arith)

take_all : (n : ℕ) (ss : List Solution) → length ss ≤ n → take n ss ≡ ss
take_all zero [] h = refl
take_all (suc n) [] h = refl
take_all zero (s ∷ ss) h = absurd (omega arith)
take_all (suc n) (s ∷ ss) h = ap (λ l. s ∷ l) (take_all n ss (omega arith))

skip_offset-drop : (n : ℕ) (ss : List Solution) → skip_offset n ss ≡ drop n ss
unfolding skip_offset
skip_offset-drop zero ss = refl
skip_offset-drop (suc n) ss =
    let positive : ltb 0 (suc n) ≡ true = ground arith in
    elim (Bool-cases (leb (length ss) (suc n))) [
      | inl e ↦ rw (positive, e) (sym (drop_all (suc n) ss (ground arith)))
      | inr e ↦ rw (positive, e) refl
    ]

cut_limit-clip : (n : ℕ) (ss : List Solution) → cut_limit n ss ≡ clip n 0 ss
unfolding cut_limit clip
cut_limit-clip zero ss = refl
cut_limit-clip (suc n) ss =
    let positive : ltb 0 (suc n) ≡ true = ground arith in
    let whole : suc n - 0 ≡ suc n = omega arith in
    rw (whole, positive)
      (elim (Bool-cases (ltb (suc n) (length ss))) [
        | inl e ↦ rw e refl
        | inr e ↦ rw e (sym (take_all (suc n) ss (ground arith)))
      ])

materialize_if-nil : (m : Option Pattern) → materialize_if m [] ≡ []
unfolding materialize_solutions
materialize_if-nil none = refl
materialize_if-nil (some p) = refl

materialize_if-cons :
    (m : Option Pattern) (s : Solution) (ss : List Solution)
    → materialize_if m (s ∷ ss) ≡ delivered m s ∷ materialize_if m ss
unfolding materialize_solutions
materialize_if-cons none s ss = refl
materialize_if-cons (some p) s ss = refl

keep-nil : (f : Option (Solution → Bool)) → keep f [] ≡ []
unfolding keep
keep-nil none = refl
keep-nil (some f) = refl

keep-cons :
    (f : Option (Solution → Bool)) (s : Solution) (ss : List Solution)
    → keep f (s ∷ ss) ≡ (if passes_filter f s then s ∷ keep f ss else keep f ss)
unfolding keep
keep-cons none s ss = refl
keep-cons (some f) s ss = refl

clip-nil : (limit count : ℕ) → clip limit count [] ≡ []
unfolding clip
clip-nil limit count = elim (Bool-cases (ltb 0 limit)) [
  | inl e ↦ rw e (take_nil (limit - count))
  | inr e ↦ rw e refl
]

clip_full :
    (limit count : ℕ) (ss : List Solution)
    → ltb 0 limit && leb limit count ≡ true
    → clip limit count ss ≡ []
unfolding clip
clip_full limit count ss h =
    let positive : ltb 0 limit ≡ true = ground arith in
    let none_left : limit - count ≡ 0 = ground arith in rw (positive, none_left) refl

clip-cons :
    (limit count : ℕ) (s : Solution) (ss : List Solution)
    → ltb 0 limit && leb limit count ≡ false
    → clip limit count (s ∷ ss) ≡ s ∷ clip limit (suc count) ss
unfolding clip
clip-cons limit count s ss h = elim (Bool-cases (ltb 0 limit)) [
  | inr e ↦ rw e refl
  | inl e ↦
      let some_left : limit - count ≡ suc (limit - suc count) = ground arith in
      rw (e, some_left) refl
]

window-clip :
    (o : SearchOptions) (count skipped : ℕ) (ss : List Solution)
    → window o count skipped ss
      ≡ materialize_if o.materialized
          (clip (pos_part o.limit) count (drop (pos_part o.offset - skipped) (keep o.filter ss)))
unfolding window
window-clip o count skipped [] =
    let m = o.materialized in
    sym (
      ap
        (λ l.
          materialize_if m (clip (pos_part o.limit) count (drop (pos_part o.offset - skipped) l)))
        (keep-nil o.filter)
      ∙ ap (λ l. materialize_if m (clip (pos_part o.limit) count l))
          (drop-nil (pos_part o.offset - skipped))
      ∙ ap (materialize_if m) (clip-nil (pos_part o.limit) count)
      ∙ materialize_if-nil m)
window-clip o count skipped (s ∷ ss) =
    let m = o.materialized in
    let n = pos_part o.offset - skipped in
    let kept = keep o.filter ss in
    elim (Bool-cases (at_limit o count)) [
      | inl e ↦
          rw (window, e)
            (sym (
              ap (materialize_if m) (clip_full (pos_part o.limit) count _ e)
              ∙ materialize_if-nil m))
      | inr e ↦ elim (Bool-cases (passes_filter o.filter s)) [
        | inr f ↦
            rw (window, e, f) (rw (keep-cons o.filter s ss, f) (window-clip o count skipped ss))
        | inl f ↦ elim (Bool-cases (ltb skipped (pos_part o.offset))) [
          | inl k ↦
              let one : n ≡ suc (pos_part o.offset - suc skipped) = ground arith in
              rw (window, e, f, k)
                (rw (keep-cons o.filter s ss, f, one) (window-clip o count (suc skipped) ss))
          | inr k ↦
              let over : n ≡ 0 = ground arith in
              let rest = window-clip o (suc count) skipped ss in
              rw (window, e, f, k)
                (rw (keep-cons o.filter s ss, f, over)
                  (ap (λ l. delivered m s ∷ l)
                      (rest
                        ∙ ap
                            (λ j.
                              materialize_if m (clip (pos_part o.limit) (suc count) (drop j kept)))
                            over)
                    ∙ sym (materialize_if-cons m s (clip (pos_part o.limit) (suc count) kept))
                    ∙ sym (ap (materialize_if m) (clip-cons (pos_part o.limit) count s kept e))))
        ]
      ]
    ]

-- Taken one by one from the start, the solutions are those of the whole list's operations.
pub window_lem :
    (o : SearchOptions) (ss : List Solution)
    → window o 0 0 ss
      ≡ materialize_if o.materialized
          (cut_limit (pos_part o.limit) (skip_offset (pos_part o.offset) (keep o.filter ss)))
window_lem o ss =
    window-clip o 0 0 ss
    ∙ ap
        (λ n. materialize_if o.materialized (clip (pos_part o.limit) 0 (drop n (keep o.filter ss))))
        (omega arith)
    ∙ ap (λ l. materialize_if o.materialized (clip (pos_part o.limit) 0 l))
        (sym (skip_offset-drop (pos_part o.offset) (keep o.filter ss)))
    ∙ ap (materialize_if o.materialized) (
        sym
          (cut_limit-clip (pos_part o.limit) (skip_offset (pos_part o.offset) (keep o.filter ss))))

module _ (o : SearchOptions) (count skipped : ℕ) (s : Solution) (ss : List Solution)
    (room : at_limit o count ≡ false) where
  pub window_rejected :
      passes_filter o.filter s ≡ false → window o count skipped (s ∷ ss) ≡ window o count skipped ss
  unfolding window
  window_rejected f = rw (window, room, f) refl

  pub window_skipped :
      passes_filter o.filter s ≡ true
      → ltb skipped (pos_part o.offset) ≡ true
      → window o count skipped (s ∷ ss) ≡ window o count (suc skipped) ss
  unfolding window
  window_skipped f k = rw (window, room, f, k) refl

  pub window_returned :
      passes_filter o.filter s ≡ true
      → ltb skipped (pos_part o.offset) ≡ false
      → window o count skipped (s ∷ ss)
        ≡ delivered o.materialized s ∷ window o (suc count) skipped ss
  unfolding window
  window_returned f k = rw (window, room, f, k) refl
