-- ===== src/MemStore/Cursor/Walk.antt =====
-- memstore/memstore.go, `memIterator`: what a walk visits, and where `Seek` stops.
use levelgraph.Prelude.{
  ℕ, zero, suc, ◌+◌, ◌-◌, ◌/◌, ◌≤◌, ◌<◌, ◌≡◌, refl, sym, ap, ◌∙◌, Bool, true, false, not, Option,
  none, some, List, [], ◌∷◌, ◌++◌, arith, if◌then◌else◌, ltb, leb, length, take, drop,
  length-append, append_assoc, Bool-cases, inl, inr, All, take-append-drop, length-take,
  drop-length,
}
use mathlib.Core.Bool.{false≢true}
use mathlib.Core.List.{reverse, reverse-cons, reverse-reverse, append-nil}
use levelgraph.Prelude.Int.{ℤ, pos}
use levelgraph.Prelude.Bytes.{Bytes, bytes_lt, bytes_lt_trans}
use levelgraph.Store.{IsAscending}
use levelgraph.MemStore.Cursor.{
  MemIterator, fresh, item_at, first, last, next, prev, seek, item_here, search_loop, sort_search,
  reaches,
}

-- What a loop `for ok := start; ok; ok = step()` visits; `none` is the fuel's end.
unfoldable pub walk :
    (MemIterator → MemIterator × Bool) → ℕ → MemIterator × Bool → Option (List (Bytes × Bytes))
walk step fuel (it, false) = some []
walk step zero (it, true) = none
walk step (suc fuel) (it, true) = elim (item_here it) [
  | none ↦ none
  | some x ↦ elim (walk step fuel (step it)) [ none ↦ none | some xs ↦ some (x ∷ xs) ]
]

walk-step :
    (step : MemIterator → MemIterator × Bool) (fuel : ℕ) (it : MemIterator) (x : Bytes × Bytes)
    (xs : List (Bytes × Bytes))
    → item_here it ≡ some x
    → walk step fuel (step it) ≡ some xs
    → walk step (suc fuel) (it, true) ≡ some (x ∷ xs)
unfolding walk
walk-step step fuel it x xs e f = rw (walk, e, f) refl

item_at-append :
    (xs : List (Bytes × Bytes)) (y : Bytes × Bytes) (ys : List (Bytes × Bytes))
    → item_at (xs ++ y ∷ ys) (length xs) ≡ some y
item_at-append [] y ys = refl
item_at-append (x ∷ xs) y ys = item_at-append xs y ys

abbrev at_pos : List (Bytes × Bytes) → ℕ → MemIterator
at_pos items n = record { items = items; at = pos n; failed = false }

-- Forward from behind `xs`.
walk-next :
    (fuel : ℕ) (xs ys : List (Bytes × Bytes))
    → length ys ≤ fuel
    → walk next fuel (at_pos (xs ++ ys) (length xs), ltb (length xs) (length (xs ++ ys))) ≡ some ys
unfolding walk next
walk-next fuel xs [] h =
    let e : ltb (length xs) (length (xs ++ [])) ≡ false = ground (arith, length-append xs []) in
    rw e refl
walk-next zero xs (y ∷ ys) h = absurd (omega arith)
walk-next (suc fuel) xs (y ∷ ys) h =
    let n = length-append xs (y ∷ ys) in
    let e : ltb (length xs) (length (xs ++ y ∷ ys)) ≡ true = ground arith in
    let regroup : (xs ++ y ∷ []) ++ ys ≡ xs ++ y ∷ ys = append_assoc xs (y ∷ []) ys in
    let at : length (xs ++ y ∷ []) ≡ suc (length xs) = ground (arith, length-append xs (y ∷ [])) in
    let rest : walk next fuel
          (at_pos (xs ++ y ∷ ys) (suc (length xs)), ltb (suc (length xs)) (length (xs ++ y ∷ ys)))
        ≡ some ys =
      rw (← at, ← regroup) (walk-next fuel (xs ++ y ∷ []) ys (omega arith)) in
    rw (e, walk, item_at-append xs y ys, rest) refl

length-reverse : (rs : List (Bytes × Bytes)) → length (reverse rs) ≡ length rs
length-reverse [] = refl
length-reverse (r ∷ rs) =
    ap length (reverse-cons r rs)
    ∙ ground (arith, length-append (reverse rs) (r ∷ []), length-reverse rs)

-- Backward from in front of `ys`.
walk-prev :
    (fuel : ℕ) (rs ys : List (Bytes × Bytes))
    → length rs ≤ fuel
    → walk prev fuel (prev (at_pos (reverse rs ++ ys) (length rs))) ≡ some rs
unfolding walk prev
walk-prev fuel [] ys h = refl
walk-prev zero (r ∷ rs) ys h = absurd (omega arith)
walk-prev (suc fuel) (r ∷ rs) ys h =
    let regroup : reverse (r ∷ rs) ++ ys ≡ reverse rs ++ r ∷ ys =
      ap (λ l. l ++ ys) (reverse-cons r rs) ∙ append_assoc (reverse rs) (r ∷ []) ys in
    let here : item_at (reverse rs ++ r ∷ ys) (length rs) ≡ some r =
      ap (item_at (reverse rs ++ r ∷ ys)) (sym (length-reverse rs))
      ∙ item_at-append (reverse rs) r ys in
    rw regroup (
      walk-step prev fuel (at_pos (reverse rs ++ r ∷ ys) (length rs)) r rs here
        (walk-prev fuel rs (r ∷ ys) (omega arith)))

-- From `First`, or from in front of the first item, `Next` visits the items of the snapshot in
-- order, and from `Last`, `Prev` visits them in the opposite order; then the loops end.
pub walk_lem :
    (items : List (Bytes × Bytes))
    → (walk next (length items) (first (fresh items)) ≡ some items)
      × (walk next (length items) (next (fresh items)) ≡ some items)
      × (walk prev (length items) (last (fresh items)) ≡ some (reverse items))
unfolding first next last walk prev
walk_lem [] = (refl, refl, refl)
walk_lem (x ∷ items) =
    let all = x ∷ items in
    let some_item : ltb 0 (length all) ≡ true = ground arith in
    let start : first (fresh all) ≡ (at_pos all 0, ltb 0 (length all)) = rw some_item refl in
    let forward = walk-next (length all) [] all (omega arith) in
    let final : length all - 1 ≡ length items = omega arith in
    let end : last (fresh all) ≡ prev (at_pos all (length all)) = rw (some_item, final) refl in
    let n = length-reverse all in
    let regroup : reverse (reverse all) ++ [] ≡ all = append-nil _ ∙ reverse-reverse all in
    let backward = walk-prev (length all) (reverse all) [] (omega arith) in
    (
      ap (walk next (length all)) start ∙ forward,
      forward,
      ap (walk prev (length all)) end ∙ rw (regroup, n) at backward,
    )

search_loop_bounds :
    (fuel : ℕ) (f : ℕ → Bool) (i j : ℕ)
    → ((a b : ℕ) → a ≤ b → f a ≡ true → f b ≡ true)
    → j - i ≤ fuel
    → i ≤ j
    → (i ≤ search_loop fuel f i j)
      × (search_loop fuel f i j ≤ j)
      × ((k : ℕ) → i ≤ k → k < search_loop fuel f i j → f k ≡ false)
      × ((k : ℕ) → search_loop fuel f i j ≤ k → k < j → f k ≡ true)
unfolding search_loop
search_loop_bounds zero f i j mono le h =
    (omega arith, omega arith, λ k a b. absurd (omega arith), λ k a b. absurd (omega arith))
search_loop_bounds (suc fuel) f i j mono le h = elim (Bool-cases (ltb i j)) [
  | inr e ↦
      rw e
        (omega arith, ground arith, λ k a b. absurd (omega arith), λ k a b. absurd (ground arith))
  | inl e ↦ elim (Bool-cases (f ((i + j) / 2))) [
    | inl holds ↦
        let (a, b, below, above) =
          search_loop_bounds fuel f i ((i + j) / 2) mono (ground arith) (ground arith) in
        rw (e, holds)
          (
            a,
            ground arith,
            below,
            λ k p q. elim (Bool-cases (ltb k ((i + j) / 2))) [
              | inl lt ↦ above k p (ground arith)
              | inr ge ↦ mono ((i + j) / 2) k (ground arith) holds
            ],
          )
    | inr fails ↦
        let (a, b, below, above) =
          search_loop_bounds fuel f (suc ((i + j) / 2)) j mono (ground arith) (ground arith) in
        rw (e, fails)
          (
            ground arith,
            b,
            λ k p q. elim (Bool-cases (leb k ((i + j) / 2))) [
              | inr gt ↦ below k (ground arith) q
              | inl le ↦ elim (Bool-cases (f k)) [
                | inr done ↦ done
                | inl bad ↦
                    absurd (false≢true (sym fails ∙ mono k ((i + j) / 2) (ground arith) bad))
              ]
            ],
            above,
          )
  ]
]

-- The items without those at the front whose keys are below a key.
unfoldable pub drop_below : Bytes → List (Bytes × Bytes) → List (Bytes × Bytes)
drop_below key [] = []
drop_below key (x ∷ items) = if bytes_lt x.0 key then drop_below key items else x ∷ items

reaches_mono :
    (items : List (Bytes × Bytes)) (key : Bytes)
    → IsAscending items
    → (a b : ℕ) → a ≤ b
    → reaches items key a ≡ true
    → reaches items key b ≡ true
reaches_mono [] key h a b le e = refl
reaches_mono ((k, v) ∷ items) key (h, hs) (suc a) (suc b) le e =
    reaches_mono items key hs a b (omega arith) e
reaches_mono ((k, v) ∷ items) key (h, hs) (suc a) zero le e = absurd (omega arith)
reaches_mono ((k, v) ∷ items) key (h, hs) zero zero le e = e
reaches_mono ((k, v) ∷ items) key (h, hs) zero (suc b) le e = go items h b
  where
    go :
        (rest : List (Bytes × Bytes))
        → All (λ x. bytes_lt k x.0 ≡ true) rest
        → (n : ℕ) → reaches rest key n ≡ true
    go [] above n = refl
    go (x ∷ rest) (lt, above) (suc n) = go rest above n
    go (x ∷ rest) (lt, above) zero = elim (Bool-cases (bytes_lt x.0 key)) [
      | inr ge ↦ rw ge refl
      | inl below ↦
          let low : bytes_lt k key ≡ true = bytes_lt_trans k x.0 key lt below in
          absurd (false≢true (sym (ap not low) ∙ e))
    ]

drop-drop_below :
    (items : List (Bytes × Bytes)) (key : Bytes) (r : ℕ)
    → r ≤ length items
    → ((k : ℕ) → k < r → reaches items key k ≡ false)
    → (r < length items → reaches items key r ≡ true)
    → drop r items ≡ drop_below key items
unfolding drop_below
drop-drop_below [] key zero le below at = refl
drop-drop_below [] key (suc r) le below at = refl
drop-drop_below (x ∷ items) key zero le below at =
    let e : bytes_lt x.0 key ≡ false = ground (arith, at (omega arith)) in rw e refl
drop-drop_below (x ∷ items) key (suc r) le below at =
    let e : bytes_lt x.0 key ≡ true = ground (arith, below 0 (omega arith)) in
    rw e (
      drop-drop_below items key r (omega arith) (λ k lt. below (suc k) (omega arith))
        (λ lt. at (omega arith)))

-- After `Seek`, the walk by `Next` over a snapshot in ascending order visits what is left when the
-- items with smaller keys are passed over one by one, wherever the iterator stood.
pub seek_lem :
    (items : List (Bytes × Bytes)) (key : Bytes) (p : ℤ)
    → IsAscending items
    → walk next (length items) (seek key (record { items = items; at = p; failed = false }))
      ≡ some (drop_below key items)
unfolding seek walk sort_search
seek_lem items key p h =
    let f = reaches items key in
    let r = search_loop (length items) f 0 (length items) in
    let (low, high, below, above) =
      search_loop_bounds (length items) f 0 (length items) (reaches_mono items key h) (omega arith)
        (omega arith) in
    let same =
      drop-drop_below items key r high (λ k lt. below k (omega arith) lt)
        (λ lt. above r (omega arith) lt) in
    let whole : take r items ++ drop r items ≡ items = take-append-drop r items in
    let front : length (take r items) ≡ r = length-take r items high in
    let size = length-append (take r items) (drop r items) in
    let fuel : length (drop r items) ≤ length items = ground (arith, ap length whole) in
    elim (Bool-cases (leb (length items) r)) [
      | inl e ↦
          let full : r ≡ length items = ground arith in
          let none_left : drop r items ≡ [] = ap (λ k. drop k items) full ∙ drop-length items in
          rw e (ap some (sym none_left ∙ same))
      | inr e ↦
          let lt : ltb r (length items) ≡ true = ground arith in
          let visit : walk next (length items) (at_pos items r, ltb r (length items))
              ≡ some (drop r items) =
            rw (front, whole) at (walk-next (length items) (take r items) (drop r items) fuel) in
          rw e (rw lt at visit ∙ ap some same)
    ]
