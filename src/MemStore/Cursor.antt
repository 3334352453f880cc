-- ===== src/MemStore/Cursor.antt =====
-- memstore/memstore.go, `memIterator`: a position among the items of a snapshot, which may stand
-- in front of the first or behind the last.
pub mod Walk
use levelgraph.Prelude.{
  ℕ, zero, suc, ◌+◌, ◌-◌, ◌/◌, ◌≤◌, ◌<◌, ◌≡◌, refl, sym, ap, ◌∙◌, Bool, true, false, not, Option,
  none, some, List, [], ◌∷◌, ◌++◌, arith, if◌then◌else◌, ltb, leb, length, take, drop,
}
use mathlib.Core.List.{reverse}
use levelgraph.Prelude.Int.{ℤ, pos, negsuc, incr, decr}
use levelgraph.Prelude.Bytes.{Bytes, bytes_lt}

-- `failed` is whether `err` is set.
pub record MemIterator : Type 0 where
  pub items : List (Bytes × Bytes)
  pub at : ℤ
  pub failed : Bool

-- The iterator that `NewIterator` returns over a snapshot.
abbrev pub fresh : List (Bytes × Bytes) → MemIterator
fresh items = record { items = items; at = negsuc 0; failed = false }

abbrev pub item_at : List (Bytes × Bytes) → ℕ → Option (Bytes × Bytes)
item_at [] n = none
item_at (x ∷ items) zero = some x
item_at (x ∷ items) (suc n) = item_at items n

-- `pos < len(items)` and `pos >= 0`.
abbrev pub before_end : ℤ → ℕ → Bool
before_end (pos n) size = ltb n size
before_end (negsuc n) size = true

abbrev pub not_negative : ℤ → Bool
not_negative (pos n) = true
not_negative (negsuc n) = false

unfoldable pub first : MemIterator → MemIterator × Bool
first it =
    if it.failed
    then (it, false)
    else if ltb 0 (length it.items)
    then (record it { at = pos 0 }, true)
    else (it, false)

unfoldable pub last : MemIterator → MemIterator × Bool
last it =
    if it.failed
    then (it, false)
    else if ltb 0 (length it.items)
    then (record it { at = pos (length it.items - 1) }, true)
    else (it, false)

-- `sort.Search` for the first index in [i, j) at which the test holds: `i <= h < j`. Each round
-- shortens the interval, so that its length is fuel enough.
unfoldable pub search_loop : ℕ → (ℕ → Bool) → ℕ → ℕ → ℕ
search_loop zero f i j = i
search_loop (suc fuel) f i j =
    let h = (i + j) / 2 in
    let right = search_loop fuel f (suc h) j in
    let left = search_loop fuel f i h in if ltb i j then if f h then left else right else i

unfoldable pub sort_search : ℕ → (ℕ → Bool) → ℕ
sort_search n f = search_loop n f 0 n

-- `bytes.Compare(it.items[i].key, key) >= 0`; the index is in range where it is called.
abbrev pub reaches : List (Bytes × Bytes) → Bytes → ℕ → Bool
reaches items key i = elim (item_at items i) [ none ↦ true | some (k, v) ↦ not (bytes_lt k key) ]

unfoldable pub seek : Bytes → MemIterator → MemIterator × Bool
seek key it =
    let idx = sort_search (length it.items) (reaches it.items key) in
    if it.failed
    then (it, false)
    else if leb (length it.items) idx
    then (it, false)
    else (record it { at = pos idx }, true)

unfoldable pub next : MemIterator → MemIterator × Bool
next it =
    if it.failed
    then (it, false)
    else (record it { at = incr it.at }, before_end (incr it.at) (length it.items))

unfoldable pub prev : MemIterator → MemIterator × Bool
prev it =
    if it.failed then (it, false) else (record it { at = decr it.at }, not_negative (decr it.at))

abbrev pub item_here : MemIterator → Option (Bytes × Bytes)
item_here it = elim it.at [ pos n ↦ item_at it.items n | negsuc n ↦ none ]

unfoldable pub valid : MemIterator → Bool
valid it =
    if it.failed
    then false
    else if not_negative it.at
    then before_end it.at (length it.items)
    else false

-- `Key` and `Value`, nil where the iterator is not valid.
unfoldable pub key : MemIterator → Option Bytes
unfolding valid
key it = if valid it then elim (item_here it) [ none ↦ none | some (k, v) ↦ some k ] else none

unfoldable pub value : MemIterator → Option Bytes
unfolding valid
value it = if valid it then elim (item_here it) [ none ↦ none | some (k, v) ↦ some v ] else none

unfoldable pub release : MemIterator → MemIterator
release it = record it { items = []; at = negsuc 0 }
