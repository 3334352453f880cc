-- ===== src/Prelude/Bytes.antt =====
-- Byte strings: equality, the order of `bytes.Compare`, slices that may be nil, and literals.
use Prim.Native.Nat.{ℕ}
use Prim.Native.Char.{code}
use Prim.Native.String.{String}
use mathlib.Core.Path.{◌≡◌, refl}
use mathlib.Core.Logic.{◌↔◌}
use mathlib.Core.Bool.{Bool, true, false, ◌&&◌}
use mathlib.Core.Option.{Option, none, some}
use mathlib.Core.List.{List, [], ◌∷◌, ◌++◌}
use native.Mathlib.Omega.{arith}
use levelgraph.Prelude.Tests.{◌==◌, ltb, if◌then◌else◌}

abbrev pub Bytes : Type 0
Bytes = List ℕ

-- `[]byte`, which may be nil; `some []` is the empty slice that is not nil.
abbrev pub Slice : Type 0
Slice = Option Bytes

-- What `bytes.Equal`, `append` and `len` see of a slice: nil is empty.
abbrev pub slice_bytes : Slice → Bytes
slice_bytes none = []
slice_bytes (some b) = b

abbrev pub codes : String → Bytes
codes String.[] = []
codes (String.◌∷◌ c s) = code c ∷ codes s

-- `bytes.Equal`, and `==` on strings.
unfoldable pub bytes_eq : Bytes → Bytes → Bool
bytes_eq [] [] = true
bytes_eq [] (y ∷ ys) = false
bytes_eq (x ∷ xs) [] = false
bytes_eq (x ∷ xs) (y ∷ ys) = (x == y) && bytes_eq xs ys

-- `bytes.Compare a b < 0`.
unfoldable pub bytes_lt : Bytes → Bytes → Bool
bytes_lt xs [] = false
bytes_lt [] (y ∷ ys) = true
bytes_lt (x ∷ xs) (y ∷ ys) = if ltb x y then true else (x == y) && bytes_lt xs ys

pub bytes_eq-true : (a b : Bytes) → bytes_eq a b ≡ true → a ≡ b
unfolding bytes_eq
bytes_eq-true [] [] h = refl
bytes_eq-true [] (y ∷ ys) h = cc
bytes_eq-true (x ∷ xs) [] h = cc
bytes_eq-true (x ∷ xs) (y ∷ ys) h = ground (arith, bytes_eq-true xs ys)

pub bytes_eq_refl : (a : Bytes) → bytes_eq a a ≡ true
unfolding bytes_eq
bytes_eq_refl [] = refl
bytes_eq_refl (x ∷ xs) = ground (arith, bytes_eq_refl xs)

pub bytes_eq_iff : (a b : Bytes) → (bytes_eq a b ≡ true) ↔ (a ≡ b)
bytes_eq_iff a b = (bytes_eq-true a b, λ e. rw e (bytes_eq_refl b))

pub bytes_lt_irrefl : (a : Bytes) → bytes_lt a a ≡ false
unfolding bytes_lt
bytes_lt_irrefl [] = refl
bytes_lt_irrefl (x ∷ xs) = ground (arith, bytes_lt_irrefl xs)

pub bytes_lt_trans :
    (a b c : Bytes) → bytes_lt a b ≡ true → bytes_lt b c ≡ true → bytes_lt a c ≡ true
unfolding bytes_lt
bytes_lt_trans [] [] c h k = cc
bytes_lt_trans [] (y ∷ ys) [] h k = k
bytes_lt_trans [] (y ∷ ys) (z ∷ zs) h k = refl
bytes_lt_trans (x ∷ xs) [] c h k = cc
bytes_lt_trans (x ∷ xs) (y ∷ ys) [] h k = k
bytes_lt_trans (x ∷ xs) (y ∷ ys) (z ∷ zs) h k = ground (arith, bytes_lt_trans xs ys zs)

-- The order is total.
pub bytes_lt_total : (a b : Bytes) → bytes_lt a b ≡ false → bytes_lt b a ≡ false → a ≡ b
unfolding bytes_lt
bytes_lt_total [] [] h k = refl
bytes_lt_total [] (y ∷ ys) h k = cc
bytes_lt_total (x ∷ xs) [] h k = cc
bytes_lt_total (x ∷ xs) (y ∷ ys) h k = ground (arith, bytes_lt_total xs ys)

-- A common prefix does not matter.
pub bytes_lt-append : (p a b : Bytes) → bytes_lt (p ++ a) (p ++ b) ≡ bytes_lt a b
unfolding bytes_lt
bytes_lt-append [] a b = refl
bytes_lt-append (x ∷ p) a b = ground (arith, bytes_lt-append p a b)

-- `strings.HasPrefix k p`, as the theorems use it.
unfoldable pub starts_with : Bytes → Bytes → Bool
starts_with [] k = true
starts_with (x ∷ p) [] = false
starts_with (x ∷ p) (y ∷ k) = (x == y) && starts_with p k

pub starts_with-append : (p r : Bytes) → starts_with p (p ++ r) ≡ true
unfolding starts_with
starts_with-append [] r = refl
starts_with-append (x ∷ p) r = ground (arith, starts_with-append p r)

pub starts_with_self : (p : Bytes) → starts_with p p ≡ true
unfolding starts_with
starts_with_self [] = refl
starts_with_self (x ∷ p) = ground (arith, starts_with_self p)

pub starts_with_rest : (p k : Bytes) → starts_with p k ≡ true → (r : Bytes) × (k ≡ p ++ r)
unfolding starts_with
starts_with_rest [] k h = (k, refl)
starts_with_rest (x ∷ p) [] h = cc
starts_with_rest (x ∷ p) (y ∷ k) h =
    let (r, e) = starts_with_rest p k (ground arith) in (r, ground arith)
