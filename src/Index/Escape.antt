-- ===== src/Index/Escape.antt =====
-- pkg/index/index.go, `Escape` and `Unescape`: key components, with `\` and `:` marked by a `\`.
use levelgraph.Prelude.{
  ℕ, ◌+◌, ◌≡◌, refl, true, sym, ap, Bool, false, ◌&&◌, ◌||◌, none, some, [], ◌∷◌, ◌++◌, arith, ◌==◌,
  if◌then◌else◌, ◌∙◌,
}
use levelgraph.Prelude.Bytes.{Bytes, Slice}

abbrev pub backslash : ℕ
backslash = 92

abbrev pub colon : ℕ
colon = 58

-- `KeySeparator`
abbrev pub key_separator : Bytes
key_separator = colon ∷ colon ∷ []

abbrev pub is_special : ℕ → Bool
is_special b = b == backslash || b == colon

-- The first loop of `Escape`, which counts.
unfoldable pub escape_count : Bytes → ℕ
escape_count [] = 0
escape_count (b ∷ rest) = (if is_special b then 1 else 0) + escape_count rest

-- The second, which copies.
unfoldable pub escape_loop : Bytes → Bytes
escape_loop [] = []
escape_loop (b ∷ rest) =
    let done = escape_loop rest in if is_special b then backslash ∷ b ∷ done else b ∷ done

unfoldable pub escape : Slice → Slice
escape none = none
escape (some value) = if escape_count value == 0 then some value else some (escape_loop value)

-- A `\` before the last byte.
unfoldable pub has_escapes : Bytes → Bool
has_escapes [] = false
has_escapes (b ∷ []) = false
has_escapes (b ∷ c ∷ rest) = (b == backslash) || has_escapes (c ∷ rest)

unfoldable pub unescape_loop : Bytes → Bytes
unescape_loop [] = []
unescape_loop (b ∷ []) = b ∷ []
unescape_loop (b ∷ c ∷ rest) =
    let pair = c ∷ unescape_loop rest in
    let one = b ∷ unescape_loop (c ∷ rest) in if b == backslash && is_special c then pair else one

unfoldable pub unescape : Slice → Slice
unescape none = none
unescape (some value) = if has_escapes value then some (unescape_loop value) else some value

escape_loop_plain : (v : Bytes) → escape_count v ≡ 0 → escape_loop v ≡ v
unfolding escape_count escape_loop
escape_loop_plain [] h = refl
escape_loop_plain (b ∷ v) h = ground (arith, escape_loop_plain v)

-- The short way out of `Escape` changes nothing.
pub escape_lem : (v : Bytes) → escape (some v) ≡ some (escape_loop v)
unfolding escape
escape_lem v = ground (arith, escape_loop_plain v)

unescape_loop_plain : (v : Bytes) → has_escapes v ≡ false → unescape_loop v ≡ v
unfolding has_escapes unescape_loop
unescape_loop_plain [] h = refl
unescape_loop_plain (b ∷ []) h = refl
unescape_loop_plain (b ∷ c ∷ v) h = ground (arith, unescape_loop_plain (c ∷ v))

-- The short way out of `Unescape` changes nothing.
pub unescape_lem : (v : Bytes) → unescape (some v) ≡ some (unescape_loop v)
unfolding unescape
unescape_lem v = ground (arith, unescape_loop_plain v)

unescape_loop_step :
    (b : ℕ) (v : Bytes) → (b == backslash) ≡ false → unescape_loop (b ∷ v) ≡ b ∷ unescape_loop v
unfolding unescape_loop
unescape_loop_step b [] h = refl
unescape_loop_step b (c ∷ v) h = ground arith

unescape_loop_pair :
    (b : ℕ) (v : Bytes)
    → is_special b ≡ true
    → unescape_loop (backslash ∷ b ∷ v) ≡ b ∷ unescape_loop v
unfolding unescape_loop
unescape_loop_pair b v h = ground arith

pub unescape_loop-escape_loop : (v : Bytes) → unescape_loop (escape_loop v) ≡ v
unfolding escape_loop
unescape_loop-escape_loop [] = unescape_loop_plain [] (unfold has_escapes in refl)
unescape_loop-escape_loop (b ∷ v) = ground (
  arith,
  unescape_loop_pair b (escape_loop v),
  unescape_loop_step b (escape_loop v),
  unescape_loop-escape_loop v,
)

-- `Unescape` undoes `Escape` on every slice, nil and empty ones included.
pub unescape-escape : (v : Slice) → unescape (escape v) ≡ v
unescape-escape none = unfold escape unescape in refl
unescape-escape (some v) =
    rw (escape_lem v) (rw (unescape_lem (escape_loop v)) (ap some (unescape_loop-escape_loop v)))

-- An escaped component ends at the first separator behind it: both it and what follows the
-- separator can be read off the key.
pub escape_split :
    (a b r s : Bytes)
    → escape_loop a ++ (key_separator ++ r) ≡ escape_loop b ++ (key_separator ++ s)
    → (a ≡ b) × (r ≡ s)
unfolding escape_loop
escape_split [] [] r s h = ground arith
escape_split [] (y ∷ b) r s h = ground arith
escape_split (x ∷ a) [] r s h = ground arith
escape_split (x ∷ a) (y ∷ b) r s h = ground (arith, escape_split a b r s)

-- Two whole components.
pub escape_loop_injective : (a b : Bytes) → escape_loop a ≡ escape_loop b → a ≡ b
escape_loop_injective a b h =
    sym (unescape_loop-escape_loop a) ∙ ap unescape_loop h ∙ unescape_loop-escape_loop b
