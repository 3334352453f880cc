-- ===== src/Index/Range.antt =====
-- Ranges of keys `[start, limit)`, as the store's iterators take them.
use levelgraph.Prelude.{◌<◌, ◌≡◌, refl, Bool, true, false, not, ◌&&◌, [], ◌∷◌, ◌++◌, arith, All}
use levelgraph.Prelude.Bytes.{Bytes, bytes_lt, bytes_lt-append}
use levelgraph.Index.Key.{upper_bound}

abbrev pub in_range : Bytes → Bytes → Bytes → Bool
in_range start limit k = not (bytes_lt k start) && bytes_lt k limit

not-lt-prefix : (p r : Bytes) → bytes_lt (p ++ r) p ≡ false
unfolding bytes_lt
not-lt-prefix [] r = refl
not-lt-prefix (x ∷ p) r = ground (arith, not-lt-prefix p r)

-- A key that begins with the start is in range as far as its rest is below the limit's rest.
pub in_range-append : (start u r : Bytes) → in_range start (start ++ u) (start ++ r) ≡ bytes_lt r u
in_range-append start u r = rw (not-lt-prefix start r) (bytes_lt-append start r u)

-- A key in the range of a start and an extension of it begins with the start.
pub in_range_prefix :
    (start u k : Bytes) → in_range start (start ++ u) k ≡ true → (r : Bytes) × (k ≡ start ++ r)
unfolding bytes_lt
in_range_prefix [] u k h = (k, refl)
in_range_prefix (x ∷ start) u [] h = cc
in_range_prefix (x ∷ start) u (y ∷ k) h =
    let (r, e) = in_range_prefix start u k (ground arith) in (r, ground arith)

-- No byte is 0xFF, as in every UTF-8 text.
abbrev pub IsClean : Bytes → Type 0
IsClean = All (λ b. b < 255)

pub lt-upper_bound : (r : Bytes) → IsClean r → bytes_lt r upper_bound ≡ true
unfolding bytes_lt
lt-upper_bound [] h = refl
lt-upper_bound (b ∷ r) h = ground arith

pub lt-ff : (r : Bytes) → IsClean r → bytes_lt r (255 ∷ []) ≡ true
unfolding bytes_lt
lt-ff [] h = refl
lt-ff (b ∷ r) h = ground arith
