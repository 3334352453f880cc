-- ===== src/Vector/Bits.antt =====
-- vector/vector.go, `VectorToBytes` and `BytesToVector`. A float32 is its 32 bits here, as
-- `math.Float32bits` gives them, and `math.Float32frombits` takes them back.
use levelgraph.Prelude.{
  ℕ, ◌+◌, ◌*◌, ◌/◌, ◌%◌, ◌^◌, ◌<◌, ◌≡◌, refl, ap, Option, none, some, List, [], ◌∷◌, arith, All,
}
use levelgraph.Prelude.Bytes.{Bytes}

-- `binary.LittleEndian.PutUint32`
abbrev pub put_uint32 : ℕ → Bytes → Bytes
put_uint32 n rest = n % 256 ∷ n / 2 ^ 8 % 256 ∷ n / 2 ^ 16 % 256 ∷ n / 2 ^ 24 % 256 ∷ rest

abbrev pub get_uint32 : ℕ → ℕ → ℕ → ℕ → ℕ
get_uint32 a b c d = a + b * 2 ^ 8 + c * 2 ^ 16 + d * 2 ^ 24

unfoldable pub vector_to_bytes : List ℕ → Bytes
vector_to_bytes [] = []
vector_to_bytes (x ∷ v) = put_uint32 x (vector_to_bytes v)

-- `none` is nil, for a length that is no multiple of four.
unfoldable pub bytes_to_vector : Bytes → Option (List ℕ)
bytes_to_vector [] = some []
bytes_to_vector (a ∷ b ∷ c ∷ d ∷ rest) = elim (bytes_to_vector rest) [
  | none ↦ none
  | some v ↦ some (get_uint32 a b c d ∷ v)
]
bytes_to_vector _ = none

abbrev pub AreBits : List ℕ → Type 0
AreBits = All λ x. x < 2 ^ 32

-- A vector of float32 is read back from its bytes.
pub bytes_to_vector-vector_to_bytes :
    (v : List ℕ) → AreBits v → bytes_to_vector (vector_to_bytes v) ≡ some v
unfolding bytes_to_vector vector_to_bytes
bytes_to_vector-vector_to_bytes [] h = refl
bytes_to_vector-vector_to_bytes (x ∷ v) (h, hs) =
    let word : get_uint32 (x % 256) (x / 2 ^ 8 % 256) (x / 2 ^ 16 % 256) (x / 2 ^ 24 % 256) ≡ x =
      omega arith in
    rw (bytes_to_vector-vector_to_bytes v hs) (ap (λ w. some (w ∷ v)) word)
