-- ===== src/Graph/Varint.antt =====
-- encoding/binary's unsigned varints, as pkg/graph/triple.go uses them for lengths.
use levelgraph.Prelude.{
  ℕ, zero, suc, ◌+◌, ◌*◌, ◌/◌, ◌%◌, ◌^◌, ◌≤◌, ◌<◌, ◌≡◌, ap, [], ◌∷◌, ◌++◌, arith, ltb, ◌==◌, ◌&&◌,
  if◌then◌else◌, length,
}
use levelgraph.Prelude.Bytes.{Bytes}
use native.Mathlib.Nat.{div-add-mod}

-- The errors of reading: of the io package, of the varint reader, and the panic of `make` at a
-- length that is no `int`.
pub data ReadError : Type 0 where
  eof unexpected_eof varint_overflow make_panic : ReadError

pub data Read {ℓ} (A : Type ℓ) : Type ℓ where
  ok : A → Read A
  err : ReadError → Read A

infixl 5 ◌>>=◌
abbrev pub ◌>>=◌ {ℓ κ} : {A : Type ℓ} {B : Type κ} → Read A → (A → Read B) → Read B
ok a >>= f = f a
err e >>= f = err e

-- `PutUvarint`: ten rounds hold 64 bits, so the number of rounds left never stops a uint64.
unfoldable pub put_uvarint_loop : ℕ → ℕ → Bytes
put_uvarint_loop zero x = x ∷ []
put_uvarint_loop (suc rounds) x =
    let rest = put_uvarint_loop rounds (x / 128) in
    if ltb x 128 then x ∷ [] else (x % 128 + 128) ∷ rest

unfoldable pub put_uvarint : ℕ → Bytes
put_uvarint x = put_uvarint_loop 9 x

-- `ReadUvarint` at its `i`-th byte; `unit` is 2 ^ s, and `x` what is read so far. The groups do not
-- overlap, so `|` is `+`.
unfoldable pub read_uvarint_loop : ℕ → ℕ → ℕ → ℕ → Bytes → Read (ℕ × Bytes)
read_uvarint_loop zero i x unit src = err varint_overflow
read_uvarint_loop (suc rounds) i x unit [] = err (if i == 0 then eof else unexpected_eof)
read_uvarint_loop (suc rounds) i x unit (b ∷ src) =
    let rest = read_uvarint_loop rounds (suc i) (x + b % 128 * unit) (unit * 128) src in
    if ltb b 128
    then if i == 9 && ltb 1 b then err varint_overflow else ok (x + b * unit, src)
    else rest

unfoldable pub read_uvarint : Bytes → Read (ℕ × Bytes)
read_uvarint src = read_uvarint_loop 10 0 0 1 src

pub length-put_uvarint_loop : (n x : ℕ) → length (put_uvarint_loop n x) ≤ n + 1
unfolding put_uvarint_loop
length-put_uvarint_loop zero x = omega arith
length-put_uvarint_loop (suc n) x = ground (arith, length-put_uvarint_loop n (x / 128))

-- 2 * 128 ^ n: the numbers of which the last group is at most 1 when it is the tenth.
abbrev room : ℕ → ℕ
room zero = 2
room (suc n) = 128 * room n

pub shift_group :
    (x acc unit : ℕ) → acc + (x % 128 + 128) % 128 * unit + x / 128 * (unit * 128) ≡ acc + x * unit
shift_group x acc unit =
    let low : (x % 128 + 128) % 128 ≡ x % 128 = omega arith in
    rw low (omega (arith, ap (λ (t : ℕ). t * unit) (div-add-mod x 128)))

read_uvarint_loop-put :
    (n i x acc unit : ℕ) (rest : Bytes)
    → n + i ≡ 9
    → x < room n
    → read_uvarint_loop (suc n) i acc unit (put_uvarint_loop n x ++ rest)
      ≡ ok (acc + x * unit, rest)
unfolding put_uvarint_loop read_uvarint_loop
read_uvarint_loop-put zero i x acc unit rest e h = ground arith
read_uvarint_loop-put (suc n) i x acc unit rest e h = ground (
  arith,
  shift_group x acc unit,
  read_uvarint_loop-put n (suc i) (x / 128) (acc + (x % 128 + 128) % 128 * unit) (unit * 128) rest,
)

-- A uint64 is read back, and the bytes behind it are left.
pub read_uvarint-put :
    (x : ℕ) (rest : Bytes) → x < 2 ^ 64 → read_uvarint (put_uvarint x ++ rest) ≡ ok (x, rest)
unfolding read_uvarint put_uvarint
read_uvarint-put x rest h = ground (arith, read_uvarint_loop-put 9 0 x 0 1 rest)

-- Reading takes at least one byte.
read_uvarint_loop_takes :
    (n i x unit : ℕ) (src : Bytes) (v : ℕ) (rest : Bytes)
    → read_uvarint_loop n i x unit src ≡ ok (v, rest)
    → length rest < length src
unfolding read_uvarint_loop
read_uvarint_loop_takes zero i x unit src v rest h = cc
read_uvarint_loop_takes (suc n) i x unit [] v rest h = cc
read_uvarint_loop_takes (suc n) i x unit (b ∷ src) v rest h =
    ground (arith, read_uvarint_loop_takes n (suc i) (x + b % 128 * unit) (unit * 128) src v rest)

pub read_uvarint_takes :
    (src : Bytes) (v : ℕ) (rest : Bytes)
    → read_uvarint src ≡ ok (v, rest)
    → length rest < length src
unfolding read_uvarint
read_uvarint_takes src v rest h = read_uvarint_loop_takes 10 0 0 1 src v rest h
