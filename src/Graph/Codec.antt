-- ===== src/Graph/Codec.antt =====
-- pkg/graph/triple.go, `MarshalBinary` and `UnmarshalBinary`: three slices, each behind its length.
use levelgraph.Prelude.{
  ℕ, ◌^◌, ◌<◌, ◌≡◌, some, ◌++◌, arith, ltb, ◌==◌, if◌then◌else◌, length, take, drop, length-append,
  take-append, drop-append, append_assoc,
}
use levelgraph.Prelude.Bytes.{Bytes, slice_bytes}
use levelgraph.Graph.Varint.{
  Read, ok, err, eof, unexpected_eof, make_panic, ◌>>=◌, put_uvarint, read_uvarint,
  read_uvarint-put,
}
use levelgraph.Graph.Triple.{Triple}

-- The closure `writeSlice`.
unfoldable pub write_slice : Bytes → Bytes
write_slice b = put_uvarint (length b) ++ b

unfoldable pub marshal : Triple → Bytes
marshal t =
    write_slice (slice_bytes t.subject)
    ++ (write_slice (slice_bytes t.predicate) ++ write_slice (slice_bytes t.object))

-- `io.ReadFull` into `n` bytes: nothing read is `EOF`, too little `ErrUnexpectedEOF`.
unfoldable pub read_full : ℕ → Bytes → Read (Bytes × Bytes)
read_full n src =
    if ltb (length src) n
    then err (if length src == 0 then eof else unexpected_eof)
    else ok (take n src, drop n src)

-- The closure `readSlice`; `make` panics at a length that is no `int`.
unfoldable pub read_slice : Bytes → Read (Bytes × Bytes)
read_slice src = do
  (n, rest) ← read_uvarint src
  if ltb n (2 ^ 63) then read_full n rest else err make_panic

-- What follows the third slice is ignored.
unfoldable pub unmarshal : Bytes → Read Triple
unmarshal src = do
  (s, src1) ← read_slice src
  (p, src2) ← read_slice src1
  (o, src3) ← read_slice src2
  ok (record { subject = some s; predicate = some p; object = some o })

read_full-append : (b rest : Bytes) → read_full (length b) (b ++ rest) ≡ ok (b, rest)
unfolding read_full
read_full-append b rest =
    ground (arith, length-append b rest, take-append b rest, drop-append b rest)

pub read_slice-write :
    (b rest : Bytes) → length b < 2 ^ 63 → read_slice (write_slice b ++ rest) ≡ ok (b, rest)
unfolding read_slice write_slice
read_slice-write b rest h = rw append_assoc (
    rw (read_uvarint-put (length b) (b ++ rest) (omega arith))
      (ground (arith, read_full-append b rest)))

-- The slices of a triple that `MarshalBinary` can be read back from: none is as long as an `int`.
pub record IsShort (t : Triple) : Type 0 where
  pub subject : length (slice_bytes t.subject) < 2 ^ 63
  pub predicate : length (slice_bytes t.predicate) < 2 ^ 63
  pub object : length (slice_bytes t.object) < 2 ^ 63

-- The triple with its nil slices made empty, which is what reading returns.
abbrev pub made : Triple → Triple
made t = record {
  subject = some (slice_bytes t.subject);
  predicate = some (slice_bytes t.predicate);
  object = some (slice_bytes t.object);
}

-- Whatever follows the binary form, reading returns the triple, with its nil slices made empty.
pub unmarshal-marshal :
    (t : Triple) (rest : Bytes) → IsShort t → unmarshal (marshal t ++ rest) ≡ ok (made t)
unfolding unmarshal marshal
unmarshal-marshal t rest h =
    let s = slice_bytes t.subject in
    let p = slice_bytes t.predicate in
    let o = slice_bytes t.object in
    simp append_assoc (
      rw (read_slice-write s (write_slice p ++ (write_slice o ++ rest)) h.subject) (
        rw (read_slice-write p (write_slice o ++ rest) h.predicate)
          (rw (read_slice-write o rest h.object))))
