-- ===== src/Vector/Id/Parse.antt =====
-- vector/vector.go: `ParseID` reads back what `MakeID` writes.
use levelgraph.Prelude.{
  ℕ, zero, suc, ◌+◌, ◌*◌, ◌/◌, ◌%◌, ◌^◌, ◌≤◌, ◌<◌, ◌≡◌, refl, sym, ap, ◌∙◌, true, false, some, List,
  [], ◌∷◌, ◌++◌, arith, ltb, leb, ◌==◌, length, take, drop, length-append, take-append, drop-append,
  append_assoc, append-nil, All, Bool-cases, inl, inr,
}
use levelgraph.Prelude.Bytes.{Bytes}
use levelgraph.Graph.Varint.{shift_group, put_uvarint_loop}
use levelgraph.Index.Escape.{colon}
use levelgraph.Vector.Id.{
  append_varint_loop, append_varint, append_parts, make_id, value, read_varint_loop, read_varint,
  parts, exceeds, parse_loop, parse_length_prefixed, find_colon, parse_rest, parse_id,
}

-- The two encoders of varints are the same, on ints.
append_varint_loop-put :
    (n x : ℕ) (buf : Bytes)
    → x < 128 ^ n * 128
    → append_varint_loop n buf x ≡ buf ++ put_uvarint_loop n x
unfolding append_varint_loop put_uvarint_loop
append_varint_loop-put zero x buf h = let small : x % 256 ≡ x = omega arith in rw small refl
append_varint_loop-put (suc n) x buf h = elim (Bool-cases (leb 128 x)) [
  | inl e ↦
      let f : ltb x 128 ≡ false = ground arith in
      let room : x / 128 < 128 ^ n * 128 = omega arith in
      rw (e, f)
        (append_varint_loop-put n (x / 128) (buf ++ (x % 128 + 128) ∷ []) room
          ∙ append_assoc buf ((x % 128 + 128) ∷ []) (put_uvarint_loop n (x / 128)))
  | inr e ↦
      let f : ltb x 128 ≡ true = ground arith in
      let small : x % 256 ≡ x = ground arith in rw (e, f, small) refl
]

-- An int is read back, with the number of bytes read.
read_varint_loop-put :
    (n i x acc unit : ℕ) (rest : Bytes)
    → n + i ≤ 9
    → x < 128 ^ n * 128
    → acc + x * unit < 2 ^ 64
    → read_varint_loop i acc unit (put_uvarint_loop n x ++ rest)
      ≡ value (acc + x * unit) (i + length (put_uvarint_loop n x))
unfolding put_uvarint_loop read_varint_loop
read_varint_loop-put zero i x acc unit rest le h small = ground arith
read_varint_loop-put (suc n) i x acc unit rest le h small = elim (Bool-cases (ltb x 128)) [
  | inl e ↦ ground arith
  | inr e ↦
      let acc' = acc + (x % 128 + 128) % 128 * unit in
      let same = shift_group x acc unit in
      let few : (x % 128 + 128) % 128 * unit % 2 ^ 64 ≡ (x % 128 + 128) % 128 * unit =
        omega arith in
      let rec =
        read_varint_loop-put n (suc i) (x / 128) acc' (unit * 128) rest (omega arith) (omega arith)
          (omega arith) in
      ground arith
]

put_uvarint_nonempty : (n x : ℕ) → 0 < length (put_uvarint_loop n x)
unfolding put_uvarint_loop
put_uvarint_nonempty zero x = omega arith
put_uvarint_nonempty (suc n) x = ground arith

read_varint_nonempty : (l : Bytes) → 0 < length l → read_varint l ≡ read_varint_loop 0 0 1 l
unfolding read_varint
read_varint_nonempty [] h = absurd (omega arith)
read_varint_nonempty (b ∷ l) h = refl

-- What `MakeID` writes behind the type.
encode : List Bytes → Bytes
encode [] = []
encode (p ∷ ps) = put_uvarint_loop 9 (length p) ++ (p ++ encode ps)

-- No part is as long as an int.
abbrev pub AllShort : List Bytes → Type 0
AllShort = All λ p. length p < 2 ^ 63

append_parts-encode :
    (result : Bytes) (ps : List Bytes) → AllShort ps → append_parts result ps ≡ result ++ encode ps
unfolding append_parts encode append_varint
append_parts-encode result [] h = sym (append-nil result)
append_parts-encode result (p ∷ ps) (h, hs) =
    ap (λ l. append_parts (l ++ p) ps) (append_varint_loop-put 9 (length p) result (omega arith))
    ∙ append_parts-encode ((result ++ put_uvarint_loop 9 (length p)) ++ p) ps hs
    ∙ simp append_assoc

read_varint-put :
    (x : ℕ) (rest : Bytes)
    → x < 2 ^ 63
    → read_varint (put_uvarint_loop 9 x ++ rest) ≡ value x (length (put_uvarint_loop 9 x))
read_varint-put x rest h =
    let long = put_uvarint_nonempty 9 x in
    let all = length-append (put_uvarint_loop 9 x) rest in
    let e = read_varint_loop-put 9 0 x 0 1 rest (omega arith) (omega arith) (omega arith) in
    read_varint_nonempty (put_uvarint_loop 9 x ++ rest) (omega arith) ∙ e ∙ ground arith

exceeds-inside :
    (offset len size : ℕ) → offset + len ≤ size → size < 2 ^ 63 → exceeds offset len size ≡ false
exceeds-inside offset len size h k = ground arith

-- What has been read makes no difference.
parse_loop-encode :
    (fuel : ℕ) (done : Bytes) (ps : List Bytes)
    → length (encode ps) < fuel
    → length (done ++ encode ps) < 2 ^ 63
    → parse_loop fuel (done ++ encode ps) (length done) ≡ parts ps
unfolding parse_loop encode
parse_loop-encode zero done ps h small = absurd (omega arith)
parse_loop-encode (suc fuel) done [] h small =
    let e : ltb (length done) (length (done ++ [])) ≡ false =
      ground (arith, length-append done []) in
    rw e refl
parse_loop-encode (suc fuel) done (p ∷ ps) h small =
    let head = put_uvarint_loop 9 (length p) in
    let tail = p ++ encode ps in
    let whole = done ++ (head ++ tail) in
    let n0 = put_uvarint_nonempty 9 (length p) in
    let n1 = length-append done (head ++ tail) in
    let n2 = length-append head tail in
    let n3 = length-append p (encode ps) in
    let more : ltb (length done) (length whole) ≡ true = ground arith in
    let read : read_varint (drop (length done) whole) ≡ value (length p) (length head) =
      ap read_varint (drop-append done (head ++ tail))
      ∙ read_varint-put (length p) tail (omega arith) in
    let fits : exceeds (length done + length head) (length p) (length whole) ≡ false =
      exceeds-inside (length done + length head) (length p) (length whole) (omega arith) small in
    let inside : leb (length done + length head + length p) (length whole) ≡ true = ground arith in
    let regroup : whole ≡ (done ++ head) ++ tail = sym (append_assoc done head tail) in
    let at : length (done ++ head) ≡ length done + length head = length-append done head in
    let part : take (length p) (drop (length done + length head) whole) ≡ p =
      rw (regroup, ← at, drop-append (done ++ head) tail, take-append p (encode ps)) refl in
    let done' = (done ++ head) ++ p in
    let same : whole ≡ done' ++ encode ps = simp append_assoc in
    let at' : length done' ≡ length done + length head + length p =
      length-append (done ++ head) p ∙ ap (λ k. k + length p) at in
    let rec : parse_loop fuel whole (length done + length head + length p) ≡ parts ps =
      rw (← at', same) (parse_loop-encode fuel done' ps (omega arith) (rw (sym same) small)) in
    rw (more, read, fits, inside, part, rec) refl

-- A type in which there is no colon: so are all six constants.
abbrev pub HasNoColon : Bytes → Type 0
HasNoColon = All λ b. (b == colon) ≡ false

pub find_colon-append :
    (id_type rest : Bytes)
    → HasNoColon id_type
    → find_colon (id_type ++ colon ∷ rest) ≡ some (id_type, rest)
unfolding find_colon
find_colon-append [] rest h = refl
find_colon-append (b ∷ id_type) rest (h, hs) = rw (h, find_colon-append id_type rest hs) refl

parse_rest-parts :
    (id_type l : Bytes) (ps : List Bytes)
    → 0 < length l
    → parse_length_prefixed l ≡ parts ps
    → parse_rest id_type l ≡ some (id_type, ps)
parse_rest-parts id_type [] ps h e = absurd (omega arith)
parse_rest-parts id_type (b ∷ l) ps h e = rw (e, parse_rest) refl

-- `ParseID` reads back the type and the parts that `MakeID` put together, whatever bytes the parts
-- hold, when the type has no colon and the identifier is not as long as an int.
pub parse_id-make_id :
    (id_type : Bytes) (ps : List Bytes)
    → HasNoColon id_type
    → AllShort ps
    → length (make_id id_type ps) < 2 ^ 63
    → parse_id (make_id id_type ps) ≡ some (id_type, ps)
unfolding make_id parse_id parse_length_prefixed encode
parse_id-make_id id_type ps h short small =
    let e : append_parts (id_type ++ colon ∷ []) ps ≡ id_type ++ colon ∷ encode ps =
      append_parts-encode (id_type ++ colon ∷ []) ps short
      ∙ append_assoc id_type (colon ∷ []) (encode ps) in
    let n = length-append id_type (colon ∷ encode ps) in
    let bound : length (id_type ++ colon ∷ encode ps) < 2 ^ 63 = rw (← e) small in
    rw (e, find_colon-append id_type (encode ps) h, parse_id) (go ps refl (omega arith))
  where
    go :
        (qs : List Bytes)
        → ps ≡ qs
        → length (encode qs) < 2 ^ 63
        → parse_rest id_type (encode qs) ≡ some (id_type, qs)
    go [] q k = refl
    go (p ∷ qs) q k =
        let long = put_uvarint_nonempty 9 (length p) in
        let all = length-append (put_uvarint_loop 9 (length p)) (p ++ encode qs) in
        parse_rest-parts id_type (encode (p ∷ qs)) (p ∷ qs) (omega arith)
          (parse_loop-encode (suc (length (encode (p ∷ qs)))) [] (p ∷ qs) (omega arith) k)
