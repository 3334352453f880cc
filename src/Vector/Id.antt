-- ===== src/Vector/Id.antt =====
-- vector/vector.go: the identifiers of vectors, `MakeID` and `ParseID`.
pub mod Parse
use levelgraph.Prelude.{
  ℕ, zero, suc, ◌+◌, ◌*◌, ◌/◌, ◌%◌, ◌^◌, Bool, true, false, ◌&&◌, Option, none, some, List, [], ◌∷◌,
  ◌++◌, if◌then◌else◌, ltb, leb, ◌==◌, length, take, drop,
}
use levelgraph.Prelude.Bytes.{Bytes, codes, bytes_eq}
use levelgraph.Index.Escape.{colon}

-- An `IDType` is a string; these are its constants.
abbrev pub id_type_subject : Bytes
id_type_subject = codes "subject"

abbrev pub id_type_predicate : Bytes
id_type_predicate = codes "predicate"

abbrev pub id_type_object : Bytes
id_type_object = codes "object"

abbrev pub id_type_triple : Bytes
id_type_triple = codes "triple"

abbrev pub id_type_facet : Bytes
id_type_facet = codes "facet"

abbrev pub id_type_custom : Bytes
id_type_custom = codes "custom"

-- `appendVarint` of a length: nine rounds hold the 63 bits of an int, so that the rounds do not end
-- before the loop does.
unfoldable pub append_varint_loop : ℕ → Bytes → ℕ → Bytes
append_varint_loop zero buf n = buf ++ n % 256 ∷ []
append_varint_loop (suc rounds) buf n =
    let more = append_varint_loop rounds (buf ++ (n % 128 + 128) ∷ []) (n / 128) in
    if leb 128 n then more else buf ++ n % 256 ∷ []

unfoldable pub append_varint : Bytes → ℕ → Bytes
append_varint buf n = append_varint_loop 9 buf n

-- The loop of `MakeID` over the parts.
unfoldable pub append_parts : Bytes → List Bytes → Bytes
append_parts result [] = result
append_parts result (p ∷ parts) = append_parts (append_varint result (length p) ++ p) parts

unfoldable pub make_id : Bytes → List Bytes → Bytes
make_id id_type parts = append_parts (id_type ++ colon ∷ []) parts

-- What `readVarint` returns: (0, 0), (0, -1), or a value and how many bytes it took. An int is
-- its 64 bits.
pub data Varint : Type 0 where
  empty malformed : Varint
  value : ℕ → ℕ → Varint

-- At the `i`-th byte; `unit` is 2 ^ shift, and `|` is `+` since the groups do not overlap.
unfoldable pub read_varint_loop : ℕ → ℕ → ℕ → Bytes → Varint
read_varint_loop i result unit [] = malformed
read_varint_loop i result unit (b ∷ data_left) =
    let result' = result + b % 128 * unit % 2 ^ 64 in
    let more = read_varint_loop (suc i) result' (unit * 128) data_left in
    if leb 10 i then malformed else if ltb b 128 then value result' (suc i) else more

unfoldable pub read_varint : Bytes → Varint
read_varint [] = empty
read_varint (b ∷ data_left) = read_varint_loop 0 0 1 (b ∷ data_left)

-- `panic` is that of `make` at a length that is negative or too large, `out_of_fuel` no behaviour
-- of the program.
pub data Parsed : Type 0 where
  parts : List Bytes → Parsed
  refused panic out_of_fuel : Parsed

-- `offset+length > len(data)`, on ints.
abbrev pub exceeds : ℕ → ℕ → ℕ → Bool
exceeds offset len size = let sum = (offset + len) % 2 ^ 64 in ltb sum (2 ^ 63) && ltb size sum

abbrev pub with_part : Bytes → Parsed → Parsed
with_part p (parts ps) = parts (p ∷ ps)
with_part p other = other

-- One round of the loop: `n` bytes of varint before `len` bytes of a part, at `offset`.
unfoldable pub parse_loop : ℕ → Bytes → ℕ → Parsed
parse_loop zero data_all offset = out_of_fuel
parse_loop (suc fuel) data_all offset =
    if ltb offset (length data_all)
    then elim (read_varint (drop offset data_all)) [
      | empty ↦ refused
      | malformed ↦ refused
      | value len n ↦ elim (exceeds (offset + n) len (length data_all)) [
        | true ↦ refused
        | false ↦ elim (leb (offset + n + len) (length data_all)) [
          | false ↦ panic
          | true ↦
              with_part (take len (drop (offset + n) data_all))
                (parse_loop fuel data_all (offset + n + len))
        ]
      ]
    ]
    else parts []

-- Each round takes a byte at least.
unfoldable pub parse_length_prefixed : Bytes → Parsed
parse_length_prefixed data_all = parse_loop (suc (length data_all)) data_all 0

-- `splitN`, with `n - 1` separators left to split at and the part so far.
unfoldable pub split_loop : ℕ → Bytes → Bytes → ℕ → List Bytes
split_loop zero part rest sep = (part ++ rest) ∷ []
split_loop (suc n) part [] sep = part ∷ []
split_loop (suc n) part (b ∷ rest) sep =
    let cut = split_loop n [] rest sep in
    let on = split_loop (suc n) (part ++ b ∷ []) rest sep in if b == sep then part ∷ cut else on

unfoldable pub split_n : Bytes → ℕ → ℕ → List Bytes
split_n data_all sep zero = []
split_n data_all sep (suc n) = split_loop n [] data_all sep

unfoldable pub parse_legacy_format : Bytes → Bytes → List Bytes
parse_legacy_format id_type rest =
    if bytes_eq id_type id_type_triple then split_n rest colon 3 else rest ∷ []

-- The search for the first colon: what stands before it and behind it.
unfoldable pub find_colon : Bytes → Option (Bytes × Bytes)
find_colon [] = none
find_colon (b ∷ id) =
    let rest = find_colon id in
    if b == colon
    then some ([], id)
    else elim rest [ none ↦ none | some (before, behind) ↦ some (b ∷ before, behind) ]

-- `none` is a panic.
abbrev pub parse_rest : Bytes → Bytes → Option (Bytes × List Bytes)
parse_rest id_type [] = some (id_type, [])
parse_rest id_type (b ∷ rest) = elim (parse_length_prefixed (b ∷ rest)) [
  | parts ps ↦ some (id_type, ps)
  | refused ↦ some (id_type, parse_legacy_format id_type (b ∷ rest))
  | panic ↦ none
  | out_of_fuel ↦ none
]

unfoldable pub parse_id : Bytes → Option (Bytes × List Bytes)
parse_id id = elim (find_colon id) [
  | none ↦ some (id_type_custom, id ∷ [])
  | some (id_type, rest) ↦ parse_rest id_type rest
]
