-- ===== src/Journal/Entry.antt =====
-- journal.go, `JournalEntry`, `genJournalKey`, `MarshalBinary` and `UnmarshalBinary`. A time is its
-- `UnixNano`, as the uint64 that is written.
use levelgraph.Prelude.{
  ℕ, ◌+◌, ◌*◌, ◌/◌, ◌%◌, ◌^◌, ◌<◌, ◌≡◌, refl, Bool, true, false, [], ◌∷◌, ◌++◌, arith, ◌==◌,
  if◌then◌else◌, append-nil,
}
use levelgraph.Prelude.Bytes.{Bytes, codes, bytes_eq}
use levelgraph.Graph.Varint.{Read, ok, err, eof, ◌>>=◌}
use levelgraph.Graph.Triple.{Triple}
use levelgraph.Graph.Codec.{marshal, unmarshal, read_full, made, IsShort, unmarshal-marshal}

abbrev pub journal_prefix : Bytes
journal_prefix = codes "journal::"

-- `binary.BigEndian.PutUint64`
unfoldable pub put_uint64 : ℕ → Bytes
put_uint64 n =
    n / 2 ^ 56 % 256
    ∷ n / 2 ^ 48 % 256
    ∷ n / 2 ^ 40 % 256
    ∷ n / 2 ^ 32 % 256
    ∷ n / 2 ^ 24 % 256
    ∷ n / 2 ^ 16 % 256
    ∷ n / 2 ^ 8 % 256
    ∷ n % 256
    ∷ []

unfoldable pub get_uint64 : ℕ → Bytes → ℕ
get_uint64 acc [] = acc
get_uint64 acc (b ∷ bytes) = get_uint64 (acc * 256 + b) bytes

pub record JournalEntry : Type 0 where
  pub operation : Bytes
  pub entry_triple : Triple
  pub timestamp : ℕ

unfoldable pub marshal_entry : JournalEntry → Bytes
marshal_entry e =
    (if bytes_eq e.operation (codes "put") then 1 else 0)
    ∷ (put_uint64 e.timestamp ++ marshal e.entry_triple)

unfoldable pub unmarshal_entry : Bytes → Read JournalEntry
unmarshal_entry [] = err eof
unmarshal_entry (op ∷ src) = do
  (ts, rest) ← read_full 8 src
  t ← unmarshal rest
  ok (record {
    operation = if op == 1 then codes "put" else codes "del";
    entry_triple = t;
    timestamp = get_uint64 0 ts;
  })

-- `genJournalKey` at the value of the counter after the call's increment.
unfoldable pub gen_journal_key : ℕ → ℕ → Bytes
gen_journal_key nsec counter = journal_prefix ++ (put_uint64 nsec ++ put_uint64 counter)

pub get_uint64-put : (n : ℕ) → n < 2 ^ 64 → get_uint64 0 (put_uint64 n) ≡ n
unfolding get_uint64 put_uint64
get_uint64-put n h = omega arith

-- What is read back of an entry: every operation but "put" comes back as "del", nil slices empty.
abbrev pub read_back : JournalEntry → JournalEntry
read_back e = record {
  operation = if bytes_eq e.operation (codes "put") then codes "put" else codes "del";
  entry_triple = made e.entry_triple;
  timestamp = e.timestamp;
}

read_full-eight :
    (n : ℕ) (rest : Bytes) → read_full 8 (put_uint64 n ++ rest) ≡ ok (put_uint64 n, rest)
unfolding read_full put_uint64
read_full-eight n rest = ground arith

op_byte :
    (b : Bool)
    → (if (if b then 1 else 0) == 1 then codes "put" else codes "del")
      ≡ (if b then codes "put" else codes "del")
op_byte true = refl
op_byte false = refl

-- Reading the binary form of an entry, whose time is a uint64 and whose slices have lengths that
-- are an int, returns it with its nil slices made empty, and with "del" for every operation but
-- "put".
pub unmarshal_entry-marshal :
    (e : JournalEntry)
    → e.timestamp < 2 ^ 64
    → IsShort e.entry_triple
    → unmarshal_entry (marshal_entry e) ≡ ok (read_back e)
unfolding unmarshal_entry marshal_entry
unmarshal_entry-marshal e h short = rw (read_full-eight e.timestamp (marshal e.entry_triple)) (
    rw (rw append-nil at (unmarshal-marshal e.entry_triple [] short))
      (rw (get_uint64-put e.timestamp h) (rw op_byte)))
