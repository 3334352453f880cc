-- ===== src/Db/Read.antt =====
-- levelgraph.go, `Get`, `getUnlocked` and `TripleIterator`. An iterator of the store is what it has
-- still to visit, in the order of the visit: from `First` by `Next`, or from `Last` by `Prev`.
use levelgraph.Prelude.{
  ℕ, zero, suc, Bool, true, false, ◌&&◌, Option, none, some, List, [], ◌∷◌, if◌then◌else◌, ltb, leb,
  ◌==◌, length,
}
use levelgraph.Prelude.Int.{ℤ, pos_part}
use levelgraph.Prelude.Bytes.{Bytes}
use mathlib.Core.List.{reverse}
use levelgraph.Graph.Triple.{Triple}
use levelgraph.Graph.Varint.{Read, ReadError, make_panic}
use levelgraph.Graph.Codec.{unmarshal}
use levelgraph.Graph.Pattern.{Pattern}
use levelgraph.Store.{KvStore}
use levelgraph.Index.Key.{gen_key_from_pattern, gen_key_with_upper_bound}
use levelgraph.Index.Query.{query_index}
use levelgraph.Db.State.{
  Db, Result, ok, err, ◌>>=◌, err_closed, cancelled, store_error, parse_error,
}

abbrev pub Items : Type 0
Items = List (Bytes × Bytes)

-- `pending` is what the store's iterator visits next, `here` the value that it stands at.
pub record TripleIterator : Type 0 where
  pub pending : Items
  pub filter : Option (Triple → Bool)
  pub offset : ℤ
  pub limit : ℤ
  pub count : ℕ
  pub skipped : ℕ
  pub here : Bytes

-- The pattern's filter, where there is one: a value that does not parse is passed over.
abbrev accepted : (Triple → Bool) → Read Triple → Bool
accepted f (Read.ok t) = f t
accepted f (Read.err e) = false

unfoldable pub passes : Option (Triple → Bool) → Bytes → Bool
passes none value = true
passes (some f) value = accepted f (unmarshal value)

abbrev is_panic : ReadError → Bool
is_panic make_panic = true
is_panic _ = false

abbrev parse_panics : Read Triple → Bool
parse_panics (Read.ok t) = false
parse_panics (Read.err e) = is_panic e

-- Parsing the value for the filter panics in `make`.
unfoldable pub panics : Option (Triple → Bool) → Bytes → Bool
panics none value = false
panics (some f) value = parse_panics (unmarshal value)

-- The loop of `Next`. A panic leaves it at the value where it was, and is then what parsing this
-- value comes to, the error `make_panic`. Where the loop stops: the value, what is left, and how
-- many the offset has skipped.
unfoldable pub next_loop : Option (Triple → Bool) → ℕ → ℕ → Items → Option (Bytes × Items × ℕ)
next_loop f offset skipped [] = none
next_loop f offset skipped ((k, value) ∷ items) =
    let again = next_loop f offset skipped items in
    let skip = next_loop f offset (suc skipped) items in
    if panics f value
    then some (value, items, skipped)
    else if passes f value
    then if ltb skipped offset then skip else some (value, items, skipped)
    else again

unfoldable pub next : TripleIterator → Option TripleIterator
next ti =
    if ltb 0 (pos_part ti.limit) && leb (pos_part ti.limit) ti.count
    then none
    else elim (next_loop ti.filter (pos_part ti.offset) ti.skipped ti.pending) [
      | none ↦ none
      | some (value, items, skipped) ↦
          some
            (record ti { pending = items; count = suc ti.count; skipped = skipped; here = value })
    ]

-- `Triple`, at the value where `Next` stopped.
unfoldable pub current_triple : TripleIterator → Result Triple
current_triple ti = elim (unmarshal ti.here) [ Read.ok t ↦ ok t | Read.err e ↦ err (parse_error e) ]

-- The loop of `getUnlocked`. Each round takes an item at least, so the fuel that `get_unlocked`
-- gives is enough; `none` is no answer of the program, it is the fuel's end.
unfoldable pub get_loop : ℕ → TripleIterator → Option (Result (List Triple))
get_loop zero ti = none
get_loop (suc fuel) ti = elim (next ti) [
  | none ↦ some (ok [])
  | some ti' ↦ elim (current_triple ti') [
    | err e ↦ some (err e)
    | ok t ↦ elim (get_loop fuel ti') [ none ↦ none | some r ↦ some (do ts ← r; ok (t ∷ ts)) ]
  ]
]

abbrev pub effective_limit : ℤ → ℤ → ℤ
effective_limit limit default =
    if pos_part limit == 0 && ltb 0 (pos_part default) then default else limit

module _ (S : KvStore) where
  -- `getIteratorUnlocked`; an iterator that carries an error visits nothing and reports it at the
  -- end.
  unfoldable pub get_iterator_unlocked : Db S.State → Pattern → Option TripleIterator
  get_iterator_unlocked db p =
      let i = query_index p in
      elim (S.iterate (gen_key_from_pattern i p) (gen_key_with_upper_bound i p) db.store) [
        | none ↦ none
        | some items ↦ some (record {
          pending = if p.reverse then reverse items else items;
          filter = p.filter;
          offset = p.offset;
          limit = effective_limit p.limit db.options.default_limit;
          count = 0;
          skipped = 0;
          here = [];
        })
      ]

  unfoldable pub get_unlocked : Db S.State → Pattern → Option (Result (List Triple))
  get_unlocked db p = elim (get_iterator_unlocked db p) [
    | none ↦ some (err store_error)
    | some ti ↦ get_loop (suc (length ti.pending)) ti
  ]

  unfoldable pub get : Bool → Db S.State → Pattern → Option (Result (List Triple))
  get done db p =
      if db.closed
      then some (err err_closed)
      else if done
      then some (err cancelled)
      else get_unlocked db p
