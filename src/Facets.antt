-- ===== src/Facets.antt =====
-- facets.go: named values attached to a component of triples or to a whole triple. The operations
-- on a component and on a triple differ in the key only.
pub mod Laws
pub mod All
pub mod Iterator
use levelgraph.Prelude.{
  ℕ, Bool, true, false, Option, none, some, List, [], ◌∷◌, ◌++◌, if◌then◌else◌, ltb, length, drop,
}
use levelgraph.Prelude.Bytes.{Bytes, Slice, slice_bytes, codes}
use levelgraph.Prelude.Assoc.{Assoc, insert}
use levelgraph.Graph.Triple.{Triple}
use levelgraph.Index.Escape.{escape, unescape, key_separator}
use levelgraph.Store.{KvStore}
use levelgraph.Store.Sweep.{delete_each}
use levelgraph.Db.State.{
  Db, Error, Result, ok, err, err_closed, cancelled, err_facets_disabled, store_error,
}
use levelgraph.Db.Read.{Items}

abbrev pub facet_prefix : Bytes
facet_prefix = codes "facet::"

abbrev pub triple_facet_prefix : Bytes
triple_facet_prefix = codes "triple_facet::"

-- A `FacetType` is a string; these are its three constants.
abbrev pub facet_subject : Bytes
facet_subject = codes "subject"

abbrev pub facet_predicate : Bytes
facet_predicate = codes "predicate"

abbrev pub facet_object : Bytes
facet_object = codes "object"

-- A value as it is written into a key.
abbrev pub escaped : Slice → Bytes
escaped value = slice_bytes (escape value)

unfoldable pub gen_facet_prefix : Bytes → Slice → Bytes
gen_facet_prefix kind value =
    facet_prefix ++ (kind ++ (key_separator ++ (escaped value ++ key_separator)))

unfoldable pub gen_facet_key : Bytes → Slice → Slice → Bytes
gen_facet_key kind value key =
    facet_prefix ++ (kind ++ (key_separator ++ (escaped value ++ (key_separator ++ escaped key))))

unfoldable pub gen_triple_facet_prefix : Triple → Bytes
gen_triple_facet_prefix t =
    triple_facet_prefix
    ++ (escaped t.subject
        ++ (key_separator
            ++ (escaped t.predicate ++ (key_separator ++ (escaped t.object ++ key_separator)))))

unfoldable pub gen_triple_facet_key : Triple → Slice → Bytes
gen_triple_facet_key t key =
    triple_facet_prefix
    ++ (escaped t.subject
        ++ (key_separator
            ++ (escaped t.predicate
                ++ (key_separator ++ (escaped t.object ++ (key_separator ++ escaped key))))))

-- What every operation checks first: the error that it returns at once, if any.
abbrev pub refusal : {State : Type 0} → Bool → Db State → Option Error
refusal done db =
    if db.closed
    then some err_closed
    else if done
    then some cancelled
    else if db.options.facets_enabled
    then none
    else some err_facets_disabled

-- The loop of `GetFacets`: a Go map of the facets' names, read off the keys behind the prefix.
unfoldable pub collect : ℕ → Items → Assoc Bytes → Assoc Bytes
collect prefix_len [] out = out
collect prefix_len ((k, value) ∷ items) out =
    let kept = insert (slice_bytes (unescape (some (drop prefix_len k)))) value out in
    collect prefix_len items (if ltb prefix_len (length k) then kept else out)

module _ (S : KvStore) where
  -- The result of a store's operation that changes the state.
  abbrev pub stored : Db S.State → Option S.State → Db S.State × Result (Unit {0})
  stored db none = (db, err store_error)
  stored db (some st) = (record db { store = st }, ok tt)

  unfoldable pub set_at : Bytes → Bool → Bytes → Db S.State → Db S.State × Result (Unit {0})
  set_at k done value db = elim (refusal done db) [
    | some e ↦ (db, err e)
    | none ↦ stored db (S.put k value db.store)
  ]

  -- A facet that is not there is nil, and no error.
  unfoldable pub get_at : Bytes → Bool → Db S.State → Result Slice
  get_at k done db = elim (refusal done db) [
    | some e ↦ err e
    | none ↦ elim (S.get k db.store) [ none ↦ err store_error | some r ↦ ok r ]
  ]

  unfoldable pub del_at : Bytes → Bool → Db S.State → Db S.State × Result (Unit {0})
  del_at k done db = elim (refusal done db) [
    | some e ↦ (db, err e)
    | none ↦ stored db (S.delete k db.store)
  ]

  unfoldable pub get_under : Bytes → Bool → Db S.State → Result (Assoc Bytes)
  get_under start done db = elim (refusal done db) [
    | some e ↦ err e
    | none ↦ elim (S.iterate start (start ++ (255 ∷ [])) db.store) [
      | none ↦ err store_error
      | some items ↦ ok (collect (length start) items [])
    ]
  ]

  unfoldable pub set_facet :
      Bytes → Slice → Slice → Bytes → Bool → Db S.State → Db S.State × Result (Unit {0})
  set_facet kind value key facet_value done = set_at (gen_facet_key kind value key) done facet_value

  unfoldable pub get_facet : Bytes → Slice → Slice → Bool → Db S.State → Result Slice
  get_facet kind value key = get_at (gen_facet_key kind value key)

  unfoldable pub get_facets : Bytes → Slice → Bool → Db S.State → Result (Assoc Bytes)
  get_facets kind value = get_under (gen_facet_prefix kind value)

  unfoldable pub del_facet :
      Bytes → Slice → Slice → Bool → Db S.State → Db S.State × Result (Unit {0})
  del_facet kind value key = del_at (gen_facet_key kind value key)

  unfoldable pub set_triple_facet :
      Triple → Slice → Bytes → Bool → Db S.State → Db S.State × Result (Unit {0})
  set_triple_facet t key value done = set_at (gen_triple_facet_key t key) done value

  unfoldable pub get_triple_facet : Triple → Slice → Bool → Db S.State → Result Slice
  get_triple_facet t key = get_at (gen_triple_facet_key t key)

  unfoldable pub get_triple_facets : Triple → Bool → Db S.State → Result (Assoc Bytes)
  get_triple_facets t = get_under (gen_triple_facet_prefix t)

  unfoldable pub del_triple_facet :
      Triple → Slice → Bool → Db S.State → Db S.State × Result (Unit {0})
  del_triple_facet t key = del_at (gen_triple_facet_key t key)

  abbrev pub delete_visited : Db S.State → Option Items → Db S.State × Result (Unit {0})
  delete_visited db none = (db, err store_error)
  delete_visited db (some items) = stored db (S.write (delete_each items) db.store)

  unfoldable pub del_all_triple_facets : Triple → Bool → Db S.State → Db S.State × Result (Unit {0})
  del_all_triple_facets t done db =
      let start = gen_triple_facet_prefix t in
      elim (refusal done db) [
        | some e ↦ (db, err e)
        | none ↦ delete_visited db (S.iterate start (start ++ (255 ∷ [])) db.store)
      ]
