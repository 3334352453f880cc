-- ===== src/Tests/Logs.antt =====
-- The journal and the facets of small databases.
use levelgraph.Prelude.{
  ℕ, ◌⊎◌, ◌≡◌, refl, ap, ◌<◌, ◌^◌, true, false, ◌&&◌, none, some, arith, if◌then◌else◌, ltb,
}
use levelgraph.Prelude.Bytes.{Bytes, codes, bytes_eq, bytes_lt, starts_with}
use levelgraph.Prelude.Assoc.{Assoc, lookup, insert, erase}
use levelgraph.Graph.Triple.{Spo, triple}
use levelgraph.Graph.Triple.{get as triple_get}
use levelgraph.Graph.Codec.{marshal, write_slice}
use levelgraph.Graph.Varint.{put_uvarint, put_uvarint_loop}
use levelgraph.Index.Escape.{escape, escape_count, escape_loop}
use levelgraph.Index.Key.{gen_key, gen_keys, key_loop, has_all_fields}
use levelgraph.Index.Range.{IsClean}
use levelgraph.Journal.Entry.{gen_journal_key, put_uint64, marshal_entry}
use levelgraph.Journal.Log.{trim}
use levelgraph.Journal.Log.Trim.{trim_lem}
use levelgraph.Store.Sweep.{delete_each}
use levelgraph.MemStore.{
  MemStore, write, replay, replay_op, new_iterator, in_slice, keys_in, sort_in, sort_strings, put,
  get,
}
use levelgraph.MemStore.Laws.{mem_store, IsValid, contents}
use levelgraph.Db.State.{Db, Error, ok, err, validate_triple}
use levelgraph.Db.Write.{
  update, write_batch, batch_loop, triple_ops, index_ops, generate_batch_ops, journal_op,
}
use levelgraph.Db.Refine.{IsSound, holds}
use levelgraph.Facets.{
  facet_subject, gen_facet_key, gen_triple_facet_key, gen_triple_facet_prefix, set_facet, set_at,
  get_facet, get_at, set_triple_facet, del_all_triple_facets,
}
use levelgraph.Facets.Laws.{gen_facet_key_injective, get_facet-set_facet, del_all_triple_facets_lem}
use levelgraph.Facets.All.{get_facets_lem}
use levelgraph.Facets.Iterator.{
  FacetIterator, Visits, iterator_under, error, iterator_under-get_under,
}
use levelgraph.Facets.{gen_facet_prefix, get_facets, get_under, collect}
use levelgraph.Index.Escape.{unescape, has_escapes}
use levelgraph.Prelude.{sym, Bool-cases, inl, inr, ◌∷◌, []}
use levelgraph.Prelude.Bytes.{bytes_eq-true}
use levelgraph.Tests.Data.{bob, fresh, plain}
use levelgraph.Tests.Stores.{filled, filled_refines}

abbrev trimmed_db : Db MemStore
trimmed_db = (trim mem_store false 2 filled).0

trim_ok : (trim mem_store false 2 filled).1 ≡ ok 1
unfolding update write_batch batch_loop triple_ops index_ops generate_batch_ops journal_op gen_keys
    gen_key key_loop triple_get escape escape_count escape_loop has_all_fields marshal write_slice
    put_uvarint put_uvarint_loop gen_journal_key put_uint64 marshal_entry validate_triple write
    replay replay_op insert erase bytes_eq lookup new_iterator in_slice keys_in sort_in sort_strings
    bytes_lt trim delete_each
trim_ok = refl

journal_on : filled.options.journal_enabled ≡ true
unfolding update write_batch
journal_on = ground arith

trim_lem_example :
    IsSound mem_store trimmed_db
    × ((y : Spo) → holds mem_store trimmed_db y ≡ holds mem_store filled y)
    × ((nsec counter : ℕ)
        → nsec < 2 ^ 64
        → contents trimmed_db.store (gen_journal_key nsec counter)
          ≡ (if ltb nsec 2 then none else contents filled.store (gen_journal_key nsec counter)))
trim_lem_example =
    trim_lem mem_store 2 filled trimmed_db 1 filled_refines.0 (omega arith) journal_on
      (ap (λ r. (trimmed_db, r)) trim_ok)

gen_facet_key_injective_example :
    (facet_subject ≡ facet_subject) × (codes "a:b" ≡ codes "a:b") × (codes "age" ≡ codes "age")
unfolding escape_loop
gen_facet_key_injective_example =
    gen_facet_key_injective facet_subject facet_subject (codes "a:b") (codes "a:b") (codes "age")
      (codes "age") refl refl refl

abbrev bare : Db MemStore
bare = record fresh { options = record plain { facets_enabled = true } }

abbrev aged : Db MemStore
aged =
    (set_facet mem_store facet_subject (some (codes "alice")) (some (codes "age")) (codes "30")
      false bare).0

age_set :
    set_facet mem_store facet_subject
      (some (codes "alice"))
      (some (codes "age"))
      (codes "30")
      false
      bare
    ≡ (aged, ok tt)
unfolding set_facet set_at put
age_set = refl

age_unset :
    get_facet mem_store facet_subject (some (codes "alice")) (some (codes "age")) false bare
    ≡ ok none
unfolding get_facet get_at get lookup
age_unset = refl

age_read :
    get_facet mem_store facet_subject (some (codes "alice")) (some (codes "age")) false aged
    ≡ ok (some (codes "30"))
unfolding set_facet set_at put get_facet get_at get lookup insert gen_facet_key escape escape_count
    bytes_eq
age_read = refl

get_facet-set_facet_example :
    IsValid aged.store
    × (some (codes "30") ≡ (
        if bytes_eq facet_subject facet_subject
          && (bytes_eq (codes "alice") (codes "alice") && bytes_eq (codes "age") (codes "age"))
        then some (codes "30")
        else none))
unfolding escape_loop
get_facet-set_facet_example =
    get_facet-set_facet mem_store facet_subject facet_subject (codes "alice") (codes "alice")
      (codes "age") (codes "age") (codes "30") bare aged none (some (codes "30")) refl refl tt
      age_unset age_set age_read

abbrev age_key : Bytes
age_key = gen_facet_key facet_subject (some (codes "alice")) (some (codes "age"))

aged-contents :
    (k : Bytes) → contents aged.store k ≡ (if bytes_eq age_key k then some (codes "30") else none)
unfolding set_facet set_at put insert lookup
aged-contents k = refl

aged_facets_only :
    (k v : Bytes)
    → contents aged.store k ≡ some v
    → starts_with (gen_facet_prefix facet_subject (some (codes "alice"))) k ≡ true
    → (name : Bytes) × (k ≡ gen_facet_key facet_subject (some (codes "alice")) (some name))
aged_facets_only k v e s = elim (Bool-cases (bytes_eq age_key k)) [
  | inl q ↦ (codes "age", sym (bytes_eq-true age_key k q))
  | inr q ↦ let absent = rw q at (aged-contents k) in cc
]

aged_list :
    get_facets mem_store facet_subject (some (codes "alice")) false aged
    ≡ ok ((codes "age", codes "30") ∷ [])
unfolding set_facet set_at put insert lookup get_facets get_under collect new_iterator in_slice
    keys_in sort_in sort_strings bytes_lt bytes_eq gen_facet_key gen_facet_prefix escape
    escape_count unescape has_escapes
aged_list = refl

aged-IsValid : IsValid aged.store
unfolding set_facet set_at put insert lookup
aged-IsValid = (refl, tt)

get_facets_lem_example :
    lookup (codes "age") ((codes "age", codes "30") ∷ [])
    ≡ contents aged.store (gen_facet_key facet_subject (some (codes "alice")) (some (codes "age")))
get_facets_lem_example =
    get_facets_lem mem_store facet_subject (codes "alice") aged ((codes "age", codes "30") ∷ [])
      aged-IsValid aged_facets_only aged_list 97 (codes "ge") (omega arith)

abbrev noted : Db MemStore
noted = (set_triple_facet mem_store (triple bob) (some (codes "since")) (codes "2020") false bare).0

abbrev cleared : Db MemStore
cleared = (del_all_triple_facets mem_store (triple bob) false noted).0

noted-IsValid : IsValid noted.store
unfolding set_triple_facet set_at put insert lookup
noted-IsValid = (refl, tt)

cleared_ok : (del_all_triple_facets mem_store (triple bob) false noted).1 ≡ ok tt
unfolding set_triple_facet set_at put insert del_all_triple_facets write replay replay_op
    new_iterator in_slice keys_in sort_in sort_strings bytes_lt delete_each lookup
    gen_triple_facet_key gen_triple_facet_prefix escape escape_count bytes_eq
cleared_ok = refl

del_all_triple_facets_lem_example :
    IsValid cleared.store
    × ((name : Bytes)
        → IsClean name
        → contents cleared.store (gen_triple_facet_key (triple bob) (some name)) ≡ none)
    × ((k : Bytes)
        → starts_with (gen_triple_facet_prefix (triple bob)) k ≡ false
        → contents cleared.store k ≡ contents noted.store k)
del_all_triple_facets_lem_example =
    del_all_triple_facets_lem mem_store (triple bob) noted cleared noted-IsValid
      (ap (λ r. (cleared, r)) cleared_ok)

iterator_under-get_under_example :
    ((out : Assoc Bytes)
      → get_under mem_store (gen_facet_prefix facet_subject (some (codes "alice"))) false aged
        ≡ ok out
      → (fi : FacetIterator) × (iterator_under mem_store
            (gen_facet_prefix facet_subject (some (codes "alice")))
            false
            aged
          ≡ ok fi)
        × Visits fi out)
    × ((e : Error)
        → get_under mem_store (gen_facet_prefix facet_subject (some (codes "alice"))) false aged
          ≡ err e
        → (iterator_under mem_store
              (gen_facet_prefix facet_subject (some (codes "alice")))
              false
              aged
            ≡ err e)
          ⊎ ((fi : FacetIterator) × (iterator_under mem_store
                  (gen_facet_prefix facet_subject (some (codes "alice")))
                  false
                  aged
                ≡ ok fi)
              × (error fi ≡ some e)))
iterator_under-get_under_example =
    iterator_under-get_under mem_store (gen_facet_prefix facet_subject (some (codes "alice"))) false
      aged
