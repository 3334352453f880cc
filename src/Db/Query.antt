-- ===== src/Db/Query.antt =====
-- `Get` against the set of triples that a database holds.
use levelgraph.Prelude.{◌≡◌, refl, sym, ap, ◌∙◌, true, false, some, List, arith, ◌↔◌, subst, Mem}
use levelgraph.Prelude.Int.{pos_part}
use levelgraph.Prelude.Bytes.{Bytes}
use levelgraph.Graph.Triple.{Triple, Spo, triple}
use levelgraph.Graph.Pattern.{Pattern}
use levelgraph.Graph.Codec.{marshal}
use levelgraph.Index.Key.{gen_key_from_pattern, gen_key_with_upper_bound}
use levelgraph.Index.Query.{query_index}
use levelgraph.Store.{Contents, KvStore}
use levelgraph.Db.State.{Db, ok}
use levelgraph.Db.Read.{Items, passes, get_unlocked, get, effective_limit}
use levelgraph.Db.Window.{wanted, parse_all, visited, get_unlocked_window}
use levelgraph.Db.Refine.{IsSound, holds}
use levelgraph.Db.Entries.{selected, held_IsStorable, IsEntry, IsEntry-of, entry_at}
use levelgraph.Db.Values.{
  accepts, mem-wanted_sound, mem-wanted_complete, mem-directed, ok_injective, unmarshal_entry_value,
  Parses, parse_all_total, IsQuiet, panics-false, passes-accepts, unlimited,
}

module _ (S : KvStore) (db : Db S.State) (p : Pattern) (items : Items) where
  pub get_open : db.closed ≡ false → get S false db p ≡ get_unlocked S db p
  unfolding get
  get_open e = ground arith

  abbrev values : List Bytes
  values = wanted p.filter (visited S db p items)

  module _ (sound : IsSound S db)
      (read : S.iterate
          (gen_key_from_pattern (query_index p) p)
          (gen_key_with_upper_bound (query_index p) p)
          db.store
        ≡ some items) where
    abbrev held_in : Contents
    held_in = S.contents db.store

    item-IsEntry :
        (k v : Bytes) → Mem (k, v) (visited S db p items) → (x : Spo) × IsEntry held_in p v x
    item-IsEntry k v n =
        let (_, law) = S.iterate_law _ _ db.store items sound.valid read in
        let (e, q) = (law k v).0 ((mem-directed p.reverse (k, v) items).0 n) in
        IsEntry-of held_in p sound.indexed k v e q

    quiet : IsQuiet p.filter (visited S db p items)
    quiet k v n =
        let (x, entry) = item-IsEntry k v n in
        panics-false p.filter v (triple x) (unmarshal_entry_value x v entry.same entry.storable)

    value-IsEntry :
        (v : Bytes) → Mem v values → (x : Spo) × IsEntry held_in p v x × (passes p.filter v ≡ true)
    value-IsEntry v m =
        let (k, n, r) = mem-wanted_sound p.filter v (visited S db p items) quiet m in
        let (x, entry) = item-IsEntry k v n in (x, entry, r)

    value_at :
        (x : Spo)
        → holds S db x ≡ true
        → selected p x ≡ true
        → passes p.filter (marshal (triple x)) ≡ true
        → Mem (marshal (triple x)) values
    value_at x h s r =
        let (k, e, q) = entry_at held_in p sound.indexed x h s in
        let (_, law) = S.iterate_law _ _ db.store items sound.valid read in
        mem-wanted_complete p.filter k _ (visited S db p items) quiet
          ((mem-directed p.reverse (k, marshal (triple x)) items).1 ((law k _).1 (e, q))) r

    values_parse : Parses values
    values_parse v m =
        let (x, entry, r) = value-IsEntry v m in
        (triple x, unmarshal_entry_value x v entry.same entry.storable)

    -- On a sound, open database, when the store's iterator gives the items of the query's range,
    -- `Get` with a context that is not done, and with no offset and no limit, of the pattern or by
    -- default, returns exactly the triples that the database holds, the query selects, and the
    -- pattern's filter accepts.
    pub get_exact :
        db.closed ≡ false
        → pos_part p.offset ≡ 0
        → pos_part (effective_limit p.limit db.options.default_limit) ≡ 0
        → (ts : List Triple) × (get S false db p ≡ some (ok ts))
          × ((t : Triple)
              → Mem t ts ↔ (
                  (x : Spo) × (t ≡ triple x)
                  × (holds S db x ≡ true)
                  × (selected p x ≡ true)
                  × (accepts p.filter t ≡ true)))
    get_exact is_open no_offset no_limit =
        let (ts, f, sound_ts, complete_ts) = parse_all_total values values_parse in
        (
          ts,
          get_open is_open
              ∙ get_unlocked_window S db p items read
              ∙ ap (λ l. some (parse_all l)) (unlimited p.filter _ _ values no_limit no_offset)
              ∙ ap some f,
          λ t. (
            (λ m.
                let (v, n, e) = sound_ts t m in
                let (x, entry, r) = value-IsEntry v n in
                let same : t ≡ triple x =
                  ok_injective (sym (unmarshal_entry_value x v entry.same entry.storable) ∙ e) in
                (x, same, entry.held, entry.chosen, sym (passes-accepts p.filter v t e) ∙ r)),
            (λ (x, same, h, s, a).
                let good = held_IsStorable held_in x sound.indexed h in
                let e = unmarshal_entry_value x (marshal (triple x)) refl good in
                let r = passes-accepts p.filter (marshal (triple x)) (triple x) e in
                rw same (
                  complete_ts (marshal (triple x)) (triple x)
                    (value_at x h s (r ∙ subst (λ u. accepts p.filter u ≡ true) same a)) e)),
          ),
        )
