-- ===== src/Index/Key.antt =====
-- pkg/index/index.go: the keys of triples, and the start and limit of the range of a pattern.
use levelgraph.Prelude.{
  ℕ, suc, Bool, ◌&&◌, none, some, List, [], ◌∷◌, ◌++◌, map, if◌then◌else◌, ltb, ◌==◌,
}
use levelgraph.Prelude.Bytes.{Bytes, Slice, slice_bytes}
use levelgraph.Graph.Triple.{Triple, Field, get}
use levelgraph.Graph.Pattern.{Pattern, present, get_concrete_value}
use levelgraph.Index.Escape.{key_separator, escape}
use levelgraph.Index.Name.{IndexName, index_code, index_defs, all_indexes}

-- `upperBound`
abbrev pub upper_bound : Bytes
upper_bound = 255 ∷ 255 ∷ 255 ∷ 255 ∷ 255 ∷ 255 ∷ []

-- The loop of `GenKey` and of `GenKeyFromPattern`: it stops at the first field with no value.
unfoldable pub key_loop : (Field → Slice) → List Field → Bytes
key_loop value [] = []
key_loop value (f ∷ def) =
    let rest = key_loop value def in
    elim (value f) [ none ↦ [] | some b ↦ key_separator ++ (slice_bytes (escape (some b)) ++ rest) ]

-- How many fields that loop writes.
unfoldable pub concrete_count : (Field → Slice) → List Field → ℕ
concrete_count value [] = 0
concrete_count value (f ∷ def) =
    let rest = concrete_count value def in elim (value f) [ none ↦ 0 | some b ↦ suc rest ]

unfoldable pub has_all_fields : Triple → Bool
has_all_fields t = present t.subject && (present t.predicate && present t.object)

unfoldable pub gen_key : IndexName → Triple → Bytes
unfolding key_loop has_all_fields get
gen_key i t =
    index_code i
    ++ (key_loop (get t) (index_defs i) ++ (if has_all_fields t then [] else key_separator))

unfoldable pub gen_key_from_pattern : IndexName → Pattern → Bytes
gen_key_from_pattern i p =
    index_code i
    ++ (key_loop (get_concrete_value p) (index_defs i)
        ++ (if ltb (concrete_count (get_concrete_value p) (index_defs i)) 3
            then key_separator
            else []))

unfoldable pub gen_key_with_upper_bound : IndexName → Pattern → Bytes
gen_key_with_upper_bound i p =
    gen_key_from_pattern i p
    ++ (if concrete_count (get_concrete_value p) (index_defs i) == 3 then 255 ∷ [] else upper_bound)

unfoldable pub gen_keys : Triple → List Bytes
gen_keys t = map (λ i. gen_key i t) all_indexes
