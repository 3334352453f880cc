-- ===== src/Tests/Keys.antt =====
-- Escaping, keys, the choice of an index and ranges.
use levelgraph.Prelude.{◌≡◌, refl, none, some, [], ◌∷◌, arith}
use levelgraph.Prelude.Bytes.{codes}
use levelgraph.Graph.Triple.{triple, subject, object}
use levelgraph.Graph.Pattern.{data_of}
use levelgraph.Index.Escape.{
  escape, escape_loop, escape_count, unescape, unescape-escape, escape_split,
}
use levelgraph.Index.Name.{sop, spo, ops, pos, unknown, find_index}
use levelgraph.Index.Key.{gen_key}
use levelgraph.Index.Query.{query_index, queried, queried-gen_key, selects}
use levelgraph.Index.Unique.{gen_key_injective}
use levelgraph.Tests.Data.{bob, friends}

escape_odd : escape (some (codes "a:b\\")) ≡ some (codes "a\\:b\\\\")
unfolding escape escape_count escape_loop
escape_odd = refl

find_subject_object : find_index (subject ∷ object ∷ []) (unknown []) ≡ sop
unfolding find_index
find_subject_object = refl

-- With no concrete field the index is `ops`, the first by name.
find_nothing : find_index [] (unknown []) ≡ ops
unfolding find_index
find_nothing = refl

find_preferred : find_index (subject ∷ []) spo ≡ spo
unfolding find_index
find_preferred = refl

key_bob : gen_key pos (triple bob) ≡ codes "pos::knows::bob::alice"
unfolding gen_key escape escape_count escape_loop
key_bob = refl

unescape-escape_example : unescape (escape (some (codes "a:b\\"))) ≡ some (codes "a:b\\")
unescape-escape_example = unescape-escape (some (codes "a:b\\"))

escape_split_example : (codes "a:" ≡ codes "a:") × (codes "::b" ≡ codes "::b")
escape_split_example = escape_split (codes "a:") (codes "a:") (codes "::b") (codes "::b") refl

gen_key_injective_example : (pos ≡ pos) × (bob ≡ bob)
gen_key_injective_example = gen_key_injective pos pos bob bob tt tt refl

queried-gen_key_example :
    queried friends (gen_key (query_index friends) (triple bob))
    ≡ selects (some (codes "alice")) (some (codes "knows")) none bob
unfolding data_of
queried-gen_key_example = queried-gen_key friends bob (omega arith)
