-- ===== src/Index/Name.antt =====
-- pkg/index/index.go: the six indexes, the order of their fields, and the choice of an index.
use levelgraph.Prelude.{ℕ, suc, Bool, true, false, ◌&&◌, ◌||◌, List, [], ◌∷◌, if◌then◌else◌, take}
use levelgraph.Prelude.Bytes.{Bytes, codes, bytes_eq, bytes_lt}
use levelgraph.Graph.Triple.{Field, subject, predicate, object, field_eq}

-- `IndexName`, a string; `unknown` is any string but the six.
pub data IndexName : Type 0 where
  spo sop pos pso ops osp : IndexName
  unknown : Bytes → IndexName

-- One of the six names.
abbrev pub IsIndex : IndexName → Type 0
IsIndex (unknown _) = ⊥
IsIndex _ = Unit

abbrev pub index_code : IndexName → Bytes
index_code spo = codes "spo"
index_code sop = codes "sop"
index_code pos = codes "pos"
index_code pso = codes "pso"
index_code ops = codes "ops"
index_code osp = codes "osp"
index_code (unknown s) = s

abbrev pub index_eq : IndexName → IndexName → Bool
index_eq i j = bytes_eq (index_code i) (index_code j)

-- A key that the map lacks reads as nil.
abbrev pub index_defs : IndexName → List Field
index_defs spo = subject ∷ predicate ∷ object ∷ []
index_defs sop = subject ∷ object ∷ predicate ∷ []
index_defs pos = predicate ∷ object ∷ subject ∷ []
index_defs pso = predicate ∷ subject ∷ object ∷ []
index_defs ops = object ∷ predicate ∷ subject ∷ []
index_defs osp = object ∷ subject ∷ predicate ∷ []
index_defs (unknown _) = []

abbrev pub all_indexes : List IndexName
all_indexes = spo ∷ sop ∷ pos ∷ pso ∷ ops ∷ osp ∷ []

unfoldable pub contains_field : List Field → Field → Bool
contains_field [] f = false
contains_field (g ∷ fields) f = field_eq g f || contains_field fields f

-- The first loop over `fields`, at its `i`-th element, with `def[i]` at the head of `from`.
unfoldable pub prefix_loop : List Field → List Field → List Field → ℕ → List Field → Bool
unfolding contains_field field_eq
prefix_loop all def [] i from = true
prefix_loop all def (f ∷ fields) i [] = false
prefix_loop all def (f ∷ fields) i (d ∷ from) =
    contains_field all d
    && (contains_field (take (suc i) def) f && prefix_loop all def fields (suc i) from)

-- The second loop, over the first `len(fields)` elements of `def`. It runs only after the first has
-- succeeded, so `def` is long enough.
unfoldable pub first_loop : List Field → List Field → List Field → Bool
unfolding contains_field field_eq
first_loop all [] from = true
first_loop all (f ∷ fields) [] = false
first_loop all (f ∷ fields) (d ∷ from) = contains_field all d && first_loop all fields from

unfoldable pub is_prefix : List Field → IndexName → Bool
unfolding prefix_loop first_loop
is_prefix fields i =
    prefix_loop fields (index_defs i) fields 0 (index_defs i)
    && first_loop fields fields (index_defs i)

unfoldable pub candidates : List Field → List IndexName → List IndexName
unfolding is_prefix
candidates fields [] = []
candidates fields (i ∷ indexes) =
    let rest = candidates fields indexes in if is_prefix fields i then i ∷ rest else rest

-- `sort.Slice` by name. The names differ, so the result does not depend on how it sorts.
unfoldable pub sort_in : IndexName → List IndexName → List IndexName
unfolding bytes_lt
sort_in i [] = i ∷ []
sort_in i (j ∷ l) = if bytes_lt (index_code j) (index_code i) then j ∷ sort_in i l else i ∷ j ∷ l

unfoldable pub sort_names : List IndexName → List IndexName
unfolding sort_in
sort_names [] = []
sort_names (i ∷ l) = sort_in i (sort_names l)

unfoldable pub possible_indexes : List Field → List IndexName
unfolding candidates sort_names
possible_indexes fields = sort_names (candidates fields all_indexes)

unfoldable pub contains_index : IndexName → List IndexName → Bool
unfolding bytes_eq
contains_index i [] = false
contains_index i (j ∷ l) = index_eq j i || contains_index i l

unfoldable pub choose_index : List IndexName → IndexName → IndexName
unfolding contains_index
choose_index [] preferred = spo
choose_index (i ∷ l) preferred = if contains_index preferred (i ∷ l) then preferred else i

unfoldable pub find_index : List Field → IndexName → IndexName
unfolding possible_indexes choose_index
find_index fields preferred = choose_index (possible_indexes fields) preferred
