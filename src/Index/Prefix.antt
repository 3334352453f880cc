-- ===== src/Index/Prefix.antt =====
-- pkg/index/index.go: the ranges of queries lie in the part of their index.
use levelgraph.Prelude.{
  suc, ◌≡◌, refl, ap, none, some, List, [], ◌∷◌, ◌++◌, Option-cases, inl, inr, ltb, if◌then◌else◌,
}
use levelgraph.Prelude.Bytes.{Bytes, Slice, slice_bytes}
use levelgraph.Graph.Triple.{Field, subject, predicate, object}
use levelgraph.Graph.Pattern.{Pattern, data_of, get_concrete_value}
use levelgraph.Index.Escape.{key_separator, escape}
use levelgraph.Index.Name.{IndexName, IsIndex, spo, sop, pos, pso, ops, osp, unknown, index_code}
use levelgraph.Index.Key.{gen_key_from_pattern, gen_key_with_upper_bound, key_loop, concrete_count}
use levelgraph.Index.Query.{query_index, query_index_lem, index_for}

-- The start of a query's range begins with the name of its index and a separator.
loop_prefix :
    (value : Field → Slice) (f : Field) (def : List Field)
    → (r : Bytes) × (key_loop value (f ∷ def)
          ++ (if ltb (concrete_count value (f ∷ def)) 3 then key_separator else [])
        ≡ key_separator ++ r)
unfolding key_loop concrete_count
loop_prefix value f def = elim (Option-cases (value f)) [
  | inl e ↦ ([], rw (e, key_loop, concrete_count) refl)
  | inr (b, e) ↦ (
    (slice_bytes (escape (some b)) ++ key_loop value def)
        ++ (if ltb (suc (concrete_count value def)) 3 then key_separator else []),
    rw (e, key_loop, concrete_count) refl,
  )
]

pub from_pattern_prefix :
    (i : IndexName) (p : Pattern)
    → IsIndex i
    → (r : Bytes) × (gen_key_from_pattern i p ≡ (index_code i ++ key_separator) ++ r)
unfolding gen_key_from_pattern
from_pattern_prefix (unknown u) p h = absurd h
from_pattern_prefix spo p h =
    let (r, e) = loop_prefix (get_concrete_value p) subject (predicate ∷ object ∷ []) in
    (r, ap (λ l. index_code spo ++ l) e)
from_pattern_prefix sop p h =
    let (r, e) = loop_prefix (get_concrete_value p) subject (object ∷ predicate ∷ []) in
    (r, ap (λ l. index_code sop ++ l) e)
from_pattern_prefix pos p h =
    let (r, e) = loop_prefix (get_concrete_value p) predicate (object ∷ subject ∷ []) in
    (r, ap (λ l. index_code pos ++ l) e)
from_pattern_prefix pso p h =
    let (r, e) = loop_prefix (get_concrete_value p) predicate (subject ∷ object ∷ []) in
    (r, ap (λ l. index_code pso ++ l) e)
from_pattern_prefix ops p h =
    let (r, e) = loop_prefix (get_concrete_value p) object (predicate ∷ subject ∷ []) in
    (r, ap (λ l. index_code ops ++ l) e)
from_pattern_prefix osp p h =
    let (r, e) = loop_prefix (get_concrete_value p) object (subject ∷ predicate ∷ []) in
    (r, ap (λ l. index_code osp ++ l) e)

IsIndex-index_for : (s p o : Slice) → IsIndex (index_for s p o)
unfolding index_for
IsIndex-index_for none none none = tt
IsIndex-index_for none none (some _) = tt
IsIndex-index_for none (some _) none = tt
IsIndex-index_for none (some _) (some _) = tt
IsIndex-index_for (some _) none none = tt
IsIndex-index_for (some _) none (some _) = tt
IsIndex-index_for (some _) (some _) _ = tt

pub IsIndex-query_index : (p : Pattern) → IsIndex (query_index p)
IsIndex-query_index p =
    rw (query_index_lem p)
      (IsIndex-index_for (data_of p.subject) (data_of p.predicate) (data_of p.object))

-- The limit of a query's range is an extension of its start.
pub from_pattern_limit :
    (i : IndexName) (p : Pattern)
    → (u : Bytes) × (gen_key_with_upper_bound i p ≡ gen_key_from_pattern i p ++ u)
unfolding gen_key_with_upper_bound
from_pattern_limit i p = (_, refl)
