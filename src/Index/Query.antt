-- ===== src/Index/Query.antt =====
-- The index that a query reads, and what lies in the query's range there.
use levelgraph.Prelude.{
  ◌≡◌, refl, subst, Bool, true, false, ◌&&◌, none, some, [], ◌∷◌, ◌++◌, append_assoc, append-nil,
  fun_ext, ltb, ◌==◌, if◌then◌else◌,
}
use levelgraph.Prelude.Bytes.{Bytes, Slice, bytes_eq, bytes_eq-true, starts_with, starts_with_self}
use levelgraph.Graph.Triple.{Spo, triple, Field, subject, predicate, object, other}
use levelgraph.Graph.Pattern.{
  Pattern, data_of, get_concrete_value, concrete_fields, matches, matches_at, present,
}
use levelgraph.Index.Escape.{key_separator, escape_lem}
use levelgraph.Index.Name.{
  IndexName, spo, sop, pos, pso, ops, osp, unknown, index_code, index_defs, find_index,
}
use levelgraph.Index.Key.{
  gen_key, gen_key_from_pattern, gen_key_with_upper_bound, key_loop, concrete_count, upper_bound,
}
use levelgraph.Index.Range.{in_range, IsClean}
use levelgraph.Index.Select.{key3, select0, select1, select2, select3}

-- The index that `getIteratorUnlocked` takes.
abbrev pub query_index : Pattern → IndexName
query_index p = find_index (concrete_fields p) (unknown [])

-- The index for each set of concrete fields. With none it is `ops`, the first by name.
unfoldable pub index_for : Slice → Slice → Slice → IndexName
index_for none none none = ops
index_for none none (some _) = ops
index_for none (some _) none = pos
index_for none (some _) (some _) = pos
index_for (some _) none none = sop
index_for (some _) none (some _) = sop
index_for (some _) (some _) _ = spo

query_index_table :
    (s p o : Slice)
    → find_index
        ((if present s then subject ∷ [] else [])
          ++ ((if present p then predicate ∷ [] else [])
              ++ (if present o then object ∷ [] else [])))
        (unknown [])
      ≡ index_for s p o
unfolding find_index index_for
query_index_table none none none = refl
query_index_table none none (some _) = refl
query_index_table none (some _) none = refl
query_index_table none (some _) (some _) = refl
query_index_table (some _) none none = refl
query_index_table (some _) none (some _) = refl
query_index_table (some _) (some _) none = refl
query_index_table (some _) (some _) (some _) = refl

pub query_index_lem :
    (p : Pattern)
    → query_index p ≡ index_for (data_of p.subject) (data_of p.predicate) (data_of p.object)
unfolding concrete_fields
query_index_lem p = query_index_table (data_of p.subject) (data_of p.predicate) (data_of p.object)

-- The key of a whole triple, in each of the six indexes.
abbrev pub index_key : IndexName → Spo → Bytes
index_key spo x = key3 (index_code spo) x.s x.p x.o
index_key sop x = key3 (index_code sop) x.s x.o x.p
index_key pos x = key3 (index_code pos) x.p x.o x.s
index_key pso x = key3 (index_code pso) x.p x.s x.o
index_key ops x = key3 (index_code ops) x.o x.p x.s
index_key osp x = key3 (index_code osp) x.o x.s x.p
index_key (unknown u) x = u

pub gen_key-triple : (i : IndexName) (x : Spo) → gen_key i (triple x) ≡ index_key i x
unfolding gen_key
gen_key-triple spo x = simp (escape_lem, append-nil)
gen_key-triple sop x = simp (escape_lem, append-nil)
gen_key-triple pos x = simp (escape_lem, append-nil)
gen_key-triple pso x = simp (escape_lem, append-nil)
gen_key-triple ops x = simp (escape_lem, append-nil)
gen_key-triple osp x = simp (escape_lem, append-nil)
gen_key-triple (unknown u) x = simp append-nil

-- Which triples a query reads. With fewer than three concrete fields those that match the pattern;
-- with three, those that have the subject and the predicate, and an object that only begins with
-- the pattern's.
unfoldable pub selects : Slice → Slice → Slice → Spo → Bool
selects (some s) (some p) (some o) x = bytes_eq s x.s && (bytes_eq p x.p && starts_with o x.o)
selects s p o x = matches_at s (some x.s) && (matches_at p (some x.p) && matches_at o (some x.o))

pub record IsCleanSpo (x : Spo) : Type 0 where
  pub s : IsClean x.s
  pub p : IsClean x.p
  pub o : IsClean x.o

-- The range that a query reads, as a test of keys.
abbrev pub queried : Pattern → Bytes → Bool
queried p k =
    in_range (gen_key_from_pattern (query_index p) p) (gen_key_with_upper_bound (query_index p) p) k

abbrev fields3 : Slice → Slice → Slice → Field → Slice
fields3 s p o subject = s
fields3 s p o predicate = p
fields3 s p o object = o
fields3 s p o (other _) = none

concrete_lem :
    (p : Pattern)
    → get_concrete_value p ≡ fields3 (data_of p.subject) (data_of p.predicate) (data_of p.object)
unfolding get_concrete_value
concrete_lem p = fun_ext go
  where
    go :
        (f : Field)
        → get_concrete_value p f
          ≡ fields3 (data_of p.subject) (data_of p.predicate) (data_of p.object) f
    go subject = refl
    go predicate = refl
    go object = refl
    go (other _) = refl

-- The start of the range, and its limit, from the three concrete values.
start_of : IndexName → (Field → Slice) → Bytes
start_of i value =
    index_code i
    ++ (key_loop value (index_defs i)
        ++ (if ltb (concrete_count value (index_defs i)) 3 then key_separator else []))

limit_of : IndexName → (Field → Slice) → Bytes
limit_of i value =
    start_of i value ++ (if concrete_count value (index_defs i) == 3 then 255 ∷ [] else upper_bound)

and_true : (b : Bool) → (b && true) ≡ b
and_true true = refl
and_true false = refl

ruleset layout = (escape_lem, append_assoc, append-nil, and_true)

select_table :
    (s p o : Slice) (x : Spo)
    → IsCleanSpo x
    → in_range
        (start_of (index_for s p o) (fields3 s p o))
        (limit_of (index_for s p o) (fields3 s p o))
        (index_key (index_for s p o) x)
      ≡ selects s p o x
unfolding start_of limit_of index_for selects key_loop concrete_count
select_table none none none x h = select0 (index_code ops) [] [] x.o x.p x.s h.o h.p h.s
select_table none none (some o) x h =
    simp layout (simp layout at (select1 (index_code ops) o [] x.o x.p x.s h.o h.p h.s))
select_table none (some p) none x h =
    simp layout (simp layout at (select1 (index_code pos) p [] x.p x.o x.s h.p h.o h.s))
select_table none (some p) (some o) x h =
    simp layout (simp layout at (select2 (index_code pos) p o x.p x.o x.s h.p h.o h.s))
select_table (some s) none none x h =
    simp layout (simp layout at (select1 (index_code sop) s [] x.s x.o x.p h.s h.o h.p))
select_table (some s) none (some o) x h =
    simp layout (simp layout at (select2 (index_code sop) s o x.s x.o x.p h.s h.o h.p))
select_table (some s) (some p) none x h =
    simp layout (simp layout at (select2 (index_code spo) s p x.s x.p x.o h.s h.p h.o))
select_table (some s) (some p) (some o) x h =
    simp layout (simp layout at (select3 (index_code spo) s p o x.s x.p x.o h.o))

module _ (i : IndexName) (p : Pattern) where
  abbrev values : Field → Slice
  values = fields3 (data_of p.subject) (data_of p.predicate) (data_of p.object)

  from_pattern-start_of : gen_key_from_pattern i p ≡ start_of i values
  unfolding gen_key_from_pattern start_of
  from_pattern-start_of = rw (concrete_lem p)

  with_upper_bound-limit_of : gen_key_with_upper_bound i p ≡ limit_of i values
  unfolding gen_key_with_upper_bound limit_of
  with_upper_bound-limit_of = rw (from_pattern-start_of, concrete_lem p)

-- Of the keys that the database writes to the index of a query, the query's range holds those that
-- `selects` says: for values with no byte 0xFF.
pub queried-gen_key :
    (p : Pattern) (x : Spo)
    → IsCleanSpo x
    → queried p (gen_key (query_index p) (triple x))
      ≡ selects (data_of p.subject) (data_of p.predicate) (data_of p.object) x
queried-gen_key p x h =
    rw
      (
        gen_key-triple (query_index p) x,
        from_pattern-start_of,
        with_upper_bound-limit_of,
        query_index_lem p,
      )
      (select_table (data_of p.subject) (data_of p.predicate) (data_of p.object) x h)

&&-true : (a b : Bool) → a && b ≡ true → (a ≡ true) × (b ≡ true)
&&-true true b h = (refl, h)
&&-true false b h = cc

-- What matches the pattern is selected, with three concrete fields too.
pub matches-selects :
    (p : Pattern) (x : Spo)
    → matches p (triple x) ≡ true
    → selects (data_of p.subject) (data_of p.predicate) (data_of p.object) x ≡ true
unfolding selects matches
matches-selects p x h = table (data_of p.subject) (data_of p.predicate) (data_of p.object) h
  where
    table :
        (s p' o : Slice)
        → (matches_at s (some x.s) && (matches_at p' (some x.p) && matches_at o (some x.o))) ≡ true
        → selects s p' o x ≡ true
    table none p' o q = q
    table (some s) none o q = q
    table (some s) (some p') none q = q
    table (some s) (some p') (some o) q =
        let (l, q') = &&-true (matches_at (some s) (some x.s)) _ q in
        let (m, r) = &&-true (matches_at (some p') (some x.p)) _ q' in
        let same : o ≡ x.o = bytes_eq-true o x.o r in
        rw (l, m) (subst (λ k. starts_with o k ≡ true) same (starts_with_self o))
