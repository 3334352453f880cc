-- ===== src/Db/Indexed.antt =====
-- When the contents of a store are the six indexes of a set of triples.
use levelgraph.Prelude.{
  ◌≡◌, refl, sym, ap, ◌∙◌, Bool, true, false, ◌&&◌, ◌||◌, Option, none, some, ◌++◌, arith,
  if◌then◌else◌, Bool-cases, Bool-ext, inl, inr, ◌⊎◌, subst, append_assoc,
}
use levelgraph.Prelude.Bytes.{
  Bytes, bytes_eq, bytes_eq_iff, bytes_eq-true, bytes_eq_refl, starts_with, starts_with_rest,
}
use levelgraph.Graph.Triple.{Spo, triple}
use levelgraph.Graph.Pattern.{present}
use levelgraph.Graph.Codec.{marshal, IsShort}
use levelgraph.Index.Escape.{key_separator}
use levelgraph.Index.Name.{IndexName, IsIndex, spo, sop, pos, pso, ops, osp, unknown, index_code}
use levelgraph.Index.Key.{gen_key}
use levelgraph.Index.Query.{IsCleanSpo, index_key, gen_key-triple}
use levelgraph.Index.Unique.{gen_key_injective, index_code_injective}
use levelgraph.Store.{Contents}

-- Equality of triples, field by field.
abbrev pub spo_eq : Spo → Spo → Bool
spo_eq x y = bytes_eq x.s y.s && (bytes_eq x.p y.p && bytes_eq x.o y.o)

pub spo_eq-true : (x y : Spo) → spo_eq x y ≡ true → x ≡ y
spo_eq-true x y h = ground (arith, bytes_eq_iff x.s y.s, bytes_eq_iff x.p y.p, bytes_eq_iff x.o y.o)

pub spo_eq_refl : (x : Spo) → spo_eq x x ≡ true
spo_eq_refl x = ground (arith, bytes_eq_refl x.s, bytes_eq_refl x.p, bytes_eq_refl x.o)

-- A triple that can be stored and found again: no byte is 0xFF, and the lengths are of type int.
pub record IsStorable (x : Spo) : Type 0 where
  pub clean : IsCleanSpo x
  pub short : IsShort (triple x)

abbrev pub index_prefix : IndexName → Bytes
index_prefix i = index_code i ++ key_separator

-- The set of triples: those under whose key in the first index something is stored.
abbrev pub contains : Contents → Spo → Bool
contains c x = present (c (gen_key spo (triple x)))

-- All indexes hold the same triples, each under its key with its binary form, and nothing else
-- stands among their keys.
pub record IsIndexed (c : Contents) : Type 0 where
  pub agree :
      (i : IndexName) (x : Spo) → IsIndex i → c (gen_key i (triple x)) ≡ c (gen_key spo (triple x))
  pub value :
      (x : Spo) (v : Bytes)
      → c (gen_key spo (triple x)) ≡ some v
      → (v ≡ marshal (triple x)) × IsStorable x
  pub shape :
      (i : IndexName) (k v : Bytes)
      → IsIndex i
      → c k ≡ some v
      → starts_with (index_prefix i) k ≡ true
      → (x : Spo) × (k ≡ gen_key i (triple x))

-- A key that lies in no index.
abbrev pub IsForeign : Bytes → Type 0
IsForeign k = (i : IndexName) → IsIndex i → starts_with (index_prefix i) k ≡ false

starts_with-index_key :
    (i : IndexName) (x : Spo) → IsIndex i → starts_with (index_prefix i) (index_key i x) ≡ true
unfolding starts_with
starts_with-index_key spo x h = refl
starts_with-index_key sop x h = refl
starts_with-index_key pos x h = refl
starts_with-index_key pso x h = refl
starts_with-index_key ops x h = refl
starts_with-index_key osp x h = refl
starts_with-index_key (unknown u) x h = absurd h

pub starts_with-gen_key :
    (i : IndexName) (x : Spo)
    → IsIndex i
    → starts_with (index_prefix i) (gen_key i (triple x)) ≡ true
starts_with-gen_key i x h = rw (gen_key-triple i x) (starts_with-index_key i x h)

-- A key begins with the name of one index at most.
prefix_index :
    (i j : IndexName) (k : Bytes)
    → IsIndex i
    → IsIndex j
    → starts_with (index_prefix i) k ≡ true
    → starts_with (index_prefix j) k ≡ true
    → i ≡ j
prefix_index i j k hi hj s t =
    let (r, e) = starts_with_rest (index_prefix i) k s in
    let (r', e') = starts_with_rest (index_prefix j) k t in
    index_code_injective i j (key_separator ++ r) (key_separator ++ r') hi hj (
      sym (append_assoc (index_code i) key_separator r)
      ∙ sym e
      ∙ e'
      ∙ append_assoc (index_code j) key_separator r')

-- The empty store is the indexes of no triple.
pub IsIndexed-empty : IsIndexed (λ k. none)
IsIndexed-empty = record { agree = λ i x h. refl; value = λ x v h. cc; shape = λ i k v h e s. cc }

-- The contents with another value at one key.
abbrev pub at_key : Contents → Bytes → Option Bytes → Contents
at_key c j w k = if bytes_eq j k then w else c k

module _ (c : Contents) (j : Bytes) (w : Option Bytes) (foreign : IsForeign j) where
  at_key_other :
      (i : IndexName) (k : Bytes)
      → IsIndex i
      → starts_with (index_prefix i) k ≡ true
      → at_key c j w k ≡ c k
  at_key_other i k h s = elim (Bool-cases (bytes_eq j k)) [
    | inl e ↦
        let q =
          subst (λ l. starts_with (index_prefix i) l ≡ false) (bytes_eq-true j k e) (foreign i h) in
        cc
    | inr e ↦ rw e
  ]

  at_key-triple :
      (i : IndexName) (x : Spo)
      → IsIndex i
      → at_key c j w (gen_key i (triple x)) ≡ c (gen_key i (triple x))
  at_key-triple i x h = at_key_other i _ h (starts_with-gen_key i x h)

  -- A value under a foreign key changes no index.
  pub IsIndexed-at_key : IsIndexed c → IsIndexed (at_key c j w)
  IsIndexed-at_key d = record {
    agree = λ i x h. at_key-triple i x h ∙ d.agree i x h ∙ sym (at_key-triple spo x tt);
    value = λ x v e. d.value x v (sym (at_key-triple spo x tt) ∙ e);
    shape = λ i k v h e s. d.shape i k v h (sym (at_key_other i k h s) ∙ e) s;
  }

  pub contains-at_key : (y : Spo) → contains (at_key c j w) y ≡ contains c y
  contains-at_key y = ap present (at_key-triple spo y tt)

-- The six keys of a triple.
abbrev pub is_key_of : Spo → Bytes → Bool
is_key_of x k =
    bytes_eq (gen_key osp (triple x)) k
    || (bytes_eq (gen_key ops (triple x)) k
        || (bytes_eq (gen_key pso (triple x)) k
            || (bytes_eq (gen_key pos (triple x)) k
                || (bytes_eq (gen_key sop (triple x)) k || bytes_eq (gen_key spo (triple x)) k))))

pub or_cases : (a b : Bool) → (a || b) ≡ true → (a ≡ true) ⊎ (b ≡ true)
or_cases true b h = inl refl
or_cases false b h = inr h

pub is_key_of_inv :
    (x : Spo) (k : Bytes)
    → is_key_of x k ≡ true
    → (i : IndexName) × IsIndex i × (gen_key i (triple x) ≡ k)
is_key_of_inv x k h = elim (or_cases _ _ h) [
  | inl e ↦ (osp, tt, bytes_eq-true _ k e)
  | inr h1 ↦ elim (or_cases _ _ h1) [
    | inl e ↦ (ops, tt, bytes_eq-true _ k e)
    | inr h2 ↦ elim (or_cases _ _ h2) [
      | inl e ↦ (pso, tt, bytes_eq-true _ k e)
      | inr h3 ↦ elim (or_cases _ _ h3) [
        | inl e ↦ (pos, tt, bytes_eq-true _ k e)
        | inr h4 ↦ elim (or_cases _ _ h4) [
          | inl e ↦ (sop, tt, bytes_eq-true _ k e)
          | inr e ↦ (spo, tt, bytes_eq-true _ k e)
        ]
      ]
    ]
  ]
]

is_key_of_self : (i : IndexName) (x : Spo) → IsIndex i → is_key_of x (gen_key i (triple x)) ≡ true
is_key_of_self spo x h = ground (arith, bytes_eq_refl (gen_key spo (triple x)))
is_key_of_self (unknown u) x h = absurd h
is_key_of_self i x h = ground (arith, bytes_eq_refl (gen_key i (triple x)))

-- The keys of a triple are the keys of no other.
is_key_of-gen_key :
    (i : IndexName) (x y : Spo) → IsIndex i → is_key_of x (gen_key i (triple y)) ≡ spo_eq x y
is_key_of-gen_key i x y h =
    Bool-ext _ _
      (λ e.
        let (j, hj, q) = is_key_of_inv x (gen_key i (triple y)) e in
        let same = (gen_key_injective j i x y hj h q).1 in rw same (spo_eq_refl y))
      (λ e. rw (spo_eq-true x y e) (is_key_of_self i y h))

-- The contents with another value at the six keys of a triple.
abbrev pub at_keys : Contents → Spo → Option Bytes → Contents
at_keys c x w k = if is_key_of x k then w else c k

module _ (c : Contents) (x : Spo) (w : Option Bytes) where
  at_keys-triple :
      (i : IndexName) (y : Spo)
      → IsIndex i
      → at_keys c x w (gen_key i (triple y)) ≡ (if spo_eq x y then w else c (gen_key i (triple y)))
  at_keys-triple i y h = rw (is_key_of-gen_key i x y h)

  pub contains-at_keys :
      (y : Spo) → contains (at_keys c x w) y ≡ (if spo_eq x y then present w else contains c y)
  contains-at_keys y = ap present (at_keys-triple spo y tt) ∙ ground arith

  -- With its binary form, or with nothing, at all keys of a storable triple the indexes stay such.
  pub IsIndexed-at_keys :
      IsIndexed c
      → ((v : Bytes) → w ≡ some v → (v ≡ marshal (triple x)) × IsStorable x)
      → IsIndexed (at_keys c x w)
  IsIndexed-at_keys d good = record {
    agree = λ i y h.
        at_keys-triple i y h
        ∙ ap (λ r. if spo_eq x y then w else r) (d.agree i y h)
        ∙ sym (at_keys-triple spo y tt);
    value = λ y v e. elim (Bool-cases (spo_eq x y)) [
      | inl q ↦
          subst (λ z. (v ≡ marshal (triple z)) × IsStorable z) (spo_eq-true x y q)
            (good v (rw q at (sym (at_keys-triple spo y tt) ∙ e)))
      | inr q ↦ d.value y v (rw q at (sym (at_keys-triple spo y tt) ∙ e))
    ];
    shape = λ i k v h e s. elim (Bool-cases (is_key_of x k)) [
      | inl q ↦
          let (j, hj, r) = is_key_of_inv x k q in
          let t =
            subst (λ l. starts_with (index_prefix j) l ≡ true) r (starts_with-gen_key j x hj) in
          (x, subst (λ l. k ≡ gen_key l (triple x)) (prefix_index j i k hj h t s) (sym r))
      | inr q ↦ d.shape i k v h (rw q at e) s
    ];
  }

-- Contents that agree on every key of an index are the indexes of the same triples.
pub IsIndexed-same :
    (c c' : Contents)
    → ((i : IndexName) (k : Bytes) → IsIndex i → starts_with (index_prefix i) k ≡ true → c' k ≡ c k)
    → IsIndexed c
    → IsIndexed c' × ((y : Spo) → contains c' y ≡ contains c y)
IsIndexed-same c c' same d =
    let at_triple : (i : IndexName) (x : Spo)
        → IsIndex i
        → c' (gen_key i (triple x)) ≡ c (gen_key i (triple x)) =
      λ i x h. same i _ h (starts_with-gen_key i x h) in
    (
      record {
        agree = λ i x h. at_triple i x h ∙ d.agree i x h ∙ sym (at_triple spo x tt);
        value = λ x v e. d.value x v (sym (at_triple spo x tt) ∙ e);
        shape = λ i k v h e s. d.shape i k v h (sym (same i k h s) ∙ e) s;
      },
      λ y. ap present (at_triple spo y tt),
    )
