-- ===== src/Index/Unique.antt =====
-- Keys tell triples and indexes apart.
use levelgraph.Prelude.{◌≡◌, refl, sym, ap, ◌∙◌, ◌++◌, arith, append-cancel, take, if◌then◌else◌}
use levelgraph.Prelude.Bytes.{Bytes, codes, bytes_eq}
use levelgraph.Graph.Triple.{Spo, triple}
use levelgraph.Index.Escape.{key_separator, escape_loop, escape_split, escape_loop_injective}
use levelgraph.Index.Name.{IndexName, IsIndex, spo, sop, pos, pso, ops, osp, unknown, index_code}
use levelgraph.Index.Key.{gen_key}
use levelgraph.Index.Select.{key3}
use levelgraph.Index.Query.{index_key, gen_key-triple}

name_of : Bytes → IndexName
name_of c =
    if bytes_eq c (codes "spo")
    then spo
    else if bytes_eq c (codes "sop")
    then sop
    else if bytes_eq c (codes "pos")
    then pos
    else if bytes_eq c (codes "pso")
    then pso
    else if bytes_eq c (codes "ops")
    then ops
    else osp

-- The first three bytes of a key name its index.
name_of-index_code :
    (i : IndexName) (r : Bytes) → IsIndex i → name_of (take 3 (index_code i ++ r)) ≡ i
unfolding name_of bytes_eq
name_of-index_code spo r h = refl
name_of-index_code sop r h = refl
name_of-index_code pos r h = refl
name_of-index_code pso r h = refl
name_of-index_code ops r h = refl
name_of-index_code osp r h = refl
name_of-index_code (unknown u) r h = absurd h

pub index_code_injective :
    (i j : IndexName) (r r' : Bytes)
    → IsIndex i
    → IsIndex j
    → index_code i ++ r ≡ index_code j ++ r'
    → i ≡ j
index_code_injective i j r r' hi hj e =
    sym (name_of-index_code i r hi) ∙ ap (λ k. name_of (take 3 k)) e ∙ name_of-index_code j r' hj

index_key_code :
    (i : IndexName) (x : Spo) → IsIndex i → (r : Bytes) × (index_key i x ≡ index_code i ++ r)
index_key_code spo x h = (_, refl)
index_key_code sop x h = (_, refl)
index_key_code pos x h = (_, refl)
index_key_code pso x h = (_, refl)
index_key_code ops x h = (_, refl)
index_key_code osp x h = (_, refl)
index_key_code (unknown u) x h = absurd h

key3_injective : (c a b d x y z : Bytes) → key3 c a b d ≡ key3 c x y z → (a ≡ x) × (b ≡ y) × (d ≡ z)
key3_injective c a b d x y z h =
    let (e1, h1) = escape_split a x _ _ (append-cancel key_separator _ _ (append-cancel c _ _ h)) in
    let (e2, h2) = escape_split b y (escape_loop d) (escape_loop z) h1 in
    (e1, e2, escape_loop_injective d z h2)

index_key_injective :
    (i : IndexName) (x y : Spo) → IsIndex i → index_key i x ≡ index_key i y → x ≡ y
index_key_injective spo x y h e =
    let (f, g, k) = key3_injective (index_code spo) x.s x.p x.o y.s y.p y.o e in ground arith
index_key_injective sop x y h e =
    let (f, g, k) = key3_injective (index_code sop) x.s x.o x.p y.s y.o y.p e in ground arith
index_key_injective pos x y h e =
    let (f, g, k) = key3_injective (index_code pos) x.p x.o x.s y.p y.o y.s e in ground arith
index_key_injective pso x y h e =
    let (f, g, k) = key3_injective (index_code pso) x.p x.s x.o y.p y.s y.o e in ground arith
index_key_injective ops x y h e =
    let (f, g, k) = key3_injective (index_code ops) x.o x.p x.s y.o y.p y.s e in ground arith
index_key_injective osp x y h e =
    let (f, g, k) = key3_injective (index_code osp) x.o x.s x.p y.o y.s y.p e in ground arith
index_key_injective (unknown u) x y h e = absurd h

-- The keys of two triples without a nil field, in any of the six indexes, are the same only if the
-- index and the triple are.
pub gen_key_injective :
    (i j : IndexName) (x y : Spo)
    → IsIndex i
    → IsIndex j
    → gen_key i (triple x) ≡ gen_key j (triple y)
    → (i ≡ j) × (x ≡ y)
gen_key_injective i j x y hi hj e =
    let e' : index_key i x ≡ index_key j y = sym (gen_key-triple i x) ∙ e ∙ gen_key-triple j y in
    let (r, q) = index_key_code i x hi in
    let (r', q') = index_key_code j y hj in
    let same : i ≡ j = index_code_injective i j r r' hi hj (sym q ∙ e' ∙ q') in
    (same, index_key_injective i x y hi (e' ∙ ap (λ k. index_key k y) (sym same)))
