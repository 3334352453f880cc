-- ===== src/MemStore/Laws.antt =====
-- The in-memory store is a `KvStore`, and does not fail while it is open.
use levelgraph.Prelude.{
  ◌≡◌, refl, sym, ap, ◌∙◌, ◌⊎◌, inl, inr, ◌↔◌, true, false, Option, none, some, List, [], ◌∷◌,
  arith, if◌then◌else◌, Mem, All, map, Bool-cases, subst,
}
use levelgraph.Prelude.Bytes.{
  Bytes, slice_bytes, bytes_eq, bytes_eq_iff, bytes_eq_refl, bytes_eq-true, bytes_lt,
}
use levelgraph.Prelude.Assoc.{Assoc, lookup, insert, erase, lookup-insert, lookup-erase}
use levelgraph.Index.Range.{in_range}
use levelgraph.Store.{Op, Batch, Contents, apply_op, apply_batch, IsAscending, KvStore}
use levelgraph.MemStore.{
  MemStore, Range, in_slice, keys_in, sort_strings, new_iterator, replay_op, replay, get, put,
  delete, write, close,
}
use levelgraph.MemStore.Sort.{Distinct, Ascending, mem-sort_strings, sort_strings-Ascending}

-- No key has two entries.
abbrev pub Unique : Assoc Bytes → Type 0
Unique [] = Unit
Unique ((k, v) ∷ m) = (lookup k m ≡ none) × Unique m

insert-Unique : (k v : Bytes) (m : Assoc Bytes) → Unique m → Unique (insert k v m)
unfolding insert lookup
insert-Unique k v [] h = (refl, tt)
insert-Unique k v ((j, w) ∷ m) h = elim (Bool-cases (bytes_eq j k)) [
  | inl e ↦ rw e (subst (λ i. lookup i m ≡ none) (bytes_eq-true j k e) h.0, h.1)
  | inr e ↦ rw e (
    lookup-insert k j v m ∙ ground (arith, bytes_eq_iff k j, bytes_eq_iff j k),
    insert-Unique k v m h.1,
  )
]

erase-Unique : (k : Bytes) (m : Assoc Bytes) → Unique m → Unique (erase k m)
unfolding erase
erase-Unique k [] h = tt
erase-Unique k ((j, w) ∷ m) h = elim (Bool-cases (bytes_eq j k)) [
  | inl e ↦ rw e (erase-Unique k m h.1)
  | inr e ↦ rw e (lookup-erase k j m ∙ ground arith, erase-Unique k m h.1)
]

abbrev entries_contents : Assoc Bytes → Contents
entries_contents m k = lookup k m

replay_op-contents :
    (m : Assoc Bytes) (op : Op) (j : Bytes)
    → lookup j (replay_op m op) ≡ apply_op (entries_contents m) op j
unfolding replay_op apply_op
replay_op-contents m (Op.put k v) j = lookup-insert k j v m
replay_op-contents m (Op.del k) j = lookup-erase k j m

replay_op-Unique : (m : Assoc Bytes) (op : Op) → Unique m → Unique (replay_op m op)
unfolding replay_op
replay_op-Unique m (Op.put k v) h = insert-Unique k v m h
replay_op-Unique m (Op.del k) h = erase-Unique k m h

replay-Unique : (m : Assoc Bytes) (b : Batch) → Unique m → Unique (replay m b)
unfolding replay
replay-Unique m [] h = h
replay-Unique m (op ∷ b) h = replay-Unique (replay_op m op) b (replay_op-Unique m op h)

-- A batch acts on the map as it acts on the contents.
pub replay-contents :
    (m : Assoc Bytes) (b : Batch)
    → entries_contents (replay m b) ≡ apply_batch (entries_contents m) b
unfolding replay apply_batch
replay-contents m [] = refl
replay-contents m (op ∷ b) =
    replay-contents (replay_op m op) b
    ∙ ap (λ f. apply_batch f b) (λ i j. replay_op-contents m op j i)

-- The keys that `NewIterator` collects are in the range, and the map has them.
keys_in_head :
    (r : Option Range) (j k : Bytes) (l : List Bytes)
    → Mem j (if in_slice r k then k ∷ l else l)
    → ((j ≡ k) × (in_slice r k ≡ true)) ⊎ Mem j l
keys_in_head r j k l h = elim (Bool-cases (in_slice r k)) [
  | inl e ↦ elim (rw e at h) [ inl q ↦ inl (q, e) | inr m ↦ inr m ]
  | inr e ↦ inr (rw e at h)
]

keys_in_sound :
    (r : Option Range) (j : Bytes) (m : Assoc Bytes)
    → Mem j (keys_in r m)
    → (w : Bytes) × (lookup j m ≡ some w) × (in_slice r j ≡ true)
unfolding keys_in lookup
keys_in_sound r j [] h = absurd h
keys_in_sound r j ((k, v) ∷ m) h = elim (keys_in_head r j k (keys_in r m) h) [
  | inl (q, e) ↦ (v, rw q (rw (bytes_eq_refl k)), rw q e)
  | inr n ↦
      let (w, f, g) = keys_in_sound r j m n in
      elim (Bool-cases (bytes_eq k j)) [ inl e ↦ (v, rw e, g) | inr e ↦ (w, rw e f, g) ]
]

-- And all such keys are collected.
keys_in_complete :
    (r : Option Range) (j w : Bytes) (m : Assoc Bytes)
    → lookup j m ≡ some w
    → in_slice r j ≡ true
    → Mem j (keys_in r m)
unfolding keys_in lookup
keys_in_complete r j w [] e h = cc
keys_in_complete r j w ((k, v) ∷ m) e h = elim (Bool-cases (bytes_eq k j)) [
  | inl q ↦
      let p = bytes_eq-true k j q in let h' : in_slice r k ≡ true = rw p h in rw h' (inl (sym p))
  | inr q ↦
      let rest = keys_in_complete r j w m (rw q at e) h in
      elim (Bool-cases (in_slice r k)) [ inl g ↦ rw g (inr rest) | inr g ↦ rw g rest ]
]

keys_in-Distinct : (r : Option Range) (m : Assoc Bytes) → Unique m → Distinct (keys_in r m)
unfolding keys_in
keys_in-Distinct r [] h = tt
keys_in-Distinct r ((k, v) ∷ m) h =
    let rest = keys_in-Distinct r m h.1 in
    elim (Bool-cases (in_slice r k)) [
      | inl e ↦ rw e ((λ n. let (w, f, g) = keys_in_sound r k m n in cc (h.0)), rest)
      | inr e ↦ rw e rest
    ]

-- The snapshot of a list of keys.
module _ (m : Assoc Bytes) where
  abbrev snapshot : List Bytes → List (Bytes × Bytes)
  snapshot l = map (λ k. (k, slice_bytes (lookup k m))) l

  mem-snapshot_sound :
      (k v : Bytes) (l : List Bytes)
      → Mem (k, v) (snapshot l)
      → Mem k l × (v ≡ slice_bytes (lookup k m))
  mem-snapshot_sound k v [] h = absurd h
  mem-snapshot_sound k v (j ∷ l) h = elim h [
    | inl e ↦
        let q : k ≡ j = ap (λ (x : Bytes × Bytes). x.0) e in
        (inl q, rw q (ap (λ (x : Bytes × Bytes). x.1) e))
    | inr n ↦ let (f, g) = mem-snapshot_sound k v l n in (inr f, g)
  ]

  mem-snapshot_complete :
      (k v : Bytes) (l : List Bytes) → lookup k m ≡ some v → Mem k l → Mem (k, v) (snapshot l)
  mem-snapshot_complete k v [] e h = absurd h
  mem-snapshot_complete k v (j ∷ l) e h = elim h [
    | inl q ↦ inl (rw (sym q) (rw e))
    | inr n ↦ inr (mem-snapshot_complete k v l e n)
  ]

  snapshot-above :
      (k : Bytes) (l : List Bytes)
      → All (λ j. bytes_lt k j ≡ true) l
      → All (λ (e : Bytes × Bytes). bytes_lt k e.0 ≡ true) (snapshot l)
  snapshot-above k [] h = tt
  snapshot-above k (j ∷ l) h = (h.0, snapshot-above k l h.1)

  snapshot-IsAscending : (l : List Bytes) → Ascending l → IsAscending (snapshot l)
  snapshot-IsAscending [] h = tt
  snapshot-IsAscending (k ∷ l) h = (snapshot-above k l h.0, snapshot-IsAscending l h.1)

abbrev pub IsValid : MemStore → Type 0
IsValid m = Unique m.entries

abbrev pub contents : MemStore → Contents
contents m = entries_contents m.entries

abbrev pub iterate : Bytes → Bytes → MemStore → Option (List (Bytes × Bytes))
iterate start limit = new_iterator (some (record { start = start; limit = some limit }))

-- An iterator over a range visits, in ascending order of keys, what the store holds in the range.
pub iterate_lem :
    (start limit : Bytes) (m : MemStore) (items : List (Bytes × Bytes))
    → IsValid m
    → iterate start limit m ≡ some items
    → IsAscending items
      × ((k v : Bytes)
          → Mem (k, v) items ↔ ((contents m k ≡ some v) × (in_range start limit k ≡ true)))
unfolding new_iterator in_slice
iterate_lem start limit m items valid h =
    let r : Option Range = some (record { start = start; limit = some limit }) in
    let keys = sort_strings (keys_in r m.entries) in
    let opened : snapshot m.entries keys ≡ items = ground arith in
    rw (sym opened) (
      snapshot-IsAscending m.entries keys
          (sort_strings-Ascending _ (keys_in-Distinct r m.entries valid)),
      λ k v. (
        (λ n.
            let (f, g) = mem-snapshot_sound m.entries k v keys n in
            let (w, e, q) = keys_in_sound r k m.entries ((mem-sort_strings k _).0 f) in
            (rw e (ap some (sym (rw e at g))), q)),
        (λ n.
            mem-snapshot_complete m.entries k v keys n.0
              ((mem-sort_strings k _).1 (keys_in_complete r k v m.entries n.0 n.1))),
      ),
    )

pub put_lem :
    (k v : Bytes) (m m' : MemStore)
    → IsValid m
    → put k v m ≡ some m'
    → IsValid m' × ((j : Bytes) → contents m' j ≡ apply_op (contents m) (Op.put k v) j)
unfolding put apply_op
put_lem k v m m' h e =
    let same : insert k v m.entries ≡ m'.entries = ground arith in
    (
      subst Unique same (insert-Unique k v m.entries h),
      λ j. rw (sym same) (lookup-insert k j v m.entries),
    )

pub delete_lem :
    (k : Bytes) (m m' : MemStore)
    → IsValid m
    → delete k m ≡ some m'
    → IsValid m' × ((j : Bytes) → contents m' j ≡ apply_op (contents m) (Op.del k) j)
unfolding delete apply_op
delete_lem k m m' h e =
    let same : erase k m.entries ≡ m'.entries = ground arith in
    (
      subst Unique same (erase-Unique k m.entries h),
      λ j. rw (sym same) (lookup-erase k j m.entries),
    )

-- A batch that is written acts record by record, in order, and the map stays one.
pub write_lem :
    (b : Batch) (m m' : MemStore)
    → IsValid m
    → write b m ≡ some m'
    → IsValid m' × ((j : Bytes) → contents m' j ≡ apply_batch (contents m) b j)
unfolding write
write_lem b m m' h e =
    let same : replay m.entries b ≡ m'.entries = ground arith in
    (
      subst Unique same (replay-Unique m.entries b h),
      λ j. rw (sym same) (ap (λ f. f j) (replay-contents m.entries b)),
    )

pub get_lem : (k : Bytes) (m : MemStore) {r : Option Bytes} → get k m ≡ some r → r ≡ contents m k
unfolding get
get_lem k m e = ground arith

-- The in-memory store as the database's store.
abbrev pub mem_store : KvStore
mem_store = record {
  State = MemStore;
  get = get;
  put = put;
  delete = delete;
  write = write;
  iterate = iterate;
  close = close;
  IsValid = IsValid;
  contents = contents;
  get_law = get_lem;
  put_law = put_lem;
  delete_law = delete_lem;
  write_law = write_lem;
  iterate_law = iterate_lem;
}

-- An open store's iterators visit something over every range.
pub iterate_total :
    (m : MemStore)
    → m.closed ≡ false
    → (start limit : Bytes) → (items : List (Bytes × Bytes)) × (iterate start limit m ≡ some items)
unfolding new_iterator
iterate_total m h start limit = rw h (_, refl)
