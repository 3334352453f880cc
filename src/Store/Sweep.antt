-- ===== src/Store/Sweep.antt =====
-- The loops of `Trim`, `TrimAndExport` (journal.go) and `DelAllTripleFacets` (facets.go) that
-- delete every key that an iterator visits.
use levelgraph.Prelude.{
  ◌≡◌, refl, sym, ap, ◌∙◌, inl, inr, Bool, true, false, none, some, List, [], ◌∷◌, arith,
  if◌then◌else◌, Mem, Bool-cases, Option-cases,
}
use levelgraph.Prelude.Bytes.{Bytes, bytes_eq, bytes_eq-true, bytes_eq_refl}
use mathlib.Core.Bool.{false≢true}
use levelgraph.Index.Range.{in_range}
use levelgraph.Store.{Op, Batch, Contents, KvStore, apply_op, apply_batch}

unfoldable pub delete_each : List (Bytes × Bytes) → Batch
delete_each [] = []
delete_each ((k, value) ∷ items) = Op.del k ∷ delete_each items

-- Whether a key is among the items.
abbrev pub visited : Bytes → List (Bytes × Bytes) → Bool
visited j [] = false
visited j ((k, value) ∷ items) = if bytes_eq k j then true else visited j items

pub visited-true :
    (j : Bytes) (items : List (Bytes × Bytes))
    → visited j items ≡ true
    → (v : Bytes) × Mem (j, v) items
visited-true j [] h = cc
visited-true j ((k, value) ∷ items) h = elim (Bool-cases (bytes_eq k j)) [
  | inl e ↦ (value, inl (ap (λ l. (l, value)) (sym (bytes_eq-true k j e))))
  | inr e ↦ let (v, m) = visited-true j items (rw e at h) in (v, inr m)
]

pub visited-mem :
    (j v : Bytes) (items : List (Bytes × Bytes)) → Mem (j, v) items → visited j items ≡ true
visited-mem j v [] m = absurd m
visited-mem j v ((k, value) ∷ items) (inl e) =
    let same : k ≡ j = ap (λ x. x.0) (sym e) in rw same (rw (bytes_eq_refl j) refl)
visited-mem j v ((k, value) ∷ items) (inr m) = let later = visited-mem j v items m in ground arith

apply_batch-delete_each :
    (c : Contents) (items : List (Bytes × Bytes)) (j : Bytes)
    → apply_batch c (delete_each items) j ≡ (if visited j items then none else c j)
unfolding apply_batch apply_op delete_each
apply_batch-delete_each c [] j = refl
apply_batch-delete_each c ((k, value) ∷ items) j =
    let later = apply_batch-delete_each (apply_op c (Op.del k)) items j in ground arith

-- After every key that an iterator over a range visits is deleted, the range is empty, and nothing
-- else has changed.
pub sweep_lem :
    (S : KvStore) (start limit : Bytes) (st st' : S.State) (items : List (Bytes × Bytes))
    → S.IsValid st
    → S.iterate start limit st ≡ some items
    → S.write (delete_each items) st ≡ some st'
    → S.IsValid st'
      × ((j : Bytes)
          → S.contents st' j ≡ (if in_range start limit j then none else S.contents st j))
sweep_lem S start limit st st' items valid read wrote =
    let (_, law) = S.iterate_law start limit st items valid read in
    let (valid', now) = S.write_law (delete_each items) st st' valid wrote in
    (
      valid',
      λ j. elim (Bool-cases (visited j items)) [
        | inl e ↦
            let (v, m) = visited-true j items e in
            let (_, q) = (law j v).0 m in
            now j ∙ apply_batch-delete_each (S.contents st) items j ∙ rw (e, q) refl
        | inr e ↦ elim (Bool-cases (in_range start limit j)) [
          | inr q ↦ now j ∙ apply_batch-delete_each (S.contents st) items j ∙ rw (e, q) refl
          | inl q ↦ elim (Option-cases (S.contents st j)) [
            | inl absent ↦
                now j ∙ apply_batch-delete_each (S.contents st) items j ∙ rw (e, q, absent) refl
            | inr (v, there) ↦
                absurd (false≢true (sym e ∙ visited-mem j v items ((law j v).1 (there, q))))
          ]
        ]
      ],
    )

-- A range over which an iterator visits nothing is empty.
pub sweep_nothing :
    (S : KvStore) (start limit : Bytes) (st : S.State)
    → S.IsValid st
    → S.iterate start limit st ≡ some []
    → (j : Bytes) → S.contents st j ≡ (if in_range start limit j then none else S.contents st j)
sweep_nothing S start limit st valid read j =
    let (_, law) = S.iterate_law start limit st [] valid read in
    elim (Bool-cases (in_range start limit j)) [
      | inr q ↦ rw q refl
      | inl q ↦ elim (Option-cases (S.contents st j)) [
        | inl absent ↦ rw (q, absent) refl
        | inr (v, there) ↦ absurd ((law j v).1 (there, q))
      ]
    ]
