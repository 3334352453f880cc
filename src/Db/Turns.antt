-- ===== src/Db/Turns.antt =====
-- The batches of `Put` and `Del`, and the sets of triples whose indexes they write.
use levelgraph.Prelude.{
  ℕ, ◌≡◌, refl, sym, ap, ◌∙◌, fun_ext, Bool, true, false, Option, none, some, List, [], ◌∷◌, ◌++◌,
  arith, if◌then◌else◌, Bool-cases, inl, inr, subst, map, All,
}
use levelgraph.Prelude.Bytes.{Bytes, starts_with, starts_with-append, bytes_eq, bytes_eq-true}
use mathlib.Core.Bool.{false≢true}
use levelgraph.Graph.Triple.{Triple, Spo, triple}
use levelgraph.Graph.Codec.{marshal}
use levelgraph.Index.Name.{spo, sop, pos, pso, ops, osp, unknown}
use levelgraph.Index.Key.{gen_keys}
use levelgraph.Store.{Batch, Contents, apply_op, apply_batch}
use levelgraph.Journal.Entry.{gen_journal_key, journal_prefix, put_uint64}
use levelgraph.Db.State.{Options, ok, validate_triple}
use levelgraph.Db.Write.{
  Action, put, del, generate_batch_ops, index_ops, journal_op, next_counter, triple_ops, batch_loop,
  prepend,
}
use levelgraph.Db.Indexed.{
  IsStorable, IsIndexed, IsIndexed-at_key, IsIndexed-at_keys, contains, contains-at_key,
  contains-at_keys, at_keys, spo_eq, IsForeign, is_key_of, is_key_of_inv, starts_with-gen_key,
}

-- The set after one triple, and after a list of them, in order.
abbrev pub set_step : Action → Spo → (Spo → Bool) → Spo → Bool
set_step put x held y = if spo_eq x y then true else held y
set_step del x held y = if spo_eq x y then false else held y

pub set_after : Action → List Spo → (Spo → Bool) → Spo → Bool
set_after a [] held = held
set_after a (x ∷ xs) held = set_after a xs (set_step a x held)

apply_batch-append :
    (c : Contents) (b b' : Batch) → apply_batch c (b ++ b') ≡ apply_batch (apply_batch c b) b'
unfolding apply_batch
apply_batch-append c [] b' = refl
apply_batch-append c (op ∷ b) b' = apply_batch-append (apply_op c op) b b'

-- What an action writes under the keys of a triple.
abbrev pub written : Action → Spo → Option Bytes
written put x = some (marshal (triple x))
written del x = none

index_ops-at_keys :
    (a : Action) (c : Contents) (x : Spo) (k : Bytes)
    → apply_batch c (index_ops a (triple x)) k ≡ at_keys c x (written a x) k
unfolding index_ops generate_batch_ops gen_keys apply_batch apply_op
index_ops-at_keys put c x k = ground arith
index_ops-at_keys del c x k = ground arith

-- Journal keys lie in no index.
gen_journal_key-IsForeign : (nsec counter : ℕ) → IsForeign (gen_journal_key nsec counter)
unfolding gen_journal_key starts_with
gen_journal_key-IsForeign nsec counter spo h = refl
gen_journal_key-IsForeign nsec counter sop h = refl
gen_journal_key-IsForeign nsec counter pos h = refl
gen_journal_key-IsForeign nsec counter pso h = refl
gen_journal_key-IsForeign nsec counter ops h = refl
gen_journal_key-IsForeign nsec counter osp h = refl
gen_journal_key-IsForeign nsec counter (unknown u) h = absurd h

-- A key that lies neither in an index nor in the journal.
pub record IsOther (k : Bytes) : Type 0 where
  pub foreign : IsForeign k
  pub no_journal : starts_with journal_prefix k ≡ false

is_key_of-other : (x : Spo) (k : Bytes) → IsForeign k → is_key_of x k ≡ false
is_key_of-other x k h = elim (Bool-cases (is_key_of x k)) [
  | inr e ↦ e
  | inl e ↦
      let (i, index, same) = is_key_of_inv x k e in
      let prefixed = starts_with-gen_key i x index in
      absurd (false≢true (sym (h i index) ∙ (rw same at prefixed)))
]

gen_journal_key-other :
    (nsec counter : ℕ) (k : Bytes) → IsOther k → bytes_eq (gen_journal_key nsec counter) k ≡ false
unfolding gen_journal_key
gen_journal_key-other nsec counter k h =
    elim (Bool-cases (bytes_eq (gen_journal_key nsec counter) k)) [
      | inr e ↦ e
      | inl e ↦
          let same : gen_journal_key nsec counter ≡ k = bytes_eq-true _ k e in
          let prefixed =
            starts_with-append journal_prefix (put_uint64 nsec ++ put_uint64 counter) in
          absurd (false≢true (sym h.no_journal ∙ (rw same at prefixed)))
    ]

-- A batch turns indexes of a set into the indexes of another.
pub record Turns (b : Batch) (f : (Spo → Bool) → Spo → Bool) : Type 0 where
  pub indexed : (c : Contents) → IsIndexed c → IsIndexed (apply_batch c b)
  pub held : (c : Contents) (y : Spo) → contains (apply_batch c b) y ≡ f (contains c) y
  pub others : (c : Contents) (k : Bytes) → IsOther k → apply_batch c b k ≡ c k

index_ops-Turns :
    (a : Action) (x : Spo) → IsStorable x → Turns (index_ops a (triple x)) (set_step a x)
index_ops-Turns put x h = record {
  indexed = λ c d.
      subst IsIndexed (sym (fun_ext (index_ops-at_keys put c x)))
        (IsIndexed-at_keys c x (written put x) d (λ v e. (ground arith, h)));
  held = λ c y.
      ap (λ e. contains e y) (fun_ext (index_ops-at_keys put c x))
      ∙ contains-at_keys c x (written put x) y;
  others = λ c k o. index_ops-at_keys put c x k ∙ rw (is_key_of-other x k o.foreign) refl;
}
index_ops-Turns del x h = record {
  indexed = λ c d.
      subst IsIndexed (sym (fun_ext (index_ops-at_keys del c x)))
        (IsIndexed-at_keys c x (written del x) d (λ v e. cc));
  held = λ c y.
      ap (λ e. contains e y) (fun_ext (index_ops-at_keys del c x))
      ∙ contains-at_keys c x (written del x) y;
  others = λ c k o. index_ops-at_keys del c x k ∙ rw (is_key_of-other x k o.foreign) refl;
}

Turns-append :
    (b b' : Batch) (f g : (Spo → Bool) → Spo → Bool)
    → Turns b f
    → Turns b' g
    → Turns (b ++ b') (λ s. g (f s))
Turns-append b b' f g t u = record {
  indexed = λ c d. rw (apply_batch-append c b b') (u.indexed (apply_batch c b) (t.indexed c d));
  held = λ c y.
      ap (λ e. contains e y) (apply_batch-append c b b')
      ∙ u.held (apply_batch c b) y
      ∙ ap (λ s. g s y) (fun_ext (t.held c));
  others = λ c k o.
      ap (λ e. e k) (apply_batch-append c b b') ∙ u.others (apply_batch c b) k o ∙ t.others c k o;
}

journal_op-Turns :
    (now : ℕ → ℕ) (n : ℕ) (a : Action) (t : Triple) → Turns (journal_op now n a t ∷ []) (λ s. s)
unfolding apply_batch apply_op journal_op
journal_op-Turns now n a t = record {
  indexed = λ c d. IsIndexed-at_key c _ _ (gen_journal_key-IsForeign (now n) n) d;
  held = λ c y. contains-at_key c _ _ (gen_journal_key-IsForeign (now n) n) y;
  others = λ c k o. rw (gen_journal_key-other (now n) n k o) refl;
}

triple_ops-Turns :
    (o : Options) (now : ℕ → ℕ) (a : Action) (n : ℕ) (x : Spo)
    → IsStorable x
    → Turns (triple_ops o now a n (triple x)).0 (set_step a x)
unfolding triple_ops
triple_ops-Turns o now a n x h = elim (Bool-cases o.journal_enabled) [
  | inl e ↦ rw e (
      Turns-append _ _ _ _ (index_ops-Turns a x h)
        (journal_op-Turns now (next_counter n) a (triple x)))
  | inr e ↦ rw e (index_ops-Turns a x h)
]

abbrev pub triples : List Spo → List (Option Triple)
triples xs = map (λ x. some (triple x)) xs

-- The loop over whole triples gives a batch, and the batch does to the set what the list says.
pub batch_loop-Turns :
    (o : Options) (now : ℕ → ℕ) (a : Action) (n : ℕ) (xs : List Spo)
    → All IsStorable xs
    → (b : Batch) × (n' : ℕ) × (batch_loop o now a n (triples xs) ≡ (ok b, n'))
      × Turns b (set_after a xs)
unfolding batch_loop set_after validate_triple
batch_loop-Turns o now a n [] h = (
  [],
  n,
  refl,
  record {
    indexed = λ c d. unfold apply_batch in d;
    held = λ c y. unfold apply_batch in refl;
    others = λ c k o. unfold apply_batch in refl;
  },
)
batch_loop-Turns o now a n (x ∷ xs) h =
    let r = triple_ops o now a n (triple x) in
    let (b, n', e, t) = batch_loop-Turns o now a r.1 xs h.1 in
    (
      r.0 ++ b,
      n',
      ap (prepend r.0) e,
      Turns-append r.0 b (set_step a x) (set_after a xs) (triple_ops-Turns o now a n x h.0) t,
    )
