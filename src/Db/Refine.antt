-- ===== src/Db/Refine.antt =====
-- `Put` and `Del` against the set of triples that a database holds.
use levelgraph.Prelude.{
  ℕ, ◌≡◌, refl, sym, ap, ◌∙◌, fun_ext, Bool, true, false, Option, none, some, List, [], ◌∷◌, ◌++◌,
  arith, if◌then◌else◌, subst, All,
}
use levelgraph.Prelude.Bytes.{Bytes}
use levelgraph.Graph.Triple.{Triple, Spo}
use levelgraph.Store.{Batch, KvStore}
use levelgraph.Db.State.{Db, Options, Error, Result, ok, err, err_invalid_triple, validate_triple}
use levelgraph.MemStore.{MemStore, write}
use levelgraph.MemStore.Laws.{mem_store}
use levelgraph.Db.Write.{Action, triple_ops, batch_loop, prepend, write_batch, update}
use levelgraph.Db.Indexed.{IsStorable, IsIndexed, contains}
use levelgraph.Db.Turns.{IsOther, batch_loop-Turns, set_after, triples}

module _ (S : KvStore) where
  -- A database whose store is in order and holds the indexes of a set of triples.
  pub record IsSound (db : Db S.State) : Type 0 where
    pub valid : S.IsValid db.store
    pub indexed : IsIndexed (S.contents db.store)

  abbrev pub holds : Db S.State → Spo → Bool
  holds db = contains (S.contents db.store)

  -- From a sound database, when `Put` (or `Del`) of storable triples returns without an error, the
  -- database is sound again, and holds exactly the triples that it held and those of the call (or
  -- that it held and are not of the call).
  pub update_refines :
      (a : Action) (done : Bool) (now : ℕ → ℕ) (xs : List Spo) (db db' : Db S.State)
      → All IsStorable xs
      → IsSound db
      → update S a done now (triples xs) db ≡ (db', ok tt)
      → IsSound db' × ((y : Spo) → holds db' y ≡ set_after a xs (holds db) y)
  unfolding update write_batch
  update_refines a done now xs db db' h d e =
      let (b, n', q, t) = batch_loop-Turns db.options now a db.journal_counter xs h in
      let wrote : S.write b db.store ≡ some db'.store = ground (arith, q, e) in
      let (v, l) = S.write_law b db.store db'.store d.valid wrote in
      let same = fun_ext l in
      (
        record { valid = v; indexed = subst IsIndexed (sym same) (t.indexed _ d.indexed) },
        λ y. ap (λ c. contains c y) same ∙ t.held (S.contents db.store) y,
      )

  -- A call that returns an error has changed neither the store nor the options, and has not closed
  -- the database.
  update_error :
      (a : Action) (done : Bool) (now : ℕ → ℕ) (ts : List (Option Triple)) (db db' : Db S.State)
      (x : Error)
      → update S a done now ts db ≡ (db', err x)
      → (db'.store ≡ db.store) × (db'.options ≡ db.options) × (db'.closed ≡ db.closed)
  unfolding update write_batch
  update_error a done now ts db db' x h = ground arith

  -- A call changes nothing but the indexes and the journal, whatever it returns.
  pub update_others :
      (a : Action) (done : Bool) (now : ℕ → ℕ) (xs : List Spo) (db db' : Db S.State)
      (r : Result (Unit {0}))
      → All IsStorable xs
      → IsSound db
      → update S a done now (triples xs) db ≡ (db', r)
      → IsSound db' × ((k : Bytes) → IsOther k → S.contents db'.store k ≡ S.contents db.store k)
  unfolding update write_batch
  update_others a done now xs db db' (err x) h d e =
      let (same, _, _) = update_error a done now (triples xs) db db' x e in
      (record { valid = rw same d.valid; indexed = rw same d.indexed }, λ k o. rw same refl)
  update_others a done now xs db db' (ok u) h d e =
      let (b, n', q, t) = batch_loop-Turns db.options now a db.journal_counter xs h in
      let wrote : S.write b db.store ≡ some db'.store = ground (arith, q, e) in
      let (v, l) = S.write_law b db.store db'.store d.valid wrote in
      (
        (update_refines a done now xs db db' h d e).0,
        λ k o. l k ∙ t.others (S.contents db.store) k o,
      )

-- A triple that is nil or lacks a field stops the loop, wherever it stands.
batch_loop_invalid :
    (o : Options) (now : ℕ → ℕ) (a : Action) (n : ℕ) (ts ts' : List (Option Triple))
    (t : Option Triple)
    → validate_triple t ≡ false
    → (batch_loop o now a n (ts ++ (t ∷ ts'))).0 ≡ err err_invalid_triple
unfolding batch_loop
batch_loop_invalid o now a n [] ts' none h = refl
batch_loop_invalid o now a n [] ts' (some t) h = rw h
batch_loop_invalid o now a n (none ∷ ts) ts' t h = refl
batch_loop_invalid o now a n (some u ∷ ts) ts' t h =
    let r = triple_ops o now a n u in
    let rest = batch_loop o now a r.1 (ts ++ (t ∷ ts')) in
    invalid (validate_triple (some u)) r.0 rest (batch_loop_invalid o now a r.1 ts ts' t h)
  where
    invalid :
        (b : Bool) (more : Batch) (rest : Result Batch × ℕ)
        → rest.0 ≡ err err_invalid_triple
        → (if b then prepend more rest else (err err_invalid_triple, n)).0 ≡ err err_invalid_triple
    invalid true more (ok batch, m) e = cc
    invalid true more (err x, m) e = e
    invalid false more rest e = refl

module _ (S : KvStore) where
  -- On an open database and with a context that is not done, a call with an invalid triple among
  -- the others fails with `ErrInvalidTriple` and writes nothing, whatever stands before it.
  pub update_invalid :
      (a : Action) (now : ℕ → ℕ) (ts ts' : List (Option Triple)) (t : Option Triple)
      (db : Db S.State)
      → validate_triple t ≡ false
      → db.closed ≡ false
      → ((update S a false now (ts ++ (t ∷ ts')) db).1 ≡ err err_invalid_triple)
        × ((update S a false now (ts ++ (t ∷ ts')) db).0.store ≡ db.store)
  unfolding update write_batch
  update_invalid a now ts ts' t db h e =
      ground (arith, batch_loop_invalid db.options now a db.journal_counter ts ts' t h)

-- On an open database over an open in-memory store, and with a context that is not done, a call
-- with storable triples returns without an error.
pub update-mem_store :
    (a : Action) (now : ℕ → ℕ) (xs : List Spo) (db : Db MemStore)
    → All IsStorable xs
    → db.closed ≡ false
    → db.store.closed ≡ false
    → (update mem_store a false now (triples xs) db).1 ≡ ok tt
unfolding update write_batch write
update-mem_store a now xs db h e f =
    let (b, n', q, t) = batch_loop-Turns db.options now a db.journal_counter xs h in
    ground (arith, q)
