-- ===== src/Tests/Stores.antt =====
-- The in-memory store and the database's writes.
use levelgraph.Prelude.{
  ℕ, ◌≡◌, refl, ◌↔◌, true, false, none, some, List, [], ◌∷◌, arith, ap, Mem, All,
}
use levelgraph.Prelude.Bytes.{Bytes, codes, bytes_eq, bytes_lt}
use levelgraph.Prelude.Assoc.{lookup, insert, erase}
use levelgraph.Graph.Triple.{Spo, triple}
use levelgraph.Index.Range.{in_range}
use levelgraph.Store.{Op, apply_batch, IsAscending}
use levelgraph.MemStore.{
  MemStore, write, replay, replay_op, new_iterator, in_slice, keys_in, sort_in, sort_strings,
}
use levelgraph.MemStore.Laws.{mem_store, IsValid, contents, iterate, iterate_lem, write_lem}
use levelgraph.Db.State.{Db, ok, err, err_invalid_triple, validate_triple}
use levelgraph.Db.Write.{put, del, update, write_batch}
use levelgraph.Db.Indexed.{IsStorable, IsIndexed-empty}
use levelgraph.Db.Turns.{set_after, triples}
use levelgraph.Db.Refine.{IsSound, holds, update_refines, update_invalid, update-mem_store}
use levelgraph.Tests.Data.{bob, bobby, fresh}

abbrev two : MemStore
two = record { entries = (codes "b", codes "2") ∷ (codes "a", codes "1") ∷ []; closed = false }

iterate_two :
    iterate (codes "a") (codes "c") two
    ≡ some ((codes "a", codes "1") ∷ (codes "b", codes "2") ∷ [])
unfolding new_iterator in_slice keys_in sort_in sort_strings lookup bytes_eq bytes_lt
iterate_two = refl

two-IsValid : IsValid two
unfolding lookup bytes_eq
two-IsValid = (refl, (refl, tt))

iterate_lem_example :
    IsAscending ((codes "a", codes "1") ∷ (codes "b", codes "2") ∷ [])
    × ((k v : Bytes)
        → Mem {A = Bytes × Bytes} (k, v) ((codes "a", codes "1") ∷ (codes "b", codes "2") ∷ [])
          ↔ ((contents two k ≡ some v) × (in_range (codes "a") (codes "c") k ≡ true)))
iterate_lem_example = iterate_lem (codes "a") (codes "c") two _ two-IsValid iterate_two

abbrev one : MemStore
one = record { entries = (codes "b", codes "3") ∷ []; closed = false }

write_two : write (Op.del (codes "a") ∷ Op.put (codes "b") (codes "3") ∷ []) two ≡ some one
unfolding write replay replay_op insert erase bytes_eq
write_two = refl

write_lem_example :
    IsValid one
    × ((j : Bytes)
        → contents one j
          ≡ apply_batch (contents two) (Op.del (codes "a") ∷ Op.put (codes "b") (codes "3") ∷ []) j)
write_lem_example = write_lem _ two one two-IsValid write_two

pub fresh-IsSound : IsSound mem_store fresh
unfolding lookup
fresh-IsSound = record { valid = tt; indexed = IsIndexed-empty }

abbrev pub clock : ℕ → ℕ
clock n = n

abbrev pub both : List Spo
both = bob ∷ bobby ∷ []

pub both-IsStorable : All IsStorable both
both-IsStorable = omega arith

pub put_ok : (update mem_store put false clock (triples both) fresh).1 ≡ ok tt
put_ok = update-mem_store put clock both fresh both-IsStorable refl refl

update-mem_store_example : (update mem_store put false clock (triples both) fresh).1 ≡ ok tt
update-mem_store_example = update-mem_store put clock both fresh both-IsStorable refl refl

-- The database after `Put` of both triples.
abbrev pub filled : Db MemStore
filled = (update mem_store put false clock (triples both) fresh).0

pub filled_refines :
    IsSound mem_store filled
    × ((y : Spo) → holds mem_store filled y ≡ set_after put both (holds mem_store fresh) y)
filled_refines =
    update_refines mem_store put false clock both fresh filled both-IsStorable fresh-IsSound
      (ap (λ r. (filled, r)) put_ok)

update_refines_example :
    IsSound mem_store filled
    × ((y : Spo) → holds mem_store filled y ≡ set_after put both (holds mem_store fresh) y)
update_refines_example =
    update_refines mem_store put false clock both fresh filled both-IsStorable fresh-IsSound
      (ap (λ r. (filled, r)) put_ok)

pub filled_open : filled.closed ≡ false
unfolding update write_batch
filled_open = ground arith

update_invalid_example :
    ((update mem_store del false clock (some (triple bob) ∷ none ∷ []) filled).1
      ≡ err err_invalid_triple)
    × ((update mem_store del false clock (some (triple bob) ∷ none ∷ []) filled).0.store
        ≡ filled.store)
unfolding validate_triple
update_invalid_example =
    update_invalid mem_store del clock (some (triple bob) ∷ []) [] none filled refl filled_open
