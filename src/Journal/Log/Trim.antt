-- ===== src/Journal/Log/Trim.antt =====
-- journal.go: what `Trim` and `TrimAndExport` remove.
use levelgraph.Prelude.{
  ℕ, ◌<◌, ◌^◌, ◌/◌, ◌%◌, ◌≡◌, refl, sym, ap, ◌∙◌, true, false, Option, none, some, [], ◌∷◌, ◌++◌,
  arith, if◌then◌else◌, ltb, drop, Bool-cases, inl, inr,
}
use levelgraph.Prelude.Bytes.{Bytes, bytes_lt, starts_with}
use mathlib.Core.Bool.{false≢true}
use levelgraph.Journal.Entry.{journal_prefix, gen_journal_key, put_uint64}
use levelgraph.Journal.Log.{time_key, trim, trim_visited}
use levelgraph.Index.Range.{in_range, in_range-append, in_range_prefix}
use levelgraph.Index.Name.{IndexName, IsIndex, spo, sop, pos, pso, ops, osp, unknown}
use levelgraph.Graph.Triple.{Spo}
use levelgraph.Store.{KvStore}
use levelgraph.Store.Sweep.{delete_each, sweep_lem, sweep_nothing}
use levelgraph.Db.State.{Db, ok}
use levelgraph.Db.Read.{Items}
use levelgraph.Db.Indexed.{IsIndexed-same, index_prefix}
use levelgraph.Db.Refine.{IsSound, holds}

-- One digit of a comparison, where the digits in front of it are equal.
digit-lt :
    (a b x y : ℕ) (u w : Bytes)
    → x / 256 ≡ y / 256
    → (x < y → a < b)
    → (y < x → b < a)
    → (x ≡ y → bytes_lt u w ≡ ltb a b)
    → bytes_lt (x % 256 ∷ u) (y % 256 ∷ w) ≡ ltb a b
unfolding bytes_lt
digit-lt a b x y u w high below above next = elim (Bool-cases (ltb x y)) [
  | inl e ↦ let l : x < y = ground arith in let g = below l in ground arith
  | inr e ↦ elim (Bool-cases (ltb y x)) [
    | inl e' ↦ let l : y < x = ground arith in let g = above l in ground arith
    | inr e' ↦ let l : x ≡ y = ground arith in let g = next l in ground arith
  ]
]

put_uint64-lt :
    (a b : ℕ) (r : Bytes)
    → a < 2 ^ 64
    → b < 2 ^ 64
    → bytes_lt (put_uint64 a ++ r) (put_uint64 b) ≡ ltb a b
unfolding put_uint64 bytes_lt
put_uint64-lt a b r h h' =
    digit-lt a b (a / 2 ^ 56) (b / 2 ^ 56) (drop 1 (put_uint64 a) ++ r) (drop 1 (put_uint64 b))
      (omega arith) (λ l. omega arith) (λ l. omega arith)
      (λ e7.
        digit-lt a b (a / 2 ^ 48) (b / 2 ^ 48) (drop 2 (put_uint64 a) ++ r) (drop 2 (put_uint64 b))
          (omega arith) (λ l. omega arith) (λ l. omega arith)
          (λ e6.
            digit-lt a b (a / 2 ^ 40) (b / 2 ^ 40) (drop 3 (put_uint64 a) ++ r)
              (drop 3 (put_uint64 b)) (omega arith) (λ l. omega arith) (λ l. omega arith)
              (λ e5.
                digit-lt a b (a / 2 ^ 32) (b / 2 ^ 32) (drop 4 (put_uint64 a) ++ r)
                  (drop 4 (put_uint64 b)) (omega arith) (λ l. omega arith) (λ l. omega arith)
                  (λ e4.
                    digit-lt a b (a / 2 ^ 24) (b / 2 ^ 24) (drop 5 (put_uint64 a) ++ r)
                      (drop 5 (put_uint64 b)) (omega arith) (λ l. omega arith) (λ l. omega arith)
                      (λ e3.
                        digit-lt a b (a / 2 ^ 16) (b / 2 ^ 16) (drop 6 (put_uint64 a) ++ r)
                          (drop 6 (put_uint64 b)) (omega arith) (λ l. omega arith)
                          (λ l. omega arith)
                          (λ e2.
                            digit-lt a b (a / 2 ^ 8) (b / 2 ^ 8) (drop 7 (put_uint64 a) ++ r)
                              (drop 7 (put_uint64 b)) (omega arith) (λ l. omega arith)
                              (λ l. omega arith)
                              (λ e1.
                                digit-lt a b a b r [] (omega arith) (λ h. h) (λ h. h)
                                  (λ e. ground arith))))))))

-- Of the journal's keys, those with an earlier time are in the range up to a time.
pub in_range-time_key :
    (nsec counter before : ℕ)
    → nsec < 2 ^ 64
    → before < 2 ^ 64
    → in_range journal_prefix (time_key before) (gen_journal_key nsec counter) ≡ ltb nsec before
unfolding gen_journal_key
in_range-time_key nsec counter before h h' =
    in_range-append journal_prefix (put_uint64 before) (put_uint64 nsec ++ put_uint64 counter)
    ∙ put_uint64-lt nsec before (put_uint64 counter) h h'

-- No key that begins with the journal's prefix lies in an index.
journal-IsForeign :
    (i : IndexName) (r : Bytes)
    → IsIndex i
    → starts_with (index_prefix i) (journal_prefix ++ r) ≡ false
unfolding starts_with
journal-IsForeign spo r h = refl
journal-IsForeign sop r h = refl
journal-IsForeign pos r h = refl
journal-IsForeign pso r h = refl
journal-IsForeign ops r h = refl
journal-IsForeign osp r h = refl
journal-IsForeign (unknown u) r h = absurd h

outside_journal :
    (i : IndexName) (before : ℕ) (k : Bytes)
    → IsIndex i
    → starts_with (index_prefix i) k ≡ true
    → in_range journal_prefix (time_key before) k ≡ false
outside_journal i before k h s = elim (Bool-cases (in_range journal_prefix (time_key before) k)) [
  | inr q ↦ q
  | inl q ↦
      let (r, e) = in_range_prefix journal_prefix (put_uint64 before) k q in
      absurd
        (false≢true (sym (journal-IsForeign i r h) ∙ ap (starts_with (index_prefix i)) (sym e) ∙ s))
]

module _ (S : KvStore) (before : ℕ) (db db' : Db S.State) (n : ℕ) (sound : IsSound S db) where
  trimmed :
      (o : Option Items)
      → S.iterate journal_prefix (time_key before) db.store ≡ o
      → trim_visited S db o ≡ (db', ok n)
      → S.IsValid db'.store
        × ((k : Bytes)
            → S.contents db'.store k ≡ (
                if in_range journal_prefix (time_key before) k
                then none
                else S.contents db.store k))
  trimmed none q h = ground arith
  trimmed (some []) q h =
      let same : db ≡ db' = ground arith in
      rw (← same)
        (sound.valid, sweep_nothing S journal_prefix (time_key before) db.store sound.valid q)
  trimmed (some (item ∷ items)) q h =
      let wrote : S.write (delete_each (item ∷ items)) db.store ≡ some db'.store = ground arith in
      sweep_lem S journal_prefix (time_key before) db.store db'.store (item ∷ items) sound.valid q
        wrote

  -- On a sound database with a journal, `Trim` that returns without an error leaves the database
  -- sound and its triples as they were, removes every journal key whose time is less than that of
  -- the call, both taken as the unsigned 64 bits of `UnixNano`, and keeps every other journal key
  -- with its entry. A time before 1970 so counts as later than all times from 1970 on.
  pub trim_lem :
      before < 2 ^ 64
      → db.options.journal_enabled ≡ true
      → trim S false before db ≡ (db', ok n)
      → IsSound S db'
        × ((y : Spo) → holds S db' y ≡ holds S db y)
        × ((nsec counter : ℕ)
            → nsec < 2 ^ 64
            → S.contents db'.store (gen_journal_key nsec counter) ≡ (
                if ltb nsec before
                then none
                else S.contents db.store (gen_journal_key nsec counter)))
  unfolding trim
  trim_lem small enabled e =
      let (valid, now) =
        trimmed (S.iterate journal_prefix (time_key before) db.store) refl (ground arith) in
      let (indexed, same) =
        IsIndexed-same (S.contents db.store) (S.contents db'.store)
          (λ i k h s. now k ∙ rw (outside_journal i before k h s) refl) sound.indexed in
      (
        record { valid = valid; indexed = indexed },
        same,
        λ nsec counter h.
            now (gen_journal_key nsec counter)
            ∙ rw (in_range-time_key nsec counter before h small) refl,
      )
