-- ===== src/Db/Window.antt =====
-- `getUnlocked` against a plain reading: filter, drop the offset, take the limit, parse.
use levelgraph.Prelude.{
  ℕ, zero, suc, ◌-◌, ◌≤◌, ◌<◌, ◌≡◌, refl, sym, ap, ◌∙◌, Bool, true, false, ◌&&◌, Option, none, some,
  List, [], ◌∷◌, if◌then◌else◌, ltb, leb, ◌==◌, arith, length, take, Bool-cases, inl, inr,
}
use levelgraph.Prelude.Int.{pos_part}
use levelgraph.Prelude.Bytes.{Bytes}
use mathlib.Core.Bool.{false≢true}
use mathlib.Core.List.{reverse}
use levelgraph.Graph.Triple.{Triple}
use levelgraph.Graph.Varint.{Read, ReadError}
use levelgraph.Graph.Codec.{unmarshal}
use levelgraph.Graph.Pattern.{Pattern}
use levelgraph.Store.{KvStore}
use levelgraph.Index.Key.{gen_key_from_pattern, gen_key_with_upper_bound}
use levelgraph.Index.Query.{query_index}
use levelgraph.Db.State.{Db, Result, ok, err, ◌>>=◌, parse_error}
use levelgraph.Db.Read.{
  Items, TripleIterator, passes, panics, next_loop, next, current_triple, get_loop,
  get_iterator_unlocked, get_unlocked, effective_limit,
}

-- The values that the filter lets through, in order, up to the first that the filter cannot be
-- asked about, since parsing it panics. That one is the last.
unfoldable pub wanted : Option (Triple → Bool) → Items → List Bytes
wanted f [] = []
wanted f ((k, value) ∷ items) =
    let rest = wanted f items in
    if panics f value then value ∷ [] else if passes f value then value ∷ rest else rest

-- The values without the first `n`; a panic is never left out.
unfoldable pub skip : Option (Triple → Bool) → ℕ → List Bytes → List Bytes
skip f zero values = values
skip f (suc n) [] = []
skip f (suc n) (value ∷ values) =
    let rest = skip f n values in if panics f value then value ∷ values else rest

-- At most `limit` of them; 0 is no limit.
abbrev pub limited : ℕ → List Bytes → List Bytes
limited limit values = if limit == 0 then values else take limit values

-- All values parsed, or the first error.
unfoldable pub parse_all : List Bytes → Result (List Triple)
parse_all [] = ok []
parse_all (value ∷ values) = elim (unmarshal value) [
  | Read.err e ↦ err (parse_error e)
  | Read.ok t ↦ do ts ← parse_all values; ok (t ∷ ts)
]

-- Where the loop of `Next` stops.
data Stops (f : Option (Triple → Bool)) (offset skipped : ℕ) (items : Items) : Type 0 where
  at_end :
      next_loop f offset skipped items ≡ none
      → skip f (offset - skipped) (wanted f items) ≡ []
      → Stops f offset skipped items
  at :
      (value : Bytes) (rest : Items) (skipped' : ℕ)
      → next_loop f offset skipped items ≡ some (value, rest, skipped')
      → skip f (offset - skipped) (wanted f items)
        ≡ value ∷ skip f (offset - skipped') (wanted f rest)
      → length rest < length items
      → Stops f offset skipped items
  breaks :
      (value : Bytes) (rest : Items) (skipped' : ℕ) (e : ReadError)
      → next_loop f offset skipped items ≡ some (value, rest, skipped')
      → skip f (offset - skipped) (wanted f items) ≡ value ∷ []
      → unmarshal value ≡ Read.err e
      → Stops f offset skipped items

skip_nil : (f : Option (Triple → Bool)) (n : ℕ) → skip f n [] ≡ []
unfolding skip
skip_nil f zero = refl
skip_nil f (suc n) = refl

skip_over :
    (f : Option (Triple → Bool)) (offset skipped : ℕ) (value : Bytes) (values : List Bytes)
    → panics f value ≡ false
    → skipped < offset
    → skip f (offset - skipped) (value ∷ values) ≡ skip f (offset - suc skipped) values
unfolding skip
skip_over f offset skipped value values quiet h =
    let e : offset - skipped ≡ suc (offset - suc skipped) = omega arith in rw (e, quiet) refl

skip_none :
    (f : Option (Triple → Bool)) (offset skipped : ℕ) (values : List Bytes)
    → offset ≤ skipped
    → skip f (offset - skipped) values ≡ values
unfolding skip
skip_none f offset skipped values h = let e : offset - skipped ≡ 0 = omega arith in rw e refl

skip_panic :
    (f : Option (Triple → Bool)) (n : ℕ) (value : Bytes)
    → panics f value ≡ true
    → skip f n (value ∷ []) ≡ value ∷ []
unfolding skip
skip_panic f zero value h = refl
skip_panic f (suc n) value h = rw h refl

panics_error :
    (f : Option (Triple → Bool)) (value : Bytes)
    → panics f value ≡ true
    → (e : ReadError) × (unmarshal value ≡ Read.err e)
unfolding panics
panics_error none value h = cc
panics_error (some f) value h = go (unmarshal value) refl
  where
    go : (r : Read Triple) → unmarshal value ≡ r → (e : ReadError) × (unmarshal value ≡ Read.err e)
    go (Read.ok t) q = absurd (false≢true (rw q at h))
    go (Read.err e) q = (e, q)

module _ (f : Option (Triple → Bool)) (offset skipped : ℕ) (k value : Bytes) (items : Items) where
  -- An item that is passed over.
  stops_filtered :
      panics f value ≡ false
      → passes f value ≡ false
      → Stops f offset skipped items
      → Stops f offset skipped ((k, value) ∷ items)
  unfolding next_loop wanted
  stops_filtered quiet e (at_end h d) = at_end (rw (quiet, e) h) (rw (quiet, e) d)
  stops_filtered quiet e (at w rest s h d l) =
      at w rest s (rw (quiet, e) h) (rw (quiet, e) d) (omega arith)
  stops_filtered quiet e (breaks w rest s x h d p) =
      breaks w rest s x (rw (quiet, e) h) (rw (quiet, e) d) p

  stops_skipped :
      panics f value ≡ false
      → passes f value ≡ true
      → ltb skipped offset ≡ true
      → Stops f offset (suc skipped) items
      → Stops f offset skipped ((k, value) ∷ items)
  unfolding next_loop wanted
  stops_skipped quiet e q (at_end h d) =
      at_end (rw (quiet, e) (rw q h))
        (rw (quiet, e) (skip_over f offset skipped value _ quiet (ground arith) ∙ d))
  stops_skipped quiet e q (at w rest s h d l) =
      at w rest s (rw (quiet, e) (rw q h))
        (rw (quiet, e) (skip_over f offset skipped value _ quiet (ground arith) ∙ d)) (omega arith)
  stops_skipped quiet e q (breaks w rest s x h d p) =
      breaks w rest s x (rw (quiet, e) (rw q h))
        (rw (quiet, e) (skip_over f offset skipped value _ quiet (ground arith) ∙ d)) p

  stops_here :
      panics f value ≡ false
      → passes f value ≡ true
      → ltb skipped offset ≡ false
      → Stops f offset skipped ((k, value) ∷ items)
  unfolding next_loop wanted
  stops_here quiet e q =
      at value items skipped (rw (quiet, e) (rw q))
        (rw (quiet, e)
          (skip_none f offset skipped _ (ground arith)
            ∙ ap (λ l. value ∷ l) (sym (skip_none f offset skipped _ (ground arith)))))
        (omega arith)

  stops_panic : panics f value ≡ true → Stops f offset skipped ((k, value) ∷ items)
  unfolding next_loop wanted
  stops_panic h =
      let (x, p) = panics_error f value h in
      breaks value items skipped x (rw h refl) (rw h (skip_panic f (offset - skipped) value h)) p

stops :
    (f : Option (Triple → Bool)) (offset skipped : ℕ) (items : Items) → Stops f offset skipped items
stops f offset skipped [] = at_end (unfold next_loop in refl) (unfold wanted in skip_nil f _)
stops f offset skipped ((k, value) ∷ items) = elim (Bool-cases (panics f value)) [
  | inl h ↦ stops_panic f offset skipped k value items h
  | inr quiet ↦ elim (Bool-cases (passes f value)) [
    | inl e ↦ elim (Bool-cases (ltb skipped offset)) [
      | inl q ↦
          stops_skipped f offset skipped k value items quiet e q
            (stops f offset (suc skipped) items)
      | inr q ↦ stops_here f offset skipped k value items quiet e q
    ]
    | inr e ↦ stops_filtered f offset skipped k value items quiet e (stops f offset skipped items)
  ]
]

-- What the limit leaves of the values when `count` have been returned; 0 is no limit.
abbrev taken : ℕ → ℕ → List Bytes → List Bytes
taken limit count values = if limit == 0 then values else take (limit - count) values

take_nil : (n : ℕ) → take {A = Bytes} n [] ≡ []
take_nil zero = refl
take_nil (suc n) = refl

taken_nil : (limit count : ℕ) → taken limit count [] ≡ []
taken_nil limit count = ground (arith, take_nil (limit - count))

taken_full :
    (limit count : ℕ) (values : List Bytes)
    → (ltb 0 limit && leb limit count) ≡ true
    → taken limit count values ≡ []
taken_full limit count values h =
    let none_left : limit - count ≡ 0 = ground arith in
    let bounded : (limit == 0) ≡ false = ground arith in rw (bounded, none_left)

taken_cons :
    (limit count : ℕ) (value : Bytes) (values : List Bytes)
    → (ltb 0 limit && leb limit count) ≡ false
    → taken limit count (value ∷ values) ≡ value ∷ taken limit (suc count) values
taken_cons limit count value values h = elim (Bool-cases (limit == 0)) [
  | inl e ↦ rw e
  | inr e ↦ let more : limit - count ≡ suc (limit - suc count) = ground arith in rw (e, more)
]

-- What an iterator has still to return.
abbrev remaining : TripleIterator → List Bytes
remaining ti =
    taken (pos_part ti.limit) ti.count
      (skip ti.filter (pos_part ti.offset - ti.skipped) (wanted ti.filter ti.pending))

-- One call of `Next`.
data Steps (ti : TripleIterator) : Type 0 where
  ends : next ti ≡ none → remaining ti ≡ [] → Steps ti
  goes :
      (ti' : TripleIterator)
      → next ti ≡ some ti'
      → remaining ti ≡ ti'.here ∷ remaining ti'
      → length ti'.pending < length ti.pending
      → Steps ti
  fails :
      (ti' : TripleIterator) (values : List Bytes) (e : ReadError)
      → next ti ≡ some ti'
      → remaining ti ≡ ti'.here ∷ values
      → unmarshal ti'.here ≡ Read.err e
      → Steps ti

steps : (ti : TripleIterator) → Steps ti
unfolding next
steps ti = elim (Bool-cases (ltb 0 (pos_part ti.limit) && leb (pos_part ti.limit) ti.count)) [
  | inl e ↦ ends (rw e) (taken_full (pos_part ti.limit) ti.count _ e)
  | inr e ↦ elim (stops ti.filter (pos_part ti.offset) ti.skipped ti.pending) [
    | at_end h d ↦ ends (rw e (rw h)) (rw d (taken_nil (pos_part ti.limit) ti.count))
    | at w rest s h d l ↦
        goes (record ti { pending = rest; count = suc ti.count; skipped = s; here = w })
          (rw e (rw h)) (rw d (taken_cons (pos_part ti.limit) ti.count w _ e)) l
    | breaks w rest s x h d p ↦
        fails (record ti { pending = rest; count = suc ti.count; skipped = s; here = w })
          (taken (pos_part ti.limit) (suc ti.count) []) x (rw e (rw h))
          (rw d (taken_cons (pos_part ti.limit) ti.count w _ e)) p
  ]
]

get_loop_lem :
    (fuel : ℕ) (ti : TripleIterator)
    → length ti.pending < fuel
    → get_loop fuel ti ≡ some (parse_all (remaining ti))
unfolding get_loop current_triple parse_all
get_loop_lem zero ti h = absurd (omega arith)
get_loop_lem (suc fuel) ti h = elim (steps ti) [
  | ends e d ↦ rw (e, get_loop) (rw d)
  | goes ti' e d l ↦ rw (e, get_loop) (rw d (ground (arith, get_loop_lem fuel ti' (omega arith))))
  | fails ti' values x e d p ↦ rw (e, get_loop) (rw d (rw (p, parse_all) refl))
]

fresh_remaining :
    (f : Option (Triple → Bool)) (limit offset : ℕ) (values : List Bytes)
    → taken limit 0 (skip f (offset - 0) values) ≡ limited limit (skip f offset values)
fresh_remaining f limit offset values =
    let e : limit - 0 ≡ limit = omega arith in
    let f : offset - 0 ≡ offset = omega arith in rw (e, f)

module _ (S : KvStore) (db : Db S.State) (p : Pattern) (items : Items) where
  -- What the query visits, in its order.
  abbrev pub visited : Items
  visited = if p.reverse then reverse items else items

  abbrev pub query_limit : ℕ
  query_limit = pos_part (effective_limit p.limit db.options.default_limit)

  -- If the store's iterator over the query's range has these items, then `getUnlocked` ends, and
  -- returns what the filter lets through, in the order of the keys or its reverse, without the
  -- first `Offset` and up to the limit of the pattern or of the options; or the error of the first
  -- of these that does not parse. A value met before the limit at which parsing for the filter
  -- panics ends this, and its panic is the error, within the offset too.
  pub get_unlocked_window :
      S.iterate
          (gen_key_from_pattern (query_index p) p)
          (gen_key_with_upper_bound (query_index p) p)
          db.store
        ≡ some items
      → get_unlocked S db p
        ≡ some (
            parse_all
              (limited query_limit (skip p.filter (pos_part p.offset) (wanted p.filter visited))))
  unfolding get_unlocked get_iterator_unlocked
  get_unlocked_window h =
      let ti : TripleIterator = record {
        pending = visited;
        filter = p.filter;
        offset = p.offset;
        limit = effective_limit p.limit db.options.default_limit;
        count = 0;
        skipped = 0;
        here = [];
      } in
      rw (h, get_unlocked, get_iterator_unlocked)
        (get_loop_lem (suc (length visited)) ti (omega arith)
          ∙ ap (λ l. some (parse_all l))
              (fresh_remaining p.filter query_limit (pos_part p.offset) _))
