-- ===== src/Facets/Iterator.antt =====
-- facets.go: `FacetIterator`, over an iterator of the store that has `here` visited and `pending`
-- ahead.
use levelgraph.Prelude.{
  ℕ, zero, suc, ◌≤◌, ◌≡◌, ◌⊎◌, inl, inr, refl, sym, ◌∙◌, Bool, true, false, Option, none, some, [],
  ◌∷◌, ◌++◌, if◌then◌else◌, ltb, length, drop, arith, Bool-cases,
}
use levelgraph.Prelude.Bytes.{Bytes, Slice, slice_bytes}
use levelgraph.Prelude.Assoc.{Assoc, insert}
use levelgraph.Graph.Triple.{Triple}
use levelgraph.Index.Escape.{unescape, unescape_lem}
use levelgraph.Store.{KvStore}
use levelgraph.Db.State.{Db, Error, Result, ok, err, store_error}
use levelgraph.Db.Read.{Items}
use levelgraph.Facets.{refusal, collect, get_under, gen_facet_prefix, gen_triple_facet_prefix}

-- `failed` is whether the store's iterator carries an error; then it visits nothing.
pub record FacetIterator : Type 0 where
  pub pending : Items
  pub here : Option (Bytes × Bytes)
  pub prefix_len : ℕ
  pub failed : Bool

abbrev moved : FacetIterator → Items → FacetIterator × Bool
moved fi [] = (record fi { pending = []; here = none }, false)
moved fi (item ∷ items) = (record fi { pending = items; here = some item }, true)

unfoldable pub next : FacetIterator → FacetIterator × Bool
next fi = moved fi fi.pending

unfoldable pub key : FacetIterator → Slice
key fi = elim fi.here [
  | none ↦ none
  | some (k, v) ↦
      if ltb fi.prefix_len (length k) then unescape (some (drop fi.prefix_len k)) else none
]

unfoldable pub value : FacetIterator → Slice
value fi = elim fi.here [ none ↦ none | some (k, v) ↦ some v ]

unfoldable pub close : FacetIterator → FacetIterator
close fi = record fi { pending = []; here = none }

-- `Error`
unfoldable pub error : FacetIterator → Option Error
error fi = if fi.failed then some store_error else none

abbrev over : ℕ → Option Items → FacetIterator
over prefix_len none = record { pending = []; here = none; prefix_len = prefix_len; failed = true }
over prefix_len (some items) = record {
  pending = items;
  here = none;
  prefix_len = prefix_len;
  failed = false;
}

module _ (S : KvStore) where
  unfoldable pub iterator_under : Bytes → Bool → Db S.State → Result FacetIterator
  iterator_under start done db = elim (refusal done db) [
    | some e ↦ err e
    | none ↦ ok (over (length start) (S.iterate start (start ++ (255 ∷ [])) db.store))
  ]

  unfoldable pub get_facet_iterator : Bytes → Slice → Bool → Db S.State → Result FacetIterator
  get_facet_iterator kind value = iterator_under (gen_facet_prefix kind value)

  unfoldable pub get_triple_facet_iterator : Triple → Bool → Db S.State → Result FacetIterator
  get_triple_facet_iterator t = iterator_under (gen_triple_facet_prefix t)

-- The loop of a client that keeps what `Key` and `Value` return, where there is a key; `none` is
-- the fuel's end.
abbrev kept : Slice → Slice → Assoc Bytes → Assoc Bytes
kept none v out = out
kept (some k) v out = insert k (slice_bytes v) out

unfoldable pub facet_loop : ℕ → FacetIterator → Assoc Bytes → Option (Assoc Bytes × FacetIterator)
facet_loop zero fi out = none
facet_loop (suc fuel) fi out =
    let (fi', more) = next fi in
    elim more [
      | false ↦ some (out, fi')
      | true ↦ facet_loop fuel fi' (kept (key fi') (value fi') out)
    ]

abbrev standing : Option (Bytes × Bytes) → Items → ℕ → Bool → FacetIterator
standing here pending prefix_len failed = record {
  pending = pending;
  here = here;
  prefix_len = prefix_len;
  failed = failed;
}

kept-key :
    (k v : Bytes) (items : Items) (prefix_len : ℕ) (failed : Bool) (out : Assoc Bytes)
    → kept (key (standing (some (k, v)) items prefix_len failed)) (some v) out ≡ (
        if ltb prefix_len (length k)
        then insert (slice_bytes (unescape (some (drop prefix_len k)))) v out
        else out)
unfolding key
kept-key k v items prefix_len failed out = elim (Bool-cases (ltb prefix_len (length k))) [
  | inl long ↦ rw (long, unescape_lem (drop prefix_len k)) refl
  | inr short ↦ rw short refl
]

facet_loop-collect :
    (items : Items) (here : Option (Bytes × Bytes)) (prefix_len : ℕ) (failed : Bool)
    (out : Assoc Bytes) (n : ℕ)
    → suc (length items) ≤ n
    → (last : FacetIterator) × (last.failed ≡ failed)
      × (facet_loop n (standing here items prefix_len failed) out
          ≡ some (collect prefix_len items out, last))
unfolding facet_loop next value collect
facet_loop-collect [] here prefix_len failed out zero h =
    let none_left : ⊥ = omega arith in absurd none_left
facet_loop-collect [] here prefix_len failed out (suc n) h =
    (standing none [] prefix_len failed, refl, refl)
facet_loop-collect (item ∷ items) here prefix_len failed out zero h =
    let none_left : ⊥ = omega arith in absurd none_left
facet_loop-collect ((k, v) ∷ items) here prefix_len failed out (suc n) h =
    rw (kept-key k v items prefix_len failed out)
      (facet_loop-collect items (some (k, v)) prefix_len failed _ n (omega arith))

-- What `GetFacets` and the iterator come to, from what is refused and what the store visits.
abbrev got : ℕ → Option Error → Option Items → Result (Assoc Bytes)
got size (some e) items = err e
got size none none = err store_error
got size none (some items) = ok (collect size items [])

abbrev opened : ℕ → Option Error → Option Items → Result FacetIterator
opened size (some e) items = err e
opened size none items = ok (over size items)

-- The iterator has the facets, and ends without an error.
abbrev pub Visits : FacetIterator → Assoc Bytes → Type 0
Visits fi out =
    (n : ℕ)
    → suc (length fi.pending) ≤ n
    → (last : FacetIterator) × (error last ≡ none) × (facet_loop n fi [] ≡ some (out, last))

opened-Visits :
    (size : ℕ) (r : Option Error) (items : Option Items) (out : Assoc Bytes)
    → got size r items ≡ ok out
    → (fi : FacetIterator) × (opened size r items ≡ ok fi) × Visits fi out
unfolding error
opened-Visits size (some e) items out q = cc
opened-Visits size none none out q = cc
opened-Visits size none (some items) out q = (
  over size (some items),
  refl,
  λ n h.
      let same : collect size items [] ≡ out = ground arith in
      let (last, f, e) = facet_loop-collect items none size false [] n h in
      (last, rw f refl, rw (← same) e),
)

opened-error :
    (size : ℕ) (r : Option Error) (items : Option Items) (e : Error)
    → got size r items ≡ err e
    → (opened size r items ≡ err e)
      ⊎ ((fi : FacetIterator) × (opened size r items ≡ ok fi) × (error fi ≡ some e))
unfolding error
opened-error size (some x) items e q = inl (ground arith)
opened-error size none none e q = inr (over size none, refl, ground arith)
opened-error size none (some items) e q = cc

module _ (S : KvStore) (start : Bytes) (done : Bool) (db : Db S.State) where
  -- Where GetFacets or GetTripleFacets returns facets, the iterator of facets with the same
  -- arguments is opened, and a loop over it that keeps each key with its value, where there is a
  -- key, has these facets and ends without an error; where they return an error, the iterator is
  -- refused with the same error or is opened and carries it.
  pub iterator_under-get_under :
      ((out : Assoc Bytes)
        → get_under S start done db ≡ ok out
        → (fi : FacetIterator) × (iterator_under S start done db ≡ ok fi) × Visits fi out)
      × ((e : Error)
          → get_under S start done db ≡ err e
          → (iterator_under S start done db ≡ err e)
            ⊎ ((fi : FacetIterator) × (iterator_under S start done db ≡ ok fi)
                × (error fi ≡ some e)))
  unfolding get_under iterator_under
  iterator_under-get_under = (
    λ out q.
        let (fi, e, visits) = opened-Visits size (refusal done db) visited out (sym get ∙ q) in
        (fi, opening ∙ e, visits),
    λ e q. elim (opened-error size (refusal done db) visited e (sym get ∙ q)) [
      | inl refused ↦ inl (opening ∙ refused)
      | inr (fi, o, carried) ↦ inr (fi, opening ∙ o, carried)
    ],
  )
    where
      size : ℕ
      size = length start

      visited : Option Items
      visited = S.iterate start (start ++ (255 ∷ [])) db.store

      got-elim :
          (r : Option Error) (items : Option Items)
          → elim r as (λ x. Result (Assoc Bytes)) [
            | some e ↦ err e
            | none ↦ elim items [ none ↦ err store_error | some its ↦ ok (collect size its []) ]
          ]
            ≡ got size r items
      got-elim (some e) items = refl
      got-elim none none = refl
      got-elim none (some items) = refl

      opened-elim :
          (r : Option Error) (items : Option Items)
          → elim r as (λ x. Result FacetIterator) [ some e ↦ err e | none ↦ ok (over size items) ]
            ≡ opened size r items
      opened-elim (some e) items = refl
      opened-elim none items = refl

      get : get_under S start done db ≡ got size (refusal done db) visited
      get = got-elim (refusal done db) visited

      opening : iterator_under S start done db ≡ opened size (refusal done db) visited
      opening = opened-elim (refusal done db) visited
