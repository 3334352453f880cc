-- ===== src/Facets/Laws.antt =====
-- facets.go: facets of different names and owners are independent of each other.
use levelgraph.Prelude.{
  ◌≡◌, refl, sym, ◌∙◌, true, false, ◌&&◌, Option, none, some, [], ◌∷◌, ◌++◌, arith, if◌then◌else◌,
  append_assoc, append-cancel, Bool-cases, inl, inr, subst,
}
use levelgraph.Prelude.Bytes.{
  Bytes, Slice, bytes_eq, bytes_eq-true, bytes_eq_refl, starts_with, starts_with-append,
}
use mathlib.Core.Bool.{false≢true}
use levelgraph.Graph.Triple.{Triple}
use levelgraph.Index.Escape.{
  key_separator, escape_loop, escape_lem, escape_split, escape_loop_injective,
}
use levelgraph.Index.Range.{in_range, in_range-append, in_range_prefix, IsClean, lt-ff}
use levelgraph.Index.Select.{escape_loop-IsClean}
use levelgraph.Store.{KvStore, apply_op}
use levelgraph.Store.Sweep.{delete_each, sweep_lem}
use levelgraph.Db.State.{Db, ok}
use levelgraph.Db.Read.{Items}
use levelgraph.Facets.{
  facet_prefix, gen_facet_key, gen_triple_facet_key, gen_triple_facet_prefix, set_at, get_at,
  del_all_triple_facets, set_facet, get_facet, delete_visited,
}

-- A facet type that `Escape` would leave as it is: so are all three constants.
abbrev pub IsPlain : Bytes → Type 0
IsPlain kind = escape_loop kind ≡ kind

facet_key-escape :
    (kind value key : Bytes)
    → IsPlain kind
    → gen_facet_key kind (some value) (some key)
      ≡ facet_prefix
        ++ (escape_loop kind
            ++ (key_separator ++ (escape_loop value ++ (key_separator ++ escape_loop key))))
unfolding gen_facet_key
facet_key-escape kind value key h = rw (h, escape_lem value, escape_lem key) refl

-- The keys of two facets of components are the same only if the types, the values and the names
-- are.
pub gen_facet_key_injective :
    (kind kind' value value' key key' : Bytes)
    → IsPlain kind
    → IsPlain kind'
    → gen_facet_key kind (some value) (some key) ≡ gen_facet_key kind' (some value') (some key')
    → (kind ≡ kind') × (value ≡ value') × (key ≡ key')
gen_facet_key_injective kind kind' value value' key key' h h' e =
    let whole =
      sym (facet_key-escape kind value key h) ∙ e ∙ facet_key-escape kind' value' key' h' in
    let (a, e1) = escape_split kind kind' _ _ (append-cancel facet_prefix _ _ whole) in
    let (b, e2) = escape_split value value' _ _ e1 in (a, b, escape_loop_injective key key' e2)

-- The key of a triple's facet, behind the prefix of the triple.
triple_facet_key-prefix :
    (t : Triple) (key : Bytes)
    → gen_triple_facet_key t (some key) ≡ gen_triple_facet_prefix t ++ escape_loop key
unfolding gen_triple_facet_key gen_triple_facet_prefix
triple_facet_key-prefix t key = simp (append_assoc, escape_lem)

module _ (S : KvStore) where
  set_at_wrote :
      (k value : Bytes) (db db' : Db S.State)
      → set_at S k false value db ≡ (db', ok tt)
      → S.put k value db.store ≡ some db'.store
  unfolding set_at
  set_at_wrote k value db db' e = ground arith

  get_at_read :
      (k : Bytes) (db : Db S.State) (r : Option Bytes)
      → get_at S k false db ≡ ok r
      → r ≡ S.contents db.store k
  unfolding get_at
  get_at_read k db r e =
      let read : S.get k db.store ≡ some r = ground arith in S.get_law k db.store read

  -- After `SetFacet` without an error, `GetFacet` that returns no error returns the new value for
  -- the same type, value and name, and for all others what it returned before.
  pub get_facet-set_facet :
      (kind kind' value value' key key' facet_value : Bytes) (db db' : Db S.State)
      (before after : Slice)
      → IsPlain kind
      → IsPlain kind'
      → S.IsValid db.store
      → get_facet S kind' (some value') (some key') false db ≡ ok before
      → set_facet S kind (some value) (some key) facet_value false db ≡ (db', ok tt)
      → get_facet S kind' (some value') (some key') false db' ≡ ok after
      → S.IsValid db'.store
        × (after ≡ (
            if bytes_eq kind kind' && (bytes_eq value value' && bytes_eq key key')
            then some facet_value
            else before))
  unfolding set_facet get_facet apply_op
  get_facet-set_facet kind kind' value value' key key' fv db db' before after h h' valid e0 e e' =
      let k = gen_facet_key kind (some value) (some key) in
      let k' = gen_facet_key kind' (some value') (some key') in
      let (valid', law) = S.put_law k fv db.store db'.store valid (set_at_wrote k fv db db' e) in
      let first = get_at_read k' db before e0 in
      let later = get_at_read k' db' after e' ∙ law k' in
      (
        valid',
        elim (Bool-cases (bytes_eq k k')) [
          | inl q ↦
              let (a, b, c) =
                gen_facet_key_injective kind kind' value value' key key' h h'
                  (bytes_eq-true k k' q) in
              later
              ∙ rw (q, a, b, c, bytes_eq_refl kind', bytes_eq_refl value', bytes_eq_refl key') refl
          | inr q ↦
              elim (Bool-cases
                (bytes_eq kind kind' && (bytes_eq value value' && bytes_eq key key'))) [
                  | inr d ↦ later ∙ rw (q, d) (sym first)
                  | inl d ↦ absurd (false≢true (sym q ∙ same_keys d))
                ]
        ],
      )
    where
      same_keys :
          bytes_eq kind kind' && (bytes_eq value value' && bytes_eq key key') ≡ true
          → bytes_eq
              (gen_facet_key kind (some value) (some key))
              (gen_facet_key kind' (some value') (some key'))
            ≡ true
      same_keys d =
          let a : bytes_eq kind kind' ≡ true = ground arith in
          let b : bytes_eq value value' ≡ true = ground arith in
          let c : bytes_eq key key' ≡ true = ground arith in
          rw (bytes_eq-true kind kind' a, bytes_eq-true value value' b, bytes_eq-true key key' c)
            (bytes_eq_refl _)

  swept :
      (t : Triple) (db db' : Db S.State)
      → del_all_triple_facets S t false db ≡ (db', ok tt)
      → (items : Items) × (S.iterate
            (gen_triple_facet_prefix t)
            (gen_triple_facet_prefix t ++ (255 ∷ []))
            db.store
          ≡ some items)
        × (S.write (delete_each items) db.store ≡ some db'.store)
  unfolding del_all_triple_facets
  swept t db db' e =
      let start = gen_triple_facet_prefix t in
      go (S.iterate start (start ++ (255 ∷ [])) db.store) (ground arith)
    where
      go :
          (o : Option Items)
          → delete_visited S db o ≡ (db', ok tt)
          → (items : Items) × (o ≡ some items)
            × (S.write (delete_each items) db.store ≡ some db'.store)
      go none h = ground arith
      go (some items) h = (items, refl, ground arith)

  -- After `DelAllTripleFacets` without an error the triple has no facet whose name has no byte
  -- 0xFF, and no key that does not begin with the triple's prefix has changed.
  pub del_all_triple_facets_lem :
      (t : Triple) (db db' : Db S.State)
      → S.IsValid db.store
      → del_all_triple_facets S t false db ≡ (db', ok tt)
      → S.IsValid db'.store
        × ((name : Bytes)
            → IsClean name
            → S.contents db'.store (gen_triple_facet_key t (some name)) ≡ none)
        × ((k : Bytes)
            → starts_with (gen_triple_facet_prefix t) k ≡ false
            → S.contents db'.store k ≡ S.contents db.store k)
  del_all_triple_facets_lem t db db' valid e =
      let start = gen_triple_facet_prefix t in
      let limit = start ++ (255 ∷ []) in
      let (items, read, wrote) = swept t db db' e in
      let (valid', now) = sweep_lem S start limit db.store db'.store items valid read wrote in
      (
        valid',
        (λ name clean.
            let inside : in_range start limit (start ++ escape_loop name) ≡ true =
              in_range-append start (255 ∷ []) (escape_loop name)
              ∙ lt-ff (escape_loop name) (escape_loop-IsClean name clean) in
            now _ ∙ rw (triple_facet_key-prefix t name) (rw inside refl)),
        λ k away. elim (Bool-cases (in_range start limit k)) [
          | inr q ↦ now k ∙ rw q refl
          | inl q ↦
              let (r, f) = in_range_prefix start (255 ∷ []) k q in
              absurd (
                false≢true (
                  sym away
                  ∙ subst (λ l. starts_with start l ≡ true) (sym f) (starts_with-append start r)))
        ],
      )
