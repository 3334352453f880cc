-- ===== src/Facets/All.antt =====
-- facets.go: what `GetFacets` and `GetTripleFacets` return.
use levelgraph.Prelude.{
  ℕ, ◌<◌, ◌≡◌, refl, sym, ap, ◌∙◌, inl, inr, true, false, Option, some, [], ◌∷◌, ◌++◌, arith,
  if◌then◌else◌, ltb, length, drop, drop-append, length-append, append-cancel, append_assoc, Mem,
  All, Bool-cases, Option-cases, subst,
}
use levelgraph.Prelude.Bytes.{
  Bytes, slice_bytes, bytes_eq, bytes_eq-true, bytes_eq_refl, starts_with, starts_with-append,
}
use levelgraph.Prelude.Assoc.{Assoc, lookup, insert, lookup-insert}
use levelgraph.Index.Escape.{
  escape_loop, unescape, escape_lem, unescape_lem, unescape_loop-escape_loop, escape_loop_injective,
}
use levelgraph.Index.Range.{in_range-append, in_range_prefix, IsClean, lt-ff}
use levelgraph.Index.Select.{escape_loop-IsClean}
use levelgraph.Store.{KvStore}
use levelgraph.Db.State.{Db, ok}
use levelgraph.Db.Read.{Items}
use levelgraph.Facets.{collect, get_under, get_facets, gen_facet_key, gen_facet_prefix}

-- A facet with the empty name is left out.
abbrev insert_named : Bytes → Bytes → Assoc Bytes → Assoc Bytes
insert_named [] value out = out
insert_named (b ∷ name) value out = insert (b ∷ name) value out

escape_loop_nonempty : (b : ℕ) (name : Bytes) → 0 < length (escape_loop (b ∷ name))
unfolding escape_loop
escape_loop_nonempty b name = ground arith

named_step :
    (start name value : Bytes) (out : Assoc Bytes)
    → (if ltb (length start) (length (start ++ escape_loop name))
        then insert name value out
        else out)
      ≡ insert_named name value out
unfolding escape_loop
named_step start [] value out =
    let e : ltb (length start) (length (start ++ [])) ≡ false =
      ground (arith, length-append start []) in
    rw e refl
named_step start (b ∷ name) value out =
    let e : ltb (length start) (length (start ++ escape_loop (b ∷ name))) ≡ true =
      ground (arith, length-append start (escape_loop (b ∷ name)), escape_loop_nonempty b name) in
    rw e refl

collect_step :
    (start name value : Bytes) (items : Items) (out : Assoc Bytes)
    → collect (length start) ((start ++ escape_loop name, value) ∷ items) out
      ≡ collect (length start) items (insert_named name value out)
unfolding collect
collect_step start name value items out =
    let read : slice_bytes (unescape (some (drop (length start) (start ++ escape_loop name))))
        ≡ name =
      rw
        (
          drop-append start (escape_loop name),
          unescape_lem (escape_loop name),
          unescape_loop-escape_loop name,
        )
        refl in
    rw read (ap (collect (length start) items) (named_step start name value out))

module _ (start : Bytes) (f : Bytes → Option Bytes) where
  -- An item's key is that of a facet under the prefix, and `f` has its value.
  abbrev IsFacet : Bytes × Bytes → Type 0
  IsFacet (k, v) = (name : Bytes) × (k ≡ start ++ escape_loop name) × (f name ≡ some v)

  -- A map that says only what `f` says.
  abbrev IsPart : Assoc Bytes → Type 0
  IsPart out = (name v : Bytes) → lookup name out ≡ some v → f name ≡ some v

  insert_named-IsPart :
      (name value : Bytes) (out : Assoc Bytes)
      → f name ≡ some value
      → IsPart out
      → IsPart (insert_named name value out)
  insert_named-IsPart [] value out e h k v q = h k v q
  insert_named-IsPart (b ∷ name) value out e h k v q = elim (Bool-cases (bytes_eq (b ∷ name) k)) [
    | inl same ↦
        let here : some value ≡ some v =
          sym (rw same at (lookup-insert (b ∷ name) k value out)) ∙ q in
        subst (λ l. f l ≡ some v) (bytes_eq-true (b ∷ name) k same) (e ∙ here)
    | inr other ↦ h k v (sym (rw other at (lookup-insert (b ∷ name) k value out)) ∙ q)
  ]

  insert_named_keeps :
      (name value : Bytes) (out : Assoc Bytes) (k v : Bytes)
      → f name ≡ some value
      → IsPart out
      → lookup k out ≡ some v
      → lookup k (insert_named name value out) ≡ some v
  insert_named_keeps [] value out k v e h q = q
  insert_named_keeps (b ∷ name) value out k v e h q = elim (Bool-cases (bytes_eq (b ∷ name) k)) [
    | inl same ↦
        let there : f (b ∷ name) ≡ some v =
          subst (λ l. f l ≡ some v) (sym (bytes_eq-true (b ∷ name) k same)) (h k v q) in
        rw same at (lookup-insert (b ∷ name) k value out) ∙ sym e ∙ there
    | inr other ↦ rw other at (lookup-insert (b ∷ name) k value out) ∙ q
  ]

  collect_sound :
      (items : Items) (out : Assoc Bytes)
      → All IsFacet items
      → IsPart out
      → IsPart (collect (length start) items out)
        × ((k v : Bytes)
            → lookup k out ≡ some v
            → lookup k (collect (length start) items out) ≡ some v)
  unfolding collect
  collect_sound [] out good h = (h, λ k v q. q)
  collect_sound ((k, value) ∷ items) out ((name, e, q), good) h =
      let out' = insert_named name value out in
      let (part, keeps) = collect_sound items out' good (insert_named-IsPart name value out q h) in
      let step =
        ap (λ l. collect (length start) ((l, value) ∷ items) out) e
        ∙ collect_step start name value items out in
      (
        subst IsPart (sym step) part,
        λ k' v r. ap (lookup k') step ∙ keeps k' v (insert_named_keeps name value out k' v q h r),
      )

  collect_complete :
      (items : Items) (out : Assoc Bytes) (b : ℕ) (name v : Bytes)
      → All IsFacet items
      → IsPart out
      → Mem (start ++ escape_loop (b ∷ name), v) items
      → lookup (b ∷ name) (collect (length start) items out) ≡ some v
  unfolding collect
  collect_complete [] out b name v good h m = absurd m
  collect_complete ((k, value) ∷ items) out b name v (g, good) h (inr m) =
      let (name', e, q) = g in
      let step =
        ap (λ l. collect (length start) ((l, value) ∷ items) out) e
        ∙ collect_step start name' value items out in
      ap (lookup (b ∷ name)) step
      ∙ collect_complete items (insert_named name' value out) b name v good
          (insert_named-IsPart name' value out q h) m
  collect_complete ((k, value) ∷ items) out b name v (g, good) h (inl here) =
      let (name', e, q) = g in
      let key : start ++ escape_loop (b ∷ name) ≡ k = ap (λ x. x.0) here in
      let val : v ≡ value = ap (λ x. x.1) here in
      let own : f (b ∷ name) ≡ some value =
        subst (λ l. f l ≡ some value)
          (escape_loop_injective name' (b ∷ name)
            (append-cancel start (escape_loop name') (escape_loop (b ∷ name)) (sym e ∙ sym key)))
          q in
      let (part, keeps) =
        collect_sound items (insert (b ∷ name) value out) good
          (insert_named-IsPart (b ∷ name) value out own h) in
      ap (λ l. lookup (b ∷ name) (collect (length start) ((l, value) ∷ items) out)) (sym key)
      ∙ ap (lookup (b ∷ name)) (collect_step start (b ∷ name) value items out)
      ∙ keeps (b ∷ name) value
          (lookup-insert (b ∷ name) (b ∷ name) value out ∙ rw (bytes_eq_refl (b ∷ name)) refl)
      ∙ ap some (sym val)

module _ (S : KvStore) (start : Bytes) (db : Db S.State) (out : Assoc Bytes) where
  abbrev found : Bytes → Option Bytes
  found name = S.contents db.store (start ++ escape_loop name)

  -- What is stored under the prefix is stored under keys of facets.
  abbrev HasFacetsOnly : Type 0
  HasFacetsOnly =
      (k v : Bytes)
      → S.contents db.store k ≡ some v
      → starts_with start k ≡ true
      → (name : Bytes) × (k ≡ start ++ escape_loop name)

  collected :
      get_under S start false db ≡ ok out
      → (items : Items) × (S.iterate start (start ++ (255 ∷ [])) db.store ≡ some items)
        × (collect (length start) items [] ≡ out)
  unfolding get_under
  collected e = elim (Option-cases (S.iterate start (start ++ (255 ∷ [])) db.store)) [
    | inl q ↦ ground arith
    | inr (items, q) ↦ (items, q, ground arith)
  ]

  get_under_lem :
      S.IsValid db.store
      → HasFacetsOnly
      → get_under S start false db ≡ ok out
      → (b : ℕ) (name : Bytes) → IsClean (b ∷ name)
      → lookup (b ∷ name) out ≡ found (b ∷ name)
  unfolding lookup
  get_under_lem valid only e b name clean =
      let (items, read, whole) = collected e in
      let (_, law) = S.iterate_law start (start ++ (255 ∷ [])) db.store items valid read in
      let good = all-mem items (λ (k, v) m.
        let (there, inside) = (law k v).0 m in
        let (r, p) = in_range_prefix start (255 ∷ []) k inside in
        let begins = subst (λ l. starts_with start l ≡ true) (sym p) (starts_with-append start r) in
        let (name', q) = only k v there begins in
        (name', q, sym (ap (S.contents db.store) q) ∙ there)) in
      let part : IsPart start found [] = λ k v q. cc in
      elim (Option-cases (found (b ∷ name))) [
        | inr (v, there) ↦
            let inside =
              in_range-append start (255 ∷ []) (escape_loop (b ∷ name))
              ∙ lt-ff (escape_loop (b ∷ name)) (escape_loop-IsClean (b ∷ name) clean) in
            ap (lookup (b ∷ name)) (sym whole)
            ∙ collect_complete start found items [] b name v good part
                ((law (start ++ escape_loop (b ∷ name)) v).1 (there, inside))
            ∙ sym there
        | inl absent ↦ elim (Option-cases (lookup (b ∷ name) out)) [
          | inl q ↦ q ∙ sym absent
          | inr (v, q) ↦
              let (sound, _) = collect_sound start found items [] good part in
              let there = sound (b ∷ name) v (ap (lookup (b ∷ name)) whole ∙ q) in q ∙ sym there
        ]
      ]
    where
      all-mem :
          (items : Items)
          → ((x : Bytes × Bytes) → Mem x items → IsFacet start found x)
          → All (IsFacet start found) items
      all-mem [] h = tt
      all-mem (x ∷ items) h = (h x (inl refl), all-mem items (λ y m. h y (inr m)))

facet_key-prefix :
    (kind value name : Bytes)
    → gen_facet_key kind (some value) (some name)
      ≡ gen_facet_prefix kind (some value) ++ escape_loop name
unfolding gen_facet_key gen_facet_prefix
facet_key-prefix kind value name = simp (append_assoc, escape_lem)

-- Where nothing but facets of the component is stored under its prefix, `GetFacets` returns, under
-- each name that is not empty and has no byte 0xFF, what is stored under the facet's key.
pub get_facets_lem :
    (S : KvStore) (kind value : Bytes) (db : Db S.State) (out : Assoc Bytes)
    → S.IsValid db.store
    → ((k v : Bytes)
        → S.contents db.store k ≡ some v
        → starts_with (gen_facet_prefix kind (some value)) k ≡ true
        → (name : Bytes) × (k ≡ gen_facet_key kind (some value) (some name)))
    → get_facets S kind (some value) false db ≡ ok out
    → (b : ℕ) (name : Bytes) → IsClean (b ∷ name)
    → lookup (b ∷ name) out
      ≡ S.contents db.store (gen_facet_key kind (some value) (some (b ∷ name)))
unfolding get_facets
get_facets_lem S kind value db out valid only e b name clean =
    let start = gen_facet_prefix kind (some value) in
    get_under_lem S start db out valid
      (λ k v q s. let (name', r) = only k v q s in (name', r ∙ facet_key-prefix kind value name')) e
      b name clean
    ∙ ap (S.contents db.store) (sym (facet_key-prefix kind value (b ∷ name)))
