-- ===== src/Vectors/Embed/All.antt =====
-- vectors.go: `doAutoEmbedTriples` embeds every targeted component of the triples.
use levelgraph.Prelude.{
  ℕ, suc, ◌≤◌, ◌≡◌, refl, sym, ap, ◌∙◌, ◌≢◌, ◌⊎◌, inl, inr, Bool, true, ◌||◌, none, some, List, [],
  ◌∷◌, ◌++◌, map, arith, ◌==◌, length, All, Mem, Bool-cases, Option-cases,
}
use mathlib.Core.Bool.{false≢true}
use levelgraph.Prelude.Bytes.{Bytes}
use levelgraph.Graph.Triple.{Triple}
use levelgraph.Store.{KvStore}
use levelgraph.Db.Indexed.{or_cases}
use levelgraph.Vector.Interface.{VectorIndex}
use levelgraph.Vector.Id.{make_id, id_type_subject, id_type_predicate, id_type_object}
use levelgraph.Vector.Bits.{AreBits}
use levelgraph.Vectors.{ok, err, store_error, VectorDb, Update, embed_error}
use levelgraph.Vectors.Mirror.{Mirrors, Keeps}
use levelgraph.Vectors.Embed.{
  EmbedBatch, is_in, auto_embed_subjects, auto_embed_predicates, auto_embed_objects, subject_of,
  predicate_of, object_of, collected, missing, to_embed, do_auto_embed_triples,
}
use levelgraph.Vectors.Embed.Laws.{
  is_in-append, is_in-collect, ids_of, HasVector, missing_lem, missing-none, Embeds, embed_loop_lem,
}

-- The embedder returns a vector of float32 for every text.
abbrev pub IsEmbedder : EmbedBatch → Type 0
IsEmbedder embed_batch =
    (texts : List Bytes) (embeddings : List (List ℕ))
    → embed_batch texts ≡ some embeddings
    → (length embeddings ≡ length texts) × All AreBits embeddings

-- The order of a visit leaves out nothing.
abbrev pub IsVisit : (List Bytes → List Bytes) → Type 0
IsVisit visit = (xs : List Bytes) (x : Bytes) → is_in x xs ≡ true → is_in x (visit xs) ≡ true

length-map : {A B : Type 0} (f : A → B) (xs : List A) → length (map f xs) ≡ length xs
length-map f [] = refl
length-map f (x ∷ xs) = ap suc (length-map f xs)

no-length : {A : Type 0} (xs : List A) → length xs == 0 ≡ true → xs ≡ []
no-length [] h = refl
no-length (x ∷ xs) h = absurd (ground arith)

module _ (S : KvStore) (I : VectorIndex ℕ) where
  -- What was in the index is in it unchanged, and the targeted components of the triples are.
  pub record Covers (targets : ℕ) (ts : List Triple) (ix : I.State) (d : VectorDb S I)
      : Type 0 where
    pub index : I.State
    pub at : d.index ≡ some index
    pub old : (j : Bytes) (v : List ℕ) → I.vectors ix j ≡ some v → I.vectors index j ≡ some v
    pub subjects :
        (t : Triple)
        → Mem t ts
        → auto_embed_subjects targets ≡ true
        → HasVector S I index (make_id id_type_subject (subject_of t ∷ []))
    pub predicates :
        (t : Triple)
        → Mem t ts
        → auto_embed_predicates targets ≡ true
        → HasVector S I index (make_id id_type_predicate (predicate_of t ∷ []))
    pub objects :
        (t : Triple)
        → Mem t ts
        → auto_embed_objects targets ≡ true
        → HasVector S I index (make_id id_type_object (object_of t ∷ []))

  ids_of-append : (xs ys : List (Bytes × Bytes)) → ids_of (xs ++ ys) ≡ ids_of xs ++ ids_of ys
  ids_of-append [] ys = refl
  ids_of-append (x ∷ xs) ys = ap (λ l. x.1 ∷ l) (ids_of-append xs ys)

  -- Membership among the three lists of identifiers.
  is_in-three :
      (j : Bytes) (a b c : List (Bytes × Bytes))
      → is_in j (ids_of (a ++ (b ++ c)))
        ≡ (is_in j (ids_of a) || (is_in j (ids_of b) || is_in j (ids_of c)))
  is_in-three j a b c =
      ap (is_in j) (ids_of-append a (b ++ c) ∙ ap (λ l. ids_of a ++ l) (ids_of-append b c))
      ∙ is_in-append j (ids_of a) (ids_of b ++ ids_of c)
      ∙ ap (λ e. is_in j (ids_of a) || e) (is_in-append j (ids_of b) (ids_of c))

  module _ (visit : List Bytes → List Bytes) (visits : IsVisit visit) (targets : ℕ)
      (ts : List Triple) (ix : I.State) where
    abbrev items_of : Bool → (Triple → Bytes) → Bytes → List (Bytes × Bytes)
    items_of target part id_type = missing S I ix id_type (visit (collected target part ts))

    items_none :
        (target : Bool) (part : Triple → Bytes) (id_type j : Bytes)
        → is_in j (ids_of (items_of target part id_type)) ≡ true
        → I.vectors ix j ≡ none
    items_none target part id_type j h =
        missing-none S I ix id_type (visit (collected target part ts)) j h

    to_embed-none :
        (j : Bytes)
        → is_in j (ids_of (to_embed S I visit targets ts ix)) ≡ true
        → I.vectors ix j ≡ none
    unfolding to_embed
    to_embed-none j h =
        let a = items_of (auto_embed_subjects targets) subject_of id_type_subject in
        let b = items_of (auto_embed_predicates targets) predicate_of id_type_predicate in
        let c = items_of (auto_embed_objects targets) object_of id_type_object in
        let x = is_in j (ids_of a) in
        let y = is_in j (ids_of b) in
        let z = is_in j (ids_of c) in
        elim (or_cases x (y || z) (sym (is_in-three j a b c) ∙ h)) [
          | inl q ↦ items_none (auto_embed_subjects targets) subject_of id_type_subject j q
          | inr q ↦ elim (or_cases y z q) [
            | inl r ↦ items_none (auto_embed_predicates targets) predicate_of id_type_predicate j r
            | inr r ↦ items_none (auto_embed_objects targets) object_of id_type_object j r
          ]
        ]

    -- Where the parts are targeted, what the index does not have of them is to be embedded.
    part-missing :
        (target : Bool) (part : Triple → Bytes) (id_type : Bytes) (t : Triple)
        → Mem t ts
        → target ≡ true
        → HasVector S I ix (make_id id_type (part t ∷ []))
          ⊎ (is_in (make_id id_type (part t ∷ [])) (ids_of (items_of target part id_type)) ≡ true)
    part-missing target part id_type t m e = rw e (
        missing_lem S I ix id_type (visit (collected true part ts)) (part t)
          (visits _ (part t) (is_in-collect part ts t [] m)))

    Covers-Embeds :
        (d : VectorDb S I)
        → Embeds S I (ids_of (to_embed S I visit targets ts ix)) ix d
        → Covers targets ts ix d
    unfolding to_embed
    Covers-Embeds d e =
        let kept : (j : Bytes) (v : List ℕ)
            → I.vectors ix j ≡ some v
            → I.vectors e.index j ≡ some v =
          λ j v h. elim (Bool-cases (is_in j (ids_of (to_embed S I visit targets ts ix)))) [
            | inl q ↦ let absent = to_embed-none j q in cc
            | inr q ↦ e.others j q ∙ h
          ] in
        let a = items_of (auto_embed_subjects targets) subject_of id_type_subject in
        let b = items_of (auto_embed_predicates targets) predicate_of id_type_predicate in
        let c = items_of (auto_embed_objects targets) object_of id_type_object in
        let found : (j : Bytes)
            → HasVector S I ix j ⊎ (is_in j (ids_of (a ++ (b ++ c))) ≡ true)
            → HasVector S I e.index j =
          λ j h. elim h [ inl (v, q) ↦ (v, kept j v q) | inr q ↦ e.has j q ] in
        record {
          index = e.index;
          at = e.at;
          old = kept;
          subjects = λ t m q.
              found _
                (elim (part-missing (auto_embed_subjects targets) subject_of id_type_subject t m
                  q) [ inl there ↦ inl there | inr mem ↦ inr (is_in-three _ a b c ∙ rw mem refl) ]);
          predicates = λ t m q.
              found _
                (elim (part-missing (auto_embed_predicates targets) predicate_of id_type_predicate t
                  m q) [
                    | inl there ↦ inl there
                    | inr mem ↦ inr (is_in-three _ a b c ∙ ground (arith, mem))
                  ]);
          objects = λ t m q.
              found _
                (elim (part-missing (auto_embed_objects targets) object_of id_type_object t m q) [
                  | inl there ↦ inl there
                  | inr mem ↦ inr (is_in-three _ a b c ∙ ground (arith, mem))
                ]);
        }

-- `doAutoEmbedTriples` ends without a panic, with whatever errors. Unless a put to the store
-- failed, the index still mirrors the store and the triples are the same. When it returns no
-- error, every vector of before is unchanged, and every subject, predicate and object of the
-- triples whose kind is targeted has a vector.
pub do_auto_embed_lem :
    (S : KvStore) (I : VectorIndex ℕ) (embed_batch : EmbedBatch) (visit : List Bytes → List Bytes)
    (targets : ℕ) (done : ℕ → Bool) (ts : List Triple) (d : VectorDb S I) (ix : I.State)
    → IsEmbedder embed_batch
    → IsVisit visit
    → d.index ≡ some ix
    → Mirrors S I d.db.store ix
    → (r : Update S I) × (do_auto_embed_triples S I embed_batch visit targets done ts d ix ≡ some r)
      × (r.1 ≢ err store_error → Keeps S I d r)
      × (r.1 ≡ ok tt → Covers S I targets ts ix r.0)
unfolding do_auto_embed_triples
do_auto_embed_lem S I embed_batch visit targets done ts d ix embeds visits at m =
    let items = to_embed S I visit targets ts ix in
    elim (Bool-cases (length items == 0)) [
      | inl e ↦
          let nothing : items ≡ [] = no-length items e in
          (
            (d, ok tt),
            rw (do_auto_embed_triples, e) refl,
            λ h. (rw at m, λ y. refl),
            λ h. Covers-Embeds S I visit visits targets ts ix d (record {
              index = ix;
              at = at;
              others = λ j q. refl;
              has = λ j q. absurd (false≢true (rw nothing at q));
            }),
          )
      | inr e ↦ elim (Option-cases (embed_batch (map (λ x. x.0) items))) [
        | inl q ↦ (
          (d, err embed_error),
          rw (do_auto_embed_triples, e, q) refl,
          λ h. (rw at m, λ y. refl),
          λ h. cc,
        )
        | inr (embeddings, q) ↦
            let (size, bits) = embeds _ embeddings q in
            let enough : length (map (λ x. x.1) items) ≤ length embeddings =
              omega (arith, size, length-map (λ x. x.0) items, length-map (λ x. x.1) items) in
            let (r, looped, keeps, embedded) =
              embed_loop_lem S I done 0 (map (λ x. x.1) items) embeddings d ix m bits enough in
            (
              r,
              rw (do_auto_embed_triples, e, q) looped,
              keeps,
              λ h. Covers-Embeds S I visit visits targets ts ix r.0 (embedded h),
            )
      ]
    ]
