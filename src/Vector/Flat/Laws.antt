-- ===== src/Vector/Flat/Laws.antt =====
-- vector/flat.go: the flat index is a `VectorIndex`.
use levelgraph.Prelude.{◌<◌, ◌≡◌, refl, true, none, some, List, arith, if◌then◌else◌, length}
use levelgraph.Prelude.Bytes.{Bytes, bytes_eq}
use levelgraph.Prelude.Assoc.{lookup, lookup-insert, lookup-erase}
use levelgraph.Vector.Interface.{VectorIndex, VectorError, not_found, ok, err, has_dimensions}
use levelgraph.Vector.Float.{Float, IsOrdered}
use levelgraph.Vector.Flat.{FlatIndex, MatchHeap, add, delete, get, len, search}

module _ {W : Type 0} (F : Float W) where
  pub add_lem :
      (id : Bytes) (v : List W) (f : FlatIndex F)
      → (add F id v f).1 ≡ ok tt
      → (0 < length v)
        × (has_dimensions f.dimensions v ≡ true)
        × ((add F id v f).0.dimensions ≡ f.dimensions)
        × ((j : Bytes)
            → lookup j (add F id v f).0.vectors
              ≡ (if bytes_eq id j then some v else lookup j f.vectors))
  unfolding add
  add_lem id v f h = (
    ground arith,
    ground arith,
    ground arith,
    λ j. ground (arith, lookup-insert id j v f.vectors),
  )

  pub delete_lem :
      (id : Bytes) (f : FlatIndex F)
      → (delete F id f).1 ≡ ok tt
      → ((delete F id f).0.dimensions ≡ f.dimensions)
        × ((j : Bytes)
            → lookup j (delete F id f).0.vectors
              ≡ (if bytes_eq id j then none else lookup j f.vectors))
  unfolding delete
  delete_lem id f h = (ground arith, λ j. ground (arith, lookup-erase id j f.vectors))

  pub add_total_lem :
      (id : Bytes) (v : List W) (f : FlatIndex F)
      → 0 < length v
      → has_dimensions f.dimensions v ≡ true
      → (add F id v f).1 ≡ ok tt
  unfolding add
  add_total_lem id v f h d = ground arith

  pub add_error_lem :
      (id : Bytes) (v : List W) (f : FlatIndex F) (e : VectorError)
      → (add F id v f).1 ≡ err e
      → (add F id v f).0 ≡ f
  unfolding add
  add_error_lem id v f e h = ground arith

  pub delete_error_lem :
      (id : Bytes) (f : FlatIndex F) (e : VectorError)
      → (delete F id f).1 ≡ err e
      → (delete F id f).0 ≡ f
  unfolding delete
  delete_error_lem id f e h = ground arith

  pub get_lem :
      (id : Bytes) (f : FlatIndex F)
      → get F id f ≡ elim (lookup id f.vectors) [ none ↦ err not_found | some v ↦ ok v ]
  unfolding get
  get_lem id f = refl

  -- The visit is taken in the order in which the vectors were added.
  abbrev pub flat_index : {ordered : IsOrdered F} → MatchHeap F ordered → VectorIndex W
  flat_index heap = record {
    State = FlatIndex F;
    add = add F;
    delete = delete F;
    get = get F;
    search = λ query k f. search F heap f.vectors query k f;
    len = len F;
    dimensions = λ f. f.dimensions;
    vectors = λ f j. lookup j f.vectors;
    add_law = add_lem;
    add_total = add_total_lem;
    add_error = add_error_lem;
    delete_law = delete_lem;
    delete_error = delete_error_lem;
    get_law = get_lem;
  }
