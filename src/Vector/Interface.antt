-- ===== src/Vector/Interface.antt =====
-- vector/vector.go, `Index`: the interface of vector indexes, with what the database relies on.
use levelgraph.Prelude.{
  ℕ, ◌<◌, ◌≡◌, refl, ◌⊎◌, inl, inr, Bool, true, false, Option, none, some, List, if◌then◌else◌,
  ◌==◌, length,
}
use levelgraph.Prelude.Int.{ℤ, pos, negsuc}
use levelgraph.Prelude.Bytes.{Bytes, bytes_eq}

pub data VectorError : Type 0 where
  dimension_mismatch not_found empty_vector invalid_k : VectorError

pub data Outcome {ℓ} (A : Type ℓ) : Type ℓ where
  ok : A → Outcome A
  err : VectorError → Outcome A

pub Outcome-cases {ℓ} :
    {A : Type ℓ} (o : Outcome A) → ((a : A) × (o ≡ ok a)) ⊎ ((e : VectorError) × (o ≡ err e))
Outcome-cases (ok a) = inl (a, refl)
Outcome-cases (err e) = inr (e, refl)

pub record Match (W : Type 0) : Type 0 where
  pub id : Bytes
  pub score : W
  pub distance : W

-- `len(v) == dimensions`
abbrev pub has_dimensions {ℓ} : {W : Type ℓ} → ℤ → List W → Bool
has_dimensions (pos n) v = length v == n
has_dimensions (negsuc n) v = false

-- `W` is the type of floats. `search` returns `none` for a panic. `vectors` is what the index holds
-- under each identifier.
pub record VectorIndex (W : Type 0) : Type 1 where
  pub State : Type 0
  pub add : Bytes → List W → State → State × Outcome (Unit {0})
  pub delete : Bytes → State → State × Outcome (Unit {0})
  pub get : Bytes → State → Outcome (List W)
  pub search : List W → ℤ → State → Option (Outcome (List (Match W)))
  pub len : State → ℕ
  pub dimensions : State → ℤ
  pub vectors : State → Bytes → Option (List W)
  pub add_law :
      (id : Bytes) (v : List W) (st : State)
      → (add id v st).1 ≡ ok tt
      → (0 < length v)
        × (has_dimensions (dimensions st) v ≡ true)
        × (dimensions (add id v st).0 ≡ dimensions st)
        × ((j : Bytes)
            → vectors (add id v st).0 j ≡ (if bytes_eq id j then some v else vectors st j))
  pub add_total :
      (id : Bytes) (v : List W) (st : State)
      → 0 < length v
      → has_dimensions (dimensions st) v ≡ true
      → (add id v st).1 ≡ ok tt
  pub add_error :
      (id : Bytes) (v : List W) (st : State) (e : VectorError)
      → (add id v st).1 ≡ err e
      → (add id v st).0 ≡ st
  pub delete_law :
      (id : Bytes) (st : State)
      → (delete id st).1 ≡ ok tt
      → (dimensions (delete id st).0 ≡ dimensions st)
        × ((j : Bytes)
            → vectors (delete id st).0 j ≡ (if bytes_eq id j then none else vectors st j))
  pub delete_error :
      (id : Bytes) (st : State) (e : VectorError) → (delete id st).1 ≡ err e → (delete id st).0 ≡ st
  pub get_law :
      (id : Bytes) (st : State)
      → get id st ≡ elim (vectors st id) [ none ↦ err not_found | some v ↦ ok v ]
