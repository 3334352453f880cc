-- ===== src/Navigator/Query.antt =====
-- navigator.go: the operations that run the query. `none` is a store's iterator that cannot be had.
use levelgraph.Prelude.{ℕ, Bool, true, false, ◌&&◌, Option, none, some, List, [], ◌∷◌, length}
use levelgraph.Prelude.Int.{pos}
use levelgraph.Prelude.Bytes.{Bytes, Slice, slice_bytes, codes}
use levelgraph.Prelude.Assoc.{Assoc, lookup, insert}
use levelgraph.Graph.Triple.{Triple}
use levelgraph.Graph.Solution.{Solution}
use levelgraph.Graph.Pattern.{Pattern, present}
use levelgraph.Store.{KvStore}
use levelgraph.Db.State.{Db, Result, ok, err}
use levelgraph.Search.{SearchOptions, search, no_options}
use levelgraph.Navigator.{
  Heap, Navigator, Element, bytes, variable, name_at, pattern_at, read_pattern,
}

-- The patterns of the conditions, as they are when the query runs.
unfoldable pub read_conditions : Heap → List ℕ → List Pattern
read_conditions h [] = []
read_conditions h (c ∷ cs) = read_pattern h (pattern_at h c) ∷ read_conditions h cs

-- The loop of `Values`: the values of a variable, each once.
unfoldable pub collect : Bytes → List Solution → Assoc Bool → List Slice
collect x [] seen = []
collect x (s ∷ ss) seen = elim (lookup x s) [
  | none ↦ collect x ss seen
  | some val ↦ elim (lookup (slice_bytes val) seen) [
    | some b ↦ collect x ss seen
    | none ↦ val ∷ collect x ss (insert (slice_bytes val) true seen)
  ]
]

abbrev field_of : Bytes → Solution → Slice
field_of name s = elim (lookup name s) [ none ↦ none | some value ↦ value ]

-- The loop of `Triples`.
unfoldable pub read_triples : List Solution → List Triple
read_triples [] = []
read_triples (s ∷ ss) =
    let subject = field_of (codes "subject") s in
    let predicate = field_of (codes "predicate") s in
    let object = field_of (codes "object") s in
    let t : Triple = record { subject = subject; predicate = predicate; object = object } in
    elim (present subject && (present predicate && present object)) [
      | true ↦ t ∷ read_triples ss
      | false ↦ read_triples ss
    ]

abbrev pub mapped {ℓ κ} :
    {A : Type ℓ} {B : Type κ} → (A → B) → Option (Result A) → Option (Result B)
mapped f none = none
mapped f (some (err e)) = some (err e)
mapped f (some (ok a)) = some (ok (f a))

abbrev pub first_of : List Solution → Option Solution
first_of [] = none
first_of (s ∷ ss) = some s

module _ (S : KvStore) (done : ℕ → Bool) (db : Db S.State) (h : Heap) where
  -- With one condition at least.
  abbrev pub run : Navigator → SearchOptions → Option (Result (List Solution))
  run nav o =
      search S done db (read_conditions h nav.conditions)
        (some (record o { initial_solution = some nav.initial_solution }))

  unfoldable pub solutions : Navigator → Option (Result (List Solution))
  solutions nav = elim nav.conditions [
    | [] ↦ some (ok (nav.initial_solution ∷ []))
    | c ∷ cs ↦ run nav no_options
  ]

  abbrev pub values_at : Element → List Solution → List Slice
  values_at (bytes d) ss = d ∷ []
  values_at (variable x) ss = collect (name_at h x) ss []

  unfoldable pub values : Navigator → Option (Result (List Slice))
  values nav = mapped (values_at nav.last_element) (solutions nav)

  unfoldable pub triples : Pattern → Navigator → Option (Result (List Triple))
  triples p nav = elim nav.conditions [
    | [] ↦ some (ok [])
    | c ∷ cs ↦ mapped read_triples (run nav (record no_options { materialized = some p }))
  ]

  unfoldable pub count : Navigator → Option (Result ℕ)
  count nav = mapped length (solutions nav)

  -- nil is `none`.
  unfoldable pub first : Navigator → Option (Result (Option Solution))
  first nav = elim nav.conditions [
    | [] ↦ some (ok (some nav.initial_solution))
    | c ∷ cs ↦ mapped first_of (run nav (record no_options { limit = pos 1 }))
  ]

  -- The second result is true only without an error.
  unfoldable pub exists : Navigator → Option (Result Bool)
  exists nav = mapped present (first nav)
