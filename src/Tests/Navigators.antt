-- ===== src/Tests/Navigators.antt =====
-- Runs of navigators, and the concrete inputs of the theorems about them.
use levelgraph.Prelude.{
  ℕ, zero, suc, ◌≡◌, ◌↔◌, refl, ap, ◌∙◌, sym, false, Bool, none, some, List, [], ◌∷◌, length, arith,
  inl, inr,
}
use levelgraph.Prelude.Int.{pos, pos_part}
use levelgraph.Prelude.Bytes.{Bytes, Slice, codes}
use levelgraph.Graph.Triple.{Triple}
use levelgraph.MemStore.Laws.{mem_store, iterate_total}
use levelgraph.Db.State.{ok}
use levelgraph.Db.Read.{effective_limit}
use levelgraph.Db.Write.{update, write_batch}
use levelgraph.MemStore.{write}
use levelgraph.Navigator.{
  Heap, Navigator, Any, Element, ValueRef, nav_from, filter, clone, name_at, at_or,
}
use levelgraph.Navigator.Query.{values, solutions, first, exists, read_conditions, mapped, first_of}
use levelgraph.Navigator.Collect.{IsDistinct}
use levelgraph.Navigator.Exact.{values_exact, HasValue, IsAnswer}
use levelgraph.Navigator.Steps.{out, into, follow}
use levelgraph.Navigator.Paths.{Reaches}
use levelgraph.Navigator.Reach.{path_exact}
use levelgraph.Navigator.First.{first-solutions, is_some}
use levelgraph.Tests.Stores.{filled, filled_refines, filled_open}

marks : ℕ → Bytes
marks zero = []
marks (suc n) = 49 ∷ marks n

abbrev x_name : ℕ → Bytes
x_name n = 120 ∷ marks n

length-marks : (n : ℕ) → length (marks n) ≡ n
unfolding marks
length-marks zero = refl
length-marks (suc n) = ap suc (length-marks n)

x_name_injective : (i j : ℕ) → x_name i ≡ x_name j → i ≡ j
x_name_injective i j q =
    let same : marks i ≡ marks j = ground arith in
    sym (length-marks i) ∙ ap length same ∙ length-marks j

abbrev empty_heap : Heap
empty_heap = record { names = []; patterns = [] }

filled_store_open : filled.store.closed ≡ false
unfolding update write_batch write
filled_store_open = ground arith

filled_no_limit : pos_part (effective_limit (pos 0) filled.options.default_limit) ≡ 0
unfolding update write_batch
filled_no_limit = ground arith

abbrev back_and_forth : Heap × Navigator
back_and_forth =
    follow x_name (out (codes "knows") ∷ into (codes "knows") ∷ [])
      (nav_from x_name (Any.bytes (some (codes "alice"))) empty_heap)

path_exact_example :
    (found : List Slice) × (values mem_store (λ i. false) filled back_and_forth.0 back_and_forth.1
      ≡ some (ok found))
    × IsDistinct found
    × ((b : Bytes)
        → HasValue b found
          ↔ Reaches mem_store filled
              (out (codes "knows") ∷ into (codes "knows") ∷ [])
              (codes "alice")
              b)
path_exact_example =
    path_exact mem_store filled filled_refines.0 filled_open
      (iterate_total filled.store filled_store_open) (λ i. false) (λ i. refl) filled_no_limit x_name
      x_name_injective empty_heap (codes "alice") (out (codes "knows")) (into (codes "knows") ∷ [])
      (λ q. cc) (λ q. cc, (λ q. cc, tt))

first-solutions_example :
    (first mem_store (λ i. false) filled back_and_forth.0 back_and_forth.1
      ≡ mapped first_of (solutions mem_store (λ i. false) filled back_and_forth.0 back_and_forth.1))
    × (exists mem_store (λ i. false) filled back_and_forth.0 back_and_forth.1
        ≡ mapped is_some
            (solutions mem_store (λ i. false) filled back_and_forth.0 back_and_forth.1))
first-solutions_example =
    first-solutions mem_store (λ i. false) filled back_and_forth.0 back_and_forth.1

-- One condition: whom alice knows, under the name `who`.
abbrev known : Heap
known = record {
  names = codes "who" ∷ [];
  patterns =
      record {
        subject = ValueRef.exact (some (codes "alice"));
        predicate = ValueRef.exact (some (codes "knows"));
        object = ValueRef.binding 0;
        filter = none;
        limit = pos 0;
        offset = pos 0;
        reverse = false;
      }
      ∷ [];
}

abbrev at_who : Navigator
at_who = record {
  conditions = 0 ∷ [];
  initial_solution = [];
  last_element = Element.variable 0;
  var_counter = 1;
}

values_exact_example :
    (found : List Slice) × (values mem_store (λ i. false) filled known at_who ≡ some (ok found))
    × IsDistinct found
    × ((b : Bytes)
        → HasValue b found
          ↔ IsAnswer mem_store filled (read_conditions known (0 ∷ [])) [] (name_at known 0) b)
unfolding read_conditions at_or
values_exact_example =
    values_exact mem_store filled filled_refines.0 filled_open
      (iterate_total filled.store filled_store_open) (λ i. false) known at_who 0 [] 0 (λ i. refl)
      refl refl ((refl, filled_no_limit), tt) filled_no_limit (inl (inr (inr refl)))

-- A filter put on a copy changes the conditions of the original.
filter-clone :
    (fn : Triple → Bool)
    → read_conditions (filter (some fn) (known, clone at_who)).0 at_who.conditions
      ≡ read_conditions (filter (some fn) (known, at_who)).0 at_who.conditions
unfolding filter clone
filter-clone fn = refl
