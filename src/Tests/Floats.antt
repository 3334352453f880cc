-- ===== src/Tests/Floats.antt =====
-- A type of floats, a heap and a vector index for the tests: numbers, and a list in descending
-- order.
use levelgraph.Prelude.{
  ℕ, ◌+◌, ◌-◌, ◌*◌, ◌/◌, ◌≡◌, true, arith, ltb, ◌==◌, Bool-cases, inl, inr, ◌⊎◌,
}
use levelgraph.Prelude.Int.{pos}
use levelgraph.Vector.Float.{Float, IsOrdered}
use levelgraph.Vector.Distance.{euclidean}
use levelgraph.Vector.Interface.{VectorIndex}
use levelgraph.Vector.Flat.{MatchHeap, FlatIndex, new_flat_index}
use levelgraph.Vector.Flat.Matched.{matched}
use levelgraph.Tests.Ordered.{sorted_heap}
use levelgraph.Vector.Flat.Laws.{flat_index}

abbrev pub numbers : Float ℕ
numbers = record {
  zero = 0;
  one = 1;
  two = 2;
  max = 1000;
  lt = ltb;
  same = λ a b. a == b;
  add = λ a b. a + b;
  sub = λ a b. a - b;
  mul = λ a b. a * b;
  div = λ a b. a / b;
  neg = λ a. a;
  root = λ a b. a;
  root_of = λ a. a;
}

pub number_between : (a b c : ℕ) → ltb a b ≡ true → (ltb a c ≡ true) ⊎ (ltb c b ≡ true)
number_between a b c h = elim (Bool-cases (ltb a c)) [ inl e ↦ inl e | inr e ↦ inr (ground arith) ]

abbrev pub numbers_ordered : IsOrdered numbers
numbers_ordered = record {
  IsNumber = λ a. Unit {0};
  asym = λ a b h. ground arith;
  between = λ a b c n h. number_between a b c h;
}

abbrev pub sorted_list : MatchHeap numbers numbers_ordered
sorted_list = matched numbers sorted_heap

abbrev pub flat : VectorIndex ℕ
flat = flat_index numbers sorted_list

abbrev pub no_vectors : FlatIndex numbers
no_vectors = new_flat_index numbers (pos 1) (euclidean numbers)
