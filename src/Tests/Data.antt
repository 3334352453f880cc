-- ===== src/Tests/Data.antt =====
-- The triples, patterns and stores of the tests.
use levelgraph.Prelude.{true, false, none, some, [], ◌∷◌}
use levelgraph.Prelude.Int.{pos}
use levelgraph.Prelude.Bytes.{Bytes, codes}
use levelgraph.Graph.Triple.{Spo}
use levelgraph.Graph.Solution.{Solution, v}
use levelgraph.Graph.Pattern.{Pattern, PatternValue, exact, binding}
use levelgraph.MemStore.{MemStore, new}
use levelgraph.Db.State.{Db, Options}

abbrev pub spo3 : Bytes → Bytes → Bytes → Spo
spo3 a b c = record { s = a; p = b; o = c }

abbrev pub bob : Spo
bob = spo3 (codes "alice") (codes "knows") (codes "bob")

abbrev pub bobby : Spo
bobby = spo3 (codes "alice") (codes "knows") (codes "bobby")

abbrev pub odd : Spo
odd = spo3 (codes "a:b") (codes "::") (codes "c:")

abbrev pub query : PatternValue → PatternValue → PatternValue → Pattern
query s p o = record {
  subject = s;
  predicate = p;
  object = o;
  filter = none;
  limit = pos 0;
  offset = pos 0;
  reverse = false;
}

abbrev pub friends : Pattern
friends =
    query (exact (some (codes "alice"))) (exact (some (codes "knows"))) (binding (v (codes "x")))

abbrev pub exactly_bob : Pattern
exactly_bob =
    query (exact (some (codes "alice"))) (exact (some (codes "knows"))) (exact (some (codes "bob")))

abbrev pub bound_bob : Solution
bound_bob = (codes "x", some (codes "bob")) ∷ []

abbrev pub plain : Options
plain = record { journal_enabled = true; facets_enabled = false; default_limit = pos 0 }

abbrev pub fresh : Db MemStore
fresh = record { store = new; options = plain; closed = false; journal_counter = 0 }
