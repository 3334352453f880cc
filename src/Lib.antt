-- ===== src/Lib.antt =====
-- levelgraph: a graph database of (subject, predicate, object) triples that keeps each triple
-- under six keys of an ordered key-value store, one for each order of its fields.
--
-- Triples, variables, solutions and patterns (pkg/graph) are in Graph. Graph/Triple and
-- Graph/Codec model triple.go (`Get`, `Set`, `Equal`, `MarshalBinary`, `UnmarshalBinary`),
-- Graph/Varint the variable-length integers of Go's encoding/binary that the binary form uses,
-- Graph/Solution variable.go, and Graph/Pattern pattern.go (`Matches`, `UpdateWithSolution`,
-- `BindTriple`, `BindTripleFast` and the accessors). A nil slice is `none`, a slice in memory the
-- list of its bytes, and a Go map an association list of which each key's first entry counts.
--
-- Keys (pkg/index/index.go) are in Index: Index/Escape for `Escape` and `Unescape`, Index/Name for
-- the six indexes, `PossibleIndexes` and `FindIndex`, Index/Key for `GenKey`, `GenKeyFromPattern`
-- and `GenKeyWithUpperBound`. Index/Query, Index/Prefix, Index/Select, Index/Range and Index/Unique
-- hold the lemmas about them. The values of a clean triple have no byte 0xFF, as UTF-8 text never
-- has: that byte stands above every key of a range.
--
-- The store (levelgraph.go `KVStore`, storage.go) is the record `KvStore` of Store: operations
-- with the laws that the database relies on. LevelDB is not in this repository, so the database is
-- stated over any such store; memstore/memstore.go is modelled in MemStore, and fills the record.
--
-- The database (levelgraph.go) is in Db: Db/State for `DB` and `validateTriple`, Db/Write for `Put`
-- and `Del` (one function, `update`, of the operation) and `Close`, Db/Read for `Get` and the
-- triple iterator. Db/Indexed says when a store's contents are the index of a set of triples,
-- and Db/Turns what a batch does to it.
-- The journal's entries and keys (journal.go) are in Journal/Entry: the entries are written by
-- `update` in the same batch as the index records.
--
-- Search (search.go) is in Search: `Search` joins the patterns one after the other, and
-- Search/Iterator has `SearchIterator`, whose levels of iterators find one solution at a time.
-- Vectors/Filter is `applyVectorFilter`, which is a parameter of the options of `Search`. Facets
-- (facets.go) are in Facets, where one function for a key serves a component and a triple;
-- Facets/Iterator has their iterator. Journal/Log has the operations on the whole journal, and
-- Journal/Log/Replay has `ReplayJournal`; the target of an export or a replay is a database other
-- than its source. The loops that delete all that an iterator visits are in Store/Sweep.
-- MemStore/Cursor is the iterator of the in-memory store.
--
-- The navigator (navigator.go) is in Navigator, with the operations that run its query in
-- Navigator/Query. Variables and patterns stand in a heap under addresses, since `As` and `Filter`
-- change them through pointers that `Clone` shares.
--
-- Vector indexes (vector) are in Vector: Vector/Interface for `Index`, Vector/Distance for the
-- distances, Vector/Bits for `VectorToBytes` and `BytesToVector`, Vector/Id for `MakeID` and
-- `ParseID`, and Vector/Flat for flat.go, whose `matchHeap` goes through container/heap. A float32
-- is an element of a type with the operations and laws of Vector/Float, or its 32 bits. The
-- vectors of a database (vectors.go) are in Vectors: `SetVector` and the other operations,
-- Vectors/Load for `LoadVectors`, Vectors/Search for the searches, Vectors/Embed for `Put` with
-- the embedding of new triples, and Vectors/History for sequences of calls.
--
-- Choices. A store's iterator is the list of what it visits, and an operation of the store that
-- fails has changed nothing. The loop of the triple iterator has as fuel one more than the number
-- of items, since each round takes one item at least; the iterator of solutions has fuel as an
-- argument, of which enough exists. Reading a varint takes ten rounds at most, as in Go. A length
-- that is too large for a slice makes Go panic: this is an error of its own in what reads a
-- triple, and ends the iterator that met it. A time is the 64 bits of its `UnixNano`, and the
-- clock is a function of the journal's counter. A context is whether it is done where the code
-- looks at it. Locks are not modelled: each operation is one step. Pointers to variables are not
-- nil. What is not in this repository is a parameter: the embedder, the order in which Go visits a
-- map, the text of fmt.Sprintf for the name of a variable, and, in Container, container/heap over
-- the methods of a heap and sort.Slice over a comparator, with what their documentation says of
-- any strict weak order.
--
-- Not modelled: vector/hnsw.go; the worker that embeds in the background, with its channel;
-- `ParseKey`, which nothing calls; opening files, `CloseGracefully`, logging, JSON, and the
-- setters of the options; the store of storage_wasm.go, a second in-memory store; vector/luxical,
-- glue over a package that is not here; the commands, the playground and the examples.
pub mod Prelude
pub mod Index
pub mod Graph
pub mod Store
pub mod MemStore
pub mod Journal
pub mod Navigator
pub mod Db
pub mod Search
pub mod Facets
pub mod Container
pub mod Vector
pub mod Vectors
mod Tests
