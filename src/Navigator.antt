-- ===== src/Navigator.antt =====
-- navigator.go: a query built by following edges. Variables and patterns are shared by pointers
-- (`As` renames a variable, `Filter` changes a pattern, `Clone` copies the pointers), so they
-- stand in a heap under addresses; a pointer is that of something allocated.
pub mod Query
pub mod Collect
pub mod Exact
pub mod Grow
pub mod Steps
pub mod Paths
pub mod Reach
pub mod First
use levelgraph.Prelude.{
  ℕ, zero, suc, ◌+◌, Bool, true, false, Option, none, some, List, [], ◌∷◌, ◌++◌, if◌then◌else◌,
  ◌==◌, length, map,
}
use levelgraph.Prelude.Int.{ℤ, pos}
use levelgraph.Prelude.Bytes.{Bytes, Slice, slice_bytes, codes, bytes_eq}
use levelgraph.Prelude.Assoc.{Assoc, lookup, insert}
use levelgraph.Graph.Triple.{Triple}
use levelgraph.Graph.Solution.{Variable, Solution, shallow_clone}
use levelgraph.Graph.Pattern.{Pattern, PatternValue}
use levelgraph.Store.{KvStore}
use levelgraph.Db.State.{Db, Result, ok, err}
use levelgraph.Search.{search, no_options}

-- `PatternValue`, a binding by the address of its variable.
pub data ValueRef : Type 0 where
  wildcard : ValueRef
  exact : Slice → ValueRef
  binding : ℕ → ValueRef

pub record PatternRef : Type 0 where
  pub subject : ValueRef
  pub predicate : ValueRef
  pub object : ValueRef
  pub filter : Option (Triple → Bool)
  pub limit : ℤ
  pub offset : ℤ
  pub reverse : Bool

-- The variables' names and the patterns, each at its address.
pub record Heap : Type 0 where
  pub names : List Bytes
  pub patterns : List PatternRef

unfoldable pub at_or {ℓ} : {A : Type ℓ} → A → ℕ → List A → A
at_or absent n [] = absent
at_or absent zero (x ∷ xs) = x
at_or absent (suc n) (x ∷ xs) = at_or absent n xs

unfoldable pub replace_at {ℓ} : {A : Type ℓ} → ℕ → A → List A → List A
replace_at n new [] = []
replace_at zero new (x ∷ xs) = new ∷ xs
replace_at (suc n) new (x ∷ xs) = x ∷ replace_at n new xs

abbrev no_pattern : PatternRef
no_pattern = record {
  subject = wildcard;
  predicate = wildcard;
  object = wildcard;
  filter = none;
  limit = pos 0;
  offset = pos 0;
  reverse = false;
}

abbrev pub name_at : Heap → ℕ → Bytes
name_at h x = at_or [] x h.names

abbrev pub pattern_at : Heap → ℕ → PatternRef
pattern_at h c = at_or no_pattern c h.patterns

-- What a value and a pattern are at this moment.
abbrev pub read_value : Heap → ValueRef → PatternValue
read_value h wildcard = PatternValue.wildcard
read_value h (exact d) = PatternValue.exact d
read_value h (binding x) = PatternValue.binding (record { name = name_at h x })

abbrev pub read_pattern : Heap → PatternRef → Pattern
read_pattern h p = record {
  subject = read_value h p.subject;
  predicate = read_value h p.predicate;
  object = read_value h p.object;
  filter = p.filter;
  limit = p.limit;
  offset = p.offset;
  reverse = p.reverse;
}

-- The dynamic types that the operations tell apart.
pub data Any : Type 0 where
  nil : Any
  pattern_value : ValueRef → Any
  bytes : Slice → Any
  string : Bytes → Any
  variable : ℕ → Any
  bool : Bool → Any
  other_type : Any

-- `normalizePatternValue`
unfoldable pub normalize_pattern_value : Any → ValueRef
normalize_pattern_value nil = wildcard
normalize_pattern_value (pattern_value p) = p
normalize_pattern_value (bytes d) = if length (slice_bytes d) == 0 then wildcard else exact d
normalize_pattern_value (string s) = if bytes_eq s [] then wildcard else exact (some s)
normalize_pattern_value (variable x) = binding x
normalize_pattern_value (bool true) = exact (some (codes "true"))
normalize_pattern_value (bool false) = exact (some (codes "false"))
normalize_pattern_value other_type = wildcard

unfoldable pub new_pattern : Any → Any → Any → PatternRef
unfolding normalize_pattern_value
new_pattern s p o = record {
  subject = normalize_pattern_value s;
  predicate = normalize_pattern_value p;
  object = normalize_pattern_value o;
  filter = none;
  limit = pos 0;
  offset = pos 0;
  reverse = false;
}

unfoldable pub normalize_value : Any → Slice
normalize_value (bytes d) = if length (slice_bytes d) == 0 then none else d
normalize_value (string s) = if bytes_eq s [] then none else some s
normalize_value _ = none

-- `lastElement`
pub data Element : Type 0 where
  bytes : Slice → Element
  variable : ℕ → Element

abbrev pub any_of : Element → Any
any_of (bytes d) = Any.bytes d
any_of (variable x) = Any.variable x

-- The database and the context are arguments of the operations that run the query.
pub record Navigator : Type 0 where
  pub conditions : List ℕ
  pub initial_solution : Solution
  pub last_element : Element
  pub var_counter : ℕ

abbrev pub alloc_variable : Bytes → Heap → Heap × ℕ
alloc_variable name h = (record h { names = h.names ++ name ∷ [] }, length h.names)

abbrev pub alloc_pattern : PatternRef → Heap → Heap × ℕ
alloc_pattern p h = (record h { patterns = h.patterns ++ p ∷ [] }, length h.patterns)

abbrev pub Edit : Type 0
Edit = Heap × Navigator → Heap × Navigator

-- `As`
unfoldable pub as_name : Bytes → Edit
as_name name (h, nav) = elim nav.last_element [
  | bytes d ↦ (h, nav)
  | variable x ↦ (record h { names = replace_at x name h.names }, nav)
]

unfoldable pub bind : Any → Edit
bind value (h, nav) = elim nav.last_element [
  | bytes d ↦ (h, nav)
  | variable x ↦ elim (normalize_value value) [
    | none ↦ (h, nav)
    | some val ↦
        (h, record nav { initial_solution = insert (name_at h x) (some val) nav.initial_solution })
  ]
]

-- `Where`, with the address of the pattern.
unfoldable pub add_condition : ℕ → Edit
add_condition c (h, nav) = (h, record nav { conditions = nav.conditions ++ c ∷ [] })

abbrev pub last_of : List ℕ → Option ℕ
last_of [] = none
last_of (c ∷ []) = some c
last_of (c ∷ d ∷ cs) = last_of (d ∷ cs)

unfoldable pub filter : Option (Triple → Bool) → Edit
filter fn (h, nav) = elim (last_of nav.conditions) [
  | none ↦ (h, nav)
  | some c ↦ (
    record h { patterns = replace_at c (record (pattern_at h c) { filter = fn }) h.patterns },
    nav,
  )
]

-- `Clone`: the conditions and the last element are the same pointers.
unfoldable pub clone : Navigator → Navigator
clone nav = record nav { initial_solution = shallow_clone nav.initial_solution }

-- `var_name n` is `fmt.Sprintf("x%d", n)`; there are fewer variables than an int counts.
module _ (var_name : ℕ → Bytes) where
  -- `nextVar`: the address of the new variable.
  unfoldable pub next_var : Heap × Navigator → (Heap × Navigator) × ℕ
  next_var (h, nav) =
      let (h', x) = alloc_variable (var_name nav.var_counter) h in
      ((h', record nav { var_counter = suc nav.var_counter }), x)

  abbrev pub at_new_variable : Edit
  at_new_variable s =
      let ((h, nav), x) = next_var s in (h, record nav { last_element = variable x })

  unfoldable pub go : Any → Edit
  go (bytes d) (h, nav) = (h, record nav { last_element = bytes d })
  go (string s) (h, nav) = (h, record nav { last_element = bytes (some s) })
  go (variable x) (h, nav) = (h, record nav { last_element = variable x })
  go nil s = at_new_variable s
  go (pattern_value p) s = at_new_variable s
  go (bool b) s = at_new_variable s
  go other_type s = at_new_variable s

  -- `DB.Nav`
  unfoldable pub nav_from : Any → Heap → Heap × Navigator
  unfolding go
  nav_from start h = go start (
    h,
    record { conditions = []; initial_solution = []; last_element = bytes none; var_counter = 0 },
  )

  abbrev pub with_condition : PatternRef → ℕ → Edit
  with_condition p x (h, nav) =
      let (h', c) = alloc_pattern p h in
      (h', record nav { conditions = nav.conditions ++ c ∷ []; last_element = variable x })

  unfoldable pub arch_out : Any → Edit
  arch_out predicate (h, nav) =
      let (s, x) = next_var (h, nav) in
      with_condition (new_pattern (any_of nav.last_element) predicate (variable x)) x s

  unfoldable pub arch_in : Any → Edit
  arch_in predicate (h, nav) =
      let (s, x) = next_var (h, nav) in
      with_condition (new_pattern (variable x) predicate (any_of nav.last_element)) x s
