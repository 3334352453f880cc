-- ===== src/Graph/Pattern.antt =====
-- pkg/graph/pattern.go: patterns, matching, and binding a triple to a pattern.
pub mod Bind
pub mod Clone
use levelgraph.Prelude.{
  Bool, true, false, ◌&&◌, ◌||◌, Option, none, some, List, [], ◌∷◌, ◌++◌, ◌==◌, if◌then◌else◌,
  length,
}
use levelgraph.Prelude.Int.{ℤ, pos}
use levelgraph.Prelude.Bytes.{Bytes, Slice, slice_bytes, codes, bytes_eq}
use levelgraph.Prelude.Assoc.{lookup}
use levelgraph.Graph.Triple.{Triple, Field, subject, predicate, object, other}
use levelgraph.Graph.Solution.{Variable, Solution, bind, bind_in_place, clone, shallow_clone}

-- `kind` with the one field that goes with it. A binding's variable is not a nil pointer.
pub data PatternValue : Type 0 where
  wildcard : PatternValue
  exact : Slice → PatternValue
  binding : Variable → PatternValue

unfoldable pub is_wildcard : PatternValue → Bool
is_wildcard wildcard = true
is_wildcard _ = false

unfoldable pub is_exact : PatternValue → Bool
is_exact (exact _) = true
is_exact _ = false

unfoldable pub is_binding : PatternValue → Bool
is_binding (binding _) = true
is_binding _ = false

-- `Data`: nil unless the value is exact, and an exact value may hold nil.
unfoldable pub data_of : PatternValue → Slice
data_of (exact d) = d
data_of _ = none

unfoldable pub variable_name : PatternValue → Bytes
variable_name (binding x) = x.name
variable_name _ = []

-- The dynamic types that `NewPattern` tells apart.
pub data Any : Type 0 where
  nil : Any
  pattern_value : PatternValue → Any
  bytes : Slice → Any
  string : Bytes → Any
  variable : Variable → Any
  bool : Bool → Any
  other_type : Any

unfoldable pub to_interface : PatternValue → Any
to_interface wildcard = nil
to_interface (exact d) = bytes d
to_interface (binding x) = variable x

unfoldable pub normalize_pattern_value : Any → PatternValue
normalize_pattern_value nil = wildcard
normalize_pattern_value (pattern_value p) = p
normalize_pattern_value (bytes d) = if length (slice_bytes d) == 0 then wildcard else exact d
normalize_pattern_value (string s) = if bytes_eq s [] then wildcard else exact (some s)
normalize_pattern_value (variable x) = binding x
normalize_pattern_value (bool true) = exact (some (codes "true"))
normalize_pattern_value (bool false) = exact (some (codes "false"))
normalize_pattern_value other_type = wildcard

pub record Pattern : Type 0 where
  pub subject : PatternValue
  pub predicate : PatternValue
  pub object : PatternValue
  pub filter : Option (Triple → Bool)
  pub limit : ℤ
  pub offset : ℤ
  pub reverse : Bool

unfoldable pub new_pattern : Any → Any → Any → Pattern
unfolding normalize_pattern_value
new_pattern s p o = record {
  subject = normalize_pattern_value s;
  predicate = normalize_pattern_value p;
  object = normalize_pattern_value o;
  filter = none;
  limit = pos 0;
  offset = pos 0;
  reverse = false;
}

-- The `switch` that picks a field; a string that names none has a zero value.
abbrev pub value_at : Pattern → Field → PatternValue
value_at p subject = p.subject
value_at p predicate = p.predicate
value_at p object = p.object
value_at p (other _) = wildcard

unfoldable pub get_concrete_value : Pattern → Field → Slice
unfolding data_of
get_concrete_value p f = data_of (value_at p f)

abbrev pub variable_of : PatternValue → Option Variable
variable_of (binding x) = some x
variable_of _ = none

unfoldable pub get_variable : Pattern → Field → Option Variable
get_variable p f = variable_of (value_at p f)

unfoldable pub has_variable : Pattern → Bool
unfolding is_binding
has_variable p = is_binding p.subject || (is_binding p.predicate || is_binding p.object)

abbrev pub present {ℓ} : {A : Type ℓ} → Option A → Bool
present none = false
present (some _) = true

unfoldable pub concrete_fields : Pattern → List Field
unfolding get_concrete_value
concrete_fields p =
    (if present (get_concrete_value p subject) then subject ∷ [] else [])
    ++ ((if present (get_concrete_value p predicate) then predicate ∷ [] else [])
        ++ (if present (get_concrete_value p object) then object ∷ [] else []))

abbrev field_variable : Field → Option Variable → List (Field × Variable)
field_variable f none = []
field_variable f (some x) = (f, x) ∷ []

-- The map that `VariableFields` builds, in the order of its writes.
unfoldable pub variable_fields : Pattern → List (Field × Variable)
unfolding get_variable
variable_fields p =
    field_variable subject (get_variable p subject)
    ++ (field_variable predicate (get_variable p predicate)
        ++ field_variable object (get_variable p object))

abbrev triple_of : Slice → Slice → Slice → Option Triple
triple_of (some s) (some p) (some o) =
    some (record { subject = some s; predicate = some p; object = some o })
triple_of _ _ _ = none

unfoldable pub to_triple : Pattern → Option Triple
unfolding get_concrete_value
to_triple p =
    triple_of (get_concrete_value p subject) (get_concrete_value p predicate)
      (get_concrete_value p object)

-- One of the three tests of `Matches`.
abbrev pub matches_at : Slice → Slice → Bool
matches_at none value = true
matches_at (some d) value = bytes_eq d (slice_bytes value)

unfoldable pub matches : Pattern → Triple → Bool
unfolding get_concrete_value
matches p t =
    matches_at (get_concrete_value p subject) t.subject
    && (matches_at (get_concrete_value p predicate) t.predicate
        && matches_at (get_concrete_value p object) t.object)

-- One field of `UpdateWithSolution`.
unfoldable pub update_value : PatternValue → Solution → PatternValue
update_value (binding x) s = elim (lookup x.name s) [ some value ↦ exact value | none ↦ binding x ]
update_value pv s = pv

unfoldable pub update_with_solution : Pattern → Solution → Pattern
update_with_solution p s = record p {
  subject = update_value p.subject s;
  predicate = update_value p.predicate s;
  object = update_value p.object s;
}

infixl 5 ◌>>=◌
abbrev pub ◌>>=◌ {ℓ κ} : {A : Type ℓ} {B : Type κ} → Option A → (A → Option B) → Option B
some a >>= f = f a
none >>= f = none

-- One field of `BindTriple`; nil stands for a triple that does not match.
unfoldable pub bind_field : PatternValue → Slice → Solution → Option Solution
bind_field (binding x) value s = bind x s value
bind_field (exact none) value s = some s
bind_field (exact (some d)) value s = if bytes_eq d (slice_bytes value) then some s else none
bind_field wildcard value s = some s

-- A nil solution becomes an empty one.
abbrev pub made_map : Option Solution → Solution
made_map none = []
made_map (some s) = s

unfoldable pub bind_triple : Pattern → Option Solution → Triple → Option Solution
bind_triple p s t = do
  let s0 = clone (made_map s)
  s1 ← bind_field p.subject t.subject s0
  s2 ← bind_field p.predicate t.predicate s1
  bind_field p.object t.object s2

-- One field of `BindTripleFast`, which reads the exact data as it is, nil or not.
unfoldable pub bind_field_fast : PatternValue → Slice → Solution → Option Solution
bind_field_fast (binding x) value s =
    let (s', done) = bind_in_place x s value in if done then some s' else none
bind_field_fast (exact d) value s =
    if bytes_eq (slice_bytes d) (slice_bytes value) then some s else none
bind_field_fast wildcard value s = some s

unfoldable pub bind_triple_fast : Pattern → Option Solution → Triple → Option Solution
bind_triple_fast p s t = do
  let s0 = shallow_clone (made_map s)
  s1 ← bind_field_fast p.subject t.subject s0
  s2 ← bind_field_fast p.predicate t.predicate s1
  bind_field_fast p.object t.object s2
