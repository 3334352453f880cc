-- ===== src/Graph/Pattern/Clone.antt =====
-- `BindTripleFast` against `BindTriple`: the shallow copy gives the solution that the deep one
-- gives.
use levelgraph.Prelude.{◌≡◌, refl, sym, ◌∙◌, ap, Option, none, some, [], ◌∷◌, arith, if◌then◌else◌}
use levelgraph.Prelude.Bytes.{Bytes, Slice, slice_bytes, bytes_eq}
use levelgraph.Prelude.Assoc.{Assoc, lookup, insert}
use levelgraph.Graph.Triple.{Triple}
use levelgraph.Graph.Solution.{
  Variable, Solution, bind, bind-bind_in_place, append_clone, clone, shallow_clone_lem, bytes_of,
}
use levelgraph.Graph.Pattern.{
  PatternValue, wildcard, exact, binding, Pattern, bind_field, bind_field_fast, bind_triple,
  bind_triple_fast, made_map, ◌>>=◌,
}

-- A solution with its values read as byte strings, nil as the empty one.
pub contents : Solution → Assoc Bytes
contents [] = []
contents ((k, value) ∷ s) = (k, slice_bytes value) ∷ contents s

abbrev pub contents_of : Option Solution → Option (Assoc Bytes)
contents_of none = none
contents_of (some s) = some (contents s)

-- An exact value that holds no nil slice.
abbrev pub HasData : PatternValue → Type 0
HasData (exact none) = ⊥
HasData _ = Unit

pub record AllHaveData (p : Pattern) : Type 0 where
  pub subject : HasData p.subject
  pub predicate : HasData p.predicate
  pub object : HasData p.object

slice_bytes-append_clone : (w : Slice) → slice_bytes (append_clone w) ≡ slice_bytes w
slice_bytes-append_clone none = refl
slice_bytes-append_clone (some []) = refl
slice_bytes-append_clone (some (b ∷ bs)) = refl

contents-clone : (s : Solution) → contents (clone s) ≡ contents s
unfolding contents clone
contents-clone [] = refl
contents-clone ((k, w) ∷ s) = cc (slice_bytes-append_clone w, contents-clone s)

lookup-contents : (k : Bytes) (s : Solution) → lookup k (contents s) ≡ bytes_of (lookup k s)
unfolding contents lookup
lookup-contents k [] = refl
lookup-contents k ((j, w) ∷ s) = ground (arith, lookup-contents k s)

contents-insert :
    (k : Bytes) (w : Slice) (s : Solution)
    → contents (insert k w s) ≡ insert k (slice_bytes w) (contents s)
unfolding contents insert
contents-insert k w [] = refl
contents-insert k w ((j, x) ∷ s) = ground (arith, contents-insert k w s)

-- `Bind` as a function of the contents.
bind_contents : Bytes → Assoc Bytes → Bytes → Option (Assoc Bytes)
bind_contents x m b = elim (lookup x m) [
  | some old ↦ if bytes_eq old b then some m else none
  | none ↦ some (insert x b m)
]

contents-bind :
    (x : Variable) (s : Solution) (w : Slice)
    → contents_of (bind x s w) ≡ bind_contents x.name (contents s) (slice_bytes w)
unfolding bind bind_contents
contents-bind x s w = ground (arith, lookup-contents x.name s, contents-insert x.name w s)

-- One field: the two ways agree on solutions of the same contents.
bind_field_contents :
    (pv : PatternValue) (w : Slice) (s s' : Solution)
    → HasData pv
    → contents s ≡ contents s'
    → contents_of (bind_field pv w s) ≡ contents_of (bind_field_fast pv w s')
unfolding bind_field bind_field_fast
bind_field_contents wildcard w s s' h e = ap some e
bind_field_contents (exact none) w s s' h e = absurd h
bind_field_contents (exact (some d)) w s s' h e = ground arith
bind_field_contents (binding x) w s s' h e =
    contents-bind x s w
    ∙ ap (λ m. bind_contents x.name m (slice_bytes w)) e
    ∙ sym (contents-bind x s' w)
    ∙ ap contents_of (bind-bind_in_place x s' w)

bind-contents_of :
    (m m' : Option Solution) (f g : Solution → Option Solution)
    → contents_of m ≡ contents_of m'
    → ((s s' : Solution) → contents s ≡ contents s' → contents_of (f s) ≡ contents_of (g s'))
    → contents_of (m >>= f) ≡ contents_of (m' >>= g)
bind-contents_of none none f g e h = refl
bind-contents_of none (some s') f g e h = cc
bind-contents_of (some s) none f g e h = cc
bind-contents_of (some s) (some s') f g e h = h s s' (ground arith)

-- On a pattern whose exact values are not nil, from any solution, nil too, `BindTripleFast` fails
-- where `BindTriple` fails, and else binds the same names to the same bytes.
pub bind_triple_fast-bind_triple :
    (p : Pattern) (s : Option Solution) (t : Triple)
    → AllHaveData p
    → contents_of (bind_triple_fast p s t) ≡ contents_of (bind_triple p s t)
unfolding bind_triple bind_triple_fast
bind_triple_fast-bind_triple p s t h = sym (
    rw shallow_clone_lem (
      bind-contents_of _ _ _ _
        (bind_field_contents p.subject t.subject _ _ h.subject (contents-clone (made_map s)))
        λ s1 s1' e1.
          bind-contents_of _ _ _ _
            (bind_field_contents p.predicate t.predicate s1 s1' h.predicate e1)
            λ s2 s2' e2. bind_field_contents p.object t.object s2 s2' h.object e2))
