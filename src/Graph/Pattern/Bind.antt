-- ===== src/Graph/Pattern/Bind.antt =====
-- What a successful `BindTripleFast` means, against an order-free reading of patterns.
use levelgraph.Prelude.{◌≡◌, refl, sym, ◌∙◌, true, Option, none, some, arith}
use levelgraph.Prelude.Bytes.{Slice, slice_bytes, bytes_eq_iff}
use levelgraph.Prelude.Assoc.{lookup}
use levelgraph.Graph.Triple.{Triple}
use levelgraph.Graph.Solution.{
  Solution, bind, bind-bind_in_place, bytes_of, Extends, Extends-refl, Extends-trans, bind-Extends,
  lookup-bind, bind_least, bind_total, shallow_clone_lem,
}
use levelgraph.Graph.Pattern.{
  PatternValue, wildcard, exact, binding, Pattern, bind_field_fast, bind_triple_fast, ◌>>=◌,
  update_value, update_with_solution, matches, matches_at, data_of,
}

-- A pattern's field agrees with a value under a solution.
abbrev pub Agrees : PatternValue → Slice → Solution → Type 0
Agrees wildcard value s = Unit
Agrees (exact d) value s = slice_bytes d ≡ slice_bytes value
Agrees (binding x) value s = bytes_of (lookup x.name s) ≡ some (slice_bytes value)

-- A triple is the pattern's instance under a solution.
abbrev pub Satisfies : Pattern → Triple → Solution → Type 0
Satisfies p t s =
    Agrees p.subject t.subject s × Agrees p.predicate t.predicate s × Agrees p.object t.object s

pub Agrees-Extends :
    (pv : PatternValue) (value : Slice) (s u : Solution)
    → Extends s u
    → Agrees pv value s
    → Agrees pv value u
Agrees-Extends wildcard value s u e h = h
Agrees-Extends (exact d) value s u e h = h
Agrees-Extends (binding x) value s u e h = e x.name (slice_bytes value) h

bind_field_sound :
    (pv : PatternValue) (value : Slice) (s t : Solution)
    → bind_field_fast pv value s ≡ some t
    → Extends s t × Agrees pv value t
unfolding bind_field_fast
bind_field_sound wildcard value s t h =
    let e : s ≡ t = ground arith in rw (← e) (Extends-refl s, tt)
bind_field_sound (exact d) value s t h =
    let e : s ≡ t = ground arith in
    (rw (← e) (Extends-refl s), ground (arith, bytes_eq_iff (slice_bytes d) (slice_bytes value)))
bind_field_sound (binding x) value s t h =
    let e : bind x s value ≡ some t = bind-bind_in_place x s value ∙ h in
    (bind-Extends x s t value e, lookup-bind x s t value e)

bind_field_complete :
    (pv : PatternValue) (value : Slice) (s u : Solution)
    → Extends s u
    → Agrees pv value u
    → (t : Solution) × (bind_field_fast pv value s ≡ some t) × Extends t u
unfolding bind_field_fast
bind_field_complete wildcard value s u e h = (s, refl, e)
bind_field_complete (exact d) value s u e h =
    (s, ground (arith, bytes_eq_iff (slice_bytes d) (slice_bytes value)), e)
bind_field_complete (binding x) value s u e h =
    let (t, q) = bind_total x s u value e h in
    (t, sym (bind-bind_in_place x s value) ∙ q, bind_least x s t value q u e h)

>>=-eq-some {ℓ κ} :
    {A : Type ℓ} {B : Type κ} (m : Option A) (f : A → Option B) {b : B}
    → (m >>= f) ≡ some b
    → (a : A) × (m ≡ some a) × (f a ≡ some b)
>>=-eq-some none f h = cc
>>=-eq-some (some a) f h = (a, refl, h)

-- If a triple can be bound, the new solution extends the old one, and the triple is the pattern's
-- instance under it.
pub bind_triple_fast_sound :
    (p : Pattern) (t : Triple) (s s' : Solution)
    → bind_triple_fast p (some s) t ≡ some s'
    → Extends s s' × Satisfies p t s'
unfolding bind_triple_fast
bind_triple_fast_sound p t s s' h =
    let last = bind_field_fast p.object t.object in
    let rest = λ (s1 : Solution). bind_field_fast p.predicate t.predicate s1 >>= last in
    let (s1, h1, k1) =
      >>=-eq-some (bind_field_fast p.subject t.subject s) rest (rw shallow_clone_lem at h) in
    let (s2, h2, h3) = >>=-eq-some (bind_field_fast p.predicate t.predicate s1) last k1 in
    let (e1, a1) = bind_field_sound p.subject t.subject s s1 h1 in
    let (e2, a2) = bind_field_sound p.predicate t.predicate s1 s2 h2 in
    let (e3, a3) = bind_field_sound p.object t.object s2 s' h3 in
    let e23 = Extends-trans s1 s2 s' e2 e3 in
    (
      Extends-trans s s1 s' e1 e23,
      (
        Agrees-Extends p.subject t.subject s1 s' e23 a1,
        Agrees-Extends p.predicate t.predicate s2 s' e3 a2,
        a3,
      ),
    )

-- A triple that is the pattern's instance under an extension of the solution can be bound, and
-- the new solution binds nothing more than that extension does.
pub bind_triple_fast_complete :
    (p : Pattern) (t : Triple) (s u : Solution)
    → Extends s u
    → Satisfies p t u
    → (s' : Solution) × (bind_triple_fast p (some s) t ≡ some s') × Extends s' u
unfolding bind_triple_fast
bind_triple_fast_complete p t s u e (a1, a2, a3) =
    let (s1, h1, e1) = bind_field_complete p.subject t.subject s u e a1 in
    let (s2, h2, e2) = bind_field_complete p.predicate t.predicate s1 u e1 a2 in
    let (s3, h3, e3) = bind_field_complete p.object t.object s2 u e2 a3 in
    (s3, rw shallow_clone_lem (rw h1 (rw h2 h3)), e3)

matches_at_update :
    (pv : PatternValue) (value : Slice) (s u : Solution)
    → Extends s u
    → Agrees pv value u
    → matches_at (data_of (update_value pv s)) value ≡ true
unfolding update_value data_of
matches_at_update wildcard value s u e h = refl
matches_at_update (exact none) value s u e h = refl
matches_at_update (exact (some d)) value s u e h = (bytes_eq_iff d (slice_bytes value)).1 h
matches_at_update (binding x) value s u e h = go (lookup x.name s) refl
  where
    go :
        (o : Option Slice)
        → lookup x.name s ≡ o
        → matches_at (data_of (elim o [ some w ↦ exact w | none ↦ binding x ])) value ≡ true
    go none q = refl
    go (some none) q = refl
    go (some (some d)) q = ground (arith, bytes_eq_iff d (slice_bytes value), e x.name d)

-- The pattern with the solution's values put in matches every triple that the pattern has for an
-- instance under an extension: no instance is lost to the narrower query.
pub matches-update :
    (p : Pattern) (t : Triple) (s u : Solution)
    → Extends s u
    → Satisfies p t u
    → matches (update_with_solution p s) t ≡ true
unfolding matches update_with_solution
matches-update p t s u e (a1, a2, a3) = ground (
  arith,
  matches_at_update p.subject t.subject s u e a1,
  matches_at_update p.predicate t.predicate s u e a2,
  matches_at_update p.object t.object s u e a3,
)
