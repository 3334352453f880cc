-- ===== src/Db/State.antt =====
-- levelgraph.go: the database's state and errors, and what it checks first.
use levelgraph.Prelude.{ℕ, ◌≡◌, refl, Bool, true, false, ◌&&◌, Option, none, some}
use levelgraph.Prelude.Int.{ℤ}
use levelgraph.Prelude.Bytes.{Slice}
use levelgraph.Graph.Triple.{Triple, Spo, triple}
use levelgraph.Graph.Pattern.{present}
use levelgraph.Graph.Varint.{ReadError}

pub data Error : Type 0 where
  err_closed cancelled err_invalid_triple err_facets_disabled store_error : Error
  parse_error : ReadError → Error

pub data Result {ℓ} (A : Type ℓ) : Type ℓ where
  ok : A → Result A
  err : Error → Result A

infixl 5 ◌>>=◌
abbrev pub ◌>>=◌ {ℓ κ} : {A : Type ℓ} {B : Type κ} → Result A → (A → Result B) → Result B
ok a >>= f = f a
err e >>= f = err e

-- The options that the modelled operations read.
pub record Options : Type 0 where
  pub journal_enabled : Bool
  pub facets_enabled : Bool
  pub default_limit : ℤ

-- `DB`, over the states of its store.
pub record Db (State : Type 0) : Type 0 where
  pub store : State
  pub options : Options
  pub closed : Bool
  pub journal_counter : ℕ

-- `validateTriple`; `none` is the nil pointer.
unfoldable pub validate_triple : Option Triple → Bool
validate_triple none = false
validate_triple (some t) = present t.subject && (present t.predicate && present t.object)

-- A triple that passes has all its fields.
pub validate_triple_whole :
    (t : Triple) → validate_triple (some t) ≡ true → (x : Spo) × (t ≡ triple x)
unfolding validate_triple
validate_triple_whole t h = go t.subject t.predicate t.object h
  where
    go :
        (s p o : Slice)
        → present s && (present p && present o) ≡ true
        → (x : Spo) × (record { subject = s; predicate = p; object = o } ≡ triple x)
    go none p o e = cc
    go (some s) none o e = cc
    go (some s) (some p) none e = cc
    go (some s) (some p) (some o) e = (record { s = s; p = p; o = o }, refl)
