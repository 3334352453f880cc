-- ===== src/Db/Values.antt =====
-- The values that an iterator meets: the pattern's filter on them, and the triples in them.
use levelgraph.Prelude.{
  ℕ, ◌≡◌, refl, sym, ap, ◌∙◌, Bool, true, false, Option, none, some, List, [], ◌∷◌, ◌++◌, arith,
  if◌then◌else◌, Bool-cases, inl, inr, ◌⊎◌, ◌↔◌, subst, Mem, append-nil,
}
use levelgraph.Prelude.Bytes.{Bytes}
use mathlib.Core.List.{reverse, reverse-cons}
use levelgraph.Graph.Triple.{Triple, Spo, triple}
use levelgraph.Graph.Varint.{Read}
use levelgraph.Graph.Codec.{marshal, unmarshal, unmarshal-marshal}
use levelgraph.Db.State.{ok}
use levelgraph.Db.Read.{Items, passes, panics}
use levelgraph.Db.Window.{wanted, skip, parse_all, limited}
use levelgraph.Db.Indexed.{IsStorable}

-- The pattern's filter, if it has one.
abbrev pub accepts : Option (Triple → Bool) → Triple → Bool
accepts none t = true
accepts (some f) t = f t

-- Parsing for the filter panics at none of the items.
abbrev pub IsQuiet : Option (Triple → Bool) → Items → Type 0
IsQuiet f items = (k v : Bytes) → Mem (k, v) items → panics f v ≡ false

pub mem-wanted_sound :
    (f : Option (Triple → Bool)) (v : Bytes) (items : Items)
    → IsQuiet f items
    → Mem v (wanted f items)
    → (k : Bytes) × Mem (k, v) items × (passes f v ≡ true)
unfolding wanted
mem-wanted_sound f v [] quiet h = absurd h
mem-wanted_sound f v ((j, w) ∷ items) quiet h =
    let still = quiet j w (inl refl) in
    let later : IsQuiet f items = λ k u m. quiet k u (inr m) in
    elim (Bool-cases (passes f w)) [
      | inl e ↦ elim (rw (still, e) at h) [
        | inl q ↦ (j, inl (rw q), rw q e)
        | inr m ↦ let (k, n, r) = mem-wanted_sound f v items later m in (k, inr n, r)
      ]
      | inr e ↦
          let (k, n, r) = mem-wanted_sound f v items later (rw (still, e) at h) in (k, inr n, r)
    ]

pub mem-wanted_complete :
    (f : Option (Triple → Bool)) (k v : Bytes) (items : Items)
    → IsQuiet f items
    → Mem (k, v) items
    → passes f v ≡ true
    → Mem v (wanted f items)
unfolding wanted
mem-wanted_complete f k v [] quiet h r = absurd h
mem-wanted_complete f k v ((j, w) ∷ items) quiet h r =
    let still = quiet j w (inl refl) in
    elim h [
      | inl q ↦
          let e : v ≡ w = ap (λ (x : Bytes × Bytes). x.1) q in
          let r' : passes f w ≡ true = rw (sym e) r in rw (still, r') (inl e)
      | inr m ↦
          let n = mem-wanted_complete f k v items (λ i u m'. quiet i u (inr m')) m r in
          elim (Bool-cases (passes f w)) [ inl e ↦ rw (still, e) (inr n) | inr e ↦ rw (still, e) n ]
    ]

module _ {A : Type 0} where
  mem-append_inv : (a : A) (xs ys : List A) → Mem a (xs ++ ys) → Mem a xs ⊎ Mem a ys
  mem-append_inv a [] ys h = inr h
  mem-append_inv a (x ∷ xs) ys h = elim h [
    | inl e ↦ inl (inl e)
    | inr m ↦ elim (mem-append_inv a xs ys m) [ inl n ↦ inl (inr n) | inr n ↦ inr n ]
  ]

  mem-append_left : (a : A) (xs ys : List A) → Mem a xs → Mem a (xs ++ ys)
  mem-append_left a [] ys h = absurd h
  mem-append_left a (x ∷ xs) ys h = elim h [
    | inl e ↦ inl e
    | inr m ↦ inr (mem-append_left a xs ys m)
  ]

  mem-append_right : (a : A) (xs ys : List A) → Mem a ys → Mem a (xs ++ ys)
  mem-append_right a [] ys h = h
  mem-append_right a (x ∷ xs) ys h = inr (mem-append_right a xs ys h)

  mem-reverse_sound : (a : A) (xs : List A) → Mem a (reverse xs) → Mem a xs
  mem-reverse_sound a [] h = absurd h
  mem-reverse_sound a (x ∷ xs) h =
      elim (mem-append_inv a (reverse xs) (x ∷ []) (subst (Mem a) (reverse-cons x xs) h)) [
        | inl m ↦ inr (mem-reverse_sound a xs m)
        | inr m ↦ elim m [ inl e ↦ inl e | inr z ↦ absurd z ]
      ]

  mem-reverse_complete : (a : A) (xs : List A) → Mem a xs → Mem a (reverse xs)
  mem-reverse_complete a [] h = absurd h
  mem-reverse_complete a (x ∷ xs) h = subst (Mem a) (sym (reverse-cons x xs)) (elim h [
    | inl e ↦ mem-append_right a (reverse xs) (x ∷ []) (inl e)
    | inr m ↦ mem-append_left a (reverse xs) (x ∷ []) (mem-reverse_complete a xs m)
  ])

  -- The direction of a visit does not matter to what it meets.
  pub mem-directed :
      (b : Bool) (a : A) (xs : List A) → Mem a (if b then reverse xs else xs) ↔ Mem a xs
  mem-directed true a xs = (mem-reverse_sound a xs, mem-reverse_complete a xs)
  mem-directed false a xs = (λ h. h, λ h. h)

pub ok_injective : {t u : Triple} → Read.ok t ≡ Read.ok u → u ≡ t
ok_injective h = ground arith

-- Values that stand for triples are parsed, and the result has a triple as the values have its
-- form.
pub unmarshal_entry_value :
    (x : Spo) (v : Bytes) → v ≡ marshal (triple x) → IsStorable x → unmarshal v ≡ Read.ok (triple x)
unmarshal_entry_value x v e s = rw e (
    subst (λ l. unmarshal l ≡ Read.ok (triple x)) (append-nil (marshal (triple x)))
      (unmarshal-marshal (triple x) [] s.short))

abbrev pub Parses : List Bytes → Type 0
Parses values = (v : Bytes) → Mem v values → (t : Triple) × (unmarshal v ≡ Read.ok t)

pub parse_all_total :
    (values : List Bytes)
    → Parses values
    → (ts : List Triple) × (parse_all values ≡ ok ts)
      × ((t : Triple) → Mem t ts → (v : Bytes) × Mem v values × (unmarshal v ≡ Read.ok t))
      × ((v : Bytes) (t : Triple) → Mem v values → unmarshal v ≡ Read.ok t → Mem t ts)
unfolding parse_all
parse_all_total [] h = ([], refl, λ t m. absurd m, λ v t m e. absurd m)
parse_all_total (v ∷ values) h =
    let (t, e) = h v (inl refl) in
    let (ts, f, s, c) = parse_all_total values (λ w m. h w (inr m)) in
    (
      t ∷ ts,
      rw (e, parse_all) (rw f),
      λ u m. elim m [
        | inl q ↦ (v, inl refl, e ∙ ap Read.ok (sym q))
        | inr n ↦ let (w, k, g) = s u n in (w, inr k, g)
      ],
      λ w u m g. elim m [
        | inl q ↦ inl (ok_injective (sym (ap unmarshal q ∙ e) ∙ g))
        | inr n ↦ inr (c w u n g)
      ],
    )

pub passes-accepts :
    (f : Option (Triple → Bool)) (v : Bytes) (t : Triple)
    → unmarshal v ≡ Read.ok t
    → passes f v ≡ accepts f t
unfolding passes
passes-accepts none v t e = refl
passes-accepts (some f) v t e = rw e

-- A value that parses is no panic.
pub panics-false :
    (f : Option (Triple → Bool)) (v : Bytes) (t : Triple)
    → unmarshal v ≡ Read.ok t
    → panics f v ≡ false
unfolding panics
panics-false none v t e = refl
panics-false (some f) v t e = rw e refl

pub unlimited :
    (f : Option (Triple → Bool)) (limit offset : ℕ) (l : List Bytes)
    → limit ≡ 0
    → offset ≡ 0
    → limited limit (skip f offset l) ≡ l
unfolding skip
unlimited f limit offset l e q = rw (e, q)
