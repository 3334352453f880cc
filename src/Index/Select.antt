-- ===== src/Index/Select.antt =====
-- Which keys of triples lie in the range of a pattern.
use levelgraph.Prelude.{
  ◌<◌, ◌≡◌, refl, sym, ◌∙◌, true, ◌&&◌, [], ◌∷◌, ◌++◌, arith, All-append, All-append_right, subst,
  append_assoc, append-cancel, Bool-ext,
}
use levelgraph.Prelude.Bytes.{
  Bytes, bytes_eq, bytes_eq_iff, bytes_eq-true, starts_with, starts_with-append, starts_with_rest,
}
use levelgraph.Index.Escape.{key_separator, escape_loop, escape_split}
use levelgraph.Index.Key.{upper_bound}
use levelgraph.Index.Range.{
  in_range, in_range-append, in_range_prefix, IsClean, lt-upper_bound, lt-ff,
}

-- The key of three values under a code.
abbrev pub key3 : Bytes → Bytes → Bytes → Bytes → Bytes
key3 c x y z =
    c
    ++ (key_separator
        ++ (escape_loop x
            ++ (key_separator ++ (escape_loop y ++ (key_separator ++ escape_loop z)))))

pub escape_loop-IsClean : (v : Bytes) → IsClean v → IsClean (escape_loop v)
unfolding escape_loop
escape_loop-IsClean [] h = tt
escape_loop-IsClean (b ∷ v) h = ground (arith, escape_loop-IsClean v h.1)

separated-IsClean :
    (v r : Bytes) → IsClean v → IsClean r → IsClean (escape_loop v ++ (key_separator ++ r))
separated-IsClean v r hv hr =
    All-append (λ b. b < 255) (escape_loop v) (key_separator ++ r) (escape_loop-IsClean v hv)
      (omega arith, (omega arith, hr))

-- A key that goes on behind a clean rest is in the range of its beginning.
pub begins_in_range :
    (start r : Bytes) → IsClean r → in_range start (start ++ upper_bound) (start ++ r) ≡ true
begins_in_range start r h = in_range-append start upper_bound r ∙ lt-upper_bound r h

-- The bytes of a key behind its first separator.
abbrev pub tail2 : Bytes → Bytes → Bytes
tail2 y z = escape_loop y ++ (key_separator ++ escape_loop z)

-- Behind a separator, an escaped value and a separator: both values and rests agree.
split_component :
    (a x r r' : Bytes)
    → key_separator ++ (escape_loop x ++ (key_separator ++ r'))
      ≡ key_separator ++ (escape_loop a ++ (key_separator ++ r))
    → (x ≡ a) × (r' ≡ r)
split_component a x r r' h = escape_split x a r' r (append-cancel key_separator _ _ h)

module _ (c a b x y z : Bytes) (cx : IsClean x) (cy : IsClean y) (cz : IsClean z) where
  abbrev start0 : Bytes
  start0 = c ++ key_separator

  abbrev start1 : Bytes
  start1 = c ++ (key_separator ++ (escape_loop a ++ key_separator))

  abbrev start2 : Bytes
  start2 =
      c ++ (key_separator ++ (escape_loop a ++ (key_separator ++ (escape_loop b ++ key_separator))))

  tail2-IsClean : IsClean (tail2 y z)
  tail2-IsClean = separated-IsClean y _ cy (escape_loop-IsClean z cz)

  -- The range of a whole index holds its keys.
  pub select0 : in_range start0 (start0 ++ upper_bound) (key3 c x y z) ≡ true
  select0 =
      rw (sym (append_assoc c key_separator (escape_loop x ++ (key_separator ++ tail2 y z))))
        (begins_in_range start0 _ (separated-IsClean x _ cx tail2-IsClean))

  select1_sound : in_range start1 (start1 ++ upper_bound) (key3 c x y z) ≡ true → a ≡ x
  select1_sound h =
      let (r, e) = in_range_prefix start1 upper_bound (key3 c x y z) h in
      sym (split_component a x r (tail2 y z) (append-cancel c _ _ (simp append_assoc at e))).0

  select1_complete : a ≡ x → in_range start1 (start1 ++ upper_bound) (key3 c x y z) ≡ true
  select1_complete e =
      let whole : start1 ++ tail2 y z ≡ key3 c x y z = rw e (simp append_assoc) in
      rw (sym whole) (begins_in_range start1 (tail2 y z) tail2-IsClean)

  -- One value: the range holds the keys that have it in the first place.
  pub select1 : in_range start1 (start1 ++ upper_bound) (key3 c x y z) ≡ bytes_eq a x
  select1 =
      Bool-ext _ _ (λ h. (bytes_eq_iff a x).1 (select1_sound h))
        (λ h. select1_complete (bytes_eq-true a x h))

  select2_sound : in_range start2 (start2 ++ upper_bound) (key3 c x y z) ≡ true → (a ≡ x) × (b ≡ y)
  select2_sound h =
      let (r, e) = in_range_prefix start2 upper_bound (key3 c x y z) h in
      let (e1, e2) =
        split_component a x (escape_loop b ++ (key_separator ++ r)) (tail2 y z)
          (append-cancel c _ _ (simp append_assoc at e)) in
      (sym e1, sym (escape_split y b (escape_loop z) r e2).0)

  select2_complete : a ≡ x → b ≡ y → in_range start2 (start2 ++ upper_bound) (key3 c x y z) ≡ true
  select2_complete e f =
      let whole : start2 ++ escape_loop z ≡ key3 c x y z = rw (e, f) (simp append_assoc) in
      rw (sym whole) (begins_in_range start2 (escape_loop z) (escape_loop-IsClean z cz))

  -- Two values: the keys that have them in the first two places.
  pub select2 :
      in_range start2 (start2 ++ upper_bound) (key3 c x y z) ≡ (bytes_eq a x && bytes_eq b y)
  select2 =
      Bool-ext _ _
        (λ h. let (e, f) = select2_sound h in ground (arith, bytes_eq_iff a x, bytes_eq_iff b y))
        (λ h.
          select2_complete (ground (arith, bytes_eq_iff a x)) (ground (arith, bytes_eq_iff b y)))

-- An escaped value begins another exactly if the value begins the other.
pub starts_with-escape :
    (d z : Bytes) → starts_with (escape_loop d) (escape_loop z) ≡ starts_with d z
unfolding starts_with escape_loop
starts_with-escape [] z = refl
starts_with-escape (x ∷ d) [] = ground arith
starts_with-escape (x ∷ d) (y ∷ z) = ground (arith, starts_with-escape d z)

module _ (c a b d x y z : Bytes) (cz : IsClean z) where
  select3_sound :
      in_range (key3 c a b d) (key3 c a b d ++ (255 ∷ [])) (key3 c x y z) ≡ true
      → (a ≡ x) × (b ≡ y) × (starts_with d z ≡ true)
  select3_sound h =
      let (r, e) = in_range_prefix (key3 c a b d) (255 ∷ []) (key3 c x y z) h in
      let (e1, e2) =
        split_component a x (escape_loop b ++ (key_separator ++ (escape_loop d ++ r))) (tail2 y z)
          (append-cancel c _ _ (simp append_assoc at e)) in
      let (f1, f2) = escape_split y b (escape_loop z) (escape_loop d ++ r) e2 in
      (
        sym e1,
        sym f1,
        rw (sym (starts_with-escape d z)) (rw f2 (starts_with-append (escape_loop d) r)),
      )

  select3_complete :
      a ≡ x
      → b ≡ y
      → starts_with d z ≡ true
      → in_range (key3 c a b d) (key3 c a b d ++ (255 ∷ [])) (key3 c x y z) ≡ true
  select3_complete e f h =
      let (r, q) = starts_with_rest (escape_loop d) (escape_loop z) (starts_with-escape d z ∙ h) in
      let whole : key3 c a b d ++ r ≡ key3 c x y z = rw (e, f, q) (simp append_assoc) in
      let clean : IsClean r =
        All-append_right (λ b. b < 255) (escape_loop d) r
          (subst IsClean q (escape_loop-IsClean z cz)) in
      rw (sym whole) (in_range-append (key3 c a b d) (255 ∷ []) r ∙ lt-ff r clean)

  -- Three values: the keys that have the first two, and a third that begins with the last.
  pub select3 :
      in_range (key3 c a b d) (key3 c a b d ++ (255 ∷ [])) (key3 c x y z)
      ≡ (bytes_eq a x && (bytes_eq b y && starts_with d z))
  select3 =
      Bool-ext _ _
        (λ h. let (e, f, g) = select3_sound h in ground (arith, bytes_eq_iff a x, bytes_eq_iff b y))
        (λ h.
          select3_complete (ground (arith, bytes_eq_iff a x)) (ground (arith, bytes_eq_iff b y))
            (ground arith))
