-- ===== src/Db/Entries.antt =====
-- The entries of an index that lie in the range of a query.
use levelgraph.Prelude.{
  ◌≡◌, refl, sym, ap, ◌∙◌, Bool, true, Option, none, some, ◌++◌, subst, append_assoc,
}
use levelgraph.Prelude.Bytes.{Bytes, starts_with, starts_with-append}
use mathlib.Core.Bool.{false≢true}
use levelgraph.Graph.Triple.{Spo, triple}
use levelgraph.Graph.Pattern.{Pattern, data_of, present}
use levelgraph.Graph.Codec.{marshal}
use levelgraph.Index.Escape.{key_separator}
use levelgraph.Index.Name.{spo, index_code}
use levelgraph.Index.Key.{gen_key, gen_key_from_pattern}
use levelgraph.Index.Range.{in_range_prefix}
use levelgraph.Index.Query.{query_index, queried, selects, queried-gen_key}
use levelgraph.Index.Prefix.{from_pattern_prefix, IsIndex-query_index, from_pattern_limit}
use levelgraph.Store.{Contents}
use levelgraph.Db.Indexed.{IsStorable, IsIndexed, contains}

-- What a query reads of the set: see `selects`.
abbrev pub selected : Pattern → Spo → Bool
selected p x = selects (data_of p.subject) (data_of p.predicate) (data_of p.object) x

-- What is held can be stored.
pub held_IsStorable : (c : Contents) (x : Spo) → IsIndexed c → contains c x ≡ true → IsStorable x
held_IsStorable c x d h = go (c (gen_key spo (triple x))) refl
  where
    go : (o : Option Bytes) → c (gen_key spo (triple x)) ≡ o → IsStorable x
    go none e = absurd (false≢true (sym (ap present e) ∙ h))
    go (some v) e = (d.value x v e).1

-- A triple that a value of the index stands for.
pub record IsEntry (c : Contents) (p : Pattern) (v : Bytes) (x : Spo) : Type 0 where
  pub same : v ≡ marshal (triple x)
  pub storable : IsStorable x
  pub held : contains c x ≡ true
  pub chosen : selected p x ≡ true

module _ (c : Contents) (p : Pattern) (d : IsIndexed c) where
  starts_with_index :
      (k : Bytes)
      → queried p k ≡ true
      → starts_with (index_code (query_index p) ++ key_separator) k ≡ true
  starts_with_index k h =
      let i = query_index p in
      let (u, e) = from_pattern_limit i p in
      let (r, q) = in_range_prefix (gen_key_from_pattern i p) u k (rw e at h) in
      let (s, f) = from_pattern_prefix i p (IsIndex-query_index p) in
      let whole : (index_code i ++ key_separator) ++ (s ++ r) ≡ k =
        sym (append_assoc (index_code i ++ key_separator) s r) ∙ ap (λ l. l ++ r) (sym f) ∙ sym q in
      subst (λ l. starts_with (index_code i ++ key_separator) l ≡ true) whole
        (starts_with-append _ _)

  pub IsEntry-of : (k v : Bytes) → c k ≡ some v → queried p k ≡ true → (x : Spo) × IsEntry c p v x
  IsEntry-of k v e h =
      let i = query_index p in
      let (x, q) = d.shape i k v (IsIndex-query_index p) e (starts_with_index k h) in
      let stored : c (gen_key spo (triple x)) ≡ some v =
        sym (d.agree i x (IsIndex-query_index p)) ∙ ap c (sym q) ∙ e in
      let (m, s) = d.value x v stored in
      (
        x,
        record {
          same = m;
          storable = s;
          held = ap present stored;
          chosen = sym (queried-gen_key p x s.clean) ∙ ap (queried p) (sym q) ∙ h;
        },
      )

  pub entry_at :
      (x : Spo)
      → contains c x ≡ true
      → selected p x ≡ true
      → (k : Bytes) × (c k ≡ some (marshal (triple x))) × (queried p k ≡ true)
  entry_at x h s =
      let i = query_index p in
      let (v, stored) = stored_at (c (gen_key spo (triple x))) refl h in
      let (m, good) = d.value x v stored in
      (
        gen_key i (triple x),
        d.agree i x (IsIndex-query_index p) ∙ stored ∙ ap some m,
        queried-gen_key p x good.clean ∙ s,
      )
    where
      stored_at :
          (o : Option Bytes)
          → c (gen_key spo (triple x)) ≡ o
          → present (c (gen_key spo (triple x))) ≡ true
          → (v : Bytes) × (c (gen_key spo (triple x)) ≡ some v)
      stored_at none e q = absurd (false≢true (sym (ap present e) ∙ q))
      stored_at (some v) e q = (v, e)
