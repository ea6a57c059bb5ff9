-- ===== src/Tests/L10n.antt =====
-- Two bundles, and a cache of recent entries.
use phira_mp.Common.{
  ℕ, zero, suc, ◌≡◌, refl, sym, ap, ◌∙◌, ◌⊎◌, inl, inr, Option, none, some, List, [], ◌∷◌, map,
  take, Bool-cases, Option-cases, if◌then◌else◌,
}
use phira_mp.Common.Eq.{◌==◌, bytes_eq, bytes_beq, beq→eq, beq_false→ne, nat_eq}
use phira_mp.Common.Maps.{lookup, remove, lookup-remove_ne}
use phira_mp.Bin.Reader.{Bytes}
use phira_mp.L10n.{Bundle, Lru, IsLru, L10nBundles, add_bundle, Request, new, translate, format_all}
use phira_mp.L10n.Cached.{format_all-translate}

abbrev Entries : Type 0
Entries = List (Bytes × (ℕ × Bytes))

-- The entry that was used last stands first, and the last one is dropped.
unfoldable get_or_insert :
    Bytes → Option (ℕ × Bytes) → ℕ × Entries → Option (ℕ × Bytes) × (ℕ × Entries)
get_or_insert k r (size, es) = elim (lookup k es) [
  | some v ↦ (some v, (size, (k, v) ∷ remove k es))
  | none ↦ elim r [ none ↦ (none, (size, es)) | some v ↦ (some v, (size, take size ((k, v) ∷ es))) ]
]

abbrev recent : Lru (ℕ × Bytes) (ℕ × Entries)
recent = record {
  new = λ n. (n, []);
  peek = λ k (size, es). lookup k es;
  get_or_insert = get_or_insert;
}

lookup-take :
    (n : ℕ) (j : Bytes) (es : Entries) (v : ℕ × Bytes)
    → lookup j (take n es) ≡ some v
    → lookup j es ≡ some v
unfolding lookup
lookup-take zero j es v h = cc
lookup-take (suc n) j [] v h = cc
lookup-take (suc n) j ((i, w) ∷ es) v h = elim (Bool-cases (i == j)) [
  | inl t ↦ rw (t, lookup) (rw (t, lookup) at h)
  | inr f ↦ rw (f, lookup) (lookup-take n j es v (rw (f, lookup) at h))
]

front :
    (k j : Bytes) (w v : ℕ × Bytes) (es : Entries)
    → lookup j ((k, w) ∷ es) ≡ some v
    → (lookup j es ≡ some v) ⊎ ((j ≡ k) × (some w ≡ some v))
unfolding lookup
front k j w v es h = elim (Bool-cases (k == j)) [
  | inl t ↦ inr (sym (beq→eq t), rw (t, lookup) at h)
  | inr f ↦ inl (rw (f, lookup) at h)
]

promoted :
    (k j : Bytes) (w v : ℕ × Bytes) (es : Entries)
    → lookup k es ≡ some w
    → lookup j ((k, w) ∷ remove k es) ≡ some v
    → lookup j es ≡ some v
unfolding lookup
promoted k j w v es here h = elim (Bool-cases (k == j)) [
  | inl t ↦ ap (λ i. lookup i es) (sym (beq→eq {j = k} {k = j} t)) ∙ here ∙ (rw (t, lookup) at h)
  | inr f ↦ sym (lookup-remove_ne k j es (beq_false→ne f)) ∙ (rw (f, lookup) at h)
]

absent_gives :
    (k : Bytes) (r : Option (ℕ × Bytes)) (c : ℕ × Entries)
    → lookup k c.1 ≡ none
    → (get_or_insert k r c).0 ≡ r
unfolding get_or_insert
absent_gives k none (size, es) h = rw (h, get_or_insert) refl
absent_gives k (some v) (size, es) h = rw (h, get_or_insert) refl

kept_or_new :
    (k j : Bytes) (r : Option (ℕ × Bytes)) (c : ℕ × Entries) (v : ℕ × Bytes)
    → lookup j (get_or_insert k r c).1.1 ≡ some v
    → (lookup j c.1 ≡ some v) ⊎ ((j ≡ k) × (r ≡ some v))
unfolding get_or_insert
kept_or_new k j r (size, es) v h = elim (Option-cases (lookup k es)) [
  | inr (w, e) ↦ inl (promoted k j w v es e (rw (e, get_or_insert) at h))
  | inl e ↦ elim (Option-cases r) [
    | inl q ↦ inl (rw (e, q, get_or_insert) at h)
    | inr (w, q) ↦ rw q (front k j w v es (lookup-take size j _ v (rw (e, q, get_or_insert) at h)))
  ]
]

recent-IsLru : IsLru recent
unfolding get_or_insert lookup
recent-IsLru = record {
  empty = λ n k. refl;
  present = λ k r (size, es) v h. rw (h, get_or_insert) refl;
  absent = absent_gives;
  kept = kept_or_new;
}

abbrev bundle : ℕ → Bundle Bytes Bytes
bundle greeting = record {
  get_message = λ key. if bytes_beq key (104 ∷ []) then some (some (greeting ∷ [])) else none;
  format_pattern = λ pattern args. pattern;
}

abbrev bundles : L10nBundles Bytes Bytes
bundles = add_bundle 8 (bundle 97) (add_bundle 7 (bundle 98) (record { inner = []; map = [] }))

abbrev ask : ℕ → ℕ → Request Bytes
ask lang key = record { lang = lang; key = key ∷ []; args = [] }

-- A key twice, in the other language, in a language without a bundle, and a key without a message.
abbrev requests : List (Request Bytes)
requests = ask 7 104 ∷ ask 7 104 ∷ ask 8 104 ∷ ask 9 104 ∷ ask 7 1 ∷ []

format_all-translate_example :
    format_all bundles recent requests (new bundles recent) ≡ map (translate bundles) requests
format_all-translate_example = format_all-translate bundles recent recent-IsLru requests
