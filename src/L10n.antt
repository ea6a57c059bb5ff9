-- ===== src/L10n.antt =====
-- phira-mp-server/src/l10n.rs: the bundles of translations, and the cache of a thread.
pub mod Cached
use phira_mp.Common.{
  ℕ, zero, suc, ◌+◌, ◌≡◌, ◌⊎◌, Bool, true, false, Option, none, some, List, [], ◌∷◌, ◌++◌, length,
  get_elem?, ltb, ◌==◌, if◌then◌else◌,
}
use phira_mp.Common.Eq.{nat_eq}
use phira_mp.Common.Maps.{lookup, insert}
use phira_mp.Bin.Reader.{Bytes}

-- A bundle of fluent: the message of a key, with its value, and how a pattern is formatted.
pub record Bundle (Pattern Args : Type 0) : Type 0 where
  pub get_message : Bytes → Option (Option Pattern)
  pub format_pattern : Pattern → Args → Bytes

-- The cache of the crate lru. `peek` looks a key up and changes nothing; the last argument of
-- `get_or_insert` is what its closure gives for a key that is absent, `none` where that panics.
pub record Lru (V Cache : Type 0) : Type 0 where
  pub new : ℕ → Cache
  pub peek : Bytes → Cache → Option V
  pub get_or_insert : Bytes → Option V → Cache → Option V × Cache

-- What lru documents: a new cache is empty; a key that is present gives its value, and one that is
-- absent what the closure gives; afterwards nothing is present but what was and what was inserted.
pub record IsLru {V Cache : Type 0} (lru : Lru V Cache) : Type 0 where
  pub empty : (n : ℕ) (k : Bytes) → lru.peek k (lru.new n) ≡ none
  pub present :
      (k : Bytes) (r : Option V) (c : Cache) (v : V)
      → lru.peek k c ≡ some v
      → (lru.get_or_insert k r c).0 ≡ some v
  pub absent :
      (k : Bytes) (r : Option V) (c : Cache) → lru.peek k c ≡ none → (lru.get_or_insert k r c).0 ≡ r
  pub kept :
      (k j : Bytes) (r : Option V) (c : Cache) (v : V)
      → lru.peek j (lru.get_or_insert k r c).1 ≡ some v
      → (lru.peek j c ≡ some v) ⊎ ((j ≡ k) × (r ≡ some v))

-- A language is a number.
pub record L10nBundles (Pattern Args : Type 0) : Type 0 where
  pub inner : List (Bundle Pattern Args)
  pub map : List (ℕ × ℕ)

-- `bundle!` in `BUNDLES`: the index of a bundle is the size of the map before.
unfoldable pub add_bundle : {P A : Type 0} → ℕ → Bundle P A → L10nBundles P A → L10nBundles P A
add_bundle lang b bundles = record {
  inner = bundles.inner ++ (b ∷ []);
  map = insert lang (length bundles.map) bundles.map;
}

-- A call of `format`, for the language of the task.
pub record Request (Args : Type 0) : Type 0 where
  pub lang : ℕ
  pub key : Bytes
  pub args : Args

module _ {Pattern Args : Type 0} (bundles : L10nBundles Pattern Args) where
  -- The closure that `get_or_insert` calls, with its panics and that of the index.
  unfoldable pub message_of : ℕ → Bytes → Option (ℕ × Pattern)
  message_of id key = elim (get_elem? bundles.inner id) [
    | none ↦ none
    | some b ↦ elim (b.get_message key) [
      | none ↦ none
      | some value ↦ elim value [ none ↦ none | some pattern ↦ some (id, pattern) ]
    ]
  ]

  unfoldable pub format_pattern : Args → Option (ℕ × Pattern) → Option Bytes
  format_pattern args none = none
  format_pattern args (some (id, pattern)) = elim (get_elem? bundles.inner id) [
    | none ↦ none
    | some b ↦ some (b.format_pattern pattern args)
  ]

  -- What a translation is without a cache.
  unfoldable pub translate : Request Args → Option Bytes
  unfolding message_of format_pattern
  translate q = elim (lookup q.lang bundles.map) [
    | none ↦ none
    | some id ↦ if ltb id 3 then format_pattern q.args (message_of id q.key) else none
  ]

module _ {Pattern Args Cache : Type 0} (bundles : L10nBundles Pattern Args)
    (lru : Lru (ℕ × Pattern) Cache) where
  -- The three caches of `L10nLocal`.
  abbrev pub L10nLocal : Type 0
  L10nLocal = ℕ → Cache

  -- `L10nLocal::new`
  unfoldable pub new : L10nLocal
  new i = lru.new 64

  abbrev pub update : ℕ → Cache → L10nLocal → L10nLocal
  update i c local j = if j == i then c else local j

  -- `L10nLocal::format`: `none` where it panics. There are three caches.
  unfoldable pub format : Request Args → L10nLocal → Option Bytes × L10nLocal
  unfolding message_of format_pattern
  format q local = elim (lookup q.lang bundles.map) [
    | none ↦ (none, local)
    | some id ↦
        if ltb id 3
        then (let (found, c) = lru.get_or_insert q.key (message_of bundles id q.key) (local id) in
            (format_pattern bundles q.args found, update id c local))
        else (none, local)
  ]

  -- The translations of a thread, one after the other. After a panic the thread goes on.
  unfoldable pub format_all : List (Request Args) → L10nLocal → List (Option Bytes)
  unfolding format
  format_all [] local = []
  format_all (q ∷ qs) local = let (res, local') = format q local in res ∷ format_all qs local'
