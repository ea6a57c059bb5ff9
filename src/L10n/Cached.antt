-- ===== src/L10n/Cached.antt =====
-- The cache changes no translation.
use phira_mp.Common.{
  ℕ, ◌≡◌, refl, sym, ap, ◌∙◌, inl, inr, some, List, [], ◌∷◌, map, ltb, ◌==◌, ==_iff, Bool-cases,
  Option-cases,
}
use phira_mp.Common.Eq.{nat_eq}
use phira_mp.Common.Maps.{lookup}
use phira_mp.Bin.Reader.{Bytes}
use phira_mp.L10n.{
  Lru, IsLru, L10nBundles, Request, L10nLocal, new, update, message_of, format_pattern, format,
  format_all, translate,
}

module _ {Pattern Args Cache : Type 0} (bundles : L10nBundles Pattern Args)
    (lru : Lru (ℕ × Pattern) Cache) (laws : IsLru lru) where
  -- Each cache has what its bundle says.
  record Sound (local : L10nLocal bundles lru) : Type 0 where
    holds :
        (i : ℕ) (k : Bytes) (v : ℕ × Pattern)
        → lru.peek k (local i) ≡ some v
        → message_of bundles i k ≡ some v

  new-Sound : Sound (new bundles lru)
  unfolding new
  new-Sound = record { holds = λ i k v h. let e = laws.empty 64 k in cc }

  found :
      (i : ℕ) (k : Bytes) (local : L10nLocal bundles lru)
      → Sound local
      → (lru.get_or_insert k (message_of bundles i k) (local i)).0 ≡ message_of bundles i k
  found i k local sound = elim (Option-cases (lru.peek k (local i))) [
    | inl e ↦ laws.absent k _ (local i) e
    | inr (v, e) ↦ laws.present k _ (local i) v e ∙ sym (sound.holds i k v e)
  ]

  update-Sound :
      (i : ℕ) (k : Bytes) (local : L10nLocal bundles lru)
      → Sound local
      → Sound
          (update bundles lru i (lru.get_or_insert k (message_of bundles i k) (local i)).1 local)
  update-Sound i k local sound = record {
    holds = λ j l v h. elim (Bool-cases (j == i)) [
      | inr other ↦ sound.holds j l v (rw other at h)
      | inl same ↦ elim (laws.kept k l (message_of bundles i k) (local i) v (rw same at h)) [
        | inl was ↦ rw ((==_iff j i).0 same) (sound.holds i l v was)
        | inr (e, r) ↦ rw ((==_iff j i).0 same, e) r
      ]
    ];
  }

  format-Sound :
      (q : Request Args) (local : L10nLocal bundles lru)
      → Sound local
      → ((format bundles lru q local).0 ≡ translate bundles q)
        × Sound (format bundles lru q local).1
  unfolding format translate
  format-Sound q local sound = elim (Option-cases (lookup q.lang bundles.map)) [
    | inl e ↦ rw (e, format, translate) (refl, sound)
    | inr (id, e) ↦ elim (Bool-cases (ltb id 3)) [
      | inl small ↦
          rw (e, small, format, translate)
            (
              ap (format_pattern bundles q.args) (found id q.key local sound),
              update-Sound id q.key local sound,
            )
      | inr large ↦ rw (e, large, format, translate) (refl, sound)
    ]
  ]

  translations_agree :
      (qs : List (Request Args)) (local : L10nLocal bundles lru)
      → Sound local
      → format_all bundles lru qs local ≡ map (translate bundles) qs
  unfolding format_all
  translations_agree [] local sound = refl
  translations_agree (q ∷ qs) local sound =
      let (same, after) = format-Sound q local sound in
      rw (same, translations_agree qs (format bundles lru q local).1 after)

  -- With a cache as lru documents it, the translations that a thread makes from its start on, one
  -- after the other, are those that the bundles give without a cache, panics included.
  pub format_all-translate :
      (qs : List (Request Args))
      → format_all bundles lru qs (new bundles lru) ≡ map (translate bundles) qs
  format_all-translate qs = translations_agree qs (new bundles lru) new-Sound
