-- ===== src/Bin/MapLaws.antt =====
-- Hash maps on the wire: whatever the iteration order, the map that is read back has the entries.
use phira_mp.Common.{
  subst, ◌^◌, ◌<◌, ◌≡◌, ◌≢◌, refl, sym, ap, ◌∙◌, List, [], ◌∷◌, ◌++◌, length, All, append_assoc,
  append-nil,
}
use phira_mp.Common.Eq.{Eq, beq_false}
use phira_mp.Common.Maps.{insert, insert_all, Fresh, IsMap}
use phira_mp.Bin.Reader.{◌>>◌, done}
use phira_mp.Bin.Faithful.{Faithful, Faithful-pure, Faithful-bind}
use phira_mp.Bin.Uleb.{uleb-Faithful}
use phira_mp.Bin.Data.{BinaryData, pair, read_entries, write_entries, hash_map}
use phira_mp.Bin.Laws.{Sound, pair-Sound}

module _ {ℓ κ} {K : Type ℓ} {V : Type κ} ⦃e : Eq K⦄ where
  insert-Fresh : (k : K) (v : V) (m : List (K × V)) → Fresh k m → insert k v m ≡ m ++ ((k, v) ∷ [])
  unfolding insert
  insert-Fresh k v [] h = refl
  insert-Fresh k v ((j, w) ∷ m) h = rw (beq_false h.0) (ap (◌∷◌ (j, w)) (insert-Fresh k v m h.1))

  Fresh-append :
      (k j : K) (v : V) (m : List (K × V)) → Fresh k m → j ≢ k → Fresh k (m ++ ((j, v) ∷ []))
  Fresh-append k j v [] h n = (n, tt)
  Fresh-append k j v ((i, w) ∷ m) h n = (h.0, Fresh-append k j v m h.1 n)

  -- The keys of the second list are none of the first.
  abbrev Apart : List (K × V) → List (K × V) → Type ℓ
  Apart m [] = Unit {ℓ}
  Apart m ((k, v) ∷ more) = Fresh k m × Apart m more

  Apart-append :
      (k : K) (v : V) (m more : List (K × V))
      → Apart m more
      → Fresh k more
      → Apart (m ++ ((k, v) ∷ [])) more
  Apart-append k v m [] h f = tt
  Apart-append k v m ((j, w) ∷ more) h f =
      (Fresh-append j k v m h.0 (λ q. f.0 (sym q)), Apart-append k v m more h.1 f.1)

  insert_all-IsMap :
      (m more : List (K × V)) → Apart m more → IsMap more → insert_all m more ≡ m ++ more
  unfolding insert_all
  insert_all-IsMap m [] h f = sym (append-nil m)
  insert_all-IsMap m ((k, v) ∷ more) h f = rw (insert-Fresh k v m h.0) (
      insert_all-IsMap (m ++ ((k, v) ∷ [])) more (Apart-append k v m more h.1 f.0) f.1
      ∙ append_assoc m ((k, v) ∷ []) more)

  Apart-nil : (m : List (K × V)) → Apart [] m
  Apart-nil [] = tt
  Apart-nil ((k, v) ∷ m) = (tt, Apart-nil m)

  pub insert_all-nil : (m : List (K × V)) → IsMap m → insert_all [] m ≡ m
  insert_all-nil m h = insert_all-IsMap [] m (Apart-nil m) h

module _ {ℓ κ} {K : Type ℓ} {V : Type κ} ⦃e : Eq K⦄ (k : BinaryData K) (v : BinaryData V) where
  entries-Faithful :
      (m acc : List (K × V))
      → All (λ p. Sound k p.0 × Sound v p.1) m
      → Faithful (read_entries k v (length m) acc) (write_entries k v m) (insert_all acc m)
  unfolding read_entries write_entries insert_all pair ◌>>◌ done
  entries-Faithful [] acc h = Faithful-pure acc
  entries-Faithful ((x, y) ∷ m) acc h =
      Faithful-bind (λ p. read_entries k v (length m) (insert p.0 p.1 acc))
        (pair-Sound (h.0).0 (h.0).1).faithful (entries-Faithful m (insert x y acc) h.1)

  pub hash_map-Sound :
      (m : List (K × V))
      → length m < 2 ^ 64
      → IsMap m
      → All (λ p. Sound k p.0 × Sound v p.1) m
      → Sound (hash_map k v) m
  unfolding hash_map
  hash_map-Sound m fits distinct h = record {
    faithful = Faithful-bind _ (uleb-Faithful (length m) fits) (
        subst (λ a. Faithful (read_entries k v (length m) []) (write_entries k v m) a)
          (insert_all-nil m distinct) (entries-Faithful m [] h));
  }
