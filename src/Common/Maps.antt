-- ===== src/Common/Maps.antt =====
-- Hash maps and hash sets. A map is the list of its entries in iteration order, which the program
-- never relies on; an entry that is overwritten keeps its place and its key.
use phira_mp.Common.Tests.{if◌then◌else◌, Bool-cases}
use phira_mp.Common.Eq.{Eq, ◌==◌, beq_self, beq→eq, beq_false}
use mathlib.Core.Path.{◌≡◌, refl, ◌∙◌, sym}
use mathlib.Core.Logic.{◌≢◌, inl, inr}
use mathlib.Core.Bool.{true, false}
use mathlib.Core.Option.{Option, none, some}
use mathlib.Core.List.{List, [], ◌∷◌}
use native.Mathlib.Omega.{arith}

other {ℓ} : {K : Type ℓ} ⦃e : Eq K⦄ {k j i : K} → k ≢ j → (i == k) ≡ true → (i == j) ≡ false
other h t = beq_false (λ q. h (sym (beq→eq t) ∙ q))

module _ {ℓ κ} {K : Type ℓ} {V : Type κ} ⦃e : Eq K⦄ where
  unfoldable pub lookup : K → List (K × V) → Option V
  lookup k [] = none
  lookup k ((j, v) ∷ m) = if j == k then some v else lookup k m

  unfoldable pub insert : K → V → List (K × V) → List (K × V)
  insert k v [] = (k, v) ∷ []
  insert k v ((j, w) ∷ m) = if j == k then (j, v) ∷ m else (j, w) ∷ insert k v m

  unfoldable pub remove : K → List (K × V) → List (K × V)
  remove k [] = []
  remove k ((j, w) ∷ m) = if j == k then remove k m else (j, w) ∷ remove k m

  -- `collect` into a map: the entries are inserted one after the other.
  unfoldable pub insert_all : List (K × V) → List (K × V) → List (K × V)
  insert_all m [] = m
  insert_all m ((k, v) ∷ more) = insert_all (insert k v m) more

  pub lookup-insert_self : (k : K) (v : V) (m : List (K × V)) → lookup k (insert k v m) ≡ some v
  unfolding lookup insert
  lookup-insert_self k v [] = ground (arith, beq_self k)
  lookup-insert_self k v ((j, w) ∷ m) = ground (arith, lookup-insert_self k v m)

  pub lookup-insert_ne :
      (k j : K) (v : V) (m : List (K × V)) → k ≢ j → lookup j (insert k v m) ≡ lookup j m
  unfolding lookup insert
  lookup-insert_ne k j v [] h = ground (arith, beq_false h)
  lookup-insert_ne k j v ((i, w) ∷ m) h = elim (Bool-cases (i == k)) [
    | inl t ↦ rw (t, lookup) (rw (other h t))
    | inr f ↦ rw f (ground (arith, lookup-insert_ne k j v m h))
  ]

  pub lookup-remove_self : (k : K) (m : List (K × V)) → lookup k (remove k m) ≡ none
  unfolding lookup remove
  lookup-remove_self k [] = refl
  lookup-remove_self k ((j, w) ∷ m) = ground (arith, lookup-remove_self k m)

  pub lookup-remove_ne : (k j : K) (m : List (K × V)) → k ≢ j → lookup j (remove k m) ≡ lookup j m
  unfolding lookup remove
  lookup-remove_ne k j [] h = refl
  lookup-remove_ne k j ((i, w) ∷ m) h = elim (Bool-cases (i == k)) [
    | inl t ↦ rw t (rw (lookup-remove_ne k j m h) (ground (arith, other {j = j} h t)))
    | inr f ↦ rw f (ground (arith, lookup-remove_ne k j m h))
  ]

  -- The keys of a map, none of which is listed twice.
  abbrev pub Fresh : K → List (K × V) → Type ℓ
  Fresh k [] = Unit {ℓ}
  Fresh k ((j, w) ∷ m) = (j ≢ k) × Fresh k m

  abbrev pub IsMap : List (K × V) → Type ℓ
  IsMap [] = Unit {ℓ}
  IsMap ((k, v) ∷ m) = Fresh k m × IsMap m
