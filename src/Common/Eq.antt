-- ===== src/Common/Eq.antt =====
-- Boolean equality as an interface (Rust's `Eq`), and its instances for the keys of the program.
use Prim.Native.Nat.{ℕ}
use mathlib.Core.Path.{◌≡◌, refl}
use mathlib.Core.Logic.{◌↔◌, inl, inr, ◌≢◌}
use mathlib.Core.Bool.{Bool, true, false, ◌&&◌}
use mathlib.Core.List.{List, [], ◌∷◌}
use native.Mathlib.Omega.{arith}
use phira_mp.Common.Tests.{◌==◌ as nat_beq, ==_iff, Bool-cases}
use phira_mp.Common.Int.{ℤ, pos, negsuc}

pub record Eq {ℓ} (K : Type ℓ) : Type ℓ where
  pub beq : K → K → Bool
  pub beq_iff : (j k : K) → (beq j k ≡ true) ↔ (j ≡ k)

infix 50 ◌==◌
abbrev pub ◌==◌ {ℓ} : {K : Type ℓ} ⦃eq : Eq K⦄ → K → K → Bool
◌==◌ ⦃eq⦄ = eq.beq

module _ {ℓ} {K : Type ℓ} ⦃eq : Eq K⦄ where
  pub beq_self : (k : K) → (k == k) ≡ true
  beq_self k = (eq.beq_iff k k).1 refl

  pub beq→eq : {j k : K} → (j == k) ≡ true → j ≡ k
  beq→eq {j} {k} h = (eq.beq_iff j k).0 h

  pub beq_false : {j k : K} → j ≢ k → (j == k) ≡ false
  beq_false {j} {k} h = elim (Bool-cases (j == k)) [ inl t ↦ absurd (h (beq→eq t)) | inr f ↦ f ]

  pub beq_false→ne : {j k : K} → (j == k) ≡ false → j ≢ k
  beq_false→ne {j} {k} f h = cc (f, (eq.beq_iff j k).1 h)

instance abbrev pub nat_eq : Eq ℕ
nat_eq = record { beq = nat_beq; beq_iff = ==_iff }

abbrev pub int_beq : ℤ → ℤ → Bool
int_beq (pos a) (pos b) = nat_beq a b
int_beq (negsuc a) (negsuc b) = nat_beq a b
int_beq (pos a) (negsuc b) = false
int_beq (negsuc a) (pos b) = false

pub int_beq_iff : (a b : ℤ) → (int_beq a b ≡ true) ↔ (a ≡ b)
int_beq_iff (pos a) (pos b) = ground arith
int_beq_iff (negsuc a) (negsuc b) = ground arith
int_beq_iff (pos a) (negsuc b) = ground arith
int_beq_iff (negsuc a) (pos b) = ground arith

instance abbrev pub int_eq : Eq ℤ
int_eq = record { beq = int_beq; beq_iff = int_beq_iff }

abbrev pub bytes_beq : List ℕ → List ℕ → Bool
bytes_beq [] [] = true
bytes_beq (a ∷ xs) (b ∷ ys) = nat_beq a b && bytes_beq xs ys
bytes_beq [] (b ∷ ys) = false
bytes_beq (a ∷ xs) [] = false

pub bytes_beq_iff : (a b : List ℕ) → (bytes_beq a b ≡ true) ↔ (a ≡ b)
bytes_beq_iff [] [] = (λ _. refl, λ _. refl)
bytes_beq_iff (a ∷ xs) (b ∷ ys) =
    let ih = bytes_beq_iff xs ys in (ground (arith, ih.0), ground (arith, ih.1))
bytes_beq_iff [] (b ∷ ys) = (λ h. cc, λ h. cc)
bytes_beq_iff (a ∷ xs) [] = (λ h. cc, λ h. cc)

instance abbrev pub bytes_eq : Eq (List ℕ)
bytes_eq = record { beq = bytes_beq; beq_iff = bytes_beq_iff }
