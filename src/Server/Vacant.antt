-- ===== src/Server/Vacant.antt =====
-- phira-mp-server/src/main.rs: `vacant_entry`, which draws the id of a new session. What
-- `Uuid::new_v4` draws is a function of how many ids were drawn before, and an id has 128 bits.
use phira_mp.Common.{
  ℕ, zero, suc, ◌+◌, ◌%◌, ◌^◌, ◌<◌, ◌≤◌, ◌≡◌, refl, sym, ap, ◌∙◌, Bool, true, false, ◌&&◌, Option,
  none, some, List, arith, if◌then◌else◌, Bool-cases, inl, inr,
}
use phira_mp.Server.{mem}

module _ (new_v4 : ℕ → ℕ) where
  -- The id that is drawn when `i` have been drawn before.
  unfoldable pub drawn : ℕ → ℕ
  drawn i = new_v4 i % 2 ^ 128

  -- The `while` loop, for so many rounds; `i` ids have been drawn before.
  unfoldable pub vacant_entry : ℕ → ℕ → List ℕ → Option ℕ
  unfolding drawn
  vacant_entry zero i ids = none
  vacant_entry (suc fuel) i ids =
      let rest = vacant_entry fuel (i + 1) ids in if mem (drawn i) ids then rest else some (drawn i)

  -- So many draws, from the `i`-th on, all gave ids that are in use.
  unfoldable pub all_used : ℕ → ℕ → List ℕ → Bool
  all_used i zero ids = true
  all_used i (suc k) ids = mem (drawn i) ids && all_used (i + 1) k ids

  -- The first id among the next draws that is not in use, and that the loop ends with it.
  abbrev pub EndsFirst : ℕ → ℕ → ℕ → List ℕ → Type 0
  EndsFirst n fuel i ids =
      (k : ℕ) × (k ≤ n)
      × (vacant_entry fuel i ids ≡ some (drawn (i + k)))
      × (mem (drawn (i + k)) ids ≡ false)
      × (all_used i k ids ≡ true)

  at_once : (n fuel i : ℕ) (ids : List ℕ) → mem (drawn i) ids ≡ false → EndsFirst n (suc fuel) i ids
  unfolding vacant_entry all_used
  at_once n fuel i ids here =
      let e : i + 0 ≡ i = omega arith in
      (
        0,
        omega arith,
        rw here (ap (λ j. some (drawn j)) (sym e)),
        ap (λ j. mem (drawn j) ids) e ∙ here,
        refl,
      )

  round_later :
      (n fuel i : ℕ) (ids : List ℕ)
      → mem (drawn i) ids ≡ true
      → EndsFirst n fuel (i + 1) ids
      → EndsFirst (suc n) (suc fuel) i ids
  unfolding vacant_entry all_used
  round_later n fuel i ids used (k, le, run, vacant, before) =
      let later : (i + 1) + k ≡ i + suc k = omega arith in
      (
        suc k,
        omega (arith, le),
        rw used (run ∙ ap (λ j. some (drawn j)) later),
        ap (λ j. mem (drawn j) ids) (sym later) ∙ vacant,
        rw used before,
      )

  -- If one of the next draws is of an id that is not in use, then the loop ends, with as many rounds
  -- as it takes to come there or more: with the first such id, all those drawn before it being in
  -- use.
  pub vacant_entry-mem :
      (n fuel i : ℕ) (ids : List ℕ)
      → n < fuel
      → mem (drawn (i + n)) ids ≡ false
      → (k : ℕ) × (k ≤ n)
        × (vacant_entry fuel i ids ≡ some (drawn (i + k)))
        × (mem (drawn (i + k)) ids ≡ false)
        × (all_used i k ids ≡ true)
  vacant_entry-mem n zero i ids h free = absurd (omega (arith, h))
  vacant_entry-mem zero (suc fuel) i ids h free =
      let e : i + 0 ≡ i = omega arith in
      at_once zero fuel i ids (ap (λ j. mem (drawn j) ids) (sym e) ∙ free)
  vacant_entry-mem (suc n) (suc fuel) i ids h free = elim (Bool-cases (mem (drawn i) ids)) [
    | inr here ↦ at_once (suc n) fuel i ids here
    | inl used ↦
        let e : i + suc n ≡ (i + 1) + n = omega arith in
        round_later n fuel i ids used (
          vacant_entry-mem n fuel (i + 1) ids (omega (arith, h))
            (ap (λ j. mem (drawn j) ids) (sym e) ∙ free))
  ]
