-- ===== src/Room/Rotation.antt =====
-- Whose turn it is to be the host, in a room that cycles.
use phira_mp.Common.{
  ℕ, suc, ◌+◌, ◌%◌, ◌<◌, ◌≡◌, refl, ap, ◌∙◌, true, false, some, List, [], ◌∷◌, ◌++◌, length,
  length-append, get_elem?, arith, Bool-cases, inl, inr, ◌==◌ as nat_beq,
}
use native.Mathlib.Nat.{mod_self, mod-eq_of_lt}
use phira_mp.Common.Int.{ℤ}
use phira_mp.World.{Record, select_chart, playing, Room, World, returns, ◌>>=◌}
use phira_mp.Room.{users, all_finished, position, next_index, on_state_change}
use phira_mp.Room.Turn.{end_game, check_state, check_all_ready}
use phira_mp.Room.Frame.{
  Becomes, Becomes-trans, Becomes-eq, Becomes-Quiet, Becomes-users, on_state_change-Quiet,
}
use phira_mp.Room.Host.{mem}
use phira_mp.Room.Succession.{next_host, rotate_host-Becomes, game_over, game_over-Becomes}

position-append :
    (h : ℕ) (xs ys : List ℕ) → mem h xs ≡ false → position h (xs ++ (h ∷ ys)) ≡ some (length xs)
unfolding position mem
position-append h [] ys e = ground arith
position-append h (x ∷ xs) ys e = elim (Bool-cases (nat_beq x h)) [
  | inl here ↦ absurd (ground (arith, here, e))
  | inr apart ↦
      rw (apart, position)
        (rw (position-append h xs ys (rw (apart, mem) at e)) (ap some (omega arith)))
]

get_elem?-append {ℓ} :
    {A : Type ℓ} (xs : List A) (a b : A) (ys : List A)
    → get_elem? (xs ++ (a ∷ b ∷ ys)) (suc (length xs)) ≡ some b
get_elem?-append [] a b ys = refl
get_elem?-append (x ∷ xs) a b ys = get_elem?-append xs a b ys

-- The one after `h`, around the end of the list.
next_after :
    (h : ℕ) (xs ys : List ℕ) (new : ℕ) (rest : List ℕ)
    → mem h xs ≡ false
    → ys ++ (xs ++ (h ∷ [])) ≡ new ∷ rest
    → get_elem? (xs ++ (h ∷ ys)) (next_index h (xs ++ (h ∷ ys))) ≡ some new
unfolding next_index
next_after h xs [] new rest e turn =
    let wraps : (length xs + 1) % length (xs ++ (h ∷ [])) ≡ 0 =
      ap (λ n. (length xs + 1) % n) (length-append xs (h ∷ [])) ∙ mod_self (length xs + 1) in
    rw (position-append h xs [] e, next_index) (rw wraps (ap (λ us. get_elem? us 0) turn))
next_after h xs (y ∷ ys) new rest e turn =
    let long : length xs + 1 < length (xs ++ (h ∷ y ∷ ys)) =
      omega (arith, length-append xs (h ∷ y ∷ ys)) in
    let inside : (length xs + 1) % length (xs ++ (h ∷ y ∷ ys)) ≡ suc (length xs) =
      mod-eq_of_lt long ∙ omega arith in
    rw (position-append h xs (y ∷ ys) e, next_index)
      (rw inside (get_elem?-append xs h y ys ∙ cc turn))

module _ (rm : ℕ) (w : World) where
  over-next_host :
      (xs ys rest : List ℕ) (new : ℕ)
      → users w rm ≡ xs ++ ((w.room_at rm).host ∷ ys)
      → mem (w.room_at rm).host xs ≡ false
      → ys ++ (xs ++ ((w.room_at rm).host ∷ [])) ≡ new ∷ rest
      → next_host (game_over rm w) rm ≡ some new
  unfolding next_host
  over-next_host xs ys rest new listed first turn =
      let over = game_over-Becomes rm w in
      let same : users (game_over rm w) rm ≡ xs ++ ((w.room_at rm).host ∷ ys) =
        Becomes-users over refl ∙ listed in
      rw (same, over.room_is) (next_after (w.room_at rm).host xs ys new rest first turn)

  end_game-rotates :
      (new : ℕ)
      → (w.room_at rm).cycle ≡ true
      → next_host (game_over rm w) rm ≡ some new
      → (w' : World) × (end_game rm w ≡ returns tt w')
        × Becomes w w' rm (record (w.room_at rm) { state = select_chart; host = new })
  unfolding end_game game_over
  end_game-rotates new cycles next =
      let over = game_over-Becomes rm w in
      let rotate : ((game_over rm w).room_at rm).cycle ≡ true =
        ap (λ (r : Room). r.cycle) over.room_is ∙ cycles in
      let (w2, run, b) = rotate_host-Becomes rm new (game_over rm w) next in
      (
        on_state_change rm w2,
        rw rotate (rw (run, ◌>>=◌)),
        Becomes-Quiet
            (Becomes-eq (Becomes-trans over b)
              (ap (λ (r : Room). record r { host = new }) over.room_is))
            (on_state_change-Quiet rm w2),
      )

  -- A room that cycles is in a game that every user of it has finished, and its live users are `xs`,
  -- the host, and `ys`, the host not being among `xs`. Then `check_all_ready` returns, the game is
  -- over, and the new host is the first of `ys`, `xs` and the host, in this order; nothing else of
  -- the room has changed, nor who its live users are.
  pub check_all_ready-rotates :
      (results : List (ℤ × Record)) (out : List ℤ) (xs ys rest : List ℕ) (new : ℕ)
      → (w.room_at rm).state ≡ playing results out
      → (w.room_at rm).cycle ≡ true
      → all_finished w results out (users w rm) ≡ true
      → users w rm ≡ xs ++ ((w.room_at rm).host ∷ ys)
      → mem (w.room_at rm).host xs ≡ false
      → ys ++ (xs ++ ((w.room_at rm).host ∷ [])) ≡ new ∷ rest
      → (w' : World) × (check_all_ready rm w ≡ returns tt w')
        × (w'.room_at rm ≡ record (w.room_at rm) { state = select_chart; host = new })
        × (users w' rm ≡ users w rm)
  unfolding check_all_ready check_state
  check_all_ready-rotates results out xs ys rest new in_game cycles finished listed first turn =
      let (w', run, b) =
        end_game-rotates new cycles (over-next_host xs ys rest new listed first turn) in
      (
        w',
        ap (λ state. check_state rm state w) in_game ∙ rw finished run,
        b.room_is,
        Becomes-users b refl,
      )
