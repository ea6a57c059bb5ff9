-- ===== src/Room/Succession.antt =====
-- The start and the end of a game, and who is the host after it.
use phira_mp.Common.{
  ℕ, zero, suc, ◌+◌, ◌<◌, ◌≡◌, ◌≢◌, inl, inr, refl, sym, ap, ◌∙◌, true, Option, some, List, [], ◌∷◌,
  length, get_elem?, arith, Bool-cases, Option-cases,
}
use native.Mathlib.Nat.{mod-lt}
use phira_mp.Command.Types.{Message}
use phira_mp.World.{select_chart, playing, Room, World, returns, ◌>>=◌}
use phira_mp.Room.{users, send, on_state_change, set_state, set_host, next_index, position}
use phira_mp.Room.Turn.{start_game, tell_old, tell_hosts, rotate_host, end_game}
use phira_mp.Room.Frame.{
  Quiet, Quiet-trans, Quiet-refl, Becomes, Becomes-refl, Becomes-trans, Becomes-eq, Becomes-Quiet,
  Becomes-set_state, Becomes-set_host, Becomes-reset, Becomes-users, try_send-Quiet, send-Quiet,
  on_state_change-Quiet,
}
use phira_mp.Room.Host.{mem, HasHost, mem-get_elem?}

pub start_game-Becomes :
    (rm : ℕ) (w : World)
    → Becomes w (start_game rm w) rm (record (w.room_at rm) { state = playing [] [] })
unfolding start_game
start_game-Becomes rm w =
    Becomes-Quiet
      (Becomes-set_state (Becomes-reset (Becomes-Quiet (Becomes-refl w rm) (send-Quiet rm _ w)))
        (playing [] []))
      (on_state_change-Quiet rm _)

tell_old-Quiet : (old : ℕ) (w : World) → Quiet w (tell_old old w)
unfolding tell_old
tell_old-Quiet old w = elim (Bool-cases (w.alive old)) [
  | inl here ↦ rw here (try_send-Quiet old _ w)
  | inr gone ↦ rw gone (Quiet-refl w)
]

tell_hosts-Quiet : (rm old new : ℕ) (w : World) → Quiet w (tell_hosts rm old new w)
unfolding tell_hosts
tell_hosts-Quiet rm old new w =
    Quiet-trans (Quiet-trans (send-Quiet rm _ w) (tell_old-Quiet old _)) (try_send-Quiet new _ _)

-- The host that `rotate_host` picks.
unfoldable pub next_host : World → ℕ → Option ℕ
next_host w rm = get_elem? (users w rm) (next_index (w.room_at rm).host (users w rm))

pub rotate_host-Becomes :
    (rm new : ℕ) (w : World)
    → next_host w rm ≡ some new
    → (w' : World) × (rotate_host rm w ≡ returns tt w')
      × Becomes w w' rm (record (w.room_at rm) { host = new })
unfolding rotate_host next_host
rotate_host-Becomes rm new w e = (
  tell_hosts rm (w.room_at rm).host new (set_host rm new w),
  rw (e, rotate_host),
  Becomes-Quiet (Becomes-set_host (Becomes-refl w rm) new) (tell_hosts-Quiet rm _ new _),
)

get_elem?-lt {ℓ} :
    {A : Type ℓ} (xs : List A) (i : ℕ) → i < length xs → (a : A) × (get_elem? xs i ≡ some a)
get_elem?-lt [] i h = absurd (omega arith)
get_elem?-lt (x ∷ xs) zero h = (x, refl)
get_elem?-lt (x ∷ xs) (suc i) h = get_elem?-lt xs i (omega arith)

next_index-lt : (h u : ℕ) (us : List ℕ) → next_index h (u ∷ us) < length (u ∷ us)
unfolding next_index
next_index-lt h u us = elim (Option-cases (position h (u ∷ us))) [
  | inl e ↦ rw (e, next_index) (omega arith)
  | inr (i, e) ↦ rw (e, next_index) (mod-lt (i + 1) (omega arith))
]

get_next : (h : ℕ) (us : List ℕ) → us ≢ [] → (new : ℕ) × (get_elem? us (next_index h us) ≡ some new)
get_next h [] some_user = absurd (some_user refl)
get_next h (u ∷ us) some_user = get_elem?-lt (u ∷ us) _ (next_index-lt h u us)

next_host-some : (w : World) (rm : ℕ) → users w rm ≢ [] → (new : ℕ) × (next_host w rm ≡ some new)
unfolding next_host
next_host-some w rm some_user = get_next (w.room_at rm).host (users w rm) some_user

mem-next_host : (w : World) (rm new : ℕ) → next_host w rm ≡ some new → mem new (users w rm) ≡ true
unfolding next_host
mem-next_host w rm new e = mem-get_elem? (users w rm) _ new e

unfoldable pub game_over : ℕ → World → World
game_over rm w = set_state rm select_chart (send rm Message.game_end w)

pub game_over-Becomes :
    (rm : ℕ) (w : World)
    → Becomes w (game_over rm w) rm (record (w.room_at rm) { state = select_chart })
unfolding game_over
game_over-Becomes rm w =
    Becomes-set_state (Becomes-Quiet (Becomes-refl w rm) (send-Quiet rm _ w)) select_chart

-- The end of a game: the room waits for a chart again, and only its host may be another.
pub end_game-Becomes :
    (rm : ℕ) (w : World)
    → users w rm ≢ []
    → (w' : World) × (host : ℕ) × (end_game rm w ≡ returns tt w')
      × Becomes w w' rm (record (w.room_at rm) { state = select_chart; host = host })
      × (HasHost w rm → mem host (users w rm) ≡ true)
unfolding end_game game_over
end_game-Becomes rm w some_user = elim (Bool-cases ((game_over rm w).room_at rm).cycle) [
  | inr stay ↦ (
    on_state_change rm (game_over rm w),
    (w.room_at rm).host,
    rw stay,
    Becomes-Quiet (game_over-Becomes rm w) (on_state_change-Quiet rm _),
    λ h. h.host_listed,
  )
  | inl rotate ↦
      let over = game_over-Becomes rm w in
      let left : users (game_over rm w) rm ≡ users w rm = Becomes-users over refl in
      let (new, e) = next_host-some (game_over rm w) rm (λ q. some_user (sym left ∙ q)) in
      let (w2, run, b) = rotate_host-Becomes rm new (game_over rm w) e in
      (
        on_state_change rm w2,
        new,
        rw rotate (rw (run, ◌>>=◌)),
        Becomes-Quiet
            (Becomes-eq (Becomes-trans over b)
              (ap (λ (r : Room). record r { host = new }) over.room_is))
            (on_state_change-Quiet rm w2),
        λ _. ap (mem new) (sym left) ∙ mem-next_host (game_over rm w) rm new e,
      )
]
