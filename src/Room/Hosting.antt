-- ===== src/Room/Hosting.antt =====
-- `on_user_leave` returns, and leaves a room with a live user for a host or says that it is to go.
use phira_mp.Common.{
  ℕ, ◌+◌, ◌≡◌, ◌≢◌, inl, inr, refl, ap, ◌∙◌, Bool, true, false, List, [], ◌∷◌, Bool-cases,
}
use phira_mp.Common.Eq.{int_eq}
use phira_mp.World.{World, Env, Run, returns, ◌>>=◌, ◌>>◌, pure}
use phira_mp.Command.Types.{Message, ServerCommand}
use phira_mp.Room.{users, check_host, try_send, send, set_host}
use phira_mp.Room.Turn.{check_all_ready, detach, appoint_host, leave_as_host, on_user_leave}
use phira_mp.Room.Frame.{
  send-Quiet, try_send-Quiet, Becomes, Becomes-Quiet, Becomes-set_host, Becomes-users, Local,
  Local-refl, Local-trans, Becomes-Local,
}
use phira_mp.Room.Settled.{is_due, check_all_ready-Settles}
use phira_mp.Room.Host.{mem, HasHost, Becomes-HasHost}
use phira_mp.Room.Leaving.{IsChoice, has_id}
use phira_mp.Room.Detached.{check_host-detach, HasHost-detach, gone-detach}

-- A step after which the room has the same live users, and a host among them.
pub record Keeps (w w' : World) (rm : ℕ) : Type 0 where
  pub same_users : users w' rm ≡ users w rm
  pub hosted : HasHost w' rm
  pub local : Local w w' rm

not_empty : (k : ℕ) (us : List ℕ) → mem k us ≡ true → us ≢ []
unfolding mem
not_empty k [] m e = cc
not_empty k (u ∷ us) m e = cc

some_users : (w : World) (rm : ℕ) → HasHost w rm → users w rm ≢ []
some_users w rm h = not_empty _ _ h.host_listed

pub check_all_ready-Keeps :
    (rm : ℕ) (w : World)
    → HasHost w rm
    → (w' : World) × (check_all_ready rm w ≡ returns tt w') × Keeps w w' rm
check_all_ready-Keeps rm w h =
    let (w', run, rest, same, local, keeps) = check_all_ready-Settles rm w (some_users w rm h) in
    (w', run, record { same_users = same; hosted = keeps h; local = local })

appoint_host-Keeps :
    (env : Env)
    → IsChoice env
    → (rm u : ℕ) (us : List ℕ) (w : World) → users w rm ≡ u ∷ us
    → (w' : World) × (appoint_host env rm (u ∷ us) w ≡ returns tt w') × Keeps w w' rm
unfolding appoint_host
appoint_host-Keeps env choice rm u us w e =
    let (new, picked, listed) = choice.picks w.draws u us in
    let w1 = set_host rm new (record w { draws = w.draws + 1 }) in
    let w2 = send rm (Message.new_host (w.user_at new).id) w1 in
    let start : Becomes w (record w { draws = w.draws + 1 }) rm (w.room_at rm) = record {
      room_is = refl;
      alive = refl;
      elsewhere = λ v apart. refl;
      rooms = refl;
    } in
    let b =
      Becomes-Quiet (Becomes-Quiet (Becomes-set_host start new) (send-Quiet rm _ w1))
        (try_send-Quiet new (ServerCommand.change_host true) w2) in
    (
      try_send new (ServerCommand.change_host true) w2,
      rw (picked, appoint_host),
      record {
        same_users = Becomes-users b refl;
        hosted = Becomes-HasHost b refl (ap (mem new) e ∙ listed);
        local = Becomes-Local b;
      },
    )

-- What a leave makes of the room: it is to go, or it is hosted and has the users that stayed.
abbrev pub Leaves : (World → Run Bool) → ℕ → World → Type 0
Leaves step rm w =
    (drop : Bool) × (w' : World) × (step w ≡ returns drop w')
    × (users w' rm ≡ users w rm)
    × Local w w' rm
    × (drop ≡ true → users w' rm ≡ [])
    × (drop ≡ false → HasHost w' rm)

leave_as_host-Leaves :
    (env : Env)
    → IsChoice env
    → (rm : ℕ) (us : List ℕ) (w : World) → users w rm ≡ us
    → Leaves (leave_as_host env rm us) rm w
unfolding leave_as_host
leave_as_host-Leaves env choice rm [] w e = (true, w, refl, refl, Local-refl w rm, λ _. e, λ q. cc)
leave_as_host-Leaves env choice rm (u ∷ us) w e =
    let (w1, appointed, k1) = appoint_host-Keeps env choice rm u us w e in
    let (w2, settled, k2) = check_all_ready-Keeps rm w1 k1.hosted in
    (
      false,
      w2,
      rw (appointed, ◌>>=◌) (rw (settled, ◌>>=◌)),
      k2.same_users ∙ k1.same_users,
      Local-trans k1.local k2.local,
      λ q. cc,
      λ _. k2.hosted,
    )

stay-Leaves : (rm : ℕ) (w : World) → HasHost w rm → Leaves (check_all_ready rm >> pure false) rm w
stay-Leaves rm w h =
    let (w', settled, k) = check_all_ready-Keeps rm w h in
    (false, w', rw (settled, ◌>>=◌), k.same_users, k.local, λ q. cc, λ _. k.hosted)

pub on_user_leave-Leaves :
    (env : Env)
    → IsChoice env
    → (rm u : ℕ) (w : World) → HasHost w rm
    → Leaves (λ w1. on_user_leave env rm u w) rm (detach rm u w)
unfolding on_user_leave
on_user_leave-Leaves env choice rm u w h = elim (Bool-cases (check_host w rm u)) [
  | inl was_host ↦
      rw (check_host-detach w rm u, was_host)
        (leave_as_host-Leaves env choice rm (users (detach rm u w) rm) (detach rm u w) refl)
  | inr was_not ↦
      rw (check_host-detach w rm u, was_not)
        (stay-Leaves rm (detach rm u w) (HasHost-detach w rm u h was_not))
]

-- What is left of a room after a leave that says by `drop` whether the room is to go.
abbrev pub Remains : World → ℕ → Bool → Type 0
Remains w rm true = users w rm ≡ []
Remains w rm false = HasHost w rm

remains :
    (w : World) (rm : ℕ) (drop : Bool)
    → (drop ≡ true → users w rm ≡ [])
    → (drop ≡ false → HasHost w rm)
    → Remains w rm drop
remains w rm true gone hosted = gone refl
remains w rm false gone hosted = hosted refl

-- When the random choice picks a member of every list that is not empty, and the room's host is one
-- of its live users, `on_user_leave` returns. If it says that the room is to go, the room has no
-- live user left; if it does not, the room's host is one of its live users.
pub on_user_leave-HasHost :
    (env : Env)
    → IsChoice env
    → (rm u : ℕ) (w : World) → HasHost w rm
    → (drop : Bool) × (w' : World) × (on_user_leave env rm u w ≡ returns drop w')
      × Remains w' rm drop
on_user_leave-HasHost env choice rm u w h =
    let (drop, w', run, same, local, gone, hosted) = on_user_leave-Leaves env choice rm u w h in
    (drop, w', run, remains w' rm drop gone hosted)

-- When the random choice picks a member of every list that is not empty, and the room's host is one
-- of its live users, and the user who leaves has no `monitor` flag, `on_user_leave` returns, and
-- afterwards no live user of the room has the id of the user who left.
pub on_user_leave-gone :
    (env : Env)
    → IsChoice env
    → (rm u : ℕ) (w : World) → HasHost w rm
    → (w.user_at u).monitor ≡ false
    → (drop : Bool) × (w' : World) × (on_user_leave env rm u w ≡ returns drop w')
      × (has_id w (w.user_at u).id (users w' rm) ≡ false)
on_user_leave-gone env choice rm u w h flag =
    let (drop, w', run, same, local, gone, hosted) = on_user_leave-Leaves env choice rm u w h in
    (drop, w', run, ap (has_id w _) same ∙ gone-detach w rm u flag)

-- In a room whose host is one of its live users, `check_all_ready` returns. After it, the room is
-- not waiting for users who are all ready, nor for players who have all finished, it has the same
-- live users, and its host is one of them.
pub check_all_ready-rests :
    (rm : ℕ) (w : World)
    → HasHost w rm
    → (w' : World) × (check_all_ready rm w ≡ returns tt w')
      × (is_due w' rm ≡ false)
      × (users w' rm ≡ users w rm)
      × HasHost w' rm
check_all_ready-rests rm w h =
    let (w', run, rest, same, local, keeps) = check_all_ready-Settles rm w (some_users w rm h) in
    (w', run, rest, same, keeps h)
