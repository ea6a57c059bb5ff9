-- ===== src/Room/Frame.antt =====
-- What sending and resetting clocks leave as it was.
use phira_mp.Common.{◌==◌, false, ℕ, ◌≡◌, refl, ◌∙◌, ap, List, [], ◌∷◌, ◌++◌, arith}
use phira_mp.Command.Types.{ServerCommand, Message}
use phira_mp.World.{InternalRoomState, Room, World, update}
use phira_mp.Room.{
  users, monitors, upgrade_all, try_send, send_all, broadcast, send, on_state_change, reset_times,
  reset_game_time, set_state, set_host,
}

-- Only the outbox differs.
pub record Quiet (w w' : World) : Type 0 where
  pub user_at : w'.user_at ≡ w.user_at
  pub alive : w'.alive ≡ w.alive
  pub room_at : w'.room_at ≡ w.room_at
  pub session_alive : w'.session_alive ≡ w.session_alive
  pub users : w'.users ≡ w.users
  pub rooms : w'.rooms ≡ w.rooms
  pub config_monitors : w'.config_monitors ≡ w.config_monitors
  pub fresh : w'.fresh ≡ w.fresh
  pub draws : w'.draws ≡ w.draws

pub Quiet-refl : (w : World) → Quiet w w
Quiet-refl w = ground arith

pub Quiet-trans : {a b c : World} → Quiet a b → Quiet b c → Quiet a c
Quiet-trans p q = record {
  user_at = q.user_at ∙ p.user_at;
  alive = q.alive ∙ p.alive;
  room_at = q.room_at ∙ p.room_at;
  session_alive = q.session_alive ∙ p.session_alive;
  users = q.users ∙ p.users;
  rooms = q.rooms ∙ p.rooms;
  config_monitors = q.config_monitors ∙ p.config_monitors;
  fresh = q.fresh ∙ p.fresh;
  draws = q.draws ∙ p.draws;
}

pub try_send-Quiet : (u : ℕ) (cmd : ServerCommand) (w : World) → Quiet w (try_send u cmd w)
unfolding try_send
try_send-Quiet u cmd w = ground arith

pub send_all-Quiet : (us : List ℕ) (cmd : ServerCommand) (w : World) → Quiet w (send_all us cmd w)
unfolding send_all
send_all-Quiet [] cmd w = ground arith
send_all-Quiet (u ∷ us) cmd w =
    Quiet-trans (try_send-Quiet u cmd w) (send_all-Quiet us cmd (try_send u cmd w))

pub broadcast-Quiet : (rm : ℕ) (cmd : ServerCommand) (w : World) → Quiet w (broadcast rm cmd w)
unfolding broadcast
broadcast-Quiet rm cmd w = send_all-Quiet (users w rm ++ monitors w rm) cmd w

pub send-Quiet : (rm : ℕ) (msg : Message) (w : World) → Quiet w (send rm msg w)
unfolding send
send-Quiet rm msg w = broadcast-Quiet rm (ServerCommand.message msg) w

pub on_state_change-Quiet : (rm : ℕ) (w : World) → Quiet w (on_state_change rm w)
unfolding on_state_change
on_state_change-Quiet rm w = broadcast-Quiet rm _ w

pub update_self {ℓ} : {A : Type ℓ} (f : ℕ → A) (p : ℕ) (v : A) → update f p v p ≡ v
update_self f p v = ground arith

pub reset_times-room_at : (us : List ℕ) (w : World) → (reset_times us w).room_at ≡ w.room_at
unfolding reset_times
reset_times-room_at [] w = refl
reset_times-room_at (u ∷ us) w = reset_times-room_at us _

pub reset_times-alive : (us : List ℕ) (w : World) → (reset_times us w).alive ≡ w.alive
unfolding reset_times
reset_times-alive [] w = refl
reset_times-alive (u ∷ us) w = reset_times-alive us _

-- Who can be upgraded depends on which addresses are alive only.
pub upgrade_all-alive :
    (w w' : World) (us : List ℕ) → w'.alive ≡ w.alive → upgrade_all w' us ≡ upgrade_all w us
unfolding upgrade_all
upgrade_all-alive w w' [] h = refl
upgrade_all-alive w w' (u ∷ us) h =
    let here : w'.alive u ≡ w.alive u = ap (λ f. f u) h in rw (here, upgrade_all-alive w w' us h)

pub reset_times-rooms : (us : List ℕ) (w : World) → (reset_times us w).rooms ≡ w.rooms
unfolding reset_times
reset_times-rooms [] w = refl
reset_times-rooms (u ∷ us) w = reset_times-rooms us _

-- At most the room at `rm` is another: the map of rooms is the same, and the same users are alive.
pub record Local (w w' : World) (rm : ℕ) : Type 0 where
  pub alive : w'.alive ≡ w.alive
  pub elsewhere : (q : ℕ) → (q == rm) ≡ false → w'.room_at q ≡ w.room_at q
  pub rooms : w'.rooms ≡ w.rooms

-- What a run of steps makes of the room at `rm`: it becomes `room`, and nothing else changes that
-- `Local` names.
pub record Becomes (w w' : World) (rm : ℕ) (room : Room) : Type 0 where
  pub room_is : w'.room_at rm ≡ room
  pub alive : w'.alive ≡ w.alive
  pub elsewhere : (q : ℕ) → (q == rm) ≡ false → w'.room_at q ≡ w.room_at q
  pub rooms : w'.rooms ≡ w.rooms

pub Becomes-Local : {w w' : World} {rm : ℕ} {room : Room} → Becomes w w' rm room → Local w w' rm
Becomes-Local b = record { alive = b.alive; elsewhere = b.elsewhere; rooms = b.rooms }

pub Local-refl : (w : World) (rm : ℕ) → Local w w rm
Local-refl w rm = record { alive = refl; elsewhere = λ v apart. refl; rooms = refl }

pub Local-trans : {a b c : World} {rm : ℕ} → Local a b rm → Local b c rm → Local a c rm
Local-trans p q = record {
  alive = q.alive ∙ p.alive;
  elsewhere = λ v apart. q.elsewhere v apart ∙ p.elsewhere v apart;
  rooms = q.rooms ∙ p.rooms;
}

pub update_other {ℓ} :
    {A : Type ℓ} (f : ℕ → A) (p q : ℕ) (v : A) → (q == p) ≡ false → update f p v q ≡ f q
update_other f p q v apart = ground (arith, apart)

module _ {w w' : World} {rm : ℕ} {room : Room} (b : Becomes w w' rm room) where
  pub Becomes-Quiet : {w'' : World} → Quiet w' w'' → Becomes w w'' rm room
  Becomes-Quiet q = record {
    room_is = ap (λ f. f rm) q.room_at ∙ b.room_is;
    alive = q.alive ∙ b.alive;
    elsewhere = λ v apart. ap (λ f. f v) q.room_at ∙ b.elsewhere v apart;
    rooms = q.rooms ∙ b.rooms;
  }

  pub Becomes-set_state :
      (st : InternalRoomState) → Becomes w (set_state rm st w') rm (record room { state = st })
  Becomes-set_state st = record {
    room_is = update_self w'.room_at rm _ ∙ ap (λ (r : Room). record r { state = st }) b.room_is;
    alive = b.alive;
    elsewhere = λ v apart. update_other w'.room_at rm v _ apart ∙ b.elsewhere v apart;
    rooms = b.rooms;
  }

  pub Becomes-set_host : (h : ℕ) → Becomes w (set_host rm h w') rm (record room { host = h })
  Becomes-set_host h = record {
    room_is = update_self w'.room_at rm _ ∙ ap (λ (r : Room). record r { host = h }) b.room_is;
    alive = b.alive;
    elsewhere = λ v apart. update_other w'.room_at rm v _ apart ∙ b.elsewhere v apart;
    rooms = b.rooms;
  }

  pub Becomes-reset : Becomes w (reset_game_time rm w') rm room
  unfolding reset_game_time
  Becomes-reset = record {
    room_is = ap (λ f. f rm) (reset_times-room_at _ w') ∙ b.room_is;
    alive = reset_times-alive _ w' ∙ b.alive;
    elsewhere = λ v apart. ap (λ f. f v) (reset_times-room_at _ w') ∙ b.elsewhere v apart;
    rooms = reset_times-rooms _ w' ∙ b.rooms;
  }

pub Becomes-trans :
    {a b c : World} {rm : ℕ} {r r' : Room}
    → Becomes a b rm r
    → Becomes b c rm r'
    → Becomes a c rm r'
Becomes-trans p q = record {
  room_is = q.room_is;
  alive = q.alive ∙ p.alive;
  elsewhere = λ v apart. q.elsewhere v apart ∙ p.elsewhere v apart;
  rooms = q.rooms ∙ p.rooms;
}

pub Becomes-eq :
    {w w' : World} {rm : ℕ} {r r' : Room} → Becomes w w' rm r → r ≡ r' → Becomes w w' rm r'
Becomes-eq p e = record {
  room_is = p.room_is ∙ e;
  alive = p.alive;
  elsewhere = p.elsewhere;
  rooms = p.rooms;
}

pub Becomes-refl : (w : World) (rm : ℕ) → Becomes w w rm (w.room_at rm)
Becomes-refl w rm = record {
  room_is = refl;
  alive = refl;
  elsewhere = λ v apart. refl;
  rooms = refl;
}

-- The users of a room that can be upgraded, by what became of the room.
pub Becomes-users :
    {w w' : World} {rm : ℕ} {room : Room}
    → Becomes w w' rm room
    → room.users ≡ (w.room_at rm).users
    → users w' rm ≡ users w rm
unfolding users
Becomes-users {w} {w'} {rm} {room} b same =
    upgrade_all-alive w w' (w'.room_at rm).users b.alive
    ∙ ap (λ r. upgrade_all w r.users) b.room_is
    ∙ ap (upgrade_all w) same
