-- ===== src/Session/Mirror/Settings.antt =====
-- Locking a room and letting it cycle, on the server and on a client in the room.
use phira_mp.Common.{
  ℕ, zero, suc, ◌≡◌, refl, sym, ap, ◌∙◌, Bool, true, some, List, [], ◌∷◌, ◌++◌, ◌==◌, ==_iff,
  Bool-cases, inl, inr,
}
use phira_mp.Bin.Data.{success}
use phira_mp.Command.Types.{ServerCommand, Message}
use phira_mp.World.{Room, World, set_room, returns}
use phira_mp.Room.{users, monitors, upgrade_all, check_host, client_state, client_room_state, send}
use phira_mp.Room.Frame.{Quiet, send-Quiet, upgrade_all-alive}
use phira_mp.Room.Host.{mem}
use phira_mp.Session.Handler.{get_room}
use phira_mp.Session.Rooms.{require_host, lock_room, cycle_room}
use phira_mp.Session.Guards.{bind_succeeds, get_room-some}
use phira_mp.Client as Client
use phira_mp.Client.Process.{process_all}
use phira_mp.Client.View.{follow, follow_all, is_reply, no_reply, process_all-follow_all}
use phira_mp.Session.Mirror.{
  members, broadcast-sent, commands_for, all_sent, gets_from, copies, repeat, commands_for-all_sent,
  follow_all-repeat,
}

heard_once :
    (w : World) (s v : ℕ) (us : List ℕ)
    → mem v us ≡ true
    → gets_from w s v ≡ true
    → (n : ℕ) × (copies w s us ≡ suc n)
unfolding mem copies
heard_once w s v [] h g = cc
heard_once w s v (u ∷ us) h g = elim (Bool-cases (gets_from w s u)) [
  | inl hears ↦ (copies w s us, rw (hears, copies) refl)
  | inr deaf ↦ elim (Bool-cases (u == v)) [
    | inl same ↦ let e = (==_iff u v).0 same in cc (e, deaf, g)
    | inr other ↦
        let (n, e) = heard_once w s v us (rw (other, mem) at h) g in (n, rw (deaf, copies) e)
  ]
]

client_state-Quiet :
    (w w' : World) (rm v : ℕ) → Quiet w w' → client_state w' rm v ≡ client_state w rm v
unfolding client_state client_room_state check_host users monitors upgrade_all
client_state-Quiet w w' rm v q = rw (q.user_at, q.alive, q.room_at) refl

-- What was sent between two states, and what a client of the session `s` makes of its part of it.
abbrev pub Mirrors : World → World → ℕ → ℕ → ℕ → Client.State → Type 0
Mirrors w w' rm s v st =
    (out : List (ℕ × ServerCommand)) × (w'.outbox ≡ w.outbox ++ out)
    × (st' : Client.State) × (process_all (commands_for s out) st ≡ Client.returns tt st')
    × (st'.room ≡ some (client_state w' rm v))

no_reply-repeat : (n : ℕ) (msg : Message) → no_reply (repeat n (ServerCommand.message msg)) ≡ true
unfolding is_reply
no_reply-repeat zero msg = refl
no_reply-repeat (suc n) msg = no_reply-repeat n msg

module _ (rm s v : ℕ) (msg : Message) (st : Client.State) where
  -- The room was set, and a message of that is sent to its members.
  told :
      (w w1 : World)
      → st.room ≡ some (client_state w rm v)
      → w1.outbox ≡ w.outbox
      → mem v (members w1 rm) ≡ true
      → gets_from w1 s v ≡ true
      → client_state w1 rm v ≡ follow (ServerCommand.message msg) (client_state w rm v)
      → follow
          (ServerCommand.message msg)
          (follow (ServerCommand.message msg) (client_state w rm v))
        ≡ follow (ServerCommand.message msg) (client_state w rm v)
      → Mirrors w (send rm msg w1) rm s v st
  unfolding send
  told w w1 knows quiet listed hears made again =
      let cmd = ServerCommand.message msg in
      let out = all_sent w1 cmd (members w1 rm) in
      let (n, count) = heard_once w1 s v (members w1 rm) listed hears in
      let heard : commands_for s out ≡ repeat (suc n) cmd =
        commands_for-all_sent s cmd (members w1 rm) w1 ∙ ap (λ k. repeat k cmd) count in
      let seen : follow_all (commands_for s out) (client_state w rm v)
          ≡ client_state (send rm msg w1) rm v =
        ap (λ cs. follow_all cs (client_state w rm v)) heard
        ∙ follow_all-repeat n cmd (client_state w rm v) again
        ∙ sym made
        ∙ sym (client_state-Quiet w1 (send rm msg w1) rm v (send-Quiet rm msg w1)) in
      let (st', run, here, msgs, cbs) =
        process_all-follow_all (commands_for s out) st (client_state w rm v) knows
          (ap no_reply heard ∙ no_reply-repeat (suc n) msg) in
      (
        out,
        ap (λ (x : World). x.outbox) (broadcast-sent rm cmd w1) ∙ ap (λ o. o ++ out) quiet,
        st',
        run,
        here ∙ ap some seen,
      )

set_room-members :
    (rm : ℕ) (room : Room) (w : World)
    → room.users ≡ (w.room_at rm).users
    → room.monitors ≡ (w.room_at rm).monitors
    → members (set_room rm room w) rm ≡ members w rm
unfolding users monitors
set_room-members rm room w us ms =
    let w1 = set_room rm room w in
    let self : w1.room_at rm ≡ room = rw ((==_iff rm rm).1 refl) refl in
    let listed : users w1 rm ≡ users w rm =
      upgrade_all-alive w w1 (w1.room_at rm).users refl
      ∙ ap (λ (r : Room). upgrade_all w r.users) self
      ∙ ap (upgrade_all w) us in
    let watching : monitors w1 rm ≡ monitors w rm =
      upgrade_all-alive w w1 (w1.room_at rm).monitors refl
      ∙ ap (λ (r : Room). upgrade_all w r.monitors) self
      ∙ ap (upgrade_all w) ms in
    ap (λ xs. xs ++ monitors w1 rm) listed ∙ ap (λ xs. users w rm ++ xs) watching

-- Setting the lock or the cycle of a room is what a client makes of the message.
lock-client_state :
    (rm v : ℕ) (b : Bool) (w : World)
    → client_state (set_room rm (record (w.room_at rm) { locked = b }) w) rm v
      ≡ record (client_state w rm v) { locked = b }
unfolding client_state client_room_state check_host
lock-client_state rm v b w =
    rw
      (
        set_room-members rm (record (w.room_at rm) { locked = b }) w refl refl,
        (==_iff rm rm).1 refl,
      )
      refl

cycle-client_state :
    (rm v : ℕ) (b : Bool) (w : World)
    → client_state (set_room rm (record (w.room_at rm) { cycle = b }) w) rm v
      ≡ record (client_state w rm v) { cycle = b }
unfolding client_state client_room_state check_host
cycle-client_state rm v b w =
    rw
      (set_room-members rm (record (w.room_at rm) { cycle = b }) w refl refl, (==_iff rm rm).1 refl)
      refl

module _ (u rm s v : ℕ) (w : World) (housed : (w.user_at u).room ≡ some rm)
    (host : check_host w rm u ≡ true) (listed : mem v (members w rm) ≡ true)
    (hears : gets_from w s v ≡ true) (st : Client.State)
    (knows : st.room ≡ some (client_state w rm v)) where
  host_passes : require_host rm u w ≡ returns (success tt) w
  unfolding require_host
  host_passes = rw host

  -- The host of a room locks or unlocks it, or lets it cycle or not, and `v` is a user or a monitor
  -- of the room whose session is alive. Both commands succeed. A client that knows what the server
  -- would tell `v` of the room, and processes what the server sends to that session, does not
  -- panic, and then knows what the server would tell `v` of the room afterwards.
  pub settings-Mirrors :
      (b : Bool)
      → ((w' : World) × (lock_room u b w ≡ returns (success tt) w') × Mirrors w w' rm s v st)
        × ((w' : World) × (cycle_room u b w ≡ returns (success tt) w') × Mirrors w w' rm s v st)
  unfolding lock_room cycle_room follow gets_from
  settings-Mirrors b =
      let l = set_room rm (record (w.room_at rm) { locked = b }) w in
      let c = set_room rm (record (w.room_at rm) { cycle = b }) w in
      (
        (
          send rm (Message.lock_room b) l,
          bind_succeeds (get_room u) _ (get_room-some u rm w housed)
              ∙ bind_succeeds (require_host rm u) _ host_passes,
          told rm s v (Message.lock_room b) st w l knows refl
              (ap (mem v) (set_room-members rm (record (w.room_at rm) { locked = b }) w refl refl)
                ∙ listed)
              hears (lock-client_state rm v b w) refl,
        ),
        (
          send rm (Message.cycle_room b) c,
          bind_succeeds (get_room u) _ (get_room-some u rm w housed)
              ∙ bind_succeeds (require_host rm u) _ host_passes,
          told rm s v (Message.cycle_room b) st w c knows refl
              (ap (mem v) (set_room-members rm (record (w.room_at rm) { cycle = b }) w refl refl)
                ∙ listed)
              hears (cycle-client_state rm v b w) refl,
        ),
      )
