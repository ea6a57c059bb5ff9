-- ===== src/Session/Lingering.antt =====
-- Who has monitored a room, and then opens one and leaves it.
use phira_mp.Common.{ℕ, ◌≡◌, ◌≢◌, refl, ap, ◌∙◌, Bool, true, false, none, some, [], ◌∷◌, arith}
use phira_mp.Common.Maps.{lookup, lookup-insert_self}
use phira_mp.Bin.Data.{success}
use phira_mp.Command.Types.{RoomId, room_id_eq}
use phira_mp.World.{User, Room, World, Env, returns}
use phira_mp.Room.{users, upgrade_all, new}
use phira_mp.Room.Turn.{detach, on_user_leave}
use phira_mp.Room.Frame.{send-Quiet, update_self, Local-trans, Becomes-Local}
use phira_mp.Room.Leaving.{IsChoice, detach-Becomes}
use phira_mp.Room.Detached.{left_room-users_monitor, users-detach}
use phira_mp.Room.Hosting.{on_user_leave-Leaves}
use phira_mp.Session.Handler.{lift, get_room}
use phira_mp.Session.Rooms.{open_room, create_room, drop_room, leave_room}
use phira_mp.Session.Guards.{bind_succeeds, get_room-some}
use phira_mp.Session.Effects.{
  announced, open_room-Becomes, rooms-open_room, housed-open_room, HasHost-open_room,
  create_room-open_room,
}

not_dropped : (drop : Bool) → drop ≢ true → drop ≡ false
not_dropped true h = absurd (h refl)
not_dropped false h = refl

module _ (env : Env) (choice : IsChoice env) (u : ℕ) (id : RoomId) (w : World)
    (here : w.alive u ≡ true) (flag : (w.user_at u).monitor ≡ true) where
  abbrev opened : World
  opened = open_room u id w

  flag-open_room : (opened.user_at u).monitor ≡ true
  unfolding open_room
  flag-open_room =
      ap (λ (x : User). x.monitor) (update_self (announced u id w).user_at u _)
      ∙ ap (λ f. (f u).monitor) (send-Quiet w.fresh _ _).user_at
      ∙ flag

  alone : upgrade_all opened (u ∷ []) ≡ u ∷ []
  unfolding upgrade_all
  alone = ground (arith, ap (λ f. f u) (open_room-Becomes u id w).alive ∙ here)

  users-left : users (detach w.fresh u opened) w.fresh ≡ u ∷ []
  unfolding new
  users-left =
      users-detach opened w.fresh u
      ∙ ap (upgrade_all opened) (
          left_room-users_monitor opened w.fresh u flag-open_room
          ∙ ap (λ (r : Room). r.users) (open_room-Becomes u id w).room_is)
      ∙ alone

  left :
      {drop : Bool} {w1 : World}
      → on_user_leave env w.fresh u opened ≡ returns drop w1
      → drop ≡ false
      → leave_room env u opened ≡ returns (success tt) w1
  unfolding leave_room drop_room
  left {drop} {w1} run kept =
      bind_succeeds (get_room u) _ (get_room-some u w.fresh opened (housed-open_room u id w))
      ∙ bind_succeeds (lift (on_user_leave env w.fresh u)) _ {w' = w1} {a = drop}
          (rw (run, lift) refl)
      ∙ ap (λ d. returns (success tt) (drop_room w.fresh d w1)) kept

  -- When the random choice picks a member of every list that is not empty, and a live user whose
  -- `monitor` flag is set, which is in no room, creates a room by an id that no room has and then
  -- leaves it, both succeed; but the room is still on the map, and the user is its only live user.
  pub leave_room-lingers :
      (w.user_at u).room ≡ none
      → lookup id w.rooms ≡ none
      → (w1 : World) × (w2 : World) × (create_room u id w ≡ returns (success tt) w1)
        × (leave_room env u w1 ≡ returns (success tt) w2)
        × (lookup id w2.rooms ≡ some w.fresh)
        × (users w2 w.fresh ≡ u ∷ [])
  leave_room-lingers homeless free =
      let (drop, w2, run, same, local, gone, hosted) =
        on_user_leave-Leaves env choice w.fresh u opened (HasHost-open_room u id w here) in
      let l = Local-trans (Becomes-Local (detach-Becomes w.fresh u opened)) local in
      let only : users w2 w.fresh ≡ u ∷ [] = same ∙ users-left in
      (
        opened,
        w2,
        create_room-open_room u id w homeless free,
        left run (not_dropped drop (λ d. cc (gone d, only))),
        ap (lookup id) (l.rooms ∙ rooms-open_room u id w) ∙ lookup-insert_self id w.fresh w.rooms,
        only,
      )
