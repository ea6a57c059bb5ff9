-- ===== src/Session/Effects.antt =====
-- session.rs: what `CreateRoom` and `Played` make of the state.
use phira_mp.Common.{ℕ, ◌+◌, ◌≡◌, refl, ◌∙◌, ap, true, false, none, some, List, arith}
use phira_mp.Common.Int.{ℤ}
use phira_mp.Common.Eq.{◌==◌, int_eq}
use phira_mp.Common.Maps.{lookup, insert, lookup-insert_self}
use phira_mp.Bin.Data.{success, failure}
use phira_mp.Command.Types.{RoomId, room_id_eq, Message}
use phira_mp.World.{Record, playing, User, Room, World, Env, set_room, returns}
use phira_mp.Room.{contains, contains_key, new, send, set_state, users, upgrade_all}
use phira_mp.Room.Frame.{send-Quiet, update_self, Becomes, upgrade_all-alive}
use phira_mp.Room.Host.{mem, HasHost}
use phira_mp.Session.Handler.{already_uploaded, H, ◌>>=◌, from_service, get_room}
use phira_mp.Session.Rooms.{id_of, open_room, create_room}
use phira_mp.Session.Game.{upload_in, played}
use phira_mp.Session.Guards.{bind_succeeds, get_room-some}

module _ (u : ℕ) (id : RoomId) (w : World) where
  abbrev pub entered : World
  entered =
      set_room w.fresh (new id u)
        (record w { rooms = insert id w.fresh w.rooms; fresh = w.fresh + 1 })

  abbrev pub announced : World
  announced = send w.fresh (Message.create_room (id_of u entered)) entered

  pub open_room-Becomes : Becomes entered (open_room u id w) w.fresh (new id u)
  unfolding open_room
  open_room-Becomes =
      let q = send-Quiet w.fresh (Message.create_room (id_of u entered)) entered in
      record {
        room_is = ap (λ f. f w.fresh) q.room_at ∙ update_self w.room_at w.fresh (new id u);
        alive = q.alive;
        elsewhere = λ v apart. ap (λ f. f v) q.room_at;
        rooms = q.rooms;
      }

  pub rooms-open_room : (open_room u id w).rooms ≡ insert id w.fresh w.rooms
  unfolding open_room
  rooms-open_room = (send-Quiet w.fresh (Message.create_room (id_of u entered)) entered).rooms

  pub housed-open_room : ((open_room u id w).user_at u).room ≡ some w.fresh
  unfolding open_room
  housed-open_room = ap (λ (x : User). x.room) (update_self announced.user_at u _)

  listed_alone : w.alive u ≡ true → mem (new id u).host (upgrade_all w (new id u).users) ≡ true
  unfolding new upgrade_all mem
  listed_alone here = ground (arith, here)

  pub HasHost-open_room : w.alive u ≡ true → HasHost (open_room u id w) w.fresh
  unfolding users
  HasHost-open_room here =
      let b = open_room-Becomes in
      record {
        host_listed =
            ap (λ (r : Room). mem r.host (upgrade_all (open_room u id w) r.users)) b.room_is
            ∙ ap (mem (new id u).host)
                (upgrade_all-alive w (open_room u id w) (new id u).users b.alive)
            ∙ listed_alone here;
      }

  pub create_room-open_room :
      (w.user_at u).room ≡ none
      → lookup id w.rooms ≡ none
      → create_room u id w ≡ returns (success tt) (open_room u id w)
  unfolding create_room
  create_room-open_room homeless free = rw (homeless, free) refl

  -- A live user who is in no room can create a room by an id that no room has. Then the id is
  -- entered for the new room, the room is open, empty of games, and hosted by the user, who is its
  -- only user and is in it.
  pub create_room-hosted :
      w.alive u ≡ true
      → (w.user_at u).room ≡ none
      → lookup id w.rooms ≡ none
      → (w' : World) × (create_room u id w ≡ returns (success tt) w')
        × (lookup id w'.rooms ≡ some w.fresh)
        × (w'.room_at w.fresh ≡ new id u)
        × ((w'.user_at u).room ≡ some w.fresh)
        × HasHost w' w.fresh
  create_room-hosted here homeless free = (
    open_room u id w,
    create_room-open_room homeless free,
    ap (lookup id) rooms-open_room ∙ lookup-insert_self id w.fresh w.rooms,
    open_room-Becomes.room_is,
    housed-open_room,
    HasHost-open_room here,
  )

module _ (env : Env) (u rm : ℕ) (id : ℤ) (w : World) where
  -- The room is told of the record before it is looked at whether the user may upload it.
  abbrev announced_upload : Record → World
  announced_upload res =
      send rm (Message.played (w.user_at u).id res.score res.accuracy res.full_combo) w

  upload_again :
      (res : Record) (results : List (ℤ × Record)) (out : List ℤ) (v : World)
      → contains (v.user_at u).id out ≡ false
      → contains_key (v.user_at u).id results ≡ true
      → upload_in rm u res (playing results out) v
        ≡ returns
            (failure already_uploaded)
            (set_state rm (playing (insert (v.user_at u).id res results) out) v)
  unfolding upload_in
  upload_again res results out v took_part has_one = rw (took_part, has_one)

  fetched :
      (res : Record)
      → env.fetch_record id ≡ success res
      → {A : Type 0} (f : Record → H A) → (from_service (env.fetch_record id) >>= f) w ≡ f res w
  fetched res e f = rw e

  played_upload :
      (res : Record)
      → (w.user_at u).room ≡ some rm
      → env.fetch_record id ≡ success res
      → (res.player == (w.user_at u).id) ≡ true
      → played env u id w
        ≡ upload_in rm u res ((announced_upload res).room_at rm).state (announced_upload res)
  unfolding played
  played_upload res housed e own =
      bind_succeeds (get_room u) _ (get_room-some u rm w housed) ∙ rw (e, own) refl

  -- A user in a game that has a record of it already, and that did not abort, uploads a record of its
  -- own. The command fails, since there is a record already; but the new record has taken its place.
  pub played-overwrites :
      (res : Record) (results : List (ℤ × Record)) (out : List ℤ)
      → (w.user_at u).room ≡ some rm
      → env.fetch_record id ≡ success res
      → (res.player == (w.user_at u).id) ≡ true
      → (w.room_at rm).state ≡ playing results out
      → contains (w.user_at u).id out ≡ false
      → contains_key (w.user_at u).id results ≡ true
      → (w' : World) × (after : List (ℤ × Record)) × (played env u id w
          ≡ returns (failure already_uploaded) w')
        × ((w'.room_at rm).state ≡ playing after out)
        × (lookup (w.user_at u).id after ≡ some res)
  played-overwrites res results out housed e own in_game took_part has_one =
      let q =
        send-Quiet rm (Message.played (w.user_at u).id res.score res.accuracy res.full_combo) w in
      let same : ((announced_upload res).user_at u).id ≡ (w.user_at u).id =
        ap (λ f. (f u).id) q.user_at in
      let state : ((announced_upload res).room_at rm).state ≡ playing results out =
        ap (λ f. (f rm).state) q.room_at ∙ in_game in
      (
        set_state rm (playing (insert (w.user_at u).id res results) out) (announced_upload res),
        insert (w.user_at u).id res results,
        played_upload res housed e own
            ∙ ap (λ st. upload_in rm u res st (announced_upload res)) state
            ∙ upload_again res results out (announced_upload res) (rw same took_part)
                (rw same has_one)
            ∙ ap
                (λ k.
                  returns (failure already_uploaded)
                    (set_state rm (playing (insert k res results) out) (announced_upload res)))
                same,
        ap (λ (r : Room). r.state) (update_self (announced_upload res).room_at rm _),
        lookup-insert_self (w.user_at u).id res results,
      )
