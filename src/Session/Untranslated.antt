-- ===== src/Session/Untranslated.antt =====
-- A refusal that `tl!` words, in a language that has no bundle.
use phira_mp.Common.{Bool, ℕ, ◌≡◌, refl, ◌∙◌, true, none, some}
use phira_mp.Common.Eq.{nat_eq}
use phira_mp.Common.Maps.{lookup}
use phira_mp.Bin.Data.{success, failure}
use phira_mp.Command.Types.{RoomId, room_id_eq, SResult, ServerCommand, ClientCommand}
use phira_mp.World.{World, Env, Key, returns, panics}
use phira_mp.L10n.{translate}
use phira_mp.Session.Handler.{localized, H, tl, text, err_to_str, answer}
use phira_mp.Session.Rooms.{create_room, join_room, find_room}
use phira_mp.Session.Guards.{bind_succeeds}
use phira_mp.Session.Process.{process}

module _ (env : Env) (u : ℕ) (w : World)
    (unbundled : lookup (w.user_at u).lang env.bundles.map ≡ none) where
  untold : (key : Key) → tl env (w.user_at u).lang key ≡ none
  unfolding tl translate
  untold key = rw (unbundled, translate) refl

  answer_panics :
      {A : Type 0} (reply : SResult A → ServerCommand) (m : H A) (key : Key)
      → m w ≡ returns (failure (localized key)) w
      → answer env u reply m w ≡ panics w
  unfolding answer err_to_str text
  answer_panics reply m key e = rw (e, answer) (rw (untold key, text, err_to_str) refl)

  there :
      (id : RoomId) (rm : ℕ) → lookup id w.rooms ≡ some rm → find_room id w ≡ returns (success rm) w
  unfolding find_room
  there id rm e = rw (e, find_room)

  -- A user in no room, whose language has no bundle, asks for a new room by an id that is taken, or
  -- to join a room that is locked. Then `process` panics, having changed nothing.
  pub process-panics :
      (id : RoomId) (monitor : Bool) (rm : ℕ)
      → (w.user_at u).room ≡ none
      → lookup id w.rooms ≡ some rm
      → (w.room_at rm).locked ≡ true
      → (process env u (ClientCommand.create_room id) w ≡ panics w)
        × (process env u (ClientCommand.join_room id monitor) w ≡ panics w)
  unfolding process create_room join_room
  process-panics id monitor rm homeless taken locked = (
    answer_panics ServerCommand.create_room (create_room u id) Key.create_id_occupied
        (rw (homeless, taken) refl),
    answer_panics ServerCommand.join_room (join_room u id monitor) Key.join_room_locked
        (rw homeless (bind_succeeds (find_room id) _ (there id rm taken) ∙ rw locked refl)),
  )
