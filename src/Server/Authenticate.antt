-- ===== src/Server/Authenticate.antt =====
-- The callback of `Session::new`: what a connection does with a packet.
use phira_mp.Common.{
  ℕ, ◌+◌, Bool, true, false, Option, none, some, [], ◌∷◌, ◌++◌, length, ltb, if◌then◌else◌,
}
use mathlib.Core.Option
use phira_mp.Common.Int.{ℤ}
use phira_mp.Common.Eq.{int_eq}
use phira_mp.Common.Maps.{lookup, insert}
use phira_mp.Bin.Reader.{Bytes}
use phira_mp.Bin.Data.{success, failure}
use phira_mp.Command.Types.{ClientRoomState, ClientCommand, ServerCommand}
use phira_mp.World.{User, World, set_user, returns, panics}
use phira_mp.Room.{to_info, client_state}
use phira_mp.Session.Handler.{codes}
use phira_mp.Session.Process.{process}
use phira_mp.Server.{Me, Services, Server, update_conn, set_world, push_out, reply, reject}

-- `User::new`
unfoldable pub new_user : ℤ → Bytes → ℕ → User
new_user id name lang = record {
  id = id;
  name = name;
  lang = lang;
  session = none;
  room = none;
  monitor = false;
  game_time = 0;
  dangle_mark = none;
}

-- `User::set_session`
unfoldable pub set_session : ℕ → ℕ → World → World
set_session u s w = set_user u (record (w.user_at u) { session = some s; dangle_mark = none }) w

-- The user of a token: the one in the map, or a new one, which is entered after its session is set.
unfoldable pub find_user : Services → Me → ℕ → World → ℕ × World
unfolding new_user set_session
find_user services me s w = elim (lookup me.id w.users) [
  | some u ↦ (u, set_session u s w)
  | none ↦
      let u = w.fresh in
      let user = new_user me.id me.name (services.parse_language me.language) in
      let w1 = set_session u s (set_user u user (record w { fresh = u + 1 })) in
      (u, record w1 { users = insert me.id u w1.users })
]

-- The room that the user is told to be in.
unfoldable pub room_of : World → ℕ → Option ClientRoomState
room_of w u = Option.map (λ rm. client_state w rm u) (w.user_at u).room

-- The user is found; `Session::new` goes on and `accept` enters the session; the user is told.
unfoldable pub admit : Services → ℕ → Me → Server → Server
unfolding find_user room_of
admit services s me sv =
    let (u, w) = find_user services me s sv.world in
    let told = ServerCommand.authenticate (success (to_info (w.user_at u), room_of w u)) in
    update_conn s (λ c. record c { tx = false; user = some u; waiting_for_authenticate = false })
      (reply s told (record sv { world = w; sessions = s ∷ sv.sessions; accepting = none }))

-- A failed authentication: the client is told, and the connection is given up.
unfoldable pub refuse : ℕ → Bytes → Server → Server
refuse s text sv =
    let told = reply s (ServerCommand.authenticate (failure text)) sv in
    let marked = update_conn s (λ c. record c { panicked = true }) told in
    reject s (record marked { lost_con = marked.lost_con ++ (s ∷ []) })

unfoldable pub authenticate : Services → ℕ → Bytes → Server → Server
unfolding admit refuse
authenticate services s token sv =
    if ltb 32 (length token)
    then refuse s (codes "invalid token") sv
    else elim (services.fetch_me token) [
      | failure e ↦ refuse s (codes "failed to fetch info") sv
      | success me ↦ admit services s me sv
    ]

-- A packet that is not for `process`: where the callback had the sender, it is dropped.
abbrev pub drop_tx : Bool → ℕ → Server → Server
drop_tx had s sv = if had then reject s sv else sv

abbrev pub is_ping : ClientCommand → Bool
is_ping ClientCommand.ping = true
is_ping _ = false

-- While waiting for authentication.
unfoldable pub before_authenticate : Services → ℕ → Bool → ClientCommand → Server → Server
unfolding authenticate
before_authenticate services s had (ClientCommand.authenticate token) sv =
    if had then authenticate services s token.into_inner sv else sv
before_authenticate services s had _ sv = drop_tx had s sv

-- A panic in `process` ends the receive task.
unfoldable pub run_process : Services → ℕ → ℕ → ClientCommand → Server → Server
run_process services s u cmd sv = elim (process services.env u cmd sv.world) [
  | returns resp w ↦ elim resp [ none ↦ set_world w sv | some r ↦ set_world (push_out s r w) sv ]
  | panics w ↦ update_conn s (λ c. record c { receiving = false }) (set_world w sv)
]

-- After authentication; `this.get().unwrap()` cannot fail there.
unfoldable pub after_authenticate : Services → ℕ → ClientCommand → Server → Server
unfolding run_process
after_authenticate services s cmd sv = elim (sv.conn_at s).user [
  | none ↦ update_conn s (λ c. record c { receiving = false }) sv
  | some u ↦ run_process services s u cmd sv
]

-- The callback takes the sender with each packet.
unfoldable pub receive : Services → ℕ → ClientCommand → Server → Server
unfolding before_authenticate after_authenticate
receive services s cmd sv =
    let c = sv.conn_at s in
    let taken = update_conn s (λ d. record d { last_recv = sv.clock; tx = false }) sv in
    if c.panicked
    then drop_tx c.tx s taken
    else if is_ping cmd
    then drop_tx c.tx s (reply s ServerCommand.pong taken)
    else if c.waiting_for_authenticate
    then before_authenticate services s c.tx cmd taken
    else after_authenticate services s cmd taken
