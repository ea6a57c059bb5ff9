-- ===== src/Server/Reconnect.antt =====
-- A user that comes back by another connection.
use phira_mp.Common.{ℕ, ◌≡◌, true, false, none, some, List, ◌∷◌, [], ◌++◌, ltb, length, ◌==◌}
use phira_mp.Common.Eq.{int_eq}
use phira_mp.Bin.Reader.{Bytes}
use phira_mp.Bin.Data.{success}
use phira_mp.Command.Types.{ClientCommand, ServerCommand}
use phira_mp.World.{World}
use phira_mp.Room.{to_info, users}
use phira_mp.Server.{Me, Services, Server, update_conn}
use phira_mp.Server.Authenticate.{room_of, admit, authenticate, before_authenticate, receive}

-- A user that is in the map of users is back by the connection `s`: the maps, the rooms and the
-- other users are what they were; the user has its session and no mark, and is as it was in all
-- else; and the last reply tells it who it is and which room it is in.
pub record IsBack (s u : ℕ) (w : World) (listed : List ℕ) (sv' : Server) : Type 0 where
  pub users : sv'.world.users ≡ w.users
  pub rooms : sv'.world.rooms ≡ w.rooms
  pub room_at : sv'.world.room_at ≡ w.room_at
  pub others : (v : ℕ) → (v == u) ≡ false → sv'.world.user_at v ≡ w.user_at v
  pub self : sv'.world.user_at u ≡ record (w.user_at u) { session = some s; dangle_mark = none }
  pub sessions : sv'.sessions ≡ s ∷ listed
  pub accepting : sv'.accepting ≡ none
  pub conn_user : (sv'.conn_at s).user ≡ some u
  pub waits : (sv'.conn_at s).waiting_for_authenticate ≡ false
  pub told :
      sv'.world.outbox
      ≡ w.outbox
        ++ ((s, ServerCommand.authenticate (success (to_info (w.user_at u), room_of sv'.world u)))
            ∷ [])

module _ (services : Services) (s : ℕ) where
  module _ (token : Bytes) (short : ltb 32 (length token) ≡ false) (sv : Server) where
    pub receive-accepted :
        (me : Me)
        → services.fetch_me token ≡ success me
        → (sv.conn_at s).panicked ≡ false
        → (sv.conn_at s).tx ≡ true
        → (sv.conn_at s).waiting_for_authenticate ≡ true
        → receive services s (ClientCommand.authenticate (record { into_inner = token })) sv
          ≡ admit services s me
              (update_conn s (λ d. record d { last_recv = sv.clock; tx = false }) sv)
    unfolding receive before_authenticate authenticate
    receive-accepted me known p t waits = rw (p, t, waits, short, known, authenticate)
