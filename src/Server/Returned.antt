-- ===== src/Server/Returned.antt =====
-- What the tasks that `dangle` has spawned do to a user that came back.
use phira_mp.Common.{ℕ, ◌≡◌, true, false, some, ltb, length}
use phira_mp.Common.Eq.{int_eq}
use phira_mp.Common.Maps.{lookup}
use phira_mp.Bin.Reader.{Bytes}
use phira_mp.Bin.Data.{success}
use phira_mp.Command.Types.{ClientCommand}
use phira_mp.Server.{Me, Services, Server}
use phira_mp.Server.Authenticate.{receive}
use phira_mp.Server.Outdated.{Outdated}

module _ (services : Services) (s : ℕ) (token : Bytes) (short : ltb 32 (length token) ≡ false)
    (sv : Server) (me : Me) (u : ℕ) (known : services.fetch_me token ≡ success me)
    (listed : lookup me.id sv.world.users ≡ some u) (p : (sv.conn_at s).panicked ≡ false)
    (t : (sv.conn_at s).tx ≡ true) (waits : (sv.conn_at s).waiting_for_authenticate ≡ true) where
  abbrev returned : Server
  returned = receive services s (ClientCommand.authenticate (record { into_inner = token })) sv
