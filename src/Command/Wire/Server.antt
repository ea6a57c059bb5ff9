-- ===== src/Command/Wire/Server.antt =====
-- command.rs: `ServerCommand` on the wire, as the derive macro writes it.
use phira_mp.Common.{ℕ, ◌==◌, if◌then◌else◌}
use phira_mp.Common.Eq.{int_eq}
use phira_mp.Bin.Reader.{invalid_enum, Read, ◌>>=◌, pure, bail, Write, ◌>>◌, done}
use phira_mp.Bin.Data.{BinaryData, ByteOrder, unit, u8, i32, bool, pair, option, array}
use phira_mp.Command.Types.{ServerCommand}
use phira_mp.Command.Wire.Basic.{sresult}
use phira_mp.Command.Wire.Parts.{
  touch_frame, judge_event, user_info, room_state, client_room_state, join_room_response,
}
use phira_mp.Command.Wire.Message.{message_data}

module _ (le : ByteOrder) where
  unfoldable pub read_server_command : ℕ → Read ServerCommand
  read_server_command tag =
      if tag == 0
      then pure ServerCommand.pong
      else if tag == 1
      then (do
        res ← (sresult (pair (user_info le) (option (client_room_state le)))).read_binary
        pure (ServerCommand.authenticate res))
      else if tag == 2
      then (do res ← (sresult unit).read_binary; pure (ServerCommand.chat res))
      else if tag == 3
      then (do
        player ← (i32 le).read_binary
        frames ← (array (touch_frame le)).read_binary
        pure (ServerCommand.touches player frames))
      else if tag == 4
      then (do
        player ← (i32 le).read_binary
        events ← (array (judge_event le)).read_binary
        pure (ServerCommand.judges player events))
      else if tag == 5
      then (do msg ← (message_data le).read_binary; pure (ServerCommand.message msg))
      else if tag == 6
      then (do state ← (room_state le).read_binary; pure (ServerCommand.change_state state))
      else if tag == 7
      then (do is_host ← bool.read_binary; pure (ServerCommand.change_host is_host))
      else if tag == 8
      then (do res ← (sresult unit).read_binary; pure (ServerCommand.create_room res))
      else if tag == 9
      then (do
        res ← (sresult (join_room_response le)).read_binary
        pure (ServerCommand.join_room res))
      else if tag == 10
      then (do user ← (user_info le).read_binary; pure (ServerCommand.on_join_room user))
      else if tag == 11
      then (do res ← (sresult unit).read_binary; pure (ServerCommand.leave_room res))
      else if tag == 12
      then (do res ← (sresult unit).read_binary; pure (ServerCommand.lock_room res))
      else if tag == 13
      then (do res ← (sresult unit).read_binary; pure (ServerCommand.cycle_room res))
      else if tag == 14
      then (do res ← (sresult unit).read_binary; pure (ServerCommand.select_chart res))
      else if tag == 15
      then (do res ← (sresult unit).read_binary; pure (ServerCommand.request_start res))
      else if tag == 16
      then (do res ← (sresult unit).read_binary; pure (ServerCommand.ready res))
      else if tag == 17
      then (do res ← (sresult unit).read_binary; pure (ServerCommand.cancel_ready res))
      else if tag == 18
      then (do res ← (sresult unit).read_binary; pure (ServerCommand.played res))
      else if tag == 19
      then (do res ← (sresult unit).read_binary; pure (ServerCommand.abort res))
      else bail (invalid_enum tag)

  unfoldable pub write_server_command : ServerCommand → Write
  write_server_command ServerCommand.pong = u8.write_binary 0 >> done
  write_server_command (ServerCommand.authenticate res) =
      u8.write_binary 1
      >> ((sresult (pair (user_info le) (option (client_room_state le)))).write_binary res >> done)
  write_server_command (ServerCommand.chat res) =
      u8.write_binary 2 >> ((sresult unit).write_binary res >> done)
  write_server_command (ServerCommand.touches player frames) =
      u8.write_binary 3
      >> ((i32 le).write_binary player >> ((array (touch_frame le)).write_binary frames >> done))
  write_server_command (ServerCommand.judges player events) =
      u8.write_binary 4
      >> ((i32 le).write_binary player >> ((array (judge_event le)).write_binary events >> done))
  write_server_command (ServerCommand.message msg) =
      u8.write_binary 5 >> ((message_data le).write_binary msg >> done)
  write_server_command (ServerCommand.change_state state) =
      u8.write_binary 6 >> ((room_state le).write_binary state >> done)
  write_server_command (ServerCommand.change_host is_host) =
      u8.write_binary 7 >> (bool.write_binary is_host >> done)
  write_server_command (ServerCommand.create_room res) =
      u8.write_binary 8 >> ((sresult unit).write_binary res >> done)
  write_server_command (ServerCommand.join_room res) =
      u8.write_binary 9 >> ((sresult (join_room_response le)).write_binary res >> done)
  write_server_command (ServerCommand.on_join_room user) =
      u8.write_binary 10 >> ((user_info le).write_binary user >> done)
  write_server_command (ServerCommand.leave_room res) =
      u8.write_binary 11 >> ((sresult unit).write_binary res >> done)
  write_server_command (ServerCommand.lock_room res) =
      u8.write_binary 12 >> ((sresult unit).write_binary res >> done)
  write_server_command (ServerCommand.cycle_room res) =
      u8.write_binary 13 >> ((sresult unit).write_binary res >> done)
  write_server_command (ServerCommand.select_chart res) =
      u8.write_binary 14 >> ((sresult unit).write_binary res >> done)
  write_server_command (ServerCommand.request_start res) =
      u8.write_binary 15 >> ((sresult unit).write_binary res >> done)
  write_server_command (ServerCommand.ready res) =
      u8.write_binary 16 >> ((sresult unit).write_binary res >> done)
  write_server_command (ServerCommand.cancel_ready res) =
      u8.write_binary 17 >> ((sresult unit).write_binary res >> done)
  write_server_command (ServerCommand.played res) =
      u8.write_binary 18 >> ((sresult unit).write_binary res >> done)
  write_server_command (ServerCommand.abort res) =
      u8.write_binary 19 >> ((sresult unit).write_binary res >> done)

  unfoldable pub server_command : BinaryData ServerCommand
  server_command = record {
    read_binary = (do tag ← u8.read_binary; read_server_command tag);
    write_binary = write_server_command;
  }
