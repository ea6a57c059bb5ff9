-- ===== src/Command/Wire/Client.antt =====
-- command.rs: `ClientCommand` on the wire, as the derive macro writes it.
use phira_mp.Common.{ℕ, ◌==◌, if◌then◌else◌}
use phira_mp.Common.Eq.{int_eq}
use phira_mp.Bin.Reader.{invalid_enum, Read, ◌>>=◌, pure, bail, Write, ◌>>◌, done}
use phira_mp.Bin.Data.{BinaryData, ByteOrder, u8, i32, bool, array}
use phira_mp.Command.Types.{ClientCommand}
use phira_mp.Command.Wire.Basic.{varchar, room_id}
use phira_mp.Command.Wire.Parts.{touch_frame, judge_event}

module _ (le : ByteOrder) where
  unfoldable pub read_client_command : ℕ → Read ClientCommand
  read_client_command tag =
      if tag == 0
      then pure ClientCommand.ping
      else if tag == 1
      then (do token ← (varchar 32).read_binary; pure (ClientCommand.authenticate token))
      else if tag == 2
      then (do message ← (varchar 200).read_binary; pure (ClientCommand.chat message))
      else if tag == 3
      then (do frames ← (array (touch_frame le)).read_binary; pure (ClientCommand.touches frames))
      else if tag == 4
      then (do events ← (array (judge_event le)).read_binary; pure (ClientCommand.judges events))
      else if tag == 5
      then (do id ← room_id.read_binary; pure (ClientCommand.create_room id))
      else if tag == 6
      then (do
        id ← room_id.read_binary
        monitor ← bool.read_binary
        pure (ClientCommand.join_room id monitor))
      else if tag == 7
      then pure ClientCommand.leave_room
      else if tag == 8
      then (do lock ← bool.read_binary; pure (ClientCommand.lock_room lock))
      else if tag == 9
      then (do cycle ← bool.read_binary; pure (ClientCommand.cycle_room cycle))
      else if tag == 10
      then (do id ← (i32 le).read_binary; pure (ClientCommand.select_chart id))
      else if tag == 11
      then pure ClientCommand.request_start
      else if tag == 12
      then pure ClientCommand.ready
      else if tag == 13
      then pure ClientCommand.cancel_ready
      else if tag == 14
      then (do id ← (i32 le).read_binary; pure (ClientCommand.played id))
      else if tag == 15
      then pure ClientCommand.abort
      else bail (invalid_enum tag)

  unfoldable pub write_client_command : ClientCommand → Write
  write_client_command ClientCommand.ping = u8.write_binary 0 >> done
  write_client_command (ClientCommand.authenticate token) =
      u8.write_binary 1 >> ((varchar 32).write_binary token >> done)
  write_client_command (ClientCommand.chat message) =
      u8.write_binary 2 >> ((varchar 200).write_binary message >> done)
  write_client_command (ClientCommand.touches frames) =
      u8.write_binary 3 >> ((array (touch_frame le)).write_binary frames >> done)
  write_client_command (ClientCommand.judges events) =
      u8.write_binary 4 >> ((array (judge_event le)).write_binary events >> done)
  write_client_command (ClientCommand.create_room id) =
      u8.write_binary 5 >> (room_id.write_binary id >> done)
  write_client_command (ClientCommand.join_room id monitor) =
      u8.write_binary 6 >> (room_id.write_binary id >> (bool.write_binary monitor >> done))
  write_client_command ClientCommand.leave_room = u8.write_binary 7 >> done
  write_client_command (ClientCommand.lock_room lock) =
      u8.write_binary 8 >> (bool.write_binary lock >> done)
  write_client_command (ClientCommand.cycle_room cycle) =
      u8.write_binary 9 >> (bool.write_binary cycle >> done)
  write_client_command (ClientCommand.select_chart id) =
      u8.write_binary 10 >> ((i32 le).write_binary id >> done)
  write_client_command ClientCommand.request_start = u8.write_binary 11 >> done
  write_client_command ClientCommand.ready = u8.write_binary 12 >> done
  write_client_command ClientCommand.cancel_ready = u8.write_binary 13 >> done
  write_client_command (ClientCommand.played id) =
      u8.write_binary 14 >> ((i32 le).write_binary id >> done)
  write_client_command ClientCommand.abort = u8.write_binary 15 >> done

  unfoldable pub client_command : BinaryData ClientCommand
  client_command = record {
    read_binary = (do tag ← u8.read_binary; read_client_command tag);
    write_binary = write_client_command;
  }
