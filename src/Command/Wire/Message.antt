-- ===== src/Command/Wire/Message.antt =====
-- command.rs: `Message` on the wire, as the derive macro writes it.
use phira_mp.Common.{ℕ, ◌==◌, if◌then◌else◌}
use phira_mp.Common.Eq.{int_eq}
use phira_mp.Bin.Reader.{invalid_enum, Read, ◌>>=◌, pure, bail, Write, ◌>>◌, done}
use phira_mp.Bin.Data.{BinaryData, ByteOrder, u8, i32, f32, bool, string}
use phira_mp.Command.Types.{Message}

module _ (le : ByteOrder) where
  unfoldable pub read_message : ℕ → Read Message
  read_message tag =
      if tag == 0
      then (do
        user ← (i32 le).read_binary
        content ← string.read_binary
        pure (Message.chat user content))
      else if tag == 1
      then (do user ← (i32 le).read_binary; pure (Message.create_room user))
      else if tag == 2
      then (do
        user ← (i32 le).read_binary
        name ← string.read_binary
        pure (Message.join_room user name))
      else if tag == 3
      then (do
        user ← (i32 le).read_binary
        name ← string.read_binary
        pure (Message.leave_room user name))
      else if tag == 4
      then (do user ← (i32 le).read_binary; pure (Message.new_host user))
      else if tag == 5
      then (do
        user ← (i32 le).read_binary
        name ← string.read_binary
        id ← (i32 le).read_binary
        pure (Message.select_chart user name id))
      else if tag == 6
      then (do user ← (i32 le).read_binary; pure (Message.game_start user))
      else if tag == 7
      then (do user ← (i32 le).read_binary; pure (Message.ready user))
      else if tag == 8
      then (do user ← (i32 le).read_binary; pure (Message.cancel_ready user))
      else if tag == 9
      then (do user ← (i32 le).read_binary; pure (Message.cancel_game user))
      else if tag == 10
      then pure Message.start_playing
      else if tag == 11
      then (do
        user ← (i32 le).read_binary
        score ← (i32 le).read_binary
        accuracy ← (f32 le).read_binary
        full_combo ← bool.read_binary
        pure (Message.played user score accuracy full_combo))
      else if tag == 12
      then pure Message.game_end
      else if tag == 13
      then (do user ← (i32 le).read_binary; pure (Message.abort user))
      else if tag == 14
      then (do lock ← bool.read_binary; pure (Message.lock_room lock))
      else if tag == 15
      then (do cycle ← bool.read_binary; pure (Message.cycle_room cycle))
      else bail (invalid_enum tag)

  unfoldable pub write_message : Message → Write
  write_message (Message.chat user content) =
      u8.write_binary 0 >> ((i32 le).write_binary user >> (string.write_binary content >> done))
  write_message (Message.create_room user) =
      u8.write_binary 1 >> ((i32 le).write_binary user >> done)
  write_message (Message.join_room user name) =
      u8.write_binary 2 >> ((i32 le).write_binary user >> (string.write_binary name >> done))
  write_message (Message.leave_room user name) =
      u8.write_binary 3 >> ((i32 le).write_binary user >> (string.write_binary name >> done))
  write_message (Message.new_host user) = u8.write_binary 4 >> ((i32 le).write_binary user >> done)
  write_message (Message.select_chart user name id) =
      u8.write_binary 5
      >> ((i32 le).write_binary user
          >> (string.write_binary name >> ((i32 le).write_binary id >> done)))
  write_message (Message.game_start user) =
      u8.write_binary 6 >> ((i32 le).write_binary user >> done)
  write_message (Message.ready user) = u8.write_binary 7 >> ((i32 le).write_binary user >> done)
  write_message (Message.cancel_ready user) =
      u8.write_binary 8 >> ((i32 le).write_binary user >> done)
  write_message (Message.cancel_game user) =
      u8.write_binary 9 >> ((i32 le).write_binary user >> done)
  write_message Message.start_playing = u8.write_binary 10 >> done
  write_message (Message.played user score accuracy full_combo) =
      u8.write_binary 11
      >> ((i32 le).write_binary user
          >> ((i32 le).write_binary score
              >> ((f32 le).write_binary accuracy >> (bool.write_binary full_combo >> done))))
  write_message Message.game_end = u8.write_binary 12 >> done
  write_message (Message.abort user) = u8.write_binary 13 >> ((i32 le).write_binary user >> done)
  write_message (Message.lock_room lock) = u8.write_binary 14 >> (bool.write_binary lock >> done)
  write_message (Message.cycle_room cycle) = u8.write_binary 15 >> (bool.write_binary cycle >> done)

  unfoldable pub message_data : BinaryData Message
  message_data = record {
    read_binary = (do tag ← u8.read_binary; read_message tag);
    write_binary = write_message;
  }
