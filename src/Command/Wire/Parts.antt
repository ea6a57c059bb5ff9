-- ===== src/Command/Wire/Parts.antt =====
-- command.rs: the structs and small enums on the wire, as the derive macro writes them. A struct is
-- its fields in order, an enum a byte for the variant and the variant's fields in order.
use phira_mp.Common.{ℕ, ◌==◌, if◌then◌else◌}
use phira_mp.Common.Eq.{int_eq}
use phira_mp.Bin.Reader.{invalid_enum, Read, ◌>>=◌, pure, bail, Write, ◌>>◌, done}
use phira_mp.Bin.Data.{
  BinaryData, ByteOrder, i8, u8, u16, u32, i32, f32, bool, string, pair, option, array, hash_map,
}
use phira_mp.Command.Types.{
  CompactPos, TouchFrame, Judgement, JudgeEvent, RoomState, UserInfo, ClientRoomState,
  JoinRoomResponse,
}
use phira_mp.Command.Wire.Basic.{room_id}

unfoldable pub read_judgement : ℕ → Read Judgement
read_judgement tag =
    if tag == 0
    then pure Judgement.perfect
    else if tag == 1
    then pure Judgement.good
    else if tag == 2
    then pure Judgement.bad
    else if tag == 3
    then pure Judgement.miss
    else if tag == 4
    then pure Judgement.hold_perfect
    else if tag == 5
    then pure Judgement.hold_good
    else bail (invalid_enum tag)

unfoldable pub write_judgement : Judgement → Write
write_judgement Judgement.perfect = u8.write_binary 0 >> done
write_judgement Judgement.good = u8.write_binary 1 >> done
write_judgement Judgement.bad = u8.write_binary 2 >> done
write_judgement Judgement.miss = u8.write_binary 3 >> done
write_judgement Judgement.hold_perfect = u8.write_binary 4 >> done
write_judgement Judgement.hold_good = u8.write_binary 5 >> done

unfoldable pub judgement_data : BinaryData Judgement
judgement_data = record {
  read_binary = (do tag ← u8.read_binary; read_judgement tag);
  write_binary = write_judgement;
}

module _ (le : ByteOrder) where
  unfoldable pub compact_pos : BinaryData CompactPos
  compact_pos = record {
    read_binary = (do
      x ← (u16 le).read_binary
      y ← (u16 le).read_binary
      pure (record { x = x; y = y }));
    write_binary = λ v. (u16 le).write_binary v.x >> ((u16 le).write_binary v.y >> done);
  }

  unfoldable pub touch_frame : BinaryData TouchFrame
  touch_frame = record {
    read_binary = (do
      time ← (f32 le).read_binary
      points ← (array (pair i8 compact_pos)).read_binary
      pure (record { time = time; points = points }));
    write_binary = λ v.
        (f32 le).write_binary v.time
        >> ((array (pair i8 compact_pos)).write_binary v.points >> done);
  }

  unfoldable pub judge_event : BinaryData JudgeEvent
  judge_event = record {
    read_binary = (do
      time ← (f32 le).read_binary
      line_id ← (u32 le).read_binary
      note_id ← (u32 le).read_binary
      judgement ← judgement_data.read_binary
      pure (record { time = time; line_id = line_id; note_id = note_id; judgement = judgement }));
    write_binary = λ v.
        (f32 le).write_binary v.time
        >> ((u32 le).write_binary v.line_id
            >> ((u32 le).write_binary v.note_id
                >> (judgement_data.write_binary v.judgement >> done)));
  }

  unfoldable pub read_room_state : ℕ → Read RoomState
  read_room_state tag =
      if tag == 0
      then (do id ← (option (i32 le)).read_binary; pure (RoomState.select_chart id))
      else if tag == 1
      then pure RoomState.waiting_for_ready
      else if tag == 2
      then pure RoomState.playing
      else bail (invalid_enum tag)

  unfoldable pub write_room_state : RoomState → Write
  write_room_state (RoomState.select_chart id) =
      u8.write_binary 0 >> ((option (i32 le)).write_binary id >> done)
  write_room_state RoomState.waiting_for_ready = u8.write_binary 1 >> done
  write_room_state RoomState.playing = u8.write_binary 2 >> done

  unfoldable pub room_state : BinaryData RoomState
  room_state = record {
    read_binary = (do tag ← u8.read_binary; read_room_state tag);
    write_binary = write_room_state;
  }

  unfoldable pub user_info : BinaryData UserInfo
  user_info = record {
    read_binary = (do
      id ← (i32 le).read_binary
      name ← string.read_binary
      monitor ← bool.read_binary
      pure (record { id = id; name = name; monitor = monitor }));
    write_binary = λ v.
        (i32 le).write_binary v.id
        >> (string.write_binary v.name >> (bool.write_binary v.monitor >> done));
  }

  unfoldable pub client_room_state : BinaryData ClientRoomState
  client_room_state = record {
    read_binary = (do
      id ← room_id.read_binary
      state ← room_state.read_binary
      live ← bool.read_binary
      locked ← bool.read_binary
      cycle ← bool.read_binary
      is_host ← bool.read_binary
      is_ready ← bool.read_binary
      users ← (hash_map (i32 le) user_info).read_binary
      pure (record {
        id = id;
        state = state;
        live = live;
        locked = locked;
        cycle = cycle;
        is_host = is_host;
        is_ready = is_ready;
        users = users;
      }));
    write_binary = λ v.
        room_id.write_binary v.id
        >> (room_state.write_binary v.state
            >> (bool.write_binary v.live
                >> (bool.write_binary v.locked
                    >> (bool.write_binary v.cycle
                        >> (bool.write_binary v.is_host
                            >> (bool.write_binary v.is_ready
                                >> ((hash_map (i32 le) user_info).write_binary v.users
                                    >> done)))))));
  }

  unfoldable pub join_room_response : BinaryData JoinRoomResponse
  join_room_response = record {
    read_binary = (do
      state ← room_state.read_binary
      users ← (array user_info).read_binary
      live ← bool.read_binary
      pure (record { state = state; users = users; live = live }));
    write_binary = λ v.
        room_state.write_binary v.state
        >> ((array user_info).write_binary v.users >> (bool.write_binary v.live >> done));
  }
