-- ===== src/Command/Laws/Parts.antt =====
-- The structs and small enums of command.rs are read back as they were written.
use phira_mp.Common.{List, [], ◌∷◌, All}
use phira_mp.Common.Int.{ℤ}
use phira_mp.Common.Eq.{int_eq}
use phira_mp.Bin.Faithful.{Faithful-pure, Faithful-bind}
use phira_mp.Bin.Data.{ByteOrder, IsLittleEndian, i8, i32, pair}
use phira_mp.Bin.Laws.{
  Sound, u8-Sound, i8-Sound, u16-Sound, u32-Sound, i32-Sound, f32-Sound, bool-Sound, pair-Sound,
}
use phira_mp.Bin.MapLaws.{hash_map-Sound}
use phira_mp.Command.Types.{
  CompactPos, TouchFrame, Judgement, JudgeEvent, RoomState, UserInfo, ClientRoomState,
  JoinRoomResponse,
}
use phira_mp.Command.Wire.Parts.{
  judgement_data, read_judgement, write_judgement, compact_pos, touch_frame, judge_event,
  room_state, read_room_state, write_room_state, user_info, client_room_state, join_room_response,
}
use phira_mp.Command.Valid.{
  IsI32, IsCompactPos, IsPoint, IsTouchFrame, IsJudgeEvent, IsRoomState, IsUserInfo,
  IsClientRoomState, IsJoinRoomResponse,
}
use phira_mp.Command.Laws.Basic.{text-Sound, room_id-Sound, vec-Sound, option-Sound}

pub judgement-Sound : (j : Judgement) → Sound judgement_data j
unfolding judgement_data read_judgement write_judgement
judgement-Sound Judgement.perfect = record {
  faithful = Faithful-bind read_judgement (u8-Sound 0).faithful (Faithful-pure _);
}
judgement-Sound Judgement.good = record {
  faithful = Faithful-bind read_judgement (u8-Sound 1).faithful (Faithful-pure _);
}
judgement-Sound Judgement.bad = record {
  faithful = Faithful-bind read_judgement (u8-Sound 2).faithful (Faithful-pure _);
}
judgement-Sound Judgement.miss = record {
  faithful = Faithful-bind read_judgement (u8-Sound 3).faithful (Faithful-pure _);
}
judgement-Sound Judgement.hold_perfect = record {
  faithful = Faithful-bind read_judgement (u8-Sound 4).faithful (Faithful-pure _);
}
judgement-Sound Judgement.hold_good = record {
  faithful = Faithful-bind read_judgement (u8-Sound 5).faithful (Faithful-pure _);
}

module _ {le : ByteOrder} (laws : IsLittleEndian le) where
  pub compact_pos-Sound : (p : CompactPos) → IsCompactPos p → Sound (compact_pos le) p
  unfolding compact_pos
  compact_pos-Sound p h = record {
    faithful =
        Faithful-bind _ (u16-Sound laws p.x h.0).faithful
          (Faithful-bind _ (u16-Sound laws p.y h.1).faithful (Faithful-pure _));
  }

  point-Sound : (p : ℤ × CompactPos) → IsPoint p → Sound (pair i8 (compact_pos le)) p
  point-Sound p h = pair-Sound (i8-Sound p.0 h.0) (compact_pos-Sound p.1 h.1)

  pub touch_frame-Sound : (f : TouchFrame) → IsTouchFrame f → Sound (touch_frame le) f
  unfolding touch_frame
  touch_frame-Sound f h = record {
    faithful = Faithful-bind _ (f32-Sound laws f.time h.0).faithful (
        Faithful-bind _ (vec-Sound (pair i8 (compact_pos le)) point-Sound f.points h.1).faithful
          (Faithful-pure _));
  }

  pub judge_event-Sound : (e : JudgeEvent) → IsJudgeEvent e → Sound (judge_event le) e
  unfolding judge_event
  judge_event-Sound e h = record {
    faithful = Faithful-bind _ (f32-Sound laws e.time h.0).faithful (
        Faithful-bind _ (u32-Sound laws e.line_id h.1).faithful (
          Faithful-bind _ (u32-Sound laws e.note_id h.2).faithful
            (Faithful-bind _ (judgement-Sound e.judgement).faithful (Faithful-pure _))));
  }

  pub room_state-Sound : (c : RoomState) → IsRoomState c → Sound (room_state le) c
  unfolding room_state read_room_state write_room_state
  room_state-Sound (RoomState.select_chart chart) h = record {
    faithful = Faithful-bind (read_room_state le) (u8-Sound 0).faithful (
        Faithful-bind _ (option-Sound (i32 le) (i32-Sound laws) chart h).faithful
          (Faithful-pure _));
  }
  room_state-Sound RoomState.waiting_for_ready h = record {
    faithful = Faithful-bind (read_room_state le) (u8-Sound 1).faithful (Faithful-pure _);
  }
  room_state-Sound RoomState.playing h = record {
    faithful = Faithful-bind (read_room_state le) (u8-Sound 2).faithful (Faithful-pure _);
  }

  pub user_info-Sound : (u : UserInfo) → IsUserInfo u → Sound (user_info le) u
  unfolding user_info
  user_info-Sound u h = record {
    faithful = Faithful-bind _ (i32-Sound laws u.id h.0).faithful (
        Faithful-bind _ (text-Sound u.name h.1).faithful
          (Faithful-bind _ (bool-Sound u.monitor).faithful (Faithful-pure _)));
  }

  entries-Sound :
      (m : List (ℤ × UserInfo))
      → All (λ e. IsI32 e.0 × IsUserInfo e.1) m
      → All (λ e. Sound (i32 le) e.0 × Sound (user_info le) e.1) m
  entries-Sound [] h = tt
  entries-Sound ((id, u) ∷ m) h =
      ((i32-Sound laws id (h.0).0, user_info-Sound u (h.0).1), entries-Sound m h.1)

  pub client_room_state-Sound :
      (s : ClientRoomState) → IsClientRoomState s → Sound (client_room_state le) s
  unfolding client_room_state
  client_room_state-Sound s h = record {
    faithful = Faithful-bind _ (room_id-Sound s.id h.0).faithful (
        Faithful-bind _ (room_state-Sound s.state h.1).faithful (
          Faithful-bind _ (bool-Sound s.live).faithful (
            Faithful-bind _ (bool-Sound s.locked).faithful (
              Faithful-bind _ (bool-Sound s.cycle).faithful (
                Faithful-bind _ (bool-Sound s.is_host).faithful (
                  Faithful-bind _ (bool-Sound s.is_ready).faithful (
                    Faithful-bind _
                      (hash_map-Sound (i32 le) (user_info le) s.users h.2 h.3
                        (entries-Sound s.users h.4)).faithful
                      (Faithful-pure _))))))));
  }

  pub join_room_response-Sound :
      (r : JoinRoomResponse) → IsJoinRoomResponse r → Sound (join_room_response le) r
  unfolding join_room_response
  join_room_response-Sound r h = record {
    faithful = Faithful-bind _ (room_state-Sound r.state h.0).faithful (
        Faithful-bind _ (vec-Sound (user_info le) user_info-Sound r.users h.1).faithful
          (Faithful-bind _ (bool-Sound r.live).faithful (Faithful-pure _)));
  }
