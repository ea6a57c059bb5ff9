-- ===== src/Command/Laws/Server.antt =====
-- `ServerCommand` is read back as it was written.
use phira_mp.Common.{Option}
use phira_mp.Common.Eq.{int_eq}
use phira_mp.Bin.Faithful.{Faithful-pure, Faithful-bind}
use phira_mp.Bin.Data.{ByteOrder, IsLittleEndian, unit, pair, option}
use phira_mp.Bin.Laws.{Sound, unit-Sound, u8-Sound, i32-Sound, bool-Sound, pair-Sound}
use phira_mp.Command.Types.{UserInfo, ClientRoomState, ServerCommand}
use phira_mp.Command.Wire.Parts.{
  touch_frame, judge_event, user_info, client_room_state, join_room_response,
}
use phira_mp.Command.Valid.{IsOption, IsUserInfo, IsClientRoomState, IsServerCommand}
use phira_mp.Command.Wire.Server.{server_command, read_server_command, write_server_command}
use phira_mp.Command.Laws.Basic.{vec-Sound, option-Sound, sresult-Sound}
use phira_mp.Command.Laws.Parts.{
  touch_frame-Sound, judge_event-Sound, room_state-Sound, user_info-Sound, client_room_state-Sound,
  join_room_response-Sound,
}
use phira_mp.Command.Laws.Message.{message_data-Sound}

done-Sound : (a : Unit {0}) → Unit {0} → Sound unit a
done-Sound tt h = unit-Sound

module _ {le : ByteOrder} (laws : IsLittleEndian le) where
  me-Sound :
      (p : UserInfo × Option ClientRoomState)
      → IsUserInfo p.0 × IsOption IsClientRoomState p.1
      → Sound (pair (user_info le) (option (client_room_state le))) p
  me-Sound p h =
      pair-Sound (user_info-Sound laws p.0 h.0)
        (option-Sound (client_room_state le) (client_room_state-Sound laws) p.1 h.1)

  pub server_command-Sound : (c : ServerCommand) → IsServerCommand c → Sound (server_command le) c
  unfolding server_command read_server_command write_server_command
  server_command-Sound ServerCommand.pong h = record {
    faithful = Faithful-bind (read_server_command le) (u8-Sound 0).faithful (Faithful-pure _);
  }
  server_command-Sound (ServerCommand.authenticate res) h = record {
    faithful = Faithful-bind (read_server_command le) (u8-Sound 1).faithful (
        Faithful-bind _
          (sresult-Sound (pair (user_info le) (option (client_room_state le))) me-Sound res
            h).faithful
          (Faithful-pure _));
  }
  server_command-Sound (ServerCommand.chat res) h = record {
    faithful =
        Faithful-bind (read_server_command le) (u8-Sound 2).faithful
          (Faithful-bind _ (sresult-Sound unit done-Sound res h).faithful (Faithful-pure _));
  }
  server_command-Sound (ServerCommand.touches player frames) h = record {
    faithful = Faithful-bind (read_server_command le) (u8-Sound 3).faithful (
        Faithful-bind _ (i32-Sound laws player h.0).faithful (
          Faithful-bind _ (vec-Sound (touch_frame le) (touch_frame-Sound laws) frames h.1).faithful
            (Faithful-pure _)));
  }
  server_command-Sound (ServerCommand.judges player events) h = record {
    faithful = Faithful-bind (read_server_command le) (u8-Sound 4).faithful (
        Faithful-bind _ (i32-Sound laws player h.0).faithful (
          Faithful-bind _ (vec-Sound (judge_event le) (judge_event-Sound laws) events h.1).faithful
            (Faithful-pure _)));
  }
  server_command-Sound (ServerCommand.message msg) h = record {
    faithful =
        Faithful-bind (read_server_command le) (u8-Sound 5).faithful
          (Faithful-bind _ (message_data-Sound laws msg h).faithful (Faithful-pure _));
  }
  server_command-Sound (ServerCommand.change_state state) h = record {
    faithful =
        Faithful-bind (read_server_command le) (u8-Sound 6).faithful
          (Faithful-bind _ (room_state-Sound laws state h).faithful (Faithful-pure _));
  }
  server_command-Sound (ServerCommand.change_host is_host) h = record {
    faithful =
        Faithful-bind (read_server_command le) (u8-Sound 7).faithful
          (Faithful-bind _ (bool-Sound is_host).faithful (Faithful-pure _));
  }
  server_command-Sound (ServerCommand.create_room res) h = record {
    faithful =
        Faithful-bind (read_server_command le) (u8-Sound 8).faithful
          (Faithful-bind _ (sresult-Sound unit done-Sound res h).faithful (Faithful-pure _));
  }
  server_command-Sound (ServerCommand.join_room res) h = record {
    faithful = Faithful-bind (read_server_command le) (u8-Sound 9).faithful (
        Faithful-bind _
          (sresult-Sound (join_room_response le) (join_room_response-Sound laws) res h).faithful
          (Faithful-pure _));
  }
  server_command-Sound (ServerCommand.on_join_room user) h = record {
    faithful =
        Faithful-bind (read_server_command le) (u8-Sound 10).faithful
          (Faithful-bind _ (user_info-Sound laws user h).faithful (Faithful-pure _));
  }
  server_command-Sound (ServerCommand.leave_room res) h = record {
    faithful =
        Faithful-bind (read_server_command le) (u8-Sound 11).faithful
          (Faithful-bind _ (sresult-Sound unit done-Sound res h).faithful (Faithful-pure _));
  }
  server_command-Sound (ServerCommand.lock_room res) h = record {
    faithful =
        Faithful-bind (read_server_command le) (u8-Sound 12).faithful
          (Faithful-bind _ (sresult-Sound unit done-Sound res h).faithful (Faithful-pure _));
  }
  server_command-Sound (ServerCommand.cycle_room res) h = record {
    faithful =
        Faithful-bind (read_server_command le) (u8-Sound 13).faithful
          (Faithful-bind _ (sresult-Sound unit done-Sound res h).faithful (Faithful-pure _));
  }
  server_command-Sound (ServerCommand.select_chart res) h = record {
    faithful =
        Faithful-bind (read_server_command le) (u8-Sound 14).faithful
          (Faithful-bind _ (sresult-Sound unit done-Sound res h).faithful (Faithful-pure _));
  }
  server_command-Sound (ServerCommand.request_start res) h = record {
    faithful =
        Faithful-bind (read_server_command le) (u8-Sound 15).faithful
          (Faithful-bind _ (sresult-Sound unit done-Sound res h).faithful (Faithful-pure _));
  }
  server_command-Sound (ServerCommand.ready res) h = record {
    faithful =
        Faithful-bind (read_server_command le) (u8-Sound 16).faithful
          (Faithful-bind _ (sresult-Sound unit done-Sound res h).faithful (Faithful-pure _));
  }
  server_command-Sound (ServerCommand.cancel_ready res) h = record {
    faithful =
        Faithful-bind (read_server_command le) (u8-Sound 17).faithful
          (Faithful-bind _ (sresult-Sound unit done-Sound res h).faithful (Faithful-pure _));
  }
  server_command-Sound (ServerCommand.played res) h = record {
    faithful =
        Faithful-bind (read_server_command le) (u8-Sound 18).faithful
          (Faithful-bind _ (sresult-Sound unit done-Sound res h).faithful (Faithful-pure _));
  }
  server_command-Sound (ServerCommand.abort res) h = record {
    faithful =
        Faithful-bind (read_server_command le) (u8-Sound 19).faithful
          (Faithful-bind _ (sresult-Sound unit done-Sound res h).faithful (Faithful-pure _));
  }
