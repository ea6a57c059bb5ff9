-- ===== src/Command/Laws/Client.antt =====
-- `ClientCommand` is read back as it was written.
use phira_mp.Common.Eq.{int_eq}
use phira_mp.Bin.Faithful.{Faithful-pure, Faithful-bind}
use phira_mp.Bin.Data.{ByteOrder, IsLittleEndian}
use phira_mp.Bin.Laws.{Sound, u8-Sound, i32-Sound, bool-Sound}
use phira_mp.Command.Types.{ClientCommand}
use phira_mp.Command.Wire.Parts.{touch_frame, judge_event}
use phira_mp.Command.Valid.{IsClientCommand}
use phira_mp.Command.Wire.Client.{client_command, read_client_command, write_client_command}
use phira_mp.Command.Laws.Basic.{varchar-Sound, room_id-Sound, vec-Sound}
use phira_mp.Command.Laws.Parts.{touch_frame-Sound, judge_event-Sound}
use phira_mp.Common.{arith}

module _ {le : ByteOrder} (laws : IsLittleEndian le) where
  pub client_command-Sound : (c : ClientCommand) → IsClientCommand c → Sound (client_command le) c
  unfolding client_command read_client_command write_client_command
  client_command-Sound ClientCommand.ping h = record {
    faithful = Faithful-bind (read_client_command le) (u8-Sound 0).faithful (Faithful-pure _);
  }
  client_command-Sound (ClientCommand.authenticate token) h = record {
    faithful =
        Faithful-bind (read_client_command le) (u8-Sound 1).faithful
          (Faithful-bind _ (varchar-Sound 32 token (omega arith) h).faithful (Faithful-pure _));
  }
  client_command-Sound (ClientCommand.chat message) h = record {
    faithful =
        Faithful-bind (read_client_command le) (u8-Sound 2).faithful
          (Faithful-bind _ (varchar-Sound 200 message (omega arith) h).faithful (Faithful-pure _));
  }
  client_command-Sound (ClientCommand.touches frames) h = record {
    faithful = Faithful-bind (read_client_command le) (u8-Sound 3).faithful (
        Faithful-bind _ (vec-Sound (touch_frame le) (touch_frame-Sound laws) frames h).faithful
          (Faithful-pure _));
  }
  client_command-Sound (ClientCommand.judges events) h = record {
    faithful = Faithful-bind (read_client_command le) (u8-Sound 4).faithful (
        Faithful-bind _ (vec-Sound (judge_event le) (judge_event-Sound laws) events h).faithful
          (Faithful-pure _));
  }
  client_command-Sound (ClientCommand.create_room id) h = record {
    faithful =
        Faithful-bind (read_client_command le) (u8-Sound 5).faithful
          (Faithful-bind _ (room_id-Sound id h).faithful (Faithful-pure _));
  }
  client_command-Sound (ClientCommand.join_room id monitor) h = record {
    faithful = Faithful-bind (read_client_command le) (u8-Sound 6).faithful (
        Faithful-bind _ (room_id-Sound id h).faithful
          (Faithful-bind _ (bool-Sound monitor).faithful (Faithful-pure _)));
  }
  client_command-Sound ClientCommand.leave_room h = record {
    faithful = Faithful-bind (read_client_command le) (u8-Sound 7).faithful (Faithful-pure _);
  }
  client_command-Sound (ClientCommand.lock_room lock) h = record {
    faithful =
        Faithful-bind (read_client_command le) (u8-Sound 8).faithful
          (Faithful-bind _ (bool-Sound lock).faithful (Faithful-pure _));
  }
  client_command-Sound (ClientCommand.cycle_room cycle) h = record {
    faithful =
        Faithful-bind (read_client_command le) (u8-Sound 9).faithful
          (Faithful-bind _ (bool-Sound cycle).faithful (Faithful-pure _));
  }
  client_command-Sound (ClientCommand.select_chart id) h = record {
    faithful =
        Faithful-bind (read_client_command le) (u8-Sound 10).faithful
          (Faithful-bind _ (i32-Sound laws id h).faithful (Faithful-pure _));
  }
  client_command-Sound ClientCommand.request_start h = record {
    faithful = Faithful-bind (read_client_command le) (u8-Sound 11).faithful (Faithful-pure _);
  }
  client_command-Sound ClientCommand.ready h = record {
    faithful = Faithful-bind (read_client_command le) (u8-Sound 12).faithful (Faithful-pure _);
  }
  client_command-Sound ClientCommand.cancel_ready h = record {
    faithful = Faithful-bind (read_client_command le) (u8-Sound 13).faithful (Faithful-pure _);
  }
  client_command-Sound (ClientCommand.played id) h = record {
    faithful =
        Faithful-bind (read_client_command le) (u8-Sound 14).faithful
          (Faithful-bind _ (i32-Sound laws id h).faithful (Faithful-pure _));
  }
  client_command-Sound ClientCommand.abort h = record {
    faithful = Faithful-bind (read_client_command le) (u8-Sound 15).faithful (Faithful-pure _);
  }
