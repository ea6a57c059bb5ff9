-- ===== src/Command/Laws/Message.antt =====
-- `Message` is read back as it was written.
use phira_mp.Common.Eq.{int_eq}
use phira_mp.Bin.Faithful.{Faithful-pure, Faithful-bind}
use phira_mp.Bin.Data.{ByteOrder, IsLittleEndian}
use phira_mp.Bin.Laws.{Sound, u8-Sound, i32-Sound, f32-Sound, bool-Sound}
use phira_mp.Command.Types.{Message}
use phira_mp.Command.Valid.{IsMessage}
use phira_mp.Command.Wire.Message.{message_data, read_message, write_message}
use phira_mp.Command.Laws.Basic.{text-Sound}

module _ {le : ByteOrder} (laws : IsLittleEndian le) where
  pub message_data-Sound : (c : Message) → IsMessage c → Sound (message_data le) c
  unfolding message_data read_message write_message
  message_data-Sound (Message.chat user content) h = record {
    faithful = Faithful-bind (read_message le) (u8-Sound 0).faithful (
        Faithful-bind _ (i32-Sound laws user h.0).faithful
          (Faithful-bind _ (text-Sound content h.1).faithful (Faithful-pure _)));
  }
  message_data-Sound (Message.create_room user) h = record {
    faithful =
        Faithful-bind (read_message le) (u8-Sound 1).faithful
          (Faithful-bind _ (i32-Sound laws user h).faithful (Faithful-pure _));
  }
  message_data-Sound (Message.join_room user name) h = record {
    faithful = Faithful-bind (read_message le) (u8-Sound 2).faithful (
        Faithful-bind _ (i32-Sound laws user h.0).faithful
          (Faithful-bind _ (text-Sound name h.1).faithful (Faithful-pure _)));
  }
  message_data-Sound (Message.leave_room user name) h = record {
    faithful = Faithful-bind (read_message le) (u8-Sound 3).faithful (
        Faithful-bind _ (i32-Sound laws user h.0).faithful
          (Faithful-bind _ (text-Sound name h.1).faithful (Faithful-pure _)));
  }
  message_data-Sound (Message.new_host user) h = record {
    faithful =
        Faithful-bind (read_message le) (u8-Sound 4).faithful
          (Faithful-bind _ (i32-Sound laws user h).faithful (Faithful-pure _));
  }
  message_data-Sound (Message.select_chart user name id) h = record {
    faithful = Faithful-bind (read_message le) (u8-Sound 5).faithful (
        Faithful-bind _ (i32-Sound laws user h.0).faithful (
          Faithful-bind _ (text-Sound name h.1).faithful
            (Faithful-bind _ (i32-Sound laws id h.2).faithful (Faithful-pure _))));
  }
  message_data-Sound (Message.game_start user) h = record {
    faithful =
        Faithful-bind (read_message le) (u8-Sound 6).faithful
          (Faithful-bind _ (i32-Sound laws user h).faithful (Faithful-pure _));
  }
  message_data-Sound (Message.ready user) h = record {
    faithful =
        Faithful-bind (read_message le) (u8-Sound 7).faithful
          (Faithful-bind _ (i32-Sound laws user h).faithful (Faithful-pure _));
  }
  message_data-Sound (Message.cancel_ready user) h = record {
    faithful =
        Faithful-bind (read_message le) (u8-Sound 8).faithful
          (Faithful-bind _ (i32-Sound laws user h).faithful (Faithful-pure _));
  }
  message_data-Sound (Message.cancel_game user) h = record {
    faithful =
        Faithful-bind (read_message le) (u8-Sound 9).faithful
          (Faithful-bind _ (i32-Sound laws user h).faithful (Faithful-pure _));
  }
  message_data-Sound Message.start_playing h = record {
    faithful = Faithful-bind (read_message le) (u8-Sound 10).faithful (Faithful-pure _);
  }
  message_data-Sound (Message.played user score accuracy full_combo) h = record {
    faithful = Faithful-bind (read_message le) (u8-Sound 11).faithful (
        Faithful-bind _ (i32-Sound laws user h.0).faithful (
          Faithful-bind _ (i32-Sound laws score h.1).faithful (
            Faithful-bind _ (f32-Sound laws accuracy h.2).faithful
              (Faithful-bind _ (bool-Sound full_combo).faithful (Faithful-pure _)))));
  }
  message_data-Sound Message.game_end h = record {
    faithful = Faithful-bind (read_message le) (u8-Sound 12).faithful (Faithful-pure _);
  }
  message_data-Sound (Message.abort user) h = record {
    faithful =
        Faithful-bind (read_message le) (u8-Sound 13).faithful
          (Faithful-bind _ (i32-Sound laws user h).faithful (Faithful-pure _));
  }
  message_data-Sound (Message.lock_room lock) h = record {
    faithful =
        Faithful-bind (read_message le) (u8-Sound 14).faithful
          (Faithful-bind _ (bool-Sound lock).faithful (Faithful-pure _));
  }
  message_data-Sound (Message.cycle_room cycle) h = record {
    faithful =
        Faithful-bind (read_message le) (u8-Sound 15).faithful
          (Faithful-bind _ (bool-Sound cycle).faithful (Faithful-pure _));
  }
