-- ===== src/Command/Delivery.antt =====
-- What a client sends reaches the server as it was sent, and the other way round: the codecs of
-- command.rs and bin.rs under the frames of `Stream`.
use phira_mp.Common.{ℕ, ◌≤◌, ◌<◌, ◌^◌, ◌≡◌, List, [], ◌∷◌, All, length}
use phira_mp.Bin.Reader.{ok}
use phira_mp.Bin.Data.{ByteOrder, IsLittleEndian}
use phira_mp.Command.Types.{ClientCommand, ServerCommand}
use phira_mp.Command.Wire.Client.{client_command}
use phira_mp.Command.Wire.Server.{server_command}
use phira_mp.Command.Valid.{IsClientCommand, IsServerCommand}
use phira_mp.Command.Laws.Client.{client_command-Sound}
use phira_mp.Command.Laws.Server.{server_command-Sound}
use phira_mp.Stream.{
  eof, got, max_packet, encode_packet, decode_packet, send_task, recv_task, send_version,
  stream_version,
}
use phira_mp.Stream.Laws.{
  Sendable, decode_packet-encode_packet, recv_task-send_task, stream_version-send_version,
}
use phira_mp.Common.{none, some}

module _ {le : ByteOrder} (laws : IsLittleEndian le) where
  -- With the little-endian laws for the byte order, a well-formed command of a client is decoded from
  -- its packet, provided that the packet's length is below 2^64.
  pub decode-encode_client :
      (c : ClientCommand)
      → IsClientCommand c
      → length (encode_packet (client_command le) c []) < 2 ^ 64
      → decode_packet (client_command le) (encode_packet (client_command le) c []) ≡ ok c
  decode-encode_client c h fits =
      decode_packet-encode_packet (client_command le) c (client_command-Sound laws c h) fits

  -- With the little-endian laws for the byte order, a well-formed command of the server is decoded
  -- from its packet, provided that the packet's length is below 2^64.
  pub decode-encode_server :
      (c : ServerCommand)
      → IsServerCommand c
      → length (encode_packet (server_command le) c []) < 2 ^ 64
      → decode_packet (server_command le) (encode_packet (server_command le) c []) ≡ ok c
  decode-encode_server c h fits =
      decode_packet-encode_packet (server_command le) c (server_command-Sound laws c h) fits

  -- A command that is well formed and whose packet is not too large.
  pub record IsPosted (c : ClientCommand) : Type 0 where
    pub valid : IsClientCommand c
    pub small : length (encode_packet (client_command le) c []) ≤ max_packet

  pub record IsReplied (c : ServerCommand) : Type 0 where
    pub valid : IsServerCommand c
    pub small : length (encode_packet (server_command le) c []) ≤ max_packet

  All-posted : (cs : List ClientCommand) → All IsPosted cs → All (Sendable (client_command le)) cs
  All-posted [] h = tt
  All-posted (c ∷ cs) h = (
    record { sound = client_command-Sound laws c (h.0).valid; small = (h.0).small },
    All-posted cs h.1,
  )

  All-replied : (cs : List ServerCommand) → All IsReplied cs → All (Sendable (server_command le)) cs
  All-replied [] h = tt
  All-replied (c ∷ cs) h = (
    record { sound = server_command-Sound laws c (h.0).valid; small = (h.0).small },
    All-replied cs h.1,
  )

  -- With the little-endian laws for the byte order: a client that opens a connection with its
  -- version and sends well-formed commands, none of whose packets is longer than 2 MiB. The server
  -- learns the version, then its handler gets these commands in order, and then the socket's end.
  pub server_gets :
      (version : ℕ) (cs : List ClientCommand)
      → All IsPosted cs
      → (incoming : _) × (stream_version none
            (send_task (client_command le) cs (send_version (some version) []))
          ≡ got (version, incoming))
        × (recv_task (client_command le) incoming ≡ (cs, eof))
  server_gets version cs h =
      stream_version-send_version (client_command le) version cs (All-posted cs h)

  -- With the little-endian laws for the byte order: when the server sends well-formed commands, none
  -- of whose packets is longer than 2 MiB, the client's handler gets them in order, and then the
  -- socket's end.
  pub client_gets :
      (cs : List ServerCommand)
      → All IsReplied cs
      → recv_task (server_command le) (send_task (server_command le) cs []) ≡ (cs, eof)
  client_gets cs h = recv_task-send_task (server_command le) cs (All-replied cs h)
