-- ===== src/Lib.antt =====
-- phira-mp, the server and protocol for playing Phira together: what is sent, and what the server's
-- rooms make of it. The client and the server each hold a `Stream` on a TCP connection, which frames
-- packets; a packet is a `ClientCommand` or a `ServerCommand`, encoded by the trait `BinaryData`. For
-- each command of an authenticated user the server runs `process`, which reads and changes users and
-- rooms, sends messages to the users of the room, and answers the user.
--
-- Which file models what:
--   Common      Boolean tests, lists, bits, integers, equality and maps that the parts share.
--   Bin         phira-mp-common/src/bin.rs. Bin/Reader has `BinaryReader` and `BinaryWriter`; a reader
--               is its bytes and its position, reading ends in `ok` with the reader behind or in an
--               error. Bin/Data has the trait (a record of the two functions) and its implementations,
--               Bin/Crates those for types of uuid and chrono. Bin/Utf8 is the decoder of
--               `String::from_utf8_lossy`. The laws: Bin/Faithful, Bin/Uleb, Bin/Laws, Bin/MapLaws.
--   Command     phira-mp-common/src/command.rs. Command/Types has its types, Command/Wire the codecs,
--               those derived by phira-mp-macros/src/lib.rs written out as the macro expands them,
--               Command/Valid the values that the Rust types can hold, Command/Laws and
--               Command/Delivery what is read back.
--   Stream      phira-mp-common/src/lib.rs: `encode_packet`, `decode_packet`, and the two tasks and the
--               exchange of versions of `Stream::new`.
--   World       The shared state: users (phira-mp-server/src/session.rs), rooms (room.rs), the maps of
--               `ServerState` (server.rs), and what has been sent to which session.
--   Room        phira-mp-server/src/room.rs, one function per method; Room/Turn has `check_all_ready`
--               and `on_user_leave`, whose blocks have names of their own. Room/Host and
--               Room/Succession are about who the host is, Room/Leaving and Room/Detached about who
--               leaves.
--   Session     phira-mp-server/src/session.rs: `process` (Session/Process) and its branches
--               (Session/Rooms, Session/Game) with their early returns (Session/Handler).
--               Session/Tame is what no command changes, Session/Hosted the hosts that every command
--               keeps, Session/Mirror what a client that hears the server's messages knows of a room:
--               of its settings, when it opens or joins it, and of the play that it monitors.
--               Session/Lingering is about a monitor flag that is left over, Session/Untranslated
--               about a user whose language has no bundle.
--   Client      phira-mp-client/src/lib.rs: the state of a client, `process` on the server's commands
--               (Client/Process), the calls of `Client` (Client/Calls), the heartbeat task and `ping`
--               (Client/Heartbeat). Client/View is what the commands say of a room, Client/Seen
--               the same of what can be seen of it, Client/Answers
--               when a call gets its answer, Client/Outside a client that is in no room yet.
--   Server      phira-mp-server/src/server.rs and the connections of session.rs. Server/Authenticate
--               has the callback of `Session::new`, Server/Lost the heartbeat task, the handling of
--               lost connections and `User::dangle`, Server/Steps the server as a step relation.
--               Server/Gate and Server/Reconnect are about authentication, Server/Sender and
--               Server/Blocked about the lock of `accept`.
--               Server/Named is about the map of users, Server/Expiry about users that do not come back,
--               Server/Outdated and Server/Returned about the tasks that wait for those that do;
--               Server/Start is `Server::from` and the configuration, Server/Vacant `vacant_entry` of
--               main.rs.
--   Macros      phira-mp-macros/src/lib.rs: `build_derive` from a declaration to the code that it
--               expands to, which is a syntax of its own; Macros/Dispatch is what its arms agree on.
--   L10n        phira-mp-server/src/l10n.rs: the bundles of translations and the cache of a thread.
--               What `tl!` gives in `process` (Session/Handler) is the `translate` of this part.
--   Tests       The theorems at concrete inputs.
--
-- Numbers: a word of w bits is a number below 2 ^ w, and arithmetic on it wraps around as in a release
-- build, shift amounts included. A float is its bit pattern, a string its bytes. A map is the list of
-- its entries in iteration order. An `Arc` or a `Weak` is an address, and `alive` says which addresses
-- can be upgraded.
--
-- Fuel: `uleb` reads at most as many bytes as are left, and has fuel for one round more;
-- `write_uleb` has ten rounds, since ten groups of seven bits hold a u64; the bytes of a packet's
-- length are five, since five groups hold a u32; the receive task has one round more than the socket
-- has bytes, and each round takes a byte.
--
-- A handler runs on the whole state as if alone, and what it spawns runs at once; an `unwrap` that
-- fails is a value of its own (`panics`). The events of Server/Steps (a connection, its version, a
-- packet, its end, a late heartbeat, a lost connection, a timer, time) come in any order, each as one
-- step; a step that needs the lock of `sessions` cannot be taken while `accept` holds it. The client's
-- calls have a schedule: what its receive task processes before the call has entered its callback, and
-- after. byteorder, uuid, chrono, rand, tokio's channels, fluent's bundles, the parser of languages and
-- the answers of the web service are parameters or written out by what they document; the laws of the
-- first three, of the random choice and of the crate lru are hypotheses of the theorems that need them.
--
-- Not modelled: the meaning of the code that the derive macro generates (Command/Wire is it, written
-- out), the start-up in main.rs, the texts of translations, logging,
-- interleavings within a handler, waiting for room in a channel, and a session that has the id of an
-- earlier one: the step relation takes any id
-- that was never used. A reply is taken to be sent before its connection is closed.

pub mod Common
pub mod Bin
pub mod Command
pub mod Stream
pub mod World
pub mod Room
pub mod Session
pub mod Client
pub mod Server
pub mod Macros
pub mod L10n
pub mod Tests
