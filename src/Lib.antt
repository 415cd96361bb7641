-- ===== src/Lib.antt =====
-- Self-KVM: one keyboard and mouse for several machines. The server captures input, follows a virtual
-- cursor over a layout of screens, and while the cursor is on a screen of another machine sends the
-- input there as messages; the client on that machine injects it.
--
-- The parts, and where each is modelled:
--   * Proto (crates/kvm-proto): the messages and their bytes. Proto/Reader and Proto/Writer are the two
--     halves of src/codec.rs: a reader is the rest of its buffer, a method returns the value and the
--     reader behind it, or the error. Proto/Code, Message, Encode and Decode are src/message.rs,
--     Proto/Keys is src/keys.rs, Proto/Error is src/error.rs. Proto/Utf8 and Proto/Bytes are what the
--     codec uses of Rust's standard library.
--   * Net (crates/kvm-net): Net/Transport is src/transport.rs. A stream is the bytes that it will still
--     deliver and the way it ends; a sink is what has been written and whether writing fails.
--     Net/Wire sends and receives many messages, and Net/Wire/Session those of the server machine. Net/Trust
--     and Net/TrustFile are src/tls.rs: fingerprints, with SHA-256 as a parameter, and the two stores; what
--     a write leaves of the file is a parameter as well.
--   * Core (crates/kvm-core): Core/Layout is src/layout.rs, Core/Events is src/events.rs, Core/Server
--     and Core/Client are the machines of src/server.rs and src/client.rs, with a function for each
--     method that changes the machine, which returns the new machine and the actions; Core/Session joins
--     the two. Core/FileName and Core/FileTransfer are src/file_transfer.rs, Core/Config is src/config.rs.
--   * Daemon (crates/kvm-daemon): Daemon/Server is the controller of src/server.rs, as a step on its
--     state that returns its effects, and Daemon/Server/Handshake is `handle_client`; Daemon/Client is the
--     serve loop of src/client.rs, and Daemon/Client/Connect its `ClientRuntime::run`; Daemon/SendFile,
--     Send, Fill, Receive, Publish, Download and Permits are src/file_transfer.rs, and
--     Daemon/SendFile/Filed puts its two ends together; Daemon/Hooks is src/hooks.rs,
--     Daemon/Clipboard the loop of src/clipboard.rs, Daemon/Main the configurations of src/main.rs.
--     A connection is the list of messages that it still delivers, and takes everything that is sent; a
--     directory is a map from names to contents.
--   * Input (crates/kvm-input): Input/Rdev and RdevKeys are the capture backend of src/rdev_backend.rs,
--     Input/Enigo is the injection backend of src/enigo_backend.rs as the calls it makes, Input/Display
--     the choice of the display in src/lib.rs. Input/KeyPath and Input/Pressed follow a key from one
--     backend to the other, through the two machines and the serve loop.
--   * Desk (src-tauri): Desk/Grid is `build_layout` of src/lib.rs, Desk/Shell the commands of that file on
--     the state they share, with the forms of the frontend in Desk/Shell/Setup; Desk/Files is its
--     `send_file`, Desk/Statuses its two forwarders of statuses.
-- Common holds Rust's integers, results and maps as all parts use them.
--
-- Machine integers: a value of a Rust integer type is a ℕ or ℤ, and where the code casts or may overflow
-- the wrap-around of a release build is written out (`as_i16`, `as_i32`, `% 2 ^ 32`). A debug build
-- panics instead at an overflowing `+` or `-`. A hash map is an association list whose first entry for a
-- key counts.
--
-- Fuel: `utf8_loop`, `chunks` and `send_loop` run on the length of their list, which is enough, since
-- every round takes at least one byte: so say `from_utf8-as_bytes`, `concat-chunks` and
-- `send_loop-Streams`. `fill_loop` runs on the room in the buffer, which each read makes smaller, and
-- `stream_loop` on the length of what the source holds: so say `fill-IsFilled` and
-- `stream_loop-send_loop`. `digits` runs on the number, which each round divides by ten. All other loops
-- are structural.
--
-- Parameters, since their code is not here: SHA-256, what a write leaves of a file, a source that is read,
-- the system's clipboard, the calls of the input libraries, floating point subtraction and its cast, the
-- answers of the socket and of the capture backend, and the display that is found.
--
-- Not modelled: the async runtime with its timeouts and cancellation, sockets, certificates and the TLS
-- handshake beyond the verdict on a fingerprint, JSON and the command line's syntax, and of the desktop
-- application the windows and the menus. A server whose TLS cannot be set up, and what its status
-- channel says of its fingerprint, are left out, and so is the end of the clipboard loop when nobody
-- listens.
-- Core/Session assumes that a client handles what it is sent, in order.
-- The commands of the desktop application run one after the other, except that others may run while the
-- start of a server waits for its address; a hook may be called at any time.
pub mod Common
pub mod Proto
pub mod Net
pub mod Core
pub mod Input
pub mod Daemon
pub mod Desk
