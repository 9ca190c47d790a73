-- ===== src/Lib.antt =====
-- Mouser: a keyboard and a mouse that are shared by computers on one network. This library models
-- the parts of the repository that decide, without any I/O, who owns input, what is sent, and what
-- is injected, and proves what they promise.
--
-- Parts of the program, and the files that model them
--   crates/mouser-core/src/ownership.rs: the ownership token with its epoch. Core/Ownership has the
--     state `Ownership` and the operations under their names; Core/Ownership/Epochs the rule by
--     which a claim is accepted and histories of events; Core/Ownership/Handoff two devices.
--   crates/mouser-core/src/election.rs: the coordinator lease. Core/Election, with Terms (the
--     invariant), Leases (keeping and taking a lease) and Heal (two coordinators). The clock is an
--     argument, in nanoseconds, and its sums do not overflow.
--   crates/mouser-protocol/src/framing.rs: frames of the control stream. Protocol/Framing, with
--     Framing/RoundTrip.
--   crates/mouser-protocol/src/codec.rs, messages.rs, datagram.rs, enums.rs: payloads. In
--     Protocol/Codec the CBOR library with the derived serializers is a parameter, the record
--     `Serde`; Protocol/Messages and Protocol/Enums have the messages that the engine exchanges;
--     Protocol/Datagram encodes and decodes datagrams, over a postcard library that is a parameter.
--   crates/mouser-engine/src/core.rs, core/types.rs, core/wire.rs: the engine core, which the runtime
--     feeds with local input, frames, datagrams and ticks, and which answers with actions.
--     Engine/Types has types.rs; Engine/Geometry the tests and maps on positions; Engine/State the
--     state `EngineCore`, how it starts and its setters; Engine/Machine what it does with local input
--     and with time; Engine/Transfer and Engine/Wire what it does
--     with the peer's messages; Engine/Events all of it as one step function. Each handler takes the
--     state and returns the new state with the actions. It uses the token of Core/Ownership, and the
--     serializers, a record `Codecs` of parameters. A long function of the source is split at its
--     early returns: `on_cursor` into `on_cursor_here`, `on_cursor_away` and `drive_peer`,
--     `cross_to_peer` has its end in `hand_over`, `on_transfer` its branches in `read_transfer`,
--     `transfer_for`, `transfer_to`, `on_accepted`, `enter_ownership` and `refuse`, `on_tick` in
--     `wait_ack` and `count_miss`, `on_injection_failed` in `give_back`.
--   crates/mouser-clipboard/src/reassembly.rs, tracking.rs: Clipboard/Reassembly, with SHA-256 as a
--     parameter, Clipboard/Pulls and Clipboard/Applied.
--   crates/mouser-clipboard/src/settings.rs, engine.rs: Clipboard/Settings and Clipboard/Engine, where
--     `on_offer` has its parts in `offer_from`, `pull_best` and `pull_hash`, and `on_data_for_key` in
--     `data_for` and `pushed`; its children say which entry is pulled (Choice), that each pull gathers
--     what its key names (Keys) and what is applied (Apply), and Engine/Serve has the answers to pulls.
--   crates/mouser-clipboard/src/canonical.rs, source.rs: Clipboard/Canonical, with its Laws, and
--     Clipboard/Offer, which has `on_local_change` of engine.rs with its loop in `offer_reps`, and the
--     contents in memory; Offer/Echo is about changes that a paste causes.
--   crates/mouser-engine/src/daemon/clipboard.rs: the session that joins the clipboard engine to the
--     control stream, the bulk streams and the local clipboard. Clipboard/Session has its state and
--     data, Session/Handlers its operations. The local clipboard is a function from formats to bytes,
--     what is written to it and sent is in the outputs. `on_offer`, `on_pull` and `on_data` are
--     `session_offer`, `session_pull` and `session_data`, with their parts in `on_decoded_offer`,
--     `on_supported`, `on_decoded_pull` and `on_decoded_data`. The other children follow a content
--     from one session to another: what is offered (Offered, Entries), pulled (Pulling), answered
--     (Exchange, Feed, Chunks) and written (Arrival, Delivery).
--   crates/mouser-files/src/path.rs, sink.rs, sender.rs, receiver.rs: file transfers. Files/Path has the
--     checks of offered names, which may panic, an `Outcome`, over a path library that is a parameter;
--     Files/Sink the interfaces to the bytes and their implementations in memory; Files/Sender and
--     Files/Receiver the two state machines, each method with the new state beside its result, with
--     `accept_offer` in Receiver/Open. There `make_sink`, a parameter, takes the disk and gives it
--     back. `on_accept` has its loops in `check_resume` and `apply_resume`, `poll_chunk` in
--     `poll_tracks`, `on_chunk` its parts in `chunk_for`, `write_chunk` and `written`.
--   crates/mouser-engine/src/daemon/file_transfer.rs: the loops that drive the two. Files/Transfer has
--     them as steps that interleave in any order, over two streams that keep the order; its children
--     have what is under way of each file (Flight), what each step does to it (Poll, Receipt, Settle,
--     Outcome, Delivery, Reply), sequences of steps (Runs) and their start (Fresh, Start, Whole).
--   crates/mouser-engine/src/daemon/reconnect.rs: Daemon/Reconnect, the delays in milliseconds.
--   crates/platform-linux/src/keymap.rs, platform-win/src/keymap.rs, platform-mac/src/keymap.rs,
--     keymap_capture.rs: the key tables, as lists of pairs, in Platform/Linux/Keymap,
--     Platform/Windows/Keymap and Platform/Mac/Keymap, and Platform/Parity on all three;
--     Platform/Mac/Modifiers tracks the modifier keys that are held.
--   crates/platform-win/src/clipboard_text.rs: Platform/Windows/Text, on lists of scalar values; the
--     conversions of the standard library are written out there. Text/Units is about UTF-16, Text/Lines
--     about line ends, Text/RoundTrip about both.
--
-- Numbers
--   Unsigned integers are natural numbers; saturating sums are written with the largest value, from
--   Prelude/Sat. An `i32` is an integer of Prelude/Int, where its saturating and wrapping operations
--   stand; arithmetic that the source leaves unchecked wraps, as in a release build. A device id or a
--   hash is the number that its 32 bytes write. A `HashMap` is the list of its entries, a `BTreeSet`
--   the list of its members; what their iteration order decides is not modelled.
--
-- Bounds and fuel
--   Four loops run on fuel: that of `PendingPulls::insert` (`make_room`), which removes an entry in
--   each turn, and has as much fuel as there are entries; that of `chunk_data` (`chunk_loop`), which
--   moves its offset in each turn and has as much fuel as there are bytes; that of `crlf_to_lf`
--   (`crlf_loop`), which moves its index in each turn, and that of `canonical_text` (`pop_nuls`), which
--   takes a byte off in each turn, with as much fuel as there are bytes. The turns of a file
--   transfer are a relation, and every sequence of them is bounded by the bytes of the files.
--
-- Not modelled
--   Transport, TLS, key pairs, the calls of the operating systems by the platform backends, the daemon
--   with its tasks, the bindings and the applications are I/O or calls of other libraries. The shared
--   state rests on a document library. Of file transfer the sinks on the disk, the connections and
--   their timeouts are left out, of the clipboard session the task that drives it, of the protocol the
--   messages of pairing and the capability sets.
pub mod Prelude
pub mod Core
pub mod Protocol
pub mod Engine
pub mod Clipboard
pub mod Files
pub mod Daemon
pub mod Platform
