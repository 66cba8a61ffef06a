-- ===== src/Lib.antt =====
-- link_set: messages between two peers over a set of links that come and go, in order and
-- acknowledged.
--
-- A message is cut into slices (src/slice_manager.rs), which travel over any of the links; the
-- receiver puts them together and gives the messages out in the order of their sequence numbers
-- (src/message_manager.rs). A connection has an epoch (src/epoch.rs) on which the two peers agree
-- when the first link comes up. The core (src/core.rs) is a state machine of six states
-- (src/state/states), driven by commands, by messages from the links and by a timer
-- (src/deadline.rs).
--
-- The files, and what they are about:
--   Prelude       names and lemmas that all share
--   Epoch         src/epoch.rs
--   Protocol      src/protocol.rs and src/error.rs: `LinkProtocol`, `serialize`, `deserialize`
--   OrderedMap    the `BTreeMap` operations that the sources use, on lists of entries by key
--   Slices        src/slice_manager.rs: `SliceManager`, `make_slices`
--   Messages      src/message_manager.rs: `MessageManager`
--   Deadline      src/deadline.rs
--   Links         src/links/link_entry.rs, src/links/link_manager.rs; Links/Reader the task that
--                 reads a link, Links/Transport, Links/Message and Links/Across what is sent over TCP
--                 links, Links/Choosing and Links/Silence which links are used and given up,
--                 Links/Pinned src/links/link.rs and src/links/connector.rs
--   Address       src/links/address.rs: the byte form and the text form of an address
--   Tcp           src/link_impls/tcp_link.rs: frames, `recv_chunk`, the task of `take_reader`;
--                 Tcp/Linked the link as the core has it
--   Pipe          src/link_impls/pipe_link.rs: sending into a pipe, and reading from it; Pipe/Hub
--                 the pairs that a hub hands out
--   Peekable      src/adaptors/peekable.rs
--   Connect       src/connector_manager.rs; Connect/Attempts what one of its tasks does
--   State         src/state/common.rs and the data of src/state/states; State/Moves the
--                 implementations of `StateTransitionFrom`; State/Offline, State/Mismatch,
--                 State/Online and State/Passive the handlers; State/Queue the queued messages;
--                 State/Debug the commands of src/debug.rs and the debug handlers
--   Core          src/core.rs; Core/Active is about the flag `is_active`, Core/Epochs about the
--                 epoch, Core/Heard about what the controller is told, Core/Diagram about the
--                 moves between the states and how a connection begins, Core/Sound and
--                 Messages/Panics about panics, Core/Clock about the timer;
--                 Core/Debugger the handle of src/debug.rs
--   Controller    src/link_set/controller.rs, src/link_set/reader.rs: the handles of the user;
--                 Controller/Serde src/link_set/serde.rs
--   Examples      the theorems at concrete inputs
--
-- How the model stands for the code. A method that takes `&mut self` is a function that returns the
-- changed value. Integers are natural numbers; where the source adds numbers that a peer chooses,
-- the overflow is written out as a panic, as are a `Vec` that is larger than any can be, and a timer
-- set beyond the last `Instant`: a state whose `timer` is `none` is one in which setting it
-- panicked. A panic is `none`; `LinkSetResult` is a data type. A byte
-- is a number, a `Vec<u8>` a list. Time is a number of nanoseconds, an argument of what reads the
-- clock; it stands still while one event is handled. What is sent to the controller is the list
-- `to_ctrl`. A link is any type with the operations of `LinkOps`, a connector any with those of
-- `ConnectorOps`. The handles of one link set share the two channels to the core, the epoch and the
-- flag, the record `Channels`. What a socket gives to its reader is the list of its reads, the last
-- of which may be the end of the stream or a failure; where the list ends, the reader waits. A call
-- that waits when it is dropped has no answer, and leaves what the code leaves. What goes on beside
-- the code, such as the receiver of a channel, is an argument: a task that sends into a channel is
-- given the number of messages that are taken before the receiver is dropped.
--
-- Loops. Those over a map or a list are recursion on it. The loops of `add_slice` and `remove_slice`
-- take one entry off the map each round, and their fuel is the number of entries and one more; the
-- loop of `make_slices` moves on by at least one byte each round, and its fuel is the last index and
-- one more. The loops that read a socket are recursion on its reads, those of the tasks on what
-- their receivers take or on the events of the task: they need no fuel.
--
-- Not modelled: how TCP sockets are made, the package behind src/link_set/serde.rs, how full the
-- channels of the core and of the links are, the choice among ready events by `select!`, and
-- logging. Memory does not run out. The times of a pipe, which its builder sets, and the sum of
-- the latencies of a link are plain sums: the code panics where they leave an `Instant` or a
-- `Duration`. What input `deserialize` leaves after an error is not modelled either.
pub mod Prelude
pub mod Epoch
pub mod Protocol
pub mod OrderedMap
pub mod Slices
pub mod Messages
pub mod Deadline
pub mod Links
pub mod Address
pub mod Tcp
pub mod Peekable
pub mod Pipe
pub mod Connect
pub mod State
pub mod Core
pub mod Controller
pub mod Examples
