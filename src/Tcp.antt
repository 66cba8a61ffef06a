-- ===== src/Tcp.antt =====
-- src/link_impls/tcp_link.rs: chunks over a TCP socket. What the socket gives to the reader, now and
-- later, is the list of its reads; when the list ends, the reader waits. The write half is any type
-- with the operation of `SocketOps`. `listen` and `connect`, which only make sockets, are left out.
pub mod Frames
pub mod Linked
pub mod Chunks
pub mod Reading
pub mod Addresses
use link_set.Prelude.{
  ℕ, zero, suc, ◌+◌, ◌-◌, ◌%◌, List, [], ◌∷◌, ◌++◌, Bool, true, false, Option, none, some, ◌==◌,
  leb, if◌then◌else◌, length, take, drop,
}
use link_set.Protocol.{be_bytes, from_be_bytes}
use link_set.Address.{AddressRepr, string, bytes}

pub data TcpLinkError : Type 0 where
  io : TcpLinkError
  receiver_taken : TcpLinkError
  invalid_addr : TcpLinkError
  closed : TcpLinkError

pub data TcpLinkResult (T : Type 0) : Type 0 where
  err : TcpLinkError → TcpLinkResult T
  ok : T → TcpLinkResult T

abbrev pub u32_size : ℕ
u32_size = 4294967296

-- One `read` of the socket: bytes, none of them at the end of the stream, or a failure.
pub data Read : Type 0 where
  received : List ℕ → Read
  failed : Read

-- The read half of the socket, `read_len` and `read_buffer`.
pub record Incoming : Type 0 where
  pub socket_reader : List Read
  pub read_len : Option ℕ
  pub read_buffer : List ℕ

-- An answer of `recv_chunk`, or none while it waits for the socket, and what it leaves.
abbrev pub Polled : Type 0
Polled = Option (TcpLinkResult (List ℕ)) × Incoming

abbrev incoming : List Read → Option ℕ → List ℕ → Incoming
incoming reads len buffer = record { socket_reader = reads; read_len = len; read_buffer = buffer }

-- `Err(Closed)` at the end of the stream, and what follows the read otherwise.
unfoldable pub unless_end : List ℕ → Polled → Incoming → Polled
unless_end [] more left = (some (err closed), left)
unless_end (b ∷ bs) more left = more

unfoldable pub take_chunk : ℕ → List ℕ → List Read → Polled
take_chunk len buffer reads = (some (ok (take len buffer)), incoming reads none (drop len buffer))

-- The second loop of `recv_chunk`: until there is enough data in the read buffer.
unfoldable pub recv_data : ℕ → List ℕ → List Read → Polled
unfolding take_chunk unless_end
recv_data len buffer [] =
    if leb len (length buffer % u32_size)
    then take_chunk len buffer []
    else (none, incoming [] (some len) buffer)
recv_data len buffer (failed ∷ reads) =
    if leb len (length buffer % u32_size)
    then take_chunk len buffer (failed ∷ reads)
    else (some (err io), incoming reads (some len) buffer)
recv_data len buffer (received bs ∷ reads) =
    let more = recv_data len (buffer ++ bs) reads in
    if leb len (length buffer % u32_size)
    then take_chunk len buffer (received bs ∷ reads)
    else unless_end bs more (incoming reads (some len) buffer)

-- `read_exact` of four bytes, and the second loop.
unfoldable pub take_len : List ℕ → List Read → Polled
take_len buffer reads = recv_data (from_be_bytes 0 (take 4 buffer)) (drop 4 buffer) reads

-- The first loop: until the four bytes of the length are there.
unfoldable pub recv_len : List ℕ → List Read → Polled
unfolding take_len unless_end
recv_len buffer [] =
    if leb 4 (length buffer) then take_len buffer [] else (none, incoming [] none buffer)
recv_len buffer (failed ∷ reads) =
    if leb 4 (length buffer)
    then take_len buffer (failed ∷ reads)
    else (some (err io), incoming reads none buffer)
recv_len buffer (received bs ∷ reads) =
    let more = recv_len (buffer ++ bs) reads in
    if leb 4 (length buffer)
    then take_len buffer (received bs ∷ reads)
    else unless_end bs more (incoming reads none buffer)

unfoldable pub recv_chunk : Incoming → Polled
recv_chunk i = elim i.read_len [
  | none ↦ recv_len i.read_buffer i.socket_reader
  | some len ↦ recv_data len i.read_buffer i.socket_reader
]

-- What `write_chunk` writes.
unfoldable pub frame : List ℕ → List ℕ
frame msg = be_bytes 4 (length msg % u32_size) ++ msg

-- The write half: whether a `write_all` succeeds.
pub record SocketOps (W : Type 0) : Type 0 where
  pub write_all : List ℕ → W → W × Bool

pub record TcpLink (W : Type 0) : Type 0 where
  pub socket_reader : Option (List Read)
  pub socket_writer : W
  pub read_len : Option ℕ
  pub read_buffer : List ℕ
  pub is_closed : Bool

unfoldable pub max_size : ℕ
max_size = u32_size - 1 - 4

module _ {W : Type 0} where
  unfoldable pub connected : List Read → W → TcpLink W
  connected reads writer = record {
    socket_reader = some reads;
    socket_writer = writer;
    read_len = none;
    read_buffer = [];
    is_closed = false;
  }

  -- What a polled `recv_chunk` leaves behind in the link.
  unfoldable pub keep : Incoming → TcpLink W → TcpLink W
  keep i l = record l {
    socket_reader = some i.socket_reader;
    read_len = i.read_len;
    read_buffer = i.read_buffer;
  }

  -- Every error but `ReceiverTaken` closes the link.
  unfoldable pub received_by : Polled → TcpLink W → Option (TcpLinkResult (List ℕ)) × TcpLink W
  unfolding keep
  received_by (none, i) l = (none, keep i l)
  received_by (some (ok msg), i) l = (some (ok msg), keep i l)
  received_by (some (err receiver_taken), i) l = (some (err receiver_taken), keep i l)
  received_by (some (err e), i) l = (some (err e), record (keep i l) { is_closed = true })

  unfoldable pub recv : TcpLink W → Option (TcpLinkResult (List ℕ)) × TcpLink W
  unfolding received_by recv_chunk
  recv l = elim l.socket_reader [
    | none ↦ (some (err receiver_taken), l)
    | some reads ↦ received_by (recv_chunk (incoming reads l.read_len l.read_buffer)) l
  ]

  -- The error, or what the spawned task starts with.
  unfoldable pub take_reader : TcpLink W → TcpLinkResult Incoming × TcpLink W
  take_reader l = elim l.socket_reader [
    | none ↦ (err receiver_taken, l)
    | some reads ↦ (
      ok (incoming reads l.read_len l.read_buffer),
      record l { socket_reader = none; read_len = none; read_buffer = [] },
    )
  ]

module _ {W : Type 0} ⦃o : SocketOps W⦄ where
  -- `write_u32`, and `write_all` if it succeeds.
  unfoldable pub write_chunk : List ℕ → W → W × Bool
  write_chunk msg w =
      let (w', done) = o.write_all (be_bytes 4 (length msg % u32_size)) w in
      if done then o.write_all msg w' else (w', false)

  unfoldable pub send : List ℕ → TcpLink W → TcpLinkResult (Unit {0}) × TcpLink W
  unfolding write_chunk
  send msg l =
      let (w, done) = write_chunk msg l.socket_writer in
      if done
      then (ok tt, record l { socket_writer = w })
      else (err io, record l { socket_writer = w; is_closed = true })

-- The chunks that the spawned task of `take_reader` hands over, and whether it closed the link: the
-- reader takes `room` chunks and is dropped then.
unfoldable pub deliver : Polled → (Incoming → List (List ℕ) × Bool) → List (List ℕ) × Bool
deliver (none, i) loop = ([], false)
deliver (some (err e), i) loop = ([], true)
deliver (some (ok chunk), i) loop = let (chunks, ended) = loop i in (chunk ∷ chunks, ended)

unfoldable pub dropped : Polled → List (List ℕ) × Bool
dropped (none, i) = ([], false)
dropped (some r, i) = ([], true)

unfoldable pub read_task : ℕ → Incoming → List (List ℕ) × Bool
unfolding deliver dropped recv_chunk
read_task zero i = dropped (recv_chunk i)
read_task (suc room) i = deliver (recv_chunk i) (read_task room)
