-- ===== src/Examples/Transport.antt =====
-- Addresses, TCP links and messages over them at concrete inputs.
use link_set.Prelude.{
  ◌+◌, max, All, ℕ, ◌≡◌, refl, List, [], ◌∷◌, ◌++◌, none, some, true, false, arith, map, take, drop,
}
use link_set.Protocol.{LinkProtocol, msg_slice, serialize, be_bytes, u64_bytes}
use link_set.Address.{Address, AddressRepr, Base64, from_bytes, is_utf8, from_str, display}
use link_set.Address.Bytes.{IsAddress, Answers, from_bytes-Answers}
use link_set.Address.Text.{Decodes, from_str-display}
use link_set.Slices.{from_vec, get_slices, get_slices_of, make_slices, cut_slices}
use link_set.Protocol
use link_set.Links.{LinkEntry, latency}
use link_set.Links.Transport.{over_tcp, over_tcp-send}
use link_set.Links.Reader.{tagged}
use link_set.Deadline.{is_elapsed}
use link_set.Pipe.{PipeLinkReader, read}
use link_set.Pipe.Dropping.{Awaits, resumed, read_twice}
use link_set.Tcp.{SocketOps, TcpLink, Incoming, received, ok, write_chunk, send, recv_chunk, frame}
use link_set.Tcp.Frames.{IsIncoming, Returns, ahead}
use link_set.Tcp.Chunks.{recv_chunk-Returns}
use link_set.Tcp.Reading.{IsChunk, Writes, Sends}
use link_set.Tcp.Addresses.{
  SocketAddr, v6, from_socket_addr, try_from, kept, try_from-from_socket_addr,
}

-- "tcp" and "é:1"
abbrev peer : Address
peer = record {
  scheme = b't' ∷ b'c' ∷ b'p' ∷ [];
  addr = AddressRepr.string (195 ∷ 169 ∷ b':' ∷ b'1' ∷ []);
}

peer-IsAddress : IsAddress peer
unfolding is_utf8
peer-IsAddress = (refl, ground arith, refl)

-- A string cut inside a character.
abbrev broken : List ℕ
broken = b't' ∷ b':' ∷ 0 ∷ 195 ∷ []

from_bytes-Answers_example : Answers broken (from_bytes broken)
from_bytes-Answers_example = from_bytes-Answers broken

-- Bytes as they are.
abbrev plain : Base64
plain = record { encode = λ bs. bs; decode = λ bs. some bs }

plain-Decodes : Decodes plain
plain-Decodes bs = refl

from_str-display_example : from_str plain (display plain peer) ≡ some peer
from_str-display_example = from_str-display plain peer plain-Decodes (ground arith)

abbrev loopback : SocketAddr
loopback = v6 (0 ∷ 0 ∷ 0 ∷ 0 ∷ 0 ∷ 0 ∷ 0 ∷ 0 ∷ 0 ∷ 0 ∷ 0 ∷ 0 ∷ 0 ∷ 0 ∷ 0 ∷ 1 ∷ []) 1940 0 7

try_from-from_socket_addr_example :
    try_from (λ s. none) (from_socket_addr loopback) ≡ ok (kept loopback)
try_from-from_socket_addr_example =
    try_from-from_socket_addr (λ s. none) loopback (omega arith, omega arith)

-- A frame of two bytes in two reads, and the first byte of the next one.
abbrev two_reads : Incoming
two_reads = record {
  socket_reader = received (0 ∷ 0 ∷ 0 ∷ 2 ∷ 65 ∷ []) ∷ received (66 ∷ 0 ∷ []) ∷ [];
  read_len = none;
  read_buffer = [];
}

two_reads-IsIncoming : IsIncoming two_reads
two_reads-IsIncoming = record {
  reads = ((omega arith, omega arith), ((omega arith, omega arith), tt));
  slack = omega arith;
  bound = omega arith;
}

two_reads-ahead : ahead two_reads ≡ frame (65 ∷ 66 ∷ []) ++ (0 ∷ [])
unfolding frame be_bytes
two_reads-ahead = refl

recv_chunk-Returns_example : Returns (65 ∷ 66 ∷ []) (0 ∷ []) (recv_chunk two_reads)
recv_chunk-Returns_example =
    recv_chunk-Returns two_reads (65 ∷ 66 ∷ []) (0 ∷ []) two_reads-IsIncoming (omega arith)
      two_reads-ahead

-- A socket that keeps what is written.
instance abbrev keeping : SocketOps (List ℕ)
keeping = record { write_all = λ bs w. (w ++ bs, true) }

abbrev kept_bytes : List ℕ → List ℕ
kept_bytes w = w

keeping-Writes : Writes (List ℕ) keeping kept_bytes
keeping-Writes bs w h = refl

abbrev fresh : TcpLink (List ℕ)
fresh = record {
  socket_reader = some [];
  socket_writer = [];
  read_len = none;
  read_buffer = [];
  is_closed = false;
}

abbrev link_after : List (List ℕ) → TcpLink (List ℕ) → TcpLink (List ℕ)
link_after [] l = l
link_after (msg ∷ msgs) l = link_after msgs (send msg l).1

all_sent : (msgs : List (List ℕ)) (l : TcpLink (List ℕ)) → Sends msgs l (link_after msgs l)
all_sent [] l = refl
all_sent (msg ∷ msgs) l = ((send msg l).1, sent msg l, all_sent msgs (send msg l).1)
  where
    sent : (msg : List ℕ) (l : TcpLink (List ℕ)) → send msg l ≡ (ok tt, (send msg l).1)
    sent msg l = unfold send write_chunk in refl

abbrev msgs : List (List ℕ)
msgs = (65 ∷ []) ∷ (66 ∷ 67 ∷ []) ∷ []

abbrev cut_short : Incoming
cut_short = record {
  socket_reader =
      received (0 ∷ 0 ∷ 0 ∷ [])
      ∷ received (1 ∷ 65 ∷ 0 ∷ 0 ∷ 0 ∷ 2 ∷ 66 ∷ [])
      ∷ received (67 ∷ [])
      ∷ [];
  read_len = none;
  read_buffer = [];
}

cut_short-IsIncoming : IsIncoming cut_short
cut_short-IsIncoming = record {
  reads =
      ((omega arith, omega arith), ((omega arith, omega arith), ((omega arith, omega arith), tt)));
  slack = omega arith;
  bound = omega arith;
}

cut_short-ahead : ahead cut_short ≡ (link_after msgs fresh).socket_writer
unfolding send write_chunk be_bytes
cut_short-ahead = refl

-- A message of three bytes in slices of two.
abbrev pieces : List LinkProtocol
pieces = msg_slice 1 4 3 0 (65 ∷ 66 ∷ []) ∷ msg_slice 1 4 3 2 (67 ∷ []) ∷ []

pieces_made : get_slices (from_vec 1 4 (65 ∷ 66 ∷ 67 ∷ [])) 2 ≡ some pieces
unfolding get_slices get_slices_of make_slices cut_slices from_vec
pieces_made = refl

abbrev chunks : List (List ℕ)
chunks = map serialize pieces

abbrev stream_bytes : List ℕ
stream_bytes = (link_after chunks fresh).socket_writer

abbrev arriving : Incoming
arriving = record {
  socket_reader = received (take 30 stream_bytes) ∷ received (drop 30 stream_bytes) ∷ [];
  read_len = none;
  read_buffer = [];
}

arriving-IsIncoming : IsIncoming arriving
unfolding send write_chunk be_bytes serialize u64_bytes
arriving-IsIncoming = record {
  reads = ((omega arith, omega arith), ((omega arith, omega arith), tt));
  slack = omega arith;
  bound = omega arith;
}

arriving-ahead : ahead arriving ≡ stream_bytes
unfolding send write_chunk be_bytes serialize u64_bytes
arriving-ahead = refl

-- A manager of a link that is closed and one that is not, and the message in one slice.
abbrev shut_entry : LinkEntry (TcpLink (List ℕ))
shut_entry = record {
  id = 1;
  link = record fresh { is_closed = true };
  ping_sent = none;
  recent = 5 ∷ [];
}

abbrev open_entry : LinkEntry (TcpLink (List ℕ))
open_entry = record { id = 2; link = fresh; ping_sent = none; recent = 5 ∷ [] }

abbrev whole : List LinkProtocol
whole = msg_slice 1 4 3 0 (65 ∷ 66 ∷ 67 ∷ []) ∷ []

abbrev whole_bytes : List ℕ
whole_bytes = frame (serialize (msg_slice 1 4 3 0 (65 ∷ 66 ∷ 67 ∷ [])))

abbrev sent_entry : LinkEntry (TcpLink (List ℕ))
sent_entry = record open_entry { link = record fresh { socket_writer = whole_bytes } }

abbrev halves : Incoming
halves = record {
  socket_reader = received (take 30 whole_bytes) ∷ received (drop 30 whole_bytes) ∷ [];
  read_len = none;
  read_buffer = [];
}

over_tcp-send_example : over_tcp 9 5 arriving ≡ (map (tagged 9) pieces, false)
over_tcp-send_example =
    over_tcp-send kept_bytes pieces 9 5 fresh (link_after chunks fresh) arriving keeping-Writes refl
      (all_sent chunks fresh) (omega arith) chunks-IsChunk (omega arith) arriving-IsIncoming
      arriving-ahead
  where
    chunks-IsChunk : All IsChunk chunks
    chunks-IsChunk = unfold serialize u64_bytes be_bytes in omega arith

-- A reader with a delay of 5 and one message, sent at 10.
abbrev slow : PipeLinkReader
slow = record {
  rx = ((65 ∷ []), 10) ∷ [];
  sender_gone = false;
  rx_closed = false;
  peeked = none;
  expiration = record { deadline = none; repeat = none };
  latency = some 5;
  canceled = false;
}

slow-Awaits : Awaits (65 ∷ []) 10 [] 5 11 slow
unfolding is_elapsed
slow-Awaits = record {
  none_peeked = refl;
  live = refl;
  unexpired = refl;
  first = refl;
  delayed = refl;
}

read_twice_example :
    ((read 13 14 (read 11 12 slow).1).0 ≡ resumed (65 ∷ []) (max 13 (10 + 5)) 14 slow.expiration)
    × ((read 13 14 (read 11 12 slow).1).1.peeked ≡ none)
    × ((read 13 14 (read 11 12 slow).1).1.rx ≡ [])
read_twice_example = read_twice (65 ∷ []) 10 [] 5 11 12 13 14 slow slow-Awaits (omega arith)
