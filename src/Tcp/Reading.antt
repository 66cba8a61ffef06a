-- ===== src/Tcp/Reading.antt =====
-- The task of `take_reader`, and what its reader is given of the messages that a peer sends.
use link_set.Prelude.{
  ℕ, zero, suc, ◌+◌, ◌%◌, ◌≤◌, ◌≡◌, refl, sym, ap, ◌∙◌, List, [], ◌∷◌, ◌++◌, Option, none, some,
  length, All, true, false, arith, append_assoc, append-nil, length-append,
}
use link_set.Protocol.{be_bytes}
use link_set.Protocol.Bytes.{length-be_bytes}
use link_set.Tcp.{
  Read, received, failed, Incoming, u32_size, TcpLink, SocketOps, ok, recv_chunk, recv_len, frame,
  read_task, deliver, dropped, send, write_chunk,
}
use link_set.Tcp.Frames.{IsRead, IsIncoming, ahead, stream, pending}
use link_set.Tcp.Chunks.{recv_chunk-Returns}

-- A message that a reader can take: no sum of its length and of one read reaches 2^32.
abbrev pub IsChunk : List ℕ → Type 0
IsChunk msg = length msg + 1024 ≤ u32_size

abbrev pub frames : List (List ℕ) → List ℕ
frames [] = []
frames (msg ∷ msgs) = frame msg ++ frames msgs

idle_from :
    (reads : List Read) (len : Option ℕ) (buffer : List ℕ)
    → All IsRead reads
    → pending len ++ (buffer ++ stream reads) ≡ []
    → (i : Incoming) × (recv_chunk
          (record { socket_reader = reads; read_len = len; read_buffer = buffer })
        ≡ (none, i))
unfolding recv_chunk recv_len
idle_from [] none [] live same =
    (record { socket_reader = []; read_len = none; read_buffer = [] }, refl)
idle_from (failed ∷ reads) none [] live same = absurd live.0
idle_from (received [] ∷ reads) none [] live same = absurd (omega (arith, live.0))
idle_from (received (b ∷ bs) ∷ reads) none [] live same = absurd (ground arith)
idle_from reads none (b ∷ buffer) live same = absurd (ground arith)
idle_from reads (some len) buffer live same = absurd (
    omega (
      arith,
      ap length same,
      length-append (be_bytes 4 len) (buffer ++ stream reads),
      length-be_bytes 4 len,
    ))

-- With nothing ahead the reader waits.
idle :
    (i : Incoming) → IsIncoming i → ahead i ≡ [] → (left : Incoming) × (recv_chunk i ≡ (none, left))
idle i fine same = idle_from i.socket_reader i.read_len i.read_buffer fine.reads same

-- The task hands over exactly the messages whose frames are ahead, in order, and waits for more: the
-- link stays open.
read_task-frames :
    (msgs : List (List ℕ)) (room : ℕ) (i : Incoming)
    → IsIncoming i
    → All IsChunk msgs
    → length msgs ≤ room
    → ahead i ≡ frames msgs
    → read_task room i ≡ (msgs, false)
unfolding read_task
read_task-frames [] zero i fine small enough same =
    let (left, waits) = idle i fine same in rw (waits, dropped) refl
read_task-frames [] (suc room) i fine small enough same =
    let (left, waits) = idle i fine same in rw (waits, deliver) refl
read_task-frames (msg ∷ msgs) zero i fine small enough same = absurd (omega arith)
read_task-frames (msg ∷ msgs) (suc room) i fine small enough same =
    let (left, chunk, behind, fine') = recv_chunk-Returns i msg (frames msgs) fine small.0 same in
    rw (chunk, deliver)
      (rw (read_task-frames msgs room left fine' small.1 (omega arith) behind) refl)

-- What the sockets' write half keeps of the bytes that were written with success.
abbrev pub Writes : (W : Type 0) → SocketOps W → (W → List ℕ) → Type 0
Writes W o written =
    (bs : List ℕ) (w : W)
    → (o.write_all bs w).1 ≡ true
    → written (o.write_all bs w).0 ≡ written w ++ bs

module _ {W : Type 0} ⦃o : SocketOps W⦄ where
  -- The link after messages that were all sent with success.
  abbrev pub Sends : List (List ℕ) → TcpLink W → TcpLink W → Type 0
  Sends [] l l' = l' ≡ l
  Sends (msg ∷ msgs) l l' = (left : TcpLink W) × (send msg l ≡ (ok tt, left)) × Sends msgs left l'

  send-frame :
      (written : W → List ℕ) (msg : List ℕ) (l l' : TcpLink W)
      → Writes W o written
      → send msg l ≡ (ok tt, l')
      → written l'.socket_writer ≡ written l.socket_writer ++ frame msg
  unfolding send write_chunk frame
  send-frame written msg l l' law h =
      let w = l.socket_writer in
      let len = be_bytes 4 (length msg % u32_size) in
      let w' = (o.write_all len w).0 in
      ground (arith, law len w, law msg w', append_assoc (written w) len msg)

  Sends-frames :
      (written : W → List ℕ) (msgs : List (List ℕ)) (l l' : TcpLink W)
      → Writes W o written
      → Sends msgs l l'
      → written l'.socket_writer ≡ written l.socket_writer ++ frames msgs
  Sends-frames written [] l l' law h = ap (λ k. written k.socket_writer) h ∙ sym (append-nil _)
  Sends-frames written (msg ∷ msgs) l l' law (left, sent, more) =
      Sends-frames written msgs left l' law more
      ∙ ap (λ t. t ++ frames msgs) (send-frame written msg l left law sent)
      ∙ append_assoc (written l.socket_writer) (frame msg) (frames msgs)

  -- Messages of at most 2^32 - 1024 bytes are sent with success over a fresh link, and a reader
  -- between two calls has ahead what was written, in whatever reads: if its channel takes so many,
  -- the task hands over all of them, in order, and the link stays open.
  pub read_task-send :
      (written : W → List ℕ) (msgs : List (List ℕ)) (room : ℕ) (l l' : TcpLink W) (i : Incoming)
      → Writes W o written
      → written l.socket_writer ≡ []
      → Sends msgs l l'
      → All IsChunk msgs
      → length msgs ≤ room
      → IsIncoming i
      → ahead i ≡ written l'.socket_writer
      → read_task room i ≡ (msgs, false)
  read_task-send written msgs room l l' i law fresh sent small enough fine same =
      read_task-frames msgs room i fine small enough
        (same ∙ Sends-frames written msgs l l' law sent ∙ ap (λ t. t ++ frames msgs) fresh)
