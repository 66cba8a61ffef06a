-- ===== src/Tcp/Chunks.antt =====
-- `recv_chunk` on a stream that has a whole frame ahead.
use link_set.Prelude.{
  ℕ, ◌+◌, ◌%◌, ◌≤◌, ◌<◌, ◌≡◌, ap, ◌∙◌, List, [], ◌∷◌, ◌++◌, Option, none, some, length, take, drop,
  All, arith, append_assoc, append-nil, length-append, length-drop, leb, le→leb, leb→le, true,
  false, Bool-cases, inl, inr,
}
use mathlib.Core.Path.{subst}
use link_set.Protocol.{be_bytes, from_be_bytes}
use link_set.Protocol.Bytes.{length-be_bytes, from_be_bytes-be_bytes}
use link_set.Tcp.{
  Read, received, failed, Incoming, u32_size, ok, take_chunk, recv_data, recv_len, recv_chunk,
  take_len, frame, unless_end,
}
use link_set.Tcp.Frames.{
  IsRead, IsIncoming, pending, Returns, stream, ahead, take_front, drop_front, be_bytes-inj,
}

take_chunk-Returns :
    (buffer : List ℕ) (reads : List Read) (msg rest : List ℕ)
    → All IsRead reads
    → length buffer < length msg + 1024
    → length msg ≤ length buffer
    → buffer ++ stream reads ≡ msg ++ rest
    → Returns msg rest (take_chunk (length msg) buffer reads)
unfolding take_chunk
take_chunk-Returns buffer reads msg rest live slack enough same = (
  record { socket_reader = reads; read_len = none; read_buffer = drop (length msg) buffer },
  ap
      (λ t. (
        some (ok t),
        record { socket_reader = reads; read_len = none; read_buffer = drop (length msg) buffer },
      ))
      (take_front buffer (stream reads) msg rest same enough),
  drop_front buffer (stream reads) msg rest same enough,
  record {
    reads = live;
    slack = omega (arith, length-drop (length msg) buffer);
    bound = omega arith;
  },
)

fits :
    (len held : ℕ)
    → held < len + 1024
    → len + 1024 ≤ u32_size
    → leb len (held % u32_size) ≡ true
    → len ≤ held
fits len held slack small e = ground (arith)

short :
    (len held : ℕ)
    → held < len + 1024
    → len + 1024 ≤ u32_size
    → leb len (held % u32_size) ≡ false
    → held < len
short len held slack small e = ground (arith)

-- A buffer that is all there is ahead holds the message.
holds : (buffer msg rest : List ℕ) → buffer ++ [] ≡ msg ++ rest → length msg ≤ length buffer
holds buffer msg rest same =
    omega (arith, ap length (append-nil buffer), ap length same, length-append msg rest)

recv_data-Returns :
    (buffer : List ℕ) (reads : List Read) (msg rest : List ℕ)
    → All IsRead reads
    → length buffer < length msg + 1024
    → length msg + 1024 ≤ u32_size
    → buffer ++ stream reads ≡ msg ++ rest
    → Returns msg rest (recv_data (length msg) buffer reads)
unfolding recv_data
recv_data-Returns buffer [] msg rest live slack small same =
    let enough = holds buffer msg rest same in
    rw (le→leb (length msg) (length buffer % u32_size) (omega arith))
      (take_chunk-Returns buffer [] msg rest live slack enough same)
recv_data-Returns buffer (failed ∷ reads) msg rest live slack small same = absurd live.0
recv_data-Returns buffer (received [] ∷ reads) msg rest live slack small same =
    absurd (omega (arith, live.0))
recv_data-Returns buffer (received (b ∷ bs) ∷ reads) msg rest live slack small same =
    elim (Bool-cases (leb (length msg) (length buffer % u32_size))) [
      | inl e ↦ rw e (
          take_chunk-Returns buffer (received (b ∷ bs) ∷ reads) msg rest live slack
            (fits (length msg) (length buffer) slack small e) same)
      | inr e ↦
          let less = short (length msg) (length buffer) slack small e in
          rw (e, unless_end)
            (recv_data-Returns (buffer ++ (b ∷ bs)) reads msg rest live.1
              (omega (arith, length-append buffer (b ∷ bs), live.0)) small
              (append_assoc buffer (b ∷ bs) (stream reads) ∙ same))
    ]

take_len-Returns :
    (buffer : List ℕ) (reads : List Read) (msg rest : List ℕ)
    → All IsRead reads
    → 4 ≤ length buffer
    → length buffer < 1028
    → length msg + 1024 ≤ u32_size
    → buffer ++ stream reads ≡ be_bytes 4 (length msg) ++ (msg ++ rest)
    → Returns msg rest (take_len buffer reads)
unfolding take_len
take_len-Returns buffer reads msg rest live enough slack small same =
    let wide = length-be_bytes 4 (length msg) in
    let len : from_be_bytes 0 (take 4 buffer) ≡ length msg =
      ap (from_be_bytes 0) (
        subst (λ n. take n buffer ≡ be_bytes 4 (length msg)) wide
          (take_front buffer (stream reads) (be_bytes 4 (length msg)) (msg ++ rest) same
            (omega arith)))
      ∙ from_be_bytes-be_bytes 4 (length msg) (omega arith) in
    let behind : drop 4 buffer ++ stream reads ≡ msg ++ rest =
      subst (λ n. drop n buffer ++ stream reads ≡ msg ++ rest) wide
        (drop_front buffer (stream reads) (be_bytes 4 (length msg)) (msg ++ rest) same
          (omega arith)) in
    rw len (
      recv_data-Returns (drop 4 buffer) reads msg rest live (omega (arith, length-drop 4 buffer))
        small behind)

recv_len-Returns :
    (buffer : List ℕ) (reads : List Read) (msg rest : List ℕ)
    → All IsRead reads
    → length buffer < 1028
    → length msg + 1024 ≤ u32_size
    → buffer ++ stream reads ≡ be_bytes 4 (length msg) ++ (msg ++ rest)
    → Returns msg rest (recv_len buffer reads)
unfolding recv_len
recv_len-Returns buffer [] msg rest live slack small same =
    let enough = holds buffer (be_bytes 4 (length msg)) (msg ++ rest) same in
    let wide = length-be_bytes 4 (length msg) in
    rw (le→leb 4 (length buffer) (omega arith))
      (take_len-Returns buffer [] msg rest live (omega arith) slack small same)
recv_len-Returns buffer (failed ∷ reads) msg rest live slack small same = absurd live.0
recv_len-Returns buffer (received [] ∷ reads) msg rest live slack small same =
    absurd (omega (arith, live.0))
recv_len-Returns buffer (received (b ∷ bs) ∷ reads) msg rest live slack small same =
    elim (Bool-cases (leb 4 (length buffer))) [
      | inl e ↦ rw e (
          take_len-Returns buffer (received (b ∷ bs) ∷ reads) msg rest live
            (leb→le 4 (length buffer) e) slack small same)
      | inr e ↦
          let less : length buffer < 4 = ground arith in
          rw (e, unless_end)
            (recv_len-Returns (buffer ++ (b ∷ bs)) reads msg rest live.1
              (omega (arith, length-append buffer (b ∷ bs), live.0)) small
              (append_assoc buffer (b ∷ bs) (stream reads) ∙ same))
    ]

frame-append :
    (msg rest : List ℕ)
    → length msg < u32_size
    → frame msg ++ rest ≡ be_bytes 4 (length msg) ++ (msg ++ rest)
unfolding frame
frame-append msg rest small =
    let whole : length msg % u32_size ≡ length msg = omega arith in
    rw whole (append_assoc (be_bytes 4 (length msg)) msg rest)

recv_from-Returns :
    (reads : List Read) (len : Option ℕ) (buffer msg rest : List ℕ)
    → IsIncoming (record { socket_reader = reads; read_len = len; read_buffer = buffer })
    → length msg + 1024 ≤ u32_size
    → pending len ++ (buffer ++ stream reads) ≡ frame msg ++ rest
    → Returns msg rest
        (recv_chunk (record { socket_reader = reads; read_len = len; read_buffer = buffer }))
unfolding recv_chunk
recv_from-Returns reads none buffer msg rest fine small same =
    recv_len-Returns buffer reads msg rest fine.reads (omega (arith, fine.slack)) small
      (same ∙ frame-append msg rest (omega arith))
recv_from-Returns reads (some len) buffer msg rest fine small same =
    let (lens, behind) =
      be_bytes-inj len (length msg) (buffer ++ stream reads) (msg ++ rest) fine.bound (omega arith)
        (same ∙ frame-append msg rest (omega arith)) in
    rw lens (
      recv_data-Returns buffer reads msg rest fine.reads (omega (arith, lens, fine.slack)) small
        behind)

-- A reader between two calls, whose socket goes on to deliver: if a frame of at most 2^32 - 1024
-- bytes is ahead, in whatever reads, then `recv_chunk` gives its message, what was behind the
-- frame is ahead, and the reader is between two calls again.
pub recv_chunk-Returns :
    (i : Incoming) (msg rest : List ℕ)
    → IsIncoming i
    → length msg + 1024 ≤ u32_size
    → ahead i ≡ frame msg ++ rest
    → Returns msg rest (recv_chunk i)
recv_chunk-Returns i msg rest fine small same =
    recv_from-Returns i.socket_reader i.read_len i.read_buffer msg rest fine small same
