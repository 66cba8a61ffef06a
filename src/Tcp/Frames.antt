-- ===== src/Tcp/Frames.antt =====
-- The bytes that a link has ahead of it: those that it holds, and those that its socket will give.
use link_set.Prelude.{
  ℕ, ◌+◌, ◌≤◌, ◌<◌, ◌≡◌, sym, ap, ◌∙◌, List, [], ◌∷◌, ◌++◌, Option, none, some, length, take, drop,
  All, arith, take-append, drop-append, take_append_le, drop_append_le,
}
use link_set.Protocol.{be_bytes, from_be_bytes}
use link_set.Protocol.Bytes.{length-be_bytes, from_be_bytes-be_bytes}
use link_set.Tcp.{Read, received, failed, Incoming, Polled, u32_size, ok}

-- A read of the code's buffer of 1024 bytes, before the end of the stream.
abbrev pub IsRead : Read → Type 0
IsRead (received bs) = (0 < length bs) × (length bs ≤ 1024)
IsRead failed = ⊥

-- What the socket gives before the stream ends or fails.
abbrev pub stream : List Read → List ℕ
stream [] = []
stream (failed ∷ reads) = []
stream (received [] ∷ reads) = []
stream (received (b ∷ bs) ∷ reads) = (b ∷ bs) ++ stream reads

-- The length that was taken off the buffer already.
abbrev pub pending : Option ℕ → List ℕ
pending none = []
pending (some len) = be_bytes 4 len

abbrev pub want : Option ℕ → ℕ
want none = 0
want (some len) = len

abbrev pub ahead : Incoming → List ℕ
ahead i = pending i.read_len ++ (i.read_buffer ++ stream i.socket_reader)

-- The state of a reader between two calls: less than one read too much is held.
pub record IsIncoming (i : Incoming) : Type 0 where
  pub reads : All IsRead i.socket_reader
  pub slack : length i.read_buffer < want i.read_len + 1024
  pub bound : want i.read_len < u32_size

-- The answer is `msg`, and `rest` is ahead then.
abbrev pub Returns : List ℕ → List ℕ → Polled → Type 0
Returns msg rest p = (i : Incoming) × (p ≡ (some (ok msg), i)) × (ahead i ≡ rest) × IsIncoming i

-- A front that the buffer holds whole is what `take` and `drop` find there.
pub take_front :
    (xs ys us vs : List ℕ) → xs ++ ys ≡ us ++ vs → length us ≤ length xs → take (length us) xs ≡ us
take_front xs ys us vs same enough =
    sym (take_append_le (length us) xs ys enough) ∙ ap (take (length us)) same ∙ take-append us vs

pub drop_front :
    (xs ys us vs : List ℕ)
    → xs ++ ys ≡ us ++ vs
    → length us ≤ length xs
    → drop (length us) xs ++ ys ≡ vs
drop_front xs ys us vs same enough =
    sym (drop_append_le (length us) xs ys enough) ∙ ap (drop (length us)) same ∙ drop-append us vs

-- Two lengths that are written the same are the same.
pub be_bytes-inj :
    (n m : ℕ) (xs ys : List ℕ)
    → n < u32_size
    → m < u32_size
    → be_bytes 4 n ++ xs ≡ be_bytes 4 m ++ ys
    → (n ≡ m) × (xs ≡ ys)
be_bytes-inj n m xs ys a b h =
    let wide : length (be_bytes 4 m) ≡ length (be_bytes 4 n) =
      length-be_bytes 4 m ∙ sym (length-be_bytes 4 n) in
    let h' : be_bytes 4 n ++ xs ≡ be_bytes 4 m ++ ys = h in
    let front : be_bytes 4 n ≡ be_bytes 4 m =
      sym (take-append (be_bytes 4 n) xs)
      ∙ ap (take (length (be_bytes 4 n))) h
      ∙ sym (ap (λ k. take k (be_bytes 4 m ++ ys)) wide)
      ∙ take-append (be_bytes 4 m) ys in
    let back : xs ≡ ys =
      sym (drop-append (be_bytes 4 n) xs)
      ∙ ap (drop (length (be_bytes 4 n))) h
      ∙ sym (ap (λ k. drop k (be_bytes 4 m ++ ys)) wide)
      ∙ drop-append (be_bytes 4 m) ys in
    (
      sym (from_be_bytes-be_bytes 4 n (omega arith))
          ∙ ap (from_be_bytes 0) front
          ∙ from_be_bytes-be_bytes 4 m (omega arith),
      back,
    )
