-- ===== src/Links/Message.antt =====
-- A whole message from one end to the other: src/slice_manager.rs at both ends,
-- src/links/link_entry.rs and src/link_impls/tcp_link.rs between them.
use link_set.Prelude.{
  ℕ, ◌+◌, ◌≤◌, ◌<◌, min, ◌≡◌, refl, ap, sym, ◌∙◌, List, [], ◌∷◌, map, length, All, some, arith,
  take, drop, length-take, length-drop,
}
use mathlib.Core.Path.{subst}
use link_set.Epoch.{u64_max}
use link_set.Protocol.{LinkProtocol, msg_slice, serialize}
use link_set.Protocol.Bytes.{IsU64}
use link_set.Protocol.RoundTrip.{IsWire}
use link_set.Protocol.Received.{length-serialize}
use link_set.Slices.{SliceManager, blank, from_vec, contents, get_slices}
use link_set.Slices.Cutting.{IsCut}
use link_set.Slices.Delivery.{recv_all, from_vec-IsCut, recv_all-IsCut}
use link_set.Links.Reader.{tagged}
use link_set.Links.Transport.{over_tcp, over_tcp-send}
use link_set.Tcp.{TcpLink, SocketOps, Incoming, u32_size}
use link_set.Tcp.Frames.{IsIncoming, ahead}
use link_set.Tcp.Reading.{IsChunk, Writes, Sends}

-- The messages without the ids.
abbrev pub protos_of : List (ℕ × LinkProtocol) → List LinkProtocol
protos_of msgs = map (λ m. m.1) msgs

protos_of-tagged : (id : ℕ) (ps : List LinkProtocol) → protos_of (map (tagged id) ps) ≡ ps
protos_of-tagged id [] = refl
protos_of-tagged id (p ∷ ps) = ap (λ t. p ∷ t) (protos_of-tagged id ps)

-- A piece of a message fits the wire and a chunk.
module _ (orig : List ℕ) (epoch seq size : ℕ) (e : IsU64 epoch) (s : IsU64 seq)
    (small : min size (length orig) + 1065 ≤ u32_size) (fits : length orig ≤ u64_max) where
  IsWire-IsCut :
      (lo hi : ℕ) (ps : List LinkProtocol)
      → hi ≤ length orig
      → IsCut orig epoch seq size lo hi ps
      → All IsWire ps × All IsChunk (map serialize ps)
  IsWire-IsCut lo hi [] b cut = (tt, tt)
  IsWire-IsCut lo hi (p ∷ ps) b (n, piece, pos, most, inside, cut) =
      let (wire, chunks) = IsWire-IsCut (lo + n) hi ps b cut in
      let bytes = take n (drop lo orig) in
      let slice = msg_slice epoch seq (length orig) lo bytes in
      let whole : length bytes ≡ n =
        omega (arith, length-take n (drop lo orig), length-drop lo orig) in
      let slice_wire : IsWire slice =
        (e, s, omega arith, omega arith, omega (arith, whole), omega (arith, whole)) in
      let slice_chunk : IsChunk (serialize slice) = omega (arith, length-serialize slice, whole) in
      (
        (subst IsWire (sym piece) slice_wire, wire),
        (subst (λ q. IsChunk (serialize q)) (sym piece) slice_chunk, chunks),
      )

module _ {W : Type 0} ⦃o : SocketOps W⦄ where
  -- A message of at least one byte, with 64-bit length, epoch and number, is cut for any size but
  -- 0, and it or the size is small enough for a chunk. If all its slices are sent with success over
  -- a fresh TCP link, and the reader at the other end has ahead what was written, in whatever reads,
  -- and takes so many, then a receiver of that message does not panic on what is handed on there,
  -- and gives out the message.
  pub contents-over_tcp :
      (written : W → List ℕ) (orig : List ℕ) (epoch seq size id room : ℕ) (ps : List LinkProtocol)
      (l l' : TcpLink W) (i : Incoming)
      → Writes W o written
      → written l.socket_writer ≡ []
      → 0 < length orig
      → length orig ≤ u64_max
      → IsU64 epoch
      → IsU64 seq
      → 0 < size
      → min size (length orig) + 1065 ≤ u32_size
      → get_slices (from_vec epoch seq orig) size ≡ some ps
      → Sends (map serialize ps) l l'
      → length ps ≤ room
      → IsIncoming i
      → ahead i ≡ written l'.socket_writer
      → (mgr : SliceManager) × (recv_all
            (protos_of (over_tcp id room i).0)
            (blank epoch seq (length orig))
          ≡ some mgr)
        × (contents mgr ≡ some orig)
  contents-over_tcp written orig epoch seq size id room ps l l' i law fresh pos fits e s some_size
        small made sent enough fine same =
      let (cut_ps, cut_made, cut) = from_vec-IsCut orig epoch seq size pos some_size in
      let cut' : IsCut orig epoch seq size 0 (length orig) ps =
        subst (IsCut orig epoch seq size 0 (length orig)) {x = cut_ps} (same_slices cut_ps cut_made)
          cut in
      let (wire, chunks) =
        IsWire-IsCut orig epoch seq size e s small fits 0 (length orig) ps (omega arith) cut' in
      let out =
        ap (λ f. protos_of f.0)
          (over_tcp-send written ps id room l l' i law fresh sent wire chunks enough fine same)
        ∙ protos_of-tagged id ps in
      rw out (recv_all-IsCut orig epoch seq size ps pos fits cut')
    where
      same_slices :
          (qs : List LinkProtocol) → get_slices (from_vec epoch seq orig) size ≡ some qs → qs ≡ ps
      same_slices qs h = cc
