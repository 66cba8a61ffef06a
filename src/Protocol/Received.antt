-- ===== src/Protocol/Received.antt =====
-- What a successful read says of the message and of the bytes it took.
use link_set.Prelude.{
  ℕ, zero, suc, ◌+◌, ◌<◌, ◌≡◌, refl, List, [], ◌∷◌, length, length-append, length-take, length-drop,
  arith, All, ◌==◌, not,
}
use link_set.Epoch.{from_int}
use link_set.Epoch.Order.{IsOptEpoch}
use link_set.Protocol.{
  LinkProtocol, reset, ack, msg_slice, ping, pong, serialize, deserialize, ok, err, LinkSetResult,
  read_u64, read_u64_checked, read_data, pop_front, deserialize_variant, deserialize_reset,
  deserialize_ack, deserialize_slice, ◌>>=◌,
}
use link_set.Protocol.Bytes.{IsByte, IsU64, read_u64_takes, length-u64_bytes}
use link_set.Protocol.RoundTrip.{IsWire}

-- The number of bytes of each kind of message.
abbrev pub wire_size : LinkProtocol → ℕ
wire_size (reset epoch request) = 10
wire_size (ack epoch seq last_index) = 25
wire_size (msg_slice epoch seq seq_len first_index bytes) = 41 + length bytes
wire_size ping = 1
wire_size pong = 1

pub length-serialize : (m : LinkProtocol) → length (serialize m) ≡ wire_size m
unfolding serialize
length-serialize (reset epoch request) = rw length-append (omega (arith, length-u64_bytes))
length-serialize (ack epoch seq last_index) = simp (length-append, length-u64_bytes)
length-serialize (msg_slice epoch seq seq_len first_index bytes) =
    simp (length-append, length-u64_bytes) (omega arith)
length-serialize ping = refl
length-serialize pong = refl

-- Where a chain succeeds, so does its first link, and the rest does on what that read.
module _ {ℓ κ} {T : Type ℓ} {U : Type κ} where
  >>=-eq-ok :
      (first : LinkSetResult T) (rest : T → LinkSetResult U) {out : U}
      → (first >>= rest) ≡ ok out
      → (value : T) × (first ≡ ok value) × (rest value ≡ ok out)
  >>=-eq-ok (err why) rest done = cc
  >>=-eq-ok (ok value) rest done = (value, refl, done)

read_u64_checked_takes :
    (d : List ℕ) (v : ℕ) (r : List ℕ)
    → All IsByte d
    → read_u64_checked d ≡ ok (v, r)
    → IsU64 v × All IsByte r × (length d ≡ 8 + length r)
unfolding read_u64_checked
read_u64_checked_takes d v r h e = ground (arith, read_u64_takes d v r h)

read_data_takes :
    (n : ℕ) (d bytes r : List ℕ)
    → read_data n d ≡ ok (bytes, r)
    → (0 < length bytes) × (length bytes ≡ n) × (length d ≡ length bytes + length r)
unfolding read_data
read_data_takes n d bytes r e = ground (arith, length-take n d, length-drop n d)

abbrev Took : List ℕ → LinkProtocol × List ℕ → Type 0
Took d t = IsWire t.0 × (length d + 1 ≡ wire_size t.0 + length t.1)

from_int-IsOptEpoch : (n : ℕ) → IsU64 n → IsOptEpoch (from_int n)
from_int-IsOptEpoch n h = ground arith

reset_Took :
    (d : List ℕ) (t : LinkProtocol × List ℕ) → All IsByte d → deserialize_reset d ≡ ok t → Took d t
unfolding deserialize_reset pop_front
reset_Took d t h e =
    let ((n, r1), p, q) = >>=-eq-ok (read_u64 d) _ e in
    let (u, b, l) = read_u64_takes d n r1 h p in last n r1 u l q
  where
    last :
        (n : ℕ) (r1 : List ℕ)
        → IsU64 n
        → length d ≡ 8 + length r1
        → (pop_front r1 >>= λ s. ok (reset (from_int n) (not (s.0 == 0)), s.1)) ≡ ok t
        → Took d t
    last n [] u l q = cc
    last n (c ∷ r) u l q = ground (arith, from_int-IsOptEpoch n u)

ack_Took :
    (d : List ℕ) (t : LinkProtocol × List ℕ) → All IsByte d → deserialize_ack d ≡ ok t → Took d t
unfolding deserialize_ack
ack_Took d t h e =
    let ((n1, r1), p1, q1) = >>=-eq-ok (read_u64 d) _ e in
    let (u1, b1, l1) = read_u64_takes d n1 r1 h p1 in
    let ((n2, r2), p2, q2) = >>=-eq-ok (read_u64_checked r1) _ q1 in
    let (u2, b2, l2) = read_u64_checked_takes r1 n2 r2 b1 p2 in
    let ((n3, r3), p3, q3) = >>=-eq-ok (read_u64_checked r2) _ q2 in
    let (u3, b3, l3) = read_u64_checked_takes r2 n3 r3 b2 p3 in ground arith

slice_Took :
    (d : List ℕ) (t : LinkProtocol × List ℕ) → All IsByte d → deserialize_slice d ≡ ok t → Took d t
unfolding deserialize_slice
slice_Took d t h e =
    let ((n1, r1), p1, q1) = >>=-eq-ok (read_u64 d) _ e in
    let (u1, b1, l1) = read_u64_takes d n1 r1 h p1 in
    let ((n2, r2), p2, q2) = >>=-eq-ok (read_u64_checked r1) _ q1 in
    let (u2, b2, l2) = read_u64_checked_takes r1 n2 r2 b1 p2 in
    let ((n3, r3), p3, q3) = >>=-eq-ok (read_u64_checked r2) _ q2 in
    let (u3, b3, l3) = read_u64_checked_takes r2 n3 r3 b2 p3 in
    let ((n4, r4), p4, q4) = >>=-eq-ok (read_u64_checked r3) _ q3 in
    let (u4, b4, l4) = read_u64_checked_takes r3 n4 r4 b3 p4 in
    let ((n5, r5), p5, q5) = >>=-eq-ok (read_u64_checked r4) _ q4 in
    let (u5, b5, l5) = read_u64_checked_takes r4 n5 r5 b4 p5 in
    let ((bytes, r6), p6, q6) = >>=-eq-ok (read_data n5 r5) _ q5 in
    let (pos, size, l6) = read_data_takes n5 r5 bytes r6 p6 in ground arith

variant_Took :
    (variant : ℕ) (d : List ℕ) (t : LinkProtocol × List ℕ)
    → All IsByte d
    → deserialize_variant variant d ≡ ok t
    → Took d t
unfolding deserialize_variant
variant_Took zero d t h e = reset_Took d t h e
variant_Took (suc zero) d t h e = ack_Took d t h e
variant_Took (suc (suc zero)) d t h e = slice_Took d t h e
variant_Took (suc (suc (suc zero))) d t h e = ground arith
variant_Took (suc (suc (suc (suc zero)))) d t h e = ground arith
variant_Took (suc (suc (suc (suc (suc n))))) d t h e = cc

-- A message that was read from bytes fits the wire: its fields are 64-bit, a missing epoch is the
-- only zero one, and a slice carries at least one byte. As many bytes are gone from the input as
-- writing the message takes.
pub deserialize-IsWire :
    (d : List ℕ) (m : LinkProtocol) (rest : List ℕ)
    → All IsByte d
    → deserialize d ≡ ok (m, rest)
    → IsWire m × (length d ≡ length (serialize m) + length rest)
unfolding deserialize pop_front
deserialize-IsWire [] m rest h e = cc
deserialize-IsWire (variant ∷ d) m rest h e =
    let (w, l) = variant_Took variant d (m, rest) h.1 e in (w, omega (arith, length-serialize m))
