-- ===== src/Protocol/RoundTrip.antt =====
-- Reading back what was written.
use link_set.Prelude.{
  ℕ, ◌<◌, ◌≡◌, refl, List, ◌∷◌, ◌++◌, append_assoc, length, length-append, take-append, drop-append,
  arith, le→ltb, Bool, true, false, not, ◌==◌, Option, none, some,
}
use link_set.Epoch.{opt_epoch_to_int}
use link_set.Epoch.Order.{IsOptEpoch, from_int-opt_epoch_to_int}
use link_set.Protocol.{
  LinkProtocol, reset, ack, msg_slice, ping, pong, serialize, deserialize, ok, LinkSetResult,
  u64_bytes, read_u64_checked, read_data, pop_front, deserialize_variant, deserialize_reset,
  deserialize_ack, deserialize_slice, bool_byte,
}
use link_set.Protocol.Bytes.{IsU64, length-u64_bytes, read_u64-u64_bytes}

-- The messages that fit the wire: 64-bit fields, and a slice that carries at least one byte.
abbrev pub IsWire : LinkProtocol → Type 0
IsWire (reset epoch request) = IsOptEpoch epoch
IsWire (ack epoch seq last_index) = IsU64 epoch × IsU64 seq × IsU64 last_index
IsWire (msg_slice epoch seq seq_len first_index bytes) =
    IsU64 epoch
    × IsU64 seq
    × IsU64 seq_len
    × IsU64 first_index
    × (0 < length bytes)
    × IsU64 (length bytes)
IsWire ping = Unit
IsWire pong = Unit

read_u64_checked-u64_bytes :
    (v : ℕ) (rest : List ℕ) → IsU64 v → read_u64_checked (u64_bytes v ++ rest) ≡ ok (v, rest)
unfolding read_u64_checked
read_u64_checked-u64_bytes v rest h =
    rw
      (le→ltb (length (u64_bytes v ++ rest)) 8
        (omega (arith, length-append (u64_bytes v) rest, length-u64_bytes v)))
      (read_u64-u64_bytes v rest h)

read_data-append :
    (bytes rest : List ℕ)
    → 0 < length bytes
    → read_data (length bytes) (bytes ++ rest) ≡ ok (bytes, rest)
unfolding read_data
read_data-append bytes rest h =
    ground (arith, length-append bytes rest, take-append bytes rest, drop-append bytes rest)

opt_epoch-IsU64 : (o : Option ℕ) → IsOptEpoch o → IsU64 (opt_epoch_to_int o)
opt_epoch-IsU64 none h = omega arith
opt_epoch-IsU64 (some e) h = omega arith

reset_round_trip :
    (epoch : Option ℕ) (request : Bool) (rest : List ℕ)
    → IsOptEpoch epoch
    → deserialize_reset (u64_bytes (opt_epoch_to_int epoch) ++ (bool_byte request ∷ rest))
      ≡ ok (reset epoch request, rest)
unfolding deserialize_reset pop_front
reset_round_trip epoch request rest h =
    rw
      (read_u64-u64_bytes (opt_epoch_to_int epoch) (bool_byte request ∷ rest)
        (opt_epoch-IsU64 epoch h))
      (rw (from_int-opt_epoch_to_int epoch h) (byte_of request))
  where
    byte_of :
        (b : Bool)
        → ◌≡◌ {A = LinkSetResult (LinkProtocol × List ℕ)}
            (ok (reset epoch (not (bool_byte b == 0)), rest))
            (ok (reset epoch b, rest))
    byte_of true = refl
    byte_of false = refl

ack_round_trip :
    (epoch seq last_index : ℕ) (rest : List ℕ)
    → IsWire (ack epoch seq last_index)
    → deserialize_ack (u64_bytes epoch ++ (u64_bytes seq ++ (u64_bytes last_index ++ rest)))
      ≡ ok (ack epoch seq last_index, rest)
unfolding deserialize_ack
ack_round_trip epoch seq last_index rest (a, b, c) = rw (
  read_u64-u64_bytes epoch (u64_bytes seq ++ (u64_bytes last_index ++ rest)) a,
  read_u64_checked-u64_bytes seq (u64_bytes last_index ++ rest) b,
  read_u64_checked-u64_bytes last_index rest c,
)

slice_round_trip :
    (epoch seq seq_len first_index : ℕ) (bytes rest : List ℕ)
    → IsWire (msg_slice epoch seq seq_len first_index bytes)
    → deserialize_slice (
        u64_bytes epoch
        ++ (u64_bytes seq
            ++ (u64_bytes seq_len
                ++ (u64_bytes first_index ++ (u64_bytes (length bytes) ++ (bytes ++ rest))))))
      ≡ ok (msg_slice epoch seq seq_len first_index bytes, rest)
unfolding deserialize_slice
slice_round_trip epoch seq seq_len first_index bytes rest (a, b, c, d, e, f) =
    let r4 = u64_bytes (length bytes) ++ (bytes ++ rest) in
    let r3 = u64_bytes first_index ++ r4 in
    let r2 = u64_bytes seq_len ++ r3 in
    rw (
      read_u64-u64_bytes epoch (u64_bytes seq ++ r2) a,
      read_u64_checked-u64_bytes seq r2 b,
      read_u64_checked-u64_bytes seq_len r3 c,
      read_u64_checked-u64_bytes first_index r4 d,
      read_u64_checked-u64_bytes (length bytes) (bytes ++ rest) f,
      read_data-append bytes rest e,
    )

-- Reading the bytes of any message that fits the wire, with anything behind them, gives the message
-- back and leaves what was behind.
pub deserialize-serialize :
    (m : LinkProtocol) (rest : List ℕ) → IsWire m → deserialize (serialize m ++ rest) ≡ ok (m, rest)
unfolding deserialize serialize pop_front deserialize_variant
deserialize-serialize (reset epoch request) rest h =
    rw append_assoc (reset_round_trip epoch request rest h)
deserialize-serialize (ack epoch seq last_index) rest h =
    simp append_assoc (ack_round_trip epoch seq last_index rest h)
deserialize-serialize (msg_slice epoch seq seq_len first_index bytes) rest h =
    simp append_assoc (slice_round_trip epoch seq seq_len first_index bytes rest h)
deserialize-serialize ping rest h = refl
deserialize-serialize pong rest h = refl
