-- ===== src/Protocol.antt =====
-- src/protocol.rs: the messages that travel over a link, and their bytes; src/error.rs. A `Vec<u8>`
-- and a `VecDeque<u8>` are lists of numbers, the front first.
pub mod Bytes
pub mod RoundTrip
pub mod Received
pub mod Truncation
use link_set.Prelude.{
  ℕ, zero, suc, ◌+◌, ◌*◌, ◌/◌, ◌%◌, Option, List, [], ◌∷◌, ◌++◌, Bool, true, false, not, length,
  take, drop, ltb, ◌==◌, if◌then◌else◌, ◌≡◌, refl, ◌⊎◌, inl, inr,
}
use link_set.Epoch.{Epoch, from_int, opt_epoch_to_int}

-- The errors of src/error.rs that the modelled code builds; the boxed causes, and the names of the
-- two types of an address, are left out.
pub data LinkSetError : Type 0 where
  deserialize_eof : LinkSetError
  deserialize_invalid : ℕ → LinkSetError
  deserialize_invalid_len : LinkSetError
  link_error : LinkSetError
  implementation : ℕ → ℕ → LinkSetError
  closed : LinkSetError
  incorrect_addr_type : LinkSetError
  sendable_serialization : LinkSetError
  sendable_deserialization : LinkSetError
  receiver_taken : LinkSetError
  terminated : LinkSetError

-- `Result<T, LinkSetError>`
pub data LinkSetResult {ℓ} (T : Type ℓ) : Type ℓ where
  err : LinkSetError → LinkSetResult T
  ok : T → LinkSetResult T

-- To split on a result and keep the equation.
pub Result-cases :
    {A : Type 0} (r : LinkSetResult A) → ((a : A) × (r ≡ ok a)) ⊎ ((e : LinkSetError) × (r ≡ err e))
Result-cases (ok a) = inl (a, refl)
Result-cases (err e) = inr (e, refl)

-- The operator `?`: the first error ends the function.
module _ {ℓ κ} {T : Type ℓ} {U : Type κ} where
  infixl 5 ◌>>=◌
  abbrev pub ◌>>=◌ : LinkSetResult T → (T → LinkSetResult U) → LinkSetResult U
  err why >>= rest = err why
  ok value >>= rest = rest value

module _ {κ} {U : Type κ} where
  infixl 5 ◌>>◌
  abbrev pub ◌>>◌ : LinkSetResult (Unit {0}) → LinkSetResult U → LinkSetResult U
  check >> rest = check >>= λ done. rest

-- `if test { return Err(e) }`
abbrev pub fail_if : Bool → LinkSetError → LinkSetResult (Unit {0})
fail_if true e = err e
fail_if false e = ok tt

pub data LinkProtocol : Type 0 where
  -- epoch, request
  reset : Option Epoch → Bool → LinkProtocol
  -- epoch, seq, last_index
  ack : ℕ → ℕ → ℕ → LinkProtocol
  -- epoch, seq, seq_len, first_index, data
  msg_slice : ℕ → ℕ → ℕ → ℕ → List ℕ → LinkProtocol
  ping : LinkProtocol
  pong : LinkProtocol

-- `to_be_bytes` of an integer of `width` bytes.
unfoldable pub be_bytes : ℕ → ℕ → List ℕ
be_bytes zero v = []
be_bytes (suc width) v = be_bytes width (v / 256) ++ (v % 256 ∷ [])

-- `from_be_bytes`
unfoldable pub from_be_bytes : ℕ → List ℕ → ℕ
from_be_bytes acc [] = acc
from_be_bytes acc (b ∷ bs) = from_be_bytes (acc * 256 + b) bs

unfoldable pub u64_bytes : ℕ → List ℕ
u64_bytes v = be_bytes 8 v

-- `reply as u8`
abbrev pub bool_byte : Bool → ℕ
bool_byte true = 1
bool_byte false = 0

unfoldable pub serialize : LinkProtocol → List ℕ
serialize (reset epoch request) =
    0 ∷ (u64_bytes (opt_epoch_to_int epoch) ++ (bool_byte request ∷ []))
serialize (ack epoch seq last_index) =
    1 ∷ (u64_bytes epoch ++ (u64_bytes seq ++ u64_bytes last_index))
serialize (msg_slice epoch seq seq_len first_index bytes) =
    2
    ∷ (u64_bytes epoch
        ++ (u64_bytes seq
            ++ (u64_bytes seq_len
                ++ (u64_bytes first_index ++ (u64_bytes (length bytes) ++ bytes)))))
serialize ping = 3 ∷ []
serialize pong = 4 ∷ []

-- `pop_front().ok_or(DeserializeEOF)`
unfoldable pub pop_front : List ℕ → LinkSetResult (ℕ × List ℕ)
pop_front [] = err deserialize_eof
pop_front (b ∷ rest) = ok (b, rest)

-- `read_exact` into eight bytes, and `from_be_bytes`
unfoldable pub read_u64 : List ℕ → LinkSetResult (ℕ × List ℕ)
read_u64 bytes =
    if ltb (length bytes) 8
    then err deserialize_eof
    else ok (from_be_bytes 0 (take 8 bytes), drop 8 bytes)

-- A read behind the code's own test `if data.len() < 8 { return Err(DeserializeEOF) }`
unfoldable pub read_u64_checked : List ℕ → LinkSetResult (ℕ × List ℕ)
read_u64_checked bytes = do fail_if (ltb (length bytes) 8) deserialize_eof; read_u64 bytes

unfoldable pub deserialize_reset : List ℕ → LinkSetResult (LinkProtocol × List ℕ)
deserialize_reset d0 = do
  (epoch, d1) ← read_u64 d0
  (reply, d2) ← pop_front d1
  ok (reset (from_int epoch) (not (reply == 0)), d2)

unfoldable pub deserialize_ack : List ℕ → LinkSetResult (LinkProtocol × List ℕ)
deserialize_ack d0 = do
  (epoch, d1) ← read_u64 d0
  (seq, d2) ← read_u64_checked d1
  (last_index, d3) ← read_u64_checked d2
  ok (ack epoch seq last_index, d3)

unfoldable pub read_data : ℕ → List ℕ → LinkSetResult (List ℕ × List ℕ)
read_data data_len bytes = do
  fail_if (data_len == 0) deserialize_invalid_len
  fail_if (ltb (length bytes) data_len) deserialize_eof
  ok (take data_len bytes, drop data_len bytes)

unfoldable pub deserialize_slice : List ℕ → LinkSetResult (LinkProtocol × List ℕ)
deserialize_slice d0 = do
  (epoch, d1) ← read_u64 d0
  (seq, d2) ← read_u64_checked d1
  (seq_len, d3) ← read_u64_checked d2
  (first_index, d4) ← read_u64_checked d3
  (data_len, d5) ← read_u64_checked d4
  (bytes, d6) ← read_data data_len d5
  ok (msg_slice epoch seq seq_len first_index bytes, d6)

-- `match variant`
unfoldable pub deserialize_variant : ℕ → List ℕ → LinkSetResult (LinkProtocol × List ℕ)
deserialize_variant zero d = deserialize_reset d
deserialize_variant (suc zero) d = deserialize_ack d
deserialize_variant (suc (suc zero)) d = deserialize_slice d
deserialize_variant (suc (suc (suc zero))) d = ok (ping, d)
deserialize_variant (suc (suc (suc (suc zero)))) d = ok (pong, d)
deserialize_variant variant d = err (deserialize_invalid variant)

-- The result is the message and what is left of the queue.
unfoldable pub deserialize : List ℕ → LinkSetResult (LinkProtocol × List ℕ)
deserialize d0 = do (variant, d1) ← pop_front d0; deserialize_variant variant d1
