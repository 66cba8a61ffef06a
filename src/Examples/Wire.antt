-- ===== src/Examples/Wire.antt =====
-- Messages on the wire, epochs and timers at concrete inputs.
use link_set.Prelude.{ℕ, ◌+◌, ◌≡◌, refl, List, [], ◌∷◌, ◌++◌, length, some, true, arith, All}
use mathlib.Core.Path.{subst}
use link_set.Protocol.{
  u64_bytes, be_bytes, LinkProtocol, msg_slice, reset, serialize, deserialize, ok, err,
  deserialize_eof,
}
use link_set.Protocol.Bytes.{IsByte}
use link_set.Protocol.RoundTrip.{IsWire, deserialize-serialize}
use link_set.Protocol.Received.{deserialize-IsWire}
use link_set.Protocol.Truncation.{deserialize_truncated}
use link_set.Deadline.{Deadline}

abbrev slice : LinkProtocol
slice = msg_slice 7 1 300 258 (65 ∷ 66 ∷ [])

slice-IsWire : IsWire slice
slice-IsWire = (omega arith, omega arith, omega arith, omega arith, omega arith, omega arith)

deserialize-serialize_example : deserialize (serialize slice ++ (9 ∷ [])) ≡ ok (slice, 9 ∷ [])
deserialize-serialize_example = deserialize-serialize slice (9 ∷ []) slice-IsWire

abbrev received : List ℕ
received = 0 ∷ 0 ∷ 0 ∷ 0 ∷ 0 ∷ 0 ∷ 0 ∷ 0 ∷ 5 ∷ 1 ∷ 3 ∷ []

received_bytes : All IsByte received
received_bytes = (
  omega arith,
  (
    omega arith,
    (
      omega arith,
      (
        omega arith,
        (
          omega arith,
          (
            omega arith,
            (omega arith, (omega arith, (omega arith, (omega arith, (omega arith, tt))))),
          ),
        ),
      ),
    ),
  ),
)

received_written : serialize (reset (some 5) true) ++ (3 ∷ []) ≡ received
unfolding serialize u64_bytes be_bytes
received_written = refl

received_ok : deserialize received ≡ ok (reset (some 5) true, 3 ∷ [])
received_ok =
    subst (λ d. deserialize d ≡ ok (reset (some 5) true, 3 ∷ [])) received_written
      (deserialize-serialize (reset (some 5) true) (3 ∷ []) (omega arith, omega arith))

deserialize-IsWire_example :
    IsWire (reset (some 5) true)
    × (length received ≡ length (serialize (reset (some 5) true)) + length {A = ℕ} (3 ∷ []))
deserialize-IsWire_example =
    deserialize-IsWire received (reset (some 5) true) (3 ∷ []) received_bytes received_ok

abbrev front : List ℕ
front = 0 ∷ 0 ∷ 0 ∷ 0 ∷ 0 ∷ 0 ∷ 0 ∷ 0 ∷ 5 ∷ []

cut : serialize (reset (some 5) true) ≡ front ++ (1 ∷ [])
unfolding serialize u64_bytes be_bytes
cut = refl

deserialize_truncated_example : deserialize front ≡ err deserialize_eof
deserialize_truncated_example =
    deserialize_truncated (reset (some 5) true) front [] 1 (omega arith, omega arith) cut

abbrev ticking : Deadline
ticking = record { deadline = some 10; repeat = some 5 }
