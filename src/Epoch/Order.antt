-- ===== src/Epoch/Order.antt =====
-- Laws of epochs: the order that the handshake of src/state/states/epoch_mismatch.rs relies on.
use Prim.Native.Nat.Ordering.{lt, eq, gt}
use link_set.Prelude.{ℕ, ◌≤◌, ◌<◌, Option, none, some, ◌≡◌, refl, ◌↔◌, arith}
use link_set.Epoch.{
  Epoch, IsEpoch, u64_max, from_int, opt_epoch_to_int, increment, compare_epochs, random,
}

-- The range of an optional epoch.
abbrev pub IsOptEpoch : Option Epoch → Type 0
IsOptEpoch none = Unit {0}
IsOptEpoch (some e) = IsEpoch e

increment-IsEpoch : (e : Epoch) → IsEpoch e → IsEpoch (increment e)
unfolding increment
increment-IsEpoch e h = omega arith

-- The next epoch is above the current one, unless that is the greatest already.
increment_grows : (e : Epoch) → e < u64_max → e < increment e
unfolding increment
increment_grows e h = omega arith

random-IsEpoch : (n : ℕ) → n ≤ u64_max → IsEpoch (random n)
unfolding random
random-IsEpoch n h = ground arith

-- An optional epoch in range is the number that stands for it on the wire and back.
pub from_int-opt_epoch_to_int :
    (o : Option Epoch) → IsOptEpoch o → from_int (opt_epoch_to_int o) ≡ o
from_int-opt_epoch_to_int none h = refl
from_int-opt_epoch_to_int (some e) h = ground arith

-- Two epochs compare equal exactly when both are present and the same.
pub compare_epochs-eq :
    (a b : Option Epoch) → (compare_epochs a b ≡ eq) ↔ ((e : Epoch) × (a ≡ some e) × (b ≡ some e))
unfolding compare_epochs
compare_epochs-eq none b = ((λ h. absurd (ground arith)), λ t. absurd (ground arith))
compare_epochs-eq (some a) none = ((λ h. absurd (ground arith)), λ t. absurd (ground arith))
compare_epochs-eq (some a) (some b) = ((λ h. (a, refl, ground arith)), λ t. ground arith)

-- Two present epochs compare in opposite ways from the two ends of a link.
compare_epochs_flip :
    (a b : Epoch)
    → (compare_epochs (some a) (some b) ≡ gt) ↔ (compare_epochs (some b) (some a) ≡ lt)
unfolding compare_epochs
compare_epochs_flip a b = ground arith
