-- ===== src/Epoch.antt =====
-- src/epoch.rs: session numbers. An `Epoch` wraps a `NonZero<u64>`; here it is its number, and
-- `IsEpoch` is the range of that type.
pub mod Order
use link_set.Prelude.{
  ℕ, ◌+◌, ◌-◌, ◌^◌, ◌≤◌, ◌<◌, min, compare, Ordering, Option, none, some, ◌==◌, if◌then◌else◌,
}

abbrev pub u64_max : ℕ
u64_max = 2 ^ 64 - 1

abbrev pub Epoch : Type 0
Epoch = ℕ

abbrev pub IsEpoch : Epoch → Type 0
IsEpoch e = (0 < e) × (e ≤ u64_max)

-- `Epoch::ONE`
abbrev pub one : Epoch
one = 1

abbrev pub from_int : ℕ → Option Epoch
from_int value = if value == 0 then none else some value

abbrev pub to_int : Epoch → ℕ
to_int e = e

-- `random` draws the number; the argument is what it drew.
unfoldable pub random : ℕ → Epoch
random drawn = if drawn == 0 then drawn + 1 else drawn

-- `saturating_add(1)`
unfoldable pub increment : Epoch → Epoch
increment e = min (e + 1) u64_max

abbrev pub opt_epoch_to_int : Option Epoch → ℕ
opt_epoch_to_int (some e) = to_int e
opt_epoch_to_int none = 0

unfoldable pub opt_epoch_increment : Option Epoch → Option Epoch
opt_epoch_increment (some e) = some (increment e)
opt_epoch_increment none = none

-- A missing epoch is below everything, another missing one included.
unfoldable pub compare_epochs : Option Epoch → Option Epoch → Ordering
compare_epochs (some a) (some b) = compare a b
compare_epochs (some a) none = Ordering.gt
compare_epochs none b = Ordering.lt
