-- ===== src/OrderedMap.antt =====
-- The `BTreeMap<u64, V>` that src/slice_manager.rs and src/message_manager.rs keep: the entries in
-- ascending order of their keys, and the operations of the standard library that the code calls.
pub mod Split
use link_set.Prelude.{
  ℕ, zero, suc, ◌+◌, ◌≤◌, ◌<◌, List, [], ◌∷◌, ◌++◌, Bool, true, false, not, Option, none, some, ltb,
  leb, ◌==◌, if◌then◌else◌, compare, Ordering,
}

abbrev pub OrderedMap {ℓ} : Type ℓ → Type ℓ
OrderedMap V = List (ℕ × V)

abbrev pub or_else {κ} : {A : Type κ} → Option A → Option A → Option A
or_else (some a) b = some a
or_else none b = b

module _ {ℓ} {V : Type ℓ} where
  -- `insert`, which replaces the value of a key that is there.
  unfoldable pub insert : ℕ → V → OrderedMap V → OrderedMap V
  insert k v [] = (k, v) ∷ []
  insert k v ((j, w) ∷ m) =
      if ltb k j then (k, v) ∷ (j, w) ∷ m else if k == j then (k, v) ∷ m else (j, w) ∷ insert k v m

  unfoldable pub remove : ℕ → OrderedMap V → OrderedMap V
  remove k [] = []
  remove k ((j, w) ∷ m) = if k == j then m else (j, w) ∷ remove k m

  unfoldable pub get : ℕ → OrderedMap V → Option V
  get k [] = none
  get k ((j, w) ∷ m) = if k == j then some w else get k m

  -- `range(c..).next()`
  unfoldable pub first_from : ℕ → OrderedMap V → Option (ℕ × V)
  first_from c [] = none
  first_from c ((j, w) ∷ m) = if leb c j then some (j, w) else first_from c m

  -- `range(..c).next_back()`
  unfoldable pub last_before : ℕ → OrderedMap V → Option (ℕ × V)
  last_before c [] = none
  last_before c ((j, w) ∷ m) =
      if ltb j c then or_else (last_before c m) (some (j, w)) else last_before c m

  -- `range(c..)` as a list; also what `split_off(c)` returns.
  unfoldable pub entries_from : ℕ → OrderedMap V → OrderedMap V
  entries_from c [] = []
  entries_from c ((j, w) ∷ m) = if ltb j c then entries_from c m else (j, w) ∷ entries_from c m

  -- What `split_off(c)` leaves behind.
  unfoldable pub entries_before : ℕ → OrderedMap V → OrderedMap V
  entries_before c [] = []
  entries_before c ((j, w) ∷ m) =
      if ltb j c then (j, w) ∷ entries_before c m else entries_before c m

  -- The order of the keys: each is at least `lo`, and above those in front of it.
  abbrev pub IsOrdered : ℕ → OrderedMap V → Type 0
  IsOrdered lo [] = Unit
  IsOrdered lo ((j, w) ∷ m) = (lo ≤ j) × IsOrdered (suc j) m
