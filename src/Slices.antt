-- ===== src/Slices.antt =====
-- src/slice_manager.rs: one message, cut into slices. `slices` maps the first index of a run of
-- bytes to its last index. Numbers are `u64`; the arithmetic that the source writes without a guard
-- is checked, and `none` is the panic of a failed check (or of an index out of range).
pub mod Acked
pub mod Coverage
pub mod Cutting
pub mod Delivery
pub mod Kept
pub mod Ranges
pub mod Transfer
use link_set.Prelude.{
  ℕ, zero, suc, ◌+◌, ◌-◌, ◌^◌, ◌≤◌, ◌≡◌, refl, le→ltb, min, List, [], ◌∷◌, ◌++◌, Bool, true, false,
  not, ◌&&◌, ◌||◌, Option, none, some, length, take, drop, replicate, ltb, leb, ◌==◌, if◌then◌else◌,
}
use link_set.Epoch.{u64_max}
use link_set.Protocol.{LinkProtocol, msg_slice}
use link_set.OrderedMap.{OrderedMap, insert, remove, first_from, last_before}

pub record SliceManager : Type 0 where
  pub epoch : ℕ
  pub seq : ℕ
  -- `data` in the source
  pub bytes : List ℕ
  pub slices : OrderedMap ℕ

-- The most bytes that a `Vec` can have.
abbrev pub isize_max : ℕ
isize_max = 2 ^ 63 - 1

-- A message of which nothing has arrived.
unfoldable pub blank : ℕ → ℕ → ℕ → SliceManager
blank epoch seq size = record { epoch = epoch; seq = seq; bytes = replicate size 0; slices = [] }

-- `SliceManager::new`; `vec![0; size]` panics on a capacity overflow. There is memory for what it
-- allocates.
unfoldable pub new : ℕ → ℕ → ℕ → Option SliceManager
unfolding blank
new epoch seq size = if ltb isize_max size then none else some (blank epoch seq size)

pub new-blank :
    (epoch seq size : ℕ) → size ≤ isize_max → new epoch seq size ≡ some (blank epoch seq size)
unfolding new
new-blank epoch seq size h = rw (le→ltb isize_max size h) refl

unfoldable pub from_vec : ℕ → ℕ → List ℕ → SliceManager
from_vec epoch seq bytes = record {
  epoch = epoch;
  seq = seq;
  bytes = bytes;
  slices = if length bytes == 0 then [] else (0, length bytes - 1) ∷ [];
}

-- `is_full` compares the only entry with the whole range. Without bytes `len() - 1` fails.
unfoldable pub is_full : SliceManager → Bool
is_full mgr = elim mgr.slices [
  | [] ↦ false
  | (start, last) ∷ [] ↦ start == 0 && last + 1 == length mgr.bytes
  | (start, last) ∷ e ∷ m ↦ false
]

unfoldable pub is_empty : SliceManager → Bool
is_empty mgr = elim mgr.slices [ [] ↦ true | e ∷ m ↦ false ]

unfoldable pub contents : SliceManager → Option (List ℕ)
unfolding is_full
contents mgr = if is_full mgr then some mgr.bytes else none

unfoldable pub last_head_index : SliceManager → Option ℕ
last_head_index mgr = elim mgr.slices [
  | [] ↦ none
  | (start, last) ∷ m ↦ if start == 0 then some last else none
]

-- The `while let` of `add_slice`: the entries from `cursor` on, and the end of the new run.
unfoldable pub absorb : ℕ → ℕ → ℕ → OrderedMap ℕ → OrderedMap ℕ × ℕ
absorb zero cursor end m = (m, end)
absorb (suc fuel) cursor end m = elim (first_from cursor m) [
  | none ↦ (m, end)
  | some (next_start, next_end) ↦
      let m' = remove next_start m in
      let rest = absorb fuel next_end end m' in
      if leb next_end end then if ltb end next_end then (m', end) else rest else (m', next_end)
]

-- The left-hand overlap, and the insertion.
unfoldable pub extend_left : ℕ → ℕ → OrderedMap ℕ → OrderedMap ℕ
extend_left start end m = elim (last_before start m) [
  | none ↦ insert start end m
  | some (prev_start, prev_end) ↦
      if leb end prev_end
      then m
      else if leb (start - 1) prev_end
      then insert prev_start end m
      else insert start end m
]

-- Each round of the loop takes an entry away, so one more round than entries is enough.
unfoldable pub add_slice : ℕ → ℕ → OrderedMap ℕ → OrderedMap ℕ
add_slice start end m =
    let (m', end') = absorb (suc (length m)) start end m in extend_left start end' m'

-- The `while let` of `remove_slice`.
unfoldable pub drop_covered : ℕ → ℕ → ℕ → OrderedMap ℕ → OrderedMap ℕ
drop_covered zero cursor end m = m
drop_covered (suc fuel) cursor end m = elim (first_from cursor m) [
  | none ↦ m
  | some (next_start, next_end) ↦
      let m' = remove next_start m in
      let rest = drop_covered fuel next_end end m' in
      if leb next_end end
      then if ltb end next_end then m' else rest
      else insert (end + 1) next_end m'
]

unfoldable pub remove_slice : ℕ → ℕ → OrderedMap ℕ → OrderedMap ℕ
remove_slice start end m = if start == end then m else elim (last_before start m) [
  | none ↦ drop_covered (suc (length m)) start end m
  | some (prev_start, prev_end) ↦
      let m' = insert prev_start (start - 1) m in
      if ltb end prev_end
      then insert (end + 1) prev_end m'
      else drop_covered (suc (length m')) start end m'
]

-- `dest.copy_from_slice(src)`, with `dest` beginning at an index of the bytes.
unfoldable pub copy_at : ℕ → List ℕ → List ℕ → List ℕ
copy_at first src [] = []
copy_at zero [] (b ∷ bytes) = b ∷ bytes
copy_at zero (s ∷ src) (b ∷ bytes) = s ∷ copy_at zero src bytes
copy_at (suc first) src (b ∷ bytes) = b ∷ copy_at first src bytes

unfoldable pub recv_slice : ℕ → ℕ → ℕ → List ℕ → SliceManager → Option SliceManager
recv_slice epoch seq first_index bytes mgr =
    if not (epoch == mgr.epoch) || not (seq == mgr.seq)
    then some mgr
    else if ltb u64_max (first_index + length bytes) || first_index + length bytes == 0
    then none
    else if length mgr.bytes == 0
    then none
    else let last_index = min (first_index + length bytes - 1) (length mgr.bytes - 1) in
      if ltb last_index first_index
      then some mgr
      else some (record mgr {
        slices = add_slice first_index last_index mgr.slices;
        bytes = copy_at first_index (take (last_index - first_index + 1) bytes) mgr.bytes;
      })

unfoldable pub ack : ℕ → ℕ → ℕ → SliceManager → SliceManager
ack epoch seq last_index mgr =
    if not (epoch == mgr.epoch) || not (seq == mgr.seq)
    then mgr
    else record mgr { slices = remove_slice 0 last_index mgr.slices }

-- The `loop` of `make_slices`; `end` bounds the rounds, since `size` is not 0.
unfoldable pub cut_slices : ℕ → List ℕ → ℕ → ℕ → ℕ → ℕ → ℕ → List LinkProtocol
cut_slices zero bytes epoch seq cursor size end = []
cut_slices (suc fuel) bytes epoch seq cursor size end =
    let slice_end = min (min (cursor + size - 1) end) (length bytes - 1) in
    let piece = take (slice_end + 1 - cursor) (drop cursor bytes) in
    let slice = msg_slice epoch seq (length bytes) cursor piece in
    let rest = cut_slices fuel bytes epoch seq (cursor + size) size end in
    if ltb slice_end cursor
    then []
    else if ltb end (cursor + size)
    then slice ∷ []
    else slice ∷ rest

unfoldable pub make_slices : List ℕ → ℕ → ℕ → ℕ → ℕ → ℕ → Option (List LinkProtocol)
make_slices bytes epoch seq start size end =
    if size == 0
    then some []
    else if length bytes == 0
    then none
    else some (cut_slices (end + 1) bytes epoch seq start size end)

abbrev pub append_slices :
    Option (List LinkProtocol) → Option (List LinkProtocol) → Option (List LinkProtocol)
append_slices (some a) (some b) = some (a ++ b)
append_slices (some a) none = none
append_slices none b = none

unfoldable pub get_slices_of : SliceManager → ℕ → OrderedMap ℕ → Option (List LinkProtocol)
get_slices_of mgr size [] = some []
get_slices_of mgr size ((next_start, next_end) ∷ m) =
    append_slices (make_slices mgr.bytes mgr.epoch mgr.seq next_start size next_end)
      (get_slices_of mgr size m)

unfoldable pub get_slices : SliceManager → ℕ → Option (List LinkProtocol)
get_slices mgr size = get_slices_of mgr size mgr.slices
