-- ===== src/Slices/Acked.antt =====
-- The sender's side: what acknowledgements leave to be sent of one message.
use link_set.Prelude.{
  ℕ, ◌+◌, ◌-◌, ◌<◌, ◌≡◌, List, [], ◌∷◌, some, arith, ltb, ◌==◌, if◌then◌else◌, length, ◌≢◌,
  Bool-cases, inl, inr,
}
use link_set.Protocol.{LinkProtocol}
use link_set.OrderedMap.{OrderedMap}
use link_set.Slices.{SliceManager, from_vec, ack, remove_slice, get_slices}
use link_set.Slices.Ranges.{IsRuns}
use link_set.Slices.Kept.{cut_run, remove_slice-cut_run}
use link_set.Slices.Cutting.{IsCut, get_slices-IsCut}

-- The bytes from `a` on are still to be acknowledged, of a message of `n` bytes.
abbrev pub tail_runs : ℕ → ℕ → OrderedMap ℕ
tail_runs a n = if ltb a n then (a, n - 1) ∷ [] else []

from_vec-tail :
    (epoch seq : ℕ) (bytes : List ℕ)
    → (from_vec epoch seq bytes).slices ≡ tail_runs 0 (length bytes)
unfolding from_vec
from_vec-tail epoch seq bytes = ground arith

tail_runs-IsRuns : (a n : ℕ) → IsRuns 0 n (tail_runs a n)
tail_runs-IsRuns a n = elim (Bool-cases (ltb a n)) [
  | inl inside ↦ rw inside (ground arith)
  | inr beyond ↦ rw beyond tt
]

cut_run-tail :
    (a last n : ℕ) → cut_run last (tail_runs a n) ≡ (if ltb a n then tail_runs (last + 1) n else [])
unfolding cut_run
cut_run-tail a last n = elim (Bool-cases (ltb a n)) [
  | inl inside ↦ rw (inside, cut_run) (ground arith)
  | inr beyond ↦ rw (beyond, cut_run)
]

-- After an acknowledgement up to `last`, what is left of an unfinished message is exactly what
-- follows `last`: also when an earlier one had reached further. One up to index 0 changes nothing,
-- and a finished message stays finished.
pub ack-tail :
    (a last : ℕ) (mgr : SliceManager)
    → mgr.slices ≡ tail_runs a (length mgr.bytes)
    → (ack mgr.epoch mgr.seq last mgr).slices ≡ (
        if last == 0
        then tail_runs a (length mgr.bytes)
        else if ltb a (length mgr.bytes)
        then tail_runs (last + 1) (length mgr.bytes)
        else [])
unfolding ack
ack-tail a last mgr h = ground (
  arith,
  h,
  remove_slice-cut_run last 0 (length mgr.bytes) (tail_runs a (length mgr.bytes))
      (tail_runs-IsRuns a (length mgr.bytes)),
  cut_run-tail a last (length mgr.bytes),
)

-- An acknowledgement for another epoch or another message changes nothing.
ack_other :
    (epoch seq last : ℕ) (mgr : SliceManager)
    → (epoch ≡ mgr.epoch → seq ≢ mgr.seq)
    → ack epoch seq last mgr ≡ mgr
unfolding ack
ack_other epoch seq last mgr h = ground (arith, h)

ack_own :
    (last : ℕ) (mgr : SliceManager)
    → ack mgr.epoch mgr.seq last mgr ≡ record mgr { slices = remove_slice 0 last mgr.slices }
unfolding ack
ack_own last mgr = ground arith

-- What is sent of an unfinished message after an acknowledgement up to an index other than 0 and
-- short of the last: the bytes behind that index, all of them, in order.
pub get_slices-ack :
    (a last size : ℕ) (mgr : SliceManager)
    → mgr.slices ≡ tail_runs a (length mgr.bytes)
    → a < length mgr.bytes
    → 0 < last
    → last + 1 < length mgr.bytes
    → 0 < size
    → (ps : List LinkProtocol) × (get_slices (ack mgr.epoch mgr.seq last mgr) size ≡ some ps)
      × IsCut mgr.bytes mgr.epoch mgr.seq size (last + 1) (length mgr.bytes - 1 + 1) ps
get_slices-ack a last size mgr h inside pos short s =
    let rest = remove_slice 0 last mgr.slices in
    let whole = ack_own last mgr in
    let left : rest ≡ (last + 1, length mgr.bytes - 1) ∷ [] =
      ground (arith, whole, ack-tail a last mgr h) in
    rw whole (
      get_slices-IsCut (record mgr { slices = rest }) size (last + 1) (length mgr.bytes - 1) left s
        (omega arith) (omega arith))
