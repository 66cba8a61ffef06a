-- ===== src/Examples/Slicing.antt =====
-- Slices at concrete inputs.
use link_set.Prelude.{
  ℕ, ◌+◌, ◌-◌, ◌≡◌, refl, max, List, [], ◌∷◌, length, take, drop, some, true, false, ◌||◌, arith,
  if◌then◌else◌, ◌==◌, ltb,
}
use link_set.Protocol.{LinkProtocol}
use link_set.OrderedMap.{OrderedMap, entries_from}
use link_set.Slices.{
  SliceManager, add_slice, recv_slice, ack, get_slices, from_vec, new, blank, contents,
}
use link_set.Slices.Ranges.{IsRuns, add_run, add_slice-add_run}
use link_set.Slices.Kept.{add_slice-IsRuns}
use link_set.Slices.Coverage.{
  covers, within, slice_reach, gap_after, covers-add_slice, add_slice_fills_gap,
}
use link_set.Slices.Cutting.{IsCut}
use link_set.Slices.Transfer.{HoldsHead, recv_slice-HoldsHead}
use link_set.Slices.Delivery.{recv_all, contents-recv_all, blank-HoldsHead}
use link_set.Slices.Acked.{tail_runs, ack-tail, get_slices-ack}

abbrev runs : OrderedMap ℕ
runs = (0, 2) ∷ (6, 7) ∷ []

runs-IsRuns : IsRuns 0 10 runs
runs-IsRuns = (omega arith, omega arith, omega arith, (omega arith, omega arith, omega arith, tt))

a_gap : gap_after 3 (entries_from 3 runs) ≡ true
unfolding gap_after entries_from
a_gap = refl

add_slice-add_run_example : add_slice 2 5 runs ≡ add_run 2 5 runs
add_slice-add_run_example = add_slice-add_run 2 5 0 10 runs runs-IsRuns (omega arith) (omega arith)

add_slice-IsRuns_example : IsRuns 0 10 (add_slice 3 4 runs)
add_slice-IsRuns_example = add_slice-IsRuns 3 4 10 runs runs-IsRuns (omega arith) (omega arith)

covers-add_slice_example :
    covers (add_slice 3 5 runs) 4 ≡ (covers runs 4 || within 3 (slice_reach 3 5 runs) 4)
covers-add_slice_example = covers-add_slice 3 5 10 runs 4 runs-IsRuns (omega arith) (omega arith)

add_slice_fills_gap_example :
    (covers (add_slice 3 3 runs) (3 + 1) ≡ true) × (covers (entries_from 3 runs) (3 + 1) ≡ false)
add_slice_fills_gap_example =
    add_slice_fills_gap 3 3 10 runs runs-IsRuns (omega arith) (omega arith) a_gap

abbrev text : List ℕ
text = 10 ∷ 20 ∷ 30 ∷ 40 ∷ 50 ∷ []

contents-recv_all_example :
    (ps : List LinkProtocol) × (start : SliceManager) × (mgr : SliceManager) × (get_slices
        (from_vec 1 2 text)
        2
      ≡ some ps)
    × (new 1 2 (length text) ≡ some start)
    × (recv_all ps start ≡ some mgr)
    × (contents mgr ≡ some text)
contents-recv_all_example = contents-recv_all text 1 2 2 (omega arith) (omega arith) (omega arith)

recv_slice-HoldsHead_example :
    (mgr' : SliceManager) × (recv_slice 1 2 0 (take 3 (drop 0 text)) (blank 1 2 (length text))
      ≡ some mgr')
    × HoldsHead text 1 2 (max 0 (0 + 3)) mgr'
recv_slice-HoldsHead_example =
    recv_slice-HoldsHead text 1 2 0 0 3 (blank 1 2 (length text)) (blank-HoldsHead text 1 2)
      (omega arith) (omega arith) (omega arith) (omega arith)

abbrev sender : SliceManager
sender = record { epoch = 1; seq = 2; bytes = text; slices = (0, 4) ∷ [] }

ack-tail_example : (ack 1 2 2 sender).slices ≡ (
    if 2 == 0
    then tail_runs 0 (length text)
    else if ltb 0 (length text)
    then tail_runs (2 + 1) (length text)
    else [])
ack-tail_example = ack-tail 0 2 sender refl

get_slices-ack_example :
    (ps : List LinkProtocol) × (get_slices (ack 1 2 2 sender) 1 ≡ some ps)
    × IsCut text 1 2 1 (2 + 1) (length text - 1 + 1) ps
get_slices-ack_example =
    get_slices-ack 0 2 1 sender refl (omega arith) (omega arith) (omega arith) (omega arith)
