-- ===== src/Slices/Cutting.antt =====
-- How `make_slices` cuts a run of bytes.
use link_set.Prelude.{
  ℕ, zero, suc, ◌+◌, ◌-◌, ◌≤◌, ◌<◌, ◌≡◌, refl, ap, List, [], ◌∷◌, min, some, append-nil, arith, ltb,
  Bool-cases, inl, inr, le→ltb, length, take, drop,
}
use link_set.Protocol.{LinkProtocol, msg_slice}
use link_set.Slices.{SliceManager, cut_slices, make_slices, get_slices, get_slices_of}

-- The slices of the bytes from `lo` up to `hi`: each carries the bytes at its first index, at least
-- one and at most `size`, and begins where the one in front of it ends.
abbrev pub IsCut : List ℕ → ℕ → ℕ → ℕ → ℕ → ℕ → List LinkProtocol → Type 0
IsCut bytes epoch seq size lo hi [] = lo ≡ hi
IsCut bytes epoch seq size lo hi (p ∷ ps) =
    (n : ℕ) × (p ≡ msg_slice epoch seq (length bytes) lo (take n (drop lo bytes)))
    × (0 < n)
    × (n ≤ size)
    × (lo + n ≤ hi)
    × IsCut bytes epoch seq size (lo + n) hi ps

cut_slices-IsCut :
    (fuel : ℕ) (bytes : List ℕ) (epoch seq cursor size end : ℕ)
    → 0 < size
    → cursor ≤ end
    → end < length bytes
    → end < cursor + fuel
    → IsCut bytes epoch seq size cursor (end + 1) (cut_slices fuel bytes epoch seq cursor size end)
unfolding cut_slices
cut_slices-IsCut zero bytes epoch seq cursor size end p c e f = absurd (omega arith)
cut_slices-IsCut (suc fuel) bytes epoch seq cursor size end p c e f =
    let slice_end = min (min (cursor + size - 1) end) (length bytes - 1) in
    rw (le→ltb slice_end cursor (omega arith)) (elim (Bool-cases (ltb end (cursor + size))) [
      | inl last ↦
          let n = slice_end + 1 - cursor in
          rw last (n, refl, omega arith, omega arith, omega arith, ground arith)
      | inr more ↦ rw more (
        size,
        ap (λ n. msg_slice epoch seq (length bytes) cursor (take n (drop cursor bytes)))
            (ground arith),
        p,
        omega arith,
        ground arith,
        cut_slices-IsCut fuel bytes epoch seq (cursor + size) size end p (ground arith) e
            (omega arith),
      )
    ])

-- Cutting the run from `start` to `end` gives slices that together carry exactly that run, in
-- order, for every size but 0; the loop ends within its bound.
make_slices-IsCut :
    (bytes : List ℕ) (epoch seq start size end : ℕ)
    → 0 < size
    → start ≤ end
    → end < length bytes
    → (ps : List LinkProtocol) × (make_slices bytes epoch seq start size end ≡ some ps)
      × IsCut bytes epoch seq size start (end + 1) ps
unfolding make_slices
make_slices-IsCut bytes epoch seq start size end p h b = (
  cut_slices (end + 1) bytes epoch seq start size end,
  ground arith,
  cut_slices-IsCut (end + 1) bytes epoch seq start size end p h b (omega arith),
)

-- The slices of a message that is held as one run.
pub get_slices-IsCut :
    (mgr : SliceManager) (size start end : ℕ)
    → mgr.slices ≡ (start, end) ∷ []
    → 0 < size
    → start ≤ end
    → end < length mgr.bytes
    → (ps : List LinkProtocol) × (get_slices mgr size ≡ some ps)
      × IsCut mgr.bytes mgr.epoch mgr.seq size start (end + 1) ps
unfolding get_slices get_slices_of
get_slices-IsCut mgr size start end e p h b =
    let (ps, made, cut) = make_slices-IsCut mgr.bytes mgr.epoch mgr.seq start size end p h b in
    (ps, rw (e, made) (ap some (append-nil ps)), cut)
