-- ===== src/Slices/Coverage.antt =====
-- Which bytes the runs hold, and how adding and acknowledging change that.
use native.Mathlib.Nat.{le_trans}
use link_set.Prelude.{
  ℕ, suc, ◌+◌, ◌≤◌, ◌<◌, ◌≡◌, refl, sym, ap, [], ◌∷◌, ◌++◌, Bool, true, false, ◌&&◌, ◌||◌, arith,
  ltb, leb, if◌then◌else◌,
}
use link_set.OrderedMap.{OrderedMap, entries_from, entries_before}
use link_set.OrderedMap.Split.{KeysBelow, entries-append, entries_before-KeysBelow}
use link_set.Slices.{add_slice}
use link_set.Slices.Ranges.{
  IsRuns, IsRuns-IsOrdered, left_over, reach, attach, add_run, add_slice-add_run,
  entries_before-IsRuns, entries_from-IsRuns,
}

abbrev pub within : ℕ → ℕ → ℕ → Bool
within start end i = leb start i && leb i end

-- Byte `i` lies in one of the runs.
unfoldable pub covers : OrderedMap ℕ → ℕ → Bool
covers [] i = false
covers ((s, e) ∷ m) i = within s e i || covers m i

covers-append : (a b : OrderedMap ℕ) (i : ℕ) → covers (a ++ b) i ≡ (covers a i || covers b i)
unfolding covers
covers-append [] b i = refl
covers-append (r ∷ a) b i = ground (arith, covers-append a b i)

covers-attach :
    (start end lo hi : ℕ) (front back : OrderedMap ℕ) (i : ℕ)
    → KeysBelow start front
    → IsRuns lo hi front
    → start ≤ end
    → covers (attach front start end back) i ≡ (covers (front ++ back) i || within start end i)
unfolding covers attach
covers-attach start end lo hi [] back i f r h = ground arith
covers-attach start end lo hi ((s, e) ∷ []) back i f r h = ground arith
covers-attach start end lo hi ((s, e) ∷ (s', e') ∷ front) back i f r h =
    ground (arith, covers-attach start end (suc e) hi ((s', e') ∷ front) back i f.1 r.3 h)

reach_grows : (end : ℕ) (m : OrderedMap ℕ) → end ≤ reach end m
unfolding reach
reach_grows end [] = omega arith
reach_grows end ((s, e) ∷ m) = ground (arith, reach_grows end m)

covers-left_over :
    (start end lo hi : ℕ) (m : OrderedMap ℕ) (i : ℕ)
    → IsRuns lo hi m
    → start ≤ lo
    → (covers (left_over end m) i || within start (reach end m) i)
      ≡ (covers m i || within start (reach end m) i)
unfolding covers left_over reach
covers-left_over start end lo hi [] i r h = refl
covers-left_over start end lo hi ((s, e) ∷ m) i r h =
    ground (arith, covers-left_over start end (suc e) hi m i r.3 (omega arith), reach_grows end m)

covers-entries :
    (c lo hi : ℕ) (m : OrderedMap ℕ) (i : ℕ)
    → IsRuns lo hi m
    → covers m i ≡ (covers (entries_before c m) i || covers (entries_from c m) i)
covers-entries c lo hi m i r =
    rw (← covers-append (entries_before c m) (entries_from c m) i)
      (ap (λ l. covers l i) (sym (entries-append c lo m (IsRuns-IsOrdered lo hi m r))))

-- The end of the run that `add_slice` makes of a slice.
abbrev pub slice_reach : ℕ → ℕ → OrderedMap ℕ → ℕ
slice_reach start end m = reach end (entries_from start m)

-- Exactly these bytes are held after a slice is added: those held before, and those from its first
-- index to where the new run ends.
pub covers-add_slice :
    (start end hi : ℕ) (m : OrderedMap ℕ) (i : ℕ)
    → IsRuns 0 hi m
    → start ≤ end
    → end < hi
    → covers (add_slice start end m) i ≡ (covers m i || within start (slice_reach start end m) i)
covers-add_slice start end hi m i r h b =
    let front = entries_before start m in
    let back = entries_from start m in
    rw (add_slice-add_run start end 0 hi m r h b) (
      unfold add_run in
      ground (
        arith,
        covers-attach start (reach end back) 0 hi front (left_over end back) i
            (entries_before-KeysBelow start m) (entries_before-IsRuns start 0 hi m r)
            (le_trans h (reach_grows end back)),
        covers-append front (left_over end back) i,
        covers-left_over start end start hi back i (entries_from-IsRuns start 0 hi m r)
            (omega arith),
        covers-entries start 0 hi m i r,
        reach_grows end back,
      ))

-- The first run that goes beyond `end`, of those that begin in `start` or later, begins beyond
-- `end + 1`: there are bytes between it and the slice.
unfoldable pub gap_after : ℕ → OrderedMap ℕ → Bool
gap_after end [] = false
gap_after end ((s, e) ∷ m) = if leb e end then gap_after end m else ltb (end + 1) s

reach_gapless :
    (start end lo hi : ℕ) (m : OrderedMap ℕ) (i : ℕ)
    → IsRuns lo hi m
    → start ≤ lo
    → gap_after end m ≡ false
    → (covers m i || within start (reach end m) i) ≡ (covers m i || within start end i)
unfolding gap_after reach covers
reach_gapless start end lo hi [] i r h g = refl
reach_gapless start end lo hi ((s, e) ∷ m) i r h g =
    ground (arith, reach_gapless start end (suc e) hi m i r.3 (omega arith))

-- Where no gap follows the slice, the bytes held afterwards are those held before and those of the
-- slice, and no others.
covers-add_slice_gapless :
    (start end hi : ℕ) (m : OrderedMap ℕ) (i : ℕ)
    → IsRuns 0 hi m
    → start ≤ end
    → end < hi
    → gap_after end (entries_from start m) ≡ false
    → covers (add_slice start end m) i ≡ (covers m i || within start end i)
covers-add_slice_gapless start end hi m i r h b g = ground (
  arith,
  covers-add_slice start end hi m i r h b,
  covers-entries start 0 hi m i r,
  reach_gapless start end start hi (entries_from start m) i (entries_from-IsRuns start 0 hi m r)
      (omega arith) g,
)

gap_uncovered :
    (end lo hi : ℕ) (m : OrderedMap ℕ)
    → IsRuns lo hi m
    → gap_after end m ≡ true
    → (end + 1 ≤ reach end m) × (covers m (end + 1) ≡ false)
unfolding gap_after reach covers
gap_uncovered end lo hi [] r g = cc
gap_uncovered end lo hi ((s, e) ∷ m) r g =
    ground (arith, gap_uncovered end (suc e) hi m r.3, uncovered_below (end + 1) (suc e) hi m r.3)
  where
    uncovered_below :
        (i lo hi : ℕ) (m : OrderedMap ℕ) → IsRuns lo hi m → i < lo → covers m i ≡ false
    uncovered_below i lo hi [] r h = refl
    uncovered_below i lo hi ((s, e) ∷ m) r h =
        ground (arith, uncovered_below i (suc e) hi m r.3 (omega arith))

-- Where a gap follows the slice, the byte right behind the slice counts as held afterwards, although
-- neither the slice nor any run that begins in it or behind it has brought that byte.
pub add_slice_fills_gap :
    (start end hi : ℕ) (m : OrderedMap ℕ)
    → IsRuns 0 hi m
    → start ≤ end
    → end < hi
    → gap_after end (entries_from start m) ≡ true
    → (covers (add_slice start end m) (end + 1) ≡ true)
      × (covers (entries_from start m) (end + 1) ≡ false)
add_slice_fills_gap start end hi m r h b g =
    let (far, bare) =
      gap_uncovered end start hi (entries_from start m) (entries_from-IsRuns start 0 hi m r) g in
    (ground (arith, covers-add_slice start end hi m (end + 1) r h b, far), bare)
