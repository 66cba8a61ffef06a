-- ===== src/Slices/Kept.antt =====
-- What `add_slice` and `remove_slice` do to well-formed runs; `remove_slice` from index 0, which
-- is all that acknowledgements call, as one pass.
use link_set.Prelude.{
  ℕ, zero, suc, ◌+◌, ◌-◌, ◌≤◌, ◌<◌, ◌≡◌, refl, [], ◌∷◌, ◌++◌, length, arith, leb, ◌==◌,
  if◌then◌else◌, Bool-cases, inl, inr,
}
use link_set.OrderedMap.{OrderedMap, first_from, entries_from, entries_before}
use link_set.OrderedMap.Split.{
  KeysBelow, KeysFrom-mono, insert_front, last_before-none, entries_before-KeysBelow,
  entries-append,
}
use link_set.Slices.{add_slice, drop_covered, remove_slice}
use link_set.Slices.Ranges.{
  IsRuns, IsRuns-mono, IsRuns-IsOrdered, IsRuns-KeysFrom, left_over, reach, attach, add_run,
  left_over-IsRuns, first_here, remove_here, entries_from-IsRuns, add_slice-add_run,
}

left_over-IsRuns_lower :
    (end lo hi : ℕ) (m : OrderedMap ℕ) → IsRuns lo hi m → IsRuns lo hi (left_over end m)
unfolding left_over
left_over-IsRuns_lower end lo hi [] r = tt
left_over-IsRuns_lower end lo hi ((s, e) ∷ m) r =
    let low = IsRuns-mono lo (suc e) hi in
    elim (Bool-cases (leb e end)) [
      | inl inside ↦
          rw inside
            (low (left_over end m) (omega arith) (left_over-IsRuns_lower end (suc e) hi m r.3))
      | inr beyond ↦ rw beyond (low m (omega arith) r.3)
    ]

left_over-append :
    (end lo hi : ℕ) (front back : OrderedMap ℕ)
    → IsRuns lo hi (front ++ back)
    → IsRuns lo hi (front ++ left_over end back)
left_over-append end lo hi [] back r = left_over-IsRuns_lower end lo hi back r
left_over-append end lo hi ((s, e) ∷ front) back r =
    (r.0, r.1, r.2, left_over-append end (suc e) hi front back r.3)

attach-IsRuns :
    (start end lo hi : ℕ) (front back : OrderedMap ℕ)
    → KeysBelow start front
    → IsRuns lo hi (front ++ back)
    → IsRuns (suc end) hi back
    → start ≤ end
    → end < hi
    → lo ≤ start
    → IsRuns lo hi (attach front start end back)
unfolding attach
attach-IsRuns start end lo hi [] back f r b h g l = (l, h, g, b)
attach-IsRuns start end lo hi ((s, e) ∷ []) back f r b h g l = elim (Bool-cases (leb end e)) [
  | inl inside ↦ rw inside r
  | inr beyond ↦ rw beyond (elim (Bool-cases (leb (start - 1) e)) [
    | inl near ↦ rw near (ground arith)
    | inr far ↦ rw far (ground arith)
  ])
]
attach-IsRuns start end lo hi ((s, e) ∷ (s', e') ∷ front) back f r b h g l = (
  r.0,
  r.1,
  r.2,
  attach-IsRuns start end (suc e) hi ((s', e') ∷ front) back f.1 r.3 b h g (omega arith),
)

-- The runs stay nonempty, ordered, disjoint and below the length when a slice inside the message is
-- added.
pub add_slice-IsRuns :
    (start end hi : ℕ) (m : OrderedMap ℕ)
    → IsRuns 0 hi m
    → start ≤ end
    → end < hi
    → IsRuns 0 hi (add_slice start end m)
add_slice-IsRuns start end hi m r h b =
    let high = entries_from-IsRuns start 0 hi m r in
    let (grows, bound, rest) = left_over-IsRuns end start hi (entries_from start m) high b in
    let whole = entries-append start 0 m (IsRuns-IsOrdered 0 hi m r) in
    let joined =
      left_over-append end 0 hi (entries_before start m) (entries_from start m) (rw whole r) in
    rw (add_slice-add_run start end 0 hi m r h b) (
      unfold add_run in
      attach-IsRuns start (reach end (entries_from start m)) 0 hi (entries_before start m)
        (left_over end (entries_from start m)) (entries_before-KeysBelow start m) joined rest
        (omega arith) bound (omega arith))

-- What acknowledging up to `end` leaves: the first run that goes beyond `end` begins at `end + 1`.
unfoldable pub cut_run : ℕ → OrderedMap ℕ → OrderedMap ℕ
cut_run end [] = []
cut_run end ((s, e) ∷ m) = if leb e end then cut_run end m else (end + 1, e) ∷ m

drop_covered_lem :
    (fuel cursor end lo hi : ℕ) (m : OrderedMap ℕ)
    → length m < fuel
    → cursor ≤ lo
    → IsRuns lo hi m
    → drop_covered fuel cursor end m ≡ cut_run end m
unfolding drop_covered cut_run
drop_covered_lem zero cursor end lo hi m n c r = absurd (omega arith)
drop_covered_lem (suc fuel) cursor end lo hi [] n c r = unfold first_from in refl
drop_covered_lem (suc fuel) cursor end lo hi ((s, e) ∷ m) n c r = ground (
  arith,
  first_here cursor s e m (omega arith),
  remove_here s e m,
  drop_covered_lem fuel e end (suc e) hi m (omega arith) (omega arith) r.3,
  λ (h : end < e).
      insert_front (end + 1) e m
        (KeysFrom-mono (suc (end + 1)) (suc e) m (omega arith) (IsRuns-KeysFrom (suc e) hi m r.3)),
)

-- On disjoint runs the removal of a prefix, with its loop on fuel, is the one pass `cut_run`; the
-- removal of the single index 0 does nothing.
pub remove_slice-cut_run :
    (end lo hi : ℕ) (m : OrderedMap ℕ)
    → IsRuns lo hi m
    → remove_slice 0 end m ≡ (if end == 0 then m else cut_run end m)
unfolding remove_slice
remove_slice-cut_run end lo hi m r = ground (
  arith,
  last_before-none 0 m (KeysFrom-mono 0 lo m (omega arith) (IsRuns-KeysFrom lo hi m r)),
  drop_covered_lem (suc (length m)) 0 end lo hi m (omega arith) (omega arith) r,
)

cut_run-IsRuns : (end lo hi : ℕ) (m : OrderedMap ℕ) → IsRuns lo hi m → IsRuns 0 hi (cut_run end m)
unfolding cut_run
cut_run-IsRuns end lo hi [] r = tt
cut_run-IsRuns end lo hi ((s, e) ∷ m) r = elim (Bool-cases (leb e end)) [
  | inl inside ↦ rw inside (cut_run-IsRuns end (suc e) hi m r.3)
  | inr beyond ↦ rw beyond (ground arith)
]

-- Removing a prefix keeps the runs nonempty, ordered, disjoint and below the length.
remove_slice-IsRuns :
    (end hi : ℕ) (m : OrderedMap ℕ) → IsRuns 0 hi m → IsRuns 0 hi (remove_slice 0 end m)
remove_slice-IsRuns end hi m r =
    rw (remove_slice-cut_run end 0 hi m r) (elim (Bool-cases (end == 0)) [
      | inl nothing ↦ rw nothing r
      | inr some_bytes ↦ rw some_bytes (cut_run-IsRuns end 0 hi m r)
    ])
