-- ===== src/Slices/Ranges.antt =====
-- The run maps as lists: what `add_slice` and `remove_slice` compute on ordered, disjoint runs,
-- written in one pass over the list.
use link_set.Prelude.{
  ℕ, zero, suc, ◌-◌, ◌≤◌, ◌<◌, ◌≡◌, refl, ap, [], ◌∷◌, ◌++◌, All-append, some, length,
  length-append, arith, leb, if◌then◌else◌,
}
use link_set.OrderedMap.{
  OrderedMap, insert, remove, first_from, last_before, entries_from, entries_before, IsOrdered,
}
use link_set.OrderedMap.Split.{
  KeysBelow, KeysFrom, KeysFrom-mono, KeysBelow-mono, first_from-append, remove-append,
  insert_front, insert-append, last_before-none, last_before-some, last_before_bounds,
  last_before-append, entries-append, entries_before-KeysBelow, IsOrdered-KeysFrom,
}
use link_set.Slices.{absorb, extend_left, add_slice}

-- Runs from `lo` on and below `hi`, each nonempty and behind the one in front of it.
abbrev pub IsRuns : ℕ → ℕ → OrderedMap ℕ → Type 0
IsRuns lo hi [] = Unit
IsRuns lo hi ((s, e) ∷ m) = (lo ≤ s) × (s ≤ e) × (e < hi) × IsRuns (suc e) hi m

pub IsRuns-mono : (a b hi : ℕ) (m : OrderedMap ℕ) → a ≤ b → IsRuns b hi m → IsRuns a hi m
IsRuns-mono a b hi [] h r = tt
IsRuns-mono a b hi ((s, e) ∷ m) h r = (omega arith, r.1, r.2, r.3)

pub IsRuns-IsOrdered : (lo hi : ℕ) (m : OrderedMap ℕ) → IsRuns lo hi m → IsOrdered lo m
IsRuns-IsOrdered lo hi [] r = tt
IsRuns-IsOrdered lo hi ((s, e) ∷ m) r =
    (r.0, IsRuns-IsOrdered (suc s) hi m (IsRuns-mono (suc s) (suc e) hi m (omega arith) r.3))

pub IsRuns-KeysFrom : (lo hi : ℕ) (m : OrderedMap ℕ) → IsRuns lo hi m → KeysFrom lo m
IsRuns-KeysFrom lo hi m r = IsOrdered-KeysFrom lo m (IsRuns-IsOrdered lo hi m r)

-- What is left of the runs behind `start` when those up to `end` are absorbed, and the end of the
-- new run: the end of the first run that goes beyond `end`, wherever that run begins.
unfoldable pub left_over : ℕ → OrderedMap ℕ → OrderedMap ℕ
left_over end [] = []
left_over end ((s, e) ∷ m) = if leb e end then left_over end m else m

unfoldable pub reach : ℕ → OrderedMap ℕ → ℕ
reach end [] = end
reach end ((s, e) ∷ m) = if leb e end then reach end m else e

-- The run from `start` to `end`, put behind the runs that begin before it.
unfoldable pub attach : OrderedMap ℕ → ℕ → ℕ → OrderedMap ℕ → OrderedMap ℕ
attach [] start end back = (start, end) ∷ back
attach ((s, e) ∷ []) start end back =
    if leb end e
    then (s, e) ∷ back
    else if leb (start - 1) e
    then (s, end) ∷ back
    else (s, e) ∷ (start, end) ∷ back
attach (r ∷ r' ∷ front) start end back = r ∷ attach (r' ∷ front) start end back

unfoldable pub add_run : ℕ → ℕ → OrderedMap ℕ → OrderedMap ℕ
add_run start end m =
    attach (entries_before start m) start (reach end (entries_from start m))
      (left_over end (entries_from start m))

pub first_here :
    (cursor s e : ℕ) (m : OrderedMap ℕ) → cursor ≤ s → first_from cursor ((s, e) ∷ m) ≡ some (s, e)
unfolding first_from
first_here cursor s e m h = ground arith

pub remove_here : (s e : ℕ) (m : OrderedMap ℕ) → remove s ((s, e) ∷ m) ≡ m
unfolding remove
remove_here s e m = ground arith

absorb_lem :
    (fuel cursor end lo hi : ℕ) (front back : OrderedMap ℕ)
    → length back < fuel
    → KeysBelow cursor front
    → cursor ≤ lo
    → IsRuns lo hi back
    → absorb fuel cursor end (front ++ back) ≡ (front ++ left_over end back, reach end back)
unfolding absorb left_over reach
absorb_lem zero cursor end lo hi front back n f c r = absurd (omega arith)
absorb_lem (suc fuel) cursor end lo hi front [] n f c r =
    rw (first_from-append cursor front [] f, absorb) (unfold first_from in refl)
absorb_lem (suc fuel) cursor end lo hi front ((s, e) ∷ m) n f c r = ground (
  arith,
  first_from-append cursor front ((s, e) ∷ m) f,
  first_here cursor s e m (omega arith),
  remove-append s front ((s, e) ∷ m) (KeysBelow-mono cursor s front (omega arith) f),
  remove_here s e m,
  absorb_lem fuel e end (suc e) hi front m (omega arith)
      (KeysBelow-mono cursor e front (omega arith) f) (omega arith) r.3,
)

pub left_over-IsRuns :
    (end lo hi : ℕ) (m : OrderedMap ℕ)
    → IsRuns lo hi m
    → end < hi
    → (end ≤ reach end m) × (reach end m < hi) × IsRuns (suc (reach end m)) hi (left_over end m)
unfolding left_over reach
left_over-IsRuns end lo hi [] r h = omega arith
left_over-IsRuns end lo hi ((s, e) ∷ m) r h =
    ground (arith, left_over-IsRuns end (suc e) hi m r.3 h)

insert_head : (s e end : ℕ) (m : OrderedMap ℕ) → insert s end ((s, e) ∷ m) ≡ (s, end) ∷ m
unfolding insert
insert_head s e end m = ground arith

insert_deeper :
    (k v s e : ℕ) (m : OrderedMap ℕ) → s < k → insert k v ((s, e) ∷ m) ≡ (s, e) ∷ insert k v m
unfolding insert
insert_deeper k v s e m h = ground arith

last_before_deeper :
    (c s e k v : ℕ) (m : OrderedMap ℕ)
    → last_before c m ≡ some (k, v)
    → last_before c ((s, e) ∷ m) ≡ some (k, v)
unfolding last_before
last_before_deeper c s e k v m h = ground arith

-- What the insertion does, in terms of the front part as it stands.
extend_left_lem :
    (start end lo hi : ℕ) (front back : OrderedMap ℕ)
    → KeysBelow start front
    → IsRuns (suc end) hi back
    → IsRuns lo hi front
    → start ≤ end
    → extend_left start end (front ++ back) ≡ attach front start end back
unfolding extend_left attach
extend_left_lem start end lo hi [] back f b r h =
    let keys =
      KeysFrom-mono start (suc end) back (omega arith) (IsRuns-KeysFrom (suc end) hi back b) in
    rw (last_before-none start back keys, extend_left)
      (insert_front start end back (
        KeysFrom-mono (suc start) (suc end) back (omega arith)
          (IsRuns-KeysFrom (suc end) hi back b)))
extend_left_lem start end lo hi ((s, e) ∷ []) back f b r h =
    let keys = IsRuns-KeysFrom (suc end) hi back b in
    ground (
      arith,
      last_before-append start s e [] back (KeysFrom-mono start (suc end) back (omega arith) keys)
          f.0,
      insert_head s e end back,
      insert-append start end ((s, e) ∷ []) back f,
      insert_front start end back (KeysFrom-mono (suc start) (suc end) back (omega arith) keys),
    )
extend_left_lem start end lo hi ((s, e) ∷ (s', e') ∷ front) back f b r h =
    let tail = (s', e') ∷ front ++ back in
    let (k, v, found) = last_before-some start s' e' (front ++ back) f.1.0 in
    let bounds =
      last_before_bounds start (suc s) k v tail
        (All-append (λ x. suc s ≤ x.0) ((s', e') ∷ front) back
          (KeysFrom-mono (suc s) (suc e) ((s', e') ∷ front) (omega arith)
            (IsRuns-KeysFrom (suc e) hi ((s', e') ∷ front) r.3))
          (KeysFrom-mono (suc s) (suc end) back (omega arith)
            (IsRuns-KeysFrom (suc end) hi back b)))
        found in
    ground (
      arith,
      found,
      bounds,
      last_before_deeper start s e k v tail found,
      insert_deeper k end s e tail,
      insert_deeper start end s e tail,
      extend_left_lem start end (suc e) hi ((s', e') ∷ front) back f.1 b r.3 h,
    )

pub entries_before-IsRuns :
    (c lo hi : ℕ) (m : OrderedMap ℕ) → IsRuns lo hi m → IsRuns lo hi (entries_before c m)
unfolding entries_before
entries_before-IsRuns c lo hi [] r = tt
entries_before-IsRuns c lo hi ((s, e) ∷ m) r = ground (
  arith,
  entries_before-IsRuns c (suc e) hi m r.3,
  IsRuns-mono lo (suc e) hi (entries_before c m) (omega arith),
)

entries_from-IsRuns_lower :
    (c lo hi : ℕ) (m : OrderedMap ℕ) → IsRuns lo hi m → IsRuns lo hi (entries_from c m)
unfolding entries_from
entries_from-IsRuns_lower c lo hi [] r = tt
entries_from-IsRuns_lower c lo hi ((s, e) ∷ m) r = ground (
  arith,
  entries_from-IsRuns_lower c (suc e) hi m r.3,
  IsRuns-mono lo (suc e) hi (entries_from c m) (omega arith),
)

pub entries_from-IsRuns :
    (c lo hi : ℕ) (m : OrderedMap ℕ) → IsRuns lo hi m → IsRuns c hi (entries_from c m)
unfolding entries_from
entries_from-IsRuns c lo hi [] r = tt
entries_from-IsRuns c lo hi ((s, e) ∷ m) r =
    ground
      (arith, entries_from-IsRuns c (suc e) hi m r.3, entries_from-IsRuns_lower c (suc e) hi m r.3)

-- On disjoint runs `add_slice`, with its map operations and its loop on fuel, is the one pass
-- `add_run`: the fuel suffices.
pub add_slice-add_run :
    (start end lo hi : ℕ) (m : OrderedMap ℕ)
    → IsRuns lo hi m
    → start ≤ end
    → end < hi
    → add_slice start end m ≡ add_run start end m
unfolding add_slice add_run
add_slice-add_run start end lo hi m r h b =
    let front = entries_before start m in
    let back = entries_from start m in
    let whole = entries-append start lo m (IsRuns-IsOrdered lo hi m r) in
    let low = entries_before-KeysBelow start m in
    let high = entries_from-IsRuns start lo hi m r in
    let (grows, bound, rest) = left_over-IsRuns end start hi back high b in
    let fuel : length back < suc (length m) =
      omega (arith, length-append front back, ap (λ (l : OrderedMap ℕ). length l) whole) in
    let loop =
      rw whole at
        (absorb_lem (suc (length m)) start end start hi front back fuel low (omega arith) high) in
    rw loop (
      extend_left_lem start (reach end back) lo hi front (left_over end back) low rest
        (entries_before-IsRuns start lo hi m r) (omega arith))
