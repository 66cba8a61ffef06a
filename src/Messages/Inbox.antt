-- ===== src/Messages/Inbox.antt =====
-- The receiving side against the messages that the peer sent: `sent` gives the message of each
-- sequence number.
use mathlib.Core.Path.{subst}
use native.Mathlib.Numerals.{add-one}
use link_set.Prelude.{
  ℕ, zero, suc, ◌+◌, ◌≤◌, ◌≡◌, refl, ap, List, [], ◌∷◌, ◌++◌, Bool, true, false, arith, ◌==◌,
  Bool-cases, inl, inr, ◌⊎◌, All,
}
use link_set.OrderedMap.{OrderedMap, IsOrdered}
use link_set.OrderedMap.Split.{KeysBelow}
use link_set.Slices.{SliceManager}
use link_set.Slices
use link_set.Slices.Transfer.{HoldsHead}
use link_set.Messages.{advance}

-- How many bytes the first run ends with, if it begins at index 0.
unfoldable pub head_length : SliceManager → ℕ
head_length mgr = elim mgr.slices [ [] ↦ 0 | (start, last) ∷ m ↦ last + 1 ]

-- Each entry holds a head of the message that was sent under its key.
abbrev pub Faithful : (ℕ → List ℕ) → ℕ → OrderedMap SliceManager → Type 0
Faithful sent epoch = All (λ e. HoldsHead (sent e.0) epoch e.0 (head_length e.1) e.1)

-- Whole messages under the keys from `lo` up to `hi`, none missing.
abbrev pub IsReady : ℕ → ℕ → OrderedMap SliceManager → Type 0
IsReady lo hi [] = lo ≡ hi
IsReady lo hi ((k, m) ∷ rest) = (k ≡ lo) × (Slices.is_full m ≡ true) × IsReady (lo + 1) hi rest

-- No whole message stands under the key `next`.
abbrev pub IsPending : ℕ → OrderedMap SliceManager → Type 0
IsPending next [] = Unit
IsPending next ((k, m) ∷ rest) = (k ≡ next) → Slices.is_full m ≡ false

pub HoldsHead-head_length :
    (orig : List ℕ) (epoch seq c : ℕ) (mgr : SliceManager)
    → HoldsHead orig epoch seq c mgr
    → head_length mgr ≡ c
unfolding head_length
HoldsHead-head_length orig epoch seq zero mgr v = rw (v.runs, head_length)
HoldsHead-head_length orig epoch seq (suc c) mgr v = rw (v.runs, head_length) (omega arith)

pub IsReady-KeysBelow :
    (lo hi : ℕ) (m : OrderedMap SliceManager) → IsReady lo hi m → (lo ≤ hi) × KeysBelow hi m
IsReady-KeysBelow lo hi [] r = (omega arith, tt)
IsReady-KeysBelow lo hi ((k, s) ∷ m) r =
    let (le, below) = IsReady-KeysBelow (lo + 1) hi m r.2 in (omega arith, (omega arith, below))

pub IsReady-append :
    (lo mid hi : ℕ) (a b : OrderedMap SliceManager)
    → IsReady lo mid a
    → IsReady mid hi b
    → IsReady lo hi (a ++ b)
IsReady-append lo mid hi [] b r q = rw r q
IsReady-append lo mid hi ((k, s) ∷ a) b r q = (r.0, r.1, IsReady-append (lo + 1) mid hi a b r.2 q)

-- The map is whole messages from `next` to `stop`, and then what waits for the one under `stop`.
abbrev pub SplitsAt : OrderedMap SliceManager → ℕ → ℕ → Type 0
SplitsAt m next stop =
    (ready : OrderedMap SliceManager) × (pending : OrderedMap SliceManager) × (m ≡ ready ++ pending)
    × IsReady next stop ready
    × IsOrdered stop pending
    × IsPending stop pending

stop_whole :
    (k next offset : ℕ) (s : SliceManager) (m : OrderedMap SliceManager) (changed : Bool)
    → k ≡ next
    → Slices.is_full s ≡ true
    → (advance ((k, s) ∷ m) (next, offset) changed).0.0 ≡ (advance m (k + 1, 0) true).0.0
unfolding advance
stop_whole k next offset s m changed e f = ground (arith, e, f)

stop_here :
    (k next offset : ℕ) (s : SliceManager) (m : OrderedMap SliceManager) (changed : Bool)
    → (k ≡ next → Slices.is_full s ≡ false)
    → (advance ((k, s) ∷ m) (next, offset) changed).0.0 ≡ next
unfolding advance
stop_here k next offset s m changed f = elim (Bool-cases (k == next)) [
  | inl here ↦ ground (arith, f (ground arith))
  | inr later ↦ ground arith
]

-- The loop of `recv` passes the whole messages at the front, and stops at the first key that is
-- missing or not whole.
pub advance-SplitsAt :
    (m : OrderedMap SliceManager) (next offset : ℕ) (changed : Bool)
    → IsOrdered next m
    → SplitsAt m next (advance m (next, offset) changed).0.0
advance-SplitsAt [] next offset changed o = unfold advance in ([], [], refl, refl, tt, tt)
advance-SplitsAt ((k, s) ∷ m) next offset changed o =
    choose (advance-SplitsAt m (k + 1) 0 true (rw add-one o.1)) (Bool-cases (k == next))
      (Bool-cases (Slices.is_full s))
  where
    stays :
        (k ≡ next → Slices.is_full s ≡ false)
        → SplitsAt ((k, s) ∷ m) next (advance ((k, s) ∷ m) (next, offset) changed).0.0
    stays f = rw (stop_here k next offset s m changed f) ([], (k, s) ∷ m, refl, refl, o, f)

    choose :
        SplitsAt m (k + 1) (advance m (k + 1, 0) true).0.0
        → ((k == next) ≡ true) ⊎ ((k == next) ≡ false)
        → (Slices.is_full s ≡ true) ⊎ (Slices.is_full s ≡ false)
        → SplitsAt ((k, s) ∷ m) next (advance ((k, s) ∷ m) (next, offset) changed).0.0
    choose (ready, pending, e, r, q, w) (inl here) (inl full) =
        let same : k ≡ next = ground arith in
        rw (stop_whole k next offset s m changed same full) (
          (k, s) ∷ ready,
          pending,
          ap (λ l. (k, s) ∷ l) e,
          (same, full, subst (λ j. IsReady (j + 1) (advance m (k + 1, 0) true).0.0 ready) same r),
          q,
          w,
        )
    choose t (inl here) (inr part) = stays (λ e. part)
    choose t (inr later) f = stays (λ e. absurd (ground arith))
