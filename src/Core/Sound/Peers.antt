-- ===== src/Core/Sound/Peers.antt =====
-- What a peer that runs the same code sends: its slices are safe.
use mathlib.Core.Path.{subst}
use link_set.Prelude.{
  ℕ, ◌+◌, ◌≤◌, ◌<◌, ◌^◌, ◌≡◌, sym, List, [], ◌∷◌, some, All, Ensures, arith, length, take, drop,
  length-take, length-drop,
}
use link_set.Protocol.{LinkProtocol}
use link_set.Slices.{from_vec, get_slices, isize_max}
use link_set.Links.{LinkOps}
use link_set.Connect.{ConnectorOps}
use link_set.State.{Common, States}
use link_set.Core.{Event, link_msg, run}
use link_set.Core.Clock.{span_max}
use link_set.Core.Sound.Runs.{IsSafeEvent, Steady, run-Sound}
use link_set.Slices.Cutting.{IsCut}
use link_set.Slices.Delivery.{from_vec-IsCut}
use link_set.Messages.Panics.{IsSafeSlice}
use link_set.Core.Sound.Handlers.{IsSafe}

piece-IsSafe :
    (bytes : List ℕ) (lo n : ℕ)
    → 0 < n
    → lo + n ≤ length bytes
    → length bytes < 2 ^ 63
    → IsSafeSlice (length bytes) lo (take n (drop lo bytes))
piece-IsSafe bytes lo n p h fits =
    let size : length (take n (drop lo bytes)) ≡ n =
      omega (arith, length-take n (drop lo bytes), length-drop lo bytes) in
    record {
      nonempty = omega arith;
      end_positive = omega (arith, size);
      end_fits = omega (arith, size);
      len_fits = omega arith;
      allocates = omega arith;
    }

IsCut-IsSafe :
    (bytes : List ℕ) (epoch seq size lo hi : ℕ) (ps : List LinkProtocol)
    → hi ≤ length bytes
    → length bytes < 2 ^ 63
    → IsCut bytes epoch seq size lo hi ps
    → All IsSafe ps
IsCut-IsSafe bytes epoch seq size lo hi [] h fits cut = tt
IsCut-IsSafe bytes epoch seq size lo hi (p ∷ ps) h fits (n, is, pos, small, inside, cut) = (
  subst IsSafe (sym is) (piece-IsSafe bytes lo n pos (omega arith) fits),
  IsCut-IsSafe bytes epoch seq size (lo + n) hi ps h fits cut,
)

module _ {L C : Type 0} where
  -- Messages that all come over one link at one time.
  abbrev pub coming : ℕ → ℕ → List LinkProtocol → List (Event L C)
  coming now id [] = []
  coming now id (p ∷ ps) = link_msg now id p ∷ coming now id ps

coming-IsSafeEvent :
    (L C : Type 0) (now id : ℕ) (ps : List LinkProtocol)
    → now ≤ span_max
    → All IsSafe ps
    → All IsSafeEvent (coming {L = L} {C = C} now id ps)
coming-IsSafeEvent L C now id [] hn safe = tt
coming-IsSafeEvent L C now id (p ∷ ps) hn safe =
    ((hn, safe.0), coming-IsSafeEvent L C now id ps hn safe.1)

module _ {L C : Type 0} ⦃o : LinkOps L⦄ ⦃cc : ConnectorOps C⦄ where
  -- A message that is not empty and that a `Vec` can hold is cut, for a link of any size but 0, into
  -- slices under any epoch and number. A core that receives them, in any state whose messages can be
  -- cut and given out and whose timer is set, does not panic, and is in such a state afterwards, as
  -- long as the clock has not come to 73 billion years.
  pub run-get_slices :
      (orig : List ℕ) (epoch seq size now id : ℕ) (c : Common) (state : States L C)
      → 0 < length orig
      → length orig ≤ isize_max
      → 0 < size
      → now ≤ span_max
      → Steady (c, state)
      → (ps : List LinkProtocol) × (get_slices (from_vec epoch seq orig) size ≡ some ps)
        × Ensures Steady (run (coming now id ps) c state)
  run-get_slices orig epoch seq size now id c state p fits s hn h =
      let (ps, made, cut) = from_vec-IsCut orig epoch seq size p s in
      let safe =
        IsCut-IsSafe orig epoch seq size 0 (length orig) ps (omega arith) (omega arith) cut in
      (ps, made, run-Sound (coming now id ps) c state (coming-IsSafeEvent L C now id ps hn safe) h)
