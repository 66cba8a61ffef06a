-- ===== src/Core/Diagram.antt =====
-- The diagram of the six states of src/state/states: which moves a command, a message of the peer
-- and the timer can make. src/state/transition.rs names the moves by its implementations.
pub mod Commands
pub mod Handlers
pub mod Meeting
pub mod Runs
use link_set.Prelude.{ℕ, Bool, true, false, ◌≡◌, refl, ◌⊎◌, inl, inr, if◌then◌else◌}
use link_set.State.{Common, States, Connected}
use link_set.State.Moves.{connected_to_disconnected, connected_to_grace, connected_to_reconnecting}
use link_set.State.Online.{determine_state, is_zero}
use link_set.Links.{no_links}

pub data Phase : Type 0 where
  disconnected : Phase
  connecting : Phase
  epoch_mismatch : Phase
  connected : Phase
  reconnecting : Phase
  grace_period : Phase

-- What the loop of `start_core` waits for.
pub data Cause : Type 0 where
  command : Cause
  peer : Cause
  timeout : Cause

-- Where `determine_state` goes when the last link is lost.
pub data IsLoss : Phase → Type 0 where
  over : IsLoss disconnected
  waits : IsLoss grace_period
  tries : IsLoss reconnecting

pub data Move : Cause → Phase → Phase → Type 0 where
  stay : {c : Cause} {p : Phase} → Move c p p
  connect : Move command disconnected connecting
  link_first : Move command disconnected epoch_mismatch
  link_found : Move command connecting epoch_mismatch
  link_back : Move command reconnecting connected
  link_again : Move command grace_period connected
  disconnect : {p : Phase} → Move command p disconnected
  agree : Move peer epoch_mismatch connected
  differ : Move peer connected epoch_mismatch
  restart : Move peer reconnecting connecting
  end_grace : Move peer grace_period disconnected
  lose : {c : Cause} {p : Phase} → IsLoss p → Move c connected p
  expire : {p : Phase} → Move timeout p disconnected
  retry_mismatch : Move timeout epoch_mismatch connecting
  retry_reconnecting : Move timeout reconnecting connecting
  retry_grace : Move timeout grace_period connecting

module _ {L C : Type 0} where
  abbrev pub phase : States L C → Phase
  phase (States.disconnected s) = disconnected
  phase (States.connecting s) = connecting
  phase (States.epoch_mismatch s) = epoch_mismatch
  phase (States.connected s) = connected
  phase (States.reconnecting s) = reconnecting
  phase (States.grace_period s) = grace_period

  abbrev pub Follows : Cause → Phase → Common × States L C → Type 0
  Follows cause p (c, s) = Move cause p (phase s)

  pub Follows-if :
      (cause : Cause) (p : Phase) (b : Bool) (x y : Common × States L C)
      → Follows cause p x
      → Follows cause p y
      → Follows cause p (if b then x else y)
  Follows-if cause p true x y hx hy = hx
  Follows-if cause p false x y hx hy = hy

  pub determine_state-Follows :
      (cause : Cause) (now : ℕ) (c : Common) (s : Connected L C)
      → Follows cause connected (determine_state now c s)
  unfolding determine_state connected_to_disconnected connected_to_grace connected_to_reconnecting
  determine_state-Follows cause now c s =
      let gone : Common × States L C = connected_to_disconnected c s in
      let rests : Common × States L C = connected_to_grace now c s in
      let again : Common × States L C = connected_to_reconnecting now c s in
      let stays : Common × States L C = (c, States.connected s) in
      let ends : Common × States L C = if is_zero c.grace_period_timeout then gone else rests in
      let leaves : Common × States L C = if is_zero c.reconnecting_timeout then ends else again in
      Follows-if cause connected (no_links s.links) leaves stays
        (Follows-if cause connected (is_zero c.reconnecting_timeout) ends again
          (Follows-if cause connected (is_zero c.grace_period_timeout) gone rests (lose over)
            (lose waits))
          (lose tries))
        stay
