-- ===== src/Core/Active.antt =====
-- The flag `is_active`, which src/link_set/controller.rs reads to tell whether the link set is
-- connected: what control messages do to it.
pub mod Handlers
pub mod Runs
use link_set.Prelude.{ℕ, List, [], ◌∷◌, Bool, true, false, ◌≡◌, refl, ◌-◌, arith}
use link_set.State.Passive.{reconnecting_ctrl_msg, grace_ctrl_msg}
use link_set.Links.{LinkOps}
use link_set.Connect.{ConnectorOps}
use link_set.State.{
  Common, with_timer, arm_timer, Command, States, Disconnected, Connecting, EpochMismatch,
  Reconnecting, GracePeriod, wrap_link, connect, disconnect, add_link, LinkSetMessageInner,
  send_ctrl, set_active,
}
use link_set.State.Moves.{
  attempting, connecting_to_disconnected, connecting_to_mismatch, mismatch_to_disconnected,
  reconnecting_to_disconnected, reconnecting_to_connected, grace_to_disconnected,
  grace_to_connected, disconnected_to_connecting, disconnected_to_mismatch, determine_timer,
}
use link_set.State.Offline.{disconnected_ctrl_msg, connecting_ctrl_msg}
use link_set.State.Online.{hand_over}
use link_set.State.Mismatch.{mismatch_ctrl_msg}
use link_set.Messages

module _ {L C : Type 0} where
  abbrev pub is_connected : States L C → Bool
  is_connected (States.connected s) = true
  is_connected (States.disconnected s) = false
  is_connected (States.connecting s) = false
  is_connected (States.epoch_mismatch s) = false
  is_connected (States.reconnecting s) = false
  is_connected (States.grace_period s) = false

  -- The flag says whether the state is `Connected`.
  abbrev pub Flagged : Common × States L C → Type 0
  Flagged (c, s) = c.is_active ≡ is_connected s

pub determine_timer_active :
    (now : ℕ) (c : Common) → (determine_timer now c).is_active ≡ c.is_active
unfolding determine_timer with_timer arm_timer
determine_timer_active now c = ground arith

pub hand_over_active :
    (e : ℕ) (ms : List (List ℕ)) (c : Common) → (hand_over e ms c).is_active ≡ c.is_active
unfolding hand_over send_ctrl
hand_over_active e [] c = refl
hand_over_active e (m ∷ ms) c =
    hand_over_active e ms (send_ctrl (LinkSetMessageInner.message m e) c)

module _ {L : Type 0} ⦃o : LinkOps L⦄ where
  pub wrap_link_active : (l : L) (c : Common) → ((wrap_link l c).0).is_active ≡ c.is_active
  unfolding wrap_link
  wrap_link_active l c = ground arith

module _ {L C : Type 0} ⦃o : LinkOps L⦄ ⦃cc : ConnectorOps C⦄ where
  pub disconnected_ctrl_msg-Flagged :
      (now : ℕ) (c : Common) (s : Disconnected C) (cmd : Command L C)
      → c.is_active ≡ false
      → Flagged (disconnected_ctrl_msg now c s cmd)
  unfolding disconnected_ctrl_msg disconnected_to_connecting disconnected_to_mismatch with_timer
      arm_timer send_ctrl
  disconnected_ctrl_msg-Flagged now c s connect h =
      ground (arith, determine_timer_active now (attempting true c))
  disconnected_ctrl_msg-Flagged now c s disconnect h = h
  disconnected_ctrl_msg-Flagged now c s (Command.add_connector conn) h = h
  disconnected_ctrl_msg-Flagged now c s (Command.add_address a) h = h
  disconnected_ctrl_msg-Flagged now c s (add_link l) h = ground (arith, wrap_link_active l c)
  disconnected_ctrl_msg-Flagged now c s (Command.message b e) h =
      ground (arith, determine_timer_active now (attempting true c))

  pub connecting_ctrl_msg-Flagged :
      (now : ℕ) (c : Common) (s : Connecting C) (cmd : Command L C)
      → c.is_active ≡ false
      → Flagged (connecting_ctrl_msg now c s cmd)
  unfolding connecting_ctrl_msg connecting_to_disconnected connecting_to_mismatch with_timer
      arm_timer send_ctrl
  connecting_ctrl_msg-Flagged now c s connect h = h
  connecting_ctrl_msg-Flagged now c s disconnect h = h
  connecting_ctrl_msg-Flagged now c s (Command.add_connector conn) h = h
  connecting_ctrl_msg-Flagged now c s (Command.add_address a) h = h
  connecting_ctrl_msg-Flagged now c s (add_link l) h = ground (arith, wrap_link_active l c)
  connecting_ctrl_msg-Flagged now c s (Command.message b e) h = h

  pub mismatch_ctrl_msg-Flagged :
      (c : Common) (s : EpochMismatch L C) (cmd : Command L C)
      → c.is_active ≡ false
      → Flagged (mismatch_ctrl_msg c s cmd)
  unfolding mismatch_ctrl_msg mismatch_to_disconnected with_timer arm_timer
  mismatch_ctrl_msg-Flagged c s connect h = h
  mismatch_ctrl_msg-Flagged c s disconnect h = h
  mismatch_ctrl_msg-Flagged c s (Command.add_connector conn) h = h
  mismatch_ctrl_msg-Flagged c s (Command.add_address a) h = h
  mismatch_ctrl_msg-Flagged c s (add_link l) h = ground (arith, wrap_link_active l c)
  mismatch_ctrl_msg-Flagged c s (Command.message b e) h = h

  pub reconnecting_ctrl_msg-Flagged :
      (now : ℕ) (c : Common) (s : Reconnecting C) (cmd : Command L C)
      → c.is_active ≡ false
      → Flagged (reconnecting_ctrl_msg now c s cmd)
  unfolding reconnecting_ctrl_msg reconnecting_to_disconnected reconnecting_to_connected with_timer
      arm_timer send_ctrl set_active
  reconnecting_ctrl_msg-Flagged now c s connect h = h
  reconnecting_ctrl_msg-Flagged now c s disconnect h = h
  reconnecting_ctrl_msg-Flagged now c s (Command.add_connector conn) h = h
  reconnecting_ctrl_msg-Flagged now c s (Command.add_address a) h = h
  reconnecting_ctrl_msg-Flagged now c s (add_link l) h = ground (arith, wrap_link_active l c)
  reconnecting_ctrl_msg-Flagged now c s (Command.message b e) h = h

  pub grace_ctrl_msg-Flagged :
      (now : ℕ) (c : Common) (s : GracePeriod C) (cmd : Command L C)
      → c.is_active ≡ false
      → Flagged (grace_ctrl_msg now c s cmd)
  unfolding grace_ctrl_msg grace_to_disconnected grace_to_connected with_timer arm_timer send_ctrl
      set_active
  grace_ctrl_msg-Flagged now c s connect h = h
  grace_ctrl_msg-Flagged now c s disconnect h = h
  grace_ctrl_msg-Flagged now c s (Command.add_connector conn) h = h
  grace_ctrl_msg-Flagged now c s (Command.add_address a) h = h
  grace_ctrl_msg-Flagged now c s (add_link l) h = ground (arith, wrap_link_active l c)
  grace_ctrl_msg-Flagged now c s (Command.message b e) h = h
