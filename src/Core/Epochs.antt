-- ===== src/Core/Epochs.antt =====
-- The epoch of the state, and what control messages do to it.
pub mod Agreement
pub mod Handlers
pub mod Runs
pub mod Handshake
use link_set.Prelude.{ℕ, ◌≤◌, Option, none, some, ◌-◌, arith}
use link_set.Epoch.{Epoch, IsEpoch, opt_epoch_to_int, increment, opt_epoch_increment}
use link_set.Epoch.Order.{IsOptEpoch}
use link_set.Links.{LinkOps}
use link_set.Connect.{ConnectorOps}
use link_set.Messages
use link_set.State.{
  Common, Command, States, Disconnected, Connecting, EpochMismatch, Reconnecting, GracePeriod,
  connect, disconnect, add_link,
}
use link_set.State.Moves.{
  connecting_to_disconnected, connecting_to_mismatch, mismatch_to_disconnected,
  reconnecting_to_disconnected, reconnecting_to_connected, grace_to_disconnected,
  grace_to_connected, disconnected_to_connecting, disconnected_to_mismatch,
}
use link_set.State.Offline.{disconnected_ctrl_msg, connecting_ctrl_msg}
use link_set.State.Passive.{reconnecting_ctrl_msg, grace_ctrl_msg}
use link_set.State.Mismatch.{mismatch_ctrl_msg}

module _ {L C : Type 0} where
  abbrev pub epoch_of : States L C → Option Epoch
  epoch_of (States.connected s) = some s.epoch
  epoch_of (States.disconnected s) = s.epoch
  epoch_of (States.connecting s) = s.epoch
  epoch_of (States.epoch_mismatch s) = s.epoch
  epoch_of (States.reconnecting s) = some s.epoch
  epoch_of (States.grace_period s) = some s.epoch

-- In range, and not below `own`.
abbrev pub Onward : Option Epoch → Option Epoch → Type 0
Onward own next = IsOptEpoch next × (opt_epoch_to_int own ≤ opt_epoch_to_int next)

module _ {L C : Type 0} where
  abbrev pub Reaches : Option Epoch → Common × States L C → Type 0
  Reaches own r = Onward own (epoch_of r.1)

pub same : (own : Option Epoch) → IsOptEpoch own → Onward own own
same own h = (h, omega arith)

pub next : (own : Epoch) → IsEpoch own → Onward (some own) (some (increment own))
unfolding increment
next own h = ground arith

pub opt_next : (own : Option Epoch) → IsOptEpoch own → Onward own (opt_epoch_increment own)
unfolding opt_epoch_increment
opt_next none h = same none h
opt_next (some own) h = next own h

module _ {L C : Type 0} ⦃o : LinkOps L⦄ ⦃cc : ConnectorOps C⦄ where
  pub disconnected_ctrl_msg-Reaches :
      (now : ℕ) (c : Common) (s : Disconnected C) (cmd : Command L C)
      → IsOptEpoch s.epoch
      → Reaches s.epoch (disconnected_ctrl_msg now c s cmd)
  unfolding disconnected_ctrl_msg disconnected_to_connecting disconnected_to_mismatch
  disconnected_ctrl_msg-Reaches now c s connect h = same s.epoch h
  disconnected_ctrl_msg-Reaches now c s disconnect h = same s.epoch h
  disconnected_ctrl_msg-Reaches now c s (Command.add_connector conn) h = same s.epoch h
  disconnected_ctrl_msg-Reaches now c s (Command.add_address a) h = same s.epoch h
  disconnected_ctrl_msg-Reaches now c s (add_link l) h = ground (arith, same s.epoch h)
  disconnected_ctrl_msg-Reaches now c s (Command.message b e) h = ground (arith, same s.epoch h)

  pub connecting_ctrl_msg-Reaches :
      (now : ℕ) (c : Common) (s : Connecting C) (cmd : Command L C)
      → IsOptEpoch s.epoch
      → Reaches s.epoch (connecting_ctrl_msg now c s cmd)
  unfolding connecting_ctrl_msg connecting_to_disconnected connecting_to_mismatch
  connecting_ctrl_msg-Reaches now c s connect h = same s.epoch h
  connecting_ctrl_msg-Reaches now c s disconnect h = same s.epoch h
  connecting_ctrl_msg-Reaches now c s (Command.add_connector conn) h = same s.epoch h
  connecting_ctrl_msg-Reaches now c s (Command.add_address a) h = same s.epoch h
  connecting_ctrl_msg-Reaches now c s (add_link l) h = ground (arith, same s.epoch h)
  connecting_ctrl_msg-Reaches now c s (Command.message b e) h = same s.epoch h

  pub mismatch_ctrl_msg-Reaches :
      (c : Common) (s : EpochMismatch L C) (cmd : Command L C)
      → IsOptEpoch s.epoch
      → Reaches s.epoch (mismatch_ctrl_msg c s cmd)
  unfolding mismatch_ctrl_msg mismatch_to_disconnected
  mismatch_ctrl_msg-Reaches c s connect h = same s.epoch h
  mismatch_ctrl_msg-Reaches c s disconnect h = opt_next s.epoch h
  mismatch_ctrl_msg-Reaches c s (Command.add_connector conn) h = same s.epoch h
  mismatch_ctrl_msg-Reaches c s (Command.add_address a) h = same s.epoch h
  mismatch_ctrl_msg-Reaches c s (add_link l) h = ground (arith, same s.epoch h)
  mismatch_ctrl_msg-Reaches c s (Command.message b e) h = same s.epoch h

  pub reconnecting_ctrl_msg-Reaches :
      (now : ℕ) (c : Common) (s : Reconnecting C) (cmd : Command L C)
      → IsEpoch s.epoch
      → Reaches (some s.epoch) (reconnecting_ctrl_msg now c s cmd)
  unfolding reconnecting_ctrl_msg reconnecting_to_disconnected reconnecting_to_connected
  reconnecting_ctrl_msg-Reaches now c s connect h = same (some s.epoch) h
  reconnecting_ctrl_msg-Reaches now c s disconnect h = next s.epoch h
  reconnecting_ctrl_msg-Reaches now c s (Command.add_connector conn) h = same (some s.epoch) h
  reconnecting_ctrl_msg-Reaches now c s (Command.add_address a) h = same (some s.epoch) h
  reconnecting_ctrl_msg-Reaches now c s (add_link l) h = ground (arith, same (some s.epoch) h)
  reconnecting_ctrl_msg-Reaches now c s (Command.message b e) h =
      ground (arith, same (some s.epoch) h)

  pub grace_ctrl_msg-Reaches :
      (now : ℕ) (c : Common) (s : GracePeriod C) (cmd : Command L C)
      → IsEpoch s.epoch
      → Reaches (some s.epoch) (grace_ctrl_msg now c s cmd)
  unfolding grace_ctrl_msg grace_to_disconnected grace_to_connected
  grace_ctrl_msg-Reaches now c s connect h = same (some s.epoch) h
  grace_ctrl_msg-Reaches now c s disconnect h = next s.epoch h
  grace_ctrl_msg-Reaches now c s (Command.add_connector conn) h = same (some s.epoch) h
  grace_ctrl_msg-Reaches now c s (Command.add_address a) h = same (some s.epoch) h
  grace_ctrl_msg-Reaches now c s (add_link l) h = ground (arith, same (some s.epoch) h)
  grace_ctrl_msg-Reaches now c s (Command.message b e) h = ground (arith, same (some s.epoch) h)
