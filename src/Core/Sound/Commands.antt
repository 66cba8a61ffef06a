-- ===== src/Core/Sound/Commands.antt =====
-- Commands do not panic in a sound state, and leave one.
use link_set.Prelude.{ℕ, ◌&&◌, Ensures, Ensures-if, Bool-cases, inl, inr}
use link_set.Links.{LinkOps}
use link_set.Connect.{ConnectorOps}
use link_set.Messages.Panics.{IsSound, insert_msg-IsSound}
use link_set.State.{
  Common, Command, Disconnected, Connecting, EpochMismatch, Connected, Reconnecting, GracePeriod,
  wrap_link, connect, disconnect, add_link,
}
use link_set.State.Moves.{
  disconnected_to_connecting, disconnected_to_mismatch, connecting_to_disconnected,
  connecting_to_mismatch, mismatch_to_disconnected, connected_to_disconnected,
  reconnecting_to_disconnected, reconnecting_to_connected, grace_to_disconnected,
  grace_to_connected,
}
use link_set.State.Online.{epoch_fits, connected_ctrl_msg}
use link_set.State.Mismatch.{mismatch_ctrl_msg}
use link_set.State.Passive.{reconnecting_ctrl_msg, grace_ctrl_msg}
use link_set.State.Offline.{disconnected_ctrl_msg, connecting_ctrl_msg, is_none}
use link_set.Core.Sound.{Sound, connected_send-Sound}
use link_set.Protocol.{Result-cases}

module _ {L C : Type 0} ⦃o : LinkOps L⦄ ⦃cc : ConnectorOps C⦄ where
  pub disconnected_ctrl_msg-Sound :
      (now : ℕ) (c : Common) (s : Disconnected C) (cmd : Command L C)
      → Sound (disconnected_ctrl_msg now c s cmd)
  unfolding disconnected_ctrl_msg disconnected_to_connecting disconnected_to_mismatch
  disconnected_ctrl_msg-Sound now c s connect = tt
  disconnected_ctrl_msg-Sound now c s disconnect = tt
  disconnected_ctrl_msg-Sound now c s (Command.add_connector conn) = tt
  disconnected_ctrl_msg-Sound now c s (Command.add_address a) = tt
  disconnected_ctrl_msg-Sound now c s (add_link l) = elim (Result-cases ((wrap_link l c).1)) [
    | inl (entry, e) ↦ rw (e, disconnected_ctrl_msg) tt
    | inr (x, e) ↦ rw (e, disconnected_ctrl_msg) tt
  ]
  disconnected_ctrl_msg-Sound now c s (Command.message b e) =
      elim (Bool-cases (c.auto_connect && is_none e)) [
        | inl starts ↦ rw starts tt
        | inr other ↦ rw other tt
      ]

  pub connecting_ctrl_msg-Sound :
      (now : ℕ) (c : Common) (s : Connecting C) (cmd : Command L C)
      → Sound (connecting_ctrl_msg now c s cmd)
  unfolding connecting_ctrl_msg connecting_to_disconnected connecting_to_mismatch
  connecting_ctrl_msg-Sound now c s connect = tt
  connecting_ctrl_msg-Sound now c s disconnect = tt
  connecting_ctrl_msg-Sound now c s (Command.add_connector conn) = tt
  connecting_ctrl_msg-Sound now c s (Command.add_address a) = tt
  connecting_ctrl_msg-Sound now c s (add_link l) = elim (Result-cases ((wrap_link l c).1)) [
    | inl (entry, e) ↦ rw (e, connecting_ctrl_msg) tt
    | inr (x, e) ↦ rw (e, connecting_ctrl_msg) tt
  ]
  connecting_ctrl_msg-Sound now c s (Command.message b e) = tt

  pub mismatch_ctrl_msg-Sound :
      (c : Common) (s : EpochMismatch L C) (cmd : Command L C) → Sound (mismatch_ctrl_msg c s cmd)
  unfolding mismatch_ctrl_msg mismatch_to_disconnected
  mismatch_ctrl_msg-Sound c s connect = tt
  mismatch_ctrl_msg-Sound c s disconnect = tt
  mismatch_ctrl_msg-Sound c s (Command.add_connector conn) = tt
  mismatch_ctrl_msg-Sound c s (Command.add_address a) = tt
  mismatch_ctrl_msg-Sound c s (add_link l) = elim (Result-cases ((wrap_link l c).1)) [
    | inl (entry, e) ↦ rw (e, mismatch_ctrl_msg) tt
    | inr (x, e) ↦ rw (e, mismatch_ctrl_msg) tt
  ]
  mismatch_ctrl_msg-Sound c s (Command.message b e) = tt

  pub connected_ctrl_msg-Sound :
      (now : ℕ) (c : Common) (s : Connected L C) (cmd : Command L C)
      → IsSound s.msg_mgr
      → Ensures Sound (connected_ctrl_msg now c s cmd)
  unfolding connected_ctrl_msg connected_to_disconnected
  connected_ctrl_msg-Sound now c s connect h = h
  connected_ctrl_msg-Sound now c s disconnect h = tt
  connected_ctrl_msg-Sound now c s (Command.add_connector conn) h = h
  connected_ctrl_msg-Sound now c s (Command.add_address a) h = h
  connected_ctrl_msg-Sound now c s (add_link l) h = elim (Result-cases ((wrap_link l c).1)) [
    | inl (entry, e) ↦ rw (e, connected_ctrl_msg) h
    | inr (x, e) ↦ rw (e, connected_ctrl_msg) h
  ]
  connected_ctrl_msg-Sound now c s (Command.message b e) h =
      Ensures-if _ (epoch_fits e s.epoch) _ _ (λ fits. connected_send-Sound now b c s h) (λ e. h)

  pub reconnecting_ctrl_msg-Sound :
      (now : ℕ) (c : Common) (s : Reconnecting C) (cmd : Command L C)
      → IsSound s.msg_mgr
      → Sound (reconnecting_ctrl_msg now c s cmd)
  unfolding reconnecting_ctrl_msg reconnecting_to_disconnected reconnecting_to_connected
  reconnecting_ctrl_msg-Sound now c s connect h = h
  reconnecting_ctrl_msg-Sound now c s disconnect h = tt
  reconnecting_ctrl_msg-Sound now c s (Command.add_connector conn) h = h
  reconnecting_ctrl_msg-Sound now c s (Command.add_address a) h = h
  reconnecting_ctrl_msg-Sound now c s (add_link l) h = elim (Result-cases ((wrap_link l c).1)) [
    | inl (entry, e) ↦ rw (e, reconnecting_ctrl_msg) h
    | inr (x, e) ↦ rw (e, reconnecting_ctrl_msg) h
  ]
  reconnecting_ctrl_msg-Sound now c s (Command.message b e) h =
      elim (Bool-cases (epoch_fits e s.epoch)) [
        | inl fits ↦ rw fits (insert_msg-IsSound b s.msg_mgr h)
        | inr other ↦ rw other h
      ]

  pub grace_ctrl_msg-Sound :
      (now : ℕ) (c : Common) (s : GracePeriod C) (cmd : Command L C)
      → IsSound s.msg_mgr
      → Sound (grace_ctrl_msg now c s cmd)
  unfolding grace_ctrl_msg grace_to_disconnected grace_to_connected
  grace_ctrl_msg-Sound now c s connect h = h
  grace_ctrl_msg-Sound now c s disconnect h = tt
  grace_ctrl_msg-Sound now c s (Command.add_connector conn) h = h
  grace_ctrl_msg-Sound now c s (Command.add_address a) h = h
  grace_ctrl_msg-Sound now c s (add_link l) h = elim (Result-cases ((wrap_link l c).1)) [
    | inl (entry, e) ↦ rw (e, grace_ctrl_msg) h
    | inr (x, e) ↦ rw (e, grace_ctrl_msg) h
  ]
  grace_ctrl_msg-Sound now c s (Command.message b e) h = elim (Bool-cases (epoch_fits e s.epoch)) [
    | inl fits ↦ rw fits (insert_msg-IsSound b s.msg_mgr h)
    | inr other ↦ rw other h
  ]
