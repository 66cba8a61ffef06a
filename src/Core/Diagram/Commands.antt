-- ===== src/Core/Diagram/Commands.antt =====
-- The moves that commands make.
use link_set.Prelude.{ℕ, List, ◌&&◌, Bool-cases, inl, inr}
use link_set.Links.{LinkOps, send_slices}
use link_set.Connect.{ConnectorOps}
use link_set.Messages.{insert_msg, get_outgoing_slice}
use link_set.State.{
  Common, Command, Disconnected, Connecting, EpochMismatch, Connected, Reconnecting, GracePeriod,
  wrap_link, connect, disconnect, add_link,
}
use link_set.State.Moves.{
  disconnected_to_connecting, disconnected_to_mismatch, connecting_to_disconnected,
  connecting_to_mismatch, mismatch_to_disconnected, connected_to_disconnected,
  reconnecting_to_disconnected, reconnecting_to_connected, grace_to_disconnected,
  grace_to_connected,
}
use link_set.State.Online.{epoch_fits, connected_send, connected_ctrl_msg}
use link_set.State.Mismatch.{mismatch_ctrl_msg}
use link_set.State.Passive.{reconnecting_ctrl_msg, grace_ctrl_msg}
use link_set.State.Offline.{disconnected_ctrl_msg, connecting_ctrl_msg, is_none}
use link_set.Core.Holds.{Holds, Holds-if, Holds-elim}
use link_set.Protocol.{Result-cases}
use link_set.Core.Diagram.{
  Cause, Phase, Move, stay, link_first, link_found, link_back, link_again, Follows,
  determine_state-Follows,
}

module _ {L C : Type 0} ⦃o : LinkOps L⦄ where
  connected_send-Follows :
      (now : ℕ) (b : List ℕ) (c : Common) (s : Connected L C)
      → Holds (Follows Cause.command Phase.connected) (connected_send now b c s)
  unfolding connected_send
  connected_send-Follows now b c s =
      let (msgs, seq) = insert_msg b s.msg_mgr in
      Holds-elim _ (get_outgoing_slice seq msgs) _ _ (determine_state-Follows Cause.command now c _)
        (λ slice_mgr.
          Holds-elim _ (send_slices slice_mgr s.links) _ _ tt
            (λ x. determine_state-Follows Cause.command now c _))

module _ {L C : Type 0} ⦃o : LinkOps L⦄ ⦃cc : ConnectorOps C⦄ where
  pub disconnected_ctrl_msg-Follows :
      (now : ℕ) (c : Common) (s : Disconnected C) (cmd : Command L C)
      → Follows Cause.command Phase.disconnected (disconnected_ctrl_msg now c s cmd)
  unfolding disconnected_ctrl_msg disconnected_to_connecting disconnected_to_mismatch
  disconnected_ctrl_msg-Follows now c s connect = Move.connect
  disconnected_ctrl_msg-Follows now c s disconnect = Move.disconnect
  disconnected_ctrl_msg-Follows now c s (Command.add_connector conn) = stay
  disconnected_ctrl_msg-Follows now c s (Command.add_address a) = stay
  disconnected_ctrl_msg-Follows now c s (add_link l) = elim (Result-cases ((wrap_link l c).1)) [
    | inl (entry, e) ↦ rw (e, disconnected_ctrl_msg) link_first
    | inr (x, e) ↦ rw (e, disconnected_ctrl_msg) stay
  ]
  disconnected_ctrl_msg-Follows now c s (Command.message b e) =
      elim (Bool-cases (c.auto_connect && is_none e)) [
        | inl starts ↦ rw starts Move.connect
        | inr other ↦ rw other stay
      ]

  pub connecting_ctrl_msg-Follows :
      (now : ℕ) (c : Common) (s : Connecting C) (cmd : Command L C)
      → Follows Cause.command Phase.connecting (connecting_ctrl_msg now c s cmd)
  unfolding connecting_ctrl_msg connecting_to_disconnected connecting_to_mismatch
  connecting_ctrl_msg-Follows now c s connect = stay
  connecting_ctrl_msg-Follows now c s disconnect = Move.disconnect
  connecting_ctrl_msg-Follows now c s (Command.add_connector conn) = stay
  connecting_ctrl_msg-Follows now c s (Command.add_address a) = stay
  connecting_ctrl_msg-Follows now c s (add_link l) = elim (Result-cases ((wrap_link l c).1)) [
    | inl (entry, e) ↦ rw (e, connecting_ctrl_msg) link_found
    | inr (x, e) ↦ rw (e, connecting_ctrl_msg) stay
  ]
  connecting_ctrl_msg-Follows now c s (Command.message b e) = stay

  pub mismatch_ctrl_msg-Follows :
      (c : Common) (s : EpochMismatch L C) (cmd : Command L C)
      → Follows Cause.command Phase.epoch_mismatch (mismatch_ctrl_msg c s cmd)
  unfolding mismatch_ctrl_msg mismatch_to_disconnected
  mismatch_ctrl_msg-Follows c s connect = stay
  mismatch_ctrl_msg-Follows c s disconnect = Move.disconnect
  mismatch_ctrl_msg-Follows c s (Command.add_connector conn) = stay
  mismatch_ctrl_msg-Follows c s (Command.add_address a) = stay
  mismatch_ctrl_msg-Follows c s (add_link l) = elim (Result-cases ((wrap_link l c).1)) [
    | inl (entry, e) ↦ rw (e, mismatch_ctrl_msg) stay
    | inr (x, e) ↦ rw (e, mismatch_ctrl_msg) stay
  ]
  mismatch_ctrl_msg-Follows c s (Command.message b e) = stay

  pub connected_ctrl_msg-Follows :
      (now : ℕ) (c : Common) (s : Connected L C) (cmd : Command L C)
      → Holds (Follows Cause.command Phase.connected) (connected_ctrl_msg now c s cmd)
  unfolding connected_ctrl_msg connected_to_disconnected
  connected_ctrl_msg-Follows now c s connect = stay
  connected_ctrl_msg-Follows now c s disconnect = Move.disconnect
  connected_ctrl_msg-Follows now c s (Command.add_connector conn) = stay
  connected_ctrl_msg-Follows now c s (Command.add_address a) = stay
  connected_ctrl_msg-Follows now c s (add_link l) = elim (Result-cases ((wrap_link l c).1)) [
    | inl (entry, e) ↦ rw (e, connected_ctrl_msg) stay
    | inr (x, e) ↦ rw (e, connected_ctrl_msg) stay
  ]
  connected_ctrl_msg-Follows now c s (Command.message b e) =
      Holds-if _ (epoch_fits e s.epoch) _ _ (connected_send-Follows now b c s) stay

  pub reconnecting_ctrl_msg-Follows :
      (now : ℕ) (c : Common) (s : Reconnecting C) (cmd : Command L C)
      → Follows Cause.command Phase.reconnecting (reconnecting_ctrl_msg now c s cmd)
  unfolding reconnecting_ctrl_msg reconnecting_to_disconnected reconnecting_to_connected
  reconnecting_ctrl_msg-Follows now c s connect = stay
  reconnecting_ctrl_msg-Follows now c s disconnect = Move.disconnect
  reconnecting_ctrl_msg-Follows now c s (Command.add_connector conn) = stay
  reconnecting_ctrl_msg-Follows now c s (Command.add_address a) = stay
  reconnecting_ctrl_msg-Follows now c s (add_link l) = elim (Result-cases ((wrap_link l c).1)) [
    | inl (entry, e) ↦ rw (e, reconnecting_ctrl_msg) link_back
    | inr (x, e) ↦ rw (e, reconnecting_ctrl_msg) stay
  ]
  reconnecting_ctrl_msg-Follows now c s (Command.message b e) = stay

  pub grace_ctrl_msg-Follows :
      (now : ℕ) (c : Common) (s : GracePeriod C) (cmd : Command L C)
      → Follows Cause.command Phase.grace_period (grace_ctrl_msg now c s cmd)
  unfolding grace_ctrl_msg grace_to_disconnected grace_to_connected
  grace_ctrl_msg-Follows now c s connect = stay
  grace_ctrl_msg-Follows now c s disconnect = Move.disconnect
  grace_ctrl_msg-Follows now c s (Command.add_connector conn) = stay
  grace_ctrl_msg-Follows now c s (Command.add_address a) = stay
  grace_ctrl_msg-Follows now c s (add_link l) = elim (Result-cases ((wrap_link l c).1)) [
    | inl (entry, e) ↦ rw (e, grace_ctrl_msg) link_again
    | inr (x, e) ↦ rw (e, grace_ctrl_msg) stay
  ]
  grace_ctrl_msg-Follows now c s (Command.message b e) = stay
