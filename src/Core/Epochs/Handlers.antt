-- ===== src/Core/Epochs/Handlers.antt =====
-- The epoch of the state over messages from the links and the timer.
use link_set.Prelude.{
  ℕ, List, [], ◌∷◌, true, false, Option, some, ◌==◌, ltb, ◌-◌, if◌then◌else◌, arith,
}
use link_set.Epoch.{Epoch, IsEpoch}
use link_set.Epoch.Order.{IsOptEpoch}
use link_set.Protocol.{LinkProtocol, reset, ack, msg_slice, ping, pong}
use link_set.Links.{LinkOps, upkeep, ping_all, send_slices}
use link_set.Connect.{ConnectorOps}
use link_set.Messages.{MessageManager, insert_msg, get_outgoing_slice, recv, take_recvd}
use link_set.Messages
use link_set.State.{
  Common, Command, Connected, EpochMismatch, Reconnecting, GracePeriod, connect, disconnect,
  add_link,
}
use link_set.State.Moves.{
  mismatch_to_disconnected, mismatch_to_connecting, mismatch_to_connected,
  reconnecting_to_disconnected, reconnecting_to_connecting, grace_to_disconnected,
  grace_to_connecting, connected_to_mismatch, connected_to_disconnected, connected_to_grace,
  connected_to_reconnecting, send_queued,
}
use link_set.State.Online.{
  same_epoch, epoch_fits, resend, ping_interval, determine_state, connected_send, connected_slice,
  connected_link_msg, connected_timer, connected_ctrl_msg,
}
use link_set.State.Passive.{
  reconnecting_link_msg, reconnecting_timer, grace_link_msg, grace_timer, recv_quietly,
}
use link_set.State.Mismatch.{mismatch_reset, mismatch_link_msg, mismatch_timer}
use link_set.Core.{Event, ctrl_msg, link_msg, timer, debug_cmd}
use link_set.Core.Holds.{Holds, Holds-if, Holds-elim, Holds-map}
use link_set.Core.Epochs.{epoch_of, Onward, Reaches, same, next, opt_next}
use link_set.Core.Epochs.Handshake.{top-Onward, mismatch_reset_held}

-- The epoch that a message carries is one that `deserialize` reads.
abbrev pub IsMsg : LinkProtocol → Type 0
IsMsg (reset epoch request) = IsOptEpoch epoch
IsMsg (ack epoch seq last_index) = Unit
IsMsg (msg_slice epoch seq seq_len first_index bytes) = Unit
IsMsg ping = Unit
IsMsg pong = Unit

module _ {L C : Type 0} where
  abbrev pub IsEvent : Event L C → Type 0
  IsEvent (ctrl_msg now msg) = Unit
  IsEvent (link_msg now id msg) = IsMsg msg
  IsEvent (timer now) = Unit
  IsEvent (debug_cmd cmd) = Unit

  abbrev pub AreEvents : List (Event L C) → Type 0
  AreEvents [] = Unit
  AreEvents (event ∷ events) = IsEvent event × AreEvents events

  determine_state-Reaches :
      (now : ℕ) (c : Common) (s : Connected L C)
      → IsEpoch s.epoch
      → Reaches (some s.epoch) (determine_state now c s)
  unfolding determine_state connected_to_disconnected connected_to_grace connected_to_reconnecting
  determine_state-Reaches now c s h = ground (arith, same (some s.epoch) h, next s.epoch h)

module _ {L C : Type 0} ⦃o : LinkOps L⦄ where
  connected_send-Reaches :
      (now : ℕ) (b : List ℕ) (c : Common) (s : Connected L C)
      → IsEpoch s.epoch
      → Holds (Reaches (some s.epoch)) (connected_send now b c s)
  unfolding connected_send
  connected_send-Reaches now b c s h =
      Holds-elim _ (get_outgoing_slice ((insert_msg b s.msg_mgr).1) ((insert_msg b s.msg_mgr).0)) _
        _ (determine_state-Reaches now c _ h)
        (λ slice_mgr.
          Holds-elim _ (send_slices slice_mgr s.links) _ _ tt
            (λ x. determine_state-Reaches now c _ h))

  mismatch_to_connected-Reaches :
      (own : Option Epoch) (now : ℕ) (e : Epoch) (c : Common) (s : EpochMismatch L C)
      → Onward own (some e)
      → Holds (Reaches own) (mismatch_to_connected now e c s)
  unfolding mismatch_to_connected
  mismatch_to_connected-Reaches own now e c s h =
      Holds-elim _ (send_queued s.queued_msgs (Messages.new e) s.links) _ _ tt (λ x. h)

  pub mismatch_timer-Reaches :
      (now : ℕ) (c : Common) (s : EpochMismatch L C)
      → IsOptEpoch s.epoch
      → Reaches s.epoch (mismatch_timer now c s)
  unfolding mismatch_timer mismatch_to_connecting mismatch_to_disconnected
  mismatch_timer-Reaches now c s h = ground (arith, same s.epoch h, opt_next s.epoch h)

  pub mismatch_link_msg-Reaches :
      (now : ℕ) (c : Common) (s : EpochMismatch L C) (id : ℕ) (msg : LinkProtocol)
      → IsOptEpoch s.epoch
      → IsMsg msg
      → Holds (Reaches s.epoch) (mismatch_link_msg now c s id msg)
  unfolding mismatch_link_msg
  mismatch_link_msg-Reaches now c s id (reset theirs request) h m =
      Holds-map _ _ (mismatch_reset now theirs request c s)
        (λ r t. top-Onward s.epoch theirs (epoch_of r.1) h m t.0)
        (mismatch_reset_held now theirs request c s h m)
  mismatch_link_msg-Reaches now c s id (ack epoch seq last_index) h m = same s.epoch h
  mismatch_link_msg-Reaches now c s id (msg_slice epoch seq seq_len first_index bytes) h m =
      same s.epoch h
  mismatch_link_msg-Reaches now c s id ping h m = same s.epoch h
  mismatch_link_msg-Reaches now c s id pong h m = same s.epoch h

  connected_slice-Reaches :
      (now seq seq_len first_index : ℕ) (bytes : List ℕ) (c : Common) (s : Connected L C)
      → IsEpoch s.epoch
      → Holds (Reaches (some s.epoch)) (connected_slice now seq seq_len first_index bytes c s)
  unfolding connected_slice
  connected_slice-Reaches now seq seq_len first_index bytes c s h =
      Holds-elim _ (recv seq first_index seq_len bytes s.msg_mgr) _ _ tt
        (λ r. Holds-elim _ (take_recvd r.0) _ _ tt (λ t. determine_state-Reaches now _ _ h))

  pub connected_link_msg-Reaches :
      (now : ℕ) (c : Common) (s : Connected L C) (id : ℕ) (msg : LinkProtocol)
      → IsEpoch s.epoch
      → Holds (Reaches (some s.epoch)) (connected_link_msg now c s id msg)
  unfolding connected_link_msg connected_to_mismatch
  connected_link_msg-Reaches now c s id (reset epoch false) h = same (some s.epoch) h
  connected_link_msg-Reaches now c s id (reset epoch true) h =
      Holds-if (Reaches (some s.epoch)) (same_epoch epoch s.epoch) _ _
        (determine_state-Reaches now c _ h) (next s.epoch h)
  connected_link_msg-Reaches now c s id (ack epoch seq last_index) h =
      ground (arith, same (some s.epoch) h)
  connected_link_msg-Reaches now c s id (msg_slice epoch seq seq_len first_index bytes) h =
      Holds-if _ (epoch == s.epoch) _ _
        (connected_slice-Reaches now seq seq_len first_index bytes c s h) (same (some s.epoch) h)
  connected_link_msg-Reaches now c s id ping h = same (some s.epoch) h
  connected_link_msg-Reaches now c s id pong h = same (some s.epoch) h

  pub connected_timer-Reaches :
      (now : ℕ) (c : Common) (s : Connected L C)
      → IsEpoch s.epoch
      → Holds (Reaches (some s.epoch)) (connected_timer now c s)
  unfolding connected_timer
  connected_timer-Reaches now c s h =
      Holds-elim _
        (resend s.msg_mgr (
          upkeep (if ltb ping_interval (now - s.last_ping) then ping_all now s.links else s.links)))
        _ _ tt (λ links. determine_state-Reaches now c _ h)

module _ {L C : Type 0} ⦃o : LinkOps L⦄ ⦃cc : ConnectorOps C⦄ where
  pub connected_ctrl_msg-Reaches :
      (now : ℕ) (c : Common) (s : Connected L C) (cmd : Command L C)
      → IsEpoch s.epoch
      → Holds (Reaches (some s.epoch)) (connected_ctrl_msg now c s cmd)
  unfolding connected_ctrl_msg connected_to_disconnected
  connected_ctrl_msg-Reaches now c s connect h = same (some s.epoch) h
  connected_ctrl_msg-Reaches now c s disconnect h = next s.epoch h
  connected_ctrl_msg-Reaches now c s (Command.add_connector conn) h = same (some s.epoch) h
  connected_ctrl_msg-Reaches now c s (Command.add_address a) h = same (some s.epoch) h
  connected_ctrl_msg-Reaches now c s (add_link l) h = ground (arith, same (some s.epoch) h)
  connected_ctrl_msg-Reaches now c s (Command.message b e) h =
      Holds-if _ (epoch_fits e s.epoch) _ _ (connected_send-Reaches now b c s h)
        (same (some s.epoch) h)

module _ {C : Type 0} where
  pub reconnecting_link_msg-Reaches :
      (L : Type 0) (now : ℕ) (c : Common) (s : Reconnecting C) (id : ℕ) (msg : LinkProtocol)
      → IsEpoch s.epoch
      → Holds (Reaches {L = L} (some s.epoch)) (reconnecting_link_msg now c s id msg)
  unfolding reconnecting_link_msg reconnecting_to_connecting
  reconnecting_link_msg-Reaches L now c s id (reset epoch false) h = same (some s.epoch) h
  reconnecting_link_msg-Reaches L now c s id (reset epoch true) h =
      Holds-if _ (same_epoch epoch s.epoch) _ _ (next s.epoch h) (same (some s.epoch) h)
  reconnecting_link_msg-Reaches L now c s id (ack epoch seq last_index) h =
      ground (arith, same (some s.epoch) h)
  reconnecting_link_msg-Reaches L now c s id (msg_slice epoch seq seq_len first_index bytes) h =
      Holds-if _ (epoch == s.epoch) _ _
        (Holds-elim _ (recv_quietly seq first_index seq_len bytes s.epoch c s.msg_mgr) _ _ tt
          (λ r. same (some s.epoch) h))
        (same (some s.epoch) h)
  reconnecting_link_msg-Reaches L now c s id ping h = same (some s.epoch) h
  reconnecting_link_msg-Reaches L now c s id pong h = same (some s.epoch) h

  pub grace_link_msg-Reaches :
      (L : Type 0) (c : Common) (s : GracePeriod C) (id : ℕ) (msg : LinkProtocol)
      → IsEpoch s.epoch
      → Holds (Reaches {L = L} (some s.epoch)) (grace_link_msg c s id msg)
  unfolding grace_link_msg grace_to_disconnected
  grace_link_msg-Reaches L c s id (reset epoch false) h = same (some s.epoch) h
  grace_link_msg-Reaches L c s id (reset epoch true) h =
      Holds-if _ (same_epoch epoch s.epoch) _ _ (next s.epoch h) (same (some s.epoch) h)
  grace_link_msg-Reaches L c s id (ack epoch seq last_index) h =
      ground (arith, same (some s.epoch) h)
  grace_link_msg-Reaches L c s id (msg_slice epoch seq seq_len first_index bytes) h =
      Holds-if _ (epoch == s.epoch) _ _
        (Holds-elim _ (recv_quietly seq first_index seq_len bytes s.epoch c s.msg_mgr) _ _ tt
          (λ r. same (some s.epoch) h))
        (same (some s.epoch) h)
  grace_link_msg-Reaches L c s id ping h = same (some s.epoch) h
  grace_link_msg-Reaches L c s id pong h = same (some s.epoch) h

  pub reconnecting_timer-Reaches :
      (L : Type 0) (now : ℕ) (c : Common) (s : Reconnecting C)
      → IsEpoch s.epoch
      → Reaches {L = L} (some s.epoch) (reconnecting_timer now c s)
  unfolding reconnecting_timer reconnecting_to_connecting reconnecting_to_disconnected
  reconnecting_timer-Reaches L now c s h = ground (arith, next s.epoch h)

  pub grace_timer-Reaches :
      (L : Type 0) (now : ℕ) (c : Common) (s : GracePeriod C)
      → IsEpoch s.epoch
      → Reaches {L = L} (some s.epoch) (grace_timer now c s)
  unfolding grace_timer grace_to_connecting grace_to_disconnected
  grace_timer-Reaches L now c s h = ground (arith, next s.epoch h)
