-- ===== src/Core/Diagram/Handlers.antt =====
-- The moves that messages of the peer and the timer make.
use link_set.Prelude.{ℕ, ◌-◌, List, true, false, ltb, ◌==◌, if◌then◌else◌}
use link_set.Epoch.{Epoch, compare_epochs}
use link_set.Protocol.{LinkProtocol, reset, ack, msg_slice, ping, pong}
use link_set.Links.{LinkOps, no_links, ping_all, upkeep}
use link_set.Messages.{MessageManager, recv_ack, recv, take_recvd}
use link_set.Messages
use link_set.State.{Common, States, EpochMismatch, Connected, Reconnecting, GracePeriod}
use link_set.State.Moves.{
  connecting_to_disconnected, send_queued, mismatch_to_connected, mismatch_to_connecting,
  mismatch_to_disconnected, connected_to_mismatch, reconnecting_to_disconnected,
  reconnecting_to_connecting, grace_to_disconnected, grace_to_connecting,
}
use link_set.State.Online.{
  same_epoch, connected_slice, resend, ping_interval, connected_link_msg, connected_timer,
}
use link_set.State.Mismatch.{adopt, or_one, mismatch_reset, mismatch_link_msg}
use link_set.State.Passive.{
  recv_quietly, reconnecting_link_msg, reconnecting_timer, grace_link_msg, grace_timer,
}
use link_set.State.Mismatch.{mismatch_timer}
use link_set.State.Mismatch
use link_set.State.Offline.{disconnected_timer, connecting_timer}
use link_set.Core.{handle_timer}
use link_set.Core.Holds.{Holds, Holds-if, Holds-elim, Holds-order}
use link_set.Core.Diagram.{
  Cause, Phase, stay, agree, differ, restart, end_grace, expire, retry_mismatch, retry_reconnecting,
  retry_grace, Follows, Follows-if, phase, determine_state-Follows,
}

module _ {L C : Type 0} ⦃o : LinkOps L⦄ where
  mismatch_to_connected-Follows :
      (now : ℕ) (e : Epoch) (c : Common) (s : EpochMismatch L C)
      → Holds (Follows Cause.peer Phase.epoch_mismatch) (mismatch_to_connected now e c s)
  unfolding mismatch_to_connected
  mismatch_to_connected-Follows now e c s =
      Holds-elim _ (send_queued s.queued_msgs (Messages.new e) s.links) _ _ tt (λ r. agree)

  pub mismatch_link_msg-Follows :
      (now : ℕ) (c : Common) (s : EpochMismatch L C) (id : ℕ) (msg : LinkProtocol)
      → Holds (Follows Cause.peer Phase.epoch_mismatch) (mismatch_link_msg now c s id msg)
  unfolding mismatch_link_msg mismatch_reset Mismatch.agree adopt
  mismatch_link_msg-Follows now c s id (reset theirs request) =
      Holds-order _ (compare_epochs s.epoch theirs) _ _ _
        (λ e. mismatch_to_connected-Follows now (or_one theirs) c _)
        (λ e. Holds-elim _ s.epoch _ _ tt (λ own. mismatch_to_connected-Follows now own c _))
        (λ e. stay)
  mismatch_link_msg-Follows now c s id (ack epoch seq last_index) = stay
  mismatch_link_msg-Follows now c s id (msg_slice epoch seq seq_len first_index bytes) = stay
  mismatch_link_msg-Follows now c s id ping = stay
  mismatch_link_msg-Follows now c s id pong = stay

  connected_slice-Follows :
      (now seq seq_len first_index : ℕ) (bytes : List ℕ) (c : Common) (s : Connected L C)
      → Holds
          (Follows Cause.peer Phase.connected)
          (connected_slice now seq seq_len first_index bytes c s)
  unfolding connected_slice
  connected_slice-Follows now seq seq_len first_index bytes c s =
      Holds-elim _ (recv seq first_index seq_len bytes s.msg_mgr) _ _ tt (λ r.
        Holds-elim _ (take_recvd r.0) _ _ tt (λ t. determine_state-Follows Cause.peer now _ _))

  pub connected_link_msg-Follows :
      (now : ℕ) (c : Common) (s : Connected L C) (id : ℕ) (msg : LinkProtocol)
      → Holds (Follows Cause.peer Phase.connected) (connected_link_msg now c s id msg)
  unfolding connected_link_msg connected_to_mismatch
  connected_link_msg-Follows now c s id (reset epoch false) = stay
  connected_link_msg-Follows now c s id (reset epoch true) =
      Holds-if _ (same_epoch epoch s.epoch) _ _ (determine_state-Follows Cause.peer now c _) differ
  connected_link_msg-Follows now c s id (ack epoch seq last_index) = stay
  connected_link_msg-Follows now c s id (msg_slice epoch seq seq_len first_index bytes) =
      Holds-if _ (epoch == s.epoch) _ _
        (connected_slice-Follows now seq seq_len first_index bytes c s) stay
  connected_link_msg-Follows now c s id ping = stay
  connected_link_msg-Follows now c s id pong = stay

  connected_timer-Follows :
      (now : ℕ) (c : Common) (s : Connected L C)
      → Holds (Follows Cause.timeout Phase.connected) (connected_timer now c s)
  unfolding connected_timer
  connected_timer-Follows now c s =
      let pinged =
        if ltb ping_interval (now - s.last_ping) then ping_all now s.links else s.links in
      Holds-elim _ (resend s.msg_mgr (upkeep pinged)) _ _ tt
        (λ links. determine_state-Follows Cause.timeout now c _)

  mismatch_timer-Follows :
      (now : ℕ) (c : Common) (s : EpochMismatch L C)
      → Follows Cause.timeout Phase.epoch_mismatch (mismatch_timer now c s)
  unfolding mismatch_timer mismatch_to_connecting mismatch_to_disconnected
  mismatch_timer-Follows now c s =
      let s' = record s { links = ping_all now (upkeep s.links) } in
      let leaves : Common × States L C =
        if c.auto_connect then mismatch_to_connecting now c s' else mismatch_to_disconnected c s' in
      Follows-if Cause.timeout Phase.epoch_mismatch (no_links s'.links) leaves _
        (Follows-if Cause.timeout Phase.epoch_mismatch c.auto_connect
          (mismatch_to_connecting now c s') (mismatch_to_disconnected c s') retry_mismatch expire)
        stay

module _ {C : Type 0} (L : Type 0) where
  pub reconnecting_link_msg-Follows :
      (now : ℕ) (c : Common) (s : Reconnecting C) (id : ℕ) (msg : LinkProtocol)
      → Holds (Follows {L = L} Cause.peer Phase.reconnecting) (reconnecting_link_msg now c s id msg)
  unfolding reconnecting_link_msg reconnecting_to_connecting
  reconnecting_link_msg-Follows now c s id (reset epoch false) = stay
  reconnecting_link_msg-Follows now c s id (reset epoch true) =
      Holds-if _ (same_epoch epoch s.epoch) _ _ restart stay
  reconnecting_link_msg-Follows now c s id (ack epoch seq last_index) = stay
  reconnecting_link_msg-Follows now c s id (msg_slice epoch seq seq_len first_index bytes) =
      Holds-if _ (epoch == s.epoch) _ _
        (Holds-elim _ (recv_quietly seq first_index seq_len bytes s.epoch c s.msg_mgr) _ _ tt
          (λ r. stay))
        stay
  reconnecting_link_msg-Follows now c s id ping = stay
  reconnecting_link_msg-Follows now c s id pong = stay

  pub grace_link_msg-Follows :
      (c : Common) (s : GracePeriod C) (id : ℕ) (msg : LinkProtocol)
      → Holds (Follows {L = L} Cause.peer Phase.grace_period) (grace_link_msg c s id msg)
  unfolding grace_link_msg grace_to_disconnected
  grace_link_msg-Follows c s id (reset epoch false) = stay
  grace_link_msg-Follows c s id (reset epoch true) =
      Holds-if _ (same_epoch epoch s.epoch) _ _ end_grace stay
  grace_link_msg-Follows c s id (ack epoch seq last_index) = stay
  grace_link_msg-Follows c s id (msg_slice epoch seq seq_len first_index bytes) =
      Holds-if _ (epoch == s.epoch) _ _
        (Holds-elim _ (recv_quietly seq first_index seq_len bytes s.epoch c s.msg_mgr) _ _ tt
          (λ r. stay))
        stay
  grace_link_msg-Follows c s id ping = stay
  grace_link_msg-Follows c s id pong = stay

module _ {L C : Type 0} ⦃o : LinkOps L⦄ where
  pub handle_timer-Follows :
      (now : ℕ) (c : Common) (state : States L C)
      → Holds (Follows Cause.timeout (phase state)) (handle_timer now c state)
  unfolding handle_timer disconnected_timer connecting_timer connecting_to_disconnected
      reconnecting_timer reconnecting_to_connecting reconnecting_to_disconnected grace_timer
      grace_to_connecting grace_to_disconnected
  handle_timer-Follows now c (States.disconnected s) = stay
  handle_timer-Follows now c (States.connecting s) = expire
  handle_timer-Follows now c (States.epoch_mismatch s) = mismatch_timer-Follows now c s
  handle_timer-Follows now c (States.connected s) = connected_timer-Follows now c s
  handle_timer-Follows now c (States.reconnecting s) =
      Follows-if Cause.timeout Phase.reconnecting c.auto_connect
        (reconnecting_to_connecting now c s) (reconnecting_to_disconnected c s) retry_reconnecting
        expire
  handle_timer-Follows now c (States.grace_period s) =
      Follows-if Cause.timeout Phase.grace_period c.auto_connect (grace_to_connecting now c s)
        (grace_to_disconnected c s) retry_grace expire
