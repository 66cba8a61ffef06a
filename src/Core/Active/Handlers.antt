-- ===== src/Core/Active/Handlers.antt =====
-- The flag `is_active` over messages from the links and the timer.
use link_set.Prelude.{
  ℕ, List, Bool, true, false, Option, ◌≡◌, refl, ◌-◌, ltb, ◌==◌, if◌then◌else◌, arith, ◌∙◌,
}
use link_set.Epoch.{Epoch, compare_epochs}
use link_set.State.Passive.{
  reconnecting_link_msg, reconnecting_timer, grace_link_msg, grace_timer, recv_quietly,
}
use link_set.Protocol.{LinkProtocol, reset, ack, msg_slice, ping, pong}
use link_set.Links.{LinkOps, send_slices, ping_all, upkeep}
use link_set.Connect.{ConnectorOps}
use link_set.State.{
  Common, with_timer, arm_timer, Command, Connected, EpochMismatch, Reconnecting, GracePeriod,
  connect, disconnect, add_link, send_ctrl, set_active,
}
use link_set.State.Moves.{
  tell_disconnected, attempting, mismatch_to_disconnected, mismatch_to_connecting,
  reconnecting_to_disconnected, reconnecting_to_connecting, grace_to_disconnected,
  grace_to_connecting, connected_to_mismatch, send_queued, mismatch_to_connected,
  connected_to_disconnected, connected_to_grace, connected_to_reconnecting,
}
use link_set.State.Online.{
  same_epoch, epoch_fits, resend, ping_interval, determine_state, connected_send, connected_slice,
  connected_link_msg, connected_timer, connected_ctrl_msg,
}
use link_set.State.Mismatch.{
  agree, adopt, or_one, mismatch_reset, mismatch_link_msg, mismatch_timer,
}
use link_set.Messages.{MessageManager, insert_msg, get_outgoing_slice, recv, take_recvd}
use link_set.Messages
use link_set.Core.Holds.{Holds, Holds-if, Holds-order, Holds-elim, Holds-bind}
use link_set.Core.Active.{Flagged, determine_timer_active, hand_over_active, wrap_link_active}

module _ {L C : Type 0} where
  determine_state-Flagged :
      (now : ℕ) (c : Common) (s : Connected L C)
      → c.is_active ≡ true
      → Flagged (determine_state now c s)
  unfolding determine_state connected_to_disconnected connected_to_grace connected_to_reconnecting
      set_active
  determine_state-Flagged now c s h = ground arith

module _ {L C : Type 0} ⦃o : LinkOps L⦄ where
  connected_send-Flagged :
      (now : ℕ) (b : List ℕ) (c : Common) (s : Connected L C)
      → c.is_active ≡ true
      → Holds Flagged (connected_send now b c s)
  unfolding connected_send
  connected_send-Flagged now b c s h =
      Holds-elim _ (get_outgoing_slice ((insert_msg b s.msg_mgr).1) ((insert_msg b s.msg_mgr).0)) _
        _ (determine_state-Flagged now c _ h)
        (λ slice_mgr.
          Holds-elim _ (send_slices slice_mgr s.links) _ _ tt
            (λ x. determine_state-Flagged now c _ h))

  mismatch_to_connected-Flagged :
      (now : ℕ) (e : Epoch) (c : Common) (s : EpochMismatch L C)
      → Holds Flagged (mismatch_to_connected now e c s)
  unfolding mismatch_to_connected set_active
  mismatch_to_connected-Flagged now e c s =
      Holds-elim _ (send_queued s.queued_msgs (Messages.new e) s.links) _ _ tt (λ x. refl)

  pub mismatch_timer-Flagged :
      (now : ℕ) (c : Common) (s : EpochMismatch L C)
      → c.is_active ≡ false
      → Flagged (mismatch_timer now c s)
  unfolding mismatch_timer mismatch_to_connecting mismatch_to_disconnected with_timer arm_timer
      send_ctrl
  mismatch_timer-Flagged now c s h = ground (arith, determine_timer_active now (attempting true c))

  mismatch_reset-Flagged :
      (now : ℕ) (theirs : Option Epoch) (request : Bool) (c : Common) (s : EpochMismatch L C)
      → c.is_active ≡ false
      → Holds Flagged (mismatch_reset now theirs request c s)
  unfolding mismatch_reset agree adopt
  mismatch_reset-Flagged now theirs request c s h =
      Holds-order _ (compare_epochs s.epoch theirs) _ _ _
        (λ e. mismatch_to_connected-Flagged now (or_one theirs) c _)
        (λ e. Holds-elim _ s.epoch _ _ tt (λ own. mismatch_to_connected-Flagged now own c _))
        (λ e. h)

  pub mismatch_link_msg-Flagged :
      (now : ℕ) (c : Common) (s : EpochMismatch L C) (id : ℕ) (msg : LinkProtocol)
      → c.is_active ≡ false
      → Holds Flagged (mismatch_link_msg now c s id msg)
  unfolding mismatch_link_msg mismatch_reset agree adopt
  mismatch_link_msg-Flagged now c s id (reset theirs request) h =
      mismatch_reset-Flagged now theirs request c s h
  mismatch_link_msg-Flagged now c s id (ack epoch seq last_index) h = h
  mismatch_link_msg-Flagged now c s id (msg_slice epoch seq seq_len first_index bytes) h = h
  mismatch_link_msg-Flagged now c s id ping h = h
  mismatch_link_msg-Flagged now c s id pong h = h

  connected_slice-Flagged :
      (now seq seq_len first_index : ℕ) (bytes : List ℕ) (c : Common) (s : Connected L C)
      → c.is_active ≡ true
      → Holds Flagged (connected_slice now seq seq_len first_index bytes c s)
  unfolding connected_slice
  connected_slice-Flagged now seq seq_len first_index bytes c s h =
      Holds-elim _ (recv seq first_index seq_len bytes s.msg_mgr) _ _ tt (λ r.
        Holds-elim _ (take_recvd r.0) _ _ tt
          (λ t. determine_state-Flagged now _ _ (hand_over_active s.epoch t.1 c ∙ h)))

  pub connected_link_msg-Flagged :
      (now : ℕ) (c : Common) (s : Connected L C) (id : ℕ) (msg : LinkProtocol)
      → c.is_active ≡ true
      → Holds Flagged (connected_link_msg now c s id msg)
  unfolding connected_link_msg connected_to_mismatch set_active
  connected_link_msg-Flagged now c s id (reset epoch false) h = h
  connected_link_msg-Flagged now c s id (reset epoch true) h =
      Holds-if Flagged (same_epoch epoch s.epoch) _ _ (determine_state-Flagged now c _ h) refl
  connected_link_msg-Flagged now c s id (ack epoch seq last_index) h = h
  connected_link_msg-Flagged now c s id (msg_slice epoch seq seq_len first_index bytes) h =
      Holds-if _ (epoch == s.epoch) _ _
        (connected_slice-Flagged now seq seq_len first_index bytes c s h) h
  connected_link_msg-Flagged now c s id ping h = h
  connected_link_msg-Flagged now c s id pong h = h

  pub connected_timer-Flagged :
      (now : ℕ) (c : Common) (s : Connected L C)
      → c.is_active ≡ true
      → Holds Flagged (connected_timer now c s)
  unfolding connected_timer
  connected_timer-Flagged now c s h =
      Holds-elim _
        (resend s.msg_mgr (
          upkeep (if ltb ping_interval (now - s.last_ping) then ping_all now s.links else s.links)))
        _ _ tt (λ links. determine_state-Flagged now c _ h)

module _ {L C : Type 0} ⦃o : LinkOps L⦄ ⦃cc : ConnectorOps C⦄ where
  pub connected_ctrl_msg-Flagged :
      (now : ℕ) (c : Common) (s : Connected L C) (cmd : Command L C)
      → c.is_active ≡ true
      → Holds Flagged (connected_ctrl_msg now c s cmd)
  unfolding connected_ctrl_msg connected_to_disconnected set_active
  connected_ctrl_msg-Flagged now c s connect h = h
  connected_ctrl_msg-Flagged now c s disconnect h = refl
  connected_ctrl_msg-Flagged now c s (Command.add_connector conn) h = h
  connected_ctrl_msg-Flagged now c s (Command.add_address a) h = h
  connected_ctrl_msg-Flagged now c s (add_link l) h = ground (arith, wrap_link_active l c)
  connected_ctrl_msg-Flagged now c s (Command.message b e) h =
      Holds-if _ (epoch_fits e s.epoch) _ _ (connected_send-Flagged now b c s h) h

recv_quietly_active :
    (seq first_index seq_len : ℕ) (bytes : List ℕ) (e : Epoch) (c : Common) (mgr : MessageManager)
    → Holds
        (λ r. (r.0).is_active ≡ c.is_active)
        (recv_quietly seq first_index seq_len bytes e c mgr)
unfolding recv_quietly
recv_quietly_active seq first_index seq_len bytes e c mgr =
    Holds-elim _ (recv seq first_index seq_len bytes mgr) _ _ tt
      (λ r. Holds-elim _ (take_recvd r.0) _ _ tt (λ t. hand_over_active e t.1 c))

module _ {C : Type 0} where
  pub reconnecting_link_msg-Flagged :
      (L : Type 0) (now : ℕ) (c : Common) (s : Reconnecting C) (id : ℕ) (msg : LinkProtocol)
      → c.is_active ≡ false
      → Holds (Flagged {L = L}) (reconnecting_link_msg now c s id msg)
  unfolding reconnecting_link_msg reconnecting_to_connecting send_ctrl
  reconnecting_link_msg-Flagged L now c s id (reset epoch false) h = h
  reconnecting_link_msg-Flagged L now c s id (reset epoch true) h =
      Holds-if _ (same_epoch epoch s.epoch) _ _ (determine_timer_active now c ∙ h) h
  reconnecting_link_msg-Flagged L now c s id (ack epoch seq last_index) h = h
  reconnecting_link_msg-Flagged L now c s id (msg_slice epoch seq seq_len first_index bytes) h =
      Holds-if _ (epoch == s.epoch) _ _
        (Holds-bind _ _ (recv_quietly seq first_index seq_len bytes s.epoch c s.msg_mgr) _
          (recv_quietly_active seq first_index seq_len bytes s.epoch c s.msg_mgr) (λ r e. e ∙ h))
        h
  reconnecting_link_msg-Flagged L now c s id ping h = h
  reconnecting_link_msg-Flagged L now c s id pong h = h

  pub grace_link_msg-Flagged :
      (L : Type 0) (c : Common) (s : GracePeriod C) (id : ℕ) (msg : LinkProtocol)
      → c.is_active ≡ false
      → Holds (Flagged {L = L}) (grace_link_msg c s id msg)
  unfolding grace_link_msg grace_to_disconnected send_ctrl with_timer arm_timer
  grace_link_msg-Flagged L c s id (reset epoch false) h = h
  grace_link_msg-Flagged L c s id (reset epoch true) h =
      Holds-if _ (same_epoch epoch s.epoch) _ _ (h) h
  grace_link_msg-Flagged L c s id (ack epoch seq last_index) h = h
  grace_link_msg-Flagged L c s id (msg_slice epoch seq seq_len first_index bytes) h =
      Holds-if _ (epoch == s.epoch) _ _
        (Holds-bind _ _ (recv_quietly seq first_index seq_len bytes s.epoch c s.msg_mgr) _
          (recv_quietly_active seq first_index seq_len bytes s.epoch c s.msg_mgr) (λ r e. e ∙ h))
        h
  grace_link_msg-Flagged L c s id ping h = h
  grace_link_msg-Flagged L c s id pong h = h

  pub reconnecting_timer-Flagged :
      (L : Type 0) (now : ℕ) (c : Common) (s : Reconnecting C)
      → c.is_active ≡ false
      → Flagged {L = L} (reconnecting_timer now c s)
  unfolding reconnecting_timer reconnecting_to_connecting reconnecting_to_disconnected send_ctrl
      with_timer arm_timer
  reconnecting_timer-Flagged L now c s h = ground (arith, determine_timer_active now c)

  pub grace_timer-Flagged :
      (L : Type 0) (now : ℕ) (c : Common) (s : GracePeriod C)
      → c.is_active ≡ false
      → Flagged {L = L} (grace_timer now c s)
  unfolding grace_timer grace_to_connecting grace_to_disconnected send_ctrl with_timer arm_timer
  grace_timer-Flagged L now c s h =
      ground (arith, determine_timer_active now (attempting true (tell_disconnected c)))
