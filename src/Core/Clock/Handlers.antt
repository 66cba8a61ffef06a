-- ===== src/Core/Clock/Handlers.antt =====
-- The timer over messages from the links and over its own firing, and over the loop of src/core.rs.
use link_set.Prelude.{
  ℕ, ◌≤◌, inl, inr, List, Bool, true, false, Option, ◌-◌, ltb, ◌==◌, if◌then◌else◌,
}
use link_set.Epoch.{Epoch, compare_epochs}
use link_set.Protocol.{LinkProtocol, reset, ack, msg_slice, ping, pong, Result-cases}
use link_set.Links.{LinkOps, no_links, send_slices, ping_all, upkeep}
use link_set.Connect.{ConnectorOps}
use link_set.State.{
  Common, Command, Connected, EpochMismatch, Reconnecting, GracePeriod, States, connect, disconnect,
  add_link, send_ctrl, set_active, wrap_link, LinkSetMessageInner,
}
use link_set.State.Moves.{
  tell_disconnected, attempting, mismatch_to_disconnected, mismatch_to_connecting,
  reconnecting_to_disconnected, reconnecting_to_connecting, grace_to_disconnected,
  grace_to_connecting, connected_to_mismatch, send_queued, mismatch_to_connected,
  connected_to_disconnected, connected_to_grace, connected_to_reconnecting,
}
use link_set.State.Online.{
  same_epoch, epoch_fits, resend, ping_interval, determine_state, connected_send, connected_slice,
  connected_link_msg, connected_timer, connected_ctrl_msg, is_zero,
}
use link_set.State.Mismatch.{
  agree, adopt, or_one, mismatch_reset, mismatch_link_msg, mismatch_timer,
}
use link_set.State.Passive.{
  reconnecting_link_msg, reconnecting_timer, grace_link_msg, grace_timer, recv_quietly,
}
use link_set.Messages.{MessageManager, insert_msg, get_outgoing_slice, recv, take_recvd}
use link_set.Messages
use link_set.Core.Holds.{Holds, Holds-if, Holds-order, Holds-elim, Holds-bind}
use link_set.Core.Clock.{
  span_max, OnTime, Timely, Timely-if, clear-OnTime, determine_timer-OnTime, wait_for-OnTime,
  repeat-OnTime, now_connected-OnTime, wrap_link-OnTime, hand_over-OnTime,
}

module _ {L C : Type 0} where
  determine_state-Timely :
      (now : ℕ) (c : Common) (s : Connected L C)
      → now ≤ span_max
      → OnTime c
      → Timely (determine_state now c s)
  unfolding determine_state connected_to_disconnected connected_to_grace connected_to_reconnecting
      set_active send_ctrl
  determine_state-Timely now c s hn h =
      let gone : Common × States L C = connected_to_disconnected c s in
      let waits : Common × States L C = connected_to_grace now c s in
      let tries : Common × States L C = connected_to_reconnecting now c s in
      let stays : Common × States L C = (c, States.connected s) in
      let rests : Common × States L C = if is_zero c.grace_period_timeout then gone else waits in
      let leaves : Common × States L C = if is_zero c.reconnecting_timeout then rests else tries in
      Timely-if (no_links s.links) leaves stays
        (Timely-if (is_zero c.reconnecting_timeout) rests tries
          (Timely-if (is_zero c.grace_period_timeout) gone waits
            (clear-OnTime (tell_disconnected c) h)
            (wait_for-OnTime now c.grace_period_timeout c hn h.3 h))
          (wait_for-OnTime now c.reconnecting_timeout (attempting true c) hn h.2 h))
        h

module _ {L C : Type 0} ⦃o : LinkOps L⦄ where
  connected_send-Timely :
      (now : ℕ) (b : List ℕ) (c : Common) (s : Connected L C)
      → now ≤ span_max
      → OnTime c
      → Holds Timely (connected_send now b c s)
  unfolding connected_send
  connected_send-Timely now b c s hn h =
      Holds-elim _ (get_outgoing_slice ((insert_msg b s.msg_mgr).1) ((insert_msg b s.msg_mgr).0)) _
        _ (determine_state-Timely now c _ hn h)
        (λ slice_mgr.
          Holds-elim _ (send_slices slice_mgr s.links) _ _ tt
            (λ x. determine_state-Timely now c _ hn h))

  mismatch_to_connected-Timely :
      (now : ℕ) (e : Epoch) (c : Common) (s : EpochMismatch L C)
      → now ≤ span_max
      → OnTime c
      → Holds Timely (mismatch_to_connected now e c s)
  unfolding mismatch_to_connected send_ctrl
  mismatch_to_connected-Timely now e c s hn h =
      Holds-elim _ (send_queued s.queued_msgs (Messages.new e) s.links) _ _ tt
        (λ x. now_connected-OnTime now (send_ctrl (LinkSetMessageInner.connected e) c) hn h)

  pub mismatch_timer-Timely :
      (now : ℕ) (c : Common) (s : EpochMismatch L C)
      → now ≤ span_max
      → OnTime c
      → Timely (mismatch_timer now c s)
  unfolding mismatch_timer mismatch_to_connecting mismatch_to_disconnected send_ctrl
  mismatch_timer-Timely now c s hn h =
      let links = ping_all now (upkeep s.links) in
      let s' = record s { links = links } in
      let starts : Common × States L C = mismatch_to_connecting now c s' in
      let stops : Common × States L C = mismatch_to_disconnected c s' in
      Timely-if (no_links links) (if c.auto_connect then starts else stops) _
        (Timely-if c.auto_connect starts stops (determine_timer-OnTime now (attempting true c) hn h)
          (clear-OnTime c h))
        h

  mismatch_reset-Timely :
      (now : ℕ) (theirs : Option Epoch) (request : Bool) (c : Common) (s : EpochMismatch L C)
      → now ≤ span_max
      → OnTime c
      → Holds Timely (mismatch_reset now theirs request c s)
  unfolding mismatch_reset agree adopt
  mismatch_reset-Timely now theirs request c s hn h =
      Holds-order _ (compare_epochs s.epoch theirs) _ _ _
        (λ e. mismatch_to_connected-Timely now (or_one theirs) c _ hn h)
        (λ e. Holds-elim _ s.epoch _ _ tt (λ own. mismatch_to_connected-Timely now own c _ hn h))
        (λ e. h)

  pub mismatch_link_msg-Timely :
      (now : ℕ) (c : Common) (s : EpochMismatch L C) (id : ℕ) (msg : LinkProtocol)
      → now ≤ span_max
      → OnTime c
      → Holds Timely (mismatch_link_msg now c s id msg)
  unfolding mismatch_link_msg mismatch_reset agree adopt
  mismatch_link_msg-Timely now c s id (reset theirs request) hn h =
      mismatch_reset-Timely now theirs request c s hn h
  mismatch_link_msg-Timely now c s id (ack epoch seq last_index) hn h = h
  mismatch_link_msg-Timely now c s id (msg_slice epoch seq seq_len first_index bytes) hn h = h
  mismatch_link_msg-Timely now c s id ping hn h = h
  mismatch_link_msg-Timely now c s id pong hn h = h

  connected_slice-Timely :
      (now seq seq_len first_index : ℕ) (bytes : List ℕ) (c : Common) (s : Connected L C)
      → now ≤ span_max
      → OnTime c
      → Holds Timely (connected_slice now seq seq_len first_index bytes c s)
  unfolding connected_slice
  connected_slice-Timely now seq seq_len first_index bytes c s hn h =
      Holds-elim _ (recv seq first_index seq_len bytes s.msg_mgr) _ _ tt (λ r.
        Holds-elim _ (take_recvd r.0) _ _ tt
          (λ t. determine_state-Timely now _ _ hn (hand_over-OnTime s.epoch t.1 c h)))

  pub connected_link_msg-Timely :
      (now : ℕ) (c : Common) (s : Connected L C) (id : ℕ) (msg : LinkProtocol)
      → now ≤ span_max
      → OnTime c
      → Holds Timely (connected_link_msg now c s id msg)
  unfolding connected_link_msg connected_to_mismatch set_active
  connected_link_msg-Timely now c s id (reset epoch false) hn h = h
  connected_link_msg-Timely now c s id (reset epoch true) hn h =
      Holds-if Timely (same_epoch epoch s.epoch) _ _ (determine_state-Timely now c _ hn h)
        (repeat-OnTime now c hn h)
  connected_link_msg-Timely now c s id (ack epoch seq last_index) hn h = h
  connected_link_msg-Timely now c s id (msg_slice epoch seq seq_len first_index bytes) hn h =
      Holds-if _ (epoch == s.epoch) _ _
        (connected_slice-Timely now seq seq_len first_index bytes c s hn h) h
  connected_link_msg-Timely now c s id ping hn h = h
  connected_link_msg-Timely now c s id pong hn h = h

  pub connected_timer-Timely :
      (now : ℕ) (c : Common) (s : Connected L C)
      → now ≤ span_max
      → OnTime c
      → Holds Timely (connected_timer now c s)
  unfolding connected_timer
  connected_timer-Timely now c s hn h =
      Holds-elim _
        (resend s.msg_mgr (
          upkeep (if ltb ping_interval (now - s.last_ping) then ping_all now s.links else s.links)))
        _ _ tt (λ links. determine_state-Timely now c _ hn h)

module _ {L C : Type 0} ⦃o : LinkOps L⦄ ⦃cc : ConnectorOps C⦄ where
  pub connected_ctrl_msg-Timely :
      (now : ℕ) (c : Common) (s : Connected L C) (cmd : Command L C)
      → now ≤ span_max
      → OnTime c
      → Holds Timely (connected_ctrl_msg now c s cmd)
  unfolding connected_ctrl_msg connected_to_disconnected set_active send_ctrl
  connected_ctrl_msg-Timely now c s connect hn h = h
  connected_ctrl_msg-Timely now c s disconnect hn h = clear-OnTime (tell_disconnected c) h
  connected_ctrl_msg-Timely now c s (Command.add_connector conn) hn h = h
  connected_ctrl_msg-Timely now c s (Command.add_address a) hn h = h
  connected_ctrl_msg-Timely now c s (add_link l) hn h = elim (Result-cases (wrap_link l c).1) [
    | inl (entry, e) ↦ rw (e, connected_ctrl_msg) (wrap_link-OnTime l c h)
    | inr (x, e) ↦ rw (e, connected_ctrl_msg) (wrap_link-OnTime l c h)
  ]
  connected_ctrl_msg-Timely now c s (Command.message b e) hn h =
      Holds-if _ (epoch_fits e s.epoch) _ _ (connected_send-Timely now b c s hn h) h

recv_quietly-OnTime :
    (seq first_index seq_len : ℕ) (bytes : List ℕ) (e : Epoch) (c : Common) (mgr : MessageManager)
    → OnTime c
    → Holds (λ r. OnTime r.0) (recv_quietly seq first_index seq_len bytes e c mgr)
unfolding recv_quietly
recv_quietly-OnTime seq first_index seq_len bytes e c mgr h =
    Holds-elim _ (recv seq first_index seq_len bytes mgr) _ _ tt
      (λ r. Holds-elim _ (take_recvd r.0) _ _ tt (λ t. hand_over-OnTime e t.1 c h))

module _ {C : Type 0} where
  pub reconnecting_link_msg-Timely :
      (L : Type 0) (now : ℕ) (c : Common) (s : Reconnecting C) (id : ℕ) (msg : LinkProtocol)
      → now ≤ span_max
      → OnTime c
      → Holds (Timely {L = L}) (reconnecting_link_msg now c s id msg)
  unfolding reconnecting_link_msg reconnecting_to_connecting send_ctrl
  reconnecting_link_msg-Timely L now c s id (reset epoch false) hn h = h
  reconnecting_link_msg-Timely L now c s id (reset epoch true) hn h =
      Holds-if _ (same_epoch epoch s.epoch) _ _ (determine_timer-OnTime now c hn h) h
  reconnecting_link_msg-Timely L now c s id (ack epoch seq last_index) hn h = h
  reconnecting_link_msg-Timely L now c s id (msg_slice epoch seq seq_len first_index bytes) hn h =
      Holds-if _ (epoch == s.epoch) _ _
        (Holds-bind _ _ (recv_quietly seq first_index seq_len bytes s.epoch c s.msg_mgr) _
          (recv_quietly-OnTime seq first_index seq_len bytes s.epoch c s.msg_mgr h) (λ r e. e))
        h
  reconnecting_link_msg-Timely L now c s id ping hn h = h
  reconnecting_link_msg-Timely L now c s id pong hn h = h

  pub grace_link_msg-Timely :
      (L : Type 0) (c : Common) (s : GracePeriod C) (id : ℕ) (msg : LinkProtocol)
      → OnTime c
      → Holds (Timely {L = L}) (grace_link_msg c s id msg)
  unfolding grace_link_msg grace_to_disconnected send_ctrl
  grace_link_msg-Timely L c s id (reset epoch false) h = h
  grace_link_msg-Timely L c s id (reset epoch true) h =
      Holds-if _ (same_epoch epoch s.epoch) _ _ (clear-OnTime c h) h
  grace_link_msg-Timely L c s id (ack epoch seq last_index) h = h
  grace_link_msg-Timely L c s id (msg_slice epoch seq seq_len first_index bytes) h =
      Holds-if _ (epoch == s.epoch) _ _
        (Holds-bind _ _ (recv_quietly seq first_index seq_len bytes s.epoch c s.msg_mgr) _
          (recv_quietly-OnTime seq first_index seq_len bytes s.epoch c s.msg_mgr h) (λ r e. e))
        h
  grace_link_msg-Timely L c s id ping h = h
  grace_link_msg-Timely L c s id pong h = h

  pub reconnecting_timer-Timely :
      (L : Type 0) (now : ℕ) (c : Common) (s : Reconnecting C)
      → now ≤ span_max
      → OnTime c
      → Timely {L = L} (reconnecting_timer now c s)
  unfolding reconnecting_timer reconnecting_to_connecting reconnecting_to_disconnected send_ctrl
  reconnecting_timer-Timely L now c s hn h =
      Timely-if c.auto_connect (reconnecting_to_connecting now c s)
        (reconnecting_to_disconnected c s) (determine_timer-OnTime now c hn h)
        (clear-OnTime (tell_disconnected (attempting false c)) h)

  pub grace_timer-Timely :
      (L : Type 0) (now : ℕ) (c : Common) (s : GracePeriod C)
      → now ≤ span_max
      → OnTime c
      → Timely {L = L} (grace_timer now c s)
  unfolding grace_timer grace_to_connecting grace_to_disconnected send_ctrl
  grace_timer-Timely L now c s hn h =
      Timely-if c.auto_connect (grace_to_connecting now c s) (grace_to_disconnected c s)
        (determine_timer-OnTime now (attempting true (tell_disconnected c)) hn h) (clear-OnTime c h)
