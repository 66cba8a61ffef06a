-- ===== src/Core/Heard/Handlers.antt =====
-- What the controller has heard, over messages from the links and the timer.
use link_set.Prelude.{
  ℕ, List, Bool, true, false, Option, ◌-◌, ltb, ◌==◌, if◌then◌else◌, Bool-cases, inl, inr,
}
use link_set.Epoch.{Epoch, compare_epochs}
use link_set.Protocol.{LinkProtocol, reset, ack, msg_slice, ping, pong}
use link_set.Links.{LinkOps, ping_all, upkeep, no_links}
use link_set.Messages.{MessageManager, recv, take_recvd}
use link_set.State.{
  Common, States, Connected, EpochMismatch, Reconnecting, GracePeriod, with_timer, arm_timer,
  set_active,
}
use link_set.State.Moves.{mismatch_to_disconnected, connected_to_mismatch}
use link_set.State.Online.{
  same_epoch, resend, ping_interval, connected_slice, connected_link_msg, connected_timer,
}
use link_set.State.Mismatch.{
  agree, adopt, or_one, mismatch_reset, mismatch_link_msg, mismatch_timer,
}
use link_set.State.Passive.{
  recv_quietly, reconnecting_link_msg, reconnecting_timer, grace_link_msg, grace_timer,
}
use link_set.Core.Holds.{Holds, Holds-if, Holds-order, Holds-elim, Holds-bind}
use link_set.Core.Heard.{Honest, Hears, InTouch, hand_over-Hears, on_test}
use link_set.Core.Heard.Moves.{
  mismatch_to_connecting-InTouch, mismatch_to_connected-InTouch, determine_state-InTouch,
  reconnecting_to_connecting-InTouch, reconnecting_to_disconnected-InTouch,
  grace_to_connecting-InTouch, grace_to_disconnected-InTouch,
}

module _ {L C : Type 0} ⦃o : LinkOps L⦄ where
  pub mismatch_timer-InTouch :
      (now : ℕ) (c : Common) (s : EpochMismatch L C) → Honest c → InTouch (mismatch_timer now c s)
  unfolding mismatch_timer
  mismatch_timer-InTouch now c s h =
      let links = ping_all now (upkeep s.links) in
      elim (Bool-cases (no_links links)) [
        | inr some_link ↦ rw (some_link, mismatch_timer) (unfold InTouch in h)
        | inl gone ↦
            rw (gone, mismatch_timer)
              (on_test InTouch c.auto_connect _ _ (mismatch_to_connecting-InTouch now c _ h)
                (unfold InTouch mismatch_to_disconnected with_timer arm_timer in h))
      ]

  mismatch_reset-InTouch :
      (now : ℕ) (theirs : Option Epoch) (request : Bool) (c : Common) (s : EpochMismatch L C)
      → Honest c
      → Holds InTouch (mismatch_reset now theirs request c s)
  unfolding mismatch_reset agree adopt
  mismatch_reset-InTouch now theirs request c s h =
      Holds-order _ (compare_epochs s.epoch theirs) _ _ _
        (λ e. mismatch_to_connected-InTouch now (or_one theirs) c _ h)
        (λ e. Holds-elim _ s.epoch _ _ tt (λ own. mismatch_to_connected-InTouch now own c _ h))
        (λ e. unfold InTouch in h)

  pub mismatch_link_msg-InTouch :
      (now : ℕ) (c : Common) (s : EpochMismatch L C) (id : ℕ) (msg : LinkProtocol)
      → Honest c
      → Holds InTouch (mismatch_link_msg now c s id msg)
  unfolding mismatch_link_msg
  mismatch_link_msg-InTouch now c s id (reset theirs request) h =
      mismatch_reset-InTouch now theirs request c s h
  mismatch_link_msg-InTouch now c s id (ack epoch seq last_index) h = unfold InTouch in h
  mismatch_link_msg-InTouch now c s id (msg_slice epoch seq seq_len first_index bytes) h =
      unfold InTouch in h
  mismatch_link_msg-InTouch now c s id ping h = unfold InTouch in h
  mismatch_link_msg-InTouch now c s id pong h = unfold InTouch in h

  connected_slice-InTouch :
      (now seq seq_len first_index : ℕ) (bytes : List ℕ) (c : Common) (s : Connected L C)
      → Hears s.epoch c
      → Holds InTouch (connected_slice now seq seq_len first_index bytes c s)
  unfolding connected_slice
  connected_slice-InTouch now seq seq_len first_index bytes c s h =
      Holds-elim _ (recv seq first_index seq_len bytes s.msg_mgr) _ _ tt (λ r.
        Holds-elim _ (take_recvd r.0) _ _ tt
          (λ t. determine_state-InTouch now _ _ (hand_over-Hears s.epoch t.1 c h)))

  pub connected_link_msg-InTouch :
      (now : ℕ) (c : Common) (s : Connected L C) (id : ℕ) (msg : LinkProtocol)
      → Hears s.epoch c
      → Holds InTouch (connected_link_msg now c s id msg)
  unfolding connected_link_msg
  connected_link_msg-InTouch now c s id (reset epoch false) h = unfold InTouch in h
  connected_link_msg-InTouch now c s id (reset epoch true) h =
      Holds-if InTouch (same_epoch epoch s.epoch) _ _ (determine_state-InTouch now c _ h)
        (unfold InTouch connected_to_mismatch with_timer arm_timer set_active in h.0)
  connected_link_msg-InTouch now c s id (ack epoch seq last_index) h =
      elim (Bool-cases (epoch == s.epoch)) [
        | inl same ↦ rw (same, connected_link_msg) (unfold InTouch in h)
        | inr other ↦ rw (other, connected_link_msg) (unfold InTouch in h)
      ]
  connected_link_msg-InTouch now c s id (msg_slice epoch seq seq_len first_index bytes) h =
      Holds-if _ (epoch == s.epoch) _ _
        (connected_slice-InTouch now seq seq_len first_index bytes c s h) (unfold InTouch in h)
  connected_link_msg-InTouch now c s id ping h = unfold InTouch in h
  connected_link_msg-InTouch now c s id pong h = unfold InTouch in h

  pub connected_timer-InTouch :
      (now : ℕ) (c : Common) (s : Connected L C)
      → Hears s.epoch c
      → Holds InTouch (connected_timer now c s)
  unfolding connected_timer
  connected_timer-InTouch now c s h =
      Holds-elim _
        (resend s.msg_mgr (
          upkeep (if ltb ping_interval (now - s.last_ping) then ping_all now s.links else s.links)))
        _ _ tt (λ links. determine_state-InTouch now c _ h)

recv_quietly-Hears :
    (seq first_index seq_len : ℕ) (bytes : List ℕ) (e : Epoch) (c : Common) (mgr : MessageManager)
    → Hears e c
    → Holds (λ r. Hears e r.0) (recv_quietly seq first_index seq_len bytes e c mgr)
unfolding recv_quietly
recv_quietly-Hears seq first_index seq_len bytes e c mgr h =
    Holds-elim _ (recv seq first_index seq_len bytes mgr) _ _ tt
      (λ r. Holds-elim _ (take_recvd r.0) _ _ tt (λ t. hand_over-Hears e t.1 c h))

module _ {C : Type 0} (L : Type 0) where
  at_reconnecting :
      (c : Common) (s : Reconnecting C)
      → Hears s.epoch c
      → InTouch {L = L} (c, States.reconnecting s)
  unfolding InTouch
  at_reconnecting c s h = h

  at_grace :
      (c : Common) (s : GracePeriod C)
      → Hears s.epoch c
      → InTouch {L = L} (c, States.grace_period s)
  unfolding InTouch
  at_grace c s h = h

  pub reconnecting_link_msg-InTouch :
      (now : ℕ) (c : Common) (s : Reconnecting C) (id : ℕ) (msg : LinkProtocol)
      → Hears s.epoch c
      → Holds (InTouch {L = L}) (reconnecting_link_msg now c s id msg)
  unfolding reconnecting_link_msg
  reconnecting_link_msg-InTouch now c s id (reset epoch false) h = unfold InTouch in h
  reconnecting_link_msg-InTouch now c s id (reset epoch true) h =
      Holds-if _ (same_epoch epoch s.epoch) _ _ (reconnecting_to_connecting-InTouch L now c s h.0)
        (unfold InTouch in h)
  reconnecting_link_msg-InTouch now c s id (ack epoch seq last_index) h =
      elim (Bool-cases (epoch == s.epoch)) [
        | inl same ↦ rw (same, reconnecting_link_msg) (unfold InTouch in h)
        | inr other ↦ rw (other, reconnecting_link_msg) (unfold InTouch in h)
      ]
  reconnecting_link_msg-InTouch now c s id (msg_slice epoch seq seq_len first_index bytes) h =
      Holds-if _ (epoch == s.epoch) _ _
        (Holds-bind _ _ (recv_quietly seq first_index seq_len bytes s.epoch c s.msg_mgr) _
          (recv_quietly-Hears seq first_index seq_len bytes s.epoch c s.msg_mgr h)
          (λ r e. at_reconnecting r.0 (record s { msg_mgr = r.1 }) e))
        (unfold InTouch in h)
  reconnecting_link_msg-InTouch now c s id ping h = unfold InTouch in h
  reconnecting_link_msg-InTouch now c s id pong h = unfold InTouch in h

  pub grace_link_msg-InTouch :
      (c : Common) (s : GracePeriod C) (id : ℕ) (msg : LinkProtocol)
      → Hears s.epoch c
      → Holds (InTouch {L = L}) (grace_link_msg c s id msg)
  unfolding grace_link_msg
  grace_link_msg-InTouch c s id (reset epoch false) h = unfold InTouch in h
  grace_link_msg-InTouch c s id (reset epoch true) h =
      Holds-if _ (same_epoch epoch s.epoch) _ _ (grace_to_disconnected-InTouch L c s h.0)
        (unfold InTouch in h)
  grace_link_msg-InTouch c s id (ack epoch seq last_index) h =
      elim (Bool-cases (epoch == s.epoch)) [
        | inl same ↦ rw (same, grace_link_msg) (unfold InTouch in h)
        | inr other ↦ rw (other, grace_link_msg) (unfold InTouch in h)
      ]
  grace_link_msg-InTouch c s id (msg_slice epoch seq seq_len first_index bytes) h =
      Holds-if _ (epoch == s.epoch) _ _
        (Holds-bind _ _ (recv_quietly seq first_index seq_len bytes s.epoch c s.msg_mgr) _
          (recv_quietly-Hears seq first_index seq_len bytes s.epoch c s.msg_mgr h)
          (λ r e. at_grace r.0 (record s { msg_mgr = r.1 }) e))
        (unfold InTouch in h)
  grace_link_msg-InTouch c s id ping h = unfold InTouch in h
  grace_link_msg-InTouch c s id pong h = unfold InTouch in h

  pub reconnecting_timer-InTouch :
      (now : ℕ) (c : Common) (s : Reconnecting C)
      → Honest c
      → InTouch {L = L} (reconnecting_timer now c s)
  unfolding reconnecting_timer
  reconnecting_timer-InTouch now c s h =
      on_test InTouch c.auto_connect _ _ (reconnecting_to_connecting-InTouch L now c s h)
        (reconnecting_to_disconnected-InTouch L c s h)

  pub grace_timer-InTouch :
      (now : ℕ) (c : Common) (s : GracePeriod C) → Honest c → InTouch {L = L} (grace_timer now c s)
  unfolding grace_timer
  grace_timer-InTouch now c s h =
      on_test InTouch c.auto_connect _ _ (grace_to_connecting-InTouch L now c s h)
        (grace_to_disconnected-InTouch L c s h)
