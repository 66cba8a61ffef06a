-- ===== src/Core/Sound/Handlers.antt =====
-- The handlers of src/state/states do not panic on slices that are safe, in a sound state.
use link_set.Prelude.{
  ℕ, ◌-◌, List, Bool, true, false, Option, ltb, ◌==◌, if◌then◌else◌, Ensures, Ensures-if,
  Ensures-bind, Bool-cases, inl, inr,
}
use link_set.Epoch.{Epoch, compare_epochs}
use link_set.Epoch.Order.{compare_epochs-eq}
use link_set.Protocol.{LinkProtocol, reset, ack, msg_slice, ping, pong}
use link_set.Links.{LinkOps, ping_all, upkeep}
use link_set.Messages.{MessageManager, recv_ack, recv, take_recvd}
use link_set.Messages
use link_set.Messages.Panics.{IsSound, IsSafeSlice, new-IsSound, recv_ack-IsSound}
use link_set.Messages.Panics.Incoming.{recv-IsSound, take_recvd-IsSound}
use link_set.State.{Common, EpochMismatch, Connected, Reconnecting, GracePeriod}
use link_set.State.Queue.{Ordering-cases}
use link_set.State.Moves.{
  send_queued, mismatch_to_connected, connected_to_mismatch, reconnecting_to_disconnected,
  reconnecting_to_connecting, grace_to_disconnected, grace_to_connecting,
}
use link_set.State.Online.{same_epoch, resend, ping_interval, connected_link_msg, connected_timer}
use link_set.State.Mismatch.{agree, adopt, or_one, mismatch_reset, mismatch_link_msg}
use link_set.State.Passive.{
  recv_quietly, reconnecting_link_msg, reconnecting_timer, grace_link_msg, grace_timer,
}
use link_set.Core.Sound.{
  Sound, Sound-if, determine_state-Sound, resend-total, send_queued-IsSound, connected_slice-Sound,
}

-- A message of the peer that no handler panics on. What `deserialize` lets through is not enough.
abbrev pub IsSafe : LinkProtocol → Type 0
IsSafe (reset epoch request) = Unit
IsSafe (ack epoch seq last_index) = Unit
IsSafe (msg_slice epoch seq seq_len first_index bytes) = IsSafeSlice seq_len first_index bytes
IsSafe ping = Unit
IsSafe pong = Unit

module _ {L C : Type 0} ⦃o : LinkOps L⦄ where
  mismatch_to_connected-Sound :
      (now : ℕ) (e : Epoch) (c : Common) (s : EpochMismatch L C)
      → Ensures Sound (mismatch_to_connected now e c s)
  unfolding mismatch_to_connected
  mismatch_to_connected-Sound now e c s =
      Ensures-bind _ _ (send_queued s.queued_msgs (Messages.new e) s.links) _
        (send_queued-IsSound s.queued_msgs (Messages.new e) s.links (new-IsSound e))
        (λ r sound. sound)

  mismatch_reset-Sound :
      (now : ℕ) (theirs : Option Epoch) (request : Bool) (c : Common) (s : EpochMismatch L C)
      → Ensures Sound (mismatch_reset now theirs request c s)
  unfolding mismatch_reset agree adopt
  mismatch_reset-Sound now theirs request c s =
      elim (Ordering-cases (compare_epochs s.epoch theirs)) [
        | inl e ↦ rw (e, mismatch_reset) (mismatch_to_connected-Sound now (or_one theirs) c _)
        | inr (inl e) ↦
            let (own, has, same) = (compare_epochs-eq s.epoch theirs).0 e in
            rw (e, mismatch_reset) (rw (has, agree) (mismatch_to_connected-Sound now own c _))
        | inr (inr e) ↦ rw (e, mismatch_reset) tt
      ]

  pub mismatch_link_msg-Sound :
      (now : ℕ) (c : Common) (s : EpochMismatch L C) (id : ℕ) (msg : LinkProtocol)
      → Ensures Sound (mismatch_link_msg now c s id msg)
  unfolding mismatch_link_msg
  mismatch_link_msg-Sound now c s id (reset theirs request) =
      mismatch_reset-Sound now theirs request c s
  mismatch_link_msg-Sound now c s id (ack epoch seq last_index) = tt
  mismatch_link_msg-Sound now c s id (msg_slice epoch seq seq_len first_index bytes) = tt
  mismatch_link_msg-Sound now c s id ping = tt
  mismatch_link_msg-Sound now c s id pong = tt

  pub connected_link_msg-Sound :
      (now : ℕ) (c : Common) (s : Connected L C) (id : ℕ) (msg : LinkProtocol)
      → IsSafe msg
      → IsSound s.msg_mgr
      → Ensures Sound (connected_link_msg now c s id msg)
  unfolding connected_link_msg connected_to_mismatch
  connected_link_msg-Sound now c s id (reset epoch false) safe h = h
  connected_link_msg-Sound now c s id (reset epoch true) safe h =
      Ensures-if _ (same_epoch epoch s.epoch) _ _ (λ e. determine_state-Sound now c _ h) (λ e. tt)
  connected_link_msg-Sound now c s id (ack epoch seq last_index) safe h =
      elim (Bool-cases (epoch == s.epoch)) [
        | inl same ↦ rw same (recv_ack-IsSound seq last_index s.msg_mgr h)
        | inr other ↦ rw other h
      ]
  connected_link_msg-Sound now c s id (msg_slice epoch seq seq_len first_index bytes) safe h =
      Ensures-if _ (epoch == s.epoch) _ _
        (λ e. connected_slice-Sound now seq seq_len first_index bytes c s safe h) (λ e. h)
  connected_link_msg-Sound now c s id ping safe h = h
  connected_link_msg-Sound now c s id pong safe h = h

  pub connected_timer-Sound :
      (now : ℕ) (c : Common) (s : Connected L C)
      → IsSound s.msg_mgr
      → Ensures Sound (connected_timer now c s)
  unfolding connected_timer
  connected_timer-Sound now c s h =
      let pinged =
        if ltb ping_interval (now - s.last_ping) then ping_all now s.links else s.links in
      Ensures-bind _ _ (resend s.msg_mgr (upkeep pinged)) _
        (resend-total s.msg_mgr (upkeep pinged) h) (λ links e. determine_state-Sound now c _ h)

recv_quietly-IsSound :
    (seq first_index seq_len : ℕ) (bytes : List ℕ) (e : Epoch) (c : Common) (mgr : MessageManager)
    → IsSafeSlice seq_len first_index bytes
    → IsSound mgr
    → Ensures (λ r. IsSound r.1) (recv_quietly seq first_index seq_len bytes e c mgr)
unfolding recv_quietly
recv_quietly-IsSound seq first_index seq_len bytes e c mgr safe h =
    Ensures-bind _ _ (recv seq first_index seq_len bytes mgr) _
      (recv-IsSound seq first_index seq_len bytes mgr safe h)
      (λ r sound.
        Ensures-bind _ _ (take_recvd r.0) _ (take_recvd-IsSound r.0 sound) (λ t sound'. sound'))

module _ {C : Type 0} (L : Type 0) where
  pub reconnecting_link_msg-Sound :
      (now : ℕ) (c : Common) (s : Reconnecting C) (id : ℕ) (msg : LinkProtocol)
      → IsSafe msg
      → IsSound s.msg_mgr
      → Ensures (Sound {L = L}) (reconnecting_link_msg now c s id msg)
  unfolding reconnecting_link_msg reconnecting_to_connecting
  reconnecting_link_msg-Sound now c s id (reset epoch false) safe h = h
  reconnecting_link_msg-Sound now c s id (reset epoch true) safe h =
      Ensures-if _ (same_epoch epoch s.epoch) _ _ (λ e. tt) (λ e. h)
  reconnecting_link_msg-Sound now c s id (ack epoch seq last_index) safe h =
      elim (Bool-cases (epoch == s.epoch)) [
        | inl same ↦ rw same (recv_ack-IsSound seq last_index s.msg_mgr h)
        | inr other ↦ rw other h
      ]
  reconnecting_link_msg-Sound now c s id (msg_slice epoch seq seq_len first_index bytes) safe h =
      Ensures-if _ (epoch == s.epoch) _ _
        (λ e.
          Ensures-bind _ _ (recv_quietly seq first_index seq_len bytes s.epoch c s.msg_mgr) _
            (recv_quietly-IsSound seq first_index seq_len bytes s.epoch c s.msg_mgr safe h)
            (λ r sound. sound))
        (λ e. h)
  reconnecting_link_msg-Sound now c s id ping safe h = h
  reconnecting_link_msg-Sound now c s id pong safe h = h

  pub grace_link_msg-Sound :
      (c : Common) (s : GracePeriod C) (id : ℕ) (msg : LinkProtocol)
      → IsSafe msg
      → IsSound s.msg_mgr
      → Ensures (Sound {L = L}) (grace_link_msg c s id msg)
  unfolding grace_link_msg grace_to_disconnected
  grace_link_msg-Sound c s id (reset epoch false) safe h = h
  grace_link_msg-Sound c s id (reset epoch true) safe h =
      Ensures-if _ (same_epoch epoch s.epoch) _ _ (λ e. tt) (λ e. h)
  grace_link_msg-Sound c s id (ack epoch seq last_index) safe h =
      elim (Bool-cases (epoch == s.epoch)) [
        | inl same ↦ rw same (recv_ack-IsSound seq last_index s.msg_mgr h)
        | inr other ↦ rw other h
      ]
  grace_link_msg-Sound c s id (msg_slice epoch seq seq_len first_index bytes) safe h =
      Ensures-if _ (epoch == s.epoch) _ _
        (λ e.
          Ensures-bind _ _ (recv_quietly seq first_index seq_len bytes s.epoch c s.msg_mgr) _
            (recv_quietly-IsSound seq first_index seq_len bytes s.epoch c s.msg_mgr safe h)
            (λ r sound. sound))
        (λ e. h)
  grace_link_msg-Sound c s id ping safe h = h
  grace_link_msg-Sound c s id pong safe h = h

  pub reconnecting_timer-Sound :
      (now : ℕ) (c : Common) (s : Reconnecting C) → Sound {L = L} (reconnecting_timer now c s)
  unfolding reconnecting_timer reconnecting_to_connecting reconnecting_to_disconnected
  reconnecting_timer-Sound now c s =
      Sound-if c.auto_connect (reconnecting_to_connecting now c s)
        (reconnecting_to_disconnected c s) tt tt

  pub grace_timer-Sound :
      (now : ℕ) (c : Common) (s : GracePeriod C) → Sound {L = L} (grace_timer now c s)
  unfolding grace_timer grace_to_connecting grace_to_disconnected
  grace_timer-Sound now c s =
      Sound-if c.auto_connect (grace_to_connecting now c s) (grace_to_disconnected c s) tt tt
