-- ===== src/Core/Heard/Moves.antt =====
-- What the controller has heard, over the moves between the states.
use link_set.Prelude.{ℕ, List, true, false, Bool-cases, inl, inr}
use link_set.Epoch.{Epoch}
use link_set.Links.{LinkOps, LinkEntry, no_links}
use link_set.Messages
use link_set.State.{
  Common, Disconnected, Connecting, EpochMismatch, Connected, Reconnecting, GracePeriod, send_ctrl,
  set_active, with_timer, arm_timer,
}
use link_set.State.Moves.{
  attempting, tell_disconnected, determine_timer, connecting_to_disconnected,
  connected_to_disconnected, reconnecting_to_disconnected, grace_to_disconnected,
  disconnected_to_connecting, mismatch_to_connecting, reconnecting_to_connecting,
  grace_to_connecting, connected_to_reconnecting, connected_to_grace, send_queued,
  disconnected_to_mismatch, connecting_to_mismatch, mismatch_to_connected,
  reconnecting_to_connected, grace_to_connected,
}
use link_set.State.Online.{determine_state, is_zero}
use link_set.Core.Holds.{Holds, Holds-elim}
use link_set.Core.Heard.{
  Honest, Hears, InTouch, attempting-Honest, tell_disconnected-Honest, attempting-Hears,
  connected-Hears, determine_timer-Honest, wait_for-Hears,
}

module _ {C : Type 0} where
  pub connecting_to_disconnected-InTouch :
      (L : Type 0) (c : Common) (s : Connecting C)
      → Honest c
      → InTouch {L = L} (connecting_to_disconnected c s)
  unfolding InTouch connecting_to_disconnected with_timer arm_timer send_ctrl
  connecting_to_disconnected-InTouch L c s h = attempting-Honest false c h

  pub reconnecting_to_disconnected-InTouch :
      (L : Type 0) (c : Common) (s : Reconnecting C)
      → Honest c
      → InTouch {L = L} (reconnecting_to_disconnected c s)
  unfolding InTouch reconnecting_to_disconnected with_timer arm_timer send_ctrl
  reconnecting_to_disconnected-InTouch L c s h =
      tell_disconnected-Honest (attempting false c) (attempting-Honest false c h)

  pub grace_to_disconnected-InTouch :
      (L : Type 0) (c : Common) (s : GracePeriod C)
      → Honest c
      → InTouch {L = L} (grace_to_disconnected c s)
  unfolding InTouch grace_to_disconnected with_timer arm_timer send_ctrl
  grace_to_disconnected-InTouch L c s h = tell_disconnected-Honest c h

  pub disconnected_to_connecting-InTouch :
      (L : Type 0) (now : ℕ) (ms : List (List ℕ)) (c : Common) (s : Disconnected C)
      → Honest c
      → InTouch {L = L} (disconnected_to_connecting now ms c s)
  unfolding InTouch disconnected_to_connecting
  disconnected_to_connecting-InTouch L now ms c s h =
      determine_timer-Honest now (attempting true c) (attempting-Honest true c h)

  pub reconnecting_to_connecting-InTouch :
      (L : Type 0) (now : ℕ) (c : Common) (s : Reconnecting C)
      → Honest c
      → InTouch {L = L} (reconnecting_to_connecting now c s)
  unfolding InTouch reconnecting_to_connecting
  reconnecting_to_connecting-InTouch L now c s h =
      tell_disconnected-Honest (determine_timer now c) (determine_timer-Honest now c h)

  pub grace_to_connecting-InTouch :
      (L : Type 0) (now : ℕ) (c : Common) (s : GracePeriod C)
      → Honest c
      → InTouch {L = L} (grace_to_connecting now c s)
  unfolding InTouch grace_to_connecting
  grace_to_connecting-InTouch L now c s h =
      determine_timer-Honest now (attempting true (tell_disconnected c))
        (attempting-Honest true (tell_disconnected c) (tell_disconnected-Honest c h))

module _ {L C : Type 0} where
  pub connected_to_disconnected-InTouch :
      (c : Common) (s : Connected L C) → Honest c → InTouch (connected_to_disconnected c s)
  unfolding InTouch connected_to_disconnected with_timer arm_timer send_ctrl set_active
  connected_to_disconnected-InTouch c s h = tell_disconnected-Honest c h

  pub mismatch_to_connecting-InTouch :
      (now : ℕ) (c : Common) (s : EpochMismatch L C)
      → Honest c
      → InTouch (mismatch_to_connecting now c s)
  unfolding InTouch mismatch_to_connecting
  mismatch_to_connecting-InTouch now c s h =
      determine_timer-Honest now (attempting true c) (attempting-Honest true c h)

  pub determine_state-InTouch :
      (now : ℕ) (c : Common) (s : Connected L C)
      → Hears s.epoch c
      → InTouch (determine_state now c s)
  unfolding determine_state connected_to_reconnecting connected_to_grace set_active
  determine_state-InTouch now c s h = elim (Bool-cases (no_links s.links)) [
    | inr some_link ↦ rw some_link (unfold InTouch in h)
    | inl gone ↦ rw gone (elim (Bool-cases (is_zero c.reconnecting_timeout)) [
      | inr later ↦ rw later (
          unfold InTouch in
          wait_for-Hears s.epoch now (attempting true c).reconnecting_timeout (attempting true c)
            (attempting-Hears s.epoch true c h))
      | inl never ↦ rw never (elim (Bool-cases (is_zero c.grace_period_timeout)) [
        | inr grace ↦
            rw grace (unfold InTouch in wait_for-Hears s.epoch now c.grace_period_timeout c h)
        | inl none_left ↦ rw none_left (connected_to_disconnected-InTouch c s h.0)
      ])
    ])
  ]

module _ {L C : Type 0} ⦃o : LinkOps L⦄ where
  pub disconnected_to_mismatch-InTouch :
      (now : ℕ) (l : LinkEntry L) (c : Common) (s : Disconnected C)
      → Honest c
      → InTouch (disconnected_to_mismatch now l c s)
  unfolding InTouch disconnected_to_mismatch with_timer arm_timer
  disconnected_to_mismatch-InTouch now l c s h = h

  pub connecting_to_mismatch-InTouch :
      (now : ℕ) (l : LinkEntry L) (c : Common) (s : Connecting C)
      → Honest c
      → InTouch (connecting_to_mismatch now l c s)
  unfolding InTouch connecting_to_mismatch with_timer arm_timer
  connecting_to_mismatch-InTouch now l c s h = attempting-Honest false c h

  pub mismatch_to_connected-InTouch :
      (now : ℕ) (e : Epoch) (c : Common) (s : EpochMismatch L C)
      → Honest c
      → Holds InTouch (mismatch_to_connected now e c s)
  unfolding InTouch mismatch_to_connected set_active with_timer arm_timer
  mismatch_to_connected-InTouch now e c s h =
      Holds-elim _ (send_queued s.queued_msgs (Messages.new e) s.links) _ _ tt
        (λ x. connected-Hears e c h)

  pub reconnecting_to_connected-InTouch :
      (now : ℕ) (l : LinkEntry L) (c : Common) (s : Reconnecting C)
      → Hears s.epoch c
      → InTouch (reconnecting_to_connected now l c s)
  unfolding InTouch reconnecting_to_connected set_active with_timer arm_timer
  reconnecting_to_connected-InTouch now l c s h = attempting-Hears s.epoch false c h

  pub grace_to_connected-InTouch :
      (now : ℕ) (l : LinkEntry L) (c : Common) (s : GracePeriod C)
      → Hears s.epoch c
      → InTouch (grace_to_connected now l c s)
  unfolding InTouch grace_to_connected set_active with_timer arm_timer
  grace_to_connected-InTouch now l c s h = h
