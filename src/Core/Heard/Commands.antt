-- ===== src/Core/Heard/Commands.antt =====
-- What the controller has heard, over its own commands.
use link_set.Prelude.{ℕ, List, [], ◌∷◌, ◌&&◌, Bool-cases, inl, inr}
use link_set.Links.{LinkOps, send_slices}
use link_set.Connect.{ConnectorOps}
use link_set.Messages.{insert_msg, get_outgoing_slice}
use link_set.State.{
  Common, Command, Disconnected, Connecting, EpochMismatch, Connected, Reconnecting, GracePeriod,
  with_timer, arm_timer, wrap_link, connect, disconnect, add_link,
}
use link_set.State.Moves.{mismatch_to_disconnected}
use link_set.State.Offline.{disconnected_ctrl_msg, connecting_ctrl_msg, is_none}
use link_set.State.Online.{connected_ctrl_msg, connected_send, epoch_fits}
use link_set.State.Mismatch.{mismatch_ctrl_msg}
use link_set.State.Passive.{reconnecting_ctrl_msg, grace_ctrl_msg}
use link_set.Core.Holds.{Holds, Holds-elim, Holds-if}
use link_set.Core.Heard.{Honest, Hears, InTouch, wrap_link-Honest, wrap_link-Hears}
use link_set.Protocol.{Result-cases}
use link_set.Core.Heard.Moves.{
  connecting_to_disconnected-InTouch, connected_to_disconnected-InTouch,
  reconnecting_to_disconnected-InTouch, grace_to_disconnected-InTouch,
  disconnected_to_connecting-InTouch, determine_state-InTouch, disconnected_to_mismatch-InTouch,
  connecting_to_mismatch-InTouch, reconnecting_to_connected-InTouch, grace_to_connected-InTouch,
}

module _ {L C : Type 0} ⦃o : LinkOps L⦄ ⦃cc : ConnectorOps C⦄ where
  pub disconnected_ctrl_msg-InTouch :
      (now : ℕ) (c : Common) (s : Disconnected C) (cmd : Command L C)
      → Honest c
      → InTouch (disconnected_ctrl_msg now c s cmd)
  unfolding disconnected_ctrl_msg
  disconnected_ctrl_msg-InTouch now c s connect h =
      disconnected_to_connecting-InTouch L now [] c s h
  disconnected_ctrl_msg-InTouch now c s disconnect h = unfold InTouch in h
  disconnected_ctrl_msg-InTouch now c s (Command.add_connector conn) h = unfold InTouch in h
  disconnected_ctrl_msg-InTouch now c s (Command.add_address a) h = unfold InTouch in h
  disconnected_ctrl_msg-InTouch now c s (add_link l) h = elim (Result-cases ((wrap_link l c).1)) [
    | inl (entry, q) ↦
        rw (q, disconnected_ctrl_msg)
          (disconnected_to_mismatch-InTouch now entry _ s (wrap_link-Honest l c h))
    | inr (why, q) ↦ rw (q, disconnected_ctrl_msg) (unfold InTouch in wrap_link-Honest l c h)
  ]
  disconnected_ctrl_msg-InTouch now c s (Command.message b e) h =
      elim (Bool-cases (c.auto_connect && is_none e)) [
        | inl q ↦
            rw (q, disconnected_ctrl_msg) (disconnected_to_connecting-InTouch L now (b ∷ []) c s h)
        | inr q ↦ rw (q, disconnected_ctrl_msg) (unfold InTouch in h)
      ]

  pub connecting_ctrl_msg-InTouch :
      (now : ℕ) (c : Common) (s : Connecting C) (cmd : Command L C)
      → Honest c
      → InTouch (connecting_ctrl_msg now c s cmd)
  unfolding connecting_ctrl_msg
  connecting_ctrl_msg-InTouch now c s connect h = unfold InTouch in h
  connecting_ctrl_msg-InTouch now c s disconnect h = connecting_to_disconnected-InTouch L c s h
  connecting_ctrl_msg-InTouch now c s (Command.add_connector conn) h = unfold InTouch in h
  connecting_ctrl_msg-InTouch now c s (Command.add_address a) h = unfold InTouch in h
  connecting_ctrl_msg-InTouch now c s (add_link l) h = elim (Result-cases ((wrap_link l c).1)) [
    | inl (entry, q) ↦
        rw (q, connecting_ctrl_msg)
          (connecting_to_mismatch-InTouch now entry _ s (wrap_link-Honest l c h))
    | inr (why, q) ↦ rw (q, connecting_ctrl_msg) (unfold InTouch in wrap_link-Honest l c h)
  ]
  connecting_ctrl_msg-InTouch now c s (Command.message b e) h = unfold InTouch in h

  pub mismatch_ctrl_msg-InTouch :
      (c : Common) (s : EpochMismatch L C) (cmd : Command L C)
      → Honest c
      → InTouch (mismatch_ctrl_msg c s cmd)
  unfolding mismatch_ctrl_msg mismatch_to_disconnected with_timer arm_timer
  mismatch_ctrl_msg-InTouch c s connect h = unfold InTouch in h
  mismatch_ctrl_msg-InTouch c s disconnect h = unfold InTouch in h
  mismatch_ctrl_msg-InTouch c s (Command.add_connector conn) h = unfold InTouch in h
  mismatch_ctrl_msg-InTouch c s (Command.add_address a) h = unfold InTouch in h
  mismatch_ctrl_msg-InTouch c s (add_link l) h = elim (Result-cases ((wrap_link l c).1)) [
    | inl (entry, q) ↦ rw (q, mismatch_ctrl_msg) (unfold InTouch in wrap_link-Honest l c h)
    | inr (why, q) ↦ rw (q, mismatch_ctrl_msg) (unfold InTouch in wrap_link-Honest l c h)
  ]
  mismatch_ctrl_msg-InTouch c s (Command.message b e) h = unfold InTouch in h

  pub reconnecting_ctrl_msg-InTouch :
      (now : ℕ) (c : Common) (s : Reconnecting C) (cmd : Command L C)
      → Hears s.epoch c
      → InTouch (reconnecting_ctrl_msg now c s cmd)
  unfolding reconnecting_ctrl_msg
  reconnecting_ctrl_msg-InTouch now c s connect h = unfold InTouch in h
  reconnecting_ctrl_msg-InTouch now c s disconnect h =
      reconnecting_to_disconnected-InTouch L c s h.0
  reconnecting_ctrl_msg-InTouch now c s (Command.add_connector conn) h = unfold InTouch in h
  reconnecting_ctrl_msg-InTouch now c s (Command.add_address a) h = unfold InTouch in h
  reconnecting_ctrl_msg-InTouch now c s (add_link l) h = elim (Result-cases ((wrap_link l c).1)) [
    | inl (entry, q) ↦
        rw (q, reconnecting_ctrl_msg)
          (reconnecting_to_connected-InTouch now entry _ s (wrap_link-Hears s.epoch l c h))
    | inr (why, q) ↦ rw (q, reconnecting_ctrl_msg) (unfold InTouch in wrap_link-Hears s.epoch l c h)
  ]
  reconnecting_ctrl_msg-InTouch now c s (Command.message b e) h =
      elim (Bool-cases (epoch_fits e s.epoch)) [
        | inl q ↦ rw (q, reconnecting_ctrl_msg) (unfold InTouch in h)
        | inr q ↦ rw (q, reconnecting_ctrl_msg) (unfold InTouch in h)
      ]

  pub grace_ctrl_msg-InTouch :
      (now : ℕ) (c : Common) (s : GracePeriod C) (cmd : Command L C)
      → Hears s.epoch c
      → InTouch (grace_ctrl_msg now c s cmd)
  unfolding grace_ctrl_msg
  grace_ctrl_msg-InTouch now c s connect h = unfold InTouch in h
  grace_ctrl_msg-InTouch now c s disconnect h = grace_to_disconnected-InTouch L c s h.0
  grace_ctrl_msg-InTouch now c s (Command.add_connector conn) h = unfold InTouch in h
  grace_ctrl_msg-InTouch now c s (Command.add_address a) h = unfold InTouch in h
  grace_ctrl_msg-InTouch now c s (add_link l) h = elim (Result-cases ((wrap_link l c).1)) [
    | inl (entry, q) ↦
        rw (q, grace_ctrl_msg)
          (grace_to_connected-InTouch now entry _ s (wrap_link-Hears s.epoch l c h))
    | inr (why, q) ↦ rw (q, grace_ctrl_msg) (unfold InTouch in wrap_link-Hears s.epoch l c h)
  ]
  grace_ctrl_msg-InTouch now c s (Command.message b e) h =
      elim (Bool-cases (epoch_fits e s.epoch)) [
        | inl q ↦ rw (q, grace_ctrl_msg) (unfold InTouch in h)
        | inr q ↦ rw (q, grace_ctrl_msg) (unfold InTouch in h)
      ]

  connected_send-InTouch :
      (now : ℕ) (b : List ℕ) (c : Common) (s : Connected L C)
      → Hears s.epoch c
      → Holds InTouch (connected_send now b c s)
  unfolding connected_send
  connected_send-InTouch now b c s h =
      Holds-elim _ (get_outgoing_slice ((insert_msg b s.msg_mgr).1) ((insert_msg b s.msg_mgr).0)) _
        _ (determine_state-InTouch now c _ h)
        (λ slice_mgr.
          Holds-elim _ (send_slices slice_mgr s.links) _ _ tt
            (λ x. determine_state-InTouch now c _ h))

  pub connected_ctrl_msg-InTouch :
      (now : ℕ) (c : Common) (s : Connected L C) (cmd : Command L C)
      → Hears s.epoch c
      → Holds InTouch (connected_ctrl_msg now c s cmd)
  unfolding connected_ctrl_msg
  connected_ctrl_msg-InTouch now c s connect h = unfold InTouch in h
  connected_ctrl_msg-InTouch now c s disconnect h = connected_to_disconnected-InTouch c s h.0
  connected_ctrl_msg-InTouch now c s (Command.add_connector conn) h = unfold InTouch in h
  connected_ctrl_msg-InTouch now c s (Command.add_address a) h = unfold InTouch in h
  connected_ctrl_msg-InTouch now c s (add_link l) h = elim (Result-cases ((wrap_link l c).1)) [
    | inl (entry, q) ↦ rw (q, connected_ctrl_msg) (unfold InTouch in wrap_link-Hears s.epoch l c h)
    | inr (why, q) ↦ rw (q, connected_ctrl_msg) (unfold InTouch in wrap_link-Hears s.epoch l c h)
  ]
  connected_ctrl_msg-InTouch now c s (Command.message b e) h =
      Holds-if _ (epoch_fits e s.epoch) _ _ (connected_send-InTouch now b c s h)
        (unfold InTouch in h)
