-- ===== src/Core/Clock/Commands.antt =====
-- The timer over control messages.
use link_set.Prelude.{true, false, ℕ, ◌≤◌, ◌&&◌, List, [], ◌∷◌, inl, inr}
use link_set.Protocol.{Result-cases}
use link_set.Links.{LinkOps}
use link_set.Connect.{ConnectorOps}
use link_set.State.{
  Common, Command, Disconnected, Connecting, EpochMismatch, Reconnecting, GracePeriod, connect,
  disconnect, add_link, send_ctrl, wrap_link,
}
use link_set.State.Moves.{
  attempting, tell_disconnected, connecting_to_disconnected, connecting_to_mismatch,
  mismatch_to_disconnected, reconnecting_to_disconnected, reconnecting_to_connected,
  grace_to_disconnected, grace_to_connected, disconnected_to_connecting, disconnected_to_mismatch,
}
use link_set.State.Offline.{disconnected_ctrl_msg, connecting_ctrl_msg, is_none}
use link_set.State.Mismatch.{mismatch_ctrl_msg}
use link_set.State.Passive.{reconnecting_ctrl_msg, grace_ctrl_msg}
use link_set.Core.Clock.{
  span_max, OnTime, Timely, Timely-if, clear-OnTime, determine_timer-OnTime, repeat-OnTime,
  now_connected-OnTime, wrap_link-OnTime,
}

connects :
    {C : Type 0} (L : Type 0) (now : ℕ) (msgs : List (List ℕ)) (c : Common) (s : Disconnected C)
    → now ≤ span_max
    → OnTime c
    → Timely {L = L} (disconnected_to_connecting now msgs c s)
unfolding disconnected_to_connecting send_ctrl
connects L now msgs c s hn h = determine_timer-OnTime now (attempting true c) hn h

module _ {L C : Type 0} ⦃o : LinkOps L⦄ ⦃cc : ConnectorOps C⦄ where
  pub disconnected_ctrl_msg-Timely :
      (now : ℕ) (c : Common) (s : Disconnected C) (cmd : Command L C)
      → now ≤ span_max
      → OnTime c
      → Timely (disconnected_ctrl_msg now c s cmd)
  unfolding disconnected_ctrl_msg disconnected_to_mismatch
  disconnected_ctrl_msg-Timely now c s connect hn h = connects L now [] c s hn h
  disconnected_ctrl_msg-Timely now c s disconnect hn h = h
  disconnected_ctrl_msg-Timely now c s (Command.add_connector conn) hn h = h
  disconnected_ctrl_msg-Timely now c s (Command.add_address a) hn h = h
  disconnected_ctrl_msg-Timely now c s (add_link l) hn h = elim (Result-cases (wrap_link l c).1) [
    | inl (entry, e) ↦
        rw (e, disconnected_ctrl_msg)
          (repeat-OnTime now (wrap_link l c).0 hn (wrap_link-OnTime l c h))
    | inr (x, e) ↦ rw (e, disconnected_ctrl_msg) (wrap_link-OnTime l c h)
  ]
  disconnected_ctrl_msg-Timely now c s (Command.message b e) hn h =
      Timely-if (c.auto_connect && is_none e) (disconnected_to_connecting now (b ∷ []) c s) _
        (connects L now (b ∷ []) c s hn h) h

  pub connecting_ctrl_msg-Timely :
      (now : ℕ) (c : Common) (s : Connecting C) (cmd : Command L C)
      → now ≤ span_max
      → OnTime c
      → Timely (connecting_ctrl_msg now c s cmd)
  unfolding connecting_ctrl_msg connecting_to_disconnected connecting_to_mismatch send_ctrl
  connecting_ctrl_msg-Timely now c s connect hn h = h
  connecting_ctrl_msg-Timely now c s disconnect hn h = clear-OnTime c h
  connecting_ctrl_msg-Timely now c s (Command.add_connector conn) hn h = h
  connecting_ctrl_msg-Timely now c s (Command.add_address a) hn h = h
  connecting_ctrl_msg-Timely now c s (add_link l) hn h = elim (Result-cases (wrap_link l c).1) [
    | inl (entry, e) ↦
        rw (e, connecting_ctrl_msg)
          (repeat-OnTime now (attempting false (wrap_link l c).0) hn (wrap_link-OnTime l c h))
    | inr (x, e) ↦ rw (e, connecting_ctrl_msg) (wrap_link-OnTime l c h)
  ]
  connecting_ctrl_msg-Timely now c s (Command.message b e) hn h = h

  pub mismatch_ctrl_msg-Timely :
      (c : Common) (s : EpochMismatch L C) (cmd : Command L C)
      → OnTime c
      → Timely (mismatch_ctrl_msg c s cmd)
  unfolding mismatch_ctrl_msg mismatch_to_disconnected
  mismatch_ctrl_msg-Timely c s connect h = h
  mismatch_ctrl_msg-Timely c s disconnect h = clear-OnTime c h
  mismatch_ctrl_msg-Timely c s (Command.add_connector conn) h = h
  mismatch_ctrl_msg-Timely c s (Command.add_address a) h = h
  mismatch_ctrl_msg-Timely c s (add_link l) h = elim (Result-cases (wrap_link l c).1) [
    | inl (entry, e) ↦ rw (e, mismatch_ctrl_msg) (wrap_link-OnTime l c h)
    | inr (x, e) ↦ rw (e, mismatch_ctrl_msg) (wrap_link-OnTime l c h)
  ]
  mismatch_ctrl_msg-Timely c s (Command.message b e) h = h

  pub reconnecting_ctrl_msg-Timely :
      (now : ℕ) (c : Common) (s : Reconnecting C) (cmd : Command L C)
      → now ≤ span_max
      → OnTime c
      → Timely (reconnecting_ctrl_msg now c s cmd)
  unfolding reconnecting_ctrl_msg reconnecting_to_disconnected reconnecting_to_connected send_ctrl
  reconnecting_ctrl_msg-Timely now c s connect hn h = h
  reconnecting_ctrl_msg-Timely now c s disconnect hn h =
      clear-OnTime (tell_disconnected (attempting false c)) h
  reconnecting_ctrl_msg-Timely now c s (Command.add_connector conn) hn h = h
  reconnecting_ctrl_msg-Timely now c s (Command.add_address a) hn h = h
  reconnecting_ctrl_msg-Timely now c s (add_link l) hn h = elim (Result-cases (wrap_link l c).1) [
    | inl (entry, e) ↦
        rw (e, reconnecting_ctrl_msg)
          (now_connected-OnTime now (attempting false (wrap_link l c).0) hn
            (wrap_link-OnTime l c h))
    | inr (x, e) ↦ rw (e, reconnecting_ctrl_msg) (wrap_link-OnTime l c h)
  ]
  reconnecting_ctrl_msg-Timely now c s (Command.message b e) hn h = h

  pub grace_ctrl_msg-Timely :
      (now : ℕ) (c : Common) (s : GracePeriod C) (cmd : Command L C)
      → now ≤ span_max
      → OnTime c
      → Timely (grace_ctrl_msg now c s cmd)
  unfolding grace_ctrl_msg grace_to_disconnected grace_to_connected send_ctrl
  grace_ctrl_msg-Timely now c s connect hn h = h
  grace_ctrl_msg-Timely now c s disconnect hn h = clear-OnTime c h
  grace_ctrl_msg-Timely now c s (Command.add_connector conn) hn h = h
  grace_ctrl_msg-Timely now c s (Command.add_address a) hn h = h
  grace_ctrl_msg-Timely now c s (add_link l) hn h = elim (Result-cases (wrap_link l c).1) [
    | inl (entry, e) ↦
        rw (e, grace_ctrl_msg)
          (now_connected-OnTime now (wrap_link l c).0 hn (wrap_link-OnTime l c h))
    | inr (x, e) ↦ rw (e, grace_ctrl_msg) (wrap_link-OnTime l c h)
  ]
  grace_ctrl_msg-Timely now c s (Command.message b e) hn h = h
