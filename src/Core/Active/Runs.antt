-- ===== src/Core/Active/Runs.antt =====
-- The flag `is_active` over one event and over the loop of src/core.rs.
use link_set.Prelude.{ℕ, List, [], ◌∷◌}
use link_set.Links.{LinkOps}
use link_set.Connect.{ConnectorOps}
use link_set.State.{Common, with_timer, arm_timer, Config, States, configure, send_ctrl}
use link_set.State.Moves.{connecting_to_disconnected}
use link_set.State.Offline.{
  disconnected_link_msg, disconnected_timer, connecting_link_msg, connecting_timer,
}
use link_set.State.Debug.{DebugCommand}
use link_set.State.Debug.Relinked.{relinked, debug-relinked}
use link_set.Core.Holds.{Holds-settled, Holds-timer, Holds, Holds-bind}
use link_set.Core.{
  Event, LinkSetControl, command, ctrl_msg, link_msg, timer, debug_cmd, handle_debug,
  handle_ctrl_msg, handle_command, handle_link_msg, handle_timer, turn, handle, run,
}
use link_set.Core.Active.{
  Flagged, disconnected_ctrl_msg-Flagged, connecting_ctrl_msg-Flagged, mismatch_ctrl_msg-Flagged,
  reconnecting_ctrl_msg-Flagged, grace_ctrl_msg-Flagged,
}
use link_set.Core.Active.Handlers.{
  mismatch_timer-Flagged, mismatch_link_msg-Flagged, connected_link_msg-Flagged,
  connected_timer-Flagged, connected_ctrl_msg-Flagged, reconnecting_link_msg-Flagged,
  grace_link_msg-Flagged, reconnecting_timer-Flagged, grace_timer-Flagged,
}

module _ {L C : Type 0} ⦃o : LinkOps L⦄ where
  handle_timer-Flagged :
      (now : ℕ) (c : Common) (state : States L C)
      → Flagged (c, state)
      → Holds Flagged (handle_timer now c state)
  unfolding handle_timer disconnected_timer connecting_timer connecting_to_disconnected with_timer
      arm_timer send_ctrl
  handle_timer-Flagged now c (States.disconnected s) h = h
  handle_timer-Flagged now c (States.connecting s) h = h
  handle_timer-Flagged now c (States.epoch_mismatch s) h = mismatch_timer-Flagged now c s h
  handle_timer-Flagged now c (States.connected s) h = connected_timer-Flagged now c s h
  handle_timer-Flagged now c (States.reconnecting s) h = reconnecting_timer-Flagged L now c s h
  handle_timer-Flagged now c (States.grace_period s) h = grace_timer-Flagged L now c s h

module _ {L C : Type 0} ⦃o : LinkOps L⦄ ⦃cc : ConnectorOps C⦄ where
  handle_debug-Flagged :
      (cmd : DebugCommand) (c : Common) (state : States L C)
      → Flagged (c, state)
      → Holds Flagged (handle_debug c state cmd)
  unfolding handle_debug
  handle_debug-Flagged cmd c state h = rw (debug-relinked cmd state) (flagged cmd c state h)
    where
      flagged :
          (cmd : DebugCommand) (c : Common) (state : States L C)
          → Flagged (c, state)
          → Flagged (c, relinked cmd state)
      flagged cmd c (States.disconnected s) h = h
      flagged cmd c (States.connecting s) h = h
      flagged cmd c (States.epoch_mismatch s) h = h
      flagged cmd c (States.connected s) h = h
      flagged cmd c (States.reconnecting s) h = h
      flagged cmd c (States.grace_period s) h = h

  -- One event.
  turn-Flagged :
      (event : Event L C) (c : Common) (state : States L C)
      → Flagged (c, state)
      → Holds Flagged (turn event c state)
  unfolding turn handle_ctrl_msg handle_command handle_link_msg handle_timer configure
      disconnected_link_msg disconnected_timer connecting_link_msg connecting_timer
      connecting_to_disconnected with_timer arm_timer send_ctrl
  turn-Flagged (ctrl_msg now (LinkSetControl.config (Config.auto_connect b))) c state h = h
  turn-Flagged (ctrl_msg now (LinkSetControl.config (Config.connect_timeout b))) c state h = h
  turn-Flagged (ctrl_msg now (LinkSetControl.config (Config.reconnect_timeout b))) c state h = h
  turn-Flagged (ctrl_msg now (LinkSetControl.config (Config.grace_period b))) c state h = h
  turn-Flagged (ctrl_msg now (command cmd)) c (States.disconnected s) h =
      disconnected_ctrl_msg-Flagged now c s cmd h
  turn-Flagged (ctrl_msg now (command cmd)) c (States.connecting s) h =
      connecting_ctrl_msg-Flagged now c s cmd h
  turn-Flagged (ctrl_msg now (command cmd)) c (States.epoch_mismatch s) h =
      mismatch_ctrl_msg-Flagged c s cmd h
  turn-Flagged (ctrl_msg now (command cmd)) c (States.connected s) h =
      connected_ctrl_msg-Flagged now c s cmd h
  turn-Flagged (ctrl_msg now (command cmd)) c (States.reconnecting s) h =
      reconnecting_ctrl_msg-Flagged now c s cmd h
  turn-Flagged (ctrl_msg now (command cmd)) c (States.grace_period s) h =
      grace_ctrl_msg-Flagged now c s cmd h
  turn-Flagged (link_msg now id msg) c (States.disconnected s) h = h
  turn-Flagged (link_msg now id msg) c (States.connecting s) h = h
  turn-Flagged (link_msg now id msg) c (States.epoch_mismatch s) h =
      mismatch_link_msg-Flagged now c s id msg h
  turn-Flagged (link_msg now id msg) c (States.connected s) h =
      connected_link_msg-Flagged now c s id msg h
  turn-Flagged (link_msg now id msg) c (States.reconnecting s) h =
      reconnecting_link_msg-Flagged L now c s id msg h
  turn-Flagged (link_msg now id msg) c (States.grace_period s) h =
      grace_link_msg-Flagged L c s id msg h
  turn-Flagged (timer now) c state h =
      Holds-timer Flagged now c state
        (λ d. handle_timer-Flagged now (with_timer (λ t. d) c) state h) h
  turn-Flagged (debug_cmd cmd) c state h = handle_debug-Flagged cmd c state h

  handle-Flagged :
      (event : Event L C) (c : Common) (state : States L C)
      → Flagged (c, state)
      → Holds Flagged (handle event c state)
  unfolding handle
  handle-Flagged event c state h =
      Holds-settled Flagged (turn event c state) (turn-Flagged event c state h)

  -- If the flag says whether the state is `Connected`, then after any events, in any order, it says
  -- so again, unless a handler panics on the way.
  pub run-Flagged :
      (events : List (Event L C)) (c : Common) (state : States L C)
      → Flagged (c, state)
      → Holds Flagged (run events c state)
  unfolding run
  run-Flagged [] c state h = h
  run-Flagged (event ∷ events) c state h =
      Holds-bind Flagged Flagged (handle event c state) _ (handle-Flagged event c state h)
        (λ r hr. run-Flagged events r.0 r.1 hr)
