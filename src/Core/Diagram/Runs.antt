-- ===== src/Core/Diagram/Runs.antt =====
-- The diagram over the loop of src/core.rs.
use link_set.Prelude.{◌≡◌, refl}
use link_set.Links.{LinkOps}
use link_set.Connect.{ConnectorOps}
use link_set.State.{Common, with_timer, States}
use link_set.State.Offline.{disconnected_link_msg, connecting_link_msg}
use link_set.State.Debug.{DebugCommand}
use link_set.State.Debug.Relinked.{relinked, debug-relinked}
use link_set.Core.{
  Event, command, config, ctrl_msg, link_msg, timer, debug_cmd, handle_debug, handle_ctrl_msg,
  handle_command, handle_link_msg, turn, handle,
}
use link_set.Core.Holds.{Holds-settled, Holds-timer, Holds}
use link_set.Core.Diagram.{Cause, stay, phase, Follows}
use link_set.Core.Diagram.Commands.{
  disconnected_ctrl_msg-Follows, connecting_ctrl_msg-Follows, mismatch_ctrl_msg-Follows,
  connected_ctrl_msg-Follows, reconnecting_ctrl_msg-Follows, grace_ctrl_msg-Follows,
}
use link_set.Core.Diagram.Handlers.{
  mismatch_link_msg-Follows, connected_link_msg-Follows, reconnecting_link_msg-Follows,
  grace_link_msg-Follows, handle_timer-Follows,
}

module _ {L C : Type 0} where
  abbrev pub cause_of : Event L C → Cause
  cause_of (ctrl_msg now msg) = Cause.command
  cause_of (link_msg now id msg) = Cause.peer
  cause_of (timer now) = Cause.timeout
  cause_of (debug_cmd cmd) = Cause.command

  phase-relinked :
      (cmd : DebugCommand) (state : States L C) → phase (relinked cmd state) ≡ phase state
  phase-relinked cmd (States.disconnected s) = refl
  phase-relinked cmd (States.connecting s) = refl
  phase-relinked cmd (States.epoch_mismatch s) = refl
  phase-relinked cmd (States.connected s) = refl
  phase-relinked cmd (States.reconnecting s) = refl
  phase-relinked cmd (States.grace_period s) = refl

module _ {L C : Type 0} ⦃o : LinkOps L⦄ ⦃cc : ConnectorOps C⦄ where
  turn-Follows :
      (event : Event L C) (c : Common) (state : States L C)
      → Holds (Follows (cause_of event) (phase state)) (turn event c state)
  unfolding turn handle_ctrl_msg handle_command handle_link_msg handle_debug disconnected_link_msg
      connecting_link_msg
  turn-Follows (ctrl_msg now (config conf)) c state = stay
  turn-Follows (ctrl_msg now (command cmd)) c (States.disconnected s) =
      disconnected_ctrl_msg-Follows now c s cmd
  turn-Follows (ctrl_msg now (command cmd)) c (States.connecting s) =
      connecting_ctrl_msg-Follows now c s cmd
  turn-Follows (ctrl_msg now (command cmd)) c (States.epoch_mismatch s) =
      mismatch_ctrl_msg-Follows c s cmd
  turn-Follows (ctrl_msg now (command cmd)) c (States.connected s) =
      connected_ctrl_msg-Follows now c s cmd
  turn-Follows (ctrl_msg now (command cmd)) c (States.reconnecting s) =
      reconnecting_ctrl_msg-Follows now c s cmd
  turn-Follows (ctrl_msg now (command cmd)) c (States.grace_period s) =
      grace_ctrl_msg-Follows now c s cmd
  turn-Follows (link_msg now id msg) c (States.disconnected s) = stay
  turn-Follows (link_msg now id msg) c (States.connecting s) = stay
  turn-Follows (link_msg now id msg) c (States.epoch_mismatch s) =
      mismatch_link_msg-Follows now c s id msg
  turn-Follows (link_msg now id msg) c (States.connected s) =
      connected_link_msg-Follows now c s id msg
  turn-Follows (link_msg now id msg) c (States.reconnecting s) =
      reconnecting_link_msg-Follows L now c s id msg
  turn-Follows (link_msg now id msg) c (States.grace_period s) = grace_link_msg-Follows L c s id msg
  turn-Follows (timer now) c state =
      Holds-timer (Follows Cause.timeout (phase state)) now c state
        (λ d. handle_timer-Follows now (with_timer (λ t. d) c) state) stay
  turn-Follows (debug_cmd cmd) c state =
      rw (debug-relinked cmd state, phase-relinked cmd state) stay

  -- One turn of the loop, with any event in any state, stays in the state or makes a move of the
  -- diagram that belongs to the kind of the event, unless the handler panics.
  pub handle-Follows :
      (event : Event L C) (c : Common) (state : States L C)
      → Holds (Follows (cause_of event) (phase state)) (handle event c state)
  unfolding handle
  handle-Follows event c state =
      Holds-settled (Follows (cause_of event) (phase state)) (turn event c state)
        (turn-Follows event c state)
