-- ===== src/Core.antt =====
-- src/core.rs: one event after another is handled by the current state. `start_core` selects the
-- events; here they come in any order.
pub mod Active
pub mod Clock
pub mod Debugger
pub mod Diagram
pub mod Epochs
pub mod Heard
pub mod Holds
pub mod Sound
use link_set.Prelude.{ℕ, List, [], ◌∷◌, none, some, if◌then◌else◌}
use link_set.Protocol.{LinkProtocol}
use link_set.Deadline.{poll}
use link_set.Links.{LinkOps}
use link_set.Connect.{ConnectorOps}
use link_set.State.{Common, Command, Config, States, Outcome, configure, with_timer}
use link_set.State.Offline.{
  disconnected_ctrl_msg, disconnected_link_msg, disconnected_timer, connecting_ctrl_msg,
  connecting_link_msg, connecting_timer,
}
use link_set.State.Debug.{DebugCommand, debug}
use link_set.State.Mismatch.{mismatch_ctrl_msg, mismatch_link_msg, mismatch_timer}
use link_set.State.Online.{connected_ctrl_msg, connected_link_msg, connected_timer}
use link_set.State.Passive.{
  reconnecting_ctrl_msg, reconnecting_link_msg, reconnecting_timer, grace_ctrl_msg, grace_link_msg,
  grace_timer,
}

-- `LinkSetControl`
pub data LinkSetControl (L C : Type 0) : Type 0 where
  command : Command L C → LinkSetControl L C
  config : Config → LinkSetControl L C

-- What the loop of `start_core` waits for, with the time at which it comes.
pub data Event (L C : Type 0) : Type 0 where
  ctrl_msg : ℕ → LinkSetControl L C → Event L C
  link_msg : ℕ → ℕ → LinkProtocol → Event L C
  timer : ℕ → Event L C
  debug_cmd : DebugCommand → Event L C

module _ {L C : Type 0} ⦃o : LinkOps L⦄ ⦃c : ConnectorOps C⦄ where
  unfoldable pub handle_command : ℕ → Common → States L C → Command L C → Outcome L C
  handle_command now common (States.disconnected s) cmd =
      some (disconnected_ctrl_msg now common s cmd)
  handle_command now common (States.connecting s) cmd = some (connecting_ctrl_msg now common s cmd)
  handle_command now common (States.epoch_mismatch s) cmd = some (mismatch_ctrl_msg common s cmd)
  handle_command now common (States.connected s) cmd = connected_ctrl_msg now common s cmd
  handle_command now common (States.reconnecting s) cmd =
      some (reconnecting_ctrl_msg now common s cmd)
  handle_command now common (States.grace_period s) cmd = some (grace_ctrl_msg now common s cmd)

  unfoldable pub handle_ctrl_msg : ℕ → Common → States L C → LinkSetControl L C → Outcome L C
  handle_ctrl_msg now common state (command cmd) = handle_command now common state cmd
  handle_ctrl_msg now common state (config conf) = some (configure conf common, state)

module _ {L C : Type 0} ⦃o : LinkOps L⦄ where
  unfoldable pub handle_link_msg : ℕ → Common → States L C → ℕ → LinkProtocol → Outcome L C
  handle_link_msg now common (States.disconnected s) id msg =
      some (disconnected_link_msg common s id msg)
  handle_link_msg now common (States.connecting s) id msg =
      some (connecting_link_msg common s id msg)
  handle_link_msg now common (States.epoch_mismatch s) id msg =
      mismatch_link_msg now common s id msg
  handle_link_msg now common (States.connected s) id msg = connected_link_msg now common s id msg
  handle_link_msg now common (States.reconnecting s) id msg =
      reconnecting_link_msg now common s id msg
  handle_link_msg now common (States.grace_period s) id msg = grace_link_msg common s id msg

  unfoldable pub handle_timer : ℕ → Common → States L C → Outcome L C
  handle_timer now common (States.disconnected s) = some (disconnected_timer common s)
  handle_timer now common (States.connecting s) = some (connecting_timer common s)
  handle_timer now common (States.epoch_mismatch s) = some (mismatch_timer now common s)
  handle_timer now common (States.connected s) = connected_timer now common s
  handle_timer now common (States.reconnecting s) = some (reconnecting_timer now common s)
  handle_timer now common (States.grace_period s) = some (grace_timer now common s)

module _ {L C : Type 0} where
  -- A handler that panicked while it set the timer has no result.
  unfoldable pub settled : Outcome L C → Outcome L C
  settled outcome = elim outcome [
    | none ↦ none
    | some (common, state) ↦ elim common.timer [ none ↦ none | some d ↦ some (common, state) ]
  ]

module _ {L C : Type 0} ⦃o : LinkOps L⦄ ⦃c : ConnectorOps C⦄ where
  -- The reply goes to whoever asked.
  unfoldable pub handle_debug : Common → States L C → DebugCommand → Outcome L C
  handle_debug common state cmd = some (common, (debug cmd state).1)

  -- A timer that is not ready is not selected.
  unfoldable pub turn : Event L C → Common → States L C → Outcome L C
  turn (ctrl_msg now msg) common state = handle_ctrl_msg now common state msg
  turn (link_msg now id msg) common state = handle_link_msg now common state id msg
  turn (timer now) common state = elim common.timer [
    | none ↦ none
    | some t ↦ elim (poll now t) [
      | none ↦ none
      | some (deadline, ready) ↦
          if ready
          then handle_timer now (with_timer (λ d. deadline) common) state
          else some (common, state)
    ]
  ]
  turn (debug_cmd cmd) common state = handle_debug common state cmd

  -- One turn of the loop.
  unfoldable pub handle : Event L C → Common → States L C → Outcome L C
  unfolding turn settled
  handle event common state = settled (turn event common state)

  -- The loop, until the events end; `none` where a handler panics.
  unfoldable pub run : List (Event L C) → Common → States L C → Outcome L C
  run [] common state = some (common, state)
  run (event ∷ events) common state = elim (handle event common state) [
    | none ↦ none
    | some (common', state') ↦ run events common' state'
  ]
