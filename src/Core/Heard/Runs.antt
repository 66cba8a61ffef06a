-- ===== src/Core/Heard/Runs.antt =====
-- What the controller has heard, over one event and over the loop of src/core.rs.
use link_set.Prelude.{ℕ, List, [], ◌∷◌, ◌≡◌, refl}
use link_set.Protocol.{LinkProtocol}
use link_set.Links.{LinkOps}
use link_set.Connect.{ConnectorOps}
use link_set.State.{Common, Command, with_timer, arm_timer, Config, States, configure}
use link_set.State.Offline.{
  disconnected_link_msg, disconnected_timer, connecting_link_msg, connecting_timer,
}
use link_set.State.Debug.{DebugCommand}
use link_set.State.Debug.Relinked.{relinked, debug-relinked}
use link_set.Core.Holds.{Holds-settled, Holds-timer, Holds, Holds-bind}
use link_set.Core.{
  Event, LinkSetControl, command, ctrl_msg, link_msg, timer, debug_cmd, handle_debug,
  handle_ctrl_msg, handle_command, handle_link_msg, handle_timer, turn, handle, run,
}
use link_set.Core.Heard.{InTouch, same-Honest, same-Hears}
use link_set.Core.Heard.Moves.{connecting_to_disconnected-InTouch}
use link_set.Core.Heard.Commands.{
  disconnected_ctrl_msg-InTouch, connecting_ctrl_msg-InTouch, mismatch_ctrl_msg-InTouch,
  connected_ctrl_msg-InTouch, reconnecting_ctrl_msg-InTouch, grace_ctrl_msg-InTouch,
}
use link_set.Core.Heard.Handlers.{
  mismatch_timer-InTouch, mismatch_link_msg-InTouch, connected_link_msg-InTouch,
  connected_timer-InTouch, reconnecting_link_msg-InTouch, grace_link_msg-InTouch,
  reconnecting_timer-InTouch, grace_timer-InTouch,
}

module _ {L C : Type 0} ⦃o : LinkOps L⦄ where
  handle_link_msg-InTouch :
      (now : ℕ) (c : Common) (state : States L C) (id : ℕ) (msg : LinkProtocol)
      → InTouch (c, state)
      → Holds InTouch (handle_link_msg now c state id msg)
  unfolding handle_link_msg disconnected_link_msg connecting_link_msg InTouch
  handle_link_msg-InTouch now c (States.disconnected s) id msg h = h
  handle_link_msg-InTouch now c (States.connecting s) id msg h = h
  handle_link_msg-InTouch now c (States.epoch_mismatch s) id msg h =
      mismatch_link_msg-InTouch now c s id msg h
  handle_link_msg-InTouch now c (States.connected s) id msg h =
      connected_link_msg-InTouch now c s id msg h
  handle_link_msg-InTouch now c (States.reconnecting s) id msg h =
      reconnecting_link_msg-InTouch L now c s id msg h
  handle_link_msg-InTouch now c (States.grace_period s) id msg h =
      grace_link_msg-InTouch L c s id msg h

  handle_timer-InTouch :
      (now : ℕ) (c : Common) (state : States L C)
      → InTouch (c, state)
      → Holds InTouch (handle_timer now c state)
  unfolding handle_timer disconnected_timer connecting_timer with_timer arm_timer InTouch
  handle_timer-InTouch now c (States.disconnected s) h = h
  handle_timer-InTouch now c (States.connecting s) h = connecting_to_disconnected-InTouch L _ s h
  handle_timer-InTouch now c (States.epoch_mismatch s) h = mismatch_timer-InTouch now c s h
  handle_timer-InTouch now c (States.connected s) h = connected_timer-InTouch now c s h
  handle_timer-InTouch now c (States.reconnecting s) h = reconnecting_timer-InTouch L now c s h.0
  handle_timer-InTouch now c (States.grace_period s) h = grace_timer-InTouch L now c s h.0

module _ {L C : Type 0} where
  -- A state that is told of a change that the controller does not hear.
  quietly :
      (c c' : Common) (state : States L C)
      → c'.to_ctrl ≡ c.to_ctrl
      → InTouch (c, state)
      → InTouch (c', state)
  unfolding InTouch
  quietly c c' (States.disconnected s) same h = same-Honest c c' same h
  quietly c c' (States.connecting s) same h = same-Honest c c' same h
  quietly c c' (States.epoch_mismatch s) same h = same-Honest c c' same h
  quietly c c' (States.connected s) same h = same-Hears c c' same s.epoch h
  quietly c c' (States.reconnecting s) same h = same-Hears c c' same s.epoch h
  quietly c c' (States.grace_period s) same h = same-Hears c c' same s.epoch h

module _ {L C : Type 0} where
  in_touch :
      (cmd : DebugCommand) (c : Common) (state : States L C)
      → InTouch (c, state)
      → InTouch (c, relinked cmd state)
  unfolding InTouch
  in_touch cmd c (States.disconnected s) h = h
  in_touch cmd c (States.connecting s) h = h
  in_touch cmd c (States.epoch_mismatch s) h = h
  in_touch cmd c (States.connected s) h = h
  in_touch cmd c (States.reconnecting s) h = h
  in_touch cmd c (States.grace_period s) h = h

configure_to_ctrl : (conf : Config) (c : Common) → (configure conf c).to_ctrl ≡ c.to_ctrl
unfolding configure
configure_to_ctrl (Config.auto_connect b) c = refl
configure_to_ctrl (Config.connect_timeout t) c = refl
configure_to_ctrl (Config.reconnect_timeout t) c = refl
configure_to_ctrl (Config.grace_period t) c = refl

module _ {L C : Type 0} ⦃o : LinkOps L⦄ ⦃cc : ConnectorOps C⦄ where
  handle_command-InTouch :
      (now : ℕ) (c : Common) (state : States L C) (cmd : Command L C)
      → InTouch (c, state)
      → Holds InTouch (handle_command now c state cmd)
  unfolding handle_command InTouch
  handle_command-InTouch now c (States.disconnected s) cmd h =
      disconnected_ctrl_msg-InTouch now c s cmd h
  handle_command-InTouch now c (States.connecting s) cmd h =
      connecting_ctrl_msg-InTouch now c s cmd h
  handle_command-InTouch now c (States.epoch_mismatch s) cmd h = mismatch_ctrl_msg-InTouch c s cmd h
  handle_command-InTouch now c (States.connected s) cmd h = connected_ctrl_msg-InTouch now c s cmd h
  handle_command-InTouch now c (States.reconnecting s) cmd h =
      reconnecting_ctrl_msg-InTouch now c s cmd h
  handle_command-InTouch now c (States.grace_period s) cmd h = grace_ctrl_msg-InTouch now c s cmd h

  handle_debug-InTouch :
      (cmd : DebugCommand) (c : Common) (state : States L C)
      → InTouch (c, state)
      → Holds InTouch (handle_debug c state cmd)
  unfolding handle_debug
  handle_debug-InTouch cmd c state h = rw (debug-relinked cmd state) (in_touch cmd c state h)

  turn-InTouch :
      (event : Event L C) (c : Common) (state : States L C)
      → InTouch (c, state)
      → Holds InTouch (turn event c state)
  unfolding turn handle_ctrl_msg with_timer arm_timer
  turn-InTouch (ctrl_msg now (command cmd)) c state h = handle_command-InTouch now c state cmd h
  turn-InTouch (ctrl_msg now (LinkSetControl.config conf)) c state h =
      quietly c (configure conf c) state (configure_to_ctrl conf c) h
  turn-InTouch (link_msg now id msg) c state h = handle_link_msg-InTouch now c state id msg h
  turn-InTouch (timer now) c state h =
      Holds-timer InTouch now c state
        (λ d.
          let c' = with_timer (λ t. d) c in
          handle_timer-InTouch now c' state (quietly c c' state refl h))
        h
  turn-InTouch (debug_cmd cmd) c state h = handle_debug-InTouch cmd c state h

  handle-InTouch :
      (event : Event L C) (c : Common) (state : States L C)
      → InTouch (c, state)
      → Holds InTouch (handle event c state)
  unfolding handle
  handle-InTouch event c state h =
      Holds-settled InTouch (turn event c state) (turn-InTouch event c state h)

  -- If the following holds before any events, in any order, then it holds after them, unless a
  -- handler panics on the way: every message that was given to the controller is of the epoch that
  -- it had heard last before that message; and while there is a connection, or one to go back to,
  -- its epoch is the one that the controller has heard last.
  pub run-InTouch :
      (events : List (Event L C)) (c : Common) (state : States L C)
      → InTouch (c, state)
      → Holds InTouch (run events c state)
  unfolding run
  run-InTouch [] c state h = h
  run-InTouch (event ∷ events) c state h =
      Holds-bind InTouch InTouch (handle event c state) _ (handle-InTouch event c state h)
        (λ r hr. run-InTouch events r.0 r.1 hr)
