-- ===== src/Core/Epochs/Runs.antt =====
-- The epoch of the state over one event and over the loop of src/core.rs.
use link_set.Prelude.{ℕ, List, [], ◌∷◌, arith, ◌≡◌, refl, sym}
use link_set.Epoch.Order.{IsOptEpoch}
use link_set.Links.{LinkOps}
use link_set.Connect.{ConnectorOps}
use link_set.State.{with_timer, Common, Config, States, configure}
use link_set.State.Moves.{connecting_to_disconnected}
use link_set.State.Offline.{
  disconnected_link_msg, disconnected_timer, connecting_link_msg, connecting_timer,
}
use link_set.Core.{
  Event, LinkSetControl, command, ctrl_msg, link_msg, timer, debug_cmd, handle_debug,
  handle_ctrl_msg, handle_command, handle_link_msg, handle_timer, turn, handle, run,
}
use mathlib.Core.Path.{subst}
use link_set.State.Debug.{DebugCommand}
use link_set.State.Debug.Relinked.{relinked, debug-relinked}
use link_set.Core.Holds.{Holds-settled, Holds-timer, Holds, Holds-bind, Holds-map}
use link_set.Core.Epochs.{
  epoch_of, Reaches, Onward, same, disconnected_ctrl_msg-Reaches, connecting_ctrl_msg-Reaches,
  mismatch_ctrl_msg-Reaches, reconnecting_ctrl_msg-Reaches, grace_ctrl_msg-Reaches,
}
use link_set.Core.Epochs.Handlers.{
  mismatch_timer-Reaches, mismatch_link_msg-Reaches, connected_link_msg-Reaches,
  connected_timer-Reaches, connected_ctrl_msg-Reaches, reconnecting_link_msg-Reaches,
  grace_link_msg-Reaches, reconnecting_timer-Reaches, grace_timer-Reaches, IsEvent, AreEvents,
}

module _ {L C : Type 0} ⦃o : LinkOps L⦄ where
  handle_timer-Reaches :
      (now : ℕ) (c : Common) (state : States L C)
      → IsOptEpoch (epoch_of state)
      → Holds (Reaches (epoch_of state)) (handle_timer now c state)
  unfolding handle_timer disconnected_timer connecting_timer connecting_to_disconnected
  handle_timer-Reaches now c (States.disconnected s) h = same s.epoch h
  handle_timer-Reaches now c (States.connecting s) h = same s.epoch h
  handle_timer-Reaches now c (States.epoch_mismatch s) h = mismatch_timer-Reaches now c s h
  handle_timer-Reaches now c (States.connected s) h = connected_timer-Reaches now c s h
  handle_timer-Reaches now c (States.reconnecting s) h = reconnecting_timer-Reaches L now c s h
  handle_timer-Reaches now c (States.grace_period s) h = grace_timer-Reaches L now c s h

module _ {L C : Type 0} ⦃o : LinkOps L⦄ ⦃cc : ConnectorOps C⦄ where
  handle_debug-Reaches :
      (cmd : DebugCommand) (c : Common) (state : States L C)
      → IsOptEpoch (epoch_of state)
      → Holds (Reaches (epoch_of state)) (handle_debug c state cmd)
  unfolding handle_debug
  handle_debug-Reaches cmd c state h =
      rw (debug-relinked cmd state)
        (subst (Onward (epoch_of state)) (sym (kept cmd state)) (same (epoch_of state) h))
    where
      kept :
          (cmd : DebugCommand) (state : States L C) → epoch_of (relinked cmd state) ≡ epoch_of state
      kept cmd (States.disconnected s) = refl
      kept cmd (States.connecting s) = refl
      kept cmd (States.epoch_mismatch s) = refl
      kept cmd (States.connected s) = refl
      kept cmd (States.reconnecting s) = refl
      kept cmd (States.grace_period s) = refl

  -- One event.
  turn-Reaches :
      (event : Event L C) (c : Common) (state : States L C)
      → IsOptEpoch (epoch_of state)
      → IsEvent event
      → Holds (Reaches (epoch_of state)) (turn event c state)
  unfolding turn handle_ctrl_msg handle_command handle_link_msg handle_timer configure
      disconnected_link_msg disconnected_timer connecting_link_msg connecting_timer
      connecting_to_disconnected
  turn-Reaches (ctrl_msg now (LinkSetControl.config (Config.auto_connect b))) c state h m =
      same (epoch_of state) h
  turn-Reaches (ctrl_msg now (LinkSetControl.config (Config.connect_timeout b))) c state h m =
      same (epoch_of state) h
  turn-Reaches (ctrl_msg now (LinkSetControl.config (Config.reconnect_timeout b))) c state h m =
      same (epoch_of state) h
  turn-Reaches (ctrl_msg now (LinkSetControl.config (Config.grace_period b))) c state h m =
      same (epoch_of state) h
  turn-Reaches (ctrl_msg now (command cmd)) c (States.disconnected s) h m =
      disconnected_ctrl_msg-Reaches now c s cmd h
  turn-Reaches (ctrl_msg now (command cmd)) c (States.connecting s) h m =
      connecting_ctrl_msg-Reaches now c s cmd h
  turn-Reaches (ctrl_msg now (command cmd)) c (States.epoch_mismatch s) h m =
      mismatch_ctrl_msg-Reaches c s cmd h
  turn-Reaches (ctrl_msg now (command cmd)) c (States.connected s) h m =
      connected_ctrl_msg-Reaches now c s cmd h
  turn-Reaches (ctrl_msg now (command cmd)) c (States.reconnecting s) h m =
      reconnecting_ctrl_msg-Reaches now c s cmd h
  turn-Reaches (ctrl_msg now (command cmd)) c (States.grace_period s) h m =
      grace_ctrl_msg-Reaches now c s cmd h
  turn-Reaches (link_msg now id msg) c (States.disconnected s) h m = same s.epoch h
  turn-Reaches (link_msg now id msg) c (States.connecting s) h m = same s.epoch h
  turn-Reaches (link_msg now id msg) c (States.epoch_mismatch s) h m =
      mismatch_link_msg-Reaches now c s id msg h m
  turn-Reaches (link_msg now id msg) c (States.connected s) h m =
      connected_link_msg-Reaches now c s id msg h
  turn-Reaches (link_msg now id msg) c (States.reconnecting s) h m =
      reconnecting_link_msg-Reaches L now c s id msg h
  turn-Reaches (link_msg now id msg) c (States.grace_period s) h m =
      grace_link_msg-Reaches L c s id msg h
  turn-Reaches (timer now) c state h m =
      Holds-timer (Reaches (epoch_of state)) now c state
        (λ d. handle_timer-Reaches now (with_timer (λ t. d) c) state h) (same (epoch_of state) h)
  turn-Reaches (debug_cmd cmd) c state h m = handle_debug-Reaches cmd c state h

  handle-Reaches :
      (event : Event L C) (c : Common) (state : States L C)
      → IsOptEpoch (epoch_of state)
      → IsEvent event
      → Holds (Reaches (epoch_of state)) (handle event c state)
  unfolding handle
  handle-Reaches event c state h m =
      Holds-settled (Reaches (epoch_of state)) (turn event c state) (turn-Reaches event c state h m)

  -- After any events whose messages carry epochs in range, in any order, the epoch of the state is
  -- in range and not below the one it had before, unless a handler panics on the way.
  pub run-Reaches :
      (events : List (Event L C)) (c : Common) (state : States L C)
      → IsOptEpoch (epoch_of state)
      → AreEvents events
      → Holds (Reaches (epoch_of state)) (run events c state)
  unfolding run
  run-Reaches [] c state h m = same (epoch_of state) h
  run-Reaches (event ∷ events) c state h m =
      Holds-bind (Reaches (epoch_of state)) (Reaches (epoch_of state)) (handle event c state) _
        (handle-Reaches event c state h m.0)
        (λ r hr.
          Holds-map (Reaches (epoch_of r.1)) (Reaches (epoch_of state)) (run events r.0 r.1)
            (λ q hq. (hq.0, omega arith)) (run-Reaches events r.0 r.1 hr.0 m.1))
