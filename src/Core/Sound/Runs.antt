-- ===== src/Core/Sound/Runs.antt =====
-- The loop of src/core.rs does not panic.
use link_set.Prelude.{arith, ℕ, List, [], ◌∷◌, if◌then◌else◌, All, Ensures, Ensures-bind}
use link_set.Links.{LinkOps, no_links, ping_all, upkeep}
use link_set.Connect.{ConnectorOps}
use link_set.State.{new_common, new_state, Common, with_timer, configure, States, EpochMismatch}
use link_set.State.Moves.{
  connecting_to_disconnected, mismatch_to_connecting, mismatch_to_disconnected,
}
use link_set.State.Offline.{
  disconnected_link_msg, disconnected_timer, connecting_link_msg, connecting_timer,
}
use link_set.State.Mismatch.{mismatch_timer}
use link_set.State.Debug.{DebugCommand}
use link_set.State.Debug.Relinked.{relinked, debug-relinked}
use link_set.Core.{
  Event, command, config, ctrl_msg, link_msg, timer, debug_cmd, handle_debug, handle_ctrl_msg,
  handle_command, handle_link_msg, handle_timer, turn, handle, run,
}
use link_set.Core.Clock.{Timely}
use link_set.Core.Clock.Runs.{IsTimelyEvent, settled-Ensures, turn-timer, turn-Timely}
use link_set.Core.Sound.{Sound, Sound-if}
use link_set.Core.Sound.Commands.{
  disconnected_ctrl_msg-Sound, connecting_ctrl_msg-Sound, mismatch_ctrl_msg-Sound,
  connected_ctrl_msg-Sound, reconnecting_ctrl_msg-Sound, grace_ctrl_msg-Sound,
}
use link_set.Core.Sound.Handlers.{
  IsSafe, mismatch_link_msg-Sound, connected_link_msg-Sound, connected_timer-Sound,
  reconnecting_link_msg-Sound, grace_link_msg-Sound, reconnecting_timer-Sound, grace_timer-Sound,
}

module _ {L C : Type 0} where
  -- An event that no handler panics on.
  abbrev pub IsSafeEvent : Event L C → Type 0
  IsSafeEvent (ctrl_msg now msg) = IsTimelyEvent (ctrl_msg now msg)
  IsSafeEvent (link_msg now id msg) =
      IsTimelyEvent {L = L} {C = C} (link_msg now id msg) × IsSafe msg
  IsSafeEvent (timer now) = IsTimelyEvent {L = L} {C = C} (timer now)
  IsSafeEvent (debug_cmd cmd) = Unit

  is_timely : (event : Event L C) → IsSafeEvent event → IsTimelyEvent event
  is_timely (ctrl_msg now msg) safe = safe
  is_timely (link_msg now id msg) safe = safe.0
  is_timely (timer now) safe = safe
  is_timely (debug_cmd cmd) safe = safe

  -- The messages can be cut and given out, and the timer is set.
  abbrev pub Steady : Common × States L C → Type 0
  Steady r = Sound r × Timely r

  -- What the states share does not matter.
  shared : (c c' : Common) (state : States L C) → Sound (c, state) → Sound (c', state)
  shared c c' (States.disconnected s) h = h
  shared c c' (States.connecting s) h = h
  shared c c' (States.epoch_mismatch s) h = h
  shared c c' (States.connected s) h = h
  shared c c' (States.reconnecting s) h = h
  shared c c' (States.grace_period s) h = h

module _ {L C : Type 0} ⦃o : LinkOps L⦄ where
  mismatch_timer-Sound :
      (now : ℕ) (c : Common) (s : EpochMismatch L C) → Sound (mismatch_timer now c s)
  unfolding mismatch_timer mismatch_to_connecting mismatch_to_disconnected
  mismatch_timer-Sound now c s =
      let s' = record s { links = ping_all now (upkeep s.links) } in
      let leaves : Common × States L C =
        if c.auto_connect then mismatch_to_connecting now c s' else mismatch_to_disconnected c s' in
      Sound-if (no_links s'.links) leaves _
        (Sound-if c.auto_connect (mismatch_to_connecting now c s') (mismatch_to_disconnected c s')
          tt tt)
        tt

  handle_timer-Sound :
      (now : ℕ) (c : Common) (state : States L C)
      → Sound (c, state)
      → Ensures Sound (handle_timer now c state)
  unfolding handle_timer disconnected_timer connecting_timer connecting_to_disconnected
  handle_timer-Sound now c (States.disconnected s) h = tt
  handle_timer-Sound now c (States.connecting s) h = tt
  handle_timer-Sound now c (States.epoch_mismatch s) h = mismatch_timer-Sound now c s
  handle_timer-Sound now c (States.connected s) h = connected_timer-Sound now c s h
  handle_timer-Sound now c (States.reconnecting s) h = reconnecting_timer-Sound L now c s
  handle_timer-Sound now c (States.grace_period s) h = grace_timer-Sound L now c s

module _ {L C : Type 0} ⦃o : LinkOps L⦄ ⦃cc : ConnectorOps C⦄ where
  handle_debug-Sound :
      (cmd : DebugCommand) (c : Common) (state : States L C)
      → Sound (c, state)
      → Ensures Sound (handle_debug c state cmd)
  unfolding handle_debug
  handle_debug-Sound cmd c state h = rw (debug-relinked cmd state) (sound cmd c state h)
    where
      sound :
          (cmd : DebugCommand) (c : Common) (state : States L C)
          → Sound (c, state)
          → Sound (c, relinked cmd state)
      sound cmd c (States.disconnected s) h = h
      sound cmd c (States.connecting s) h = h
      sound cmd c (States.epoch_mismatch s) h = h
      sound cmd c (States.connected s) h = h
      sound cmd c (States.reconnecting s) h = h
      sound cmd c (States.grace_period s) h = h

  turn-Sound :
      (event : Event L C) (c : Common) (state : States L C)
      → IsSafeEvent event
      → Steady (c, state)
      → Ensures Sound (turn event c state)
  unfolding turn handle_ctrl_msg handle_command handle_link_msg disconnected_link_msg
      connecting_link_msg
  turn-Sound (ctrl_msg now (config conf)) c state safe h = shared c (configure conf c) state h.0
  turn-Sound (ctrl_msg now (command cmd)) c (States.disconnected s) safe h =
      disconnected_ctrl_msg-Sound now c s cmd
  turn-Sound (ctrl_msg now (command cmd)) c (States.connecting s) safe h =
      connecting_ctrl_msg-Sound now c s cmd
  turn-Sound (ctrl_msg now (command cmd)) c (States.epoch_mismatch s) safe h =
      mismatch_ctrl_msg-Sound c s cmd
  turn-Sound (ctrl_msg now (command cmd)) c (States.connected s) safe h =
      connected_ctrl_msg-Sound now c s cmd h.0
  turn-Sound (ctrl_msg now (command cmd)) c (States.reconnecting s) safe h =
      reconnecting_ctrl_msg-Sound now c s cmd h.0
  turn-Sound (ctrl_msg now (command cmd)) c (States.grace_period s) safe h =
      grace_ctrl_msg-Sound now c s cmd h.0
  turn-Sound (link_msg now id msg) c (States.disconnected s) safe h = tt
  turn-Sound (link_msg now id msg) c (States.connecting s) safe h = tt
  turn-Sound (link_msg now id msg) c (States.epoch_mismatch s) safe h =
      mismatch_link_msg-Sound now c s id msg
  turn-Sound (link_msg now id msg) c (States.connected s) safe h =
      connected_link_msg-Sound now c s id msg safe.1 h.0
  turn-Sound (link_msg now id msg) c (States.reconnecting s) safe h =
      reconnecting_link_msg-Sound L now c s id msg safe.1 h.0
  turn-Sound (link_msg now id msg) c (States.grace_period s) safe h =
      grace_link_msg-Sound L c s id msg safe.1 h.0
  turn-Sound (timer now) c state safe h =
      turn-timer (Ensures Sound) now c state safe h.1
        (λ d h'.
          let c' = with_timer (λ t. d) c in handle_timer-Sound now c' state (shared c c' state h.0))
        h.0
  turn-Sound (debug_cmd cmd) c state safe h = handle_debug-Sound cmd c state h.0

  pub handle-Steady :
      (event : Event L C) (c : Common) (state : States L C)
      → IsSafeEvent event
      → Steady (c, state)
      → Ensures Steady (handle event c state)
  unfolding handle
  handle-Steady event c state safe h =
      settled-Ensures Sound (turn event c state) (turn-Sound event c state safe h)
        (turn-Timely event c state (is_timely event safe) h.1)

  -- From a state whose messages can be cut and given out and whose timer is set, as the first state
  -- is, no events make the core panic, in any order, as long as the slices among them are of messages
  -- that are not empty, that a `Vec` can hold and whose end fits 64 bits, and neither the clock nor a
  -- timeout is beyond 73 billion years; and the state is such a state again.
  pub run-Sound :
      (events : List (Event L C)) (c : Common) (state : States L C)
      → All IsSafeEvent events
      → Steady (c, state)
      → Ensures Steady (run events c state)
  unfolding run
  run-Sound [] c state safe h = h
  run-Sound (event ∷ events) c state safe h =
      Ensures-bind Steady Steady (handle event c state) _ (handle-Steady event c state safe.0 h)
        (λ r steady. run-Sound events r.0 r.1 safe.1 steady)

-- The first state.
new-Steady : (L C : Type 0) → Steady (new_common, new_state {L = L} {C = C})
unfolding new_common new_state
new-Steady L C = (tt, (tt, omega arith, omega arith, omega arith))
