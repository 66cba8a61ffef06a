-- ===== src/Core/Clock/Runs.antt =====
-- The timer over one turn of the loop of src/core.rs.
use mathlib.Core.Option
use link_set.Prelude.{
  ℕ, ◌≤◌, Bool, true, false, Option, none, some, leb, Ensures, Bool-cases, Option-cases, inl, inr,
  if◌then◌else◌,
}
use link_set.Deadline.{Deadline, poll}
use link_set.Links.{LinkOps}
use link_set.Connect.{ConnectorOps}
use link_set.State.{Common, States, Outcome, with_timer}
use link_set.State.Moves.{connecting_to_disconnected}
use link_set.State.{send_ctrl}
use link_set.State.Offline.{
  disconnected_link_msg, disconnected_timer, connecting_link_msg, connecting_timer,
}
use link_set.Core.Holds.{Holds}
use link_set.Core.{
  Event, command, config, ctrl_msg, link_msg, timer, debug_cmd, handle_debug, handle_ctrl_msg,
  handle_command, handle_link_msg, handle_timer, turn, settled,
}
use link_set.Core.Clock.{
  span_max, Fits, FitsConfig, Armed, OnTime, Timely, clear-OnTime, configure-OnTime, after-fits,
}
use link_set.Core.Clock.Commands.{
  disconnected_ctrl_msg-Timely, connecting_ctrl_msg-Timely, mismatch_ctrl_msg-Timely,
  reconnecting_ctrl_msg-Timely, grace_ctrl_msg-Timely,
}
use link_set.Core.Clock.Handlers.{
  mismatch_timer-Timely, mismatch_link_msg-Timely, connected_link_msg-Timely,
  connected_timer-Timely, connected_ctrl_msg-Timely, reconnecting_link_msg-Timely,
  grace_link_msg-Timely, reconnecting_timer-Timely, grace_timer-Timely,
}

abbrev IsPolled : Option (Deadline × Bool) → Type 0
IsPolled r = Ensures (λ (p : Deadline × Bool). Fits p.0.repeat) r

-- Polling does not panic, and keeps the interval.
poll-Fits : (now : ℕ) (d : Deadline) → now ≤ span_max → Fits d.repeat → IsPolled (poll now d)
unfolding poll
poll-Fits now d hn fits = elim (Option-cases d.deadline) [
  | inl unset ↦ rw (unset, poll) fits
  | inr (t, set) ↦ elim (Bool-cases (leb t now)) [
    | inr early ↦ rw (set, early, poll) fits
    | inl due ↦ elim (Option-cases d.repeat) [
      | inl once ↦ rw (set, due, once, poll) (rw once tt)
      | inr (span, again) ↦
          let fits' = rw again at fits in
          rw (set, due, again, after-fits now span hn fits', poll) fits
    ]
  ]
]

module _ {L C : Type 0} where
  -- The clock, when the event comes, and a timeout that it sets leave room.
  abbrev pub IsTimelyEvent : Event L C → Type 0
  IsTimelyEvent (ctrl_msg now (command cmd)) = now ≤ span_max
  IsTimelyEvent (ctrl_msg now (config conf)) = FitsConfig conf
  IsTimelyEvent (link_msg now id msg) = now ≤ span_max
  IsTimelyEvent (timer now) = now ≤ span_max
  IsTimelyEvent (debug_cmd cmd) = Unit

  -- A turn whose handler does not panic, nor in setting the timer.
  pub settled-Ensures :
      (P : Common × States L C → Type 0) (r : Outcome L C)
      → Ensures P r
      → Holds Timely r
      → Ensures (λ q. P q × Timely q) (settled r)
  unfolding settled
  settled-Ensures P none h m = absurd h
  settled-Ensures P (some (c, state)) h m = armed c.timer m.0
    where
      armed :
          (t : Option Deadline)
          → Armed t
          → Ensures (λ q. P q × Timely q) (elim t [ none ↦ none | some d ↦ some (c, state) ])
      armed none a = absurd a
      armed (some d) a = (h, m)

module _ {L C : Type 0} ⦃o : LinkOps L⦄ where
  handle_timer-Timely :
      (now : ℕ) (c : Common) (state : States L C)
      → now ≤ span_max
      → OnTime c
      → Holds Timely (handle_timer now c state)
  unfolding handle_timer disconnected_timer connecting_timer connecting_to_disconnected send_ctrl
  handle_timer-Timely now c (States.disconnected s) hn h = clear-OnTime c h
  handle_timer-Timely now c (States.connecting s) hn h = clear-OnTime _ (clear-OnTime c h)
  handle_timer-Timely now c (States.epoch_mismatch s) hn h = mismatch_timer-Timely now c s hn h
  handle_timer-Timely now c (States.connected s) hn h = connected_timer-Timely now c s hn h
  handle_timer-Timely now c (States.reconnecting s) hn h = reconnecting_timer-Timely L now c s hn h
  handle_timer-Timely now c (States.grace_period s) hn h = grace_timer-Timely L now c s hn h

Armed-kept :
    (t : Option Deadline) (d : Deadline) → Armed t → Fits d.repeat → Armed (Option.map (λ t. d) t)
Armed-kept none d h fits = h
Armed-kept (some t) d h fits = fits

module _ {L C : Type 0} ⦃o : LinkOps L⦄ ⦃cc : ConnectorOps C⦄ where
  -- The timer fires, or is not ready; polling it has a result.
  pub turn-timer :
      (P : Outcome L C → Type 0) (now : ℕ) (c : Common) (state : States L C)
      → now ≤ span_max
      → OnTime c
      → ((d : Deadline)
          → OnTime (with_timer (λ t. d) c)
          → P (handle_timer now (with_timer (λ t. d) c) state))
      → P (some (c, state))
      → P (turn (timer now) c state)
  unfolding turn
  turn-timer P now c state hn h fires early = armed c.timer h.0
    where
      armed :
          (t : Option Deadline)
          → Armed t
          → P (elim t [
            | none ↦ none
            | some t' ↦ elim (poll now t') [
              | none ↦ none
              | some (deadline, ready) ↦
                  if ready
                  then handle_timer now (with_timer (λ d. deadline) c) state
                  else some (c, state)
            ]
          ])
      armed none a = absurd a
      armed (some d) a = polled (poll now d) (poll-Fits now d hn a)
        where
          polled :
              (r : Option (Deadline × Bool))
              → IsPolled r
              → P (elim r [
                | none ↦ none
                | some (deadline, ready) ↦
                    if ready
                    then handle_timer now (with_timer (λ d. deadline) c) state
                    else some (c, state)
              ])
          polled none fits = absurd fits
          polled (some (d', true)) fits =
              fires d' (unfold with_timer in (Armed-kept c.timer d' h.0 fits, h.1, h.2, h.3))
          polled (some (d', false)) fits = early

  pub turn-Timely :
      (event : Event L C) (c : Common) (state : States L C)
      → IsTimelyEvent event
      → OnTime c
      → Holds Timely (turn event c state)
  unfolding turn handle_ctrl_msg handle_command handle_link_msg handle_debug disconnected_link_msg
      connecting_link_msg
  turn-Timely (ctrl_msg now (config conf)) c state hn h = configure-OnTime conf c hn h
  turn-Timely (ctrl_msg now (command cmd)) c (States.disconnected s) hn h =
      disconnected_ctrl_msg-Timely now c s cmd hn h
  turn-Timely (ctrl_msg now (command cmd)) c (States.connecting s) hn h =
      connecting_ctrl_msg-Timely now c s cmd hn h
  turn-Timely (ctrl_msg now (command cmd)) c (States.epoch_mismatch s) hn h =
      mismatch_ctrl_msg-Timely c s cmd h
  turn-Timely (ctrl_msg now (command cmd)) c (States.connected s) hn h =
      connected_ctrl_msg-Timely now c s cmd hn h
  turn-Timely (ctrl_msg now (command cmd)) c (States.reconnecting s) hn h =
      reconnecting_ctrl_msg-Timely now c s cmd hn h
  turn-Timely (ctrl_msg now (command cmd)) c (States.grace_period s) hn h =
      grace_ctrl_msg-Timely now c s cmd hn h
  turn-Timely (link_msg now id msg) c (States.disconnected s) hn h = h
  turn-Timely (link_msg now id msg) c (States.connecting s) hn h = h
  turn-Timely (link_msg now id msg) c (States.epoch_mismatch s) hn h =
      mismatch_link_msg-Timely now c s id msg hn h
  turn-Timely (link_msg now id msg) c (States.connected s) hn h =
      connected_link_msg-Timely now c s id msg hn h
  turn-Timely (link_msg now id msg) c (States.reconnecting s) hn h =
      reconnecting_link_msg-Timely L now c s id msg hn h
  turn-Timely (link_msg now id msg) c (States.grace_period s) hn h =
      grace_link_msg-Timely L c s id msg h
  turn-Timely (timer now) c state hn h =
      turn-timer (Holds Timely) now c state hn h
        (λ d h'. handle_timer-Timely now (with_timer (λ t. d) c) state hn h') h
  turn-Timely (debug_cmd cmd) c state hn h = h
