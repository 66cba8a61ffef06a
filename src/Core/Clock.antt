-- ===== src/Core/Clock.antt =====
-- The timer of src/deadline.rs in the core: setting it does not panic as long as the clock and the
-- timeouts leave room.
pub mod Commands
pub mod Handlers
pub mod Runs
use mathlib.Core.Option
use link_set.Prelude.{
  ℕ, ◌+◌, ◌≤◌, List, [], ◌∷◌, Bool, true, false, Option, none, some, ◌≡◌, refl, leb, arith, le→ltb,
  if◌then◌else◌, Bool-cases, inl, inr,
}
use link_set.Protocol.{Result-cases}
use link_set.Deadline.{
  Deadline, instant_max, after, clear, clear_repeat, modify_deadline, modify_deadline_from_now,
  modify_repeat,
}
use link_set.Links.{LinkOps, overhead}
use link_set.State.{
  Common, Config, States, LinkSetMessageInner, send_ctrl, set_active, with_timer, arm_timer,
  configure, wrap_link,
}
use link_set.State.Moves.{
  connected_timer_interval, epoch_mismatch_timer_interval, wait_for, determine_timer, now_connected,
}
use link_set.State.Online.{hand_over}

-- A quarter of the range of the clock, 73 billion years: the six latencies of a link add up to less
-- than a `Duration` can hold as well.
abbrev pub span_max : ℕ
span_max = 2_305_843_009_213_693_951_999_999_999

abbrev pub Fits : Option ℕ → Type 0
Fits none = Unit
Fits (some span) = span ≤ span_max

abbrev pub FitsConfig : Config → Type 0
FitsConfig (Config.auto_connect b) = Unit
FitsConfig (Config.connect_timeout t) = Fits t
FitsConfig (Config.reconnect_timeout t) = Fits t
FitsConfig (Config.grace_period t) = Fits t

abbrev pub Armed : Option Deadline → Type 0
Armed none = ⊥
Armed (some d) = Fits d.repeat

-- The timer has been set without a panic, and what it may be set to next leaves room.
abbrev pub OnTime : Common → Type 0
OnTime c =
    Armed c.timer
    × Fits c.connecting_timeout
    × Fits c.reconnecting_timeout
    × Fits c.grace_period_timeout

module _ {L C : Type 0} where
  abbrev pub Timely : Common × States L C → Type 0
  Timely r = OnTime r.0

  pub Timely-if :
      (b : Bool) (x y : Common × States L C) → Timely x → Timely y → Timely (if b then x else y)
  Timely-if true x y hx hy = hx
  Timely-if false x y hx hy = hy

pub after-fits :
    (now span : ℕ) → now ≤ span_max → span ≤ span_max → after now span ≡ some (now + span)
unfolding after
after-fits now span hn hs = rw (le→ltb instant_max (now + span) (omega arith)) refl

Armed-clear : (t : Option Deadline) → Armed t → Armed (Option.map clear t)
unfolding clear
Armed-clear none h = h
Armed-clear (some d) h = tt

Armed-deadline :
    (now span : ℕ) (t : Option Deadline)
    → now ≤ span_max
    → span ≤ span_max
    → Armed t
    → Armed (elim t [ none ↦ none | some d ↦ modify_deadline_from_now now span d ])
unfolding modify_deadline_from_now modify_deadline
Armed-deadline now span none hn hs h = h
Armed-deadline now span (some d) hn hs h = rw (after-fits now span hn hs) h

Armed-deadline_once :
    (now span : ℕ) (t : Option Deadline)
    → now ≤ span_max
    → span ≤ span_max
    → Armed t
    → Armed (elim t [ none ↦ none | some d ↦ modify_deadline_from_now now span (clear_repeat d) ])
unfolding modify_deadline_from_now modify_deadline clear_repeat
Armed-deadline_once now span none hn hs h = h
Armed-deadline_once now span (some d) hn hs h = rw (after-fits now span hn hs) tt

repeat_fits :
    (now span : ℕ) (d : Deadline)
    → now ≤ span_max
    → span ≤ span_max
    → Armed (modify_repeat now span d)
unfolding modify_repeat
repeat_fits now span d hn hs = fits d.deadline
  where
    fits :
        (deadline : Option ℕ)
        → Armed (
            Option.map
              (λ t. record { deadline = some t; repeat = some span })
              (elim deadline [ none ↦ after now span | some t ↦ some t ]))
    fits none = rw (after-fits now span hn hs) hs
    fits (some t) = hs

Armed-repeat :
    (now span : ℕ) (f : Deadline → Deadline) (t : Option Deadline)
    → now ≤ span_max
    → span ≤ span_max
    → Armed t
    → Armed (elim t [ none ↦ none | some d ↦ modify_repeat now span (f d) ])
Armed-repeat now span f none hn hs h = h
Armed-repeat now span f (some d) hn hs h = repeat_fits now span (f d) hn hs

pub clear-OnTime : (c : Common) → OnTime c → OnTime (with_timer clear c)
unfolding with_timer
clear-OnTime c h = (Armed-clear c.timer h.0, h.1, h.2, h.3)

pub determine_timer-OnTime :
    (now : ℕ) (c : Common) → now ≤ span_max → OnTime c → OnTime (determine_timer now c)
unfolding determine_timer arm_timer with_timer
determine_timer-OnTime now c hn h = waits c.connecting_timeout h.1
  where
    waits :
        (timeout : Option ℕ)
        → Fits timeout
        → OnTime (elim timeout [
          | some span ↦ arm_timer (λ t. modify_deadline_from_now now span (clear_repeat t)) c
          | none ↦ with_timer clear c
        ])
    waits none fits = (Armed-clear c.timer h.0, h.1, h.2, h.3)
    waits (some span) fits = (Armed-deadline_once now span c.timer hn fits h.0, h.1, h.2, h.3)

pub wait_for-OnTime :
    (now : ℕ) (timeout : Option ℕ) (c : Common)
    → now ≤ span_max
    → Fits timeout
    → OnTime c
    → OnTime (wait_for now timeout c)
unfolding arm_timer with_timer
wait_for-OnTime now none c hn fits h = (Armed-clear c.timer h.0, h.1, h.2, h.3)
wait_for-OnTime now (some span) c hn fits h =
    (Armed-deadline now span c.timer hn fits h.0, h.1, h.2, h.3)

pub repeat-OnTime :
    (now : ℕ) (c : Common)
    → now ≤ span_max
    → OnTime c
    → OnTime (arm_timer (modify_repeat now epoch_mismatch_timer_interval) c)
unfolding arm_timer
repeat-OnTime now c hn h = (
  Armed-repeat now epoch_mismatch_timer_interval (λ d. d) c.timer hn (omega arith) h.0,
  h.1,
  h.2,
  h.3,
)

pub now_connected-OnTime :
    (now : ℕ) (c : Common) → now ≤ span_max → OnTime c → OnTime (now_connected now c)
unfolding arm_timer set_active
now_connected-OnTime now c hn h =
    (Armed-repeat now connected_timer_interval clear c.timer hn (omega arith) h.0, h.1, h.2, h.3)

pub hand_over-OnTime :
    (e : ℕ) (ms : List (List ℕ)) (c : Common) → OnTime c → OnTime (hand_over e ms c)
unfolding hand_over send_ctrl
hand_over-OnTime e [] c h = h
hand_over-OnTime e (m ∷ ms) c h =
    hand_over-OnTime e ms (send_ctrl (LinkSetMessageInner.message m e) c) h

pub configure-OnTime :
    (config : Config) (c : Common) → FitsConfig config → OnTime c → OnTime (configure config c)
unfolding configure
configure-OnTime (Config.auto_connect b) c fits h = h
configure-OnTime (Config.connect_timeout t) c fits h = (h.0, fits, h.2, h.3)
configure-OnTime (Config.reconnect_timeout t) c fits h = (h.0, h.1, fits, h.3)
configure-OnTime (Config.grace_period t) c fits h = (h.0, h.1, h.2, fits)

module _ {L : Type 0} ⦃o : LinkOps L⦄ where
  pub wrap_link-OnTime : (l : L) (c : Common) → OnTime c → OnTime (wrap_link l c).0
  unfolding wrap_link
  wrap_link-OnTime l c h = elim (Bool-cases (leb (o.max_size l) overhead)) [
    | inl small ↦ rw small h
    | inr enough ↦ elim (Result-cases (o.take_reader l)) [
      | inl (l', taken) ↦ rw (enough, taken) h
      | inr (e, failed) ↦ rw (enough, failed) h
    ]
  ]
