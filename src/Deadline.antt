-- ===== src/Deadline.antt =====
-- src/deadline.rs: a timer that fires once or again and again. Times are numbers on the clock of
-- `tokio::time`, in nanoseconds; a function that reads the clock takes the time it reads, and `none`
-- is the panic of adding a duration to it that leads beyond the last `Instant`.
use mathlib.Core.Option
use link_set.Prelude.{ℕ, ◌+◌, Option, none, some, Bool, true, false, leb, ltb, if◌then◌else◌}

pub record Deadline : Type 0 where
  -- when the sleep ends
  pub deadline : Option ℕ
  pub repeat : Option ℕ

-- The last `Instant` of a 64-bit Unix system: 2^63 seconds, less a nanosecond.
abbrev pub instant_max : ℕ
instant_max = 9_223_372_036_854_775_807_999_999_999

-- `Instant::now() + duration`
unfoldable pub after : ℕ → ℕ → Option ℕ
after now duration = if ltb instant_max (now + duration) then none else some (now + duration)

abbrev pub new : Deadline
new = record { deadline = none; repeat = none }

unfoldable pub new_deadline : ℕ → Deadline
new_deadline deadline = record { deadline = some deadline; repeat = none }

unfoldable pub new_repeat : ℕ → ℕ → Option Deadline
unfolding after
new_repeat now interval =
    Option.map (λ t. record { deadline = some t; repeat = some interval }) (after now interval)

-- `reset` of the sleep that is there, or a new one: either ends at the given time.
unfoldable pub modify_deadline : ℕ → Deadline → Deadline
modify_deadline deadline d = record d { deadline = some deadline }

unfoldable pub modify_deadline_from_now : ℕ → ℕ → Deadline → Option Deadline
unfolding modify_deadline after
modify_deadline_from_now now deadline d = Option.map (λ t. modify_deadline t d) (after now deadline)

abbrev pub is_some {ℓ} : {A : Type ℓ} → Option A → Bool
is_some none = false
is_some (some a) = true

unfoldable pub has_deadline : Deadline → Bool
has_deadline d = is_some d.deadline

unfoldable pub clear_deadline : Deadline → Deadline
clear_deadline d = record d { deadline = none }

unfoldable pub modify_repeat : ℕ → ℕ → Deadline → Option Deadline
unfolding after
modify_repeat now repeat d =
    Option.map (λ t. record { deadline = some t; repeat = some repeat })
      (elim d.deadline [ none ↦ after now repeat | some t ↦ some t ])

unfoldable pub has_repeat : Deadline → Bool
has_repeat d = is_some d.repeat

unfoldable pub clear_repeat : Deadline → Deadline
clear_repeat d = record d { repeat = none }

unfoldable pub clear : Deadline → Deadline
clear d = record { deadline = none; repeat = none }

-- `Sleep::is_elapsed`: the time has come.
unfoldable pub is_elapsed : ℕ → Deadline → Bool
is_elapsed now d = elim d.deadline [ none ↦ false | some t ↦ leb t now ]

-- `poll`: the timer afterwards, and whether it is ready.
unfoldable pub poll : ℕ → Deadline → Option (Deadline × Bool)
unfolding after
poll now d = elim d.deadline [
  | none ↦ some (d, false)
  | some t ↦
      if leb t now
      then elim d.repeat [
        | none ↦ some (record d { deadline = none }, true)
        | some interval ↦
            Option.map (λ t. (record d { deadline = some t }, true)) (after now interval)
      ]
      else some (d, false)
]
