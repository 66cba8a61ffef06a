-- ===== src/Pipe.antt =====
-- src/link_impls/pipe_link.rs: sending into an in-memory pipe, and reading from it. One call of `read`
-- is first polled at the time `now` and dropped behind the time `until`, if it has no answer by then;
-- a call that waits without having taken a message is as good as a new one, later. Whether a message
-- gets through, which the package `rand` decides, is an argument of `send`. A channel that is full
-- only makes its sender wait.
pub mod Dropping
pub mod Connecting
pub mod Hub
use link_set.Prelude.{
  ℕ, ◌+◌, max, List, [], ◌∷◌, ◌++◌, Bool, true, false, ◌&&◌, ◌||◌, Option, none, some, leb,
  if◌then◌else◌,
}
use link_set.Deadline.{Deadline, is_elapsed, has_deadline, poll}

pub data PipeLinkError : Type 0 where
  receiver_taken : PipeLinkError
  closed : PipeLinkError

pub data PipeLinkResult (T : Type 0) : Type 0 where
  err : PipeLinkError → PipeLinkResult T
  ok : T → PipeLinkResult T

-- A message and the time at which it was sent.
abbrev pub Stamped : Type 0
Stamped = List ℕ × ℕ

-- `canceled`: the canceler has sent, or is gone. `sender_gone` and `rx_closed` are of the channel.
pub record PipeLinkReader : Type 0 where
  pub rx : List Stamped
  pub sender_gone : Bool
  pub rx_closed : Bool
  pub peeked : Option Stamped
  pub expiration : Deadline
  pub latency : Option ℕ
  pub canceled : Bool

-- An answer of `read`, or none where it was dropped before, and the reader afterwards.
abbrev pub Answer : Type 0
Answer = Option (PipeLinkResult (List ℕ)) × PipeLinkReader

-- `send` at one end is felt by the reader at the other.
unfoldable pub send :
    Bool → ℕ → List ℕ → PipeLinkReader → PipeLinkResult (Unit {0}) × PipeLinkReader
send reliability_success now msg r =
    if reliability_success
    then if r.rx_closed
      then (err closed, r)
      else (ok tt, record r { rx = r.rx ++ ((msg, now) ∷ []) })
    else (ok tt, r)

unfoldable pub cancel : PipeLinkReader → PipeLinkReader
cancel r = record r { canceled = true }

-- The end of `sleep_until(timestamp + latency)`.
unfoldable pub wakes : ℕ → ℕ → Option ℕ → ℕ
wakes now timestamp none = now
wakes now timestamp (some latency) = max now (timestamp + latency)

unfoldable pub close : PipeLinkReader → Answer
close r = (some (err closed), record r { rx_closed = true })

-- A message that an earlier call had taken off the channel. It is no longer `peeked` while the call
-- sleeps.
unfoldable pub read_peeked : ℕ → ℕ → Stamped → PipeLinkReader → Answer
unfolding wakes close
read_peeked now until (msg, timestamp) r =
    let r' = record r { peeked = none } in
    let wake = wakes now timestamp r.latency in
    if leb wake until
    then if is_elapsed wake r.expiration then close r' else (some (ok msg), r')
    else (none, r')

-- A message taken off the channel is `peeked` while the call sleeps.
unfoldable pub read_taken : ℕ → ℕ → Stamped → List Stamped → PipeLinkReader → Answer
unfolding wakes
read_taken now until (msg, timestamp) rest r =
    if leb (wakes now timestamp r.latency) until
    then (some (ok msg), record r { rx = rest; peeked = none })
    else (none, record r { rx = rest; peeked = some (msg, timestamp) })

-- The last arm of the `select!`.
unfoldable pub read_rx : ℕ → ℕ → PipeLinkReader → Answer
unfolding read_taken
read_rx now until r = elim r.rx [
  | [] ↦ if r.sender_gone || r.rx_closed then (some (err closed), r) else (none, r)
  | stamped ∷ rest ↦ read_taken now until stamped rest r
]

-- The expiration after it was polled. One made by `new_deadline` does not repeat, so that `poll` does
-- not panic.
unfoldable pub rung : ℕ → Deadline → Deadline
unfolding poll
rung now d = elim (poll now d) [ none ↦ d | some polled ↦ polled.0 ]

-- The `select!` is biased: the canceler, the expiration, and then the channel.
unfoldable pub read_select : ℕ → ℕ → PipeLinkReader → Answer
unfolding close read_rx rung
read_select now until r =
    if r.canceled
    then close r
    else if has_deadline r.expiration && is_elapsed now r.expiration
    then close (record r { expiration = rung now r.expiration })
    else read_rx now until r

unfoldable pub read : ℕ → ℕ → PipeLinkReader → Answer
unfolding read_peeked read_select
read now until r = elim r.peeked [
  | some stamped ↦ read_peeked now until stamped r
  | none ↦ read_select now until r
]
