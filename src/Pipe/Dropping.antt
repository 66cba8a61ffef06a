-- ===== src/Pipe/Dropping.antt =====
-- What becomes of a message if the calls of `read` are dropped while they sleep.
use link_set.Prelude.{
  ℕ, ◌+◌, ◌<◌, max, List, ◌∷◌, false, Option, none, some, ◌≡◌, refl, ◌∙◌, leb, arith, lt→leb,
  if◌then◌else◌,
}
use link_set.Deadline.{Deadline, is_elapsed}
use link_set.Pipe.{
  Stamped, PipeLinkReader, PipeLinkResult, ok, err, closed, close, read, read_peeked, read_select,
  read_rx, read_taken, wakes,
}

-- A reader that goes on to its channel, where `msg` comes first.
pub record Awaits (msg : List ℕ) (sent : ℕ) (rest : List Stamped) (delay now : ℕ)
    (r : PipeLinkReader) : Type 0 where
  pub none_peeked : r.peeked ≡ none
  pub live : r.canceled ≡ false
  pub unexpired : is_elapsed now r.expiration ≡ false
  pub first : r.rx ≡ (msg, sent) ∷ rest
  pub delayed : r.latency ≡ some delay

module _ (msg : List ℕ) (sent : ℕ) (rest : List Stamped) (delay now until : ℕ) (r : PipeLinkReader)
    (h : Awaits msg sent rest delay now r) where
  read_first : read now until r ≡ read_taken now until (msg, sent) rest r
  unfolding read read_select read_rx
  read_first = ground (arith, h.none_peeked, h.live, h.unexpired, h.first)

  read_put_by :
      until < sent + delay
      → read now until r ≡ (none, record r { rx = rest; peeked = some (msg, sent) })
  unfolding read_taken wakes
  read_put_by early =
      let asleep = lt→leb (max now (sent + delay)) until (omega arith) in
      read_first ∙ ground (arith, h.delayed, asleep)

-- The answer of a call that goes on with a message put by.
abbrev pub resumed : List ℕ → ℕ → ℕ → Deadline → Option (PipeLinkResult (List ℕ))
resumed msg wake until expiration =
    if leb wake until
    then if is_elapsed wake expiration then some (err closed) else some (ok msg)
    else none

-- A message with a delay is next for a reader that is neither cancelled nor expired, and a call of
-- `read` is dropped before the delay is over. The next call gives the message, if it lasts until
-- the delay is over and the reader has not expired then. In any case the message is then gone from
-- the reader: so it is lost if that call is dropped as well.
pub read_twice :
    (msg : List ℕ) (sent : ℕ) (rest : List Stamped) (delay now until now' until' : ℕ)
    (r : PipeLinkReader)
    → Awaits msg sent rest delay now r
    → until < sent + delay
    → ((read now' until' (read now until r).1).0
        ≡ resumed msg (max now' (sent + delay)) until' r.expiration)
      × ((read now' until' (read now until r).1).1.peeked ≡ none)
      × ((read now' until' (read now until r).1).1.rx ≡ rest)
read_twice msg sent rest delay now until now' until' r h early =
    rw (read_put_by msg sent rest delay now until r h early)
      (again (record r { rx = rest; peeked = some (msg, sent) }) refl refl refl h.delayed)
  where
    again :
        (q : PipeLinkReader)
        → q.peeked ≡ some (msg, sent)
        → q.rx ≡ rest
        → q.expiration ≡ r.expiration
        → q.latency ≡ some delay
        → ((read now' until' q).0 ≡ resumed msg (max now' (sent + delay)) until' r.expiration)
          × ((read now' until' q).1.peeked ≡ none)
          × ((read now' until' q).1.rx ≡ rest)
    again q a b c d = unfold read read_peeked wakes close in ground (arith, a, b, c, d)
