-- ===== src/Connect/Attempts.antt =====
-- `create_task` of src/connector_manager.rs: a task tries to connect to its address, over and over
-- while `repeat` is set, and otherwise once for each permit of the semaphore. What happens to a
-- task, in order, is a list of events; an event that its phase does not wait for changes nothing.
pub mod Rounds
use mathlib.Core.Path.{subst}
use link_set.Prelude.{
  ℕ, ◌+◌, ◌-◌, ◌≤◌, List, [], ◌∷◌, ◌++◌, Bool, true, false, ◌≡◌, refl, ap, length, All, arith,
  if◌then◌else◌, length-append, ◌==◌,
}

-- The loop's top, a running `connect` with or without a permit, the sleep of five seconds, and the
-- end of the loop.
pub data Phase : Type 0 where
  choosing : Phase
  connecting : Bool → Phase
  sleeping : Phase
  ended : Phase

pub data TaskEvent (L : Type 0) : Type 0 where
  -- the task runs at the loop's top
  go : TaskEvent L
  -- `connect` returns a link, and whether the core takes it; or an error
  link_up : L → Bool → TaskEvent L
  fail : TaskEvent L
  -- the sleep is over
  wake : TaskEvent L
  -- the address is changed from outside, or dropped
  set_repeat : Bool → TaskEvent L
  add_permits : ℕ → TaskEvent L
  drop_address : TaskEvent L

-- `links` are those that were sent by the command `AddLink`.
pub record Task (L : Type 0) : Type 0 where
  pub repeat : Bool
  pub permits : ℕ
  pub phase : Phase
  pub links : List L

-- The permit of a running attempt; one without a permit is only made under `repeat`.
abbrev held : Phase → ℕ
held choosing = 0
held (connecting true) = 1
held (connecting false) = 0
held sleeping = 0
held ended = 0

abbrev HasPermit : Phase → Type 0
HasPermit choosing = Unit
HasPermit (connecting true) = Unit
HasPermit (connecting false) = ⊥
HasPermit sleeping = Unit
HasPermit ended = Unit

module _ {L : Type 0} where
  unfoldable pub create_task : Bool → ℕ → Task L
  create_task repeat permits = record {
    repeat = repeat;
    permits = permits;
    phase = choosing;
    links = [];
  }

  -- Without `repeat` it waits for a permit, and holds it.
  unfoldable pub choose : Task L → Task L
  choose t =
      if t.repeat
      then record t { phase = connecting false }
      else if t.permits == 0
      then t
      else record t { permits = t.permits - 1; phase = connecting true }

  -- A permit that is held is forgotten.
  unfoldable pub end_round : Task L → Task L
  end_round t = record t { phase = sleeping }

  -- Where the core does not take the link, the loop breaks, and a permit is given back.
  unfoldable pub give_back : Bool → Task L → Task L
  give_back true t = record t { permits = t.permits + 1; phase = ended }
  give_back false t = record t { phase = ended }

  unfoldable pub linked : L → Bool → Bool → Task L → Task L
  linked link true permit t = end_round (record t { links = t.links ++ (link ∷ []) })
  linked link false permit t = give_back permit t

  -- A dropped address ends the wait for a permit.
  unfoldable pub stop_waiting : Task L → Task L
  stop_waiting t = if t.repeat then t else record t { phase = ended }

  unfoldable pub in_phase : Phase → TaskEvent L → Task L → Task L
  unfolding choose end_round give_back linked stop_waiting
  in_phase choosing go t = choose t
  in_phase choosing drop_address t = stop_waiting t
  in_phase (connecting permit) (link_up link taken) t = linked link taken permit t
  in_phase (connecting permit) fail t = end_round t
  in_phase sleeping wake t = record t { phase = choosing }
  in_phase phase event t = t

  unfoldable pub step : TaskEvent L → Task L → Task L
  unfolding in_phase
  step (set_repeat value) t = record t { repeat = value }
  step (add_permits n) t = record t { permits = t.permits + n }
  step go t = in_phase t.phase go t
  step (link_up link taken) t = in_phase t.phase (link_up link taken) t
  step fail t = in_phase t.phase fail t
  step wake t = in_phase t.phase wake t
  step drop_address t = in_phase t.phase drop_address t

  unfoldable pub run_task : List (TaskEvent L) → Task L → Task L
  run_task [] t = t
  run_task (event ∷ events) t = run_task events (step event t)

  -- The permits that an event adds.
  abbrev pub grants : TaskEvent L → ℕ
  grants go = 0
  grants (link_up link taken) = 0
  grants fail = 0
  grants wake = 0
  grants (set_repeat value) = 0
  grants (add_permits n) = n
  grants drop_address = 0

  abbrev pub added : List (TaskEvent L) → ℕ
  added [] = 0
  added (event ∷ events) = grants event + added events

  -- An event other than one that sets `repeat`.
  abbrev pub IsOnce : TaskEvent L → Type 0
  IsOnce (set_repeat value) = value ≡ false
  IsOnce (add_permits n) = Unit
  IsOnce go = Unit
  IsOnce (link_up link taken) = Unit
  IsOnce fail = Unit
  IsOnce wake = Unit
  IsOnce drop_address = Unit

  -- The links sent, the permits left and the one that is held are within `budget`.
  record IsWithin (budget : ℕ) (t : Task L) : Type 0 where
    once : t.repeat ≡ false
    permit : HasPermit t.phase
    bound : length t.links + t.permits + held t.phase ≤ budget

  choose-IsWithin :
      (budget : ℕ) (t : Task L)
      → t.phase ≡ choosing
      → IsWithin budget t
      → IsWithin budget (choose t)
  unfolding choose
  choose-IsWithin budget t e h = ground (arith, ap held e)

  linked-IsWithin :
      (budget : ℕ) (link : L) (taken : Bool) (t : Task L)
      → t.phase ≡ connecting true
      → IsWithin budget t
      → IsWithin budget (linked link taken true t)
  unfolding linked give_back end_round
  linked-IsWithin budget link true t e h =
      ground (arith, ap held e, length-append t.links (link ∷ []))
  linked-IsWithin budget link false t e h = ground (arith, ap held e)

  in_phase-IsWithin :
      (budget : ℕ) (phase : Phase) (event : TaskEvent L) (t : Task L)
      → t.phase ≡ phase
      → IsWithin budget t
      → IsWithin budget (in_phase phase event t)
  unfolding in_phase end_round stop_waiting
  in_phase-IsWithin budget choosing go t e h = choose-IsWithin budget t e h
  in_phase-IsWithin budget choosing drop_address t e h = ground (arith, ap held e)
  in_phase-IsWithin budget choosing (link_up link taken) t e h = h
  in_phase-IsWithin budget choosing fail t e h = h
  in_phase-IsWithin budget choosing wake t e h = h
  in_phase-IsWithin budget choosing (set_repeat value) t e h = h
  in_phase-IsWithin budget choosing (add_permits n) t e h = h
  in_phase-IsWithin budget (connecting false) event t e h = absurd (subst HasPermit e h.permit)
  in_phase-IsWithin budget (connecting true) go t e h = h
  in_phase-IsWithin budget (connecting true) drop_address t e h = h
  in_phase-IsWithin budget (connecting true) (link_up link taken) t e h =
      linked-IsWithin budget link taken t e h
  in_phase-IsWithin budget (connecting true) fail t e h = ground (arith, ap held e)
  in_phase-IsWithin budget (connecting true) wake t e h = h
  in_phase-IsWithin budget (connecting true) (set_repeat value) t e h = h
  in_phase-IsWithin budget (connecting true) (add_permits n) t e h = h
  in_phase-IsWithin budget sleeping go t e h = h
  in_phase-IsWithin budget sleeping drop_address t e h = h
  in_phase-IsWithin budget sleeping (link_up link taken) t e h = h
  in_phase-IsWithin budget sleeping fail t e h = h
  in_phase-IsWithin budget sleeping wake t e h = ground (arith, ap held e)
  in_phase-IsWithin budget sleeping (set_repeat value) t e h = h
  in_phase-IsWithin budget sleeping (add_permits n) t e h = h
  in_phase-IsWithin budget ended event t e h = h

  more : (a b : ℕ) (t : Task L) → a ≤ b → IsWithin a t → IsWithin b t
  more a b t le h = record { once = h.once; permit = h.permit; bound = omega (arith, h.bound) }

  step-IsWithin :
      (budget : ℕ) (event : TaskEvent L) (t : Task L)
      → IsOnce event
      → IsWithin budget t
      → IsWithin (grants event + budget) (step event t)
  unfolding step
  step-IsWithin budget (set_repeat value) t once h = ground (arith)
  step-IsWithin budget (add_permits n) t once h = ground (arith)
  step-IsWithin budget go t once h =
      more budget _ _ (omega arith) (in_phase-IsWithin budget t.phase go t refl h)
  step-IsWithin budget (link_up link taken) t once h =
      more budget _ _ (omega arith) (in_phase-IsWithin budget t.phase (link_up link taken) t refl h)
  step-IsWithin budget fail t once h =
      more budget _ _ (omega arith) (in_phase-IsWithin budget t.phase fail t refl h)
  step-IsWithin budget wake t once h =
      more budget _ _ (omega arith) (in_phase-IsWithin budget t.phase wake t refl h)
  step-IsWithin budget drop_address t once h =
      more budget _ _ (omega arith) (in_phase-IsWithin budget t.phase drop_address t refl h)

  run_task-IsWithin :
      (budget : ℕ) (events : List (TaskEvent L)) (t : Task L)
      → All IsOnce events
      → IsWithin budget t
      → IsWithin (added events + budget) (run_task events t)
  unfolding run_task
  run_task-IsWithin budget [] t once h = more budget _ t (omega arith) h
  run_task-IsWithin budget (event ∷ events) t once h =
      more (added events + (grants event + budget)) _ _ (omega arith) (
        run_task-IsWithin (grants event + budget) events (step event t) once.1
          (step-IsWithin budget event t once.0 h))

  -- A task that is never told to repeat: the links that it has handed to the core and the permits
  -- that are left are together no more than the permits that it was given, at the start and later,
  -- whatever becomes of its attempts.
  length-run_task :
      (events : List (TaskEvent L)) (permits : ℕ)
      → All IsOnce events
      → length (run_task events (create_task false permits)).links
          + (run_task events (create_task false permits)).permits
        ≤ added events + permits
  length-run_task events permits once =
      let within = run_task-IsWithin permits events (create_task false permits) once start in
      omega (arith, within.bound)
    where
      start : IsWithin permits (create_task false permits)
      start = unfold create_task in record { once = refl; permit = tt; bound = omega arith }
