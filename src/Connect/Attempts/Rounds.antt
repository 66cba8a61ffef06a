-- ===== src/Connect/Attempts/Rounds.antt =====
-- How often a task of src/connector_manager.rs calls `connect`.
use link_set.Prelude.{ℕ, ◌+◌, ◌≤◌, List, [], ◌∷◌, true, false, ◌≡◌, refl, sym, All, arith}
use mathlib.Core.Path.{subst}
use link_set.Connect.Attempts.{
  Phase, choosing, connecting, sleeping, ended, TaskEvent, go, link_up, fail, wake, set_repeat,
  add_permits, drop_address, Task, create_task, choose, end_round, give_back, linked, stop_waiting,
  in_phase, step, grants, added, IsOnce,
}

-- The permits that a task can still use.
abbrev left_in : Phase → ℕ → ℕ
left_in choosing permits = permits
left_in (connecting permit) permits = permits
left_in sleeping permits = permits
left_in ended permits = 0

-- A step that enters `connecting` calls `connect`.
abbrev pub entered : Phase → Phase → ℕ
entered (connecting permit) phase = 0
entered choosing (connecting permit) = 1
entered sleeping (connecting permit) = 1
entered ended (connecting permit) = 1
entered choosing phase = 0
entered sleeping phase = 0
entered ended phase = 0

entered-same : (phase : Phase) → entered phase phase ≡ 0
entered-same choosing = refl
entered-same (connecting permit) = refl
entered-same sleeping = refl
entered-same ended = refl

module _ {L : Type 0} where
  -- How often `connect` is called.
  pub attempts : List (TaskEvent L) → Task L → ℕ
  attempts [] t = 0
  attempts (event ∷ events) t =
      entered t.phase (step event t).phase + attempts events (step event t)

  abbrev Spends : TaskEvent L → Phase → Task L → Task L → Type 0
  Spends event phase t t' =
      (t'.repeat ≡ false)
      × (entered phase t'.phase + left_in t'.phase t'.permits
          ≤ left_in phase t.permits + grants event)

  step-Spends :
      (event : TaskEvent L) (phase : Phase) (permits : ℕ) (links : List L)
      → IsOnce event
      → let t : Task L = record {
        repeat = false;
        permits = permits;
        phase = phase;
        links = links;
      } in
        Spends event phase t (step event t)
  unfolding step in_phase choose end_round give_back linked stop_waiting
  step-Spends go choosing permits links once = ground arith
  step-Spends go (connecting true) permits links once = ground arith
  step-Spends go (connecting false) permits links once = ground arith
  step-Spends go sleeping permits links once = ground arith
  step-Spends go ended permits links once = ground arith
  step-Spends (link_up link true) choosing permits links once = ground arith
  step-Spends (link_up link true) (connecting true) permits links once = ground arith
  step-Spends (link_up link true) (connecting false) permits links once = ground arith
  step-Spends (link_up link true) sleeping permits links once = ground arith
  step-Spends (link_up link true) ended permits links once = ground arith
  step-Spends (link_up link false) choosing permits links once = ground arith
  step-Spends (link_up link false) (connecting true) permits links once = ground arith
  step-Spends (link_up link false) (connecting false) permits links once = ground arith
  step-Spends (link_up link false) sleeping permits links once = ground arith
  step-Spends (link_up link false) ended permits links once = ground arith
  step-Spends fail choosing permits links once = ground arith
  step-Spends fail (connecting true) permits links once = ground arith
  step-Spends fail (connecting false) permits links once = ground arith
  step-Spends fail sleeping permits links once = ground arith
  step-Spends fail ended permits links once = ground arith
  step-Spends wake choosing permits links once = ground arith
  step-Spends wake (connecting true) permits links once = ground arith
  step-Spends wake (connecting false) permits links once = ground arith
  step-Spends wake sleeping permits links once = ground arith
  step-Spends wake ended permits links once = ground arith
  step-Spends drop_address choosing permits links once = ground arith
  step-Spends drop_address (connecting true) permits links once = ground arith
  step-Spends drop_address (connecting false) permits links once = ground arith
  step-Spends drop_address sleeping permits links once = ground arith
  step-Spends drop_address ended permits links once = ground arith
  step-Spends (set_repeat value) phase permits links once =
      (once, omega (arith, entered-same phase))
  step-Spends (add_permits n) choosing permits links once = ground arith
  step-Spends (add_permits n) (connecting true) permits links once = ground arith
  step-Spends (add_permits n) (connecting false) permits links once = ground arith
  step-Spends (add_permits n) sleeping permits links once = ground arith
  step-Spends (add_permits n) ended permits links once = ground arith

  run_task-Spends :
      (events : List (TaskEvent L)) (t : Task L)
      → All IsOnce events
      → t.repeat ≡ false
      → attempts events t ≤ left_in t.phase t.permits + added events
  unfolding attempts
  run_task-Spends [] t once e = omega arith
  run_task-Spends (event ∷ events) t once e =
      let spent : Spends event t.phase t (step event t) =
        subst
          (λ b.
            Spends event t.phase (record t { repeat = b }) (step event (record t { repeat = b })))
          (sym e) (step-Spends event t.phase t.permits t.links once.0) in
      omega (arith, spent.1, run_task-Spends events (step event t) once.1 spent.0)

  -- A task that is never told to repeat calls `connect` no more often than it was given permits, at
  -- the start and later: without new permits it comes to rest, whatever becomes of its attempts.
  pub attempts-le-added :
      (events : List (TaskEvent L)) (permits : ℕ)
      → All IsOnce events
      → attempts events (create_task false permits) ≤ permits + added events
  attempts-le-added events permits once =
      unfold create_task in
      run_task-Spends events
        (record { repeat = false; permits = permits; phase = choosing; links = [] }) once refl
