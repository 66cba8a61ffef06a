-- ===== src/Core/Debugger.antt =====
-- The handle of src/debug.rs on a core: a command goes to the core, which comes to it after other
-- events, and the answer comes back. The core is `none` when it is gone, and it is gone also where a
-- handler panics: then the command or the answer has no receiver or no sender any more.
use link_set.Prelude.{ℕ, ◌≡◌, refl, List, [], Bool, true, false, none, some}
use link_set.Protocol.{LinkSetResult, ok, err, LinkSetError, ◌>>=◌}
use link_set.Links.{LinkOps}
use link_set.Connect.{ConnectorOps}
use link_set.State.{States, Outcome}
use link_set.State.Debug.{
  DebugCommand, DebugReply, DebugReplySnapshot, StateName, debug, debug_links, debug_no_links,
  get_name,
}
use link_set.State.Debug.Sorting.{others, descriptions-evict_link}
use link_set.Core.{Event, run, handle_debug}

-- Each command carries the sender of its own kind of answer.
unfoldable as_snapshot : DebugReply → LinkSetResult DebugReplySnapshot
as_snapshot (DebugReply.snapshot s) = ok s
as_snapshot (DebugReply.evicted applicable) = err LinkSetError.terminated

unfoldable as_evicted : DebugReply → LinkSetResult Bool
as_evicted (DebugReply.snapshot s) = err LinkSetError.terminated
as_evicted (DebugReply.evicted applicable) = ok applicable

module _ {L C : Type 0} ⦃o : LinkOps L⦄ ⦃c : ConnectorOps C⦄ where
  -- What `handle_debug` sends as the answer, with the core afterwards.
  unfoldable answer : DebugCommand → Outcome L C → LinkSetResult DebugReply × Outcome L C
  answer cmd none = (err LinkSetError.terminated, none)
  answer cmd (some (common, state)) = (ok (debug cmd state).0, handle_debug common state cmd)

  -- The command is sent, and handled after `events`.
  unfoldable ask :
      DebugCommand → List (Event L C) → Outcome L C → LinkSetResult DebugReply × Outcome L C
  unfolding answer
  ask cmd events none = (err LinkSetError.terminated, none)
  ask cmd events (some (common, state)) = answer cmd (run events common state)

  unfoldable pub snapshot :
      List (Event L C) → Outcome L C → LinkSetResult DebugReplySnapshot × Outcome L C
  unfolding ask as_snapshot
  snapshot events core =
      let (reply, core') = ask DebugCommand.snapshot events core in (reply >>= as_snapshot, core')

  unfoldable pub evict_link : ℕ → List (Event L C) → Outcome L C → LinkSetResult Bool × Outcome L C
  unfolding ask as_evicted
  evict_link id events core =
      let (reply, core') = ask (DebugCommand.evict_link id) events core in
      (reply >>= as_evicted, core')

-- The snapshot without a link.
abbrev pub without : ℕ → DebugReplySnapshot → DebugReplySnapshot
without id s = record s { links = others id s.links }

abbrev pub has_links : StateName → Bool
has_links StateName.epoch_mismatch = true
has_links StateName.connected = true
has_links _ = false

module _ {L C : Type 0} ⦃o : LinkOps L⦄ ⦃c : ConnectorOps C⦄ where
  unfoldable snap : States L C → LinkSetResult DebugReplySnapshot
  snap state = as_snapshot (debug DebugCommand.snapshot state).0

  snap-evicted :
      (id : ℕ) (state : States L C)
      → (as_evicted (debug (DebugCommand.evict_link id) state).0
          ≡ (snap state >>= λ s. ok (has_links s.state_name)))
        × (snap (debug (DebugCommand.evict_link id) state).1
            ≡ (snap state >>= λ s. ok (without id s)))
  unfolding snap debug debug_links debug_no_links as_snapshot as_evicted get_name others
  snap-evicted id (States.disconnected s) = (refl, refl)
  snap-evicted id (States.connecting s) = (refl, refl)
  snap-evicted id (States.epoch_mismatch s) = (refl, rw (descriptions-evict_link id s.links) refl)
  snap-evicted id (States.connected s) = (refl, rw (descriptions-evict_link id s.links) refl)
  snap-evicted id (States.reconnecting s) = (refl, refl)
  snap-evicted id (States.grace_period s) = (refl, refl)

  answer-evict_link :
      (id : ℕ) (core : Outcome L C)
      → (((answer (DebugCommand.evict_link id) core).0 >>= as_evicted) ≡ (
          (answer DebugCommand.snapshot core).0 >>= as_snapshot >>= λ s.
          ok (has_links s.state_name)))
        × ((snapshot [] (answer (DebugCommand.evict_link id) core).1).0
            ≡ ((answer DebugCommand.snapshot core).0 >>= as_snapshot >>= λ s. ok (without id s)))
  unfolding answer snapshot ask run handle_debug snap
  answer-evict_link id none = (refl, refl)
  answer-evict_link id (some (common, state)) = snap-evicted id state

  -- After any events, on a core in any state or gone: the answer of `evict_link` is whether the
  -- state keeps links, as the name in a snapshot tells, whether or not it has the link; the snapshot
  -- that follows is the one that would have been taken instead, without the links of that
  -- identifier; where the core is gone, or a handler panics, all answer with the same error.
  pub snapshot-evict_link :
      (id : ℕ) (events : List (Event L C)) (core : Outcome L C)
      → ((evict_link id events core).0
          ≡ ((snapshot events core).0 >>= λ s. ok (has_links s.state_name)))
        × ((snapshot [] (evict_link id events core).1).0
            ≡ ((snapshot events core).0 >>= λ s. ok (without id s)))
  unfolding evict_link snapshot ask
  snapshot-evict_link id events none = (refl, refl)
  snapshot-evict_link id events (some (common, state)) =
      answer-evict_link id (run events common state)
