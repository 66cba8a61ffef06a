-- ===== src/Core/Diagram/Meeting.antt =====
-- How a connection begins: src/state/states/epoch_mismatch.rs over the loop of src/core.rs.
use link_set.Prelude.{
  ℕ, ◌≤◌, Bool, List, [], ◌∷◌, ◌++◌, Option, none, some, ◌≡◌, refl, ap, sym, ◌∙◌, Option-cases, inl,
  inr, ◌⊎◌, arith, Ordering,
}
use mathlib.Core.Path.{subst}
use link_set.Epoch.{Epoch, opt_epoch_to_int, compare_epochs}
use link_set.Protocol.{LinkProtocol, reset, ack, msg_slice, ping, pong}
use link_set.Links.{LinkOps}
use link_set.Connect.{ConnectorOps}
use link_set.Messages
use link_set.State.{Common, States, EpochMismatch, Connected}
use link_set.State.Moves.{send_queued, mismatch_to_connected}
use link_set.State.Mismatch.{agree, adopt, or_one, mismatch_reset, mismatch_link_msg}
use link_set.Core.{Event, ctrl_msg, link_msg, timer, debug_cmd, handle_link_msg, turn, handle, run}
use link_set.Core.Holds.{Holds, Holds-settled, Holds-order, Holds-elim, Holds-bind, Holds-self}
use link_set.Core.Diagram.{Cause, Phase, Move, stay, link_back, link_again, lose, phase}
use link_set.Core.Diagram.Runs.{cause_of, handle-Follows}

-- Not connected, and without a connection to go back to.
abbrev pub IsApart : Phase → Type 0
IsApart Phase.disconnected = Unit
IsApart Phase.connecting = Unit
IsApart Phase.epoch_mismatch = Unit
IsApart Phase.connected = ⊥
IsApart Phase.reconnecting = ⊥
IsApart Phase.grace_period = ⊥

-- The only move to `Connected` is `agree`.
move-IsApart :
    {cause : Cause} {p : Phase} (q : Phase)
    → IsApart p
    → Move cause p q
    → IsApart q ⊎ ((cause ≡ Cause.peer) × (p ≡ Phase.epoch_mismatch) × (q ≡ Phase.connected))
move-IsApart Phase.disconnected h m = inl tt
move-IsApart Phase.connecting h m = inl tt
move-IsApart Phase.epoch_mismatch h m = inl tt
move-IsApart Phase.connected h stay = absurd h
move-IsApart Phase.connected h link_back = absurd h
move-IsApart Phase.connected h link_again = absurd h
move-IsApart Phase.connected h Move.agree = inr (refl, refl, refl)
move-IsApart Phase.connected h (lose l) = absurd h
move-IsApart Phase.reconnecting h stay = absurd h
move-IsApart Phase.reconnecting h (lose l) = absurd h
move-IsApart Phase.grace_period h stay = absurd h
move-IsApart Phase.grace_period h (lose l) = absurd h

module _ {L C : Type 0} where
  -- If it is connected, it is so under the epoch of the peer, which is not below its own.
  abbrev Meets : Option Epoch → Option Epoch → Common × States L C → Type 0
  Meets own theirs (c, States.connected s) =
      (opt_epoch_to_int own ≤ opt_epoch_to_int theirs) × (s.epoch ≡ or_one theirs)
  Meets own theirs (c, States.disconnected s) = Unit
  Meets own theirs (c, States.connecting s) = Unit
  Meets own theirs (c, States.epoch_mismatch s) = Unit
  Meets own theirs (c, States.reconnecting s) = Unit
  Meets own theirs (c, States.grace_period s) = Unit

  -- A result is connected by a `Reset` alone.
  abbrev MeetsBy : Option Epoch → LinkProtocol → Common × States L C → Type 0
  MeetsBy own (reset theirs request) r = Meets own theirs r
  MeetsBy own (ack epoch seq last_index) r = phase r.1 ≡ Phase.epoch_mismatch
  MeetsBy own (msg_slice epoch seq seq_len first_index bytes) r = phase r.1 ≡ Phase.epoch_mismatch
  MeetsBy own ping r = phase r.1 ≡ Phase.epoch_mismatch
  MeetsBy own pong r = phase r.1 ≡ Phase.epoch_mismatch

below_lt :
    (a b : Option Epoch)
    → compare_epochs a b ≡ Ordering.lt
    → opt_epoch_to_int a ≤ opt_epoch_to_int b
unfolding compare_epochs
below_lt none none h = ground arith
below_lt none (some b) h = ground arith
below_lt (some a) none h = ground arith
below_lt (some a) (some b) h = ground arith

below_eq :
    (a b : Option Epoch) (own : Epoch)
    → compare_epochs a b ≡ Ordering.eq
    → a ≡ some own
    → (opt_epoch_to_int a ≤ opt_epoch_to_int b) × (own ≡ or_one b)
unfolding compare_epochs
below_eq none b own h e = ground arith
below_eq (some a) none own h e = ground arith
below_eq (some a) (some b) own h e = ground arith

module _ {L C : Type 0} ⦃o : LinkOps L⦄ where
  mismatch_to_connected-Meets :
      (now : ℕ) (own theirs : Option Epoch) (e : Epoch) (c : Common) (s : EpochMismatch L C)
      → (opt_epoch_to_int own ≤ opt_epoch_to_int theirs) × (e ≡ or_one theirs)
      → Holds (Meets own theirs) (mismatch_to_connected now e c s)
  unfolding mismatch_to_connected
  mismatch_to_connected-Meets now own theirs e c s h =
      Holds-elim _ (send_queued s.queued_msgs (Messages.new e) s.links) _ _ tt (λ x. h)

  mismatch_reset-Meets :
      (now : ℕ) (theirs : Option Epoch) (request : Bool) (c : Common) (s : EpochMismatch L C)
      → Holds (Meets s.epoch theirs) (mismatch_reset now theirs request c s)
  unfolding mismatch_reset agree adopt
  mismatch_reset-Meets now theirs request c s =
      Holds-order _ (compare_epochs s.epoch theirs) _ _ _
        (λ e.
          mismatch_to_connected-Meets now s.epoch theirs (or_one theirs) c _
            (below_lt s.epoch theirs e, refl))
        (λ e. Holds-bind _ _ s.epoch _ (Holds-self s.epoch) (λ own q.
          mismatch_to_connected-Meets now s.epoch theirs own c _ (below_eq s.epoch theirs own e q)))
        (λ e. tt)

  mismatch_link_msg-MeetsBy :
      (now : ℕ) (c : Common) (s : EpochMismatch L C) (id : ℕ) (msg : LinkProtocol)
      → Holds (MeetsBy s.epoch msg) (mismatch_link_msg now c s id msg)
  unfolding mismatch_link_msg
  mismatch_link_msg-MeetsBy now c s id (reset theirs request) =
      mismatch_reset-Meets now theirs request c s
  mismatch_link_msg-MeetsBy now c s id (ack epoch seq last_index) = refl
  mismatch_link_msg-MeetsBy now c s id (msg_slice epoch seq seq_len first_index bytes) = refl
  mismatch_link_msg-MeetsBy now c s id ping = refl
  mismatch_link_msg-MeetsBy now c s id pong = refl

module _ {L C : Type 0} ⦃o : LinkOps L⦄ ⦃conn : ConnectorOps C⦄ where
  -- A turn that begins a connection: a `Reset` under an epoch that is not below the own one, which
  -- is the epoch of the connection.
  pub record Meeting (event : Event L C) (c : Common) (state : States L C) : Type 0 where
    pub now : ℕ
    pub id : ℕ
    pub theirs : Option Epoch
    pub request : Bool
    pub mismatch : EpochMismatch L C
    pub common : Common
    pub connected : Connected L C
    pub is_reset : event ≡ link_msg now id (reset theirs request)
    pub in_mismatch : state ≡ States.epoch_mismatch mismatch
    pub connects : handle event c state ≡ some (common, States.connected connected)
    pub compared : opt_epoch_to_int mismatch.epoch ≤ opt_epoch_to_int theirs
    pub taken : connected.epoch ≡ or_one theirs

  met :
      (now id : ℕ) (msg : LinkProtocol) (c c1 : Common) (s : EpochMismatch L C) (t : Connected L C)
      → handle (link_msg now id msg) c (States.epoch_mismatch s) ≡ some (c1, States.connected t)
      → MeetsBy s.epoch msg (c1, States.connected t)
      → Meeting (link_msg now id msg) c (States.epoch_mismatch s)
  met now id (reset theirs request) c c1 s t e m = record {
    now = now;
    id = id;
    theirs = theirs;
    request = request;
    mismatch = s;
    common = c1;
    connected = t;
    is_reset = refl;
    in_mismatch = refl;
    connects = e;
    compared = m.0;
    taken = m.1;
  }
  met now id (ack epoch seq last_index) c c1 s t e m = absurd (ground (arith, m))
  met now id (msg_slice epoch seq seq_len first_index bytes) c c1 s t e m =
      absurd (ground (arith, m))
  met now id ping c c1 s t e m = absurd (ground (arith, m))
  met now id pong c c1 s t e m = absurd (ground (arith, m))

  handle-MeetsBy :
      (now id : ℕ) (msg : LinkProtocol) (c : Common) (s : EpochMismatch L C)
      → Holds (MeetsBy s.epoch msg) (handle (link_msg now id msg) c (States.epoch_mismatch s))
  unfolding handle turn handle_link_msg
  handle-MeetsBy now id msg c s =
      Holds-settled (MeetsBy s.epoch msg) (mismatch_link_msg now c s id msg)
        (mismatch_link_msg-MeetsBy now c s id msg)

  handle-Meeting :
      (event : Event L C) (c c1 : Common) (state : States L C) (t : Connected L C)
      → handle event c state ≡ some (c1, States.connected t)
      → cause_of event ≡ Cause.peer
      → phase state ≡ Phase.epoch_mismatch
      → Meeting event c state
  handle-Meeting (ctrl_msg now msg) c c1 state t e p q = absurd (ground (arith, p))
  handle-Meeting (timer now) c c1 state t e p q = absurd (ground (arith, p))
  handle-Meeting (debug_cmd cmd) c c1 state t e p q = absurd (ground (arith, p))
  handle-Meeting (link_msg now id msg) c c1 (States.disconnected s) t e p q =
      absurd (ground (arith, q))
  handle-Meeting (link_msg now id msg) c c1 (States.connecting s) t e p q =
      absurd (ground (arith, q))
  handle-Meeting (link_msg now id msg) c c1 (States.epoch_mismatch s) t e p q =
      met now id msg c c1 s t e (rw e at (handle-MeetsBy now id msg c s))
  handle-Meeting (link_msg now id msg) c c1 (States.connected s) t e p q =
      absurd (ground (arith, q))
  handle-Meeting (link_msg now id msg) c c1 (States.reconnecting s) t e p q =
      absurd (ground (arith, q))
  handle-Meeting (link_msg now id msg) c c1 (States.grace_period s) t e p q =
      absurd (ground (arith, q))

  apart_not_connected :
      (state : States L C) (s : Connected L C)
      → IsApart (phase state)
      → state ≡ States.connected s
      → ⊥
  apart_not_connected state s h e = subst (λ t. IsApart (phase t)) e h

  run_panics :
      (event : Event L C) (events : List (Event L C)) (c : Common) (state : States L C)
      → handle event c state ≡ none
      → run (event ∷ events) c state ≡ none
  unfolding run
  run_panics event events c state h = rw (h, run) refl

  run_next :
      (event : Event L C) (events : List (Event L C)) (c c1 : Common) (state state1 : States L C)
      → handle event c state ≡ some (c1, state1)
      → run (event ∷ events) c state ≡ run events c1 state1
  unfolding run
  run_next event events c c1 state state1 h = rw (h, run) refl

  connected_of :
      (state : States L C)
      → phase state ≡ Phase.connected
      → (s : Connected L C) × (state ≡ States.connected s)
  connected_of (States.disconnected s) e = absurd (ground (arith, e))
  connected_of (States.connecting s) e = absurd (ground (arith, e))
  connected_of (States.epoch_mismatch s) e = absurd (ground (arith, e))
  connected_of (States.connected s) e = (s, refl)
  connected_of (States.reconnecting s) e = absurd (ground (arith, e))
  connected_of (States.grace_period s) e = absurd (ground (arith, e))

  -- If events lead from a state that is not connected and has no connection to go back to, to
  -- Connected, then one of them is a `Reset` that is heard in EpochMismatch, under an epoch that is
  -- not below the own one there; its turn leads to Connected, under the epoch of that `Reset`, or the
  -- first one if it has none.
  pub run-Meeting :
      (events : List (Event L C)) (c c' : Common) (state : States L C) (s : Connected L C)
      → IsApart (phase state)
      → run events c state ≡ some (c', States.connected s)
      → (front : List (Event L C)) × (event : Event L C) × (back : List (Event L C)) × (c1 : Common)
        × (state1 : States L C) × (events ≡ front ++ (event ∷ back))
        × (run front c state ≡ some (c1, state1))
        × Meeting event c1 state1
  run-Meeting [] c c' state s h e = absurd (apart_not_connected state s h (unfold run in cc e))
  run-Meeting (event ∷ events) c c' state s h e = elim (Option-cases (handle event c state)) [
    | inl panics ↦ absurd (cc (run_panics event events c state panics, e))
    | inr ((c1, state1), next) ↦
        let moved = rw next at (handle-Follows event c state) in
        elim (move-IsApart (phase state1) h moved) [
          | inl apart ↦
              let (front, event1, back, c2, state2, cut, reached, meeting) =
                run-Meeting events c1 c' state1 s apart
                  (sym (run_next event events c c1 state state1 next) ∙ e) in
              (
                event ∷ front,
                event1,
                back,
                c2,
                state2,
                ap (λ es. event ∷ es) cut,
                run_next event front c c1 state state1 next ∙ reached,
                meeting,
              )
          | inr (cause, here, there) ↦
              let (t, is) = connected_of state1 there in
              let connects : handle event c state ≡ some (c1, States.connected t) =
                next ∙ ap (λ (u : States L C). some (c1, u)) is in
              (
                [],
                event,
                events,
                c,
                state,
                refl,
                unfold run in refl,
                handle-Meeting event c c1 state t connects cause here,
              )
        ]
  ]
