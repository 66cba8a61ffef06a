-- ===== src/Controller/Hearing.antt =====
-- The epoch that a handle shows, and what the core is in.
use link_set.Prelude.{
  ℕ, zero, suc, List, [], ◌∷◌, true, Option, none, some, ◌≡◌, refl, ap, ◌∙◌, length, arith,
}
use link_set.Epoch.{Epoch}
use link_set.Links.{LinkOps}
use link_set.Connect.{ConnectorOps}
use link_set.State.{Common, LinkSetMessageInner, States, Disconnected, new_common}
use link_set.Core.{Event, run}
use link_set.Core.Holds.{Holds, Holds-map}
use link_set.Core.Heard.{InTouch, hears, heard, honest}
use link_set.Core.Heard.Runs.{run-InTouch}
use link_set.Controller.{
  LinkSetSendable, LinkSet, Channels, new, recv, take_msg, try_from, hear, current_epoch,
}

-- The handle that has the receiver.
abbrev pub owner : LinkSet
owner = record { from_core = true }

module _ {L C : Type 0} (M : Type 0) ⦃m : LinkSetSendable M⦄ where
  -- The channels after `n` calls of `recv`.
  pub recv_times : ℕ → Channels L C → Channels L C
  recv_times zero s = s
  recv_times (suc n) s = recv_times n (recv {M = M} owner s).1

  recv-hears :
      (s : Channels L C) (msg : LinkSetMessageInner) (msgs : List LinkSetMessageInner)
      → (recv {M = M} owner (record s { from_core = msg ∷ msgs })).1
        ≡ record s { from_core = msgs; epoch = hears msg s.epoch }
  unfolding recv take_msg try_from hear
  recv-hears s LinkSetMessageInner.disconnected msgs = refl
  recv-hears s (LinkSetMessageInner.connected e) msgs = refl
  recv-hears s (LinkSetMessageInner.attempting_connection b) msgs = refl
  recv-hears s (LinkSetMessageInner.message bytes e) msgs = ground (arith)

  recv_times-heard :
      (msgs : List LinkSetMessageInner) (s : Channels L C)
      → recv_times (length msgs) (record s { from_core = msgs })
        ≡ record s { from_core = []; epoch = heard s.epoch msgs }
  unfolding recv_times heard
  recv_times-heard [] s = refl
  recv_times-heard (msg ∷ msgs) s =
      ap (recv_times (length msgs)) (recv-hears s msg msgs)
      ∙ recv_times-heard msgs (record s { epoch = hears msg s.epoch })

module _ (L C M : Type 0) ⦃m : LinkSetSendable M⦄ where
  -- What a handle shows once it has received all that the core has sent.
  pub shown : Common → Option Epoch
  shown c =
      let sent = record (new {L = L} {C = C}) { from_core = c.to_ctrl } in
      current_epoch owner (recv_times M (length c.to_ctrl) sent)

  shown-heard : (c : Common) → shown c ≡ heard none c.to_ctrl
  unfolding shown current_epoch new
  shown-heard c = ap (current_epoch owner) (recv_times-heard M c.to_ctrl new)

module _ {L C : Type 0} (M : Type 0) ⦃m : LinkSetSendable M⦄ where
  -- The handle shows the epoch of the connection, or of the one to go back to.
  abbrev pub Shows : Common × States L C → Type 0
  Shows (c, States.disconnected s) = Unit
  Shows (c, States.connecting s) = Unit
  Shows (c, States.epoch_mismatch s) = Unit
  Shows (c, States.connected s) = shown L C M c ≡ some s.epoch
  Shows (c, States.reconnecting s) = shown L C M c ≡ some s.epoch
  Shows (c, States.grace_period s) = shown L C M c ≡ some s.epoch

  InTouch-Shows : (r : Common × States L C) → InTouch r → Shows r
  unfolding InTouch
  InTouch-Shows (c, States.disconnected s) h = tt
  InTouch-Shows (c, States.connecting s) h = tt
  InTouch-Shows (c, States.epoch_mismatch s) h = tt
  InTouch-Shows (c, States.connected s) h = shown-heard L C M c ∙ h.1
  InTouch-Shows (c, States.reconnecting s) h = shown-heard L C M c ∙ h.1
  InTouch-Shows (c, States.grace_period s) h = shown-heard L C M c ∙ h.1

module _ {L C : Type 0} (M : Type 0) ⦃m : LinkSetSendable M⦄ ⦃o : LinkOps L⦄
    ⦃cc : ConnectorOps C⦄ where
  -- After any events from the start, in any order, unless a handler panics on the way: in the states
  -- `Connected`, `Reconnecting` and `GracePeriod` a handle that has received all that the core sent,
  -- messages that it cannot convert among them, shows the epoch of the state.
  pub run-Shows :
      (events : List (Event L C)) (s : Disconnected C)
      → Holds (Shows M) (run events new_common (States.disconnected s))
  run-Shows events s =
      Holds-map InTouch (Shows M) (run events new_common (States.disconnected s)) (InTouch-Shows M)
        (run-InTouch events new_common (States.disconnected s)
          (unfold InTouch new_common honest in refl))
