-- ===== src/Core/Epochs/Handshake.antt =====
-- The handshake of src/state/states/epoch_mismatch.rs at one end.
use link_set.Prelude.{
  ℕ, ◌≤◌, max, Bool, true, false, Option, none, some, ◌≡◌, ap, sym, leb, Ordering, arith,
}
use link_set.Epoch.{Epoch, opt_epoch_to_int, compare_epochs}
use link_set.Epoch.Order.{IsOptEpoch}
use link_set.Links.{LinkOps}
use link_set.Messages.{MessageManager, insert_msg, get_outgoing_slice, recv, take_recvd}
use link_set.Messages
use link_set.State.{Common, States, EpochMismatch}
use link_set.State.Moves.{mismatch_to_connected, send_queued}
use link_set.State.Mismatch.{agree, adopt, or_one, mismatch_reset}
use link_set.Core.Holds.{Holds, Holds-order, Holds-elim, Holds-bind, Holds-self}
use link_set.Core.Active.{is_connected}
use link_set.Core.Epochs.{epoch_of}

-- The greater of two epochs; the first one where both are missing.
abbrev pub top : Option Epoch → Option Epoch → Epoch
top a b = max 1 (max (opt_epoch_to_int a) (opt_epoch_to_int b))

module _ {L C : Type 0} where
  -- The state has settled on `e`, and is connected exactly if `ready`.
  abbrev pub Settles : Epoch → Bool → Common × States L C → Type 0
  Settles e ready r = (epoch_of r.1 ≡ some e) × (is_connected r.1 ≡ ready)

pub settles_lt :
    (a b : Option Epoch)
    → IsOptEpoch a
    → IsOptEpoch b
    → compare_epochs a b ≡ Ordering.lt
    → (or_one b ≡ top a b) × (leb (opt_epoch_to_int a) (opt_epoch_to_int b) ≡ true)
unfolding compare_epochs
settles_lt none none ha hb h = ground arith
settles_lt none (some b) ha hb h = ground arith
settles_lt (some a) none ha hb h = ground arith
settles_lt (some a) (some b) ha hb h = ground arith

pub settles_eq :
    (a b : Option Epoch) (own : Epoch)
    → IsOptEpoch a
    → compare_epochs a b ≡ Ordering.eq
    → a ≡ some own
    → (own ≡ top a b) × (leb (opt_epoch_to_int a) (opt_epoch_to_int b) ≡ true)
unfolding compare_epochs
settles_eq none b own ha h e = ground arith
settles_eq (some a) none own ha h e = ground arith
settles_eq (some a) (some b) own ha h e = ground arith

pub settles_gt :
    (a b : Option Epoch)
    → IsOptEpoch a
    → compare_epochs a b ≡ Ordering.gt
    → (a ≡ some (top a b)) × (false ≡ leb (opt_epoch_to_int a) (opt_epoch_to_int b))
unfolding compare_epochs
settles_gt none b ha h = ground arith
settles_gt (some a) none ha h = ground arith
settles_gt (some a) (some b) ha h = ground arith

pub top-Onward :
    (a b r : Option Epoch)
    → IsOptEpoch a
    → IsOptEpoch b
    → r ≡ some (top a b)
    → IsOptEpoch r × (opt_epoch_to_int a ≤ opt_epoch_to_int r)
top-Onward a b none ha hb e = ground arith
top-Onward none none (some r) ha hb e = ground arith
top-Onward none (some b) (some r) ha hb e = ground arith
top-Onward (some a) none (some r) ha hb e = ground arith
top-Onward (some a) (some b) (some r) ha hb e = ground arith

-- The answer carries the greater epoch, so the other end connects under it.
pub answer :
    (a b r : Option Epoch)
    → IsOptEpoch a
    → IsOptEpoch b
    → r ≡ some (top a b)
    → IsOptEpoch r × (top b r ≡ top a b) × (leb (opt_epoch_to_int b) (opt_epoch_to_int r) ≡ true)
answer a b none ha hb e = ground arith
answer none none (some r) ha hb e = ground arith
answer none (some b) (some r) ha hb e = ground arith
answer (some a) none (some r) ha hb e = ground arith
answer (some a) (some b) (some r) ha hb e = ground arith

module _ {L C : Type 0} ⦃o : LinkOps L⦄ where
  mismatch_to_connected-Settles :
      (now : ℕ) (e settled : Epoch) (ready : Bool) (c : Common) (s : EpochMismatch L C)
      → (e ≡ settled) × (ready ≡ true)
      → Holds (Settles settled ready) (mismatch_to_connected now e c s)
  unfolding mismatch_to_connected
  mismatch_to_connected-Settles now e settled ready c s h =
      Holds-elim _ (send_queued s.queued_msgs (Messages.new e) s.links) _ _ tt
        (λ x. (ap some h.0, sym h.1))

  pub mismatch_reset_held :
      (now : ℕ) (theirs : Option Epoch) (request : Bool) (c : Common) (s : EpochMismatch L C)
      → IsOptEpoch s.epoch
      → IsOptEpoch theirs
      → Holds
          (Settles (top s.epoch theirs) (leb (opt_epoch_to_int s.epoch) (opt_epoch_to_int theirs)))
          (mismatch_reset now theirs request c s)
  unfolding mismatch_reset agree adopt compare_epochs
  mismatch_reset_held now theirs request c s h m =
      Holds-order _ (compare_epochs s.epoch theirs) _ _ _
        (λ e.
          mismatch_to_connected-Settles now (or_one theirs) _ _ c _
            (settles_lt s.epoch theirs h m e))
        (λ e. Holds-bind _ _ s.epoch _ (Holds-self s.epoch) (λ own q.
          mismatch_to_connected-Settles now own _ _ c _ (settles_eq s.epoch theirs own h e q)))
        (λ e. settles_gt s.epoch theirs h e)
