-- ===== src/Core/Epochs/Agreement.antt =====
-- The handshake of src/state/states/epoch_mismatch.rs at both ends.
use link_set.Prelude.{
  ℕ, Bool, true, false, Option, none, some, ◌≡◌, refl, ap, ◌∙◌, leb, arith, sym, inl, inr,
  if◌then◌else◌,
}
use link_set.Epoch.{Epoch, opt_epoch_to_int, compare_epochs}
use link_set.Protocol.{reset}
use link_set.Epoch.Order.{IsOptEpoch, compare_epochs-eq}
use link_set.Links.{LinkOps, LinkManager, send_reset}
use link_set.State.{Common, States, EpochMismatch, Outcome}
use link_set.State.Moves.{mismatch_to_connected}
use link_set.State.Mismatch.{agree, adopt, mismatch_reset, mismatch_link_msg}
use link_set.Core.Holds.{Holds}
use link_set.Core.Active.{is_connected}
use link_set.Core.Epochs.{epoch_of}
use link_set.State.Queue.{Ordering-cases, IsReturned, mismatch_reset-IsReturned}
use link_set.Core.Epochs.Handshake.{
  top, Settles, mismatch_reset_held, answer, settles_lt, settles_eq, settles_gt,
}

Holds-returned :
    {A : Type 0} (P : A → Type 0) (r : Option A)
    → IsReturned r
    → Holds P r
    → (a : A) × (r ≡ some a) × P a
Holds-returned P none e h = absurd (ground arith)
Holds-returned P (some a) e h = (a, refl, h)

module _ {L C : Type 0} ⦃o : LinkOps L⦄ where
  -- In `EpochMismatch` a `Reset` with any epoch has a result, whatever messages are queued and
  -- whatever the links do: the state has the greater of the two epochs, or the first one if neither
  -- end has any, and it is connected exactly if its own epoch was not the greater one.
  pub mismatch_reset-Settles :
      (now : ℕ) (theirs : Option Epoch) (request : Bool) (c : Common) (s : EpochMismatch L C)
      → IsOptEpoch s.epoch
      → IsOptEpoch theirs
      → (r : Common × States L C) × (mismatch_reset now theirs request c s ≡ some r)
        × Settles (top s.epoch theirs) (leb (opt_epoch_to_int s.epoch) (opt_epoch_to_int theirs)) r
  mismatch_reset-Settles now theirs request c s h m =
      Holds-returned _ (mismatch_reset now theirs request c s)
        (mismatch_reset-IsReturned now theirs request c s)
        (mismatch_reset_held now theirs request c s h m)

  -- What a node does after its reply has gone out on `links`.
  abbrev pub replied : ℕ → Epoch → Bool → Common → EpochMismatch L C → LinkManager L → Outcome L C
  replied now settled ready c s links =
      if ready
      then mismatch_to_connected now settled c (record s { links = links })
      else some (c, States.epoch_mismatch (record s { links = links }))

  agree-replied :
      (now : ℕ) (own : Epoch) (c : Common) (s : EpochMismatch L C)
      → s.epoch ≡ some own
      → agree now true c s ≡ replied now own true c s (send_reset (some own) false s.links)
  unfolding agree mismatch_to_connected
  agree-replied now own c s has =
      rw (has, agree)
        (ap
          (λ e.
            mismatch_to_connected now own c
              (record s { epoch = e; links = send_reset e false s.links }))
          has)

  -- A request is answered: the first thing that is sent is a reply with the greater epoch.
  mismatch_reset-replied :
      (now : ℕ) (theirs : Option Epoch) (c : Common) (s : EpochMismatch L C)
      → IsOptEpoch s.epoch
      → IsOptEpoch theirs
      → mismatch_reset now theirs true c s
        ≡ replied now
            (top s.epoch theirs)
            (leb (opt_epoch_to_int s.epoch) (opt_epoch_to_int theirs))
            c
            s
            (send_reset (some (top s.epoch theirs)) false s.links)
  unfolding mismatch_reset adopt mismatch_to_connected
  mismatch_reset-replied now theirs c s h m =
      elim (Ordering-cases (compare_epochs s.epoch theirs)) [
        | inl e ↦
            let (same, ready) = settles_lt s.epoch theirs h m e in
            rw (e, ready, sym same, mismatch_reset) refl
        | inr (inl e) ↦
            let (own, has, also) = (compare_epochs-eq s.epoch theirs).0 e in
            let (same, ready) = settles_eq s.epoch theirs own h e has in
            rw (e, ready, sym same, mismatch_reset) (agree-replied now own c s has)
        | inr (inr e) ↦
            let (same, waits) = settles_gt s.epoch theirs h e in
            rw (e, sym waits, sym same, mismatch_reset) refl
      ]

  -- A node in `EpochMismatch` hears the request of its peer, also in `EpochMismatch`. Before it does
  -- anything else it sends a reply on its links, with the greater of the two epochs, or the first one
  -- if neither end has any. The node has that epoch then, and the peer, when it hears that reply, is
  -- connected under it.
  pub handshake :
      (now id id' : ℕ) (c c' : Common) (node peer : EpochMismatch L C)
      → IsOptEpoch node.epoch
      → IsOptEpoch peer.epoch
      → (r : Common × States L C) × (q : Common × States L C) × (mismatch_link_msg now c node id
            (reset peer.epoch true)
          ≡ replied now
              (top node.epoch peer.epoch)
              (leb (opt_epoch_to_int node.epoch) (opt_epoch_to_int peer.epoch))
              c
              node
              (send_reset (some (top node.epoch peer.epoch)) false node.links))
        × (mismatch_link_msg now c node id (reset peer.epoch true) ≡ some r)
        × (mismatch_link_msg now c' peer id' (reset (some (top node.epoch peer.epoch)) false)
            ≡ some q)
        × (epoch_of r.1 ≡ some (top node.epoch peer.epoch))
        × (epoch_of q.1 ≡ some (top node.epoch peer.epoch))
        × (is_connected q.1 ≡ true)
  unfolding mismatch_link_msg
  handshake now id id' c c' node peer h m =
      let reply : Option Epoch = some (top node.epoch peer.epoch) in
      let (r, heard, (settled, ready)) = mismatch_reset-Settles now peer.epoch true c node h m in
      let (fits, agreed, reached) = answer node.epoch peer.epoch reply h m refl in
      let (q, answered, (settled', ready')) =
        mismatch_reset-Settles now reply false c' peer m fits in
      (
        r,
        q,
        mismatch_reset-replied now peer.epoch c node h m,
        heard,
        answered,
        settled,
        settled' ∙ ap some agreed,
        ready' ∙ reached,
      )
