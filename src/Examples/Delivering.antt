-- ===== src/Examples/Delivering.antt =====
-- Messages in both directions at concrete inputs.
use mathlib.Core.Path.{subst}
use link_set.Prelude.{
  ℕ, ◌-◌, ◌≡◌, refl, sym, ap, ◌∙◌, List, [], ◌∷◌, length, take, drop, Bool, Option, none, some,
  true, arith, if◌then◌else◌, ◌==◌, ltb,
}
use link_set.OrderedMap.{last_before, first_from, insert, get, entries_from}
use link_set.Slices.{SliceManager}
use link_set.Slices
use link_set.Messages.{
  recv_in_range, after_slice, advance, MessageManager, new, recv, take_recvd, recv_ack,
  get_outgoing_slice, incoming_entry, entry_or_blank,
}
use link_set.Messages.Receive.{messages, Inbox, IsSendable, take_recvd-Inbox, recv-Inbox}
use link_set.Messages.History.{History, History-messages}
use link_set.Messages.Outbox.{unless_empty, get_outgoing_slice-recv_ack}

abbrev sent : ℕ → List ℕ
sent k = k ∷ 7 ∷ 8 ∷ []

sent-IsSendable : IsSendable sent
sent-IsSendable k = (omega arith, omega arith)

new-Inbox : Inbox sent 0 (new 5)
unfolding new
new-Inbox = record { split = ([], [], refl, refl, tt, tt); faithful = tt }

recv-Inbox_example :
    (mgr' : MessageManager) × (changed : Bool) × (recv 0 0
        (length (sent 0))
        (take 2 (drop 0 (sent 0)))
        (new 5)
      ≡ some (mgr', changed))
    × Inbox sent 0 mgr'
recv-Inbox_example =
    recv-Inbox sent 0 0 0 2 (new 5) sent-IsSendable new-Inbox (omega arith) (omega arith)
      (omega arith)

-- One whole message has come, and nothing has been taken.
abbrev whole : MessageManager
whole = record {
  epoch = 5;
  outgoing_slices = [];
  next_seq = 0;
  incoming_slices =
      (0, record { epoch = 5; seq = 0; bytes = 0 ∷ 7 ∷ 8 ∷ []; slices = (0, 2) ∷ [] }) ∷ [];
  last_ack = (1, 0);
}

recv-whole : recv 0 0 (length (sent 0)) (take 3 (drop 0 (sent 0))) (new 5) ≡ some (whole, true)
unfolding recv recv_in_range new incoming_entry after_slice advance Slices.new Slices.blank
    entry_or_blank Slices.recv_slice Slices.add_slice Slices.copy_at Slices.extend_left
    Slices.is_full Slices.absorb insert get entries_from last_before first_from
recv-whole = refl

whole-History : History sent 5 whole []
whole-History =
    History.slice 0 0 3 true History.start (omega arith) (omega arith) (omega arith) recv-whole

History-messages_example : (k : ℕ) × ([] ≡ messages sent 0 k) × Inbox sent k whole
History-messages_example = History-messages sent 5 sent-IsSendable whole-History

abbrev taken : Option (MessageManager × Bool) → MessageManager
taken none = whole
taken (some r) = r.0

whole-Inbox : Inbox sent 0 whole
whole-Inbox =
    let (mgr, changed, e, inbox) =
      recv-Inbox sent 0 0 0 3 (new 5) sent-IsSendable new-Inbox (omega arith) (omega arith)
        (omega arith) in
    subst (λ m. Inbox sent 0 m) (ap taken (sym e ∙ recv-whole)) inbox

take_recvd-Inbox_example :
    (mgr' : MessageManager) × (take_recvd whole ≡ some (mgr', messages sent 0 (1 - 0)))
    × (mgr'.last_ack ≡ whole.last_ack)
    × Inbox sent 1 mgr'
take_recvd-Inbox_example = take_recvd-Inbox sent 0 whole sent-IsSendable whole-Inbox

abbrev outgoing : MessageManager
outgoing = record {
  epoch = 5;
  outgoing_slices =
      (0, record { epoch = 5; seq = 0; bytes = 1 ∷ 2 ∷ []; slices = (0, 1) ∷ [] })
      ∷ (1, record { epoch = 5; seq = 1; bytes = 3 ∷ 4 ∷ []; slices = (0, 1) ∷ [] })
      ∷ [];
  next_seq = 2;
  incoming_slices = [];
  last_ack = (0, 0);
}

get_outgoing_slice-recv_ack_example : get_outgoing_slice 1 (recv_ack 0 1 outgoing) ≡ (
    if ltb 1 0
    then none
    else if 1 == 0
    then elim (get_outgoing_slice 0 outgoing) [
      | none ↦ none
      | some slice_mgr ↦ unless_empty (Slices.ack 5 0 1 slice_mgr)
    ]
    else get_outgoing_slice 1 outgoing)
get_outgoing_slice-recv_ack_example =
    get_outgoing_slice-recv_ack 0 1 1 outgoing (omega arith, (omega arith, tt))
