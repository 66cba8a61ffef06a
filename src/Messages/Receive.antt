-- ===== src/Messages/Receive.antt =====
-- `recv` and `take_recvd` of src/message_manager.rs against the messages that the peer sent.
use mathlib.Core.Path.{subst}
use link_set.Prelude.{
  ℕ, zero, suc, ◌+◌, ◌-◌, ◌≤◌, ◌<◌, ◌^◌, ◌≡◌, refl, sym, ap, ◌∙◌, List, [], ◌∷◌, ◌++◌, some, Bool,
  true, false, arith, ltb, ◌==◌, Bool-cases, Option-cases, inl, inr, ◌⊎◌, length, take, drop, All,
  append_assoc, ltb→lt, ltb_false→le,
}
use link_set.Epoch.{u64_max}
use link_set.OrderedMap.{OrderedMap, insert, get, entries_from, entries_before}
use link_set.OrderedMap.Split.{
  KeysFrom, KeysBelow-mono, IsOrdered-KeysFrom, insert-append, entries_from-append,
  entries_before-append, insert-IsOrdered, All-insert, All-get,
}
use link_set.Slices.{SliceManager}
use link_set.Slices
use link_set.Slices.Transfer.{HoldsHead, recv_slice-HoldsHead}
use link_set.Slices.Delivery.{contents-HoldsHead, blank-HoldsHead}
use link_set.Messages.{
  MessageManager, recv_in_range, entry_or_blank, incoming_entry-fits, after_slice, recv, unwrap_all,
  take_recvd,
}
use link_set.Messages.Inbox.{
  head_length, Faithful, IsReady, IsPending, HoldsHead-head_length, IsReady-KeysBelow,
  IsReady-append, SplitsAt, advance-SplitsAt,
}

-- The messages under the `n` keys from `lo` on.
abbrev pub messages : (ℕ → List ℕ) → ℕ → ℕ → List (List ℕ)
messages sent lo zero = []
messages sent lo (suc n) = sent lo ∷ messages sent (lo + 1) n

-- The messages below `lo` have been taken. Those from `lo` to `last_ack.0` are whole and wait to be
-- taken, the one under `last_ack.0` is not whole, and every entry holds a head of what was sent.
pub record Inbox (sent : ℕ → List ℕ) (lo : ℕ) (mgr : MessageManager) : Type 0 where
  pub split : SplitsAt mgr.incoming_slices lo mgr.last_ack.0
  pub faithful : Faithful sent mgr.epoch mgr.incoming_slices

-- Every message has a byte, and no more than a `Vec` can hold.
abbrev pub IsSendable : (ℕ → List ℕ) → Type 0
IsSendable sent = (k : ℕ) → (0 < length (sent k)) × (length (sent k) < 2 ^ 63)

contents_full :
    (orig : List ℕ) (epoch seq c : ℕ) (mgr : SliceManager)
    → HoldsHead orig epoch seq c mgr
    → 0 < length orig
    → Slices.is_full mgr ≡ true
    → Slices.contents mgr ≡ some orig
unfolding Slices.contents
contents_full orig epoch seq c mgr v p full =
    ground (arith, contents-HoldsHead orig epoch seq c mgr v p)

unwrap_all-IsReady :
    (sent : ℕ → List ℕ) (epoch lo n : ℕ) (m : OrderedMap SliceManager)
    → IsSendable sent
    → IsReady lo (lo + n) m
    → Faithful sent epoch m
    → unwrap_all m ≡ some (messages sent lo n)
unfolding unwrap_all
unwrap_all-IsReady sent epoch lo zero [] s r f = refl
unwrap_all-IsReady sent epoch lo (suc n) [] s r f = absurd (omega arith)
unwrap_all-IsReady sent epoch lo zero ((k, e) ∷ m) s r f =
    absurd (omega (arith, (IsReady-KeysBelow (lo + 1) (lo + zero) m r.2).0))
unwrap_all-IsReady sent epoch lo (suc n) ((k, e) ∷ m) s (here, full, r) f =
    let shift : lo + suc n ≡ lo + 1 + n = omega arith in
    let rest = unwrap_all-IsReady sent epoch (lo + 1) n m s (rw shift at r) f.1 in
    let first = contents_full (sent k) epoch k (head_length e) e f.0 (s k).0 full in
    rw (first, rest, unwrap_all) (ap (λ k'. some (sent k' ∷ messages sent (lo + 1) n)) here)

All-split {ℓ κ} : {A : Type ℓ} (P : A → Type κ) (a b : List A) → All P (a ++ b) → All P a × All P b
All-split P [] b h = (tt, h)
All-split P (x ∷ a) b h = let (l, r) = All-split P a b h.1 in ((h.0, l), r)

-- Taking the received messages never panics. It gives exactly the messages that the peer sent,
-- whole, in the order of their sequence numbers, from the first that was not taken before to the
-- last before `last_ack`, and those are taken from then on.
pub take_recvd-Inbox :
    (sent : ℕ → List ℕ) (lo : ℕ) (mgr : MessageManager)
    → IsSendable sent
    → Inbox sent lo mgr
    → (mgr' : MessageManager) × (take_recvd mgr
        ≡ some (mgr', messages sent lo (mgr.last_ack.0 - lo)))
      × (mgr'.last_ack ≡ mgr.last_ack)
      × Inbox sent mgr.last_ack.0 mgr'
unfolding take_recvd
take_recvd-Inbox sent lo mgr s v =
    let (ready, pending, e, r, o, w) = v.split in
    let next = mgr.last_ack.0 in
    let (le, below) = IsReady-KeysBelow lo next ready r in
    let high = IsOrdered-KeysFrom next pending o in
    let (fr, fp) =
      All-split (λ t. HoldsHead (sent t.0) mgr.epoch t.0 (head_length t.1) t.1) ready pending
        (subst (Faithful sent mgr.epoch) e v.faithful) in
    let count : next ≡ lo + (next - lo) = omega arith in
    let before : entries_before next mgr.incoming_slices ≡ ready =
      ap (entries_before next) e ∙ entries_before-append next ready pending below high in
    let from : entries_from next mgr.incoming_slices ≡ pending =
      ap (entries_from next) e ∙ entries_from-append next ready pending below high in
    let whole =
      unwrap_all-IsReady sent mgr.epoch lo (next - lo) ready s
        (subst (λ h. IsReady lo h ready) count r) fr in
    (
      record mgr { incoming_slices = pending },
      rw (before, from, whole),
      refl,
      record { split = ([], pending, refl, refl, o, w); faithful = fp },
    )

IsPending-insert :
    (next k : ℕ) (e : SliceManager) (m : OrderedMap SliceManager)
    → next < k
    → IsPending next m
    → IsPending next (insert k e m)
unfolding insert
IsPending-insert next k e [] h w = λ s. absurd (ground arith)
IsPending-insert next k e ((j, x) ∷ m) h w = elim (Bool-cases (ltb k j)) [
  | inl before ↦ rw before (λ s. absurd (ground arith))
  | inr after ↦ rw after (elim (Bool-cases (k == j)) [
    | inl same ↦ rw same (λ s. absurd (ground arith))
    | inr apart ↦ rw apart w
  ])
]

-- The entry that a slice goes to holds a head of the message under its key.
entry_or_blank-HoldsHead :
    (sent : ℕ → List ℕ) (seq : ℕ) (mgr : MessageManager)
    → Faithful sent mgr.epoch mgr.incoming_slices
    → let entry = entry_or_blank seq (length (sent seq)) mgr in
      HoldsHead (sent seq) mgr.epoch seq (head_length entry) entry
unfolding entry_or_blank head_length
entry_or_blank-HoldsHead sent seq mgr f = elim (Option-cases (get seq mgr.incoming_slices)) [
  | inl missing ↦
      let fresh = blank-HoldsHead (sent seq) mgr.epoch seq in
      rw (missing, entry_or_blank) (rw (HoldsHead-head_length _ _ _ _ _ fresh) fresh)
  | inr (e, found) ↦
      rw (found, entry_or_blank)
        (All-get (λ t. HoldsHead (sent t.0) mgr.epoch t.0 (head_length t.1) t.1) seq e
          mgr.incoming_slices f found)
]

-- What follows once an entry of the inbox holds a head of its message again.
after_slice-Inbox :
    (sent : ℕ → List ℕ) (lo seq : ℕ) (entry : SliceManager) (mgr : MessageManager)
    → Inbox sent lo mgr
    → mgr.last_ack.0 ≤ seq
    → HoldsHead (sent seq) mgr.epoch seq (head_length entry) entry
    → Inbox sent lo (after_slice seq entry mgr).0
unfolding after_slice
after_slice-Inbox sent lo seq entry mgr v h held =
    let (ready, pending, e, r, o, w) = v.split in
    let next = mgr.last_ack.0 in
    let below = KeysBelow-mono next seq ready h (IsReady-KeysBelow lo next ready r).1 in
    let incoming = insert seq entry mgr.incoming_slices in
    let front : incoming ≡ ready ++ insert seq entry pending =
      ap (insert seq entry) e ∙ insert-append seq entry ready pending below in
    let ordered = insert-IsOrdered next seq entry pending h o in
    let faithful =
      All-insert (λ t. HoldsHead (sent t.0) mgr.epoch t.0 (head_length t.1) t.1) seq entry
        mgr.incoming_slices held v.faithful in
    elim (Bool-cases (ltb next seq)) [
      | inl later ↦ rw later (record {
        split = (
          ready,
          insert seq entry pending,
          front,
          r,
          ordered,
          IsPending-insert next seq entry pending (ltb→lt next seq later) w,
        );
        faithful = faithful;
      })
      | inr now ↦
          let tail = insert seq entry pending in
          let same : seq ≡ next = omega (arith, ltb_false→le next seq now) in
          let from : entries_from seq incoming ≡ tail =
            ap (entries_from seq) front
            ∙ entries_from-append seq ready tail below
                (subst (λ k. KeysFrom k tail) (sym same) (IsOrdered-KeysFrom next tail ordered)) in
          let (ready', pending', e', r', o', w') =
            advance-SplitsAt tail next mgr.last_ack.1 false ordered in
          rw (now, from)
            (record {
              split = (
                ready ++ ready',
                pending',
                front ∙ ap (λ l. ready ++ l) e' ∙ sym (append_assoc ready ready' pending'),
                IsReady-append lo next _ ready ready' r r',
                o',
                w',
              );
              faithful = faithful;
            })
    ]

in_range_cases :
    (seq first_index seq_len : ℕ) (mgr : MessageManager)
    → first_index + seq_len ≤ u64_max
    → (recv_in_range seq first_index seq_len mgr ≡ some false)
      ⊎ ((recv_in_range seq first_index seq_len mgr ≡ some true) × (mgr.last_ack.0 ≤ seq))
unfolding recv_in_range
in_range_cases seq first_index seq_len mgr h = ground arith

-- Receiving any slice of a message that the peer sent does not panic, if the slice begins in the
-- head of the message that is held or right behind it, and keeps the inbox: so for slices of other
-- messages that arrive before it is their turn, and for repeated ones.
pub recv-Inbox :
    (sent : ℕ → List ℕ) (lo seq first n : ℕ) (mgr : MessageManager)
    → IsSendable sent
    → Inbox sent lo mgr
    → 0 < n
    → first + n ≤ length (sent seq)
    → first ≤ head_length (entry_or_blank seq (length (sent seq)) mgr)
    → (mgr' : MessageManager) × (changed : Bool) × (recv seq first
          (length (sent seq))
          (take n (drop first (sent seq)))
          mgr
        ≡ some (mgr', changed))
      × Inbox sent lo mgr'
unfolding recv
recv-Inbox sent lo seq first n mgr s v p inside begins =
    let entry = entry_or_blank seq (length (sent seq)) mgr in
    let held = entry_or_blank-HoldsHead sent seq mgr v.faithful in
    let (entry', taken, held') =
      recv_slice-HoldsHead (sent seq) mgr.epoch seq (head_length entry) first n entry held
        (omega (arith, (s seq).1)) p begins inside in
    elim (in_range_cases seq first (length (sent seq)) mgr (omega (arith, (s seq).1))) [
      | inl old ↦ (mgr, true, rw (old, recv), v)
      | inr (fresh, h) ↦
          let out = after_slice seq entry' mgr in
          (
            out.0,
            out.1,
            rw
                (
                  fresh,
                  incoming_entry-fits seq (length (sent seq)) mgr (omega (arith, (s seq).1)),
                  recv,
                )
                (rw taken refl),
            after_slice-Inbox sent lo seq entry' mgr v h
                (rw (HoldsHead-head_length _ _ _ _ _ held') held'),
          )
    ]
