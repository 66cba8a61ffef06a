-- ===== src/Messages.antt =====
-- src/message_manager.rs: the messages of one epoch, in both directions. `none` is a panic.
pub mod History
pub mod Inbox
pub mod Outbox
pub mod Panics
pub mod Receive
use mathlib.Core.Option
use link_set.Prelude.{Option-cases, inl, inr, ◌≡◌, refl, ◌≤◌}
use link_set.Prelude.{
  ℕ, ◌+◌, List, [], ◌∷◌, Bool, true, false, not, ◌&&◌, ◌||◌, Option, none, some, ltb, ◌==◌,
  if◌then◌else◌,
}
use link_set.Epoch.{u64_max}
use link_set.OrderedMap.{OrderedMap, insert, remove, get, entries_from, entries_before}
use link_set.Slices.{SliceManager}
use link_set.Slices

pub record MessageManager : Type 0 where
  pub epoch : ℕ
  pub outgoing_slices : OrderedMap SliceManager
  pub next_seq : ℕ
  pub incoming_slices : OrderedMap SliceManager
  pub last_ack : ℕ × ℕ

unfoldable pub new : ℕ → MessageManager
new epoch = record {
  epoch = epoch;
  outgoing_slices = [];
  next_seq = 0;
  incoming_slices = [];
  last_ack = (0, 0);
}

-- `next_seq` counts the messages of the epoch, and cannot come to 2 ^ 64.
unfoldable pub insert_msg : List ℕ → MessageManager → MessageManager × ℕ
insert_msg bytes mgr =
    let seq = mgr.next_seq in
    (
      record mgr {
        next_seq = seq + 1;
        outgoing_slices = insert seq (Slices.from_vec mgr.epoch seq bytes) mgr.outgoing_slices;
      },
      seq,
    )

unfoldable pub get_outgoing_slice : ℕ → MessageManager → Option SliceManager
get_outgoing_slice seq mgr = get seq mgr.outgoing_slices

-- The iterator `get_outgoing_slices().take(1).next()` of the caller.
unfoldable pub first_outgoing : MessageManager → Option SliceManager
first_outgoing mgr = elim mgr.outgoing_slices [ [] ↦ none | (s, slice_mgr) ∷ m ↦ some slice_mgr ]

-- `retain` keeps the entries from `seq` on; then the entry at `seq` takes its share.
unfoldable pub recv_ack : ℕ → ℕ → MessageManager → MessageManager
recv_ack seq last_index mgr =
    let kept = entries_from seq mgr.outgoing_slices in
    elim (get seq kept) [
      | none ↦ record mgr { outgoing_slices = kept }
      | some slice_mgr ↦
          let acked = Slices.ack mgr.epoch seq last_index slice_mgr in
          record mgr {
            outgoing_slices =
                if Slices.is_empty acked then remove seq kept else insert seq acked kept;
          }
    ]

-- The sum is only taken for the message that is acknowledged next.
unfoldable pub recv_in_range : ℕ → ℕ → ℕ → MessageManager → Option Bool
recv_in_range seq first_index seq_len mgr =
    if ltb seq mgr.last_ack.0
    then some false
    else if ltb mgr.last_ack.0 seq
    then some true
    else if ltb u64_max (first_index + seq_len)
    then none
    else some (ltb mgr.last_ack.1 (first_index + seq_len))

abbrev pub unwrap_or_default : Option ℕ → ℕ
unwrap_or_default none = 0
unwrap_or_default (some n) = n

-- The `for` loop of `recv` over `range(seq..)`: the new `last_ack`, and `did_change`.
unfoldable pub advance : OrderedMap SliceManager → ℕ × ℕ → Bool → (ℕ × ℕ) × Bool
advance [] last_ack did_change = (last_ack, did_change)
advance ((seq, slice_mgr) ∷ m) last_ack did_change =
    let onward = advance m (seq + 1, 0) true in
    let offset = unwrap_or_default (Slices.last_head_index slice_mgr) in
    if not (seq == last_ack.0)
    then (last_ack, did_change)
    else if Slices.is_full slice_mgr
    then onward
    else ((seq, offset), did_change || (last_ack.0 == seq && last_ack.1 == offset))

-- `entry(seq).or_insert_with(..)`
unfoldable pub incoming_entry : ℕ → ℕ → MessageManager → Option SliceManager
incoming_entry seq seq_len mgr = elim (get seq mgr.incoming_slices) [
  | none ↦ Slices.new mgr.epoch seq seq_len
  | some slice_mgr ↦ some slice_mgr
]

-- The entry that is there, or the one that is made if there is room for its bytes.
unfoldable pub entry_or_blank : ℕ → ℕ → MessageManager → SliceManager
entry_or_blank seq seq_len mgr = elim (get seq mgr.incoming_slices) [
  | none ↦ Slices.blank mgr.epoch seq seq_len
  | some slice_mgr ↦ slice_mgr
]

pub incoming_entry-fits :
    (seq seq_len : ℕ) (mgr : MessageManager)
    → seq_len ≤ Slices.isize_max
    → incoming_entry seq seq_len mgr ≡ some (entry_or_blank seq seq_len mgr)
unfolding incoming_entry entry_or_blank
incoming_entry-fits seq seq_len mgr h = elim (Option-cases (get seq mgr.incoming_slices)) [
  | inl missing ↦
      rw (missing, incoming_entry, entry_or_blank) (Slices.new-blank mgr.epoch seq seq_len h)
  | inr (e, found) ↦ rw (found, incoming_entry, entry_or_blank) refl
]

-- What `recv` does once the slice is in its entry.
unfoldable pub after_slice : ℕ → SliceManager → MessageManager → MessageManager × Bool
after_slice seq slice_mgr mgr =
    let incoming = insert seq slice_mgr mgr.incoming_slices in
    let (last_ack, did_change) = advance (entries_from seq incoming) mgr.last_ack false in
    if ltb mgr.last_ack.0 seq
    then (record mgr { incoming_slices = incoming }, false)
    else (record mgr { incoming_slices = incoming; last_ack = last_ack }, did_change)

unfoldable pub recv : ℕ → ℕ → ℕ → List ℕ → MessageManager → Option (MessageManager × Bool)
recv seq first_index seq_len bytes mgr = elim (recv_in_range seq first_index seq_len mgr) [
  | none ↦ none
  | some false ↦ some (mgr, true)
  | some true ↦ elim (incoming_entry seq seq_len mgr) [
    | none ↦ none
    | some entry ↦
        Option.map (λ slice_mgr. after_slice seq slice_mgr mgr)
          (Slices.recv_slice mgr.epoch seq first_index bytes entry)
  ]
]

-- `data().unwrap()` of each entry.
unfoldable pub unwrap_all : OrderedMap SliceManager → Option (List (List ℕ))
unwrap_all [] = some []
unwrap_all ((seq, slice_mgr) ∷ m) = elim (Slices.contents slice_mgr) [
  | none ↦ none
  | some bytes ↦ Option.map (λ rest. bytes ∷ rest) (unwrap_all m)
]

-- `split_off` at `last_ack.0`, and the swap.
unfoldable pub take_recvd : MessageManager → Option (MessageManager × List (List ℕ))
take_recvd mgr =
    Option.map
      (λ ret.
        (record mgr { incoming_slices = entries_from mgr.last_ack.0 mgr.incoming_slices }, ret))
      (unwrap_all (entries_before mgr.last_ack.0 mgr.incoming_slices))
