-- ===== src/Messages/Panics.antt =====
-- Panics of src/message_manager.rs: what keeps `recv`, `take_recvd` and `get_slices` from them,
-- whatever bytes the peer sends, on the side that sends.
pub mod Incoming
use mathlib.Core.Option
use mathlib.Core.Path.{subst}
use native.Mathlib.Numerals.{add-one}
use link_set.Prelude.{
  ℕ, suc, ◌+◌, ◌≤◌, ◌<◌, ◌≡◌, refl, ap, sym, List, [], ◌∷◌, Bool, true, false, Option, none, some,
  All, length, arith, ltb, ◌==◌, if◌then◌else◌, ◌⊎◌, inl, inr, Bool-cases, Option-cases,
  length-replicate, Ensures, Ensures-if, Ensures-elim, Ensures-bind, Ensures-map, ltb_false→le, not,
  ◌||◌, min, ◌-◌, take,
}
use link_set.Epoch.{u64_max}
use link_set.OrderedMap.{
  OrderedMap, insert, remove, get, entries_from, entries_before, first_from, last_before, IsOrdered,
}
use link_set.OrderedMap.Split.{All-insert, KeysFrom, All-get, insert-IsOrdered, IsOrdered-KeysFrom}
use link_set.Slices.{SliceManager, remove_slice}
use link_set.Slices
use link_set.Protocol.{LinkProtocol}
use link_set.Slices.Transfer.{length-copy_at}
use link_set.Messages.{
  MessageManager, new, insert_msg, recv_ack, recv, take_recvd, unwrap_all, recv_in_range,
  after_slice, incoming_entry, advance, first_outgoing,
}
use link_set.Messages.Outbox.{entries_from-IsOrdered}

-- A message that can be cut: one without bytes has nothing left to send.
abbrev pub IsCuttable : SliceManager → Type 0
IsCuttable s = (s.slices ≡ []) ⊎ (0 < length s.bytes)

-- An entry that is not below `next`, or is whole; and there is room for a byte.
abbrev pub IsKept : ℕ → ℕ × SliceManager → Type 0
IsKept next (k, s) = (next ≤ k) ⊎ (Slices.is_full s ≡ true)

abbrev pub HasRoom : ℕ × SliceManager → Type 0
HasRoom (k, s) = 0 < length s.bytes

pub record IsSound (mgr : MessageManager) : Type 0 where
  pub cuttable : All (λ e. IsCuttable e.1) mgr.outgoing_slices
  pub ordered : IsOrdered 0 mgr.incoming_slices
  pub kept : All (IsKept mgr.last_ack.0) mgr.incoming_slices
  pub room : All HasRoom mgr.incoming_slices

-- A slice that fits `u64`, of a message that is not empty and that a `Vec` can hold.
pub record IsSafeSlice (seq_len first_index : ℕ) (bytes : List ℕ) : Type 0 where
  pub nonempty : 0 < seq_len
  pub end_positive : 0 < first_index + length bytes
  pub end_fits : first_index + length bytes ≤ u64_max
  pub len_fits : first_index + seq_len ≤ u64_max
  pub allocates : seq_len ≤ Slices.isize_max

module _ {ℓ κ} {V : Type ℓ} (P : ℕ × V → Type κ) where
  pub All-entries_from : (c : ℕ) (m : OrderedMap V) → All P m → All P (entries_from c m)
  unfolding entries_from
  All-entries_from c [] h = tt
  All-entries_from c ((j, w) ∷ m) h = elim (Bool-cases (ltb j c)) [
    | inl before ↦ rw before (All-entries_from c m h.1)
    | inr after ↦ rw after (h.0, All-entries_from c m h.1)
  ]

  All-remove : (k : ℕ) (m : OrderedMap V) → All P m → All P (remove k m)
  unfolding remove
  All-remove k [] h = tt
  All-remove k ((j, w) ∷ m) h = elim (Bool-cases (k == j)) [
    | inl same ↦ rw same h.1
    | inr apart ↦ rw apart (h.0, All-remove k m h.1)
  ]

pub new-IsSound : (epoch : ℕ) → IsSound (new epoch)
unfolding new
new-IsSound epoch = record { cuttable = tt; ordered = tt; kept = tt; room = tt }

from_vec-IsCuttable :
    (epoch seq : ℕ) (bytes : List ℕ) → IsCuttable (Slices.from_vec epoch seq bytes)
unfolding Slices.from_vec
from_vec-IsCuttable epoch seq [] = inl refl
from_vec-IsCuttable epoch seq (b ∷ bytes) = inr (omega arith)

pub insert_msg-IsSound :
    (bytes : List ℕ) (mgr : MessageManager) → IsSound mgr → IsSound (insert_msg bytes mgr).0
unfolding insert_msg
insert_msg-IsSound bytes mgr h = record {
  cuttable =
      All-insert _ mgr.next_seq _ mgr.outgoing_slices
        (from_vec-IsCuttable mgr.epoch mgr.next_seq bytes) h.cuttable;
  ordered = h.ordered;
  kept = h.kept;
  room = h.room;
}

remove_slice-nil : (start end : ℕ) → remove_slice start end [] ≡ []
unfolding remove_slice Slices.drop_covered first_from last_before
remove_slice-nil start end = ground arith

ack-IsCuttable :
    (epoch seq last_index : ℕ) (s : SliceManager)
    → IsCuttable s
    → IsCuttable (Slices.ack epoch seq last_index s)
unfolding Slices.ack
ack-IsCuttable epoch seq last_index s (inl e) =
    inl (ground (arith, e, remove_slice-nil 0 last_index))
ack-IsCuttable epoch seq last_index s (inr h) = inr (ground arith)

pub recv_ack-IsSound :
    (seq last_index : ℕ) (mgr : MessageManager)
    → IsSound mgr
    → IsSound (recv_ack seq last_index mgr)
unfolding recv_ack
recv_ack-IsSound seq last_index mgr h =
    let kept = All-entries_from _ seq mgr.outgoing_slices h.cuttable in
    elim (Option-cases (get seq (entries_from seq mgr.outgoing_slices))) [
      | inl nothing ↦
          rw (nothing, recv_ack)
            (record { cuttable = kept; ordered = h.ordered; kept = h.kept; room = h.room })
      | inr (s, found) ↦
          let acked =
            ack-IsCuttable mgr.epoch seq last_index s
              (All-get _ seq s (entries_from seq mgr.outgoing_slices) kept found) in
          rw (found, recv_ack)
            (record {
              cuttable =
                  elim (Bool-cases (Slices.is_empty (Slices.ack mgr.epoch seq last_index s))) [
                    | inl empty ↦ rw empty (All-remove _ seq _ kept)
                    | inr more ↦ rw more (All-insert _ seq _ _ acked kept)
                  ];
              ordered = h.ordered;
              kept = h.kept;
              room = h.room;
            })
    ]

together :
    (a b : Option (List LinkProtocol))
    → Ensures (λ protos. Unit) a
    → Ensures (λ protos. Unit) b
    → Ensures (λ protos. Unit) (Slices.append_slices a b)
together none b ha hb = absurd ha
together (some x) none ha hb = absurd hb
together (some x) (some y) ha hb = tt

-- A message that can be cut is cut for any link.
pub get_slices-total :
    (s : SliceManager) (size : ℕ)
    → IsCuttable s
    → Ensures (λ protos. Unit) (Slices.get_slices s size)
unfolding Slices.get_slices Slices.get_slices_of Slices.make_slices
get_slices-total s size (inl empty) = rw empty tt
get_slices-total s size (inr room) = cut s.slices
  where
    made :
        (start last : ℕ)
        → Ensures
            (λ (protos : List LinkProtocol). Unit)
            (Slices.make_slices s.bytes s.epoch s.seq start size last)
    made start last = ground arith

    cut :
        (m : OrderedMap ℕ)
        → Ensures (λ (protos : List LinkProtocol). Unit) (Slices.get_slices_of s size m)
    cut [] = tt
    cut ((start, last) ∷ m) =
        together (Slices.make_slices s.bytes s.epoch s.seq start size last)
          (Slices.get_slices_of s size m) (made start last) (cut m)
