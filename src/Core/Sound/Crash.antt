-- ===== src/Core/Sound/Crash.antt =====
-- A slice of a message that claims to have no bytes, or too many: src/message_manager.rs makes an
-- entry of that size for it; src/slice_manager.rs subtracts 1 from the size, or cannot allocate it.
use link_set.Prelude.{
  ℕ, ◌<◌, ◌++◌, List, true, none, some, ◌≡◌, refl, ==_iff, arith, lt→ltb, le→ltb, ◌⊎◌, inl, inr,
  ◌∙◌,
}
use link_set.Protocol.{msg_slice, serialize, deserialize, ok}
use link_set.Protocol.RoundTrip.{IsWire, deserialize-serialize}
use link_set.OrderedMap.{get}
use link_set.Slices
use link_set.Links.{LinkOps}
use link_set.Connect.{ConnectorOps}
use link_set.Messages.{MessageManager, recv, recv_in_range, incoming_entry}
use link_set.State.{Common, States, Connected}
use link_set.State.Online.{connected_link_msg, connected_slice}
use link_set.Core.{link_msg, handle_link_msg, handle, turn, settled}

recv_slice_empty :
    (epoch seq first_index : ℕ) (bytes : List ℕ)
    → Slices.recv_slice epoch seq first_index bytes (Slices.blank epoch seq 0) ≡ none
unfolding Slices.recv_slice Slices.blank
recv_slice_empty epoch seq first_index bytes = ground arith

-- A message that is empty, or larger than a `Vec` can be.
abbrev pub IsUnfit : ℕ → Type 0
IsUnfit seq_len = (seq_len ≡ 0) ⊎ (Slices.isize_max < seq_len)

recv_unfit :
    (seq first_index seq_len : ℕ) (bytes : List ℕ) (mgr : MessageManager)
    → IsUnfit seq_len
    → mgr.last_ack.0 < seq
    → get seq mgr.incoming_slices ≡ none
    → recv seq first_index seq_len bytes mgr ≡ none
unfolding recv recv_in_range incoming_entry Slices.new
recv_unfit seq first_index seq_len bytes mgr unfit later fresh =
    let ranged : recv_in_range seq first_index seq_len mgr ≡ some true =
      ground (arith, le→ltb seq mgr.last_ack.0 (omega arith), lt→ltb mgr.last_ack.0 seq later) in
    let made : incoming_entry seq seq_len mgr ≡ Slices.new mgr.epoch seq seq_len =
      rw (fresh, incoming_entry) refl in
    elim unfit [
      | inl none_at_all ↦
          let empty : Slices.new mgr.epoch seq seq_len ≡ some (Slices.blank mgr.epoch seq 0) =
            rw none_at_all (Slices.new-blank mgr.epoch seq 0 (omega arith)) in
          rw (ranged, recv)
            (rw (made ∙ empty) (rw (recv_slice_empty mgr.epoch seq first_index bytes) refl))
      | inr huge ↦
          let panics : Slices.new mgr.epoch seq seq_len ≡ none =
            rw (lt→ltb Slices.isize_max seq_len huge, Slices.new) refl in
          rw (ranged, recv) (rw (made ∙ panics) refl)
    ]

module _ {L C : Type 0} ⦃o : LinkOps L⦄ ⦃cc : ConnectorOps C⦄ where
  -- In Connected, a slice under the epoch of the connection that claims to be of a message without
  -- bytes, or of one larger than a `Vec` can be, has a byte itself and belongs to a later message
  -- than the one to be acknowledged, of which nothing has arrived: it is read from the wire without
  -- an error, and the handler panics.
  pub handle_panics :
      (now id seq seq_len first_index : ℕ) (bytes rest : List ℕ) (c : Common) (s : Connected L C)
      → IsUnfit seq_len
      → IsWire (msg_slice s.epoch seq seq_len first_index bytes)
      → s.msg_mgr.last_ack.0 < seq
      → get seq s.msg_mgr.incoming_slices ≡ none
      → (deserialize (serialize (msg_slice s.epoch seq seq_len first_index bytes) ++ rest)
          ≡ ok (msg_slice s.epoch seq seq_len first_index bytes, rest))
        × (handle
              (link_msg now id (msg_slice s.epoch seq seq_len first_index bytes))
              c
              (States.connected s)
            ≡ none)
  unfolding handle turn settled handle_link_msg connected_link_msg connected_slice
  handle_panics now id seq seq_len first_index bytes rest c s unfit wire later fresh = (
    deserialize-serialize (msg_slice s.epoch seq seq_len first_index bytes) rest wire,
    rw ((==_iff s.epoch s.epoch).1 refl) (
        rw (recv_unfit seq first_index seq_len bytes s.msg_mgr unfit later fresh, connected_slice)
          refl),
  )
