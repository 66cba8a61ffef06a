-- ===== src/Core/Sound.antt =====
-- Panics of the core: what its state must be like for the handlers not to panic, and the parts of
-- the handlers of src/state/states/connected.rs that could.
pub mod Commands
pub mod Crash
pub mod Handlers
pub mod Peers
pub mod Runs
use link_set.Prelude.{
  ℕ, List, [], ◌∷◌, Bool, true, false, ◌||◌, Option, none, some, ◌≡◌, refl, ltb, if◌then◌else◌, All,
  Ensures, Ensures-if, Ensures-elim, Ensures-bind, Option-cases, inl, inr,
}
use link_set.Slices.{SliceManager, get_slices}
use link_set.OrderedMap.Split.{All-get}
use link_set.OrderedMap.{OrderedMap}
use link_set.Links.{
  LinkOps, LinkManager, no_links, send_slices, entry_is_closed, entry_max_size, latency,
  max_latency,
}
use link_set.Messages.{
  MessageManager, insert_msg, get_outgoing_slice, first_outgoing, recv, take_recvd,
}
use link_set.Messages.Panics.{
  IsCuttable, IsSound, IsSafeSlice, insert_msg-IsSound, get_slices-total,
}
use link_set.Messages.Panics.Incoming.{recv-IsSound, take_recvd-IsSound}
use link_set.State.{Common, States, Connected}
use link_set.State.Queue.{get-insert_same}
use link_set.State.Moves.{
  send_queued, connected_to_disconnected, connected_to_grace, connected_to_reconnecting,
}
use link_set.State.Online.{
  determine_state, resend, connected_send, connected_slice, hand_over, is_zero,
}

module _ {L C : Type 0} where
  -- The messages of the connection, where there is one, can be cut and given out.
  abbrev pub Sound : Common × States L C → Type 0
  Sound (c, States.disconnected s) = Unit
  Sound (c, States.connecting s) = Unit
  Sound (c, States.epoch_mismatch s) = Unit
  Sound (c, States.connected s) = IsSound s.msg_mgr
  Sound (c, States.reconnecting s) = IsSound s.msg_mgr
  Sound (c, States.grace_period s) = IsSound s.msg_mgr

  pub Sound-if :
      (b : Bool) (x y : Common × States L C) → Sound x → Sound y → Sound (if b then x else y)
  Sound-if true x y hx hy = hx
  Sound-if false x y hx hy = hy

  pub determine_state-Sound :
      (now : ℕ) (c : Common) (s : Connected L C)
      → IsSound s.msg_mgr
      → Sound (determine_state now c s)
  unfolding determine_state connected_to_disconnected connected_to_grace connected_to_reconnecting
  determine_state-Sound now c s h =
      let gone : Common × States L C = connected_to_disconnected c s in
      let waits : Common × States L C = connected_to_grace now c s in
      let tries : Common × States L C = connected_to_reconnecting now c s in
      let stays : Common × States L C = (c, States.connected s) in
      let rests : Common × States L C = if is_zero c.grace_period_timeout then gone else waits in
      let leaves : Common × States L C = if is_zero c.reconnecting_timeout then rests else tries in
      Sound-if (no_links s.links) leaves stays
        (Sound-if (is_zero c.reconnecting_timeout) rests tries
          (Sound-if (is_zero c.grace_period_timeout) gone waits tt h) h)
        h

outgoing :
    (seq : ℕ) (slice_mgr : SliceManager) (mgr : MessageManager)
    → IsSound mgr
    → get_outgoing_slice seq mgr ≡ some slice_mgr
    → IsCuttable slice_mgr
unfolding get_outgoing_slice
outgoing seq slice_mgr mgr h found =
    All-get (λ e. IsCuttable e.1) seq slice_mgr mgr.outgoing_slices h.cuttable found

inserted :
    (bytes : List ℕ) (mgr : MessageManager)
    → (slice_mgr : SliceManager) × (get_outgoing_slice
          (insert_msg bytes mgr).1
          (insert_msg bytes mgr).0
        ≡ some slice_mgr)
unfolding get_outgoing_slice insert_msg
inserted bytes mgr = (_, get-insert_same mgr.next_seq _ mgr.outgoing_slices)

module _ {L : Type 0} ⦃o : LinkOps L⦄ where
  send_slices-total :
      (slice_mgr : SliceManager) (links : LinkManager L)
      → IsCuttable slice_mgr
      → Ensures (λ r. Unit) (send_slices slice_mgr links)
  unfolding send_slices
  send_slices-total slice_mgr [] h = tt
  send_slices-total slice_mgr (e ∷ links) h =
      let e' = (entry_is_closed e).0 in
      Ensures-if _ ((entry_is_closed e).1 || ltb max_latency (latency e')) _ _
        (λ skip. send_slices-total slice_mgr links h)
        (λ use'.
          Ensures-bind _ _ (get_slices slice_mgr (entry_max_size e')) _
            (get_slices-total slice_mgr (entry_max_size e') h) (λ protos made. tt))

  first_outgoing-total :
      (mgr : MessageManager) (links : LinkManager L)
      → (m : OrderedMap SliceManager) → All (λ e. IsCuttable e.1) m
      → Ensures (λ r. Unit) (resend (record mgr { outgoing_slices = m }) links)
  unfolding resend first_outgoing
  first_outgoing-total mgr [] m h = tt
  first_outgoing-total mgr (e ∷ links) [] h = tt
  first_outgoing-total mgr (e ∷ links) ((k, s) ∷ m) h =
      Ensures-bind _ _ (send_slices s (e ∷ links)) _ (send_slices-total s (e ∷ links) h.0)
        (λ r sent. tt)

  pub resend-total :
      (mgr : MessageManager) (links : LinkManager L)
      → IsSound mgr
      → Ensures (λ r. Unit) (resend mgr links)
  resend-total mgr links h = first_outgoing-total mgr links mgr.outgoing_slices h.cuttable

  pub send_queued-IsSound :
      (queued : List (List ℕ)) (mgr : MessageManager) (links : LinkManager L)
      → IsSound mgr
      → Ensures (λ r. IsSound r.0) (send_queued queued mgr links)
  unfolding send_queued
  send_queued-IsSound [] mgr links h = h
  send_queued-IsSound (bytes ∷ queued) mgr links h =
      let (mgr', seq) = insert_msg bytes mgr in
      let sound = insert_msg-IsSound bytes mgr h in
      let (slice_mgr, found) = inserted bytes mgr in
      rw (found, send_queued)
        (Ensures-bind _ _ (send_slices slice_mgr links) _
          (send_slices-total slice_mgr links (outgoing seq slice_mgr mgr' sound found))
          (λ r sent. send_queued-IsSound queued mgr' r.0 sound))

module _ {L C : Type 0} ⦃o : LinkOps L⦄ where
  pub connected_send-Sound :
      (now : ℕ) (bytes : List ℕ) (c : Common) (s : Connected L C)
      → IsSound s.msg_mgr
      → Ensures Sound (connected_send now bytes c s)
  unfolding connected_send
  connected_send-Sound now bytes c s h =
      let inserted = insert_msg bytes s.msg_mgr in
      let sound = insert_msg-IsSound bytes s.msg_mgr h in
      Ensures-elim _ (get_outgoing_slice inserted.1 inserted.0) _ _
        (determine_state-Sound now c _ sound)
        (λ slice_mgr found.
          Ensures-bind _ _ (send_slices slice_mgr s.links) _
            (send_slices-total slice_mgr s.links
              (outgoing inserted.1 slice_mgr inserted.0 sound found))
            (λ r sent. determine_state-Sound now c _ sound))

  pub connected_slice-Sound :
      (now seq seq_len first_index : ℕ) (bytes : List ℕ) (c : Common) (s : Connected L C)
      → IsSafeSlice seq_len first_index bytes
      → IsSound s.msg_mgr
      → Ensures Sound (connected_slice now seq seq_len first_index bytes c s)
  unfolding connected_slice
  connected_slice-Sound now seq seq_len first_index bytes c s safe h =
      Ensures-bind _ _ (recv seq first_index seq_len bytes s.msg_mgr) _
        (recv-IsSound seq first_index seq_len bytes s.msg_mgr safe h)
        (λ r sound.
          Ensures-bind _ _ (take_recvd r.0) _ (take_recvd-IsSound r.0 sound)
            (λ t sound'. determine_state-Sound now _ _ sound'))
