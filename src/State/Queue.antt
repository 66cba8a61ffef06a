-- ===== src/State/Queue.antt =====
-- The messages that were queued before the connection, as src/state/states/connected.rs sends
-- them, and panics of the handshake of src/state/states/epoch_mismatch.rs.
use link_set.Prelude.{
  ℕ, ◌+◌, ◌-◌, ◌≡◌, refl, List, [], ◌∷◌, ◌++◌, ◌⊎◌, Bool, ◌||◌, Option, some, arith, ltb, length,
  ◌==◌, Bool-cases, inl, inr, Ordering,
}
use link_set.Epoch.{Epoch, compare_epochs}
use link_set.Epoch.Order.{compare_epochs-eq}
use link_set.Protocol.{closed, err}
use link_set.OrderedMap.{OrderedMap, insert, get}
use link_set.Slices.{from_vec, get_slices, get_slices_of, cut_slices, make_slices}
use link_set.Links.{
  LinkOps, send_each, LinkManager, send_slices, entry_is_closed, entry_max_size, latency,
  max_latency,
}
use link_set.Messages.{MessageManager, insert_msg, get_outgoing_slice}
use link_set.Messages
use link_set.State.{Common, EpochMismatch}
use link_set.State.Moves.{send_queued, mismatch_to_connected}
use link_set.State.Mismatch.{mismatch_reset, agree, adopt, or_one}

pub Ordering-cases : (r : Ordering) → (r ≡ Ordering.lt) ⊎ ((r ≡ Ordering.eq) ⊎ (r ≡ Ordering.gt))
Ordering-cases Ordering.lt = inl refl
Ordering-cases Ordering.eq = inr (inl refl)
Ordering-cases Ordering.gt = inr (inr refl)

-- There is a result.
abbrev pub IsReturned : {A : Type 0} → Option A → Type 0
IsReturned {A} r = (a : A) × (r ≡ some a)

module _ {V : Type 0} where
  pub get-insert_same : (k : ℕ) (v : V) (m : OrderedMap V) → get k (insert k v m) ≡ some v
  unfolding get insert
  get-insert_same k v [] = ground arith
  get-insert_same k v ((j, w) ∷ m) = ground (arith, get-insert_same k v m)

get_slices-from_vec :
    (epoch seq size : ℕ) (bytes : List ℕ) → IsReturned (get_slices (from_vec epoch seq bytes) size)
unfolding get_slices get_slices_of make_slices from_vec
get_slices-from_vec epoch seq size bytes = elim (Bool-cases (length bytes == 0)) [
  | inl e ↦ rw e ([], refl)
  | inr e ↦ rw e (elim (Bool-cases (size == 0)) [
    | inl z ↦ rw z ([], refl)
    | inr z ↦
        rw (e, z)
          (
            cut_slices (length bytes - 1 + 1) bytes epoch seq 0 size (length bytes - 1) ++ [],
            ground arith,
          )
  ])
]

module _ {L : Type 0} ⦃o : LinkOps L⦄ where
  send_slices-from_vec :
      (epoch seq : ℕ) (bytes : List ℕ) (links : LinkManager L)
      → IsReturned (send_slices (from_vec epoch seq bytes) links)
  unfolding send_slices
  send_slices-from_vec epoch seq bytes [] = (([], err closed), refl)
  send_slices-from_vec epoch seq bytes (e ∷ links) =
      let e' = (entry_is_closed e).0 in
      let (rest, sent_rest) = send_slices-from_vec epoch seq bytes links in
      let (ps, made) = get_slices-from_vec epoch seq (entry_max_size e') bytes in
      elim (Bool-cases ((entry_is_closed e).1 || ltb max_latency (latency e'))) [
        | inl skip ↦ rw skip (rest, sent_rest)
        | inr use' ↦ rw (use', made) ((((send_each ps e').0 ∷ links), (send_each ps e').1), refl)
      ]

  send_queued-IsReturned :
      (queued : List (List ℕ)) (mgr : MessageManager) (links : LinkManager L)
      → IsReturned (send_queued queued mgr links)
  unfolding send_queued get_outgoing_slice insert_msg
  send_queued-IsReturned [] mgr links = ((mgr, links), refl)
  send_queued-IsReturned (bytes ∷ queued) mgr links =
      let (sent, e) = send_slices-from_vec mgr.epoch mgr.next_seq bytes links in
      let found =
        get-insert_same mgr.next_seq (from_vec mgr.epoch mgr.next_seq bytes) mgr.outgoing_slices in
      rw (found, send_queued)
        (rw (e, send_queued) (send_queued-IsReturned queued ((insert_msg bytes mgr).0) sent.0))

module _ {L C : Type 0} ⦃o : LinkOps L⦄ where
  mismatch_to_connected-IsReturned :
      (now : ℕ) (e : Epoch) (c : Common) (s : EpochMismatch L C)
      → IsReturned (mismatch_to_connected now e c s)
  unfolding mismatch_to_connected
  mismatch_to_connected-IsReturned now e c s =
      let (r, sent) = send_queued-IsReturned s.queued_msgs (Messages.new e) s.links in
      rw (sent, mismatch_to_connected) (_, refl)

  pub mismatch_reset-IsReturned :
      (now : ℕ) (theirs : Option Epoch) (request : Bool) (c : Common) (s : EpochMismatch L C)
      → IsReturned (mismatch_reset now theirs request c s)
  unfolding mismatch_reset agree adopt
  mismatch_reset-IsReturned now theirs request c s =
      elim (Ordering-cases (compare_epochs s.epoch theirs)) [
        | inl e ↦ rw (e, mismatch_reset) (mismatch_to_connected-IsReturned now (or_one theirs) c _)
        | inr (inl e) ↦
            let (own, has, same) = (compare_epochs-eq s.epoch theirs).0 e in
            rw (e, mismatch_reset) (rw (has, agree) (mismatch_to_connected-IsReturned now own c _))
        | inr (inr e) ↦ rw (e, mismatch_reset) (_, refl)
      ]
