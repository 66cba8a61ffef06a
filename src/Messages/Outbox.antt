-- ===== src/Messages/Outbox.antt =====
-- The sending side of src/message_manager.rs: what `insert_msg` and `recv_ack` leave to be sent.
use link_set.Prelude.{
  ℕ, suc, ◌≤◌, ◌<◌, ◌≡◌, refl, [], ◌∷◌, Option, none, some, arith, ltb, ◌==◌, if◌then◌else◌,
  Bool-cases, Option-cases, inl, inr,
}
use link_set.OrderedMap.{OrderedMap, insert, remove, get, entries_from, IsOrdered}
use link_set.Slices.{SliceManager}
use link_set.Slices
use link_set.Messages.{MessageManager, recv_ack, get_outgoing_slice}

module _ {ℓ} {V : Type ℓ} where
  get_below : (k lo : ℕ) (m : OrderedMap V) → k < lo → IsOrdered lo m → get k m ≡ none
  unfolding get
  get_below k lo [] h o = refl
  get_below k lo ((j, w) ∷ m) h o = ground (arith, get_below k (suc j) m (omega arith) o.1)

  get-entries_from :
      (c k lo : ℕ) (m : OrderedMap V)
      → IsOrdered lo m
      → get k (entries_from c m) ≡ (if ltb k c then none else get k m)
  unfolding get entries_from
  get-entries_from c k lo [] o = ground arith
  get-entries_from c k lo ((j, w) ∷ m) o = ground (arith, get-entries_from c k (suc j) m o.1)

  get-insert :
      (k j : ℕ) (v : V) (lo : ℕ) (m : OrderedMap V)
      → IsOrdered lo m
      → get j (insert k v m) ≡ (if j == k then some v else get j m)
  unfolding get insert
  get-insert k j v lo [] o = refl
  get-insert k j v lo ((i, w) ∷ m) o = ground (arith, get-insert k j v (suc i) m o.1)

  get-remove :
      (k j lo : ℕ) (m : OrderedMap V)
      → IsOrdered lo m
      → get j (remove k m) ≡ (if j == k then none else get j m)
  unfolding get remove
  get-remove k j lo [] o = ground arith
  get-remove k j lo ((i, w) ∷ m) o =
      ground (arith, get-remove k j (suc i) m o.1, get_below j (suc i) m)

  IsOrdered-mono : (a b : ℕ) (m : OrderedMap V) → a ≤ b → IsOrdered b m → IsOrdered a m
  IsOrdered-mono a b [] h o = tt
  IsOrdered-mono a b ((j, w) ∷ m) h o = (omega arith, o.1)

  pub entries_from-IsOrdered :
      (c lo : ℕ) (m : OrderedMap V) → IsOrdered lo m → IsOrdered lo (entries_from c m)
  unfolding entries_from
  entries_from-IsOrdered c lo [] o = tt
  entries_from-IsOrdered c lo ((j, w) ∷ m) o = elim (Bool-cases (ltb j c)) [
    | inl before ↦ rw before (
        IsOrdered-mono lo (suc j) (entries_from c m) (omega arith)
          (entries_from-IsOrdered c (suc j) m o.1))
    | inr after ↦ rw after (o.0, entries_from-IsOrdered c (suc j) m o.1)
  ]

-- What is left of a message after its share of an acknowledgement.
abbrev pub unless_empty : SliceManager → Option SliceManager
unless_empty mgr = if Slices.is_empty mgr then none else some mgr

-- An acknowledgement of `seq` up to an index drops every message before `seq`, takes its share off
-- the message `seq`, drops that too once all of it is acknowledged, and leaves every later message
-- alone.
pub get_outgoing_slice-recv_ack :
    (seq last_index k : ℕ) (mgr : MessageManager)
    → IsOrdered 0 mgr.outgoing_slices
    → get_outgoing_slice k (recv_ack seq last_index mgr) ≡ (
        if ltb k seq
        then none
        else if k == seq
        then elim (get_outgoing_slice seq mgr) [
          | none ↦ none
          | some slice_mgr ↦ unless_empty (Slices.ack mgr.epoch seq last_index slice_mgr)
        ]
        else get_outgoing_slice k mgr)
unfolding get_outgoing_slice recv_ack
get_outgoing_slice-recv_ack seq last_index k mgr o =
    let kept = entries_from seq mgr.outgoing_slices in
    let kept_ordered = entries_from-IsOrdered seq 0 mgr.outgoing_slices o in
    let here = get-entries_from seq seq 0 mgr.outgoing_slices o in
    let there = get-entries_from seq k 0 mgr.outgoing_slices o in
    elim (Option-cases (get seq kept)) [
      | inl missing ↦ ground (arith, missing, here, there)
      | inr (slice_mgr, found) ↦
          let acked = Slices.ack mgr.epoch seq last_index slice_mgr in
          ground (
            arith,
            found,
            here,
            there,
            get-insert seq k acked 0 kept kept_ordered,
            get-remove seq k 0 kept kept_ordered,
          )
    ]
