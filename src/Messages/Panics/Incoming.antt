-- ===== src/Messages/Panics/Incoming.antt =====
-- Panics of src/message_manager.rs on the side that receives.
use mathlib.Core.Option
use mathlib.Core.Path.{subst}
use native.Mathlib.Numerals.{add-one}
use link_set.Prelude.{
  none, ℕ, suc, ◌+◌, ◌≤◌, ◌<◌, ◌≡◌, refl, sym, List, [], ◌∷◌, Bool, true, false, some, All, length,
  arith, ltb, ◌==◌, ◌⊎◌, inl, inr, Bool-cases, Option-cases, length-replicate, Ensures, Ensures-if,
  Ensures-bind, Ensures-map, ltb_false→le, not, ◌||◌, min, ◌-◌, take,
}
use link_set.Epoch.{u64_max}
use link_set.OrderedMap.{OrderedMap, insert, get, entries_from, entries_before, IsOrdered}
use link_set.OrderedMap.Split.{All-insert, KeysFrom, All-get, insert-IsOrdered, IsOrdered-KeysFrom}
use link_set.Slices.{SliceManager, remove_slice}
use link_set.Slices
use link_set.Slices.Transfer.{length-copy_at}
use link_set.Messages.{
  MessageManager, recv, take_recvd, unwrap_all, recv_in_range, after_slice, incoming_entry,
  entry_or_blank, incoming_entry-fits, advance,
}
use link_set.Messages.Outbox.{entries_from-IsOrdered}
use link_set.Messages.Panics.{IsKept, HasRoom, IsSound, IsSafeSlice, All-entries_from}

module _ (k : ℕ) (s : SliceManager) (m : OrderedMap SliceManager) (next offset : ℕ)
    (changed : Bool) where
  advance_stop :
      ((k == next) ≡ false) ⊎ (Slices.is_full s ≡ false)
      → (advance ((k, s) ∷ m) (next, offset) changed).0.0 ≡ next
  unfolding advance
  advance_stop (inl apart) = ground (arith, apart)
  advance_stop (inr part) = ground (arith, part)

  advance_pass :
      (k == next) ≡ true
      → Slices.is_full s ≡ true
      → advance ((k, s) ∷ m) (next, offset) changed ≡ advance m (k + 1, 0) true
  unfolding advance
  advance_pass same full = rw (same, full) refl

KeysFrom-IsKept : (n : ℕ) (m : OrderedMap SliceManager) → KeysFrom n m → All (IsKept n) m
KeysFrom-IsKept n [] h = tt
KeysFrom-IsKept n (e ∷ m) h = (inl h.0, KeysFrom-IsKept n m h.1)

abbrev Passes : ℕ → OrderedMap SliceManager → ℕ → Type 0
Passes next m n = (next ≤ n) × All (IsKept n) m

-- The entries that the loop of `recv` passes are whole.
advance-IsKept :
    (m : OrderedMap SliceManager) (next offset : ℕ) (changed : Bool)
    → IsOrdered next m
    → Passes next m (advance m (next, offset) changed).0.0
advance-IsKept [] next offset changed o = (unfold advance in omega arith, tt)
advance-IsKept ((k, s) ∷ m) next offset changed o =
    choose (Bool-cases (k == next)) (Bool-cases (Slices.is_full s))
      (advance-IsKept m (k + 1) 0 true (rw add-one o.1))
  where
    stop :
        ((k == next) ≡ false) ⊎ (Slices.is_full s ≡ false)
        → Passes next ((k, s) ∷ m) (advance ((k, s) ∷ m) (next, offset) changed).0.0
    stop h =
        subst (Passes next ((k, s) ∷ m)) (sym (advance_stop k s m next offset changed h))
          (omega arith, KeysFrom-IsKept next ((k, s) ∷ m) (IsOrdered-KeysFrom next ((k, s) ∷ m) o))

    choose :
        ((k == next) ≡ true) ⊎ ((k == next) ≡ false)
        → (Slices.is_full s ≡ true) ⊎ (Slices.is_full s ≡ false)
        → Passes (k + 1) m (advance m (k + 1, 0) true).0.0
        → Passes next ((k, s) ∷ m) (advance ((k, s) ∷ m) (next, offset) changed).0.0
    choose (inr apart) full rest = stop (inl apart)
    choose (inl same) (inr part) rest = stop (inr part)
    choose (inl same) (inl full) rest =
        subst (λ (r : (ℕ × ℕ) × Bool). Passes next ((k, s) ∷ m) r.0.0)
          (sym (advance_pass k s m next offset changed same full))
          (omega (arith, o.0, rest.0), (inr full, rest.1))

-- What is kept from a key on, and what stands below it.
IsKept-from :
    (n n' : ℕ) (m : OrderedMap SliceManager)
    → All (IsKept n) m
    → All (IsKept n') (entries_from n m)
    → All (IsKept n') m
unfolding entries_from
IsKept-from n n' [] h k = tt
IsKept-from n n' ((j, s) ∷ m) h k = elim (Bool-cases (ltb j n)) [
  | inl before ↦ (inr (ground (arith, h.0, before)), IsKept-from n n' m h.1 (rw before at k))
  | inr after ↦ let k' = rw after at k in (k'.0, IsKept-from n n' m h.1 k'.1)
]

IsKept-mono : (a b : ℕ) (e : ℕ × SliceManager) → b ≤ a → IsKept a e → IsKept b e
IsKept-mono a b e h (inl k) = inl (omega arith)
IsKept-mono a b e h (inr f) = inr f

-- `recv_slice` keeps the size of its message, and does not panic on a safe slice.
recv_slice-total :
    (seq first_index seq_len : ℕ) (bytes : List ℕ) (s : SliceManager) (epoch : ℕ)
    → IsSafeSlice seq_len first_index bytes
    → 0 < length s.bytes
    → Ensures (λ s'. 0 < length s'.bytes) (Slices.recv_slice epoch seq first_index bytes s)
unfolding Slices.recv_slice
recv_slice-total seq first_index seq_len bytes s epoch safe room =
    Ensures-if _ (not (epoch == s.epoch) || not (seq == s.seq)) _ _ (λ e. room)
      (λ e.
        Ensures-if _ (ltb u64_max (first_index + length bytes) || first_index + length bytes == 0) _
          _ (λ e. ground (arith, safe.end_fits, safe.end_positive, e))
          (λ e.
            Ensures-if _ (length s.bytes == 0) _ _ (λ e. ground (arith, e))
              (λ e.
                Ensures-if _
                  (ltb (min (first_index + length bytes - 1) (length s.bytes - 1)) first_index) _ _
                  (λ e. room)
                  (λ e.
                    rw
                      (length-copy_at first_index
                        (take
                          (min (first_index + length bytes - 1) (length s.bytes - 1)
                            - first_index
                            + 1)
                          bytes)
                        s.bytes)
                      room))))

entry_or_blank_room :
    (seq seq_len : ℕ) (mgr : MessageManager)
    → 0 < seq_len
    → All HasRoom mgr.incoming_slices
    → 0 < length (entry_or_blank seq seq_len mgr).bytes
unfolding entry_or_blank Slices.blank
entry_or_blank_room seq seq_len mgr h room = elim (Option-cases (get seq mgr.incoming_slices)) [
  | inl nothing ↦ rw (nothing, entry_or_blank) (rw (length-replicate {A = ℕ} seq_len 0) h)
  | inr (s, found) ↦
      rw (found, entry_or_blank) (All-get HasRoom seq s mgr.incoming_slices room found)
]

recv_in_range-total :
    (seq first_index seq_len : ℕ) (mgr : MessageManager)
    → first_index + seq_len ≤ u64_max
    → Ensures (λ b. (b ≡ true) → mgr.last_ack.0 ≤ seq) (recv_in_range seq first_index seq_len mgr)
unfolding recv_in_range
recv_in_range-total seq first_index seq_len mgr h =
    Ensures-if _ (ltb seq mgr.last_ack.0) _ _ (λ below f. ground arith)
      (λ low.
        Ensures-if _ (ltb mgr.last_ack.0 seq) _ _ (λ above f. ground arith)
          (λ high.
            Ensures-if _ (ltb u64_max (first_index + seq_len)) _ _ (λ e. ground arith)
              (λ e f. ground (arith, low))))

entries_from-IsOrdered_at :
    {V : Type 0} (c lo : ℕ) (m : OrderedMap V) → IsOrdered lo m → IsOrdered c (entries_from c m)
unfolding entries_from
entries_from-IsOrdered_at c lo [] o = tt
entries_from-IsOrdered_at c lo ((j, w) ∷ m) o = elim (Bool-cases (ltb j c)) [
  | inl before ↦ rw before (entries_from-IsOrdered_at c (suc j) m o.1)
  | inr after ↦ rw after (ltb_false→le j c after, entries_from-IsOrdered c (suc j) m o.1)
]

after_slice-IsSound :
    (seq : ℕ) (s : SliceManager) (mgr : MessageManager)
    → IsSound mgr
    → 0 < length s.bytes
    → mgr.last_ack.0 ≤ seq
    → IsSound (after_slice seq s mgr).0
unfolding after_slice
after_slice-IsSound seq s mgr h room le =
    let ordered = insert-IsOrdered 0 seq s mgr.incoming_slices (omega arith) h.ordered in
    let kept = All-insert (IsKept mgr.last_ack.0) seq s mgr.incoming_slices (inl le) h.kept in
    let rooms = All-insert HasRoom seq s mgr.incoming_slices room h.room in
    elim (Bool-cases (ltb mgr.last_ack.0 seq)) [
      | inl later ↦
          rw (later, after_slice)
            (record { cuttable = h.cuttable; ordered = ordered; kept = kept; room = rooms })
      | inr next ↦
          rw (next, after_slice)
            (record {
              cuttable = h.cuttable;
              ordered = ordered;
              kept =
                  let incoming = insert seq s mgr.incoming_slices in
                  let same : seq ≡ mgr.last_ack.0 =
                    omega (arith, ltb_false→le mgr.last_ack.0 seq next) in
                  let from =
                    subst (λ c. IsOrdered c (entries_from seq incoming)) same
                      (entries_from-IsOrdered_at seq 0 incoming ordered) in
                  let passed =
                    advance-IsKept (entries_from seq incoming) mgr.last_ack.0 mgr.last_ack.1 false
                      from in
                  let reached = (advance (entries_from seq incoming) mgr.last_ack false).0.0 in
                  IsKept-from mgr.last_ack.0 reached incoming kept
                    (subst (λ c. All (IsKept reached) (entries_from c incoming)) same passed.1);
              room = rooms;
            })
    ]

pub recv-IsSound :
    (seq first_index seq_len : ℕ) (bytes : List ℕ) (mgr : MessageManager)
    → IsSafeSlice seq_len first_index bytes
    → IsSound mgr
    → Ensures (λ r. IsSound r.0) (recv seq first_index seq_len bytes mgr)
unfolding recv
recv-IsSound seq first_index seq_len bytes mgr safe h =
    Ensures-bind _ _ (recv_in_range seq first_index seq_len mgr) _
      (recv_in_range-total seq first_index seq_len mgr safe.len_fits)
      (λ in_range. received in_range)
  where
    received :
        (in_range : Bool)
        → ((in_range ≡ true) → mgr.last_ack.0 ≤ seq)
        → Ensures
            (λ (r : MessageManager × Bool). IsSound r.0)
            (elim in_range [
              | false ↦ some (mgr, true)
              | true ↦ elim (incoming_entry seq seq_len mgr) [
                | none ↦ none
                | some entry ↦
                    Option.map
                      (λ s. after_slice seq s mgr)
                      (Slices.recv_slice mgr.epoch seq first_index bytes entry)
              ]
            ])
    received false le = h
    received true le = rw (incoming_entry-fits seq seq_len mgr safe.allocates) (
        Ensures-map _ _
          (Slices.recv_slice mgr.epoch seq first_index bytes (entry_or_blank seq seq_len mgr)) _
          (recv_slice-total seq first_index seq_len bytes (entry_or_blank seq seq_len mgr) mgr.epoch
            safe (entry_or_blank_room seq seq_len mgr safe.nonempty h.room))
          (λ s room. after_slice-IsSound seq s mgr h room (le refl)))

contents_full : (s : SliceManager) → Slices.is_full s ≡ true → Slices.contents s ≡ some s.bytes
unfolding Slices.contents
contents_full s full = rw full refl

unwrap_all-total :
    (n : ℕ) (m : OrderedMap SliceManager)
    → All (IsKept n) m
    → Ensures (λ ret. Unit) (unwrap_all (entries_before n m))
unfolding unwrap_all entries_before
unwrap_all-total n [] h = tt
unwrap_all-total n ((k, s) ∷ m) h = elim (Bool-cases (ltb k n)) [
  | inr after ↦ rw after (unwrap_all-total n m h.1)
  | inl before ↦
      let full : Slices.is_full s ≡ true = ground (arith, h.0, before) in
      rw before (
        rw (contents_full s full, unwrap_all)
          (Ensures-map _ _ (unwrap_all (entries_before n m)) _ (unwrap_all-total n m h.1)
            (λ rest e. tt)))
]

pub take_recvd-IsSound :
    (mgr : MessageManager) → IsSound mgr → Ensures (λ r. IsSound r.0) (take_recvd mgr)
unfolding take_recvd
take_recvd-IsSound mgr h =
    Ensures-map _ _ (unwrap_all (entries_before mgr.last_ack.0 mgr.incoming_slices)) _
      (unwrap_all-total mgr.last_ack.0 mgr.incoming_slices h.kept)
      (λ ret e. record {
        cuttable = h.cuttable;
        ordered = entries_from-IsOrdered mgr.last_ack.0 0 mgr.incoming_slices h.ordered;
        kept = All-entries_from _ mgr.last_ack.0 mgr.incoming_slices h.kept;
        room = All-entries_from _ mgr.last_ack.0 mgr.incoming_slices h.room;
      })
