-- ===== src/Slices/Delivery.antt =====
-- From `from_vec` at one end to `data` at the other: src/slice_manager.rs used by a sender and a
-- receiver.
use mathlib.Core.Path.{subst}
use link_set.Prelude.{
  ℕ, zero, suc, ◌+◌, ◌-◌, ◌≤◌, ◌<◌, ◌≡◌, refl, ◌∙◌, List, [], ◌∷◌, Option, none, some, max, true,
  arith, ◌==◌, if◌then◌else◌, Bool-cases, inl, inr, length, length-replicate, get_elem?,
}
use link_set.Epoch.{u64_max}
use link_set.Protocol.{LinkProtocol, msg_slice, reset, ack, ping, pong}
use link_set.Slices.{
  SliceManager, new, blank, new-blank, isize_max, from_vec, is_full, contents, recv_slice,
  get_slices,
}
use link_set.Slices.Cutting.{IsCut, get_slices-IsCut}
use link_set.Slices.Transfer.{HoldsHead, recv_slice-HoldsHead}

-- The slices of a message, received one after the other; `none` if one of them panics.
unfoldable pub recv_all : List LinkProtocol → SliceManager → Option SliceManager
recv_all [] mgr = some mgr
recv_all (msg_slice epoch seq seq_len first_index bytes ∷ ps) mgr =
    elim (recv_slice epoch seq first_index bytes mgr) [ none ↦ none | some mgr' ↦ recv_all ps mgr' ]
recv_all (reset epoch request ∷ ps) mgr = recv_all ps mgr
recv_all (ack epoch seq last_index ∷ ps) mgr = recv_all ps mgr
recv_all (ping ∷ ps) mgr = recv_all ps mgr
recv_all (pong ∷ ps) mgr = recv_all ps mgr

-- Receiving a run of slices that begins in the held head extends the head to the end of the run:
-- so for the first transmission, and for one that repeats bytes which are held already.
recv_all-HoldsHead :
    (orig : List ℕ) (epoch seq size lo hi c : ℕ) (ps : List LinkProtocol) (mgr : SliceManager)
    → HoldsHead orig epoch seq c mgr
    → length orig ≤ u64_max
    → IsCut orig epoch seq size lo hi ps
    → lo ≤ c
    → hi ≤ length orig
    → (mgr' : SliceManager) × (recv_all ps mgr ≡ some mgr')
      × HoldsHead orig epoch seq (max c hi) mgr'
unfolding recv_all
recv_all-HoldsHead orig epoch seq size lo hi c [] mgr v fits cut h b =
    let stays : c ≡ max c hi = omega arith in (mgr, refl, rw (← stays) v)
recv_all-HoldsHead orig epoch seq size lo hi c (p ∷ ps) mgr v fits (n, e, pos, small, inside, cut) h
      b =
    let (mgr1, received, v1) =
      recv_slice-HoldsHead orig epoch seq c lo n mgr v fits pos h (omega arith) in
    let (mgr2, rest, v2) =
      recv_all-HoldsHead orig epoch seq size (lo + n) hi (max c (lo + n)) ps mgr1 v1 fits cut
        (omega arith) b in
    let total : max (max c (lo + n)) hi ≡ max c hi = omega arith in
    (mgr2, rw (e, received, recv_all) rest, rw total at v2)

get_elem?_ext :
    (xs ys : List ℕ)
    → length xs ≡ length ys
    → ((i : ℕ) → i < length ys → get_elem? xs i ≡ get_elem? ys i)
    → xs ≡ ys
get_elem?_ext [] [] e h = refl
get_elem?_ext [] (y ∷ ys) e h = absurd (omega arith)
get_elem?_ext (x ∷ xs) [] e h = absurd (omega arith)
get_elem?_ext (x ∷ xs) (y ∷ ys) e h =
    let tail = get_elem?_ext xs ys (omega arith) (λ i b. h (suc i) (omega arith)) in
    ground (arith, h 0 (omega arith), tail)

-- A receiver that holds a head of the message gives out the whole message as soon as the head is
-- the whole message, and nothing before.
pub contents-HoldsHead :
    (orig : List ℕ) (epoch seq c : ℕ) (mgr : SliceManager)
    → HoldsHead orig epoch seq c mgr
    → 0 < length orig
    → contents mgr ≡ (if c == length orig then some orig else none)
unfolding contents
contents-HoldsHead orig epoch seq zero mgr v p = rw (v.runs, is_full, contents) (ground arith)
contents-HoldsHead orig epoch seq (suc c) mgr v p =
    rw (v.runs, is_full, contents)
      (elim (Bool-cases (suc c == length orig)) [
        | inl whole ↦
            ground
              (arith, get_elem?_ext mgr.bytes orig v.same_length (λ i b. v.agrees i (ground arith)))
        | inr part ↦ ground (arith, v.same_length)
      ])

pub blank-HoldsHead :
    (orig : List ℕ) (epoch seq : ℕ) → HoldsHead orig epoch seq 0 (blank epoch seq (length orig))
unfolding blank
blank-HoldsHead orig epoch seq = record {
  same_epoch = refl;
  same_seq = refl;
  same_length = length-replicate (length orig) 0;
  in_message = omega arith;
  runs = refl;
  agrees = λ i h. absurd (omega arith);
}

-- The slices of a whole message.
pub from_vec-IsCut :
    (orig : List ℕ) (epoch seq size : ℕ)
    → 0 < length orig
    → 0 < size
    → (ps : List LinkProtocol) × (get_slices (from_vec epoch seq orig) size ≡ some ps)
      × IsCut orig epoch seq size 0 (length orig) ps
from_vec-IsCut orig epoch seq size p s =
    let (ps, cut_ok, cut) =
      get_slices-IsCut (from_vec epoch seq orig) size 0 (length orig - 1)
        (unfold from_vec in ground arith) s (omega arith) (unfold from_vec in omega arith) in
    (ps, cut_ok, same_cut ps cut)
  where
    same_cut :
        (ps : List LinkProtocol)
        → IsCut
            (from_vec epoch seq orig).bytes
            (from_vec epoch seq orig).epoch
            (from_vec epoch seq orig).seq
            size
            0
            (length orig - 1 + 1)
            ps
        → IsCut orig epoch seq size 0 (length orig) ps
    same_cut ps cut =
        unfold from_vec in
        let e : length orig - 1 + 1 ≡ length orig = omega arith in
        subst (λ k. IsCut orig epoch seq size 0 k ps) e cut

-- Receiving the slices of a whole message gives the message.
pub recv_all-IsCut :
    (orig : List ℕ) (epoch seq size : ℕ) (ps : List LinkProtocol)
    → 0 < length orig
    → length orig ≤ u64_max
    → IsCut orig epoch seq size 0 (length orig) ps
    → (mgr : SliceManager) × (recv_all ps (blank epoch seq (length orig)) ≡ some mgr)
      × (contents mgr ≡ some orig)
recv_all-IsCut orig epoch seq size ps p fits cut =
    let (mgr, received, v) =
      recv_all-HoldsHead orig epoch seq size 0 (length orig) 0 ps (blank epoch seq (length orig))
        (blank-HoldsHead orig epoch seq) fits cut (omega arith) (omega arith) in
    let full : max 0 (length orig) == length orig ≡ true = ground arith in
    (mgr, received, contents-HoldsHead orig epoch seq (max 0 (length orig)) mgr v p ∙ rw full)

-- A message of at least one byte, and no more than a `Vec` can hold, arrives: a sender cuts it for any size but 0, a receiver of the
-- same epoch, sequence number and length takes the slices in order without a panic, and gives out
-- the message.
pub contents-recv_all :
    (orig : List ℕ) (epoch seq size : ℕ)
    → 0 < length orig
    → length orig ≤ isize_max
    → 0 < size
    → (ps : List LinkProtocol) × (start : SliceManager) × (mgr : SliceManager) × (get_slices
          (from_vec epoch seq orig)
          size
        ≡ some ps)
      × (new epoch seq (length orig) ≡ some start)
      × (recv_all ps start ≡ some mgr)
      × (contents mgr ≡ some orig)
contents-recv_all orig epoch seq size p fits s =
    let (ps, cut_ok, cut) = from_vec-IsCut orig epoch seq size p s in
    let (mgr, received, whole) = recv_all-IsCut orig epoch seq size ps p (omega arith) cut in
    (
      ps,
      blank epoch seq (length orig),
      mgr,
      cut_ok,
      new-blank epoch seq (length orig) fits,
      received,
      whole,
    )
