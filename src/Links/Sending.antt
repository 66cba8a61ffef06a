-- ===== src/Links/Sending.antt =====
-- The size of what is handed to a link.
use link_set.Prelude.{
  ℕ, zero, suc, ◌+◌, ◌-◌, ◌≤◌, ◌<◌, min, List, [], ◌∷◌, Option, none, some, arith, ltb, length,
  take, drop, length-take, All, All-append, ◌==◌, Bool-cases, inl, inr,
}
use link_set.Protocol.{LinkProtocol, msg_slice, serialize}
use link_set.Protocol.Received.{length-serialize}
use link_set.OrderedMap.{OrderedMap}
use link_set.Slices.{
  SliceManager, cut_slices, make_slices, get_slices, get_slices_of, append_slices,
}
use link_set.Links.{LinkOps, LinkEntry, entry_max_size, overhead}

-- A message of at most `limit` bytes.
abbrev pub Fits : ℕ → LinkProtocol → Type 0
Fits limit p = length (serialize p) ≤ limit

abbrev pub AllFit : ℕ → Option (List LinkProtocol) → Type 0
AllFit limit none = Unit
AllFit limit (some ps) = All (Fits limit) ps

append_slices-AllFit :
    (limit : ℕ) (a b : Option (List LinkProtocol))
    → AllFit limit a
    → AllFit limit b
    → AllFit limit (append_slices a b)
append_slices-AllFit limit none b ha hb = tt
append_slices-AllFit limit (some a) none ha hb = tt
append_slices-AllFit limit (some a) (some b) ha hb = All-append (Fits limit) a b ha hb

piece-Fits :
    (bytes : List ℕ) (epoch seq size cursor n : ℕ)
    → n ≤ size
    → Fits (41 + size) (msg_slice epoch seq (length bytes) cursor (take n (drop cursor bytes)))
piece-Fits bytes epoch seq size cursor n h =
    rw (length-serialize (msg_slice epoch seq (length bytes) cursor (take n (drop cursor bytes))))
      (ground (arith, length-take n (drop cursor bytes)))

cut_slices-Fits :
    (fuel : ℕ) (bytes : List ℕ) (epoch seq cursor size end : ℕ)
    → 0 < size
    → All (Fits (41 + size)) (cut_slices fuel bytes epoch seq cursor size end)
unfolding cut_slices
cut_slices-Fits zero bytes epoch seq cursor size end h = tt
cut_slices-Fits (suc fuel) bytes epoch seq cursor size end h =
    let slice_end = min (min (cursor + size - 1) end) (length bytes - 1) in
    let fits = piece-Fits bytes epoch seq size cursor (slice_end + 1 - cursor) (omega arith) in
    let rest = cut_slices-Fits fuel bytes epoch seq (cursor + size) size end h in
    elim (Bool-cases (ltb slice_end cursor)) [
      | inl e ↦ rw e tt
      | inr e ↦ rw e (elim (Bool-cases (ltb end (cursor + size))) [
        | inl q ↦ rw q (fits, tt)
        | inr q ↦ rw q (fits, rest)
      ])
    ]

make_slices-AllFit :
    (bytes : List ℕ) (epoch seq start size end : ℕ)
    → AllFit (41 + size) (make_slices bytes epoch seq start size end)
unfolding make_slices
make_slices-AllFit bytes epoch seq start size end = elim (Bool-cases (size == 0)) [
  | inl e ↦ rw e tt
  | inr e ↦ rw e (elim (Bool-cases (length bytes == 0)) [
    | inl q ↦ rw q tt
    | inr q ↦ rw q (cut_slices-Fits (end + 1) bytes epoch seq start size end (ground arith))
  ])
]

get_slices_of-AllFit :
    (mgr : SliceManager) (size : ℕ) (m : OrderedMap ℕ)
    → AllFit (41 + size) (get_slices_of mgr size m)
unfolding get_slices_of
get_slices_of-AllFit mgr size [] = tt
get_slices_of-AllFit mgr size ((a, b) ∷ m) =
    append_slices-AllFit (41 + size) (make_slices mgr.bytes mgr.epoch mgr.seq a size b)
      (get_slices_of mgr size m) (make_slices-AllFit mgr.bytes mgr.epoch mgr.seq a size b)
      (get_slices_of-AllFit mgr size m)

AllFit-mono : (a b : ℕ) (o : Option (List LinkProtocol)) → a ≤ b → AllFit a o → AllFit b o
AllFit-mono a b none h f = tt
AllFit-mono a b (some []) h f = tt
AllFit-mono a b (some (p ∷ ps)) h f = (omega arith, AllFit-mono a b (some ps) h f.1)

module _ {L : Type 0} ⦃o : LinkOps L⦄ where
  -- The slices that `send_slices` makes for a link with room for the overhead are, as they are
  -- serialized, within the `max_size` of the link.
  pub get_slices-AllFit :
      (mgr : SliceManager) (e : LinkEntry L)
      → overhead ≤ o.max_size e.link
      → AllFit (o.max_size e.link) (get_slices mgr (entry_max_size e))
  unfolding get_slices entry_max_size
  get_slices-AllFit mgr e h =
      AllFit-mono (41 + (o.max_size e.link - overhead)) (o.max_size e.link)
        (get_slices_of mgr (o.max_size e.link - overhead) mgr.slices) (omega arith)
        (get_slices_of-AllFit mgr (o.max_size e.link - overhead) mgr.slices)
