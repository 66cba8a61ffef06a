-- ===== src/Links/Choosing.antt =====
-- Which link src/links/link_manager.rs sends on, and which links it gives up.
use link_set.Prelude.{
  List, [], ◌∷◌, ◌++◌, true, false, ◌||◌, some, ◌≡◌, refl, ltb, ◌≤◌, le→ltb, All,
}
use link_set.Protocol.{LinkProtocol, err, closed}
use link_set.Slices.{SliceManager, get_slices}
use link_set.Links.{
  LinkOps, LinkEntry, LinkManager, entry_is_closed, entry_max_size, entry_send, latency,
  max_latency, send_proto, send_slices, send_each,
}

module _ {L : Type 0} ⦃o : LinkOps L⦄ where
  -- A link that is open and not slow, as it is after it was asked.
  abbrev pub asked : LinkEntry L → LinkEntry L
  asked e = (entry_is_closed e).0

  abbrev pub IsUsable : LinkEntry L → Type 0
  IsUsable e = ((entry_is_closed e).1 ≡ false) × (latency (asked e) ≤ max_latency)

  abbrev pub IsUseless : LinkEntry L → Type 0
  IsUseless e = ((entry_is_closed e).1 || ltb max_latency (latency (asked e))) ≡ true

  -- Where some links in front are closed or too slow and the next is neither, `send_proto` sends on
  -- that one, gives its result, removes those in front and leaves those behind; `send_slices` does so
  -- with all slices that are cut for the size of that link, until one fails. Where no link is
  -- usable, both leave none and fail with `Closed`.
  pub send-first :
      (proto : LinkProtocol) (slice_mgr : SliceManager) (protos : List LinkProtocol)
      (front back : LinkManager L) (e : LinkEntry L)
      → All IsUseless front
      → IsUsable e
      → get_slices slice_mgr (entry_max_size (asked e)) ≡ some protos
      → (send_proto proto (front ++ (e ∷ back))
          ≡ ((entry_send proto (asked e)).0 ∷ back, (entry_send proto (asked e)).1))
        × (send_slices slice_mgr (front ++ (e ∷ back))
            ≡ some ((send_each protos (asked e)).0 ∷ back, (send_each protos (asked e)).1))
        × (send_proto proto front ≡ ([], err closed))
        × (send_slices slice_mgr front ≡ some ([], err closed))
  unfolding send_proto send_slices
  send-first proto slice_mgr protos [] back e h (opened, fast) cut =
      let skip : ((entry_is_closed e).1 || ltb max_latency (latency (asked e))) ≡ false =
        rw opened (le→ltb max_latency (latency (asked e)) fast) in
      (rw skip refl, rw (skip, cut) refl, refl, refl)
  send-first proto slice_mgr protos (f ∷ front) back e h use' cut =
      let (a, b, c, d) = send-first proto slice_mgr protos front back e h.1 use' cut in
      (rw h.0 a, rw h.0 b, rw h.0 c, rw h.0 d)
