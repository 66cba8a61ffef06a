-- ===== src/Peekable.antt =====
-- src/adaptors/peekable.rs: a link that shows its next message without giving it away. The link inside
-- is a parameter: `recv_link` gives its next message, or none where it fails (the error is boxed
-- unread), and the link afterwards. The other methods only call those of the link inside.
use link_set.Prelude.{ℕ, List, Option, none, some, ◌≡◌, refl}
use link_set.Protocol.{LinkSetResult, ok, err, link_error}

record Peekable (L : Type 0) : Type 0 where
  link : L
  peeked : Option (List ℕ)

unfoldable new : {L : Type 0} → L → Peekable L
new link = record { link = link; peeked = none }

unfoldable take_peeked : {L : Type 0} → Peekable L → Option (List ℕ) × Peekable L
take_peeked p = (p.peeked, record p { peeked = none })

module _ {L : Type 0} (recv_link : L → Option (List ℕ) × L) where
  -- The answer of the link is kept, if it is a message.
  unfoldable fill : Option (List ℕ) × L → LinkSetResult (List ℕ) × Peekable L
  fill (none, link) = (err link_error, record { link = link; peeked = none })
  fill (some new_data, link) = (ok new_data, record { link = link; peeked = some new_data })

  unfoldable peek : Peekable L → LinkSetResult (List ℕ) × Peekable L
  unfolding fill
  peek p = elim p.peeked [ some peeked ↦ (ok peeked, p) | none ↦ fill (recv_link p.link) ]

  -- What was peeked is neither given nor dropped.
  unfoldable recv : Peekable L → Option (List ℕ) × Peekable L
  recv p = let answer = recv_link p.link in (answer.0, record p { link = answer.1 })

  -- A link that has a message next, then answers `later`: peeking twice shows the first message both
  -- times, taking it gives it too, and `recv` in between gives what comes after it.
  peek-new :
      (link rest : L) (msg : List ℕ)
      → recv_link link ≡ (some msg, rest)
      → (peek (new link) ≡ (ok msg, record { link = rest; peeked = some msg }))
        × (peek (peek (new link)).1 ≡ peek (new link))
        × ((take_peeked (peek (new link)).1).0 ≡ some msg)
        × ((recv (peek (new link)).1).0 ≡ (recv_link rest).0)
        × ((take_peeked (recv (peek (new link)).1).1).0 ≡ some msg)
  unfolding peek fill new take_peeked recv
  peek-new link rest msg next = rw next (refl, refl, refl, refl, refl)
