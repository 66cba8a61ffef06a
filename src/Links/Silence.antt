-- ===== src/Links/Silence.antt =====
-- A link that no longer answers, as src/links/link_entry.rs measures it: a ping that is sent while
-- the last one is not answered counts the time between the two as a latency.
use link_set.Prelude.{
  ℕ, ◌+◌, ◌-◌, ◌≤◌, ◌≡◌, refl, List, [], ◌∷◌, some, length, arith, Bool-cases, inl, inr, le→ltb,
}
use link_set.Links.{
  LinkOps, LinkEntry, LinkManager, entry_is_closed, entry_send, end_ping, add_latency, send_ping,
  latency, max_latency, history_len, upkeep,
}

-- Times after `t`, each at least `max_latency` after the one before.
abbrev pub IsSpaced : ℕ → List ℕ → Type 0
IsSpaced t [] = Unit
IsSpaced t (now ∷ times) = (t + max_latency ≤ now) × IsSpaced now times

module _ {L : Type 0} ⦃o : LinkOps L⦄ where
  -- Pings at these times, with no pong between them.
  unfoldable pub ping_at : List ℕ → LinkEntry L → LinkEntry L
  ping_at [] e = e
  ping_at (now ∷ times) e = ping_at times (send_ping now e)

  ping_at-recent :
      (t0 t1 t2 t3 t4 t5 t6 : ℕ) (e : LinkEntry L)
      → e.ping_sent ≡ some t0
      → (ping_at (t1 ∷ t2 ∷ t3 ∷ t4 ∷ t5 ∷ t6 ∷ []) e).recent
        ≡ (t6 - t5) ∷ (t5 - t4) ∷ (t4 - t3) ∷ (t3 - t2) ∷ (t2 - t1) ∷ (t1 - t0) ∷ []
  unfolding ping_at send_ping end_ping entry_send add_latency
  ping_at-recent t0 t1 t2 t3 t4 t5 t6 e sent = rw sent refl

  slow :
      (e : LinkEntry L) (a b c d f g : ℕ)
      → e.recent ≡ a ∷ b ∷ c ∷ d ∷ f ∷ g ∷ []
      → max_latency ≤ a
      → max_latency ≤ b
      → max_latency ≤ c
      → max_latency ≤ d
      → max_latency ≤ f
      → max_latency ≤ g
      → max_latency ≤ latency e
  unfolding latency
  slow e a b c d f g is ha hb hc hd hf hg = rw (is, latency) (rw is (omega arith))

  send_ping-sent : (now : ℕ) (e : LinkEntry L) → (send_ping now e).ping_sent ≡ some now
  unfolding send_ping entry_send
  send_ping-sent now e = refl

  upkeep-slow :
      (e : LinkEntry L) (m : LinkManager L)
      → max_latency ≤ latency (entry_is_closed e).0
      → upkeep (e ∷ m) ≡ upkeep m
  unfolding upkeep
  upkeep-slow e m h = elim (Bool-cases (entry_is_closed e).1) [
    | inl shut ↦ rw shut refl
    | inr opened ↦ rw (opened, le→ltb (latency (entry_is_closed e).0) max_latency h) refl
  ]

  -- A link whose ping is not answered is pinged six more times or more, with at least `max_latency`
  -- between one and the next, and answers none of them: then `upkeep` removes it, whatever its
  -- latency was before, and goes on with the links behind it.
  pub upkeep-ping_at :
      (t : ℕ) (times : List ℕ) (e : LinkEntry L) (m : LinkManager L)
      → e.ping_sent ≡ some t
      → IsSpaced t times
      → history_len ≤ length times
      → upkeep (ping_at times e ∷ m) ≡ upkeep m
  unfolding ping_at
  upkeep-ping_at t ([]) e m sent spaced six = absurd (omega arith)
  upkeep-ping_at t (t1 ∷ []) e m sent spaced six = absurd (omega arith)
  upkeep-ping_at t (t1 ∷ t2 ∷ []) e m sent spaced six = absurd (omega arith)
  upkeep-ping_at t (t1 ∷ t2 ∷ t3 ∷ []) e m sent spaced six = absurd (omega arith)
  upkeep-ping_at t (t1 ∷ t2 ∷ t3 ∷ t4 ∷ []) e m sent spaced six = absurd (omega arith)
  upkeep-ping_at t (t1 ∷ t2 ∷ t3 ∷ t4 ∷ t5 ∷ []) e m sent spaced six = absurd (omega arith)
  upkeep-ping_at t (t1 ∷ t2 ∷ t3 ∷ t4 ∷ t5 ∷ t6 ∷ []) e m sent spaced six = upkeep-slow _ m (
      slow (entry_is_closed (ping_at (t1 ∷ t2 ∷ t3 ∷ t4 ∷ t5 ∷ t6 ∷ []) e)).0 (t6 - t5) (t5 - t4)
        (t4 - t3) (t3 - t2) (t2 - t1) (t1 - t)
        (unfold entry_is_closed in ping_at-recent t t1 t2 t3 t4 t5 t6 e sent) (omega arith)
        (omega arith) (omega arith) (omega arith) (omega arith) (omega arith))
  upkeep-ping_at t (t1 ∷ t2 ∷ t3 ∷ t4 ∷ t5 ∷ t6 ∷ t7 ∷ times) e m sent spaced six =
      upkeep-ping_at t1 (t2 ∷ t3 ∷ t4 ∷ t5 ∷ t6 ∷ t7 ∷ times) (send_ping t1 e) m
        (send_ping-sent t1 e) spaced.1 (omega arith)
