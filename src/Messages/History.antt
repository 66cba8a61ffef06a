-- ===== src/Messages/History.antt =====
-- Any history of the receiving side: slices come in, and received messages are taken.
use mathlib.Core.Path.{subst, ap₂}
use link_set.Prelude.{
  ℕ, zero, suc, ◌+◌, ◌-◌, ◌≤◌, ◌<◌, ◌≡◌, refl, ap, ◌∙◌, List, [], ◌∷◌, ◌++◌, some, Bool, arith,
  length, take, drop,
}
use link_set.Messages.{MessageManager, new, entry_or_blank, recv, take_recvd}
use link_set.Messages.Inbox.{head_length, IsReady-KeysBelow}
use link_set.Messages.Receive.{Inbox, IsSendable, messages, recv-Inbox, take_recvd-Inbox}

-- The states that a receiver of `epoch` comes to, each with the messages taken so far. The peer
-- sends slices of `sent`, and each that arrives begins in the held head of its message or right
-- behind it; messages may interleave, overtake one another and repeat.
pub data History (sent : ℕ → List ℕ) (epoch : ℕ) : MessageManager → List (List ℕ) → Type 0 where
  start : History sent epoch (new epoch) []
  slice :
      {mgr mgr' : MessageManager} {out : List (List ℕ)} (seq first n : ℕ) (changed : Bool)
      → History sent epoch mgr out
      → 0 < n
      → first + n ≤ length (sent seq)
      → first ≤ head_length (entry_or_blank seq (length (sent seq)) mgr)
      → recv seq first (length (sent seq)) (take n (drop first (sent seq))) mgr
        ≡ some (mgr', changed)
      → History sent epoch mgr' out
  took :
      {mgr mgr' : MessageManager} {out : List (List ℕ)} (got : List (List ℕ))
      → History sent epoch mgr out
      → take_recvd mgr ≡ some (mgr', got)
      → History sent epoch mgr' (out ++ got)

messages-append :
    (sent : ℕ → List ℕ) (lo a b : ℕ)
    → messages sent lo a ++ messages sent (lo + a) b ≡ messages sent lo (a + b)
messages-append sent lo zero b =
    let e : lo + zero ≡ lo = omega arith in let e' : zero + b ≡ b = omega arith in rw (e, e')
messages-append sent lo (suc a) b =
    let e : lo + suc a ≡ lo + 1 + a = omega arith in
    let e' : suc a + b ≡ suc (a + b) = omega arith in
    rw (e, e') (ap (λ l. sent lo ∷ l) (messages-append sent (lo + 1) a b))

messages_joined :
    (sent : ℕ → List ℕ) (k j : ℕ)
    → k ≤ j
    → messages sent 0 k ++ messages sent k (j - k) ≡ messages sent 0 j
messages_joined sent k j h =
    let e : 0 + k ≡ k = omega arith in
    let e' : k + (j - k) ≡ j = omega arith in
    subst (λ t. messages sent 0 k ++ messages sent t (j - k) ≡ messages sent 0 j) e
      (messages-append sent 0 k (j - k) ∙ ap (messages sent 0) e')

Inbox-le :
    {sent : ℕ → List ℕ} {k : ℕ} {mgr : MessageManager} → Inbox sent k mgr → k ≤ mgr.last_ack.0
Inbox-le {k = k} {mgr = mgr} v =
    let (ready, pending, e, r, o, w) = v.split in (IsReady-KeysBelow k mgr.last_ack.0 ready r).0

new-Inbox : (sent : ℕ → List ℕ) (epoch : ℕ) → Inbox sent 0 (new epoch)
unfolding new
new-Inbox sent epoch = record { split = ([], [], refl, refl, tt, tt); faithful = tt }

-- In every history the messages taken are exactly the first messages that the peer sent, whole and
-- in order, none missing and none twice.
pub History-messages :
    (sent : ℕ → List ℕ) (epoch : ℕ) {mgr : MessageManager} {out : List (List ℕ)}
    → IsSendable sent
    → History sent epoch mgr out
    → (k : ℕ) × (out ≡ messages sent 0 k) × Inbox sent k mgr
History-messages sent epoch s start = (0, refl, new-Inbox sent epoch)
History-messages sent epoch s (slice {mgr} {mgr'} {out} seq first n changed h p inside begins e) =
    let (k, all, v) = History-messages sent epoch s h in
    let (next, c, e', v') = recv-Inbox sent k seq first n mgr s v p inside begins in
    let same : next ≡ mgr' = cc in (k, all, subst (Inbox sent k) same v')
History-messages sent epoch s (took {mgr} {mgr'} {out} got h e) =
    let (k, all, v) = History-messages sent epoch s h in
    let (next, e', last, v') = take_recvd-Inbox sent k mgr s v in
    let same : next ≡ mgr' = cc in
    let took_all : got ≡ messages sent k (mgr.last_ack.0 - k) = cc in
    (
      mgr.last_ack.0,
      ap₂ (λ a b. a ++ b) all took_all ∙ messages_joined sent k mgr.last_ack.0 (Inbox-le v),
      subst (Inbox sent mgr.last_ack.0) same v',
    )
