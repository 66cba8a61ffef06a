-- ===== src/Core/Heard.antt =====
-- What src/core.rs tells the controller: the epoch that it hears, and the epochs of the messages.
pub mod Moves
pub mod Commands
pub mod Handlers
pub mod Runs
use link_set.Prelude.{
  ℕ, List, [], ◌∷◌, ◌++◌, Bool, true, false, ◌&&◌, Option, none, some, ◌≡◌, refl, sym, ap, ◌∙◌,
  arith, ◌⊎◌, inl, inr, if◌then◌else◌,
}
use mathlib.Core.Path.{subst}
use link_set.Epoch.{Epoch}
use link_set.Protocol.{LinkSetResult, ok, err, LinkSetError}
use link_set.Links.{LinkOps}
use link_set.State.{
  Common, LinkSetMessageInner, States, send_ctrl, with_timer, arm_timer, wrap_link,
}
use link_set.State.Moves.{attempting, tell_disconnected, determine_timer, wait_for}
use link_set.State.Online.{same_epoch, hand_over}

-- The epoch after a message: `Connected` brings one, and `Disconnected` ends it.
abbrev pub hears : LinkSetMessageInner → Option Epoch → Option Epoch
hears LinkSetMessageInner.disconnected cur = none
hears (LinkSetMessageInner.connected e) cur = some e
hears (LinkSetMessageInner.attempting_connection b) cur = cur
hears (LinkSetMessageInner.message bytes e) cur = cur

-- Whether a message is of the epoch that was heard.
abbrev pub fits : LinkSetMessageInner → Option Epoch → Bool
fits LinkSetMessageInner.disconnected cur = true
fits (LinkSetMessageInner.connected e) cur = true
fits (LinkSetMessageInner.attempting_connection b) cur = true
fits (LinkSetMessageInner.message bytes e) cur = same_epoch cur e

unfoldable pub heard : Option Epoch → List LinkSetMessageInner → Option Epoch
heard cur [] = cur
heard cur (m ∷ ms) = heard (hears m cur) ms

-- Whether each of the messages is of the epoch that was heard before it.
unfoldable pub honest : Option Epoch → List LinkSetMessageInner → Bool
honest cur [] = true
honest cur (m ∷ ms) = fits m cur && honest (hears m cur) ms

heard-append :
    (cur : Option Epoch) (ms : List LinkSetMessageInner) (m : LinkSetMessageInner)
    → heard cur (ms ++ (m ∷ [])) ≡ hears m (heard cur ms)
unfolding heard
heard-append cur [] m = refl
heard-append cur (k ∷ ms) m = heard-append (hears k cur) ms m

honest-append :
    (cur : Option Epoch) (ms : List LinkSetMessageInner) (m : LinkSetMessageInner)
    → honest cur ms ≡ true
    → fits m (heard cur ms) ≡ true
    → honest cur (ms ++ (m ∷ [])) ≡ true
unfolding honest heard
honest-append cur [] m h f = ground arith
honest-append cur (k ∷ ms) m h f = ground (arith, honest-append (hears k cur) ms m)

-- All messages to the controller are of the epoch that it heard before.
abbrev pub Honest : Common → Type 0
Honest c = honest none c.to_ctrl ≡ true

-- And `e` is the epoch that it heard last.
abbrev pub Hears : Epoch → Common → Type 0
Hears e c = Honest c × (heard none c.to_ctrl ≡ some e)

-- While there is a connection, or one to go back to, the controller has heard its epoch.
unfoldable pub InTouch : {L C : Type 0} → Common × States L C → Type 0
InTouch (c, States.disconnected s) = Honest c
InTouch (c, States.connecting s) = Honest c
InTouch (c, States.epoch_mismatch s) = Honest c
InTouch (c, States.connected s) = Hears s.epoch c
InTouch (c, States.reconnecting s) = Hears s.epoch c
InTouch (c, States.grace_period s) = Hears s.epoch c

module _ (c c' : Common) (same : c'.to_ctrl ≡ c.to_ctrl) where
  pub same-Honest : Honest c → Honest c'
  same-Honest h = ap (honest none) same ∙ h

  pub same-Hears : (e : Epoch) → Hears e c → Hears e c'
  same-Hears e h = (ap (honest none) same ∙ h.0, ap (heard none) same ∙ h.1)

pub attempting-Honest : (b : Bool) (c : Common) → Honest c → Honest (attempting b c)
unfolding send_ctrl
attempting-Honest b c h = honest-append none c.to_ctrl _ h refl

pub tell_disconnected-Honest : (c : Common) → Honest c → Honest (tell_disconnected c)
unfolding send_ctrl
tell_disconnected-Honest c h = honest-append none c.to_ctrl _ h refl

pub attempting-Hears : (e : Epoch) (b : Bool) (c : Common) → Hears e c → Hears e (attempting b c)
unfolding send_ctrl
attempting-Hears e b c h = (
  attempting-Honest b c h.0,
  heard-append none c.to_ctrl (LinkSetMessageInner.attempting_connection b) ∙ h.1,
)

pub connected-Hears :
    (e : Epoch) (c : Common) → Honest c → Hears e (send_ctrl (LinkSetMessageInner.connected e) c)
unfolding send_ctrl
connected-Hears e c h = (
  honest-append none c.to_ctrl _ h refl,
  heard-append none c.to_ctrl (LinkSetMessageInner.connected e),
)

message-Hears :
    (e : Epoch) (bytes : List ℕ) (c : Common)
    → Hears e c
    → Hears e (send_ctrl (LinkSetMessageInner.message bytes e) c)
unfolding send_ctrl
message-Hears e bytes c h = (
  honest-append none c.to_ctrl (LinkSetMessageInner.message bytes e) h.0 (rw h.1 (ground arith)),
  heard-append none c.to_ctrl (LinkSetMessageInner.message bytes e) ∙ h.1,
)

pub hand_over-Hears :
    (e : Epoch) (ms : List (List ℕ)) (c : Common) → Hears e c → Hears e (hand_over e ms c)
unfolding hand_over
hand_over-Hears e [] c h = h
hand_over-Hears e (m ∷ ms) c h =
    hand_over-Hears e ms (send_ctrl (LinkSetMessageInner.message m e) c) (message-Hears e m c h)

pub determine_timer-Honest : (now : ℕ) (c : Common) → Honest c → Honest (determine_timer now c)
determine_timer-Honest now c h = same-Honest c (determine_timer now c) (same now c) h
  where
    same : (now : ℕ) (c : Common) → (determine_timer now c).to_ctrl ≡ c.to_ctrl
    same now c = unfold determine_timer with_timer arm_timer in ground arith

pub wait_for-Hears :
    (e : Epoch) (now : ℕ) (t : Option ℕ) (c : Common) → Hears e c → Hears e (wait_for now t c)
unfolding with_timer arm_timer
wait_for-Hears e now none c h = h
wait_for-Hears e now (some t) c h = h

module _ {L : Type 0} ⦃o : LinkOps L⦄ where
  wrap_link_to_ctrl : (l : L) (c : Common) → ((wrap_link l c).0).to_ctrl ≡ c.to_ctrl
  unfolding wrap_link
  wrap_link_to_ctrl l c = ground arith

  pub wrap_link-Honest : (l : L) (c : Common) → Honest c → Honest (wrap_link l c).0
  wrap_link-Honest l c h = same-Honest c (wrap_link l c).0 (wrap_link_to_ctrl l c) h

  pub wrap_link-Hears : (e : Epoch) (l : L) (c : Common) → Hears e c → Hears e (wrap_link l c).0
  wrap_link-Hears e l c h = same-Hears c (wrap_link l c).0 (wrap_link_to_ctrl l c) e h

pub on_test {κ} :
    {B : Type 0} (P : B → Type κ) (b : Bool) (x y : B) → P x → P y → P (if b then x else y)
on_test P true x y hx hy = hx
on_test P false x y hx hy = hy
