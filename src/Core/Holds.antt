-- ===== src/Core/Holds.antt =====
-- Panics of the handlers: what holds of a result where there is one, and how a handler that looks
-- at a test or a result passes it on.
use link_set.Prelude.{ℕ, Bool, true, false, Option, none, some, Ordering, ◌≡◌, refl, if◌then◌else◌}
use link_set.Deadline.{Deadline, poll}
use link_set.Links.{LinkOps}
use link_set.Connect.{ConnectorOps}
use link_set.State.{Common, States, Outcome, with_timer}
use link_set.Core.{timer, handle_timer, turn, settled}

-- What holds of a result of a handler, where it does not panic.
abbrev pub Holds {ℓ} : {A : Type 0} → (A → Type ℓ) → Option A → Type ℓ
Holds P none = Unit
Holds P (some a) = P a

-- A test, a comparison and a result that a handler looks at.
pub Holds-if {ℓ} :
    {A : Type 0} (P : A → Type ℓ) (b : Bool) (x y : Option A)
    → Holds P x
    → Holds P y
    → Holds P (if b then x else y)
Holds-if P true x y hx hy = hx
Holds-if P false x y hx hy = hy

pub Holds-order {ℓ} :
    {A : Type 0} (P : A → Type ℓ) (r : Ordering) (x y z : Option A)
    → (r ≡ Ordering.lt → Holds P x)
    → (r ≡ Ordering.eq → Holds P y)
    → (r ≡ Ordering.gt → Holds P z)
    → Holds P (elim r [ Ordering.gt ↦ z | Ordering.eq ↦ y | Ordering.lt ↦ x ])
Holds-order P Ordering.lt x y z hx hy hz = hx refl
Holds-order P Ordering.eq x y z hx hy hz = hy refl
Holds-order P Ordering.gt x y z hx hy hz = hz refl

pub Holds-elim {ℓ} :
    {A B : Type 0} (P : A → Type ℓ) (r : Option B) (n : Option A) (f : B → Option A)
    → Holds P n
    → ((b : B) → Holds P (f b))
    → Holds P (elim r [ none ↦ n | some b ↦ f b ])
Holds-elim P none n f hn hf = hn
Holds-elim P (some b) n f hn hf = hf b

pub Holds-bind {ℓ κ} :
    {A B : Type 0} (P : A → Type ℓ) (Q : B → Type κ) (r : Option B) (f : B → Option A)
    → Holds Q r
    → ((b : B) → Q b → Holds P (f b))
    → Holds P (elim r [ none ↦ none | some b ↦ f b ])
Holds-bind P Q none f hr hf = tt
Holds-bind P Q (some b) f hr hf = hf b hr

pub Holds-map {ℓ κ} :
    {A : Type 0} (P : A → Type ℓ) (Q : A → Type κ) (r : Option A)
    → ((a : A) → P a → Q a)
    → Holds P r
    → Holds Q r
Holds-map P Q none f h = tt
Holds-map P Q (some a) f h = f a h

pub Holds-self : {A : Type 0} (r : Option A) → Holds (λ a. r ≡ some a) r
Holds-self none = tt
Holds-self (some a) = refl

-- A turn of the loop has the result of its handler, where it has one.
pub Holds-settled :
    {L C : Type 0} (P : Common × States L C → Type 0) (r : Outcome L C)
    → Holds P r
    → Holds P (settled r)
unfolding settled
Holds-settled P none h = tt
Holds-settled P (some (c, state)) h = Holds-elim P c.timer none (λ d. some (c, state)) tt (λ d. h)

module _ {L C : Type 0} ⦃o : LinkOps L⦄ ⦃cc : ConnectorOps C⦄ where
  -- The timer fires, or is not ready.
  pub Holds-timer :
      (P : Common × States L C → Type 0) (now : ℕ) (c : Common) (state : States L C)
      → ((d : Deadline) → Holds P (handle_timer now (with_timer (λ t. d) c) state))
      → P (c, state)
      → Holds P (turn (timer now) c state)
  unfolding turn
  Holds-timer P now c state fires early =
      Holds-elim P c.timer _ _ tt
        (λ t. Holds-elim P (poll now t) _ _ tt (λ r. Holds-if P r.1 _ _ (fires r.0) early))
