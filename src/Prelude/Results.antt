-- ===== src/Prelude/Results.antt =====
-- Functions that may panic: there is a result, and it is as stated.
use mathlib.Core.Path.{◌≡◌, refl}
use mathlib.Core.Bool.{Bool, true, false}
use mathlib.Core.Option
use mathlib.Core.Option.{Option, none, some}
use link_set.Prelude.Tests.{if◌then◌else◌}

abbrev pub Ensures : {A : Type 0} → (A → Type 0) → Option A → Type 0
Ensures P none = ⊥
Ensures P (some a) = P a

pub Ensures-if :
    {A : Type 0} (P : A → Type 0) (b : Bool) (x y : Option A)
    → (b ≡ true → Ensures P x)
    → (b ≡ false → Ensures P y)
    → Ensures P (if b then x else y)
Ensures-if P true x y hx hy = hx refl
Ensures-if P false x y hx hy = hy refl

pub Ensures-elim :
    {A B : Type 0} (P : A → Type 0) (r : Option B) (n : Option A) (f : B → Option A)
    → Ensures P n
    → ((b : B) → r ≡ some b → Ensures P (f b))
    → Ensures P (elim r [ none ↦ n | some b ↦ f b ])
Ensures-elim P none n f hn hf = hn
Ensures-elim P (some b) n f hn hf = hf b refl

pub Ensures-bind :
    {A B : Type 0} (P : A → Type 0) (Q : B → Type 0) (r : Option B) (f : B → Option A)
    → Ensures Q r
    → ((b : B) → Q b → Ensures P (f b))
    → Ensures P (elim r [ none ↦ none | some b ↦ f b ])
Ensures-bind P Q none f hr hf = absurd hr
Ensures-bind P Q (some b) f hr hf = hf b hr

pub Ensures-map :
    {A B : Type 0} (P : A → Type 0) (Q : B → Type 0) (r : Option B) (f : B → A)
    → Ensures Q r
    → ((b : B) → Q b → Ensures P (some (f b)))
    → Ensures P (Option.map f r)
Ensures-map P Q none f hr hf = absurd hr
Ensures-map P Q (some b) f hr hf = hf b hr
