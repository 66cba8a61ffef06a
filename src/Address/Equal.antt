-- ===== src/Address/Equal.antt =====
-- The equality of byte strings, and what stands before and behind a separator.
use link_set.Prelude.{
  ℕ, List, [], ◌∷◌, ◌++◌, true, false, none, some, ◌≡◌, refl, ap, ◌≢◌, ◌⊎◌, inl, inr, ◌==◌, length,
  All, arith, Bool-cases,
}
use link_set.Address.{bytes_eq, position, split_once}

pub bytes_eq→≡ : (a b : List ℕ) → bytes_eq a b ≡ true → a ≡ b
bytes_eq→≡ [] [] h = refl
bytes_eq→≡ [] (b ∷ bs) h = ground arith
bytes_eq→≡ (a ∷ as') [] h = ground arith
bytes_eq→≡ (a ∷ as') (b ∷ bs) h = ground (arith, bytes_eq→≡ as' bs)

pub bytes_eq_refl : (a : List ℕ) → bytes_eq a a ≡ true
bytes_eq_refl [] = refl
bytes_eq_refl (a ∷ as') = ground (arith, bytes_eq_refl as')

-- The byte `c` does not occur.
abbrev pub Lacks : ℕ → List ℕ → Type 0
Lacks c bs = All (λ b. b ≢ c) bs

pub position-append :
    (c : ℕ) (xs ys : List ℕ) → Lacks c xs → position c (xs ++ (c ∷ ys)) ≡ some (length xs)
unfolding position
position-append c [] ys h = ground arith
position-append c (x ∷ xs) ys h = ground (arith, position-append c xs ys h.1)

pub split_once-append :
    (c : ℕ) (xs ys : List ℕ) → Lacks c xs → split_once c (xs ++ (c ∷ ys)) ≡ some (xs, ys)
unfolding split_once
split_once-append c [] ys h = ground arith
split_once-append c (x ∷ xs) ys h = ground (arith, split_once-append c xs ys h.1)

-- A byte string lacks `c`, or the first `c` splits it.
abbrev pub Parted : ℕ → List ℕ → Type 0
Parted c bs = (xs : List ℕ) × (ys : List ℕ) × (bs ≡ xs ++ (c ∷ ys)) × Lacks c xs

Parted-at : (c b : ℕ) (bs : List ℕ) → (b == c) ≡ true → Parted c (b ∷ bs)
Parted-at c b bs e = ([], bs, ground arith, tt)

Parted-behind : (c b : ℕ) (bs : List ℕ) → (b == c) ≡ false → Parted c bs → Parted c (b ∷ bs)
Parted-behind c b bs e (xs, ys, q, lacks) =
    (b ∷ xs, ys, ap (λ t. b ∷ t) q, ((λ same. ground arith), lacks))

abbrev pub Unparted : ℕ → List ℕ → Type 0
Unparted c bs = (position c bs ≡ none) × (split_once c bs ≡ none)

pub Parted-cases : (c : ℕ) (bs : List ℕ) → Unparted c bs ⊎ Parted c bs
unfolding position split_once
Parted-cases c [] = inl (refl, refl)
Parted-cases c (b ∷ bs) = elim (Bool-cases (b == c)) [
  | inl e ↦ inr (Parted-at c b bs e)
  | inr e ↦ elim (Parted-cases c bs) [
    | inl (away, apart) ↦ inl (rw (e, away) refl, rw (e, apart) refl)
    | inr parted ↦ inr (Parted-behind c b bs e parted)
  ]
]
