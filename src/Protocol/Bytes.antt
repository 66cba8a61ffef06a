-- ===== src/Protocol/Bytes.antt =====
-- The eight bytes of a u64: `to_be_bytes` and `from_be_bytes`.
use link_set.Prelude.{
  ℕ, zero, suc, ◌+◌, ◌*◌, ◌/◌, ◌%◌, ◌^◌, ◌≤◌, ◌<◌, ◌≡◌, refl, ap, ◌∙◌, List, [], ◌∷◌, ◌++◌, length,
  take, drop, length-append, length-take, length-drop, take-append, drop-append, arith, All, ltb,
  le→ltb, Bool-cases, inl, inr,
}
use link_set.Protocol.{be_bytes, from_be_bytes, u64_bytes, read_u64, ok}
use mathlib.Core.Path.{subst}
use native.Mathlib.Nat.{pow-suc, le_trans}

abbrev pub IsByte : ℕ → Type 0
IsByte b = b < 256

abbrev pub IsU64 : ℕ → Type 0
IsU64 v = v < 2 ^ 64

pub length-be_bytes : (k v : ℕ) → length (be_bytes k v) ≡ k
unfolding be_bytes
length-be_bytes zero v = refl
length-be_bytes (suc k) v =
    omega (arith, length-append (be_bytes k (v / 256)) (v % 256 ∷ []), length-be_bytes k (v / 256))

from_be_bytes-snoc :
    (acc : ℕ) (xs : List ℕ) (b : ℕ)
    → from_be_bytes acc (xs ++ (b ∷ [])) ≡ from_be_bytes acc xs * 256 + b
unfolding from_be_bytes
from_be_bytes-snoc acc [] b = refl
from_be_bytes-snoc acc (x ∷ xs) b = from_be_bytes-snoc (acc * 256 + x) xs b

pub from_be_bytes-be_bytes : (k v : ℕ) → v < 256 ^ k → from_be_bytes 0 (be_bytes k v) ≡ v
unfolding be_bytes
from_be_bytes-be_bytes zero v h = unfold from_be_bytes in omega arith
from_be_bytes-be_bytes (suc k) v h =
    let small : v / 256 < 256 ^ k = omega (arith, pow-suc 256 k) in
    from_be_bytes-snoc 0 (be_bytes k (v / 256)) (v % 256)
    ∙ omega (arith, from_be_bytes-be_bytes k (v / 256) small)

pub length-u64_bytes : (v : ℕ) → length (u64_bytes v) ≡ 8
unfolding u64_bytes
length-u64_bytes v = length-be_bytes 8 v

pub read_u64-u64_bytes :
    (v : ℕ) (rest : List ℕ) → IsU64 v → read_u64 (u64_bytes v ++ rest) ≡ ok (v, rest)
unfolding read_u64
read_u64-u64_bytes v rest h =
    let width = length-u64_bytes v in
    let whole = length-append (u64_bytes v) rest in
    let front =
      subst (λ n. take n (u64_bytes v ++ rest) ≡ u64_bytes v) width
        (take-append (u64_bytes v) rest) in
    let back =
      subst (λ n. drop n (u64_bytes v ++ rest) ≡ rest) width (drop-append (u64_bytes v) rest) in
    rw (le→ltb (length (u64_bytes v ++ rest)) 8 (omega (arith, width, whole)))
      (rw (front, back) (ap (λ n. ok (n, rest)) (from_u64_bytes v h)))
  where
    from_u64_bytes : (v : ℕ) → IsU64 v → from_be_bytes 0 (u64_bytes v) ≡ v
    from_u64_bytes v h = unfold u64_bytes in from_be_bytes-be_bytes 8 v h

byte_step : (acc b p : ℕ) → b < 256 → (acc * 256 + b + 1) * p ≤ (acc + 1) * (p * 256)
byte_step acc b p h = grind arith

from_be_bytes-lt :
    (acc : ℕ) (bs : List ℕ) → All IsByte bs → from_be_bytes acc bs < (acc + 1) * 256 ^ length bs
unfolding from_be_bytes
from_be_bytes-lt acc [] h = omega arith
from_be_bytes-lt acc (b ∷ bs) h =
    le_trans (from_be_bytes-lt (acc * 256 + b) bs h.1)
      (rw (pow-suc 256 (length bs)) (byte_step acc b (256 ^ length bs) h.0))

All-take {ℓ κ} : {A : Type ℓ} (P : A → Type κ) (n : ℕ) (xs : List A) → All P xs → All P (take n xs)
All-take P zero xs h = tt
All-take P (suc n) [] h = tt
All-take P (suc n) (x ∷ xs) h = (h.0, All-take P n xs h.1)

All-drop {ℓ κ} : {A : Type ℓ} (P : A → Type κ) (n : ℕ) (xs : List A) → All P xs → All P (drop n xs)
All-drop P zero xs h = h
All-drop P (suc n) [] h = tt
All-drop P (suc n) (x ∷ xs) h = All-drop P n xs h.1

-- A successful read takes eight bytes off the front, and its value is a u64.
pub read_u64_takes :
    (d : List ℕ) (v : ℕ) (r : List ℕ)
    → All IsByte d
    → read_u64 d ≡ ok (v, r)
    → IsU64 v × All IsByte r × (length d ≡ 8 + length r)
unfolding read_u64
read_u64_takes d v r h e = elim (Bool-cases (ltb (length d) 8)) [
  | inl short ↦ absurd (ground arith)
  | inr enough ↦ ground (arith, small (ground arith), All-drop IsByte 8 d h, length-drop 8 d)
]
  where
    small : 8 ≤ length d → IsU64 (from_be_bytes 0 (take 8 d))
    small n =
        subst (λ k. from_be_bytes 0 (take 8 d) < 1 * 256 ^ k) {y = 8}
          (omega (arith, length-take 8 d)) (from_be_bytes-lt 0 (take 8 d) (All-take IsByte 8 d h))
