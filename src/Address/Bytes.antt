-- ===== src/Address/Bytes.antt =====
-- The byte form of an address, written and read.
use link_set.Prelude.{
  ℕ, zero, suc, ◌+◌, List, [], ◌∷◌, ◌++◌, true, Option, none, some, ◌≡◌, refl, sym, ap, inl, inr,
  length, drop, get_elem?, arith, le→ltb, lt→ltb, length-append, take-append, ◌∙◌,
}
use link_set.Protocol.{LinkSetResult, ok, err, LinkSetError}
use link_set.Address.{
  Address, AddressRepr, string, bytes, to_bytes, repr_bytes, from_bytes, from_bytes_at,
  read_address, read_repr, from_utf8, is_utf8,
}
use link_set.Address.Equal.{Lacks, Parted-cases, position-append}

-- A text is UTF-8.
abbrev pub IsRepr : AddressRepr → Type 0
IsRepr (string s) = is_utf8 s ≡ true
IsRepr (bytes b) = Unit {0}

-- The scheme is a text with no colon in it, and so is the address, with colons allowed, if it is one.
abbrev pub IsAddress : Address → Type 0
IsAddress a = (is_utf8 a.scheme ≡ true) × Lacks b':' a.scheme × IsRepr a.addr

-- What is read behind the first colon.
abbrev read_behind : List ℕ → List ℕ → LinkSetResult Address
read_behind scheme [] = err LinkSetError.deserialize_eof
read_behind scheme (symbol ∷ addr) = read_address scheme b':' symbol addr

get_elem?-append : (k : ℕ) (xs ys : List ℕ) → get_elem? (xs ++ ys) (length xs + k) ≡ get_elem? ys k
get_elem?-append k [] ys = ap (get_elem? ys) (omega arith)
get_elem?-append k (x ∷ xs) ys =
    ap (get_elem? (x ∷ (xs ++ ys))) {y = suc (length xs + k)} (omega arith)
    ∙ get_elem?-append k xs ys

drop-append_add : (k : ℕ) (xs ys : List ℕ) → drop (length xs + k) (xs ++ ys) ≡ drop k ys
drop-append_add k [] ys = ap (λ n. drop n ys) (omega arith)
drop-append_add k (x ∷ xs) ys =
    ap (λ n. drop n (x ∷ (xs ++ ys))) {y = suc (length xs + k)} (omega arith)
    ∙ drop-append_add k xs ys

from_bytes-append :
    (xs ys : List ℕ) → Lacks b':' xs → from_bytes (xs ++ (b':' ∷ ys)) ≡ some (read_behind xs ys)
unfolding from_bytes from_bytes_at
from_bytes-append xs [] h = rw (position-append b':' xs [] h) (
    rw
      (lt→ltb (length (xs ++ (b':' ∷ []))) (length xs + 2)
        (omega (arith, length-append xs (b':' ∷ []))))
      refl)
from_bytes-append xs (symbol ∷ addr) h =
    let whole = xs ++ (b':' ∷ (symbol ∷ addr)) in
    let delim : get_elem? whole (length xs) ≡ some b':' =
      ap (get_elem? whole) {y = length xs + 0} (omega arith) ∙ get_elem?-append 0 xs _ in
    rw (position-append b':' xs (symbol ∷ addr) h) (
      rw
        (le→ltb (length whole) (length xs + 2)
          (omega (arith, length-append xs (b':' ∷ (symbol ∷ addr)))))
        (rw
          (
            delim,
            get_elem?-append 1 xs (b':' ∷ (symbol ∷ addr)),
            take-append xs (b':' ∷ (symbol ∷ addr)),
            drop-append_add 2 xs (b':' ∷ (symbol ∷ addr)),
          )
          refl))

-- Writing an address whose scheme is a text in UTF-8 with no colon, and which is bytes or a text
-- in UTF-8, and reading the bytes, gives the address.
from_bytes-to_bytes : (a : Address) → IsAddress a → from_bytes (to_bytes a) ≡ some (ok a)
unfolding to_bytes
from_bytes-to_bytes a h =
    from_bytes-append a.scheme (repr_bytes a.addr) h.1
    ∙ ap some (read_repr_bytes a.scheme a.addr h.0 h.2)
  where
    read_repr_bytes :
        (scheme : List ℕ) (repr : AddressRepr)
        → is_utf8 scheme ≡ true
        → IsRepr repr
        → read_behind scheme (repr_bytes repr) ≡ ok (record { scheme = scheme; addr = repr })
    read_repr_bytes scheme (string s) u v =
        unfold repr_bytes read_address read_repr in rw (u, v) refl
    read_repr_bytes scheme (bytes b) u v = unfold repr_bytes read_address read_repr in rw u refl

-- What reading behind a colon can give.
read_behind-IsAddress :
    (xs ys : List ℕ) (a : Address)
    → Lacks b':' xs
    → read_behind xs ys ≡ ok a
    → (to_bytes a ≡ xs ++ (b':' ∷ ys)) × IsAddress a
unfolding read_address read_repr to_bytes repr_bytes from_utf8
read_behind-IsAddress xs [] a lacks h = absurd (ground arith)
read_behind-IsAddress xs (zero ∷ ys) a lacks h = ground arith
read_behind-IsAddress xs (suc zero ∷ ys) a lacks h = ground arith
read_behind-IsAddress xs (suc (suc n) ∷ ys) a lacks h = absurd (ground arith)

-- What an answer of `from_bytes` says of the bytes: which address they are the byte form of, or that
-- they are that of none.
abbrev pub Answers : List ℕ → Option (LinkSetResult Address) → Type 0
Answers bs none = ⊥
Answers bs (some (ok a)) = (to_bytes a ≡ bs) × IsAddress a
Answers bs (some (err e)) = ¬ ((a : Address) × IsAddress a × (to_bytes a ≡ bs))

written :
    (bs : List ℕ) (e : LinkSetError) → from_bytes bs ≡ some (err e) → Answers bs (some (err e))
written bs e h (a, fits, same) = cc (from_bytes-to_bytes a fits, ap from_bytes same, h)

parted-Answers :
    (bs xs ys : List ℕ) (r : LinkSetResult Address)
    → bs ≡ xs ++ (b':' ∷ ys)
    → Lacks b':' xs
    → read_behind xs ys ≡ r
    → Answers bs (some r)
parted-Answers bs xs ys (ok a) q lacks h =
    let (same, fits) = read_behind-IsAddress xs ys a lacks h in (same ∙ sym q, fits)
parted-Answers bs xs ys (err e) q lacks h =
    written bs e (ap from_bytes q ∙ from_bytes-append xs ys lacks ∙ ap some h)

-- Reading any bytes has a result, without a panic: an address of which they are the byte form, with
-- texts that are UTF-8 and no colon in the scheme, or an error, and then they are the byte form of no
-- such address.
pub from_bytes-Answers : (bs : List ℕ) → Answers bs (from_bytes bs)
from_bytes-Answers bs = elim (Parted-cases b':' bs) [
  | inl (away, apart) ↦
      let e : from_bytes bs ≡ some (err LinkSetError.deserialize_eof) =
        unfold from_bytes from_bytes_at in rw away refl in
      rw e (written bs LinkSetError.deserialize_eof e)
  | inr (xs, ys, q, lacks) ↦
      let e = ap from_bytes q ∙ from_bytes-append xs ys lacks in
      rw e (parted-Answers bs xs ys (read_behind xs ys) q lacks refl)
]
