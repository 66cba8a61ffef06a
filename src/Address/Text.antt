-- ===== src/Address/Text.antt =====
-- The text form of an address, printed and parsed.
use link_set.Prelude.{ℕ, List, none, some, ◌≡◌, refl, sym, ap, ◌∙◌, arith, inl, inr}
use link_set.Address.{
  Address, AddressRepr, string, bytes, Base64, from_str, parse_address, parse_repr, display,
  display_repr, split_once, txt, b64,
}
use mathlib.Core.Path.{subst}
use link_set.Address.Equal.{Lacks, Parted-cases, split_once-append}

-- What the text form relies on: decoding gives back what was encoded.
abbrev pub Decodes : Base64 → Type 0
Decodes o = (bs : List ℕ) → o.decode (o.encode bs) ≡ some bs

txt-Lacks : Lacks b':' txt
txt-Lacks = ground arith

b64-Lacks : Lacks b':' b64
b64-Lacks = ground arith

parse_repr-display_repr :
    (o : Base64) (repr : AddressRepr)
    → Decodes o
    → parse_repr o (display_repr o repr) (split_once b':' (display_repr o repr)) ≡ some repr
unfolding display_repr parse_repr
parse_repr-display_repr o (string addr) law = rw (split_once-append b':' txt addr txt-Lacks) refl
parse_repr-display_repr o (bytes bs) law =
    rw (split_once-append b':' b64 (o.encode bs) b64-Lacks) (rw (law bs) refl)

-- Where base64 decodes what it has encoded: parsing what was printed gives the address back, if
-- its scheme has no colon, also where a text that is its address has colons, or reads like a
-- printed one.
pub from_str-display :
    (o : Base64) (a : Address) → Decodes o → Lacks b':' a.scheme → from_str o (display o a) ≡ some a
unfolding from_str display parse_address
from_str-display o a law lacks =
    rw (split_once-append b':' a.scheme (display_repr o a.addr) lacks)
      (rw (parse_repr-display_repr o a.addr law, parse_address) refl)

parsed_scheme :
    (o : Base64) (xs ys : List ℕ) (a : Address)
    → parse_address o (some (xs, ys)) ≡ some a
    → a.scheme ≡ xs
unfolding parse_address
parsed_scheme o xs ys a h = ground arith

-- Whatever text was parsed, with or without a tag, well or ill formed behind the scheme, the text
-- that the address prints as is parsed to the same address.
from_str_normal :
    (o : Base64) (s : List ℕ) (a : Address)
    → Decodes o
    → from_str o s ≡ some a
    → from_str o (display o a) ≡ some a
unfolding from_str
from_str_normal o s a law h = from_str-display o a law (elim (Parted-cases b':' s) [
  | inl (away, apart) ↦ absurd (no_scheme (ap (parse_address o) (sym apart) ∙ h))
  | inr (xs, ys, q, lacks) ↦
      let e =
        ap (parse_address o) (sym (ap (split_once b':') q ∙ split_once-append b':' xs ys lacks))
        ∙ h in
      subst (Lacks b':') (sym (parsed_scheme o xs ys a e)) lacks
])
  where
    no_scheme : {a : Address} → parse_address o none ≡ some a → ⊥
    no_scheme h = unfold parse_address in cc (h)
