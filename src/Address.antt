-- ===== src/Address.antt =====
-- src/links/address.rs: the address of a peer, its byte form and its text form. A `String` is the
-- list of its bytes in UTF-8, a `Vec<u8>` a list of bytes. Base64 is the package `base64`, behind the
-- record `Base64`.
pub mod Equal
pub mod Bytes
pub mod Text
use link_set.Prelude.{
  ℕ, zero, suc, ◌+◌, List, [], ◌∷◌, ◌++◌, Bool, true, false, ◌&&◌, Option, none, some, ◌==◌, ltb,
  leb, if◌then◌else◌, length, take, drop, get_elem?,
}
use link_set.Protocol.{LinkSetResult, ok, err, LinkSetError, ◌>>=◌}

abbrev pub bytes_eq : List ℕ → List ℕ → Bool
bytes_eq [] [] = true
bytes_eq [] (b ∷ bs) = false
bytes_eq (a ∷ as') [] = false
bytes_eq (a ∷ as') (b ∷ bs) = a == b && bytes_eq as' bs

pub data AddressRepr : Type 0 where
  string : List ℕ → AddressRepr
  bytes : List ℕ → AddressRepr

pub record Address : Type 0 where
  pub scheme : List ℕ
  pub addr : AddressRepr

abbrev pub repr_eq : AddressRepr → AddressRepr → Bool
repr_eq (string a) (string b) = bytes_eq a b
repr_eq (string a) (bytes b) = false
repr_eq (bytes a) (string b) = false
repr_eq (bytes a) (bytes b) = bytes_eq a b

-- The derived `PartialEq`.
abbrev pub address_eq : Address → Address → Bool
address_eq a b = bytes_eq a.scheme b.scheme && repr_eq a.addr b.addr

abbrev pub string_symbol : ℕ
string_symbol = 0

abbrev pub bytes_symbol : ℕ
bytes_symbol = 1

unfoldable pub addr_string : AddressRepr → LinkSetResult (List ℕ)
addr_string (string s) = ok s
addr_string (bytes b) = err LinkSetError.incorrect_addr_type

unfoldable pub addr_bytes : AddressRepr → LinkSetResult (List ℕ)
addr_bytes (string s) = err LinkSetError.incorrect_addr_type
addr_bytes (bytes b) = ok b

unfoldable pub repr_bytes : AddressRepr → List ℕ
repr_bytes (string s) = string_symbol ∷ s
repr_bytes (bytes b) = bytes_symbol ∷ b

unfoldable pub to_bytes : Address → List ℕ
to_bytes a = a.scheme ++ (b':' ∷ repr_bytes a.addr)

-- `iter().position(|b| *b == c)`
unfoldable pub position : ℕ → List ℕ → Option ℕ
position c [] = none
position c (b ∷ bs) =
    if b == c then some 0 else elim (position c bs) [ none ↦ none | some i ↦ some (suc i) ]

-- The check of `String::from_utf8`: how many bytes the character still wants, and between which
-- bounds the next of them lies.
pub record Utf8State : Type 0 where
  pub want : ℕ
  pub low : ℕ
  pub high : ℕ

abbrev pub utf8_start : Utf8State
utf8_start = record { want = 0; low = 128; high = 191 }

unfoldable pub utf8_lead : ℕ → Option Utf8State
utf8_lead b =
    if ltb b 128
    then some utf8_start
    else if ltb b 194
    then none
    else if ltb b 224
    then some (record { want = 1; low = 128; high = 191 })
    else if b == 224
    then some (record { want = 2; low = 160; high = 191 })
    else if b == 237
    then some (record { want = 2; low = 128; high = 159 })
    else if ltb b 240
    then some (record { want = 2; low = 128; high = 191 })
    else if b == 240
    then some (record { want = 3; low = 144; high = 191 })
    else if ltb b 244
    then some (record { want = 3; low = 128; high = 191 })
    else if b == 244
    then some (record { want = 3; low = 128; high = 143 })
    else none

unfoldable pub utf8_cont : ℕ → Utf8State → Option Utf8State
utf8_cont b s =
    if leb s.low b && leb b s.high
    then some (record { want = s.want; low = 128; high = 191 })
    else none

unfoldable pub utf8_next : ℕ → ℕ → Utf8State → Option Utf8State
unfolding utf8_lead utf8_cont
utf8_next b zero s = utf8_lead b
utf8_next b (suc n) s = utf8_cont b (record s { want = n })

unfoldable pub utf8_from : Option Utf8State → List ℕ → Bool
unfolding utf8_next
utf8_from none bs = false
utf8_from (some s) [] = s.want == 0
utf8_from (some s) (b ∷ bs) = utf8_from (utf8_next b s.want s) bs

unfoldable pub is_utf8 : List ℕ → Bool
unfolding utf8_from
is_utf8 bs = utf8_from (some utf8_start) bs

-- `String::from_utf8(..).map_err(..)`
unfoldable pub from_utf8 : List ℕ → LinkSetError → LinkSetResult (List ℕ)
from_utf8 bs why = if is_utf8 bs then ok bs else err why

-- `match symbol`
unfoldable pub read_repr : ℕ → List ℕ → LinkSetResult AddressRepr
unfolding from_utf8
read_repr zero addr = do s ← from_utf8 addr (LinkSetError.deserialize_invalid 0); ok (string s)
read_repr (suc zero) addr = ok (bytes addr)
read_repr symbol addr = err (LinkSetError.deserialize_invalid symbol)

unfoldable pub read_address : List ℕ → ℕ → ℕ → List ℕ → LinkSetResult Address
unfolding from_utf8
read_address scheme delim_byte symbol addr = do
  scheme' ← from_utf8 scheme (LinkSetError.deserialize_invalid delim_byte)
  repr ← read_repr symbol addr
  ok (record { scheme = scheme'; addr = repr })

-- `none` is a panic: an index out of bounds.
unfoldable pub from_bytes_at : Option ℕ → List ℕ → Option (LinkSetResult Address)
from_bytes_at none bs = some (err LinkSetError.deserialize_eof)
from_bytes_at (some delim) bs =
    if ltb (length bs) (delim + 2)
    then some (err LinkSetError.deserialize_eof)
    else elim (get_elem? bs delim) [
      | none ↦ none
      | some delim_byte ↦ elim (get_elem? bs (delim + 1)) [
        | none ↦ none
        | some symbol ↦ some (read_address (take delim bs) delim_byte symbol (drop (delim + 2) bs))
      ]
    ]

unfoldable pub from_bytes : List ℕ → Option (LinkSetResult Address)
unfolding from_bytes_at
from_bytes bs = from_bytes_at (position b':' bs) bs

-- `split_once`
unfoldable pub split_once : ℕ → List ℕ → Option (List ℕ × List ℕ)
split_once c [] = none
split_once c (b ∷ bs) =
    if b == c
    then some ([], bs)
    else elim (split_once c bs) [ none ↦ none | some (xs, ys) ↦ some (b ∷ xs, ys) ]

-- The engine `URL_SAFE` of the package `base64`.
pub record Base64 : Type 0 where
  pub encode : List ℕ → List ℕ
  pub decode : List ℕ → Option (List ℕ)

abbrev pub txt : List ℕ
txt = b't' ∷ b'x' ∷ b't' ∷ []

abbrev pub b64 : List ℕ
b64 = b'b' ∷ b'6' ∷ b'4' ∷ []

module _ (o : Base64) where
  unfoldable pub parse_repr : List ℕ → Option (List ℕ × List ℕ) → Option AddressRepr
  parse_repr remainder none = some (string remainder)
  parse_repr remainder (some (repr, addr)) =
      if bytes_eq repr txt
      then some (string addr)
      else if bytes_eq repr b64
      then elim (o.decode addr) [ none ↦ none | some decoded ↦ some (bytes decoded) ]
      else some (string remainder)

  unfoldable pub parse_address : Option (List ℕ × List ℕ) → Option Address
  unfolding parse_repr
  parse_address none = none
  parse_address (some (scheme, remainder)) =
      elim (parse_repr remainder (split_once b':' remainder)) [
        | none ↦ none
        | some repr ↦ some (record { scheme = scheme; addr = repr })
      ]

  -- `none` is `AddressParseError`.
  unfoldable pub from_str : List ℕ → Option Address
  unfolding parse_address
  from_str s = parse_address (split_once b':' s)

  unfoldable pub display_repr : AddressRepr → List ℕ
  display_repr (string addr) = txt ++ (b':' ∷ addr)
  display_repr (bytes bs) = b64 ++ (b':' ∷ o.encode bs)

  -- `to_string`
  unfoldable pub display : Address → List ℕ
  unfolding display_repr
  display a = a.scheme ++ (b':' ∷ display_repr a.addr)
