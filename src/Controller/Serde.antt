-- ===== src/Controller/Serde.antt =====
-- src/link_set/serde.rs: messages that the package `serde` can write. The package `bincode` is the
-- parameter `Bincode`: `decode_from_slice` gives a value and how many bytes it read.
use link_set.Prelude.{
  ℕ, List, ◌++◌, Bool, true, false, Option, none, some, ◌≡◌, refl, ap, ◌∙◌, ltb, ◌==◌,
  if◌then◌else◌, length, length-append, arith, ◌⊎◌, inl, inr,
}
use link_set.Epoch.{Epoch}
use link_set.Protocol.{LinkSetError, ok, err}
use link_set.State.{LinkSetMessageInner}
use link_set.Controller.{LinkSetSendable, LinkSetMessage, try_from}

-- `E` and `D` are the errors `EncodeError` and `DecodeError`; `other_string` is the constructor
-- `OtherString` with the text that the source gives it.
pub record Bincode (S E D : Type 0) : Type 0 where
  pub encode_to_vec : S → E ⊎ List ℕ
  pub decode_from_slice : List ℕ → D ⊎ (S × ℕ)
  pub other_string : D

pub data SerdeError (E D : Type 0) : Type 0 where
  encode : E → SerdeError E D
  decode : D → SerdeError E D

abbrev pub forget : {E A : Type 0} → E ⊎ A → Option A
forget (inl e) = none
forget (inr a) = some a

module _ {S E D : Type 0} (b : Bincode S E D) where
  unfoldable pub to_bytes : S → SerdeError E D ⊎ List ℕ
  to_bytes msg = elim (b.encode_to_vec msg) [ inl e ↦ inl (encode e) | inr bytes ↦ inr bytes ]

  -- Bytes behind the value are an error.
  unfoldable pub from_bytes : List ℕ → SerdeError E D ⊎ S
  from_bytes bytes = elim (b.decode_from_slice bytes) [
    | inl e ↦ inl (decode e)
    | inr (msg, len) ↦ if ltb len (length bytes) then inl (decode b.other_string) else inr msg
  ]

  -- The implementation of the trait; what went wrong is not told on.
  abbrev pub sendable : LinkSetSendable S
  sendable = record {
    to_bytes = λ msg. forget (to_bytes msg);
    from_bytes = λ bytes. forget (from_bytes bytes);
  }

module _ {M : Type 0} ⦃m : LinkSetSendable M⦄ where
  try_from-message :
      (bytes : List ℕ) (epoch : Epoch) (o : Option M)
      → m.from_bytes bytes ≡ o
      → try_from (LinkSetMessageInner.message bytes epoch) ≡ elim o [
        | none ↦ err LinkSetError.sendable_deserialization
        | some msg ↦ ok (LinkSetMessage.message msg epoch)
      ]
  unfolding try_from
  try_from-message bytes epoch o e = rw (e, try_from) refl

-- `bincode` reads back what it wrote, and stops where that ends.
abbrev pub ReadsBack : {S E D : Type 0} → Bincode S E D → Type 0
ReadsBack {S} b =
    (msg : S) (bytes rest : List ℕ)
    → b.encode_to_vec msg ≡ inr bytes
    → b.decode_from_slice (bytes ++ rest) ≡ inr (msg, length bytes)

module _ {S E D : Type 0} (b : Bincode S E D) where
  from_bytes-append :
      (msg : S) (bytes rest : List ℕ)
      → ReadsBack b
      → to_bytes b msg ≡ inr bytes
      → from_bytes b (bytes ++ rest)
        ≡ (if length rest == 0 then inr msg else inl (decode b.other_string))
  unfolding to_bytes from_bytes
  from_bytes-append msg bytes rest reads written =
      let encoded : b.encode_to_vec msg ≡ inr bytes = ground (arith, written) in
      let longer = length-append bytes rest in
      rw (reads msg bytes rest encoded, from_bytes) (ground (arith, longer))

  -- Where `bincode` reads back what it wrote: the bytes of a message, with others behind them, are
  -- read as the message if there are no others, and are an error if there are. What the core hands
  -- over with the bytes of a message alone is that message to the user, and with others behind them
  -- the error of deserialization.
  pub try_from-to_bytes :
      (msg : S) (bytes rest : List ℕ) (epoch : Epoch)
      → ReadsBack b
      → to_bytes b msg ≡ inr bytes
      → (from_bytes b (bytes ++ rest)
          ≡ (if length rest == 0 then inr msg else inl (decode b.other_string)))
        × (try_from ⦃m = sendable b⦄ (LinkSetMessageInner.message (bytes ++ rest) epoch) ≡ (
            if length rest == 0
            then ok (LinkSetMessage.message msg epoch)
            else err LinkSetError.sendable_deserialization))
  try_from-to_bytes msg bytes rest epoch reads written =
      let read = from_bytes-append msg bytes rest reads written in
      (read, passed (from_bytes b (bytes ++ rest)) (length rest == 0) refl read)
    where
      passed :
          (r : SerdeError E D ⊎ S) (none_left : Bool)
          → from_bytes b (bytes ++ rest) ≡ r
          → r ≡ (if none_left then inr msg else inl (decode b.other_string))
          → try_from ⦃m = sendable b⦄ (LinkSetMessageInner.message (bytes ++ rest) epoch) ≡ (
              if none_left
              then ok (LinkSetMessage.message msg epoch)
              else err LinkSetError.sendable_deserialization)
      passed r true is e =
          try_from-message ⦃m = sendable b⦄ (bytes ++ rest) epoch (some msg) (ap forget (is ∙ e))
      passed r false is e =
          try_from-message ⦃m = sendable b⦄ (bytes ++ rest) epoch none (ap forget (is ∙ e))
