-- ===== src/Protocol/Truncation.antt =====
-- Reading input that is cut short, or that has more behind it.
use link_set.Prelude.{
  ℕ, zero, suc, ◌≤◌, ◌≡◌, refl, List, [], ◌∷◌, ◌++◌, append-nil, length, length-append, arith, ltb,
  ◌==◌, take_append_le, drop_append_le, Bool-cases, inl, inr, le→ltb,
}
use link_set.Protocol.{
  LinkProtocol, serialize, deserialize, ok, err, LinkSetResult, deserialize_eof,
  deserialize_invalid, deserialize_invalid_len, link_error, implementation, closed,
  incorrect_addr_type, sendable_serialization, sendable_deserialization, receiver_taken, terminated,
  read_u64, read_u64_checked, read_data, pop_front, deserialize_variant, deserialize_reset,
  deserialize_ack, deserialize_slice, ◌>>=◌,
}
use link_set.Protocol.RoundTrip.{IsWire, deserialize-serialize}

-- What a reader's answer becomes when `more` is put behind its input: a value stays with the rest
-- extended, an error other than the end of input stays, and the end of input says nothing.
abbrev Keeps {ℓ} :
    {A : Type ℓ} → LinkSetResult (A × List ℕ) → List ℕ → LinkSetResult (A × List ℕ) → Type ℓ
Keeps (ok (a, r)) more q = q ≡ ok (a, r ++ more)
Keeps (err deserialize_eof) more q = Unit
Keeps (err (deserialize_invalid b)) more q = q ≡ err (deserialize_invalid b)
Keeps (err deserialize_invalid_len) more q = q ≡ err deserialize_invalid_len
Keeps (err link_error) more q = q ≡ err link_error
Keeps (err (implementation a b)) more q = q ≡ err (implementation a b)
Keeps (err closed) more q = q ≡ err closed
Keeps (err incorrect_addr_type) more q = q ≡ err incorrect_addr_type
Keeps (err sendable_serialization) more q = q ≡ err sendable_serialization
Keeps (err sendable_deserialization) more q = q ≡ err sendable_deserialization
Keeps (err receiver_taken) more q = q ≡ err receiver_taken
Keeps (err terminated) more q = q ≡ err terminated

abbrev IsPrefixReader {ℓ} : {A : Type ℓ} → (List ℕ → LinkSetResult (A × List ℕ)) → Type ℓ
IsPrefixReader p = (d more : List ℕ) → Keeps (p d) more (p (d ++ more))

then_Keeps {ℓ κ} :
    {A : Type ℓ} {B : Type κ} (x y : LinkSetResult (A × List ℕ)) (more : List ℕ)
    (f : A × List ℕ → LinkSetResult (B × List ℕ))
    → Keeps x more y
    → ((a : A) (d : List ℕ) → Keeps (f (a, d)) more (f (a, d ++ more)))
    → Keeps (x >>= f) more (y >>= f)
then_Keeps {B} (ok (a, r)) y more f k g = rw k (g a r)
then_Keeps (err deserialize_eof) y more f k g = tt
then_Keeps (err (deserialize_invalid b)) y more f k g = rw k
then_Keeps (err deserialize_invalid_len) y more f k g = rw k
then_Keeps (err link_error) y more f k g = rw k
then_Keeps (err (implementation a b)) y more f k g = rw k
then_Keeps (err closed) y more f k g = rw k
then_Keeps (err incorrect_addr_type) y more f k g = rw k
then_Keeps (err sendable_serialization) y more f k g = rw k
then_Keeps (err sendable_deserialization) y more f k g = rw k
then_Keeps (err receiver_taken) y more f k g = rw k
then_Keeps (err terminated) y more f k g = rw k

pop_front-IsPrefixReader : IsPrefixReader pop_front
unfolding pop_front
pop_front-IsPrefixReader [] more = tt
pop_front-IsPrefixReader (b ∷ rest) more = refl

read_u64-IsPrefixReader : IsPrefixReader read_u64
unfolding read_u64
read_u64-IsPrefixReader d more = elim (Bool-cases (ltb (length d) 8)) [
  | inl short ↦ rw short tt
  | inr enough ↦
      let long : 8 ≤ length d = ground arith in
      rw (enough, le→ltb (length (d ++ more)) 8 (omega (arith, length-append d more)))
        (rw (take_append_le 8 d more long, drop_append_le 8 d more long))
]

read_u64_checked-IsPrefixReader : IsPrefixReader read_u64_checked
unfolding read_u64_checked
read_u64_checked-IsPrefixReader d more = elim (Bool-cases (ltb (length d) 8)) [
  | inl short ↦ rw short tt
  | inr enough ↦
      let long : 8 ≤ length d = ground arith in
      rw (enough, le→ltb (length (d ++ more)) 8 (omega (arith, length-append d more)))
        (read_u64-IsPrefixReader d more)
]

read_data-IsPrefixReader : (n : ℕ) → IsPrefixReader (read_data n)
unfolding read_data
read_data-IsPrefixReader n d more = elim (Bool-cases (n == 0)) [
  | inl empty ↦ rw empty refl
  | inr full ↦ rw full (elim (Bool-cases (ltb (length d) n)) [
    | inl short ↦ rw short tt
    | inr enough ↦
        let long : n ≤ length d = ground arith in
        rw (enough, le→ltb (length (d ++ more)) n (omega (arith, length-append d more)))
          (rw (take_append_le n d more long, drop_append_le n d more long))
  ])
]

reset-IsPrefixReader : IsPrefixReader deserialize_reset
unfolding deserialize_reset
reset-IsPrefixReader d more =
    then_Keeps (read_u64 d) (read_u64 (d ++ more)) more _ (read_u64-IsPrefixReader d more)
      λ epoch d1.
        then_Keeps (pop_front d1) (pop_front (d1 ++ more)) more _ (pop_front-IsPrefixReader d1 more)
          λ b d2. refl

ack-IsPrefixReader : IsPrefixReader deserialize_ack
unfolding deserialize_ack
ack-IsPrefixReader d more =
    then_Keeps (read_u64 d) (read_u64 (d ++ more)) more _ (read_u64-IsPrefixReader d more)
      λ epoch d1.
        then_Keeps (read_u64_checked d1) (read_u64_checked (d1 ++ more)) more _
          (read_u64_checked-IsPrefixReader d1 more)
          λ seq d2.
            then_Keeps (read_u64_checked d2) (read_u64_checked (d2 ++ more)) more _
              (read_u64_checked-IsPrefixReader d2 more) λ last d3. refl

slice-IsPrefixReader : IsPrefixReader deserialize_slice
unfolding deserialize_slice
slice-IsPrefixReader d more =
    then_Keeps (read_u64 d) (read_u64 (d ++ more)) more _ (read_u64-IsPrefixReader d more)
      λ epoch d1.
        then_Keeps (read_u64_checked d1) (read_u64_checked (d1 ++ more)) more _
          (read_u64_checked-IsPrefixReader d1 more)
          λ seq d2.
            then_Keeps (read_u64_checked d2) (read_u64_checked (d2 ++ more)) more _
              (read_u64_checked-IsPrefixReader d2 more)
              λ len d3.
                then_Keeps (read_u64_checked d3) (read_u64_checked (d3 ++ more)) more _
                  (read_u64_checked-IsPrefixReader d3 more)
                  λ first d4.
                    then_Keeps (read_u64_checked d4) (read_u64_checked (d4 ++ more)) more _
                      (read_u64_checked-IsPrefixReader d4 more)
                      λ n d5.
                        then_Keeps (read_data n d5) (read_data n (d5 ++ more)) more _
                          (read_data-IsPrefixReader n d5 more) λ bytes d6. refl

variant-IsPrefixReader : (variant : ℕ) → IsPrefixReader (deserialize_variant variant)
unfolding deserialize_variant
variant-IsPrefixReader zero = reset-IsPrefixReader
variant-IsPrefixReader (suc zero) = ack-IsPrefixReader
variant-IsPrefixReader (suc (suc zero)) = slice-IsPrefixReader
variant-IsPrefixReader (suc (suc (suc zero))) = λ d more. refl
variant-IsPrefixReader (suc (suc (suc (suc zero)))) = λ d more. refl
variant-IsPrefixReader (suc (suc (suc (suc (suc n))))) = λ d more. refl

deserialize-IsPrefixReader : IsPrefixReader deserialize
unfolding deserialize
deserialize-IsPrefixReader d more =
    then_Keeps (pop_front d) (pop_front (d ++ more)) more _ (pop_front-IsPrefixReader d more)
      λ variant d1. variant-IsPrefixReader variant d1 more

-- Every proper prefix of the bytes of a message that fits the wire is answered with the end of
-- input: no cut of a message is taken for a message or for another error.
pub deserialize_truncated :
    (m : LinkProtocol) (front back : List ℕ) (b : ℕ)
    → IsWire m
    → serialize m ≡ front ++ (b ∷ back)
    → deserialize front ≡ err deserialize_eof
deserialize_truncated m front back b h e =
    outcome (deserialize front) (rw (← e) at (deserialize-IsPrefixReader front (b ∷ back)))
  where
    whole : deserialize (serialize m) ≡ ok (m, [])
    whole = rw append-nil at (deserialize-serialize m [] h)

    outcome :
        (x : LinkSetResult (LinkProtocol × List ℕ))
        → Keeps x (b ∷ back) (deserialize (serialize m))
        → x ≡ err deserialize_eof
    outcome (ok (u, r)) k = absurd (ground (arith, whole, length-append r (b ∷ back)))
    outcome (err deserialize_eof) k = refl
    outcome (err (deserialize_invalid c)) k = absurd (ground (arith, whole))
    outcome (err deserialize_invalid_len) k = absurd (ground (arith, whole))
    outcome (err link_error) k = absurd (ground (arith, whole))
    outcome (err (implementation a c)) k = absurd (ground (arith, whole))
    outcome (err closed) k = absurd (ground (arith, whole))
    outcome (err incorrect_addr_type) k = absurd (ground (arith, whole))
    outcome (err sendable_serialization) k = absurd (ground (arith, whole))
    outcome (err sendable_deserialization) k = absurd (ground (arith, whole))
    outcome (err receiver_taken) k = absurd (ground (arith, whole))
    outcome (err terminated) k = absurd (ground (arith, whole))
