-- ===== src/OrderedMap/Split.antt =====
-- The operations on a map that is split at a key into the entries before it and those from it on.
use link_set.Prelude.{
  ℕ, suc, ◌≤◌, ◌<◌, ◌≡◌, refl, ap, [], ◌∷◌, ◌++◌, All, none, some, arith, ltb, ◌==◌, Bool-cases,
  Option-cases, inl, inr,
}
use link_set.OrderedMap.{
  OrderedMap, insert, remove, get, first_from, last_before, entries_from, entries_before, IsOrdered,
}

module _ {ℓ} {V : Type ℓ} where
  abbrev pub KeysBelow : ℕ → OrderedMap V → Type 0
  KeysBelow c = All (λ e. e.0 < c)

  abbrev pub KeysFrom : ℕ → OrderedMap V → Type 0
  KeysFrom c = All (λ e. c ≤ e.0)

  pub KeysFrom-mono : (a b : ℕ) (m : OrderedMap V) → a ≤ b → KeysFrom b m → KeysFrom a m
  KeysFrom-mono a b [] h k = tt
  KeysFrom-mono a b (e ∷ m) h k = (omega arith, KeysFrom-mono a b m h k.1)

  pub KeysBelow-mono : (a b : ℕ) (m : OrderedMap V) → a ≤ b → KeysBelow a m → KeysBelow b m
  KeysBelow-mono a b [] h k = tt
  KeysBelow-mono a b (e ∷ m) h k = (omega arith, KeysBelow-mono a b m h k.1)

  pub IsOrdered-KeysFrom : (lo : ℕ) (m : OrderedMap V) → IsOrdered lo m → KeysFrom lo m
  IsOrdered-KeysFrom lo [] h = tt
  IsOrdered-KeysFrom lo ((j, w) ∷ m) h =
      (h.0, KeysFrom-mono lo (suc j) m (omega arith) (IsOrdered-KeysFrom (suc j) m h.1))

  pub first_from-append :
      (c : ℕ) (front back : OrderedMap V)
      → KeysBelow c front
      → first_from c (front ++ back) ≡ first_from c back
  unfolding first_from
  first_from-append c [] back h = refl
  first_from-append c (e ∷ front) back h = ground (arith, first_from-append c front back h.1)

  pub remove-append :
      (k : ℕ) (front back : OrderedMap V)
      → KeysBelow k front
      → remove k (front ++ back) ≡ front ++ remove k back
  unfolding remove
  remove-append k [] back h = refl
  remove-append k (e ∷ front) back h = ground (arith, remove-append k front back h.1)

  pub insert_front :
      (k : ℕ) (v : V) (m : OrderedMap V) → KeysFrom (suc k) m → insert k v m ≡ (k, v) ∷ m
  unfolding insert
  insert_front k v [] h = refl
  insert_front k v (e ∷ m) h = ground arith

  pub insert-append :
      (k : ℕ) (v : V) (front back : OrderedMap V)
      → KeysBelow k front
      → insert k v (front ++ back) ≡ front ++ insert k v back
  unfolding insert
  insert-append k v [] back h = refl
  insert-append k v (e ∷ front) back h = ground (arith, insert-append k v front back h.1)

  pub last_before-none : (c : ℕ) (m : OrderedMap V) → KeysFrom c m → last_before c m ≡ none
  unfolding last_before
  last_before-none c [] h = refl
  last_before-none c (e ∷ m) h = ground (arith, last_before-none c m h.1)

  -- The last entry of the front part is the last one before the key.
  pub last_before-append :
      (c k : ℕ) (v : V) (front back : OrderedMap V)
      → KeysFrom c back
      → k < c
      → last_before c (front ++ ((k, v) ∷ back)) ≡ some (k, v)
  unfolding last_before
  last_before-append c k v [] back h n = ground (arith, last_before-none c back h)
  last_before-append c k v (e ∷ front) back h n =
      ground (arith, last_before-append c k v front back h n)

  -- The key of the last entry before another key lies in the range of the keys.
  pub last_before_bounds :
      (c lo k : ℕ) (v : V) (m : OrderedMap V)
      → KeysFrom lo m
      → last_before c m ≡ some (k, v)
      → (lo ≤ k) × (k < c)
  unfolding last_before
  last_before_bounds c lo k v [] h e = cc
  last_before_bounds c lo k v ((j, w) ∷ m) h e = elim (Option-cases (last_before c m)) [
    | inl nothing ↦ ground arith
    | inr ((k', v'), found) ↦ ground (arith, last_before_bounds c lo k' v' m h.1 found)
  ]

  pub last_before-some :
      (c j : ℕ) (w : V) (m : OrderedMap V)
      → j < c
      → (k : ℕ) × (v : V) × (last_before c ((j, w) ∷ m) ≡ some (k, v))
  unfolding last_before
  last_before-some c j w m h = elim (Option-cases (last_before c m)) [
    | inl nothing ↦ (j, w, ground arith)
    | inr ((k, v), found) ↦ (k, v, ground arith)
  ]

  entries_before_nil : (c : ℕ) (m : OrderedMap V) → KeysFrom c m → entries_before c m ≡ []
  unfolding entries_before
  entries_before_nil c [] h = refl
  entries_before_nil c (e ∷ m) h = ground (arith, entries_before_nil c m h.1)

  entries_from_all : (c : ℕ) (m : OrderedMap V) → KeysFrom c m → entries_from c m ≡ m
  unfolding entries_from
  entries_from_all c [] h = refl
  entries_from_all c (e ∷ m) h = ground (arith, entries_from_all c m h.1)

  -- The two parts of an ordered map.
  pub entries-append :
      (c lo : ℕ) (m : OrderedMap V) → IsOrdered lo m → entries_before c m ++ entries_from c m ≡ m
  unfolding entries_before entries_from
  entries-append c lo [] h = refl
  entries-append c lo ((j, w) ∷ m) h = elim (Bool-cases (ltb j c)) [
    | inl before ↦ rw before (ap (λ t. (j, w) ∷ t) (entries-append c (suc j) m h.1))
    | inr after ↦
        let high = KeysFrom-mono c (suc j) m (ground arith) (IsOrdered-KeysFrom (suc j) m h.1) in
        rw (after, entries_before_nil c m high, entries_from_all c m high)
  ]

  pub entries_before-KeysBelow : (c : ℕ) (m : OrderedMap V) → KeysBelow c (entries_before c m)
  unfolding entries_before
  entries_before-KeysBelow c [] = tt
  entries_before-KeysBelow c (e ∷ m) = ground (arith, entries_before-KeysBelow c m)

  pub entries_before-append :
      (c : ℕ) (front back : OrderedMap V)
      → KeysBelow c front
      → KeysFrom c back
      → entries_before c (front ++ back) ≡ front
  unfolding entries_before
  entries_before-append c [] back f b = entries_before_nil c back b
  entries_before-append c (e ∷ front) back f b =
      ground (arith, entries_before-append c front back f.1 b)

  pub entries_from-append :
      (c : ℕ) (front back : OrderedMap V)
      → KeysBelow c front
      → KeysFrom c back
      → entries_from c (front ++ back) ≡ back
  unfolding entries_from
  entries_from-append c [] back f b = entries_from_all c back b
  entries_from-append c (e ∷ front) back f b =
      ground (arith, entries_from-append c front back f.1 b)

  get-append :
      (k : ℕ) (front back : OrderedMap V) → KeysBelow k front → get k (front ++ back) ≡ get k back
  unfolding get
  get-append k [] back h = refl
  get-append k (e ∷ front) back h = ground (arith, get-append k front back h.1)

  pub insert-IsOrdered :
      (lo k : ℕ) (v : V) (m : OrderedMap V) → lo ≤ k → IsOrdered lo m → IsOrdered lo (insert k v m)
  unfolding insert
  insert-IsOrdered lo k v [] h o = (h, tt)
  insert-IsOrdered lo k v ((j, w) ∷ m) h o = elim (Bool-cases (ltb k j)) [
    | inl before ↦ rw before (h, (ground arith, o.1))
    | inr after ↦ rw after (elim (Bool-cases (k == j)) [
      | inl same ↦ rw same (let e : k ≡ j = ground arith in rw e o)
      | inr apart ↦ rw apart (o.0, insert-IsOrdered (suc j) k v m (ground arith) o.1)
    ])
  ]

  pub All-insert {κ} :
      (P : ℕ × V → Type κ) (k : ℕ) (v : V) (m : OrderedMap V)
      → P (k, v)
      → All P m
      → All P (insert k v m)
  unfolding insert
  All-insert P k v [] p h = (p, tt)
  All-insert P k v ((j, w) ∷ m) p h = elim (Bool-cases (ltb k j)) [
    | inl before ↦ rw before (p, h)
    | inr after ↦ rw after (elim (Bool-cases (k == j)) [
      | inl same ↦ rw same (p, h.1)
      | inr apart ↦ rw apart (h.0, All-insert P k v m p h.1)
    ])
  ]

  pub All-get {κ} :
      (P : ℕ × V → Type κ) (k : ℕ) (v : V) (m : OrderedMap V)
      → All P m
      → get k m ≡ some v
      → P (k, v)
  unfolding get
  All-get P k v [] h e = absurd (ground arith)
  All-get P k v ((j, w) ∷ m) h e = elim (Bool-cases (k == j)) [
    | inl same ↦
        let same_key : k ≡ j = ground arith in
        let same_value : v ≡ w = ground arith in rw (same_key, same_value) h.0
    | inr apart ↦ All-get P k v m h.1 (ground arith)
  ]
