-- ===== src/State/Debug/Sorting.antt =====
-- The list of links in a snapshot of src/debug.rs: its order, and what is left of it when a link is
-- removed.
use link_set.Prelude.{
  ℕ, ◌≤◌, ◌≡◌, refl, sym, ap, ◌∙◌, List, [], ◌∷◌, true, false, map, ltb, ◌==◌, if◌then◌else◌, arith,
  Bool-cases, inl, inr, le→ltb, ltb→lt, ltb_false→le,
}
use link_set.Links
use link_set.Links.{LinkOps, LinkManager}
use link_set.State.Debug.{LinkDescription, insert_by_id, sort_by_id, describe, descriptions}

-- The descriptions of the other links.
unfoldable pub others : ℕ → List LinkDescription → List LinkDescription
others id [] = []
others id (d ∷ ds) = let rest = others id ds in if d.id == id then rest else d ∷ rest

abbrev IsAbove : ℕ → List LinkDescription → Type 0
IsAbove n [] = Unit
IsAbove n (d ∷ ds) = (n ≤ d.id) × IsAbove n ds

abbrev IsSorted : List LinkDescription → Type 0
IsSorted [] = Unit
IsSorted (d ∷ ds) = IsAbove d.id ds × IsSorted ds

IsAbove-le : (m n : ℕ) (ds : List LinkDescription) → m ≤ n → IsAbove n ds → IsAbove m ds
IsAbove-le m n [] h above = tt
IsAbove-le m n (d ∷ ds) h above = (omega arith, IsAbove-le m n ds h above.1)

insert-IsAbove :
    (n : ℕ) (d : LinkDescription) (ds : List LinkDescription)
    → n ≤ d.id
    → IsAbove n ds
    → IsAbove n (insert_by_id d ds)
unfolding insert_by_id
insert-IsAbove n d [] h above = (h, tt)
insert-IsAbove n d (x ∷ xs) h above = elim (Bool-cases (ltb x.id d.id)) [
  | inl less ↦ rw less (above.0, insert-IsAbove n d xs h above.1)
  | inr more ↦ rw more (h, above)
]

insert-IsSorted :
    (d : LinkDescription) (ds : List LinkDescription) → IsSorted ds → IsSorted (insert_by_id d ds)
unfolding insert_by_id
insert-IsSorted d [] sorted = (tt, tt)
insert-IsSorted d (x ∷ xs) sorted = elim (Bool-cases (ltb x.id d.id)) [
  | inl less ↦
      let lt = ltb→lt x.id d.id less in
      rw less (insert-IsAbove x.id d xs (omega arith) sorted.0, insert-IsSorted d xs sorted.1)
  | inr more ↦
      let le = ltb_false→le x.id d.id more in
      rw more ((le, IsAbove-le d.id x.id xs le sorted.0), sorted)
]

sort-IsSorted : (ds : List LinkDescription) → IsSorted (sort_by_id ds)
unfolding sort_by_id
sort-IsSorted [] = tt
sort-IsSorted (d ∷ ds) = insert-IsSorted d (sort_by_id ds) (sort-IsSorted ds)

others-IsAbove : (id n : ℕ) (ds : List LinkDescription) → IsAbove n ds → IsAbove n (others id ds)
unfolding others
others-IsAbove id n [] above = tt
others-IsAbove id n (d ∷ ds) above = elim (Bool-cases (d.id == id)) [
  | inl is ↦ rw is (others-IsAbove id n ds above.1)
  | inr other ↦ rw other (above.0, others-IsAbove id n ds above.1)
]

insert_front :
    (d : LinkDescription) (ds : List LinkDescription) → IsAbove d.id ds → insert_by_id d ds ≡ d ∷ ds
unfolding insert_by_id
insert_front d [] above = refl
insert_front d (x ∷ xs) above = rw (le→ltb x.id d.id above.0) refl

others-insert_removed :
    (id : ℕ) (d : LinkDescription) (ds : List LinkDescription)
    → (d.id == id) ≡ true
    → others id (insert_by_id d ds) ≡ others id ds
unfolding others insert_by_id
others-insert_removed id d [] is = rw is refl
others-insert_removed id d (x ∷ xs) is = elim (Bool-cases (ltb x.id d.id)) [
  | inl less ↦ rw (less, others-insert_removed id d xs is) refl
  | inr more ↦ rw (more, is) refl
]

others-insert_kept :
    (id : ℕ) (d : LinkDescription) (ds : List LinkDescription)
    → (d.id == id) ≡ false
    → IsSorted ds
    → others id (insert_by_id d ds) ≡ insert_by_id d (others id ds)
unfolding others insert_by_id
others-insert_kept id d [] other sorted = rw other refl
others-insert_kept id d (x ∷ xs) other sorted = elim (Bool-cases (ltb x.id d.id)) [
  | inl less ↦ elim (Bool-cases (x.id == id)) [
    | inl is ↦ rw (less, is) (others-insert_kept id d xs other sorted.1)
    | inr kept ↦
        rw (less, kept)
          (ap (λ ds. x ∷ ds) (others-insert_kept id d xs other sorted.1) ∙ rw less refl)
  ]
  | inr more ↦
      let above = IsAbove-le d.id x.id xs (ltb_false→le x.id d.id more) sorted.0 in
      elim (Bool-cases (x.id == id)) [
        | inl is ↦
            rw (more, other, is)
              (sym (insert_front d (others id xs) (others-IsAbove id d.id xs above)))
        | inr kept ↦ rw (more, other, kept) (rw more refl)
      ]
]

others-sort :
    (id : ℕ) (ds : List LinkDescription) → others id (sort_by_id ds) ≡ sort_by_id (others id ds)
unfolding sort_by_id others
others-sort id [] = refl
others-sort id (d ∷ ds) = elim (Bool-cases (d.id == id)) [
  | inl is ↦ rw is (others-insert_removed id d (sort_by_id ds) is ∙ others-sort id ds)
  | inr other ↦ rw other (
      others-insert_kept id d (sort_by_id ds) other (sort-IsSorted ds)
      ∙ ap (insert_by_id d) (others-sort id ds))
]

module _ {L : Type 0} ⦃o : LinkOps L⦄ where
  describe-evict_link :
      (id : ℕ) (links : LinkManager L)
      → map describe (Links.evict_link id links).0 ≡ others id (map describe links)
  unfolding Links.evict_link others describe
  describe-evict_link id [] = refl
  describe-evict_link id (e ∷ m) = elim (Bool-cases (e.id == id)) [
    | inl is ↦ rw is (describe-evict_link id m)
    | inr other ↦ rw other (ap (λ ds. describe e ∷ ds) (describe-evict_link id m))
  ]

  pub descriptions-evict_link :
      (id : ℕ) (links : LinkManager L)
      → descriptions (Links.evict_link id links).0 ≡ others id (descriptions links)
  unfolding descriptions
  descriptions-evict_link id links =
      ap sort_by_id (describe-evict_link id links) ∙ sym (others-sort id (map describe links))
