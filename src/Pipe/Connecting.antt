-- ===== src/Pipe/Connecting.antt =====
-- What a hub gives to those who connect to an address that is listened at, and what the links of a
-- pair give to each other.
use link_set.Prelude.{
  ℕ, zero, suc, ◌+◌, ◌<◌, List, [], ◌∷◌, ◌++◌, false, Option, none, some, ◌≡◌, refl, lt→leb, le→leb,
  length, length-append, arith, append_assoc, append-nil, Bool-cases, inl, inr,
}
use link_set.Address.{bytes_eq}
use link_set.Address.Equal.{bytes_eq_refl}
use link_set.Pipe.Hub.{
  PipeLinkBuilder, PipeLink, Listener, PipeLinkHub, Drawn, get, insert, new_listener, new_link,
  create_pair, new_builder, create_default_pair, listen, connect, connect_to,
}

module _ {V : Type 0} (addr : List ℕ) where
  get-insert : (v : V) (m : List (List ℕ × V)) → get addr (insert addr v m) ≡ some v
  unfolding get insert
  get-insert v [] = ground (arith, bytes_eq_refl addr)
  get-insert v ((key, w) ∷ m) = elim (Bool-cases (bytes_eq key addr)) [
    | inl same ↦ ground (arith, same)
    | inr other ↦ ground (arith, other, get-insert v m)
  ]

  insert-insert :
      (v w : V) (m : List (List ℕ × V)) → insert addr v (insert addr w m) ≡ insert addr v m
  unfolding insert
  insert-insert v w [] = ground (arith, bytes_eq_refl addr)
  insert-insert v w ((key, u) ∷ m) = elim (Bool-cases (bytes_eq key addr)) [
    | inl same ↦ ground (arith, same)
    | inr other ↦ ground (arith, other, insert-insert v w m)
  ]

module _ {F D : Type 0} (bernoulli : F → Option D) where
  -- The pair without a builder is that of a new builder.
  create_pair-new_builder :
      (drawn : Drawn) (certain : F)
      → create_pair bernoulli drawn (new_builder certain)
        ≡ create_default_pair bernoulli drawn certain
  unfolding create_pair new_builder create_default_pair
  create_pair-new_builder drawn certain = refl

-- One connection after another.
module _ {F D : Type 0} (bernoulli : F → Option D) (dest_addr : List ℕ) where
  unfoldable pub connect_all :
      List Drawn → PipeLinkHub F D → Option (List (Option (PipeLink D)) × PipeLinkHub F D)
  connect_all [] hub = some ([], hub)
  connect_all (drawn ∷ more) hub = elim (connect bernoulli drawn dest_addr hub) [
    | none ↦ none
    | some (link, hub') ↦ elim (connect_all more hub') [
      | none ↦ none
      | some (links, hub'') ↦ some (link ∷ links, hub'')
    ]
  ]

-- The answers to those who connect while a listener has room for some links, and the links that the
-- listener gets.
module _ {F D : Type 0} (b : PipeLinkBuilder F) (d : D) where
  abbrev pub answers : ℕ → List Drawn → List (Option (PipeLink D))
  answers room [] = []
  answers zero (drawn ∷ more) = none ∷ answers zero more
  answers (suc room) (drawn ∷ more) = some (new_link b d drawn.now1 drawn.id1) ∷ answers room more

  abbrev pub arrivals : ℕ → List Drawn → List (PipeLink D)
  arrivals room [] = []
  arrivals zero (drawn ∷ more) = []
  arrivals (suc room) (drawn ∷ more) = new_link b d drawn.now2 drawn.id2 ∷ arrivals room more

abbrev pub listening :
    {F D : Type 0} → List ℕ → ℕ → List (PipeLink D) → PipeLinkHub F D → PipeLinkHub F D
listening addr capacity waiting hub = record hub {
  listeners =
      insert addr (record { capacity = capacity; waiting = waiting; rx_closed = false })
        hub.listeners;
}

module _ {F D : Type 0} (bernoulli : F → Option D) (addr : List ℕ) (d : D) (hub : PipeLinkHub F D)
    (accepts : bernoulli hub.link_builder.reliability ≡ some d) (capacity : ℕ) where
  connect_one :
      (drawn : Drawn) (waiting : List (PipeLink D))
      → length waiting < capacity
      → connect bernoulli drawn addr (listening addr capacity waiting hub)
        ≡ some (
          some (new_link hub.link_builder d drawn.now1 drawn.id1),
          listening addr capacity
              (waiting ++ (new_link hub.link_builder d drawn.now2 drawn.id2 ∷ []))
              hub,
        )
  unfolding connect connect_to create_pair
  connect_one drawn waiting room =
      let l : Listener D = record { capacity = capacity; waiting = waiting; rx_closed = false } in
      rw
        (
          connect,
          get-insert addr l hub.listeners,
          connect_to,
          lt→leb capacity (length waiting) room,
          create_pair,
          accepts,
          insert-insert addr
              (record l {
                waiting = waiting ++ (new_link hub.link_builder d drawn.now2 drawn.id2 ∷ []);
              })
              l hub.listeners,
        )
        refl

  connect_when_full :
      (drawn : Drawn) (waiting : List (PipeLink D))
      → capacity ≡ length waiting
      → connect bernoulli drawn addr (listening addr capacity waiting hub)
        ≡ some (none, listening addr capacity waiting hub)
  unfolding connect connect_to
  connect_when_full drawn waiting full =
      let l : Listener D = record { capacity = capacity; waiting = waiting; rx_closed = false } in
      rw
        (
          connect,
          get-insert addr l hub.listeners,
          connect_to,
          le→leb capacity (length waiting) (omega arith),
        )
        refl

  connect_all-room :
      (room : ℕ) (draws : List Drawn) (waiting : List (PipeLink D))
      → capacity ≡ length waiting + room
      → connect_all bernoulli addr draws (listening addr capacity waiting hub)
        ≡ some (
          answers hub.link_builder d room draws,
          listening addr capacity (waiting ++ arrivals hub.link_builder d room draws) hub,
        )
  unfolding connect_all
  connect_all-room room [] waiting holds = rw (append-nil waiting) refl
  connect_all-room zero (drawn ∷ []) waiting holds =
      rw (connect_all, connect_when_full drawn waiting (omega arith), append-nil waiting) refl
  connect_all-room zero (drawn ∷ next ∷ more) waiting holds =
      rw
        (
          connect_all,
          connect_when_full drawn waiting (omega arith),
          connect_all-room zero (next ∷ more) waiting holds,
        )
        refl
  connect_all-room (suc room) (drawn ∷ more) waiting holds =
      let link2 : PipeLink D = new_link hub.link_builder d drawn.now2 drawn.id2 in
      let longer = length-append waiting (link2 ∷ []) in
      rw
        (
          connect_all,
          connect_one drawn waiting (omega arith),
          connect_all-room room more (waiting ++ (link2 ∷ [])) (omega arith),
          append_assoc waiting (link2 ∷ []) (arrivals hub.link_builder d room more),
        )
        refl

-- A hub whose builder makes links, and whose channels have room: after `listen` at an address, each
-- of those who connect to it gets the first link of a pair, and the second one comes to the listener,
-- in order, until its channel is full. Those after that get none and change nothing. The listeners
-- at other addresses stay as they are, and one that was at this address is replaced.
pub connect_all-listen :
    {F D : Type 0} (bernoulli : F → Option D) (addr : List ℕ) (d : D) (hub : PipeLinkHub F D)
    (draws : List Drawn)
    → bernoulli hub.link_builder.reliability ≡ some d
    → 0 < hub.listen_channel_size
    → (listen addr hub ≡ some (listening addr hub.listen_channel_size [] hub))
      × (connect_all bernoulli addr draws (listening addr hub.listen_channel_size [] hub)
          ≡ some (
            answers hub.link_builder d hub.listen_channel_size draws,
            listening addr hub.listen_channel_size
                (arrivals hub.link_builder d hub.listen_channel_size draws)
                hub,
          ))
unfolding listen new_listener
connect_all-listen bernoulli addr d hub draws accepts room = (
  ground arith,
  connect_all-room bernoulli addr d hub accepts hub.listen_channel_size hub.listen_channel_size
      draws [] (omega arith),
)
