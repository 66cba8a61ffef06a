-- ===== src/Pipe/Hub.antt =====
-- src/link_impls/pipe_link.rs: pairs of pipe links, and the hub that hands them out. `Bernoulli::new`
-- of the package `rand` is a parameter, none where it refuses its argument; so are the clock and the
-- random ids. The outer Option of a function is none where it panics. What one link of a pair sends
-- comes to the reader of the other. All clones of a hub share one record, and the two mutexes are not
-- poisoned.
use link_set.Prelude.{
  ℕ, ◌+◌, List, [], ◌∷◌, ◌++◌, Bool, false, Option, none, some, leb, ◌==◌, if◌then◌else◌, length,
}
use link_set.Deadline.{new, new_deadline}
use link_set.Address.{bytes_eq}
use link_set.Pipe.{PipeLinkReader}

pub record PipeLinkBuilder (F : Type 0) : Type 0 where
  pub max_size : ℕ
  pub reliability : F
  pub expiration : Option ℕ
  pub latency : Option ℕ

pub record PipeLink (D : Type 0) : Type 0 where
  pub id : ℕ
  pub reader : Option PipeLinkReader
  pub max_size : ℕ
  pub reliability : D

-- The sender that the hub keeps for an address, with the channel behind it: its capacity, the links
-- that wait in it, and whether its receiver is gone.
pub record Listener (D : Type 0) : Type 0 where
  pub capacity : ℕ
  pub waiting : List (PipeLink D)
  pub rx_closed : Bool

pub record PipeLinkHub (F D : Type 0) : Type 0 where
  pub link_builder : PipeLinkBuilder F
  pub listen_channel_size : ℕ
  pub listeners : List (List ℕ × Listener D)

abbrev pub u32_max : ℕ
u32_max = 4_294_967_295

unfoldable pub new_reader : ℕ → Option ℕ → Option ℕ → PipeLinkReader
unfolding new_deadline
new_reader now expiration latency = record {
  rx = [];
  sender_gone = false;
  rx_closed = false;
  peeked = none;
  expiration = elim expiration [ none ↦ new | some expiration ↦ new_deadline (now + expiration) ];
  latency = latency;
  canceled = false;
}

unfoldable pub new_with_size : {F D : Type 0} → PipeLinkBuilder F → ℕ → PipeLinkHub F D
new_with_size link_builder listen_channel_size = record {
  link_builder = link_builder;
  listen_channel_size = listen_channel_size;
  listeners = [];
}

unfoldable pub modify_builder :
    {F D : Type 0} → (PipeLinkBuilder F → PipeLinkBuilder F) → PipeLinkHub F D → PipeLinkHub F D
modify_builder func hub = record hub { link_builder = func hub.link_builder }

module _ {V : Type 0} (addr : List ℕ) where
  unfoldable pub get : List (List ℕ × V) → Option V
  get [] = none
  get ((key, v) ∷ m) = if bytes_eq key addr then some v else get m

  unfoldable pub insert : V → List (List ℕ × V) → List (List ℕ × V)
  insert v [] = (addr, v) ∷ []
  insert v ((key, w) ∷ m) = if bytes_eq key addr then (key, v) ∷ m else (key, w) ∷ insert v m

  unfoldable pub remove : List (List ℕ × V) → List (List ℕ × V)
  remove [] = []
  remove ((key, v) ∷ m) = if bytes_eq key addr then m else (key, v) ∷ remove m

unfoldable pub new_listener : {D : Type 0} → ℕ → Listener D
new_listener capacity = record { capacity = capacity; waiting = []; rx_closed = false }

-- A channel without capacity panics.
unfoldable pub listen : {F D : Type 0} → List ℕ → PipeLinkHub F D → Option (PipeLinkHub F D)
unfolding insert new_listener
listen addr hub =
    if hub.listen_channel_size == 0
    then none
    else some (record hub {
      listeners = insert addr (new_listener hub.listen_channel_size) hub.listeners;
    })

-- The builder; `certain` is 1.0.
unfoldable pub new_builder : {F : Type 0} → F → PipeLinkBuilder F
new_builder certain = record {
  max_size = u32_max;
  reliability = certain;
  expiration = none;
  latency = none;
}

unfoldable pub default_link : {D : Type 0} → D → ℕ → PipeLink D
default_link reliability id = record {
  id = id;
  reader = some (record {
    rx = [];
    sender_gone = false;
    rx_closed = false;
    peeked = none;
    expiration = new;
    latency = none;
    canceled = false;
  });
  max_size = u32_max;
  reliability = reliability;
}

-- The clock, read twice, and the two ids.
pub record Drawn : Type 0 where
  pub now1 : ℕ
  pub now2 : ℕ
  pub id1 : ℕ
  pub id2 : ℕ

unfoldable pub new_link : {F D : Type 0} → PipeLinkBuilder F → D → ℕ → ℕ → PipeLink D
unfolding new_reader
new_link b reliability now id = record {
  id = id;
  reader = some (new_reader now b.expiration b.latency);
  max_size = b.max_size;
  reliability = reliability;
}

module _ {F D : Type 0} (bernoulli : F → Option D) (drawn : Drawn) where
  unfoldable pub create_pair : PipeLinkBuilder F → Option (PipeLink D × PipeLink D)
  unfolding new_link
  create_pair b = elim (bernoulli b.reliability) [
    | none ↦ none
    | some d ↦ some (new_link b d drawn.now1 drawn.id1, new_link b d drawn.now2 drawn.id2)
  ]

  -- `PipeLink::create_pair`, with the largest size, no expiration and no latency; `certain` is 1.0.
  unfoldable pub create_default_pair : F → Option (PipeLink D × PipeLink D)
  unfolding default_link
  create_default_pair certain = elim (bernoulli certain) [
    | none ↦ none
    | some d ↦ some (default_link d drawn.id1, default_link d drawn.id2)
  ]

  -- `try_reserve` fails on a channel that is closed, and on one that is full.
  unfoldable pub connect_to :
      List ℕ → Listener D → PipeLinkHub F D → Option (Option (PipeLink D) × PipeLinkHub F D)
  unfolding create_pair insert remove
  connect_to dest_addr listener hub =
      if listener.rx_closed
      then some (none, record hub { listeners = remove dest_addr hub.listeners })
      else if leb listener.capacity (length listener.waiting)
      then some (none, hub)
      else elim (create_pair hub.link_builder) [
        | none ↦ none
        | some (link1, link2) ↦
            let sent = record listener { waiting = listener.waiting ++ (link2 ∷ []) } in
            some (some link1, record hub { listeners = insert dest_addr sent hub.listeners })
      ]

  unfoldable pub connect : List ℕ → PipeLinkHub F D → Option (Option (PipeLink D) × PipeLinkHub F D)
  unfolding get connect_to
  connect dest_addr hub = elim (get dest_addr hub.listeners) [
    | none ↦ some (none, hub)
    | some listener ↦ connect_to dest_addr listener hub
  ]
