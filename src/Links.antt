-- ===== src/Links.antt =====
-- src/links/link_entry.rs and src/links/link_manager.rs: the links of a connection. The links
-- themselves are behind the trait `PinnedLink` of src/links/link.rs, whose methods are the fields of
-- `LinkOps`. The clock stands still while one event is handled: `now` is its time.
pub mod Choosing
pub mod Sending
pub mod Silence
pub mod Pinned
pub mod Reader
pub mod Transport
pub mod Message
pub mod Across
use link_set.Prelude.{
  ℕ, ◌+◌, ◌-◌, ◌/◌, List, [], ◌∷◌, Bool, true, false, ◌||◌, Option, none, some, length, take,
  replicate, ltb, ◌==◌, if◌then◌else◌,
}
use link_set.Protocol.{
  LinkProtocol, LinkSetResult, ok, err, closed, serialize, reset, ack, ping, pong,
}
use link_set.Slices.{SliceManager, get_slices}

-- A method that takes `&mut self` returns the link as it is afterwards.
pub record LinkOps (L : Type 0) : Type 0 where
  pub send : L → List ℕ → L × LinkSetResult (Unit {0})
  pub max_size : L → ℕ
  pub is_closed : L → L × Bool
  pub take_reader : L → LinkSetResult L
  pub scheme : L → List ℕ

abbrev pub history_len : ℕ
history_len = 6

-- Durations count nanoseconds.
abbrev pub default_latency : ℕ
default_latency = 100_000_000

abbrev pub max_latency : ℕ
max_latency = 2_000_000_000

-- `LinkEntry::OVERHEAD`
abbrev pub overhead : ℕ
overhead = 56

pub record LinkEntry (L : Type 0) : Type 0 where
  pub id : ℕ
  pub link : L
  pub ping_sent : Option ℕ
  pub recent : List ℕ

abbrev pub LinkManager : Type 0 → Type 0
LinkManager L = List (LinkEntry L)

abbrev pub sum : List ℕ → ℕ
sum [] = 0
sum (d ∷ ds) = d + sum ds

module _ {L : Type 0} where
  unfoldable pub new_entry : L → ℕ → LinkEntry L
  new_entry link id = record {
    id = id;
    link = link;
    ping_sent = none;
    recent = replicate history_len default_latency;
  }

  unfoldable pub add_latency : ℕ → LinkEntry L → LinkEntry L
  add_latency latency e = record e { recent = take history_len (latency ∷ e.recent) }

  unfoldable pub end_ping : ℕ → LinkEntry L → LinkEntry L
  unfolding add_latency
  end_ping now e = elim e.ping_sent [
    | none ↦ e
    | some last_ping ↦ add_latency (now - last_ping) (record e { ping_sent = none })
  ]

  unfoldable pub latency : LinkEntry L → ℕ
  latency e = elim e.recent [ [] ↦ default_latency | d ∷ ds ↦ sum e.recent / length e.recent ]

  -- `LinkManager::add_link` puts the newest link in front.
  unfoldable pub add_link : LinkEntry L → LinkManager L → LinkManager L
  add_link e m = e ∷ m

  -- `retain`, and whether a link was found.
  unfoldable pub evict_link : ℕ → LinkManager L → LinkManager L × Bool
  evict_link id [] = ([], false)
  evict_link id (e ∷ m) =
      let (kept, found_link) = evict_link id m in
      if e.id == id then (kept, true) else (e ∷ kept, found_link)

  abbrev pub no_links : LinkManager L → Bool
  no_links [] = true
  no_links (e ∷ m) = false

module _ {L : Type 0} ⦃o : LinkOps L⦄ where
  -- `LinkEntry::max_size`, by `saturating_sub`
  unfoldable pub entry_max_size : LinkEntry L → ℕ
  entry_max_size e = o.max_size e.link - overhead

  unfoldable pub entry_is_closed : LinkEntry L → LinkEntry L × Bool
  entry_is_closed e = let (link, shut) = o.is_closed e.link in (record e { link = link }, shut)

  unfoldable pub entry_send : LinkProtocol → LinkEntry L → LinkEntry L × LinkSetResult (Unit {0})
  entry_send msg e =
      let (link, result) = o.send e.link (serialize msg) in (record e { link = link }, result)

  unfoldable pub send_ping : ℕ → LinkEntry L → LinkEntry L
  send_ping now e = (entry_send ping (record (end_ping now e) { ping_sent = some now })).0

  unfoldable pub send_pong : LinkEntry L → LinkEntry L
  send_pong e = (entry_send pong e).0

  -- Links that are closed or slow are removed until one in front is neither; that one sends.
  unfoldable pub send_proto :
      LinkProtocol → LinkManager L → LinkManager L × LinkSetResult (Unit {0})
  send_proto proto [] = ([], err closed)
  send_proto proto (e ∷ m) =
      let (e', shut) = entry_is_closed e in
      let rest = send_proto proto m in
      let (e'', result) = entry_send proto e' in
      if shut || ltb max_latency (latency e') then rest else (e'' ∷ m, result)

  unfoldable pub send_reset : Option ℕ → Bool → LinkManager L → LinkManager L
  send_reset epoch request m = (send_proto (reset epoch request) m).0

  unfoldable pub send_ack : ℕ → ℕ × ℕ → LinkManager L → LinkManager L
  send_ack epoch last m = (send_proto (ack epoch last.0 last.1) m).0

  -- `for proto in protos { link.send(proto).await?; }`
  unfoldable pub send_each :
      List LinkProtocol → LinkEntry L → LinkEntry L × LinkSetResult (Unit {0})
  send_each [] e = (e, ok tt)
  send_each (proto ∷ protos) e =
      let (e', result) = entry_send proto e in
      let rest = send_each protos e' in elim result [ ok u ↦ rest | err x ↦ (e', err x) ]

  -- `none` is a panic of `get_slices`.
  unfoldable pub send_slices :
      SliceManager → LinkManager L → Option (LinkManager L × LinkSetResult (Unit {0}))
  send_slices slice_mgr [] = some ([], err closed)
  send_slices slice_mgr (e ∷ m) =
      let (e', shut) = entry_is_closed e in
      let rest = send_slices slice_mgr m in
      if shut || ltb max_latency (latency e')
      then rest
      else elim (get_slices slice_mgr (entry_max_size e')) [
        | none ↦ none
        | some protos ↦ let (e'', result) = send_each protos e' in some (e'' ∷ m, result)
      ]

  unfoldable pub ping_all : ℕ → LinkManager L → LinkManager L
  ping_all now [] = []
  ping_all now (e ∷ m) = send_ping now e ∷ ping_all now m

  -- The first link with the identifier.
  unfoldable pub on_link : ℕ → (LinkEntry L → LinkEntry L) → LinkManager L → LinkManager L
  on_link id f [] = []
  on_link id f (e ∷ m) = if e.id == id then f e ∷ m else e ∷ on_link id f m

  unfoldable pub pong_on : ℕ → LinkManager L → LinkManager L
  pong_on id m = on_link id send_pong m

  unfoldable pub end_ping_on : ℕ → ℕ → LinkManager L → LinkManager L
  end_ping_on now id m = on_link id (end_ping now) m

  unfoldable pub upkeep : LinkManager L → LinkManager L
  upkeep [] = []
  upkeep (e ∷ m) =
      let (e', shut) = entry_is_closed e in
      if shut then upkeep m else if ltb (latency e') max_latency then e' ∷ upkeep m else upkeep m
