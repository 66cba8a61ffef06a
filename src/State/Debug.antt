-- ===== src/State/Debug.antt =====
-- src/debug.rs and the `debug` handlers of src/state/states: a snapshot of the state, and the removal
-- of a link. The reply that a handler sends comes first in its result.
pub mod Relinked
pub mod Sorting
use link_set.Prelude.{
  ℕ, List, [], ◌∷◌, Bool, true, false, Option, none, some, map, ltb, if◌then◌else◌,
}
use link_set.Epoch.{Epoch}
use link_set.Address.{Address}
use link_set.Links
use link_set.Links.{LinkOps, LinkEntry, LinkManager}
use link_set.Connect.{ConnectorOps, ConnectorSet, ConnectorManager, AddressSet}
use link_set.State.{
  States, Disconnected, Connecting, EpochMismatch, Connected, Reconnecting, GracePeriod,
}

pub data DebugCommand : Type 0 where
  snapshot : DebugCommand
  evict_link : ℕ → DebugCommand

pub record LinkDescription : Type 0 where
  pub id : ℕ
  pub scheme : List ℕ

pub data StateName : Type 0 where
  disconnected : StateName
  connecting : StateName
  epoch_mismatch : StateName
  connected : StateName
  reconnecting : StateName
  grace_period : StateName

pub record DebugReplySnapshot : Type 0 where
  pub state_name : StateName
  pub epoch : Option Epoch
  pub addrs : List Address
  pub connectors : List (List ℕ)
  pub links : List LinkDescription

-- What is sent back: a snapshot, or whether `EvictLink` was applicable.
pub data DebugReply : Type 0 where
  snapshot : DebugReplySnapshot → DebugReply
  evicted : Bool → DebugReply

unfoldable pub get_name : {L C : Type 0} → States L C → StateName
get_name (States.disconnected s) = disconnected
get_name (States.connecting s) = connecting
get_name (States.epoch_mismatch s) = epoch_mismatch
get_name (States.connected s) = connected
get_name (States.reconnecting s) = reconnecting
get_name (States.grace_period s) = grace_period

-- `sort_by` on the identifiers.
unfoldable pub insert_by_id : LinkDescription → List LinkDescription → List LinkDescription
insert_by_id d [] = d ∷ []
insert_by_id d (x ∷ xs) = if ltb x.id d.id then x ∷ insert_by_id d xs else d ∷ x ∷ xs

unfoldable pub sort_by_id : List LinkDescription → List LinkDescription
unfolding insert_by_id
sort_by_id [] = []
sort_by_id (d ∷ ds) = insert_by_id d (sort_by_id ds)

module _ {L : Type 0} ⦃o : LinkOps L⦄ where
  unfoldable pub describe : LinkEntry L → LinkDescription
  describe e = record { id = e.id; scheme = o.scheme e.link }

  unfoldable pub descriptions : LinkManager L → List LinkDescription
  unfolding describe sort_by_id
  descriptions links = sort_by_id (map describe links)

unfoldable pub addrs_of : AddressSet → List Address
addrs_of addrs = map (λ a. a.addr) addrs

module _ {C : Type 0} ⦃c : ConnectorOps C⦄ where
  unfoldable pub schemes_of : ConnectorSet C → List (List ℕ)
  schemes_of conns = map (λ k. c.scheme k.1) conns

  unfoldable pub debug_request_snapshot : ConnectorManager C → List Address × List (List ℕ)
  unfolding schemes_of
  debug_request_snapshot m = (map (λ h. h.0.addr) m.handles, schemes_of m.conns)

module _ {L C : Type 0} ⦃o : LinkOps L⦄ ⦃c : ConnectorOps C⦄ where
  -- A state without links.
  unfoldable pub debug_no_links :
      DebugCommand
      → Option Epoch
      → List Address
      → List (List ℕ)
      → States L C
      → DebugReply × States L C
  unfolding get_name
  debug_no_links snapshot epoch addrs connectors state = (
    DebugReply.snapshot (record {
      state_name = get_name state;
      epoch = epoch;
      addrs = addrs;
      connectors = connectors;
      links = [];
    }),
    state,
  )
  debug_no_links (evict_link id) epoch addrs connectors state = (evicted false, state)

  -- A state with links: `put links` is the state with other links.
  unfoldable pub debug_links :
      DebugCommand
      → Option Epoch
      → List Address
      → List (List ℕ)
      → LinkManager L
      → (LinkManager L → States L C)
      → DebugReply × States L C
  unfolding get_name descriptions
  debug_links snapshot epoch addrs connectors links put = (
    DebugReply.snapshot (record {
      state_name = get_name (put links);
      epoch = epoch;
      addrs = addrs;
      connectors = connectors;
      links = descriptions links;
    }),
    put links,
  )
  debug_links (DebugCommand.evict_link id) epoch addrs connectors links put =
      (evicted true, put (Links.evict_link id links).0)

  unfoldable pub debug : DebugCommand → States L C → DebugReply × States L C
  unfolding debug_no_links debug_links addrs_of schemes_of debug_request_snapshot
  debug cmd (States.disconnected s) =
      debug_no_links cmd s.epoch (addrs_of s.addrs) (schemes_of s.conns) (States.disconnected s)
  debug cmd (States.connecting s) =
      let (addrs, connectors) = debug_request_snapshot s.connector in
      debug_no_links cmd s.epoch addrs connectors (States.connecting s)
  debug cmd (States.epoch_mismatch s) =
      debug_links cmd s.epoch (addrs_of s.addrs) (schemes_of s.conns) s.links
        (λ links. States.epoch_mismatch (record s { links = links }))
  debug cmd (States.connected s) =
      debug_links cmd (some s.epoch) (addrs_of s.addrs) (schemes_of s.conns) s.links
        (λ links. States.connected (record s { links = links }))
  debug cmd (States.reconnecting s) =
      let (addrs, connectors) = debug_request_snapshot s.connector in
      debug_no_links cmd (some s.epoch) addrs connectors (States.reconnecting s)
  debug cmd (States.grace_period s) =
      debug_no_links cmd (some s.epoch) (addrs_of s.addrs) (schemes_of s.conns)
        (States.grace_period s)
