-- ===== src/Connect.antt =====
-- src/connector_manager.rs: the addresses to connect to, and the tasks that try them. A `HashMap` is
-- a list of entries. A task is known by the connector that it runs; what a task does
-- (`create_task`) comes back as the command `AddLink`.
pub mod Attempts
pub mod Tasks
use link_set.Prelude.{
  ℕ, ◌+◌, ◌-◌, min, List, [], ◌∷◌, Bool, true, false, ◌&&◌, Option, none, some, ◌==◌, if◌then◌else◌,
  map,
}
use link_set.Address.{bytes_eq, Address, address_eq}

abbrev pub retries_max : ℕ
retries_max = 10

-- `repeat` is the value of the watch channel, and `count` the permits of the semaphore.
pub record ManagedAddress : Type 0 where
  pub addr : Address
  pub repeat : Bool
  pub count : ℕ

unfoldable pub new_address : Address → ManagedAddress
new_address addr = record { addr = addr; repeat = false; count = 0 }

unfoldable pub add_count : ℕ → ManagedAddress → ManagedAddress
add_count count a = record a { count = a.count + min count (retries_max - a.count) }

unfoldable pub set_repeat : Bool → ManagedAddress → ManagedAddress
set_repeat value a = record a { repeat = value }

abbrev pub u16_max : ℕ
u16_max = 65535

unfoldable pub merge : ManagedAddress → ManagedAddress → ManagedAddress
merge a other =
    let a' = add_count (min other.count u16_max) a in
    if other.repeat then set_repeat true a' else a'

abbrev pub AddressSet : Type 0
AddressSet = List ManagedAddress

-- `if let Some(old) = addrs.get(&addr) { old.merge(addr) } else { addrs.insert(addr) }`
unfoldable pub insert_address : ManagedAddress → AddressSet → AddressSet
insert_address addr [] = addr ∷ []
insert_address addr (old ∷ addrs) =
    if address_eq old.addr addr.addr
    then merge old addr ∷ addrs
    else old ∷ insert_address addr addrs

-- The scheme of a connector, behind the trait `PinnedLinkConnector` of src/links/connector.rs.
pub record ConnectorOps (C : Type 0) : Type 0 where
  pub scheme : C → List ℕ

abbrev pub ConnectorSet : Type 0 → Type 0
ConnectorSet C = List (List ℕ × C)

abbrev pub TaskSet : Type 0 → Type 0
TaskSet C = List (ManagedAddress × Option C)

pub record ConnectorManager (C : Type 0) : Type 0 where
  pub conns : ConnectorSet C
  pub handles : TaskSet C

module _ {C : Type 0} where
  unfoldable pub find_conn : List ℕ → ConnectorSet C → Option C
  find_conn scheme [] = none
  find_conn scheme ((s, c) ∷ conns) = if bytes_eq scheme s then some c else find_conn scheme conns

  unfoldable pub insert_conn : List ℕ → C → ConnectorSet C → ConnectorSet C
  insert_conn scheme conn [] = (scheme, conn) ∷ []
  insert_conn scheme conn ((s, c) ∷ conns) =
      if bytes_eq scheme s then (s, conn) ∷ conns else (s, c) ∷ insert_conn scheme conn conns

  -- `conns.get(addr.scheme()).map(create_task)`
  unfoldable pub start_task : ConnectorSet C → ManagedAddress → ManagedAddress × Option C
  start_task conns a = (a, find_conn a.addr.scheme conns)

  unfoldable pub start : AddressSet → ConnectorSet C → ConnectorManager C
  start addrs conns = record { conns = conns; handles = map (start_task conns) addrs }

  unfoldable pub add_handle : ConnectorSet C → ManagedAddress → TaskSet C → TaskSet C
  add_handle conns addr [] = start_task conns addr ∷ []
  add_handle conns addr ((k, handle) ∷ handles) =
      if address_eq k.addr addr.addr
      then (merge k addr, handle) ∷ handles
      else (k, handle) ∷ add_handle conns addr handles

  unfoldable pub add_addr : ManagedAddress → ConnectorManager C → ConnectorManager C
  add_addr addr m = record m { handles = add_handle m.conns addr m.handles }

  -- Each task of the scheme is started, or stopped and started again, with the new connector.
  unfoldable pub restart : List ℕ → C → TaskSet C → TaskSet C
  restart scheme conn [] = []
  restart scheme conn ((k, handle) ∷ handles) =
      (k, (if bytes_eq k.addr.scheme scheme then some conn else handle))
      ∷ restart scheme conn handles

  -- `cancel` stops the tasks and gives the connectors and the addresses back.
  unfoldable pub cancel : ConnectorManager C → ConnectorSet C × AddressSet
  cancel m = (m.conns, map (λ h. h.0) m.handles)

module _ {C : Type 0} ⦃o : ConnectorOps C⦄ where
  unfoldable pub add_connector : C → ConnectorManager C → ConnectorManager C
  add_connector conn m = record {
    conns = insert_conn (o.scheme conn) conn m.conns;
    handles = restart (o.scheme conn) conn m.handles;
  }
