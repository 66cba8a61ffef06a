-- ===== src/State.antt =====
-- src/state: the six states of the core, what they share, and the moves between them. A handler
-- takes the time, the shared state, its own state and what it handles, and returns the two states
-- afterwards; `none` is a panic. What is sent to the controller is kept in `to_ctrl`, in order.
pub mod Debug
pub mod Mismatch
pub mod Moves
pub mod Offline
pub mod Online
pub mod Passive
pub mod Queue
use mathlib.Core.Option
use link_set.Prelude.{
  ℕ, ◌+◌, List, [], ◌∷◌, ◌++◌, Bool, true, false, Option, none, some, leb, if◌then◌else◌,
}
use link_set.Epoch.{Epoch}
use link_set.Protocol.{LinkSetResult, ok, err, implementation}
use link_set.Deadline.{Deadline}
use link_set.Deadline
use link_set.Links.{LinkOps, LinkEntry, LinkManager, new_entry, overhead}
use link_set.Connect.{ManagedAddress, AddressSet, ConnectorSet, ConnectorManager}
use link_set.Messages.{MessageManager}

-- `LinkSetMessageInner` of src/link_set/controller.rs.
pub data LinkSetMessageInner : Type 0 where
  disconnected : LinkSetMessageInner
  connected : Epoch → LinkSetMessageInner
  attempting_connection : Bool → LinkSetMessageInner
  message : List ℕ → Epoch → LinkSetMessageInner

-- `LinkSetControlCommand`
pub data Command (L C : Type 0) : Type 0 where
  connect : Command L C
  disconnect : Command L C
  add_connector : C → Command L C
  add_address : ManagedAddress → Command L C
  add_link : L → Command L C
  message : List ℕ → Option Epoch → Command L C

-- `LinkSetControlConfig`
pub data Config : Type 0 where
  auto_connect : Bool → Config
  connect_timeout : Option ℕ → Config
  reconnect_timeout : Option ℕ → Config
  grace_period : Option ℕ → Config

-- `CommonState`; `readers` are the links that are read from. There is no `timer` where setting it
-- panicked: then the turn of the loop has no result.
pub record Common : Type 0 where
  pub to_ctrl : List LinkSetMessageInner
  pub next_link_id : ℕ
  pub readers : List ℕ
  pub is_active : Bool
  pub timer : Option Deadline
  pub auto_connect : Bool
  pub connecting_timeout : Option ℕ
  pub reconnecting_timeout : Option ℕ
  pub grace_period_timeout : Option ℕ

unfoldable pub new_common : Common
new_common = record {
  to_ctrl = [];
  next_link_id = 0;
  readers = [];
  is_active = false;
  timer = some Deadline.new;
  auto_connect = true;
  connecting_timeout = some 60_000_000_000;
  reconnecting_timeout = some 0;
  grace_period_timeout = some 0;
}

unfoldable pub send_ctrl : LinkSetMessageInner → Common → Common
send_ctrl msg c = record c { to_ctrl = c.to_ctrl ++ (msg ∷ []) }

unfoldable pub set_active : Bool → Common → Common
set_active b c = record c { is_active = b }

unfoldable pub with_timer : (Deadline → Deadline) → Common → Common
with_timer f c = record c { timer = Option.map f c.timer }

-- Setting the timer may panic.
unfoldable pub arm_timer : (Deadline → Option Deadline) → Common → Common
arm_timer f c = record c { timer = elim c.timer [ none ↦ none | some d ↦ f d ] }

unfoldable pub configure : Config → Common → Common
configure (auto_connect b) c = record c { auto_connect = b }
configure (connect_timeout t) c = record c { connecting_timeout = t }
configure (reconnect_timeout t) c = record c { reconnecting_timeout = t }
configure (grace_period t) c = record c { grace_period_timeout = t }

-- The identifier is used up also where the link is refused.
unfoldable pub wrap_link :
    {L : Type 0} ⦃o : LinkOps L⦄ → L → Common → Common × LinkSetResult (LinkEntry L)
wrap_link ⦃o⦄ link c =
    let id = c.next_link_id in
    let c' = record c { next_link_id = id + 1 } in
    if leb (o.max_size link) overhead
    then (c', err (implementation (o.max_size link) overhead))
    else elim (o.take_reader link) [
      | err e ↦ (c', err e)
      | ok link' ↦ (record c' { readers = c'.readers ++ (id ∷ []) }, ok (new_entry link' id))
    ]

pub record Disconnected (C : Type 0) : Type 0 where
  pub conns : ConnectorSet C
  pub addrs : AddressSet
  pub epoch : Option Epoch

pub record Connecting (C : Type 0) : Type 0 where
  pub connector : ConnectorManager C
  pub queued_msgs : List (List ℕ)
  pub epoch : Option Epoch

pub record EpochMismatch (L C : Type 0) : Type 0 where
  pub conns : ConnectorSet C
  pub addrs : AddressSet
  pub links : LinkManager L
  pub queued_msgs : List (List ℕ)
  pub epoch : Option Epoch
  pub last_ping : ℕ

pub record Connected (L C : Type 0) : Type 0 where
  pub conns : ConnectorSet C
  pub addrs : AddressSet
  pub links : LinkManager L
  pub msg_mgr : MessageManager
  pub epoch : Epoch
  pub last_ping : ℕ

pub record Reconnecting (C : Type 0) : Type 0 where
  pub msg_mgr : MessageManager
  pub epoch : Epoch
  pub connector : ConnectorManager C

pub record GracePeriod (C : Type 0) : Type 0 where
  pub conns : ConnectorSet C
  pub addrs : AddressSet
  pub msg_mgr : MessageManager
  pub epoch : Epoch

pub data States (L C : Type 0) : Type 0 where
  disconnected : Disconnected C → States L C
  connecting : Connecting C → States L C
  epoch_mismatch : EpochMismatch L C → States L C
  connected : Connected L C → States L C
  reconnecting : Reconnecting C → States L C
  grace_period : GracePeriod C → States L C

-- `Disconnected::new`
unfoldable pub new_state : {L C : Type 0} → States L C
new_state = disconnected (record { conns = []; addrs = []; epoch = none })

abbrev pub Outcome : Type 0 → Type 0 → Type 0
Outcome L C = Option (Common × States L C)
