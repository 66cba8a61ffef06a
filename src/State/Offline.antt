-- ===== src/State/Offline.antt =====
-- The handlers of src/state/states/disconnected.rs and src/state/states/connecting.rs.
use link_set.Prelude.{
  ℕ, List, [], ◌∷◌, ◌++◌, Bool, true, false, ◌&&◌, Option, none, some, if◌then◌else◌,
}
use link_set.Epoch.{Epoch}
use link_set.Protocol.{LinkProtocol, ok, err}
use link_set.Deadline.{clear}
use link_set.Links.{LinkOps}
use link_set.Connect.{
  ConnectorOps, ConnectorSet, insert_conn, insert_address, add_connector, add_addr,
}
use link_set.State.{
  Common, Command, States, Disconnected, Connecting, with_timer, wrap_link, connect, disconnect,
  add_link,
}
use link_set.State.Moves.{
  disconnected_to_connecting, disconnected_to_mismatch, connecting_to_disconnected,
  connecting_to_mismatch,
}

abbrev pub is_none {ℓ} : {A : Type ℓ} → Option A → Bool
is_none none = true
is_none (some a) = false

-- A message that names an epoch is not queued.
abbrev pub queue_msg : List ℕ → Option Epoch → List (List ℕ) → List (List ℕ)
queue_msg bytes epoch queued = if is_none epoch then queued ++ (bytes ∷ []) else queued

module _ {C : Type 0} ⦃c : ConnectorOps C⦄ where
  -- `self.conns.insert(scheme.to_string(), conn)`
  abbrev pub with_conn : C → ConnectorSet C → ConnectorSet C
  with_conn conn conns = insert_conn (c.scheme conn) conn conns

module _ {L C : Type 0} ⦃o : LinkOps L⦄ ⦃c : ConnectorOps C⦄ where
  unfoldable pub disconnected_ctrl_msg :
      ℕ → Common → Disconnected C → Command L C → Common × States L C
  disconnected_ctrl_msg now common s connect = disconnected_to_connecting now [] common s
  disconnected_ctrl_msg now common s disconnect = (common, States.disconnected s)
  disconnected_ctrl_msg now common s (Command.add_connector conn) =
      (common, States.disconnected (record s { conns = with_conn conn s.conns }))
  disconnected_ctrl_msg now common s (Command.add_address addr) =
      (common, States.disconnected (record s { addrs = insert_address addr s.addrs }))
  disconnected_ctrl_msg now common s (add_link link) = elim ((wrap_link link common).1) [
    | ok entry ↦ disconnected_to_mismatch now entry ((wrap_link link common).0) s
    | err e ↦ ((wrap_link link common).0, States.disconnected s)
  ]
  disconnected_ctrl_msg now common s (Command.message bytes epoch) =
      if common.auto_connect && is_none epoch
      then disconnected_to_connecting now (bytes ∷ []) common s
      else (common, States.disconnected s)

  unfoldable pub connecting_ctrl_msg : ℕ → Common → Connecting C → Command L C → Common × States L C
  connecting_ctrl_msg now common s connect = (common, States.connecting s)
  connecting_ctrl_msg now common s disconnect = connecting_to_disconnected common s
  connecting_ctrl_msg now common s (Command.add_connector conn) =
      (common, States.connecting (record s { connector = add_connector conn s.connector }))
  connecting_ctrl_msg now common s (Command.add_address addr) =
      (common, States.connecting (record s { connector = add_addr addr s.connector }))
  connecting_ctrl_msg now common s (add_link link) = elim ((wrap_link link common).1) [
    | ok entry ↦ connecting_to_mismatch now entry ((wrap_link link common).0) s
    | err e ↦ ((wrap_link link common).0, States.connecting s)
  ]
  connecting_ctrl_msg now common s (Command.message bytes epoch) =
      (common, States.connecting (record s { queued_msgs = queue_msg bytes epoch s.queued_msgs }))

module _ {L C : Type 0} where
  unfoldable pub disconnected_link_msg :
      Common → Disconnected C → ℕ → LinkProtocol → Common × States L C
  disconnected_link_msg common s id msg = (record common { readers = [] }, States.disconnected s)

  unfoldable pub disconnected_timer : Common → Disconnected C → Common × States L C
  disconnected_timer common s = (with_timer clear common, States.disconnected s)

  unfoldable pub connecting_link_msg :
      Common → Connecting C → ℕ → LinkProtocol → Common × States L C
  connecting_link_msg common s id msg = (common, States.connecting s)

  unfoldable pub connecting_timer : Common → Connecting C → Common × States L C
  connecting_timer common s = connecting_to_disconnected (with_timer clear common) s
