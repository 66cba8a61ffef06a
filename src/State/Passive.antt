-- ===== src/State/Passive.antt =====
-- The handlers of src/state/states/reconnecting.rs and src/state/states/grace_period.rs: there is no
-- link, but the epoch goes on.
use link_set.Prelude.{ℕ, List, Option, none, some, ◌==◌, if◌then◌else◌}
use link_set.Epoch.{Epoch}
use link_set.Protocol.{LinkProtocol, ok, err, reset, ack, msg_slice, ping, pong}
use link_set.Links.{LinkOps}
use link_set.Connect.{ConnectorOps, insert_address, add_connector, add_addr}
use link_set.Messages.{MessageManager, insert_msg, recv_ack, recv, take_recvd}
use link_set.State.{
  Common, Command, States, Reconnecting, GracePeriod, Outcome, wrap_link, connect, disconnect,
  add_link,
}
use link_set.State.Moves.{
  reconnecting_to_disconnected, reconnecting_to_connecting, reconnecting_to_connected,
  grace_to_disconnected, grace_to_connecting, grace_to_connected,
}
use link_set.State.Offline.{with_conn}
use link_set.State.Online.{epoch_fits, same_epoch, hand_over}

-- `self.msg_mgr.recv(..)` and the loop over `take_recvd`, without an acknowledgement.
unfoldable pub recv_quietly :
    ℕ → ℕ → ℕ → List ℕ → Epoch → Common → MessageManager → Option (Common × MessageManager)
recv_quietly seq first_index seq_len bytes epoch common mgr =
    elim (recv seq first_index seq_len bytes mgr) [
      | none ↦ none
      | some (msgs, should_ack) ↦ elim (take_recvd msgs) [
        | none ↦ none
        | some (msgs', ready) ↦ some (hand_over epoch ready common, msgs')
      ]
    ]

module _ {L C : Type 0} ⦃o : LinkOps L⦄ ⦃c : ConnectorOps C⦄ where
  unfoldable pub reconnecting_ctrl_msg :
      ℕ → Common → Reconnecting C → Command L C → Common × States L C
  reconnecting_ctrl_msg now common s connect = (common, States.reconnecting s)
  reconnecting_ctrl_msg now common s disconnect = reconnecting_to_disconnected common s
  reconnecting_ctrl_msg now common s (Command.add_connector conn) =
      (common, States.reconnecting (record s { connector = add_connector conn s.connector }))
  reconnecting_ctrl_msg now common s (Command.add_address addr) =
      (common, States.reconnecting (record s { connector = add_addr addr s.connector }))
  reconnecting_ctrl_msg now common s (add_link link) = elim ((wrap_link link common).1) [
    | ok entry ↦ reconnecting_to_connected now entry ((wrap_link link common).0) s
    | err e ↦ ((wrap_link link common).0, States.reconnecting s)
  ]
  reconnecting_ctrl_msg now common s (Command.message bytes epoch) = (
    common,
    States.reconnecting (
        if epoch_fits epoch s.epoch
        then record s { msg_mgr = (insert_msg bytes s.msg_mgr).0 }
        else s),
  )

  unfoldable pub grace_ctrl_msg : ℕ → Common → GracePeriod C → Command L C → Common × States L C
  grace_ctrl_msg now common s connect = (common, States.grace_period s)
  grace_ctrl_msg now common s disconnect = grace_to_disconnected common s
  grace_ctrl_msg now common s (Command.add_connector conn) =
      (common, States.grace_period (record s { conns = with_conn conn s.conns }))
  grace_ctrl_msg now common s (Command.add_address addr) =
      (common, States.grace_period (record s { addrs = insert_address addr s.addrs }))
  grace_ctrl_msg now common s (add_link link) = elim ((wrap_link link common).1) [
    | ok entry ↦ grace_to_connected now entry ((wrap_link link common).0) s
    | err e ↦ ((wrap_link link common).0, States.grace_period s)
  ]
  grace_ctrl_msg now common s (Command.message bytes epoch) = (
    common,
    States.grace_period (
        if epoch_fits epoch s.epoch
        then record s { msg_mgr = (insert_msg bytes s.msg_mgr).0 }
        else s),
  )

module _ {L C : Type 0} where
  -- A request is answered by a move where the epochs are the same, and ignored where they differ.
  unfoldable pub reconnecting_link_msg :
      ℕ → Common → Reconnecting C → ℕ → LinkProtocol → Outcome L C
  reconnecting_link_msg now common s id (reset epoch request) =
      if request
      then if same_epoch epoch s.epoch
        then some (reconnecting_to_connecting now common s)
        else some (common, States.reconnecting s)
      else some (common, States.reconnecting s)
  reconnecting_link_msg now common s id (ack epoch seq last_index) = some (
    common,
    States.reconnecting
        (if epoch == s.epoch then record s { msg_mgr = recv_ack seq last_index s.msg_mgr } else s),
  )
  reconnecting_link_msg now common s id (msg_slice epoch seq seq_len first_index bytes) =
      if epoch == s.epoch
      then elim (recv_quietly seq first_index seq_len bytes s.epoch common s.msg_mgr) [
        | none ↦ none
        | some (common', msgs) ↦ some (common', States.reconnecting (record s { msg_mgr = msgs }))
      ]
      else some (common, States.reconnecting s)
  reconnecting_link_msg now common s id ping = some (common, States.reconnecting s)
  reconnecting_link_msg now common s id pong = some (common, States.reconnecting s)

  unfoldable pub reconnecting_timer : ℕ → Common → Reconnecting C → Common × States L C
  reconnecting_timer now common s =
      if common.auto_connect
      then reconnecting_to_connecting now common s
      else reconnecting_to_disconnected common s

  unfoldable pub grace_link_msg : Common → GracePeriod C → ℕ → LinkProtocol → Outcome L C
  grace_link_msg common s id (reset epoch request) =
      if request
      then if same_epoch epoch s.epoch
        then some (grace_to_disconnected common s)
        else some (common, States.grace_period s)
      else some (common, States.grace_period s)
  grace_link_msg common s id (ack epoch seq last_index) = some (
    common,
    States.grace_period
        (if epoch == s.epoch then record s { msg_mgr = recv_ack seq last_index s.msg_mgr } else s),
  )
  grace_link_msg common s id (msg_slice epoch seq seq_len first_index bytes) =
      if epoch == s.epoch
      then elim (recv_quietly seq first_index seq_len bytes s.epoch common s.msg_mgr) [
        | none ↦ none
        | some (common', msgs) ↦ some (common', States.grace_period (record s { msg_mgr = msgs }))
      ]
      else some (common, States.grace_period s)
  grace_link_msg common s id ping = some (common, States.grace_period s)
  grace_link_msg common s id pong = some (common, States.grace_period s)

  unfoldable pub grace_timer : ℕ → Common → GracePeriod C → Common × States L C
  grace_timer now common s =
      if common.auto_connect
      then grace_to_connecting now common s
      else grace_to_disconnected common s
