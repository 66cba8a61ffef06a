-- ===== src/State/Mismatch.antt =====
-- The handlers of src/state/states/epoch_mismatch.rs.
use link_set.Prelude.{ℕ, Bool, true, false, Option, none, some, Ordering, if◌then◌else◌}
use link_set.Epoch.{Epoch, one, compare_epochs}
use link_set.Protocol.{LinkProtocol, ok, err, reset, ack, msg_slice, ping, pong}
use link_set.Links.{
  LinkOps, LinkEntry, LinkManager, no_links, send_reset, pong_on, end_ping_on, upkeep, ping_all,
}
use link_set.Links
use link_set.Connect.{ConnectorOps, insert_address}
use link_set.State.{
  Common, Command, States, EpochMismatch, Outcome, wrap_link, connect, disconnect, add_link,
}
use link_set.State.Moves.{mismatch_to_disconnected, mismatch_to_connecting, mismatch_to_connected}
use link_set.State.Offline.{queue_msg, with_conn}

-- `unwrap_or(Epoch::ONE)`
abbrev pub or_one : Option Epoch → Epoch
or_one none = one
or_one (some e) = e

module _ {L C : Type 0} ⦃o : LinkOps L⦄ ⦃c : ConnectorOps C⦄ where
  unfoldable pub mismatch_ctrl_msg : Common → EpochMismatch L C → Command L C → Common × States L C
  mismatch_ctrl_msg common s connect = (common, States.epoch_mismatch s)
  mismatch_ctrl_msg common s disconnect = mismatch_to_disconnected common s
  mismatch_ctrl_msg common s (Command.add_connector conn) =
      (common, States.epoch_mismatch (record s { conns = with_conn conn s.conns }))
  mismatch_ctrl_msg common s (Command.add_address addr) =
      (common, States.epoch_mismatch (record s { addrs = insert_address addr s.addrs }))
  mismatch_ctrl_msg common s (add_link link) = elim ((wrap_link link common).1) [
    | ok entry ↦ (
      (wrap_link link common).0,
      States.epoch_mismatch (record s { links = Links.add_link entry s.links }),
    )
    | err e ↦ ((wrap_link link common).0, States.epoch_mismatch s)
  ]
  mismatch_ctrl_msg common s (Command.message bytes epoch) = (
    common,
    States.epoch_mismatch (record s { queued_msgs = queue_msg bytes epoch s.queued_msgs }),
  )

module _ {L C : Type 0} ⦃o : LinkOps L⦄ where
  -- Equal epochs: `expect` panics on a missing one.
  unfoldable pub agree : ℕ → Bool → Common → EpochMismatch L C → Outcome L C
  agree now request common s =
      let links = if request then send_reset s.epoch false s.links else s.links in
      elim s.epoch [
        | none ↦ none
        | some epoch ↦ mismatch_to_connected now epoch common (record s { links = links })
      ]

  -- The epoch of the peer is taken over.
  unfoldable pub adopt : ℕ → Option Epoch → Common → EpochMismatch L C → Outcome L C
  adopt now theirs common s =
      let epoch = or_one theirs in
      mismatch_to_connected now epoch common
        (record s { epoch = theirs; links = send_reset (some epoch) false s.links })

  unfoldable pub mismatch_reset : ℕ → Option Epoch → Bool → Common → EpochMismatch L C → Outcome L C
  mismatch_reset now theirs request common s = elim (compare_epochs s.epoch theirs) [
    | Ordering.gt ↦
        some (common, States.epoch_mismatch (record s { links = send_reset s.epoch false s.links }))
    | Ordering.eq ↦ agree now request common s
    | Ordering.lt ↦ adopt now theirs common s
  ]

  unfoldable pub mismatch_link_msg : ℕ → Common → EpochMismatch L C → ℕ → LinkProtocol → Outcome L C
  mismatch_link_msg now common s id (reset theirs request) =
      mismatch_reset now theirs request common s
  mismatch_link_msg now common s id (ack epoch seq last_index) =
      some (common, States.epoch_mismatch s)
  mismatch_link_msg now common s id (msg_slice epoch seq seq_len first_index bytes) =
      some (common, States.epoch_mismatch s)
  mismatch_link_msg now common s id ping =
      some (common, States.epoch_mismatch (record s { links = pong_on id s.links }))
  mismatch_link_msg now common s id pong =
      some (common, States.epoch_mismatch (record s { links = end_ping_on now id s.links }))

  unfoldable pub mismatch_timer : ℕ → Common → EpochMismatch L C → Common × States L C
  mismatch_timer now common s =
      let links = ping_all now (upkeep s.links) in
      let s' = record s { links = links } in
      if no_links links
      then if common.auto_connect
        then mismatch_to_connecting now common s'
        else mismatch_to_disconnected common s'
      else (common, States.epoch_mismatch (record s { links = send_reset s.epoch true links }))
