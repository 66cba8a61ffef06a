-- ===== src/State/Online.antt =====
-- The handlers of src/state/states/connected.rs.
use link_set.Prelude.{
  ℕ, ◌-◌, List, [], ◌∷◌, Bool, true, false, Option, none, some, ltb, ◌==◌, if◌then◌else◌,
}
use link_set.Epoch.{Epoch}
use link_set.Protocol.{LinkProtocol, ok, err, reset, ack, msg_slice, ping, pong}
use link_set.Links.{
  LinkOps, LinkEntry, LinkManager, no_links, send_reset, send_ack, send_slices, pong_on,
  end_ping_on, upkeep, ping_all,
}
use link_set.Links
use link_set.Connect.{ConnectorOps, insert_address}
use link_set.Messages.{
  MessageManager, insert_msg, get_outgoing_slice, first_outgoing, recv_ack, recv, take_recvd,
}
use link_set.State.{
  Common, Command, LinkSetMessageInner, States, Connected, Outcome, send_ctrl, wrap_link, connect,
  disconnect, add_link,
}
use link_set.State.Moves.{
  connected_to_disconnected, connected_to_mismatch, connected_to_reconnecting, connected_to_grace,
}
use link_set.State.Offline.{with_conn}

abbrev pub ping_interval : ℕ
ping_interval = 30_000_000_000

-- `if let Some(epoch) = epoch && self.epoch != epoch` fails.
abbrev pub epoch_fits : Option Epoch → Epoch → Bool
epoch_fits none own = true
epoch_fits (some e) own = own == e

-- `epoch == Some(self.epoch)`
abbrev pub same_epoch : Option Epoch → Epoch → Bool
same_epoch none own = false
same_epoch (some e) own = e == own

-- `if let Some(Duration::ZERO) = timeout`
abbrev pub is_zero : Option ℕ → Bool
is_zero none = false
is_zero (some t) = t == 0

-- The loop over `take_recvd`.
unfoldable pub hand_over : Epoch → List (List ℕ) → Common → Common
hand_over epoch [] c = c
hand_over epoch (bytes ∷ msgs) c =
    hand_over epoch msgs (send_ctrl (LinkSetMessageInner.message bytes epoch) c)

module _ {L C : Type 0} where
  unfoldable pub determine_state : ℕ → Common → Connected L C → Common × States L C
  determine_state now common s =
      if no_links s.links
      then if is_zero common.reconnecting_timeout
        then if is_zero common.grace_period_timeout
          then connected_to_disconnected common s
          else connected_to_grace now common s
        else connected_to_reconnecting now common s
      else (common, States.connected s)

module _ {L : Type 0} ⦃o : LinkOps L⦄ where
  -- The earliest message is sent again, unless no link is left.
  unfoldable pub resend : MessageManager → LinkManager L → Option (LinkManager L)
  resend msgs [] = some []
  resend msgs (e ∷ links) = elim (first_outgoing msgs) [
    | none ↦ some (e ∷ links)
    | some slice_mgr ↦ elim (send_slices slice_mgr (e ∷ links)) [
      | none ↦ none
      | some (links', result) ↦ some links'
    ]
  ]

module _ {L C : Type 0} ⦃o : LinkOps L⦄ where
  -- The new message is numbered, and its slices are sent.
  unfoldable pub connected_send : ℕ → List ℕ → Common → Connected L C → Outcome L C
  connected_send now bytes common s =
      let (msgs, seq) = insert_msg bytes s.msg_mgr in
      elim (get_outgoing_slice seq msgs) [
        | none ↦ some (determine_state now common (record s { msg_mgr = msgs }))
        | some slice_mgr ↦ elim (send_slices slice_mgr s.links) [
          | none ↦ none
          | some (links, result) ↦
              some (determine_state now common (record s { msg_mgr = msgs; links = links }))
        ]
      ]

  unfoldable pub connected_slice : ℕ → ℕ → ℕ → ℕ → List ℕ → Common → Connected L C → Outcome L C
  connected_slice now seq seq_len first_index bytes common s =
      elim (recv seq first_index seq_len bytes s.msg_mgr) [
        | none ↦ none
        | some (msgs, should_ack) ↦
            let links = if should_ack then send_ack s.epoch msgs.last_ack s.links else s.links in
            elim (take_recvd msgs) [
              | none ↦ none
              | some (msgs', ready) ↦ some (
                  determine_state now (hand_over s.epoch ready common)
                    (record s { msg_mgr = msgs'; links = links }))
            ]
      ]

  unfoldable pub connected_link_msg : ℕ → Common → Connected L C → ℕ → LinkProtocol → Outcome L C
  connected_link_msg now common s id (reset epoch request) =
      if request
      then if same_epoch epoch s.epoch
        then some (
            determine_state now common
              (record s { links = send_reset (some s.epoch) false s.links }))
        else some (connected_to_mismatch now common s)
      else some (common, States.connected s)
  connected_link_msg now common s id (ack epoch seq last_index) = some (
    common,
    States.connected
        (if epoch == s.epoch then record s { msg_mgr = recv_ack seq last_index s.msg_mgr } else s),
  )
  connected_link_msg now common s id (msg_slice epoch seq seq_len first_index bytes) =
      if epoch == s.epoch
      then connected_slice now seq seq_len first_index bytes common s
      else some (common, States.connected s)
  connected_link_msg now common s id ping =
      some (common, States.connected (record s { links = pong_on id s.links }))
  connected_link_msg now common s id pong =
      some (common, States.connected (record s { links = end_ping_on now id s.links }))

  unfoldable pub connected_timer : ℕ → Common → Connected L C → Outcome L C
  connected_timer now common s =
      let pinged =
        if ltb ping_interval (now - s.last_ping) then ping_all now s.links else s.links in
      elim (resend s.msg_mgr (upkeep pinged)) [
        | none ↦ none
        | some links ↦ some (determine_state now common (record s { links = links }))
      ]

module _ {L C : Type 0} ⦃o : LinkOps L⦄ ⦃c : ConnectorOps C⦄ where
  unfoldable pub connected_ctrl_msg : ℕ → Common → Connected L C → Command L C → Outcome L C
  connected_ctrl_msg now common s connect = some (common, States.connected s)
  connected_ctrl_msg now common s disconnect = some (connected_to_disconnected common s)
  connected_ctrl_msg now common s (Command.add_connector conn) =
      some (common, States.connected (record s { conns = with_conn conn s.conns }))
  connected_ctrl_msg now common s (Command.add_address addr) =
      some (common, States.connected (record s { addrs = insert_address addr s.addrs }))
  connected_ctrl_msg now common s (add_link link) = elim ((wrap_link link common).1) [
    | ok entry ↦ some (
      (wrap_link link common).0,
      States.connected (record s { links = Links.add_link entry s.links }),
    )
    | err e ↦ some ((wrap_link link common).0, States.connected s)
  ]
  connected_ctrl_msg now common s (Command.message bytes epoch) =
      if epoch_fits epoch s.epoch
      then connected_send now bytes common s
      else some (common, States.connected s)
