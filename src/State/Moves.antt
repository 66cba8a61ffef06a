-- ===== src/State/Moves.antt =====
-- src/state/states, the implementations of `StateTransitionFrom` and its kin: how one state is made
-- from another, and what the controller and the peer are told. src/state/transition.rs only wraps
-- these.
use link_set.Prelude.{ℕ, List, [], ◌∷◌, Bool, true, false, Option, none, some}
use link_set.Epoch.{Epoch, increment, opt_epoch_increment}
use link_set.Deadline.{clear, clear_repeat, modify_repeat, modify_deadline_from_now}
use link_set.Links.{LinkOps, LinkEntry, LinkManager, add_link, ping_all, send_reset, send_slices}
use link_set.Connect.{start, cancel}
use link_set.Messages.{MessageManager, insert_msg}
use link_set.Messages
use link_set.State.{
  Common, LinkSetMessageInner, States, Disconnected, Connecting, EpochMismatch, Connected,
  Reconnecting, GracePeriod, send_ctrl, set_active, with_timer, arm_timer, Outcome,
}

abbrev pub connected_timer_interval : ℕ
connected_timer_interval = 5_000_000_000

abbrev pub epoch_mismatch_timer_interval : ℕ
epoch_mismatch_timer_interval = 2_000_000_000

abbrev pub attempting : Bool → Common → Common
attempting b = send_ctrl (LinkSetMessageInner.attempting_connection b)

abbrev pub tell_disconnected : Common → Common
tell_disconnected = send_ctrl LinkSetMessageInner.disconnected

-- A timer that waits for `timeout`, if there is one.
abbrev pub wait_for : ℕ → Option ℕ → Common → Common
wait_for now (some timeout) c = arm_timer (modify_deadline_from_now now timeout) c
wait_for now none c = with_timer clear c

-- `determine_timer` of connecting.rs
unfoldable pub determine_timer : ℕ → Common → Common
determine_timer now c = elim c.connecting_timeout [
  | some timeout ↦ arm_timer (λ t. modify_deadline_from_now now timeout (clear_repeat t)) c
  | none ↦ with_timer clear c
]

module _ {L C : Type 0} where
  unfoldable pub connecting_to_disconnected : Common → Connecting C → Common × States L C
  connecting_to_disconnected c s =
      let (conns, addrs) = cancel s.connector in
      (
        attempting false (with_timer clear c),
        States.disconnected (record { conns = conns; addrs = addrs; epoch = s.epoch }),
      )

  unfoldable pub mismatch_to_disconnected : Common → EpochMismatch L C → Common × States L C
  mismatch_to_disconnected c s = (
    with_timer clear c,
    States.disconnected
        (record { conns = s.conns; addrs = s.addrs; epoch = opt_epoch_increment s.epoch }),
  )

  unfoldable pub connected_to_disconnected : Common → Connected L C → Common × States L C
  connected_to_disconnected c s = (
    set_active false (with_timer clear (tell_disconnected c)),
    States.disconnected
        (record { conns = s.conns; addrs = s.addrs; epoch = some (increment s.epoch) }),
  )

  unfoldable pub reconnecting_to_disconnected : Common → Reconnecting C → Common × States L C
  reconnecting_to_disconnected c s =
      let (conns, addrs) = cancel s.connector in
      (
        with_timer clear (tell_disconnected (attempting false c)),
        States.disconnected
            (record { conns = conns; addrs = addrs; epoch = some (increment s.epoch) }),
      )

  unfoldable pub grace_to_disconnected : Common → GracePeriod C → Common × States L C
  grace_to_disconnected c s = (
    tell_disconnected (with_timer clear c),
    States.disconnected
        (record { conns = s.conns; addrs = s.addrs; epoch = some (increment s.epoch) }),
  )

  -- The two moves from `Disconnected`: without and with a message to queue.
  unfoldable pub disconnected_to_connecting :
      ℕ → List (List ℕ) → Common → Disconnected C → Common × States L C
  disconnected_to_connecting now msgs c s = (
    determine_timer now (attempting true c),
    States.connecting
        (record { connector = start s.addrs s.conns; queued_msgs = msgs; epoch = s.epoch }),
  )

  unfoldable pub mismatch_to_connecting : ℕ → Common → EpochMismatch L C → Common × States L C
  mismatch_to_connecting now c s = (
    determine_timer now (attempting true c),
    States.connecting
        (record { connector = start s.addrs s.conns; queued_msgs = []; epoch = s.epoch }),
  )

  unfoldable pub reconnecting_to_connecting : ℕ → Common → Reconnecting C → Common × States L C
  reconnecting_to_connecting now c s = (
    tell_disconnected (determine_timer now c),
    States.connecting
        (record { connector = s.connector; queued_msgs = []; epoch = some (increment s.epoch) }),
  )

  unfoldable pub grace_to_connecting : ℕ → Common → GracePeriod C → Common × States L C
  grace_to_connecting now c s = (
    determine_timer now (attempting true (tell_disconnected c)),
    States.connecting (record {
      connector = start s.addrs s.conns;
      queued_msgs = [];
      epoch = some (increment s.epoch);
    }),
  )

  unfoldable pub connected_to_reconnecting : ℕ → Common → Connected L C → Common × States L C
  connected_to_reconnecting now c s =
      let c' = attempting true c in
      (
        set_active false (wait_for now c'.reconnecting_timeout c'),
        States.reconnecting
            (record { connector = start s.addrs s.conns; msg_mgr = s.msg_mgr; epoch = s.epoch }),
      )

  unfoldable pub connected_to_grace : ℕ → Common → Connected L C → Common × States L C
  connected_to_grace now c s = (
    set_active false (wait_for now c.grace_period_timeout c),
    States.grace_period
        (record { conns = s.conns; addrs = s.addrs; msg_mgr = s.msg_mgr; epoch = s.epoch }),
  )

module _ {L : Type 0} ⦃o : LinkOps L⦄ where
  -- A first link: it is pinged, and the peer is asked for its epoch.
  abbrev pub first_link : ℕ → Option Epoch → LinkEntry L → LinkManager L
  first_link now epoch link = send_reset epoch true (ping_all now (add_link link []))

  -- The queued messages are numbered and sent, in order.
  unfoldable pub send_queued :
      List (List ℕ) → MessageManager → LinkManager L → Option (MessageManager × LinkManager L)
  send_queued [] msgs links = some (msgs, links)
  send_queued (bytes ∷ queued) msgs links =
      let (msgs', seq) = insert_msg bytes msgs in
      elim (Messages.get_outgoing_slice seq msgs') [
        | none ↦ none
        | some slice_mgr ↦ elim (send_slices slice_mgr links) [
          | none ↦ none
          | some (links', result) ↦ send_queued queued msgs' links'
        ]
      ]

-- The timer and the flag of a new `Connected`.
abbrev pub now_connected : ℕ → Common → Common
now_connected now c =
    set_active true (arm_timer (λ t. modify_repeat now connected_timer_interval (clear t)) c)

module _ {L C : Type 0} ⦃o : LinkOps L⦄ where
  unfoldable pub disconnected_to_mismatch :
      ℕ → LinkEntry L → Common → Disconnected C → Common × States L C
  disconnected_to_mismatch now link c s = (
    arm_timer (modify_repeat now epoch_mismatch_timer_interval) c,
    States.epoch_mismatch (record {
      conns = s.conns;
      addrs = s.addrs;
      links = first_link now s.epoch link;
      queued_msgs = [];
      epoch = s.epoch;
      last_ping = now;
    }),
  )

  unfoldable pub connecting_to_mismatch :
      ℕ → LinkEntry L → Common → Connecting C → Common × States L C
  connecting_to_mismatch now link c s =
      let (conns, addrs) = cancel s.connector in
      (
        arm_timer (modify_repeat now epoch_mismatch_timer_interval) (attempting false c),
        States.epoch_mismatch (record {
          conns = conns;
          addrs = addrs;
          links = first_link now s.epoch link;
          queued_msgs = s.queued_msgs;
          epoch = s.epoch;
          last_ping = now;
        }),
      )

  unfoldable pub connected_to_mismatch : ℕ → Common → Connected L C → Common × States L C
  connected_to_mismatch now c s =
      let epoch = some (increment s.epoch) in
      (
        set_active false (arm_timer (modify_repeat now epoch_mismatch_timer_interval) c),
        States.epoch_mismatch (record {
          conns = s.conns;
          addrs = s.addrs;
          links = send_reset epoch true s.links;
          queued_msgs = [];
          epoch = epoch;
          last_ping = s.last_ping;
        }),
      )

  unfoldable pub mismatch_to_connected : ℕ → Epoch → Common → EpochMismatch L C → Outcome L C
  mismatch_to_connected now epoch c s =
      let c' = send_ctrl (LinkSetMessageInner.connected epoch) c in
      elim (send_queued s.queued_msgs (Messages.new epoch) s.links) [
        | none ↦ none
        | some (msgs, links) ↦ some (
          now_connected now c',
          States.connected (record {
            conns = s.conns;
            addrs = s.addrs;
            links = links;
            msg_mgr = msgs;
            epoch = epoch;
            last_ping = s.last_ping;
          }),
        )
      ]

  unfoldable pub reconnecting_to_connected :
      ℕ → LinkEntry L → Common → Reconnecting C → Common × States L C
  reconnecting_to_connected now link c s =
      let (conns, addrs) = cancel s.connector in
      (
        now_connected now (attempting false c),
        States.connected (record {
          conns = conns;
          addrs = addrs;
          links = ping_all now (link ∷ []);
          msg_mgr = s.msg_mgr;
          epoch = s.epoch;
          last_ping = now;
        }),
      )

  unfoldable pub grace_to_connected : ℕ → LinkEntry L → Common → GracePeriod C → Common × States L C
  grace_to_connected now link c s = (
    now_connected now c,
    States.connected (record {
      conns = s.conns;
      addrs = s.addrs;
      links = ping_all now (link ∷ []);
      msg_mgr = s.msg_mgr;
      epoch = s.epoch;
      last_ping = now;
    }),
  )
