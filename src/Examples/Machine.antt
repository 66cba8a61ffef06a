-- ===== src/Examples/Machine.antt =====
-- Links, connectors and the core at concrete inputs.
use link_set.Prelude.{ℕ, ◌+◌, ◌≤◌, ◌≡◌, refl, List, [], ◌∷◌, Option, none, some, true, false, arith}
use link_set.Protocol.{ok, reset, ping}
use link_set.Slices.{SliceManager, get_slices}
use link_set.Deadline
use link_set.Links.{LinkOps, LinkEntry, entry_max_size}
use link_set.Links.Sending.{AllFit, get_slices-AllFit}
use link_set.Address.{AddressRepr}
use link_set.Connect.{ManagedAddress, ConnectorOps, ConnectorManager, ConnectorSet}
use link_set.Connect.Attempts.{TaskEvent, go, fail, wake, add_permits, link_up, create_task, added}
use link_set.Connect.Attempts.Rounds.{attempts, attempts-le-added}
use link_set.State.{Common, Command, States, EpochMismatch, new_common}
use link_set.State.Mismatch.{mismatch_link_msg}
use link_set.Links.{send_reset}
use link_set.Core.{Event, command, ctrl_msg, link_msg, timer, debug_cmd, run}
use link_set.State.Debug.{DebugCommand}
use link_set.Core.Holds.{Holds}
use link_set.Core.Active.{Flagged, is_connected}
use link_set.Core.Active.Runs.{run-Flagged}
use link_set.Core.Heard.{InTouch, honest}
use link_set.Core.Heard.Runs.{run-InTouch}
use link_set.Controller.{LinkSetSendable}
use link_set.Controller.Hearing.{Shows, run-Shows}
use link_set.Core.Epochs.{epoch_of, Reaches}
use link_set.Core.Epochs.Runs.{run-Reaches}
use link_set.Core.Epochs.Handshake.{top}
use link_set.Core.Epochs.Agreement.{handshake, replied}

-- A link that takes 100 bytes at a time and counts what it sends.
instance abbrev pub counting : LinkOps ℕ
counting = record {
  send = λ l bytes. (l + 1, ok tt);
  max_size = λ l. 100;
  is_closed = λ l. (l, false);
  take_reader = λ l. ok l;
  scheme = λ l. 116 ∷ [];
}

-- A connector is its scheme.
instance abbrev pub schemes : ConnectorOps (List ℕ)
schemes = record { scheme = λ c. c }

abbrev pub sender : SliceManager
sender = record { epoch = 1; seq = 2; bytes = 10 ∷ 20 ∷ 30 ∷ []; slices = (0, 2) ∷ [] }

abbrev pub entry : LinkEntry ℕ
entry = record { id = 1; link = 0; ping_sent = none; recent = 5 ∷ [] }

get_slices-AllFit_example : AllFit 100 (get_slices sender (entry_max_size entry))
get_slices-AllFit_example = get_slices-AllFit sender entry (omega arith)

abbrev pub home : ManagedAddress
home = record {
  addr = record { scheme = 116 ∷ []; addr = AddressRepr.string (104 ∷ []) };
  repeat = false;
  count = 3;
}

abbrev pub tcp : ConnectorSet (List ℕ)
tcp = ((116 ∷ []), (116 ∷ [])) ∷ []

abbrev trying : ConnectorManager (List ℕ)
trying = record { conns = []; handles = (home, none) ∷ [] }

abbrev pub idle : Common
idle = record {
  to_ctrl = [];
  next_link_id = 0;
  readers = [];
  is_active = false;
  timer = some Deadline.new;
  auto_connect = true;
  connecting_timeout = none;
  reconnecting_timeout = none;
  grace_period_timeout = none;
}

abbrev pub mismatch : Option ℕ → EpochMismatch ℕ (List ℕ)
mismatch epoch = record {
  conns = tcp;
  addrs = home ∷ [];
  links = entry ∷ [];
  queued_msgs = (1 ∷ []) ∷ [];
  epoch = epoch;
  last_ping = 0;
}

handshake_example :
    (r : Common × States ℕ (List ℕ)) × (q : Common × States ℕ (List ℕ)) × (mismatch_link_msg 9 idle
        (mismatch (some 3))
        1
        (reset none true)
      ≡ replied 9
          (top (some 3) none)
          false
          idle
          (mismatch (some 3))
          (send_reset (some (top (some 3) none)) false (entry ∷ [])))
    × (mismatch_link_msg 9 idle (mismatch (some 3)) 1 (reset none true) ≡ some r)
    × (mismatch_link_msg 9 idle (mismatch none) 2 (reset (some (top (some 3) none)) false) ≡ some q)
    × (epoch_of r.1 ≡ some (top (some 3) none))
    × (epoch_of q.1 ≡ some (top (some 3) none))
    × (is_connected q.1 ≡ true)
handshake_example =
    handshake 9 1 2 idle idle (mismatch (some 3)) (mismatch none) (omega arith, omega arith) tt

abbrev pub events : List (Event ℕ (List ℕ))
events =
    ctrl_msg 1 (command (Command.add_link 0))
    ∷ link_msg 2 0 (reset (some 4) true)
    ∷ link_msg 3 0 ping
    ∷ timer 3_000_000_000
    ∷ debug_cmd (DebugCommand.evict_link 7)
    ∷ ctrl_msg 5 (command Command.disconnect)
    ∷ []

abbrev pub offline : States ℕ (List ℕ)
offline = States.disconnected (record { conns = tcp; addrs = home ∷ []; epoch = some 3 })

run-Flagged_example : Holds Flagged (run events idle offline)
run-Flagged_example = run-Flagged events idle offline refl

run-Reaches_example : Holds (Reaches (some 3)) (run events idle offline)
run-Reaches_example =
    run-Reaches events idle offline (omega arith, omega arith)
      (tt, ((omega arith, omega arith), (tt, (tt, (tt, (tt, tt))))))

offline-InTouch : InTouch (idle, offline)
unfolding InTouch honest
offline-InTouch = refl

run-InTouch_example : Holds InTouch (run events idle offline)
run-InTouch_example = run-InTouch events idle offline offline-InTouch

-- Messages are bytes.
instance abbrev raw : LinkSetSendable (List ℕ)
raw = record { to_bytes = λ bs. some bs; from_bytes = λ bs. some bs }

run-Shows_example : Holds (Shows (List ℕ)) (
    run events new_common
      (States.disconnected (record { conns = tcp; addrs = home ∷ []; epoch = some 3 })))
run-Shows_example =
    run-Shows (List ℕ) events (record { conns = tcp; addrs = home ∷ []; epoch = some 3 })

abbrev task_events : List (TaskEvent ℕ)
task_events = go ∷ fail ∷ wake ∷ add_permits 1 ∷ go ∷ link_up 5 true ∷ wake ∷ go ∷ []

attempts-le-added_example : attempts task_events (create_task false 1) ≤ 1 + added task_events
attempts-le-added_example = attempts-le-added task_events 1 (omega arith)
