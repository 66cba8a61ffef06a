-- ===== src/Examples/Running.antt =====
-- The core at concrete inputs: panics, the diagram of the states, and what the controller misses.
use mathlib.Core.Path.{subst}
use link_set.Prelude.{
  ◌^◌, inl, inr, length, ◌==◌, if◌then◌else◌, ℕ, ◌≡◌, refl, List, [], ◌∷◌, ◌++◌, none, some, true,
  arith, All, Ensures,
}
use link_set.Epoch.{compare_epochs}
use link_set.Protocol.{
  LinkProtocol, reset, ping, msg_slice, serialize, deserialize, ok, err, closed,
}
use link_set.OrderedMap.{get}
use link_set.Slices.{from_vec, get_slices, get_slices_of, make_slices, cut_slices}
use link_set.Links.{
  LinkEntry, entry_is_closed, latency, entry_send, entry_max_size, send_proto, send_slices,
  send_each,
}
use link_set.Links.{upkeep}
use link_set.Links.Silence.{ping_at, upkeep-ping_at}
use link_set.Controller.{LinkSetMessage, try_from}
use link_set.Controller.Serde.{
  Bincode, ReadsBack, decode, to_bytes, from_bytes, sendable, try_from-to_bytes,
}
use link_set.State.{LinkSetMessageInner}
use link_set.Protocol.{LinkSetError}
use link_set.Links.Choosing.{asked, send-first}
use link_set.Messages
use link_set.State.Offline.{disconnected_ctrl_msg}
use link_set.State.Mismatch.{mismatch_link_msg, mismatch_reset, adopt}
use link_set.State.Moves.{disconnected_to_mismatch, mismatch_to_connected, send_queued}
use link_set.State.{wrap_link, Common, Command, States, Connected}
use link_set.Core.{
  Event, command, ctrl_msg, link_msg, timer, handle_ctrl_msg, handle_command, handle_link_msg,
  handle, run,
}
use link_set.Core.Holds.{Holds}
use link_set.Core.Sound.Runs.{IsSafeEvent, Steady, run-Sound}
use link_set.Core.Clock.{OnTime}
use link_set.Deadline.{modify_repeat, after, clear}
use link_set.Core.Sound.Crash.{handle_panics}
use link_set.Core.Sound.Peers.{coming, run-get_slices}
use link_set.Core.{turn, settled}
use link_set.State.{arm_timer, with_timer, set_active, send_ctrl}
use link_set.Protocol.{◌>>=◌}
use link_set.Core.Debugger.{snapshot, evict_link, has_links, without, snapshot-evict_link}
use link_set.Core.Diagram.{Follows, phase}
use link_set.Core.Diagram.Runs.{cause_of, handle-Follows}
use link_set.Core.Diagram.Meeting.{Meeting, run-Meeting}
use link_set.Examples.Machine.{counting, schemes, entry, sender, home, tcp, idle, offline}

-- A slice after the handshake, among other events.
abbrev sliced : List (Event ℕ (List ℕ))
sliced =
    ctrl_msg 1 (command (Command.add_link 0))
    ∷ link_msg 2 0 (reset (some 4) true)
    ∷ link_msg 3 0 (msg_slice 4 0 3 0 (10 ∷ 20 ∷ 30 ∷ []))
    ∷ timer 3_000_000_000
    ∷ []

sliced_safe : All IsSafeEvent sliced
sliced_safe = (
  omega arith,
  (
    (omega arith, tt),
    (
      (
        omega arith,
        record {
          nonempty = omega arith;
          end_positive = omega arith;
          end_fits = omega arith;
          len_fits = omega arith;
          allocates = omega arith;
        },
      ),
      (omega arith, tt),
    ),
  ),
)

idle-OnTime : OnTime idle
idle-OnTime = (tt, tt, tt, tt)

run-Sound_example : Ensures Steady (run sliced idle offline)
run-Sound_example = run-Sound sliced idle offline sliced_safe (tt, idle-OnTime)

online : Connected ℕ (List ℕ)
online = record {
  conns = tcp;
  addrs = home ∷ [];
  links = entry ∷ [];
  msg_mgr = Messages.new 4;
  epoch = 4;
  last_ping = 0;
}

handle_panics_example :
    (deserialize (serialize (msg_slice 4 1 (2 ^ 63) 0 (10 ∷ [])) ++ (9 ∷ []))
      ≡ ok (msg_slice 4 1 (2 ^ 63) 0 (10 ∷ []), 9 ∷ []))
    × (handle (link_msg 3 1 (msg_slice 4 1 (2 ^ 63) 0 (10 ∷ []))) idle (States.connected online)
        ≡ none)
unfolding online Messages.new get
handle_panics_example =
    handle_panics 3 1 1 (2 ^ 63) 0 (10 ∷ []) (9 ∷ []) idle online (inr (omega arith))
      (omega arith, omega arith, omega arith, omega arith, omega arith, omega arith) (omega arith)
      refl

run-get_slices_example :
    (ps : List LinkProtocol) × (get_slices (from_vec 3 0 (10 ∷ 20 ∷ 30 ∷ [])) 2 ≡ some ps)
    × Ensures Steady (run (coming 7 0 ps) idle offline)
run-get_slices_example =
    run-get_slices (10 ∷ 20 ∷ 30 ∷ []) 3 0 2 7 0 idle offline (omega arith) (omega arith)
      (omega arith) (omega arith) (tt, idle-OnTime)

handle-Follows_example :
    Holds
      (Follows
        (cause_of {L = ℕ} {C = List ℕ} (link_msg 2 0 (reset (some 9) true)))
        (phase (States.connected online)))
      (handle (link_msg 2 0 (reset (some 9) true)) idle (States.connected online))
handle-Follows_example =
    handle-Follows (link_msg 2 0 (reset (some 9) true)) idle (States.connected online)

abbrev meeting : List (Event ℕ (List ℕ))
meeting = ctrl_msg 1 (command (Command.add_link 0)) ∷ link_msg 2 0 (reset (some 4) true) ∷ []

run-Meeting_example :
    (front : List (Event ℕ (List ℕ))) × (event : Event ℕ (List ℕ)) × (back : List
      (Event ℕ (List ℕ)))
    × (c1 : Common) × (state1 : States ℕ (List ℕ)) × (meeting ≡ front ++ (event ∷ back))
    × (run front idle offline ≡ some (c1, state1))
    × Meeting event c1 state1
unfolding run handle turn settled handle_ctrl_msg handle_command handle_link_msg
    disconnected_ctrl_msg wrap_link disconnected_to_mismatch mismatch_link_msg mismatch_reset
    compare_epochs adopt mismatch_to_connected send_queued arm_timer with_timer modify_repeat after
    clear set_active send_ctrl
run-Meeting_example = run-Meeting meeting idle _ offline _ tt refl

-- A link whose last pings took too long.
abbrev slow_entry : LinkEntry ℕ
slow_entry = record { id = 8; link = 0; ping_sent = none; recent = 3_000_000_000 ∷ [] }

abbrev cut : List LinkProtocol
cut = msg_slice 1 2 3 0 (10 ∷ 20 ∷ 30 ∷ []) ∷ []

send-first_example :
    (send_proto ping ((slow_entry ∷ []) ++ (entry ∷ []))
      ≡ ((entry_send ping (asked entry)).0 ∷ [], (entry_send ping (asked entry)).1))
    × (send_slices sender ((slow_entry ∷ []) ++ (entry ∷ []))
        ≡ some ((send_each cut (asked entry)).0 ∷ [], (send_each cut (asked entry)).1))
    × (send_proto ping (slow_entry ∷ []) ≡ ([], err closed))
    × (send_slices sender (slow_entry ∷ []) ≡ some ([], err closed))
unfolding entry_is_closed latency get_slices get_slices_of make_slices entry_max_size cut_slices
send-first_example =
    send-first ping sender cut (slow_entry ∷ []) [] entry (refl, tt) (refl, omega arith) refl

-- A message is one byte.
abbrev one_byte : Bincode ℕ (Unit {0}) (Unit {0})
one_byte = record {
  encode_to_vec = λ msg. inr (msg ∷ []);
  decode_from_slice = λ bytes. elim bytes [ [] ↦ inl tt | b ∷ rest ↦ inr (b, 1) ];
  other_string = tt;
}

one_byte-ReadsBack : ReadsBack one_byte
one_byte-ReadsBack msg bytes rest e =
    let same : msg ∷ [] ≡ bytes = ground (arith, e) in
    subst (λ (bs : List ℕ). one_byte.decode_from_slice (bs ++ rest) ≡ inr (msg, length bs)) same
      refl

try_from-to_bytes_example :
    (from_bytes one_byte ((7 ∷ []) ++ (9 ∷ []))
      ≡ (if length {A = ℕ} (9 ∷ []) == 0 then inr 7 else inl (decode tt)))
    × (try_from ⦃m = sendable one_byte⦄ (LinkSetMessageInner.message ((7 ∷ []) ++ (9 ∷ [])) 4) ≡ (
        if length {A = ℕ} (9 ∷ []) == 0
        then ok (LinkSetMessage.message 7 4)
        else err LinkSetError.sendable_deserialization))
unfolding to_bytes
try_from-to_bytes_example = try_from-to_bytes one_byte 7 (7 ∷ []) (9 ∷ []) 4 one_byte-ReadsBack refl

-- A link is evicted after some events.
snapshot-evict_link_example :
    ((evict_link 1 sliced (some (idle, States.connected online))).0 ≡ (
      (snapshot sliced (some (idle, States.connected online))).0 >>= λ s.
      ok (has_links s.state_name)))
    × ((snapshot [] (evict_link 1 sliced (some (idle, States.connected online))).1).0
        ≡ ((snapshot sliced (some (idle, States.connected online))).0 >>= λ s. ok (without 1 s)))
snapshot-evict_link_example = snapshot-evict_link 1 sliced (some (idle, States.connected online))

-- Pings every 5 seconds, the first of them at 10.
upkeep-ping_at_example :
    upkeep (
      ping_at
        (10_000_000_000 ∷ 15_000_000_000 ∷ 20_000_000_000 ∷ 25_000_000_000 ∷ 30_000_000_000
          ∷ 35_000_000_000 ∷ [])
        (record entry { ping_sent = some 5_000_000_000 })
      ∷ [])
    ≡ upkeep []
upkeep-ping_at_example =
    upkeep-ping_at 5_000_000_000 _ (record entry { ping_sent = some 5_000_000_000 }) [] refl
      (omega arith) (omega arith)
