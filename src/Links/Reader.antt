-- ===== src/Links/Reader.antt =====
-- The task that `LinkEntry::take_reader` spawns (src/links/link_entry.rs): it reads messages off a
-- link and hands them on. What the reader of the link gives is a list; when it ends, the task waits.
use link_set.Prelude.{
  ℕ, zero, suc, ◌≤◌, ◌≡◌, refl, List, [], ◌∷◌, Bool, true, false, length, map, arith, All,
  append-nil,
}
use mathlib.Core.Path.{subst}
use link_set.Protocol.{LinkProtocol, LinkSetResult, ok, err, serialize, deserialize}
use link_set.Protocol.RoundTrip.{IsWire, deserialize-serialize}

-- The messages handed on under the id of the link, and whether the task has ended.
abbrev pub Forwarded : Type 0
Forwarded = List (ℕ × LinkProtocol) × Bool

-- A message is handed on if there is a receiver, and the loop goes on.
unfoldable pub forward : ℕ → LinkSetResult (LinkProtocol × List ℕ) → ℕ → (ℕ → Forwarded) → Forwarded
forward id (err why) room loop = ([], true)
forward id (ok (proto, rest)) zero loop = ([], true)
forward id (ok (proto, rest)) (suc room) loop =
    let (protos, ended) = loop room in ((id, proto) ∷ protos, ended)

-- The receiver takes `room` messages and is dropped then.
unfoldable pub reader_task : ℕ → ℕ → List (LinkSetResult (List ℕ)) → Forwarded
unfolding forward
reader_task id room [] = ([], false)
reader_task id room (err why ∷ reads) = ([], true)
reader_task id room (ok chunk ∷ reads) =
    forward id (deserialize chunk) room (λ left. reader_task id left reads)

abbrev pub tagged : ℕ → LinkProtocol → ℕ × LinkProtocol
tagged id proto = (id, proto)

-- The messages that a peer wrote are handed on under the id of the link, all of them and in order, as
-- long as there is a receiver.
pub reader_task-serialize :
    (id room : ℕ) (protos : List LinkProtocol)
    → All IsWire protos
    → length protos ≤ room
    → reader_task id room (map (λ p. ok (serialize p)) protos) ≡ (map (tagged id) protos, false)
unfolding reader_task
reader_task-serialize id room [] fits enough = refl
reader_task-serialize id zero (p ∷ protos) fits enough = absurd (omega arith)
reader_task-serialize id (suc room) (p ∷ protos) fits enough =
    let read : deserialize (serialize p) ≡ ok (p, []) =
      subst (λ d. deserialize d ≡ ok (p, [])) (append-nil (serialize p))
        (deserialize-serialize p [] fits.0) in
    rw (read, forward) (rw (reader_task-serialize id room protos fits.1 (omega arith)) refl)
