-- ===== src/Controller.antt =====
-- src/link_set/controller.rs and src/link_set/reader.rs: the handles of the user. The handles share
-- two channels to and from the core, the epoch behind a mutex and the flag `is_active`: `Channels`.
-- The core holds the other ends of both channels, so they close together, when it is gone. The mutex
-- is never poisoned, and a channel that is full only makes its sender wait.
pub mod Hearing
pub mod Serde
use link_set.Prelude.{
  ℕ, zero, suc, List, [], ◌∷◌, ◌++◌, Bool, true, false, not, ◌&&◌, Option, none, some,
  if◌then◌else◌,
}
use link_set.Epoch.{Epoch}
use link_set.Protocol.{LinkSetResult, ok, err, LinkSetError, ◌>>=◌}
use link_set.Address.{Address}
use link_set.Connect.{ManagedAddress, new_address, set_repeat, add_count}
use link_set.State.{LinkSetMessageInner, Command, Config}
use link_set.Core.{LinkSetControl, command, config}

-- The trait `LinkSetSendable`.
pub record LinkSetSendable (M : Type 0) : Type 0 where
  pub to_bytes : M → Option (List ℕ)
  pub from_bytes : List ℕ → Option M

pub data LinkSetMessage (M : Type 0) : Type 0 where
  disconnected : LinkSetMessage M
  connected : Epoch → LinkSetMessage M
  attempting_connection : Bool → LinkSetMessage M
  message : M → Epoch → LinkSetMessage M

-- What the handles share. `to_core` is what was sent to the core, `from_core` what is not yet
-- received from it.
pub record Channels (L C : Type 0) : Type 0 where
  pub to_core : List (LinkSetControl L C)
  pub core_gone : Bool
  pub from_core : List LinkSetMessageInner
  pub epoch : Option Epoch
  pub is_active : Bool

-- A `LinkSet` has the receiver of the channel from the core, or its reader has been taken.
pub record LinkSet : Type 0 where
  pub from_core : Bool

module _ {M : Type 0} ⦃m : LinkSetSendable M⦄ where
  unfoldable pub try_from : LinkSetMessageInner → LinkSetResult (LinkSetMessage M)
  try_from LinkSetMessageInner.disconnected = ok disconnected
  try_from (LinkSetMessageInner.connected epoch) = ok (connected epoch)
  try_from (LinkSetMessageInner.attempting_connection is_connecting) =
      ok (attempting_connection is_connecting)
  try_from (LinkSetMessageInner.message bytes epoch) = elim (m.from_bytes bytes) [
    | none ↦ err LinkSetError.sendable_deserialization
    | some msg ↦ ok (message msg epoch)
  ]

-- What `recv` does to the epoch behind the mutex.
unfoldable pub hear : {M : Type 0} → LinkSetMessage M → Option Epoch → Option Epoch
hear disconnected epoch = none
hear (connected e) epoch = some e
hear (attempting_connection b) epoch = epoch
hear (message msg e) epoch = epoch

abbrev pub is_empty {ℓ} : {A : Type ℓ} → List A → Bool
is_empty [] = true
is_empty (x ∷ xs) = false

-- `take_recv`: whether there is a reader, and the handle without it.
unfoldable pub take_recv : LinkSet → Bool × LinkSet
take_recv h = (h.from_core, record h { from_core = false })

unfoldable pub clone_sender : LinkSet → LinkSet
clone_sender h = record h { from_core = false }

module _ {L C : Type 0} where
  unfoldable pub new : Channels L C
  new = record { to_core = []; core_gone = false; from_core = []; epoch = none; is_active = false }

  unfoldable pub is_terminated : Channels L C → Bool
  is_terminated s = s.core_gone

  unfoldable pub current_epoch : LinkSet → Channels L C → Option Epoch
  current_epoch h s = if h.from_core && (s.core_gone && is_empty s.from_core) then none else s.epoch

  unfoldable pub is_active : Channels L C → Bool
  is_active s = s.is_active && not s.core_gone

  unfoldable pub send_control :
      LinkSetControl L C → Channels L C → LinkSetResult (Unit {0}) × Channels L C
  send_control msg s =
      if s.core_gone
      then (err LinkSetError.terminated, s)
      else (ok tt, record s { to_core = s.to_core ++ (msg ∷ []) })

  unfoldable pub connect : Channels L C → LinkSetResult (Unit {0}) × Channels L C
  connect s = send_control (command Command.connect) s

  unfoldable pub disconnect : Channels L C → LinkSetResult (Unit {0}) × Channels L C
  disconnect s = send_control (command Command.disconnect) s

  unfoldable pub add_connector : C → Channels L C → LinkSetResult (Unit {0}) × Channels L C
  add_connector conn s = send_control (command (Command.add_connector conn)) s

  unfoldable pub set_auto_connect : Bool → Channels L C → LinkSetResult (Unit {0}) × Channels L C
  set_auto_connect reconnect s = send_control (config (Config.auto_connect reconnect)) s

  unfoldable pub set_connection_timeout :
      Option ℕ → Channels L C → LinkSetResult (Unit {0}) × Channels L C
  set_connection_timeout timeout s = send_control (config (Config.connect_timeout timeout)) s

  unfoldable pub set_reconnection_timeout :
      Option ℕ → Channels L C → LinkSetResult (Unit {0}) × Channels L C
  set_reconnection_timeout timeout s = send_control (config (Config.reconnect_timeout timeout)) s

  unfoldable pub set_grace_period_timeout :
      Option ℕ → Channels L C → LinkSetResult (Unit {0}) × Channels L C
  set_grace_period_timeout grace s = send_control (config (Config.grace_period grace)) s

  unfoldable pub add_addr : Address → Channels L C → LinkSetResult (Unit {0}) × Channels L C
  add_addr addr s =
      send_control (command (Command.add_address (set_repeat true (new_address addr)))) s

  unfoldable pub try_addr : Address → Channels L C → LinkSetResult (Unit {0}) × Channels L C
  try_addr addr s = send_control (command (Command.add_address (add_count 1 (new_address addr)))) s

  unfoldable pub add_link : L → Channels L C → LinkSetResult (Unit {0}) × Channels L C
  add_link link s = send_control (command (Command.add_link link)) s

  -- Of the reader: `current_epoch` and `drop`.
  unfoldable pub reader_current_epoch : Channels L C → Option Epoch
  reader_current_epoch s = if s.core_gone && is_empty s.from_core then none else s.epoch

  unfoldable pub reader_drop : Channels L C → Channels L C
  reader_drop s = record s { epoch = none }

module _ {L C M : Type 0} ⦃m : LinkSetSendable M⦄ where
  unfoldable pub send_opt_epoch :
      M → Option Epoch → Channels L C → LinkSetResult (Unit {0}) × Channels L C
  send_opt_epoch msg epoch s = elim (m.to_bytes msg) [
    | none ↦ (err LinkSetError.sendable_serialization, s)
    | some bytes ↦ send_control (command (Command.message bytes epoch)) s
  ]

  unfoldable pub send : M → Channels L C → LinkSetResult (Unit {0}) × Channels L C
  unfolding send_opt_epoch
  send msg s = send_opt_epoch msg none s

  unfoldable pub send_with_epoch :
      M → Epoch → Channels L C → LinkSetResult (Unit {0}) × Channels L C
  unfolding send_opt_epoch
  send_with_epoch msg epoch s = send_opt_epoch msg (some epoch) s

  -- The message is gone from the channel also where it cannot be converted.
  unfoldable pub take_msg :
      LinkSetResult (LinkSetMessage M)
      → Channels L C
      → Option (LinkSetResult (LinkSetMessage M)) × Channels L C
  take_msg (err why) s = (some (err why), s)
  take_msg (ok ret) s = (some (ok ret), record s { epoch = hear ret s.epoch })

  -- No answer: it waits for the core.
  unfoldable pub recv :
      LinkSet → Channels L C → Option (LinkSetResult (LinkSetMessage M)) × Channels L C
  unfolding take_msg
  recv h s =
      if h.from_core
      then elim s.from_core [
        | [] ↦ if s.core_gone then (some (err LinkSetError.terminated), s) else (none, s)
        | msg ∷ msgs ↦ take_msg (try_from msg) (record s { from_core = msgs })
      ]
      else (some (err LinkSetError.receiver_taken), s)

  unfoldable pub reader_recv :
      Channels L C → Option (LinkSetResult (LinkSetMessage M)) × Channels L C
  unfolding take_msg
  reader_recv s = elim s.from_core [
    | [] ↦
        if s.core_gone
        then (some (err LinkSetError.terminated), record s { epoch = none })
        else (none, s)
    | msg ∷ msgs ↦ take_msg (try_from msg) (record s { from_core = msgs })
  ]
