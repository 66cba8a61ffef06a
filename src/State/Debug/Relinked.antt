-- ===== src/State/Debug/Relinked.antt =====
-- What a debug command does to the state.
use link_set.Prelude.{ℕ, List, Option, ◌≡◌, refl}
use link_set.Epoch.{Epoch}
use link_set.Address.{Address}
use link_set.Links
use link_set.Links.{LinkOps, LinkManager}
use link_set.Connect.{ConnectorOps}
use link_set.State.{States}
use link_set.State.Debug.{DebugCommand, debug, debug_no_links, debug_links}

module _ {L : Type 0} where
  abbrev pub links_after : DebugCommand → LinkManager L → LinkManager L
  links_after DebugCommand.snapshot links = links
  links_after (DebugCommand.evict_link id) links = (Links.evict_link id links).0

module _ {L C : Type 0} where
  -- The state with the links that the command leaves.
  abbrev pub relinked : DebugCommand → States L C → States L C
  relinked cmd (States.disconnected s) = States.disconnected s
  relinked cmd (States.connecting s) = States.connecting s
  relinked cmd (States.epoch_mismatch s) =
      States.epoch_mismatch (record s { links = links_after cmd s.links })
  relinked cmd (States.connected s) =
      States.connected (record s { links = links_after cmd s.links })
  relinked cmd (States.reconnecting s) = States.reconnecting s
  relinked cmd (States.grace_period s) = States.grace_period s

module _ {L C : Type 0} ⦃o : LinkOps L⦄ ⦃c : ConnectorOps C⦄ where
  no_links_state :
      (cmd : DebugCommand) (e : Option Epoch) (as' : List Address) (cs : List (List ℕ))
      (state : States L C)
      → (debug_no_links cmd e as' cs state).1 ≡ state
  unfolding debug_no_links
  no_links_state DebugCommand.snapshot e as' cs state = refl
  no_links_state (DebugCommand.evict_link id) e as' cs state = refl

  links_state :
      (cmd : DebugCommand) (e : Option Epoch) (as' : List Address) (cs : List (List ℕ))
      (links : LinkManager L) (put : LinkManager L → States L C)
      → (debug_links cmd e as' cs links put).1 ≡ put (links_after cmd links)
  unfolding debug_links
  links_state DebugCommand.snapshot e as' cs links put = refl
  links_state (DebugCommand.evict_link id) e as' cs links put = refl

  pub debug-relinked :
      (cmd : DebugCommand) (state : States L C) → (debug cmd state).1 ≡ relinked cmd state
  unfolding debug
  debug-relinked cmd (States.disconnected s) = no_links_state cmd _ _ _ _
  debug-relinked cmd (States.connecting s) = no_links_state cmd _ _ _ _
  debug-relinked cmd (States.epoch_mismatch s) = links_state cmd _ _ _ s.links _
  debug-relinked cmd (States.connected s) = links_state cmd _ _ _ s.links _
  debug-relinked cmd (States.reconnecting s) = no_links_state cmd _ _ _ _
  debug-relinked cmd (States.grace_period s) = no_links_state cmd _ _ _ _
