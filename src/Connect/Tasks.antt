-- ===== src/Connect/Tasks.antt =====
-- The tasks of src/connector_manager.rs and the connectors that they run.
use link_set.Prelude.{
  ℕ, ◌≤◌, List, [], ◌∷◌, true, false, some, ◌≡◌, refl, sym, ap, if◌then◌else◌, map, inl, inr,
  Bool-cases, arith,
}
use link_set.Address.{bytes_eq}
use link_set.Address.Equal.{bytes_eq→≡}
use link_set.Connect.{
  ManagedAddress, AddressSet, ConnectorSet, TaskSet, ConnectorManager, ConnectorOps, retries_max,
  add_count, set_repeat, merge, insert_address, find_conn, insert_conn, start_task, start,
  add_handle, add_addr, restart, cancel, add_connector,
}

-- The permits of an address never exceed the bound of the semaphore.
abbrev pub IsAddress : ManagedAddress → Type 0
IsAddress a = a.count ≤ retries_max

merge-IsAddress : (a b : ManagedAddress) → IsAddress a → IsAddress (merge a b)
unfolding merge add_count set_repeat
merge-IsAddress a b h = ground arith

abbrev AreAddresses : AddressSet → Type 0
AreAddresses [] = Unit
AreAddresses (a ∷ as') = IsAddress a × AreAddresses as'

-- Adding an address, new or known, keeps the permits of every address within the bound.
insert_address-AreAddresses :
    (a : ManagedAddress) (addrs : AddressSet)
    → IsAddress a
    → AreAddresses addrs
    → AreAddresses (insert_address a addrs)
unfolding insert_address
insert_address-AreAddresses a [] h hs = (h, tt)
insert_address-AreAddresses a (b ∷ addrs) h hs =
    ground (arith, merge-IsAddress b a hs.0, insert_address-AreAddresses a addrs h hs.1)

differ : (s t k : List ℕ) → bytes_eq t k ≡ false → bytes_eq s k ≡ true → bytes_eq s t ≡ false
differ s t k e q = elim (Bool-cases (bytes_eq s t)) [
  | inl p ↦
      let same = ap (λ x. bytes_eq x k) (bytes_eq→≡ s t p) in absurd (ground (arith, same, e, q))
  | inr p ↦ p
]

module _ {C : Type 0} where
  -- Each task runs the connector that its scheme has now, or waits for one.
  abbrev AreStarted : ConnectorSet C → TaskSet C → Type 0
  AreStarted conns [] = Unit
  AreStarted conns ((k, handle) ∷ handles) =
      (handle ≡ find_conn k.addr.scheme conns) × AreStarted conns handles

  abbrev IsStarted : ConnectorManager C → Type 0
  IsStarted m = AreStarted m.conns m.handles

  start_tasks :
      (addrs : AddressSet) (conns : ConnectorSet C)
      → AreStarted conns (map (start_task conns) addrs)
  unfolding start_task
  start_tasks [] conns = tt
  start_tasks (a ∷ addrs) conns = (refl, start_tasks addrs conns)

  -- The tasks of a new manager.
  start-IsStarted : (addrs : AddressSet) (conns : ConnectorSet C) → IsStarted (start addrs conns)
  unfolding start
  start-IsStarted addrs conns = start_tasks addrs conns

  keys :
      (addrs : AddressSet) (conns : ConnectorSet C)
      → map (λ h. h.0) (map (start_task conns) addrs) ≡ addrs
  unfolding start_task
  keys [] conns = refl
  keys (a ∷ addrs) conns = ap (λ t. a ∷ t) (keys addrs conns)

  -- Stopping the tasks right after they are started gives the connectors and the addresses back as
  -- they were, in order.
  cancel-start :
      (addrs : AddressSet) (conns : ConnectorSet C) → cancel (start addrs conns) ≡ (conns, addrs)
  unfolding cancel start
  cancel-start addrs conns = ap (λ t. (conns, t)) (keys addrs conns)

  add_handle-AreStarted :
      (conns : ConnectorSet C) (a : ManagedAddress) (handles : TaskSet C)
      → AreStarted conns handles
      → AreStarted conns (add_handle conns a handles)
  unfolding add_handle start_task merge add_count set_repeat
  add_handle-AreStarted conns a [] h = (refl, tt)
  add_handle-AreStarted conns a ((k, handle) ∷ handles) h =
      ground (arith, add_handle-AreStarted conns a handles h.1)

  -- Adding an address, new or known, keeps every task running the connector that its scheme has.
  add_addr-IsStarted :
      (a : ManagedAddress) (m : ConnectorManager C) → IsStarted m → IsStarted (add_addr a m)
  unfolding add_addr
  add_addr-IsStarted a m h = add_handle-AreStarted m.conns a m.handles h

  find_conn-insert_conn :
      (s t : List ℕ) (c : C) (conns : ConnectorSet C)
      → find_conn s (insert_conn t c conns) ≡ (if bytes_eq s t then some c else find_conn s conns)
  unfolding find_conn insert_conn
  find_conn-insert_conn s t c [] = refl
  find_conn-insert_conn s t c ((k, d) ∷ conns) = elim (Bool-cases (bytes_eq t k)) [
    | inl e ↦ rw e (rw (sym (bytes_eq→≡ t k e)) (ground arith))
    | inr e ↦ rw e (elim (Bool-cases (bytes_eq s k)) [
      | inl q ↦ rw q (rw (differ s t k e q) refl)
      | inr q ↦ rw q (find_conn-insert_conn s t c conns)
    ])
  ]

  restart-AreStarted :
      (s : List ℕ) (c : C) (conns : ConnectorSet C) (handles : TaskSet C)
      → AreStarted conns handles
      → AreStarted (insert_conn s c conns) (restart s c handles)
  unfolding restart
  restart-AreStarted s c conns [] h = tt
  restart-AreStarted s c conns ((k, handle) ∷ handles) h = (
    ground (arith, h.0, find_conn-insert_conn k.addr.scheme s c conns),
    restart-AreStarted s c conns handles h.1,
  )

module _ {C : Type 0} ⦃o : ConnectorOps C⦄ where
  -- Adding a connector, for a new scheme or in place of another, leaves every task, those that ran
  -- the replaced connector included, running the connector that its scheme then has.
  add_connector-IsStarted :
      (c : C) (m : ConnectorManager C) → IsStarted m → IsStarted (add_connector c m)
  unfolding add_connector
  add_connector-IsStarted c m h = restart-AreStarted (o.scheme c) c m.conns m.handles h
