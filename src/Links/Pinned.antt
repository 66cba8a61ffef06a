-- ===== src/Links/Pinned.antt =====
-- src/links/link.rs and src/links/connector.rs: the traits that a kind of link implements with errors
-- of its own, and the wrappers that the core works with, whose errors are those of the link set.
use link_set.Prelude.{ℕ, List, Bool, Option, none, some, ◌⊎◌, inl, inr}
use link_set.Protocol.{LinkSetResult, ok, err, link_error, ◌>>=◌}
use link_set.Address.{AddressRepr}
use link_set.Links.{LinkOps}

-- `L` is the link, `R` its reader, `E` its error. A method that takes `&mut self` returns the link as
-- it is afterwards, and `recv` no answer while it waits.
pub record Link (L R E : Type 0) : Type 0 where
  pub scheme : List ℕ
  pub send : List ℕ → L → (E ⊎ Unit {0}) × L
  pub recv : L → Option (E ⊎ List ℕ) × L
  pub take_reader : L → (E ⊎ R) × L
  pub max_size : L → ℕ
  pub is_closed : L → Bool × L

pub record LinkReader (R E : Type 0) : Type 0 where
  pub read : R → Option (E ⊎ List ℕ) × R

-- `map_err` to `LinkError`
unfoldable pub map_err : {E T : Type 0} → E ⊎ T → LinkSetResult T
map_err (inl e) = err link_error
map_err (inr value) = ok value

unfoldable pub map_err_some : {E T : Type 0} → Option (E ⊎ T) → Option (LinkSetResult T)
unfolding map_err
map_err_some none = none
map_err_some (some result) = some (map_err result)

module _ {L R E : Type 0} where
  -- The reader goes to a task of the entry; the link is left.
  unfoldable pub pinned_take_reader : Link L R E → L → LinkSetResult L
  unfolding map_err
  pinned_take_reader k l = let (result, l') = k.take_reader l in map_err result >>= λ reader. ok l'

  unfoldable pub pinned : Link L R E → LinkOps L
  unfolding map_err pinned_take_reader
  pinned k = record {
    send = λ l msg. let (result, l') = k.send msg l in (l', map_err result);
    max_size = λ l. k.max_size l;
    is_closed = λ l. let (shut, l') = k.is_closed l in (l', shut);
    take_reader = λ l. pinned_take_reader k l;
    scheme = λ l. k.scheme;
  }

  unfoldable pub pinned_recv : Link L R E → L → Option (LinkSetResult (List ℕ)) × L
  unfolding map_err_some
  pinned_recv k l = let (result, l') = k.recv l in (map_err_some result, l')

unfoldable pub pinned_read :
    {R E : Type 0} → LinkReader R E → R → Option (LinkSetResult (List ℕ)) × R
unfolding map_err_some
pinned_read k r = let (result, r') = k.read r in (map_err_some result, r')

pub record LinkConnector (L E : Type 0) : Type 0 where
  pub scheme : List ℕ
  pub connect : AddressRepr → E ⊎ L

module _ {L E : Type 0} where
  -- A scheme and a function are a connector.
  unfoldable pub function_connector : List ℕ × (AddressRepr → E ⊎ L) → LinkConnector L E
  function_connector f = record { scheme = f.0; connect = f.1 }

  unfoldable pub pinned_connect : LinkConnector L E → AddressRepr → LinkSetResult L
  unfolding map_err
  pinned_connect k addr = map_err (k.connect addr)
