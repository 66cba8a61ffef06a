-- ===== src/Tcp/Addresses.antt =====
-- The addresses of src/link_impls/tcp_link.rs: `SocketAddr` and its byte form. The text form is read
-- by the parser of the standard library, a parameter here.
use link_set.Prelude.{
  ℕ, ◌+◌, ◌≡◌, ◌<◌, refl, sym, ap, ◌∙◌, List, ◌++◌, Option, none, some, length, take, drop, ◌==◌,
  if◌then◌else◌, arith, length-append, take-append, drop-append, append-nil,
}
use mathlib.Core.Path.{subst}
use link_set.Protocol.{be_bytes, from_be_bytes}
use link_set.Protocol.Bytes.{length-be_bytes, from_be_bytes-be_bytes}
use link_set.Address.{AddressRepr, string, bytes}
use link_set.Tcp.{TcpLinkResult, ok, err, invalid_addr}

pub data SocketAddr : Type 0 where
  -- octets, port
  v4 : List ℕ → ℕ → SocketAddr
  -- octets, port, flowinfo, scope_id
  v6 : List ℕ → ℕ → ℕ → ℕ → SocketAddr

unfoldable pub from_socket_addr : SocketAddr → AddressRepr
from_socket_addr (v4 ip port) = bytes (ip ++ be_bytes 2 port)
from_socket_addr (v6 ip port flowinfo scope_id) = bytes (ip ++ be_bytes 2 port)

-- `bytes[width..width + 2]`
abbrev port_at : ℕ → List ℕ → ℕ
port_at width bs = from_be_bytes 0 (take 2 (drop width bs))

unfoldable pub socket_addr : List ℕ → TcpLinkResult SocketAddr
socket_addr bs =
    if length bs == 6
    then ok (v4 (take 4 bs) (port_at 4 bs))
    else if length bs == 18
    then ok (v6 (take 16 bs) (port_at 16 bs) 0 0)
    else err invalid_addr

unfoldable pub try_from : (List ℕ → Option SocketAddr) → AddressRepr → TcpLinkResult SocketAddr
unfolding socket_addr
try_from parse (string addr) = elim (parse addr) [ none ↦ err invalid_addr | some a ↦ ok a ]
try_from parse (bytes bs) = socket_addr bs

-- The octets and the port are of their width.
abbrev pub IsSocketAddr : SocketAddr → Type 0
IsSocketAddr (v4 ip port) = (length ip ≡ 4) × (port < 65536)
IsSocketAddr (v6 ip port flowinfo scope_id) = (length ip ≡ 16) × (port < 65536)

-- What the byte form keeps: all of an IPv4 address, and an IPv6 address without its flow and scope.
abbrev pub kept : SocketAddr → SocketAddr
kept (v4 ip port) = v4 ip port
kept (v6 ip port flowinfo scope_id) = v6 ip port 0 0

module _ (ip : List ℕ) (port : ℕ) where
  whole_length : length (ip ++ be_bytes 2 port) ≡ length ip + 2
  whole_length = omega (arith, length-append ip (be_bytes 2 port), length-be_bytes 2 port)

  ip_at : (width : ℕ) → length ip ≡ width → take width (ip ++ be_bytes 2 port) ≡ ip
  ip_at width e = subst (λ n. take n (ip ++ be_bytes 2 port) ≡ ip) e (take-append ip _)

  port_at-append :
      (width : ℕ) → length ip ≡ width → port < 65536 → port_at width (ip ++ be_bytes 2 port) ≡ port
  port_at-append width e small =
      ap (λ t. from_be_bytes 0 (take 2 t))
        (subst (λ n. drop n (ip ++ be_bytes 2 port) ≡ be_bytes 2 port) e (drop-append ip _))
      ∙ ap (from_be_bytes 0) (
          subst (λ n. take n (be_bytes 2 port) ≡ be_bytes 2 port) (length-be_bytes 2 port)
            (ap (take (length (be_bytes 2 port))) (sym (append-nil (be_bytes 2 port)))
              ∙ take-append (be_bytes 2 port) _))
      ∙ from_be_bytes-be_bytes 2 port (omega arith)

-- The byte form of a socket address, whose octets and port have their width, is read back as that
-- address, except that an IPv6 address comes back without its flow label and its scope.
pub try_from-from_socket_addr :
    (parse : List ℕ → Option SocketAddr) (a : SocketAddr)
    → IsSocketAddr a
    → try_from parse (from_socket_addr a) ≡ ok (kept a)
unfolding try_from from_socket_addr
try_from-from_socket_addr parse (v4 ip port) h =
    let n : length (ip ++ be_bytes 2 port) ≡ 6 = omega (arith, whole_length ip port, h.0) in
    rw (n, ip_at ip port 4 h.0, port_at-append ip port 4 h.0 h.1) refl
try_from-from_socket_addr parse (v6 ip port flowinfo scope_id) h =
    let n : length (ip ++ be_bytes 2 port) ≡ 18 = omega (arith, whole_length ip port, h.0) in
    rw (n, ip_at ip port 16 h.0, port_at-append ip port 16 h.0 h.1) refl
