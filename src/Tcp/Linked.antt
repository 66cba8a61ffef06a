-- ===== src/Tcp/Linked.antt =====
-- `impl Link for TcpLink` of src/link_impls/tcp_link.rs, and the link as the core has it.
use link_set.Prelude.{ℕ, List, [], ◌∷◌, Option, none, some, ◌⊎◌, inl, inr}
use link_set.Links.{LinkOps}
use link_set.Links.Pinned.{Link, pinned}
use link_set.Tcp
use link_set.Tcp.{TcpLink, TcpLinkError, TcpLinkResult, SocketOps, Incoming, max_size}

abbrev tcp_scheme : List ℕ
tcp_scheme = 116 ∷ 99 ∷ 112 ∷ []

unfoldable pub result_of : {T : Type 0} → TcpLinkResult T → TcpLinkError ⊎ T
result_of (TcpLinkResult.err e) = inl e
result_of (TcpLinkResult.ok value) = inr value

unfoldable answer_of : {T : Type 0} → Option (TcpLinkResult T) → Option (TcpLinkError ⊎ T)
unfolding result_of
answer_of none = none
answer_of (some result) = some (result_of result)

module _ {W : Type 0} ⦃o : SocketOps W⦄ where
  unfoldable pub tcp_link : Link (TcpLink W) Incoming TcpLinkError
  unfolding result_of answer_of
  tcp_link = record {
    scheme = tcp_scheme;
    send = λ msg l. let (result, l') = Tcp.send msg l in (result_of result, l');
    recv = λ l. let (result, l') = Tcp.recv l in (answer_of result, l');
    take_reader = λ l. let (result, l') = Tcp.take_reader l in (result_of result, l');
    max_size = λ l. max_size;
    is_closed = λ l. (l.is_closed, l);
  }

  instance unfoldable pub tcp_ops : LinkOps (TcpLink W)
  unfolding tcp_link pinned
  tcp_ops = pinned tcp_link
