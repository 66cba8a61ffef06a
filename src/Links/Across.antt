-- ===== src/Links/Across.antt =====
-- A message from the link manager of one peer to the other: src/links/link_manager.rs and
-- src/links/link_entry.rs on the TCP links of src/link_impls/tcp_link.rs.
use link_set.Tcp
