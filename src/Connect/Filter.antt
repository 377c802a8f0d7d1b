-- ===== src/Connect/Filter.antt =====
-- Which SYN segments are let in.
use cmt_tcp.Prelude.{ℕ, ◌≡◌, ◌≢◌, ◌↔◌, true, arith}
use cmt_tcp.Stream.{SockAddr}
use cmt_tcp.Connect.{accepts}

-- A SYN is let in exactly for the port and the address of the listener, and never for a listener on
-- any address.
pub accepts_iff :
    (ip port : ℕ) (a : SockAddr)
    → (accepts ip port a ≡ true) ↔ ((a.sin_port ≡ port) × (a.sin_addr ≡ ip) × (ip ≢ 0))
unfolding accepts
accepts_iff ip port a = (λ h. ground arith, λ h. ground arith)
