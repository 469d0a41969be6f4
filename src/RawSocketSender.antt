-- ===== src/RawSocketSender.antt =====
-- src/raw_socket_sender.cpp: the destination of a raw socket, and the datagram that it sends. What the
-- kernel answers is given by the caller of `send`.
pub mod Resources
use dnsmeter.Base.{ℕ, ◌-◌, ◌^◌, Bool, ◌==◌, if◌then◌else◌, htons}
use dnsmeter.Exceptions.{Result, ok, throw, unknown_destination, unsupported_ip_family}
use dnsmeter.Packet.{Packet, ptr}

-- `struct sockaddr_in`, with the address and the port as the host loads them.
pub record RawSocketSender : Type 0 where
  pub s_addr : ℕ
  pub sin_port : ℕ

abbrev pub new_raw_socket_sender : RawSocketSender
new_raw_socket_sender = record { s_addr = 2 ^ 32 - 1; sin_port = 0 }

-- `ppl7::IPAddress`: whether it is an IPv4 address, and its bytes as the host loads them.
pub record IpAddress : Type 0 where
  pub is_ipv4 : Bool
  pub addr : ℕ

unfoldable pub set_destination : RawSocketSender → IpAddress → ℕ → Result RawSocketSender
set_destination s ip port =
    if ip.is_ipv4
    then ok (record s { s_addr = ip.addr; sin_port = htons port })
    else throw unsupported_ip_family

-- The packet that is handed to `sendto`, after `Packet::ptr`.
unfoldable pub send : RawSocketSender → Packet → Result Packet
send s p = if s.s_addr == 2 ^ 32 - 1 then throw unknown_destination else ok (ptr p)
