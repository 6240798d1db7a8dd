-- ===== src/RunPacket.antt =====
-- gtests/net/packetdrill/run_packet.c: the packet runner's state and how it finds the socket of a
-- packet. The routines read the headers of a packet through its pointers; here the headers are read
-- first, by headers_of, and the routines take what was read. ephemeral_port, which asks the
-- operating system for a port, is an argument.
pub mod Sockets
pub mod Traffic
pub mod Verify
pub mod Options
pub mod Isn
pub mod Find
pub mod Handshake
pub mod Opening
pub mod Passive
pub mod PassiveOpen
use packetdrill_mptcp.Base.{
  ℕ, ◌+◌, ◌%◌, ◌^◌, Bool, true, false, not, List, [], ◌∷◌, length, get_elem?, ◌==◌, ◌&&◌, ◌||◌,
  if◌then◌else◌, Option, none, some, Outcome, ok, status_err, fault, ◌>>=◌,
}
use packetdrill_mptcp.Memory.{load, load_be16}
use packetdrill_mptcp.Packet.{Packet}
use packetdrill_mptcp.Mptcp.{IpAddress}
use packetdrill_mptcp.Mptcp.Capable.{Direction, direction_inbound, direction_outbound, is_inbound}
use packetdrill_mptcp.Mptcp.Flows.{addresses}
use packetdrill_mptcp.Socket.{
  Tcp, load_tcp, Tuple, Endpoint, Socket, SocketPhase, reset_received, is_equal_ip, is_equal_port,
  is_equal_tuple, socket_at, socket_get_inbound, socket_get_outbound,
}

-- What the runner reads of a packet: its direction and file descriptor in the script, and its
-- headers. `none` is a null pointer.
pub record Headers : Type 0 where
  pub direction : Direction
  pub socket_script_fd : Option ℕ
  pub src_ip : IpAddress
  pub dst_ip : IpAddress
  pub address_family : ℕ
  pub protocol : ℕ
  pub tcp : Option Tcp
  pub udp : Option (ℕ × ℕ)
  pub is_icmp : Bool

-- A field of a header that is there only if its pointer is not null.
abbrev pub if_present {ℓ} : {A : Type ℓ} → Option ℕ → (ℕ → Outcome A) → Outcome (Option A)
if_present none read = ok none
if_present (some p) read = read p >>= λ a. ok (some a)

abbrev pub is_present : Option ℕ → Bool
is_present none = false
is_present (some p) = true

unfoldable pub load_udp : List ℕ → ℕ → Outcome (ℕ × ℕ)
load_udp mem p = do src ← load_be16 mem p; dst ← load_be16 mem (p + 2); ok (src, dst)

-- AF_INET and AF_INET6, with the protocol of the IP header.
unfoldable pub family_and_protocol : Packet → Outcome (ℕ × ℕ)
family_and_protocol p = elim p.ipv4_ptr [
  | some ip ↦ load p.buffer (ip + 9) >>= λ protocol. ok (2, protocol)
  | none ↦ elim p.ipv6_ptr [
    | some ip ↦ load p.buffer (ip + 6) >>= λ next_header. ok (10, next_header)
    | none ↦ fault
  ]
]

unfoldable pub headers_of : Packet → Direction → Option ℕ → Outcome Headers
headers_of p direction fd = elim (addresses p) [
  | fault ↦ fault
  | status_err ↦ fault
  | ok ips ↦ do
    family ← family_and_protocol p
    tcp ← if_present p.tcp_ptr (load_tcp p.buffer)
    udp ← if_present p.udp_ptr (load_udp p.buffer)
    ok record {
      direction = direction;
      socket_script_fd = fd;
      src_ip = ips.0;
      dst_ip = ips.1;
      address_family = family.0;
      protocol = family.1;
      tcp = tcp;
      udp = udp;
      is_icmp = is_present p.icmpv4_ptr || is_present p.icmpv6_ptr;
    }
]

-- The ports of get_packet_tuple.
abbrev pub ports_of : Option Tcp → Option (ℕ × ℕ) → ℕ × ℕ
ports_of (some tcp) udp = (tcp.src_port, tcp.dst_port)
ports_of none (some udp) = udp
ports_of none none = (0, 0)

abbrev pub packet_ports : Headers → ℕ × ℕ
packet_ports packet = ports_of packet.tcp packet.udp

abbrev pub get_packet_tuple : Headers → Tuple
get_packet_tuple packet = record {
  src = record { ip = some packet.src_ip; port = (packet_ports packet).0 };
  dst = record { ip = some packet.dst_ip; port = (packet_ports packet).1 };
}

-- struct ports of config.h, the fields that are used here.
pub record Ports : Type 0 where
  pub live_local : ℕ
  pub live_remote : ℕ

-- struct config, the fields that are used here. sock_fd_ports is indexed by file descriptors of
-- the script.
pub record Config : Type 0 where
  pub is_wire_server : Bool
  pub live_remote_ip : IpAddress
  pub live_local_ip : IpAddress
  pub sock_fd_ports : List Ports

-- struct state, with next_ephemeral_port of its struct packets: `none` is -1.
pub record State : Type 0 where
  pub config : Config
  pub sockets : List Socket
  pub socket_under_test : Option ℕ
  pub next_ephemeral_port : Option ℕ

-- The port, and the state in which it is taken.
unfoldable pub next_ephemeral_port : ℕ → State → ℕ × State
next_ephemeral_port ephemeral_port state = elim state.next_ephemeral_port [
  | some port ↦ (port, record state { next_ephemeral_port = none })
  | none ↦ (ephemeral_port, state)
]

-- The first socket for which the test holds.
unfoldable pub find_socket : (Socket → Outcome Bool) → List Socket → Outcome (Option ℕ)
find_socket match [] = ok none
find_socket match (socket ∷ rest) = match socket >>= λ matches. elim matches [
  | true ↦ ok (some (length rest))
  | false ↦ find_socket match rest
]

abbrev pub is_equal_fd : Option ℕ → Option ℕ → Bool
is_equal_fd none none = true
is_equal_fd (some a) (some b) = a == b
is_equal_fd a b = false

-- The head of the list.
abbrev pub first_socket : List Socket → Option ℕ
first_socket [] = none
first_socket (socket ∷ rest) = some (length rest)

unfoldable pub find_socket_matching_packet_script_fd : List Socket → Headers → Outcome (Option ℕ)
find_socket_matching_packet_script_fd sockets packet = elim packet.socket_script_fd [
  | none ↦ ok (first_socket sockets)
  | some fd ↦ find_socket (λ socket. ok (is_equal_fd socket.script.fd (some fd))) sockets
]

abbrev pub is_reset : SocketPhase → Bool
is_reset reset_received = true
is_reset phase = false

abbrev pub is_connecting : Socket → Bool
is_connecting socket = is_equal_fd socket.script.fd none && not (is_reset socket.state)

unfoldable pub find_connecting_socket : List Socket → Outcome (Option ℕ)
find_connecting_socket sockets = find_socket (λ socket. ok (is_connecting socket)) sockets

-- A read of a header through its pointer.
abbrev pub through {ℓ κ} : {A : Type ℓ} {B : Type κ} → Option A → (A → Outcome B) → Outcome B
through none read = fault
through (some a) read = read a

abbrev pub is_equals_tuple_socket_and_packet : Headers → Socket → Outcome Bool
is_equals_tuple_socket_and_packet packet socket = through packet.tcp λ tcp. ok (
    is_equal_port socket.live.local.port tcp.src_port
    && is_equal_port socket.live.remote.port tcp.dst_port)

abbrev pub socket_remote_port_equals_packet_dst_port : Headers → Socket → Outcome Bool
socket_remote_port_equals_packet_dst_port packet socket =
    through packet.tcp λ tcp. ok (is_equal_port socket.live.remote.port tcp.dst_port)

-- The socket under one of whose two tuples the packet was sent, and the direction.
unfoldable pub find_socket_for_live_packet :
    List Socket → Headers → Outcome (Option (ℕ × Direction))
find_socket_for_live_packet sockets packet =
    find_socket (is_equals_tuple_socket_and_packet packet) sockets >>= λ found. elim found [
      | none ↦ ok none
      | some p ↦ socket_at sockets p >>= λ socket.
          if is_equal_tuple (get_packet_tuple packet) (socket_get_inbound socket.live)
          then ok (some (p, direction_inbound))
          else if is_equal_tuple (get_packet_tuple packet) (socket_get_outbound socket.live)
          then ok (some (p, direction_outbound))
          else ok none
    ]
