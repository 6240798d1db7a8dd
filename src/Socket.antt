-- ===== src/Socket.antt =====
-- gtests/net/packetdrill/socket.h and socket.c, with struct tcp of tcp.h: what packetdrill knows of
-- a socket of the test, in the words of the script and of the live connection. A file descriptor
-- is `none` where the source has SOCKET_FD_NOT_DEFINED, -1. The fields by which timestamps are
-- mapped are left out. The linked list state->sockets is a list, newest socket first, and a
-- pointer to a socket is the number of sockets behind it, which stays the same when others are added.
pub mod Seq
pub mod Store
use packetdrill_mptcp.Base.{
  ℕ, zero, suc, ◌+◌, ◌-◌, ◌*◌, ◌/◌, ◌%◌, ◌^◌, Bool, true, false, List, [], ◌∷◌, length, ◌==◌, ◌&&◌,
  if◌then◌else◌, Option, none, some, Outcome, ok, fault, ◌>>=◌,
}
use packetdrill_mptcp.Memory.{load, load_be16}
use packetdrill_mptcp.Mptcp.{IpAddress, ip_v4, ip_v6}

-- struct tcp, its fields in host order.
pub record Tcp : Type 0 where
  pub src_port : ℕ
  pub dst_port : ℕ
  pub seq : ℕ
  pub ack_seq : ℕ
  pub res1 : ℕ
  pub res2 : ℕ
  pub doff : ℕ
  pub fin : Bool
  pub syn : Bool
  pub rst : Bool
  pub psh : Bool
  pub ack : Bool
  pub urg : Bool
  pub ece : Bool
  pub cwr : Bool
  pub window : ℕ
  pub check : ℕ
  pub urg_ptr : ℕ

abbrev pub bit : ℕ → ℕ → Bool
bit byte i = ((byte / 2 ^ i) % 2) == 1

unfoldable pub load_be32 : List ℕ → ℕ → Outcome ℕ
load_be32 mem p = do hi ← load_be16 mem p; lo ← load_be16 mem (p + 2); ok (hi * 2 ^ 16 + lo)

-- The header at an address.
unfoldable pub load_tcp : List ℕ → ℕ → Outcome Tcp
load_tcp mem p = do
  src_port ← load_be16 mem p
  dst_port ← load_be16 mem (p + 2)
  seq ← load_be32 mem (p + 4)
  ack_seq ← load_be32 mem (p + 8)
  offset ← load mem (p + 12)
  flags ← load mem (p + 13)
  window ← load_be16 mem (p + 14)
  check ← load_be16 mem (p + 16)
  urg_ptr ← load_be16 mem (p + 18)
  ok record {
    src_port = src_port;
    dst_port = dst_port;
    seq = seq;
    ack_seq = ack_seq;
    res1 = offset % 4;
    res2 = (offset / 4) % 4;
    doff = offset / 16;
    fin = bit flags 0;
    syn = bit flags 1;
    rst = bit flags 2;
    psh = bit flags 3;
    ack = bit flags 4;
    urg = bit flags 5;
    ece = bit flags 6;
    cwr = bit flags 7;
    window = window;
    check = check;
    urg_ptr = urg_ptr;
  }

-- enum socket_state_t.
pub data SocketPhase : Type 0 where
  state_init state_new passive_listening passive_packet_received : SocketPhase
  passive_synack_sent passive_synack_acked : SocketPhase
  active_connecting active_syn_sent active_syn_acked reset_received : SocketPhase

-- struct endpoint; `none` is an address that calloc has zeroed.
pub record Endpoint : Type 0 where
  pub ip : Option IpAddress
  pub port : ℕ

pub record Tuple : Type 0 where
  pub src : Endpoint
  pub dst : Endpoint

-- struct socket_state.
pub record SocketState : Type 0 where
  pub fd : Option ℕ
  pub local : Endpoint
  pub local_isn : ℕ
  pub remote : Endpoint
  pub remote_isn : ℕ

-- struct socket.
pub record Socket : Type 0 where
  pub state : SocketPhase
  pub address_family : ℕ
  pub protocol : ℕ
  pub is_closed : Bool
  pub script : SocketState
  pub live : SocketState
  pub last_outbound_tcp_header : Tcp
  pub last_injected_tcp_header : Tcp
  pub last_injected_tcp_payload_len : ℕ

-- What calloc makes.
abbrev pub zero_tcp : Tcp
zero_tcp = record {
  src_port = 0;
  dst_port = 0;
  seq = 0;
  ack_seq = 0;
  res1 = 0;
  res2 = 0;
  doff = 0;
  fin = false;
  syn = false;
  rst = false;
  psh = false;
  ack = false;
  urg = false;
  ece = false;
  cwr = false;
  window = 0;
  check = 0;
  urg_ptr = 0;
}

abbrev pub zero_endpoint : Endpoint
zero_endpoint = record { ip = none; port = 0 }

abbrev pub zero_state : SocketState
zero_state = record {
  fd = some 0;
  local = zero_endpoint;
  local_isn = 0;
  remote = zero_endpoint;
  remote_isn = 0;
}

abbrev pub zero_socket : Socket
zero_socket = record {
  state = state_init;
  address_family = 0;
  protocol = 0;
  is_closed = false;
  script = zero_state;
  live = zero_state;
  last_outbound_tcp_header = zero_tcp;
  last_injected_tcp_header = zero_tcp;
  last_injected_tcp_payload_len = 0;
}

-- The new socket's pointer is the number of sockets that there were.
abbrev pub socket_new : List Socket → List Socket
socket_new sockets = zero_socket ∷ sockets

-- The socket that a pointer points to.
unfoldable pub socket_at : List Socket → ℕ → Outcome Socket
socket_at [] p = fault
socket_at (socket ∷ rest) p = elim (length rest == p) [
  | true ↦ ok socket
  | false ↦ socket_at rest p
]

-- What is stored through a pointer.
unfoldable pub store_socket : List Socket → ℕ → Socket → List Socket
store_socket [] p changed = []
store_socket (socket ∷ rest) p changed = elim (length rest == p) [
  | true ↦ changed ∷ rest
  | false ↦ socket ∷ store_socket rest p changed
]

abbrev pub socket_get_outbound : SocketState → Tuple
socket_get_outbound s = record { src = s.local; dst = s.remote }

abbrev pub socket_get_inbound : SocketState → Tuple
socket_get_inbound s = record { src = s.remote; dst = s.local }

abbrev pub reverse_tuple : Tuple → Tuple
reverse_tuple t = record { src = t.dst; dst = t.src }

unfoldable pub equal_bytes : List ℕ → List ℕ → Bool
equal_bytes [] [] = true
equal_bytes (x ∷ xs) (y ∷ ys) = (x == y) && equal_bytes xs ys
equal_bytes xs ys = false

abbrev pub is_equal_ip : Option IpAddress → Option IpAddress → Bool
is_equal_ip none none = true
is_equal_ip (some (ip_v4 a)) (some (ip_v4 b)) = equal_bytes a b
is_equal_ip (some (ip_v6 a)) (some (ip_v6 b)) = equal_bytes a b
is_equal_ip a b = false

abbrev pub is_equal_port : ℕ → ℕ → Bool
is_equal_port a b = a == b

abbrev pub is_equal_tuple : Tuple → Tuple → Bool
is_equal_tuple a b =
    is_equal_ip a.src.ip b.src.ip
    && is_equal_port a.src.port b.src.port
    && is_equal_ip a.dst.ip b.dst.ip
    && is_equal_port a.dst.port b.dst.port

-- The negation and the sum of u32.
abbrev pub negate_32 : ℕ → ℕ
negate_32 x = (2 ^ 32 - x % 2 ^ 32) % 2 ^ 32

abbrev pub add_32 : ℕ → ℕ → ℕ
add_32 x y = (x + y) % 2 ^ 32

unfoldable pub remote_seq_script_to_live_offset : Socket → Bool → ℕ
remote_seq_script_to_live_offset socket is_syn = if is_syn then 0 else socket.live.remote_isn

unfoldable pub remote_seq_live_to_script_offset : Socket → Bool → ℕ
unfolding remote_seq_script_to_live_offset
remote_seq_live_to_script_offset socket is_syn =
    negate_32 (remote_seq_script_to_live_offset socket is_syn)

unfoldable pub local_seq_script_to_live_offset : Socket → Bool → ℕ
local_seq_script_to_live_offset socket is_syn =
    if is_syn
    then add_32 socket.live.local_isn (negate_32 socket.script.local_isn)
    else socket.live.local_isn

unfoldable pub local_seq_live_to_script_offset : Socket → Bool → ℕ
unfolding local_seq_script_to_live_offset
local_seq_live_to_script_offset socket is_syn =
    negate_32 (local_seq_script_to_live_offset socket is_syn)
