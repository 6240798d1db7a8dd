-- ===== src/RunPacket/Sockets.antt =====
-- gtests/net/packetdrill/run_packet.c: the socket that a packet of the script belongs to, found or
-- made. Where the answer is `none`, the routine returns a null pointer and has changed nothing.
use packetdrill_mptcp.Base.{
  ℕ, ◌%◌, ◌^◌, Bool, true, false, not, List, ◌∷◌, length, get_elem?, ◌==◌, ◌&&◌, ◌||◌,
  if◌then◌else◌, Option, none, some, Outcome, ok, status_err, fault, ◌>>=◌,
}
use packetdrill_mptcp.Mptcp.Capable.{is_inbound}
use packetdrill_mptcp.Socket.{
  Tcp, Endpoint, Socket, SocketPhase, passive_listening, passive_packet_received, active_connecting,
  active_syn_sent, is_equal_ip, is_equal_port, socket_at, store_socket, zero_socket, zero_state,
}
use packetdrill_mptcp.RunPacket.{
  Headers, Config, Ports, State, get_packet_tuple, next_ephemeral_port, find_socket,
  find_connecting_socket, find_socket_matching_packet_script_fd, first_socket, through,
  socket_remote_port_equals_packet_dst_port,
}

abbrev pub is_listening : SocketPhase → Bool
is_listening passive_listening = true
is_listening phase = false

abbrev pub is_active_connecting : SocketPhase → Bool
is_active_connecting active_connecting = true
is_active_connecting phase = false

abbrev pub is_syn_sent : SocketPhase → Bool
is_syn_sent active_syn_sent = true
is_syn_sent phase = false

abbrev pub is_some {ℓ} : {A : Type ℓ} → Option A → Bool
is_some none = false
is_some (some a) = true

-- The socket that is establishing a connection, or else that of the packet's file descriptor.
unfoldable pub find_candidate : List Socket → Headers → Outcome (Option ℕ)
find_candidate sockets packet = find_connecting_socket sockets >>= λ connecting. elim connecting [
  | some p ↦ ok (some p)
  | none ↦ find_socket_matching_packet_script_fd sockets packet
]

-- config->sock_fd_ports[fd].
unfoldable pub ports_of_fd : Config → Option ℕ → Outcome Ports
ports_of_fd config fd = through fd λ i. through (get_elem? config.sock_fd_ports i) λ ports. ok ports

-- What handle_listen_for_script_packet writes into the new socket.
abbrev pub child_socket : Config → Headers → Tcp → ℕ → ℕ → Socket
child_socket config packet tcp next_port live_local = record zero_socket {
  state = passive_packet_received;
  address_family = packet.address_family;
  protocol = packet.protocol;
  script = record zero_state {
    fd = none;
    remote = (get_packet_tuple packet).src;
    local = (get_packet_tuple packet).dst;
    remote_isn = tcp.seq;
  };
  live = record zero_state {
    fd = none;
    remote = record { ip = some config.live_remote_ip; port = next_port % 2 ^ 16 };
    local = record { ip = some config.live_local_ip; port = live_local % 2 ^ 16 };
    remote_isn = tcp.seq;
  };
}

abbrev pub add_child : ℕ → State → Headers → Tcp → Ports → Outcome (ℕ × State)
add_child ephemeral_port state packet tcp ports =
    let taken : ℕ × State = next_ephemeral_port ephemeral_port state in
    ok (
      length state.sockets,
      record taken.1 {
        sockets = child_socket state.config packet tcp (taken.0) ports.live_local ∷ state.sockets;
      },
    )

-- The part of handle_listen_for_script_packet behind its tests. The socket that listens is read
-- through the pointer `candidate`, which is null on a wire server.
unfoldable pub listen_child : ℕ → State → Headers → Option ℕ → Outcome (ℕ × State)
listen_child ephemeral_port state packet candidate = through candidate λ p.
    socket_at state.sockets p >>= λ listener.
    through packet.tcp λ tcp.
      ports_of_fd state.config listener.script.fd >>= add_child ephemeral_port state packet tcp

unfoldable pub is_listen_match : State → Headers → Option ℕ → Outcome Bool
is_listen_match state packet candidate =
    if not (is_inbound packet.direction)
    then ok false
    else if state.config.is_wire_server
    then ok (not (is_some candidate))
    else elim candidate [
      | none ↦ ok false
      | some p ↦ socket_at state.sockets p >>= λ socket. ok (is_listening socket.state)
    ]

-- An answer that there is only after a match.
abbrev pub matched {ℓ} : {A : Type ℓ} → Bool → Outcome A → Outcome (Option A)
matched false make = ok none
matched true make = make >>= λ a. ok (some a)

abbrev pub listen_candidate : ℕ → State → Headers → Option ℕ → Outcome (Option (ℕ × State))
listen_candidate ephemeral_port state packet candidate =
    is_listen_match state packet candidate >>= λ is_match.
    matched is_match (listen_child ephemeral_port state packet candidate)

unfoldable pub handle_listen_for_script_packet : ℕ → State → Headers → Outcome (Option (ℕ × State))
handle_listen_for_script_packet ephemeral_port state packet =
    find_candidate state.sockets packet >>= listen_candidate ephemeral_port state packet

unfoldable pub is_connect_match : State → Headers → Option ℕ → Outcome Bool
is_connect_match state packet candidate =
    if is_inbound packet.direction
    then ok false
    else through packet.tcp λ tcp.
      if not (tcp.syn && not tcp.ack)
      then ok false
      else if state.config.is_wire_server
      then ok (not (is_some candidate))
      else elim candidate [
        | none ↦ ok false
        | some p ↦ socket_at state.sockets p >>= λ socket. ok (is_active_connecting socket.state)
      ]

-- The socket that a wire server makes for an outbound SYN: its descriptor in the script
-- stays the 0 that calloc has written.
abbrev pub wire_server_socket : Config → Headers → ℕ → Socket
wire_server_socket config packet live_remote = record zero_socket {
  address_family = packet.address_family;
  protocol = packet.protocol;
  live = record zero_state {
    fd = none;
    remote = record { ip = some config.live_remote_ip; port = live_remote % 2 ^ 16 };
  };
}

-- What handle_connect_for_script_packet writes into a socket in any case.
abbrev pub syn_sent_socket : Headers → Tcp → Socket → Socket
syn_sent_socket packet tcp socket = record socket {
  state = active_syn_sent;
  script = record socket.script {
    remote = (get_packet_tuple packet).dst;
    local = (get_packet_tuple packet).src;
    local_isn = tcp.seq;
  };
}

abbrev pub connect_existing : State → Headers → Tcp → ℕ → Socket → Outcome (ℕ × State)
connect_existing state packet tcp p socket = ok (
  p,
  record state {
    sockets = store_socket state.sockets p (syn_sent_socket packet tcp socket);
    socket_under_test = some p;
  },
)

abbrev pub connect_new : State → Headers → Tcp → Ports → Outcome (ℕ × State)
connect_new state packet tcp ports = ok (
  length state.sockets,
  record state {
    sockets =
        syn_sent_socket packet tcp (wire_server_socket state.config packet ports.live_remote)
        ∷ state.sockets;
    socket_under_test = some (length state.sockets);
  },
)

abbrev pub connect_candidate : State → Headers → Tcp → Option ℕ → Outcome (ℕ × State)
connect_candidate state packet tcp (some p) =
    socket_at state.sockets p >>= connect_existing state packet tcp p
connect_candidate state packet tcp none =
    ports_of_fd state.config packet.socket_script_fd >>= connect_new state packet tcp

unfoldable pub connect_socket : State → Headers → Option ℕ → Outcome (ℕ × State)
connect_socket state packet candidate =
    through packet.tcp λ tcp. connect_candidate state packet tcp candidate

abbrev pub connecting_candidate : State → Headers → Option ℕ → Outcome (Option (ℕ × State))
connecting_candidate state packet candidate =
    is_connect_match state packet candidate >>= λ is_match.
    matched is_match (connect_socket state packet candidate)

unfoldable pub handle_connect_for_script_packet : State → Headers → Outcome (Option (ℕ × State))
handle_connect_for_script_packet state packet =
    find_candidate state.sockets packet >>= connecting_candidate state packet

-- IPPROTO_TCP is 6 and IPPROTO_UDP 17; the routine asserts that the socket has one of them.
unfoldable pub is_script_packet_match_for_socket : Headers → Socket → Outcome Bool
is_script_packet_match_for_socket packet socket =
    if socket.protocol == 6
    then ok (is_some packet.tcp || packet.is_icmp)
    else if socket.protocol == 17
    then ok (is_some packet.udp || packet.is_icmp)
    else fault

abbrev pub test_socket : State → ℕ → Bool → Outcome (ℕ × State)
test_socket state p is_match =
    if is_match then ok (p, record state { socket_under_test = some p }) else status_err

abbrev pub use_candidate : State → Headers → Option ℕ → Outcome (ℕ × State)
use_candidate state packet none = status_err
use_candidate state packet (some p) =
    socket_at state.sockets p >>= is_script_packet_match_for_socket packet >>= test_socket state p

-- The last part of find_or_create_socket_for_script_packet.
unfoldable pub find_socket_for_script_packet : State → Headers → Outcome (ℕ × State)
find_socket_for_script_packet state packet =
    (if packet.is_icmp
      then ok (first_socket state.sockets)
      else find_candidate state.sockets packet)
    >>= use_candidate state packet

-- The first answer that is not a null pointer.
abbrev pub or_else {ℓ} : {A : Type ℓ} → Outcome (Option A) → Outcome A → Outcome A
or_else fault rest = fault
or_else status_err rest = status_err
or_else (ok none) rest = rest
or_else (ok (some a)) rest = ok a

unfoldable pub find_or_create_socket_for_script_packet : ℕ → State → Headers → Outcome (ℕ × State)
find_or_create_socket_for_script_packet ephemeral_port state packet =
    if is_some packet.tcp
    then or_else (handle_listen_for_script_packet ephemeral_port state packet) (
        or_else (handle_connect_for_script_packet state packet)
          (find_socket_for_script_packet state packet))
    else find_socket_for_script_packet state packet

-- The two matches of find_connect_for_live_packet.
abbrev pub is_udp_match : Headers → Socket → Bool
is_udp_match packet socket =
    is_some packet.udp && socket.protocol == 17 && is_active_connecting socket.state

abbrev pub is_tcp_match : Headers → Socket → Bool
is_tcp_match packet socket = elim packet.tcp [
  | none ↦ false
  | some tcp ↦ tcp.syn && not tcp.ack && socket.protocol == 6 && is_syn_sent socket.state
]

-- What find_connect_for_live_packet writes into the socket.
abbrev pub learn_local : Headers → Socket → Socket
learn_local packet socket = record socket {
  live = record socket.live {
    local = (get_packet_tuple packet).src;
    local_isn = elim packet.tcp [ some tcp ↦ tcp.seq | none ↦ socket.live.local_isn ];
  };
}

-- The tests of find_connect_for_live_packet on the socket that it has found. The answer is the
-- socket, which the packet leaves, and the changed list.
unfoldable pub connect_found :
    List Socket → Headers → ℕ → Socket → Outcome (Option (ℕ × List Socket))
connect_found sockets packet p socket =
    let dst : Endpoint = (get_packet_tuple packet).dst in
    if not (is_udp_match packet socket) && not (is_tcp_match packet socket)
    then ok none
    else if not (is_equal_ip dst.ip socket.live.remote.ip)
        || not (is_equal_port dst.port socket.live.remote.port)
    then ok none
    else ok (some (p, store_socket sockets p (learn_local packet socket)))

abbrev pub if_found : List Socket → Headers → Option ℕ → Outcome (Option (ℕ × List Socket))
if_found sockets packet none = ok none
if_found sockets packet (some p) = socket_at sockets p >>= connect_found sockets packet p

unfoldable pub find_connect_for_live_packet :
    List Socket → Headers → Outcome (Option (ℕ × List Socket))
find_connect_for_live_packet sockets packet =
    find_socket (socket_remote_port_equals_packet_dst_port packet) sockets
    >>= if_found sockets packet
