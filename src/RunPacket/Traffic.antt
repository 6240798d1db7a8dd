-- ===== src/RunPacket/Traffic.antt =====
-- gtests/net/packetdrill/run_packet.c: what a packet of the script does to its socket, going out of
-- the kernel or into it. The live packets that netdev_receive hands over are a list, behind which it
-- reports an error. Headers hold no TCP options and no payload; the answers of
-- the routines that work on those are the arguments `Answers` of an event.
use packetdrill_mptcp.Base.{
  take, replicate, ◌++◌, ℕ, Bool, true, false, not, List, [], ◌∷◌, ◌==◌, ◌&&◌, if◌then◌else◌,
  Option, none, some, Outcome, ok, status_err, fault, ◌>>=◌,
}
use packetdrill_mptcp.Mptcp.{IpAddress, ip_v4, ip_v6}
use packetdrill_mptcp.Mptcp.Capable.{Direction, direction_inbound, direction_outbound}
use packetdrill_mptcp.Socket.{
  Tcp, Tuple, Socket, SocketPhase, passive_packet_received, passive_synack_sent,
  passive_synack_acked, active_syn_acked, reset_received, socket_at, store_socket,
  socket_get_inbound, add_32, remote_seq_script_to_live_offset, local_seq_script_to_live_offset,
  local_seq_live_to_script_offset, remote_seq_live_to_script_offset, socket_get_outbound,
  is_equal_tuple,
}
use packetdrill_mptcp.RunPacket.{
  Headers, State, get_packet_tuple, find_socket_for_live_packet, through,
}
use packetdrill_mptcp.RunPacket.Options.Verdict.{Verdict, verdict_ok}
use packetdrill_mptcp.RunPacket.Sockets.{
  find_connect_for_live_packet, is_syn_sent, find_or_create_socket_for_script_packet,
}

-- The answer of sniff_outbound_live_packet once it has a packet of a socket: the packet, the packets
-- that are left and the sockets, or an error if the socket is not the expected one.
abbrev pub expected_socket :
    ℕ → ℕ → Headers → List Headers → List Socket → Outcome (Headers × (List Headers × List Socket))
expected_socket expected p packet arrivals sockets =
    if p == expected then ok (packet, (arrivals, sockets)) else status_err

abbrev pub if_outbound {ℓ} : {A : Type ℓ} → Option (ℕ × Direction) → (ℕ → A) → A → A
if_outbound none found other = other
if_outbound (some (p, direction_outbound)) found other = found p
if_outbound (some (p, direction_inbound)) found other = other

-- The answer `none` of find_connect_for_live_packet makes the loop go on.
abbrev pub if_connecting :
    ℕ
    → Headers
    → List Headers
    → Outcome (Headers × (List Headers × List Socket))
    → Option (ℕ × List Socket)
    → Outcome (Headers × (List Headers × List Socket))
if_connecting expected packet arrivals next none = next
if_connecting expected packet arrivals next (some (p, learned)) =
    expected_socket expected p packet arrivals learned

unfoldable pub sniff_outbound_live_packet :
    List Headers → List Socket → ℕ → Outcome (Headers × (List Headers × List Socket))
sniff_outbound_live_packet [] sockets expected = status_err
sniff_outbound_live_packet (packet ∷ arrivals) sockets expected =
    let next = sniff_outbound_live_packet arrivals sockets expected in
    find_socket_for_live_packet sockets packet >>= λ found.
    if_outbound found (λ p. expected_socket expected p packet arrivals sockets)
      (find_connect_for_live_packet sockets packet >>= if_connecting expected packet arrivals next)

abbrev pub is_packet_received : SocketPhase → Bool
is_packet_received passive_packet_received = true
is_packet_received phase = false

abbrev pub is_synack_sent : SocketPhase → Bool
is_synack_sent passive_synack_sent = true
is_synack_sent phase = false

abbrev pub is_syn_ack : Option Tcp → Bool
is_syn_ack none = false
is_syn_ack (some tcp) = tcp.syn && tcp.ack

-- Whether the script's packet is the SYN/ACK that a server sends.
abbrev pub is_server_synack : Option Tcp → Socket → Bool
is_server_synack tcp socket = is_packet_received socket.state && is_syn_ack tcp

-- Before the live packet is there: the script's initial sequence number.
abbrev pub expect_synack : Option Tcp → Socket → Socket
expect_synack none socket = socket
expect_synack (some tcp) socket =
    if is_server_synack (some tcp) socket
    then record socket { script = record socket.script { local_isn = tcp.seq } }
    else socket

-- Afterwards: the kernel's.
abbrev pub synack_sent : Tcp → Socket → Socket
synack_sent live_tcp socket = record socket {
  state = passive_synack_sent;
  live = record socket.live { local_isn = live_tcp.seq };
}

abbrev pub sent_synack : Option Tcp → Option Tcp → Socket → Outcome Socket
sent_synack tcp live_tcp socket =
    if is_server_synack tcp socket
    then through live_tcp (λ live. ok (synack_sent live socket))
    else ok socket

abbrev pub sent_reset : Tcp → Socket → Socket
sent_reset tcp socket = if tcp.rst then record socket { state = reset_received } else socket

abbrev pub save_outbound : Option Tcp → Socket → Socket
save_outbound none socket = socket
save_outbound (some live_tcp) socket = record socket { last_outbound_tcp_header = live_tcp }

-- do_outbound_script_packet after the live packet is there, up to the last change of the socket.
-- packet->tcp->rst is read without a test of packet->tcp.
abbrev pub outbound_taken :
    State
    → Headers
    → ℕ
    → Headers
    → List Headers
    → List Socket
    → Socket
    → Outcome (Headers × (List Headers × State))
outbound_taken state packet p live_packet arrivals sockets socket = through packet.tcp λ tcp. ok (
  live_packet,
  (
    arrivals,
    record state {
      sockets = store_socket sockets p (save_outbound live_packet.tcp (sent_reset tcp socket));
    },
  ),
)

abbrev pub outbound_sniffed :
    State
    → Headers
    → ℕ
    → Headers × (List Headers × List Socket)
    → Outcome (Headers × (List Headers × State))
outbound_sniffed state packet p (live_packet, (arrivals, sockets)) =
    socket_at sockets p
    >>= sent_synack packet.tcp live_packet.tcp
    >>= outbound_taken state packet p live_packet arrivals sockets

abbrev pub sniff_for :
    List Headers → State → Headers → ℕ → Socket → Outcome (Headers × (List Headers × State))
sniff_for arrivals state packet p socket =
    sniff_outbound_live_packet arrivals
      (store_socket state.sockets p (expect_synack packet.tcp socket)) p
    >>= outbound_sniffed state packet p

-- do_outbound_script_packet up to the call of verify_outbound_live_packet.
unfoldable pub take_outbound_script_packet :
    List Headers → State → Headers → ℕ → Outcome (Headers × (List Headers × State))
take_outbound_script_packet arrivals state packet p =
    if packet.is_icmp
    then status_err
    else socket_at state.sockets p >>= sniff_for arrivals state packet p

-- The first part of do_inbound_script_packet: the ACK or the SYN/ACK that ends a handshake.
abbrev pub synack_received : Tcp → Socket → Socket
synack_received tcp socket = record socket {
  state = active_syn_acked;
  script = record socket.script { remote_isn = tcp.seq };
  live = record socket.live { remote_isn = tcp.seq };
}

abbrev pub end_handshake : Option Tcp → Socket → Socket
end_handshake none socket = socket
end_handshake (some tcp) socket =
    if is_synack_sent socket.state && tcp.ack
    then record socket { state = passive_synack_acked }
    else if is_syn_sent socket.state && tcp.syn && tcp.ack
    then synack_received tcp socket
    else socket

abbrev pub mapped_tcp : (Tcp → Tcp) → Option Tcp → Option Tcp
mapped_tcp f none = none
mapped_tcp f (some tcp) = some (f tcp)

-- set_packet_tuple on the addresses and the TCP or UDP ports. ip_to_ipv4 and ip_to_ipv6 take 4 and 16
-- bytes of the union of addresses, whatever family it holds; behind an IPv4 address it has zeros.
abbrev pub set_ip : Option IpAddress → IpAddress → IpAddress
set_ip none (ip_v4 old) = ip_v4 (replicate 4 0)
set_ip none (ip_v6 old) = ip_v6 (replicate 16 0)
set_ip (some (ip_v4 a)) (ip_v4 old) = ip_v4 a
set_ip (some (ip_v4 a)) (ip_v6 old) = ip_v6 (a ++ replicate 12 0)
set_ip (some (ip_v6 a)) (ip_v4 old) = ip_v4 (take 4 a)
set_ip (some (ip_v6 a)) (ip_v6 old) = ip_v6 a

abbrev pub set_tcp_ports : Tuple → Tcp → Tcp
set_tcp_ports tuple tcp = record tcp { src_port = tuple.src.port; dst_port = tuple.dst.port }

abbrev pub set_udp_ports : Tuple → Option Tcp → Option (ℕ × ℕ) → Option (ℕ × ℕ)
set_udp_ports tuple none (some udp) = some (tuple.src.port, tuple.dst.port)
set_udp_ports tuple tcp udp = udp

unfoldable pub set_packet_tuple : Tuple → Headers → Headers
set_packet_tuple tuple packet = record packet {
  src_ip = set_ip tuple.src.ip packet.src_ip;
  dst_ip = set_ip tuple.dst.ip packet.dst_ip;
  tcp = mapped_tcp (set_tcp_ports tuple) packet.tcp;
  udp = set_udp_ports tuple packet.tcp packet.udp;
}

-- The sequence numbers of map_inbound_packet and of map_outbound_live_packet.
abbrev pub offset_tcp : ℕ → ℕ → Tcp → Tcp
offset_tcp seq_offset ack_offset tcp = record tcp {
  seq = add_32 tcp.seq seq_offset;
  ack_seq = if tcp.ack then add_32 tcp.ack_seq ack_offset else tcp.ack_seq;
}

unfoldable pub map_inbound_tcp : Socket → Tcp → Tcp
map_inbound_tcp socket tcp =
    offset_tcp (remote_seq_script_to_live_offset socket tcp.syn)
      (local_seq_script_to_live_offset socket tcp.syn) tcp

abbrev pub map_inbound_options :
    Outcome {0} Unit → (Tcp → Tcp) → Headers → Option Tcp → Outcome Headers
map_inbound_options mapping f live none = ok live
map_inbound_options mapping f live (some tcp) =
    mapping >>= λ _. ok (record live { tcp = some (f tcp) })

unfoldable pub map_outbound_tcp : Socket → Tcp → Tcp
map_outbound_tcp socket tcp =
    offset_tcp (local_seq_live_to_script_offset socket tcp.syn)
      (remote_seq_live_to_script_offset socket tcp.syn) tcp

-- What the routines answer in the run of one event that work on what Headers do not hold: in
-- map_inbound_packet the mapping of the packet echoed in an ICMP packet, or else of SACK blocks,
-- timestamps and MPTCP options (map_inbound_icmp_packet, offset_sack_blocks, find_tcp_timestamp,
-- get_outbound_ts_val_mapping and mptcp_insert_and_extract_opt_fields); verify_outbound_live_packet;
-- and send_live_ip_packet.
pub record Answers : Type 0 where
  pub mapping : Outcome {0} Unit
  pub verification : Outcome Verdict
  pub injection : Outcome {0} Unit

-- map_inbound_packet: without a TCP header there is nothing left to map, unless it is ICMP.
unfoldable pub map_inbound_packet : Answers → Socket → Headers → Outcome Headers
map_inbound_packet answers socket packet =
    let live : Headers = set_packet_tuple (socket_get_inbound socket.live) packet in
    if packet.is_icmp
    then (answers.mapping >>= λ _. ok live)
    else map_inbound_options answers.mapping (map_inbound_tcp socket) live live.tcp

-- map_outbound_live_packet on the headers: from the live packet to its values in the script's terms.
-- It asserts that the packet was sent under the socket's live tuple.
unfoldable pub map_outbound_live_packet : Socket → Headers → Outcome Headers
map_outbound_live_packet socket live =
    if not (is_equal_tuple (get_packet_tuple live) (socket_get_outbound socket.live))
    then fault
    else let actual : Headers = set_packet_tuple (socket_get_outbound socket.script) live in
      ok (record actual { tcp = mapped_tcp (map_outbound_tcp socket) actual.tcp })

abbrev pub save_injected : Option Tcp → ℕ → Socket → Socket
save_injected none payload_len socket = socket
save_injected (some tcp) payload_len socket = record socket {
  last_injected_tcp_header = tcp;
  last_injected_tcp_payload_len = payload_len;
}

abbrev pub inbound_mapped : ℕ → State → ℕ → Socket → Headers → Outcome (Headers × State)
inbound_mapped payload_len state p socket live_packet = ok (
  live_packet,
  record state {
    sockets = store_socket state.sockets p (save_injected live_packet.tcp payload_len socket);
  },
)

abbrev pub inbound_for : Answers → ℕ → State → Headers → ℕ → Socket → Outcome (Headers × State)
inbound_for answers payload_len state packet p socket =
    let received : Socket = end_handshake packet.tcp socket in
    map_inbound_packet answers received packet >>= inbound_mapped payload_len state p received

-- do_inbound_script_packet up to the injection: the packet to inject, and the state.
unfoldable pub take_inbound_script_packet :
    Answers → ℕ → State → Headers → ℕ → Outcome (Headers × State)
take_inbound_script_packet answers payload_len state packet p =
    socket_at state.sockets p >>= inbound_for answers payload_len state packet p

-- The fields that reset_connection picks for its RST: sequence number, acknowledgment number and
-- window.
unfoldable pub reset_fields : Socket → ℕ × (ℕ × ℕ)
reset_fields socket =
    let injected = socket.last_injected_tcp_header in
    let outbound = socket.last_outbound_tcp_header in
    if injected.ack
    then (
      add_32 (add_32 (add_32 injected.seq (flag injected.syn)) (flag injected.fin))
          socket.last_injected_tcp_payload_len,
      (injected.ack_seq, injected.window),
    )
    else if outbound.ack
    then (outbound.ack_seq, (outbound.seq, 0))
    else (0, (add_32 outbound.seq 1, 0))
  where
    flag : Bool → ℕ
    flag is_set = if is_set then 1 else 0

-- do_outbound_script_packet, with its status, the live packet, the packets that are left and the
-- state.
abbrev pub do_outbound_script_packet :
    Answers
    → List Headers
    → State
    → Headers
    → ℕ
    → Outcome (Verdict × (Headers × (List Headers × State)))
do_outbound_script_packet answers arrivals state packet p =
    take_outbound_script_packet arrivals state packet p >>= λ taken.
    answers.verification >>= λ verdict. ok (verdict, taken)

abbrev pub do_inbound_script_packet :
    Answers
    → ℕ
    → List Headers
    → State
    → Headers
    → ℕ
    → Outcome (Verdict × (Headers × (List Headers × State)))
do_inbound_script_packet answers payload_len arrivals state packet p =
    take_inbound_script_packet answers payload_len state packet p >>= λ taken.
    answers.injection >>= λ _. ok (verdict_ok, (taken.0, (arrivals, taken.1)))

-- run_packet_event: its status, the live packet, the packets that are left and the state. An error
-- before the verification of a live packet is `status_err`. The descriptions of errors and the
-- waiting for the event's time are left out.
abbrev pub run_in_direction :
    Answers
    → ℕ
    → List Headers
    → Headers
    → Direction
    → ℕ × State
    → Outcome (Verdict × (Headers × (List Headers × State)))
run_in_direction answers payload_len arrivals packet direction_outbound (p, state) =
    do_outbound_script_packet answers arrivals state packet p
run_in_direction answers payload_len arrivals packet direction_inbound (p, state) =
    do_inbound_script_packet answers payload_len arrivals state packet p

unfoldable pub run_packet_event :
    Answers
    → ℕ
    → ℕ
    → List Headers
    → State
    → Headers
    → Outcome (Verdict × (Headers × (List Headers × State)))
run_packet_event answers ephemeral_port payload_len arrivals state packet =
    find_or_create_socket_for_script_packet ephemeral_port state packet
    >>= run_in_direction answers payload_len arrivals packet packet.direction
