-- ===== src/Examples/Handshakes.antt =====
-- A connection to a listening socket, at concrete packets.
use packetdrill_mptcp.Base.{
  ℕ, ◌≡◌, ◌⊎◌, ◌==◌, All, refl, Bool, true, false, [], ◌∷◌, none, some, ok, fault, arith,
}
use packetdrill_mptcp.Mptcp.{IpAddress, ip_v4}
use packetdrill_mptcp.Mptcp.Capable.{Direction, direction_inbound, direction_outbound}
use packetdrill_mptcp.Socket.{
  Tcp, zero_tcp, Socket, zero_socket, zero_state, passive_listening, add_32,
  remote_seq_script_to_live_offset, remote_seq_live_to_script_offset,
  local_seq_script_to_live_offset, local_seq_live_to_script_offset, socket_at,
}
use packetdrill_mptcp.Socket.Seq.{script_number, live_number, seq_offset-live_number}
use packetdrill_mptcp.RunPacket.{
  Headers, State, Ports, find_socket, find_connecting_socket, next_ephemeral_port,
  find_socket_matching_packet_script_fd,
}
use packetdrill_mptcp.RunPacket.Sockets.{
  find_candidate, ports_of_fd, find_or_create_socket_for_script_packet,
}
use packetdrill_mptcp.RunPacket.Find.{IsFirst, find_socket-IsFirst, find_or_create_wire_server}
use packetdrill_mptcp.RunPacket.Options.Verdict.{verdict_ok}
use packetdrill_mptcp.RunPacket.Traffic.{Answers}
use packetdrill_mptcp.RunPacket.Opening.{injected, injected_tcp}
use packetdrill_mptcp.RunPacket.Handshake.{with_newest}
use packetdrill_mptcp.RunPacket.Passive.{saved, child, run-syn}
use packetdrill_mptcp.RunPacket.Isn.{HasOneIsn}
use packetdrill_mptcp.RunPacket.Isn.Traffic.{AllHaveOneIsn}
use packetdrill_mptcp.RunPacket.Isn.Event.{
  no_packet, packet_first, PacketStep, ran, run_packet_event-AllHaveOneIsn,
}

abbrev local_ip : IpAddress
local_ip = ip_v4 (192 ∷ 168 ∷ 0 ∷ 1 ∷ [])

abbrev remote_ip : IpAddress
remote_ip = ip_v4 (192 ∷ 0 ∷ 2 ∷ 1 ∷ [])

abbrev listener : Socket
listener = record zero_socket {
  state = passive_listening;
  protocol = 6;
  script = record zero_state { fd = some 0 };
}

abbrev ports : Ports
ports = record { live_local = 8080; live_remote = 0 }

abbrev listening : State
listening = record {
  config = record {
    is_wire_server = false;
    live_remote_ip = remote_ip;
    live_local_ip = local_ip;
    sock_fd_ports = ports ∷ [];
  };
  sockets = listener ∷ [];
  socket_under_test = none;
  next_ephemeral_port = some 40000;
}

abbrev flags : Bool → Bool → ℕ → ℕ → Tcp
flags syn ack seq ack_seq = record zero_tcp { syn = syn; ack = ack; seq = seq; ack_seq = ack_seq }

abbrev packet : Direction → Tcp → Headers
packet direction tcp = record {
  direction = direction;
  socket_script_fd = none;
  src_ip = remote_ip;
  dst_ip = local_ip;
  address_family = 2;
  protocol = 6;
  tcp = some tcp;
  udp = none;
  is_icmp = false;
}

abbrev syn : Headers
syn = packet direction_inbound (flags true false 0 0)

abbrev synack : Headers
synack = packet direction_outbound (flags true true 0 1)

abbrev ack : Headers
ack = packet direction_inbound (flags false true 1 1)

abbrev live_tcp : Tcp
live_tcp = record (flags true true 1234567 1) { src_port = 8080; dst_port = 40000 }

abbrev live : Headers
live = record (packet direction_outbound live_tcp) { src_ip = local_ip; dst_ip = remote_ip }

-- All options can be mapped, the live packet is as expected, and packets can be sent.
abbrev succeeding : Answers
succeeding = record { mapping = ok tt; verification = ok verdict_ok; injection = ok tt }

abbrev numbered : Socket
numbered = record zero_socket {
  script = record zero_state { local_isn = 100; remote_isn = 500 };
  live = record zero_state { local_isn = 1234567; remote_isn = 500 };
}

seq_offset-live_number_example :
    (add_32 (script_number 100 false 7) (local_seq_script_to_live_offset numbered false)
      ≡ live_number 1234567 false 7)
    × (add_32 (live_number 1234567 false 7) (local_seq_live_to_script_offset numbered false)
        ≡ script_number 100 false 7)
    × (add_32 (script_number 500 false 7) (remote_seq_script_to_live_offset numbered false)
        ≡ live_number 500 false 7)
    × (add_32 (live_number 500 false 7) (remote_seq_live_to_script_offset numbered false)
        ≡ script_number 500 false 7)
seq_offset-live_number_example =
    seq_offset-live_number numbered false 7 refl (omega arith) (omega arith) (omega arith)
      (omega arith)

listening-AllHaveOneIsn : AllHaveOneIsn listening
unfolding AllHaveOneIsn HasOneIsn
listening-AllHaveOneIsn = (refl, tt)

-- The state after the SYN.
abbrev syn_received : State
syn_received =
    with_newest ((next_ephemeral_port 50000 listening).1)
      (saved 0 (flags true false 0 0) (child listening syn (flags true false 0 0) ports 50000))
      (listener ∷ [])

syn_step : PacketStep listening syn_received
unfolding find_candidate find_connecting_socket find_socket find_socket_matching_packet_script_fd
    socket_at ports_of_fd
syn_step =
    ran succeeding 50000 0 [] syn
      (injected syn remote_ip local_ip (
        injected_tcp (child listening syn (flags true false 0 0) ports 50000)
          (flags true false 0 0)))
      verdict_ok [] listening syn_received
      (run-syn listening syn (flags true false 0 0) 0 listener ports refl refl refl refl refl refl
        refl 50000 remote_ip local_ip succeeding 0 [] refl refl refl refl refl)

run_packet_event-AllHaveOneIsn_example : AllHaveOneIsn syn_received
run_packet_event-AllHaveOneIsn_example =
    run_packet_event-AllHaveOneIsn listening syn_received
      (packet_first listening syn_received syn_received syn_step (no_packet syn_received))
      listening-AllHaveOneIsn

-- A wire server that has seen no packet yet.
abbrev serving : State
serving = record listening {
  config = record listening.config { is_wire_server = true };
  sockets = [];
}

find_or_create_wire_server_example :
    find_or_create_socket_for_script_packet 50000 serving syn ≡ fault
unfolding find_candidate find_connecting_socket find_socket find_socket_matching_packet_script_fd
find_or_create_wire_server_example =
    find_or_create_wire_server 50000 serving syn (flags true false 0 0) refl refl refl refl

abbrev is_tcp_socket : Socket → Bool
is_tcp_socket socket = socket.protocol == 6

find_socket-IsFirst_example :
    ((find_socket (λ socket. ok (is_tcp_socket socket)) (zero_socket ∷ listener ∷ []) ≡ ok none)
      × All (λ socket. is_tcp_socket socket ≡ false) (zero_socket ∷ listener ∷ []))
    ⊎ ((p : ℕ) × (find_socket (λ socket. ok (is_tcp_socket socket)) (zero_socket ∷ listener ∷ [])
          ≡ ok (some p))
        × IsFirst is_tcp_socket (zero_socket ∷ listener ∷ []) p)
find_socket-IsFirst_example = find_socket-IsFirst is_tcp_socket (zero_socket ∷ listener ∷ [])
