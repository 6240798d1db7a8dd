-- ===== src/RunPacket/Passive.antt =====
-- gtests/net/packetdrill/run_packet.c: a connection to a listening socket, from the SYN to the ACK.
use packetdrill_mptcp.Base.{
  ℕ, ◌≡◌, refl, ap, ◌∙◌, true, false, not, List, length, if◌then◌else◌, some, ok, ◌>>=◌,
}
use packetdrill_mptcp.Mptcp.{IpAddress}
use packetdrill_mptcp.Mptcp.Capable.{direction_inbound, is_inbound}
use packetdrill_mptcp.Socket.{
  Tcp, Socket, socket_at, passive_synack_acked, passive_synack_sent, passive_listening,
}
use packetdrill_mptcp.Socket.Store.{socket_at-newest, store_socket-newest}
use packetdrill_mptcp.RunPacket.{Headers, State, Ports, is_connecting, through, next_ephemeral_port}
use packetdrill_mptcp.RunPacket.Sockets.{
  is_listening, is_active_connecting, is_some, find_candidate, child_socket, ports_of_fd,
  listen_child, is_listen_match, handle_listen_for_script_packet,
  find_or_create_socket_for_script_packet, add_child, or_else, handle_connect_for_script_packet,
  find_socket_for_script_packet,
}
use packetdrill_mptcp.RunPacket.Traffic.{
  Answers, set_ip, run_packet_event, run_in_direction, take_inbound_script_packet, end_handshake,
  save_injected, inbound_mapped, map_inbound_packet,
}
use packetdrill_mptcp.RunPacket.Options.Verdict.{verdict_ok}
use packetdrill_mptcp.RunPacket.Handshake.{with_newest, find_or_create-newest}
use packetdrill_mptcp.RunPacket.Opening.{under_test, injected, injected_tcp, map_inbound_packet-tcp}

-- What an inbound packet with a TCP header leaves in the newest socket.
abbrev pub saved : ℕ → Tcp → Socket → Socket
saved payload_len tcp socket = save_injected (some (injected_tcp socket tcp)) payload_len socket

module _ (state : State) (socket received : Socket) (rest : List Socket) (packet : Headers)
    (tcp : Tcp) (src_ip dst_ip : IpAddress) (has_tcp : packet.tcp ≡ some tcp)
    (no_icmp : packet.is_icmp ≡ false) (is_received : end_handshake (some tcp) socket ≡ received)
    (src : set_ip received.live.remote.ip packet.src_ip ≡ src_ip)
    (dst : set_ip received.live.local.ip packet.dst_ip ≡ dst_ip) where
  taken_inbound :
      (answers : Answers) (payload_len : ℕ)
      → answers.mapping ≡ ok tt
      → take_inbound_script_packet answers payload_len
          (with_newest state socket rest)
          packet
          (length rest)
        ≡ ok (
          injected packet src_ip dst_ip (injected_tcp received tcp),
          with_newest state (saved payload_len tcp received) rest,
        )
  unfolding take_inbound_script_packet
  taken_inbound answers payload_len is_mapped = rw (socket_at-newest socket rest) (
      ap
        (λ s.
          map_inbound_packet answers s packet
          >>= inbound_mapped payload_len (with_newest state socket rest) (length rest) s)
        (ap (λ t. end_handshake t socket) has_tcp ∙ is_received)
      ∙ rw
          (map_inbound_packet-tcp answers received packet tcp src_ip dst_ip is_mapped has_tcp
            no_icmp src dst)
          (ap
            (λ s. ok (
              injected packet src_ip dst_ip (injected_tcp received tcp),
              record (with_newest state socket rest) { sockets = s },
            ))
            (store_socket-newest socket (saved payload_len tcp received) rest)))

-- The new socket once the script's ACK has been injected.
abbrev pub acked : Socket → Socket
acked socket = record socket { state = passive_synack_acked }

pub run-ack :
    (state : State) (socket : Socket) (rest : List Socket) (packet : Headers) (tcp : Tcp)
    (src_ip dst_ip : IpAddress) (answers : Answers) (ephemeral_port payload_len : ℕ)
    (arrivals : List Headers)
    → answers.mapping ≡ ok tt
    → answers.injection ≡ ok tt
    → state.config.is_wire_server ≡ false
    → is_connecting socket ≡ true
    → socket.state ≡ passive_synack_sent
    → socket.protocol ≡ 6
    → packet.direction ≡ direction_inbound
    → packet.tcp ≡ some tcp
    → packet.is_icmp ≡ false
    → tcp.ack ≡ true
    → set_ip socket.live.remote.ip packet.src_ip ≡ src_ip
    → set_ip socket.live.local.ip packet.dst_ip ≡ dst_ip
    → run_packet_event answers ephemeral_port payload_len arrivals
        (with_newest state socket rest)
        packet
      ≡ ok (
        verdict_ok,
        (
          injected packet src_ip dst_ip (injected_tcp (acked socket) tcp),
          (arrivals, under_test state (saved payload_len tcp (acked socket)) rest),
        ),
      )
unfolding run_packet_event
run-ack state socket rest packet tcp src_ip dst_ip answers ephemeral_port payload_len arrivals
      is_mapped is_sent is_local connecting sent is_tcp inbound has_tcp no_icmp is_ack src dst =
    rw
      (find_or_create-newest state socket rest packet tcp is_local connecting (ap is_listening sent)
        (ap is_active_connecting sent) is_tcp has_tcp no_icmp ephemeral_port)
      (ap
          (λ d.
            run_in_direction answers payload_len arrivals packet d
              (length rest, under_test state socket rest))
          inbound
        ∙ rw
            (
              taken_inbound (record state { socket_under_test = some (length rest) }) socket
                  (acked socket) rest packet tcp src_ip dst_ip has_tcp no_icmp
                  (rw (sent, is_ack) refl) src dst answers payload_len is_mapped,
              is_sent,
            )
            refl)

-- The new socket that a SYN makes, and the state with it.
abbrev pub child : State → Headers → Tcp → Ports → ℕ → Socket
child state packet tcp ports ephemeral_port =
    child_socket state.config packet tcp ((next_ephemeral_port ephemeral_port state).0)
      ports.live_local

abbrev pub with_child : State → Headers → Tcp → Ports → ℕ → State
with_child state packet tcp ports ephemeral_port =
    with_newest ((next_ephemeral_port ephemeral_port state).1)
      (child state packet tcp ports ephemeral_port) state.sockets

module _ (state : State) (packet : Headers) (tcp : Tcp) (p : ℕ) (listener : Socket) (ports : Ports)
    (is_local : state.config.is_wire_server ≡ false)
    (inbound : packet.direction ≡ direction_inbound) (has_tcp : packet.tcp ≡ some tcp)
    (candidate : find_candidate state.sockets packet ≡ ok (some p))
    (at_listener : socket_at state.sockets p ≡ ok listener)
    (listens : listener.state ≡ passive_listening)
    (has_ports : ports_of_fd state.config listener.script.fd ≡ ok ports) (ephemeral_port : ℕ) where
  listen_match : is_listen_match state packet (some p) ≡ ok true
  unfolding is_listen_match
  listen_match =
      ap
        (λ d.
          if not (is_inbound d)
          then ok false
          else if state.config.is_wire_server
          then ok false
          else socket_at state.sockets p >>= λ socket. ok (is_listening socket.state))
        inbound
      ∙ rw (is_local, at_listener, listens) refl

  child_made :
      listen_child ephemeral_port state packet (some p)
      ≡ ok (length state.sockets, with_child state packet tcp ports ephemeral_port)
  unfolding listen_child
  child_made = rw (at_listener) (
      ap
        (λ t. through t λ tcp.
          ports_of_fd state.config listener.script.fd >>= add_child ephemeral_port state packet tcp)
        has_tcp
      ∙ rw (has_ports) refl)

  listen_handled :
      handle_listen_for_script_packet ephemeral_port state packet
      ≡ ok (some (length state.sockets, with_child state packet tcp ports ephemeral_port))
  unfolding handle_listen_for_script_packet
  listen_handled = rw (candidate, listen_match, child_made) refl

  child_found :
      find_or_create_socket_for_script_packet ephemeral_port state packet
      ≡ ok (length state.sockets, with_child state packet tcp ports ephemeral_port)
  unfolding find_or_create_socket_for_script_packet
  child_found =
      ap
        (λ b.
          if b
          then or_else (handle_listen_for_script_packet ephemeral_port state packet) (
              or_else (handle_connect_for_script_packet state packet)
                (find_socket_for_script_packet state packet))
          else find_socket_for_script_packet state packet)
        (ap is_some has_tcp)
      ∙ rw listen_handled refl

  pub run-syn :
      (src_ip dst_ip : IpAddress) (answers : Answers) (payload_len : ℕ) (arrivals : List Headers)
      → answers.mapping ≡ ok tt
      → answers.injection ≡ ok tt
      → packet.is_icmp ≡ false
      → set_ip (some state.config.live_remote_ip) packet.src_ip ≡ src_ip
      → set_ip (some state.config.live_local_ip) packet.dst_ip ≡ dst_ip
      → run_packet_event answers ephemeral_port payload_len arrivals state packet
        ≡ ok (
          verdict_ok,
          (
            injected packet src_ip dst_ip
                (injected_tcp (child state packet tcp ports ephemeral_port) tcp),
            (
              arrivals,
              with_newest
                  ((next_ephemeral_port ephemeral_port state).1)
                  (saved payload_len tcp (child state packet tcp ports ephemeral_port))
                  state.sockets,
            ),
          ),
        )
  unfolding run_packet_event
  run-syn src_ip dst_ip answers payload_len arrivals is_mapped is_sent no_icmp src dst =
      let new_socket : Socket = child state packet tcp ports ephemeral_port in
      rw child_found (
        ap
          (λ d.
            run_in_direction answers payload_len arrivals packet d
              (length state.sockets, with_child state packet tcp ports ephemeral_port))
          inbound
        ∙ rw
            (
              taken_inbound ((next_ephemeral_port ephemeral_port state).1) new_socket new_socket
                  state.sockets packet tcp src_ip dst_ip has_tcp no_icmp refl src dst answers
                  payload_len is_mapped,
              is_sent,
            )
            refl)
