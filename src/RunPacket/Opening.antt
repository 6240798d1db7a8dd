-- ===== src/RunPacket/Opening.antt =====
-- gtests/net/packetdrill/run_packet.c: what the SYN, the SYN/ACK and the ACK of a connection to a
-- listening socket leave in the new socket.
use packetdrill_mptcp.Base.{
  ℕ, ◌≡◌, ◌≢◌, refl, ap, ◌∙◌, true, false, List, ◌∷◌, length, ◌&&◌, if◌then◌else◌, Option, some, ok,
  status_err, ◌>>=◌,
}
use packetdrill_mptcp.Mptcp.{IpAddress}
use packetdrill_mptcp.Mptcp.Capable.{direction_outbound}
use packetdrill_mptcp.Socket.{
  Tcp, Tuple, Socket, socket_at, store_socket, socket_get_inbound, is_equal_ip,
  passive_packet_received,
}
use packetdrill_mptcp.Socket.Store.{socket_at-newest, store_socket-newest}
use packetdrill_mptcp.RunPacket.{Headers, State, is_connecting, through}
use packetdrill_mptcp.RunPacket.Sockets.{is_listening, is_active_connecting}
use packetdrill_mptcp.RunPacket.Options.Verdict.{verdict_ok}
use packetdrill_mptcp.RunPacket.Traffic.{
  Answers, map_inbound_options, set_packet_tuple, set_ip, set_tcp_ports, set_udp_ports, mapped_tcp,
  map_inbound_tcp, map_inbound_packet, run_packet_event, run_in_direction,
  take_outbound_script_packet, expect_synack, sent_synack, synack_sent, sent_reset, save_outbound,
  outbound_taken, sniff_for,
}
use packetdrill_mptcp.RunPacket.Handshake.{with_newest, sniffed, find_or_create-newest}

-- The new socket once the script has said which SYN/ACK it expects.
abbrev pub waiting : Tcp → Socket → Socket
waiting tcp socket = record socket { script = record socket.script { local_isn = tcp.seq } }

-- And once the kernel has sent its SYN/ACK.
abbrev pub synack_seen : Tcp → Tcp → Socket → Socket
synack_seen tcp live_tcp socket =
    save_outbound (some live_tcp) (synack_sent live_tcp (waiting tcp socket))

abbrev pub under_test : State → Socket → List Socket → State
under_test state socket rest = record (with_newest state socket rest) {
  socket_under_test = some (length rest);
}

module _ (state : State) (socket : Socket) (rest : List Socket) (packet live : Headers)
    (tcp live_tcp : Tcp) (is_local : state.config.is_wire_server ≡ false)
    (connecting : is_connecting socket ≡ true) (received : socket.state ≡ passive_packet_received)
    (is_tcp : socket.protocol ≡ 6) (outbound : packet.direction ≡ direction_outbound)
    (has_tcp : packet.tcp ≡ some tcp) (no_icmp : packet.is_icmp ≡ false)
    (synack : (tcp.syn && tcp.ack) ≡ true) (no_rst : tcp.rst ≡ false)
    (has_live_tcp : live.tcp ≡ some live_tcp)
    (src_ip : is_equal_ip (some live.src_ip) socket.live.local.ip ≡ true)
    (dst_ip : is_equal_ip (some live.dst_ip) socket.live.remote.ip ≡ true)
    (src_port : live_tcp.src_port ≡ socket.live.local.port)
    (dst_port : live_tcp.dst_port ≡ socket.live.remote.port)
    (two_ports : socket.live.local.port ≢ socket.live.remote.port) where
  synack_expected : expect_synack packet.tcp socket ≡ waiting tcp socket
  synack_expected = ap (λ t. expect_synack t socket) has_tcp ∙ rw (received, synack) refl

  synack_accepted :
      sent_synack packet.tcp live.tcp (waiting tcp socket)
      ≡ ok (synack_sent live_tcp (waiting tcp socket))
  synack_accepted =
      ap (λ t. sent_synack t live.tcp (waiting tcp socket)) has_tcp
      ∙ ap (λ t. sent_synack (some tcp) t (waiting tcp socket)) has_live_tcp
      ∙ rw (received, synack) refl

  synack_stored :
      (arrivals : List Headers)
      → outbound_taken
          (under_test state socket rest)
          packet
          (length rest)
          live
          arrivals
          (waiting tcp socket ∷ rest)
          (synack_sent live_tcp (waiting tcp socket))
        ≡ ok (live, (arrivals, under_test state (synack_seen tcp live_tcp socket) rest))
  synack_stored arrivals =
      let tcp0 : Tcp = tcp in
      let sent : Socket = synack_sent live_tcp (waiting tcp socket) in
      ap
        (λ t. through t λ tcp. ok (
          live,
          (
            arrivals,
            record (under_test state socket rest) {
              sockets =
                  store_socket (waiting tcp0 socket ∷ rest) (length rest)
                    (save_outbound live.tcp (sent_reset tcp sent));
            },
          ),
        ))
        has_tcp
      ∙ ap
          (λ t. ok (
            live,
            (
              arrivals,
              record (under_test state socket rest) {
                sockets =
                    store_socket (waiting tcp0 socket ∷ rest) (length rest)
                      (save_outbound t (sent_reset tcp sent));
              },
            ),
          ))
          has_live_tcp
      ∙ ap
          (λ s. ok (
            live,
            (
              arrivals,
              record (under_test state socket rest) {
                sockets = store_socket (waiting tcp0 socket ∷ rest) (length rest) s;
              },
            ),
          ))
          (rw no_rst refl)
      ∙ ap (λ s. ok (live, (arrivals, record (under_test state socket rest) { sockets = s })))
          (store_socket-newest (waiting tcp socket) (synack_seen tcp live_tcp socket) rest)

  synack_taken :
      (arrivals : List Headers)
      → take_outbound_script_packet
          (live ∷ arrivals)
          (under_test state socket rest)
          packet
          (length rest)
        ≡ ok (live, (arrivals, under_test state (synack_seen tcp live_tcp socket) rest))
  unfolding take_outbound_script_packet
  synack_taken arrivals =
      ap
        (λ b.
          if b
          then status_err
          else socket_at (socket ∷ rest) (length rest)
            >>= sniff_for (live ∷ arrivals) (under_test state socket rest) packet (length rest))
        no_icmp
      ∙ rw
          (
            socket_at-newest socket rest,
            synack_expected,
            store_socket-newest socket (waiting tcp socket) rest,
            sniffed (waiting tcp socket) rest live live_tcp has_live_tcp src_ip dst_ip src_port
                dst_port two_ports arrivals,
            socket_at-newest (waiting tcp socket) rest,
            synack_accepted,
          )
          (synack_stored arrivals)

  pub run-synack :
      (answers : Answers) (ephemeral_port payload_len : ℕ) (arrivals : List Headers)
      → answers.verification ≡ ok verdict_ok
      → run_packet_event answers ephemeral_port payload_len
          (live ∷ arrivals)
          (with_newest state socket rest)
          packet
        ≡ ok (
          verdict_ok,
          (live, (arrivals, under_test state (synack_seen tcp live_tcp socket) rest)),
        )
  unfolding run_packet_event
  run-synack answers ephemeral_port payload_len arrivals verified =
      rw
        (find_or_create-newest state socket rest packet tcp is_local connecting
          (ap is_listening received) (ap is_active_connecting received) is_tcp has_tcp no_icmp
          ephemeral_port)
        (ap
            (λ d.
              run_in_direction answers payload_len (live ∷ arrivals) packet d
                (length rest, under_test state socket rest))
            outbound
          ∙ rw (synack_taken arrivals, verified) refl)

-- A packet with a TCP header as it is injected for a socket.
abbrev pub injected_tcp : Socket → Tcp → Tcp
injected_tcp socket tcp =
    map_inbound_tcp socket (set_tcp_ports (socket_get_inbound socket.live) tcp)

abbrev pub injected : Headers → IpAddress → IpAddress → Tcp → Headers
injected packet src_ip dst_ip tcp = record packet {
  src_ip = src_ip;
  dst_ip = dst_ip;
  tcp = some tcp;
}

pub map_inbound_packet-tcp :
    (answers : Answers) (socket : Socket) (packet : Headers) (tcp : Tcp) (src_ip dst_ip : IpAddress)
    → answers.mapping ≡ ok tt
    → packet.tcp ≡ some tcp
    → packet.is_icmp ≡ false
    → set_ip socket.live.remote.ip packet.src_ip ≡ src_ip
    → set_ip socket.live.local.ip packet.dst_ip ≡ dst_ip
    → map_inbound_packet answers socket packet
      ≡ ok (injected packet src_ip dst_ip (injected_tcp socket tcp))
unfolding map_inbound_packet set_packet_tuple
map_inbound_packet-tcp answers socket packet tcp src_ip dst_ip is_mapped has_tcp no_icmp src dst =
    let tuple : Tuple = socket_get_inbound socket.live in
    let live : Option Tcp → Headers = λ t. record packet {
      src_ip = src_ip;
      dst_ip = dst_ip;
      tcp = mapped_tcp (set_tcp_ports tuple) t;
      udp = set_udp_ports tuple t packet.udp;
    } in
    rw (src, dst)
      (ap
          (λ b.
            if b
            then (answers.mapping >>= λ _. ok (live packet.tcp))
            else map_inbound_options answers.mapping (map_inbound_tcp socket) (live packet.tcp)
                (mapped_tcp (set_tcp_ports tuple) packet.tcp))
          no_icmp
        ∙ ap
            (λ t.
              map_inbound_options answers.mapping (map_inbound_tcp socket) (live t)
                (mapped_tcp (set_tcp_ports tuple) t))
            has_tcp
        ∙ rw is_mapped refl)
