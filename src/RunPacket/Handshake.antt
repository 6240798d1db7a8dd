-- ===== src/RunPacket/Handshake.antt =====
-- gtests/net/packetdrill/run_packet.c: the three packets by which a connection to a listening socket
-- is opened.
use packetdrill_mptcp.Base.{
  ℕ, ◌≡◌, ◌≢◌, refl, ap, ◌∙◌, Bool, true, false, not, List, ◌∷◌, length, ◌==◌, ◌&&◌, if◌then◌else◌,
  none, some, ok, status_err, ◌>>=◌, arith, Bool-cases, inl, inr,
}
use packetdrill_mptcp.Mptcp.Capable.{direction_outbound, is_inbound}
use packetdrill_mptcp.Socket.{
  Tcp, Socket, socket_get_inbound, socket_get_outbound, is_equal_tuple, is_equal_ip, is_equal_port,
}
use packetdrill_mptcp.Socket.Store.{socket_at-newest}
use packetdrill_mptcp.RunPacket.{
  Headers, State, first_socket, through, ports_of, find_socket, find_connecting_socket,
  is_connecting, find_socket_for_live_packet, is_equals_tuple_socket_and_packet, get_packet_tuple,
}
use packetdrill_mptcp.RunPacket.Sockets.{
  is_some, use_candidate, find_candidate, find_or_create_socket_for_script_packet, is_listening,
  is_active_connecting, handle_listen_for_script_packet, handle_connect_for_script_packet,
  find_socket_for_script_packet, is_listen_match, is_connect_match,
  is_script_packet_match_for_socket,
}
use packetdrill_mptcp.RunPacket.Traffic.{sniff_outbound_live_packet}

-- A state whose newest socket is given.
abbrev pub with_newest : State → Socket → List Socket → State
with_newest state socket rest = record state { sockets = socket ∷ rest }

pub find_candidate-newest :
    (socket : Socket) (rest : List Socket) (packet : Headers)
    → is_connecting socket ≡ true
    → find_candidate (socket ∷ rest) packet ≡ ok (some (length rest))
unfolding find_candidate find_connecting_socket find_socket
find_candidate-newest socket rest packet h = rw (h) refl

-- The newest socket, which is establishing a connection, neither listens nor has called connect.
module _ (state : State) (socket : Socket) (rest : List Socket) (packet : Headers) (tcp : Tcp)
    (is_local : state.config.is_wire_server ≡ false) (connecting : is_connecting socket ≡ true)
    (no_listener : is_listening socket.state ≡ false)
    (no_connect : is_active_connecting socket.state ≡ false) (is_tcp : socket.protocol ≡ 6)
    (has_tcp : packet.tcp ≡ some tcp) (no_icmp : packet.is_icmp ≡ false) where
  no_listen_match :
      is_listen_match (with_newest state socket rest) packet (some (length rest)) ≡ ok false
  unfolding is_listen_match
  no_listen_match = elim (Bool-cases (is_inbound packet.direction)) [
    | inl e ↦ rw (e, is_local, socket_at-newest socket rest, no_listener) refl
    | inr e ↦ rw e refl
  ]

  no_connect_match :
      is_connect_match (with_newest state socket rest) packet (some (length rest)) ≡ ok false
  unfolding is_connect_match
  no_connect_match = elim (Bool-cases (is_inbound packet.direction)) [
    | inl e ↦ rw e refl
    | inr e ↦ elim (Bool-cases (tcp.syn && not tcp.ack)) [
      | inl f ↦ rw (e, has_tcp, f, is_local, socket_at-newest socket rest, no_connect) refl
      | inr f ↦ rw (e, has_tcp, f) refl
    ]
  ]

  no_listen :
      (ephemeral_port : ℕ)
      → handle_listen_for_script_packet ephemeral_port (with_newest state socket rest) packet
        ≡ ok none
  unfolding handle_listen_for_script_packet
  no_listen ephemeral_port =
      rw (find_candidate-newest socket rest packet connecting, no_listen_match) refl

  no_connection : handle_connect_for_script_packet (with_newest state socket rest) packet ≡ ok none
  unfolding handle_connect_for_script_packet
  no_connection = rw (find_candidate-newest socket rest packet connecting, no_connect_match) refl

  script_match : is_script_packet_match_for_socket packet socket ≡ ok true
  unfolding is_script_packet_match_for_socket
  script_match = rw (is_tcp, ap is_some has_tcp) refl

  newest_found :
      find_socket_for_script_packet (with_newest state socket rest) packet
      ≡ ok (
        length rest,
        record (with_newest state socket rest) { socket_under_test = some (length rest) },
      )
  unfolding find_socket_for_script_packet
  newest_found =
      ap
        (λ b.
          (if b then ok (first_socket (socket ∷ rest)) else find_candidate (socket ∷ rest) packet)
          >>= use_candidate (with_newest state socket rest) packet)
        no_icmp
      ∙ rw
          (
            find_candidate-newest socket rest packet connecting,
            socket_at-newest socket rest,
            script_match,
          )
          refl

  -- It is used as it is.
  pub find_or_create-newest :
      (ephemeral_port : ℕ)
      → find_or_create_socket_for_script_packet ephemeral_port
          (with_newest state socket rest)
          packet
        ≡ ok (
          length rest,
          record (with_newest state socket rest) { socket_under_test = some (length rest) },
        )
  unfolding find_or_create_socket_for_script_packet
  find_or_create-newest ephemeral_port =
      rw (ap is_some has_tcp, no_listen ephemeral_port, no_connection, newest_found) refl

-- A live packet that the newest socket sent.
module _ (socket : Socket) (rest : List Socket) (live : Headers) (live_tcp : Tcp)
    (has_tcp : live.tcp ≡ some live_tcp)
    (src_ip : is_equal_ip (some live.src_ip) socket.live.local.ip ≡ true)
    (dst_ip : is_equal_ip (some live.dst_ip) socket.live.remote.ip ≡ true)
    (src_port : live_tcp.src_port ≡ socket.live.local.port)
    (dst_port : live_tcp.dst_port ≡ socket.live.remote.port)
    (two_ports : socket.live.local.port ≢ socket.live.remote.port) where
  live_tuple : get_packet_tuple live ≡ record {
    src = record { ip = some live.src_ip; port = live_tcp.src_port };
    dst = record { ip = some live.dst_ip; port = live_tcp.dst_port };
  }
  live_tuple =
      ap
        (λ t. record {
          src = record { ip = some live.src_ip; port = (ports_of t live.udp).0 };
          dst = record { ip = some live.dst_ip; port = (ports_of t live.udp).1 };
        })
        has_tcp

  not_inbound : is_equal_tuple (get_packet_tuple live) (socket_get_inbound socket.live) ≡ false
  not_inbound =
      ap (λ t. is_equal_tuple t (socket_get_inbound socket.live)) live_tuple
      ∙ second_false (is_equal_ip (some live.src_ip) socket.live.remote.ip)
          (live_tcp.src_port == socket.live.remote.port) _ _ (ground arith)
    where
      second_false : (a b c d : Bool) → b ≡ false → (a && b && c && d) ≡ false
      second_false a b c d h = ground arith

  is_outbound : is_equal_tuple (get_packet_tuple live) (socket_get_outbound socket.live) ≡ true
  is_outbound =
      ap (λ t. is_equal_tuple t (socket_get_outbound socket.live)) live_tuple
      ∙ rw (src_ip, dst_ip, src_port, dst_port) (ground arith)

  ports_match : is_equals_tuple_socket_and_packet live socket ≡ ok true
  ports_match =
      ap
        (λ t. through t λ tcp. ok (
          is_equal_port socket.live.local.port tcp.src_port
          && is_equal_port socket.live.remote.port tcp.dst_port))
        has_tcp
      ∙ ap ok (
          let both : (a b c d : ℕ) → c ≡ a → d ≡ b → ((a == c) && (b == d)) ≡ true =
            λ a b c d h k. ground arith in
          both socket.live.local.port socket.live.remote.port live_tcp.src_port live_tcp.dst_port
            src_port dst_port)

  found_outbound :
      find_socket_for_live_packet (socket ∷ rest) live ≡ ok (some (length rest, direction_outbound))
  unfolding find_socket_for_live_packet find_socket
  found_outbound = rw (ports_match, socket_at-newest socket rest, not_inbound, is_outbound) refl

  pub sniffed :
      (arrivals : List Headers)
      → sniff_outbound_live_packet (live ∷ arrivals) (socket ∷ rest) (length rest)
        ≡ ok (live, (arrivals, socket ∷ rest))
  unfolding sniff_outbound_live_packet
  sniffed arrivals = rw (found_outbound) (
      ap (λ b. if b then ok (live, (arrivals, socket ∷ rest)) else status_err) (same (length rest)))
    where
      same : (n : ℕ) → (n == n) ≡ true
      same n = ground arith
