-- ===== src/RunPacket/Isn/Sniff.antt =====
-- gtests/net/packetdrill/run_packet.c: the loop that waits for a live packet keeps one initial
-- number of the remote side.
use packetdrill_mptcp.Base.{
  ℕ, Bool, true, false, not, List, [], ◌∷◌, All, ◌==◌, ◌&&◌, ◌||◌, if◌then◌else◌, Option, none,
  some, Outcome, ok, status_err, ◌>>=◌, Holds, Holds-bind, Holds-after, Holds-if,
}
use packetdrill_mptcp.Mptcp.Capable.{Direction, direction_inbound, direction_outbound}
use packetdrill_mptcp.Socket.{Socket, socket_at, store_socket, is_equal_ip, is_equal_port}
use packetdrill_mptcp.Socket.Store.{All-store_socket, All-socket_at}
use packetdrill_mptcp.RunPacket.{
  Headers, find_socket_for_live_packet, get_packet_tuple, find_socket,
  socket_remote_port_equals_packet_dst_port,
}
use packetdrill_mptcp.RunPacket.Sockets.{
  find_connect_for_live_packet, connect_found, if_found, learn_local, is_udp_match, is_tcp_match,
}
use packetdrill_mptcp.RunPacket.Traffic.{
  sniff_outbound_live_packet, expected_socket, if_outbound, if_connecting,
}
use packetdrill_mptcp.RunPacket.Isn.{HasOneIsn, OnSome, HaveOneIsn, learn_local_lem}

connect_found_lem :
    (sockets : List Socket) (packet : Headers) (p : ℕ) (socket : Socket)
    → All HasOneIsn sockets
    → HasOneIsn socket
    → Holds (OnSome HaveOneIsn) (connect_found sockets packet p socket)
unfolding connect_found
connect_found_lem sockets packet p socket h k =
    two_tests (not (is_udp_match packet socket) && not (is_tcp_match packet socket)) (
      not (is_equal_ip (get_packet_tuple packet).dst.ip socket.live.remote.ip)
      || not (is_equal_port (get_packet_tuple packet).dst.port socket.live.remote.port))
  where
    two_tests :
        (b c : Bool)
        → Holds (OnSome HaveOneIsn) (
            if b
            then ok none
            else if c
            then ok none
            else ok (some (p, store_socket sockets p (learn_local packet socket))))
    two_tests true c = tt
    two_tests false true = tt
    two_tests false false =
        All-store_socket HasOneIsn sockets p (learn_local packet socket) h
          (learn_local_lem packet socket k)

pub find_connect_lem :
    (sockets : List Socket) (packet : Headers)
    → All HasOneIsn sockets
    → Holds (OnSome HaveOneIsn) (find_connect_for_live_packet sockets packet)
unfolding find_connect_for_live_packet
find_connect_lem sockets packet h =
    Holds-after (OnSome HaveOneIsn)
      (find_socket (socket_remote_port_equals_packet_dst_port packet) sockets)
      (if_found sockets packet) (λ found e. found_lem found)
  where
    found_lem : (found : Option ℕ) → Holds (OnSome HaveOneIsn) (if_found sockets packet found)
    found_lem none = tt
    found_lem (some p) =
        Holds-after (OnSome HaveOneIsn) (socket_at sockets p) (connect_found sockets packet p)
          (λ socket e.
            connect_found_lem sockets packet p socket h
              (All-socket_at HasOneIsn sockets p socket h e))

-- What sniff_outbound_live_packet answers with: the packet, the packets that are left, the sockets.
abbrev pub SniffedOneIsn : Headers × (List Headers × List Socket) → Type 0
SniffedOneIsn sniffed = All HasOneIsn (sniffed.1.1)

expected_lem :
    (expected p : ℕ) (packet : Headers) (arrivals : List Headers) (sockets : List Socket)
    → All HasOneIsn sockets
    → Holds SniffedOneIsn (expected_socket expected p packet arrivals sockets)
expected_lem expected p packet arrivals sockets h =
    Holds-if SniffedOneIsn (p == expected) (ok (packet, (arrivals, sockets))) status_err h tt

if_outbound_lem :
    {A : Type 0} (P : A → Type 0) (found : Option (ℕ × Direction)) (f : ℕ → A) (other : A)
    → ((p : ℕ) → P (f p))
    → P other
    → P (if_outbound found f other)
if_outbound_lem P none f other h k = k
if_outbound_lem P (some (p, direction_outbound)) f other h k = h p
if_outbound_lem P (some (p, direction_inbound)) f other h k = k

connecting_lem :
    (expected : ℕ) (packet : Headers) (arrivals : List Headers)
    (next : Outcome (Headers × (List Headers × List Socket)))
    (connecting : Option (ℕ × List Socket))
    → Holds SniffedOneIsn next
    → OnSome HaveOneIsn connecting
    → Holds SniffedOneIsn (if_connecting expected packet arrivals next connecting)
connecting_lem expected packet arrivals next none h k = h
connecting_lem expected packet arrivals next (some (p, learned)) h k =
    expected_lem expected p packet arrivals learned k

pub sniff_lem :
    (arrivals : List Headers) (sockets : List Socket) (expected : ℕ)
    → All HasOneIsn sockets
    → Holds SniffedOneIsn (sniff_outbound_live_packet arrivals sockets expected)
unfolding sniff_outbound_live_packet
sniff_lem [] sockets expected h = tt
sniff_lem (packet ∷ arrivals) sockets expected h =
    Holds-after SniffedOneIsn (find_socket_for_live_packet sockets packet)
      (λ found.
        if_outbound found (λ p. expected_socket expected p packet arrivals sockets)
          (find_connect_for_live_packet sockets packet
            >>= if_connecting expected packet arrivals
                (sniff_outbound_live_packet arrivals sockets expected)))
      (λ found e.
        if_outbound_lem (Holds SniffedOneIsn) found
          (λ p. expected_socket expected p packet arrivals sockets)
          (find_connect_for_live_packet sockets packet
            >>= if_connecting expected packet arrivals
                (sniff_outbound_live_packet arrivals sockets expected))
          (λ p. expected_lem expected p packet arrivals sockets h)
          (Holds-bind (OnSome HaveOneIsn) SniffedOneIsn
            (find_connect_for_live_packet sockets packet)
            (if_connecting expected packet arrivals
              (sniff_outbound_live_packet arrivals sockets expected))
            (find_connect_lem sockets packet h)
            (λ connecting k.
              connecting_lem expected packet arrivals
                (sniff_outbound_live_packet arrivals sockets expected) connecting
                (sniff_lem arrivals sockets expected h) k)))
