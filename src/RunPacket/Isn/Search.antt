-- ===== src/RunPacket/Isn/Search.antt =====
-- gtests/net/packetdrill/run_packet.c: finding or making a socket keeps one initial number of the
-- remote side.
use packetdrill_mptcp.Base.{
  ℕ, refl, if◌then◌else◌, Option, none, some, ok, status_err, ◌>>=◌, Holds, Holds-after, Holds-if,
}
use packetdrill_mptcp.Socket.{Tcp, Socket, socket_at}
use packetdrill_mptcp.Socket.Store.{All-store_socket, All-socket_at}
use packetdrill_mptcp.RunPacket.{Headers, State, first_socket, through}
use packetdrill_mptcp.RunPacket.Sockets.{
  listen_child, matched, or_else, is_some, handle_listen_for_script_packet,
  handle_connect_for_script_packet, connect_socket, add_child, ports_of_fd, connect_candidate,
  connect_new, connect_existing, use_candidate, test_socket, find_candidate, listen_candidate,
  connecting_candidate, is_listen_match, is_connect_match, is_script_packet_match_for_socket,
  syn_sent_socket, find_socket_for_script_packet, find_or_create_socket_for_script_packet,
}
use packetdrill_mptcp.RunPacket.Isn.{HasOneIsn, OnSome, Holds-matched, Holds-or_else}
use packetdrill_mptcp.RunPacket.Isn.Traffic.{AllHaveOneIsn}

-- What is found or made: the socket and the state.
abbrev pub FoundOneIsn : ℕ × State → Type 0
FoundOneIsn found = AllHaveOneIsn (found.1)

listen_lem :
    (ephemeral_port : ℕ) (state : State) (packet : Headers) (candidate : Option ℕ)
    → AllHaveOneIsn state
    → Holds FoundOneIsn (listen_child ephemeral_port state packet candidate)
unfolding listen_child AllHaveOneIsn HasOneIsn
listen_lem ephemeral_port state packet none h = tt
listen_lem ephemeral_port state packet (some p) h =
    Holds-after FoundOneIsn (socket_at state.sockets p)
      (λ listener. through packet.tcp λ tcp.
        ports_of_fd state.config listener.script.fd >>= add_child ephemeral_port state packet tcp)
      (λ listener e. go packet.tcp listener)
  where
    go :
        (tcp : Option Tcp) (listener : Socket)
        → Holds FoundOneIsn (
            through tcp λ tcp.
              ports_of_fd state.config listener.script.fd
              >>= add_child ephemeral_port state packet tcp)
    go none listener = tt
    go (some tcp) listener =
        Holds-after FoundOneIsn (ports_of_fd state.config listener.script.fd)
          (add_child ephemeral_port state packet tcp) (λ ports e. (refl, h))

connect_lem :
    (state : State) (packet : Headers) (candidate : Option ℕ)
    → AllHaveOneIsn state
    → Holds FoundOneIsn (connect_socket state packet candidate)
unfolding connect_socket AllHaveOneIsn HasOneIsn
connect_lem state packet candidate h = go packet.tcp candidate
  where
    go :
        (tcp : Option Tcp) (candidate : Option ℕ)
        → Holds FoundOneIsn (through tcp λ tcp. connect_candidate state packet tcp candidate)
    go none candidate = tt
    go (some tcp) none =
        Holds-after FoundOneIsn (ports_of_fd state.config packet.socket_script_fd)
          (connect_new state packet tcp) (λ ports e. (refl, h))
    go (some tcp) (some p) =
        Holds-after FoundOneIsn (socket_at state.sockets p) (connect_existing state packet tcp p)
          (λ socket e.
            All-store_socket HasOneIsn state.sockets p (syn_sent_socket packet tcp socket) h
              (All-socket_at HasOneIsn state.sockets p socket h e))

handle_listen_lem :
    (ephemeral_port : ℕ) (state : State) (packet : Headers)
    → AllHaveOneIsn state
    → Holds (OnSome FoundOneIsn) (handle_listen_for_script_packet ephemeral_port state packet)
unfolding handle_listen_for_script_packet
handle_listen_lem ephemeral_port state packet h =
    Holds-after (OnSome FoundOneIsn) (find_candidate state.sockets packet)
      (listen_candidate ephemeral_port state packet)
      (λ candidate e.
        Holds-after (OnSome FoundOneIsn) (is_listen_match state packet candidate)
          (λ is_match. matched is_match (listen_child ephemeral_port state packet candidate))
          (λ is_match f.
            Holds-matched FoundOneIsn is_match (listen_child ephemeral_port state packet candidate)
              (listen_lem ephemeral_port state packet candidate h)))

handle_connect_lem :
    (state : State) (packet : Headers)
    → AllHaveOneIsn state
    → Holds (OnSome FoundOneIsn) (handle_connect_for_script_packet state packet)
unfolding handle_connect_for_script_packet
handle_connect_lem state packet h =
    Holds-after (OnSome FoundOneIsn) (find_candidate state.sockets packet)
      (connecting_candidate state packet)
      (λ candidate e.
        Holds-after (OnSome FoundOneIsn) (is_connect_match state packet candidate)
          (λ is_match. matched is_match (connect_socket state packet candidate))
          (λ is_match f.
            Holds-matched FoundOneIsn is_match (connect_socket state packet candidate)
              (connect_lem state packet candidate h)))

candidate_lem :
    (state : State) (packet : Headers)
    → AllHaveOneIsn state
    → Holds FoundOneIsn (find_socket_for_script_packet state packet)
unfolding find_socket_for_script_packet AllHaveOneIsn
candidate_lem state packet h =
    Holds-after FoundOneIsn
      (if packet.is_icmp
        then ok (first_socket state.sockets)
        else find_candidate state.sockets packet)
      (use_candidate state packet) (λ candidate e. used candidate)
  where
    used : (candidate : Option ℕ) → Holds FoundOneIsn (use_candidate state packet candidate)
    used none = tt
    used (some p) =
        Holds-after FoundOneIsn
          (socket_at state.sockets p >>= is_script_packet_match_for_socket packet)
          (test_socket state p)
          (λ is_match e.
            Holds-if FoundOneIsn is_match (ok (p, record state { socket_under_test = some p }))
              status_err h tt)

pub find_or_create_lem :
    (ephemeral_port : ℕ) (state : State) (packet : Headers)
    → AllHaveOneIsn state
    → Holds FoundOneIsn (find_or_create_socket_for_script_packet ephemeral_port state packet)
unfolding find_or_create_socket_for_script_packet
find_or_create_lem ephemeral_port state packet h =
    Holds-if FoundOneIsn (is_some packet.tcp)
      (or_else (handle_listen_for_script_packet ephemeral_port state packet) (
        or_else (handle_connect_for_script_packet state packet)
          (find_socket_for_script_packet state packet)))
      (find_socket_for_script_packet state packet)
      (Holds-or_else FoundOneIsn (handle_listen_for_script_packet ephemeral_port state packet)
        (or_else (handle_connect_for_script_packet state packet)
          (find_socket_for_script_packet state packet))
        (handle_listen_lem ephemeral_port state packet h)
        (Holds-or_else FoundOneIsn (handle_connect_for_script_packet state packet)
          (find_socket_for_script_packet state packet) (handle_connect_lem state packet h)
          (candidate_lem state packet h)))
      (candidate_lem state packet h)
