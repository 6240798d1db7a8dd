-- ===== src/RunPacket/Find.antt =====
-- gtests/net/packetdrill/run_packet.c: which socket a search finds, and the search of a wire server.
use packetdrill_mptcp.Base.{
  ℕ, ◌≡◌, ◌⊎◌, refl, ap, ◌∙◌, inl, inr, Bool, true, false, not, List, [], ◌∷◌, ◌++◌, All, length,
  if◌then◌else◌, none, some, ok, fault, Bool-cases,
}
use packetdrill_mptcp.Mptcp.Capable.{direction_inbound, is_inbound}
use packetdrill_mptcp.Socket.{Tcp, Socket}
use packetdrill_mptcp.RunPacket.{Headers, State, find_socket}
use packetdrill_mptcp.RunPacket.Sockets.{
  find_candidate, find_or_create_socket_for_script_packet, handle_listen_for_script_packet,
  handle_connect_for_script_packet, find_socket_for_script_packet, is_listen_match, listen_child,
  or_else, is_some,
}

-- The first socket for which the test holds, with what stands before and behind it.
unfoldable pub IsFirst : (Socket → Bool) → List Socket → ℕ → Type 0
IsFirst test sockets p =
    (before : List Socket) × (found : Socket) × (behind : List Socket) × (sockets
      ≡ (before ++ (found ∷ behind)))
    × All (λ socket. test socket ≡ false) before
    × (test found ≡ true)
    × (p ≡ length behind)

-- A search for a socket by a test that does not fail ends: it answers a null pointer, and the test
-- holds for no socket of the list, or it answers the pointer to the socket for which the test
-- holds and in front of which it holds for none.
pub find_socket-IsFirst :
    (test : Socket → Bool) (sockets : List Socket)
    → ((find_socket (λ socket. ok (test socket)) sockets ≡ ok none)
        × All (λ socket. test socket ≡ false) sockets)
      ⊎ ((p : ℕ) × (find_socket (λ socket. ok (test socket)) sockets ≡ ok (some p))
          × IsFirst test sockets p)
unfolding find_socket IsFirst
find_socket-IsFirst test [] = inl (refl, tt)
find_socket-IsFirst test (socket ∷ rest) = elim (Bool-cases (test socket)) [
  | inl e ↦ inr (length rest, rw e refl, ([], socket, rest, refl, tt, e, refl))
  | inr e ↦ elim (find_socket-IsFirst test rest) [
    | inl (h, k) ↦ inl (rw e h, (e, k))
    | inr (p, h, (before, found, behind, split, k, t, l)) ↦
        inr (p, rw e h, (socket ∷ before, found, behind, ap (λ l. socket ∷ l) split, (e, k), t, l))
  ]
]

wire_server_match :
    (state : State) (packet : Headers)
    → state.config.is_wire_server ≡ true
    → packet.direction ≡ direction_inbound
    → is_listen_match state packet none ≡ ok true
unfolding is_listen_match
wire_server_match state packet server inbound =
    ap
      (λ d.
        if not (is_inbound d)
        then ok false
        else if state.config.is_wire_server
        then ok true
        else ok false)
      inbound
    ∙ rw server refl

wire_server_listen :
    (ephemeral_port : ℕ) (state : State) (packet : Headers)
    → is_listen_match state packet none ≡ ok true
    → find_candidate state.sockets packet ≡ ok none
    → handle_listen_for_script_packet ephemeral_port state packet ≡ fault
unfolding handle_listen_for_script_packet listen_child
wire_server_listen ephemeral_port state packet is_match candidate = rw (candidate, is_match) refl

-- On a wire server, an inbound TCP packet of the script for which no socket is looked up makes the
-- program read through a null pointer.
pub find_or_create_wire_server :
    (ephemeral_port : ℕ) (state : State) (packet : Headers) (tcp : Tcp)
    → state.config.is_wire_server ≡ true
    → packet.direction ≡ direction_inbound
    → packet.tcp ≡ some tcp
    → find_candidate state.sockets packet ≡ ok none
    → find_or_create_socket_for_script_packet ephemeral_port state packet ≡ fault
unfolding find_or_create_socket_for_script_packet
find_or_create_wire_server ephemeral_port state packet tcp server inbound has_tcp candidate =
    ap
      (λ b.
        if b
        then or_else (handle_listen_for_script_packet ephemeral_port state packet) (
            or_else (handle_connect_for_script_packet state packet)
              (find_socket_for_script_packet state packet))
        else find_socket_for_script_packet state packet)
      (ap is_some has_tcp)
    ∙ rw
        (wire_server_listen ephemeral_port state packet
          (wire_server_match state packet server inbound) candidate)
        refl
