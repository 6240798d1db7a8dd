-- ===== src/RunPacket/Isn.antt =====
-- gtests/net/packetdrill/run_packet.c: packetdrill itself picks the sequence numbers of the remote
-- side, and so the script and the live connection have one initial number there.
pub mod Sniff
pub mod Traffic
pub mod Search
pub mod Event
use packetdrill_mptcp.Base.{
  ℕ, ◌≡◌, refl, sym, Bool, true, false, not, List, [], ◌∷◌, All, length, ◌==◌, ◌&&◌, ◌||◌,
  if◌then◌else◌, Option, none, some, Outcome, ok, status_err, fault, ◌>>=◌, Holds, Holds-bind,
  Holds-after, Holds-if, Holds-ok, Holds-all, inl, inr, Bool-cases,
}
use packetdrill_mptcp.Mptcp.Capable.{Direction, direction_inbound, direction_outbound}
use packetdrill_mptcp.Socket.{
  Tcp, Socket, SocketPhase, socket_at, store_socket, zero_socket, is_equal_ip, is_equal_port,
}
use packetdrill_mptcp.Socket.Store.{All-store_socket, All-socket_at}
use packetdrill_mptcp.RunPacket.{
  Headers, State, Config, through, next_ephemeral_port, find_socket_for_live_packet,
  get_packet_tuple, find_socket, socket_remote_port_equals_packet_dst_port,
}
use packetdrill_mptcp.RunPacket.Sockets.{
  child_socket, listen_child, matched, or_else, is_some, handle_listen_for_script_packet,
  handle_connect_for_script_packet, connect_socket, syn_sent_socket, wire_server_socket,
  find_socket_for_script_packet, find_or_create_socket_for_script_packet,
  find_connect_for_live_packet, connect_found, if_found, learn_local, is_udp_match, is_tcp_match,
  is_syn_sent,
}
use packetdrill_mptcp.RunPacket.Traffic.{
  sniff_outbound_live_packet, expected_socket, if_outbound, if_connecting, expect_synack,
  synack_sent, sent_synack, is_server_synack, sent_reset, save_outbound,
  take_outbound_script_packet, outbound_taken, outbound_sniffed, sniff_for, inbound_for,
  inbound_mapped, run_in_direction, synack_received, is_synack_sent, end_handshake,
  map_inbound_packet, save_injected, take_inbound_script_packet, run_packet_event,
}

unfoldable pub HasOneIsn : Socket → Type 0
HasOneIsn socket = socket.script.remote_isn ≡ socket.live.remote_isn

-- What holds of the answer, if it is not a null pointer.
abbrev pub OnSome {ℓ κ} : {A : Type ℓ} → (A → Type κ) → Option A → Type κ
OnSome P none = Unit
OnSome P (some a) = P a

module _ {A : Type 0} (P : A → Type 0) where
  pub Holds-matched :
      (is_match : Bool) (m : Outcome A) → Holds P m → Holds (OnSome P) (matched is_match m)
  Holds-matched false m h = tt
  Holds-matched true m h = Holds-bind P (OnSome P) m (λ a. ok (some a)) h (λ a k. k)

  pub Holds-or_else :
      (m : Outcome (Option A)) (rest : Outcome A)
      → Holds (OnSome P) m
      → Holds P rest
      → Holds P (or_else m rest)
  Holds-or_else fault rest h k = tt
  Holds-or_else status_err rest h k = tt
  Holds-or_else (ok none) rest h k = k
  Holds-or_else (ok (some a)) rest h k = h

-- The single changes of a socket.
pub expect_synack_lem :
    (tcp : Option Tcp) (socket : Socket) → HasOneIsn socket → HasOneIsn (expect_synack tcp socket)
unfolding HasOneIsn
expect_synack_lem none socket h = h
expect_synack_lem (some tcp) socket h = if_lem (is_server_synack (some tcp) socket)
  where
    if_lem :
        (b : Bool)
        → HasOneIsn (
            if b
            then record socket { script = record socket.script { local_isn = tcp.seq } }
            else socket)
    if_lem true = h
    if_lem false = h

pub sent_synack_lem :
    (tcp live : Option Tcp) (socket : Socket)
    → HasOneIsn socket
    → Holds HasOneIsn (sent_synack tcp live socket)
unfolding HasOneIsn
sent_synack_lem tcp live socket h = go (is_server_synack tcp socket) live
  where
    go :
        (b : Bool) (live : Option Tcp)
        → Holds HasOneIsn (if b then through live (λ l. ok (synack_sent l socket)) else ok socket)
    go true none = tt
    go true (some l) = h
    go false live = h

pub sent_reset_lem :
    (tcp : Tcp) (socket : Socket) → HasOneIsn socket → HasOneIsn (sent_reset tcp socket)
unfolding HasOneIsn
sent_reset_lem tcp socket h = elim (Bool-cases tcp.rst) [ inl e ↦ rw e h | inr e ↦ rw e h ]

pub save_outbound_lem :
    (tcp : Option Tcp) (socket : Socket) → HasOneIsn socket → HasOneIsn (save_outbound tcp socket)
unfolding HasOneIsn
save_outbound_lem none socket h = h
save_outbound_lem (some tcp) socket h = h

pub save_injected_lem :
    (tcp : Option Tcp) (n : ℕ) (socket : Socket)
    → HasOneIsn socket
    → HasOneIsn (save_injected tcp n socket)
unfolding HasOneIsn
save_injected_lem none n socket h = h
save_injected_lem (some tcp) n socket h = h

pub end_handshake_lem :
    (tcp : Option Tcp) (socket : Socket) → HasOneIsn socket → HasOneIsn (end_handshake tcp socket)
unfolding HasOneIsn
end_handshake_lem none socket h = h
end_handshake_lem (some tcp) socket h = elim (Bool-cases (is_synack_sent socket.state && tcp.ack)) [
  | inl e ↦ rw e h
  | inr e ↦ elim (Bool-cases (is_syn_sent socket.state && tcp.syn && tcp.ack)) [
    | inl f ↦ rw (e, f) refl
    | inr f ↦ rw (e, f) h
  ]
]

pub learn_local_lem :
    (packet : Headers) (socket : Socket) → HasOneIsn socket → HasOneIsn (learn_local packet socket)
unfolding HasOneIsn
learn_local_lem packet socket h = h

-- What holds of every socket that a routine answers with.
abbrev pub HaveOneIsn : ℕ × List Socket → Type 0
HaveOneIsn found = All HasOneIsn (found.1)
