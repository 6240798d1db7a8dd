-- ===== src/RunPacket/Isn/Traffic.antt =====
-- gtests/net/packetdrill/run_packet.c: inbound and outbound packets keep one initial number of the
-- remote side.
use packetdrill_mptcp.Base.{
  ℕ, ◌≡◌, List, All, Option, none, some, ok, status_err, ◌>>=◌, Holds, Holds-bind, Holds-after,
  Holds-if,
}
use packetdrill_mptcp.Socket.{Tcp, Socket, socket_at, store_socket}
use packetdrill_mptcp.Socket.Store.{All-store_socket, All-socket_at}
use packetdrill_mptcp.RunPacket.{Headers, State, through}
use packetdrill_mptcp.RunPacket.Traffic.{
  sniff_outbound_live_packet, expect_synack, sent_synack, sent_reset, save_outbound,
  take_outbound_script_packet, outbound_taken, outbound_sniffed, sniff_for, inbound_for,
  inbound_mapped, end_handshake, Answers, map_inbound_packet, save_injected,
  take_inbound_script_packet,
}
use packetdrill_mptcp.RunPacket.Isn.{
  HasOneIsn, expect_synack_lem, sent_synack_lem, sent_reset_lem, save_outbound_lem,
  save_injected_lem, end_handshake_lem,
}
use packetdrill_mptcp.RunPacket.Isn.Sniff.{sniff_lem, SniffedOneIsn}

-- What holds of every socket of a state.
unfoldable pub AllHaveOneIsn : State → Type 0
AllHaveOneIsn state = All HasOneIsn state.sockets

abbrev pub SentOneIsn : Headers × (List Headers × State) → Type 0
SentOneIsn sent = AllHaveOneIsn (sent.1.1)

outbound_taken_lem :
    (state : State) (packet : Headers) (p : ℕ) (live : Headers) (arrivals : List Headers)
    (sockets : List Socket) (socket : Socket)
    → All HasOneIsn sockets
    → HasOneIsn socket
    → Holds SentOneIsn (outbound_taken state packet p live arrivals sockets socket)
unfolding AllHaveOneIsn
outbound_taken_lem state packet p live arrivals sockets socket h k = go packet.tcp
  where
    go :
        (tcp : Option Tcp)
        → Holds SentOneIsn (
            through tcp λ tcp. ok (
              live,
              (
                arrivals,
                record state {
                  sockets = store_socket sockets p (save_outbound live.tcp (sent_reset tcp socket));
                },
              ),
            ))
    go none = tt
    go (some tcp) =
        All-store_socket HasOneIsn sockets p (save_outbound live.tcp (sent_reset tcp socket)) h
          (save_outbound_lem live.tcp (sent_reset tcp socket) (sent_reset_lem tcp socket k))

pub outbound_lem :
    (arrivals : List Headers) (state : State) (packet : Headers) (p : ℕ)
    → AllHaveOneIsn state
    → Holds SentOneIsn (take_outbound_script_packet arrivals state packet p)
unfolding take_outbound_script_packet AllHaveOneIsn
outbound_lem arrivals state packet p h =
    Holds-if SentOneIsn packet.is_icmp status_err
      (socket_at state.sockets p >>= sniff_for arrivals state packet p) tt
      (Holds-after SentOneIsn (socket_at state.sockets p) (sniff_for arrivals state packet p)
        sniffed)
  where
    sent :
        (live : Headers) (arrivals : List Headers) (sockets : List Socket)
        → All HasOneIsn sockets
        → Holds SentOneIsn (outbound_sniffed state packet p (live, (arrivals, sockets)))
    sent live arrivals sockets k =
        Holds-bind HasOneIsn SentOneIsn (socket_at sockets p >>= sent_synack packet.tcp live.tcp)
          (outbound_taken state packet p live arrivals sockets)
          (Holds-after HasOneIsn (socket_at sockets p) (sent_synack packet.tcp live.tcp)
            (λ socket e.
              sent_synack_lem packet.tcp live.tcp socket
                (All-socket_at HasOneIsn sockets p socket k e)))
          (λ socket l. outbound_taken_lem state packet p live arrivals sockets socket k l)

    sniffed :
        (socket : Socket)
        → socket_at state.sockets p ≡ ok socket
        → Holds SentOneIsn (sniff_for arrivals state packet p socket)
    sniffed socket e =
        let changed : List Socket =
          store_socket state.sockets p (expect_synack packet.tcp socket) in
        Holds-bind SniffedOneIsn SentOneIsn (sniff_outbound_live_packet arrivals changed p)
          (outbound_sniffed state packet p)
          (sniff_lem arrivals changed p (
            All-store_socket HasOneIsn state.sockets p (expect_synack packet.tcp socket) h (
              expect_synack_lem packet.tcp socket
                (All-socket_at HasOneIsn state.sockets p socket h e))))
          (λ (live, (arrivals, sockets)) k. sent live arrivals sockets k)

pub inbound_lem :
    (answers : Answers) (payload_len : ℕ) (state : State) (packet : Headers) (p : ℕ)
    → AllHaveOneIsn state
    → Holds
        (λ taken. AllHaveOneIsn (taken.1))
        (take_inbound_script_packet answers payload_len state packet p)
unfolding take_inbound_script_packet AllHaveOneIsn
inbound_lem answers payload_len state packet p h =
    Holds-after (λ taken. AllHaveOneIsn (taken.1)) (socket_at state.sockets p)
      (inbound_for answers payload_len state packet p)
      (λ socket e.
        Holds-after (λ taken. AllHaveOneIsn (taken.1))
          (map_inbound_packet answers (end_handshake packet.tcp socket) packet)
          (inbound_mapped payload_len state p (end_handshake packet.tcp socket))
          (λ live f.
            All-store_socket HasOneIsn state.sockets p
              (save_injected live.tcp payload_len (end_handshake packet.tcp socket)) h
              (save_injected_lem live.tcp payload_len (end_handshake packet.tcp socket) (
                end_handshake_lem packet.tcp socket
                  (All-socket_at HasOneIsn state.sockets p socket h e)))))
