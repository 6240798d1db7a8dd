-- ===== src/RunPacket/PassiveOpen.antt =====
-- gtests/net/packetdrill/run_packet.c: the handshake of a connection to a listening socket as a
-- whole, with the numbers that are injected into the kernel and compared with the script.
use packetdrill_mptcp.Base.{ℕ, List, Outcome, ok, status_err, ◌>>=◌}
use packetdrill_mptcp.Socket.{Tcp, Socket}
use packetdrill_mptcp.RunPacket.{Headers, State, Ports}
use packetdrill_mptcp.RunPacket.Traffic.{Answers, run_packet_event}
use packetdrill_mptcp.RunPacket.Options.Verdict.{Verdict, verdict_ok, verdict_err, verdict_warn}
use packetdrill_mptcp.RunPacket.Opening.{synack_seen}
use packetdrill_mptcp.RunPacket.Passive.{child, saved, acked}

-- run_local_packet_event stops the program at STATUS_ERR, and at a warning only prints it.
abbrev pub after_packet_event :
    {A : Type 0}
    → (Headers × (List Headers × State) → Outcome A)
    → Verdict × (Headers × (List Headers × State))
    → Outcome A
after_packet_event next (verdict_err, ran) = status_err
after_packet_event next (verdict_ok, ran) = next ran
after_packet_event next (verdict_warn, ran) = next ran

-- Three events in a row: what is injected for the SYN and for the ACK, and the last state.
-- arrivals are the live packets that the kernel sends.
unfoldable pub run_handshake :
    Answers
    → Answers
    → Answers
    → ℕ
    → ℕ
    → List Headers
    → State
    → Headers
    → Headers
    → Headers
    → Outcome ((Headers × Headers) × State)
run_handshake on_syn on_synack on_ack ephemeral_port payload_len arrivals state syn synack ack =
    run_packet_event on_syn ephemeral_port payload_len arrivals state syn
    >>= after_packet_event λ opened.
      run_packet_event on_synack ephemeral_port payload_len (opened.1.0) (opened.1.1) synack
      >>= after_packet_event λ answered.
        run_packet_event on_ack ephemeral_port payload_len (answered.1.0) (answered.1.1) ack
        >>= after_packet_event λ ended. ok ((opened.0, ended.0), ended.1.1)

-- The socket at the end.
abbrev pub opened_socket : State → Headers → ℕ → ℕ → Ports → Tcp → Tcp → Tcp → Tcp → Socket
opened_socket state syn ephemeral_port payload_len ports syn_tcp synack_tcp live_tcp ack_tcp =
    saved payload_len ack_tcp (
      acked (
        synack_seen synack_tcp live_tcp
          (saved payload_len syn_tcp (child state syn syn_tcp ports ephemeral_port))))
