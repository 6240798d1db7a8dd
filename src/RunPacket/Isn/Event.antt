-- ===== src/RunPacket/Isn/Event.antt =====
-- gtests/net/packetdrill/run_packet.c: every event of a packet keeps one initial number of the
-- remote side.
use packetdrill_mptcp.Base.{ℕ, ◌≡◌, List, ok, Holds, Holds-bind, Holds-after, Holds-ok, ◌>>=◌}
use packetdrill_mptcp.Mptcp.Capable.{Direction, direction_inbound, direction_outbound}
use packetdrill_mptcp.RunPacket.{Headers, State}
use packetdrill_mptcp.RunPacket.Sockets.{find_or_create_socket_for_script_packet}
use packetdrill_mptcp.RunPacket.Traffic.{
  Answers, run_in_direction, take_inbound_script_packet, take_outbound_script_packet,
  run_packet_event,
}
use packetdrill_mptcp.RunPacket.Isn.Traffic.{AllHaveOneIsn, SentOneIsn, outbound_lem, inbound_lem}
use packetdrill_mptcp.RunPacket.Options.Verdict.{Verdict, verdict_ok}
use packetdrill_mptcp.RunPacket.Isn.Search.{FoundOneIsn, find_or_create_lem}

-- Whatever the status is.
abbrev RanOneIsn : Verdict × (Headers × (List Headers × State)) → Type 0
RanOneIsn ran = SentOneIsn (ran.1)

event_lem :
    (answers : Answers) (ephemeral_port payload_len : ℕ) (arrivals : List Headers) (state : State)
    (packet : Headers)
    → AllHaveOneIsn state
    → Holds RanOneIsn (run_packet_event answers ephemeral_port payload_len arrivals state packet)
unfolding run_packet_event
event_lem answers ephemeral_port payload_len arrivals state packet h =
    Holds-bind FoundOneIsn RanOneIsn
      (find_or_create_socket_for_script_packet ephemeral_port state packet)
      (run_in_direction answers payload_len arrivals packet packet.direction)
      (find_or_create_lem ephemeral_port state packet h)
      (λ (p, found) k. go packet.direction p found k)
  where
    go :
        (direction : Direction) (p : ℕ) (found : State)
        → AllHaveOneIsn found
        → Holds RanOneIsn
            (run_in_direction answers payload_len arrivals packet direction (p, found))
    go direction_outbound p found k =
        Holds-bind SentOneIsn RanOneIsn (take_outbound_script_packet arrivals found packet p)
          (λ taken. answers.verification >>= λ verdict. ok (verdict, taken))
          (outbound_lem arrivals found packet p k)
          (λ taken l.
            Holds-after RanOneIsn answers.verification (λ verdict. ok (verdict, taken))
              (λ verdict e. l))
    go direction_inbound p found k =
        Holds-bind (λ taken. AllHaveOneIsn (taken.1)) RanOneIsn
          (take_inbound_script_packet answers payload_len found packet p)
          (λ taken. answers.injection >>= λ _. ok (verdict_ok, (taken.0, (arrivals, taken.1))))
          (inbound_lem answers payload_len found packet p k)
          (λ taken l.
            Holds-after RanOneIsn answers.injection
              (λ _. ok (verdict_ok, (taken.0, (arrivals, taken.1)))) (λ _ e. l))

-- One packet of the script that is run up to its status, whichever that is.
pub data PacketStep : State → State → Type 0 where
  ran :
      (answers : Answers) (ephemeral_port payload_len : ℕ) (arrivals : List Headers)
      (packet live : Headers) (status : Verdict) (left : List Headers) (before after : State)
      → run_packet_event answers ephemeral_port payload_len arrivals before packet
        ≡ ok (status, (live, (left, after)))
      → PacketStep before after

pub data PacketSteps : State → State → Type 0 where
  no_packet : (state : State) → PacketSteps state state
  packet_first :
      (before between after : State)
      → PacketStep before between
      → PacketSteps between after
      → PacketSteps before after

-- Whatever packets of a script have been run up to their status, and whichever that is, if each socket started with one
-- initial sequence number of the remote side for the script and for the live connection, then each
-- socket that there is afterwards, new ones included, has one.
pub run_packet_event-AllHaveOneIsn :
    (before after : State) → PacketSteps before after → AllHaveOneIsn before → AllHaveOneIsn after
run_packet_event-AllHaveOneIsn before after (no_packet state) h = h
run_packet_event-AllHaveOneIsn before after
      (packet_first b between a
        (ran answers e n arrivals packet live status left b2 a2 ran_ok)
        steps)
      h =
    run_packet_event-AllHaveOneIsn between after steps (
      Holds-ok RanOneIsn (run_packet_event answers e n arrivals before packet)
        (status, (live, (left, between))) (event_lem answers e n arrivals before packet h) ran_ok)
