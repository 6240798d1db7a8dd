-- ===== src/Examples/Compared.antt =====
-- Runs and instances of the theorems on the options of a live packet and the verdict on it,
-- gtests/net/packetdrill/run_packet.c.
use packetdrill_mptcp.Base.{
  ℕ, ◌+◌, ◌≡◌, ◌↔◌, refl, arith, inr, true, false, List, [], ◌∷◌, ◌++◌, none, some, ok, All,
  Outcome, status_err,
}
use packetdrill_mptcp.Base.Int.{pos, negsuc, ◌-ℤ◌}
use packetdrill_mptcp.Memory.{load, load_be16, slice}
use packetdrill_mptcp.Packet.{Packet, tcp_header_len, header_ipv4, header_tcp}
use packetdrill_mptcp.Socket.{load_tcp, load_be32, equal_bytes}
use packetdrill_mptcp.Run
use packetdrill_mptcp.Run.{Event, verify_time, any_time, packet_event}
use packetdrill_mptcp.TcpOptions.Iterator.{tcp_options_begin}
use packetdrill_mptcp.TcpOptions.Iterator.Wire.{WireOption, bare, sized, At, At-right, flat}
use packetdrill_mptcp.RunPacket.Options.{same_tcp_options, compare_options}
use packetdrill_mptcp.RunPacket.Options.Mptcp.{same_mptcp_opt, same_mp_join}
use packetdrill_mptcp.RunPacket.Options.Same.{IsBlock, IsOrdinary, same_tcp_options-all_found}
use packetdrill_mptcp.RunPacket.Options.Verdict.{
  Actual, Tolerance, verdict_ok, verdict_warn, verify_outbound_live_packet, verify_actual,
  verify_outbound_live_tcp_options, verify_outbound_live_payload, packet_payload_len,
}
use packetdrill_mptcp.RunPacket.Options.Verdict.Result.{
  IsMapped, IsExpected, verify_outbound_live_packet-result,
}
use packetdrill_mptcp.RunPacket.Verify.{
  ScriptPacket, ecn_none, verify_outbound_live_checksums, verify_ipv4, load_ipv4,
  tcp_options_allowance, check_fields, verify_outbound_live_ecn, verify_tcp, verify_tcp_fields,
}
use packetdrill_mptcp.RunPacket.Verify.Layers.{
  verify_outbound_live_headers, verify_layers, verify_header,
}
use packetdrill_mptcp.Checksum.{ipv4_checksum, ip_checksum_fold}

abbrev header_of : ℕ → List ℕ
header_of offset =
    31 ∷ 144 ∷ 0 ∷ 80 ∷ 0 ∷ 0 ∷ 0 ∷ 1 ∷ 0 ∷ 0 ∷ 0 ∷ 7 ∷ offset ∷ 16 ∷ 1 ∷ 0 ∷ 0 ∷ 0 ∷ 0 ∷ 0 ∷ []

-- The kernel sends MSS and four NOPs; the script wants MSS, SACK permitted and two NOPs.
abbrev live_options : List (List ℕ)
live_options = (2 ∷ 4 ∷ 5 ∷ 180 ∷ []) ∷ (1 ∷ []) ∷ (1 ∷ []) ∷ (1 ∷ []) ∷ (1 ∷ []) ∷ []

abbrev script_options : List (List ℕ)
script_options = (2 ∷ 4 ∷ 5 ∷ 180 ∷ []) ∷ (4 ∷ 2 ∷ []) ∷ (1 ∷ []) ∷ (1 ∷ []) ∷ []

abbrev segment_of : List (List ℕ) → List ℕ
segment_of options = header_of 112 ++ flat options

abbrev nop : WireOption (1 ∷ [])
nop = bare 1 (inr refl)

abbrev mss : WireOption (2 ∷ 4 ∷ 5 ∷ 180 ∷ [])
mss = sized 2 4 (5 ∷ 180 ∷ []) refl refl

At-self : (mem : List ℕ) → At mem 0 mem
At-self mem i b e = let place : i ≡ 0 + i = omega arith in rw place at e

offset_of : (options : List (List ℕ)) → load (segment_of options) 12 ≡ ok 112
unfolding load
offset_of options = refl

live_options-IsBlock : IsBlock (segment_of live_options) 0 live_options
live_options-IsBlock = (
  (mss, (nop, (nop, (nop, (nop, tt))))),
  112,
  offset_of live_options,
  omega arith,
  refl,
  At-right (segment_of live_options) 0 (header_of 112) (flat live_options)
      (At-self (segment_of live_options)),
)

script_options-IsBlock : IsBlock (segment_of script_options) 0 script_options
script_options-IsBlock = (
  (mss, (sized 4 2 [] refl refl, (nop, (nop, tt)))),
  112,
  offset_of script_options,
  omega arith,
  refl,
  At-right (segment_of script_options) 0 (header_of 112) (flat script_options)
      (At-self (segment_of script_options)),
)

live_options-IsOrdinary : All IsOrdinary live_options
live_options-IsOrdinary = ground arith

-- The missing SACK permitted goes unnoticed.
same_tcp_options-all_found_example :
    same_tcp_options (segment_of live_options) 0 (segment_of script_options) 0 ≡ ok true
unfolding equal_bytes
same_tcp_options-all_found_example =
    same_tcp_options-all_found (segment_of live_options) 0 live_options (segment_of script_options)
      0 script_options live_options-IsBlock script_options-IsBlock live_options-IsOrdinary

-- The other way round it is an error.
other_way : same_tcp_options (segment_of script_options) 0 (segment_of live_options) 0 ≡ ok false
unfolding equal_bytes
other_way =
    same_tcp_options-all_found (segment_of script_options) 0 script_options
      (segment_of live_options) 0 live_options script_options-IsBlock live_options-IsBlock
      (ground arith)

-- The MP_JOIN option of an ACK is not the same as itself.
abbrev join_ack : List ℕ
join_ack =
    30 ∷ 24 ∷ 16 ∷ 0 ∷ 1 ∷ 2 ∷ 3 ∷ 4 ∷ 5 ∷ 6 ∷ 7 ∷ 8 ∷ 9 ∷ 10 ∷ 11 ∷ 12 ∷ 13 ∷ 14 ∷ 15 ∷ 16 ∷ 17
    ∷ 18 ∷ 19 ∷ 20 ∷ []

join_ack_differs : same_mptcp_opt join_ack 0 join_ack 0 false true ≡ ok false
unfolding same_mptcp_opt same_mp_join load
join_ack_differs = refl

-- An IPv4 packet with a right header checksum, the given window, and no payload.
abbrev packet_of : ℕ → Packet
packet_of window = record {
  buffer =
      69 ∷ 0 ∷ 0 ∷ 40 ∷ 0 ∷ 0 ∷ 0 ∷ 0 ∷ 64 ∷ 6 ∷ 248 ∷ 37 ∷ 192 ∷ 168 ∷ 0 ∷ 1 ∷ 192 ∷ 0 ∷ 2 ∷ 1 ∷ 31
      ∷ 144 ∷ 0 ∷ 80 ∷ 0 ∷ 0 ∷ 0 ∷ 1 ∷ 0 ∷ 0 ∷ 0 ∷ 7 ∷ 80 ∷ 16 ∷ window ∷ 0 ∷ 0 ∷ 0 ∷ 0 ∷ 0 ∷ [];
  l2_header_bytes = 0;
  ip_bytes = 40;
  headers =
      record { type = header_ipv4; header_bytes = 20; total_bytes = 40; ptr = 0 }
      ∷ record { type = header_tcp; header_bytes = 20; total_bytes = 20; ptr = 20 }
      ∷ [];
  ipv4_ptr = some 0;
  ipv6_ptr = none;
  tcp_ptr = some 20;
  udp_ptr = none;
  icmpv4_ptr = none;
  icmpv6_ptr = none;
}

abbrev script_packet : ScriptPacket
script_packet = record {
  packet = packet_of 1;
  ecn = ecn_none;
  options_nocheck = false;
  win_nocheck = false;
}

abbrev lenient : Tolerance
lenient = record { tolerance_usecs = 4000; tcp_ts_tick_usecs = 0; non_fatal_packet = true }

abbrev at_any_time : Run.State
at_any_time = record {
  tolerance_usecs = pos 4000;
  event_list = [];
  event =
      record {
        time_usecs = pos 0;
        time_usecs_end = negsuc 0;
        offset_usecs = negsuc 0;
        time_type = any_time;
        event_type = packet_event;
        end_usecs = negsuc 0;
      }
      ∷ [];
  last_event = none;
  script_start_time_usecs = pos 0;
  script_last_time_usecs = pos 0;
  live_start_time_usecs = pos 0;
}

-- A socket whose script and live values are the same.
abbrev unmapped : Packet → ScriptPacket → Outcome Actual
unmapped packet script = ok (record {
  packet = packet;
  stamps = record { actual_ts_val = none; script_ts_val = none };
  script_packet = script;
})

abbrev actual_of : ℕ → Actual
actual_of window = record {
  packet = packet_of window;
  stamps = record { actual_ts_val = none; script_ts_val = none };
  script_packet = script_packet;
}

verify_outbound_live_packet-result_example :
    ((verify_outbound_live_packet unmapped lenient at_any_time script_packet (packet_of 1) (pos 5)
        ≡ ok verdict_ok)
      ↔ ((actual : Actual) × IsMapped unmapped lenient at_any_time script_packet
            (packet_of 1)
            (pos 5)
            actual
          × IsExpected unmapped lenient at_any_time script_packet (packet_of 1) (pos 5) actual))
    × ((verify_outbound_live_packet unmapped lenient at_any_time script_packet (packet_of 1) (pos 5)
          ≡ ok verdict_warn)
        ↔ ((true ≡ true)
            × (actual : Actual) × IsMapped unmapped lenient at_any_time script_packet
                (packet_of 1)
                (pos 5)
                actual
            × (verify_actual lenient at_any_time (pos 5) actual ≡ status_err)))
verify_outbound_live_packet-result_example =
    verify_outbound_live_packet-result unmapped lenient at_any_time script_packet (packet_of 1)
      (pos 5)

-- The packet is as the script expects it; with another window, there is a warning.
packet_as_expected :
    verify_outbound_live_packet unmapped lenient at_any_time script_packet (packet_of 1) (pos 5)
    ≡ ok verdict_ok
unfolding verify_outbound_live_packet verify_actual verify_outbound_live_checksums load slice
    ipv4_checksum ip_checksum_fold verify_outbound_live_headers verify_layers verify_header
    verify_ipv4 load_ipv4 load_be16 tcp_options_allowance check_fields verify_outbound_live_ecn
    verify_tcp verify_tcp_fields load_tcp load_be32 verify_outbound_live_tcp_options
    verify_outbound_live_payload packet_payload_len tcp_header_len verify_time ◌-ℤ◌ same_tcp_options
    compare_options tcp_options_begin equal_bytes
packet_as_expected = refl

packet_with_another_window :
    verify_outbound_live_packet unmapped lenient at_any_time script_packet (packet_of 2) (pos 5)
    ≡ ok verdict_warn
unfolding verify_outbound_live_packet verify_actual verify_outbound_live_checksums load slice
    ipv4_checksum ip_checksum_fold verify_outbound_live_headers verify_layers verify_header
    verify_ipv4 load_ipv4 load_be16 tcp_options_allowance check_fields verify_outbound_live_ecn
    verify_tcp verify_tcp_fields load_tcp load_be32 verify_outbound_live_tcp_options
    verify_outbound_live_payload packet_payload_len tcp_header_len verify_time ◌-ℤ◌ same_tcp_options
    compare_options tcp_options_begin equal_bytes
packet_with_another_window = refl
