-- ===== src/Examples/Verifications.antt =====
-- A live packet that is compared with the script's.
use packetdrill_mptcp.Base.{
  ℕ, ◌≡◌, ◌↔◌, refl, true, false, List, [], ◌∷◌, ◌++◌, get_elem?, none, some, ok,
}
use packetdrill_mptcp.Memory.{load, load_be16}
use packetdrill_mptcp.Packet.{Packet, Header, header_ipv4, header_tcp}
use packetdrill_mptcp.Socket.{Tcp, zero_tcp, load_tcp, load_be32}
use packetdrill_mptcp.RunPacket.Verify.{
  ScriptPacket, ecn_none, check_fields, verify_outbound_live_ecn, verify_ipv4, load_ipv4,
  verify_tcp, verify_tcp_fields, tcp_options_allowance,
}
use packetdrill_mptcp.RunPacket.Verify.Fields.{IsScriptTcp, verify_tcp_fields-IsScriptTcp}
use packetdrill_mptcp.RunPacket.Verify.Layers.{
  verify_header, verify_layers, verify_outbound_live_headers, verify_outbound_live_headers-tcp,
}

-- An IPv4 header, and a TCP header with a given destination port and checksum.
abbrev ipv4_bytes : List ℕ
ipv4_bytes =
    69 ∷ 0 ∷ 0 ∷ 40 ∷ 0 ∷ 0 ∷ 0 ∷ 0 ∷ 64 ∷ 6 ∷ 0 ∷ 0 ∷ 192 ∷ 168 ∷ 0 ∷ 1 ∷ 192 ∷ 0 ∷ 2 ∷ 1 ∷ []

abbrev tcp_bytes : ℕ → ℕ → List ℕ
tcp_bytes port check =
    31 ∷ 144 ∷ 0 ∷ port ∷ 0 ∷ 0 ∷ 0 ∷ 1 ∷ 0 ∷ 0 ∷ 0 ∷ 7 ∷ 80 ∷ 16 ∷ 1 ∷ 0 ∷ 0 ∷ check ∷ 0 ∷ 0 ∷ []

abbrev tcp_layer : Header
tcp_layer = record { type = header_tcp; header_bytes = 20; total_bytes = 20; ptr = 20 }

abbrev with_layers : List ℕ → Packet
with_layers bytes = record {
  buffer = bytes;
  l2_header_bytes = 0;
  ip_bytes = 40;
  headers =
      record { type = header_ipv4; header_bytes = 20; total_bytes = 40; ptr = 0 } ∷ tcp_layer ∷ [];
  ipv4_ptr = some 0;
  ipv6_ptr = none;
  tcp_ptr = some 20;
  udp_ptr = none;
  icmpv4_ptr = none;
  icmpv6_ptr = none;
}

abbrev expected : ScriptPacket
expected = record {
  packet = with_layers (ipv4_bytes ++ tcp_bytes 5 0);
  ecn = ecn_none;
  options_nocheck = false;
  win_nocheck = false;
}

abbrev seen : Packet
seen = with_layers (ipv4_bytes ++ tcp_bytes 9 77)

verify_outbound_live_headers-tcp_example :
    (actual_header : Header) × (actual : Tcp) × (script : Tcp) × (allowance : ℕ) × (get_elem?
        seen.headers 1
      ≡ some actual_header)
    × (actual_header.type ≡ header_tcp)
    × (load_tcp seen.buffer actual_header.ptr ≡ ok actual)
    × (load_tcp expected.packet.buffer tcp_layer.ptr ≡ ok script)
    × (tcp_options_allowance seen expected ≡ ok allowance)
    × IsScriptTcp false allowance actual script
unfolding verify_outbound_live_headers verify_layers verify_header verify_ipv4 load_ipv4 verify_tcp
    verify_tcp_fields check_fields verify_outbound_live_ecn tcp_options_allowance load_tcp load_be32
    load_be16 load
verify_outbound_live_headers-tcp_example =
    verify_outbound_live_headers-tcp seen expected 1 tcp_layer refl refl refl

verify_tcp_fields-IsScriptTcp_example :
    (verify_tcp_fields true 12 zero_tcp zero_tcp ≡ ok tt) ↔ IsScriptTcp true 12 zero_tcp zero_tcp
verify_tcp_fields-IsScriptTcp_example = verify_tcp_fields-IsScriptTcp true 12 zero_tcp zero_tcp
