-- ===== src/Examples/Built.antt =====
-- A packet of a script, gtests/net/packetdrill/tcp_packet.c and udp_packet.c.
use packetdrill_mptcp.Base.{◌≡◌, refl, [], ◌∷◌, some, status_err, fault}
use packetdrill_mptcp.Base.Int.{pos, negsuc}
use packetdrill_mptcp.Mptcp.Capable.{direction_inbound}
use packetdrill_mptcp.RunPacket.Verify.{ecn_ect0}
use packetdrill_mptcp.Builder.{
  TcpSpec, new_tcp_packet, new_udp_packet, check_spec, ip_header_min_len, set_ip_header,
  set_ipv6_header, ip_ecn_bits, window_field, is_tcp_flags_spec_valid, is_tcp_flag_set,
}

-- A SYN with an MSS option and two bytes of payload.
abbrev syn_spec : TcpSpec
syn_spec = record {
  socket_fd = pos 3;
  address_family = 10;
  direction = direction_inbound;
  ecn = ecn_ect0;
  flags = b'S' ∷ [];
  start_sequence = 1000;
  tcp_payload_bytes = 2;
  ack_sequence = 0;
  window = pos 32792;
  tcp_options = some (2 ∷ 4 ∷ 5 ∷ 180 ∷ []);
}

-- An inbound packet must have a window.
no_window : new_tcp_packet (record syn_spec { window = negsuc 0 }) ≡ status_err
unfolding new_tcp_packet check_spec ip_header_min_len set_ip_header set_ipv6_header ip_ecn_bits
    window_field is_tcp_flags_spec_valid is_tcp_flag_set
no_window = refl

-- The length of an IPv6 datagram of 65536 bytes is 0 in 16 bits, which fails an assert.
too_long : new_tcp_packet (record syn_spec { tcp_payload_bytes = 65472 }) ≡ fault
unfolding new_tcp_packet check_spec ip_header_min_len set_ip_header set_ipv6_header ip_ecn_bits
    window_field is_tcp_flags_spec_valid is_tcp_flag_set
too_long = refl

udp_of_length : new_udp_packet 7 2 ≡ fault
unfolding new_udp_packet ip_header_min_len
udp_of_length = refl
