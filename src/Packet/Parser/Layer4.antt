-- ===== src/Packet/Parser/Layer4.antt =====
-- gtests/net/packetdrill/packet_parser.c, the parsers of a layer 4 header. Each parser takes the packet, the index where its header
-- starts and the index one past the packet's last byte, and hands back the packet with the result.
-- Where the source prints a message, the result names the error. The debug output is left out.

use packetdrill_mptcp.Base.{
  ℕ, ◌+◌, Bool, true, false, not, ltb, if◌then◌else◌, Option, none, some, Outcome, ok, fault, ◌>>=◌,
}
use packetdrill_mptcp.Memory.{load_be16}
use packetdrill_mptcp.Packet.{
  Packet, HeaderType, header_ipv4, header_ipv6, header_tcp, header_udp, header_icmpv4,
  header_icmpv6, packet_append_header, packet_inner_header, tcp_header_len,
}

-- The messages of PACKET_BAD.
pub data ParseError : Type 0 where
  ethernet_overflows ip_overflows ipv4_overflows ipv6_overflows bad_ip_version : ParseError
  header_too_short full_header_overflows payload_overflows header_bigger : ParseError
  more_fragments fragment_offset bad_checksum too_many_headers : ParseError
  truncated offset_too_small offset_too_big length_below_header length_too_small : ParseError
  length_too_big bad_icmp_version gre_version gre_routing mpls_overflows : ParseError

-- enum packet_parse_result_t.
pub data ParseResult : Type 0 where
  packet_ok packet_unknown_l4 : ParseResult
  packet_bad : ParseError → ParseResult

-- A parser's answer; `none` is fuel that ran out.
abbrev pub Parsed : Type 0
Parsed = Option (Outcome (ParseResult × Packet))

abbrev pub bad : ParseError → Packet → Outcome (ParseResult × Packet)
bad e p = ok (packet_bad e, p)

-- The common end of the parsers of a layer 4 header: append it, and answer PACKET_OK. `p` is where
-- the header starts; the last assert is that its bytes lie in the packet.
unfoldable pub append_layer4 : Packet → HeaderType → ℕ → ℕ → ℕ → ℕ → Outcome (ParseResult × Packet)
append_layer4 packet header_type header_len start layer4_bytes packet_end =
    elim (packet_append_header packet header_type header_len layer4_bytes) [
      | none ↦ bad too_many_headers packet
      | some packet' ↦
          if ltb packet_end (start + layer4_bytes) then fault else ok (packet_ok, packet')
    ]

unfoldable pub parse_tcp : Packet → ℕ → ℕ → ℕ → Outcome (ParseResult × Packet)
unfolding append_layer4 tcp_header_len
parse_tcp packet start layer4_bytes packet_end =
    if ltb layer4_bytes 20
    then bad truncated packet
    else let p = record packet { tcp_ptr = some start } in
      tcp_header_len packet.buffer start >>= λ header_len.
      if ltb header_len 20
      then bad offset_too_small p
      else if ltb layer4_bytes header_len
      then bad offset_too_big p
      else append_layer4 p header_tcp header_len start layer4_bytes packet_end

unfoldable pub parse_udp : Packet → ℕ → ℕ → ℕ → Outcome (ParseResult × Packet)
unfolding append_layer4
parse_udp packet start layer4_bytes packet_end =
    if ltb layer4_bytes 8
    then bad truncated packet
    else let p = record packet { udp_ptr = some start } in
      load_be16 packet.buffer (start + 4) >>= λ udp_len.
      if ltb udp_len 8
      then bad length_below_header p
      else if ltb udp_len layer4_bytes
      then bad length_too_small p
      else if ltb layer4_bytes udp_len
      then bad length_too_big p
      else append_layer4 p header_udp 8 start layer4_bytes packet_end

abbrev pub is_ipv4 : HeaderType → Bool
is_ipv4 header_ipv4 = true
is_ipv4 _ = false

abbrev pub is_ipv6 : HeaderType → Bool
is_ipv6 header_ipv6 = true
is_ipv6 _ = false

-- sizeof(struct icmpv4) and sizeof(struct icmpv6) are 8.
unfoldable pub parse_icmpv4 : Packet → ℕ → ℕ → ℕ → Outcome (ParseResult × Packet)
unfolding append_layer4 packet_inner_header
parse_icmpv4 packet start layer4_bytes packet_end = packet_inner_header packet >>= λ inner.
    if not (is_ipv4 inner.type)
    then bad bad_icmp_version packet
    else if ltb layer4_bytes 8
    then bad truncated packet
    else append_layer4 (record packet { icmpv4_ptr = some start }) header_icmpv4 8 start
        layer4_bytes packet_end

unfoldable pub parse_icmpv6 : Packet → ℕ → ℕ → ℕ → Outcome (ParseResult × Packet)
unfolding append_layer4 packet_inner_header
parse_icmpv6 packet start layer4_bytes packet_end = packet_inner_header packet >>= λ inner.
    if not (is_ipv6 inner.type)
    then bad bad_icmp_version packet
    else if ltb layer4_bytes 8
    then bad truncated packet
    else append_layer4 (record packet { icmpv6_ptr = some start }) header_icmpv6 8 start
        layer4_bytes packet_end
