-- ===== src/Packet/Parser/Tunnel.antt =====
-- An IPv4 header inside another: parse_layer4 hands it to parse_ipv4 without asking whether there
-- are bytes for it, and parse_ipv4 reads the header length first.
use packetdrill_mptcp.Base.{
  ℕ, ◌*◌, ◌/◌, ◌%◌, ◌≤◌, ◌≡◌, refl, arith, List, [], ◌∷◌, length, some, ok, fault,
}
use packetdrill_mptcp.Memory.{load, load_be16, slice}
use packetdrill_mptcp.Checksum.{ipv4_checksum}
use packetdrill_mptcp.Packet.{packet_new, packet_append_header}
use packetdrill_mptcp.Packet.Parser.Layers.{parse_layer4}
use packetdrill_mptcp.Packet.Parser.Ip.{
  layer_3_ip, parse_packet, parse_layer3_packet, layer3_by_version, nested_at, parse_ipv4,
  ipv4_checked, ipv4_inside,
}

load_past_end : (mem : List ℕ) → load mem (length mem) ≡ fault
unfolding load
load_past_end [] = refl
load_past_end (x ∷ xs) = load_past_end xs

-- A buffer that holds one IPv4 header and nothing behind it. The header is at least 20 bytes long, is
-- no fragment, has a right checksum, gives its own length as that of the datagram, and announces
-- another IPv4 header (IPPROTO_IPIP). parse_packet finds nothing wrong with it, and then reads past
-- the end of the buffer.
pub parse_packet_empty_tunnel :
    (buffer : List ℕ) (b frag_off : ℕ) (header : List ℕ)
    → load buffer 0 ≡ ok b
    → b / 16 ≡ 4
    → 20 ≤ b % 16 * 4
    → length buffer ≡ b % 16 * 4
    → load_be16 buffer 2 ≡ ok (b % 16 * 4)
    → load_be16 buffer 6 ≡ ok frag_off
    → frag_off / 8192 % 2 ≡ 0
    → frag_off % 8192 ≡ 0
    → load buffer 9 ≡ ok 4
    → slice buffer 0 (b % 16 * 4) ≡ ok header
    → ipv4_checksum header ≡ some 0
    → parse_packet (packet_new buffer) (length buffer) layer_3_ip ≡ some fault
unfolding parse_packet packet_new parse_layer3_packet layer3_by_version nested_at parse_ipv4
    ipv4_checked ipv4_inside packet_append_header parse_layer4
parse_packet_empty_tunnel buffer b frag_off header first version long whole total frag mf off ipip
      bytes check =
    ground (arith, load_past_end buffer)
