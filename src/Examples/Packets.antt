-- ===== src/Examples/Packets.antt =====
-- Runs and instances of the theorems on the packet parser.
use packetdrill_mptcp.Base.{ℕ, ◌≡◌, refl, arith, List, [], ◌∷◌, some, ok, fault}
use packetdrill_mptcp.Memory.{load, load_be16, slice}
use packetdrill_mptcp.Checksum.{ipv4_checksum}
use packetdrill_mptcp.Packet.{Packet, packet_new, packet_append_header}
use packetdrill_mptcp.Packet.Parser.Layer4.{packet_ok, parse_tcp}
use packetdrill_mptcp.Packet.Parser.Layers.{parse_layer4}
use packetdrill_mptcp.Packet.Parser.Ip.{parse_packet, layer_3_ip}
use packetdrill_mptcp.Packet.Parser.Layout.{Good}
use packetdrill_mptcp.Packet.Parser.Total.{parse_packet-Good}
use packetdrill_mptcp.Packet.Parser.Tunnel.{parse_packet_empty_tunnel}

-- A SYN of 40 bytes, and a spare byte of the buffer.
abbrev pub syn_buffer : List ℕ
syn_buffer =
    0x45 ∷ 0 ∷ 0 ∷ 40 ∷ 0 ∷ 0 ∷ 0 ∷ 0 ∷ 255 ∷ 6 ∷ 0x39 ∷ 0x25 ∷ 192 ∷ 0 ∷ 2 ∷ 1 ∷ 192 ∷ 168 ∷ 0 ∷ 1
    ∷ 0 ∷ 80 ∷ 31 ∷ 144 ∷ 0 ∷ 0 ∷ 0 ∷ 1 ∷ 0 ∷ 0 ∷ 0 ∷ 0 ∷ 80 ∷ 2 ∷ 0 ∷ 0 ∷ 0 ∷ 0 ∷ 0 ∷ 0 ∷ 7 ∷ []

-- The places of the IPv4 and of the TCP header, and the length of the datagram.
syn_is_parsed :
    (p : Packet) × (parse_packet (packet_new syn_buffer) 40 layer_3_ip ≡ some (ok (packet_ok, p)))
    × (p.ipv4_ptr ≡ some 0)
    × (p.tcp_ptr ≡ some 20)
    × (p.ip_bytes ≡ 40)
unfolding parse_packet packet_new load load_be16 slice ipv4_checksum packet_append_header
    parse_layer4 parse_tcp
syn_is_parsed = (_, refl, refl, refl, refl)

parse_packet-Good_example : Good 40 (parse_packet (packet_new syn_buffer) 40 layer_3_ip)
parse_packet-Good_example = parse_packet-Good syn_buffer 40 layer_3_ip (omega arith)

-- An IPv4 header of 20 bytes that announces another.
abbrev outer_header : List ℕ
outer_header =
    0x45 ∷ 0 ∷ 0 ∷ 20 ∷ 0 ∷ 0 ∷ 0 ∷ 0 ∷ 255 ∷ 4 ∷ 0x39 ∷ 0x3b ∷ 192 ∷ 0 ∷ 2 ∷ 1 ∷ 192 ∷ 168 ∷ 0 ∷ 1
    ∷ []

parse_packet_empty_tunnel_example :
    parse_packet (packet_new outer_header) 20 layer_3_ip ≡ some fault
unfolding load load_be16 slice ipv4_checksum
parse_packet_empty_tunnel_example =
    parse_packet_empty_tunnel outer_header 0x45 0 outer_header refl refl (omega arith) refl refl
      refl refl refl refl refl refl
