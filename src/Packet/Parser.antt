-- ===== src/Packet/Parser.antt =====
-- gtests/net/packetdrill/packet_parser.c: Layer4 has the parsers of the innermost headers, Layers
-- those of the headers that enclose others, and the rest what holds of them.
pub mod Layer4
pub mod Layers
pub mod LayersGood
pub mod IpGood
pub mod Total
pub mod Ip
pub mod Layout
pub mod Layer4Good
pub mod Tunnel
