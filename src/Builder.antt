-- ===== src/Builder.antt =====
-- gtests/net/packetdrill/ip_packet.c, tcp_packet.c and udp_packet.c: the packets that the parser of
-- scripts and the final reset make. The zeroed buffer, into which the headers and the options are
-- written, is the list of its parts. `status_err` is the null pointer with a message.
pub mod Fields
pub mod Made
use packetdrill_mptcp.Base.{
  ℕ, zero, suc, ◌+◌, ◌-◌, ◌*◌, ◌/◌, ◌%◌, ◌^◌, Bool, true, false, not, List, [], ◌∷◌, ◌++◌, length,
  replicate, ◌==◌, ◌!=◌, ◌&&◌, ◌||◌, ltb, if◌then◌else◌, Option, none, some, Outcome, ok,
  status_err, fault, ◌>>=◌,
}
use packetdrill_mptcp.Base.Int.{ℤ, pos, negsuc}
use packetdrill_mptcp.Packet.{
  Packet, HeaderType, header_ipv4, header_ipv6, header_tcp, header_udp, packet_new,
  packet_append_header,
}
use packetdrill_mptcp.Mptcp.Capable.{Direction, direction_inbound, direction_outbound, is_inbound}
use packetdrill_mptcp.RunPacket.Verify.{
  ScriptPacket, Ecn, ecn_none, ecn_ect0, ecn_ect1, ecn_ce, bit_value,
}

-- htons, whose argument is a u16, and htonl.
abbrev pub be16 : ℕ → List ℕ
be16 n = n / 256 % 256 ∷ n % 256 ∷ []

abbrev pub be32 : ℕ → List ℕ
be32 n = n / 2 ^ 24 % 256 ∷ n / 2 ^ 16 % 256 ∷ n / 2 ^ 8 % 256 ∷ n % 256 ∷ []

unfoldable pub ip_ecn_bits : Ecn → ℕ
ip_ecn_bits ecn_ect0 = 2
ip_ecn_bits ecn_ect1 = 1
ip_ecn_bits ecn_ce = 3
ip_ecn_bits ecn = 0

abbrev pub ipv4_header : ℕ → ℕ → ℕ → List ℕ
ipv4_header ip_bytes tos protocol =
    69
    ∷ tos
    ∷ ip_bytes / 256 % 256
    ∷ ip_bytes % 256
    ∷ 0
    ∷ 0
    ∷ 0
    ∷ 0
    ∷ 255
    ∷ protocol
    ∷ 0
    ∷ 0
    ∷ 0
    ∷ 0
    ∷ 0
    ∷ 0
    ∷ 0
    ∷ 0
    ∷ 0
    ∷ 0
    ∷ []

unfoldable pub set_ipv4_header : ℕ → Ecn → ℕ → List ℕ
set_ipv4_header ip_bytes ecn protocol = ipv4_header ip_bytes (ip_ecn_bits ecn) protocol

-- The low half of the traffic class is the high half of the second byte.
abbrev pub ipv6_header : ℕ → ℕ → ℕ → List ℕ
ipv6_header payload_len traffic_class_lo protocol =
    96
    ∷ traffic_class_lo * 16
    ∷ 0
    ∷ 0
    ∷ payload_len / 256 % 256
    ∷ payload_len % 256
    ∷ protocol
    ∷ 255
    ∷ 0
    ∷ 0
    ∷ 0
    ∷ 0
    ∷ 0
    ∷ 0
    ∷ 0
    ∷ 0
    ∷ 0
    ∷ 0
    ∷ 0
    ∷ 0
    ∷ 0
    ∷ 0
    ∷ 0
    ∷ 0
    ∷ 0
    ∷ 0
    ∷ 0
    ∷ 0
    ∷ 0
    ∷ 0
    ∷ 0
    ∷ 0
    ∷ 0
    ∷ 0
    ∷ 0
    ∷ 0
    ∷ 0
    ∷ 0
    ∷ 0
    ∷ 0
    ∷ []

unfoldable pub set_ipv6_header : ℕ → Ecn → ℕ → Outcome (List ℕ)
set_ipv6_header ip_bytes ecn protocol =
    if ltb ip_bytes 40 then fault else ok (ipv6_header (ip_bytes - 40) (ip_ecn_bits ecn) protocol)

-- AF_INET is 2 and AF_INET6 is 10.
unfoldable pub ip_header_min_len : ℕ → Outcome ℕ
ip_header_min_len address_family =
    if address_family == 2 then ok 20 else if address_family == 10 then ok 40 else fault

-- set_ip_header: its parameter for the length is a u16.
unfoldable pub set_ip_header : ℕ → ℕ → Ecn → ℕ → Outcome (List ℕ)
set_ip_header address_family ip_bytes ecn protocol =
    if address_family == 2
    then ok (set_ipv4_header (ip_bytes % 2 ^ 16) ecn protocol)
    else if address_family == 10
    then set_ipv6_header (ip_bytes % 2 ^ 16) ecn protocol
    else fault

abbrev pub ip_header_type : ℕ → HeaderType
ip_header_type address_family = if address_family == 2 then header_ipv4 else header_ipv6

-- A header that packet_append_header refuses is a null pointer, which the caller writes through.
abbrev pub appended : Option Packet → Outcome Packet
appended none = fault
appended (some packet) = ok packet

-- The metadata of a packet with an IP header and a layer 4 header at the start of its buffer. The
-- total length of the IP header is the u16 that set_packet_ip_header takes.
unfoldable pub with_headers : List ℕ → ℕ → HeaderType → ℕ → ℕ → ℕ → Outcome Packet
with_headers buffer address_family l4_type ip_header_bytes l4_header_bytes l4_bytes =
    appended (
      packet_append_header (packet_new buffer) (ip_header_type address_family) ip_header_bytes
        ((ip_header_bytes + l4_bytes) % 2 ^ 16))
    >>= λ outer. appended (packet_append_header outer l4_type l4_header_bytes l4_bytes) >>= λ inner.
        ok (record inner {
          ip_bytes = ip_header_bytes + l4_bytes;
          ipv4_ptr = if address_family == 2 then some 0 else none;
          ipv6_ptr = if address_family == 2 then none else some 0;
        })

-- strchr for a character that is not NUL.
unfoldable pub is_tcp_flag_set : ℕ → List ℕ → Bool
is_tcp_flag_set flag [] = false
is_tcp_flag_set flag (c ∷ rest) = (c == flag) || is_tcp_flag_set flag rest

-- "FSRPU.EWC".
abbrev pub valid_tcp_flags : List ℕ
valid_tcp_flags = b'F' ∷ b'S' ∷ b'R' ∷ b'P' ∷ b'U' ∷ b'.' ∷ b'E' ∷ b'W' ∷ b'C' ∷ []

unfoldable pub is_tcp_flags_spec_valid : List ℕ → Bool
is_tcp_flags_spec_valid [] = true
is_tcp_flags_spec_valid (s ∷ flags) =
    is_tcp_flag_set s valid_tcp_flags && is_tcp_flags_spec_valid flags

-- The flags of the header, in the order of their bits.
unfoldable pub flags_byte : List ℕ → ℕ
flags_byte flags =
    bit_value (is_tcp_flag_set b'F' flags)
    + 2 * bit_value (is_tcp_flag_set b'S' flags)
    + 4 * bit_value (is_tcp_flag_set b'R' flags)
    + 8 * bit_value (is_tcp_flag_set b'P' flags)
    + 16 * bit_value (is_tcp_flag_set b'.' flags)
    + 32 * bit_value (is_tcp_flag_set b'U' flags)
    + 64 * bit_value (is_tcp_flag_set b'E' flags)
    + 128 * bit_value (is_tcp_flag_set b'W' flags)

abbrev pub tcp_header : ℕ → List ℕ → ℕ → ℕ → ℕ → ℕ → List ℕ
tcp_header doff flags urg_ptr start_sequence ack_sequence window =
    0
    ∷ 0
    ∷ 0
    ∷ 0
    ∷ start_sequence / 2 ^ 24 % 256
    ∷ start_sequence / 2 ^ 16 % 256
    ∷ start_sequence / 2 ^ 8 % 256
    ∷ start_sequence % 256
    ∷ ack_sequence / 2 ^ 24 % 256
    ∷ ack_sequence / 2 ^ 16 % 256
    ∷ ack_sequence / 2 ^ 8 % 256
    ∷ ack_sequence % 256
    ∷ doff * 16
    ∷ flags_byte flags
    ∷ window / 256 % 256
    ∷ window % 256
    ∷ 0
    ∷ 0
    ∷ 0
    ∷ urg_ptr
    ∷ []

-- The parameters of new_tcp_packet; no options at all is the null pointer.
pub record TcpSpec : Type 0 where
  pub socket_fd : ℤ
  pub address_family : ℕ
  pub direction : Direction
  pub ecn : Ecn
  pub flags : List ℕ
  pub start_sequence : ℕ
  pub tcp_payload_bytes : ℕ
  pub ack_sequence : ℕ
  pub window : ℤ
  pub tcp_options : Option (List ℕ)

-- The packet as the script's, with its direction and the socket's file descriptor.
pub record NewPacket : Type 0 where
  pub script : ScriptPacket
  pub direction : Direction
  pub socket_script_fd : ℤ

-- The window to write, or that it is not to be checked; `status_err` without one for an inbound packet.
unfoldable pub window_field : Direction → ℤ → Outcome (ℕ × Bool)
window_field direction (pos window) = ok (window % 2 ^ 16, false)
window_field direction (negsuc zero) = if is_inbound direction then status_err else ok (0, true)
window_field direction (negsuc (suc k)) = ok (65535 - suc k % 2 ^ 16, false)

abbrev pub option_bytes : Option (List ℕ) → List ℕ
option_bytes none = []
option_bytes (some options) = options

abbrev pub is_missing : Option (List ℕ) → Bool
is_missing none = true
is_missing (some options) = false

-- The checks of the lengths and of the flags, in their order.
unfoldable pub check_spec : TcpSpec → ℕ → Outcome {0} Unit
check_spec spec ip_header_bytes =
    let options = length (option_bytes spec.tcp_options) in
    if options % 4 != 0
    then status_err
    else if ltb 60 (20 + options)
    then status_err
    else if ltb (64 * 1024) (ip_header_bytes + (20 + options) + spec.tcp_payload_bytes)
    then status_err
    else if is_tcp_flags_spec_valid spec.flags
    then ok tt
    else status_err

unfoldable pub new_tcp_packet : TcpSpec → Outcome NewPacket
new_tcp_packet spec = do
  ip_header_bytes ← ip_header_min_len spec.address_family
  _ ← check_spec spec ip_header_bytes
  let options = option_bytes spec.tcp_options
  let tcp_header_bytes = 20 + length options
  ip ←
      set_ip_header spec.address_family
        (ip_header_bytes + tcp_header_bytes + spec.tcp_payload_bytes) spec.ecn 6
  window ← window_field spec.direction spec.window
  let tcp =
      tcp_header (tcp_header_bytes / 4) spec.flags (bit_value (is_tcp_flag_set b'U' spec.flags))
        spec.start_sequence spec.ack_sequence window.0
  packet ←
      with_headers (ip ++ (tcp ++ (options ++ replicate spec.tcp_payload_bytes 0)))
        spec.address_family header_tcp ip_header_bytes tcp_header_bytes
        (tcp_header_bytes + spec.tcp_payload_bytes)
  ok record {
    script = record {
      packet = record packet { tcp_ptr = some ip_header_bytes };
      ecn = spec.ecn;
      options_nocheck = is_missing spec.tcp_options;
      win_nocheck = window.1;
    };
    direction = spec.direction;
    socket_script_fd = spec.socket_fd;
  }

-- The UDP header has no ports and no checksum yet; its length is written by htons.
unfoldable pub new_udp_packet : ℕ → ℕ → Outcome Packet
new_udp_packet address_family udp_payload_bytes = do
  ip_header_bytes ← ip_header_min_len address_family
  ip ←
      (if ltb (64 * 1024) (ip_header_bytes + 8 + udp_payload_bytes)
        then status_err
        else set_ip_header address_family (ip_header_bytes + 8 + udp_payload_bytes) ecn_none 17)
  let udp = 0 ∷ 0 ∷ 0 ∷ 0 ∷ (be16 (8 + udp_payload_bytes) ++ (0 ∷ 0 ∷ []))
  packet ←
      with_headers (ip ++ (udp ++ replicate udp_payload_bytes 0)) address_family header_udp
        ip_header_bytes 8 (8 + udp_payload_bytes)
  ok (record packet { udp_ptr = some ip_header_bytes })
