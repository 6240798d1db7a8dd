-- ===== src/Builder/Made.antt =====
-- gtests/net/packetdrill/tcp_packet.c and ip_packet.c: what the readers of packets find in a packet
-- that new_tcp_packet has made.
use packetdrill_mptcp.Base.{
  ℕ, ◌+◌, ◌-◌, ◌/◌, ◌%◌, ◌^◌, ◌≤◌, ◌<◌, ◌≡◌, Bool, true, List, [], ◌∷◌, ◌++◌, length, replicate,
  ◌==◌, if◌then◌else◌, none, some, ok,
}
use packetdrill_mptcp.Memory.{slice}
use packetdrill_mptcp.Packet.{Packet, HeaderType, header_tcp}
use packetdrill_mptcp.Socket.{load_tcp}
use packetdrill_mptcp.RunPacket.Verify.{Ecn, load_ipv4, load_ipv6, bit_value}
use packetdrill_mptcp.Builder.Fields.{requested}
use packetdrill_mptcp.Builder.{
  ip_ecn_bits, ip_header_type, is_tcp_flag_set, is_tcp_flags_spec_valid, tcp_header, TcpSpec,
  NewPacket, window_field, option_bytes, is_missing,
}

-- The metadata of a packet of an IP header of `a` bytes and a layer 4 header of `b` bytes.
abbrev pub packet_of : List ℕ → ℕ → HeaderType → ℕ → ℕ → ℕ → Packet
packet_of buffer family l4_type a b c = record {
  buffer = buffer;
  l2_header_bytes = 0;
  ip_bytes = a + c;
  headers =
      record {
        type = ip_header_type family;
        header_bytes = a;
        total_bytes = (a + c) % 2 ^ 16;
        ptr = 0;
      }
      ∷ record { type = l4_type; header_bytes = b; total_bytes = c; ptr = a }
      ∷ [];
  ipv4_ptr = if family == 2 then some 0 else none;
  ipv6_ptr = if family == 2 then none else some 0;
  tcp_ptr = none;
  udp_ptr = none;
  icmpv4_ptr = none;
  icmpv6_ptr = none;
}

-- What new_tcp_packet asks of its arguments, and the window that it writes.
abbrev pub IsBuildable : TcpSpec → ℕ → ℕ → Bool → Type 0
IsBuildable spec ip_header_bytes window win_nocheck =
    (length (option_bytes spec.tcp_options) % 4 ≡ 0)
    × (length (option_bytes spec.tcp_options) ≤ 40)
    × (ip_header_bytes + 20 + length (option_bytes spec.tcp_options) + spec.tcp_payload_bytes
        < 65536)
    × (is_tcp_flags_spec_valid spec.flags ≡ true)
    × (window_field spec.direction spec.window ≡ ok (window, win_nocheck))
    × (spec.start_sequence < 2 ^ 32)
    × (spec.ack_sequence < 2 ^ 32)

-- An address family with the length of its header.
pub data Family : ℕ → ℕ → Type 0 where
  inet : Family 2 20
  inet6 : Family 10 40

-- The fields of the IP header of a TCP packet of `total` bytes.
abbrev pub HasIpHeader :
    {family ip_header_bytes : ℕ} → Family family ip_header_bytes → List ℕ → Ecn → ℕ → Type 0
HasIpHeader inet mem ecn total =
    load_ipv4 mem 0
    ≡ ok
        (record { version = 4; ihl = 5; ecn_bits = ip_ecn_bits ecn; tot_len = total; protocol = 6 })
HasIpHeader inet6 mem ecn total =
    load_ipv6 mem 0
    ≡ ok (record {
      version = 6;
      ecn_bits = ip_ecn_bits ecn;
      payload_len = total - 40;
      next_header = 6;
    })

module _ (spec : TcpSpec) where
  abbrev pub options : List ℕ
  options = option_bytes spec.tcp_options

  abbrev pub tcp_bytes : ℕ
  tcp_bytes = 20 + length options + spec.tcp_payload_bytes

  abbrev pub datagram_bytes : ℕ → ℕ
  datagram_bytes ip_header_bytes = ip_header_bytes + (20 + length options) + spec.tcp_payload_bytes

  abbrev pub segment : ℕ → List ℕ
  segment window =
      tcp_header ((20 + length options) / 4) spec.flags
        (bit_value (is_tcp_flag_set b'U' spec.flags)) spec.start_sequence spec.ack_sequence window
      ++ (options ++ replicate spec.tcp_payload_bytes 0)

module _ (spec : TcpSpec) (family : ℕ) (ip_header_bytes window : ℕ) (win_nocheck : Bool) where
  abbrev pub made : List ℕ → NewPacket
  made ip = record {
    script = record {
      packet =
          record (packet_of (ip ++ (segment spec window)) family header_tcp ip_header_bytes
            (20 + length (options spec)) (tcp_bytes spec)) { tcp_ptr = some ip_header_bytes };
      ecn = spec.ecn;
      options_nocheck = is_missing spec.tcp_options;
      win_nocheck = win_nocheck;
    };
    direction = spec.direction;
    socket_script_fd = spec.socket_fd;
  }

module _ (spec : TcpSpec) (window : ℕ) (win_nocheck : Bool) where
  abbrev pub IsRead : {family ip_header_bytes : ℕ} → Family family ip_header_bytes → List ℕ → Type 0
  IsRead {family} {ip_header_bytes} f mem =
      (length mem ≡ datagram_bytes spec ip_header_bytes)
      × HasIpHeader f mem spec.ecn (datagram_bytes spec ip_header_bytes)
      × (load_tcp mem ip_header_bytes ≡ ok (requested spec window))
      × (slice mem (ip_header_bytes + 20) (length (options spec)) ≡ ok (options spec))
