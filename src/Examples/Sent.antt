-- ===== src/Examples/Sent.antt =====
-- A packet whose checksums are filled in.
use packetdrill_mptcp.Base.{ℕ, ◌≡◌, refl, List, [], ◌∷◌, ◌++◌, some, none, ok, arith}
use packetdrill_mptcp.Packet.{Packet}
use packetdrill_mptcp.Checksum.{ipv4_checksum, tcp_udp_v4_checksum}
use packetdrill_mptcp.Checksum.Verify.{field}
use packetdrill_mptcp.PacketChecksum.{checksum_packet, fill_check}
use packetdrill_mptcp.PacketChecksum.Fill.{around, fill_check-ipv4_checksum}
use packetdrill_mptcp.RunPacket.Verify.{verify_outbound_live_checksums}
use packetdrill_mptcp.PacketChecksum.Ipv4.{checksum_packet-verifies}
use packetdrill_mptcp.Memory.{slice}

abbrev source : List ℕ
source = 192 ∷ 0 ∷ 2 ∷ 1 ∷ []

abbrev destination : List ℕ
destination = 192 ∷ 168 ∷ 0 ∷ 1 ∷ []

abbrev tcp_front : List ℕ
tcp_front = 31 ∷ 144 ∷ 0 ∷ 9 ∷ 0 ∷ 0 ∷ 0 ∷ 1 ∷ 0 ∷ 0 ∷ 0 ∷ 7 ∷ 80 ∷ 16 ∷ 1 ∷ 0 ∷ []

abbrev ip_front : List ℕ
ip_front = 69 ∷ 0 ∷ 0 ∷ 40 ∷ 0 ∷ 0 ∷ 0 ∷ 0 ∷ 64 ∷ 6 ∷ []

-- With one byte in front and one behind.
abbrev bytes : ℕ → ℕ → List ℕ
bytes c d =
    (255 ∷ [])
    ++ ((ip_front ++ (field c ++ (source ++ (destination ++ []))))
        ++ ((tcp_front ++ (field d ++ (0 ∷ 0 ∷ []))) ++ (255 ∷ [])))

abbrev unsent : ℕ → ℕ → Packet
unsent c d = record {
  buffer = bytes c d;
  l2_header_bytes = 0;
  ip_bytes = 40;
  headers = [];
  ipv4_ptr = some 1;
  ipv6_ptr = none;
  tcp_ptr = some 21;
  udp_ptr = none;
  icmpv4_ptr = none;
  icmpv6_ptr = none;
}

checksum_packet-verifies_example :
    (c : ℕ) × (d : ℕ) × (checksum_packet (unsent 17 4) ≡ ok (unsent c d))
    × (ipv4_checksum (ip_front ++ (field c ++ (source ++ (destination ++ [])))) ≡ some 0)
    × (tcp_udp_v4_checksum source destination 6 (tcp_front ++ (field d ++ (0 ∷ 0 ∷ []))) ≡ some 0)
    × (verify_outbound_live_checksums (unsent c d) ≡ ok tt)
checksum_packet-verifies_example =
    checksum_packet-verifies (255 ∷ []) (255 ∷ []) 69 0 0 40 0 0 0 0 64 6 source destination []
      tcp_front (0 ∷ 0 ∷ []) (unsent 17 4) 17 4 refl refl refl refl refl (omega arith) (omega arith)
      (omega arith) (omega arith) tt (omega arith) (omega arith)

fill_check-ipv4_checksum_example :
    (check : ℕ) × (fill_check ipv4_checksum
        (around (1 ∷ []) (8 ∷ 0 ∷ []) (5 ∷ []) (2 ∷ []) 99)
        1
        2
        5
      ≡ ok (around (1 ∷ []) (8 ∷ 0 ∷ []) (5 ∷ []) (2 ∷ []) check))
    × (slice (around (1 ∷ []) (8 ∷ 0 ∷ []) (5 ∷ []) (2 ∷ []) check) 1 5
        ≡ ok ((8 ∷ 0 ∷ []) ++ (field check ++ (5 ∷ []))))
    × (ipv4_checksum ((8 ∷ 0 ∷ []) ++ (field check ++ (5 ∷ []))) ≡ some 0)
fill_check-ipv4_checksum_example =
    fill_check-ipv4_checksum (1 ∷ []) (8 ∷ 0 ∷ []) (5 ∷ []) (2 ∷ []) 99 5 1 refl (omega arith) refl
      (omega arith) (omega arith)
