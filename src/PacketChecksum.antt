-- ===== src/PacketChecksum.antt =====
-- gtests/net/packetdrill/packet_checksum.c: the checksums of a packet are filled in before it is sent.
-- A failed assert is a fault, and so is a checksum whose loops run out of fuel, which they do not.
pub mod Fill
pub mod Ipv4
use packetdrill_mptcp.Base.{
  ℕ, zero, suc, ◌+◌, ◌-◌, ◌*◌, ◌/◌, ◌%◌, List, [], ◌∷◌, ◌++◌, length, take, drop, ltb, leb,
  if◌then◌else◌, Option, none, some, Outcome, ok, fault, ◌>>=◌,
}
use packetdrill_mptcp.Memory.{load, load_be16, slice}
use packetdrill_mptcp.Packet.{Packet}
use packetdrill_mptcp.Checksum.{ipv4_checksum, tcp_udp_v4_checksum, tcp_udp_v6_checksum}
use packetdrill_mptcp.Checksum.Verify.{field}

-- A checksum field at `p` is assigned.
unfoldable pub store_check : List ℕ → ℕ → ℕ → Outcome (List ℕ)
store_check mem p check =
    if ltb (length mem) (p + 2) then fault else ok (take p mem ++ (field check ++ drop (p + 2) mem))

abbrev pub computed : Option ℕ → Outcome ℕ
computed none = fault
computed (some check) = ok check

-- The two assignments to a checksum field, `offset` bytes behind `start`: first 0, then the checksum
-- of the `len` bytes from `start` on.
unfoldable pub fill_check : (List ℕ → Option ℕ) → List ℕ → ℕ → ℕ → ℕ → Outcome (List ℕ)
fill_check checksum mem start offset len = store_check mem (start + offset) 0 >>= λ zeroed.
    slice zeroed start len >>= λ bytes.
    computed (checksum bytes) >>= λ check. store_check zeroed (start + offset) check

-- The layer 4 header, with the checksum of its kind: that of TCP stands at 16, of UDP at 6, of ICMP
-- at 2.
abbrev pub fill_layer4 :
    Packet
    → Option ℕ
    → (ℕ → List ℕ → Option ℕ)
    → (List ℕ → Option ℕ)
    → List ℕ
    → ℕ
    → Outcome (List ℕ)
fill_layer4 packet icmp_ptr checksum icmp_checksum mem l4_bytes = elim packet.tcp_ptr [
  | some tcp ↦ fill_check (checksum 6) mem tcp 16 l4_bytes
  | none ↦ elim packet.udp_ptr [
    | some udp ↦ fill_check (checksum 17) mem udp 6 l4_bytes
    | none ↦ elim icmp_ptr [
      | some icmp ↦ fill_check icmp_checksum mem icmp 2 l4_bytes
      | none ↦ fault
    ]
  ]
]

unfoldable pub checksum_ipv4_packet : Packet → ℕ → Outcome Packet
checksum_ipv4_packet packet ipv4 = do
  first ← load packet.buffer ipv4
  mem ← fill_check ipv4_checksum packet.buffer ipv4 10 (first % 16 * 4)
  tot_len ← load_be16 mem (ipv4 + 2)
  src_ip ← slice mem (ipv4 + 12) 4
  dst_ip ← slice mem (ipv4 + 16) 4
  filled ←
      (if ltb packet.ip_bytes tot_len
        then fault
        else if leb tot_len (first % 16 * 4)
        then fault
        else fill_layer4 packet packet.icmpv4_ptr (tcp_udp_v4_checksum src_ip dst_ip) ipv4_checksum
            mem (tot_len - first % 16 * 4))
  ok (record packet { buffer = filled })

-- IPPROTO_ICMPV6 is 58.
unfoldable pub checksum_ipv6_packet : Packet → ℕ → Outcome Packet
checksum_ipv6_packet packet ipv6 = do
  payload_len ← load_be16 packet.buffer (ipv6 + 4)
  src_ip ← slice packet.buffer (ipv6 + 8) 16
  dst_ip ← slice packet.buffer (ipv6 + 24) 16
  filled ←
      (if ltb packet.ip_bytes (40 + payload_len)
        then fault
        else if leb payload_len 0
        then fault
        else fill_layer4 packet packet.icmpv6_ptr (tcp_udp_v6_checksum src_ip dst_ip)
            (tcp_udp_v6_checksum src_ip dst_ip 58) packet.buffer payload_len)
  ok (record packet { buffer = filled })

unfoldable pub checksum_packet : Packet → Outcome Packet
checksum_packet packet = elim packet.ipv4_ptr [
  | some ipv4 ↦ checksum_ipv4_packet packet ipv4
  | none ↦ elim packet.ipv6_ptr [ some ipv6 ↦ checksum_ipv6_packet packet ipv6 | none ↦ fault ]
]
