-- ===== src/Packet/Parser/Ip.antt =====
-- gtests/net/packetdrill/packet_parser.c: IPv4, IPv6, MPLS and Ethernet headers, and parse_packet.
use packetdrill_mptcp.Base.{
  ℕ, zero, suc, ◌+◌, ◌-◌, ◌*◌, ◌/◌, ◌%◌, Bool, List, length, ◌==◌, ◌!=◌, ltb, leb, ◌||◌,
  if◌then◌else◌, Option, none, some, Outcome, ok, status_err, fault,
}
use packetdrill_mptcp.Memory.{load, load_be16, slice}
use packetdrill_mptcp.Checksum.{ipv4_checksum}
use packetdrill_mptcp.Packet.{Packet, header_ipv4, header_ipv6, header_mpls, packet_append_header}
use packetdrill_mptcp.Packet.Parser.Layer4.{
  packet_unknown_l4, Parsed, bad, ethernet_overflows, ip_overflows, ipv4_overflows, ipv6_overflows,
  bad_ip_version, header_too_short, full_header_overflows, payload_overflows, header_bigger,
  more_fragments, fragment_offset, bad_checksum, too_many_headers, mpls_overflows,
}
use packetdrill_mptcp.Packet.Parser.Layers.{within, Nested, is_innermost, parse_layer4}

-- struct packet after the layer 4 header has been parsed: the innermost IP header is the primary
-- one, and the outermost gives the packet its length.
abbrev pub finish_ipv4 : Packet → Bool → Bool → ℕ → ℕ → Packet
finish_ipv4 p inner outer start total = record p {
  ipv4_ptr = if inner then some start else p.ipv4_ptr;
  ip_bytes = if outer then total else p.ip_bytes;
}

abbrev pub finish_ipv6 : Packet → Bool → Bool → ℕ → ℕ → Packet
finish_ipv6 p inner outer start total = record p {
  ipv6_ptr = if inner then some start else p.ipv6_ptr;
  ip_bytes = if outer then total else p.ip_bytes;
}

abbrev pub finish : (Packet → Packet) → Parsed → Parsed
finish f none = none
finish f (some (ok (r, p))) = some (ok (r, f p))
finish f (some status_err) = some status_err
finish f (some fault) = some fault

module _ (packet_end : ℕ) where
  -- parse_ipv4 behind its checks.
  unfoldable pub ipv4_inside : Nested → Packet → ℕ → ℕ → ℕ → ℕ → Parsed
  ipv4_inside nested packet start header_bytes total_bytes protocol =
      elim (packet_append_header packet header_ipv4 header_bytes total_bytes) [
        | none ↦ some (bad too_many_headers packet)
        | some packet' ↦
            if ltb packet_end (start + header_bytes)
            then some fault
            else finish
                (λ p.
                  finish_ipv4 p (is_innermost protocol) (packet.ip_bytes == 0) start total_bytes)
                (parse_layer4 packet_end nested packet' (start + header_bytes) protocol
                  (total_bytes - header_bytes))
      ]

  -- The checks of the header's fields, in the order of the source.
  unfoldable pub ipv4_checked : Nested → Packet → ℕ → ℕ → ℕ → ℕ → ℕ → Parsed
  unfolding ipv4_inside
  ipv4_checked nested packet start header_bytes total_bytes frag_off protocol =
      if ltb packet_end (start + total_bytes)
      then some (bad payload_overflows packet)
      else if ltb total_bytes header_bytes
      then some (bad header_bigger packet)
      else if frag_off / 8192 % 2 == 1
      then some (bad more_fragments packet)
      else if frag_off % 8192 != 0
      then some (bad fragment_offset packet)
      else within (slice packet.buffer start header_bytes) λ header. elim (ipv4_checksum header) [
        | none ↦ none
        | some checksum ↦
            if checksum != 0
            then some (bad bad_checksum packet)
            else ipv4_inside nested packet start header_bytes total_bytes protocol
      ]

  -- The header length is the low half of byte 0, in words of 4 bytes.
  unfoldable pub parse_ipv4 : Nested → Packet → ℕ → Parsed
  unfolding ipv4_checked
  parse_ipv4 nested packet start = within (load packet.buffer start) λ b.
      if ltb (b % 16 * 4) 20
      then some (bad header_too_short packet)
      else if ltb packet_end (start + b % 16 * 4)
      then some (bad full_header_overflows packet)
      else within (load_be16 packet.buffer (start + 2)) λ total_bytes.
        within (load_be16 packet.buffer (start + 6)) λ frag_off.
          within (load packet.buffer (start + 9))
            λ protocol. ipv4_checked nested packet start (b % 16 * 4) total_bytes frag_off protocol

  unfoldable pub ipv6_inside : Nested → Packet → ℕ → ℕ → ℕ → Parsed
  ipv6_inside nested packet start total_bytes next_header =
      elim (packet_append_header packet header_ipv6 40 total_bytes) [
        | none ↦ some (bad too_many_headers packet)
        | some packet' ↦
            if ltb packet_end (start + 40)
            then some fault
            else finish
                (λ p.
                  finish_ipv6 p (is_innermost next_header) (packet.ip_bytes == 0) start total_bytes)
                (parse_layer4 packet_end nested packet' (start + 40) next_header (total_bytes - 40))
      ]

  unfoldable pub parse_ipv6 : Nested → Packet → ℕ → Parsed
  unfolding ipv6_inside
  parse_ipv6 nested packet start =
      if ltb packet_end (start + 40)
      then some (bad ipv6_overflows packet)
      else within (load_be16 packet.buffer (start + 4)) λ payload_len.
        if ltb packet_end (start + (40 + payload_len))
        then some (bad payload_overflows packet)
        else within (load packet.buffer (start + 6))
            λ next_header. ipv6_inside nested packet start (40 + payload_len) next_header

  -- The switch of parse_layer3_packet on byte 0, whose high half is the version.
  unfoldable pub layer3_by_version : Nested → Packet → ℕ → ℕ → Parsed
  unfolding parse_ipv4 parse_ipv6
  layer3_by_version nested packet start b =
      if b / 16 == 4
      then parse_ipv4 nested packet start
      else if b / 16 == 6
      then parse_ipv6 nested packet start
      else some (bad bad_ip_version packet)

  unfoldable pub parse_layer3_packet : Nested → Packet → ℕ → Parsed
  parse_layer3_packet nested packet start =
      if ltb packet_end (start + 20)
      then some (bad ip_overflows packet)
      else within (load packet.buffer start) (layer3_by_version nested packet start)

  -- The loop of parse_mpls from the entry at `p`: the index behind the stack, or `status_err` where
  -- an entry overflows the packet. The bottom of the stack is bit 8 of the entry.
  unfoldable pub mpls_stack : List ℕ → ℕ → ℕ → Option (Outcome ℕ)
  mpls_stack mem zero p = none
  mpls_stack mem (suc fuel) p =
      let rest = mpls_stack mem fuel (p + 4) in
      if ltb packet_end (p + 4) then some status_err else elim (load mem (p + 2)) [
        | ok b ↦ if b % 2 == 1 || leb packet_end (p + 4) then some (ok (p + 4)) else rest
        | status_err ↦ some status_err
        | fault ↦ some fault
      ]

  -- parse_mpls behind its loop, which has stopped at `p`.
  unfoldable pub mpls_inside : Nested → Packet → ℕ → ℕ → Parsed
  mpls_inside nested packet start p =
      if ltb (packet_end - start) (p - start)
      then some fault
      else elim (packet_append_header packet header_mpls (p - start) (packet_end - start)) [
        | none ↦ some (bad too_many_headers packet)
        | some packet' ↦
            if ltb packet_end p then some fault else parse_layer3_packet nested packet' p
      ]

  -- One round of the loop for each 4 bytes, and one more.
  unfoldable pub parse_mpls : Nested → Packet → ℕ → Parsed
  unfolding mpls_stack mpls_inside parse_layer3_packet layer3_by_version
  parse_mpls nested packet start = elim (mpls_stack packet.buffer (packet_end + 1) start) [
    | none ↦ none
    | some (ok p) ↦ mpls_inside nested packet start p
    | some status_err ↦ some (bad mpls_overflows packet)
    | some fault ↦ some fault
  ]

  -- The version number is the high half of byte 0.
  unfoldable pub check_version : ℕ → (Packet → ℕ → Parsed) → Packet → ℕ → Parsed
  check_version version parse packet start =
      within (load packet.buffer start)
        (λ b. if b / 16 == version then parse packet start else some (bad bad_ip_version packet))

  -- ETHERTYPE_IP, ETHERTYPE_IPV6, ETHERTYPE_MPLS_UC and ETHERTYPE_MPLS_MC.
  unfoldable pub parse_layer3_packet_by_proto : Nested → ℕ → Packet → ℕ → Parsed
  unfolding parse_ipv4 parse_ipv6 parse_mpls check_version
  parse_layer3_packet_by_proto nested proto packet start =
      if proto == 0x0800
      then (if ltb packet_end (start + 20)
          then some (bad ipv4_overflows packet)
          else check_version 4 (parse_ipv4 nested) packet start)
      else if proto == 0x86dd
      then (if ltb packet_end (start + 40)
          then some (bad ipv6_overflows packet)
          else check_version 6 (parse_ipv6 nested) packet start)
      else if proto == 0x8847 || proto == 0x8848
      then parse_mpls nested packet start
      else some (ok (packet_unknown_l4, packet))

  -- The parsers of the headers inside, `fuel` levels deep.
  unfoldable pub nested_at : ℕ → Nested
  nested_at zero = record {
    ipv4 = λ packet start. none;
    ipv6 = λ packet start. none;
    by_proto = λ proto packet start. none;
  }
  nested_at (suc fuel) = record {
    ipv4 = parse_ipv4 (nested_at fuel);
    ipv6 = parse_ipv6 (nested_at fuel);
    by_proto = parse_layer3_packet_by_proto (nested_at fuel);
  }

  -- struct ether_header has 14 bytes, the type in the last two.
  unfoldable pub parse_layer2_packet : Nested → Packet → ℕ → Parsed
  unfolding parse_layer3_packet_by_proto
  parse_layer2_packet nested packet start =
      if ltb packet_end (start + 14)
      then some (bad ethernet_overflows packet)
      else within (load_be16 packet.buffer (start + 12)) λ ether_type.
        parse_layer3_packet_by_proto nested ether_type (record packet { l2_header_bytes = 14 })
          (start + 14)

-- enum packet_layer_t.
pub data PacketLayer : Type 0 where
  layer_2_ethernet layer_3_ip : PacketLayer

-- The source also adds a hex dump to the message of a bad packet.
unfoldable pub parse_packet : Packet → ℕ → PacketLayer → Parsed
unfolding parse_layer2_packet parse_layer3_packet layer3_by_version nested_at
parse_packet packet in_bytes layer =
    if ltb (length packet.buffer) in_bytes then some fault else elim layer [
      | layer_2_ethernet ↦ parse_layer2_packet in_bytes (nested_at in_bytes 6) packet 0
      | layer_3_ip ↦ parse_layer3_packet in_bytes (nested_at in_bytes 6) packet 0
    ]
