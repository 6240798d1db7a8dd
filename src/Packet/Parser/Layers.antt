-- ===== src/Packet/Parser/Layers.antt =====
-- gtests/net/packetdrill/packet_parser.c, the parsers of the headers that enclose others. They call
-- one another without end in the source; here each takes the parsers of the headers inside, and
-- `nested` supplies those on fuel. Every such call follows an appended header, of which a packet
-- holds at most 6, so that fuel 6 is enough.
use packetdrill_mptcp.Base.{
  ℕ, ◌+◌, ◌/◌, ◌%◌, Bool, ◌==◌, ◌!=◌, ltb, ◌||◌, if◌then◌else◌, none, some, Outcome, ok, status_err,
  fault,
}
use packetdrill_mptcp.Memory.{load, load_be16}
use packetdrill_mptcp.Packet.{Packet, header_gre, packet_append_header}
use packetdrill_mptcp.Packet.Parser.Layer4.{
  packet_unknown_l4, Parsed, bad, parse_tcp, parse_udp, parse_icmpv4, parse_icmpv6,
  too_many_headers, truncated, length_too_big, gre_version, length_below_header, gre_routing,
}

-- A read, and what follows it.
abbrev pub within {ℓ} : {A : Type ℓ} → Outcome A → (A → Parsed) → Parsed
within m f = elim m [ ok a ↦ f a | status_err ↦ some status_err | fault ↦ some fault ]

-- The parsers of the headers inside the present one: parse_ipv4, parse_ipv6 and
-- parse_layer3_packet_by_proto, in one packet.
pub record Nested : Type 0 where
  pub ipv4 : Packet → ℕ → Parsed
  pub ipv6 : Packet → ℕ → Parsed
  pub by_proto : ℕ → Packet → ℕ → Parsed

-- sizeof(struct gre) is 4; the flags are in byte 0 and the version in byte 1.
abbrev pub gre_len : ℕ → ℕ
gre_len flags =
    4
    + (if flags / 64 % 2 == 1 || flags / 128 % 2 == 1 then 4 else 0)
    + (if flags / 32 % 2 == 1 then 4 else 0)
    + (if flags / 16 % 2 == 1 then 4 else 0)

-- The flag *is_inner, which is false for the encapsulating protocols and for
-- those that the program does not know.
abbrev pub is_innermost : ℕ → Bool
is_innermost protocol = protocol == 6 || protocol == 17 || protocol == 1 || protocol == 58

module _ (packet_end : ℕ) where
  unfoldable pub gre_fields : Nested → Packet → ℕ → ℕ → ℕ → ℕ → Parsed
  gre_fields nested packet start layer4_bytes flags version =
      if version % 8 != 0
      then some (bad gre_version packet)
      else if flags / 64 % 2 == 1
      then some (bad gre_routing packet)
      else if ltb (gre_len flags) 4
      then some (bad length_below_header packet)
      else if ltb layer4_bytes (gre_len flags)
      then some (bad length_too_big packet)
      else if ltb packet_end (start + layer4_bytes)
      then some fault
      else elim (packet_append_header packet header_gre (gre_len flags) layer4_bytes) [
        | none ↦ some (bad too_many_headers packet)
        | some packet' ↦
            within (load_be16 packet.buffer (start + 2))
              λ protocol. nested.by_proto protocol packet' (start + gre_len flags)
      ]

  unfoldable pub parse_gre : Nested → Packet → ℕ → ℕ → Parsed
  unfolding gre_fields
  parse_gre nested packet start layer4_bytes =
      if ltb layer4_bytes 4
      then some (bad truncated packet)
      else within (load packet.buffer start) λ flags.
        within (load packet.buffer (start + 1))
          λ version. gre_fields nested packet start layer4_bytes flags version

  unfoldable pub parse_layer4 : Nested → Packet → ℕ → ℕ → ℕ → Parsed
  parse_layer4 nested packet start protocol layer4_bytes =
      if protocol == 6
      then some (parse_tcp packet start layer4_bytes packet_end)
      else if protocol == 17
      then some (parse_udp packet start layer4_bytes packet_end)
      else if protocol == 1
      then some (parse_icmpv4 packet start layer4_bytes packet_end)
      else if protocol == 58
      then some (parse_icmpv6 packet start layer4_bytes packet_end)
      else if protocol == 47
      then parse_gre nested packet start layer4_bytes
      else if protocol == 4
      then nested.ipv4 packet start
      else if protocol == 41
      then nested.ipv6 packet start
      else some (ok (packet_unknown_l4, packet))
