-- ===== src/Packet/Parser/LayersGood.antt =====
-- The parsers of the headers that enclose others, from a packet that is ready: the fuel lasts, since
-- a header has been appended before each call of a parser of the headers inside.
use packetdrill_mptcp.Base.{
  ℕ, ◌+◌, ◌/◌, ◌%◌, ◌≤◌, ◌<◌, ◌≡◌, inl, inr, refl, arith, Bool, true, false, length, ◌==◌, ◌!=◌,
  ltb, if◌then◌else◌, some, ltb-false,
}
use packetdrill_mptcp.Memory.{load_inside, load_be16_inside}
use packetdrill_mptcp.Packet.{Packet, header_gre}
use packetdrill_mptcp.Packet.Parser.Layer4.{
  ParseError, Parsed, bad, truncated, gre_version, gre_routing, length_below_header, length_too_big,
}
use packetdrill_mptcp.Packet.Parser.Layers.{Nested, gre_len, gre_fields, parse_gre, parse_layer4}
use packetdrill_mptcp.Packet.Parser.Layout.{
  IsReady, Good, IsReady-IsParsed, packet_append_header-Appended,
}
use packetdrill_mptcp.Packet.Parser.Layer4Good.{
  parse_tcp-Good, parse_udp-Good, parse_icmpv4-Good, parse_icmpv6-Good,
}

-- The parsers of the headers inside, for packets that already have so many headers that `fuel`
-- levels more are enough.
pub record NestedGood (end fuel : ℕ) (nested : Nested) : Type 0 where
  pub ipv4_good :
      (p : Packet) (start : ℕ)
      → IsReady end p start
      → 7 ≤ fuel + length p.headers
      → Good end (nested.ipv4 p start)
  pub ipv6_good :
      (p : Packet) (start : ℕ)
      → IsReady end p start
      → 7 ≤ fuel + length p.headers
      → Good end (nested.ipv6 p start)
  pub by_proto_good :
      (proto : ℕ) (p : Packet) (start : ℕ)
      → IsReady end p start
      → 7 ≤ fuel + length p.headers
      → Good end (nested.by_proto proto p start)

-- A test in front of an error.
pub guarded :
    (end start : ℕ) (b : Bool) (e : ParseError) (p : Packet) (m : Parsed)
    → IsReady end p start
    → (b ≡ false → Good end m)
    → Good end (if b then some (bad e p) else m)
guarded end start true e p m w h = IsReady-IsParsed end start p w
guarded end start false e p m w h = h refl

module _ (end fuel : ℕ) (nested : Nested) (inside : NestedGood end fuel nested) where
  gre_fields-Good :
      (p : Packet) (start layer4_bytes flags version : ℕ)
      → IsReady end p start
      → start + layer4_bytes ≤ end
      → 4 ≤ layer4_bytes
      → 6 ≤ fuel + length p.headers
      → Good end (gre_fields end nested p start layer4_bytes flags version)
  unfolding gre_fields
  gre_fields-Good p start layer4_bytes flags version w fits size enough =
      guarded end start (version % 8 != 0) gre_version p _ w λ _.
        guarded end start (flags / 64 % 2 == 1) gre_routing p _ w λ _.
          guarded end start (ltb (gre_len flags) 4) length_below_header p _ w λ _.
            guarded end start (ltb layer4_bytes (gre_len flags)) length_too_big p _ w λ short.
              let n = gre_len flags in
              let n_fits : start + n ≤ end = ground arith in
              let (protocol, e) = load_be16_inside p.buffer (start + 2) (omega (arith, w.slack)) in
              rw (ltb-false end (start + layer4_bytes) fits)
                (elim (packet_append_header-Appended end start p header_gre n layer4_bytes w) [
                  | inl none_left ↦ rw none_left (IsReady-IsParsed end start p w)
                  | inr (p', some_left, a) ↦
                      rw (some_left, e)
                        (inside.by_proto_good protocol p' (start + n) (a.ready n_fits)
                          (omega (arith, a.one_more)))
                ])

  pub parse_gre-Good :
      (p : Packet) (start layer4_bytes : ℕ)
      → IsReady end p start
      → start + layer4_bytes ≤ end
      → 6 ≤ fuel + length p.headers
      → Good end (parse_gre end nested p start layer4_bytes)
  unfolding parse_gre
  parse_gre-Good p start layer4_bytes w fits enough =
      guarded end start (ltb layer4_bytes 4) truncated p _ w λ big.
        let size : 4 ≤ layer4_bytes = ground arith in
        let (flags, e) = load_inside p.buffer start (omega (arith, w.slack)) in
        let (version, e') = load_inside p.buffer (start + 1) (omega (arith, w.slack)) in
        rw (e, e') (gre_fields-Good p start layer4_bytes flags version w fits size enough)

  -- A test for a protocol.
  chosen : (b : Bool) (m n : Parsed) → Good end m → Good end n → Good end (if b then m else n)
  chosen true m n h k = h
  chosen false m n h k = k

  pub parse_layer4-Good :
      (p : Packet) (start protocol layer4_bytes : ℕ)
      → IsReady end p start
      → start + layer4_bytes ≤ end
      → 0 < length p.headers
      → 7 ≤ fuel + length p.headers
      → Good end (parse_layer4 end nested p start protocol layer4_bytes)
  unfolding parse_layer4
  parse_layer4-Good p start protocol layer4_bytes w fits some_header enough =
      chosen (protocol == 6) _ _ (parse_tcp-Good end start layer4_bytes fits p w) (
        chosen (protocol == 17) _ _ (parse_udp-Good end start layer4_bytes fits p w) (
          chosen (protocol == 1) _ _ (parse_icmpv4-Good end start layer4_bytes fits p w some_header)
            (chosen (protocol == 58) _ _
              (parse_icmpv6-Good end start layer4_bytes fits p w some_header)
              (chosen (protocol == 47) _ _
                (parse_gre-Good p start layer4_bytes w fits (omega arith))
                (chosen (protocol == 4) _ _ (inside.ipv4_good p start w enough) (
                  chosen (protocol == 41) _ _ (inside.ipv6_good p start w enough)
                    (IsReady-IsParsed end start p w)))))))
