-- ===== src/Packet/Parser/Layer4Good.antt =====
-- The parsers of a layer 4 header, from a packet that is ready.
use packetdrill_mptcp.Base.{
  ℕ, ◌+◌, ◌*◌, ◌/◌, ◌≤◌, ◌<◌, ◌≡◌, inl, inr, refl, arith, Bool, true, false, not, List, [], ◌∷◌,
  length, ltb, if◌then◌else◌, some, Outcome, ok, ltb-false,
}
use packetdrill_mptcp.Memory.{load_inside, load_be16_inside}
use packetdrill_mptcp.Packet.{
  Packet, Header, HeaderType, inner_header, tcp_header_len, last_of, header_tcp, header_udp,
  header_icmpv4, header_icmpv6,
}
use packetdrill_mptcp.Packet.Parser.Layer4.{
  ParseError, ParseResult, bad, append_layer4, parse_tcp, parse_udp, parse_icmpv4, parse_icmpv6,
  truncated, offset_too_small, offset_too_big, length_below_header, length_too_small,
  length_too_big, bad_icmp_version, is_ipv4, is_ipv6,
}
use packetdrill_mptcp.Packet.Parser.Layout.{
  IsReady, Good1, IsReady-IsParsed, packet_append_header-Appended,
}

module _ (end start layer4_bytes : ℕ) (fits : start + layer4_bytes ≤ end) where
  append_layer4-Good :
      (p : Packet) (type : HeaderType) (n : ℕ)
      → IsReady end p start
      → n ≤ layer4_bytes
      → Good1 end (append_layer4 p type n start layer4_bytes end)
  unfolding append_layer4
  append_layer4-Good p type n w h =
      elim (packet_append_header-Appended end start p type n layer4_bytes w) [
        | inl e ↦ rw (append_layer4, e) (IsReady-IsParsed end start p w)
        | inr (p', e, a) ↦
            rw (append_layer4, e, ltb-false end (start + layer4_bytes) fits)
              (IsReady-IsParsed end (start + n) p' (a.ready (omega arith)))
      ]

  -- A test in front of an error.
  guarded :
      (b : Bool) (e : ParseError) (p : Packet) (m : Outcome (ParseResult × Packet))
      → IsReady end p start
      → (b ≡ false → Good1 end m)
      → Good1 end (if b then bad e p else m)
  guarded true e p m w h = IsReady-IsParsed end start p w
  guarded false e p m w h = h refl

  -- The packet with a pointer to the layer 4 header that starts here.
  tcp-IsReady :
      (p : Packet)
      → IsReady end p start
      → 20 ≤ layer4_bytes
      → IsReady end (record p { tcp_ptr = some start }) start
  tcp-IsReady p w h = record {
    chain = w.chain;
    place = w.place;
    fits = w.fits;
    slack = w.slack;
    few = w.few;
    pointers = (w.pointers.0, w.pointers.1, omega arith, w.pointers.3, w.pointers.4, w.pointers.5);
  }

  udp-IsReady :
      (p : Packet)
      → IsReady end p start
      → 8 ≤ layer4_bytes
      → IsReady end (record p { udp_ptr = some start }) start
  udp-IsReady p w h = record {
    chain = w.chain;
    place = w.place;
    fits = w.fits;
    slack = w.slack;
    few = w.few;
    pointers = (w.pointers.0, w.pointers.1, w.pointers.2, omega arith, w.pointers.4, w.pointers.5);
  }

  icmpv4-IsReady :
      (p : Packet)
      → IsReady end p start
      → 8 ≤ layer4_bytes
      → IsReady end (record p { icmpv4_ptr = some start }) start
  icmpv4-IsReady p w h = record {
    chain = w.chain;
    place = w.place;
    fits = w.fits;
    slack = w.slack;
    few = w.few;
    pointers = (w.pointers.0, w.pointers.1, w.pointers.2, w.pointers.3, omega arith, w.pointers.5);
  }

  icmpv6-IsReady :
      (p : Packet)
      → IsReady end p start
      → 8 ≤ layer4_bytes
      → IsReady end (record p { icmpv6_ptr = some start }) start
  icmpv6-IsReady p w h = record {
    chain = w.chain;
    place = w.place;
    fits = w.fits;
    slack = w.slack;
    few = w.few;
    pointers = (w.pointers.0, w.pointers.1, w.pointers.2, w.pointers.3, w.pointers.4, omega arith);
  }

  tcp_header_len_inside :
      (p : Packet)
      → IsReady end p start
      → 20 ≤ layer4_bytes
      → (n : ℕ) × (tcp_header_len p.buffer start ≡ ok n)
  unfolding tcp_header_len
  tcp_header_len_inside p w h =
      let (b, e) = load_inside p.buffer (start + 12) (omega (arith, w.slack)) in
      ((b / 16) * 4, rw e refl)

  pub parse_tcp-Good :
      (p : Packet) → IsReady end p start → Good1 end (parse_tcp p start layer4_bytes end)
  unfolding parse_tcp
  parse_tcp-Good p w = guarded (ltb layer4_bytes 20) truncated p _ w λ big.
      let h : 20 ≤ layer4_bytes = ground arith in
      let q = record p { tcp_ptr = some start } in
      let w' = tcp-IsReady p w h in
      let (n, e) = tcp_header_len_inside p w h in
      rw (tcp_header_len, e)
        (guarded (ltb n 20) offset_too_small q _ w' λ _.
          guarded (ltb layer4_bytes n) offset_too_big q _ w'
            λ le. append_layer4-Good q header_tcp n w' (ground arith))

  pub parse_udp-Good :
      (p : Packet) → IsReady end p start → Good1 end (parse_udp p start layer4_bytes end)
  unfolding parse_udp
  parse_udp-Good p w = guarded (ltb layer4_bytes 8) truncated p _ w λ big.
      let h : 8 ≤ layer4_bytes = ground arith in
      let q = record p { udp_ptr = some start } in
      let w' = udp-IsReady p w h in
      let (n, e) = load_be16_inside p.buffer (start + 4) (omega (arith, w.slack)) in
      rw e (
        guarded (ltb n 8) length_below_header q _ w' λ _.
          guarded (ltb n layer4_bytes) length_too_small q _ w' λ _.
            guarded (ltb layer4_bytes n) length_too_big q _ w'
              λ _. append_layer4-Good q header_udp 8 w' h)

  inner_header_exists : (hs : List Header) → 0 < length hs → (h : Header) × (inner_header hs ≡ ok h)
  unfolding inner_header
  inner_header_exists [] h = absurd (omega arith)
  inner_header_exists (g ∷ gs) h = (last_of g gs, refl)

  pub parse_icmpv4-Good :
      (p : Packet)
      → IsReady end p start
      → 0 < length p.headers
      → Good1 end (parse_icmpv4 p start layer4_bytes end)
  unfolding parse_icmpv4
  parse_icmpv4-Good p w some_header =
      let (g, e) = inner_header_exists p.headers some_header in
      rw e (
        guarded (not (is_ipv4 g.type)) bad_icmp_version p _ w λ _.
          guarded (ltb layer4_bytes 8) truncated p _ w λ big.
            let h : 8 ≤ layer4_bytes = ground arith in
            append_layer4-Good (record p { icmpv4_ptr = some start }) header_icmpv4 8
              (icmpv4-IsReady p w h) h)

  pub parse_icmpv6-Good :
      (p : Packet)
      → IsReady end p start
      → 0 < length p.headers
      → Good1 end (parse_icmpv6 p start layer4_bytes end)
  unfolding parse_icmpv6
  parse_icmpv6-Good p w some_header =
      let (g, e) = inner_header_exists p.headers some_header in
      rw e (
        guarded (not (is_ipv6 g.type)) bad_icmp_version p _ w λ _.
          guarded (ltb layer4_bytes 8) truncated p _ w λ big.
            let h : 8 ≤ layer4_bytes = ground arith in
            append_layer4-Good (record p { icmpv6_ptr = some start }) header_icmpv6 8
              (icmpv6-IsReady p w h) h)
