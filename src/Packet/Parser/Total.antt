-- ===== src/Packet/Parser/Total.antt =====
-- MPLS and Ethernet headers and parse_packet: the parser answers for every packet.
use packetdrill_mptcp.Base.{
  ℕ, zero, suc, ◌+◌, ◌-◌, ◌/◌, ◌%◌, ◌≤◌, ◌<◌, ◌≡◌, inl, inr, arith, Bool, true, false, List, length,
  ◌==◌, ltb, leb, ◌||◌, if◌then◌else◌, Option, none, some, Outcome, ok, status_err, fault,
  Bool-cases, ltb-false,
}
use packetdrill_mptcp.Memory.{load_inside, load_be16_inside}
use packetdrill_mptcp.Packet.{Packet, header_mpls, packet_new}
use packetdrill_mptcp.Packet.Parser.Layer4.{
  Parsed, bad, ethernet_overflows, ip_overflows, ipv4_overflows, ipv6_overflows, bad_ip_version,
  mpls_overflows,
}
use packetdrill_mptcp.Packet.Parser.Layers.{Nested}
use packetdrill_mptcp.Packet.Parser.Ip.{
  parse_ipv4, parse_ipv6, parse_layer3_packet, layer3_by_version, mpls_stack, mpls_inside,
  parse_mpls, check_version, parse_layer3_packet_by_proto, nested_at, parse_layer2_packet,
  parse_packet, PacketLayer, layer_2_ethernet, layer_3_ip,
}
use packetdrill_mptcp.Packet.Parser.Layout.{
  IsReady, Good, IsReady-IsParsed, packet_append_header-Appended,
}
use packetdrill_mptcp.Packet.Parser.IpGood.{parse_ipv4-Good, parse_ipv6-Good}
use packetdrill_mptcp.Packet.Parser.LayersGood.{NestedGood, guarded}

-- The loop over the label stack stops behind an entry that lies in the packet, or reports one that
-- does not.
abbrev Stops : ℕ → ℕ → Option (Outcome ℕ) → Type 0
Stops end p none = ⊥
Stops end p (some (ok q)) = (p ≤ q) × (q ≤ end)
Stops end p (some status_err) = Unit
Stops end p (some fault) = ⊥

mpls_stack-Stops :
    (end fuel p : ℕ) (mem : List ℕ)
    → p ≤ end
    → end < length mem
    → end < p + fuel
    → Stops end p (mpls_stack end mem fuel p)
unfolding mpls_stack
mpls_stack-Stops end zero p mem le slack enough = absurd (omega arith)
mpls_stack-Stops end (suc fuel) p mem le slack enough = elim (Bool-cases (ltb end (p + 4))) [
  | inl over ↦ rw over tt
  | inr fits ↦
      let high : p + 4 ≤ end = ground arith in
      let (b, e) = load_inside mem (p + 2) (omega arith) in
      elim (Bool-cases (b % 2 == 1 || leb end (p + 4))) [
        | inl last ↦ rw (fits, mpls_stack, e, last) (omega arith)
        | inr more ↦
            rw (fits, mpls_stack, e, more)
              (later (p + 4) (mpls_stack end mem fuel (p + 4))
                (mpls_stack-Stops end fuel (p + 4) mem high slack (omega arith)))
      ]
]
  where
    later : (q : ℕ) (m : Option (Outcome ℕ)) → Stops end (p + 4) m → Stops end p m
    later q none h = h
    later q (some (ok r)) h = omega arith
    later q (some status_err) h = h
    later q (some fault) h = h

module _ (end fuel : ℕ) (nested : Nested) (inside : NestedGood end fuel nested) where
  -- A test for a version or a protocol.
  either : (c : Bool) (m n : Parsed) → Good end m → Good end n → Good end (if c then m else n)
  either true m n h k = h
  either false m n h k = k

  layer3_by_version-Good :
      (p : Packet) (start b : ℕ)
      → IsReady end p start
      → 6 ≤ fuel + length p.headers
      → Good end (layer3_by_version end nested p start b)
  unfolding layer3_by_version
  layer3_by_version-Good p start b w enough =
      either (b / 16 == 4) _ _ (parse_ipv4-Good end fuel nested inside p start w enough) (
        either (b / 16 == 6) _ _ (parse_ipv6-Good end fuel nested inside p start w enough)
          (IsReady-IsParsed end start p w))

  parse_layer3_packet-Good :
      (p : Packet) (start : ℕ)
      → IsReady end p start
      → 6 ≤ fuel + length p.headers
      → Good end (parse_layer3_packet end nested p start)
  unfolding parse_layer3_packet
  parse_layer3_packet-Good p start w enough =
      guarded end start (ltb end (start + 20)) ip_overflows p _ w λ fits.
        let (b, e) = load_inside p.buffer start (omega (arith, w.slack, w.fits)) in
        rw e (layer3_by_version-Good p start b w enough)

  mpls_inside-Good :
      (p : Packet) (start q : ℕ)
      → IsReady end p start
      → start ≤ q
      → q ≤ end
      → 6 ≤ fuel + length p.headers
      → Good end (mpls_inside end nested p start q)
  unfolding mpls_inside
  mpls_inside-Good p start q w le fits enough =
      let n = q - start in
      let total = end - start in
      let place : start + n ≡ q = omega arith in
      elim (packet_append_header-Appended end start p header_mpls n total w) [
        | inl none_left ↦
            rw (ltb-false total n (omega arith), mpls_inside, none_left)
              (IsReady-IsParsed end start p w)
        | inr (p', some_left, a) ↦
            let ready : IsReady end p' q = rw place at (a.ready (omega arith)) in
            rw (ltb-false total n (omega arith), mpls_inside, some_left, ltb-false end q fits)
              (parse_layer3_packet-Good p' q ready (omega (arith, a.one_more)))
      ]

  parse_mpls-Good :
      (p : Packet) (start : ℕ)
      → IsReady end p start
      → 6 ≤ fuel + length p.headers
      → Good end (parse_mpls end nested p start)
  unfolding parse_mpls
  parse_mpls-Good p start w enough =
      finish_stack (mpls_stack end p.buffer (end + 1) start)
        (mpls_stack-Stops end (end + 1) start p.buffer w.fits w.slack (omega arith))
    where
      finish_stack :
          (m : Option (Outcome ℕ))
          → Stops end start m
          → Good end (
              let r : Parsed = elim m [
                | none ↦ none
                | some (ok q) ↦ mpls_inside end nested p start q
                | some status_err ↦ some (bad mpls_overflows p)
                | some fault ↦ some fault
              ] in
              r)
      finish_stack none h = h
      finish_stack (some (ok q)) h = mpls_inside-Good p start q w h.0 h.1 enough
      finish_stack (some status_err) h = IsReady-IsParsed end start p w
      finish_stack (some fault) h = h

  check_version-Good :
      (version : ℕ) (parse : Packet → ℕ → Parsed) (p : Packet) (start : ℕ)
      → IsReady end p start
      → Good end (parse p start)
      → Good end (check_version end version parse p start)
  unfolding check_version
  check_version-Good version parse p start w good =
      let (b, e) = load_inside p.buffer start (omega (arith, w.slack, w.fits)) in
      rw e (checked (b / 16 == version))
    where
      checked : (c : Bool) → Good end (if c then parse p start else some (bad bad_ip_version p))
      checked true = good
      checked false = IsReady-IsParsed end start p w

  pub parse_layer3_packet_by_proto-Good :
      (proto : ℕ) (p : Packet) (start : ℕ)
      → IsReady end p start
      → 6 ≤ fuel + length p.headers
      → Good end (parse_layer3_packet_by_proto end nested proto p start)
  unfolding parse_layer3_packet_by_proto
  parse_layer3_packet_by_proto-Good proto p start w enough =
      either (proto == 0x0800) _ _
        (guarded end start (ltb end (start + 20)) ipv4_overflows p _ w λ _.
          check_version-Good 4 (parse_ipv4 end nested) p start w
            (parse_ipv4-Good end fuel nested inside p start w enough))
        (either (proto == 0x86dd) _ _
          (guarded end start (ltb end (start + 40)) ipv6_overflows p _ w λ _.
            check_version-Good 6 (parse_ipv6 end nested) p start w
              (parse_ipv6-Good end fuel nested inside p start w enough))
          (either (proto == 0x8847 || proto == 0x8848) _ _ (parse_mpls-Good p start w enough)
            (IsReady-IsParsed end start p w)))

nested_at-Good : (end fuel : ℕ) → NestedGood end fuel (nested_at end fuel)
unfolding nested_at
nested_at-Good end zero = record {
  ipv4_good = λ p start w h. absurd (omega (arith, w.few));
  ipv6_good = λ p start w h. absurd (omega (arith, w.few));
  by_proto_good = λ proto p start w h. absurd (omega (arith, w.few));
}
nested_at-Good end (suc fuel) =
    let inside = nested_at-Good end fuel in
    record {
      ipv4_good = λ p start w h.
          parse_ipv4-Good end fuel (nested_at end fuel) inside p start w (omega arith);
      ipv6_good = λ p start w h.
          parse_ipv6-Good end fuel (nested_at end fuel) inside p start w (omega arith);
      by_proto_good = λ proto p start w h.
          parse_layer3_packet_by_proto-Good end fuel (nested_at end fuel) inside proto p start w
            (omega arith);
    }

new_IsReady : (buffer : List ℕ) (end : ℕ) → end < length buffer → IsReady end (packet_new buffer) 0
unfolding packet_new
new_IsReady buffer end slack = omega arith

parse_layer2_packet-Good :
    (buffer : List ℕ) (end : ℕ)
    → end < length buffer
    → Good end (parse_layer2_packet end (nested_at end 6) (packet_new buffer) 0)
unfolding parse_layer2_packet packet_new
parse_layer2_packet-Good buffer end slack =
    let p = record (packet_new buffer) { l2_header_bytes = 14 } in
    guarded end 0 (ltb end (0 + 14)) ethernet_overflows (packet_new buffer) _
      (new_IsReady buffer end slack)
      λ fits.
        let high : 14 ≤ end = ground arith in
        let (ether_type, e) = load_be16_inside buffer 12 (omega arith) in
        let ready : IsReady end p 14 = omega arith in
        rw e (
          parse_layer3_packet_by_proto-Good end 6 (nested_at end 6) (nested_at-Good end 6)
            ether_type p 14 ready (omega arith))

-- From a new packet whose buffer holds at least one byte more than were read, and at either layer:
-- parse_packet comes to an answer. Its six levels of nesting are enough, no assert fails and
-- nothing is read outside the buffer. Whatever the answer is, the packet then has at most six
-- headers, which stand one behind the other from the outermost IP or MPLS header on, and they and
-- the headers that its pointers name end inside the bytes that were read.
pub parse_packet-Good :
    (buffer : List ℕ) (in_bytes : ℕ) (layer : PacketLayer)
    → in_bytes < length buffer
    → Good in_bytes (parse_packet (packet_new buffer) in_bytes layer)
unfolding parse_packet packet_new
parse_packet-Good buffer in_bytes layer_3_ip slack =
    rw (ltb-false (length buffer) in_bytes (omega arith)) (
      parse_layer3_packet-Good in_bytes 6 (nested_at in_bytes 6) (nested_at-Good in_bytes 6)
        (packet_new buffer) 0 (new_IsReady buffer in_bytes slack) (omega arith))
parse_packet-Good buffer in_bytes layer_2_ethernet slack =
    rw (ltb-false (length buffer) in_bytes (omega arith))
      (parse_layer2_packet-Good buffer in_bytes slack)
