-- ===== src/Packet/Parser/IpGood.antt =====
-- IPv4, IPv6, MPLS and Ethernet headers and parse_packet: the parser answers for every packet.
use packetdrill_mptcp.Base.{
  ℕ, ◌+◌, ◌-◌, ◌*◌, ◌/◌, ◌%◌, ◌≤◌, ◌≡◌, inl, inr, refl, arith, Bool, true, false, List, length,
  take, drop, ◌==◌, ◌!=◌, ltb, if◌then◌else◌, Option, none, some, ok, status_err, fault, ltb-false,
}
use packetdrill_mptcp.Memory.{load_inside, load_be16_inside, slice}
use packetdrill_mptcp.Checksum.Fold.{ipv4_checksum_total}
use packetdrill_mptcp.Packet.{Packet, header_ipv4, header_ipv6}
use packetdrill_mptcp.Packet.Parser.Layer4.{
  Parsed, ipv6_overflows, header_too_short, full_header_overflows, payload_overflows, header_bigger,
  more_fragments, fragment_offset, bad_checksum,
}
use packetdrill_mptcp.Packet.Parser.Layers.{within, Nested, is_innermost}
use packetdrill_mptcp.Packet.Parser.Ip.{
  finish, finish_ipv4, finish_ipv6, ipv4_inside, ipv4_checked, parse_ipv4, ipv6_inside, parse_ipv6,
}
use packetdrill_mptcp.Packet.Parser.Layout.{
  Fits, IsReady, Good, IsReady-IsParsed, packet_append_header-Appended,
}
use packetdrill_mptcp.Packet.Parser.LayersGood.{NestedGood, guarded, parse_layer4-Good}

Fits-if :
    (b : Bool) (o : Option ℕ) (start n end : ℕ)
    → Fits o n end
    → start + n ≤ end
    → Fits (if b then some start else o) n end
Fits-if true o start n end h k = k
Fits-if false o start n end h k = h

finish_ipv4-Good :
    (end start total : ℕ) (inner outer : Bool) (m : Parsed)
    → start + 20 ≤ end
    → Good end m
    → Good end (finish (λ p. finish_ipv4 p inner outer start total) m)
finish_ipv4-Good end start total inner outer none h g = g
finish_ipv4-Good end start total inner outer (some status_err) h g = g
finish_ipv4-Good end start total inner outer (some fault) h g = g
finish_ipv4-Good end start total inner outer (some (ok (r, p))) h g = record {
  stop = g.stop;
  chain = g.chain;
  fits = g.fits;
  few = g.few;
  pointers =
      let q = g.pointers in (Fits-if inner p.ipv4_ptr start 20 end q.0 h, q.1, q.2, q.3, q.4, q.5);
}

finish_ipv6-Good :
    (end start total : ℕ) (inner outer : Bool) (m : Parsed)
    → start + 40 ≤ end
    → Good end m
    → Good end (finish (λ p. finish_ipv6 p inner outer start total) m)
finish_ipv6-Good end start total inner outer none h g = g
finish_ipv6-Good end start total inner outer (some status_err) h g = g
finish_ipv6-Good end start total inner outer (some fault) h g = g
finish_ipv6-Good end start total inner outer (some (ok (r, p))) h g = record {
  stop = g.stop;
  chain = g.chain;
  fits = g.fits;
  few = g.few;
  pointers =
      let q = g.pointers in (q.0, Fits-if inner p.ipv6_ptr start 40 end q.1 h, q.2, q.3, q.4, q.5);
}

slice_inside :
    (mem : List ℕ) (p n : ℕ) → p + n ≤ length mem → (xs : List ℕ) × (slice mem p n ≡ ok xs)
unfolding slice
slice_inside mem p n h = (take n (drop p mem), rw (ltb-false (length mem) (p + n) h) refl)

module _ (end fuel : ℕ) (nested : Nested) (inside : NestedGood end fuel nested) where
  ipv4_inside-Good :
      (p : Packet) (start header_bytes total_bytes protocol : ℕ)
      → IsReady end p start
      → 20 ≤ header_bytes
      → header_bytes ≤ total_bytes
      → start + total_bytes ≤ end
      → 6 ≤ fuel + length p.headers
      → Good end (ipv4_inside end nested p start header_bytes total_bytes protocol)
  unfolding ipv4_inside
  ipv4_inside-Good p start n total protocol w low le fits enough =
      elim (packet_append_header-Appended end start p header_ipv4 n total w) [
        | inl none_left ↦ rw (ipv4_inside, none_left) (IsReady-IsParsed end start p w)
        | inr (p', some_left, a) ↦
            rw (ipv4_inside, some_left, ltb-false end (start + n) (omega arith))
              (finish_ipv4-Good end start total (is_innermost protocol) (p.ip_bytes == 0) _
                (omega arith)
                (parse_layer4-Good end fuel nested inside p' (start + n) protocol (total - n)
                  (a.ready (omega arith)) (omega arith) (omega (arith, a.one_more))
                  (omega (arith, a.one_more))))
      ]

  ipv4_checked-Good :
      (p : Packet) (start header_bytes total_bytes frag_off protocol : ℕ)
      → IsReady end p start
      → 20 ≤ header_bytes
      → start + header_bytes ≤ end
      → 6 ≤ fuel + length p.headers
      → Good end (ipv4_checked end nested p start header_bytes total_bytes frag_off protocol)
  unfolding ipv4_checked
  ipv4_checked-Good p start n total frag_off protocol w low fits enough =
      guarded end start (ltb end (start + total)) payload_overflows p _ w λ fits_all.
        guarded end start (ltb total n) header_bigger p _ w λ le.
          guarded end start (frag_off / 8192 % 2 == 1) more_fragments p _ w λ _.
            guarded end start (frag_off % 8192 != 0) fragment_offset p _ w λ _.
              let (header, e) = slice_inside p.buffer start n (omega (arith, w.slack)) in
              let (c, e') = ipv4_checksum_total header in
              rw (e, within, e')
                (guarded end start (c != 0) bad_checksum p _ w λ _.
                  ipv4_inside-Good p start n total protocol w low (ground arith) (ground arith)
                    enough)

  pub parse_ipv4-Good :
      (p : Packet) (start : ℕ)
      → IsReady end p start
      → 6 ≤ fuel + length p.headers
      → Good end (parse_ipv4 end nested p start)
  unfolding parse_ipv4
  parse_ipv4-Good p start w enough =
      let (b, e) = load_inside p.buffer start (omega (arith, w.slack, w.fits)) in
      rw e (
        guarded end start (ltb (b % 16 * 4) 20) header_too_short p _ w λ big.
          guarded end start (ltb end (start + b % 16 * 4)) full_header_overflows p _ w λ fits.
            let low : 20 ≤ b % 16 * 4 = ground arith in
            let high : start + b % 16 * 4 ≤ end = ground arith in
            let (total, e1) = load_be16_inside p.buffer (start + 2) (omega (arith, w.slack)) in
            let (frag_off, e2) = load_be16_inside p.buffer (start + 6) (omega (arith, w.slack)) in
            let (protocol, e3) = load_inside p.buffer (start + 9) (omega (arith, w.slack)) in
            rw (e1, e2, e3)
              (ipv4_checked-Good p start (b % 16 * 4) total frag_off protocol w low high enough))

  ipv6_inside-Good :
      (p : Packet) (start total_bytes next_header : ℕ)
      → IsReady end p start
      → 40 ≤ total_bytes
      → start + total_bytes ≤ end
      → 6 ≤ fuel + length p.headers
      → Good end (ipv6_inside end nested p start total_bytes next_header)
  unfolding ipv6_inside
  ipv6_inside-Good p start total next_header w le fits enough =
      elim (packet_append_header-Appended end start p header_ipv6 40 total w) [
        | inl none_left ↦ rw (ipv6_inside, none_left) (IsReady-IsParsed end start p w)
        | inr (p', some_left, a) ↦
            rw (ipv6_inside, some_left, ltb-false end (start + 40) (omega arith))
              (finish_ipv6-Good end start total (is_innermost next_header) (p.ip_bytes == 0) _
                (omega arith)
                (parse_layer4-Good end fuel nested inside p' (start + 40) next_header (total - 40)
                  (a.ready (omega arith)) (omega arith) (omega (arith, a.one_more))
                  (omega (arith, a.one_more))))
      ]

  pub parse_ipv6-Good :
      (p : Packet) (start : ℕ)
      → IsReady end p start
      → 6 ≤ fuel + length p.headers
      → Good end (parse_ipv6 end nested p start)
  unfolding parse_ipv6
  parse_ipv6-Good p start w enough =
      guarded end start (ltb end (start + 40)) ipv6_overflows p _ w λ fits.
        let high : start + 40 ≤ end = ground arith in
        let (n, e1) = load_be16_inside p.buffer (start + 4) (omega (arith, w.slack)) in
        let (next_header, e2) = load_inside p.buffer (start + 6) (omega (arith, w.slack)) in
        rw e1 (
          guarded end start (ltb end (start + (40 + n))) payload_overflows p _ w λ fits_all.
            rw e2
              (ipv6_inside-Good p start (40 + n) next_header w (omega arith) (ground arith) enough))
