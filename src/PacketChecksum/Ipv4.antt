-- ===== src/PacketChecksum/Ipv4.antt =====
-- gtests/net/packetdrill/packet_checksum.c: a TCP segment in an IPv4 packet, as checksum_packet leaves
-- it for the kernel under test.
use packetdrill_mptcp.Base.{
  ℕ, ◌+◌, ◌-◌, ◌*◌, ◌%◌, ◌≤◌, ◌<◌, ◌≡◌, refl, sym, ap, ◌∙◌, List, [], ◌∷◌, ◌++◌, length, leb,
  Option, some, ok, arith, length-append, ltb-false, false,
}
use packetdrill_mptcp.Memory.{load, load_be16, slice, load-append}
use packetdrill_mptcp.Packet.{Packet}
use packetdrill_mptcp.Checksum.{ipv4_checksum, tcp_udp_v4_checksum}
use packetdrill_mptcp.Checksum.Sum.{IsBytes, IsBytes-append}
use packetdrill_mptcp.Checksum.Verify.{
  field, ipv4_checksum-verifies, ipv4_checksum-total, tcp_udp_v4_checksum-verifies,
  tcp_udp_v4_checksum-total,
}
use packetdrill_mptcp.PacketChecksum.{fill_check, checksum_ipv4_packet, checksum_packet}
use packetdrill_mptcp.RunPacket.Verify.{verify_outbound_live_checksums}
use packetdrill_mptcp.PacketChecksum.Fill.{
  take-append, drop-append, append_assoc, around, fill_check-around,
}

slice-append :
    (xs mid ys : List ℕ) (p n : ℕ)
    → p ≡ length xs
    → n ≡ length mid
    → slice (xs ++ (mid ++ ys)) p n ≡ ok mid
unfolding slice
slice-append xs mid ys p n e f =
    rw
      (
        ltb-false (length (xs ++ (mid ++ ys))) (p + n)
            (omega (arith, length-append xs (mid ++ ys), length-append mid ys)),
        drop-append xs (mid ++ ys) p e,
        take-append mid ys n f,
      )
      refl

not_leb : (a b : ℕ) → b < a → leb a b ≡ false
not_leb a b h = ground arith

two_bytes :
    (mem : List ℕ) (p hi lo : ℕ)
    → load mem p ≡ ok hi
    → load mem (p + 1) ≡ ok lo
    → load_be16 mem p ≡ ok (hi * 256 + lo)
unfolding load_be16
two_bytes mem p hi lo e f = rw (e, f) refl

-- The first ten bytes of an IPv4 header and its addresses and options, the TCP header up to its
-- checksum and what follows it.
module _ (before after : List ℕ)
    (first tos high low id_high id_low frag_high frag_low ttl protocol : ℕ)
    (src dst options tcp_head tcp_tail : List ℕ) where
  abbrev pub ip_head : List ℕ
  ip_head = first ∷ tos ∷ high ∷ low ∷ id_high ∷ id_low ∷ frag_high ∷ frag_low ∷ ttl ∷ protocol ∷ []

  abbrev pub ip_header : ℕ → List ℕ
  ip_header check = ip_head ++ (field check ++ (src ++ (dst ++ options)))

  abbrev pub segment : ℕ → List ℕ
  segment check = tcp_head ++ (field check ++ tcp_tail)

  abbrev pub wire : ℕ → ℕ → List ℕ
  wire ip_check tcp_check = before ++ (ip_header ip_check ++ (segment tcp_check ++ after))

  byte_lem :
      (rest : List ℕ) (p i b : ℕ)
      → p ≡ length before + i
      → load rest i ≡ ok b
      → load (before ++ rest) p ≡ ok b
  byte_lem rest p i b e h = load-append before rest i p e ∙ h

  first_lem : (c d : ℕ) → load (wire c d) (length before) ≡ ok first
  unfolding load
  first_lem c d =
      byte_lem (ip_header c ++ (segment d ++ after)) (length before) 0 first (omega arith) refl

  third : (c d : ℕ) → load (wire c d) (length before + 2) ≡ ok high
  unfolding load
  third c d = byte_lem (ip_header c ++ (segment d ++ after)) (length before + 2) 2 high refl refl

  fourth : (c d : ℕ) → load (wire c d) (length before + 2 + 1) ≡ ok low
  unfolding load
  fourth c d =
      byte_lem (ip_header c ++ (segment d ++ after)) (length before + 2 + 1) 3 low (omega arith)
        refl

  tot_len_lem : (c d : ℕ) → load_be16 (wire c d) (length before + 2) ≡ ok (high * 256 + low)
  tot_len_lem c d = two_bytes (wire c d) (length before + 2) high low (third c d) (fourth c d)

  -- The bytes of the header in front of the addresses, and what stands behind those.
  abbrev front : ℕ → List ℕ
  front c = before ++ (ip_head ++ field c)

  src_split :
      (c d : ℕ) → wire c d ≡ (front c ++ (src ++ ((dst ++ options) ++ (segment d ++ after))))
  src_split c d =
      ap (λ l. before ++ (ip_head ++ (field c ++ l)))
        (append_assoc src (dst ++ options) (segment d ++ after))
      ∙ sym (
          append_assoc before (ip_head ++ field c)
            (src ++ ((dst ++ options) ++ (segment d ++ after))))

  dst_split :
      (c d : ℕ) → wire c d ≡ ((front c ++ src) ++ (dst ++ (options ++ (segment d ++ after))))
  dst_split c d =
      src_split c d
      ∙ ap (λ l. front c ++ (src ++ l)) (append_assoc dst options (segment d ++ after))
      ∙ sym (append_assoc (front c) src (dst ++ (options ++ (segment d ++ after))))

  length-front : (c : ℕ) → length (front c) ≡ length before + 12
  length-front c = omega (arith, length-append before (ip_head ++ field c))

  src_lem : (c d : ℕ) → length src ≡ 4 → slice (wire c d) (length before + 12) 4 ≡ ok src
  src_lem c d e =
      ap (λ m. slice m (length before + 12) 4) (src_split c d)
      ∙ slice-append (front c) src ((dst ++ options) ++ (segment d ++ after)) (length before + 12) 4
          (sym (length-front c)) (sym e)

  dst_lem :
      (c d : ℕ) → length src ≡ 4 → length dst ≡ 4 → slice (wire c d) (length before + 16) 4 ≡ ok dst
  dst_lem c d e f =
      ap (λ m. slice m (length before + 16) 4) (dst_split c d)
      ∙ slice-append (front c ++ src) dst (options ++ (segment d ++ after)) (length before + 16) 4
          (omega (arith, length-append (front c) src, length-front c)) (sym f)

  segment_fill :
      (checksum : List ℕ → Option ℕ) (c old d tcp offset len : ℕ)
      → tcp ≡ length before + (20 + length options)
      → length src ≡ 4
      → length dst ≡ 4
      → offset ≡ length tcp_head
      → len ≡ length tcp_head + 2 + length tcp_tail
      → checksum (segment 0) ≡ some d
      → fill_check checksum (wire c old) tcp offset len ≡ ok (wire c d)
  segment_fill checksum c old d tcp offset len p e f o l h =
      let place : tcp ≡ length (before ++ ip_header c) = omega (
        arith,
        length-append before (ip_header c),
        length-append src (dst ++ options),
        length-append dst options,
      ) in
      ap (λ m. fill_check checksum m tcp offset len)
        (sym (append_assoc before (ip_header c) (segment old ++ after)))
      ∙ ap
          (λ p.
            fill_check checksum (around (before ++ ip_header c) tcp_head tcp_tail after old) p
              offset len)
          place
      ∙ ap
          (λ o.
            fill_check checksum (around (before ++ ip_header c) tcp_head tcp_tail after old)
              (length (before ++ ip_header c)) o len)
          o
      ∙ fill_check-around checksum (before ++ ip_header c) tcp_head tcp_tail after old d len l h
      ∙ ap ok (append_assoc before (ip_header c) (segment d ++ after))

  -- A packet that has these bytes.
  abbrev pub ipv4_tcp : Packet → ℕ → ℕ → Packet
  ipv4_tcp packet c d = record packet {
    buffer = wire c d;
    ipv4_ptr = some (length before);
    tcp_ptr = some (length before + (20 + length options));
  }

  checksums_filled :
      (packet : Packet) (old_ip old_tcp c d : ℕ)
      → length src ≡ 4
      → length dst ≡ 4
      → length tcp_head ≡ 16
      → first % 16 * 4 ≡ 20 + length options
      → high * 256 + low ≡ 20 + length options + (18 + length tcp_tail)
      → high * 256 + low ≤ packet.ip_bytes
      → ipv4_checksum (ip_header 0) ≡ some c
      → tcp_udp_v4_checksum src dst 6 (segment 0) ≡ some d
      → checksum_packet (ipv4_tcp packet old_ip old_tcp) ≡ ok (ipv4_tcp packet c d)
  unfolding checksum_packet checksum_ipv4_packet
  checksums_filled packet old_ip old_tcp c d e f t hl tl fits ip tcp =
      let size : first % 16 * 4 ≡ 12 + length (src ++ (dst ++ options)) =
        omega (arith, length-append src (dst ++ options), length-append dst options) in
      rw
        (
          first_lem old_ip old_tcp,
          fill_check-around ipv4_checksum before ip_head (src ++ (dst ++ options))
              (segment old_tcp ++ after) old_ip c (first % 16 * 4) (omega (arith, size)) ip,
          tot_len_lem c old_tcp,
          src_lem c old_tcp e,
          dst_lem c old_tcp e f,
          ltb-false packet.ip_bytes (high * 256 + low) fits,
          not_leb (high * 256 + low) (first % 16 * 4) (omega arith),
          segment_fill (tcp_udp_v4_checksum src dst 6) c old_tcp d
              (length before + (20 + length options)) 16 (high * 256 + low - first % 16 * 4) refl e
              f (sym t) (omega arith) tcp,
        )
        refl

  header_lem :
      (c d : ℕ)
      → length src ≡ 4
      → length dst ≡ 4
      → first % 16 * 4 ≡ 20 + length options
      → slice (wire c d) (length before) (first % 16 * 4) ≡ ok (ip_header c)
  header_lem c d e f hl =
      slice-append before (ip_header c) (segment d ++ after) (length before) (first % 16 * 4) refl
        (omega (arith, length-append src (dst ++ options), length-append dst options))

  filled_checksums_pass :
      (packet : Packet) (c d : ℕ)
      → length src ≡ 4
      → length dst ≡ 4
      → first % 16 * 4 ≡ 20 + length options
      → ipv4_checksum (ip_header c) ≡ some 0
      → verify_outbound_live_checksums (ipv4_tcp packet c d) ≡ ok tt
  unfolding verify_outbound_live_checksums
  filled_checksums_pass packet c d e f hl h = rw (first_lem c d, header_lem c d e f hl, h) refl

  -- For an IPv4 packet with a TCP segment, whose header length and total length are those of its
  -- parts and whose bytes are bytes, whatever its two checksum fields held: checksum_packet succeeds,
  -- changes nothing but these two fields, and then the checksum of the IPv4 header is 0 and so is
  -- the checksum of the segment under the packet's addresses, and verify_outbound_live_checksums
  -- accepts the packet.
  pub checksum_packet-verifies :
      (packet : Packet) (old_ip old_tcp : ℕ)
      → length src ≡ 4
      → length dst ≡ 4
      → length tcp_head ≡ 16
      → first % 16 * 4 ≡ 20 + length options
      → high * 256 + low ≡ 20 + length options + (18 + length tcp_tail)
      → high * 256 + low ≤ packet.ip_bytes
      → IsBytes ip_head
      → IsBytes src
      → IsBytes dst
      → IsBytes options
      → IsBytes tcp_head
      → IsBytes tcp_tail
      → (c : ℕ) × (d : ℕ) × (checksum_packet (ipv4_tcp packet old_ip old_tcp)
          ≡ ok (ipv4_tcp packet c d))
        × (ipv4_checksum (ip_header c) ≡ some 0)
        × (tcp_udp_v4_checksum src dst 6 (segment d) ≡ some 0)
        × (verify_outbound_live_checksums (ipv4_tcp packet c d) ≡ ok tt)
  checksum_packet-verifies packet old_ip old_tcp e f t hl tl fits hb sb db ob tb rb =
      let (first_b, (tos_b, (high_b, (low_b, more)))) = hb in
      let rest : List ℕ = src ++ (dst ++ options) in
      let rest_bytes = IsBytes-append src (dst ++ options) sb (IsBytes-append dst options db ob) in
      let short : 12 + length rest ≤ 60 =
        omega (arith, length-append src (dst ++ options), length-append dst options) in
      let (c, ip) = ipv4_checksum-total 5 ip_head rest (omega arith) refl hb rest_bytes in
      let (d, tcp) =
        tcp_udp_v4_checksum-total src dst 6 8 tcp_head tcp_tail sb db e f (omega arith)
          (omega arith) t tb rb in
      (
        c,
        d,
        checksums_filled packet old_ip old_tcp c d e f t hl tl fits ip tcp,
        ipv4_checksum-verifies 5 c ip_head rest (omega arith) refl hb rest_bytes ip,
        tcp_udp_v4_checksum-verifies src dst 6 8 d tcp_head tcp_tail sb db e f (omega arith)
            (omega arith) t tb rb tcp,
        filled_checksums_pass packet c d e f hl
            (ipv4_checksum-verifies 5 c ip_head rest (omega arith) refl hb rest_bytes ip),
      )
