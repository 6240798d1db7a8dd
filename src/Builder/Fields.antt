-- ===== src/Builder/Fields.antt =====
-- gtests/net/packetdrill/tcp_packet.c and ip_packet.c: what the readers of headers find in the TCP
-- header of a new packet.
use packetdrill_mptcp.Base.{
  ℕ, ◌+◌, ◌*◌, ◌/◌, ◌%◌, ◌^◌, ◌<◌, ◌≡◌, refl, arith, Bool, List, ◌++◌, length, ok,
}
use packetdrill_mptcp.Memory.{load, load_be16}
use packetdrill_mptcp.Socket.{Tcp, load_tcp, load_be32, bit}
use packetdrill_mptcp.RunPacket.Verify.{bit_value}
use packetdrill_mptcp.Builder.{
  ipv4_header, ipv6_header, is_tcp_flag_set, flags_byte, tcp_header, TcpSpec, option_bytes,
}

-- The TCP header that is read back.
abbrev pub requested : TcpSpec → ℕ → Tcp
requested spec window = record {
  src_port = 0;
  dst_port = 0;
  seq = spec.start_sequence;
  ack_seq = spec.ack_sequence;
  res1 = 0;
  res2 = 0;
  doff = 5 + length (option_bytes spec.tcp_options) / 4;
  fin = is_tcp_flag_set b'F' spec.flags;
  syn = is_tcp_flag_set b'S' spec.flags;
  rst = is_tcp_flag_set b'R' spec.flags;
  psh = is_tcp_flag_set b'P' spec.flags;
  ack = is_tcp_flag_set b'.' spec.flags;
  urg = is_tcp_flag_set b'U' spec.flags;
  ece = is_tcp_flag_set b'E' spec.flags;
  cwr = is_tcp_flag_set b'W' spec.flags;
  window = window;
  check = 0;
  urg_ptr = bit_value (is_tcp_flag_set b'U' spec.flags);
}

be16_back : (n : ℕ) → n < 65536 → n / 256 % 256 * 256 + n % 256 ≡ n
be16_back n h = omega arith

be32_back :
    (n : ℕ)
    → n < 2 ^ 32
    → (n / 2 ^ 24 % 256 * 256 + n / 2 ^ 16 % 256) * 2 ^ 16 + (n / 2 ^ 8 % 256 * 256 + n % 256) ≡ n
be32_back n h = omega arith

-- The bits of a byte that is a sum of bits.
module _ (b0 b1 b2 b3 b4 b5 b6 b7 : Bool) where
  abbrev byte : ℕ
  byte =
      bit_value b0
      + 2 * bit_value b1
      + 4 * bit_value b2
      + 8 * bit_value b3
      + 16 * bit_value b4
      + 32 * bit_value b5
      + 64 * bit_value b6
      + 128 * bit_value b7

  bit-0 : bit byte 0 ≡ b0
  bit-0 = ground arith

  bit-1 : bit byte 1 ≡ b1
  bit-1 = ground arith

  bit-2 : bit byte 2 ≡ b2
  bit-2 = ground arith

  bit-3 : bit byte 3 ≡ b3
  bit-3 = ground arith

  bit-4 : bit byte 4 ≡ b4
  bit-4 = ground arith

  bit-5 : bit byte 5 ≡ b5
  bit-5 = ground arith

  bit-6 : bit byte 6 ≡ b6
  bit-6 = ground arith

  bit-7 : bit byte 7 ≡ b7
  bit-7 = ground arith

-- Behind an IP header stands the rest.
pub load_tcp-ipv4 :
    (ip_bytes tos protocol : ℕ) (rest : List ℕ)
    → load_tcp (ipv4_header ip_bytes tos protocol ++ rest) 20 ≡ load_tcp rest 0
unfolding load_tcp load_be32 load_be16 load
load_tcp-ipv4 ip_bytes tos protocol rest = refl

pub load_tcp-ipv6 :
    (payload_len tc protocol : ℕ) (rest : List ℕ)
    → load_tcp (ipv6_header payload_len tc protocol ++ rest) 40 ≡ load_tcp rest 0
unfolding load_tcp load_be32 load_be16 load
load_tcp-ipv6 payload_len tc protocol rest = refl

-- The header as it is read, before its numbers are put together.
pub load_tcp-header :
    (doff urg_ptr seq ack_seq window : ℕ) (flags rest : List ℕ)
    → seq < 2 ^ 32
    → ack_seq < 2 ^ 32
    → window < 65536
    → load_tcp (tcp_header doff flags urg_ptr seq ack_seq window ++ rest) 0
      ≡ ok (record {
        src_port = 0;
        dst_port = 0;
        seq = seq;
        ack_seq = ack_seq;
        res1 = 0;
        res2 = 0;
        doff = doff;
        fin = is_tcp_flag_set b'F' flags;
        syn = is_tcp_flag_set b'S' flags;
        rst = is_tcp_flag_set b'R' flags;
        psh = is_tcp_flag_set b'P' flags;
        ack = is_tcp_flag_set b'.' flags;
        urg = is_tcp_flag_set b'U' flags;
        ece = is_tcp_flag_set b'E' flags;
        cwr = is_tcp_flag_set b'W' flags;
        window = window;
        check = 0;
        urg_ptr = urg_ptr;
      })
unfolding load_tcp load_be32 load_be16 load flags_byte
load_tcp-header doff urg_ptr seq ack_seq window flags rest s a w =
    let f = is_tcp_flag_set b'F' flags in
    let y = is_tcp_flag_set b'S' flags in
    let r = is_tcp_flag_set b'R' flags in
    let p = is_tcp_flag_set b'P' flags in
    let k = is_tcp_flag_set b'.' flags in
    let u = is_tcp_flag_set b'U' flags in
    let e = is_tcp_flag_set b'E' flags in
    let c = is_tcp_flag_set b'W' flags in
    let res1 : doff * 16 % 4 ≡ 0 = omega arith in
    let res2 : doff * 16 / 4 % 4 ≡ 0 = omega arith in
    let offset : doff * 16 / 16 ≡ doff = omega arith in
    let fin : bit (flags_byte flags) 0 ≡ f = bit-0 f y r p k u e c in
    let syn : bit (flags_byte flags) 1 ≡ y = bit-1 f y r p k u e c in
    let rst : bit (flags_byte flags) 2 ≡ r = bit-2 f y r p k u e c in
    let psh : bit (flags_byte flags) 3 ≡ p = bit-3 f y r p k u e c in
    let ack : bit (flags_byte flags) 4 ≡ k = bit-4 f y r p k u e c in
    let urg : bit (flags_byte flags) 5 ≡ u = bit-5 f y r p k u e c in
    let ece : bit (flags_byte flags) 6 ≡ e = bit-6 f y r p k u e c in
    let cwr : bit (flags_byte flags) 7 ≡ c = bit-7 f y r p k u e c in
    let seq_back = be32_back seq s in
    let ack_back = be32_back ack_seq a in
    let window_back = be16_back window w in
    let urg_back : 0 + urg_ptr ≡ urg_ptr = omega arith in
    λ i. ok (record {
      src_port = 0;
      dst_port = 0;
      seq = seq_back i;
      ack_seq = ack_back i;
      res1 = res1 i;
      res2 = res2 i;
      doff = offset i;
      fin = fin i;
      syn = syn i;
      rst = rst i;
      psh = psh i;
      ack = ack i;
      urg = urg i;
      ece = ece i;
      cwr = cwr i;
      window = window_back i;
      check = 0;
      urg_ptr = urg_back i;
    })
