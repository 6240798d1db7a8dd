-- ===== src/Packet.antt =====
-- gtests/net/packetdrill/packet.h, packet.c and header.h: a packet and the metadata of its headers.
-- The buffer is a list of bytes and a pointer into it is an index. The array of PACKET_MAX_HEADERS
-- headers, which ends at the first of type HEADER_NONE, is the list of the headers before that.
pub mod Parser
use packetdrill_mptcp.Base.{
  ℕ, zero, suc, ◌+◌, ◌*◌, ◌/◌, ◌<◌, Bool, true, false, List, [], ◌∷◌, ◌++◌, length, ◌==◌, ltb,
  if◌then◌else◌, Option, none, some, Outcome, ok, fault, ◌>>=◌,
}
use packetdrill_mptcp.Memory.{load}

-- enum header_t, without HEADER_NONE and HEADER_NUM_TYPES.
pub data HeaderType : Type 0 where
  header_ipv4 header_ipv6 header_gre header_mpls : HeaderType
  header_tcp header_udp header_icmpv4 header_icmpv6 : HeaderType

-- struct header.
pub record Header : Type 0 where
  pub type : HeaderType
  pub header_bytes : ℕ
  pub total_bytes : ℕ
  pub ptr : ℕ

abbrev pub packet_max_headers : ℕ
packet_max_headers = 6

-- struct packet, as far as the parser reads and writes it; `none` is the null pointer.
pub record Packet : Type 0 where
  pub buffer : List ℕ
  pub l2_header_bytes : ℕ
  pub ip_bytes : ℕ
  pub headers : List Header
  pub ipv4_ptr : Option ℕ
  pub ipv6_ptr : Option ℕ
  pub tcp_ptr : Option ℕ
  pub udp_ptr : Option ℕ
  pub icmpv4_ptr : Option ℕ
  pub icmpv6_ptr : Option ℕ

-- packet_new zeroes the struct; the buffer is what malloc and the reader of the packet left there.
unfoldable pub packet_new : List ℕ → Packet
packet_new buffer = record {
  buffer = buffer;
  l2_header_bytes = 0;
  ip_bytes = 0;
  headers = [];
  ipv4_ptr = none;
  ipv6_ptr = none;
  tcp_ptr = none;
  udp_ptr = none;
  icmpv4_ptr = none;
  icmpv6_ptr = none;
}

abbrev pub packet_header_count : Packet → ℕ
packet_header_count p = length p.headers

-- The last of a list, from its first element on.
unfoldable pub last_of : Header → List Header → Header
last_of h [] = h
last_of h (g ∷ gs) = last_of g gs

-- packet_inner_header asserts that there is a header.
unfoldable pub inner_header : List Header → Outcome Header
unfolding last_of
inner_header [] = fault
inner_header (h ∷ hs) = ok (last_of h hs)

unfoldable pub packet_inner_header : Packet → Outcome Header
unfolding inner_header
packet_inner_header p = inner_header p.headers

-- packet_append_header, with the caller's assignment of total_bytes, which follows each call;
-- `none` is the null pointer.
unfoldable pub packet_append_header : Packet → HeaderType → ℕ → ℕ → Option Packet
packet_append_header p header_type header_bytes total_bytes =
    if length p.headers == packet_max_headers
    then none
    else if ltb (length p.buffer) (p.ip_bytes + header_bytes)
    then none
    else some (record p {
      headers =
          p.headers
          ++ (record {
            type = header_type;
            header_bytes = header_bytes;
            total_bytes = total_bytes;
            ptr = p.l2_header_bytes + p.ip_bytes;
          }
              ∷ []);
      ip_bytes = p.ip_bytes + header_bytes;
    })

-- packet_tcp_header_len: the data offset is the high half of byte 12.
unfoldable pub tcp_header_len : List ℕ → ℕ → Outcome ℕ
tcp_header_len mem tcp = do b ← load mem (tcp + 12); ok ((b / 16) * 4)
