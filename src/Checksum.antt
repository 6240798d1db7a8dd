-- ===== src/Checksum.antt =====
-- gtests/net/packetdrill/checksum.c: the Internet checksum, on a little-endian host as in the
-- source's main loop. Bytes are lists; sums are u64.
pub mod Fold
pub mod Sum
pub mod Verify
use packetdrill_mptcp.Base.{
  ℕ, zero, suc, ◌+◌, ◌-◌, ◌*◌, ◌/◌, ◌%◌, ◌^◌, List, [], ◌∷◌, ◌++◌, ◌==◌, Option, none, some, Bool,
  true, false, length, take,
}

abbrev pub u64 : ℕ → ℕ
u64 n = n % 2 ^ 64

abbrev pub u16 : ℕ → ℕ
u16 n = n % 2 ^ 16

-- What a little-endian host loads from two and from four bytes.
abbrev pub le16 : ℕ → ℕ → ℕ
le16 a b = a + 256 * b

abbrev pub le32 : ℕ → ℕ → ℕ → ℕ → ℕ
le32 a b c d = a + 256 * b + 65536 * c + 16777216 * d

-- ntohs and htons on such a host.
abbrev pub swap16 : ℕ → ℕ
swap16 n = n % 256 * 256 + n / 256 % 256

-- `*p8 << 8` is computed in int and cut to 16 bits by ntohs.
pub ip_checksum_partial : List ℕ → ℕ → ℕ
ip_checksum_partial (a ∷ b ∷ c ∷ d ∷ rest) sum = ip_checksum_partial rest (u64 (sum + le32 a b c d))
ip_checksum_partial (a ∷ b ∷ c ∷ []) sum = u64 (u64 (sum + le16 a b) + swap16 (u16 (c * 256)))
ip_checksum_partial (a ∷ b ∷ []) sum = u64 (sum + le16 a b)
ip_checksum_partial (a ∷ []) sum = u64 (sum + swap16 (u16 (a * 256)))
ip_checksum_partial [] sum = sum

-- The two loops of ip_checksum_fold, on fuel; `none` is fuel that ran out.
pub fold_32 : ℕ → ℕ → Option ℕ
fold_32 zero sum = none
fold_32 (suc fuel) sum = elim (sum / 2 ^ 32 == 0) [
  | true ↦ some sum
  | false ↦ fold_32 fuel (u64 (sum / 2 ^ 32 + sum % 2 ^ 32))
]

-- Its test reads the low 32 bits only: `sum & 0xffff0000`.
pub fold_16 : ℕ → ℕ → Option ℕ
fold_16 zero sum = none
fold_16 (suc fuel) sum = elim (sum % 2 ^ 32 / 2 ^ 16 == 0) [
  | true ↦ some sum
  | false ↦ fold_16 fuel (u64 (sum / 2 ^ 16 + sum % 2 ^ 16))
]

-- `~sum`, cut to 16 bits.
pub complement16 : ℕ → ℕ
complement16 sum = 65535 - u16 sum

-- Three rounds are enough for each loop.
unfoldable pub ip_checksum_fold : ℕ → Option ℕ
unfolding fold_32 fold_16 complement16
ip_checksum_fold sum = elim (fold_32 3 sum) [
  | none ↦ none
  | some s ↦ elim (fold_16 3 s) [ none ↦ none | some t ↦ some (complement16 t) ]
]

unfoldable pub ipv4_checksum : List ℕ → Option ℕ
unfolding ip_checksum_partial ip_checksum_fold
ipv4_checksum header = ip_checksum_fold (ip_checksum_partial header 0)

-- struct ipv4_pseudo_header_t and struct ipv6_pseudo_header_t, in memory order.
abbrev pub ipv4_pseudo_header : List ℕ → List ℕ → ℕ → ℕ → List ℕ
ipv4_pseudo_header src dst protocol len =
    src ++ (dst ++ (0 ∷ protocol ∷ len / 256 % 256 ∷ len % 256 ∷ []))

abbrev pub ipv6_pseudo_header : List ℕ → List ℕ → ℕ → ℕ → List ℕ
ipv6_pseudo_header src dst protocol len =
    src
    ++ (dst
        ++ (len / 2 ^ 24 % 256
            ∷ len / 65536 % 256
            ∷ len / 256 % 256
            ∷ len % 256
            ∷ 0
            ∷ 0
            ∷ 0
            ∷ protocol
            ∷ []))

pub tcp_udp_v4_header_checksum_partial : List ℕ → List ℕ → ℕ → ℕ → ℕ
tcp_udp_v4_header_checksum_partial src dst protocol len =
    ip_checksum_partial (ipv4_pseudo_header src dst protocol len) 0

pub tcp_udp_v6_header_checksum_partial : List ℕ → List ℕ → ℕ → ℕ → ℕ
tcp_udp_v6_header_checksum_partial src dst protocol len =
    ip_checksum_partial (ipv6_pseudo_header src dst protocol len) 0

-- The source's `len` is the length of the payload; here it is a u16, of which a longer payload's
-- length keeps the remainder, and only so many bytes are summed.
unfoldable pub tcp_udp_v4_checksum : List ℕ → List ℕ → ℕ → List ℕ → Option ℕ
unfolding tcp_udp_v4_header_checksum_partial ip_checksum_partial ip_checksum_fold
tcp_udp_v4_checksum src dst protocol payload =
    let len = length payload % 2 ^ 16 in
    ip_checksum_fold (
      ip_checksum_partial (take len payload)
        (tcp_udp_v4_header_checksum_partial src dst protocol len))

-- The source's `len` is the length of the payload, a u32.
unfoldable pub tcp_udp_v6_checksum : List ℕ → List ℕ → ℕ → List ℕ → Option ℕ
unfolding tcp_udp_v6_header_checksum_partial ip_checksum_partial ip_checksum_fold
tcp_udp_v6_checksum src dst protocol payload = ip_checksum_fold (
    ip_checksum_partial payload
      (tcp_udp_v6_header_checksum_partial src dst protocol (length payload)))
