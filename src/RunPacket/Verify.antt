-- ===== src/RunPacket/Verify.antt =====
-- gtests/net/packetdrill/run_packet.c: the headers of a live packet, with its values mapped to the
-- script's, are compared with those of the script's packet. The fields of a header are read, and the allowance
-- for options is computed, before the first is compared. Numbers are compared as u32.
pub mod Fields
pub mod Layers
use packetdrill_mptcp.Base.{
  ℕ, zero, suc, ◌+◌, ◌-◌, ◌*◌, ◌/◌, ◌%◌, ◌^◌, Bool, true, false, not, List, [], ◌∷◌, ◌++◌, length,
  ◌==◌, ◌&&◌, ◌||◌, if◌then◌else◌, Option, none, some, Outcome, ok, status_err, fault, ◌>>=◌,
}
use packetdrill_mptcp.Memory.{load, load_be16, slice}
use packetdrill_mptcp.Packet.{
  Packet, Header, HeaderType, header_ipv4, header_ipv6, header_gre, header_mpls, header_tcp,
  header_udp, header_icmpv4, header_icmpv6, tcp_header_len,
}
use packetdrill_mptcp.Packet.Parser.Layers.{gre_len}
use packetdrill_mptcp.Socket.{Tcp, load_tcp, equal_bytes}
use packetdrill_mptcp.Checksum.{ipv4_checksum}
use packetdrill_mptcp.PacketChecksum.{computed}
use packetdrill_mptcp.RunPacket.{through}

-- enum ip_ecn_t.
pub data Ecn : Type 0 where
  ecn_none ecn_ect0 ecn_ect1 ecn_ce ecn_ect01 ecn_nocheck : Ecn

-- A packet of the script, with its `ecn` and `flags`.
pub record ScriptPacket : Type 0 where
  pub packet : Packet
  pub ecn : Ecn
  pub options_nocheck : Bool
  pub win_nocheck : Bool

abbrev pub check_field : ℕ → ℕ → Outcome {0} Unit
check_field expected actual = if actual == expected then ok tt else status_err

-- One check after the other, up to the first that fails: the pairs of the expected and the actual
-- value.
unfoldable pub check_fields : List (ℕ × ℕ) → Outcome {0} Unit
check_fields [] = ok tt
check_fields ((expected, actual) ∷ rest) = check_field expected actual >>= λ _. check_fields rest

-- IP_ECN_ECT0 is 2 and IP_ECN_ECT1 is 1.
unfoldable pub verify_outbound_live_ecn : Ecn → ℕ → ℕ → Outcome {0} Unit
verify_outbound_live_ecn ecn_nocheck actual_ecn_bits script_ecn_bits = ok tt
verify_outbound_live_ecn ecn_ect01 actual_ecn_bits script_ecn_bits =
    if not (actual_ecn_bits == 2) && not (actual_ecn_bits == 1) then status_err else ok tt
verify_outbound_live_ecn ecn actual_ecn_bits script_ecn_bits =
    check_field script_ecn_bits actual_ecn_bits

-- The length of the live packet's options, which the source computes in an int: here modulo 2 ^ 64.
-- It asserts that there is a TCP header.
unfoldable pub tcp_options_allowance : Packet → ScriptPacket → Outcome ℕ
tcp_options_allowance actual_packet script_packet =
    if script_packet.options_nocheck
    then through actual_packet.tcp_ptr (λ tcp.
      tcp_header_len actual_packet.buffer tcp >>= λ len. ok ((2 ^ 64 + len - 20) % 2 ^ 64))
    else ok 0

-- The fields of struct ipv4 that are compared.
pub record Ipv4 : Type 0 where
  pub version : ℕ
  pub ihl : ℕ
  pub ecn_bits : ℕ
  pub tot_len : ℕ
  pub protocol : ℕ

unfoldable pub load_ipv4 : List ℕ → ℕ → Outcome Ipv4
load_ipv4 mem p = do
  first ← load mem p
  tos ← load mem (p + 1)
  tot_len ← load_be16 mem (p + 2)
  protocol ← load mem (p + 9)
  ok record {
    version = first / 16;
    ihl = first % 16;
    ecn_bits = tos % 4;
    tot_len = tot_len;
    protocol = protocol;
  }

abbrev pub verify_ipv4_fields : ScriptPacket → ℕ → Ipv4 → Ipv4 → Outcome {0} Unit
verify_ipv4_fields script_packet allowance actual script =
    check_fields (
      (script.version, actual.version)
      ∷ (script.protocol, actual.protocol)
      ∷ (script.ihl, actual.ihl)
      ∷ ((script.tot_len + allowance) % 2 ^ 32, actual.tot_len)
      ∷ [])
    >>= λ _. verify_outbound_live_ecn script_packet.ecn actual.ecn_bits script.ecn_bits

unfoldable pub verify_ipv4 : Packet → ScriptPacket → Header → Header → Outcome {0} Unit
verify_ipv4 actual_packet script_packet actual_header script_header = do
  actual ← load_ipv4 actual_packet.buffer actual_header.ptr
  script ← load_ipv4 script_packet.packet.buffer script_header.ptr
  allowance ← tcp_options_allowance actual_packet script_packet
  verify_ipv4_fields script_packet allowance actual script

-- The fields of struct ipv6 that are compared; the low half of the traffic class is the high half
-- of byte 1.
pub record Ipv6 : Type 0 where
  pub version : ℕ
  pub ecn_bits : ℕ
  pub payload_len : ℕ
  pub next_header : ℕ

unfoldable pub load_ipv6 : List ℕ → ℕ → Outcome Ipv6
load_ipv6 mem p = do
  first ← load mem p
  second ← load mem (p + 1)
  payload_len ← load_be16 mem (p + 4)
  next_header ← load mem (p + 6)
  ok record {
    version = first / 16;
    ecn_bits = (second / 16) % 4;
    payload_len = payload_len;
    next_header = next_header;
  }

abbrev pub verify_ipv6_fields : ScriptPacket → ℕ → Ipv6 → Ipv6 → Outcome {0} Unit
verify_ipv6_fields script_packet allowance actual script =
    check_fields (
      (script.version, actual.version)
      ∷ ((script.payload_len + allowance) % 2 ^ 32, actual.payload_len)
      ∷ (script.next_header, actual.next_header)
      ∷ [])
    >>= λ _. verify_outbound_live_ecn script_packet.ecn actual.ecn_bits script.ecn_bits

unfoldable pub verify_ipv6 : Packet → ScriptPacket → Header → Header → Outcome {0} Unit
verify_ipv6 actual_packet script_packet actual_header script_header = do
  actual ← load_ipv6 actual_packet.buffer actual_header.ptr
  script ← load_ipv6 script_packet.packet.buffer script_header.ptr
  allowance ← tcp_options_allowance actual_packet script_packet
  verify_ipv6_fields script_packet allowance actual script

-- A field of one bit.
abbrev pub bit_value : Bool → ℕ
bit_value is_set = if is_set then 1 else 0

abbrev pub window_fields : Bool → Tcp → Tcp → List (ℕ × ℕ)
window_fields true actual script = []
window_fields false actual script = (script.window, actual.window) ∷ []

-- The comparisons of verify_tcp, in its order.
abbrev pub tcp_fields : Bool → ℕ → Tcp → Tcp → List (ℕ × ℕ)
tcp_fields win_nocheck allowance actual script =
    ((script.doff + allowance / 4) % 2 ^ 32, actual.doff)
    ∷ (bit_value script.fin, bit_value actual.fin)
    ∷ (bit_value script.syn, bit_value actual.syn)
    ∷ (bit_value script.rst, bit_value actual.rst)
    ∷ (bit_value script.psh, bit_value actual.psh)
    ∷ (bit_value script.ack, bit_value actual.ack)
    ∷ (bit_value script.urg, bit_value actual.urg)
    ∷ (bit_value script.ece, bit_value actual.ece)
    ∷ (bit_value script.cwr, bit_value actual.cwr)
    ∷ (script.res1, actual.res1)
    ∷ (script.seq, actual.seq)
    ∷ (script.ack_seq, actual.ack_seq)
    ∷ (window_fields win_nocheck actual script ++ ((script.urg_ptr, actual.urg_ptr) ∷ []))

unfoldable pub verify_tcp_fields : Bool → ℕ → Tcp → Tcp → Outcome {0} Unit
verify_tcp_fields win_nocheck allowance actual script =
    check_fields (tcp_fields win_nocheck allowance actual script)

unfoldable pub verify_tcp : Packet → ScriptPacket → Header → Header → Outcome {0} Unit
verify_tcp actual_packet script_packet actual_header script_header = do
  actual ← load_tcp actual_packet.buffer actual_header.ptr
  script ← load_tcp script_packet.packet.buffer script_header.ptr
  allowance ← tcp_options_allowance actual_packet script_packet
  verify_tcp_fields script_packet.win_nocheck allowance actual script

unfoldable pub verify_udp : Packet → ScriptPacket → Header → Header → Outcome {0} Unit
verify_udp actual_packet script_packet actual_header script_header = do
  actual ← load_be16 actual_packet.buffer (actual_header.ptr + 4)
  script ← load_be16 script_packet.packet.buffer (script_header.ptr + 4)
  check_field script actual

-- gre_len, which asserts version 0 and no routing.
unfoldable pub load_gre_len : List ℕ → ℕ → Outcome ℕ
load_gre_len mem p = do
  flags ← load mem p
  version ← load mem (p + 1)
  if not (version % 8 == 0) || flags / 64 % 2 == 1 then fault else ok (gre_len flags)

unfoldable pub verify_gre : Packet → ScriptPacket → Header → Header → Outcome {0} Unit
verify_gre actual_packet script_packet actual_header script_header = do
  script ← load_gre_len script_packet.packet.buffer script_header.ptr
  actual ← load_gre_len actual_packet.buffer actual_header.ptr
  check_field script actual

-- The entries of the label stack, four bytes each.
unfoldable pub verify_entries : List ℕ → List ℕ → ℕ → ℕ → ℕ → Outcome {0} Unit
verify_entries actual_mem script_mem actual script zero = ok tt
verify_entries actual_mem script_mem actual script (suc entries) = do
  actual_entry ← slice actual_mem actual 4
  script_entry ← slice script_mem script 4
  elim (equal_bytes actual_entry script_entry) [
    | true ↦ verify_entries actual_mem script_mem (actual + 4) (script + 4) entries
    | false ↦ status_err
  ]

unfoldable pub verify_mpls : Packet → ScriptPacket → Header → Header → Outcome {0} Unit
verify_mpls actual_packet script_packet actual_header script_header =
    if not (script_header.header_bytes == actual_header.header_bytes)
    then status_err
    else verify_entries actual_packet.buffer script_packet.packet.buffer actual_header.ptr
        script_header.ptr (script_header.header_bytes / 4)

-- verify_outbound_live_checksums: the checksum of the IPv4 header alone.
unfoldable pub verify_outbound_live_checksums : Packet → Outcome {0} Unit
verify_outbound_live_checksums live_packet = elim live_packet.ipv4_ptr [
  | some ipv4 ↦ do
    first ← load live_packet.buffer ipv4
    header ← slice live_packet.buffer ipv4 (first % 16 * 4)
    check ← computed (ipv4_checksum header)
    if check == 0 then ok tt else status_err
  | none ↦ ok tt
]
