-- ===== src/RunPacket/Options.antt =====
-- gtests/net/packetdrill/run_packet.c: the TCP options of an outbound live packet are compared with
-- those of the script's packet, of which the options may have another order. A packet is its bytes
-- with the place of its TCP header. A fault also stands for a loop whose fuel runs out.
pub mod Mptcp
pub mod Found
pub mod Same
pub mod Verdict
use packetdrill_mptcp.Base.{
  ℕ, zero, suc, ◌+◌, ◌/◌, Bool, true, false, List, [], ◌∷◌, ◌==◌, if◌then◌else◌, Option, none, some,
  Outcome, ok, fault, ◌>>=◌,
}
use packetdrill_mptcp.Memory.{load, slice}
use packetdrill_mptcp.Packet.{tcp_header_len}
use packetdrill_mptcp.Socket.{Tcp, load_tcp, equal_bytes}
use packetdrill_mptcp.TcpOptions.Iterator.{
  Iterator, tcp_options_begin, tcp_options_next, find_option, kind_is, subtype_is,
}
use packetdrill_mptcp.RunPacket.Options.Mptcp.{same_mptcp_opt}

abbrev pub ran {ℓ} : {A : Type ℓ} → Option (Outcome A) → Outcome A
ran none = fault
ran (some answer) = answer

-- An option of a kind with a length byte: memcmp of the bytes that the length of the first counts.
unfoldable pub same_plain_option : List ℕ → ℕ → List ℕ → ℕ → Outcome Bool
same_plain_option mem_a opt_a mem_b opt_b = do
  length_a ← load mem_a (opt_a + 1)
  length_b ← load mem_b (opt_b + 1)
  if length_a == length_b
      then (slice mem_b opt_b length_a >>= λ bytes_b.
          slice mem_a opt_a length_a >>= λ bytes_a. ok (equal_bytes bytes_b bytes_a))
      else ok false

abbrev pub same_of_kind : List ℕ → ℕ → List ℕ → ℕ → ℕ → ℕ → Outcome Bool
same_of_kind mem_a tcp_a mem_b opt_a opt_b kind_a =
    if kind_a == 1
    then ok true
    else if kind_a == 30
    then (load_tcp mem_a tcp_a >>= λ tcp. same_mptcp_opt mem_a opt_a mem_b opt_b tcp.syn tcp.ack)
    else same_plain_option mem_a opt_a mem_b opt_b

-- The loops that look for the option of the other packet: the first of the kind and, for MPTCP, from
-- there on the first whose third byte has the subtype, whatever its kind.
abbrev pub next_of_subtype : List ℕ → List ℕ → ℕ → ℕ → Option ℕ → Outcome (Option ℕ)
next_of_subtype mem_a mem_b options_end opt_a none = ok none
next_of_subtype mem_a mem_b options_end opt_a (some opt_b) = load mem_a (opt_a + 2) >>= λ byte.
    ran (
      find_option (subtype_is mem_b (byte / 16)) mem_b 41
        (record { current_option = some opt_b; options_end = options_end }))

unfoldable pub find_counterpart : List ℕ → List ℕ → Iterator → ℕ → ℕ → Outcome (Option ℕ)
find_counterpart mem_a mem_b iter_b opt_a kind_a =
    ran (find_option (kind_is mem_b kind_a) mem_b 41 iter_b) >>= λ found.
    if kind_a == 30 then next_of_subtype mem_a mem_b iter_b.options_end opt_a found else ok found

abbrev pub same_as_found : List ℕ → ℕ → List ℕ → ℕ → ℕ → Option ℕ → Outcome Bool
same_as_found mem_a tcp_a mem_b opt_a kind_a none = ok false
same_as_found mem_a tcp_a mem_b opt_a kind_a (some opt_b) =
    same_of_kind mem_a tcp_a mem_b opt_a opt_b kind_a

-- One turn of the outer loop: whether the option has its like in the other packet.
unfoldable pub has_counterpart : List ℕ → ℕ → List ℕ → Iterator → ℕ → Outcome Bool
has_counterpart mem_a tcp_a mem_b iter_b opt_a = do
  kind_a ← load mem_a opt_a
  found ← find_counterpart mem_a mem_b iter_b opt_a kind_a
  same_as_found mem_a tcp_a mem_b opt_a kind_a found

-- The outer loop. For each option, the search starts again at the first option of the other packet.
unfoldable pub compare_options : List ℕ → ℕ → List ℕ → Iterator → ℕ → Iterator → Outcome Bool
compare_options mem_a tcp_a mem_b iter_b zero iter_a = fault
compare_options mem_a tcp_a mem_b iter_b (suc fuel) iter_a = elim iter_a.current_option [
  | none ↦ ok true
  | some opt_a ↦ has_counterpart mem_a tcp_a mem_b iter_b opt_a >>= λ same. elim same [
    | false ↦ ok false
    | true ↦ tcp_options_next false mem_a iter_a >>= λ next_a.
        compare_options mem_a tcp_a mem_b iter_b fuel next_a
  ]
]

unfoldable pub same_tcp_options : List ℕ → ℕ → List ℕ → ℕ → Outcome Bool
same_tcp_options mem_a tcp_a mem_b tcp_b = do
  len_a ← tcp_header_len mem_a tcp_a
  len_b ← tcp_header_len mem_b tcp_b
  if len_a == len_b
      then (tcp_options_begin mem_a tcp_a >>= λ iter_a. tcp_options_begin mem_b tcp_b >>= λ iter_b.
          compare_options mem_a tcp_a mem_b iter_b 41 iter_a)
      else ok false
