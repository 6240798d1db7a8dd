-- ===== src/Examples/Checksums.antt =====
-- Runs and instances of the theorems on the Internet checksum.
use packetdrill_mptcp.Base.{ℕ, ◌-◌, ◌≡◌, refl, arith, List, [], ◌∷◌, ◌++◌, some}
use packetdrill_mptcp.Checksum.{
  ip_checksum_partial, ip_checksum_fold, ipv4_checksum, tcp_udp_v4_checksum,
}
use packetdrill_mptcp.Checksum.Fold.{Folds, ip_checksum_fold-Folds}
use packetdrill_mptcp.Checksum.Sum.{Sums, ip_checksum_partial-Sums}
use packetdrill_mptcp.Checksum.Verify.{field, ipv4_checksum-verifies, tcp_udp_v4_checksum-verifies}

-- An IPv4 header of 20 bytes, in front of and behind its checksum field.
abbrev before_field : List ℕ
before_field = 0x45 ∷ 0 ∷ 0 ∷ 40 ∷ 0 ∷ 0 ∷ 0 ∷ 0 ∷ 255 ∷ 6 ∷ []

abbrev behind_field : List ℕ
behind_field = 192 ∷ 0 ∷ 2 ∷ 1 ∷ 192 ∷ 168 ∷ 0 ∷ 1 ∷ []

checksum_of_header : ipv4_checksum (before_field ++ (field 0 ++ behind_field)) ≡ some 0x2539
unfolding ipv4_checksum
checksum_of_header = refl

ip_checksum_fold-Folds_example :
    (s : ℕ) × (ip_checksum_fold 0x1234567890 ≡ some (65535 - s)) × Folds 0x1234567890 s
ip_checksum_fold-Folds_example = ip_checksum_fold-Folds 0x1234567890 (omega arith)

ip_checksum_partial-Sums_example : Sums behind_field 5 (ip_checksum_partial behind_field 5)
ip_checksum_partial-Sums_example =
    ip_checksum_partial-Sums behind_field 5 (omega arith) (omega arith)

ipv4_checksum-verifies_example :
    ipv4_checksum (before_field ++ (field 0x2539 ++ behind_field)) ≡ some 0
ipv4_checksum-verifies_example =
    ipv4_checksum-verifies 5 0x2539 before_field behind_field (omega arith) (omega arith)
      (omega arith) (omega arith) checksum_of_header

abbrev address : List ℕ
address = 10 ∷ 0 ∷ 0 ∷ 1 ∷ []

checksum_of_segment :
    tcp_udp_v4_checksum address address 17 (before_field ++ (field 0 ++ [])) ≡ some 45479
unfolding tcp_udp_v4_checksum
checksum_of_segment = refl

tcp_udp_v4_checksum-verifies_example :
    tcp_udp_v4_checksum address address 17 (before_field ++ (field 45479 ++ [])) ≡ some 0
tcp_udp_v4_checksum-verifies_example =
    tcp_udp_v4_checksum-verifies address address 17 5 45479 before_field [] (omega arith)
      (omega arith) refl refl (omega arith) (omega arith) (omega arith) (omega arith) tt
      checksum_of_segment
