-- ===== src/Checksum/Verify.antt =====
-- What a checksum is for: a header that carries its own checksum has checksum 0.
use packetdrill_mptcp.Base.{
  ℕ, suc, ◌+◌, ◌-◌, ◌*◌, ◌/◌, ◌%◌, ◌^◌, ◌≤◌, ◌<◌, ◌≡◌, ◌≢◌, arith, List, [], ◌∷◌, ◌++◌, length,
  take, ◌∙◌, refl, Option, some, ap, sym, length-append, some_inj,
}
use packetdrill_mptcp.Checksum.{
  ip_checksum_partial, ip_checksum_fold, ipv4_checksum, tcp_udp_v4_checksum, ipv4_pseudo_header,
}
use native.Mathlib.Decide.{dec_lt}
use packetdrill_mptcp.Checksum.Fold.{ip_checksum_fold-Folds}
use packetdrill_mptcp.Checksum.Sum.{
  IsBytes, word_sum, Sums, ip_checksum_partial-Sums, word_sum-append, IsBytes-append,
}

-- The checksum field, as the bytes that stand for it in memory.
abbrev pub field : ℕ → List ℕ
field c = c % 256 ∷ c / 256 ∷ []

-- The checksum over a running sum, `head` an even number of bytes.
abbrev pub checksum_from : ℕ → List ℕ → Option ℕ
checksum_from sum bytes = ip_checksum_fold (ip_checksum_partial bytes sum)

-- A sum whose remainder by 65535 is 0, and which is not 0, folds to checksum 0.
folds_to_zero : (n : ℕ) → n < 2 ^ 64 → n % 65535 ≡ 0 → n ≢ 0 → ip_checksum_fold n ≡ some 0
folds_to_zero n h e ne =
    let (s, folded, w) = ip_checksum_fold-Folds n h in
    let full : s ≡ 65535 = elim (dec_lt 0 s) [
      | yes pos ↦ omega (arith, w.fits, w.same)
      | no nought ↦ absurd (ne (w.zero_only (omega arith)))
    ] in
    folded ∙ ap some (omega arith)

-- The sum of a buffer with `c` in the field.
module _ (sum k : ℕ) (head tail : List ℕ)
    (fits : sum + 2 ^ 32 * (length head + length tail + 2) < 2 ^ 64) (even : length head ≡ 2 * k)
    (head_bytes : IsBytes head) (tail_bytes : IsBytes tail) where
  abbrev with_field : ℕ → List ℕ
  with_field c = head ++ (field c ++ tail)

  with_field-Sums :
      (c : ℕ) → c ≤ 65535 → Sums (with_field c) sum (ip_checksum_partial (with_field c) sum)
  with_field-Sums c h =
      ip_checksum_partial-Sums (with_field c) sum
        (IsBytes-append head (field c ++ tail) head_bytes (omega arith, (omega arith, tail_bytes)))
        (omega (arith, length-append head (field c ++ tail)))

  word_sum-with_field : (c : ℕ) → word_sum (with_field c) ≡ word_sum head + c + word_sum tail
  word_sum-with_field c = omega (arith, word_sum-append k head (field c ++ tail) even)

  with_field-lt : (c : ℕ) → c ≤ 65535 → ip_checksum_partial (with_field c) sum < 2 ^ 64
  with_field-lt c h =
      omega (arith, (with_field-Sums c h).bounded, length-append head (field c ++ tail))

  -- Whatever has been summed before, and at any even place: writing the checksum of the bytes with
  -- a zeroed field into that field makes the checksum of the whole 0.
  pub checksum_from-verifies :
      (c : ℕ)
      → checksum_from sum (with_field 0) ≡ some c
      → checksum_from sum (with_field c) ≡ some 0
  checksum_from-verifies c e =
      let n0 = ip_checksum_partial (with_field 0) sum in
      let n1 = ip_checksum_partial (with_field c) sum in
      let s0 = with_field-Sums 0 (omega arith) in
      let (s, folded, w) = ip_checksum_fold-Folds n0 (with_field-lt 0 (omega arith)) in
      let is_c : 65535 - s ≡ c = some_inj (65535 - s) c (sym folded ∙ e) in
      let small : c ≤ 65535 = omega arith in
      let s1 = with_field-Sums c small in
      folds_to_zero n1 (with_field-lt c small)
        (omega (
          arith,
          s1.remainder,
          s0.remainder,
          w.same,
          w.fits,
          word_sum-with_field 0,
          word_sum-with_field c,
        ))
        (λ none_left. omega (
          arith,
          s1.zero_only none_left,
          s1.grows,
          s0.scaled,
          w.le,
          word_sum-with_field 0,
          word_sum-with_field c,
        ))

  pub checksum_from-total :
      (c : ℕ) → c ≤ 65535 → (d : ℕ) × (checksum_from sum (with_field c) ≡ some d)
  checksum_from-total c h =
      let (s, folded, w) =
        ip_checksum_fold-Folds (ip_checksum_partial (with_field c) sum) (with_field-lt c h) in
      (65535 - s, folded)

-- A header of at most 65536 bytes whose checksum field, at any even place, holds what ipv4_checksum
-- computes for the header with that field zero has an ipv4_checksum of 0.
pub ipv4_checksum-verifies :
    (k c : ℕ) (head tail : List ℕ)
    → length head + length tail + 2 ≤ 65536
    → length head ≡ 2 * k
    → IsBytes head
    → IsBytes tail
    → ipv4_checksum (head ++ (field 0 ++ tail)) ≡ some c
    → ipv4_checksum (head ++ (field c ++ tail)) ≡ some 0
unfolding ipv4_checksum
ipv4_checksum-verifies k c head tail fits even hb tb e =
    checksum_from-verifies 0 k head tail (omega arith) even hb tb c e

take_all : (bytes : List ℕ) → take (length bytes) bytes ≡ bytes
take_all [] = refl
take_all (b ∷ bytes) = ap (λ rest. b ∷ rest) (take_all bytes)

-- The length of a payload that a u16 holds is taken as it is.
whole_payload :
    (src dst : List ℕ) (protocol : ℕ) (payload : List ℕ)
    → length payload < 2 ^ 16
    → tcp_udp_v4_checksum src dst protocol payload
      ≡ checksum_from
          (ip_checksum_partial (ipv4_pseudo_header src dst protocol (length payload)) 0)
          payload
unfolding tcp_udp_v4_checksum
whole_payload src dst protocol payload h =
    let same : length payload % 2 ^ 16 ≡ length payload = omega arith in
    rw (tcp_udp_v4_checksum, same, take_all payload) refl

fits_16 :
    (head tail : List ℕ) (c : ℕ)
    → length head + length tail + 2 ≤ 65535
    → length (head ++ (field c ++ tail)) < 2 ^ 16
fits_16 head tail c h = omega (arith, length-append head (field c ++ tail))

-- A segment of at most 65535 bytes, the greatest length that a u16 holds, whose checksum field, at any even place, holds what
-- tcp_udp_v4_checksum computes for the segment with that field zero, under the same addresses and
-- protocol, has a tcp_udp_v4_checksum of 0.
pub tcp_udp_v4_checksum-verifies :
    (src dst : List ℕ) (protocol k c : ℕ) (head tail : List ℕ)
    → IsBytes src
    → IsBytes dst
    → length src ≡ 4
    → length dst ≡ 4
    → protocol < 256
    → length head + length tail + 2 ≤ 65535
    → length head ≡ 2 * k
    → IsBytes head
    → IsBytes tail
    → tcp_udp_v4_checksum src dst protocol (head ++ (field 0 ++ tail)) ≡ some c
    → tcp_udp_v4_checksum src dst protocol (head ++ (field c ++ tail)) ≡ some 0
tcp_udp_v4_checksum-verifies src dst protocol k c head tail sb db sl dl p fits even hb tb e =
    let len = length head + suc (suc (length tail)) in
    let e' =
      rw
        (
          whole_payload src dst protocol (head ++ (field 0 ++ tail)) (fits_16 head tail 0 fits),
          length-append head (field 0 ++ tail),
        )
        at e in
    let rest = 0 ∷ protocol ∷ len / 256 % 256 ∷ len % 256 ∷ [] in
    let pseudo = ipv4_pseudo_header src dst protocol len in
    let size : length pseudo ≡ 12 =
      omega (arith, length-append src (dst ++ rest), length-append dst rest) in
    let sums =
      ip_checksum_partial-Sums pseudo 0
        (IsBytes-append src (dst ++ rest) sb
          (IsBytes-append dst rest db (omega arith, (p, (omega arith, (omega arith, tt))))))
        (omega arith) in
    rw
      (
        whole_payload src dst protocol (head ++ (field c ++ tail)) (fits_16 head tail c fits),
        length-append head (field c ++ tail),
      )
      (checksum_from-verifies (ip_checksum_partial pseudo 0) k head tail
        (omega (arith, sums.bounded)) even hb tb c e')

pub ipv4_checksum-total :
    (k : ℕ) (head tail : List ℕ)
    → length head + length tail + 2 ≤ 65536
    → length head ≡ 2 * k
    → IsBytes head
    → IsBytes tail
    → (c : ℕ) × (ipv4_checksum (head ++ (field 0 ++ tail)) ≡ some c)
unfolding ipv4_checksum
ipv4_checksum-total k head tail fits even hb tb =
    checksum_from-total 0 k head tail (omega arith) even hb tb 0 (omega arith)

pub tcp_udp_v4_checksum-total :
    (src dst : List ℕ) (protocol k : ℕ) (head tail : List ℕ)
    → IsBytes src
    → IsBytes dst
    → length src ≡ 4
    → length dst ≡ 4
    → protocol < 256
    → length head + length tail + 2 ≤ 65535
    → length head ≡ 2 * k
    → IsBytes head
    → IsBytes tail
    → (c : ℕ) × (tcp_udp_v4_checksum src dst protocol (head ++ (field 0 ++ tail)) ≡ some c)
tcp_udp_v4_checksum-total src dst protocol k head tail sb db sl dl p fits even hb tb =
    let len = length head + suc (suc (length tail)) in
    let rest = 0 ∷ protocol ∷ len / 256 % 256 ∷ len % 256 ∷ [] in
    let pseudo = ipv4_pseudo_header src dst protocol len in
    let size : length pseudo ≡ 12 =
      omega (arith, length-append src (dst ++ rest), length-append dst rest) in
    let sums =
      ip_checksum_partial-Sums pseudo 0
        (IsBytes-append src (dst ++ rest) sb
          (IsBytes-append dst rest db (omega arith, (p, (omega arith, (omega arith, tt))))))
        (omega arith) in
    let (c, e) =
      checksum_from-total (ip_checksum_partial pseudo 0) k head tail (omega (arith, sums.bounded))
        even hb tb 0 (omega arith) in
    (
      c,
      rw
          (
            whole_payload src dst protocol (head ++ (field 0 ++ tail)) (fits_16 head tail 0 fits),
            length-append head (field 0 ++ tail),
          )
          e,
    )
