-- ===== src/Checksum/Sum.antt =====
-- The main loop adds four bytes at a time, and the sum is that of the 16-bit words, up to a
-- multiple of 65535.
use packetdrill_mptcp.Base.{
  ℕ, zero, suc, ◌+◌, ◌*◌, ◌%◌, ◌^◌, ◌≤◌, ◌<◌, ◌≡◌, arith, List, [], ◌∷◌, ◌++◌, length, All,
}
use packetdrill_mptcp.Checksum.{ip_checksum_partial, le16, le32, u64}

abbrev pub IsBytes : List ℕ → Type 0
IsBytes = All (λ b. b < 256)

-- The specification: the sum of the 16-bit words, the last one padded with a zero byte.
abbrev pub word_sum : List ℕ → ℕ
word_sum [] = 0
word_sum (a ∷ []) = a
word_sum (a ∷ b ∷ rest) = le16 a b + word_sum rest

-- The running sum of a buffer that does not overflow it has the remainder of the sum of the
-- words, is 0 only if all bytes and the sum before are, and stays below 2 ^ 64.
pub record Sums (bytes : List ℕ) (before after : ℕ) : Type 0 where
  pub remainder : after % 65535 ≡ (before + word_sum bytes) % 65535
  pub grows : before ≤ after
  pub bounded : after ≤ before + 2 ^ 32 * length bytes
  pub scaled : after ≤ before + 65536 * word_sum bytes
  pub zero_only : after ≡ 0 → word_sum bytes ≡ 0

-- Over bytes, from a sum that they cannot carry past 2 ^ 64: ip_checksum_partial, which adds four
-- bytes at a time, adds the 16-bit words of the buffer up to a multiple of 65535. Its result is at
-- least the sum it started from and at most 2 ^ 32 per byte more, and it is 0 only if all the words
-- are.
pub ip_checksum_partial-Sums :
    (bytes : List ℕ) (sum : ℕ)
    → IsBytes bytes
    → sum + 2 ^ 32 * length bytes < 2 ^ 64
    → Sums bytes sum (ip_checksum_partial bytes sum)
unfolding ip_checksum_partial
ip_checksum_partial-Sums [] sum h fits = omega arith
ip_checksum_partial-Sums (a ∷ []) sum h fits = omega arith
ip_checksum_partial-Sums (a ∷ b ∷ []) sum h fits = omega arith
ip_checksum_partial-Sums (a ∷ b ∷ c ∷ []) sum h fits = omega arith
ip_checksum_partial-Sums (a ∷ b ∷ c ∷ d ∷ rest) sum h fits =
    let next : u64 (sum + le32 a b c d) ≡ sum + le32 a b c d = omega arith in
    let ih = ip_checksum_partial-Sums rest (sum + le32 a b c d) h.1.1.1.1 (omega arith) in
    rw next (record {
      remainder = omega (arith, ih.remainder);
      grows = omega (arith, ih.grows);
      bounded = omega (arith, ih.bounded);
      scaled = omega (arith, ih.scaled);
      zero_only = λ e. omega (arith, ih.zero_only e, ih.grows);
    })

pub word_sum-append :
    (n : ℕ) (xs ys : List ℕ) → length xs ≡ 2 * n → word_sum (xs ++ ys) ≡ word_sum xs + word_sum ys
word_sum-append zero [] ys e = omega arith
word_sum-append zero (a ∷ xs) ys e = absurd (omega arith)
word_sum-append (suc n) [] ys e = absurd (omega arith)
word_sum-append (suc n) (a ∷ []) ys e = absurd (omega arith)
word_sum-append (suc n) (a ∷ b ∷ xs) ys e = omega (arith, word_sum-append n xs ys (omega arith))

pub IsBytes-append : (xs ys : List ℕ) → IsBytes xs → IsBytes ys → IsBytes (xs ++ ys)
IsBytes-append [] ys h k = k
IsBytes-append (x ∷ xs) ys h k = (h.0, IsBytes-append xs ys h.1 k)
