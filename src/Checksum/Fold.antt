-- ===== src/Checksum/Fold.antt =====
-- ip_checksum_fold ends within its rounds, and is the one's complement of a 16-bit sum.
use packetdrill_mptcp.Base.{
  List, [], ◌∷◌, ℕ, suc, ◌+◌, ◌-◌, ◌/◌, ◌%◌, ◌^◌, ◌≤◌, ◌<◌, ◌≡◌, refl, arith, ◌==◌, some, true,
  false, ◌∙◌,
}
use native.Mathlib.Decide.{dec_lt}
use packetdrill_mptcp.Checksum.{
  ip_checksum_partial, ipv4_checksum, le32, fold_32, fold_16, complement16, ip_checksum_fold, u64,
}

-- The one's complement sum of 16-bit words that `n` stands for: the remainder by 65535, with
-- 65535 itself in place of 0 unless `n` is 0.
pub record Folds (n s : ℕ) : Type 0 where
  pub fits : s ≤ 65535
  pub same : s % 65535 ≡ n % 65535
  pub zero_only : s ≡ 0 → n ≡ 0
  pub le : s ≤ n

fold_32_done : (fuel s : ℕ) → s < 2 ^ 32 → fold_32 (suc fuel) s ≡ some s
unfolding fold_32
fold_32_done fuel s h = let e : (s / 2 ^ 32 == 0) ≡ true = ground arith in rw (fold_32, e) refl

fold_32_more :
    (fuel s : ℕ)
    → 2 ^ 32 ≤ s
    → s < 2 ^ 64
    → fold_32 (suc fuel) s ≡ fold_32 fuel (s / 2 ^ 32 + s % 2 ^ 32)
unfolding fold_32
fold_32_more fuel s h k =
    let e : (s / 2 ^ 32 == 0) ≡ false = ground arith in
    let small : (s / 2 ^ 32 + s % 2 ^ 32) % 2 ^ 64 ≡ s / 2 ^ 32 + s % 2 ^ 32 = omega arith in
    rw (fold_32, e, small) refl

fold_16_done : (fuel s : ℕ) → s < 2 ^ 16 → fold_16 (suc fuel) s ≡ some s
unfolding fold_16
fold_16_done fuel s h =
    let e : (s % 2 ^ 32 / 2 ^ 16 == 0) ≡ true = ground arith in rw (fold_16, e) refl

fold_16_more :
    (fuel s : ℕ)
    → 2 ^ 16 ≤ s
    → s < 2 ^ 32
    → fold_16 (suc fuel) s ≡ fold_16 fuel (s / 2 ^ 16 + s % 2 ^ 16)
unfolding fold_16
fold_16_more fuel s h k =
    let e : (s % 2 ^ 32 / 2 ^ 16 == 0) ≡ false = ground arith in
    let small : (s / 2 ^ 16 + s % 2 ^ 16) % 2 ^ 64 ≡ s / 2 ^ 16 + s % 2 ^ 16 = omega arith in
    rw (fold_16, e, small) refl

-- One round keeps the remainder, and does not lose a sum that is not 0.
abbrev Keeps : ℕ → ℕ → Type 0
Keeps n s = (s % 65535 ≡ n % 65535) × (s ≡ 0 → n ≡ 0) × (s ≤ n)

round_32 : (n : ℕ) → Keeps n (n / 2 ^ 32 + n % 2 ^ 32)
round_32 n = (omega arith, λ e. omega arith, omega arith)

round_16 : (n : ℕ) → Keeps n (n / 2 ^ 16 + n % 2 ^ 16)
round_16 n = (omega arith, λ e. omega arith, omega arith)

Keeps-trans : (n m s : ℕ) → Keeps n m → Keeps m s → Keeps n s
Keeps-trans n m s h k = (k.0 ∙ h.0, λ e. h.1 (k.1 e), omega arith)

-- With a bound on the sum that shrinks, the rounds that a loop needs.
fold_32_reduces : (n : ℕ) → n < 2 ^ 64 → (s : ℕ) × (fold_32 3 n ≡ some s) × (s < 2 ^ 32) × Keeps n s
fold_32_reduces n h = elim (dec_lt n (2 ^ 32)) [
  | yes small ↦ (n, fold_32_done 2 n small, small, (refl, λ e. e, omega arith))
  | no big ↦
      let n1 : ℕ = n / 2 ^ 32 + n % 2 ^ 32 in
      let r1 = round_32 n in
      let first = fold_32_more 2 n (omega arith) h in
      elim (dec_lt n1 (2 ^ 32)) [
        | yes small ↦ (n1, first ∙ fold_32_done 1 n1 small, small, r1)
        | no big1 ↦
            let n2 : ℕ = n1 / 2 ^ 32 + n1 % 2 ^ 32 in
            (
              n2,
              first
                  ∙ fold_32_more 1 n1 (omega arith) (omega arith)
                  ∙ fold_32_done 0 n2 (omega arith),
              omega arith,
              Keeps-trans n n1 n2 r1 (round_32 n1),
            )
      ]
]

fold_16_reduces : (n : ℕ) → n < 2 ^ 32 → (s : ℕ) × (fold_16 3 n ≡ some s) × (s < 2 ^ 16) × Keeps n s
fold_16_reduces n h = elim (dec_lt n (2 ^ 16)) [
  | yes small ↦ (n, fold_16_done 2 n small, small, (refl, λ e. e, omega arith))
  | no big ↦
      let n1 : ℕ = n / 2 ^ 16 + n % 2 ^ 16 in
      let r1 = round_16 n in
      let first = fold_16_more 2 n (omega arith) h in
      elim (dec_lt n1 (2 ^ 16)) [
        | yes small ↦ (n1, first ∙ fold_16_done 1 n1 small, small, r1)
        | no big1 ↦
            let n2 : ℕ = n1 / 2 ^ 16 + n1 % 2 ^ 16 in
            (
              n2,
              first
                  ∙ fold_16_more 1 n1 (omega arith) (omega arith)
                  ∙ fold_16_done 0 n2 (omega arith),
              omega arith,
              Keeps-trans n n1 n2 r1 (round_16 n1),
            )
      ]
]

-- For every u64 the two loops end within three rounds each, and the result is 65535 less the
-- one's complement sum of the 16-bit words.
pub ip_checksum_fold-Folds :
    (n : ℕ) → n < 2 ^ 64 → (s : ℕ) × (ip_checksum_fold n ≡ some (65535 - s)) × Folds n s
unfolding ip_checksum_fold
ip_checksum_fold-Folds n h =
    let (s, e, fits, keeps) = fold_32_reduces n h in
    let (t, e', fits', keeps') = fold_16_reduces s fits in
    let small : t % 2 ^ 16 ≡ t = omega arith in
    let both = Keeps-trans n s t keeps keeps' in
    (
      t,
      rw (ip_checksum_fold, e, e', complement16, small) refl,
      record { fits = omega arith; same = both.0; zero_only = both.1; le = both.2 },
    )

ip_checksum_partial-lt :
    (bytes : List ℕ) (sum : ℕ) → sum < 2 ^ 64 → ip_checksum_partial bytes sum < 2 ^ 64
unfolding ip_checksum_partial
ip_checksum_partial-lt [] sum h = h
ip_checksum_partial-lt (a ∷ []) sum h = omega arith
ip_checksum_partial-lt (a ∷ b ∷ []) sum h = omega arith
ip_checksum_partial-lt (a ∷ b ∷ c ∷ []) sum h = omega arith
ip_checksum_partial-lt (a ∷ b ∷ c ∷ d ∷ rest) sum h =
    ip_checksum_partial-lt rest (u64 (sum + le32 a b c d)) (omega arith)

-- The checksum of any bytes at all exists.
pub ipv4_checksum_total : (bytes : List ℕ) → (c : ℕ) × (ipv4_checksum bytes ≡ some c)
unfolding ipv4_checksum
ipv4_checksum_total bytes =
    let (s, e, w) =
      ip_checksum_fold-Folds (ip_checksum_partial bytes 0)
        (ip_checksum_partial-lt bytes 0 (omega arith)) in
    (65535 - s, e)
