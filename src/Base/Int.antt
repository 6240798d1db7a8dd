-- ===== src/Base/Int.antt =====
-- Times and other signed numbers, over the native numbers.
use Prim.Native.Nat.{ℕ, suc, ◌+◌, ◌-◌, ◌≤◌}
use mathlib.Core.Path.{◌≡◌}
use mathlib.Core.Bool.{Bool}
use native.Mathlib.Omega.{arith}
use packetdrill_mptcp.Base.Tests.{ltb, leb, if◌then◌else◌}

-- `negsuc k` stands for -(k + 1).
pub data ℤ : Type 0 where
  negsuc pos : ℕ → ℤ

-- A number is its positive part less its negative part, one of which is 0.
abbrev pub neg_part : ℤ → ℕ
neg_part (negsuc k) = suc k
neg_part (pos k) = 0

abbrev pub pos_part : ℤ → ℕ
pos_part (negsuc k) = 0
pos_part (pos k) = k

abbrev pub difference : ℕ → ℕ → ℤ
difference m n = if leb n m then pos (m - n) else negsuc (n - m - 1)

infixl 65 ◌-ℤ◌ ◌+ℤ◌
unfoldable pub ◌-ℤ◌ : ℤ → ℤ → ℤ
x -ℤ y = difference (pos_part x + neg_part y) (neg_part x + pos_part y)

unfoldable pub ◌+ℤ◌ : ℤ → ℤ → ℤ
x +ℤ y = difference (pos_part x + pos_part y) (neg_part x + neg_part y)

-- `<` of C on signed numbers, and the statement that it tests.
abbrev pub ltb_ℤ : ℤ → ℤ → Bool
ltb_ℤ x y = ltb (pos_part x + neg_part y) (pos_part y + neg_part x)

infix 50 ◌≤ℤ◌
abbrev pub ◌≤ℤ◌ : ℤ → ℤ → Type 0
x ≤ℤ y = pos_part x + neg_part y ≤ pos_part y + neg_part x

pub -ℤ_parts :
    (x y : ℤ)
    → pos_part (x -ℤ y) + neg_part x + pos_part y ≡ neg_part (x -ℤ y) + pos_part x + neg_part y
unfolding ◌-ℤ◌
-ℤ_parts x y = ground arith

pub +ℤ_parts :
    (x y : ℤ)
    → pos_part (x +ℤ y) + neg_part x + neg_part y ≡ neg_part (x +ℤ y) + pos_part x + pos_part y
unfolding ◌+ℤ◌
+ℤ_parts x y = ground arith

pub ℤ-eq_of_parts : (x y : ℤ) → pos_part x + neg_part y ≡ pos_part y + neg_part x → x ≡ y
ℤ-eq_of_parts x y h = ground arith

pub ruleset signed = (arith, -ℤ_parts, +ℤ_parts, ℤ-eq_of_parts)
