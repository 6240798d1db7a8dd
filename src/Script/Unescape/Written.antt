-- ===== src/Script/Unescape/Written.antt =====
-- What unescape_cstring_expression writes.
use packetdrill_mptcp.Base.{ℕ, zero, suc, ◌+◌, ◌-◌, ◌≤◌, ◌≡◌, ◌≢◌, refl, ◌⊎◌, inl, inr}
use packetdrill_mptcp.Base.{true, ◌==◌, ==_iff, leb, Bool-cases, All}
use packetdrill_mptcp.Base.{List, [], ◌∷◌, ◌++◌, map, length, replicate}
use packetdrill_mptcp.Base.{Option, none, some, Option-cases, some_inj, arith}
use packetdrill_mptcp.Base.{Outcome, ok, status_err, fault, ◌>>=◌, Holds, Holds-ok}
use packetdrill_mptcp.Script.Unescape.{write, c_string, backslash, escape_code, unescape}
use packetdrill_mptcp.Script.Unescape.{unescape_code, store, unescape_cstring_expression}

-- A byte that the loop may write.
abbrev pub IsPlain : ℕ → Type 0
IsPlain c = (c ≢ 0) × (c ≢ backslash)

-- What the loop has written for an input of n bytes.
abbrev IsWritten : ℕ → List ℕ → Type 0
IsWritten n out = All IsPlain out × (length out ≤ n)

IsWritten-later :
    (n m : ℕ) (o : Outcome (List ℕ)) → n ≤ m → Holds (IsWritten n) o → Holds (IsWritten m) o
IsWritten-later n m fault l h = tt
IsWritten-later n m status_err l h = tt
IsWritten-later n m (ok out) l h = (h.0, omega arith)

write-IsWritten :
    (c n : ℕ) (o : Outcome (List ℕ))
    → IsPlain c
    → Holds (IsWritten n) o
    → Holds (IsWritten (suc n)) (write c o)
write-IsWritten c n fault p h = tt
write-IsWritten c n status_err p h = tt
write-IsWritten c n (ok out) p h = ((p, h.0), omega arith)

pub c_string-All : (block : List (Option ℕ)) → Holds (All (λ c. c ≢ 0)) (c_string block)
unfolding c_string
c_string-All [] = tt
c_string-All (none ∷ rest) = tt
c_string-All (some c ∷ rest) = elim (Bool-cases (c == 0)) [
  | inl z ↦ rw (z) tt
  | inr nz ↦ rw (nz) (write-All (c_string rest) (ground arith) (c_string-All rest))
]
  where
    write-All :
        (o : Outcome (List ℕ))
        → (c ≢ 0)
        → Holds (All (λ b. b ≢ 0)) o
        → Holds (All (λ b. b ≢ 0)) (write c o)
    write-All fault p h = tt
    write-All status_err p h = tt
    write-All (ok out) p h = (p, h)

escape_code-IsPlain : (c byte : ℕ) → escape_code c ≡ some byte → IsPlain byte
unfolding escape_code
escape_code-IsPlain c byte h = ground arith

mutual
  unfolding unescape

  unescape-IsWritten :
      (c_in : List ℕ) → All (λ c. c ≢ 0) c_in → Holds (IsWritten (length c_in)) (unescape c_in)
  unescape-IsWritten [] h = (tt, omega arith)
  unescape-IsWritten (c ∷ rest) h = elim (Bool-cases (c == b'\\')) [
    | inl e ↦
        rw (e, Holds)
          (IsWritten-later (length rest) (suc (length rest)) (unescape_code rest) (omega arith)
            (unescape_code-IsWritten rest h.1))
    | inr e ↦
        rw (e, Holds)
          (write-IsWritten c (length rest) (unescape rest) (h.0, ground arith)
            (unescape-IsWritten rest h.1))
  ]

  unescape_code-IsWritten :
      (c_in : List ℕ) → All (λ c. c ≢ 0) c_in → Holds (IsWritten (length c_in)) (unescape_code c_in)
  unescape_code-IsWritten [] h = tt
  unescape_code-IsWritten (c ∷ rest) h = elim (Option-cases (escape_code c)) [
    | inl e ↦ rw (e, Holds) tt
    | inr (byte, e) ↦
        rw (e, Holds)
          (write-IsWritten byte (length rest) (unescape rest) (escape_code-IsPlain c byte e)
            (unescape-IsWritten rest h.1))
  ]

-- The block behind what the loop has written.
abbrev cells : List ℕ → ℕ → List (Option ℕ)
cells out n = map some out ++ replicate n none

length-cells : (out : List ℕ) (n : ℕ) → length (cells out n) ≡ length out + n
length-cells [] zero = refl
length-cells [] (suc n) = omega (arith, length-cells [] n)
length-cells (c ∷ out) n = omega (arith, length-cells out n)

-- A block that starts with bytes that are not 0 and of which the others were never written.
unterminated : (out : List ℕ) (n : ℕ) → All IsPlain out → c_string (cells out n) ≡ fault
unfolding c_string
unterminated [] zero h = refl
unterminated [] (suc n) h = refl
unterminated (c ∷ out) n h = elim (Bool-cases (c == 0)) [
  | inl z ↦ absurd (h.0.0 ((==_iff c 0).0 z))
  | inr nz ↦ rw (nz, unterminated out n h.1) refl
]

no_backslash :
    (out : List ℕ) (n : ℕ) → All IsPlain out → All (λ cell. cell ≢ some backslash) (cells out n)
no_backslash [] zero h = tt
no_backslash [] (suc n) h = (λ e. absurd (ground arith), no_backslash [] n tt)
no_backslash (c ∷ out) n h = (λ e. h.0.1 (some_inj c backslash e), no_backslash out n h.1)

-- What a block of n bytes is like after the loop has succeeded.
abbrev pub IsUnescaped : ℕ → List (Option ℕ) → Type 0
IsUnescaped n block =
    (length block ≡ n) × All (λ cell. cell ≢ some backslash) block × (c_string block ≡ fault)

store-IsUnescaped :
    (n : ℕ) (out : List ℕ)
    → IsWritten n out
    → (block : List (Option ℕ)) × (store n out ≡ ok block) × IsUnescaped n block
unfolding store
store-IsUnescaped n out h = (
  cells out (n - length out),
  rw (le) refl,
  (
    omega (arith, h.1, length-cells out (n - length out)),
    no_backslash out (n - length out) h.0,
    unterminated out (n - length out) h.0,
  ),
)
  where
    le : leb (length out) n ≡ true
    le = ground arith

-- What a call for a C string of n bytes hands back.
abbrev pub IsAnswer : ℕ → Outcome (List (Option ℕ)) → Type 0
IsAnswer n answer =
    (answer ≡ status_err) ⊎ ((block : List (Option ℕ)) × (answer ≡ ok block) × IsUnescaped n block)

after_loop :
    (n : ℕ) (o : Outcome (List ℕ))
    → (o ≢ fault)
    → Holds (IsWritten n) o
    → IsAnswer n (o >>= λ out. store n out)
after_loop n fault d h = absurd (d refl)
after_loop n status_err d h = inl refl
after_loop n (ok out) d h = inr (store-IsUnescaped n out h)

write-returns : (c : ℕ) (o : Outcome (List ℕ)) → (o ≢ fault) → write c o ≢ fault
write-returns c fault d e = d e
write-returns c status_err d e = d e
write-returns c (ok out) d e = d (absurd (ground arith))

mutual
  unfolding unescape

  unescape-returns : (c_in : List ℕ) → unescape c_in ≢ fault
  unescape-returns [] = λ e. absurd (ground arith)
  unescape-returns (c ∷ rest) = elim (Bool-cases (c == b'\\')) [
    | inl e ↦ rw (e, unescape) (unescape_code-returns rest)
    | inr e ↦ rw (e, unescape) (write-returns c (unescape rest) (unescape-returns rest))
  ]

  unescape_code-returns : (c_in : List ℕ) → unescape_code c_in ≢ fault
  unescape_code-returns [] = λ e. absurd (ground arith)
  unescape_code-returns (c ∷ rest) = elim (Option-cases (escape_code c)) [
    | inl e ↦ rw (e, unescape_code) (λ f. absurd (ground arith))
    | inr (byte, e) ↦
        rw (e, unescape_code) (write-returns byte (unescape rest) (unescape-returns rest))
  ]

-- For every C string: the routine stays inside the block that it allocates, of as many bytes as
-- the string has. It fails, or leaves a block without a backslash and without a NUL in what it
-- has written, so that to read the block as a C string has no defined answer.
pub unescape_cstring_expression-IsAnswer :
    (input_string : List (Option ℕ)) (c_in : List ℕ)
    → c_string input_string ≡ ok c_in
    → IsAnswer (length c_in) (unescape_cstring_expression input_string)
unfolding unescape_cstring_expression
unescape_cstring_expression-IsAnswer input_string c_in h = rw (h) (
    after_loop (length c_in) (unescape c_in) (unescape-returns c_in) (
      unescape-IsWritten c_in
        (Holds-ok (All (λ c. c ≢ 0)) (c_string input_string) c_in (c_string-All input_string) h)))
