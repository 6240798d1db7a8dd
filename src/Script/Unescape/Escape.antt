-- ===== src/Script/Unescape/Escape.antt =====
-- The inverse of unescape_cstring_expression in gtests/net/packetdrill/script.c: how a script
-- writes a text between double quotes. The token of lexer.l ends at the last quote that it can, and
-- no escape code stands for a quote.
use packetdrill_mptcp.Base.{ℕ, suc, ◌-◌, ◌≤◌, ◌≡◌, ◌≢◌, refl, ap, ◌∙◌, inl, inr}
use packetdrill_mptcp.Base.{true, ◌==◌, ==_iff, if◌then◌else◌, leb, Bool-cases, All, arith}
use packetdrill_mptcp.Base.{List, [], ◌∷◌, ◌++◌, map, length, replicate}
use packetdrill_mptcp.Base.{Option, none, some, ok}
use packetdrill_mptcp.Script.Unescape.{write, c_string, escape_code, unescape}
use packetdrill_mptcp.Script.Unescape.{store, unescape_cstring_expression}
use packetdrill_mptcp.Script.Unescape.Written.{IsPlain}

-- A form feed, a line feed, a carriage return and the two tabs have codes.
abbrev pub escape_byte : ℕ → List ℕ
escape_byte c =
    if c == 12
    then b'\\' ∷ b'f' ∷ []
    else if c == 10
    then b'\\' ∷ b'n' ∷ []
    else if c == 13
    then b'\\' ∷ b'r' ∷ []
    else if c == 9
    then b'\\' ∷ b't' ∷ []
    else if c == 11
    then b'\\' ∷ b'v' ∷ []
    else c ∷ []

unfoldable pub escape : List ℕ → List ℕ
escape [] = []
escape (c ∷ rest) = escape_byte c ++ escape rest

leb-true : (a b : ℕ) → a ≤ b → leb a b ≡ true
leb-true a b h = ground arith

-- A C string in memory.
abbrev pub literal : List ℕ → List (Option ℕ)
literal bytes = map some bytes ++ (some 0 ∷ [])

c_string-literal : (bytes : List ℕ) → All (λ c. c ≢ 0) bytes → c_string (literal bytes) ≡ ok bytes
unfolding c_string
c_string-literal [] h = refl
c_string-literal (c ∷ bytes) h = elim (Bool-cases (c == 0)) [
  | inl z ↦ absurd (h.0 ((==_iff c 0).0 z))
  | inr nz ↦ rw (nz, c_string-literal bytes h.1) refl
]

unescape-escape_byte :
    (c : ℕ) (rest : List ℕ) → IsPlain c → unescape (escape_byte c ++ rest) ≡ write c (unescape rest)
unfolding unescape escape_code
unescape-escape_byte c rest h = ground arith

unescape-escape : (out : List ℕ) → All IsPlain out → unescape (escape out) ≡ ok out
unfolding escape unescape
unescape-escape [] h = refl
unescape-escape (c ∷ out) h =
    unescape-escape_byte c (escape out) h.0 ∙ ap (write c) (unescape-escape out h.1)

escape_byte-append :
    (c : ℕ) (rest : List ℕ)
    → (c ≢ 0)
    → All (λ b. b ≢ 0) rest
    → All (λ b. b ≢ 0) (escape_byte c ++ rest)
      × (suc (length rest) ≤ length (escape_byte c ++ rest))
escape_byte-append c rest h k = ground arith

escape-All :
    (out : List ℕ)
    → All IsPlain out
    → All (λ b. b ≢ 0) (escape out) × (length out ≤ length (escape out))
unfolding escape
escape-All [] h = (tt, omega arith)
escape-All (c ∷ out) h =
    let step : All (λ b. b ≢ 0) (escape_byte c ++ escape out)
        × (suc (length (escape out)) ≤ length (escape_byte c ++ escape out)) =
      escape_byte-append c (escape out) h.0.0 (escape-All out h.1).0 in
    (step.0, omega (arith, step.1, (escape-All out h.1).1))

-- A byte of a text that has a literal: neither NUL, nor a backslash, nor a double quote.
abbrev pub IsQuotable : ℕ → Type 0
IsQuotable c = IsPlain c × (c ≢ b'"')

escape_byte-no_quote :
    (c : ℕ) (rest : List ℕ)
    → IsQuotable c
    → All (λ b. b ≢ b'"') rest
    → All (λ b. b ≢ b'"') (escape_byte c ++ rest)
escape_byte-no_quote c rest h k = ground arith

escape-no_quote : (out : List ℕ) → All IsQuotable out → All (λ b. b ≢ b'"') (escape out)
unfolding escape
escape-no_quote [] h = tt
escape-no_quote (c ∷ out) h = escape_byte-no_quote c (escape out) h.0 (escape-no_quote out h.1)

All-IsPlain : (out : List ℕ) → All IsQuotable out → All IsPlain out
All-IsPlain [] h = tt
All-IsPlain (c ∷ out) h = (h.0.0, All-IsPlain out h.1)

-- A text without a backslash, a double quote and a NUL, written with escape codes: no double
-- quote stands in what is written, so that it can stand between two, and the text is what the
-- routine finds in it, at the start of the block.
pub unescape_cstring_expression-escape :
    (out : List ℕ)
    → All IsQuotable out
    → All (λ b. b ≢ b'"') (escape out)
      × (unescape_cstring_expression (literal (escape out))
          ≡ ok (map some out ++ replicate (length (escape out) - length out) none))
unfolding unescape_cstring_expression store
unescape_cstring_expression-escape out h =
    let plain = All-IsPlain out h in
    let fits : leb (length out) (length (escape out)) ≡ true =
      leb-true (length out) (length (escape out)) (escape-All out plain).1 in
    (
      escape-no_quote out h,
      rw (c_string-literal (escape out) (escape-All out plain).0, unescape-escape out plain, fits)
          refl,
    )
