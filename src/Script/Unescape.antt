-- ===== src/Script/Unescape.antt =====
-- unescape_cstring_expression of gtests/net/packetdrill/script.c.
pub mod Written
pub mod Escape
use packetdrill_mptcp.Base.{ℕ, Bool, true, false, not, ◌||◌, if◌then◌else◌, ◌==◌, ◌-◌, leb}
use packetdrill_mptcp.Base.{List, [], ◌∷◌, ◌++◌, map, length, replicate, Option, none, some}
use packetdrill_mptcp.Base.{Outcome, ok, status_err, fault, ◌>>=◌}

abbrev pub write : ℕ → Outcome (List ℕ) → Outcome (List ℕ)
write c rest = rest >>= λ out. ok (c ∷ out)

-- What a block of memory holds as a C string: the bytes before its NUL. To read a byte that
-- nothing has written, or one behind the block, has no defined answer.
unfoldable pub c_string : List (Option ℕ) → Outcome (List ℕ)
c_string [] = fault
c_string (none ∷ rest) = fault
c_string (some c ∷ rest) = if c == 0 then ok [] else write c (c_string rest)

abbrev pub backslash : ℕ
backslash = b'\\'

abbrev pub form_feed : ℕ
form_feed = 12

-- The byte at c_out after the switch. The cases of the backslash and the quote have no break:
-- both store their byte, and the case 'f' stores its own on top.
unfoldable pub escape_code : ℕ → Option ℕ
escape_code c =
    if (c == b'\\') || ((c == b'"') || (c == b'f'))
    then some form_feed
    else if c == b'n'
    then some 10
    else if c == b'r'
    then some 13
    else if c == b't'
    then some 9
    else if c == b'v'
    then some 11
    else none

-- The loop, and its turn behind a backslash. There the end of the input is the byte 0, which
-- is no escape code. The result is what the loop has written behind `out->value.string`.
unfoldable mutual
  pub unescape : List ℕ → Outcome (List ℕ)
  unescape [] = ok []
  unescape (c ∷ rest) = elim (c == b'\\') [
    | true ↦ unescape_code rest
    | false ↦ write c (unescape rest)
  ]

  pub unescape_code : List ℕ → Outcome (List ℕ)
  unescape_code [] = status_err
  unescape_code (c ∷ rest) = elim (escape_code c) [
    | none ↦ status_err
    | some byte ↦ write byte (unescape rest)
  ]

-- The block of `bytes` bytes from malloc, its first bytes written.
unfoldable pub store : ℕ → List ℕ → Outcome (List (Option ℕ))
store bytes out =
    if leb (length out) bytes
    then ok (map some out ++ replicate (bytes - length out) none)
    else fault

unfoldable pub unescape_cstring_expression : List (Option ℕ) → Outcome (List (Option ℕ))
unescape_cstring_expression input_string =
    c_string input_string >>= λ c_in. unescape c_in >>= λ out. store (length c_in) out
