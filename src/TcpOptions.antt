-- ===== src/TcpOptions.antt =====
-- gtests/net/packetdrill/tcp_options.c and tcp_options_iterator.c: a block of TCP options in wire
-- format, its growth, and the walk over it. An option is the index of its kind byte; its length
-- byte stands behind it, and the MPTCP subtype is the high half of the third byte.
pub mod Iterator
pub mod Append
use packetdrill_mptcp.Base.{
  ℕ, ◌+◌, ◌-◌, ◌/◌, ◌%◌, Bool, true, false, List, [], ◌∷◌, ◌++◌, length, take, ◌==◌, ◌!=◌, ltb,
  ◌||◌, leb, ◌*◌, if◌then◌else◌, Outcome, ok, status_err, fault,
}

-- struct tcp_options: its length field counts the bytes in use, and the array has 40 cells.
abbrev pub max_tcp_option_bytes : ℕ
max_tcp_option_bytes = 15 * 4 - 20

-- The cells in use. A copy of `length` bytes from a shorter option would read past it.
unfoldable pub tcp_options_append : List ℕ → List ℕ → ℕ → Outcome (List ℕ)
tcp_options_append options option option_length =
    if ltb max_tcp_option_bytes (length options + option_length)
    then status_err
    else if ltb (length option) option_length
    then fault
    else ok (options ++ take option_length option)

unfoldable pub num_sack_blocks : ℕ → Outcome ℕ
num_sack_blocks opt_len =
    if leb opt_len 2
    then status_err
    else if (opt_len - 2) % 8 != 0
    then status_err
    else ok ((opt_len - 2) / 8)
