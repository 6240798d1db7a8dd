-- ===== src/Examples/Options.antt =====
-- Runs and instances of the theorems on TCP options.
use packetdrill_mptcp.Base.{
  ℕ, ◌+◌, ◌≡◌, refl, arith, List, [], ◌∷◌, ◌++◌, some, ok, fault, inr, All, true, false,
}
use packetdrill_mptcp.TcpOptions.Append.{Appended, append_all, tcp_options_append-Appended}
use packetdrill_mptcp.Memory.{load}
use packetdrill_mptcp.TcpOptions.Iterator.{tcp_options_next, get_tcp_option, get_mptcp_option}
use packetdrill_mptcp.TcpOptions.Iterator.Next.{Advances, unreported, tcp_options_next-Advances}
use packetdrill_mptcp.TcpOptions.Iterator.Wire.{
  WireOption, bare, sized, At, At-left, At-right, flat, first_of_kind,
}
use packetdrill_mptcp.TcpOptions.Iterator.Find.{get_tcp_option-first_of_kind}
use packetdrill_mptcp.TcpOptions.Iterator.Unchecked.{
  get_mptcp_option_any_kind, get_tcp_option_unknown_kind,
}

-- MSS 1460, two NOPs, SACK permitted, and MP_CAPABLE.
abbrev options : List (List ℕ)
options =
    (2 ∷ 4 ∷ 5 ∷ 180 ∷ [])
    ∷ (1 ∷ [])
    ∷ (1 ∷ [])
    ∷ (4 ∷ 2 ∷ [])
    ∷ (30 ∷ 12 ∷ 0 ∷ 129 ∷ 1 ∷ 2 ∷ 3 ∷ 4 ∷ 5 ∷ 6 ∷ 7 ∷ 8 ∷ [])
    ∷ []

-- 20 bytes of options, hence a data offset of 10.
abbrev fixed_header : List ℕ
fixed_header =
    0 ∷ 80 ∷ 31 ∷ 144 ∷ 0 ∷ 0 ∷ 0 ∷ 1 ∷ 0 ∷ 0 ∷ 0 ∷ 0 ∷ 160 ∷ 2 ∷ 0 ∷ 0 ∷ 0 ∷ 0 ∷ 0 ∷ 0 ∷ []

abbrev pub segment : List ℕ
segment = fixed_header ++ (flat options ++ (65 ∷ 66 ∷ []))

options-WireOption : All WireOption options
options-WireOption = (
  sized 2 4 (5 ∷ 180 ∷ []) refl refl,
  (
    bare 1 (inr refl),
    (
      bare 1 (inr refl),
      (
        sized 4 2 [] refl refl,
        (sized 30 12 (0 ∷ 129 ∷ 1 ∷ 2 ∷ 3 ∷ 4 ∷ 5 ∷ 6 ∷ 7 ∷ 8 ∷ []) refl refl, tt),
      ),
    ),
  ),
)

At-self : (mem : List ℕ) → At mem 0 mem
At-self mem i b e = let place : i ≡ 0 + i = omega arith in rw place at e

options-At : At segment 20 (flat options)
options-At =
    At-left segment 20 (flat options) (65 ∷ 66 ∷ [])
      (At-right segment 0 fixed_header (flat options ++ (65 ∷ 66 ∷ [])) (At-self segment))

data_offset : load segment 12 ≡ ok 160
unfolding load
data_offset = refl

pub finds_mptcp : get_tcp_option segment 0 30 ≡ some (ok (some 28))
unfolding get_tcp_option load tcp_options_next
finds_mptcp = refl

get_tcp_option-first_of_kind_example :
    get_tcp_option segment 0 30 ≡ some (ok (first_of_kind 30 options 20))
get_tcp_option-first_of_kind_example =
    get_tcp_option-first_of_kind segment 0 30 160 options options-WireOption data_offset
      (omega arith) refl options-At

tcp_options_next-Advances_example :
    Advances 40 24
      (tcp_options_next true segment (record { current_option = some 24; options_end = 40 }))
    × (tcp_options_next false segment (record { current_option = some 24; options_end = 40 })
        ≡ unreported
            (tcp_options_next true segment (record { current_option = some 24; options_end = 40 })))
tcp_options_next-Advances_example =
    tcp_options_next-Advances segment 24 40 (omega arith) (omega arith)

-- The MSS option is taken for an MP_CAPABLE option.
get_mptcp_option_any_kind_example : get_mptcp_option segment 0 0 ≡ some (ok (some 20))
unfolding load
get_mptcp_option_any_kind_example =
    get_mptcp_option_any_kind segment 0 0 160 options options-WireOption data_offset (omega arith)
      refl options-At (omega arith)

-- A user timeout option (kind 28) in front.
abbrev other_segment : List ℕ
other_segment = fixed_header ++ (28 ∷ 4 ∷ 0 ∷ 1 ∷ (flat options ++ (65 ∷ 66 ∷ [])))

other_offset : load other_segment 12 ≡ ok 160
unfolding load
other_offset = refl

other_kind : load other_segment 20 ≡ ok 28
unfolding load
other_kind = refl

get_tcp_option_unknown_kind_example : get_tcp_option other_segment 0 30 ≡ some fault
get_tcp_option_unknown_kind_example =
    get_tcp_option_unknown_kind other_segment 0 30 160 28 other_offset (omega arith) other_kind
      (omega arith) refl

-- The options of the segment fill 20 of the 40 bytes.
tcp_options_append-Appended_example : Appended [] options (append_all options [])
tcp_options_append-Appended_example = tcp_options_append-Appended options [] (omega arith)
