-- ===== src/TcpOptions/Iterator.antt =====
-- gtests/net/packetdrill/tcp_options_iterator.c. The flag `report` says whether the caller gave
-- a place for the error message: with none, the first asprintf writes through a null pointer.
pub mod Next
pub mod Wire
pub mod Find
pub mod Unchecked
use packetdrill_mptcp.Base.{
  ℕ, zero, suc, ◌+◌, ◌*◌, ◌/◌, Bool, true, false, List, [], ◌∷◌, ◌==◌, ◌!=◌, ltb, leb, ◌||◌, ◌&&◌,
  not, if◌then◌else◌, Option, none, some, Outcome, ok, status_err, fault, ◌>>=◌,
}
use packetdrill_mptcp.Memory.{load, load_be16}

-- An error return: the message is printed into `*error`.
abbrev pub fail {ℓ} : {A : Type ℓ} → Bool → Outcome A
fail report = if report then status_err else fault

abbrev pub one_of : ℕ → List ℕ → Bool
one_of n [] = false
one_of n (x ∷ xs) = n == x || one_of n xs

-- The lengths that a subtype of an MPTCP option may have, of mptcp.h.
abbrev pub dss_lengths : List ℕ
dss_lengths = 8 ∷ 12 ∷ 16 ∷ 20 ∷ 24 ∷ 28 ∷ 14 ∷ 18 ∷ 22 ∷ 26 ∷ []

abbrev pub mptcp_lengths : ℕ → List ℕ
mptcp_lengths subtype =
    if subtype == 0
    then 12 ∷ 20 ∷ []
    else if subtype == 1
    then 12 ∷ 16 ∷ 24 ∷ []
    else if subtype == 2
    then dss_lengths
    else if subtype == 3
    then 8 ∷ 10 ∷ 20 ∷ 22 ∷ []
    else if subtype == 5
    then 3 ∷ 4 ∷ []
    else []

-- `case TCPOPT_MPTCP` on the subtype. REMOVE_ADDR takes the length byte as it is; MP_FAIL and
-- MP_FASTCLOSE do not look at it.
pub mptcp_expected_length : Bool → List ℕ → ℕ → ℕ → Outcome ℕ
mptcp_expected_length report mem p subtype =
    if subtype == 6 || subtype == 7 then ok 12 else if ltb 7 subtype then fail report else do
      len ← load mem (p + 1)
      if subtype == 4 || one_of len (mptcp_lengths subtype) then ok len else fail report

-- 0 stands for an option of any length, 1 for one without a length byte.
unfoldable pub get_expected_tcp_option_length : Bool → List ℕ → ℕ → Outcome ℕ
unfolding mptcp_expected_length
get_expected_tcp_option_length report mem p = do
  kind ← load mem p
  if kind == 0 || kind == 1
      then ok 1
      else if kind == 2
      then ok 4
      else if kind == 3
      then ok 3
      else if kind == 4
      then ok 2
      else if kind == 8
      then ok 10
      else if kind == 30
      then (load mem (p + 2) >>= λ b. mptcp_expected_length report mem p (b / 16))
      else if kind == 5 || kind == 254
      then ok 0
      else fail report

unfoldable pub get_tcp_option_length : Bool → List ℕ → ℕ → ℕ → ℕ → Outcome ℕ
get_tcp_option_length report mem option end expected =
    if leb end (option + 1) then fail report else do
      len ← load mem (option + 1)
      if ltb len 2
          then fail report
          else if ltb end (option + len)
          then fail report
          else if expected != 0 && len != expected
          then fail report
          else ok len

-- struct tcp_options_iterator; `none` is the null pointer.
pub record Iterator : Type 0 where
  pub current_option : Option ℕ
  pub options_end : ℕ

-- The iterator with its pointer nulled at the end, whose current_option is what is returned.
pub get_current_option : ℕ → ℕ → Outcome Iterator
get_current_option current end =
    if ltb end current
    then fault
    else ok (record {
      current_option = if leb end current then none else some current;
      options_end = end;
    })

-- packet_tcp_options and packet_payload: the block runs from the end of the fixed header of 20
-- bytes to the end that the data offset gives.
unfoldable pub tcp_options_begin : List ℕ → ℕ → Outcome Iterator
unfolding get_current_option
tcp_options_begin mem tcp = do
  doff ← load mem (tcp + 12)
  get_current_option (tcp + 20) (tcp + (doff / 16) * 4)

-- The two steps that find the length of the option at `p`.
pub option_length_at : Bool → List ℕ → ℕ → ℕ → Outcome ℕ
unfolding get_expected_tcp_option_length get_tcp_option_length
option_length_at report mem end p = do
  expected ← get_expected_tcp_option_length report mem p
  if expected == 1 then ok 1 else get_tcp_option_length report mem p end expected

unfoldable pub tcp_options_next : Bool → List ℕ → Iterator → Outcome Iterator
unfolding get_current_option option_length_at
tcp_options_next report mem iter = elim iter.current_option [
  | none ↦ fault
  | some p ↦
      if leb iter.options_end p
      then fault
      else option_length_at report mem iter.options_end p >>= λ len.
          if len == 0 then fault else get_current_option (p + len) iter.options_end
]

-- The loop of get_tcp_option and get_mptcp_option over the test of the wanted option; `none` is
-- fuel that ran out. An error makes tcp_options_next return the null pointer.
pub find_option : (ℕ → Outcome Bool) → List ℕ → ℕ → Iterator → Option (Outcome (Option ℕ))
find_option wanted mem zero iter = none
find_option wanted mem (suc fuel) iter = elim iter.current_option [
  | none ↦ some (ok none)
  | some p ↦ elim (wanted p) [
    | status_err ↦ some status_err
    | fault ↦ some fault
    | ok hit ↦ elim hit [
      | true ↦ some (ok (some p))
      | false ↦ elim (tcp_options_next false mem iter) [
        | ok iter' ↦ find_option wanted mem fuel iter'
        | status_err ↦ some (ok none)
        | fault ↦ some fault
      ]
    ]
  ]
]

pub kind_is : List ℕ → ℕ → ℕ → Outcome Bool
kind_is mem kind p = do k ← load mem p; ok (k == kind)

-- The test of get_mptcp_option looks at the subtype only, not at the kind.
pub subtype_is : List ℕ → ℕ → ℕ → Outcome Bool
subtype_is mem subtype p = do b ← load mem (p + 2); ok (b / 16 == subtype)

-- 41 rounds are enough: the block has at most 40 bytes (the data offset is a number below 16).
unfoldable pub get_tcp_option : List ℕ → ℕ → ℕ → Option (Outcome (Option ℕ))
unfolding tcp_options_begin find_option kind_is
get_tcp_option mem tcp kind = elim (tcp_options_begin mem tcp) [
  | ok iter ↦ find_option (kind_is mem kind) mem 41 iter
  | status_err ↦ some status_err
  | fault ↦ some fault
]

unfoldable pub get_mptcp_option : List ℕ → ℕ → ℕ → Option (Outcome (Option ℕ))
unfolding tcp_options_begin find_option subtype_is
get_mptcp_option mem tcp subtype = elim (tcp_options_begin mem tcp) [
  | ok iter ↦ find_option (subtype_is mem subtype) mem 41 iter
  | status_err ↦ some status_err
  | fault ↦ some fault
]
