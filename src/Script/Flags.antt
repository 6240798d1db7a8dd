-- ===== src/Script/Flags.antt =====
-- flag_name and flags_to_string of gtests/net/packetdrill/script.c. The entries of a table have
-- `none` for a NULL name; behind the last entry is memory that is not the table's.
use packetdrill_mptcp.Base.{ℕ, zero, suc, Bool, true, false, ◌&&◌, not, if◌then◌else◌, ◌==◌}
use packetdrill_mptcp.Base.{List, [], ◌∷◌, ◌++◌, Option, none, some, bit_and, ◌*◌}
use packetdrill_mptcp.Base.{Outcome, ok, fault, ◌>>=◌}
use packetdrill_mptcp.Script.{text}

abbrev pub FlagNames : Type 0
FlagNames = List (ℕ × Option (List ℕ))

unfoldable pub flag_name : FlagNames → ℕ → Outcome (List ℕ)
flag_name [] flag = fault
flag_name ((f, none) ∷ rest) flag = if f == flag then fault else ok (text "???")
flag_name ((f, some name) ∷ rest) flag = elim (f == flag) [
  | true ↦ ok name
  | false ↦ flag_name rest flag
]

-- The entries of poll_flags; those that stand under an #ifdef are marked.
abbrev pub poll_names : List (Bool × List ℕ)
poll_names =
    (false, text "POLLIN")
    ∷ (false, text "POLLPRI")
    ∷ (false, text "POLLOUT")
    ∷ (true, text "POLLRDNORM")
    ∷ (true, text "POLLRDBAND")
    ∷ (true, text "POLLWRNORM")
    ∷ (true, text "POLLWRBAND")
    ∷ (true, text "POLLMSG")
    ∷ (true, text "POLLREMOVE")
    ∷ (true, text "POLLRDHUP")
    ∷ (true, text "POLLINIGNEOF")
    ∷ (false, text "POLLERR")
    ∷ (false, text "POLLHUP")
    ∷ (false, text "POLLNVAL")
    ∷ []

abbrev pub defined_flags : (List ℕ → ℕ) → (List ℕ → Bool) → List (Bool × List ℕ) → FlagNames
defined_flags header is_defined [] = (0, some []) ∷ []
defined_flags header is_defined ((optional, name) ∷ rest) =
    if optional && not (is_defined name)
    then defined_flags header is_defined rest
    else (header name, some name) ∷ defined_flags header is_defined rest

-- `is_defined` tells the macros that poll.h has. The last entry has an empty name, not NULL.
unfoldable pub poll_flags : (List ℕ → ℕ) → (List ℕ → Bool) → FlagNames
poll_flags header is_defined = defined_flags header is_defined poll_names

abbrev pub separator : List ℕ → List ℕ
separator [] = []
separator (c ∷ out) = text "|"

-- `count` turns of the loop are left; bit_mask is a u64.
unfoldable pub add_flag_names : FlagNames → ℕ → ℕ → ℕ → List ℕ → Outcome (List ℕ)
add_flag_names flags_array flags zero bit_mask out = ok out
add_flag_names flags_array flags (suc count) bit_mask out = elim (bit_and flags bit_mask == 0) [
  | true ↦ add_flag_names flags_array flags count (bit_mask * 2) out
  | false ↦ flag_name flags_array bit_mask >>= λ name.
      add_flag_names flags_array flags count (bit_mask * 2) (out ++ separator out ++ name)
]

unfoldable pub flags_to_string : FlagNames → ℕ → Outcome (List ℕ)
flags_to_string flags_array flags = add_flag_names flags_array flags 64 1 []
