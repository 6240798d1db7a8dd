-- ===== src/TcpOptions/Iterator/Next.antt =====
-- One step of the walk: its asserts, its progress, and the options that it takes as well formed.
use packetdrill_mptcp.Base.{
  ℕ, ap, ◌∙◌, ◌+◌, ◌/◌, ◌≤◌, ◌<◌, ◌≡◌, refl, arith, Bool, true, false, List, length, ◌==◌, leb,
  ltb-false, if◌then◌else◌, Bool-cases, inl, inr, none, some, Outcome, ok, status_err, fault, ◌>>=◌,
}
use packetdrill_mptcp.Memory.{load_inside}
use packetdrill_mptcp.TcpOptions.Iterator.{
  Iterator, mptcp_expected_length, get_expected_tcp_option_length, get_tcp_option_length,
  get_current_option, option_length_at, tcp_options_next,
}

-- The result lies in the block, or an error is reported.
abbrev pub LengthFits : ℕ → ℕ → Outcome ℕ → Type 0
LengthFits end p (ok len) = (0 < len) × (p + len ≤ end)
LengthFits end p status_err = Unit
LengthFits end p fault = ⊥

abbrev pub NoFault {ℓ} : {A : Type ℓ} → Outcome A → Type 0
NoFault (ok a) = Unit
NoFault status_err = Unit
NoFault fault = ⊥

mptcp_expected_length-NoFault :
    (mem : List ℕ) (p subtype : ℕ)
    → p + 2 < length mem
    → NoFault (mptcp_expected_length true mem p subtype)
unfolding mptcp_expected_length
mptcp_expected_length-NoFault mem p subtype h =
    let (len, e) = load_inside mem (p + 1) (omega arith) in ground arith

get_expected_tcp_option_length-NoFault :
    (mem : List ℕ) (p : ℕ)
    → p + 2 < length mem
    → NoFault (get_expected_tcp_option_length true mem p)
unfolding get_expected_tcp_option_length
get_expected_tcp_option_length-NoFault mem p h =
    let (kind, e) = load_inside mem p (omega arith) in
    let (b, e') = load_inside mem (p + 2) h in
    ground (arith, mptcp_expected_length-NoFault mem p (b / 16) h)

get_tcp_option_length-LengthFits :
    (mem : List ℕ) (p end expected : ℕ)
    → p + 2 < length mem
    → LengthFits end p (get_tcp_option_length true mem p end expected)
unfolding get_tcp_option_length
get_tcp_option_length-LengthFits mem p end expected h =
    let (len, e) = load_inside mem (p + 1) (omega arith) in ground arith

-- The second step, whatever the first one answered.
length_step-LengthFits :
    (mem : List ℕ) (p end : ℕ) (m : Outcome ℕ)
    → p < end
    → p + 2 < length mem
    → NoFault m
    → LengthFits end p (
        m >>= λ expected.
        if expected == 1 then ok 1 else get_tcp_option_length true mem p end expected)
length_step-LengthFits mem p end status_err lt h safe = tt
length_step-LengthFits mem p end fault lt h safe = safe
length_step-LengthFits mem p end (ok expected) lt h safe = elim (Bool-cases (expected == 1)) [
  | inl bare ↦ rw bare (omega arith)
  | inr sized ↦ rw sized (get_tcp_option_length-LengthFits mem p end expected h)
]

option_length_at-LengthFits :
    (mem : List ℕ) (p end : ℕ)
    → p < end
    → p + 2 < length mem
    → LengthFits end p (option_length_at true mem end p)
unfolding option_length_at
option_length_at-LengthFits mem p end lt h =
    length_step-LengthFits mem p end (get_expected_tcp_option_length true mem p) lt h
      (get_expected_tcp_option_length-NoFault mem p h)

-- The iterator after a step from `p`: it stands behind an option that lies in the block, or at
-- its end.
abbrev pub Advances : ℕ → ℕ → Outcome Iterator → Type 0
Advances end p (ok iter) =
    (len : ℕ) × (0 < len)
    × (p + len ≤ end)
    × (iter.options_end ≡ end)
    × (iter.current_option ≡ (if leb end (p + len) then none else some (p + len)))
Advances end p status_err = Unit
Advances end p fault = ⊥

next_step-Advances :
    (end p : ℕ) (m : Outcome ℕ)
    → LengthFits end p m
    → Advances end p (m >>= λ len. if len == 0 then fault else get_current_option (p + len) end)
unfolding get_current_option
next_step-Advances end p status_err h = tt
next_step-Advances end p fault h = h
next_step-Advances end p (ok len) h =
    let positive : (len == 0) ≡ false = ground arith in
    rw (positive, ltb-false end (p + len) h.1) (len, h.0, h.1, refl, refl)

-- What an answer that reports an error becomes if there is no place for the message.
abbrev pub unreported {ℓ} : {A : Type ℓ} → Outcome A → Outcome A
unreported (ok a) = ok a
unreported status_err = fault
unreported fault = fault

unreported-bind :
    {A B : Type 0} (m : Outcome A) (f g : A → Outcome B)
    → ((a : A) → f a ≡ unreported (g a))
    → (unreported m >>= f) ≡ unreported (m >>= g)
unreported-bind fault f g h = refl
unreported-bind status_err f g h = refl
unreported-bind (ok a) f g h = h a

mptcp_expected_length-unreported :
    (mem : List ℕ) (p subtype : ℕ)
    → p + 2 < length mem
    → mptcp_expected_length false mem p subtype
      ≡ unreported (mptcp_expected_length true mem p subtype)
unfolding mptcp_expected_length
mptcp_expected_length-unreported mem p subtype h =
    let (len, e) = load_inside mem (p + 1) (omega arith) in ground arith

get_expected_tcp_option_length-unreported :
    (mem : List ℕ) (p : ℕ)
    → p + 2 < length mem
    → get_expected_tcp_option_length false mem p
      ≡ unreported (get_expected_tcp_option_length true mem p)
unfolding get_expected_tcp_option_length
get_expected_tcp_option_length-unreported mem p h =
    let (kind, e) = load_inside mem p (omega arith) in
    let (b, e') = load_inside mem (p + 2) h in
    ground (arith, mptcp_expected_length-unreported mem p (b / 16) h)

get_tcp_option_length-unreported :
    (mem : List ℕ) (option end expected : ℕ)
    → option + 2 < length mem
    → get_tcp_option_length false mem option end expected
      ≡ unreported (get_tcp_option_length true mem option end expected)
unfolding get_tcp_option_length
get_tcp_option_length-unreported mem option end expected h =
    let (len, e) = load_inside mem (option + 1) (omega arith) in ground arith

length_step-unreported :
    (mem : List ℕ) (p end expected : ℕ)
    → p + 2 < length mem
    → (if expected == 1 then ok 1 else get_tcp_option_length false mem p end expected)
      ≡ unreported (if expected == 1 then ok 1 else get_tcp_option_length true mem p end expected)
length_step-unreported mem p end expected h = elim (Bool-cases (expected == 1)) [
  | inl bare ↦ rw bare refl
  | inr sized ↦ rw sized (get_tcp_option_length-unreported mem p end expected h)
]

option_length_at-unreported :
    (mem : List ℕ) (p end : ℕ)
    → p + 2 < length mem
    → option_length_at false mem end p ≡ unreported (option_length_at true mem end p)
unfolding option_length_at
option_length_at-unreported mem p end h =
    let first : Outcome ℕ = get_expected_tcp_option_length true mem p in
    let second : Bool → ℕ → Outcome ℕ = λ report expected.
      if expected == 1 then ok 1 else get_tcp_option_length report mem p end expected in
    ap (λ m. m >>= second false) (get_expected_tcp_option_length-unreported mem p h)
    ∙ unreported-bind first (second false) (second true)
        (λ expected. length_step-unreported mem p end expected h)

get_current_option-unreported :
    (p len end : ℕ)
    → (if len == 0 then fault else get_current_option (p + len) end)
      ≡ unreported (if len == 0 then fault else get_current_option (p + len) end)
unfolding get_current_option
get_current_option-unreported p len end = ground arith

-- One step from an option inside the block, in a buffer that goes on for two bytes behind it:
-- with a place for the message, either an error is reported, or the iterator moves on by at least
-- one byte and not past the end of the block, and it is nulled exactly when it reaches that end. No
-- assert fails and nothing is read outside the buffer. With none, the step is the same where no
-- error is to be reported, and faults where one is.
pub tcp_options_next-Advances :
    (mem : List ℕ) (p end : ℕ)
    → p < end
    → end + 2 ≤ length mem
    → Advances end p
        (tcp_options_next true mem (record { current_option = some p; options_end = end }))
      × (tcp_options_next false mem (record { current_option = some p; options_end = end })
          ≡ unreported
              (tcp_options_next true mem (record { current_option = some p; options_end = end })))
unfolding tcp_options_next
tcp_options_next-Advances mem p end lt h =
    let inside : leb end p ≡ false = ground arith in
    rw inside (
      next_step-Advances end p (option_length_at true mem end p)
          (option_length_at-LengthFits mem p end lt (omega arith)),
      ap (λ m. m >>= λ len. if len == 0 then fault else get_current_option (p + len) end)
            (option_length_at-unreported mem p end (omega arith))
          ∙ unreported-bind (option_length_at true mem end p)
              (λ len. if len == 0 then fault else get_current_option (p + len) end)
              (λ len. if len == 0 then fault else get_current_option (p + len) end)
              (λ len. get_current_option-unreported p len end),
    )
