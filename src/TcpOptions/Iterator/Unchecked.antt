-- ===== src/TcpOptions/Iterator/Unchecked.antt =====
-- What the searches for an option do not check.
use packetdrill_mptcp.Base.{
  ℕ, zero, suc, ◌+◌, ◌*◌, ◌/◌, ◌≤◌, ◌<◌, ◌≡◌, ◌≢◌, refl, ap, ◌∙◌, arith, Bool, true, false, List,
  [], ◌∷◌, length, ◌==◌, leb, if◌then◌else◌, Bool-cases, inl, inr, Option, none, some, Outcome, ok,
  status_err, fault, All, length-append,
}
use packetdrill_mptcp.Memory.{load, load_inside}
use packetdrill_mptcp.TcpOptions.Iterator.{
  one_of, get_expected_tcp_option_length, tcp_options_next, find_option, kind_is, get_tcp_option,
  subtype_is, get_mptcp_option,
}
use packetdrill_mptcp.TcpOptions.Iterator.Wire.{
  WireOption, At, At-left, At-right, flat, WireOption-pos,
}
use packetdrill_mptcp.TcpOptions.Iterator.Find.{
  iterator_at, next-WireOption, length-flat, tcp_options_begin_at, find_option_hit,
  find_option_miss, find_option_fault,
}

-- Whether the high half of the byte two places on is the subtype.
abbrev pub has_subtype : ℕ → Outcome ℕ → Bool
has_subtype subtype (ok b) = b / 16 == subtype
has_subtype subtype status_err = false
has_subtype subtype fault = false

-- The specification: the place of the first option for which the byte two places behind its start
-- has the subtype, in a list of options that begins at `p`. An option of one or two bytes has no
-- third byte: there it is a byte of what follows.
abbrev pub first_third_byte : List ℕ → ℕ → List (List ℕ) → ℕ → Option ℕ
first_third_byte mem subtype [] p = none
first_third_byte mem subtype (o ∷ os) p =
    if has_subtype subtype (load mem (p + 2))
    then some p
    else first_third_byte mem subtype os (p + length o)

subtype_is-inside :
    (mem : List ℕ) (subtype p : ℕ)
    → p + 2 < length mem
    → subtype_is mem subtype p ≡ ok (has_subtype subtype (load mem (p + 2)))
unfolding subtype_is
subtype_is-inside mem subtype p h = let (b, e) = load_inside mem (p + 2) h in rw (e) refl

find_option-first_third_byte :
    (mem : List ℕ) (subtype end : ℕ) (os : List (List ℕ)) (fuel p : ℕ)
    → All WireOption os
    → At mem p (flat os)
    → p + length (flat os) ≡ end
    → end + 2 ≤ length mem
    → length os < fuel
    → find_option (subtype_is mem subtype) mem fuel (iterator_at p end)
      ≡ some (ok (first_third_byte mem subtype os p))
find_option-first_third_byte mem subtype end os zero p w h e l f = absurd (omega arith)
find_option-first_third_byte mem subtype end [] (suc fuel) p w h e l f =
    let last : leb end p ≡ true = ground arith in rw last (unfold find_option in refl)
find_option-first_third_byte mem subtype end (o ∷ os) (suc fuel) p w h e l f =
    let positive = WireOption-pos w.0 in
    let split = length-append o (flat os) in
    let inside : leb end p ≡ false = ground arith in
    let answer = subtype_is-inside mem subtype p (omega arith) in
    let rest =
      find_option-first_third_byte mem subtype end os fuel (p + length o) w.1
        (At-right mem p o (flat os) h) (omega arith) l (omega arith) in
    rw inside (elim (Bool-cases (has_subtype subtype (load mem (p + 2)))) [
      | inl hit ↦
          find_option_hit (subtype_is mem subtype) mem fuel p end (answer ∙ ap ok hit) ∙ rw hit refl
      | inr miss ↦
          find_option_miss (subtype_is mem subtype) mem fuel p end (iterator_at (p + length o) end)
            (answer ∙ ap ok miss)
            (next-WireOption mem p end false w.0 (At-left mem p o (flat os) h) (omega arith))
          ∙ rest
          ∙ rw miss refl
    ])

-- A TCP header whose data offset covers 20 bytes and the well-formed options `os`, at `tcp` in a
-- buffer that goes on for two bytes behind them: get_mptcp_option answers the first option for which
-- the byte two places behind its start has the wanted subtype in its high half, whatever the kind of
-- the option is and whether that byte belongs to it or not, and the null pointer if there is none.
pub get_mptcp_option_any_kind :
    (mem : List ℕ) (tcp subtype doff : ℕ) (os : List (List ℕ))
    → All WireOption os
    → load mem (tcp + 12) ≡ ok doff
    → doff < 256
    → doff / 16 * 4 ≡ 20 + length (flat os)
    → At mem (tcp + 20) (flat os)
    → tcp + doff / 16 * 4 + 2 ≤ length mem
    → get_mptcp_option mem tcp subtype ≡ some (ok (first_third_byte mem subtype os (tcp + 20)))
unfolding get_mptcp_option
get_mptcp_option_any_kind mem tcp subtype doff os w h byte size at l =
    let end = tcp + doff / 16 * 4 in
    let loop =
      find_option-first_third_byte mem subtype end os 41 (tcp + 20) w at (omega arith) l
        (omega (arith, length-flat os w)) in
    let begin = tcp_options_begin_at mem tcp doff h (omega arith) in
    rw (get_mptcp_option, begin) loop

-- If the first option is of a kind that the program does not know, and not of the wanted one,
-- get_tcp_option neither skips it nor answers the null pointer: reporting the error faults, since
-- the place for the message is the null pointer.
pub get_tcp_option_unknown_kind :
    (mem : List ℕ) (tcp kind doff other : ℕ)
    → load mem (tcp + 12) ≡ ok doff
    → 20 < doff / 16 * 4
    → load mem (tcp + 20) ≡ ok other
    → other ≢ kind
    → one_of other (0 ∷ 1 ∷ 2 ∷ 3 ∷ 4 ∷ 5 ∷ 8 ∷ 30 ∷ 254 ∷ []) ≡ false
    → get_tcp_option mem tcp kind ≡ some fault
unfolding get_tcp_option
get_tcp_option_unknown_kind mem tcp kind doff other h lt first ne unknown =
    let end = tcp + doff / 16 * 4 in
    let begin = tcp_options_begin_at mem tcp doff h (omega arith) in
    let inside : leb end (tcp + 20) ≡ false = ground arith in
    let miss : kind_is mem kind (tcp + 20) ≡ ok false = unfold kind_is in rw first (ground arith) in
    let next : tcp_options_next false mem
          (record { current_option = some (tcp + 20); options_end = end })
        ≡ fault =
      unfold tcp_options_next in
      rw (inside, get_expected_tcp_option_length, first) (ground arith) in
    rw (get_tcp_option, begin, inside)
      (find_option_fault (kind_is mem kind) mem 40 (tcp + 20) end miss next)
