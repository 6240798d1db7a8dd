-- ===== src/TcpOptions/Iterator/Find.antt =====
-- The walk over a well-formed block of options, against a search in the list of the options.
use packetdrill_mptcp.Base.{
  ℕ, zero, suc, ◌+◌, ◌*◌, ◌/◌, ◌≤◌, ◌<◌, ◌≡◌, refl, ap, ◌∙◌, arith, Bool, true, false, List, [],
  ◌∷◌, length, ◌==◌, ltb, leb, ltb-false, if◌then◌else◌, Bool-cases, inl, inr, none, some, Outcome,
  ok, fault, All, length-append,
}
use packetdrill_mptcp.Memory.{load}
use packetdrill_mptcp.TcpOptions.Iterator.{
  Iterator, get_current_option, tcp_options_next, find_option, kind_is, get_tcp_option,
  tcp_options_begin,
}
use packetdrill_mptcp.TcpOptions.Iterator.Wire.{
  WireOption, bare, sized, At, At-left, At-right, first_byte, flat, kind_of, first_of_kind,
  option_length_at-WireOption, WireOption-pos,
}

-- Where the iterator stands before the options `os` that begin at `p`.
abbrev pub iterator_at : ℕ → ℕ → Iterator
iterator_at p end = record {
  current_option = if leb end p then none else some p;
  options_end = end;
}

pub next-WireOption :
    (mem : List ℕ) (p end : ℕ) (report : Bool) {o : List ℕ}
    → WireOption o
    → At mem p o
    → p + length o ≤ end
    → tcp_options_next report mem (record { current_option = some p; options_end = end })
      ≡ ok (iterator_at (p + length o) end)
unfolding tcp_options_next get_current_option
next-WireOption mem p end report {o} w h le =
    let positive = WireOption-pos w in
    let inside : leb end p ≡ false = ground arith in
    let nonzero : (length o == 0) ≡ false = ground arith in
    rw
      (
        inside,
        option_length_at-WireOption mem p end report w h le,
        nonzero,
        ltb-false end (p + length o) le,
      )
      refl

kind_is-WireOption :
    (mem : List ℕ) (p kind : ℕ) {o : List ℕ}
    → WireOption o
    → At mem p o
    → kind_is mem kind p ≡ ok (kind_of o == kind)
unfolding kind_is
kind_is-WireOption mem p kind (bare k c) h = rw (first_byte mem p k [] h) refl
kind_is-WireOption mem p kind (sized k len body e l) h = rw (first_byte mem p k (len ∷ body) h) refl

-- One round of the loop.
module _ (wanted : ℕ → Outcome Bool) (mem : List ℕ) (fuel p end : ℕ) where
  abbrev here_at : Iterator
  here_at = record { current_option = some p; options_end = end }

  pub find_option_hit :
      wanted p ≡ ok true → find_option wanted mem (suc fuel) here_at ≡ some (ok (some p))
  unfolding find_option
  find_option_hit h = rw (find_option, h) refl

  pub find_option_miss :
      (iter' : Iterator)
      → wanted p ≡ ok false
      → tcp_options_next false mem here_at ≡ ok iter'
      → find_option wanted mem (suc fuel) here_at ≡ find_option wanted mem fuel iter'
  unfolding find_option
  find_option_miss iter' h e = rw (find_option, h, e) refl

  pub find_option_fault :
      wanted p ≡ ok false
      → tcp_options_next false mem here_at ≡ fault
      → find_option wanted mem (suc fuel) here_at ≡ some fault
  unfolding find_option
  find_option_fault h e = rw (find_option, h, e) refl

-- The loop of get_tcp_option finds the first option of the kind that it looks for, or none.
pub find_option-first_of_kind :
    (mem : List ℕ) (kind end : ℕ) (os : List (List ℕ)) (fuel p : ℕ)
    → All WireOption os
    → At mem p (flat os)
    → p + length (flat os) ≡ end
    → length os < fuel
    → find_option (kind_is mem kind) mem fuel (iterator_at p end)
      ≡ some (ok (first_of_kind kind os p))
find_option-first_of_kind mem kind end os zero p w h e f = absurd (omega arith)
find_option-first_of_kind mem kind end [] (suc fuel) p w h e f =
    let last : leb end p ≡ true = ground arith in rw last (unfold find_option in refl)
find_option-first_of_kind mem kind end (o ∷ os) (suc fuel) p w h e f =
    let positive = WireOption-pos w.0 in
    let split = length-append o (flat os) in
    let inside : leb end p ≡ false = ground arith in
    let here = At-left mem p o (flat os) h in
    let rest =
      find_option-first_of_kind mem kind end os fuel (p + length o) w.1
        (At-right mem p o (flat os) h) (omega arith) (omega arith) in
    rw inside (elim (Bool-cases (kind_of o == kind)) [
      | inl hit ↦
          find_option_hit (kind_is mem kind) mem fuel p end
            (kind_is-WireOption mem p kind w.0 here ∙ ap ok hit)
          ∙ rw hit refl
      | inr miss ↦
          find_option_miss (kind_is mem kind) mem fuel p end (iterator_at (p + length o) end)
            (kind_is-WireOption mem p kind w.0 here ∙ ap ok miss)
            (next-WireOption mem p end false w.0 here (omega arith))
          ∙ rest
          ∙ rw miss refl
    ])

-- Each option takes at least one byte.
pub length-flat : (os : List (List ℕ)) → All WireOption os → length os ≤ length (flat os)
length-flat [] w = omega arith
length-flat (o ∷ os) w =
    omega (arith, length-flat os w.1, WireOption-pos w.0, length-append o (flat os))

pub tcp_options_begin_at :
    (mem : List ℕ) (tcp doff : ℕ)
    → load mem (tcp + 12) ≡ ok doff
    → 20 ≤ doff / 16 * 4
    → tcp_options_begin mem tcp ≡ ok (iterator_at (tcp + 20) (tcp + doff / 16 * 4))
unfolding tcp_options_begin
tcp_options_begin_at mem tcp doff h le =
    let inside : ltb (tcp + doff / 16 * 4) (tcp + 20) ≡ false = ground arith in rw (h, inside) refl

-- A TCP header whose data offset covers 20 bytes and the well-formed options `os`, at `tcp` in
-- the buffer: get_tcp_option answers the place of the first option of the wanted kind, or the null
-- pointer if there is none. It comes to an end within the 41 rounds, and with no fault, although
-- it passes no place for an error message.
pub get_tcp_option-first_of_kind :
    (mem : List ℕ) (tcp kind doff : ℕ) (os : List (List ℕ))
    → All WireOption os
    → load mem (tcp + 12) ≡ ok doff
    → doff < 256
    → doff / 16 * 4 ≡ 20 + length (flat os)
    → At mem (tcp + 20) (flat os)
    → get_tcp_option mem tcp kind ≡ some (ok (first_of_kind kind os (tcp + 20)))
unfolding get_tcp_option
get_tcp_option-first_of_kind mem tcp kind doff os w h byte size at =
    let end = tcp + doff / 16 * 4 in
    let loop =
      find_option-first_of_kind mem kind end os 41 (tcp + 20) w at (omega arith)
        (omega (arith, length-flat os w)) in
    let begin = tcp_options_begin_at mem tcp doff h (omega arith) in rw (get_tcp_option, begin) loop
