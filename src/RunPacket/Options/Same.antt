-- ===== src/RunPacket/Options/Same.antt =====
-- gtests/net/packetdrill/run_packet.c: what same_tcp_options answers on two well-formed blocks.
use packetdrill_mptcp.Base.{
  ℕ, zero, suc, ◌+◌, ◌*◌, ◌/◌, ◌<◌, ◌≡◌, ◌≢◌, ◌⊎◌, refl, ap, ◌∙◌, inl, inr, arith, Bool, true,
  false, ◌||◌, ◌&&◌, ◌==◌, leb, Bool-cases, List, [], ◌∷◌, length, All, length-append, Option, none,
  some, ok,
}
use packetdrill_mptcp.Memory.{load}
use packetdrill_mptcp.Packet.{tcp_header_len}
use packetdrill_mptcp.Socket.{equal_bytes}
use packetdrill_mptcp.TcpOptions.Iterator.{tcp_options_next}
use packetdrill_mptcp.TcpOptions.Iterator.Wire.{
  WireOption, bare, sized, At, At-left, At-right, first_byte, flat, kind_of, first_of_kind,
  WireOption-pos,
}
use packetdrill_mptcp.TcpOptions.Iterator.Find.{
  iterator_at, next-WireOption, find_option-first_of_kind, length-flat, tcp_options_begin_at,
}
use packetdrill_mptcp.RunPacket.Options.{
  same_as_found, find_counterpart, has_counterpart, compare_options, same_tcp_options,
}
use packetdrill_mptcp.RunPacket.Options.Found.{
  option_of_kind, IsFirst, IsMissing, IsFirst-cases, same_plain_option-sized,
}

-- A TCP header at `tcp` whose data offset covers 20 bytes and the well-formed options `os`.
abbrev pub IsBlock : List ℕ → ℕ → List (List ℕ) → Type 0
IsBlock mem tcp os =
    All WireOption os
    × (doff : ℕ) × (load mem (tcp + 12) ≡ ok doff)
    × (doff < 256)
    × (doff / 16 * 4 ≡ 20 + length (flat os))
    × At mem (tcp + 20) (flat os)

-- Neither the end of the list nor an option of MPTCP.
abbrev pub IsOrdinary : List ℕ → Type 0
IsOrdinary o = (kind_of o ≢ 0) × (kind_of o ≢ 30)

-- An option has its like: NOP any NOP, another option the first of its kind.
abbrev pub is_like : List ℕ → Option (List ℕ) → Bool
is_like o none = false
is_like o (some other) = kind_of o == 1 || equal_bytes other o

abbrev pub all_found : List (List ℕ) → List (List ℕ) → Bool
all_found [] others = true
all_found (o ∷ os) others = is_like o (option_of_kind (kind_of o) others) && all_found os others

kind-WireOption :
    (mem : List ℕ) (p : ℕ) {o : List ℕ} → WireOption o → At mem p o → load mem p ≡ ok (kind_of o)
kind-WireOption mem p (bare k c) h = first_byte mem p k [] h
kind-WireOption mem p (sized k len body e l) h = first_byte mem p k (len ∷ body) h

module _ (mem_a : List ℕ) (tcp_a : ℕ) (mem_b : List ℕ) (begin_b end_b : ℕ) (others : List (List ℕ))
    (wire_b : All WireOption others) (at_b : At mem_b begin_b (flat others))
    (size_b : begin_b + length (flat others) ≡ end_b) (few_b : length others < 41) where
  found_lem :
      (opt_a kind : ℕ)
      → (kind == 30) ≡ false
      → find_counterpart mem_a mem_b (iterator_at begin_b end_b) opt_a kind
        ≡ ok (first_of_kind kind others begin_b)
  unfolding find_counterpart
  found_lem opt_a kind h =
      rw (find_option-first_of_kind mem_b kind end_b others 41 begin_b wire_b at_b size_b few_b, h)
        refl

  like_lem :
      (opt_a : ℕ) (o : List ℕ)
      → WireOption o
      → IsOrdinary o
      → At mem_a opt_a o
      → (IsMissing (kind_of o) others begin_b) ⊎ (IsFirst mem_b (kind_of o) others begin_b)
      → same_as_found mem_a tcp_a mem_b opt_a (kind_of o) (first_of_kind (kind_of o) others begin_b)
        ≡ ok (is_like o (option_of_kind (kind_of o) others))
  like_lem opt_a o w ordinary h (inl (none_a, none_b)) = rw (none_a, none_b) refl
  like_lem opt_a o w ordinary h (inr (q, other, first_a, first_b, at_q, w_q, kind)) =
      let not_mptcp : (kind_of o == 30) ≡ false = ground arith in
      elim (Bool-cases (kind_of o == 1)) [
        | inl nop ↦ rw (first_a, first_b, nop) refl
        | inr other_kind ↦
            rw (first_a, first_b, other_kind, not_mptcp)
              (same_plain_option-sized mem_a opt_a mem_b q o other w w_q h at_q (ground arith)
                (ground arith))
      ]

  has_counterpart-is_like :
      (opt_a : ℕ) (o : List ℕ)
      → WireOption o
      → IsOrdinary o
      → At mem_a opt_a o
      → has_counterpart mem_a tcp_a mem_b (iterator_at begin_b end_b) opt_a
        ≡ ok (is_like o (option_of_kind (kind_of o) others))
  unfolding has_counterpart
  has_counterpart-is_like opt_a o w ordinary h =
      let not_mptcp : (kind_of o == 30) ≡ false = ground arith in
      rw (kind-WireOption mem_a opt_a w h, found_lem opt_a (kind_of o) not_mptcp)
        (like_lem opt_a o w ordinary h (IsFirst-cases mem_b (kind_of o) begin_b others wire_b at_b))

  -- One turn of the loop.
  compare_more :
      (fuel p end_a : ℕ) (o : List ℕ) (os : List (List ℕ))
      → has_counterpart mem_a tcp_a mem_b (iterator_at begin_b end_b) p ≡ ok true
      → tcp_options_next false mem_a (record { current_option = some p; options_end = end_a })
        ≡ ok (iterator_at (p + length o) end_a)
      → compare_options mem_a tcp_a mem_b
          (iterator_at begin_b end_b)
          (suc fuel)
          (record { current_option = some p; options_end = end_a })
        ≡ compare_options mem_a tcp_a mem_b
            (iterator_at begin_b end_b)
            fuel
            (iterator_at (p + length o) end_a)
  unfolding compare_options
  compare_more fuel p end_a o os h n = rw (compare_options, h, n) refl

  compare_stops :
      (fuel p end_a : ℕ) (o : List ℕ)
      → has_counterpart mem_a tcp_a mem_b (iterator_at begin_b end_b) p ≡ ok false
      → compare_options mem_a tcp_a mem_b
          (iterator_at begin_b end_b)
          (suc fuel)
          (record { current_option = some p; options_end = end_a })
        ≡ ok false
  unfolding compare_options
  compare_stops fuel p end_a o h = rw (compare_options, h) refl

  compare_options-all_found :
      (os : List (List ℕ)) (fuel p end_a : ℕ)
      → All WireOption os
      → All IsOrdinary os
      → At mem_a p (flat os)
      → p + length (flat os) ≡ end_a
      → length os < fuel
      → compare_options mem_a tcp_a mem_b (iterator_at begin_b end_b) fuel (iterator_at p end_a)
        ≡ ok (all_found os others)
  compare_options-all_found os zero p end_a w ordinary h e f = absurd (omega arith)
  compare_options-all_found [] (suc fuel) p end_a w ordinary h e f =
      let last : leb end_a p ≡ true = ground arith in rw last (unfold compare_options in refl)
  compare_options-all_found (o ∷ os) (suc fuel) p end_a w ordinary h e f =
      let positive = WireOption-pos w.0 in
      let split = length-append o (flat os) in
      let inside : leb end_a p ≡ false = ground arith in
      let here = At-left mem_a p o (flat os) h in
      let turn = has_counterpart-is_like p o w.0 ordinary.0 here in
      let rest =
        compare_options-all_found os fuel (p + length o) end_a w.1 ordinary.1
          (At-right mem_a p o (flat os) h) (omega arith) (omega arith) in
      rw (inside) (elim (Bool-cases (is_like o (option_of_kind (kind_of o) others))) [
        | inl like ↦
            compare_more fuel p end_a o os (turn ∙ ap ok like)
              (next-WireOption mem_a p end_a false w.0 here (omega arith))
            ∙ rest
            ∙ rw (like) refl
        | inr unlike ↦ compare_stops fuel p end_a o (turn ∙ ap ok unlike) ∙ rw (unlike) refl
      ])

header_len-doff :
    (mem : List ℕ) (tcp doff : ℕ)
    → load mem (tcp + 12) ≡ ok doff
    → tcp_header_len mem tcp ≡ ok (doff / 16 * 4)
unfolding tcp_header_len
header_len-doff mem tcp doff h = rw (h) refl

-- On two well-formed blocks of options, the live packet's without an end of list and without MPTCP:
-- same_tcp_options answers whether the blocks have one length and each option of the live packet has
-- its like in the script's packet, which for NOP is any NOP and for another option the first of its
-- kind, with the same bytes. It comes to an end, and without a fault.
pub same_tcp_options-all_found :
    (mem_a : List ℕ) (tcp_a : ℕ) (os : List (List ℕ)) (mem_b : List ℕ) (tcp_b : ℕ)
    (others : List (List ℕ))
    → IsBlock mem_a tcp_a os
    → IsBlock mem_b tcp_b others
    → All IsOrdinary os
    → same_tcp_options mem_a tcp_a mem_b tcp_b
      ≡ ok ((length (flat os) == length (flat others)) && all_found os others)
unfolding same_tcp_options
same_tcp_options-all_found mem_a tcp_a os mem_b tcp_b others
      (w_a, doff_a, read_a, byte_a, size_a, at_a) (w_b, doff_b, read_b, byte_b, size_b, at_b)
      ordinary =
    let len_a = header_len-doff mem_a tcp_a doff_a read_a in
    let len_b = header_len-doff mem_b tcp_b doff_b read_b in
    elim (Bool-cases (length (flat os) == length (flat others))) [
      | inl same ↦
          let lens : (doff_a / 16 * 4 == doff_b / 16 * 4) ≡ true = ground arith in
          rw
            (
              len_a,
              len_b,
              lens,
              same,
              tcp_options_begin_at mem_a tcp_a doff_a read_a (omega arith),
              tcp_options_begin_at mem_b tcp_b doff_b read_b (omega arith),
            )
            (compare_options-all_found mem_a tcp_a mem_b (tcp_b + 20) (tcp_b + doff_b / 16 * 4)
              others w_b at_b (omega arith) (omega (arith, length-flat others w_b)) os 41
              (tcp_a + 20) (tcp_a + doff_a / 16 * 4) w_a ordinary at_a (omega arith)
              (omega (arith, length-flat os w_a)))
      | inr other ↦
          let lens : (doff_a / 16 * 4 == doff_b / 16 * 4) ≡ false = ground arith in
          rw (len_a, len_b, lens, other) refl
    ]
