-- ===== src/RunPacket/Verify/Layers.antt =====
-- gtests/net/packetdrill/run_packet.c: the headers of a live packet are verified layer by layer.
use packetdrill_mptcp.Base.{
  ℕ, zero, suc, ◌≡◌, refl, ◌∙◌, inl, inr, Bool, true, false, not, List, [], ◌∷◌, length, get_elem?,
  ◌==◌, ◌||◌, if◌then◌else◌, some, Outcome, ok, status_err, fault, ◌>>=◌, Bool-cases, arith, ==_iff,
  some_inj,
}
use packetdrill_mptcp.Packet.{
  Packet, Header, HeaderType, header_ipv4, header_ipv6, header_gre, header_mpls, header_tcp,
  header_udp, header_icmpv4, header_icmpv6,
}
use mathlib.Core.Path.{subst}
use packetdrill_mptcp.Socket.{Tcp, load_tcp}
use packetdrill_mptcp.RunPacket.{is_present}
use packetdrill_mptcp.RunPacket.Verify.{
  ScriptPacket, verify_ipv4, verify_ipv6, verify_gre, verify_mpls, verify_tcp, verify_udp,
  tcp_options_allowance, verify_tcp_fields,
}
use packetdrill_mptcp.RunPacket.Verify.Fields.{IsScriptTcp, verify_tcp_fields-IsScriptTcp}

-- The numbers of enum header_t.
abbrev pub header_number : HeaderType → ℕ
header_number header_ipv4 = 1
header_number header_ipv6 = 2
header_number header_gre = 3
header_number header_mpls = 4
header_number header_tcp = 5
header_number header_udp = 6
header_number header_icmpv4 = 7
header_number header_icmpv6 = 8

-- The table of verifiers, in which the entries of ICMP are null pointers.
abbrev pub verifier : HeaderType → Packet → ScriptPacket → Header → Header → Outcome {0} Unit
verifier header_ipv4 = verify_ipv4
verifier header_ipv6 = verify_ipv6
verifier header_gre = verify_gre
verifier header_mpls = verify_mpls
verifier header_tcp = verify_tcp
verifier header_udp = verify_udp
verifier header_icmpv4 = λ actual_packet script_packet actual_header script_header. fault
verifier header_icmpv6 = λ actual_packet script_packet actual_header script_header. fault

unfoldable pub verify_header : Packet → ScriptPacket → Header → Header → Outcome {0} Unit
verify_header actual_packet script_packet actual_header script_header =
    if header_number actual_header.type == header_number script_header.type
    then verifier script_header.type actual_packet script_packet actual_header script_header
    else status_err

-- The loop over the script's headers; a live packet's header behind its last has the type
-- HEADER_NONE.
unfoldable pub verify_layers : Packet → ScriptPacket → List Header → List Header → Outcome {0} Unit
verify_layers actual_packet script_packet actual_headers [] = ok tt
verify_layers actual_packet script_packet [] (script_header ∷ script_headers) = status_err
verify_layers actual_packet script_packet (actual_header ∷ actual_headers)
      (script_header ∷ script_headers) =
    verify_header actual_packet script_packet actual_header script_header >>= λ (_ : Unit {0}).
    verify_layers actual_packet script_packet actual_headers script_headers

unfoldable pub verify_outbound_live_headers : Packet → ScriptPacket → Outcome {0} Unit
verify_outbound_live_headers actual_packet script_packet =
    if not (is_present actual_packet.ipv4_ptr || is_present actual_packet.ipv6_ptr)
    then fault
    else if not (is_present actual_packet.tcp_ptr || is_present actual_packet.udp_ptr)
    then fault
    else if not (length actual_packet.headers == length script_packet.packet.headers)
    then status_err
    else verify_layers actual_packet script_packet actual_packet.headers
        script_packet.packet.headers

-- A sequence of two calls succeeds only if both do.
pub both_ok :
    {A : Type 0} (m : Outcome A) (rest : A → Outcome {0} Unit)
    → (m >>= rest) ≡ ok tt
    → (a : A) × (m ≡ ok a) × (rest a ≡ ok tt)
both_ok fault rest h = cc
both_ok status_err rest h = cc
both_ok (ok a) rest h = (a, refl, h)

header_number_inj : (a b : HeaderType) → header_number a ≡ header_number b → a ≡ b
header_number_inj a b h = ground arith

not_both : (m : Outcome {0} Unit) → m ≡ status_err → m ≡ ok tt → ⊥
not_both m h k = cc

verify_header-type :
    (actual_packet : Packet) (script_packet : ScriptPacket) (actual script : Header)
    → verify_header actual_packet script_packet actual script ≡ ok tt
    → (actual.type ≡ script.type)
      × (verifier script.type actual_packet script_packet actual script ≡ ok tt)
unfolding verify_header
verify_header-type actual_packet script_packet actual script h =
    elim (Bool-cases (header_number actual.type == header_number script.type)) [
      | inl e ↦ (
        header_number_inj actual.type script.type
            ((==_iff (header_number actual.type) (header_number script.type)).0 e),
        rw e at h,
      )
      | inr e ↦ absurd (
          not_both (verify_header actual_packet script_packet actual script)
            (rw (verify_header, e) refl) h)
    ]

-- The layer with a number, in both packets.
verify_layers-layer :
    (actual_packet : Packet) (script_packet : ScriptPacket) (actual script : List Header) (i : ℕ)
    (script_header : Header)
    → verify_layers actual_packet script_packet actual script ≡ ok tt
    → get_elem? script i ≡ some script_header
    → (actual_header : Header) × (get_elem? actual i ≡ some actual_header)
      × (verify_header actual_packet script_packet actual_header script_header ≡ ok tt)
unfolding verify_layers
verify_layers-layer actual_packet script_packet actual [] i script_header h e = cc
verify_layers-layer actual_packet script_packet [] (s ∷ ss) i script_header h e = cc
verify_layers-layer actual_packet script_packet (first ∷ actual) (s ∷ script) zero script_header h
      e =
    let (u, verified, rest) =
      both_ok (verify_header actual_packet script_packet first s)
        (λ (_ : Unit {0}). verify_layers actual_packet script_packet actual script) h in
    (
      first,
      refl,
      subst (λ header. verify_header actual_packet script_packet first header ≡ ok tt)
          (some_inj s script_header e) verified,
    )
verify_layers-layer actual_packet script_packet (first ∷ actual) (s ∷ script) (suc i) script_header
      h e =
    let (u, verified, rest) =
      both_ok (verify_header actual_packet script_packet first s)
        (λ (_ : Unit {0}). verify_layers actual_packet script_packet actual script) h in
    verify_layers-layer actual_packet script_packet actual script i script_header rest e

live_headers-layers :
    (actual_packet : Packet) (script_packet : ScriptPacket)
    → verify_outbound_live_headers actual_packet script_packet ≡ ok tt
    → verify_layers actual_packet script_packet actual_packet.headers script_packet.packet.headers
      ≡ ok tt
unfolding verify_outbound_live_headers
live_headers-layers actual_packet script_packet h =
    last_branch (not (is_present actual_packet.ipv4_ptr || is_present actual_packet.ipv6_ptr))
      (not (is_present actual_packet.tcp_ptr || is_present actual_packet.udp_ptr))
      (not (length actual_packet.headers == length script_packet.packet.headers))
      (verify_layers actual_packet script_packet actual_packet.headers script_packet.packet.headers)
      h
  where
    last_branch :
        (a b c : Bool) (m : Outcome {0} Unit)
        → (if a then fault else if b then fault else if c then status_err else m) ≡ ok tt
        → m ≡ ok tt
    last_branch true b c m h = cc
    last_branch false true c m h = cc
    last_branch false false true m h = cc
    last_branch false false false m h = h

-- If verify_outbound_live_headers accepts a live packet and the script's packet has a TCP header in
-- some layer, then the live packet has a TCP header in that layer, both headers can be read, and
-- the live one is the script's but for the ports, two of the reserved bits, the checksum, the
-- window where it is not checked, and the allowance for options in the data offset.
pub verify_outbound_live_headers-tcp :
    (actual_packet : Packet) (script_packet : ScriptPacket) (i : ℕ) (script_header : Header)
    → verify_outbound_live_headers actual_packet script_packet ≡ ok tt
    → get_elem? script_packet.packet.headers i ≡ some script_header
    → script_header.type ≡ header_tcp
    → (actual_header : Header) × (actual : Tcp) × (script : Tcp) × (allowance : ℕ) × (get_elem?
          actual_packet.headers i
        ≡ some actual_header)
      × (actual_header.type ≡ header_tcp)
      × (load_tcp actual_packet.buffer actual_header.ptr ≡ ok actual)
      × (load_tcp script_packet.packet.buffer script_header.ptr ≡ ok script)
      × (tcp_options_allowance actual_packet script_packet ≡ ok allowance)
      × IsScriptTcp script_packet.win_nocheck allowance actual script
unfolding verify_tcp
verify_outbound_live_headers-tcp actual_packet script_packet i script_header h e is_tcp =
    let (actual_header, found, verified) =
      verify_layers-layer actual_packet script_packet actual_packet.headers
        script_packet.packet.headers i script_header
        (live_headers-layers actual_packet script_packet h) e in
    let (same_type, fields_ok) =
      verify_header-type actual_packet script_packet actual_header script_header verified in
    let tcp_ok =
      subst (λ type. verifier type actual_packet script_packet actual_header script_header ≡ ok tt)
        is_tcp fields_ok in
    let (actual, actual_read, k) =
      both_ok (load_tcp actual_packet.buffer actual_header.ptr)
        (λ actual. load_tcp script_packet.packet.buffer script_header.ptr >>= λ script.
          tcp_options_allowance actual_packet script_packet >>= λ allowance.
          verify_tcp_fields script_packet.win_nocheck allowance actual script)
        tcp_ok in
    let (script, script_read, l) =
      both_ok (load_tcp script_packet.packet.buffer script_header.ptr)
        (λ script. tcp_options_allowance actual_packet script_packet >>= λ allowance.
          verify_tcp_fields script_packet.win_nocheck allowance actual script)
        k in
    let (allowance, allowed, equal) =
      both_ok (tcp_options_allowance actual_packet script_packet)
        (λ allowance. verify_tcp_fields script_packet.win_nocheck allowance actual script) l in
    (
      actual_header,
      actual,
      script,
      allowance,
      found,
      same_type ∙ is_tcp,
      actual_read,
      script_read,
      allowed,
      (verify_tcp_fields-IsScriptTcp script_packet.win_nocheck allowance actual script).0 equal,
    )
