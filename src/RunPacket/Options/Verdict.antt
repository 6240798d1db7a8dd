-- ===== src/RunPacket/Options/Verdict.antt =====
-- gtests/net/packetdrill/run_packet.c: the checks of an outbound live packet, from the checksums to
-- the time, and what verify_outbound_live_packet makes of their answers.
pub mod Result
use packetdrill_mptcp.Base.{
  ℕ, ◌+◌, ◌-◌, ◌*◌, ◌/◌, ◌%◌, ◌^◌, Bool, true, false, not, List, [], ◌∷◌, ◌++◌, length, take, drop,
  ◌==◌, ◌!=◌, ltb, leb, if◌then◌else◌, Option, none, some, Outcome, ok, status_err, fault, ◌>>=◌,
}
use packetdrill_mptcp.Base.Int.{ℤ}
use packetdrill_mptcp.Memory.{slice}
use packetdrill_mptcp.Packet.{Packet, tcp_header_len}
use packetdrill_mptcp.Socket.{load_be32, equal_bytes}
use packetdrill_mptcp.Run
use packetdrill_mptcp.Run.{Event, verify_time}
use packetdrill_mptcp.RunPacket.{is_present, through}
use packetdrill_mptcp.RunPacket.Verify.{ScriptPacket, verify_outbound_live_checksums}
use packetdrill_mptcp.RunPacket.Verify.Layers.{verify_outbound_live_headers}
use packetdrill_mptcp.RunPacket.Options.{same_tcp_options}

-- The fields of struct config that these checks read.
pub record Tolerance : Type 0 where
  pub tolerance_usecs : ℕ
  pub tcp_ts_tick_usecs : ℕ
  pub non_fatal_packet : Bool

-- The fields tcp_ts_val of the live packet and of the script's packet: none is the null pointer.
pub record Timestamps : Type 0 where
  pub actual_ts_val : Option ℕ
  pub script_ts_val : Option ℕ

-- put_unaligned_be32.
unfoldable pub store_be32 : List ℕ → ℕ → ℕ → Outcome (List ℕ)
store_be32 mem p val =
    if ltb (length mem) (p + 4)
    then fault
    else ok (
        take p mem
        ++ ((val / 2 ^ 24 % 256)
            ∷ (val / 2 ^ 16 % 256)
            ∷ (val / 2 ^ 8 % 256)
            ∷ (val % 256)
            ∷ drop (p + 4) mem))

-- abs of the difference as an s32.
abbrev pub distance_32 : ℕ → ℕ → ℕ
distance_32 a b = let d = (2 ^ 32 + a - b) % 2 ^ 32 in if ltb d (2 ^ 31) then d else 2 ^ 32 - d

-- The product is an int, which must not overflow.
unfoldable pub check_deviation : Tolerance → ℕ → ℕ → Outcome {0} Unit
check_deviation config actual_ts_val script_ts_val =
    let deviation = distance_32 actual_ts_val script_ts_val * config.tcp_ts_tick_usecs in
    if config.tcp_ts_tick_usecs == 0
    then ok tt
    else if leb (2 ^ 31) deviation
    then fault
    else if ltb config.tolerance_usecs deviation
    then status_err
    else ok tt

abbrev pub accept : Outcome Bool → Outcome {0} Unit
accept answer = answer >>= λ is_same. if is_same then ok tt else status_err

-- The comparison with the script's timestamp in place of the live packet's.
unfoldable pub same_but_timestamp : Tolerance → List ℕ → ℕ → ℕ → List ℕ → ℕ → ℕ → Outcome {0} Unit
same_but_timestamp config mem_a tcp_a val_a mem_b tcp_b val_b = do
  script_ts_val ← load_be32 mem_b val_b
  actual_ts_val ← load_be32 mem_a val_a
  _ ← check_deviation config actual_ts_val script_ts_val
  rewritten ← store_be32 mem_a val_a script_ts_val
  accept (same_tcp_options rewritten tcp_a mem_b tcp_b)

abbrev pub with_timestamps : Timestamps → (ℕ → ℕ → Outcome {0} Unit) → Outcome {0} Unit
with_timestamps stamps rest = elim stamps.script_ts_val [
  | none ↦ status_err
  | some val_b ↦ elim stamps.actual_ts_val [ none ↦ status_err | some val_a ↦ rest val_a val_b ]
]

abbrev pub compare_blocks : Tolerance → Timestamps → List ℕ → ℕ → List ℕ → ℕ → Outcome {0} Unit
compare_blocks config stamps mem_a tcp_a mem_b tcp_b =
    same_tcp_options mem_a tcp_a mem_b tcp_b >>= λ is_same.
    if is_same
    then ok tt
    else with_timestamps stamps
        (λ val_a val_b. same_but_timestamp config mem_a tcp_a val_a mem_b tcp_b val_b)

unfoldable pub verify_outbound_live_tcp_options :
    Tolerance → Timestamps → Packet → ScriptPacket → Outcome {0} Unit
verify_outbound_live_tcp_options config stamps actual_packet script_packet =
    if script_packet.options_nocheck
    then ok tt
    else through actual_packet.tcp_ptr (λ tcp_a. through script_packet.packet.tcp_ptr (λ tcp_b.
      compare_blocks config stamps actual_packet.buffer tcp_a script_packet.packet.buffer tcp_b))

-- packet_payload and packet_end: the payload's place and the end, of which the first header's place
-- is the start.
abbrev pub payload_of : Packet → Outcome ℕ
payload_of packet = elim packet.tcp_ptr [
  | some tcp ↦ tcp_header_len packet.buffer tcp >>= λ len. ok (tcp + len)
  | none ↦ elim packet.udp_ptr [ some udp ↦ ok (udp + 8) | none ↦ fault ]
]

abbrev pub end_of : Packet → Outcome ℕ
end_of packet = elim packet.headers [ [] ↦ fault | first ∷ rest ↦ ok (first.ptr + packet.ip_bytes) ]

-- The place and the length of the payload; one that ends before it starts faults in memcmp.
unfoldable pub packet_payload_len : Packet → Outcome (ℕ × ℕ)
packet_payload_len packet = do
  payload ← payload_of packet
  end ← end_of packet
  if ltb end payload then fault else ok (payload, end - payload)

unfoldable pub verify_outbound_live_payload : Packet → ScriptPacket → Outcome {0} Unit
verify_outbound_live_payload actual_packet script_packet = do
  actual ← packet_payload_len actual_packet
  script ← packet_payload_len script_packet.packet
  script_bytes ← slice script_packet.packet.buffer script.0 script.1
  actual_bytes ← slice actual_packet.buffer actual.0 script.1
  if actual.1 == script.1
      then (if equal_bytes script_bytes actual_bytes then ok tt else status_err)
      else fault

-- What map_outbound_live_packet leaves: the live packet in the script's space, and the script's
-- packet, into which it writes the values of the live packet's MPTCP options.
pub record Actual : Type 0 where
  pub packet : Packet
  pub stamps : Timestamps
  pub script_packet : ScriptPacket

-- STATUS_OK, STATUS_ERR and STATUS_WARN.
pub data Verdict : Type 0 where
  verdict_ok verdict_err verdict_warn : Verdict

abbrev pub verify_options_of_tcp : Tolerance → Actual → Outcome {0} Unit
verify_options_of_tcp config actual =
    if is_present actual.script_packet.packet.tcp_ptr
    then verify_outbound_live_tcp_options config actual.stamps actual.packet actual.script_packet
    else ok tt

abbrev pub verify_event_time : Run.State → ℤ → Outcome {0} Unit
verify_event_time state live_usecs = elim state.event [
  | [] ↦ fault
  | event ∷ rest ↦
      verify_time state event.time_type event.time_usecs event.time_usecs_end live_usecs
]

-- The checks whose failure is not fatal, in their order.
unfoldable pub verify_actual : Tolerance → Run.State → ℤ → Actual → Outcome {0} Unit
verify_actual config state live_usecs actual =
    verify_outbound_live_headers actual.packet actual.script_packet >>= λ (_ : Unit {0}).
    verify_options_of_tcp config actual >>= λ (_ : Unit {0}).
    verify_outbound_live_payload actual.packet actual.script_packet >>= λ (_ : Unit {0}).
    verify_event_time state live_usecs

abbrev pub verdict : Bool → Outcome {0} Unit → Outcome Verdict
verdict non_fatal fault = fault
verdict non_fatal status_err = ok (if non_fatal then verdict_warn else verdict_err)
verdict non_fatal (ok done) = ok verdict_ok

abbrev pub verify_mapped : Tolerance → Run.State → ℤ → Outcome Actual → Outcome Verdict
verify_mapped config state live_usecs fault = fault
verify_mapped config state live_usecs status_err = ok verdict_err
verify_mapped config state live_usecs (ok actual) =
    verdict config.non_fatal_packet (verify_actual config state live_usecs actual)

-- `map_packet` is map_outbound_live_packet for the packet's socket, on the live and the script's
-- packet.
unfoldable pub verify_outbound_live_packet :
    (Packet → ScriptPacket → Outcome Actual)
    → Tolerance
    → Run.State
    → ScriptPacket
    → Packet
    → ℤ
    → Outcome Verdict
verify_outbound_live_packet map_packet config state script_packet live_packet live_usecs =
    elim (verify_outbound_live_checksums live_packet) [
      | fault ↦ fault
      | status_err ↦ ok verdict_err
      | ok done ↦ verify_mapped config state live_usecs (map_packet live_packet script_packet)
    ]
