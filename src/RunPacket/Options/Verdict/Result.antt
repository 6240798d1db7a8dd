-- ===== src/RunPacket/Options/Verdict/Result.antt =====
-- gtests/net/packetdrill/run_packet.c: when verify_outbound_live_packet answers which status.
use packetdrill_mptcp.Base.{
  ◌≡◌, ◌↔◌, ◌≢◌, refl, sym, arith, Bool, true, false, Outcome, ok, status_err, fault, ◌>>=◌,
}
use packetdrill_mptcp.Base.Int.{ℤ}
use packetdrill_mptcp.Packet.{Packet}
use packetdrill_mptcp.Run
use packetdrill_mptcp.RunPacket.Verify.{ScriptPacket, verify_outbound_live_checksums}
use packetdrill_mptcp.RunPacket.Verify.Layers.{verify_outbound_live_headers, both_ok}
use packetdrill_mptcp.RunPacket.Options.Verdict.{
  Actual, verdict, verify_mapped, Tolerance, Verdict, verdict_ok, verdict_err, verdict_warn,
  verify_actual, verify_options_of_tcp, verify_outbound_live_payload, verify_event_time,
  verify_outbound_live_packet,
}

ok_inj : (a b : Verdict) → ok a ≡ ok b → a ≡ b
ok_inj a b h = cc

is_ok : (non_fatal : Bool) (m : Outcome {0} Unit) → verdict non_fatal m ≡ ok verdict_ok → m ≡ ok tt
is_ok non_fatal fault h = absurd (ground arith)
is_ok true status_err h = absurd (ground arith)
is_ok false status_err h = absurd (ground arith)
is_ok non_fatal (ok done) h = refl

is_warning :
    (non_fatal : Bool) (m : Outcome {0} Unit)
    → verdict non_fatal m ≡ ok verdict_warn
    → (non_fatal ≡ true) × (m ≡ status_err)
is_warning non_fatal fault h = absurd (ground arith)
is_warning true status_err h = (refl, refl)
is_warning false status_err h = absurd (ground arith)
is_warning non_fatal (ok done) h = absurd (ground arith)

module _ (map_packet : Packet → ScriptPacket → Outcome Actual) (config : Tolerance)
    (state : Run.State) (script_packet : ScriptPacket) (live_packet : Packet) (live_usecs : ℤ) where
  -- The checksum of the live packet is right and its values can be mapped to the script's.
  abbrev pub IsMapped : Actual → Type 0
  IsMapped actual =
      (verify_outbound_live_checksums live_packet ≡ ok tt)
      × (map_packet live_packet script_packet ≡ ok actual)

  -- The mapped packets pass all other checks.
  abbrev pub IsExpected : Actual → Type 0
  IsExpected actual =
      (verify_outbound_live_headers actual.packet actual.script_packet ≡ ok tt)
      × (verify_options_of_tcp config actual ≡ ok tt)
      × (verify_outbound_live_payload actual.packet actual.script_packet ≡ ok tt)
      × (verify_event_time state live_usecs ≡ ok tt)

  -- The status is what `verdict` makes of the checks of a mapped packet.
  chain : Outcome {0} Unit → Outcome Actual → Outcome Verdict
  chain checks mapped = elim checks [
    | fault ↦ fault
    | status_err ↦ ok verdict_err
    | ok done ↦ verify_mapped config state live_usecs mapped
  ]

  is_softened :
      (v : Verdict) (checks : Outcome {0} Unit) (mapped : Outcome Actual)
      → (v ≢ verdict_err)
      → chain checks mapped ≡ ok v
      → (checks ≡ ok tt)
        × (actual : Actual) × (mapped ≡ ok actual)
        × (verdict config.non_fatal_packet (verify_actual config state live_usecs actual) ≡ ok v)
  unfolding chain
  is_softened v fault mapped d h = absurd (ground arith)
  is_softened v status_err mapped d h = absurd (d (sym (ok_inj verdict_err v h)))
  is_softened v (ok done) fault d h = absurd (ground arith)
  is_softened v (ok done) status_err d h = absurd (d (sym (ok_inj verdict_err v h)))
  is_softened v (ok done) (ok actual) d h = (refl, actual, refl, h)

  is_expected :
      (actual : Actual) → (verify_actual config state live_usecs actual ≡ ok tt) ↔ IsExpected actual
  unfolding verify_actual
  is_expected actual = (
    λ h.
        let after_options = λ (_ : Unit {0}).
          verify_outbound_live_payload actual.packet actual.script_packet >>= λ (_ : Unit {0}).
          verify_event_time state live_usecs in
        let (_, headers, h1) =
          both_ok (verify_outbound_live_headers actual.packet actual.script_packet)
            (λ (_ : Unit {0}). verify_options_of_tcp config actual >>= after_options) h in
        let (_, options, h2) = both_ok (verify_options_of_tcp config actual) after_options h1 in
        let (_, payload, time) =
          both_ok (verify_outbound_live_payload actual.packet actual.script_packet)
            (λ (_ : Unit {0}). verify_event_time state live_usecs) h2 in
        (headers, options, payload, time),
    λ e. rw (e.0, e.1, e.2) e.3,
  )

  -- Whatever map_outbound_live_packet makes of the live packet and of the script's packet: the answer
  -- is STATUS_OK exactly if the checksum is right, the mapping succeeds, and the two packets that it
  -- leaves agree in the checks of the headers, of the options if the script's packet has a TCP header,
  -- and of the payload, and the check of the time passes. It is STATUS_WARN exactly if the
  -- configuration has packet errors not fatal, the checksum is right, the mapping succeeds, and the
  -- first of these four checks that does not pass reports an error.
  pub verify_outbound_live_packet-result :
      ((verify_outbound_live_packet map_packet config state script_packet live_packet live_usecs
          ≡ ok verdict_ok)
        ↔ ((actual : Actual) × IsMapped actual × IsExpected actual))
      × ((verify_outbound_live_packet map_packet config state script_packet live_packet live_usecs
            ≡ ok verdict_warn)
          ↔ ((config.non_fatal_packet ≡ true)
              × (actual : Actual) × IsMapped actual
              × (verify_actual config state live_usecs actual ≡ status_err)))
  unfolding verify_outbound_live_packet chain
  verify_outbound_live_packet-result = (
    (
      λ h.
          let (checks, actual, mapped, soft) =
            is_softened verdict_ok (verify_outbound_live_checksums live_packet)
              (map_packet live_packet script_packet) (λ e. absurd (ground arith)) h in
          let passed =
            is_ok config.non_fatal_packet (verify_actual config state live_usecs actual) soft in
          (actual, (checks, mapped), (is_expected actual).0 passed),
      λ (actual, (checks, mapped), expected).
          rw (verify_outbound_live_packet, checks, mapped, (is_expected actual).1 expected) refl,
    ),
    (
      λ h.
          let (checks, actual, mapped, soft) =
            is_softened verdict_warn (verify_outbound_live_checksums live_packet)
              (map_packet live_packet script_packet) (λ e. absurd (ground arith)) h in
          let (soft_config, failed) =
            is_warning config.non_fatal_packet (verify_actual config state live_usecs actual)
              soft in
          (soft_config, actual, (checks, mapped), failed),
      λ (soft_config, actual, (checks, mapped), failed).
          rw (verify_outbound_live_packet, checks, mapped, failed, soft_config) refl,
    ),
  )
