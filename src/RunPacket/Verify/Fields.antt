-- ===== src/RunPacket/Verify/Fields.antt =====
-- gtests/net/packetdrill/run_packet.c: what verify_tcp and the checks of fields leave open.
use packetdrill_mptcp.Base.{
  ℕ, ◌+◌, ◌/◌, ◌%◌, ◌^◌, ◌≡◌, ◌↔◌, refl, ap, Bool, true, false, List, [], ◌∷◌, ◌++◌, ◌==◌,
  if◌then◌else◌, Outcome, ok, status_err, ◌>>=◌, arith, ==_iff,
}
use mathlib.Core.Bool.{false≢true}
use packetdrill_mptcp.Socket.{Tcp}
use packetdrill_mptcp.RunPacket.Verify.{
  check_fields, bit_value, tcp_fields, window_fields, verify_tcp_fields,
}

-- Every pair has two equal components.
abbrev pub AllEqual : List (ℕ × ℕ) → Type 0
AllEqual [] = Unit
AllEqual ((expected, actual) ∷ rest) = (actual ≡ expected) × AllEqual rest

check-both :
    (b : Bool) (P Q : Type 0) (rest : Outcome {0} Unit)
    → (b ≡ true) ↔ P
    → (rest ≡ ok tt) ↔ Q
    → (((if b then ok tt else status_err) >>= λ (u : Unit {0}). rest) ≡ ok tt) ↔ (P × Q)
check-both true P Q rest e f = (λ h. (e.0 refl, f.0 h), λ h. f.1 (h.1))
check-both false P Q rest e f = (λ h. absurd (err≢ok h), λ h. absurd (false≢true (e.1 (h.0))))
  where
    err≢ok : ((if false then ok tt else status_err) >>= λ (u : Unit {0}). rest) ≡ ok tt → ⊥
    err≢ok h = cc

pub check_fields-AllEqual :
    (fields : List (ℕ × ℕ)) → (check_fields fields ≡ ok tt) ↔ AllEqual fields
unfolding check_fields
check_fields-AllEqual [] = (λ e. tt, λ e. refl)
check_fields-AllEqual ((expected, actual) ∷ rest) =
    check-both (actual == expected) (actual ≡ expected) (AllEqual rest) (check_fields rest)
      (==_iff actual expected) (check_fields-AllEqual rest)

-- The live header is the script's but for the ports, two of the reserved bits, the checksum and,
-- if the script says so, the window; the data offset has the allowance for options on top.
unfoldable pub IsScriptTcp : Bool → ℕ → Tcp → Tcp → Type 0
IsScriptTcp win_nocheck allowance actual script = actual ≡ record script {
  src_port = actual.src_port;
  dst_port = actual.dst_port;
  res2 = actual.res2;
  doff = (script.doff + allowance / 4) % 2 ^ 32;
  window = if win_nocheck then actual.window else script.window;
  check = actual.check;
}

bit_value_inj : (a b : Bool) → bit_value a ≡ bit_value b → a ≡ b
bit_value_inj a b e = ground arith

window_lem :
    (win_nocheck : Bool) (actual script : Tcp)
    → AllEqual (window_fields win_nocheck actual script ++ ((script.urg_ptr, actual.urg_ptr) ∷ []))
    → (actual.window ≡ (if win_nocheck then actual.window else script.window))
      × (actual.urg_ptr ≡ script.urg_ptr)
window_lem true actual script (u, _) = (refl, u)
window_lem false actual script (w, (u, _)) = (w, u)

window_back :
    (win_nocheck : Bool) (actual script : Tcp)
    → actual.window ≡ (if win_nocheck then actual.window else script.window)
    → actual.urg_ptr ≡ script.urg_ptr
    → AllEqual (window_fields win_nocheck actual script ++ ((script.urg_ptr, actual.urg_ptr) ∷ []))
window_back true actual script w u = (u, tt)
window_back false actual script w u = (w, (u, tt))

fields-IsScriptTcp :
    (win_nocheck : Bool) (allowance : ℕ) (actual script : Tcp)
    → AllEqual (tcp_fields win_nocheck allowance actual script)
    → IsScriptTcp win_nocheck allowance actual script
unfolding IsScriptTcp
fields-IsScriptTcp win_nocheck allowance actual script
      (d, (f, (s, (r, (p, (a, (u, (e, (c, (x, (q, (k, rest)))))))))))) =
    let fin_bit = bit_value_inj actual.fin script.fin f in
    let syn_bit = bit_value_inj actual.syn script.syn s in
    let rst_bit = bit_value_inj actual.rst script.rst r in
    let psh_bit = bit_value_inj actual.psh script.psh p in
    let ack_bit = bit_value_inj actual.ack script.ack a in
    let urg_bit = bit_value_inj actual.urg script.urg u in
    let ece_bit = bit_value_inj actual.ece script.ece e in
    let cwr_bit = bit_value_inj actual.cwr script.cwr c in
    let (window, urg_ptr) = window_lem win_nocheck actual script rest in cc

IsScriptTcp-fields :
    (win_nocheck : Bool) (allowance : ℕ) (actual script : Tcp)
    → IsScriptTcp win_nocheck allowance actual script
    → AllEqual (tcp_fields win_nocheck allowance actual script)
unfolding IsScriptTcp
IsScriptTcp-fields win_nocheck allowance actual script e = (
  ap (λ t. t.doff) e,
  (
    ap (λ t. bit_value t.fin) e,
    (
      ap (λ t. bit_value t.syn) e,
      (
        ap (λ t. bit_value t.rst) e,
        (
          ap (λ t. bit_value t.psh) e,
          (
            ap (λ t. bit_value t.ack) e,
            (
              ap (λ t. bit_value t.urg) e,
              (
                ap (λ t. bit_value t.ece) e,
                (
                  ap (λ t. bit_value t.cwr) e,
                  (
                    ap (λ t. t.res1) e,
                    (
                      ap (λ t. t.seq) e,
                      (
                        ap (λ t. t.ack_seq) e,
                        window_back win_nocheck actual script (ap (λ t. t.window) e)
                            (ap (λ t. t.urg_ptr) e),
                      ),
                    ),
                  ),
                ),
              ),
            ),
          ),
        ),
      ),
    ),
  ),
)

-- verify_tcp accepts the fields of a live header exactly if they are those of the script's header
-- but for the ports, two of the reserved bits, the checksum and, where it is not to be checked,
-- the window, with the allowance for options added to the data offset.
pub verify_tcp_fields-IsScriptTcp :
    (win_nocheck : Bool) (allowance : ℕ) (actual script : Tcp)
    → (verify_tcp_fields win_nocheck allowance actual script ≡ ok tt)
      ↔ IsScriptTcp win_nocheck allowance actual script
unfolding verify_tcp_fields
verify_tcp_fields-IsScriptTcp win_nocheck allowance actual script =
    let checks = check_fields-AllEqual (tcp_fields win_nocheck allowance actual script) in
    (
      λ h. fields-IsScriptTcp win_nocheck allowance actual script (checks.0 h),
      λ e. checks.1 (IsScriptTcp-fields win_nocheck allowance actual script e),
    )
