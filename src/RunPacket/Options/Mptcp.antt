-- ===== src/RunPacket/Options/Mptcp.antt =====
-- same_mptcp_opt of gtests/net/packetdrill/run_packet.c. The fields of struct tcp_option are bytes
-- at fixed distances from the option: which are read depends on the subtype, the length and the
-- flags of the live packet's option. Equal numbers have equal bytes, whatever the byte order.
use packetdrill_mptcp.Base.{
  ℕ, zero, suc, ◌+◌, ◌/◌, ◌%◌, Bool, true, false, not, List, ◌==◌, leb, ◌&&◌, ◌||◌, if◌then◌else◌,
  Outcome, ok, ◌>>=◌,
}
use packetdrill_mptcp.Memory.{load, slice}
use packetdrill_mptcp.Socket.{equal_bytes, bit}

-- `return false` at the first field that differs.
infixr 30 ◌and_then◌
abbrev pub ◌and_then◌ : Outcome Bool → Outcome Bool → Outcome Bool
first and_then rest = first >>= λ same. if same then rest else ok false

-- The options at opt_a and opt_b.
module _ (mem_a : List ℕ) (opt_a : ℕ) (mem_b : List ℕ) (opt_b : ℕ) where
  -- A field of `size` bytes, `distance` bytes behind the start of the option.
  unfoldable pub same_field : ℕ → ℕ → Outcome Bool
  same_field distance size = do
    bytes_a ← slice mem_a (opt_a + distance) size
    bytes_b ← slice mem_b (opt_b + distance) size
    ok (equal_bytes bytes_a bytes_b)

  -- The flags that share a byte with the subtype.
  unfoldable pub same_low_half : Outcome Bool
  same_low_half = do a ← load mem_a (opt_a + 2); b ← load mem_b (opt_b + 2); ok (a % 16 == b % 16)

  unfoldable pub same_mp_capable : ℕ → Outcome Bool
  same_mp_capable length_a =
      same_field 3 1
      and_then (if length_a == 12
          then same_field 4 8
          else if length_a == 20
          then same_field 12 8 and_then same_field 4 8
          else ok true)

  abbrev pub same_address_and_flags : Outcome Bool
  same_address_and_flags = same_field 3 1 and_then same_low_half

  -- In an ACK, `!=` compares the addresses of the two arrays sender_hmac, which are different.
  unfoldable pub same_mp_join : ℕ → Bool → Bool → Outcome Bool
  same_mp_join length_a syn ack =
      if (length_a == 12) && (not ack && syn)
      then same_address_and_flags and_then same_field 4 4 and_then same_field 8 4
      else if (length_a == 16) && (ack && syn)
      then same_address_and_flags and_then same_field 4 8 and_then same_field 12 4
      else if (length_a == 24) && (ack && not syn)
      then ok false
      else ok true

  abbrev pub same_flag : ℕ → ℕ → ℕ → Bool
  same_flag a b i = elim (bit a i) [ true ↦ bit b i | false ↦ not (bit b i) ]

  -- The flags M, m, A, a and F.
  abbrev pub same_dss_flags : ℕ → ℕ → Bool
  same_dss_flags a b =
      same_flag a b 2
      && (same_flag a b 3 && (same_flag a b 0 && (same_flag a b 1 && same_flag a b 4)))

  -- The number of a mapping that is `distance` bytes behind the option's start, and the eight bytes
  -- behind its first four.
  abbrev pub same_mapping : Bool → ℕ → Outcome Bool
  same_mapping is_dsn8 distance =
      same_field distance (if is_dsn8 then 8 else 4)
      and_then same_field (distance + 4) 4
      and_then same_field (distance + 8) 4

  abbrev pub same_dss_fields : ℕ → Outcome Bool
  same_dss_fields flags =
      if bit flags 2 && bit flags 0
      then same_field 4 (if bit flags 1 then 8 else 4)
        and_then same_mapping (bit flags 3) (if bit flags 1 then 12 else 8)
      else if bit flags 2
      then same_mapping (bit flags 3) 4
      else if bit flags 0
      then same_field 4 (if bit flags 1 then 8 else 4)
      else ok true

  unfoldable pub same_dss : Outcome Bool
  same_dss = do
    flags_a ← load mem_a (opt_a + 3)
    flags_b ← load mem_b (opt_b + 3)
    ok (same_dss_flags flags_a flags_b) and_then same_dss_fields flags_a

  unfoldable pub same_add_addr : ℕ → Outcome Bool
  same_add_addr length_a =
      same_field 3 1
      and_then (load mem_b (opt_b + 1) >>= λ length_b.
          if length_a == 8
          then ok (length_b == 8) and_then same_field 4 4
          else if length_a == 10
          then ok (length_b == 10) and_then same_field 8 2 and_then same_field 4 4
          else if length_a == 20
          then ok (length_b == 20) and_then same_field 4 16
          else if length_a == 22
          then ok (length_b == 22) and_then same_field 20 2 and_then same_field 4 16
          else ok true)

  -- The loop on the address ids: as many bytes as the whole option has, from the first id on.
  unfoldable pub same_ids : ℕ → ℕ → Outcome Bool
  same_ids zero i = ok true
  same_ids (suc count) i = same_field (3 + i) 1 >>= λ same. elim same [
    | true ↦ same_ids count (suc i)
    | false ↦ ok false
  ]

  unfoldable pub same_remove_addr : ℕ → Outcome Bool
  same_remove_addr length_a = load mem_b (opt_b + 1) >>= λ length_b.
      if not (length_a == length_b) || leb length_a 3 then ok false else same_ids length_a 0

  unfoldable pub same_mp_prio : ℕ → Outcome Bool
  same_mp_prio length_a = same_low_half and_then (if length_a == 4 then same_field 3 1 else ok true)

  -- MP_FAIL and MP_FASTCLOSE have one field of 8 bytes.
  unfoldable pub same_mptcp_opt : Bool → Bool → Outcome Bool
  same_mptcp_opt syn ack = do
    byte ← load mem_a (opt_a + 2)
    length_a ← load mem_a (opt_a + 1)
    if byte / 16 == 0
        then same_mp_capable length_a
        else if byte / 16 == 1
        then same_mp_join length_a syn ack
        else if byte / 16 == 2
        then same_dss
        else if byte / 16 == 3
        then same_add_addr length_a
        else if byte / 16 == 4
        then same_remove_addr length_a
        else if byte / 16 == 5
        then same_mp_prio length_a
        else if byte / 16 == 6 || byte / 16 == 7
        then same_field 4 8
        else ok false
