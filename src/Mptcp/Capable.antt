-- ===== src/Mptcp/Capable.antt =====
-- gtests/net/packetdrill/mptcp.c: the keys of the MP_CAPABLE options. A routine that returns an
-- error code answers `true` for an error, with the state as it is then: an error does not undo what
-- was done before it. The next random key and sha1_least_64bits of utils.c, a hash by OpenSSL, are
-- parameters.
pub mod Keys
pub mod Handshake
use packetdrill_mptcp.Base.{
  ℕ, zero, suc, ◌+◌, ◌*◌, ◌%◌, ◌/◌, ◌^◌, ◌≡◌, refl, Bool, true, false, not, List, [], ◌∷◌, ◌==◌,
  ◌&&◌, ◌||◌, if◌then◌else◌, Option, none, some, Outcome, ok, status_err, fault, ◌>>=◌,
}
use packetdrill_mptcp.Memory.{load}
use packetdrill_mptcp.Checksum.{le32}
use packetdrill_mptcp.Queue.{queue_front}
use packetdrill_mptcp.Packet.{Packet}
use packetdrill_mptcp.TcpOptions.Iterator.{get_tcp_option}
use packetdrill_mptcp.Mptcp.{
  Uthash, MpState, MpVar, Name, Value, packetdrill_key_ref, kernel_key_ref, find_mp_var,
  add_mp_var_key, set_packetdrill_key, set_kernel_key, read_value, find_next_key,
}
use packetdrill_mptcp.Mptcp.Flows.{at_header, settled, new_subflow_inbound, new_subflow_outbound}

-- The part of struct tcp_option that the handshake reads and writes. `key` is syn.key and also
-- no_syn.sender_key, which lie in one place.
pub record MpCapable : Type 0 where
  pub len : ℕ
  pub key : ℕ
  pub receiver_key : ℕ

pub data Direction : Type 0 where
  direction_inbound direction_outbound : Direction

abbrev pub is_inbound : Direction → Bool
is_inbound direction_inbound = true
is_inbound direction_outbound = false

-- The flag ACK of the TCP header.
unfoldable pub tcp_ack : Packet → Outcome Bool
tcp_ack p = at_header p.tcp_ptr λ tcp. load p.buffer (tcp + 13) >>= λ b. ok (b / 16 % 2 == 1)

-- data.mp_capable.syn.key of an option: the eight bytes behind its first four, as the host reads
-- them.
unfoldable pub load_key : List ℕ → ℕ → Outcome ℕ
load_key mem option = do
  b0 ← load mem (option + 4)
  b1 ← load mem (option + 5)
  b2 ← load mem (option + 6)
  b3 ← load mem (option + 7)
  b4 ← load mem (option + 8)
  b5 ← load mem (option + 9)
  b6 ← load mem (option + 10)
  b7 ← load mem (option + 11)
  ok (le32 b0 b1 b2 b3 + 2 ^ 32 * le32 b4 b5 b6 b7)

module _ {h : Uthash} where
  -- Whether a variable has a key that the script gives.
  abbrev pub given_key : MpState h → Option MpVar → Option ℕ
  given_key mp_state none = none
  given_key mp_state (some var) =
      if var.mptcp_subtype == 0 && var.script_defined
      then some (read_value mp_state var.value)
      else none

  -- The two halves of mptcp_gen_key: a key of the script is taken; if no key is set, the random one
  -- is, and the variable refers to it.
  abbrev pub take_packetdrill_key : Option ℕ → MpState h → MpState h
  take_packetdrill_key none mp_state = mp_state
  take_packetdrill_key (some key) mp_state = set_packetdrill_key key mp_state

  abbrev pub make_packetdrill_key : ℕ → Name → MpState h → MpState h
  make_packetdrill_key random name mp_state =
      if mp_state.packetdrill_key_set
      then mp_state
      else add_mp_var_key name packetdrill_key_ref (set_packetdrill_key random mp_state)

  unfoldable pub mptcp_gen_key : ℕ → MpState h → Outcome (Bool × MpState h)
  mptcp_gen_key random mp_state = elim (queue_front mp_state.vars_queue) [
    | status_err ↦ ok (true, mp_state)
    | fault ↦ fault
    | ok name ↦ elim name [
      | none ↦ fault
      | some snd_var_name ↦ ok (
        false,
        make_packetdrill_key random snd_var_name (
            take_packetdrill_key (given_key mp_state (find_mp_var snd_var_name mp_state)) mp_state),
      )
    ]
  ]

  unfoldable pub mptcp_set_mp_cap_syn_key :
      MpCapable → MpState h → Outcome (Bool × MpCapable × MpState h)
  unfolding find_next_key
  mptcp_set_mp_cap_syn_key tcp_opt mp_state = find_next_key mp_state >>= λ found. elim found.0 [
    | none ↦ ok (true, tcp_opt, found.1)
    | some key ↦ ok (false, record tcp_opt { key = read_value found.1 key }, found.1)
  ]

  -- On an error of the second search the first key stays written.
  unfoldable pub mptcp_set_mp_cap_keys :
      MpCapable → MpState h → Outcome (Bool × MpCapable × MpState h)
  unfolding mptcp_set_mp_cap_syn_key find_next_key
  mptcp_set_mp_cap_keys tcp_opt mp_state = mptcp_set_mp_cap_syn_key tcp_opt mp_state >>= λ first.
      if first.0
      then ok first
      else (find_next_key first.2 >>= λ found. elim found.0 [
        | none ↦ ok (true, first.1, found.1)
        | some key ↦ ok (false, record first.1 { receiver_key = read_value found.1 key }, found.1)
      ])

  abbrev pub take_kernel_key : Option ℕ → MpState h → MpState h
  take_kernel_key none mp_state = mp_state
  take_kernel_key (some key) mp_state = set_kernel_key key mp_state

  -- extract_and_set_kernel_key behind its search for the option, which carries `live_key`.
  unfoldable pub keep_kernel_key : ℕ → MpState h → Outcome (Bool × MpState h)
  keep_kernel_key live_key mp_state = elim (queue_front mp_state.vars_queue) [
    | fault ↦ fault
    | status_err ↦
        if mp_state.kernel_key_set
        then ok (false, mp_state)
        else ok (true, set_kernel_key live_key mp_state)
    | ok name ↦ elim name [
      | none ↦ fault
      | some var_name ↦
          let taken =
            take_kernel_key (given_key mp_state (find_mp_var var_name mp_state)) mp_state in
          if taken.kernel_key_set
          then ok (false, taken)
          else ok (false, add_mp_var_key var_name kernel_key_ref (set_kernel_key live_key taken))
    ]
  ]

  unfoldable pub extract_and_set_kernel_key : Packet → MpState h → Outcome (Bool × MpState h)
  unfolding keep_kernel_key load_key
  extract_and_set_kernel_key live_packet mp_state = at_header live_packet.tcp_ptr λ tcp.
      settled (get_tcp_option live_packet.buffer tcp 30) >>= λ found. elim found [
        | none ↦ ok (true, mp_state)
        | some mpcap_opt ↦
            load_key live_packet.buffer mpcap_opt >>= λ key. keep_kernel_key key mp_state
      ]

  -- The four branches of mptcp_subtype_mp_capable.
  unfoldable pub capable_syn_inbound :
      ℕ → Packet → MpCapable → MpState h → Outcome (Bool × MpCapable × MpState h)
  unfolding mptcp_gen_key mptcp_set_mp_cap_syn_key
  capable_syn_inbound random packet tcp_opt mp_state = mptcp_gen_key random mp_state >>= λ made.
      mptcp_set_mp_cap_syn_key tcp_opt made.1 >>= λ set.
      new_subflow_inbound packet set.2 >>= λ flow. ok (set.0 || made.0, set.1, flow.1)

  -- The error of extract_and_set_kernel_key is overwritten.
  unfoldable pub capable_outbound :
      Packet → MpCapable → MpState h → Outcome (Bool × MpCapable × MpState h)
  unfolding extract_and_set_kernel_key mptcp_set_mp_cap_syn_key
  capable_outbound live_packet tcp_opt mp_state =
      extract_and_set_kernel_key live_packet mp_state >>= λ kept.
      mptcp_set_mp_cap_syn_key tcp_opt kept.1 >>= λ set.
      ok (set.0, set.1, record set.2 { remote_ssn = (set.2.remote_ssn + 1) % 2 ^ 32 })

  unfoldable pub capable_ack :
      (ℕ → ℕ) → Packet → MpCapable → Direction → MpState h → Outcome (Bool × MpCapable × MpState h)
  unfolding mptcp_set_mp_cap_keys
  capable_ack sha1_least_64bits live_packet tcp_opt direction mp_state =
      mptcp_set_mp_cap_keys tcp_opt mp_state >>= λ set.
      let hashed = record set.2 {
        idsn = sha1_least_64bits set.2.packetdrill_key;
        remote_idsn = sha1_least_64bits set.2.kernel_key;
      } in
      if is_inbound direction
      then ok (set.0, set.1, hashed)
      else (new_subflow_outbound live_packet hashed >>= λ flow. ok (set.0, set.1, flow.1))

  unfoldable pub capable_syn_ack_inbound :
      ℕ → MpCapable → MpState h → Outcome (Bool × MpCapable × MpState h)
  unfolding mptcp_gen_key mptcp_set_mp_cap_syn_key
  capable_syn_ack_inbound random tcp_opt mp_state = mptcp_gen_key random mp_state >>= λ made.
      mptcp_set_mp_cap_syn_key tcp_opt made.1 >>= λ set. ok (set.0 || made.0, set.1, set.2)

  -- 12 and 20 are TCPOLEN_MP_CAPABLE_SYN and TCPOLEN_MP_CAPABLE. The flag ACK is read for an
  -- inbound option of 12 bytes only, where it parts the first of the source's branches from the last.
  unfoldable pub mptcp_subtype_mp_capable :
      (ℕ → ℕ)
      → ℕ
      → Packet
      → Packet
      → MpCapable
      → Direction
      → MpState h
      → Outcome (Bool × MpCapable × MpState h)
  unfolding capable_syn_inbound capable_outbound capable_ack capable_syn_ack_inbound tcp_ack
  mptcp_subtype_mp_capable sha1_least_64bits random packet live_packet tcp_opt direction mp_state =
      if tcp_opt.len == 12 && is_inbound direction
      then (tcp_ack packet >>= λ ack.
          if ack
          then capable_syn_ack_inbound random tcp_opt mp_state
          else capable_syn_inbound random packet tcp_opt mp_state)
      else if tcp_opt.len == 12
      then capable_outbound live_packet tcp_opt mp_state
      else if tcp_opt.len == 20
      then capable_ack sha1_least_64bits live_packet tcp_opt direction mp_state
      else ok (true, tcp_opt, mp_state)
