-- ===== src/Mptcp/Join/Exchange.antt =====
-- gtests/net/packetdrill/mptcp.c: mptcp_subtype_mp_join and the six kinds of packets it tells apart.
use packetdrill_mptcp.Base.{
  ℕ, ◌+◌, ◌*◌, ◌/◌, ◌%◌, ◌^◌, Bool, true, false, not, List, [], ◌∷◌, take, ◌==◌, ◌&&◌,
  if◌then◌else◌, Option, none, some, Outcome, ok, status_err, fault, ◌>>=◌,
}
use packetdrill_mptcp.Memory.{load, slice}
use packetdrill_mptcp.Packet.{Packet}
use packetdrill_mptcp.TcpOptions.Iterator.{get_tcp_option}
use packetdrill_mptcp.Mptcp.{Uthash, MpState, Name, Subflow, find_mp_var, dequeue_var, read_value}
use packetdrill_mptcp.Mptcp.Flows.{
  at_header, settled, find_subflow_matching_inbound_packet, find_subflow_matching_outbound_packet,
  does_subflow_match_inbound_packet, does_subflow_match_outbound_packet,
}
use packetdrill_mptcp.Mptcp.Capable.{Direction, direction_inbound, is_inbound, tcp_ack}
use packetdrill_mptcp.Mptcp.Join.{
  Hashes, MpJoin, SynInfo, AckInfo, JoinInfo, as_syn, as_ack, known, be_bytes, write_matching,
  sender_hmac, key_of, mp_join_syn, mp_join_syn_address_id,
}

unfoldable pub tcp_syn : Packet → Outcome Bool
tcp_syn p = at_header p.tcp_ptr λ tcp. load p.buffer (tcp + 13) >>= λ b. ok (b / 2 % 2 == 1)

-- A u32 as its four bytes stand in memory.
abbrev pub le_number : List ℕ → ℕ
le_number [] = 0
le_number (b ∷ rest) = b + 256 * le_number rest

-- What the live SYN/ACK has in its option: the address id, and the bytes of ack.sender_random_number.
unfoldable pub live_fields : Packet → Outcome (Option (ℕ × List ℕ))
live_fields live_packet = at_header live_packet.tcp_ptr λ tcp.
    settled (get_tcp_option live_packet.buffer tcp 30) >>= λ found. elim found [
      | none ↦ ok none
      | some option ↦ load live_packet.buffer (option + 3) >>= λ id.
          slice live_packet.buffer (option + 12) 4 >>= λ rand. ok (some (id, rand))
    ]

abbrev pub Answer : Uthash → Type 0
Answer h = Outcome (Bool × MpJoin × MpState h)

abbrev pub rand_or : Option ℕ → ℕ → ℕ
rand_or none random = random
rand_or (some rand) random = rand

module _ {h : Uthash} (hashes : Hashes) where
  abbrev pub written : MpState h → Outcome (List Subflow) → MpJoin → Answer h
  written mp_state subflows tcp_opt =
      subflows >>= λ list. ok (false, tcp_opt, record mp_state { subflows = list })

  -- The HMAC of a SYN/ACK of the script. If the script gives the hash, the option keeps what it has.
  abbrev pub syn_ack_hmac_of : MpJoin → SynInfo → ℕ → Option ℕ → MpState h → Outcome (List ℕ)
  syn_ack_hmac_of tcp_opt info loc_rand rem_rand mp_state =
      if info.is_script_defined && info.is_var
      then (key_of hashes info.var mp_state >>= λ key1. key_of hashes info.var2 mp_state >>= λ key2.
          known rem_rand (λ msg2. ok (sender_hmac hashes key1 key2 loc_rand msg2)))
      else if info.is_script_defined
      then ok tcp_opt.syn_ack_hmac
      else known rem_rand (λ msg2.
        ok (sender_hmac hashes mp_state.packetdrill_key mp_state.kernel_key loc_rand msg2))

  -- mp_join_syn_ack, which is called for inbound packets only. Its answer is not looked at.
  unfoldable pub mp_join_syn_ack : ℕ → Packet → MpJoin → SynInfo → MpState h → Answer h
  mp_join_syn_ack random packet tcp_opt info mp_state =
      find_subflow_matching_inbound_packet packet mp_state >>= λ found. elim found [
        | none ↦ ok (false, tcp_opt, mp_state)
        | some subflow ↦
            mp_join_syn_address_id tcp_opt info
              (record subflow { packetdrill_rand_nbr = some random }) direction_inbound
            >>= λ (opt, with_id).
                let rand = rand_or info.rand random in
                syn_ack_hmac_of opt info rand with_id.kernel_rand_nbr mp_state >>= λ hmac.
                written
                  (record mp_state {
                    last_packetdrill_addr_id = (mp_state.last_packetdrill_addr_id + 1) % 2 ^ 32;
                  })
                  (write_matching packet does_subflow_match_inbound_packet
                    (record with_id { packetdrill_rand_nbr = some rand }) mp_state.subflows)
                  (record opt { syn_ack_rand = be_bytes 4 rand; syn_ack_hmac = hmac })
      ]

  -- The kernel's SYN/ACK: the subflow and the script's option take the id and the number of the live
  -- option, and the script's option the HMAC that the kernel should have sent.
  unfoldable pub join_syn_ack_outbound : Packet → MpJoin → MpState h → Answer h
  join_syn_ack_outbound live_packet tcp_opt mp_state =
      find_subflow_matching_outbound_packet live_packet mp_state >>= λ found.
      live_fields live_packet >>= λ fields. elim found [
        | none ↦ ok (true, tcp_opt, mp_state)
        | some subflow ↦ elim fields [
          | none ↦ ok (true, tcp_opt, mp_state)
          | some (id, rand) ↦ known subflow.packetdrill_rand_nbr (λ loc_nonce.
              written mp_state
                (write_matching live_packet does_subflow_match_outbound_packet
                  (record subflow {
                    kernel_addr_id = some id;
                    kernel_rand_nbr = some (le_number rand);
                  })
                  mp_state.subflows)
                (record tcp_opt {
                  address_id = id;
                  syn_ack_rand = rand;
                  syn_ack_hmac = take 8 (
                      hashes.mptcp_hmac_sha1 mp_state.kernel_key mp_state.packetdrill_key
                        (le_number rand) loc_nonce);
                }))
        ]
      ]

  abbrev pub with_ack_hmac : MpJoin → ℕ → ℕ → ℕ → ℕ → MpState h → Answer h
  with_ack_hmac tcp_opt key1 key2 nonce1 nonce2 mp_state = ok (
    false,
    record tcp_opt { ack_hmac = hashes.mptcp_hmac_sha1 key1 key2 nonce1 nonce2 },
    mp_state,
  )

  -- The keys of an ACK of the script; `none` is an error.
  unfoldable pub ack_keys : AckInfo → MpState h → Option (ℕ × ℕ)
  ack_keys info mp_state =
      if info.is_var
      then some (mp_state.packetdrill_key, mp_state.kernel_key)
      else if info.is_script_defined
      then elim (find_mp_var info.var mp_state) [
        | none ↦ none
        | some var1 ↦ elim (find_mp_var info.var2 mp_state) [
          | none ↦ none
          | some var2 ↦ some (read_value mp_state var1.value, read_value mp_state var2.value)
        ]
      ]
      else none

  abbrev pub ack_by_keys : MpJoin → Subflow → MpState h → Option (ℕ × ℕ) → Answer h
  ack_by_keys tcp_opt subflow mp_state none = ok (true, tcp_opt, mp_state)
  ack_by_keys tcp_opt subflow mp_state (some (loc_key, rem_key)) =
      known subflow.packetdrill_rand_nbr (λ loc_nonce.
        known subflow.kernel_rand_nbr
          (λ rem_nonce. with_ack_hmac tcp_opt loc_key rem_key loc_nonce rem_nonce mp_state))

  unfoldable pub join_ack_inbound : Packet → MpJoin → AckInfo → MpState h → Answer h
  join_ack_inbound packet tcp_opt info mp_state =
      find_subflow_matching_inbound_packet packet mp_state >>= λ found. elim found [
        | none ↦ ok (true, tcp_opt, mp_state)
        | some subflow ↦ ack_by_keys tcp_opt subflow mp_state (ack_keys info mp_state)
      ]

  -- Here the subflow is looked up by the packet of the script.
  unfoldable pub join_ack_outbound : Packet → MpJoin → MpState h → Answer h
  join_ack_outbound packet tcp_opt mp_state =
      find_subflow_matching_outbound_packet packet mp_state >>= λ found. elim found [
        | none ↦ ok (true, tcp_opt, mp_state)
        | some subflow ↦ known subflow.packetdrill_rand_nbr (λ loc_nonce.
            known subflow.kernel_rand_nbr (λ rem_nonce.
              with_ack_hmac tcp_opt mp_state.kernel_key mp_state.packetdrill_key rem_nonce loc_nonce
                mp_state))
      ]

  abbrev pub without_error : Outcome (MpJoin × MpState h) → Answer h
  without_error done = done >>= λ (tcp_opt, mp_state). ok (false, tcp_opt, mp_state)

  -- The branches, by the length of the option and the flags of the packet.
  abbrev pub join_by_length :
      ℕ → ℕ → Packet → Packet → MpJoin → Direction → JoinInfo → MpState h → Bool → Bool → Answer h
  join_by_length len random packet live_packet tcp_opt direction info mp_state syn ack =
      if (len == 12) && (syn && not ack)
      then as_syn info (λ part.
        without_error (mp_join_syn hashes packet live_packet tcp_opt part direction mp_state))
      else if (len == 16) && (syn && ack)
      then (if is_inbound direction
          then as_syn info (λ part. mp_join_syn_ack random packet tcp_opt part mp_state)
          else join_syn_ack_outbound live_packet tcp_opt mp_state)
      else if (len == 24) && (not syn && ack)
      then (if is_inbound direction
          then as_ack info (λ part. join_ack_inbound packet tcp_opt part mp_state)
          else join_ack_outbound packet tcp_opt mp_state)
      else ok (true, tcp_opt, mp_state)

  unfoldable pub mptcp_subtype_mp_join :
      (Option Name → Outcome JoinInfo)
      → ℕ
      → Packet
      → Packet
      → MpJoin
      → Direction
      → MpState h
      → Answer h
  mptcp_subtype_mp_join info_at random packet live_packet tcp_opt direction mp_state =
      elim (dequeue_var mp_state) [
        | status_err ↦ ok (true, tcp_opt, mp_state)
        | fault ↦ fault
        | ok (pointer, dequeued) ↦ info_at pointer >>= λ info. tcp_ack packet >>= λ ack.
            tcp_syn packet >>= λ syn.
            join_by_length tcp_opt.len random packet live_packet tcp_opt direction info dequeued syn
              ack
      ]
