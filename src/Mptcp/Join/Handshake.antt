-- ===== src/Mptcp/Join/Handshake.antt =====
-- gtests/net/packetdrill/mptcp.c: the three packets of an MP_JOIN handshake that packetdrill opens.
-- The SYN and the ACK are inbound packets of the script, and the kernel answers with the SYN/ACK.
use packetdrill_mptcp.Base.{
  ℕ, ◌+◌, ◌%◌, ◌^◌, ◌≡◌, refl, ap, ◌∙◌, Bool, true, false, List, ◌∷◌, take, ◌==◌, Option, none,
  some, Option-cases, inl, inr, arith, Outcome, ok,
}
use packetdrill_mptcp.Queue.{Queue, queue_dequeue}
use packetdrill_mptcp.Packet.{Packet}
use packetdrill_mptcp.Mptcp.{Uthash, MpState, Name, Subflow, IpAddress, dequeue_var}
use packetdrill_mptcp.Mptcp.Flows.{
  addresses, ports, inbound_subflow, find_matching_subflow, find_subflow_matching_inbound_packet,
  find_subflow_matching_outbound_packet, does_subflow_match_inbound_packet,
  does_subflow_match_outbound_packet,
}
use packetdrill_mptcp.Mptcp.Match.{new_subflow_inbound_lem}
use packetdrill_mptcp.Mptcp.Capable.{Direction, direction_inbound, direction_outbound, tcp_ack}
use packetdrill_mptcp.Mptcp.Join.{
  Hashes, MpJoin, SynInfo, AckInfo, JoinInfo, syn_or_syn_ack, ack_info, be_bytes, le_bytes,
  write_matching, mp_join_syn, mp_join_syn_rcv_token, mp_join_syn_rand, mp_join_syn_address_id,
  known,
}
use packetdrill_mptcp.Mptcp.Join.Exchange.{
  mptcp_subtype_mp_join, join_by_length, ack_keys, ack_by_keys, join_syn_ack_outbound,
  join_ack_inbound, live_fields, le_number, rand_or, tcp_syn,
}

==-same : (n : ℕ) → (n == n) ≡ true
==-same n = ground arith

-- The flags of a packet.
abbrev pub HasFlags : Packet → Bool → Bool → Type 0
HasFlags p syn ack = (tcp_ack p ≡ ok ack) × (tcp_syn p ≡ ok syn)

-- The queue holds three pointers, to what the script says about the three packets.
abbrev pub Holds3 :
    (Option Name → Outcome JoinInfo) → Queue (Option Name) → JoinInfo → JoinInfo → JoinInfo → Type 0
Holds3 info_at q0 i1 i2 i3 =
    (p1 p2 p3 : Option Name) × (q1 q2 q3 : Queue (Option Name)) × (queue_dequeue none q0
      ≡ ok (p1, q1))
    × (queue_dequeue none q1 ≡ ok (p2, q2))
    × (queue_dequeue none q2 ≡ ok (p3, q3))
    × (info_at p1 ≡ ok i1)
    × (info_at p2 ≡ ok i2)
    × (info_at p3 ≡ ok i3)

module _ {h : Uthash} (hashes : Hashes) where
  -- The subflow that the SYN makes, with what the script gives.
  abbrev joined : MpState h → SynInfo → IpAddress × IpAddress → ℕ × ℕ → Subflow
  joined m info ips tcp = record (inbound_subflow m.last_packetdrill_addr_id ips tcp) {
    packetdrill_addr_id = some (rand_or info.address_id (m.last_packetdrill_addr_id % 256));
    packetdrill_rand_nbr = some (rand_or info.rand 42);
  }

  -- The option of the SYN.
  abbrev syn_filled : MpState h → SynInfo → MpJoin → MpJoin
  syn_filled m info opt = record opt {
    receiver_token = be_bytes 4 (hashes.sha1_least_32bits m.kernel_key);
    syn_rand = le_bytes 4 (rand_or info.rand 42);
    address_id = rand_or info.address_id (m.last_packetdrill_addr_id % 256);
  }

  mp_join_syn_lem :
      (m : MpState h) (p live : Packet) (opt : MpJoin) (info : SynInfo)
      (ips : IpAddress × IpAddress) (tcp : ℕ × ℕ)
      → addresses p ≡ ok ips
      → ports p ≡ ok tcp
      → info.is_script_defined ≡ false
      → mp_join_syn hashes p live opt info direction_inbound m
        ≡ ok (
          syn_filled m info opt,
          record m {
            last_packetdrill_addr_id = (m.last_packetdrill_addr_id + 1) % 2 ^ 32;
            subflows = joined m info ips tcp ∷ m.subflows;
          },
        )
  unfolding mp_join_syn mp_join_syn_rcv_token mp_join_syn_rand mp_join_syn_address_id
  mp_join_syn_lem m p live opt info ips tcp at_ips at_ports no_hash =
      rw (new_subflow_inbound_lem p m ips tcp at_ips at_ports, no_hash)
        (elim (Option-cases info.rand) [
          | inl r ↦ elim (Option-cases info.address_id) [
            | inl a ↦ rw (r, a) refl
            | inr (id, a) ↦ rw (r, a) refl
          ]
          | inr (rand, r) ↦ elim (Option-cases info.address_id) [
            | inl a ↦ rw (r, a) refl
            | inr (id, a) ↦ rw (r, a) refl
          ]
        ])

  keys_of_state :
      (info : AckInfo) (m : MpState h)
      → info.is_var ≡ true
      → ack_keys hashes info m ≡ some (m.packetdrill_key, m.kernel_key)
  unfolding ack_keys
  keys_of_state info m e = rw (e) refl

  -- A call takes one pointer out of the queue and branches on the packet.
  join_call :
      (info_at : Option Name → Outcome JoinInfo) (random : ℕ) (p live : Packet) (opt : MpJoin)
      (d : Direction) (m : MpState h) (pointer : Option Name) (queue : Queue (Option Name))
      (info : JoinInfo) (syn ack : Bool)
      → queue_dequeue none m.vars_queue ≡ ok (pointer, queue)
      → info_at pointer ≡ ok info
      → tcp_ack p ≡ ok ack
      → tcp_syn p ≡ ok syn
      → mptcp_subtype_mp_join hashes info_at random p live opt d m
        ≡ join_by_length hashes opt.len random p live opt d info
            (record m { vars_queue = queue })
            syn
            ack
  unfolding mptcp_subtype_mp_join dequeue_var
  join_call info_at random p live opt d m pointer queue info syn ack taken read a s =
      rw (mptcp_subtype_mp_join, taken, read, a, s) refl

  syn_branch :
      (random : ℕ) (p live : Packet) (opt : MpJoin) (info : SynInfo) (m : MpState h)
      (ips : IpAddress × IpAddress) (tcp : ℕ × ℕ)
      → addresses p ≡ ok ips
      → ports p ≡ ok tcp
      → info.is_script_defined ≡ false
      → join_by_length hashes 12 random p live opt direction_inbound
          (syn_or_syn_ack info)
          m
          true
          false
        ≡ ok (
          false,
          syn_filled m info opt,
          record m {
            last_packetdrill_addr_id = (m.last_packetdrill_addr_id + 1) % 2 ^ 32;
            subflows = joined m info ips tcp ∷ m.subflows;
          },
        )
  syn_branch random p live opt info m ips tcp at_ips at_ports no_hash =
      rw (mp_join_syn_lem m p live opt info ips tcp at_ips at_ports no_hash) refl

  -- A subflow in front of the list that goes from src to dst, of which one random number is known.
  module _ (m : MpState h) (first : Subflow) (rest : List Subflow) (src dst nonce : ℕ) where
    abbrev s : Subflow
    s = record first { src_port = src; dst_port = dst; packetdrill_rand_nbr = some nonce }

    abbrev state : MpState h
    state = record m { subflows = s ∷ rest }

    find_outbound :
        (q : Packet)
        → ports q ≡ ok (dst, src)
        → find_subflow_matching_outbound_packet q state ≡ ok (some s)
    unfolding find_subflow_matching_outbound_packet find_matching_subflow
        does_subflow_match_outbound_packet
    find_outbound q at_q = rw (at_q, ==-same src, ==-same dst) refl

    find_inbound :
        (q : Packet)
        → ports q ≡ ok (src, dst)
        → find_subflow_matching_inbound_packet q state ≡ ok (some s)
    unfolding find_subflow_matching_inbound_packet find_matching_subflow
        does_subflow_match_inbound_packet
    find_inbound q at_q = rw (at_q, ==-same src, ==-same dst) refl

    write_outbound :
        (q : Packet) (s' : Subflow)
        → ports q ≡ ok (dst, src)
        → write_matching q does_subflow_match_outbound_packet s' (s ∷ rest) ≡ ok (s' ∷ rest)
    unfolding write_matching does_subflow_match_outbound_packet
    write_outbound q s' at_q = rw (at_q, ==-same src, ==-same dst) refl

    -- The subflow with what the kernel's SYN/ACK has.
    abbrev answered : ℕ → ℕ → Subflow
    answered id rem_nonce = record s { kernel_addr_id = some id; kernel_rand_nbr = some rem_nonce }

    -- The SYN/ACK of the kernel.
    syn_ack_branch :
        (random : ℕ) (p q : Packet) (opt : MpJoin) (info : JoinInfo) (id : ℕ) (rand : List ℕ)
        → ports q ≡ ok (dst, src)
        → live_fields q ≡ ok (some (id, rand))
        → join_by_length hashes 16 random p q opt direction_outbound info state true true
          ≡ ok (
            false,
            record opt {
              address_id = id;
              syn_ack_rand = rand;
              syn_ack_hmac =
                  take 8
                    (hashes.mptcp_hmac_sha1 m.kernel_key m.packetdrill_key (le_number rand) nonce);
            },
            record m { subflows = answered id (le_number rand) ∷ rest },
          )
    unfolding join_syn_ack_outbound
    syn_ack_branch random p q opt info id rand at_q fields =
        rw
          (
            join_syn_ack_outbound,
            find_outbound q at_q,
            fields,
            write_outbound q (answered id (le_number rand)) at_q,
          )
          refl

    ack_branch :
        (random : ℕ) (p live : Packet) (opt : MpJoin) (info : AckInfo)
        → ports p ≡ ok (src, dst)
        → info.is_var ≡ true
        → (rem_nonce : ℕ) → first.kernel_rand_nbr ≡ some rem_nonce
        → join_by_length hashes 24 random p live opt direction_inbound
            (ack_info info)
            state
            false
            true
          ≡ ok (
            false,
            record opt {
              ack_hmac = hashes.mptcp_hmac_sha1 m.packetdrill_key m.kernel_key nonce rem_nonce;
            },
            state,
          )
    unfolding join_ack_inbound
    ack_branch random p live opt info at_p by_state rem_nonce known_rem =
        rw (join_ack_inbound, find_inbound p at_p)
          (ap (ack_by_keys hashes opt s state) (keys_of_state info state by_state)
            ∙ ap
                (λ o. known o (λ r. ok (
                  false,
                  record opt {
                    ack_hmac = hashes.mptcp_hmac_sha1 m.packetdrill_key m.kernel_key nonce r;
                  },
                  state,
                )))
                known_rem)

  -- The handshake on a packet from src to dst, whose SYN and ACK have options of 12 and 24 bytes and
  -- whose SYN/ACK one of 16. The script does not give the token of the SYN and leaves the HMAC of the
  -- ACK to the keys of the connection; it may give an address id and a random number. If the SYN has
  -- an IP header, and the kernel's SYN/ACK comes back between the same ports with an MPTCP option, all
  -- three calls of mptcp_subtype_mp_join succeed. The SYN carries the hash of the kernel's key and
  -- packetdrill's random number, which is 42 unless the script gives it. The script's SYN/ACK takes
  -- the kernel's address id and random number, and expects the first 8 bytes of the HMAC by the
  -- kernel's key, packetdrill's key and the two random numbers in this order. The ACK carries the
  -- HMAC by the keys and the random numbers in the other order.
  pub mptcp_subtype_mp_join-handshake :
      (m : MpState h) (info_at : Option Name → Outcome JoinInfo) (syn_info : SynInfo)
      (syn_ack_info : JoinInfo) (ack_part : AckInfo) (syn synack live ack : Packet)
      (syn_opt synack_opt ack_opt : MpJoin) (random src dst id : ℕ) (rand : List ℕ)
      (ips : IpAddress × IpAddress)
      → Holds3 info_at m.vars_queue (syn_or_syn_ack syn_info) syn_ack_info (ack_info ack_part)
      → syn_info.is_script_defined ≡ false
      → ack_part.is_var ≡ true
      → syn_opt.len ≡ 12
      → synack_opt.len ≡ 16
      → ack_opt.len ≡ 24
      → HasFlags syn true false
      → HasFlags synack true true
      → HasFlags ack false true
      → addresses syn ≡ ok ips
      → ports syn ≡ ok (src, dst)
      → ports live ≡ ok (dst, src)
      → ports ack ≡ ok (src, dst)
      → live_fields live ≡ ok (some (id, rand))
      → (o1 o2 o3 : MpJoin) × (m1 m2 m3 : MpState h) × (mptcp_subtype_mp_join hashes info_at random
            syn syn syn_opt direction_inbound m
          ≡ ok (false, o1, m1))
        × (mptcp_subtype_mp_join hashes info_at random synack live synack_opt direction_outbound m1
            ≡ ok (false, o2, m2))
        × (mptcp_subtype_mp_join hashes info_at random ack ack ack_opt direction_inbound m2
            ≡ ok (false, o3, m3))
        × (o1.receiver_token ≡ be_bytes 4 (hashes.sha1_least_32bits m.kernel_key))
        × (o1.syn_rand ≡ le_bytes 4 (rand_or syn_info.rand 42))
        × (o2.address_id ≡ id)
        × (o2.syn_ack_rand ≡ rand)
        × (o2.syn_ack_hmac
            ≡ take 8 (
                hashes.mptcp_hmac_sha1 m.kernel_key m.packetdrill_key
                  (le_number rand)
                  (rand_or syn_info.rand 42)))
        × (o3.ack_hmac
            ≡ hashes.mptcp_hmac_sha1 m.packetdrill_key m.kernel_key
                (rand_or syn_info.rand 42)
                (le_number rand))
  mptcp_subtype_mp_join-handshake m info_at syn_info syn_ack_info ack_part syn synack live ack
        syn_opt synack_opt ack_opt random src dst id rand ips
        (p1, p2, p3, q1, q2, q3, d1, d2, d3, r1, r2, r3) no_hash by_state e12 e16 e24 (ack1, syn1)
        (ack2, syn2) (ack3, syn3) at_ips at_syn at_live at_ack fields =
      let nonce = rand_or syn_info.rand 42 in
      let m0 : MpState h = record m { vars_queue = q1 } in
      let s1 : Subflow = joined m0 syn_info ips (src, dst) in
      let m1 : MpState h = record m0 {
        last_packetdrill_addr_id = (m.last_packetdrill_addr_id + 1) % 2 ^ 32;
        subflows = s1 ∷ m.subflows;
      } in
      let m1' : MpState h = record m1 { vars_queue = q2 } in
      let s2 : Subflow = answered m1' s1 m.subflows src dst nonce id (le_number rand) in
      let m2 : MpState h = record m1' { subflows = s2 ∷ m.subflows } in
      let m3 : MpState h = record m2 { vars_queue = q3 } in
      (
        syn_filled m0 syn_info syn_opt,
        record synack_opt {
          address_id = id;
          syn_ack_rand = rand;
          syn_ack_hmac =
              take 8 (hashes.mptcp_hmac_sha1 m.kernel_key m.packetdrill_key (le_number rand) nonce);
        },
        record ack_opt {
          ack_hmac = hashes.mptcp_hmac_sha1 m.packetdrill_key m.kernel_key nonce (le_number rand);
        },
        m1,
        m2,
        m3,
        join_call info_at random syn syn syn_opt direction_inbound m p1 q1 (syn_or_syn_ack syn_info)
              true false d1 r1 ack1 syn1
            ∙ ap
                (λ n.
                  join_by_length hashes n random syn syn syn_opt direction_inbound
                    (syn_or_syn_ack syn_info) m0 true false)
                e12
            ∙ syn_branch random syn syn syn_opt syn_info m0 ips (src, dst) at_ips at_syn no_hash,
        join_call info_at random synack live synack_opt direction_outbound m1 p2 q2 syn_ack_info
              true true d2 r2 ack2 syn2
            ∙ ap
                (λ n.
                  join_by_length hashes n random synack live synack_opt direction_outbound
                    syn_ack_info m1' true true)
                e16
            ∙ syn_ack_branch m1' s1 m.subflows src dst nonce random synack live synack_opt
                syn_ack_info id rand at_live fields,
        join_call info_at random ack ack ack_opt direction_inbound m2 p3 q3 (ack_info ack_part)
              false true d3 r3 ack3 syn3
            ∙ ap
                (λ n.
                  join_by_length hashes n random ack ack ack_opt direction_inbound
                    (ack_info ack_part) m3 false true)
                e24
            ∙ ack_branch m3 s2 m.subflows src dst nonce random ack ack ack_opt ack_part at_ack
                by_state (le_number rand) refl,
        refl,
        refl,
        refl,
        refl,
        refl,
        refl,
      )
