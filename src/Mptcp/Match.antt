-- ===== src/Mptcp/Match.antt =====
-- A new subflow is the one that the packets of its connection find, in both directions.
use packetdrill_mptcp.Base.{ℕ, ◌+◌, ◌%◌, ◌^◌, ◌≡◌, refl, arith, true, ◌∷◌, ◌==◌, some, ok}
use packetdrill_mptcp.Packet.{Packet}
use packetdrill_mptcp.Mptcp.{Uthash, MpState, Subflow, IpAddress}
use packetdrill_mptcp.Mptcp.Flows.{
  addresses, ports, inbound_subflow, new_subflow_inbound, find_matching_subflow,
  does_subflow_match_inbound_packet, does_subflow_match_outbound_packet,
  find_subflow_matching_inbound_packet, find_subflow_matching_outbound_packet,
}

==-self : (n : ℕ) → (n == n) ≡ true
==-self n = ground arith

module _ {h : Uthash} where
  abbrev pub with_inbound : IpAddress × IpAddress → ℕ × ℕ → MpState h → MpState h
  with_inbound ips tcp mp_state = record mp_state {
    last_packetdrill_addr_id = (mp_state.last_packetdrill_addr_id + 1) % 2 ^ 32;
    subflows = inbound_subflow mp_state.last_packetdrill_addr_id ips tcp ∷ mp_state.subflows;
  }

  pub new_subflow_inbound_lem :
      (p : Packet) (mp_state : MpState h) (ips : IpAddress × IpAddress) (tcp : ℕ × ℕ)
      → addresses p ≡ ok ips
      → ports p ≡ ok tcp
      → new_subflow_inbound p mp_state
        ≡ ok (
          some (inbound_subflow mp_state.last_packetdrill_addr_id ips tcp),
          with_inbound ips tcp mp_state,
        )
  unfolding new_subflow_inbound
  new_subflow_inbound_lem p mp_state ips tcp e e' = rw (new_subflow_inbound, e, e') refl

  -- From a packet with an IP and a TCP header, new_subflow_inbound makes a subflow with the packet's
  -- addresses and ports and the address id that is next, puts it in front of the others and moves
  -- to the next id. From then on that subflow, and no older one, is found for inbound packets
  -- between the same ports and for outbound packets between the same ports the other way.
  pub new_subflow_inbound-find_subflow :
      (p : Packet) (mp_state : MpState h) (src_ip dst_ip : IpAddress) (src dst : ℕ)
      → addresses p ≡ ok (src_ip, dst_ip)
      → ports p ≡ ok (src, dst)
      → (s : Subflow) × (mp_state' : MpState h) × (new_subflow_inbound p mp_state
          ≡ ok (some s, mp_state'))
        × (s.src_ip ≡ src_ip)
        × (s.dst_ip ≡ dst_ip)
        × (s.packetdrill_addr_id ≡ some (mp_state.last_packetdrill_addr_id % 256))
        × (mp_state'.last_packetdrill_addr_id ≡ (mp_state.last_packetdrill_addr_id + 1) % 2 ^ 32)
        × (mp_state'.subflows ≡ s ∷ mp_state.subflows)
        × ((q : Packet)
            → ports q ≡ ok (src, dst)
            → find_subflow_matching_inbound_packet q mp_state' ≡ ok (some s))
        × ((q : Packet)
            → ports q ≡ ok (dst, src)
            → find_subflow_matching_outbound_packet q mp_state' ≡ ok (some s))
  unfolding find_subflow_matching_inbound_packet find_subflow_matching_outbound_packet
      find_matching_subflow does_subflow_match_inbound_packet does_subflow_match_outbound_packet
  new_subflow_inbound-find_subflow p mp_state src_ip dst_ip src dst ips tcp =
      let s = inbound_subflow mp_state.last_packetdrill_addr_id (src_ip, dst_ip) (src, dst) in
      (
        s,
        with_inbound (src_ip, dst_ip) (src, dst) mp_state,
        new_subflow_inbound_lem p mp_state (src_ip, dst_ip) (src, dst) ips tcp,
        refl,
        refl,
        refl,
        refl,
        refl,
        λ q e. rw (e, ==-self src, ==-self dst) refl,
        λ q e. rw (e, ==-self src, ==-self dst) refl,
      )
