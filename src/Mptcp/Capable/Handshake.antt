-- ===== src/Mptcp/Capable/Handshake.antt =====
-- The three packets of a handshake that packetdrill opens: SYN and ACK are inbound packets of the
-- script, and the kernel answers the SYN/ACK.
use packetdrill_mptcp.Base.{
  ℕ, ◌+◌, ◌%◌, ◌^◌, ◌<◌, ◌≡◌, ◌≢◌, refl, arith, false, List, [], ◌∷◌, Option, none, some, ok, ◌∙◌,
  sym,
}
use packetdrill_mptcp.Queue.View.{IsQueue, contents}
use packetdrill_mptcp.Queue.Front.{queue_dequeue-Popped}
use packetdrill_mptcp.Packet.{Packet}
use packetdrill_mptcp.TcpOptions.Iterator.{get_tcp_option}
use packetdrill_mptcp.Mptcp.{
  Uthash, UthashLaws, MpState, MpVar, Name, packetdrill_key_ref, kernel_key_ref, add_mp_var_key,
  set_packetdrill_key, set_kernel_key, IpAddress,
}
use packetdrill_mptcp.Mptcp.Flows.{addresses, ports}
use packetdrill_mptcp.Mptcp.Match.{with_inbound}
use packetdrill_mptcp.Mptcp.Capable.{
  MpCapable, direction_inbound, direction_outbound, load_key, mptcp_subtype_mp_capable, tcp_ack,
  capable_ack, capable_syn_inbound, capable_outbound, mptcp_set_mp_cap_keys,
}
use packetdrill_mptcp.Mptcp.Capable.Keys.{
  popped, gen_key_lem, keep_kernel_key_lem, extract_lem, capable_syn_inbound_lem,
  capable_outbound_lem, set_keys_lem,
}

-- The script names its keys `a` and `b`, in the order in which the three packets use them.
abbrev pub handshake_names : Name → Name → List (Option Name)
handshake_names a b = some a ∷ some b ∷ some a ∷ some b ∷ []

module _ {h : Uthash} (laws : UthashLaws h) (sha1_least_64bits : ℕ → ℕ) where
  -- Which branch the three packets take.
  syn_branch :
      (random : ℕ) (p live : Packet) (opt : MpCapable) (m : MpState h)
      → opt.len ≡ 12
      → tcp_ack p ≡ ok false
      → mptcp_subtype_mp_capable sha1_least_64bits random p live opt direction_inbound m
        ≡ capable_syn_inbound random p opt m
  unfolding mptcp_subtype_mp_capable
  syn_branch random p live opt m e no_ack = rw (mptcp_subtype_mp_capable, e, no_ack) refl

  outbound_branch :
      (random : ℕ) (p live : Packet) (opt : MpCapable) (m : MpState h)
      → opt.len ≡ 12
      → mptcp_subtype_mp_capable sha1_least_64bits random p live opt direction_outbound m
        ≡ capable_outbound live opt m
  unfolding mptcp_subtype_mp_capable
  outbound_branch random p live opt m e = rw (mptcp_subtype_mp_capable, e) refl

  ack_branch :
      (random : ℕ) (p live : Packet) (opt : MpCapable) (m : MpState h)
      → opt.len ≡ 20
      → mptcp_subtype_mp_capable sha1_least_64bits random p live opt direction_inbound m
        ≡ capable_ack sha1_least_64bits live opt direction_inbound m
  unfolding mptcp_subtype_mp_capable
  ack_branch random p live opt m e = rw (mptcp_subtype_mp_capable, e) refl

  capable_ack_lem :
      (live : Packet) (opt opt' : MpCapable) (m m' : MpState h)
      → mptcp_set_mp_cap_keys opt m ≡ ok (false, opt', m')
      → capable_ack sha1_least_64bits live opt direction_inbound m
        ≡ ok (
          false,
          opt',
          record m' {
            idsn = sha1_least_64bits m'.packetdrill_key;
            remote_idsn = sha1_least_64bits m'.kernel_key;
          },
        )
  unfolding capable_ack
  capable_ack_lem live opt opt' m m' e = rw (capable_ack, e) refl

  -- In a connection without keys, whose queue holds the names a, b, a, b in an inner stretch of its
  -- array, neither of them a variable, and a different from b: if the SYN has an IP header and the
  -- kernel's SYN/ACK an MPTCP option with a key, then all three calls of mptcp_subtype_mp_capable
  -- succeed. The SYN carries the random key, the script's SYN/ACK the kernel's key, the ACK both,
  -- and the initial sequence numbers are the hashes of the two.
  pub mptcp_subtype_mp_capable-handshake :
      (m : MpState h) (a b : Name) (random key synack_tcp option : ℕ) (syn live ack : Packet)
      (syn_opt synack_opt ack_opt : MpCapable) (ips : IpAddress × IpAddress) (tcp : ℕ × ℕ)
      → a ≢ b
      → IsQueue m.vars_queue
      → m.vars_queue.f < 250
      → contents m.vars_queue ≡ handshake_names a b
      → h.hash_find a m.vars ≡ none
      → h.hash_find b m.vars ≡ none
      → m.packetdrill_key_set ≡ false
      → m.kernel_key_set ≡ false
      → syn_opt.len ≡ 12
      → synack_opt.len ≡ 12
      → ack_opt.len ≡ 20
      → tcp_ack syn ≡ ok false
      → addresses syn ≡ ok ips
      → ports syn ≡ ok tcp
      → live.tcp_ptr ≡ some synack_tcp
      → get_tcp_option live.buffer synack_tcp 30 ≡ some (ok (some option))
      → load_key live.buffer option ≡ ok key
      → (o1 o2 o3 : MpCapable) × (m1 m2 m3 : MpState h) × (mptcp_subtype_mp_capable
            sha1_least_64bits random syn syn syn_opt direction_inbound m
          ≡ ok (false, o1, m1))
        × (mptcp_subtype_mp_capable sha1_least_64bits random live live synack_opt direction_outbound
              m1
            ≡ ok (false, o2, m2))
        × (mptcp_subtype_mp_capable sha1_least_64bits random ack ack ack_opt direction_inbound m2
            ≡ ok (false, o3, m3))
        × (o1.key ≡ random)
        × (o2.key ≡ key)
        × (o3.key ≡ random)
        × (o3.receiver_key ≡ key)
        × (m3.idsn ≡ sha1_least_64bits random)
        × (m3.remote_idsn ≡ sha1_least_64bits key)
  mptcp_subtype_mp_capable-handshake m a b random key synack_tcp option syn live ack syn_opt
        synack_opt ack_opt ips tcp ne w front names no_a no_b no_key no_kernel_key e12 e12' e20
        no_ack hi ht at_tcp found loaded =
      let a_var : MpVar = record {
        value = packetdrill_key_ref;
        mptcp_subtype = 0;
        script_defined = false;
      } in
      let b_var : MpVar = record {
        value = kernel_key_ref;
        mptcp_subtype = 0;
        script_defined = false;
      } in
      let p1 =
        queue_dequeue-Popped none m.vars_queue (some a) (some b ∷ some a ∷ some b ∷ []) w
          (omega arith) names in
      let p2 =
        queue_dequeue-Popped none p1.queue (some b) (some a ∷ some b ∷ []) p1.kept
          (omega (arith, p1.moved)) p1.left in
      let p3 =
        queue_dequeue-Popped none p2.queue (some a) (some b ∷ []) p2.kept
          (omega (arith, p1.moved, p2.moved)) p2.left in
      let p4 =
        queue_dequeue-Popped none p3.queue (some b) [] p3.kept
          (omega (arith, p1.moved, p2.moved, p3.moved)) p3.left in
      let with_a = h.hash_add a a_var m.vars in
      let with_b = h.hash_add b b_var with_a in
      let a_found : h.hash_find a with_a ≡ some a_var = laws.find_added a a_var m.vars no_a in
      let b_absent : h.hash_find b with_a ≡ none =
        laws.find_other a b a_var m.vars (λ e. ne (sym e)) ∙ no_b in
      let b_found : h.hash_find b with_b ≡ some b_var = laws.find_added b b_var with_a b_absent in
      let a_still : h.hash_find a with_b ≡ some a_var =
        laws.find_other b a b_var with_a ne ∙ a_found in
      let g1 : MpState h = add_mp_var_key a packetdrill_key_ref (set_packetdrill_key random m) in
      let m1 : MpState h = with_inbound ips tcp (popped p1.queue g1) in
      let g2 : MpState h = add_mp_var_key b kernel_key_ref (set_kernel_key key m1) in
      let m2 : MpState h = record (popped p2.queue g2) {
        remote_ssn = (g2.remote_ssn + 1) % 2 ^ 32;
      } in
      let m3 : MpState h = record (popped p4.queue m2) {
        idsn = sha1_least_64bits random;
        remote_idsn = sha1_least_64bits key;
      } in
      (
        record syn_opt { key = random },
        record synack_opt { key = key },
        record ack_opt { key = random; receiver_key = key },
        m1,
        m2,
        m3,
        syn_branch random syn syn syn_opt m e12 no_ack
            ∙ capable_syn_inbound_lem random syn syn_opt m a (some b ∷ some a ∷ some b ∷ []) a_var
                ips tcp g1 (gen_key_lem random m a p1.front no_a no_key) p1 a_found hi ht,
        outbound_branch random live live synack_opt m1 e12'
            ∙ capable_outbound_lem live synack_opt m1 g2 b (some a ∷ some b ∷ []) b_var
                (extract_lem live m1 synack_tcp option key false g2 at_tcp found loaded
                  (keep_kernel_key_lem key m1 b p2.front b_absent no_kernel_key))
                p2 b_found,
        ack_branch random ack ack ack_opt m2 e20
            ∙ capable_ack_lem ack ack_opt (record ack_opt { key = random; receiver_key = key }) m2
                (popped p4.queue m2)
                (set_keys_lem ack_opt m2 a b (some b ∷ []) [] a_var b_var p3 p4 a_still b_found),
        refl,
        refl,
        refl,
        refl,
        refl,
        refl,
      )
