-- ===== src/Examples/Connections.antt =====
-- Runs and instances of the theorems on the MPTCP state.
use packetdrill_mptcp.Base.{
  ℕ, ◌+◌, ◌%◌, ◌≡◌, ◌≢◌, refl, arith, ap, Bool, true, false, List, [], ◌∷◌, ◌==◌, ◌&&◌,
  if◌then◌else◌, Option, none, some, ok, Bool-cases, inl, inr,
}
use packetdrill_mptcp.Memory.{load, load_be16, slice}
use packetdrill_mptcp.Queue.{Queue, queue_size}
use packetdrill_mptcp.Queue.View.{contents}
use packetdrill_mptcp.Packet.{Packet, packet_new}
use packetdrill_mptcp.TcpOptions.Iterator.{get_tcp_option}
use packetdrill_mptcp.Mptcp.{Uthash, UthashLaws, MpState, MpVar, Name, IpAddress, ip_v4, Subflow}
use packetdrill_mptcp.Mptcp.Flows.{
  addresses, ports, new_subflow_inbound, find_subflow_matching_inbound_packet,
  find_subflow_matching_outbound_packet,
}
use packetdrill_mptcp.Mptcp.Match.{new_subflow_inbound-find_subflow}
use packetdrill_mptcp.Mptcp.Capable.{
  MpCapable, direction_inbound, direction_outbound, load_key, mptcp_subtype_mp_capable, tcp_ack,
}
use packetdrill_mptcp.Examples.Options.{segment, finds_mptcp}
use packetdrill_mptcp.Examples.Packets.{syn_buffer}
use packetdrill_mptcp.Mptcp.Capable.Handshake.{handshake_names, mptcp_subtype_mp_capable-handshake}

-- A table of variables: the pairs, newest first.
abbrev same_name : Name → Name → Bool
same_name [] [] = true
same_name [] (y ∷ ys) = false
same_name (x ∷ xs) [] = false
same_name (x ∷ xs) (y ∷ ys) = x == y && same_name xs ys

same_name_refl : (n : Name) → same_name n n ≡ true
same_name_refl [] = refl
same_name_refl (x ∷ xs) = ground (arith, same_name_refl xs)

same_name_sound : (n o : Name) → same_name n o ≡ true → n ≡ o
same_name_sound [] [] h = refl
same_name_sound [] (y ∷ ys) h = cc
same_name_sound (x ∷ xs) [] h = cc
same_name_sound (x ∷ xs) (y ∷ ys) h =
    let e : x ≡ y = ground arith in
    let e' : xs ≡ ys = same_name_sound xs ys (ground arith) in rw (e, e') refl

abbrev search : Name → List (Name × MpVar) → Option MpVar
search n [] = none
search n (v ∷ vs) = if same_name n v.0 then some v.1 else search n vs

abbrev pub association : Uthash
association = record {
  Table = List (Name × MpVar);
  no_vars = [];
  hash_add = λ n v t. (n, v) ∷ t;
  hash_find = search;
}

association-laws : UthashLaws association
association-laws = record {
  find_added = λ n v t absent. rw (same_name_refl n) refl;
  find_other = λ n o v t ne. elim (Bool-cases (same_name o n)) [
    | inl e ↦ absurd (ne (same_name_sound o n e))
    | inr e ↦ rw e refl
  ];
}

abbrev name_a : Name
name_a = 97 ∷ []

abbrev name_b : Name
name_b = 98 ∷ []

abbrev four_names : Queue (Option Name)
four_names = record {
  elements = λ i. if i % 2 == 0 then some name_a else some name_b;
  r = 4;
  f = 0;
}

abbrev empty_queue : Queue ℕ
empty_queue = record { elements = λ i. 0; r = 0; f = 0 }

abbrev pub start : MpState association
start = record {
  packetdrill_key = 0;
  kernel_key = 0;
  packetdrill_key_set = false;
  kernel_key_set = false;
  vars_queue = four_names;
  vals_queue = empty_queue;
  script_only_vals_queue = empty_queue;
  vars = [];
  subflows = [];
  last_packetdrill_addr_id = 3;
  remote_idsn = 0;
  idsn = 0;
  remote_ssn = 0;
  remote_last_pkt_length = 0;
}

-- The SYN of the packets' example, and the segment with an MP_CAPABLE option of the options' one.
abbrev syn : Packet
syn = record (packet_new syn_buffer) { ipv4_ptr = some 0; tcp_ptr = some 20 }

abbrev synack : Packet
synack = record (packet_new segment) { tcp_ptr = some 0 }

abbrev capable_12 : MpCapable
capable_12 = record { len = 12; key = 0; receiver_key = 0 }

abbrev capable_20 : MpCapable
capable_20 = record { len = 20; key = 0; receiver_key = 0 }

abbrev syn_addresses : IpAddress × IpAddress
syn_addresses = (ip_v4 (192 ∷ 0 ∷ 2 ∷ 1 ∷ []), ip_v4 (192 ∷ 168 ∷ 0 ∷ 1 ∷ []))

names_differ : name_a ≢ name_b
names_differ e = absurd (same_name_differs (ap (same_name name_a) e))
  where
    same_name_differs : same_name name_a name_a ≡ same_name name_a name_b → ⊥
    same_name_differs h = cc

four_names-contents : contents four_names ≡ handshake_names name_a name_b
unfolding queue_size
four_names-contents = refl

syn-no_ack : tcp_ack syn ≡ ok false
unfolding tcp_ack packet_new load
syn-no_ack = refl

syn-addresses : addresses syn ≡ ok syn_addresses
unfolding addresses packet_new slice
syn-addresses = refl

syn-ports : ports syn ≡ ok (80, 8080)
unfolding ports packet_new load_be16 load
syn-ports = refl

synack-option : get_tcp_option synack.buffer 0 30 ≡ some (ok (some 28))
unfolding packet_new
synack-option = finds_mptcp

synack-key : load_key synack.buffer 28 ≡ ok 0x0807060504030201
unfolding load_key packet_new load
synack-key = refl

mptcp_subtype_mp_capable-handshake_example :
    (o1 o2 o3 : MpCapable) × (m1 m2 m3 : MpState association) × (mptcp_subtype_mp_capable
        (λ key. key + 1)
        77
        syn
        syn
        capable_12
        direction_inbound
        start
      ≡ ok (false, o1, m1))
    × (mptcp_subtype_mp_capable (λ key. key + 1) 77 synack synack capable_12 direction_outbound m1
        ≡ ok (false, o2, m2))
    × (mptcp_subtype_mp_capable (λ key. key + 1) 77 syn syn capable_20 direction_inbound m2
        ≡ ok (false, o3, m3))
    × (o1.key ≡ 77)
    × (o2.key ≡ 0x0807060504030201)
    × (o3.key ≡ 77)
    × (o3.receiver_key ≡ 0x0807060504030201)
    × (m3.idsn ≡ 78)
    × (m3.remote_idsn ≡ 0x0807060504030202)
mptcp_subtype_mp_capable-handshake_example =
    mptcp_subtype_mp_capable-handshake association-laws (λ key. key + 1) start name_a name_b 77
      0x0807060504030201 0 28 syn synack syn capable_12 capable_12 capable_20 syn_addresses
      (80, 8080) names_differ (omega arith) (omega arith) four_names-contents refl refl refl refl
      refl refl refl syn-no_ack syn-addresses syn-ports refl synack-option synack-key

new_subflow_inbound-find_subflow_example :
    (s : Subflow) × (mp_state' : MpState association) × (new_subflow_inbound syn start
      ≡ ok (some s, mp_state'))
    × (s.src_ip ≡ ip_v4 (192 ∷ 0 ∷ 2 ∷ 1 ∷ []))
    × (s.dst_ip ≡ ip_v4 (192 ∷ 168 ∷ 0 ∷ 1 ∷ []))
    × (s.packetdrill_addr_id ≡ some 3)
    × (mp_state'.last_packetdrill_addr_id ≡ 4)
    × (mp_state'.subflows ≡ s ∷ [])
    × ((q : Packet)
        → ports q ≡ ok (80, 8080)
        → find_subflow_matching_inbound_packet q mp_state' ≡ ok (some s))
    × ((q : Packet)
        → ports q ≡ ok (8080, 80)
        → find_subflow_matching_outbound_packet q mp_state' ≡ ok (some s))
new_subflow_inbound-find_subflow_example =
    new_subflow_inbound-find_subflow syn start (ip_v4 (192 ∷ 0 ∷ 2 ∷ 1 ∷ []))
      (ip_v4 (192 ∷ 168 ∷ 0 ∷ 1 ∷ [])) 80 8080 syn-addresses syn-ports
