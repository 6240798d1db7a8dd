-- ===== src/Mptcp/Flows.antt =====
-- gtests/net/packetdrill/mptcp.c: the subflows. The list that starts at mp_state.subflows is a list
-- of the nodes, newest first; a packet is the one that the parser gave.
use packetdrill_mptcp.Base.{
  ℕ, ◌+◌, ◌%◌, ◌^◌, Bool, List, [], ◌∷◌, ◌==◌, ◌&&◌, if◌then◌else◌, Option, none, some, Outcome, ok,
  status_err, fault, ◌>>=◌,
}
use packetdrill_mptcp.Memory.{load, load_be16, slice}
use packetdrill_mptcp.Packet.{Packet}
use packetdrill_mptcp.Checksum.{le32}
use packetdrill_mptcp.TcpOptions.Iterator.{get_mptcp_option}
use packetdrill_mptcp.Mptcp.{Uthash, MpState, Subflow, IpAddress, ip_v4, ip_v6}

-- What the fields of a header read through its pointer.
abbrev pub at_header {ℓ} : {A : Type ℓ} → Option ℕ → (ℕ → Outcome A) → Outcome A
at_header none read = fault
at_header (some p) read = read p

-- A search whose fuel ran out counts as a fault.
abbrev pub settled {ℓ} : {A : Type ℓ} → Option (Outcome A) → Outcome A
settled none = fault
settled (some m) = m

-- The source and the destination address: at 12 and 16 of an IPv4 header, at 8 and 24 of an IPv6
-- header. `status_err` is a packet with neither.
unfoldable pub addresses : Packet → Outcome (IpAddress × IpAddress)
addresses p = elim p.ipv4_ptr [
  | some ip ↦ do
    src ← slice p.buffer (ip + 12) 4
    dst ← slice p.buffer (ip + 16) 4
    ok (ip_v4 src, ip_v4 dst)
  | none ↦ elim p.ipv6_ptr [
    | some ip ↦ do
      src ← slice p.buffer (ip + 8) 16
      dst ← slice p.buffer (ip + 24) 16
      ok (ip_v6 src, ip_v6 dst)
    | none ↦ status_err
  ]
]

unfoldable pub ports : Packet → Outcome (ℕ × ℕ)
ports p =
    at_header p.tcp_ptr
      λ tcp. load_be16 p.buffer tcp >>= λ src. load_be16 p.buffer (tcp + 2) >>= λ dst. ok (src, dst)

-- What new_subflow_inbound writes into the new subflow; the address id is cut to 8 bits.
abbrev pub inbound_subflow : ℕ → IpAddress × IpAddress → ℕ × ℕ → Subflow
inbound_subflow addr_id ips tcp = record {
  src_ip = ips.0;
  dst_ip = ips.1;
  src_port = tcp.0;
  dst_port = tcp.1;
  packetdrill_addr_id = some (addr_id % 256);
  kernel_addr_id = none;
  kernel_rand_nbr = none;
  packetdrill_rand_nbr = some 42;
  ssn = 1;
}

module _ {h : Uthash} where
  -- The answer `none` is the null pointer.
  unfoldable pub new_subflow_inbound : Packet → MpState h → Outcome (Option Subflow × MpState h)
  unfolding addresses ports
  new_subflow_inbound inbound_packet mp_state = elim (addresses inbound_packet) [
    | status_err ↦ ok (none, mp_state)
    | fault ↦ fault
    | ok ips ↦ ports inbound_packet >>= λ tcp.
        let subflow = inbound_subflow mp_state.last_packetdrill_addr_id ips tcp in
        ok (
          some subflow,
          record mp_state {
            last_packetdrill_addr_id = (mp_state.last_packetdrill_addr_id + 1) % 2 ^ 32;
            subflows = subflow ∷ mp_state.subflows;
          },
        )
  ]

  -- The subflow is seen from the side of packetdrill: addresses and ports change places.
  unfoldable pub new_subflow_outbound : Packet → MpState h → Outcome (Option Subflow × MpState h)
  unfolding addresses ports
  new_subflow_outbound outbound_packet mp_state = at_header outbound_packet.tcp_ptr λ tcp_ptr.
      settled (get_mptcp_option outbound_packet.buffer tcp_ptr 0) >>= λ found. elim found [
        | none ↦ ok (none, mp_state)
        | some mp_join_syn ↦ elim (addresses outbound_packet) [
          | status_err ↦ ok (none, mp_state)
          | fault ↦ fault
          | ok ips ↦ do
            tcp ← ports outbound_packet
            address_id ← load outbound_packet.buffer (mp_join_syn + 3)
            r0 ← load outbound_packet.buffer (mp_join_syn + 8)
            r1 ← load outbound_packet.buffer (mp_join_syn + 9)
            r2 ← load outbound_packet.buffer (mp_join_syn + 10)
            r3 ← load outbound_packet.buffer (mp_join_syn + 11)
            let subflow : Subflow = record {
              src_ip = ips.1;
              dst_ip = ips.0;
              src_port = tcp.1;
              dst_port = tcp.0;
              packetdrill_addr_id = none;
              kernel_addr_id = some address_id;
              kernel_rand_nbr = some (le32 r0 r1 r2 r3);
              packetdrill_rand_nbr = none;
              ssn = 1;
            }
            ok (some subflow, record mp_state { subflows = subflow ∷ mp_state.subflows })
        ]
      ]

-- does_subflow_match_outbound_packet and does_subflow_match_inbound_packet.
unfoldable pub does_subflow_match_outbound_packet : Subflow → Packet → Outcome Bool
unfolding ports
does_subflow_match_outbound_packet subflow packet =
    ports packet >>= λ tcp. ok (subflow.dst_port == tcp.0 && subflow.src_port == tcp.1)

unfoldable pub does_subflow_match_inbound_packet : Subflow → Packet → Outcome Bool
unfolding ports
does_subflow_match_inbound_packet subflow packet =
    ports packet >>= λ tcp. ok (subflow.dst_port == tcp.1 && subflow.src_port == tcp.0)

-- find_matching_subflow, from a node of the list on.
unfoldable pub find_matching_subflow :
    Packet → (Subflow → Packet → Outcome Bool) → List Subflow → Outcome (Option Subflow)
find_matching_subflow packet match_packet [] = ok none
find_matching_subflow packet match_packet (subflow ∷ next) =
    let rest = find_matching_subflow packet match_packet next in
    match_packet subflow packet >>= λ hit. if hit then ok (some subflow) else rest

unfoldable pub find_subflow_matching_outbound_packet :
    {h : Uthash} → Packet → MpState h → Outcome (Option Subflow)
unfolding find_matching_subflow
find_subflow_matching_outbound_packet packet mp_state =
    find_matching_subflow packet does_subflow_match_outbound_packet mp_state.subflows

unfoldable pub find_subflow_matching_inbound_packet :
    {h : Uthash} → Packet → MpState h → Outcome (Option Subflow)
unfolding find_matching_subflow
find_subflow_matching_inbound_packet packet mp_state =
    find_matching_subflow packet does_subflow_match_inbound_packet mp_state.subflows
