-- ===== src/Examples/Joins.antt =====
-- An MP_JOIN handshake, gtests/net/packetdrill/mptcp.c.
use packetdrill_mptcp.Base.{
  ℕ, ◌+◌, ◌≡◌, refl, true, false, List, [], ◌∷◌, ◌++◌, ◌==◌, if◌then◌else◌, Option, none, some,
  Outcome, ok, fault,
}
use packetdrill_mptcp.Memory.{load, load_be16, slice}
use packetdrill_mptcp.Queue.{Queue, queue_dequeue, update}
use packetdrill_mptcp.Packet.{Packet, packet_new}
use packetdrill_mptcp.TcpOptions.Iterator.{get_tcp_option}
use packetdrill_mptcp.Mptcp.{MpState, Name, ip_v4}
use packetdrill_mptcp.Mptcp.Flows.{addresses, ports}
use packetdrill_mptcp.Mptcp.Capable.{direction_inbound, direction_outbound, tcp_ack}
use packetdrill_mptcp.Mptcp.Join.{
  Hashes, MpJoin, SynInfo, AckInfo, JoinInfo, syn_or_syn_ack, ack_info,
}
use packetdrill_mptcp.Mptcp.Join.Exchange.{mptcp_subtype_mp_join, live_fields, tcp_syn}
use packetdrill_mptcp.Mptcp.Join.Handshake.{HasFlags, Holds3, mptcp_subtype_mp_join-handshake}
use packetdrill_mptcp.Examples.Connections.{association, start}

-- Stand-ins for the hash functions.
abbrev hashes : Hashes
hashes = record {
  sha1_least_32bits = λ key. key + 1;
  mptcp_hmac_sha1 =
      λ key1 key2 nonce1 nonce2. key1 ∷ key2 ∷ nonce1 ∷ nonce2 ∷ 5 ∷ 6 ∷ 7 ∷ 8 ∷ 9 ∷ [];
  hmac_sha1_truncat_64 = λ key msg. 0;
}

abbrev ipv4_from : ℕ → List ℕ
ipv4_from host =
    69 ∷ 0 ∷ 0 ∷ 52 ∷ 0 ∷ 0 ∷ 0 ∷ 0 ∷ 64 ∷ 6 ∷ 0 ∷ 0 ∷ 192 ∷ 0 ∷ 2 ∷ host ∷ 192 ∷ 0 ∷ 2 ∷ 3 ∷ []

-- Ports below 256, a data offset of 9 words, and a MP_JOIN option of a SYN/ACK.
abbrev tcp_between : ℕ → ℕ → ℕ → List ℕ
tcp_between src dst flags =
    0 ∷ src ∷ 0 ∷ dst ∷ 0 ∷ 0 ∷ 0 ∷ 0 ∷ 0 ∷ 0 ∷ 0 ∷ 0 ∷ 144 ∷ flags ∷ 0 ∷ 0 ∷ 0 ∷ 0 ∷ 0 ∷ 0 ∷ []

abbrev join_option : List ℕ
join_option = 30 ∷ 16 ∷ 16 ∷ 7 ∷ 0 ∷ 0 ∷ 0 ∷ 0 ∷ 0 ∷ 0 ∷ 0 ∷ 0 ∷ 9 ∷ 1 ∷ 0 ∷ 0 ∷ []

abbrev packet_with : ℕ → ℕ → ℕ → Packet
packet_with src dst flags =
    record (packet_new (ipv4_from 1 ++ (tcp_between src dst flags ++ join_option))) {
      ipv4_ptr = some 0;
      tcp_ptr = some 20;
    }

abbrev syn : Packet
syn = packet_with 80 90 2

abbrev synack : Packet
synack = packet_with 90 80 18

abbrev ack : Packet
ack = packet_with 80 90 16

abbrev option_of : ℕ → MpJoin
option_of len = record {
  len = len;
  address_id = 0;
  receiver_token = [];
  syn_rand = [];
  syn_ack_hmac = [];
  syn_ack_rand = [];
  ack_hmac = [];
}

abbrev nothing_given : SynInfo
nothing_given = record {
  address_id = none;
  is_script_defined = false;
  is_var = false;
  var = [];
  var2 = [];
  hash = 0;
  rand = none;
}

abbrev by_state : AckInfo
by_state = record { is_script_defined = false; is_var = true; var = []; var2 = [] }

-- The pointers of the queue have the numbers of their places.
abbrev pointers : Queue (Option Name)
pointers = record { elements = λ i. some (i ∷ []); r = 3; f = 0 }

abbrev info_at : Option Name → Outcome JoinInfo
info_at none = fault
info_at (some []) = fault
info_at (some (i ∷ rest)) =
    if i == 2 then ok (ack_info by_state) else ok (syn_or_syn_ack nothing_given)

abbrev connected : MpState association
connected = record start { packetdrill_key = 11; kernel_key = 22; vars_queue = pointers }

abbrev without_front : Queue (Option Name) → Queue (Option Name)
without_front q = record q { elements = update q.elements q.f none; f = q.f + 1 }

abbrev one_taken : Queue (Option Name)
one_taken = without_front pointers

abbrev two_taken : Queue (Option Name)
two_taken = without_front one_taken

abbrev three_taken : Queue (Option Name)
three_taken = without_front two_taken

pointers-Holds3 :
    Holds3 info_at pointers
      (syn_or_syn_ack nothing_given)
      (syn_or_syn_ack nothing_given)
      (ack_info by_state)
unfolding queue_dequeue
pointers-Holds3 = (
  some (0 ∷ []),
  some (1 ∷ []),
  some (2 ∷ []),
  one_taken,
  two_taken,
  three_taken,
  refl,
  refl,
  refl,
  refl,
  refl,
  refl,
)

syn-HasFlags : HasFlags syn true false
unfolding tcp_ack tcp_syn packet_new load
syn-HasFlags = (refl, refl)

synack-HasFlags : HasFlags synack true true
unfolding tcp_ack tcp_syn packet_new load
synack-HasFlags = (refl, refl)

ack-HasFlags : HasFlags ack false true
unfolding tcp_ack tcp_syn packet_new load
ack-HasFlags = (refl, refl)

syn-addresses : addresses syn ≡ ok (ip_v4 (192 ∷ 0 ∷ 2 ∷ 1 ∷ []), ip_v4 (192 ∷ 0 ∷ 2 ∷ 3 ∷ []))
unfolding addresses packet_new slice
syn-addresses = refl

syn-ports : ports syn ≡ ok (80, 90)
unfolding ports packet_new load_be16 load
syn-ports = refl

synack-ports : ports synack ≡ ok (90, 80)
unfolding ports packet_new load_be16 load
synack-ports = refl

ack-ports : ports ack ≡ ok (80, 90)
unfolding ports packet_new load_be16 load
ack-ports = refl

synack-fields : live_fields synack ≡ ok (some (7, 9 ∷ 1 ∷ 0 ∷ 0 ∷ []))
unfolding live_fields packet_new load slice get_tcp_option
synack-fields = refl

-- The random numbers are 42 and 265.
mptcp_subtype_mp_join-handshake_example :
    (o1 o2 o3 : MpJoin) × (m1 m2 m3 : MpState association) × (mptcp_subtype_mp_join hashes info_at 5
        syn syn
        (option_of 12)
        direction_inbound
        connected
      ≡ ok (false, o1, m1))
    × (mptcp_subtype_mp_join hashes info_at 5 synack synack (option_of 16) direction_outbound m1
        ≡ ok (false, o2, m2))
    × (mptcp_subtype_mp_join hashes info_at 5 ack ack (option_of 24) direction_inbound m2
        ≡ ok (false, o3, m3))
    × (o1.receiver_token ≡ 0 ∷ 0 ∷ 0 ∷ 23 ∷ [])
    × (o1.syn_rand ≡ 42 ∷ 0 ∷ 0 ∷ 0 ∷ [])
    × (o2.address_id ≡ 7)
    × (o2.syn_ack_rand ≡ 9 ∷ 1 ∷ 0 ∷ 0 ∷ [])
    × (o2.syn_ack_hmac ≡ 22 ∷ 11 ∷ 265 ∷ 42 ∷ 5 ∷ 6 ∷ 7 ∷ 8 ∷ [])
    × (o3.ack_hmac ≡ 11 ∷ 22 ∷ 42 ∷ 265 ∷ 5 ∷ 6 ∷ 7 ∷ 8 ∷ 9 ∷ [])
mptcp_subtype_mp_join-handshake_example =
    mptcp_subtype_mp_join-handshake hashes connected info_at nothing_given
      (syn_or_syn_ack nothing_given) by_state syn synack synack ack (option_of 12) (option_of 16)
      (option_of 24) 5 80 90 7 (9 ∷ 1 ∷ 0 ∷ 0 ∷ [])
      (ip_v4 (192 ∷ 0 ∷ 2 ∷ 1 ∷ []), ip_v4 (192 ∷ 0 ∷ 2 ∷ 3 ∷ [])) pointers-Holds3 refl refl refl
      refl refl syn-HasFlags synack-HasFlags ack-HasFlags syn-addresses syn-ports synack-ports
      ack-ports synack-fields
