-- ===== src/Mptcp/Join.antt =====
-- gtests/net/packetdrill/mptcp.c: the MP_JOIN options. The fields of an option are the bytes that
-- stand in it, on a little-endian host. A call answers `true` for an error, with the state as it is
-- then. The hash functions of utils.c, which call OpenSSL, are parameters, and so is
-- `info_at`, which reads what a pointer in the queue of variables points to as a struct
-- mp_join_info.
pub mod Exchange
pub mod Handshake
use packetdrill_mptcp.Base.{
  ℕ, zero, suc, ◌+◌, ◌*◌, ◌/◌, ◌%◌, ◌^◌, Bool, true, false, not, List, [], ◌∷◌, ◌++◌, take, ◌==◌,
  ◌&&◌, if◌then◌else◌, Option, none, some, Outcome, ok, status_err, fault, ◌>>=◌,
}
use packetdrill_mptcp.Memory.{load, slice}
use packetdrill_mptcp.Checksum.{le32}
use packetdrill_mptcp.Packet.{Packet}
use packetdrill_mptcp.TcpOptions.Iterator.{get_tcp_option}
use packetdrill_mptcp.Mptcp.{
  Uthash, MpState, MpVar, Name, Subflow, Value, find_mp_var, dequeue_var, read_value,
}
use packetdrill_mptcp.Mptcp.Flows.{
  at_header, settled, new_subflow_inbound, new_subflow_outbound, find_matching_subflow,
  does_subflow_match_inbound_packet, does_subflow_match_outbound_packet,
}
use packetdrill_mptcp.Mptcp.Capable.{
  Direction, direction_inbound, direction_outbound, is_inbound, tcp_ack,
}

-- A number in memory.
abbrev pub le_bytes : ℕ → ℕ → List ℕ
le_bytes zero n = []
le_bytes (suc count) n = n % 256 ∷ le_bytes count (n / 256)

-- A number that htonl or htobe64 has turned.
abbrev pub be_bytes : ℕ → ℕ → List ℕ
be_bytes zero n = []
be_bytes (suc count) n = be_bytes count (n / 256) ++ (n % 256 ∷ [])

-- The functions of the hash library: mptcp_hmac_sha1 takes the two keys and the two random numbers,
-- hmac_sha1_truncat_64 the bytes of the key and of the message.
pub record Hashes : Type 0 where
  pub sha1_least_32bits : ℕ → ℕ
  pub mptcp_hmac_sha1 : ℕ → ℕ → ℕ → ℕ → List ℕ
  pub hmac_sha1_truncat_64 : List ℕ → List ℕ → ℕ

-- The part of struct tcp_option that MP_JOIN uses: of a SYN the token and `syn_rand`, of a SYN/ACK
-- the 8 bytes of `syn_ack_hmac` and `syn_ack_rand`, of an ACK the 20 bytes of `ack_hmac`.
pub record MpJoin : Type 0 where
  pub len : ℕ
  pub address_id : ℕ
  pub receiver_token : List ℕ
  pub syn_rand : List ℕ
  pub syn_ack_hmac : List ℕ
  pub syn_ack_rand : List ℕ
  pub ack_hmac : List ℕ

-- struct mp_join_info: the parser fills the part for the kind of packet that the option is in.
pub record SynInfo : Type 0 where
  pub address_id : Option ℕ
  pub is_script_defined : Bool
  pub is_var : Bool
  pub var : Name
  pub var2 : Name
  pub hash : ℕ
  pub rand : Option ℕ

pub record AckInfo : Type 0 where
  pub is_script_defined : Bool
  pub is_var : Bool
  pub var : Name
  pub var2 : Name

pub data JoinInfo : Type 0 where
  syn_or_syn_ack : SynInfo → JoinInfo
  ack_info : AckInfo → JoinInfo

-- A read of the other part of the union is left undefined.
abbrev pub as_syn {ℓ} : {A : Type ℓ} → JoinInfo → (SynInfo → Outcome A) → Outcome A
as_syn (syn_or_syn_ack info) rest = rest info
as_syn (ack_info info) rest = fault

abbrev pub as_ack {ℓ} : {A : Type ℓ} → JoinInfo → (AckInfo → Outcome A) → Outcome A
as_ack (syn_or_syn_ack info) rest = fault
as_ack (ack_info info) rest = rest info

-- A field that no routine has set is undefined.
abbrev pub known {ℓ κ} : {A : Type ℓ} {B : Type κ} → Option A → (A → Outcome B) → Outcome B
known none rest = fault
known (some a) rest = rest a

-- A write through the pointer that find_matching_subflow has answered.
unfoldable pub write_matching :
    Packet → (Subflow → Packet → Outcome Bool) → Subflow → List Subflow → Outcome (List Subflow)
write_matching packet match_packet written [] = fault
write_matching packet match_packet written (subflow ∷ next) = match_packet subflow packet >>= λ hit.
    elim hit [
      | true ↦ ok (written ∷ next)
      | false ↦ write_matching packet match_packet written next >>= λ rest. ok (subflow ∷ rest)
    ]

abbrev pub set_address_id : Option ℕ → Direction → Subflow → Subflow
set_address_id none direction subflow = subflow
set_address_id (some id) direction_inbound subflow = record subflow {
  packetdrill_addr_id = some id;
}
set_address_id (some id) direction_outbound subflow = record subflow { kernel_addr_id = some id }

abbrev pub own_address_id : Direction → Subflow → Option ℕ
own_address_id direction_inbound subflow = subflow.packetdrill_addr_id
own_address_id direction_outbound subflow = subflow.kernel_addr_id

-- The subflow as it is afterwards, and the option.
unfoldable pub mp_join_syn_address_id :
    MpJoin → SynInfo → Subflow → Direction → Outcome (MpJoin × Subflow)
mp_join_syn_address_id tcp_opt info subflow direction =
    let changed = set_address_id info.address_id direction subflow in
    known (own_address_id direction changed)
      (λ id. ok (record tcp_opt { address_id = id }, changed))

abbrev pub set_rand : Option ℕ → Direction → Subflow → Subflow
set_rand none direction subflow = subflow
set_rand (some rand) direction_inbound subflow = record subflow { packetdrill_rand_nbr = some rand }
set_rand (some rand) direction_outbound subflow = record subflow { kernel_rand_nbr = some rand }

-- Only the number of the kernel is turned by htonl.
abbrev pub own_rand : Direction → Subflow → Outcome (List ℕ)
own_rand direction_inbound subflow =
    known subflow.packetdrill_rand_nbr (λ rand. ok (le_bytes 4 rand))
own_rand direction_outbound subflow = known subflow.kernel_rand_nbr (λ rand. ok (be_bytes 4 rand))

unfoldable pub mp_join_syn_rand :
    MpJoin → SynInfo → Subflow → Direction → Outcome (MpJoin × Subflow)
mp_join_syn_rand tcp_opt info subflow direction =
    let changed = set_rand info.rand direction subflow in
    own_rand direction changed >>= λ rand. ok (record tcp_opt { syn_rand = rand }, changed)

module _ (hashes : Hashes) where
  abbrev pub sender_hmac : ℕ → ℕ → ℕ → ℕ → List ℕ
  sender_hmac key1 key2 msg1 msg2 = be_bytes 8 (
      hashes.hmac_sha1_truncat_64 (le_bytes 8 key1 ++ le_bytes 8 key2)
        (le_bytes 4 msg1 ++ le_bytes 4 msg2))

module _ {h : Uthash} (hashes : Hashes) where
  -- The key of a variable, whose pointer is not tested.
  abbrev pub key_of : Name → MpState h → Outcome ℕ
  key_of name mp_state =
      known (find_mp_var name mp_state) (λ var. ok (read_value mp_state var.value))

  -- The key whose hash is the token, unless the script gives the hash.
  abbrev pub token_hash : SynInfo → Direction → MpState h → Outcome ℕ
  token_hash info direction mp_state =
      if info.is_script_defined && info.is_var
      then (key_of info.var mp_state >>= λ key. ok (hashes.sha1_least_32bits key))
      else if info.is_script_defined
      then ok (info.hash % 2 ^ 32)
      else if is_inbound direction
      then ok (hashes.sha1_least_32bits mp_state.kernel_key)
      else ok (hashes.sha1_least_32bits mp_state.packetdrill_key)

  unfoldable pub mp_join_syn_rcv_token : MpJoin → SynInfo → Direction → MpState h → Outcome MpJoin
  mp_join_syn_rcv_token tcp_opt info direction mp_state =
      token_hash info direction mp_state >>= λ token.
      ok (record tcp_opt { receiver_token = be_bytes 4 token })

  -- The new subflow is the first of the list.
  abbrev pub write_newest : Subflow → MpState h → MpState h
  write_newest subflow mp_state = record mp_state {
    subflows = elim mp_state.subflows [ [] ↦ [] | old ∷ next ↦ subflow ∷ next ];
  }

  abbrev pub fill_syn :
      MpJoin → SynInfo → Direction → Option Subflow × MpState h → Outcome (MpJoin × MpState h)
  fill_syn tcp_opt info direction (none, mp_state) = ok (tcp_opt, mp_state)
  fill_syn tcp_opt info direction (some subflow, mp_state) =
      mp_join_syn_rcv_token tcp_opt info direction mp_state >>= λ token.
      mp_join_syn_rand token info subflow direction >>= λ rand.
      mp_join_syn_address_id rand.0 info rand.1 direction >>= λ done.
      ok (done.0, write_newest done.1 mp_state)

  -- The answer STATUS_ERR, for the null pointer, is not looked at by the caller.
  unfoldable pub mp_join_syn :
      Packet → Packet → MpJoin → SynInfo → Direction → MpState h → Outcome (MpJoin × MpState h)
  mp_join_syn packet live_packet tcp_opt info direction mp_state = elim direction [
    | direction_inbound ↦
        new_subflow_inbound packet mp_state >>= λ made. fill_syn tcp_opt info direction_inbound made
    | direction_outbound ↦ new_subflow_outbound live_packet mp_state >>= λ made.
        fill_syn tcp_opt info direction_outbound made
  ]
