-- ===== src/Mptcp/Capable/Keys.antt =====
-- What the routines of the MP_CAPABLE handshake do when the names that they take from the queue are
-- there.
use packetdrill_mptcp.Base.{ℕ, ◌+◌, ◌%◌, ◌^◌, ◌≡◌, refl, Bool, false, List, Option, none, some, ok}
use packetdrill_mptcp.Queue.{Queue, queue_front}
use packetdrill_mptcp.Queue.Front.{Popped}
use packetdrill_mptcp.Packet.{Packet}
use packetdrill_mptcp.TcpOptions.Iterator.{get_tcp_option}
use packetdrill_mptcp.Mptcp.{
  Uthash, MpState, MpVar, Name, packetdrill_key_ref, kernel_key_ref, find_mp_var, add_mp_var_key,
  set_packetdrill_key, set_kernel_key, read_value, dequeue_var, find_next_key, IpAddress,
}
use packetdrill_mptcp.Mptcp.Flows.{addresses, ports}
use packetdrill_mptcp.Mptcp.Match.{with_inbound, new_subflow_inbound_lem}
use packetdrill_mptcp.Mptcp.Capable.{
  MpCapable, mptcp_gen_key, mptcp_set_mp_cap_syn_key, mptcp_set_mp_cap_keys, keep_kernel_key,
  load_key, extract_and_set_kernel_key, capable_syn_inbound, capable_outbound,
}

module _ {h : Uthash} where
  abbrev pub popped : Queue (Option Name) → MpState h → MpState h
  popped queue mp_state = record mp_state { vars_queue = queue }

  pub find_next_key_lem :
      (m : MpState h) (name : Name) (rest : List (Option Name)) (var : MpVar)
      (p : Popped none m.vars_queue (some name) rest)
      → find_mp_var name m ≡ some var
      → find_next_key m ≡ ok (some var.value, popped p.queue m)
  unfolding find_next_key dequeue_var
  find_next_key_lem m name rest var p e = rw (find_next_key, dequeue_var, p.out, e) refl

  pub set_syn_key_lem :
      (opt : MpCapable) (m : MpState h) (name : Name) (rest : List (Option Name)) (var : MpVar)
      (p : Popped none m.vars_queue (some name) rest)
      → find_mp_var name m ≡ some var
      → mptcp_set_mp_cap_syn_key opt m
        ≡ ok (false, record opt { key = read_value (popped p.queue m) var.value }, popped p.queue m)
  unfolding mptcp_set_mp_cap_syn_key
  set_syn_key_lem opt m name rest var p e =
      rw (mptcp_set_mp_cap_syn_key, find_next_key_lem m name rest var p e) refl

  pub gen_key_lem :
      (random : ℕ) (m : MpState h) (name : Name)
      → queue_front m.vars_queue ≡ ok (some name)
      → find_mp_var name m ≡ none
      → m.packetdrill_key_set ≡ false
      → mptcp_gen_key random m
        ≡ ok (false, add_mp_var_key name packetdrill_key_ref (set_packetdrill_key random m))
  unfolding mptcp_gen_key
  gen_key_lem random m name e absent unset = rw (mptcp_gen_key, e, absent, unset) refl

  pub keep_kernel_key_lem :
      (key : ℕ) (m : MpState h) (name : Name)
      → queue_front m.vars_queue ≡ ok (some name)
      → find_mp_var name m ≡ none
      → m.kernel_key_set ≡ false
      → keep_kernel_key key m
        ≡ ok (false, add_mp_var_key name kernel_key_ref (set_kernel_key key m))
  unfolding keep_kernel_key
  keep_kernel_key_lem key m name e absent unset = rw (keep_kernel_key, e, absent, unset) refl

  pub capable_syn_inbound_lem :
      (random : ℕ) (packet : Packet) (opt : MpCapable) (m : MpState h) (name : Name)
      (rest : List (Option Name)) (var : MpVar) (ips : IpAddress × IpAddress) (tcp : ℕ × ℕ)
      (m1 : MpState h)
      → mptcp_gen_key random m ≡ ok (false, m1)
      → (p : Popped none m1.vars_queue (some name) rest) → find_mp_var name m1 ≡ some var
      → addresses packet ≡ ok ips
      → ports packet ≡ ok tcp
      → capable_syn_inbound random packet opt m
        ≡ ok (
          false,
          record opt { key = read_value (popped p.queue m1) var.value },
          with_inbound ips tcp (popped p.queue m1),
        )
  unfolding capable_syn_inbound
  capable_syn_inbound_lem random packet opt m name rest var ips tcp m1 made p e hi ht =
      rw
        (
          capable_syn_inbound,
          made,
          set_syn_key_lem opt m1 name rest var p e,
          new_subflow_inbound_lem packet (popped p.queue m1) ips tcp hi ht,
        )
        refl

  pub capable_outbound_lem :
      (live : Packet) (opt : MpCapable) (m m1 : MpState h) (name : Name) (rest : List (Option Name))
      (var : MpVar)
      → extract_and_set_kernel_key live m ≡ ok (false, m1)
      → (p : Popped none m1.vars_queue (some name) rest) → find_mp_var name m1 ≡ some var
      → capable_outbound live opt m
        ≡ ok (
          false,
          record opt { key = read_value (popped p.queue m1) var.value },
          record (popped p.queue m1) { remote_ssn = (m1.remote_ssn + 1) % 2 ^ 32 },
        )
  unfolding capable_outbound
  capable_outbound_lem live opt m m1 name rest var kept p e =
      rw (capable_outbound, kept, set_syn_key_lem opt m1 name rest var p e) refl

  pub extract_lem :
      (live : Packet) (m : MpState h) (tcp option key : ℕ) (b : Bool) (m1 : MpState h)
      → live.tcp_ptr ≡ some tcp
      → get_tcp_option live.buffer tcp 30 ≡ some (ok (some option))
      → load_key live.buffer option ≡ ok key
      → keep_kernel_key key m ≡ ok (b, m1)
      → extract_and_set_kernel_key live m ≡ ok (b, m1)
  unfolding extract_and_set_kernel_key
  extract_lem live m tcp option key b m1 at_tcp found loaded kept =
      rw (extract_and_set_kernel_key, at_tcp, found, loaded, kept) refl

  pub set_keys_lem :
      (opt : MpCapable) (m : MpState h) (first second : Name) (rest rest' : List (Option Name))
      (var var' : MpVar) (p : Popped none m.vars_queue (some first) rest)
      (p' : Popped none p.queue (some second) rest')
      → find_mp_var first m ≡ some var
      → find_mp_var second m ≡ some var'
      → mptcp_set_mp_cap_keys opt m
        ≡ ok (
          false,
          record opt {
            key = read_value (popped p.queue m) var.value;
            receiver_key = read_value (popped p'.queue m) var'.value;
          },
          popped p'.queue m,
        )
  unfolding mptcp_set_mp_cap_keys
  set_keys_lem opt m first second rest rest' var var' p p' e e' =
      rw
        (
          mptcp_set_mp_cap_keys,
          set_syn_key_lem opt m first rest var p e,
          find_next_key_lem (popped p.queue m) second rest' var' p' e',
        )
        refl
