-- ===== src/Mptcp.antt =====
-- gtests/net/packetdrill/mptcp.c and mptcp.h: the state of the MPTCP connection under test. The
-- queue of variable names, the table of variables and the list of subflows are part of the state,
-- which every routine takes and gives back with its result. The table is uthash's, and is here
-- what an implementation of its macros offers. A variable's value is a pointer: to one of the two
-- keys in the state, or to a value that the script gives. The pointers to struct mp_join_info, which
-- the source also puts into the queue, stand there as names: Join takes what they point to as a
-- function.
pub mod Capable
pub mod Flows
pub mod Join
pub mod Match
use packetdrill_mptcp.Base.{
  ℕ, zero, suc, ◌+◌, ◌-◌, ◌*◌, ◌%◌, ◌^◌, ◌≡◌, ◌≢◌, Bool, true, false, List, [], ◌∷◌, ◌==◌, ◌&&◌,
  if◌then◌else◌, Option, none, some, Outcome, ok, status_err, fault, ◌>>=◌,
}
use packetdrill_mptcp.Queue.{
  Queue, queue_init, queue_front, queue_dequeue, queue_dequeue_val, queue_enqueue,
}

-- A C string, without its last byte.
abbrev pub Name : Type 0
Name = List ℕ

-- What the `value` of a variable points to.
pub data Value : Type 0 where
  packetdrill_key_ref kernel_key_ref : Value
  script_value : ℕ → Value

-- struct mp_var, whose name is the key of the table.
pub record MpVar : Type 0 where
  pub value : Value
  pub mptcp_subtype : ℕ
  pub script_defined : Bool

-- HASH_ADD_KEYPTR and HASH_FIND_STR.
pub record Uthash : Type 1 where
  pub Table : Type 0
  pub no_vars : Table
  pub hash_add : Name → MpVar → Table → Table
  pub hash_find : Name → Table → Option MpVar

-- The documented behaviour: a name that was not in the table is found after it was added, and the
-- others are found as before.
pub record UthashLaws (h : Uthash) : Type 0 where
  pub find_added :
      (n : Name) (v : MpVar) (t : h.Table)
      → h.hash_find n t ≡ none
      → h.hash_find n (h.hash_add n v t) ≡ some v
  pub find_other :
      (n o : Name) (v : MpVar) (t : h.Table)
      → o ≢ n
      → h.hash_find o (h.hash_add n v t) ≡ h.hash_find o t

pub data IpAddress : Type 0 where
  ip_v4 ip_v6 : List ℕ → IpAddress

-- struct mp_subflow; `none` is a field that the routine that made the subflow leaves as malloc gave
-- it.
pub record Subflow : Type 0 where
  pub src_ip : IpAddress
  pub dst_ip : IpAddress
  pub src_port : ℕ
  pub dst_port : ℕ
  pub packetdrill_addr_id : Option ℕ
  pub kernel_addr_id : Option ℕ
  pub kernel_rand_nbr : Option ℕ
  pub packetdrill_rand_nbr : Option ℕ
  pub ssn : ℕ

-- struct mp_state_s. The names in vars_queue are pointers: `none` is the null pointer.
pub record MpState (h : Uthash) : Type 0 where
  pub packetdrill_key : ℕ
  pub kernel_key : ℕ
  pub packetdrill_key_set : Bool
  pub kernel_key_set : Bool
  pub vars_queue : Queue (Option Name)
  pub vals_queue : Queue ℕ
  pub script_only_vals_queue : Queue ℕ
  pub vars : h.Table
  pub subflows : List Subflow
  pub last_packetdrill_addr_id : ℕ
  pub remote_idsn : ℕ
  pub idsn : ℕ
  pub remote_ssn : ℕ
  pub remote_last_pkt_length : ℕ

-- UNDEFINED, -1 in a u64.
abbrev pub undefined : ℕ
undefined = 2 ^ 64 - 1

module _ {h : Uthash} where
  -- init_mp_state does not set the keys and the list of subflows.
  unfoldable pub init_mp_state : MpState h → MpState h
  init_mp_state mp_state = record mp_state {
    packetdrill_key_set = false;
    kernel_key_set = false;
    vars_queue = queue_init mp_state.vars_queue;
    vals_queue = queue_init mp_state.vals_queue;
    script_only_vals_queue = queue_init mp_state.script_only_vals_queue;
    vars = h.no_vars;
    last_packetdrill_addr_id = 0;
    idsn = undefined;
    remote_idsn = undefined;
    remote_ssn = 0;
    remote_last_pkt_length = 0;
  }

  abbrev pub set_packetdrill_key : ℕ → MpState h → MpState h
  set_packetdrill_key sender_key mp_state = record mp_state {
    packetdrill_key = sender_key;
    packetdrill_key_set = true;
  }

  abbrev pub set_kernel_key : ℕ → MpState h → MpState h
  set_kernel_key receiver_key mp_state = record mp_state {
    kernel_key = receiver_key;
    kernel_key_set = true;
  }

  unfoldable pub enqueue_var : Name → MpState h → Outcome (MpState h)
  enqueue_var name mp_state = queue_enqueue (some name) mp_state.vars_queue >>= λ queue.
      ok (record mp_state { vars_queue = queue })

  unfoldable pub dequeue_var : MpState h → Outcome (Option Name × MpState h)
  dequeue_var mp_state = queue_dequeue none mp_state.vars_queue >>= λ (name, queue).
      ok (name, record mp_state { vars_queue = queue })

  abbrev pub find_mp_var : Name → MpState h → Option MpVar
  find_mp_var name mp_state = h.hash_find name mp_state.vars

  abbrev pub add_mp_var : Name → MpVar → MpState h → MpState h
  add_mp_var name var mp_state = record mp_state { vars = h.hash_add name var mp_state.vars }

  abbrev pub add_mp_var_key : Name → Value → MpState h → MpState h
  add_mp_var_key name key =
      add_mp_var name (record { value = key; mptcp_subtype = 0; script_defined = false })

  abbrev pub add_mp_var_script_defined : Name → ℕ → MpState h → MpState h
  add_mp_var_script_defined name value =
      add_mp_var name
        (record { value = script_value value; mptcp_subtype = 0; script_defined = true })

  -- `*(u64* )var->value`.
  abbrev pub read_value : MpState h → Value → ℕ
  read_value mp_state packetdrill_key_ref = mp_state.packetdrill_key
  read_value mp_state kernel_key_ref = mp_state.kernel_key
  read_value mp_state (script_value key) = key

  -- The null pointer is `none`. A name that is no variable makes the source read through a null
  -- pointer, since its check is commented out.
  unfoldable pub find_next_key : MpState h → Outcome (Option Value × MpState h)
  unfolding dequeue_var
  find_next_key mp_state = elim (dequeue_var mp_state) [
    | status_err ↦ ok (none, mp_state)
    | fault ↦ fault
    | ok (name, dequeued) ↦ elim name [
      | none ↦ ok (none, dequeued)
      | some var_name ↦ elim (find_mp_var var_name dequeued) [
        | none ↦ fault
        | some var ↦ ok (some var.value, dequeued)
      ]
    ]
  ]

  -- STATUS_ERR is returned as a u64, like a value.
  unfoldable pub find_next_value : MpState h → Outcome (ℕ × MpState h)
  find_next_value mp_state = elim (queue_dequeue_val mp_state.vals_queue) [
    | status_err ↦ ok (undefined, mp_state)
    | fault ↦ fault
    | ok (val, queue) ↦ ok (val, record mp_state { vals_queue = queue })
  ]
