-- ===== src/Socket/Seq.antt =====
-- gtests/net/packetdrill/socket.h: sequence numbers in the script's terms and in the live
-- connection's.
use packetdrill_mptcp.Base.{ℕ, ◌^◌, ◌<◌, ◌≡◌, Bool, true, false, if◌then◌else◌, arith}
use packetdrill_mptcp.Socket.{
  Socket, add_32, remote_seq_script_to_live_offset, remote_seq_live_to_script_offset,
  local_seq_script_to_live_offset, local_seq_live_to_script_offset,
}

-- How a script numbers what one side sends: a SYN has the initial sequence number, and the place k
-- of the stream has the number k.
abbrev pub script_number : ℕ → Bool → ℕ → ℕ
script_number isn is_syn k = if is_syn then isn else k

-- How the live connection numbers it.
abbrev pub live_number : ℕ → Bool → ℕ → ℕ
live_number isn is_syn k = if is_syn then isn else add_32 isn k

-- The four offsets take the script's number of a SYN, or of the place k of a stream, to the live
-- number of the same, and back: of the local side by the initial numbers that the script and the
-- kernel chose, and of the remote side, for which the script and the live connection have one
-- initial number. All numbers are u32.
pub seq_offset-live_number :
    (socket : Socket) (is_syn : Bool) (k : ℕ)
    → socket.script.remote_isn ≡ socket.live.remote_isn
    → k < 2 ^ 32
    → socket.script.local_isn < 2 ^ 32
    → socket.live.local_isn < 2 ^ 32
    → socket.live.remote_isn < 2 ^ 32
    → (add_32
          (script_number socket.script.local_isn is_syn k)
          (local_seq_script_to_live_offset socket is_syn)
        ≡ live_number socket.live.local_isn is_syn k)
      × (add_32
            (live_number socket.live.local_isn is_syn k)
            (local_seq_live_to_script_offset socket is_syn)
          ≡ script_number socket.script.local_isn is_syn k)
      × (add_32
            (script_number socket.script.remote_isn is_syn k)
            (remote_seq_script_to_live_offset socket is_syn)
          ≡ live_number socket.live.remote_isn is_syn k)
      × (add_32
            (live_number socket.live.remote_isn is_syn k)
            (remote_seq_live_to_script_offset socket is_syn)
          ≡ script_number socket.script.remote_isn is_syn k)
unfolding remote_seq_live_to_script_offset local_seq_live_to_script_offset
    remote_seq_script_to_live_offset local_seq_script_to_live_offset
seq_offset-live_number socket true k e h sl ll rl =
    (omega arith, omega arith, omega arith, omega arith)
seq_offset-live_number socket false k e h sl ll rl =
    (omega arith, omega arith, omega arith, omega arith)
