-- ===== src/Examples/Runs.antt =====
-- The timing of events at concrete scripts.
use packetdrill_mptcp.Base.{ℕ, ◌+◌, ◌≡◌, ◌↔◌, [], none, ok}
use packetdrill_mptcp.Base.Int.{ℤ, pos, negsuc}
use packetdrill_mptcp.Run.{
  Event, EventTime, absolute_time, packet_event, State, verify_time, script_time_to_live_time_usecs,
  live_time_to_script_time_usecs, EventRoutines,
}
use packetdrill_mptcp.Run.Time.{script_time-live_time, verify_time-IsInTime, IsInTime}

abbrev at : EventTime → ℕ → Event
at time_type usecs = record {
  time_usecs = pos usecs;
  time_usecs_end = negsuc 0;
  offset_usecs = negsuc 0;
  time_type = time_type;
  event_type = packet_event;
  end_usecs = negsuc 0;
}

abbrev quiet : State
quiet = record {
  tolerance_usecs = pos 4000;
  event_list = [];
  event = [];
  last_event = none;
  script_start_time_usecs = pos 0;
  script_last_time_usecs = pos 0;
  live_start_time_usecs = pos 1000;
}

abbrev clock : ℕ → ℤ
clock k = pos (1500 + k)

abbrev returning : EventRoutines
returning = record {
  run_local_packet_event = λ k event. ok tt;
  run_system_call_event = λ k event. ok tt;
  run_command_event = λ k event. ok tt;
  run_code_event = λ k event. ok tt;
}

verify_time-IsInTime_example :
    (verify_time quiet absolute_time (pos 100) (negsuc 0) (pos 5000) ≡ ok tt)
    ↔ IsInTime quiet absolute_time (pos 100) (negsuc 0) (pos 5000)
verify_time-IsInTime_example =
    verify_time-IsInTime quiet absolute_time (pos 100) (negsuc 0) (pos 5000)

script_time-live_time_example :
    (live_time_to_script_time_usecs quiet (script_time_to_live_time_usecs quiet (pos 20)) ≡ pos 20)
    × (script_time_to_live_time_usecs quiet (live_time_to_script_time_usecs quiet (pos 20))
        ≡ pos 20)
script_time-live_time_example = script_time-live_time quiet (pos 20)
