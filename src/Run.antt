-- ===== src/Run.antt =====
-- gtests/net/packetdrill/run.c, run.h and script.h: the times of a script's events and the order in
-- which the interpreter takes them. A pointer into the linked list of events is the list from that
-- event on, and the null pointer the empty list. The times are s64, whose overflow C leaves
-- undefined; here they are whole numbers. An event is taken without the data that its routine
-- works on, but for end_usecs of a system call, which adjust_relative_event_times moves.

pub mod Time
pub mod Order
pub mod Loop
use packetdrill_mptcp.Base.{
  ℕ, zero, suc, Bool, true, false, not, ◌&&◌, ◌||◌, List, [], ◌∷◌, Option, none, some, Outcome, ok,
  status_err, fault, ◌>>=◌, if◌then◌else◌,
}
use packetdrill_mptcp.Base.Int.{ℤ, pos, negsuc, ◌-ℤ◌, ◌+ℤ◌, ltb_ℤ}

-- enum event_t.
pub data EventType : Type 0 where
  invalid_event packet_event syscall_event command_event code_event num_event_types : EventType

-- enum event_time_t.
pub data EventTime : Type 0 where
  absolute_time relative_time any_time absolute_range_time relative_range_time : EventTime
  num_time_types : EventTime

-- struct event, with end_usecs of its struct syscall_spec.
pub record Event : Type 0 where
  pub time_usecs : ℤ
  pub time_usecs_end : ℤ
  pub offset_usecs : ℤ
  pub time_type : EventTime
  pub event_type : EventType
  pub end_usecs : ℤ

abbrev pub is_absolute : EventTime → Bool
is_absolute absolute_time = true
is_absolute absolute_range_time = true
is_absolute time_type = false

abbrev pub is_event_time_absolute : Event → Bool
is_event_time_absolute event = is_absolute event.time_type

-- The times that are counted from now.
abbrev pub is_from_now : EventTime → Bool
is_from_now any_time = true
is_from_now relative_time = true
is_from_now relative_range_time = true
is_from_now time_type = false

abbrev pub equal_ℤ : ℤ → ℤ → Bool
equal_ℤ x y = not (ltb_ℤ x y) && not (ltb_ℤ y x)

-- end_usecs is SYSCALL_NON_BLOCKING, -1, unless the call blocks.
abbrev pub is_blocking_syscall : Event → Bool
is_blocking_syscall event = not (equal_ℤ event.end_usecs (negsuc 0))

-- struct state: the fields that tell the time and the place in the script, script->event_list and
-- config->tolerance_usecs.
pub record State : Type 0 where
  pub tolerance_usecs : ℤ
  pub event_list : List Event
  pub event : List Event
  pub last_event : Option Event
  pub script_start_time_usecs : ℤ
  pub script_last_time_usecs : ℤ
  pub live_start_time_usecs : ℤ

unfoldable pub script_time_to_live_time_usecs : State → ℤ → ℤ
script_time_to_live_time_usecs state script_time =
    state.live_start_time_usecs +ℤ (script_time -ℤ state.script_start_time_usecs)

unfoldable pub live_time_to_script_time_usecs : State → ℤ → ℤ
live_time_to_script_time_usecs state live_time =
    state.script_start_time_usecs +ℤ (live_time -ℤ state.live_start_time_usecs)

-- The two comparisons of verify_time against the ends of the time.
abbrev pub is_out_of_time : ℤ → ℤ → ℤ → ℤ → Bool
is_out_of_time expected expected_end actual tolerance =
    ltb_ℤ actual (expected -ℤ tolerance) || ltb_ℤ (expected_end +ℤ tolerance) actual

-- The message about a relative range reads the offset of the current event.
abbrev pub range_error : EventTime → List Event → Outcome {0} Unit
range_error relative_range_time [] = fault
range_error time_type events = status_err

abbrev pub verify_ends : EventTime → List Event → ℤ → ℤ → ℤ → ℤ → Outcome {0} Unit
verify_ends any_time events start end actual tolerance = ok tt
verify_ends absolute_range_time events start end actual tolerance =
    if is_out_of_time start end actual tolerance
    then range_error absolute_range_time events
    else ok tt
verify_ends relative_range_time events start end actual tolerance =
    if is_out_of_time start end actual tolerance
    then range_error relative_range_time events
    else ok tt
verify_ends time_type events start end actual tolerance =
    if is_out_of_time start start actual tolerance then status_err else ok tt

unfoldable pub verify_time : State → EventTime → ℤ → ℤ → ℤ → Outcome {0} Unit
verify_time state time_type script_usecs script_usecs_end live_usecs =
    verify_ends time_type state.event (script_usecs -ℤ state.script_start_time_usecs)
      (script_usecs_end -ℤ state.script_start_time_usecs)
      (live_usecs -ℤ state.live_start_time_usecs) state.tolerance_usecs

-- check_event_time stops the program when verify_time finds an error: `status_err`.
unfoldable pub check_event_time : State → ℤ → Outcome {0} Unit
check_event_time state live_usecs = elim state.event [
  | [] ↦ fault
  | event ∷ rest ↦
      verify_time state event.time_type event.time_usecs event.time_usecs_end live_usecs
]

abbrev pub adjusted_range_end : Event → ℤ → ℤ
adjusted_range_end event offset = elim event.time_type [
  | relative_range_time ↦ event.time_usecs_end +ℤ offset
  | _ ↦ event.time_usecs_end
]

-- The finish time of a blocking system call whose time is relative.
abbrev pub adjusted_call_end : Event → ℤ → ℤ
adjusted_call_end event offset = elim event.time_type [
  | relative_time ↦ elim event.event_type [
    | syscall_event ↦
        if is_blocking_syscall event then event.end_usecs +ℤ offset else event.end_usecs
    | _ ↦ event.end_usecs
  ]
  | _ ↦ event.end_usecs
]

-- adjust_relative_event_times, the clock having been read.
unfoldable pub adjust_relative_event_times : State → ℤ → Event → Event
adjust_relative_event_times state now_usecs event =
    let offset : ℤ = now_usecs -ℤ state.live_start_time_usecs in
    if is_from_now event.time_type
    then record event {
      offset_usecs = offset;
      time_usecs = event.time_usecs +ℤ offset;
      time_usecs_end = adjusted_range_end event offset;
      end_usecs = adjusted_call_end event offset;
    }
    else event

-- The first call of get_next_event: the list of a parsed script is not empty.
abbrev pub first_event : State → List Event → Outcome State
first_event state [] = fault
first_event state (event ∷ rest) =
    if equal_ℤ event.time_usecs (pos 0)
    then ok (record state { event = event ∷ rest; script_start_time_usecs = event.time_usecs })
    else status_err

abbrev pub next_event : State → List Event → Outcome State
next_event state [] = first_event state state.event_list
next_event state (event ∷ rest) = ok (record state {
  script_last_time_usecs = event.time_usecs;
  last_event = some event;
  event = rest;
})

abbrev pub is_backward : ℤ → Option Event → Event → Bool
is_backward last_time none event = false
is_backward last_time (some last) event =
    is_event_time_absolute last && is_event_time_absolute event && ltb_ℤ event.time_usecs last_time

-- The assert on the type, and the answer to the test that time does not go backward.
abbrev pub check_type : EventType → Bool → State → Outcome State
check_type invalid_event is_late state = fault
check_type num_event_types is_late state = fault
check_type event_type is_late state = if is_late then status_err else ok state

abbrev pub check_order : State → List Event → Outcome State
check_order state [] = ok state
check_order state (event ∷ rest) =
    check_type event.event_type (is_backward state.script_last_time_usecs state.last_event event)
      state

unfoldable pub get_next_event : State → Outcome State
get_next_event state = next_event state state.event >>= λ moved. check_order moved moved.event

-- An event that the loop has taken, in front of those that it takes later.
abbrev pub taken : Event → Option (Outcome (List Event)) → Option (Outcome (List Event))
taken event none = none
taken event (some later) = some (later >>= λ events. ok (event ∷ events))

-- The routines that run_script calls for an event, by the iteration of its loop in which they are
-- called: they return, or stop the program by die(), `status_err`.
pub record EventRoutines : Type 0 where
  pub run_local_packet_event : ℕ → Event → Outcome {0} Unit
  pub run_system_call_event : ℕ → Event → Outcome {0} Unit
  pub run_command_event : ℕ → Event → Outcome {0} Unit
  pub run_code_event : ℕ → Event → Outcome {0} Unit

-- The switch of run_script. A wire client leaves the packets to its server.
unfoldable pub run_event : Bool → EventRoutines → ℕ → Event → Outcome {0} Unit
run_event is_wire_client routines k event = elim event.event_type [
  | packet_event ↦ if is_wire_client then ok tt else routines.run_local_packet_event k event
  | syscall_event ↦ routines.run_system_call_event k event
  | command_event ↦ routines.run_command_event k event
  | code_event ↦ routines.run_code_event k event
  | invalid_event ↦ fault
  | num_event_types ↦ fault
]

-- What the loop does after an event has been run.
abbrev pub after_event :
    Outcome {0} Unit → Option (Outcome (List Event)) → Option (Outcome (List Event))
after_event fault later = some fault
after_event status_err later = some status_err
after_event (ok done) later = later

-- The loop of run_script: the events in the order in which they are run, each with its times as
-- adjust_relative_event_times leaves them, or `status_err` where the program stops. Iteration k
-- reads the clock at clock k. `none` is a loop that the fuel does not bring to its end.
unfoldable pub run_events :
    Bool → EventRoutines → (ℕ → ℤ) → ℕ → ℕ → State → Option (Outcome (List Event))
run_events is_wire_client routines clock zero k state = none
run_events is_wire_client routines clock (suc fuel) k state = elim (get_next_event state) [
  | fault ↦ some fault
  | status_err ↦ some status_err
  | ok moved ↦ elim moved.event [
    | [] ↦ some (ok [])
    | event ∷ rest ↦
        let adjusted : Event = adjust_relative_event_times moved (clock k) event in
        after_event (run_event is_wire_client routines k adjusted) (
          taken adjusted (
            run_events is_wire_client routines clock fuel (suc k)
              (record moved { event = adjusted ∷ rest })))
  ]
]
