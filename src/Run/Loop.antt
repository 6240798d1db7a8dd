-- ===== src/Run/Loop.antt =====
-- gtests/net/packetdrill/run.c: the loop of run_script goes through the script once, in order.
use packetdrill_mptcp.Base.{
  ℕ, suc, ◌≡◌, ◌⊎◌, Bool, true, false, ◌&&◌, List, [], ◌∷◌, none, Outcome, ok, status_err, fault,
  if◌then◌else◌,
}
use packetdrill_mptcp.Base.Int.{ℤ}
use packetdrill_mptcp.Run.{Event, State, EventRoutines, run_event}
use packetdrill_mptcp.Run.Order.{is_valid, is_forward, adjusted}

-- A routine returns, or it stops the program.
abbrev pub ReturnsOrDies : Outcome {0} Unit → Type 0
ReturnsOrDies answer = (answer ≡ ok tt) ⊎ (answer ≡ status_err)

-- No routine fails an assertion.
abbrev pub ReturnOrDie : EventRoutines → Type 0
ReturnOrDie routines =
    (k : ℕ) (event : Event)
    → ReturnsOrDies (routines.run_local_packet_event k event)
      × ReturnsOrDies (routines.run_system_call_event k event)
      × ReturnsOrDies (routines.run_command_event k event)
      × ReturnsOrDies (routines.run_code_event k event)

-- The same of the switch.
abbrev SwitchReturns : Bool → EventRoutines → Type 0
SwitchReturns is_wire_client routines =
    (k : ℕ) (event : Event)
    → is_valid event.event_type ≡ true
    → ReturnsOrDies (run_event is_wire_client routines k event)

abbrev pub has_returned : Outcome {0} Unit → Bool
has_returned (ok done) = true
has_returned status_err = false
has_returned fault = false

-- Whether the switch returns for each of the events.
abbrev pub all_return : Bool → EventRoutines → ℕ → List Event → Bool
all_return is_wire_client routines k [] = true
all_return is_wire_client routines k (event ∷ rest) =
    has_returned (run_event is_wire_client routines k event)
    && all_return is_wire_client routines (suc k) rest

-- The rest of a script, from an event that has been adjusted.
abbrev pub remaining :
    Bool → EventRoutines → State → (ℕ → ℤ) → ℕ → Event → List Event → Outcome (List Event)
remaining is_wire_client routines state clock k last events =
    if is_forward last events
      && all_return is_wire_client routines k (adjusted state clock k events)
    then ok (adjusted state clock k events)
    else status_err

-- An event with the rest of the script behind it.
abbrev pub with_rest :
    Bool → EventRoutines → State → (ℕ → ℤ) → ℕ → Event → List Event → Outcome (List Event)
with_rest is_wire_client routines state clock k event rest =
    if is_forward event rest
      && all_return is_wire_client routines k (adjusted state clock k (event ∷ rest))
    then ok (adjusted state clock k (event ∷ rest))
    else status_err

-- The state in which the loop starts: at no event.
abbrev pub started : State → List Event → State
started state events = record state { event_list = events; event = []; last_event = none }

-- The state from which the first event is run.
abbrev pub after_first : State → Event → List Event → State
after_first state event rest = record (started state (event ∷ rest)) {
  script_start_time_usecs = event.time_usecs;
}
